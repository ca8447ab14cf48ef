-- ===== src/Memory/Carts/Hold.antt =====
-- A held cart can be taken back once.
use kasirinaja.Prelude.{
  ◌≡◌, ◌≢◌, String, some, none, lookup, lookup-insert, lookup-erase, eq_iff, eq_refl, arith, insert,
  erase, ap,
}
use kasirinaja.Domain.{Env, HeldCart}
use kasirinaja.Store.{ok, err, not_found}
use kasirinaja.Memory.State.{Store}
use kasirinaja.Memory.Carts.{create_held_cart, pop_held_cart}

module _ {F : Type 0} where
  create_held_cart-ok :
      (env : Env) (request : HeldCart F) (s : Store F) {held : HeldCart F} {s' : Store F}
      → create_held_cart env request s ≡ (ok held, s')
      → s'.held_carts_by_id ≡ insert held.id held s.held_carts_by_id
  unfolding create_held_cart
  create_held_cart-ok env request s h = ground arith

  pop_held_cart-some :
      (id : String) (s : Store F) {held : HeldCart F}
      → lookup id s.held_carts_by_id ≡ some held
      → pop_held_cart id s ≡ (ok held, record s { held_carts_by_id = erase id s.held_carts_by_id })
  unfolding pop_held_cart
  pop_held_cart-some id s h = ground arith

  pop_held_cart-none :
      (id : String) (s : Store F)
      → lookup id s.held_carts_by_id ≡ none
      → pop_held_cart id s ≡ (err not_found, s)
  unfolding pop_held_cart
  pop_held_cart-none id s h = ground arith

  -- What was put on hold is what is taken back, a second attempt finds nothing, and every other held
  -- cart is as it was before the hold.
  pub hold_and_pop :
      (env : Env) (request : HeldCart F) (s : Store F) {held : HeldCart F} {s' : Store F}
      → create_held_cart env request s ≡ (ok held, s')
      → (after : Store F) × (pop_held_cart held.id s' ≡ (ok held, after))
        × (pop_held_cart held.id after ≡ (err not_found, after))
        × ((id : String)
            → id ≢ held.id
            → lookup id after.held_carts_by_id ≡ lookup id s.held_carts_by_id)
  hold_and_pop env request s {held} {s'} h =
      let e = create_held_cart-ok env request s h in
      let there : lookup held.id s'.held_carts_by_id ≡ some held = rw (e, lookup-insert, eq_refl) in
      let after = record s' { held_carts_by_id = erase held.id s'.held_carts_by_id } in
      let gone : lookup held.id (erase held.id s'.held_carts_by_id) ≡ none =
        rw (lookup-erase, eq_refl) in
      (
        after,
        pop_held_cart-some held.id s' there,
        pop_held_cart-none held.id after gone,
        λ id other. ground (
          arith,
          e,
          eq_iff held.id id,
          lookup-erase id held.id s'.held_carts_by_id,
          ap (lookup id) e,
          lookup-insert id held.id held s.held_carts_by_id,
        ),
      )
