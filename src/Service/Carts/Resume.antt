-- ===== src/Service/Carts/Resume.antt =====
-- A cart that was taken back, or thrown away, cannot be taken back again.
use kasirinaja.Prelude.{
  ◌≡◌, String, none, some, lookup, erase, lookup-erase, str_eq, eq_refl, trim_space, arith, ap, ◌∙◌,
  Option-cases, inl, inr, false,
}
use kasirinaja.Domain.{Env, HoldCartResponse}
use kasirinaja.Store.{ok, err, not_found}
use kasirinaja.Memory.State.{Store}
use kasirinaja.Memory.Carts.{pop_held_cart}
use kasirinaja.Memory.Catalog.{create_audit_log}
use kasirinaja.Service.Context.{Context, log_audit}
use kasirinaja.Service.Carts.{resume_held_cart, discard_held_cart, cart_detail}

module _ {F : Type 0} where
  log_audit-carts :
      (ctx : Context) (env : Env) (store action type id detail : String) (s : Store F)
      → ((log_audit ctx env store action type id detail s).0 ≡ ok tt)
        × ((log_audit ctx env store action type id detail s).1.held_carts_by_id
            ≡ s.held_carts_by_id)
  unfolding log_audit create_audit_log
  log_audit-carts ctx env store action type id detail s = ground arith

  resume-ok :
      (ctx : Context) (env : Env) (asked : String) (s : Store F) {response : HoldCartResponse F}
      {s' : Store F}
      → resume_held_cart ctx env asked s ≡ (ok response, s')
      → (lookup (trim_space asked) s.held_carts_by_id ≡ some response.held_cart)
        × (s'.held_carts_by_id ≡ erase (trim_space asked) s.held_carts_by_id)
        × (str_eq (trim_space asked) "" ≡ false)
  unfolding resume_held_cart pop_held_cart
  resume-ok ctx env asked s {response} {s'} h =
      let id = trim_space asked in
      elim (Option-cases (lookup id s.held_carts_by_id)) [
        | inl e ↦ ground arith
        | inr (held, e) ↦
            let popped = record s { held_carts_by_id = erase id s.held_carts_by_id } in
            let (noted, same) =
              log_audit-carts ctx env held.store_id "cart_resume" "held_cart" held.id
                (cart_detail held.cart_items) popped in
            (ground arith, ground arith, ground arith)
      ]

  -- A held cart that is resumed is the one that was on hold, and after that neither resuming nor
  -- discarding it finds anything.
  pub resume_held_cart_once :
      (ctx : Context) (env env' : Env) (asked : String) (s : Store F)
      {response : HoldCartResponse F} {s' : Store F}
      → resume_held_cart ctx env asked s ≡ (ok response, s')
      → (lookup (trim_space asked) s.held_carts_by_id ≡ some response.held_cart)
        × (resume_held_cart ctx env' asked s' ≡ (err not_found, s'))
        × (discard_held_cart ctx env' asked s' ≡ (err not_found, s'))
  unfolding resume_held_cart discard_held_cart pop_held_cart
  resume_held_cart_once ctx env env' asked s {response} {s'} h =
      let (there, after, given) = resume-ok ctx env asked s h in
      let id = trim_space asked in
      let cleared : lookup id (erase id s.held_carts_by_id) ≡ none = rw (lookup-erase, eq_refl) in
      let gone : lookup id s'.held_carts_by_id ≡ none = ap (lookup id) after ∙ cleared in
      (there, ground arith, ground arith)
