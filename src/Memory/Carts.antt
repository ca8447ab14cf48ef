-- ===== src/Memory/Carts.antt =====
-- `Store`: carts on hold.
pub mod Hold
use kasirinaja.Prelude.{
  Bool, ◌||◌, ◌&&◌, not, String, List, lookup, insert, erase, values, is_some, str_eq, str_lt,
  filter, take, ltb, ◌==◌, ltb_ℤ, ℤ, pos, pos_part, sort_by, if◌then◌else◌,
}
use kasirinaja.Domain.{Time, Env, or_new_id, or_now, HeldCart}
use kasirinaja.Store.{
  not_found, invalid_transaction, Action, pure, gets, or_raise, raise_if, modify, ◌>>=◌, ◌>>◌,
}
use kasirinaja.Memory.State.{Store}
use kasirinaja.Memory.Checkout.{is_empty}

-- The latest first, and of two at one time the greater identifier first.
unfoldable pub latest_first : Time → String → Time → String → Bool
latest_first at id at' id' = if at == at' then str_lt id' id else ltb at' at

-- `if limit > 0 && len(result) > limit { result = result[:limit] }`
unfoldable pub limited {ℓ} : {A : Type ℓ} → ℤ → List A → List A
limited limit xs = if ltb_ℤ (pos 0) limit then take (pos_part limit) xs else xs

module _ {F : Type 0} where
  unfoldable pub create_held_cart : Env → HeldCart F → Action (Store F) (HeldCart F)
  unfolding or_new_id or_now is_empty
  create_held_cart env request = do
    let held = record request {
      id = or_new_id env "hold" 0 request.id;
      held_at = or_now env 0 request.held_at;
    }
    raise_if
        (str_eq request.store_id "" || str_eq request.terminal_id "" || is_empty request.cart_items)
        invalid_transaction
    modify λ s. record s { held_carts_by_id = insert held.id held s.held_carts_by_id }
    pure held

  -- An empty filter lets every cart through.
  unfoldable pub held_matches : String → String → HeldCart F → Bool
  held_matches store terminal held =
      (str_eq store "" || str_eq held.store_id store)
      && (str_eq terminal "" || str_eq held.terminal_id terminal)

  unfoldable pub list_held_carts : String → String → ℤ → Action (Store F) (List (HeldCart F))
  unfolding held_matches latest_first limited
  list_held_carts store terminal limit = gets λ s. limited limit (
      sort_by (λ a b. latest_first a.held_at a.id b.held_at b.id)
        (filter (held_matches store terminal) (values s.held_carts_by_id)))

  unfoldable pub pop_held_cart : String → Action (Store F) (HeldCart F)
  pop_held_cart id = do
    held ← or_raise (← gets (λ s. lookup id s.held_carts_by_id)) not_found
    modify λ s. record s { held_carts_by_id = erase id s.held_carts_by_id }
    pure held

  unfoldable pub delete_held_cart : String → Action (Store F) (Unit {0})
  delete_held_cart id = do
    held ← gets (λ s. lookup id s.held_carts_by_id)
    raise_if (not (is_some held)) not_found
    modify λ s. record s { held_carts_by_id = erase id s.held_carts_by_id }
