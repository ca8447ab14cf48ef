-- ===== src/Memory/Returns.antt =====
-- `Store`: item returns, and the quantities that a transaction has had returned.
use kasirinaja.Prelude.{
  ℤ, pos, ◌||◌, String, List, [], ◌∷◌, Dict, lookup, insert, get_or, values, str_eq, add64,
  trim_space, if◌then◌else◌,
}
use kasirinaja.Domain.{Env, or_new_id, or_now, ItemReturn, ItemReturnLine}
use kasirinaja.Store.{invalid_transaction, Action, pure, gets, raise_if, modify, ◌>>◌}
use kasirinaja.Memory.State.{Store}
use kasirinaja.Memory.Checkout.{is_empty}

-- `result[line.SKU] += line.Qty` for each line
unfoldable pub add_returned : List ItemReturnLine → Dict ℤ → Dict ℤ
add_returned [] qtys = qtys
add_returned (line ∷ lines) qtys =
    add_returned lines
      (insert line.sku (add64 (get_or (lookup line.sku qtys) (pos 0)) line.qty) qtys)

unfoldable pub returned_qty : String → List ItemReturn → Dict ℤ → Dict ℤ
unfolding add_returned
returned_qty id [] qtys = qtys
returned_qty id (r ∷ rs) qtys =
    returned_qty id rs
      (if str_eq r.original_transaction_id id then add_returned r.return_items qtys else qtys)

module _ {F : Type 0} where
  unfoldable pub get_returned_qty_by_transaction : String → Action (Store F) (Dict ℤ)
  unfolding returned_qty
  get_returned_qty_by_transaction id = gets (λ s. returned_qty id (values s.item_returns_by_id) [])

  unfoldable pub create_item_return : Env → ItemReturn → Action (Store F) ItemReturn
  unfolding or_new_id or_now is_empty
  create_item_return env request = do
    let item_return = record request {
      id = or_new_id env "ret" 0 request.id;
      created_at = or_now env 0 request.created_at;
    }
    raise_if
        (str_eq (trim_space request.original_transaction_id) "" || is_empty request.return_items)
        invalid_transaction
    modify λ s. record s {
      item_returns_by_id = insert item_return.id item_return s.item_returns_by_id;
    }
    pure item_return
