-- ===== src/Memory/Checkout.antt =====
-- `Store.CreateCheckout`: validation of every line against products, stock and lots, the amounts,
-- the payment, and the sale itself.
pub mod Inversion
pub mod Lines
pub mod Sale
pub mod Tax
pub mod Retry
pub mod Stock
pub mod Fefo
use kasirinaja.Prelude.{
  ℤ, pos, Bool, true, false, ◌&&◌, ◌||◌, not, String, Option, none, some, List, [], ◌∷◌, ◌++◌, Dict,
  lookup, insert, insert_inner, is_some, get_elem?, length, str_eq, ltb_ℤ, add64, sub64, mul64,
  if◌then◌else◌, Float64, foldl,
}
use kasirinaja.Domain.{
  Time, Env, or_new_id, or_now, Product, TransactionLine, Transaction, InventoryLot, tx_status_paid,
}
use kasirinaja.Store.{
  Error, insufficient_stock, invalid_transaction, message, Result, ok, err, Action, pure, gets,
  lift, raise_if, modify, ◌>>=◌, ◌>>◌, bind, fold_result,
}
use kasirinaja.Memory.State.{Store, stock_of, lots_of}
use kasirinaja.Memory.Lots.{now_date_utc, available_by_lot, sort_lots, consume}
use Prim.Native.String.{◌++◌ as str_append}

unfoldable pub is_empty {ℓ} : {A : Type ℓ} → List A → Bool
is_empty [] = true
is_empty (_ ∷ _) = false

-- `fmt.Errorf("sku %s unavailable", sku)`
unfoldable pub sku_unavailable : String → Error
sku_unavailable sku = message (str_append "sku " (str_append sku " unavailable"))

-- `fmt.Errorf("store %s unavailable", storeID)`
unfoldable pub store_unavailable : String → Error
store_unavailable store = message (str_append "store " (str_append store " unavailable"))

-- The lots of an article, if there are any, cannot cover the quantity.
unfoldable pub lots_short : Time → List InventoryLot → ℤ → Bool
unfolding is_empty
lots_short today lots qty = not (is_empty lots) && ltb_ℤ (available_by_lot today (pos 0) lots) qty

module _ {F : Type 0} where
  -- `s.transactionsByID[id]`, through the pointer
  unfoldable pub find_by_id : String → Store F → Option (Transaction F)
  find_by_id id s = elim (lookup id s.transactions_by_id) [
    | none ↦ none
    | some p ↦ get_elem? s.heap p
  ]

  -- `s.transactionsByIdem[key]`, through the pointer
  unfoldable pub find_by_idem : String → Store F → Option (Transaction F)
  find_by_idem key s = elim (lookup key s.transactions_by_idem) [
    | none ↦ none
    | some p ↦ get_elem? s.heap p
  ]

  unfoldable pub active_product : Dict (Product F) → String → Result (Product F)
  unfolding sku_unavailable
  active_product products sku = elim (lookup sku products) [
    | none ↦ err (sku_unavailable sku)
    | some product ↦ if product.active then ok product else err (sku_unavailable sku)
  ]

  unfoldable pub priced_line : Product F → TransactionLine F → TransactionLine F
  priced_line product item = record {
    sku = item.sku;
    qty = item.qty;
    unit_price_cents = product.price_cents;
    margin_rate = product.margin_rate;
  }

  -- One round of the validation loop, on the recomputed items and the subtotal.
  unfoldable pub check_line :
      Dict (Product F)
      → Time
      → (String → ℤ)
      → (String → List InventoryLot)
      → List (TransactionLine F) × ℤ
      → TransactionLine F
      → Result (List (TransactionLine F) × ℤ)
  unfolding active_product lots_short priced_line
  check_line products today stock lots (items, subtotal) item =
      if ltb_ℤ item.qty (pos 1)
      then err invalid_transaction
      else (bind (active_product products item.sku) λ product.
          if ltb_ℤ (sub64 (stock item.sku) item.qty) (pos 0)
          then err insufficient_stock
          else (if lots_short today (lots item.sku) item.qty
              then err insufficient_stock
              else ok (
                items ++ (priced_line product item ∷ []),
                add64 subtotal (mul64 item.qty product.price_cents),
              )))

  -- One round of the loop that takes the sold units off the stock and off the lots.
  unfoldable pub sell_line : Time → String → Store F → TransactionLine F → Store F
  unfolding is_empty
  sell_line today store s item =
      let left = sub64 (stock_of store item.sku s) item.qty in
      let lots = lots_of store item.sku s in
      let sold = record s { inventory = insert_inner store item.sku left s.inventory } in
      if is_empty lots then sold else record sold {
        inventory_lots =
            insert_inner store item.sku (consume today item.qty (sort_lots lots)) s.inventory_lots;
      }

  -- `s.inventoryLots[storeID]` is made where it is missing.
  unfoldable pub ensure_lots : String → Store F → Store F
  ensure_lots store s =
      if is_some (lookup store s.inventory_lots)
      then s
      else record s { inventory_lots = insert store [] s.inventory_lots }

  -- The new transaction, and the two maps that point to it.
  unfoldable pub save_transaction : Transaction F → Store F → Store F
  save_transaction tx s =
      let p = length s.heap in
      record s {
        heap = s.heap ++ (tx ∷ []);
        transactions_by_id = insert tx.id p s.transactions_by_id;
        transactions_by_idem = insert tx.idempotency_key p s.transactions_by_idem;
      }

  -- Cash has to cover the total, and gives change.
  unfoldable pub pay : Transaction F → Result (Transaction F)
  pay tx =
      if str_eq tx.payment_method "cash"
      then (if ltb_ℤ tx.cash_received_cents tx.total_cents
          then err invalid_transaction
          else ok (record tx { change_cents = sub64 tx.cash_received_cents tx.total_cents }))
      else ok (record tx { change_cents = pos 0 })

module _ {F : Type 0} ⦃fl : Float64 F⦄ where
  open fl use {of_int, mul, div, lt, round}

  -- `int64(math.Round(float64(cents) * percent / 100))`
  unfoldable pub percent_of : ℤ → F → ℤ
  percent_of cents percent = round (div (mul (of_int cents) percent) (of_int (pos 100)))

  -- The fields that the store computes itself.
  unfoldable pub priced : Env → Transaction F → List (TransactionLine F) → ℤ → Transaction F
  unfolding percent_of or_new_id or_now
  priced env tx items subtotal =
      let tax_base = sub64 subtotal tx.discount_cents in
      let tax = percent_of tax_base tx.tax_rate_percent in
      record tx {
        id = or_new_id env "tx" 0 tx.id;
        created_at = or_now env 1 tx.created_at;
        items = items;
        subtotal_cents = subtotal;
        tax_cents = tax;
        total_cents = add64 tax_base tax;
        status = if str_eq tx.status "" then tx_status_paid else tx.status;
      }

  -- `CreateCheckout` from the test of the items on, for a key that is not known.
  unfoldable pub fresh_checkout : Env → Transaction F → Action (Store F) (Transaction F)
  fresh_checkout env tx = do
    raise_if (is_empty tx.items) invalid_transaction
    s ← gets (λ s. s)
    raise_if (not (is_some (lookup tx.store_id s.inventory))) (store_unavailable tx.store_id)
    modify (ensure_lots tx.store_id)
    let today = now_date_utc (env.now 0)
    let check =
        check_line s.products today (λ sku. stock_of tx.store_id sku s)
          (λ sku. lots_of tx.store_id sku s)
    (items, subtotal) ← lift (fold_result check ([], pos 0) tx.items)
    raise_if (ltb_ℤ tx.discount_cents (pos 0) || ltb_ℤ subtotal tx.discount_cents)
        invalid_transaction
    raise_if (lt tx.tax_rate_percent (of_int (pos 0)) || lt (of_int (pos 100)) tx.tax_rate_percent)
        invalid_transaction
    paid ← lift (pay (priced env tx items subtotal))
    modify (λ s. foldl (sell_line today tx.store_id) s paid.items)
    modify (save_transaction paid)
    pure paid

  unfoldable pub create_checkout : Env → Transaction F → Action (Store F) (Transaction F)
  create_checkout env tx = do
    raise_if (str_eq tx.idempotency_key "") invalid_transaction
    found ← gets (find_by_idem tx.idempotency_key)
    elim found [ some existing ↦ pure existing | none ↦ fresh_checkout env tx ]
