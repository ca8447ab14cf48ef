-- ===== src/Memory/Sales.antt =====
-- `Store`: finding and voiding transactions, refunds and item returns.
pub mod Pointers
pub mod Void
use kasirinaja.Prelude.{
  ℕ, suc, ℤ, pos, not, String, none, some, List, [], ◌∷◌, ◌++◌, lookup, insert_inner, set, str_eq,
  ltb_ℤ, add64, if◌then◌else◌,
}
use kasirinaja.Domain.{
  Time, Env, TransactionLine, Transaction, InventoryLot, tx_status_paid, tx_status_voided,
}
use kasirinaja.Store.{
  not_found, invalid_transaction, Action, pure, gets, or_raise, raise_if, modify, ◌>>=◌, ◌>>◌,
}
use kasirinaja.Memory.State.{Store, stock_of, lots_of}
use kasirinaja.Memory.Checkout.{find_by_id, find_by_idem, ensure_lots}
use Prim.Native.String.{◌++◌ as str_append}

unfoldable pub max_int64 : ℤ → ℤ → ℤ
max_int64 a b = if ltb_ℤ b a then a else b

module _ {F : Type 0} where
  unfoldable pub find_transaction_by_idempotency : String → Action (Store F) (Transaction F)
  find_transaction_by_idempotency key = do or_raise (← gets (find_by_idem key)) not_found

  unfoldable pub find_transaction_by_id : String → Action (Store F) (Transaction F)
  find_transaction_by_id id = do or_raise (← gets (find_by_id id)) not_found

  -- A write through the pointer that `transactionsByID` holds.
  unfoldable pub write_transaction : String → Transaction F → Store F → Store F
  write_transaction id tx s = elim (lookup id s.transactions_by_id) [
    | none ↦ s
    | some p ↦ record s { heap = set s.heap p tx }
  ]

  -- The lot that a voided line goes back into.
  unfoldable pub void_lot : Env → Time → Transaction F → ℕ → TransactionLine F → InventoryLot
  unfolding max_int64
  void_lot env at tx i item = record {
    id = env.new_id "lot" i;
    store_id = tx.store_id;
    sku = item.sku;
    lot_code = str_append "VOID-" tx.id;
    expiry_date = none;
    qty_received = item.qty;
    qty_available = item.qty;
    cost_cents = max_int64 (pos 1) item.unit_price_cents;
    source_type = "void";
    source_id = tx.id;
    notes = "auto restock from void";
    received_at = at;
  }

  -- A transaction is on record only for a store that has a stock, and no store loses its stock, so that
  -- the write never meets the missing inner map on which Go would panic.
  unfoldable pub restock_line :
      Env → Time → Transaction F → ℕ → TransactionLine F → Store F → Store F
  unfolding void_lot
  restock_line env at tx i item s =
      let store = tx.store_id in
      record s {
        inventory =
            insert_inner store item.sku (add64 (stock_of store item.sku s) item.qty) s.inventory;
        inventory_lots =
            insert_inner store item.sku
              (lots_of store item.sku s ++ (void_lot env at tx i item ∷ [])) s.inventory_lots;
      }

  unfoldable pub restock :
      Env → Time → Transaction F → ℕ → List (TransactionLine F) → Store F → Store F
  unfolding restock_line
  restock env at tx i [] s = s
  restock env at tx i (item ∷ items) s =
      restock env at tx (suc i) items (restock_line env at tx i item s)

  unfoldable pub voided : String → Time → Transaction F → Transaction F
  voided reason at tx = record tx {
    status = tx_status_voided;
    void_reason = reason;
    voided_at = some at;
  }

  unfoldable pub void_transaction : Env → String → String → Time → Action (Store F) (Transaction F)
  void_transaction env id reason at = do
    tx ← or_raise (← gets (find_by_id id)) not_found
    raise_if (not (str_eq tx.status tx_status_paid)) invalid_transaction
    modify (ensure_lots tx.store_id)
    modify (restock env at tx 0 tx.items)
    modify (write_transaction id (voided reason at tx))
    pure (voided reason at tx)
