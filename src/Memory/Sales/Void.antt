-- ===== src/Memory/Sales/Void.antt =====
-- Voiding a transaction: what goes back on the shelf, and what later calls see.
use kasirinaja.Prelude.{
  ℕ, suc, ◌+◌, ◌<◌, ◌^◌, pos, pos_part, ◌≡◌, ◌≢◌, refl, sym, ◌∙◌, ap, false, ◌&&◌, String, some,
  List, [], ◌∷◌, lookup, lookup_inner-insert_inner, str_eq, eq_iff, eq_refl, add64, add64_pos, map,
  All, arith, if◌then◌else◌, Bool-cases, inl, inr,
}
use kasirinaja.Domain.{Time, Env, TransactionLine, Transaction, tx_status_paid, tx_status_voided}
use kasirinaja.Store.{ok, err, invalid_transaction}
use kasirinaja.Memory.State.{Store, stock_of}
use kasirinaja.Memory.Lots.Fefo.{IsCount, Count-cases}
use kasirinaja.Memory.Checkout.{find_by_id, find_by_idem, ensure_lots}
use kasirinaja.Memory.Checkout.Lines.{order_of}
use kasirinaja.Memory.Checkout.Stock.{demand, stock_of-ensure_lots}
use kasirinaja.Memory.Sales.Pointers.{find-write_transaction}
use kasirinaja.Memory.Sales.{restock_line, restock, voided, write_transaction, void_transaction}

module _ {F : Type 0} where
  -- A successful void of a transaction, in one equation for each of its results.
  void_transaction-ok :
      (env : Env) (id reason : String) (at : Time) (s : Store F) {tx gone : Transaction F}
      {s' : Store F}
      → void_transaction env id reason at s ≡ (ok gone, s')
      → find_by_id id s ≡ some tx
      → (tx.status ≡ tx_status_paid)
        × (gone ≡ voided reason at tx)
        × (s'
            ≡ write_transaction id
                (voided reason at tx)
                (restock env at tx 0 tx.items (ensure_lots tx.store_id s)))
  unfolding void_transaction
  void_transaction-ok env id reason at s {tx} h e = ground (arith, eq_iff tx.status tx_status_paid)

  stock_of-restock_line :
      (env : Env) (at : Time) (tx : Transaction F) (i : ℕ) (item : TransactionLine F)
      (store sku : String) (s : Store F)
      → stock_of store sku (restock_line env at tx i item s) ≡ (
          if str_eq tx.store_id store && str_eq item.sku sku
          then add64 (stock_of tx.store_id item.sku s) item.qty
          else stock_of store sku s)
  unfolding stock_of restock_line
  stock_of-restock_line env at tx i item store sku s = ground (
    arith,
    eq_iff tx.store_id store,
    eq_iff item.sku sku,
    lookup_inner-insert_inner store sku tx.store_id item.sku
        (add64 (stock_of tx.store_id item.sku s) item.qty) s.inventory,
  )

  stock_of-restock :
      (env : Env) (at : Time) (tx : Transaction F) (i : ℕ) (items : List (TransactionLine F))
      (sku : String) (s : Store F) (n : ℕ)
      → stock_of tx.store_id sku s ≡ pos n
      → All (λ line. IsCount line.qty) items
      → n + demand sku (map order_of items) < 2 ^ 63
      → stock_of tx.store_id sku (restock env at tx i items s)
        ≡ pos (n + demand sku (map order_of items))
  unfolding restock
  stock_of-restock env at tx i [] sku s n e c h = ground arith
  stock_of-restock env at tx i (item ∷ items) sku s n e c h =
      let (q, eq, hq) = Count-cases item.qty c.0 in
      let step = stock_of-restock_line env at tx i item tx.store_id sku s in
      let rest = λ (m : ℕ).
        stock_of-restock env at tx (suc i) items sku (restock_line env at tx i item s) m in
      elim (Bool-cases (str_eq item.sku sku)) [
        | inl same ↦
            let here : item.sku ≡ sku = (eq_iff item.sku sku).0 same in
            let back : stock_of tx.store_id sku (restock_line env at tx i item s) ≡ pos (n + q) =
              ground (arith, eq_refl tx.store_id, add64_pos n q) in
            ground (arith, rest (n + q) back)
        | inr other ↦ ground (arith, rest n)
      ]

  stock_of-restock_other :
      (env : Env) (at : Time) (tx : Transaction F) (i : ℕ) (items : List (TransactionLine F))
      (store sku : String) (s : Store F)
      → store ≢ tx.store_id
      → stock_of store sku (restock env at tx i items s) ≡ stock_of store sku s
  unfolding restock
  stock_of-restock_other env at tx i [] store sku s h = refl
  stock_of-restock_other env at tx i (item ∷ items) store sku s h =
      stock_of-restock_other env at tx (suc i) items store sku (restock_line env at tx i item s) h
      ∙ ground (arith, eq_iff tx.store_id store, stock_of-restock_line env at tx i item store sku s)

  pub stock_of-write_transaction :
      (id : String) (tx : Transaction F) (store sku : String) (s : Store F)
      → stock_of store sku (write_transaction id tx s) ≡ stock_of store sku s
  unfolding stock_of write_transaction
  stock_of-write_transaction id tx store sku s = ground arith

  -- A successful void puts exactly what the transaction sold of each article back on the stock of
  -- its store, and leaves every other store alone, if the stock and the sold quantities are counts
  -- of units and the sums are Go integers.
  pub void_transaction_stock :
      (env : Env) (id reason : String) (at : Time) (s : Store F) {tx gone : Transaction F}
      {s' : Store F}
      → void_transaction env id reason at s ≡ (ok gone, s')
      → find_by_id id s ≡ some tx
      → All (λ line. IsCount line.qty) tx.items
      → (sku : String) → IsCount (stock_of tx.store_id sku s)
      → pos_part (stock_of tx.store_id sku s) + demand sku (map order_of tx.items) < 2 ^ 63
      → (stock_of tx.store_id sku s'
          ≡ pos (pos_part (stock_of tx.store_id sku s) + demand sku (map order_of tx.items)))
        × ((store : String) → store ≢ tx.store_id → stock_of store sku s' ≡ stock_of store sku s)
  void_transaction_stock env id reason at s {tx} {gone} {s'} h found counts sku held room =
      let after = (void_transaction-ok env id reason at s h found).2 in
      let start = ensure_lots tx.store_id s in
      let (n, e, hn) = Count-cases (stock_of tx.store_id sku s) held in
      let held_n : pos_part (stock_of tx.store_id sku s) ≡ n = ap pos_part e in
      let back =
        stock_of-restock env at tx 0 tx.items sku start n
          (stock_of-ensure_lots tx.store_id tx.store_id sku s ∙ e) counts (omega arith) in
      let written = λ (store : String).
        ap (stock_of store sku) after
        ∙ stock_of-write_transaction id (voided reason at tx) store sku
            (restock env at tx 0 tx.items start) in
      (
        written tx.store_id ∙ back ∙ ap pos (omega arith),
        λ store other.
            written store
            ∙ stock_of-restock_other env at tx 0 tx.items store sku start other
            ∙ stock_of-ensure_lots tx.store_id store sku s,
      )

  -- restocking leaves the transactions alone
  pointers-restock :
      (env : Env) (at : Time) (tx : Transaction F) (i : ℕ) (items : List (TransactionLine F))
      (s : Store F)
      → ((restock env at tx i items s).heap ≡ s.heap)
        × ((restock env at tx i items s).transactions_by_id ≡ s.transactions_by_id)
        × ((restock env at tx i items s).transactions_by_idem ≡ s.transactions_by_idem)
  unfolding restock restock_line
  pointers-restock env at tx i [] s = (refl, refl, refl)
  pointers-restock env at tx i (item ∷ items) s =
      pointers-restock env at tx (suc i) items (restock_line env at tx i item s)

  pointers-ensure_lots :
      (store : String) (s : Store F)
      → ((ensure_lots store s).heap ≡ s.heap)
        × ((ensure_lots store s).transactions_by_id ≡ s.transactions_by_id)
        × ((ensure_lots store s).transactions_by_idem ≡ s.transactions_by_idem)
  unfolding ensure_lots
  pointers-ensure_lots store s = ground arith

  voided_status :
      (reason : String) (at : Time) (tx : Transaction F)
      → (voided reason at tx).status ≡ tx_status_voided
  unfolding voided
  voided_status reason at tx = refl

  find_same :
      (s s' : Store F)
      → s.heap ≡ s'.heap
      → s.transactions_by_id ≡ s'.transactions_by_id
      → (id : String) → find_by_id id s ≡ find_by_id id s'
  unfolding find_by_id
  find_same s s' e f id = rw (e, f)

  -- only a paid transaction is voided
  void_again :
      (env : Env) (id reason : String) (at : Time) (s : Store F) {tx : Transaction F}
      → find_by_id id s ≡ some tx
      → tx.status ≡ tx_status_voided
      → void_transaction env id reason at s ≡ (err invalid_transaction, s)
  unfolding void_transaction
  void_again env id reason at s {tx} found e =
      let unpaid : str_eq tx.status tx_status_paid ≡ false = rw e refl in ground arith

  -- After a successful void both the identifier and the idempotency key lead to the voided
  -- transaction, if they led to one and the same before, and voiding it again is refused and
  -- changes nothing.
  pub void_transaction_seen :
      (env env' : Env) (id key reason reason' : String) (at at' : Time) (s : Store F)
      {tx gone : Transaction F} {s' : Store F}
      → void_transaction env id reason at s ≡ (ok gone, s')
      → find_by_id id s ≡ some tx
      → lookup key s.transactions_by_idem ≡ lookup id s.transactions_by_id
      → (gone.status ≡ tx_status_voided)
        × (find_by_id id s' ≡ some gone)
        × (find_by_idem key s' ≡ some gone)
        × (void_transaction env' id reason' at' s' ≡ (err invalid_transaction, s'))
  void_transaction_seen env env' id key reason reason' at at' s {tx} {gone} {s'} h found same =
      let (_, gives, after) = void_transaction-ok env id reason at s h found in
      let start = ensure_lots tx.store_id s in
      let back = restock env at tx 0 tx.items start in
      let (heap, by_id, by_key) = pointers-restock env at tx 0 tx.items start in
      let (heap', by_id', by_key') = pointers-ensure_lots tx.store_id s in
      let there : find_by_id id back ≡ some tx =
        find_same back s (heap ∙ heap') (by_id ∙ by_id') id ∙ found in
      let joined =
        ap (lookup key) (by_key ∙ by_key') ∙ same ∙ sym (ap (lookup id) (by_id ∙ by_id')) in
      let (seen, seen_key, _) =
        find-write_transaction id key back (voided reason at tx) there joined in
      let status : gone.status ≡ tx_status_voided = rw gives (voided_status reason at tx) in
      let seen' = ap (find_by_id id) after ∙ seen ∙ ap some (sym gives) in
      (
        status,
        seen',
        ap (find_by_idem key) after ∙ seen_key ∙ ap some (sym gives),
        void_again env' id reason' at' s' seen' status,
      )
