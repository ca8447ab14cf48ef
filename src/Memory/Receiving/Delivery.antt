-- ===== src/Memory/Receiving/Delivery.antt =====
-- Receiving a purchase order: its stock comes in once.
use kasirinaja.Prelude.{
  ℕ, suc, ◌+◌, ◌<◌, ◌^◌, ℤ, pos, pos_part, ◌≡◌, refl, sym, ◌∙◌, ap, true, String, none, some, List,
  [], ◌∷◌, lookup, insert, lookup-insert, lookup_inner, lookup_inner-insert_inner, str_eq, eq_iff,
  eq_refl, add64, add64_pos, map, All, arith, if◌then◌else◌, Bool-cases, Option-cases, inl, inr,
  Float64, Dict,
}
use kasirinaja.Domain.{Time, Env, or_now, PurchaseOrder, PurchaseOrderItem}
use kasirinaja.Store.{ok, err, invalid_transaction, Result-cases}
use kasirinaja.Memory.State.{Store, stock_of}
use kasirinaja.Memory.Lots.Fefo.{IsCount, Count-cases}
use kasirinaja.Memory.Checkout.Stock.{demand}
use kasirinaja.Memory.Procurement.{received_order}
use kasirinaja.Memory.Receiving.{receive_item, receive_items, ensure_store, receive_purchase_order}

-- the article and the quantity of an item
abbrev pub item_order : PurchaseOrderItem → String × ℤ
item_order item = (item.sku, item.qty)

lookup_inner-insert_empty :
    {V : Type 0} (store store' sku : String) (d : Dict (Dict V))
    → lookup store d ≡ none
    → lookup_inner store' sku (insert store [] d) ≡ lookup_inner store' sku d
unfolding lookup_inner lookup
lookup_inner-insert_empty store store' sku d h =
    ground (arith, eq_iff store store', lookup-insert store' store [] d)

module _ {F : Type 0} where
  stock_of-ensure_store :
      (store sku : String) (s : Store F)
      → stock_of store sku (ensure_store store s) ≡ stock_of store sku s
  unfolding stock_of ensure_store
  stock_of-ensure_store store sku s = elim (Option-cases (lookup store s.inventory)) [
    | inl e ↦ ground (arith, lookup_inner-insert_empty store store sku s.inventory)
    | inr (d, e) ↦ ground arith
  ]

  stock_of-orders :
      (store sku : String) (s : Store F) (orders : Dict PurchaseOrder)
      → stock_of store sku (record s { purchase_orders_by_id = orders }) ≡ stock_of store sku s
  unfolding stock_of
  stock_of-orders store sku s orders = refl

module _ {F : Type 0} ⦃fl : Float64 F⦄ where
  stock_of-receive_item :
      (env : Env) (at : Time) (po : PurchaseOrder) (i : ℕ) (item : PurchaseOrderItem) (sku : String)
      (s : Store F)
      → stock_of po.store_id sku (receive_item env at po i item s) ≡ (
          if str_eq item.sku sku
          then add64 (stock_of po.store_id item.sku s) item.qty
          else stock_of po.store_id sku s)
  unfolding stock_of receive_item
  stock_of-receive_item env at po i item sku s = ground (
    arith,
    eq_refl po.store_id,
    lookup_inner-insert_inner po.store_id sku po.store_id item.sku
        (add64 (stock_of po.store_id item.sku s) item.qty) s.inventory,
  )

  stock_of-receive_items :
      (env : Env) (at : Time) (po : PurchaseOrder) (i : ℕ) (items : List PurchaseOrderItem)
      (sku : String) (s s' : Store F) (n : ℕ)
      → receive_items env at po i items s ≡ (ok tt, s')
      → stock_of po.store_id sku s ≡ pos n
      → All (λ item. IsCount item.qty) items
      → n + demand sku (map item_order items) < 2 ^ 63
      → stock_of po.store_id sku s' ≡ pos (n + demand sku (map item_order items))
  unfolding receive_items
  stock_of-receive_items env at po i [] sku s s' n h e c room =
      ap (stock_of po.store_id sku) (sym (ap (λ r. r.1) h)) ∙ e ∙ ap pos (omega arith)
  stock_of-receive_items env at po i (item ∷ items) sku s s' n h e c room =
      let (q, eq, hq) = Count-cases item.qty c.0 in
      let step = stock_of-receive_item env at po i item sku s in
      let next = receive_item env at po i item s in
      let h' : receive_items env at po (suc i) items next ≡ (ok tt, s') = ground arith in
      let rest = λ (m : ℕ). stock_of-receive_items env at po (suc i) items sku next s' m h' in
      elim (Bool-cases (str_eq item.sku sku)) [
        | inl same ↦
            let here : item.sku ≡ sku = (eq_iff item.sku sku).0 same in
            let more : stock_of po.store_id sku next ≡ pos (n + q) =
              ground (arith, add64_pos n q) in
            ground (arith, rest (n + q) more)
        | inr other ↦ ground (arith, rest n)
      ]

  receive_purchase_order-ok :
      (env : Env) (id by : String) (at : Time) (s : Store F) {po received : PurchaseOrder}
      {s' : Store F}
      → receive_purchase_order env id by at s ≡ (ok received, s')
      → lookup id s.purchase_orders_by_id ≡ some po
      → (s1 : Store F) × (receive_items env
            (or_now env 0 at)
            po
            0
            po.items
            (ensure_store po.store_id s)
          ≡ (ok tt, s1))
        × (received ≡ received_order by (or_now env 0 at) po)
        × (s' ≡ record s1 { purchase_orders_by_id = insert id received s1.purchase_orders_by_id })
  unfolding receive_purchase_order
  receive_purchase_order-ok env id by at s {po} h found =
      elim (Result-cases
        (receive_items env (or_now env 0 at) po 0 po.items (ensure_store po.store_id s)).0) [
          | inl (u, e) ↦ (
            (receive_items env (or_now env 0 at) po 0 po.items (ensure_store po.store_id s)).1,
            ap
                (λ r. (
                  r,
                  (receive_items env (or_now env 0 at) po 0 po.items
                      (ensure_store po.store_id s)).1,
                ))
                e,
            ground arith,
            ground arith,
          )
          | inr (f, e) ↦ ground arith
        ]

  -- Receiving a purchase order puts exactly what it lists of each article on the stock of its store,
  -- marks it received, and cannot be done again: a second attempt is refused and changes nothing.
  -- The stock and the listed quantities are counts of units, and their sum is a Go integer.
  pub receive_purchase_order_once :
      (env env' : Env) (id by by' : String) (at at' : Time) (s : Store F)
      {po received : PurchaseOrder} {s' : Store F}
      → receive_purchase_order env id by at s ≡ (ok received, s')
      → lookup id s.purchase_orders_by_id ≡ some po
      → All (λ item. IsCount item.qty) po.items
      → (sku : String) → IsCount (stock_of po.store_id sku s)
      → pos_part (stock_of po.store_id sku s) + demand sku (map item_order po.items) < 2 ^ 63
      → (stock_of po.store_id sku s'
          ≡ pos (pos_part (stock_of po.store_id sku s) + demand sku (map item_order po.items)))
        × (received.status ≡ "received")
        × (lookup id s'.purchase_orders_by_id ≡ some received)
        × (receive_purchase_order env' id by' at' s' ≡ (err invalid_transaction, s'))
  unfolding receive_purchase_order received_order
  receive_purchase_order_once env env' id by by' at at' s {po} {received} {s'} h found counts sku
        held room =
      let (s1, run, gives, after) = receive_purchase_order-ok env id by at s h found in
      let (n, e, hn) = Count-cases (stock_of po.store_id sku s) held in
      let held_n : pos_part (stock_of po.store_id sku s) ≡ n = ap pos_part e in
      let start = ensure_store po.store_id s in
      let came =
        stock_of-receive_items env (or_now env 0 at) po 0 po.items sku start s1 n run
          (stock_of-ensure_store po.store_id sku s ∙ e) counts (omega arith) in
      let status : received.status ≡ "received" = ap (λ r. r.status) gives in
      let there : lookup id s'.purchase_orders_by_id ≡ some received =
        rw (after, lookup-insert, eq_refl) in
      let is_received : str_eq received.status "received" ≡ true = rw status refl in
      let stocked =
        ap (stock_of po.store_id sku) after
        ∙ stock_of-orders po.store_id sku s1 (insert id received s1.purchase_orders_by_id)
        ∙ came
        ∙ ap pos (omega arith) in
      (stocked, status, there, ground arith)
