-- ===== src/Memory/Checkout/Stock.antt =====
-- What a checkout does to the stock: every article loses what was ordered of it, and none goes below
-- zero.
use kasirinaja.Prelude.{
  ℕ, ◌+◌, ◌-◌, ◌≤◌, ◌<◌, ◌^◌, ℤ, pos, negsuc, pos_part, ◌≤ℤ◌, Fits, ◌≡◌, ◌≢◌, refl, sym, subst, ◌∙◌,
  ap, false, ◌&&◌, String, none, List, [], ◌∷◌, Dict, lookup_inner-insert_inner, str_eq, eq_iff,
  eq_refl, ltb_ℤ, sub64, sub64_pos, foldl, map, All, arith, if◌then◌else◌, Float64, Bool-cases, inl,
  inr,
}
use kasirinaja.Domain.{Time, Env, TransactionLine, Transaction, InventoryLot, Product}
use kasirinaja.Store.{ok}
use kasirinaja.Memory.State.{Store, stock_of, lots_of}
use kasirinaja.Memory.Lots.{now_date_utc}
use kasirinaja.Memory.Lots.Fefo.{IsCount, Count-cases}
use kasirinaja.Memory.Checkout.{
  sell_line, save_transaction, ensure_lots, find_by_idem, create_checkout,
}
use kasirinaja.Memory.Checkout.Lines.{order_of, IsChecked}
use kasirinaja.Memory.Checkout.Inversion.{sold}
use kasirinaja.Memory.Checkout.Sale.{create_checkout-IsSale, sale-lines}

-- the units ordered of an article
abbrev pub demand : String → List (String × ℤ) → ℕ
demand sku [] = 0
demand sku ((k, qty) ∷ orders) = (if str_eq k sku then pos_part qty else 0) + demand sku orders

-- Every article is ordered once, as the service sees to.
abbrev pub Distinct : List (String × ℤ) → Type 0
Distinct [] = Unit
Distinct ((k, qty) ∷ orders) = (demand k orders ≡ 0) × Distinct orders

covered :
    (n q : ℕ) → n < 2 ^ 63 → q < 2 ^ 63 → ltb_ℤ (sub64 (pos n) (pos q)) (pos 0) ≡ false → q ≤ n
unfolding sub64
covered n q hn hq h = ground arith

IsCount-of_pos : (z : ℤ) → pos 1 ≤ℤ z → Fits z → IsCount z
IsCount-of_pos (pos n) p h = omega arith
IsCount-of_pos (negsuc n) p h = omega arith

module _ {F : Type 0} where
  stock_of-sell_line :
      (today : Time) (store store' sku : String) (s : Store F) (item : TransactionLine F)
      → stock_of store' sku (sell_line today store s item) ≡ (
          if str_eq store store' && str_eq item.sku sku
          then sub64 (stock_of store item.sku s) item.qty
          else stock_of store' sku s)
  unfolding stock_of sell_line
  stock_of-sell_line today store store' sku s item = ground (
    arith,
    eq_iff store store',
    eq_iff item.sku sku,
    lookup_inner-insert_inner store' sku store item.sku (sub64 (stock_of store item.sku s) item.qty)
        s.inventory,
  )

  -- Selling the lines takes the demand off each article of the store.
  pub stock_of-sell :
      (today : Time) (store sku : String) (s : Store F) (items : List (TransactionLine F)) (n : ℕ)
      → stock_of store sku s ≡ pos n
      → n < 2 ^ 63
      → All (λ line. IsCount line.qty) items
      → demand sku (map order_of items) ≤ n
      → stock_of store sku (foldl (sell_line today store) s items)
        ≡ pos (n - demand sku (map order_of items))
  stock_of-sell today store sku s [] n e hn c h = ground arith
  stock_of-sell today store sku s (item ∷ items) n e hn c h =
      let (q, eq, hq) = Count-cases item.qty c.0 in
      let step = stock_of-sell_line today store store sku s item in
      let rest = λ (m : ℕ). stock_of-sell today store sku (sell_line today store s item) items m in
      elim (Bool-cases (str_eq item.sku sku)) [
        | inl same ↦
            let here : item.sku ≡ sku = (eq_iff item.sku sku).0 same in
            let left : stock_of store sku (sell_line today store s item) ≡ pos (n - q) =
              ground (arith, eq_refl store, sub64_pos n q) in
            ground (arith, rest (n - q) left)
        | inr other ↦ ground (arith, rest n)
      ]

  -- The other stores keep their stock.
  pub stock_of-sell_other :
      (today : Time) (store store' sku : String) (s : Store F) (items : List (TransactionLine F))
      → store' ≢ store
      → stock_of store' sku (foldl (sell_line today store) s items) ≡ stock_of store' sku s
  stock_of-sell_other today store store' sku s [] h = refl
  stock_of-sell_other today store store' sku s (item ∷ items) h =
      stock_of-sell_other today store store' sku (sell_line today store s item) items h
      ∙ ground (arith, eq_iff store store', stock_of-sell_line today store store' sku s item)

  module _ (products : Dict (Product F)) (today : Time) (stock : String → ℤ)
      (lots : String → List InventoryLot) where
    counts :
        (items : List (TransactionLine F))
        → All (IsChecked products today stock lots) items
        → All (λ order. Fits order.1) (map order_of items)
        → All (λ line. IsCount line.qty) items
    counts [] c f = tt
    counts (item ∷ items) c f = (IsCount-of_pos item.qty c.0.qty_pos f.0, counts items c.1 f.1)

    demand-le :
        (sku : String) (n : ℕ) (items : List (TransactionLine F))
        → stock sku ≡ pos n
        → n < 2 ^ 63
        → All (IsChecked products today stock lots) items
        → All (λ line. IsCount line.qty) items
        → Distinct (map order_of items)
        → demand sku (map order_of items) ≤ n
    demand-le sku n [] e hn c k d = omega arith
    demand-le sku n (item ∷ items) e hn c k d =
        let (q, eq, hq) = Count-cases item.qty k.0 in
        elim (Bool-cases (str_eq item.sku sku)) [
          | inl same ↦
              let here : item.sku ≡ sku = (eq_iff item.sku sku).0 same in
              let none_left : demand sku (map order_of items) ≡ 0 =
                ap (λ x. demand x (map order_of items)) (sym here) ∙ d.0 in
              let held : stock item.sku ≡ pos n = ap stock here ∙ e in
              ground (arith, covered n q hn hq, c.0.stock_covers)
          | inr other ↦ ground (arith, demand-le sku n items e hn c.1 k.1 d.1)
        ]

  stock_of-save_transaction :
      (paid : Transaction F) (store sku : String) (s : Store F)
      → stock_of store sku (save_transaction paid s) ≡ stock_of store sku s
  unfolding save_transaction stock_of
  stock_of-save_transaction paid store sku s = refl

  pub stock_of-ensure_lots :
      (store store' sku : String) (s : Store F)
      → stock_of store' sku (ensure_lots store s) ≡ stock_of store' sku s
  unfolding ensure_lots stock_of
  stock_of-ensure_lots store store' sku s = ground arith

module _ {F : Type 0} ⦃fl : Float64 F⦄ where
  -- A first successful checkout takes exactly what was ordered of each article off the stock of its
  -- store, which held that much, and leaves the stock of every other store alone; it supposes that
  -- each article is ordered once, that the ordered quantities are Go integers, and that the store
  -- held counts of units, none negative.
  pub create_checkout_stock :
      (env : Env) (tx : Transaction F) (s : Store F) {paid : Transaction F} {s' : Store F}
      → create_checkout env tx s ≡ (ok paid, s')
      → find_by_idem tx.idempotency_key s ≡ none
      → Distinct (map order_of tx.items)
      → All (λ order. Fits order.1) (map order_of tx.items)
      → ((sku : String) → IsCount (stock_of tx.store_id sku s))
      → (sku : String)
      → (demand sku (map order_of tx.items) ≤ pos_part (stock_of tx.store_id sku s))
        × (stock_of tx.store_id sku s'
            ≡ pos (pos_part (stock_of tx.store_id sku s) - demand sku (map order_of tx.items)))
        × ((store : String) → store ≢ tx.store_id → stock_of store sku s' ≡ stock_of store sku s)
  create_checkout_stock env tx s {paid} {s'} h new distinct fits held sku =
      let sale = create_checkout-IsSale env tx s h new in
      let (orders, _, checks) = sale-lines env tx s sale in
      let today = now_date_utc (env.now 0) in
      let start = ensure_lots tx.store_id s in
      let (n, e, hn) = Count-cases (stock_of tx.store_id sku s) (held sku) in
      let all_fit = subst (All λ order. Fits order.1) (sym orders) fits in
      let are_counts =
        counts s.products today (λ sku. stock_of tx.store_id sku s)
          (λ sku. lots_of tx.store_id sku s) paid.items checks all_fit in
      let enough : demand sku (map order_of paid.items) ≤ n =
        demand-le s.products today (λ sku. stock_of tx.store_id sku s)
          (λ sku. lots_of tx.store_id sku s) sku n paid.items e hn checks are_counts
          (subst Distinct (sym orders) distinct) in
      let left =
        stock_of-sell today tx.store_id sku start paid.items n
          (stock_of-ensure_lots tx.store_id tx.store_id sku s ∙ e) hn are_counts enough in
      let saved = λ (store : String).
        ap (stock_of store sku) sale.after
        ∙ stock_of-save_transaction paid store sku (sold env tx s paid.items) in
      let same = ap (demand sku) orders in
      let held_n : pos_part (stock_of tx.store_id sku s) ≡ n = ap pos_part e in
      (
        omega arith,
        saved tx.store_id ∙ left ∙ ap pos (omega arith),
        λ store other.
            saved store
            ∙ stock_of-sell_other today tx.store_id store sku start paid.items other
            ∙ stock_of-ensure_lots tx.store_id store sku s,
      )
