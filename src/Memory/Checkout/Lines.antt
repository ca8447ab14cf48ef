-- ===== src/Memory/Checkout/Lines.antt =====
-- What the validation loop of `CreateCheckout` guarantees of the lines that it lets through.
use kasirinaja.Prelude.{
  ℤ, pos, ◌≤ℤ◌, ◌≡◌, refl, ◌∙◌, ap, true, false, String, some, List, [], ◌∷◌, ◌++◌, inl, inr, Dict,
  lookup, ltb_ℤ, add64, sub64, mul64, foldl, map, All, arith,
}
use mathlib.Core.List.{append_assoc, append-nil}
use kasirinaja.Domain.{Time, Product, TransactionLine, InventoryLot}
use kasirinaja.Store.{ok, fold_result, Result-cases}
use kasirinaja.Memory.Checkout.{active_product, lots_short, priced_line, check_line}

module _ {F : Type 0} where
  -- the article and the quantity of a line
  abbrev pub order_of : TransactionLine F → String × ℤ
  order_of line = (line.sku, line.qty)

  abbrev pub add_line : ℤ → TransactionLine F → ℤ
  add_line total line = add64 total (mul64 line.qty line.unit_price_cents)

  module _ (products : Dict (Product F)) (today : Time) (stock : String → ℤ)
      (lots : String → List InventoryLot) where
    -- A line that can be sold at the price that it states.
    pub record IsChecked (line : TransactionLine F) : Type 0 where
      pub product : Product F
      pub found : lookup line.sku products ≡ some product
      pub active : product.active ≡ true
      pub price : line.unit_price_cents ≡ product.price_cents
      pub margin : line.margin_rate ≡ product.margin_rate
      pub qty_pos : pos 1 ≤ℤ line.qty
      pub stock_covers : ltb_ℤ (sub64 (stock line.sku) line.qty) (pos 0) ≡ false
      pub lots_cover : lots_short today (lots line.sku) line.qty ≡ false

    active_product-ok :
        (sku : String) (p : Product F)
        → active_product products sku ≡ ok p
        → (lookup sku products ≡ some p) × (p.active ≡ true)
    unfolding active_product
    active_product-ok sku p h = ground arith

    check_line-ok :
        (acc acc' : List (TransactionLine F)) (t t' : ℤ) (item : TransactionLine F)
        → check_line products today stock lots (acc, t) item ≡ ok (acc', t')
        → (p : Product F) × (acc' ≡ acc ++ (priced_line p item ∷ []))
          × (t' ≡ add_line t (priced_line p item))
          × IsChecked (priced_line p item)
    unfolding check_line priced_line
    check_line-ok acc acc' t t' item h = elim (Result-cases (active_product products item.sku)) [
      | inr (e, q) ↦ ground arith
      | inl (p, q) ↦
          let (found, active) = active_product-ok item.sku p q in
          (
            p,
            ground arith,
            ground arith,
            record {
              product = p;
              found = found;
              active = active;
              price = refl;
              margin = refl;
              qty_pos = ground arith;
              stock_covers = ground arith;
              lots_cover = ground arith;
            },
          )
    ]

    -- The accepted lines are the ordered ones at the prices of the catalogue, the subtotal is their
    -- sum, and every one of them can be sold.
    pub check_lines-ok :
        (acc : List (TransactionLine F)) (t : ℤ) (items : List (TransactionLine F))
        (items' : List (TransactionLine F)) (t' : ℤ)
        → fold_result (check_line products today stock lots) (acc, t) items ≡ ok (items', t')
        → (new : List (TransactionLine F)) × (items' ≡ acc ++ new)
          × (map order_of new ≡ map order_of items)
          × (t' ≡ foldl add_line t new)
          × All IsChecked new
    unfolding fold_result priced_line
    check_lines-ok acc t [] items' t' h = ([], rw append-nil (ground arith), refl, ground arith, tt)
    check_lines-ok acc t (item ∷ items) items' t' h =
        elim (Result-cases (check_line products today stock lots (acc, t) item)) [
          | inr (e, q) ↦ ground arith
          | inl ((acc1, t1), q) ↦
              let h' : fold_result (check_line products today stock lots) (acc1, t1) items
                  ≡ ok (items', t') =
                ground arith in
              let (p, ea, et, c) = check_line-ok acc acc1 t t1 item q in
              let (new, en, ek, es, all) = check_lines-ok acc1 t1 items items' t' h' in
              (
                priced_line p item ∷ new,
                en ∙ ap (λ xs. xs ++ new) ea ∙ append_assoc acc (priced_line p item ∷ []) new,
                ap (◌∷◌ (item.sku, item.qty)) ek,
                es ∙ ap (λ z. foldl add_line z new) et,
                (c, all),
              )
        ]
