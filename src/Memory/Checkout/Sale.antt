-- ===== src/Memory/Checkout/Sale.antt =====
-- A successful first `CreateCheckout`, with its lines and its amounts.
use kasirinaja.Prelude.{
  some, true, lookup, ℤ, pos, ◌≡◌, sym, ◌∙◌, ap, none, List, [], ◌∷◌, map, All, arith, foldl, sub64,
  add64, Float64, subst, ◌≤ℤ◌, ltb_ℤ→le, ◌≢◌, ◌⊎◌, eq_iff,
}
use kasirinaja.Domain.{Env, Product, TransactionLine, Transaction}
use kasirinaja.Store.{ok}
use kasirinaja.Memory.State.{Store, stock_of, lots_of}
use kasirinaja.Memory.Lots.{now_date_utc}
use kasirinaja.Memory.Checkout.{find_by_idem, priced, pay, create_checkout, percent_of}
use kasirinaja.Memory.Checkout.Lines.{order_of, add_line, IsChecked, check_lines-ok}
use kasirinaja.Memory.Checkout.Inversion.{IsSale, fresh_checkout-IsSale}

module _ {F : Type 0} ⦃fl : Float64 F⦄ where
  pub create_checkout-IsSale :
      (env : Env) (tx : Transaction F) (s : Store F) {paid : Transaction F} {s' : Store F}
      → create_checkout env tx s ≡ (ok paid, s')
      → find_by_idem tx.idempotency_key s ≡ none
      → IsSale env tx s paid s'
  unfolding create_checkout
  create_checkout-IsSale env tx s {paid} {s'} h new =
      fresh_checkout-IsSale env tx s paid s' (ground arith)

  -- What `priced` and `pay` leave as it was.
  pub paid_fields :
      (env : Env) (tx paid : Transaction F) (items : List (TransactionLine F)) (subtotal : ℤ)
      → pay (priced env tx items subtotal) ≡ ok paid
      → (paid.items ≡ items)
        × (paid.subtotal_cents ≡ subtotal)
        × (paid.idempotency_key ≡ tx.idempotency_key)
        × (paid.tax_rate_percent ≡ tx.tax_rate_percent)
  unfolding pay priced
  paid_fields env tx paid items subtotal h = ground arith

  -- The lines that can be sold from a state.
  abbrev pub Checked : Env → Transaction F → Store F → List (TransactionLine F) → Type 0
  Checked env tx s = All (
      IsChecked s.products (now_date_utc (env.now 0)) (λ sku. stock_of tx.store_id sku s)
        (λ sku. lots_of tx.store_id sku s))

  pub sale-lines :
      (env : Env) (tx : Transaction F) (s : Store F) {paid : Transaction F} {s' : Store F}
      → IsSale env tx s paid s'
      → (map order_of paid.items ≡ map order_of tx.items)
        × (paid.subtotal_cents ≡ foldl add_line (pos 0) paid.items)
        × Checked env tx s paid.items
  sale-lines env tx s {paid} sale =
      let (new, e, orders, total, checks) =
        check_lines-ok s.products (now_date_utc (env.now 0)) (λ sku. stock_of tx.store_id sku s)
          (λ sku. lots_of tx.store_id sku s) [] (pos 0) tx.items sale.items sale.subtotal
          sale.checks in
      let (its, sub, key, _) = paid_fields env tx paid sale.items sale.subtotal sale.pays in
      let same : new ≡ paid.items = sym (its ∙ e) in
      (
        ap (map order_of) (sym same) ∙ orders,
        sub ∙ total ∙ ap (foldl add_line (pos 0)) same,
        subst (Checked env tx s) same checks,
      )

  -- A line states the price and the margin that the catalogue has for its article.
  abbrev pub IsPriced : Store F → TransactionLine F → Type 0
  IsPriced s line =
      (product : Product F) × (lookup line.sku s.products ≡ some product)
      × (product.active ≡ true)
      × (line.unit_price_cents ≡ product.price_cents)
      × (line.margin_rate ≡ product.margin_rate)

  Checked-IsPriced :
      (env : Env) (tx : Transaction F) (s : Store F) (lines : List (TransactionLine F))
      → Checked env tx s lines
      → All (IsPriced s) lines
  Checked-IsPriced env tx s [] h = tt
  Checked-IsPriced env tx s (line ∷ lines) (c, h) =
      ((c.product, c.found, c.active, c.price, c.margin), Checked-IsPriced env tx s lines h)

  -- Cash covers the total and the excess is given back; any other payment gives no change.
  abbrev pub IsSettled : Transaction F → Type 0
  IsSettled tx =
      ((tx.payment_method ≡ "cash")
        × (tx.total_cents ≤ℤ tx.cash_received_cents)
        × (tx.change_cents ≡ sub64 tx.cash_received_cents tx.total_cents))
      ⊎ ((tx.payment_method ≢ "cash") × (tx.change_cents ≡ pos 0))

  paid_amounts :
      (env : Env) (tx paid : Transaction F) (items : List (TransactionLine F)) (subtotal : ℤ)
      → pay (priced env tx items subtotal) ≡ ok paid
      → (paid.discount_cents ≡ tx.discount_cents)
        × (paid.tax_cents
            ≡ percent_of (sub64 paid.subtotal_cents paid.discount_cents) paid.tax_rate_percent)
        × (paid.total_cents ≡ add64 (sub64 paid.subtotal_cents paid.discount_cents) paid.tax_cents)
        × IsSettled paid
  unfolding pay priced
  paid_amounts env tx paid items subtotal h = ground (arith, eq_iff tx.payment_method "cash")

  -- A first successful checkout adds up: its lines are the requested articles and quantities, each
  -- of an active product at the price and the margin of the catalogue, the subtotal is the sum of
  -- price times quantity over them, the discount is the requested one, between zero and the
  -- subtotal, the tax is the requested rate applied to the subtotal less the discount, the total is
  -- both together, and a cash payment covers the total and is given back what exceeds it, any other
  -- none.
  pub create_checkout_amounts :
      (env : Env) (tx : Transaction F) (s : Store F) {paid : Transaction F} {s' : Store F}
      → create_checkout env tx s ≡ (ok paid, s')
      → find_by_idem tx.idempotency_key s ≡ none
      → (map order_of paid.items ≡ map order_of tx.items)
        × All (IsPriced s) paid.items
        × (paid.subtotal_cents ≡ foldl add_line (pos 0) paid.items)
        × (paid.discount_cents ≡ tx.discount_cents)
        × (paid.tax_rate_percent ≡ tx.tax_rate_percent)
        × (pos 0 ≤ℤ paid.discount_cents)
        × (paid.discount_cents ≤ℤ paid.subtotal_cents)
        × (paid.tax_cents
            ≡ percent_of (sub64 paid.subtotal_cents paid.discount_cents) paid.tax_rate_percent)
        × (paid.total_cents ≡ add64 (sub64 paid.subtotal_cents paid.discount_cents) paid.tax_cents)
        × IsSettled paid
  create_checkout_amounts env tx s {paid} h new =
      let sale = create_checkout-IsSale env tx s h new in
      let (its, sub, key, rate) = paid_fields env tx paid sale.items sale.subtotal sale.pays in
      let (orders, sums, checked) = sale-lines env tx s sale in
      let (discount, tax, total, settled) =
        paid_amounts env tx paid sale.items sale.subtotal sale.pays in
      (
        orders,
        Checked-IsPriced env tx s paid.items checked,
        sums,
        discount,
        rate,
        rw discount (ltb_ℤ→le tx.discount_cents (pos 0) sale.discount_nonneg),
        rw (discount, sub) (ltb_ℤ→le sale.subtotal tx.discount_cents sale.discount_le),
        tax,
        total,
        settled,
      )
