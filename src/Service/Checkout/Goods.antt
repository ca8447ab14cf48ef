-- ===== src/Service/Checkout/Goods.antt =====
-- What a checkout takes off the stock.
use kasirinaja.Prelude.{
  ℤ, pos, pos_part, String, none, List, [], ◌∷◌, ◌≡◌, ◌≢◌, refl, ◌≤◌, ◌<◌, ◌-◌, ◌^◌, arith, Float64,
  ap, sym, subst, ◌∙◌, map, All, Fits, get_or, lookup_inner,
}
use kasirinaja.Domain.{Env, CartItem, CheckoutRequest, CheckoutResponse}
use kasirinaja.Store.{ok}
use kasirinaja.Memory.State.{Store, stock_of}
use kasirinaja.Memory.Checkout.{find_by_idem}
use kasirinaja.Memory.Checkout.Lines.{order_of}
use kasirinaja.Memory.Checkout.Stock.{demand, Distinct, create_checkout_stock}
use kasirinaja.Memory.Lots.Fefo.{IsCount}
use kasirinaja.Service.Context.{Context, Formats, later}
use kasirinaja.Service.Items.{normalize_items}
use kasirinaja.Service.Items.Once.{cart_order, normalize_items_lem, normalize_items-Fits}
use kasirinaja.Service.Checkout.{completed_request, checkout, requested_line, requested_sale}
use kasirinaja.Service.Checkout.Steps.{IsSameBooks, new_checkout-IsNewSale}
use kasirinaja.Service.Checkout.Again.{checkout-IsAdmitted, checkout-unknown, requested_sale-key}

orders-requested :
    (F : Type 0) ⦃fl : Float64 F⦄ (items : List CartItem)
    → map order_of (map (requested_line {F = F}) items) ≡ map cart_order items
unfolding requested_line
orders-requested F [] = refl
orders-requested F (item ∷ items) = ap (◌∷◌ (cart_order item)) (orders-requested F items)

module _ {F : Type 0} ⦃fl : Float64 F⦄ where
  requested_sale-fields :
      (env : Env) (request : CheckoutRequest F) (id : String) (items : List CartItem) (discount : ℤ)
      (payment : ℤ × String)
      → let tx = requested_sale env request id items discount payment in
        (tx.store_id ≡ request.store_id) × (tx.items ≡ map requested_line items)
  unfolding requested_sale
  requested_sale-fields env request id items discount payment = (refl, refl)

  stock_of-same :
      (store sku : String) (s s' : Store F)
      → IsSameBooks s s'
      → stock_of store sku s' ≡ stock_of store sku s
  unfolding stock_of
  stock_of-same store sku s s' h = ap (λ d. get_or (lookup_inner store sku d) (pos 0)) h.inventory

  -- A first successful checkout takes off the stock of its store exactly what the cart asks for of
  -- every article that has a code, which was there, and leaves every other store alone, if the
  -- stock of every article is a count of units and the cart asks for a Go integer of it.
  pub checkout_stock :
      (ctx : Context) (formats : Formats) (env : Env) (asked : CheckoutRequest F) (s : Store F)
      {response : CheckoutResponse} {s' : Store F}
      → let request = completed_request ctx env asked in
        checkout ctx formats env asked s ≡ (ok response, s')
        → find_by_idem request.idempotency_key s ≡ none
        → ((sku : String) → IsCount (stock_of request.store_id sku s))
        → ((sku : String) → demand sku (map cart_order request.cart_items) < 2 ^ 63)
        → (sku : String) → sku ≢ ""
        → let wanted = demand sku (map cart_order request.cart_items) in
          (wanted ≤ pos_part (stock_of request.store_id sku s))
          × (stock_of request.store_id sku s'
              ≡ pos (pos_part (stock_of request.store_id sku s) - wanted))
          × ((store : String)
              → store ≢ request.store_id
              → stock_of store sku s' ≡ stock_of store sku s)
  checkout_stock ctx formats env asked s {response} {s'} h new held asks sku given =
      let request = completed_request ctx env asked in
      let items = normalize_items request.cart_items in
      let first = checkout-IsAdmitted ctx formats env asked s h in
      let runs = sym (checkout-unknown ctx formats env asked s first new) ∙ h in
      let sale = new_checkout-IsNewSale ctx formats env request first.shift.id items s runs in
      let tx =
        requested_sale (later 1 env) request first.shift.id items sale.discount sale.payment in
      let key =
        requested_sale-key (later 1 env) request first.shift.id items sale.discount sale.payment in
      let (store, lines) =
        requested_sale-fields (later 1 env) request first.shift.id items sale.discount
          sale.payment in
      let orders : map order_of tx.items ≡ map cart_order items =
        ap (map order_of) lines ∙ orders-requested F items in
      let (once, total) = normalize_items_lem request.cart_items sku given (asks sku) in
      let (enough, left, others) =
        create_checkout_stock (later 2 env) tx s sale.sells (ap (λ k. find_by_idem k s) key ∙ new)
          (subst Distinct (sym orders) once)
          (subst (All λ order. Fits order.1) (sym orders) (normalize_items-Fits request.cart_items))
          (λ sku. subst (λ store. IsCount (stock_of store sku s)) (sym store) (held sku)) sku in
      let wanted : demand sku (map order_of tx.items)
          ≡ demand sku (map cart_order request.cart_items) =
        ap (demand sku) orders ∙ total in
      let there = ap (λ store. pos_part (stock_of store sku s)) store in
      (
        omega arith,
        stock_of-same request.store_id sku sale.after s' sale.books
            ∙ ap (λ store. stock_of store sku sale.after) (sym store)
            ∙ left
            ∙ ap pos (omega arith),
        λ other differs.
            stock_of-same other sku sale.after s' sale.books
            ∙ others other (λ e. differs (e ∙ store)),
      )
