-- ===== src/Service/Checkout.antt =====
-- `Checkout` and the answers made of a transaction.
pub mod Steps
pub mod Records
pub mod Again
pub mod Goods
pub mod Keeps
use kasirinaja.Prelude.{
  ℤ, pos, ◌||◌, ◌&&◌, not, Bool, true, false, String, Option, none, some, List, [], ◌∷◌, map, foldl,
  Dict, lookup, str_eq, ltb_ℤ, add64, sub64, mul64, trim_space, length, show_int, show_nat,
  if◌then◌else◌, Float64,
}
use kasirinaja.Domain.{
  Env, CartItem, Product, PaymentSplit, CheckoutRequest, CheckoutResponse, CheckoutLookupResponse,
  CheckoutRecommendationInfo, TransactionLine, Transaction, Shift, RecommendationEvent,
  tx_status_paid,
}
use kasirinaja.Store.{
  Error, is_not_found, invalid_transaction, message, Result, ok, err, Action, pure, raise, lift,
  raise_if, fold_result, ◌>>=◌, ◌>>◌,
}
use kasirinaja.Memory.State.{Store}
use kasirinaja.Memory.Checkout.{is_empty, percent_of, create_checkout}
use kasirinaja.Memory.Sales.{find_transaction_by_idempotency}
use kasirinaja.Memory.Shifts.{get_active_shift}
use kasirinaja.Memory.Catalog.{get_products_by_skus, create_recommendation_event}
use kasirinaja.Service.Context.{
  Context, Formats, later, is_admin, or_default_store, attempt, log_audit,
}
use kasirinaja.Service.Items.{normalize_items}
use kasirinaja.Service.Promos.{calculate_promo_discount}
use kasirinaja.Service.Payments.{
  is_supported_payment_method, normalize_payment_splits, split_total, decode_payment_splits,
}
use Prim.Native.String.{◌++◌ as str_append}

unfoldable pub show_bool : Bool → String
show_bool b = if b then "true" else "false"

-- The error of `Checkout` where no shift is open.
unfoldable pub shift_error : Error → Error
shift_error e = if is_not_found e then message "active shift required" else e

-- The discount of the request and of the promos, up to the subtotal.
unfoldable pub capped_discount : ℤ → ℤ → ℤ → ℤ
capped_discount subtotal asked promo =
    let raised = add64 asked promo in if ltb_ℤ subtotal raised then subtotal else raised

module _ {F : Type 0} where
  unfoldable pub item_count : List (TransactionLine F) → ℤ
  item_count items = foldl (λ count item. add64 count item.qty) (pos 0) items

  unfoldable pub to_checkout_response : Formats → Transaction F → Bool → CheckoutResponse
  unfolding item_count is_empty
  to_checkout_response formats tx duplicate = record {
    transaction_id = tx.id;
    status = tx.status;
    payment_method = tx.payment_method;
    payment_splits =
        if is_empty tx.payment_splits && str_eq tx.payment_method "split"
        then decode_payment_splits formats tx.payment_reference
        else tx.payment_splits;
    subtotal_cents = tx.subtotal_cents;
    discount_cents = tx.discount_cents;
    tax_cents = tx.tax_cents;
    total_cents = tx.total_cents;
    cash_received = tx.cash_received_cents;
    change_cents = tx.change_cents;
    item_count = item_count tx.items;
    shift_id = tx.shift_id;
    recommendation = if str_eq tx.recommendation_sku "" then none else some tx.recommendation_sku;
    duplicate = duplicate;
    created_at = formats.rfc3339 tx.created_at;
  }

  -- The request with its defaults filled in.
  unfoldable pub completed_request : Context → Env → CheckoutRequest F → CheckoutRequest F
  unfolding or_default_store is_empty
  completed_request ctx env request =
      let splits = normalize_payment_splits request.payment_splits in
      let method = if is_empty splits then request.payment_method else "split" in
      record request {
        store_id = or_default_store ctx request.store_id;
        payment_splits = splits;
        payment_method = if str_eq method "" then "cash" else method;
        idempotency_key =
            if str_eq request.idempotency_key ""
            then env.new_id "idem" 0
            else request.idempotency_key;
      }

  -- `GetActiveShift` of the service
  unfoldable pub active_shift : Context → String → String → Action (Store F) Shift
  unfolding or_default_store
  active_shift ctx store terminal = do
    raise_if (str_eq terminal "") invalid_transaction
    get_active_shift (or_default_store ctx store) terminal

  -- One round of the loop that sums the prices.
  unfoldable pub add_price : Dict (Product F) → ℤ → CartItem → Result ℤ
  add_price products subtotal item = elim (lookup item.sku products) [
    | none ↦ err invalid_transaction
    | some product ↦ ok (add64 subtotal (mul64 item.qty product.price_cents))
  ]

  -- What the payment has to meet; the cash received and the reference that go on record.
  unfoldable pub settle : Formats → CheckoutRequest F → ℤ → Result (ℤ × String)
  settle formats request total =
      if str_eq request.payment_method "cash"
      then (if ltb_ℤ request.cash_received_cents total
          then err invalid_transaction
          else ok (request.cash_received_cents, request.payment_reference))
      else (if str_eq request.payment_method "split"
          then elim (split_total request.payment_splits total) [
            | err e ↦ err e
            | ok sum ↦ ok (sum, formats.marshal_splits request.payment_splits)
          ]
          else (if str_eq (trim_space request.payment_reference) ""
              then err invalid_transaction
              else ok (request.cash_received_cents, request.payment_reference)))

  unfoldable pub shown_event : Env → CheckoutRequest F → String → RecommendationEvent F
  shown_event env request id =
      let info = request.recommendation_info in
      record {
        store_id = request.store_id;
        terminal_id = request.terminal_id;
        transaction_id = id;
        sku = info.sku;
        action = if info.accepted then "accepted" else "rejected";
        reason_code = info.reason_code;
        confidence = info.confidence;
        latency_ms = pos 0;
        created_at = env.now 0;
      }

  unfoldable pub log_recommendation : Env → CheckoutRequest F → String → Action (Store F) (Unit {0})
  log_recommendation env request id =
      if request.recommendation_info.shown
      then create_recommendation_event (shown_event env request id)
      else pure tt

  unfoldable pub checkout_detail : CheckoutRequest F → Transaction F → String
  unfolding show_bool
  checkout_detail request tx = str_append "total=" (
      str_append (show_int tx.total_cents) (
        str_append ",payment=" (
          str_append tx.payment_method (
            str_append ",discount=" (
              str_append (show_int tx.discount_cents) (
                str_append ",manual_override=" (
                  str_append (show_bool request.manual_override)
                    (str_append ",split_count=" (show_nat (length request.payment_splits))))))))))

module _ {F : Type 0} ⦃fl : Float64 F⦄ where
  open fl use {of_int, lt}

  unfoldable pub requested_line : CartItem → TransactionLine F
  requested_line item = record {
    sku = item.sku;
    qty = item.qty;
    unit_price_cents = pos 0;
    margin_rate = of_int (pos 0);
  }

  -- The transaction that `Checkout` hands to the store.
  unfoldable pub requested_sale :
      Env → CheckoutRequest F → String → List CartItem → ℤ → ℤ × String → Transaction F
  unfolding requested_line
  requested_sale env request shift_id items discount (cash, reference) = record {
    id = env.new_id "tx" 0;
    store_id = request.store_id;
    terminal_id = request.terminal_id;
    shift_id = shift_id;
    idempotency_key = request.idempotency_key;
    payment_method = request.payment_method;
    payment_reference = reference;
    payment_splits = request.payment_splits;
    subtotal_cents = pos 0;
    discount_cents = discount;
    tax_rate_percent = request.tax_rate_percent;
    tax_cents = pos 0;
    total_cents = pos 0;
    cash_received_cents = cash;
    change_cents = pos 0;
    status = tx_status_paid;
    void_reason = "";
    voided_at = none;
    recommendation_shown = request.recommendation_info.shown;
    recommendation_accepted = request.recommendation_info.accepted;
    recommendation_sku = request.recommendation_info.sku;
    created_at = env.now 0;
    items = map requested_line items;
  }

  -- `Checkout` for a key that is not known, from `GetProductsBySKUs` on.
  unfoldable pub new_checkout :
      Context
      → Formats
      → Env
      → CheckoutRequest F
      → String
      → List CartItem
      → Action (Store F) CheckoutResponse
  new_checkout ctx formats env request shift_id items = do
    products ← get_products_by_skus (map (λ item. item.sku) items)
    subtotal ← lift (fold_result (add_price products) (pos 0) items)
    promo ← calculate_promo_discount subtotal
    let discount = capped_discount subtotal request.discount_cents promo
    let base = sub64 subtotal discount
    payment ← lift (settle formats request (add64 base (percent_of base request.tax_rate_percent)))
    created ←
        create_checkout (later 2 env)
          (requested_sale (later 1 env) request shift_id items discount payment)
    log_recommendation (later 4 env) request created.id
    log_audit ctx (later 5 env) request.store_id "checkout" "transaction" created.id
        (checkout_detail request created)
    pure (to_checkout_response formats created false)

  -- What `Checkout` refuses before it looks at the state.
  unfoldable pub request_error : Context → CheckoutRequest F → Option Error
  request_error ctx request =
      if not (is_supported_payment_method request.payment_method)
        || lt request.tax_rate_percent (of_int (pos 0))
        || lt (of_int (pos 100)) request.tax_rate_percent
        || ltb_ℤ request.discount_cents (pos 0)
      then some invalid_transaction
      else (if request.manual_override && not (is_admin ctx)
          then some (message "manual override requires admin role")
          else none)

  unfoldable pub checkout :
      Context → Formats → Env → CheckoutRequest F → Action (Store F) CheckoutResponse
  checkout ctx formats env asked =
      let request = completed_request ctx env asked in
      elim (request_error ctx request) [
        | some e ↦ raise e
        | none ↦ do
          found ← attempt (active_shift ctx request.store_id request.terminal_id)
          shift ← elim found [ ok shift ↦ pure shift | err e ↦ raise (shift_error e) ]
          let items = normalize_items request.cart_items
          raise_if (is_empty items) invalid_transaction
          known ← attempt (find_transaction_by_idempotency request.idempotency_key)
          elim known [
            | ok existing ↦ pure (to_checkout_response formats existing true)
            | err e ↦
                if is_not_found e
                then new_checkout ctx formats env request shift.id items
                else raise e
          ]
      ]

  unfoldable pub lookup_checkout_by_idempotency :
      Formats → String → Action (Store F) CheckoutLookupResponse
  lookup_checkout_by_idempotency formats key = do
    raise_if (str_eq key "") invalid_transaction
    known ← attempt (find_transaction_by_idempotency key)
    elim known [
      | ok tx ↦
          pure (record { found = true; checkout = some (to_checkout_response formats tx false) })
      | err e ↦ if is_not_found e then pure (record { found = false; checkout = none }) else raise e
    ]
