-- ===== src/Service/Returns.antt =====
-- `ProcessItemReturn`: giving back articles of a sale, for money or for other articles.
pub mod Purchased
use kasirinaja.Prelude.{
  ℤ, pos, ◌||◌, ◌&&◌, not, Bool, false, true, String, Option, none, some, List, [], ◌∷◌, ◌++◌, map,
  foldl, Dict, lookup, insert, get_or, str_eq, ltb_ℤ, eqb_ℤ, add64, sub64, mul64, trim_space,
  to_upper, to_lower, show_int, if◌then◌else◌, Float64, ℕ, suc,
}
use kasirinaja.Domain.{
  Env, CartItem, Product, Refund, TransactionLine, Transaction, CheckoutRequest, ItemReturn,
  ItemReturnLine, ItemReturnRequest, ItemReturnResponse, InventoryLot, tx_status_voided,
  tx_status_refunded,
}
use kasirinaja.Store.{
  Error, invalid_transaction, message, Result, ok, err, Action, pure, lift, raise_if, fold_result,
  ◌>>=◌, ◌>>◌,
}
use kasirinaja.Memory.State.{Store}
use kasirinaja.Memory.Checkout.{is_empty}
use kasirinaja.Memory.Sales.{find_transaction_by_id, max_int64}
use kasirinaja.Memory.Refunds.{create_refund}
use kasirinaja.Memory.Returns.{get_returned_qty_by_transaction, create_item_return}
use kasirinaja.Memory.Catalog.{get_products_by_skus}
use kasirinaja.Memory.Inventory.{create_inventory_lot}
use kasirinaja.Service.Context.{Context, Formats, later, is_admin, actor_or_system, log_audit}
use kasirinaja.Service.Items.{normalize_items}
use kasirinaja.Service.Checkout.{checkout}
use Prim.Native.String.{◌++◌ as str_append}

unfoldable pub default_string : String → String → String
default_string value fallback = if str_eq (trim_space value) "" then fallback else value

-- `returnQtyBySKU[sku] += line.Qty`
unfoldable pub add_return : Dict ℤ → ItemReturnLine → Result (Dict ℤ)
add_return wanted line =
    let sku = to_upper (trim_space line.sku) in
    if str_eq sku "" || ltb_ℤ line.qty (pos 1)
    then err invalid_transaction
    else ok (insert sku (add64 (get_or (lookup sku wanted) (pos 0)) line.qty) wanted)

-- What a return came to: the refund, the sale of the exchange, what was paid on top, its lines.
pub record Outcome : Type 0 where
  pub refund_amount : ℤ
  pub exchange_id : String
  pub additional_payment : ℤ
  pub exchange_lines : List ItemReturnLine

-- The text of the audit log.
unfoldable pub return_detail : String → Outcome → String
return_detail mode outcome = str_append "mode=" (
    str_append mode (
      str_append ",refund=" (
        str_append (show_int outcome.refund_amount)
          (str_append ",exchange_tx=" outcome.exchange_id))))

unfoldable pub exchange_outcome : ℤ → String → ℤ → List ItemReturnLine → Outcome
exchange_outcome remaining id additional lines = record {
  refund_amount = if ltb_ℤ (pos 0) remaining then remaining else pos 0;
  exchange_id = id;
  additional_payment = additional;
  exchange_lines = lines;
}

module _ {F : Type 0} where
  -- What is entered for an article after one more line, `current` in the code.
  unfoldable pub purchased_line : Option (TransactionLine F) → TransactionLine F → TransactionLine F
  purchased_line found line =
      let zero_value = record line { sku = ""; qty = pos 0; unit_price_cents = pos 0 } in
      let entered = get_or found zero_value in
      let current = if str_eq entered.sku "" then line else entered in
      record current {
        qty = add64 current.qty line.qty;
        unit_price_cents =
            if ltb_ℤ current.unit_price_cents (pos 1)
            then line.unit_price_cents
            else current.unit_price_cents;
      }

  -- One round of the loop over the lines of the sale.
  unfoldable pub add_purchased :
      Dict (TransactionLine F) → TransactionLine F → Dict (TransactionLine F)
  add_purchased purchased line =
      insert line.sku (purchased_line (lookup line.sku purchased) line) purchased

  unfoldable pub purchased_by_sku : List (TransactionLine F) → Dict (TransactionLine F)
  unfolding add_purchased
  purchased_by_sku lines = foldl add_purchased [] lines

  -- One round of the loop over what is given back: the line and its amount are added.
  unfoldable pub check_return :
      Dict (TransactionLine F)
      → Dict ℤ
      → List ItemReturnLine × ℤ
      → String × ℤ
      → Result (List ItemReturnLine × ℤ)
  check_return purchased returned (lines, amount) (sku, qty) = elim (lookup sku purchased) [
    | none ↦ err invalid_transaction
    | some bought ↦
        if ltb_ℤ bought.unit_price_cents (pos 1)
          || ltb_ℤ bought.qty (add64 (get_or (lookup sku returned) (pos 0)) qty)
        then err invalid_transaction
        else ok (
          lines
              ++ (record { sku = sku; qty = qty; unit_price_cents = bought.unit_price_cents } ∷ []),
          add64 amount (mul64 qty bought.unit_price_cents),
        )
  ]

  -- One round of the loop over what is taken in exchange.
  unfoldable pub check_exchange :
      Dict (Product F) → List ItemReturnLine × ℤ → CartItem → Result (List ItemReturnLine × ℤ)
  check_exchange products (lines, subtotal) item = elim (lookup item.sku products) [
    | none ↦ err invalid_transaction
    | some product ↦
        if not product.active
        then err invalid_transaction
        else ok (
          lines
              ++ (record { sku = item.sku; qty = item.qty; unit_price_cents = product.price_cents }
                  ∷ []),
          add64 subtotal (mul64 item.qty product.price_cents),
        )
  ]

  unfoldable pub return_refund : Env → Transaction F → String → ℤ → Refund
  return_refund env tx reason amount = record {
    id = env.new_id "refund" 0;
    original_transaction_id = tx.id;
    reason = reason;
    amount_cents = amount;
    status = tx_status_refunded;
    created_at = env.now 0;
  }

  unfoldable pub return_lot : Env → Transaction F → String → ItemReturnLine → InventoryLot
  return_lot env tx store line = record {
    id = env.new_id "lot" 0;
    store_id = store;
    sku = line.sku;
    lot_code = str_append "RET-" tx.id;
    expiry_date = none;
    qty_received = line.qty;
    qty_available = line.qty;
    cost_cents = max_int64 line.unit_price_cents (pos 1);
    source_type = "return";
    source_id = tx.id;
    notes = "restock from item return";
    received_at = env.now 0;
  }

  unfoldable pub restock_returns :
      Env → Transaction F → String → List ItemReturnLine → Action (Store F) (Unit {0})
  restock_returns env tx store [] = pure tt
  restock_returns env tx store (line ∷ lines) = do
    lot ← create_inventory_lot (later 1 env) (return_lot env tx store line)
    restock_returns (later 2 env) tx store lines

  unfoldable pub return_for_money :
      Env → ItemReturnRequest → Transaction F → ℤ → Action (Store F) Outcome
  return_for_money env request tx amount = do
    made ← create_refund (later 1 env) (return_refund env tx (trim_space request.reason) amount)
    pure (record {
      refund_amount = amount;
      exchange_id = "";
      additional_payment = pos 0;
      exchange_lines = [];
    })

module _ {F : Type 0} ⦃fl : Float64 F⦄ where
  open fl use {of_int}

  -- The checkout of an exchange, with what was given back as its discount.
  unfoldable pub exchange_checkout :
      Env → ItemReturnRequest → Transaction F → String → List CartItem → ℤ → ℤ → CheckoutRequest F
  unfolding default_string
  exchange_checkout env request tx store items credit additional =
      let free = eqb_ℤ additional (pos 0) in
      let method = if free then "cash" else trim_space request.payment_method in
      record {
        store_id = store;
        terminal_id = default_string (trim_space request.terminal_id) tx.terminal_id;
        idempotency_key = env.new_id "retx" 0;
        payment_method = if str_eq method "" then "cash" else method;
        payment_reference = if free then "" else trim_space request.payment_reference;
        payment_splits = [];
        cash_received_cents = if free then pos 0 else request.cash_received_cents;
        discount_cents = credit;
        tax_rate_percent = of_int (pos 0);
        manual_override = true;
        cart_items = items;
        recommendation_info = record {
          shown = false;
          accepted = false;
          sku = "";
          reason_code = "";
          confidence = of_int (pos 0);
        };
      }

  unfoldable pub return_for_exchange :
      Context
      → Formats
      → Env
      → ItemReturnRequest
      → Transaction F
      → String
      → ℤ
      → Action (Store F) Outcome
  unfolding is_empty
  return_for_exchange ctx formats env request tx store amount = do
    let items = normalize_items request.exchange_items
    raise_if (is_empty items) invalid_transaction
    products ← get_products_by_skus (map (λ item. item.sku) items)
    (lines, subtotal) ← lift (fold_result (check_exchange products) ([], pos 0) items)
    let credit = if ltb_ℤ subtotal amount then subtotal else amount
    let additional = sub64 subtotal credit
    response ←
        checkout ctx formats (later 1 env)
          (exchange_checkout env request tx store items credit additional)
    let remaining = sub64 amount credit
    let outcome = exchange_outcome remaining response.transaction_id additional lines
    if ltb_ℤ (pos 0) remaining
        then create_refund (later 12 env)
            (return_refund (later 11 env) tx "remaining credit from exchange" remaining)
          >> pure outcome
        else pure outcome

  unfoldable pub returned_items :
      Env
      → Context
      → ItemReturnRequest
      → Transaction F
      → String
      → String
      → List ItemReturnLine
      → Outcome
      → ItemReturn
  unfolding actor_or_system
  returned_items env ctx request tx store mode lines outcome = record {
    id = env.new_id "ret" 0;
    store_id = store;
    original_transaction_id = tx.id;
    mode = mode;
    reason = trim_space request.reason;
    refund_amount_cents = outcome.refund_amount;
    exchange_transaction_id = outcome.exchange_id;
    additional_payment_cents = outcome.additional_payment;
    processed_by = (actor_or_system ctx).username;
    created_at = env.now 0;
    return_items = lines;
    exchange_items = outcome.exchange_lines;
  }

  unfoldable pub process_item_return :
      Context → Formats → Env → ItemReturnRequest → Action (Store F) ItemReturnResponse
  unfolding is_empty
  process_item_return ctx formats env request = do
    raise_if (not (is_admin ctx)) (message "admin role required")
    let asked = to_lower (trim_space request.mode)
    let mode = if str_eq asked "" then "refund" else asked
    raise_if (not (str_eq mode "refund") && not (str_eq mode "exchange")) invalid_transaction
    raise_if
        (str_eq (trim_space request.original_transaction_id) "" || is_empty request.return_items)
        invalid_transaction
    tx ← find_transaction_by_id request.original_transaction_id
    raise_if (str_eq tx.status tx_status_voided) invalid_transaction
    let named = trim_space request.store_id
    let store = if str_eq named "" then tx.store_id else named
    returned ← get_returned_qty_by_transaction tx.id
    wanted ← lift (fold_result add_return [] request.return_items)
    (lines, amount) ←
        lift (fold_result (check_return (purchased_by_sku tx.items) returned) ([], pos 0) wanted)
    raise_if (ltb_ℤ amount (pos 1)) invalid_transaction
    outcome ←
        if str_eq mode "refund"
        then return_for_money env request tx amount
        else return_for_exchange ctx formats env request tx store amount
    restock_returns (later 30 env) tx store lines
    let rest = later 20 env
    made ←
        create_item_return (later 1 rest)
          (returned_items rest ctx request tx store mode lines outcome)
    log_audit ctx (later 2 rest) store "item_return_process" "item_return" made.id
        (return_detail mode outcome)
    pure (record { item_return = made })
