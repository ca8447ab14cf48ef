-- ===== src/Service/Products.antt =====
-- Products: `CreateProduct`, `UpdateProduct` and the history of prices.
pub mod Prices
use kasirinaja.Prelude.{
  ℤ, pos, Bool, true, not, ◌||◌, String, Option, none, some, List, [], ◌∷◌, get_or, str_eq, ltb_ℤ,
  eqb_ℤ, trim_space, to_upper, show_int, if◌then◌else◌, Float64,
}
use kasirinaja.Domain.{
  Env, Product, ProductCreateRequest, ProductUpdateRequest, ProductPriceHistory,
}
use kasirinaja.Store.{
  invalid_transaction, message, Action, Result, ok, err, pure, lift, raise_if, bind, ◌>>=◌, ◌>>◌,
}
use kasirinaja.Memory.State.{Store}
use kasirinaja.Memory.Catalog.{
  create_product as store_create_product, update_product as store_update_product,
  get_product_by_sku, create_price_history, list_price_history,
}
use kasirinaja.Memory.Inventory.{increase_stock, upsert_product_cost}
use kasirinaja.Service.Context.{
  Context, later, is_admin, or_default_store, actor_name, attempt, log_audit,
}
use kasirinaja.Service.Checkout.{show_bool}
use kasirinaja.Service.Texts.{Texts}
use Prim.Native.String.{◌++◌ as str_append}

-- A text that is not blank, trimmed.
unfoldable pub required : String → Result String
required text = let t = trim_space text in if str_eq t "" then err invalid_transaction else ok t

unfoldable pub or_keep : {A B : Type 0} → Option A → B → (A → Result B) → Result B
or_keep none old check = ok old
or_keep (some new) old check = check new

unfoldable pub positive : ℤ → Result ℤ
positive n = if ltb_ℤ n (pos 1) then err invalid_transaction else ok n

module _ {F : Type 0} ⦃fl : Float64 F⦄ where
  open fl use {of_int, sub, mul, lt, round}

  unfoldable pub derive_unit_cost : Product F → ℤ
  derive_unit_cost product =
      let estimated =
        round (mul (of_int product.price_cents) (sub (of_int (pos 1)) product.margin_rate)) in
      if ltb_ℤ product.price_cents (pos 1)
      then pos 0
      else if ltb_ℤ estimated (pos 1)
      then pos 1
      else estimated

  unfoldable pub is_rate : F → Bool
  is_rate rate = not (lt rate (of_int (pos 0)) || lt (of_int (pos 1)) rate)

  -- `CreateProduct` after the role of the user.
  unfoldable pub new_product : Context → Env → ProductCreateRequest F → Action (Store F) (Product F)
  unfolding is_rate
  new_product ctx env request = do
    let store = or_default_store ctx request.store_id
    let sku = to_upper (trim_space request.sku)
    let name = trim_space request.name
    let category = trim_space request.category
    raise_if (str_eq sku "" || str_eq name "" || str_eq category "") invalid_transaction
    raise_if
        (ltb_ℤ request.price_cents (pos 1)
          || not (is_rate request.margin_rate)
          || ltb_ℤ request.initial_stock (pos 0))
        invalid_transaction
    created ← store_create_product (record {
      sku = sku;
      name = name;
      category = category;
      price_cents = request.price_cents;
      margin_rate = request.margin_rate;
      active = true;
    })
    if ltb_ℤ (pos 0) request.initial_stock
        then increase_stock store (record { sku = created.sku; qty = request.initial_stock } ∷ [])
        else pure tt
    log_audit ctx env store "product_create" "product" created.sku (
        str_append "name=" (
          str_append created.name (
            str_append ",price=" (
              str_append (show_int created.price_cents)
                (str_append ",stock=" (show_int request.initial_stock))))))
    costed ← attempt (upsert_product_cost store created.sku (derive_unit_cost created))
    pure created

  unfoldable pub create_product :
      Context → Env → ProductCreateRequest F → Action (Store F) (Product F)
  create_product ctx env request = do
    raise_if (not (is_admin ctx)) (message "admin role required")
    new_product ctx env request

  -- The product with the fields of the request that are given.
  unfoldable pub edited : Product F → ProductUpdateRequest F → Result (Product F)
  unfolding or_keep required positive is_rate
  edited old request = bind (or_keep request.name old.name required) λ name.
      bind (or_keep request.category old.category required) λ category.
        bind (or_keep request.price_cents old.price_cents positive) λ price.
          bind
            (or_keep request.margin_rate old.margin_rate
              (λ rate. if is_rate rate then ok rate else err invalid_transaction))
            λ rate. ok (record {
              sku = old.sku;
              name = name;
              category = category;
              price_cents = price;
              margin_rate = rate;
              active = get_or request.active old.active;
            })

  -- A new price is put on record; an error of that is only logged.
  unfoldable pub record_price : Context → Env → Product F → Product F → Action (Store F) (Unit {0})
  record_price ctx env old saved = if eqb_ℤ old.price_cents saved.price_cents then pure tt else do
    recorded ← attempt (
        create_price_history (later 1 env) (record {
          id = env.new_id "ph" 0;
          sku = saved.sku;
          old_price_cents = old.price_cents;
          new_price_cents = saved.price_cents;
          changed_by = actor_name ctx;
          changed_at = env.now 0;
        }))
    pure tt

  unfoldable pub update_detail : Texts F → Product F → String
  unfolding show_bool
  update_detail texts saved = str_append "active=" (
      str_append (show_bool saved.active) (
        str_append ",price=" (
          str_append (show_int saved.price_cents)
            (str_append ",margin=" (texts.show_rate saved.margin_rate)))))

  unfoldable pub update_product :
      Context → Texts F → Env → String → ProductUpdateRequest F → Action (Store F) (Product F)
  update_product ctx texts env code request = do
    raise_if (not (is_admin ctx)) (message "admin role required")
    let sku = to_upper (trim_space code)
    raise_if (str_eq sku "") invalid_transaction
    old ← get_product_by_sku sku
    updated ← lift (edited old request)
    saved ← store_update_product updated
    record_price ctx env old saved
    log_audit ctx (later 1 env) ctx.default_store_id "product_update" "product" saved.sku
        (update_detail texts saved)
    costed ← attempt (upsert_product_cost ctx.default_store_id saved.sku (derive_unit_cost saved))
    pure saved

module _ {F : Type 0} where
  unfoldable pub list_product_price_history :
      String → ℤ → Action (Store F) (List ProductPriceHistory)
  list_product_price_history code limit = do
    let sku = to_upper (trim_space code)
    raise_if (str_eq sku "") invalid_transaction
    list_price_history sku (if ltb_ℤ limit (pos 1) then pos 50 else limit)
