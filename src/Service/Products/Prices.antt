-- ===== src/Service/Products/Prices.antt =====
-- The history of a product leads to its price.
use kasirinaja.Prelude.{
  ◌≡◌, ℤ, eqb_ℤ, String, some, List, [], ◌∷◌, ◌++◌, lookup, insert, get_or, if◌then◌else◌, Float64,
}
use kasirinaja.Domain.{Env, Product, ProductUpdateRequest, ProductPriceHistory, or_new_id, or_now}
use kasirinaja.Store.{ok}
use kasirinaja.Memory.State.{Store}
use kasirinaja.Memory.Catalog.{update_product as store_update_product}
use kasirinaja.Service.Context.{Context, actor_name, later}
use kasirinaja.Service.Texts.{Texts}
use kasirinaja.Service.Products.{edited, update_product}

-- Entries that lead from one price to another, each from where the one before it ended.
abbrev pub Leads : ℤ → List ProductPriceHistory → ℤ → Type 0
Leads from [] to = from ≡ to
Leads from (entry ∷ entries) to =
    (entry.old_price_cents ≡ from) × Leads entry.new_price_cents entries to

module _ {F : Type 0} where
  abbrev pub history_of : String → Store F → List ProductPriceHistory
  history_of sku s = get_or (lookup sku s.price_history_by_sku) []

  -- Every product is kept under its code, and the history of its price leads to its price.
  abbrev pub IsChained : Store F → Type 0
  IsChained s =
      (sku : String) (product : Product F)
      → lookup sku s.products ≡ some product
      → (product.sku ≡ sku) × (from : ℤ) × Leads from (history_of sku s) product.price_cents

module _ {F : Type 0} ⦃fl : Float64 F⦄ where
  -- the entry of a new price
  abbrev entry_of : Context → Env → Product F → Product F → ProductPriceHistory
  entry_of ctx env old saved = record {
    id = or_new_id (later 1 env) "ph" 0 (env.new_id "ph" 0);
    sku = saved.sku;
    old_price_cents = old.price_cents;
    new_price_cents = saved.price_cents;
    changed_by = actor_name ctx;
    changed_at = or_now (later 1 env) 0 (env.now 0);
  }

  -- what an update that goes through leaves
  record IsUpdated (sku : String) (request : ProductUpdateRequest F) (s : Store F)
      (saved : Product F) (s' : Store F) : Type 0 where
    old : Product F
    known : lookup sku s.products ≡ some old
    edits : edited old request ≡ ok saved
    products : s'.products ≡ insert saved.sku saved s.products
    entry : ProductPriceHistory
    entry_old : entry.old_price_cents ≡ old.price_cents
    entry_new : entry.new_price_cents ≡ saved.price_cents
    history : s'.price_history_by_sku ≡ (
        if eqb_ℤ old.price_cents saved.price_cents
        then s.price_history_by_sku
        else insert saved.sku (history_of saved.sku s ++ (entry ∷ [])) s.price_history_by_sku)
