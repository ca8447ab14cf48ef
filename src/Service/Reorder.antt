-- ===== src/Service/Reorder.antt =====
-- `ReorderSuggestions`: what to buy of the articles that run low.
pub mod Enough
use kasirinaja.Prelude.{
  ℕ, ◌+◌, ℤ, pos, not, ◌||◌, Bool, String, List, [], ◌∷◌, ◌++◌, Dict, lookup, get_or, map, foldl,
  sort_by, str_eq, to_lower, ltb_ℤ, eqb_ℤ, sub64, mul64, if◌then◌else◌, Float64,
}
use kasirinaja.Domain.{Env, Product, ReorderSuggestion, ReorderSuggestionResponse}
use kasirinaja.Store.{Action, pure, ◌>>=◌, ◌>>◌}
use kasirinaja.Memory.State.{Store}
use kasirinaja.Memory.Catalog.{list_products}
use kasirinaja.Memory.Inventory.{get_stock_map, get_product_costs}
use kasirinaja.Service.Context.{Context, Formats, or_default_store}
use kasirinaja.Service.Products.{derive_unit_cost}

-- The least stock first, then the dearest purchase; Go leaves the order of equal ones open.
unfoldable pub more_urgent : ReorderSuggestion → ReorderSuggestion → Bool
more_urgent a b =
    if eqb_ℤ a.current_stock b.current_stock
    then ltb_ℤ b.estimated_purchase_cents a.estimated_purchase_cents
    else ltb_ℤ a.current_stock b.current_stock

module _ {F : Type 0} ⦃fl : Float64 F⦄ where
  open fl use {decimal, lt}

  unfoldable pub default_reorder_point : Product F → ℕ
  default_reorder_point product =
      let category = to_lower product.category in
      let point =
        if str_eq category "grocery" || str_eq category "beverage"
        then 40
        else if str_eq category "dairy" || str_eq category "snack"
        then 35
        else 30 in
      if lt product.margin_rate (decimal 15 2) then point + 10 else point

  -- One round of the loop over the products.
  unfoldable pub add_suggestion :
      Dict ℤ → Dict ℤ → List ReorderSuggestion → Product F → List ReorderSuggestion
  add_suggestion stock costs suggestions product =
      let current = get_or (lookup product.sku stock) (pos 0) in
      let point = pos (default_reorder_point product) in
      let qty = sub64 (mul64 point (pos 2)) current in
      let known_cost = get_or (lookup product.sku costs) (pos 0) in
      let cost = if ltb_ℤ known_cost (pos 1) then derive_unit_cost product else known_cost in
      if not product.active || ltb_ℤ point current || ltb_ℤ qty (pos 1)
      then suggestions
      else suggestions
        ++ (record {
          sku = product.sku;
          name = product.name;
          category = product.category;
          current_stock = current;
          reorder_point = point;
          recommended_qty = qty;
          last_cost_cents = cost;
          estimated_purchase_cents = mul64 qty cost;
        }
            ∷ [])

  unfoldable pub reorder_suggestions :
      Context → Formats → Env → String → Action (Store F) ReorderSuggestionResponse
  unfolding more_urgent
  reorder_suggestions ctx formats env asked = do
    let store = or_default_store ctx asked
    products ← list_products
    let skus = map (λ (p : Product F). p.sku) products
    stock ← get_stock_map store skus
    costs ← get_product_costs store skus
    pure (record {
      store_id = store;
      generated_at = formats.rfc3339 (env.now 0);
      suggestions = sort_by more_urgent (foldl (add_suggestion stock costs) [] products);
    })
