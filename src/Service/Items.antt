-- ===== src/Service/Items.antt =====
-- `normalizeItems`: the items of a cart, each article once.
pub mod Once
use kasirinaja.Prelude.{
  ℤ, pos, ◌||◌, String, List, [], ◌∷◌, map, Dict, lookup, insert, get_or, str_eq, ltb_ℤ, add64,
  if◌then◌else◌,
}
use kasirinaja.Domain.{CartItem}

-- `agg[item.SKU] += item.Qty`, without the items that have no code or no unit
unfoldable pub add_item : Dict ℤ → CartItem → Dict ℤ
add_item agg item =
    if str_eq item.sku "" || ltb_ℤ item.qty (pos 1)
    then agg
    else insert item.sku (add64 (get_or (lookup item.sku agg) (pos 0)) item.qty) agg

unfoldable pub aggregate : Dict ℤ → List CartItem → Dict ℤ
aggregate agg [] = agg
aggregate agg (item ∷ items) = aggregate (add_item agg item) items

abbrev pub cart_item : String × ℤ → CartItem
cart_item (sku, qty) = record { sku = sku; qty = qty }

unfoldable pub normalize_items : List CartItem → List CartItem
normalize_items items = map cart_item (aggregate [] items)
