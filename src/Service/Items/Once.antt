-- ===== src/Service/Items/Once.antt =====
-- Normalising a cart keeps what it asks for and lists every article once.
use kasirinaja.Prelude.{
  ℕ, ◌+◌, ◌<◌, ◌^◌, ℤ, pos, pos_part, ◌≡◌, refl, ◌≢◌, ◌∙◌, ap, sym, subst, none, String, List, [],
  ◌∷◌, map, Dict, lookup, insert, lookup-insert, get_or, str_eq, eq_iff, arith, add64, add64_pos,
  Fits, wrap-Fits, ◌+ℤ◌, All, ◌||◌, ltb_ℤ, inl, inr, Bool-cases,
}
use kasirinaja.Domain.{CartItem}
use kasirinaja.Memory.Checkout.Stock.{demand, Distinct}
use kasirinaja.Service.Items.{add_item, aggregate, cart_item, normalize_items}

abbrev pub cart_order : CartItem → String × ℤ
cart_order item = (item.sku, item.qty)

-- No key of the map occurs twice.
abbrev IsUnique : Dict ℤ → Type 0
IsUnique [] = Unit
IsUnique ((k, v) ∷ d) = (lookup k d ≡ none) × IsUnique d

insert-IsUnique : (k : String) (v : ℤ) (d : Dict ℤ) → IsUnique d → IsUnique (insert k v d)
unfolding insert lookup
insert-IsUnique k v [] h = (refl, tt)
insert-IsUnique k v ((j, w) ∷ d) h =
    ground (arith, eq_iff j k, eq_iff k j, lookup-insert j k v d, insert-IsUnique k v d h.1)

aggregate-IsUnique :
    (d : Dict ℤ) (items : List CartItem) → IsUnique d → IsUnique (aggregate d items)
unfolding aggregate add_item
aggregate-IsUnique d [] h = h
aggregate-IsUnique d (item ∷ items) h =
    let count = add64 (get_or (lookup item.sku d) (pos 0)) item.qty in
    ground (
      arith,
      aggregate-IsUnique d items h,
      aggregate-IsUnique (insert item.sku count d) items (insert-IsUnique item.sku count d h),
    )

no_demand : (sku : String) (d : Dict ℤ) → lookup sku d ≡ none → demand sku d ≡ 0
unfolding lookup
no_demand sku [] h = refl
no_demand sku ((k, v) ∷ d) h = ground (arith, no_demand sku d)

demand-lookup :
    (sku : String) (d : Dict ℤ)
    → IsUnique d
    → demand sku d ≡ pos_part (get_or (lookup sku d) (pos 0))
unfolding lookup
demand-lookup sku [] h = refl
demand-lookup sku ((k, v) ∷ d) h =
    ground (arith, eq_iff k sku, no_demand k d h.0, no_demand sku d, demand-lookup sku d h.1)

Distinct-of_IsUnique : (d : Dict ℤ) → IsUnique d → Distinct d
Distinct-of_IsUnique [] h = tt
Distinct-of_IsUnique ((k, v) ∷ d) h = (no_demand k d h.0, Distinct-of_IsUnique d h.1)

get-add_item :
    (sku : String) (n : ℕ) (d : Dict ℤ) (item : CartItem)
    → sku ≢ ""
    → get_or (lookup sku d) (pos 0) ≡ pos n
    → n + demand sku (cart_order item ∷ []) < 2 ^ 63
    → get_or (lookup sku (add_item d item)) (pos 0) ≡ pos (n + demand sku (cart_order item ∷ []))
unfolding add_item
get-add_item sku n d item given h room =
    let count = add64 (get_or (lookup item.sku d) (pos 0)) item.qty in
    ground (
      arith,
      eq_iff item.sku sku,
      eq_iff item.sku "",
      lookup-insert sku item.sku count d,
      add64_pos n (pos_part item.qty),
    )

get-aggregate :
    (sku : String) (n : ℕ) (d : Dict ℤ) (items : List CartItem)
    → sku ≢ ""
    → get_or (lookup sku d) (pos 0) ≡ pos n
    → n + demand sku (map cart_order items) < 2 ^ 63
    → get_or (lookup sku (aggregate d items)) (pos 0) ≡ pos (n + demand sku (map cart_order items))
unfolding aggregate
get-aggregate sku n d [] given h room = h ∙ ap pos (omega arith)
get-aggregate sku n d (item ∷ items) given h room =
    let one = demand sku (cart_order item ∷ []) in
    let step = get-add_item sku n d item given h (omega arith) in
    get-aggregate sku (n + one) (add_item d item) items given step (omega arith)
    ∙ ap pos (omega arith)

start : (sku : String) → get_or (lookup {V = ℤ} sku []) (pos 0) ≡ pos 0
unfolding lookup
start sku = refl

orders_of : (d : Dict ℤ) → map cart_order (map cart_item d) ≡ d
orders_of [] = refl
orders_of ((k, v) ∷ d) = ap (◌∷◌ (k, v)) (orders_of d)

-- A normalised cart lists no article twice and asks for as many units of every article as the cart
-- did, counting the items that ask for one unit or more, if these are a Go integer together and the
-- article has a code.
pub normalize_items_lem :
    (items : List CartItem) (sku : String)
    → sku ≢ ""
    → demand sku (map cart_order items) < 2 ^ 63
    → Distinct (map cart_order (normalize_items items))
      × (demand sku (map cart_order (normalize_items items)) ≡ demand sku (map cart_order items))
unfolding normalize_items
normalize_items_lem items sku given room =
    let unique = aggregate-IsUnique [] items tt in
    let same = orders_of (aggregate [] items) in
    (
      subst Distinct (sym same) (Distinct-of_IsUnique (aggregate [] items) unique),
      ap (demand sku) same
          ∙ demand-lookup sku (aggregate [] items) unique
          ∙ ap pos_part (get-aggregate sku 0 [] items given (start sku) (omega arith))
          ∙ omega arith,
    )

insert-All :
    (k : String) (v : ℤ) (d : Dict ℤ)
    → Fits v
    → All (λ e. Fits e.1) d
    → All (λ e. Fits e.1) (insert k v d)
unfolding insert
insert-All k v [] f h = (f, tt)
insert-All k v ((j, w) ∷ d) f h = elim (Bool-cases (str_eq j k)) [
  | inl same ↦ rw same (f, h.1)
  | inr other ↦ rw other (h.0, insert-All k v d f h.1)
]

add64-Fits : (a b : ℤ) → Fits (add64 a b)
unfolding add64
add64-Fits a b = wrap-Fits (a +ℤ b)

add_item-All :
    (d : Dict ℤ) (item : CartItem) → All (λ e. Fits e.1) d → All (λ e. Fits e.1) (add_item d item)
unfolding add_item
add_item-All d item h =
    let count = add64 (get_or (lookup item.sku d) (pos 0)) item.qty in
    let fits = add64-Fits (get_or (lookup item.sku d) (pos 0)) item.qty in
    elim (Bool-cases (str_eq item.sku "" || ltb_ℤ item.qty (pos 1))) [
      | inl skip ↦ rw skip h
      | inr counts ↦ rw counts (insert-All item.sku count d fits h)
    ]

aggregate-All :
    (d : Dict ℤ) (items : List CartItem)
    → All (λ e. Fits e.1) d
    → All (λ e. Fits e.1) (aggregate d items)
unfolding aggregate
aggregate-All d [] h = h
aggregate-All d (item ∷ items) h = aggregate-All (add_item d item) items (add_item-All d item h)

-- The quantities of a normalised cart are sums of Go integers, so they are Go integers.
pub normalize_items-Fits :
    (items : List CartItem) → All (λ order. Fits order.1) (map cart_order (normalize_items items))
unfolding normalize_items
normalize_items-Fits items =
    subst (All λ order. Fits order.1) (sym (orders_of (aggregate [] items)))
      (aggregate-All [] items tt)
