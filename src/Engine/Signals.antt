-- ===== src/Engine/Signals.antt =====
-- The signals are of targets of the pairs that the cart does not count.
use kasirinaja.Prelude.{
  ◌≡◌, ◌≢◌, refl, sym, ◌∙◌, ap, ℤ, pos, Bool, true, false, not, ◌||◌, String, List, [], ◌∷◌, map,
  Dict, lookup, insert, lookup-insert, All-insert, get_or, is_some, str_eq, eq_iff, eq_refl, str_lt,
  ltb_ℤ, add64, insert_by, sort_by, foldl, All, inl, inr, Bool-cases, Float64, arith,
}
use kasirinaja.Domain.{CartItem, AssociationPair}
use kasirinaja.Service.Items.{add_item, aggregate, cart_item}
use kasirinaja.Engine.Cart.{normalize_cart_items, in_cart, add_signal}

-- An item that the cart counts.
abbrev pub counts : CartItem → Bool
counts item = not (str_eq item.sku "" || ltb_ℤ item.qty (pos 1))

in_cart-insert_by :
    (before : CartItem → CartItem → Bool) (sku : String) (x : CartItem) (ys : List CartItem)
    → in_cart sku (insert_by before x ys) ≡ (str_eq x.sku sku || in_cart sku ys)
unfolding in_cart
in_cart-insert_by before sku x [] = refl
in_cart-insert_by before sku x (y ∷ ys) = ground (arith, in_cart-insert_by before sku x ys)

in_cart-sort_by :
    (before : CartItem → CartItem → Bool) (sku : String) (xs : List CartItem)
    → in_cart sku (sort_by before xs) ≡ in_cart sku xs
unfolding in_cart
in_cart-sort_by before sku [] = refl
in_cart-sort_by before sku (x ∷ xs) =
    in_cart-insert_by before sku x (sort_by before xs)
    ∙ ap (λ b. str_eq x.sku sku || b) (in_cart-sort_by before sku xs)

in_cart-map : (sku : String) (d : Dict ℤ) → in_cart sku (map cart_item d) ≡ is_some (lookup sku d)
unfolding in_cart lookup
in_cart-map sku [] = refl
in_cart-map sku ((k, qty) ∷ d) = ground (arith, in_cart-map sku d)

-- Once an article is counted, it stays.
aggregate-keeps :
    (sku : String) (d : Dict ℤ) (items : List CartItem)
    → is_some (lookup sku d) ≡ true
    → is_some (lookup sku (aggregate d items)) ≡ true
unfolding aggregate add_item
aggregate-keeps sku d [] h = h
aggregate-keeps sku d (item ∷ items) h =
    let total = add64 (get_or (lookup item.sku d) (pos 0)) item.qty in
    ground (
      arith,
      aggregate-keeps sku d items,
      aggregate-keeps sku (insert item.sku total d) items,
      lookup-insert sku item.sku total d,
    )

-- Every item that counts is in the normalised cart.
counted-keys :
    (sku : String) (d : Dict ℤ) (items : List CartItem)
    → is_some (lookup sku (aggregate d items)) ≡ false
    → All (λ item. counts item ≡ true → item.sku ≢ sku) items
unfolding aggregate add_item
counted-keys sku d [] h = tt
counted-keys sku d (item ∷ items) h =
    let total = add64 (get_or (lookup item.sku d) (pos 0)) item.qty in
    (
      λ c same. ground (
        arith,
        eq_iff item.sku sku,
        aggregate-keeps sku (insert item.sku total d) items,
        lookup-insert sku item.sku total d,
      ),
      counted-keys sku (add_item d item) items h,
    )

pub missing-items :
    (sku : String) (items : List CartItem)
    → in_cart sku (normalize_cart_items items) ≡ false
    → All (λ item. counts item ≡ true → item.sku ≢ sku) items
unfolding normalize_cart_items
missing-items sku items h = counted-keys sku [] items (
    sym (
      in_cart-sort_by (λ a b. str_lt a.sku b.sku) sku (map cart_item (aggregate [] items))
      ∙ in_cart-map sku (aggregate [] items))
    ∙ h)

module _ {F : Type 0} where
  -- An article is the target of one of the pairs.
  abbrev pub is_target : String → List (AssociationPair F) → Bool
  is_target sku [] = false
  is_target sku (pair ∷ pairs) = str_eq pair.target_sku sku || is_target sku pairs

  targets_more :
      (p : AssociationPair F) (pairs rest : List (AssociationPair F))
      → All (λ pair. is_target pair.target_sku pairs ≡ true) rest
      → All (λ pair. is_target pair.target_sku (p ∷ pairs) ≡ true) rest
  targets_more p pairs [] h = tt
  targets_more p pairs (pair ∷ rest) h = (ground arith, targets_more p pairs rest h.1)

  pub all_targets :
      (pairs : List (AssociationPair F))
      → All (λ pair. is_target pair.target_sku pairs ≡ true) pairs
  all_targets [] = tt
  all_targets (pair ∷ pairs) =
      (ground (arith, eq_refl pair.target_sku), targets_more pair pairs pairs (all_targets pairs))

module _ {F : Type 0} ⦃fl : Float64 F⦄ where
  open fl use {of_int, lt, le}

  abbrev Fit : (String → Type 0) → List CartItem → String × F → Type 0
  Fit P cart e = P e.0 × (in_cart e.0 cart ≡ false)

  add_signal-Fit :
      (P : String → Type 0) (cart : List CartItem) (signal : Dict F) (pair : AssociationPair F)
      → All (Fit P cart) signal
      → P pair.target_sku
      → All (Fit P cart) (add_signal cart signal pair)
  unfolding add_signal
  add_signal-Fit P cart signal pair h p = elim (Bool-cases (in_cart pair.target_sku cart)) [
    | inl there ↦ rw there h
    | inr new ↦ rw new (All-insert (Fit P cart) pair.target_sku _ signal (p, new) h)
  ]

  -- Every signal is of a target that the cart does not have.
  pub signals-Fit :
      (P : String → Type 0) (cart : List CartItem) (signal : Dict F)
      (pairs : List (AssociationPair F))
      → All (Fit P cart) signal
      → All (λ pair. P pair.target_sku) pairs
      → All (Fit P cart) (foldl (add_signal cart) signal pairs)
  signals-Fit P cart signal [] h k = h
  signals-Fit P cart signal (pair ∷ pairs) h k =
      signals-Fit P cart (add_signal cart signal pair) pairs
        (add_signal-Fit P cart signal pair h k.0) k.1
