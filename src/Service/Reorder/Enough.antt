-- ===== src/Service/Reorder/Enough.antt =====
-- What is bought makes up twice the reorder point.
use kasirinaja.Prelude.{
  ℕ, ◌*◌, ◌≤◌, ◌≡◌, ◌⊎◌, refl, sym, ap, subst, some, lookup-insert, eq_refl, eq_iff, str_eq,
  if◌then◌else◌, ℤ, pos, ◌≤ℤ◌, low, low-sub64, low-add64, low-inj, low-lt, add64-Fits, ltb_ℤ→le,
  not, ◌||◌, true, Bool-cases, inl, inr, Bool, String, List, [], ◌∷◌, Dict, lookup, get_or, map,
  values, filter, foldl, sort_by, All, All-append, All-sort_by, add64, sub64, mul64, mul64_pos,
  ltb_ℤ, arith, Float64,
}
use kasirinaja.Domain.{Env, Product, ReorderSuggestion, ReorderSuggestionResponse}
use kasirinaja.Store.{ok}
use kasirinaja.Memory.State.{Store, stock_of, cost_of}
use kasirinaja.Memory.Catalog.{product_before, list_products}
use kasirinaja.Memory.Inventory.{read_all, get_stock_map, get_product_costs}
use kasirinaja.Service.Context.{Context, Formats, or_default_store}
use kasirinaja.Service.Products.{derive_unit_cost}
use kasirinaja.Service.Reorder.{
  default_reorder_point, add_suggestion, more_urgent, reorder_suggestions,
}

-- stock and purchase together
filled_up :
    (current : ℤ) (point : ℕ)
    → point ≤ 50
    → add64 current (sub64 (mul64 (pos point) (pos 2)) current) ≡ pos (point * 2)
filled_up current point h =
    let target = mul64 (pos point) (pos 2) in
    low-inj _ (pos (point * 2)) (add64-Fits current (sub64 target current)) (omega arith) (
      omega (
        arith,
        low-add64 current (sub64 target current),
        low-sub64 target current,
        ap low (mul64_pos point 2 (omega arith)),
        low-lt (pos (point * 2)),
      ))

module _ {A : Type 0} where
  -- An element of a list.
  abbrev pub Has : A → List A → Type 0
  Has x [] = ⊥
  Has x (y ∷ ys) = (x ≡ y) ⊎ Has x ys

  All-more : (y : A) (xs ys : List A) → All (λ x. Has x ys) xs → All (λ x. Has x (y ∷ ys)) xs
  All-more y [] ys h = tt
  All-more y (x ∷ xs) ys h = (inr h.0, All-more y xs ys h.1)

  All-Has : (xs : List A) → All (λ x. Has x xs) xs
  All-Has [] = tt
  All-Has (x ∷ xs) = (inl refl, All-more x xs xs (All-Has xs))

  All-filter : (P : A → Type 0) (p : A → Bool) (xs : List A) → All P xs → All P (filter p xs)
  All-filter P p [] h = tt
  All-filter P p (x ∷ xs) h = elim (Bool-cases (p x)) [
    | inl e ↦ rw e (h.0, All-filter P p xs h.1)
    | inr e ↦ rw e (All-filter P p xs h.1)
  ]

-- What a map that was read for some codes has under one of them.
lookup-read_all :
    (read : String → ℤ) (sku : String) (skus : List String)
    → Has sku skus
    → lookup sku (read_all read skus) ≡ some (read sku)
unfolding read_all
lookup-read_all read sku [] none_there = absurd none_there
lookup-read_all read sku (x ∷ skus) (inl same) = rw (sym same, lookup-insert, eq_refl) refl
lookup-read_all read sku (x ∷ skus) (inr later) = elim (Bool-cases (str_eq x sku)) [
  | inl same ↦ rw (lookup-insert, same) (ap (λ k. some (read k)) ((eq_iff x sku).0 same))
  | inr other ↦ rw (lookup-insert, other) (lookup-read_all read sku skus later)
]

-- What a suggestion says: an active product with no more units in the store than its reorder
-- point, and units to buy, at least one, that with those in stock make up twice the point, at the
-- cost that the store has for it, or at the estimate where it has none.
pub record IsDue {F : Type 0} (fl : Float64 F) (store : String) (s : Store F)
    (g : ReorderSuggestion) : Type 0 where
  pub product : Product F
  pub listed : Has product (values s.products)
  pub active : product.active ≡ true
  pub same_sku : g.sku ≡ product.sku
  pub current : g.current_stock ≡ stock_of store product.sku s
  pub low_stock : g.current_stock ≤ℤ pos (default_reorder_point ⦃fl = fl⦄ product)
  pub some_bought : pos 1 ≤ℤ g.recommended_qty
  pub filled :
      add64 g.current_stock g.recommended_qty ≡ pos (default_reorder_point ⦃fl = fl⦄ product * 2)
  pub cost : g.last_cost_cents ≡ (
      if ltb_ℤ (cost_of store product.sku s) (pos 1)
      then derive_unit_cost ⦃fl = fl⦄ product
      else cost_of store product.sku s)
  pub priced : g.estimated_purchase_cents ≡ mul64 g.recommended_qty g.last_cost_cents

module _ {F : Type 0} ⦃fl : Float64 F⦄ where
  default_reorder_point-le : (product : Product F) → default_reorder_point product ≤ 50
  unfolding default_reorder_point
  default_reorder_point-le product = ground arith

  module _ (store : String) (s : Store F) (stock costs : Dict ℤ) where
    -- a product of the store, of which the two maps have what the store has
    abbrev IsRead : Product F → Type 0
    IsRead product =
        Has product (values s.products)
        × (lookup product.sku stock ≡ some (stock_of store product.sku s))
        × (lookup product.sku costs ≡ some (cost_of store product.sku s))

    add_suggestion-IsDue :
        (given : List ReorderSuggestion) (product : Product F)
        → IsRead product
        → All (IsDue fl store s) given
        → All (IsDue fl store s) (add_suggestion stock costs given product)
    unfolding add_suggestion
    add_suggestion-IsDue given product (has, counted, valued) h =
        let current = get_or (lookup product.sku stock) (pos 0) in
        let point = default_reorder_point product in
        let qty = sub64 (mul64 (pos point) (pos 2)) current in
        elim (Bool-cases (not product.active || ltb_ℤ (pos point) current || ltb_ℤ qty (pos 1))) [
          | inl skipped ↦ rw skipped h
          | inr due ↦ rw due (
              All-append (IsDue fl store s) given _ h (
                record {
                  product = product;
                  listed = has;
                  active = ground arith;
                  same_sku = refl;
                  current = ap (λ o. get_or o (pos 0)) counted;
                  low_stock = ltb_ℤ→le (pos point) current (ground arith);
                  some_bought = ltb_ℤ→le qty (pos 1) (ground arith);
                  filled = filled_up current point (default_reorder_point-le product);
                  cost =
                      ap
                        (λ o.
                          let known = get_or o (pos 0) in
                          if ltb_ℤ known (pos 1) then derive_unit_cost product else known)
                        valued;
                  priced = refl;
                },
                tt,
              ))
        ]

    suggestions-IsDue :
        (given : List ReorderSuggestion) (rest : List (Product F))
        → All IsRead rest
        → All (IsDue fl store s) given
        → All (IsDue fl store s) (foldl (add_suggestion stock costs) given rest)
    suggestions-IsDue given [] read h = h
    suggestions-IsDue given (product ∷ rest) read h =
        suggestions-IsDue (add_suggestion stock costs given product) rest read.1
          (add_suggestion-IsDue given product read.0 h)

  -- the products that a store reads the stock and the costs of
  all-IsRead :
      (store : String) (s : Store F) (skus : List String) (products : List (Product F))
      → All (λ product. Has product (values s.products)) products
      → All (λ product. Has product.sku skus) products
      → All
          (IsRead store s
            (read_all (λ sku. stock_of store sku s) skus)
            (read_all (λ sku. cost_of store sku s) skus))
          products
  all-IsRead store s skus [] has listed = tt
  all-IsRead store s skus (product ∷ rest) has listed = (
    (
      has.0,
      lookup-read_all (λ sku. stock_of store sku s) product.sku skus listed.0,
      lookup-read_all (λ sku. cost_of store sku s) product.sku skus listed.0,
    ),
    all-IsRead store s skus rest has.1 listed.1,
  )

  skus_more :
      (sku : String) (skus : List String) (products : List (Product F))
      → All (λ product. Has product.sku skus) products
      → All (λ product. Has product.sku (sku ∷ skus)) products
  skus_more sku skus [] h = tt
  skus_more sku skus (product ∷ rest) h = (inr h.0, skus_more sku skus rest h.1)

  all_skus :
      (products : List (Product F))
      → All (λ product. Has product.sku (map (λ (p : Product F). p.sku) products)) products
  all_skus [] = tt
  all_skus (product ∷ rest) =
      (inl refl, skus_more product.sku (map (λ (p : Product F). p.sku) rest) rest (all_skus rest))

  -- Every suggestion is of an active product whose units in the asked store are not above its
  -- reorder point; at least one unit is to be bought, the units make up twice the point with those
  -- in stock, and the purchase is their number times the cost that the store has for one, or the
  -- estimate from price and margin where it has none.
  pub reorder_suggestions-IsDue :
      (ctx : Context) (formats : Formats) (env : Env) (asked : String) (s : Store F)
      {answer : ReorderSuggestionResponse} {s' : Store F}
      → reorder_suggestions ctx formats env asked s ≡ (ok answer, s')
      → All (IsDue fl (or_default_store ctx asked) s) answer.suggestions
  unfolding reorder_suggestions list_products get_stock_map get_product_costs
  reorder_suggestions-IsDue ctx formats env asked s {answer} {s'} h =
      let products =
        sort_by product_before (filter (λ (p : Product F). p.active) (values s.products)) in
      let has : All (λ product. Has product (values s.products)) products =
        All-sort_by _ product_before _
          (All-filter _ (λ (p : Product F). p.active) _ (All-Has (values s.products))) in
      let store = or_default_store ctx asked in
      let skus = map (λ (p : Product F). p.sku) products in
      let stock = read_all (λ sku. stock_of store sku s) skus in
      let costs = read_all (λ sku. cost_of store sku s) skus in
      let shown : sort_by more_urgent (foldl (add_suggestion stock costs) [] products)
          ≡ answer.suggestions =
        ground arith in
      subst (All (IsDue fl store s)) shown (
        All-sort_by (IsDue fl store s) more_urgent _ (
          suggestions-IsDue store s stock costs [] products
            (all-IsRead store s skus products has (all_skus products)) tt))
