-- ===== src/Engine/Choice.antt =====
-- What the till suggests: an article that can be sold and that the cart does not have.
use kasirinaja.Prelude.{
  ℕ, ◌≡◌, ◌≢◌, ◌⊎◌, ◌<ℤ◌, refl, sym, ◌∙◌, ap, subst, ℤ, pos, true, false, not, ◌||◌, String, none,
  some, List, [], ◌∷◌, Dict, lookup, get_or, leb→lt, eq_iff, leb_ℤ, length, foldl, All, inl, inr,
  Bool-cases, Option-cases, Float64, arith,
}
use kasirinaja.Domain.{
  Env, Product, CartItem, AssociationPair, RecommendationRequest, Recommendation,
  RecommendationResponse,
}
use kasirinaja.Store.{ok}
use kasirinaja.Engine.Cart.{
  Host, Engine, normalize_cart_items, in_cart, is_empty_cart, build_cache_key, add_signal,
}
use kasirinaja.Engine.Score.{round2, scores_of, confidence_of}
use kasirinaja.Engine.Recommend.{
  Best, consider, best_article, zero_product, shown, latency_at, fresh_recommendation, recommend,
}
use kasirinaja.Engine.Signals.{counts, missing-items, is_target, all_targets, signals-Fit}

module _ {F : Type 0} ⦃fl : Float64 F⦄ where
  open fl use {of_int, lt, le}

  -- The best article so far, if there is one.
  pub record IsChoice (P : String → Type 0) (products : Dict (Product F)) (stock : Dict ℤ)
      (min_confidence : F) (best : Best F) : Type 0 where
    pub product : Product F
    pub found : lookup best.sku products ≡ some product
    pub active : product.active ≡ true
    pub in_stock : leb_ℤ (get_or (lookup best.sku stock) (pos 0)) (pos 0) ≡ false
    pub fits : P best.sku
    pub confident : lt best.confidence min_confidence ≡ false

  module _ (P : String → Type 0) (products : Dict (Product F)) (stock : Dict ℤ) (count : ℕ)
      (prompts : ℤ) (hour : ℕ) (min_confidence : F) where
    consider-IsChoice :
        (best : Best F) (sku : String) (raw : F)
        → P sku
        → let best' = consider products stock count prompts hour min_confidence best (sku, raw) in
          (best' ≡ best) ⊎ IsChoice P products stock min_confidence best'
    unfolding consider
    consider-IsChoice best sku raw p = elim (Option-cases (lookup sku products)) [
      | inl missing ↦ inl (ground arith)
      | inr (product, found) ↦
          let left = get_or (lookup sku stock) (pos 0) in
          let scores = scores_of product left raw count hour in
          let confidence = confidence_of scores prompts in
          elim (Bool-cases
            (not product.active || leb_ℤ left (pos 0) || lt confidence min_confidence)) [
              | inl skipped ↦ inl (ground arith)
              | inr kept ↦ elim (Bool-cases (lt best.score confidence)) [
                | inr worse ↦ inl (ground arith)
                | inl better ↦
                    let best' =
                      consider products stock count prompts hour min_confidence best (sku, raw) in
                    let same : best'.sku ≡ sku = ground arith in
                    inr (record {
                      product = product;
                      found = ap (λ k. lookup k products) same ∙ found;
                      active = ground arith;
                      in_stock =
                          ap (λ k. leb_ℤ (get_or (lookup k stock) (pos 0)) (pos 0)) same
                          ∙ ground arith;
                      fits = subst P (sym same) p;
                      confident = ground arith;
                    })
              ]
            ]
    ]

    best-IsChoice :
        (best : Best F) (signals : Dict F)
        → (best.sku ≡ "") ⊎ IsChoice P products stock min_confidence best
        → All (λ e. P e.0) signals
        → let best' =
            foldl (consider products stock count prompts hour min_confidence) best signals in
          (best'.sku ≡ "") ⊎ IsChoice P products stock min_confidence best'
    best-IsChoice best [] h k = h
    best-IsChoice best ((sku, raw) ∷ signals) h k =
        best-IsChoice (consider products stock count prompts hour min_confidence best (sku, raw))
          signals
          (elim (consider-IsChoice best sku raw k.0) [
            | inl same ↦
                subst (λ (b : Best F). (b.sku ≡ "") ⊎ IsChoice P products stock min_confidence b)
                  (sym same) h
            | inr chosen ↦ inr chosen
          ])
          k.1

-- What a suggestion is of: an active article with units in stock that goes with an article of the
-- cart and is not in the cart, at its price, with a confidence that is not too low.
pub record IsSellable {F : Type 0} (fl : Float64 F) (products : Dict (Product F)) (stock : Dict ℤ)
    (pairs : List (AssociationPair F)) (cart : List CartItem) (min_confidence : F)
    (shown : Recommendation F) : Type 0 where
  pub sku : String
  pub product : Product F
  pub found : lookup sku products ≡ some product
  pub active : product.active ≡ true
  pub in_stock : pos 0 <ℤ get_or (lookup sku stock) (pos 0)
  pub target : is_target sku pairs ≡ true
  pub new : All (λ item. counts item ≡ true → item.sku ≢ sku) cart
  pub same_sku : shown.sku ≡ product.sku
  pub same_price : shown.price_cents ≡ product.price_cents
  pub confidence : F
  pub rounded : shown.confidence ≡ round2 ⦃fl = fl⦄ confidence
  pub confident : fl.lt confidence min_confidence ≡ false

module _ {F : Type 0} ⦃fl : Float64 F⦄ where
  shown-some :
      (products : Dict (Product F)) (best : Best F) (hint : F) (latency : ℤ)
      {rec : Recommendation F} {product : Product F}
      → (shown products best hint latency).recommendation ≡ some rec
      → (best.sku ≢ "")
        × (lookup best.sku products ≡ some product
            → (rec.sku ≡ product.sku)
              × (rec.price_cents ≡ product.price_cents)
              × (rec.confidence ≡ round2 best.confidence))
  unfolding shown
  shown-some products best hint latency h =
      (ground (arith, eq_iff best.sku ""), λ found. ground arith)

  best_article-IsChoice :
      (products : Dict (Product F)) (stock : Dict ℤ) (pairs : List (AssociationPair F))
      (cart : List CartItem) (prompts : ℤ) (hour : ℕ) (min_confidence : F)
      → let best = best_article products stock pairs cart prompts hour min_confidence in
        (best.sku ≡ "")
        ⊎ IsChoice
            (λ sku. (is_target sku pairs ≡ true) × (in_cart sku cart ≡ false))
            products
            stock
            min_confidence
            best
  unfolding best_article
  best_article-IsChoice products stock pairs cart prompts hour min_confidence =
      best-IsChoice (λ sku. (is_target sku pairs ≡ true) × (in_cart sku cart ≡ false)) products
        stock (length cart) prompts hour min_confidence _ (foldl (add_signal cart) [] pairs)
        (inl refl)
        (signals-Fit (λ sku. is_target sku pairs ≡ true) cart [] pairs tt (all_targets pairs))

module _ {F C : Type 0} ⦃fl : Float64 F⦄ where
  open fl use {of_int, le}

  recommend-fresh :
      (e : Engine F C) (host : Host F) (env : Env) (request : RecommendationRequest F)
      (products : Dict (Product F)) (stock : Dict ℤ) (pairs : List (AssociationPair F)) (c : C)
      {answer : RecommendationResponse F} {rec : Recommendation F} {c' : C}
      → (e.cache.get_cached (build_cache_key host request) c).0 ≡ ok none
      → recommend e host env request products stock pairs c ≡ (ok answer, c')
      → answer.recommendation ≡ some rec
      → (le (of_int (pos 28)) request.queue_speed_hint ≡ false)
        × (hour : ℕ) × (latency : ℤ) × (answer
            ≡ shown products
                (best_article products stock pairs
                  (normalize_cart_items request.cart_items)
                  request.prompt_count
                  hour
                  e.min_confidence)
                request.queue_speed_hint
                latency)
  unfolding recommend fresh_recommendation
  recommend-fresh e host env request products stock pairs c {answer} {rec} missed h shows =
      elim (Bool-cases (is_empty_cart request.cart_items)) [
        | inl bare ↦ absurd (ground arith)
        | inr full ↦ elim (Bool-cases (le (of_int (pos 28)) request.queue_speed_hint)) [
          | inl fast ↦ absurd (ground arith)
          | inr slow ↦ (
            slow,
            host.hour (get_or request.timestamp (env.now 1)),
            latency_at env 2,
            ground arith,
          )
        ]
      ]

  -- Where the cache has no answer, an article is suggested only to a customer who is not in a
  -- hurry, and it is an active article with units in stock, the target of one of the pairs and of
  -- no item that the cart counts, shown under its code and price with a confidence, rounded to two
  -- digits, that is not below the least one.
  pub recommend-IsSellable :
      (e : Engine F C) (host : Host F) (env : Env) (request : RecommendationRequest F)
      (products : Dict (Product F)) (stock : Dict ℤ) (pairs : List (AssociationPair F)) (c : C)
      {answer : RecommendationResponse F} {rec : Recommendation F} {c' : C}
      → (e.cache.get_cached (build_cache_key host request) c).0 ≡ ok none
      → recommend e host env request products stock pairs c ≡ (ok answer, c')
      → answer.recommendation ≡ some rec
      → (le (of_int (pos 28)) request.queue_speed_hint ≡ false)
        × IsSellable fl products stock pairs request.cart_items e.min_confidence rec
  recommend-IsSellable e host env request products stock pairs c {answer} {rec} missed h shows =
      let (slow, hour, latency, is) =
        recommend-fresh e host env request products stock pairs c missed h shows in
      let cart = normalize_cart_items request.cart_items in
      let best =
        best_article products stock pairs cart request.prompt_count hour e.min_confidence in
      let shows' = ap (λ (a : RecommendationResponse F). a.recommendation) (sym is) ∙ shows in
      (
        slow,
        elim (best_article-IsChoice products stock pairs cart request.prompt_count hour
            e.min_confidence) [
              | inl nothing ↦ absurd (
                  (shown-some products best request.queue_speed_hint latency
                      {product = zero_product} shows').0
                    nothing)
              | inr choice ↦
                  let (_, given) =
                    shown-some products best request.queue_speed_hint latency
                      {product = choice.product} shows' in
                  let (sku, price, confidence) = given choice.found in
                  record {
                    sku = best.sku;
                    product = choice.product;
                    found = choice.found;
                    active = choice.active;
                    in_stock = leb→lt _ _ choice.in_stock;
                    target = choice.fits.0;
                    new = missing-items best.sku request.cart_items choice.fits.1;
                    same_sku = sku;
                    same_price = price;
                    confidence = best.confidence;
                    rounded = confidence;
                    confident = choice.confident;
                  }
            ],
      )
