-- ===== src/Engine/Recommend.antt =====
-- `Recommend`: the loop over the signals, and the answer with its use of the cache.
use kasirinaja.Prelude.{
  ℕ, ◌-◌, ◌/◌, ◌^◌, ℤ, pos, true, false, not, ◌||◌, String, none, some, List, [], Dict, lookup,
  get_or, str_eq, leb_ℤ, length, foldl, if◌then◌else◌, Float64,
}
use kasirinaja.Domain.{
  Env, Product, CartItem, AssociationPair, RecommendationRequest, RecommendationResponse,
}
use kasirinaja.Store.{ok, err, Action, pure, ◌>>=◌}
use kasirinaja.Service.Context.{attempt}
use kasirinaja.Engine.Cart.{
  Host, Engine, normalize_cart_items, is_empty_cart, build_cache_key, add_signal,
}
use kasirinaja.Engine.Score.{round2, derive_reason, scores_of, confidence_of}

-- `bestSKU` and the other variables of the loop
pub record Best (F : Type 0) : Type 0 where
  pub sku : String
  pub score : F
  pub reason : String
  pub confidence : F
  pub margin_lift : ℤ

-- `time.Since(startedAt).Milliseconds()` at the `i`-th reading of the clock
unfoldable pub latency_at : Env → ℕ → ℤ
latency_at env i = pos ((env.now i - env.now 0) / 10 ^ 6)

module _ {F : Type 0} ⦃fl : Float64 F⦄ where
  open fl use {of_int, lt, le, mul, round}

  -- One round of the loop over the signals.
  unfoldable pub consider : Dict (Product F) → Dict ℤ → ℕ → ℤ → ℕ → F → Best F → String × F → Best F
  consider products stock item_count prompt_count hour min_confidence best (sku, raw) =
      elim (lookup sku products) [
        | none ↦ best
        | some product ↦
            let left = get_or (lookup sku stock) (pos 0) in
            let scores = scores_of product left raw item_count hour in
            let confidence = confidence_of scores prompt_count in
            if not product.active || leb_ℤ left (pos 0) || lt confidence min_confidence
            then best
            else if lt best.score confidence
            then record {
              sku = sku;
              score = confidence;
              reason =
                  derive_reason scores.pair_affinity scores.margin_score scores.stock_score
                    scores.time_relevance;
              confidence = confidence;
              margin_lift = round (mul (of_int product.price_cents) product.margin_rate);
            }
            else best
      ]

  -- The best article. Go ranges over the signals in an order that it leaves open, and so leaves
  -- open which of the articles with the greatest confidence it is.
  unfoldable pub best_article :
      Dict (Product F) → Dict ℤ → List (AssociationPair F) → List CartItem → ℤ → ℕ → F → Best F
  best_article products stock pairs cart prompt_count hour min_confidence =
      foldl (consider products stock (length cart) prompt_count hour min_confidence)
        (record {
          sku = "";
          score = of_int (pos 0);
          reason = "";
          confidence = of_int (pos 0);
          margin_lift = pos 0;
        })
        (foldl (add_signal cart) [] pairs)

  unfoldable pub zero_product : Product F
  zero_product = record {
    sku = "";
    name = "";
    category = "";
    price_cents = pos 0;
    margin_rate = of_int (pos 0);
    active = false;
  }

  unfoldable pub shown : Dict (Product F) → Best F → F → ℤ → RecommendationResponse F
  unfolding round2 zero_product
  shown products best hint latency =
      let product = get_or (lookup best.sku products) zero_product in
      if str_eq best.sku ""
      then record {
        recommendation = none;
        ui_policy = record { show = false; cooldown_seconds = pos 45 };
        latency_ms = latency;
      }
      else record {
        recommendation = some (record {
          sku = product.sku;
          name = product.name;
          price_cents = product.price_cents;
          expected_margin_lift_cents = best.margin_lift;
          reason_code = best.reason;
          confidence = round2 best.confidence;
        });
        ui_policy = record {
          show = true;
          cooldown_seconds = if lt (of_int (pos 18)) hint then pos 70 else pos 45;
        };
        latency_ms = latency;
      }

  unfoldable pub silent : ℤ → ℤ → RecommendationResponse F
  silent cooldown latency = record {
    recommendation = none;
    ui_policy = record { show = false; cooldown_seconds = cooldown };
    latency_ms = latency;
  }

  module _ {C : Type 0} (e : Engine F C) (host : Host F) (env : Env) where
    unfoldable pub fresh_recommendation :
        RecommendationRequest F
        → Dict (Product F)
        → Dict ℤ
        → List (AssociationPair F)
        → Action C (RecommendationResponse F)
    unfolding normalize_cart_items latency_at
    fresh_recommendation request products stock pairs = do
      let cart = normalize_cart_items request.cart_items
      let hour = host.hour (get_or request.timestamp (env.now 1))
      let best = best_article products stock pairs cart request.prompt_count hour e.min_confidence
      let answer = shown products best request.queue_speed_hint (latency_at env 2)
      saved ← attempt (e.cache.set_cached (build_cache_key host request) answer e.cache_ttl)
      pure answer

    unfoldable pub recommend :
        RecommendationRequest F
        → Dict (Product F)
        → Dict ℤ
        → List (AssociationPair F)
        → Action C (RecommendationResponse F)
    unfolding latency_at silent
    recommend request products stock pairs =
        if is_empty_cart request.cart_items
        then pure (silent (pos 30) (latency_at env 1))
        else if le (of_int (pos 28)) request.queue_speed_hint
        then pure (silent (pos 90) (latency_at env 1))
        else do
          cached ← attempt (e.cache.get_cached (build_cache_key host request))
          elim cached [
            | ok found ↦ elim found [
              | some answer ↦ pure (record answer { latency_ms = latency_at env 1 })
              | none ↦ fresh_recommendation request products stock pairs
            ]
            | err _ ↦ fresh_recommendation request products stock pairs
          ]
