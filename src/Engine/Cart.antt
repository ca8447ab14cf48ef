-- ===== src/Engine/Cart.antt =====
-- `Engine` with its cache and what it takes from outside, its cart and the signals of the pairs.
use kasirinaja.Prelude.{
  ℕ, ◌*◌, ◌^◌, ℤ, pos, pos_part, Bool, true, false, ◌||◌, String, Option, none, List, [], ◌∷◌, ◌++◌,
  map, Dict, lookup, insert, get_or, str_eq, str_lt, leb_ℤ, sort_by, show_int, if◌then◌else◌,
  Float64,
}
use Prim.Native.String.{◌++◌ as ◌++ˢ◌}
use kasirinaja.Domain.{
  Time, CartItem, AssociationPair, RecommendationRequest, RecommendationResponse,
}
use kasirinaja.Store.{Action, pure}
use kasirinaja.Service.Items.{aggregate, cart_item}

-- `cache.RecommendationCache`, over a state `C`: the answer under a key, if there is one.
pub record Cache (F C : Type 0) : Type 0 where
  pub get_cached : String → Action C (Option (RecommendationResponse F))
  pub set_cached : String → RecommendationResponse F → ℕ → Action C (Unit {0})

-- `cache.NoopRecommendationCache`
abbrev pub noop_cache : {F C : Type 0} → Cache F C
noop_cache = record { get_cached = λ key. pure none; set_cached = λ key answer ttl. pure tt }

-- SHA-1 in hexadecimal, the hour of a time on the clock of its zone, and a `float64` cut to an
-- `int`.
pub record Host (F : Type 0) : Type 0 where
  pub hex_sha1 : String → String
  pub hour : Time → ℕ
  pub truncate : F → ℤ

pub record Engine (F C : Type 0) : Type 0 where
  pub cache : Cache F C
  pub cache_ttl : ℕ
  pub min_confidence : F

unfoldable pub normalize_cart_items : List CartItem → List CartItem
normalize_cart_items items =
    sort_by (λ a b. str_lt a.sku b.sku) (map cart_item (aggregate [] items))

-- `cartSet[sku]`
unfoldable pub in_cart : String → List CartItem → Bool
in_cart sku [] = false
in_cart sku (item ∷ items) = str_eq item.sku sku || in_cart sku items

joined : List String → String
joined [] = ""
joined (s ∷ []) = s
joined (s ∷ t ∷ rest) = s ++ˢ ("|" ++ˢ joined (t ∷ rest))

unfoldable pub is_empty_cart : List CartItem → Bool
is_empty_cart [] = true
is_empty_cart (_ ∷ _) = false

module _ {F : Type 0} ⦃fl : Float64 F⦄ where
  open fl use {of_int, decimal, add}

  unfoldable pub build_cache_key : Host F → RecommendationRequest F → String
  unfolding joined normalize_cart_items
  build_cache_key host request =
      let parts =
        (request.store_id ∷ [])
        ++ (map (λ (item : CartItem). item.sku ++ˢ (":" ++ˢ show_int item.qty))
              (normalize_cart_items request.cart_items)
            ++ (("q:" ++ˢ show_int (host.truncate request.queue_speed_hint))
                ∷ ("p:" ++ˢ show_int request.prompt_count)
                ∷ [])) in
      "pos:recommendation:" ++ˢ host.hex_sha1 (joined parts)

  -- `pairSignal[pair.TargetSKU] += pair.Affinity`, for what is not in the cart
  unfoldable pub add_signal : List CartItem → Dict F → AssociationPair F → Dict F
  add_signal cart signal pair =
      if in_cart pair.target_sku cart
      then signal
      else insert pair.target_sku
          (add (get_or (lookup pair.target_sku signal) (of_int (pos 0))) pair.affinity) signal

  unfoldable pub new_engine : {C : Type 0} → Option (Cache F C) → ℤ → Engine F C
  new_engine cache ttl = record {
    cache = get_or cache noop_cache;
    cache_ttl = if leb_ℤ ttl (pos 0) then 20 * 10 ^ 9 else pos_part ttl;
    min_confidence = decimal 35 2;
  }
