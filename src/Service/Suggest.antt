-- ===== src/Service/Suggest.antt =====
-- `Recommend`: the suggestion for a cart, from the store and the engine with its cache.
use kasirinaja.Prelude.{
  pos, String, none, some, List, [], Dict, insert, keys, map, foldl, if◌then◌else◌, Float64,
}
use kasirinaja.Domain.{
  Env, CartItem, AssociationPair, RecommendationRequest, RecommendationResponse,
}
use kasirinaja.Store.{Action, pure, ◌>>=◌, ◌>>◌}
use kasirinaja.Memory.State.{Store}
use kasirinaja.Memory.Catalog.{
  get_association_pairs, get_products_by_skus, create_recommendation_event,
}
use kasirinaja.Memory.Inventory.{get_stock_map}
use kasirinaja.Service.Context.{Context, or_default_store, attempt}
use kasirinaja.Service.Items.{normalize_items}
use kasirinaja.Engine.Cart.{Engine, Host, is_empty_cart}
use kasirinaja.Engine.Recommend.{silent, recommend as engine_recommend}

-- A call of the store, and one of the cache, on the two states together.
abbrev pub on_store : {S C A : Type 0} → Action S A → Action (S × C) A
on_store m (s, c) = let (r, s') = m s in (r, (s', c))

abbrev pub on_cache : {S C A : Type 0} → Action C A → Action (S × C) A
on_cache m (s, c) = let (r, c') = m c in (r, (s, c'))

-- The codes of the cart and of the targets, each once.
unfoldable pub involved_skus : {F : Type 0} → List CartItem → List (AssociationPair F) → List String
involved_skus cart pairs =
    let none_yet : Dict (Unit {0}) = [] in
    let carted = foldl (λ d (item : CartItem). insert item.sku tt d) none_yet cart in
    keys (foldl (λ d pair. insert pair.target_sku tt d) carted pairs)

module _ {F : Type 0} where
  -- A suggestion that is shown goes on record; an error of that is ignored.
  unfoldable pub log_shown :
      Env → RecommendationRequest F → RecommendationResponse F → Action (Store F) (Unit {0})
  log_shown env request answer = elim answer.recommendation [
    | none ↦ pure tt
    | some rec ↦
        if answer.ui_policy.show
        then (do
          logged ← attempt (
              create_recommendation_event (record {
                store_id = request.store_id;
                terminal_id = request.terminal_id;
                transaction_id = "";
                sku = rec.sku;
                action = "shown";
                reason_code = rec.reason_code;
                confidence = rec.confidence;
                latency_ms = answer.latency_ms;
                created_at = env.now 3;
              }))
          pure tt)
        else pure tt
  ]

module _ {F C : Type 0} ⦃fl : Float64 F⦄ where
  unfoldable pub suggest :
      Context
      → Engine F C
      → Host F
      → Env
      → RecommendationRequest F
      → Action (Store F × C) (RecommendationResponse F)
  unfolding log_shown involved_skus
  suggest ctx engine host env asked =
      let cart = normalize_items asked.cart_items in
      let request = record asked {
        store_id = or_default_store ctx asked.store_id;
        cart_items = cart;
      } in
      if is_empty_cart asked.cart_items
      then pure (silent (pos 30) (pos 0))
      else if is_empty_cart cart
      then pure (silent (pos 30) (pos 0))
      else do
        pairs ← on_store (get_association_pairs (map (λ (item : CartItem). item.sku) cart))
        let skus = involved_skus cart pairs
        products ← on_store (get_products_by_skus skus)
        stock ← on_store (get_stock_map request.store_id skus)
        answer ← on_cache (engine_recommend engine host env request products stock pairs)
        on_store (log_shown env request answer)
        pure answer
