-- ===== src/Tests/Shelf.antt =====
-- What is suggested at the till and to buy, and the report of a day.
use kasirinaja.Prelude.{
  leb, pos, ◌≡◌, refl, filter, insert, lookup, lookup_inner, add64, sub64, mul64, to_lower, none,
  some, true, false, [], ◌∷◌, All, List,
}
use kasirinaja.Domain.{
  ReorderSuggestionResponse, DailyReport, Recommendation, AssociationPair, RecommendationRequest,
  RecommendationResponse,
}
use kasirinaja.Store.{ok}
use kasirinaja.Memory.State.{stock_of, cost_of}
use kasirinaja.Memory.Reports.{
  get_daily_report, report_of, add_to_day, add_margin, tally, bump_payment, bump_terminal,
  new_payment, new_terminal, transactions_of, in_report,
}
use kasirinaja.Memory.Reports.Totals.{IsSummed, get_daily_report-IsSummed}
use kasirinaja.Memory.Catalog.{list_products}
use kasirinaja.Memory.Inventory.{get_stock_map, get_product_costs}
use kasirinaja.Service.Context.{or_default_store}
use kasirinaja.Engine.Cart.{Host, Engine, noop_cache, in_cart, add_signal, is_empty_cart}
use kasirinaja.Engine.Score.{scores_of, confidence_of, derive_reason}
use kasirinaja.Engine.Recommend.{fresh_recommendation, best_article, shown, consider, recommend}
use kasirinaja.Engine.Choice.{IsSellable, recommend-IsSellable}
use kasirinaja.Service.Reorder.{reorder_suggestions, add_suggestion, default_reorder_point}
use kasirinaja.Service.Reorder.Enough.{IsDue, reorder_suggestions-IsDue}
use kasirinaja.Service.Items.{aggregate, add_item}
use kasirinaja.Tests.Fixed.{Fixed, fixed}
use kasirinaja.Tests.Shop.{outside, milk, shop, till}
use kasirinaja.Tests.Till.{cashier, formats}

abbrev host : Host Fixed
host = record { hex_sha1 = λ text. text; hour = λ at. 9; truncate = λ x. pos 0 }

abbrev engine : Engine Fixed (Unit {0})
engine = record { cache = noop_cache; cache_ttl = 20; min_confidence = 3500 }

-- A basket with bread, which often goes with milk.
abbrev basket : RecommendationRequest Fixed
basket = record {
  store_id = "main";
  terminal_id = "t1";
  timestamp = none;
  queue_speed_hint = 50_000;
  prompt_count = pos 0;
  cart_items = record { sku = "BREAD"; qty = pos 1 } ∷ [];
}

abbrev pairs : List (AssociationPair Fixed)
pairs = record { source_sku = "BREAD"; target_sku = "MILK"; affinity = 9000 } ∷ []

abbrev offer : Recommendation Fixed
offer = record {
  sku = "MILK";
  name = "Milk";
  price_cents = pos 1000;
  expected_margin_lift_cents = pos 200;
  reason_code = "often_bought_together";
  confidence = 5900;
}

abbrev answer : RecommendationResponse Fixed
answer = record {
  recommendation = some offer;
  ui_policy = record { show = true; cooldown_seconds = pos 45 };
  latency_ms = pos 0;
}

offered :
    recommend engine host outside basket (("MILK", milk) ∷ []) (("MILK", pos 5) ∷ []) pairs tt
    ≡ (ok answer, tt)
unfolding recommend is_empty_cart fresh_recommendation shown best_article add_signal in_cart
    aggregate add_item insert consider lookup confidence_of scores_of derive_reason
offered = refl

recommend-IsSellable_example :
    (leb 280_000 50_000 ≡ false)
    × IsSellable fixed
        (("MILK", milk) ∷ [])
        (("MILK", pos 5) ∷ [])
        pairs
        basket.cart_items
        3500
        offer
recommend-IsSellable_example =
    recommend-IsSellable engine host outside basket (("MILK", milk) ∷ []) (("MILK", pos 5) ∷ [])
      pairs tt refl offered refl

abbrev report : DailyReport
report = record {
  store_id = "main";
  date = "";
  transactions = pos 1;
  gross_sales_cents = pos 3000;
  discount_cents = pos 200;
  tax_cents = pos 280;
  net_sales_cents = pos 3080;
  estimated_margin_cents = pos 600;
  by_payment =
      record { payment_method = "cash"; transactions = pos 1; total_cents = pos 3080 } ∷ [];
  by_terminal = record { terminal_id = "t1"; transactions = pos 1; total_cents = pos 3080 } ∷ [];
}

reported : get_daily_report "main" 0 1000 till ≡ (ok report, till)
unfolding get_daily_report report_of transactions_of add_to_day add64 add_margin tally mul64 insert
    bump_payment bump_terminal lookup new_payment new_terminal
reported = refl

get_daily_report-IsSummed_example :
    IsSummed (filter (in_report "main" 0 1000) (transactions_of till)) report × (till ≡ till)
get_daily_report-IsSummed_example = get_daily_report-IsSummed "main" 0 1000 till reported

abbrev shopping : ReorderSuggestionResponse
shopping = record {
  store_id = "main";
  generated_at = "0001-01-01T00:00:00Z";
  suggestions =
      record {
        sku = "MILK";
        name = "Milk";
        category = "dairy";
        current_stock = pos 5;
        reorder_point = pos 35;
        recommended_qty = pos 65;
        last_cost_cents = pos 700;
        estimated_purchase_cents = pos 45_500;
      }
      ∷ [];
}

suggested : reorder_suggestions cashier formats outside "" shop ≡ (ok shopping, shop)
unfolding reorder_suggestions list_products get_stock_map get_product_costs or_default_store
    add_suggestion default_reorder_point to_lower lookup insert stock_of lookup_inner sub64 mul64
    cost_of
suggested = refl

reorder_suggestions-IsDue_example :
    All (IsDue fixed (or_default_store cashier "") shop) shopping.suggestions
reorder_suggestions-IsDue_example =
    reorder_suggestions-IsDue cashier formats outside "" shop suggested
