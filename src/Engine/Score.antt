-- ===== src/Engine/Score.antt =====
-- The scores of an article, what they come to and the reason that is shown.
use kasirinaja.Prelude.{
  ℕ, ℤ, pos, ◌&&◌, ◌||◌, String, List, [], ◌∷◌, str_eq, ltb, leb, sort_by, if◌then◌else◌, Float64,
}
use kasirinaja.Domain.{Product}

-- The four scores of an article, each from 0 to 1.
pub record Scores (F : Type 0) : Type 0 where
  pub pair_affinity : F
  pub margin_score : F
  pub stock_score : F
  pub time_relevance : F

module _ {F : Type 0} ⦃fl : Float64 F⦄ where
  open fl use {of_int, decimal, add, sub, mul, div, lt, round}

  unfoldable pub clamp : F → F → F → F
  clamp val min_val max_val =
      if lt val min_val then min_val else if lt max_val val then max_val else val

  -- `math.Round(val*100) / 100`, for a value whose hundredfold is an `int64`
  unfoldable pub round2 : F → F
  round2 val = div (of_int (round (mul val (of_int (pos 100))))) (of_int (pos 100))

  unfoldable pub category_hour_relevance : String → ℕ → F
  category_hour_relevance category hour =
      if str_eq category "snack" || str_eq category "beverage"
      then (if leb 16 hour && leb hour 21
          then decimal 95 2
          else if leb 8 hour && ltb hour 16
          then decimal 75 2
          else decimal 55 2)
      else if str_eq category "dairy" || str_eq category "bakery" || str_eq category "grocery"
      then (if leb 6 hour && leb hour 11
          then decimal 90 2
          else if leb 17 hour && leb hour 21
          then decimal 70 2
          else decimal 55 2)
      else decimal 55 2

  -- The reason of the greatest value, the earliest of equal ones.
  first_code : List (String × F) → String
  first_code [] = ""
  first_code ((code, _) ∷ _) = code

  unfoldable pub derive_reason : F → F → F → F → String
  unfolding first_code
  derive_reason pair_affinity margin_score stock_score time_relevance = first_code (
      sort_by (λ a b. lt b.1 a.1)
        (("often_bought_together", pair_affinity)
          ∷ ("high_margin_boost", margin_score)
          ∷ ("healthy_stock", stock_score)
          ∷ ("time_slot_match", time_relevance)
          ∷ []))

  unfoldable pub scores_of : Product F → ℤ → F → ℕ → ℕ → Scores F
  unfolding clamp category_hour_relevance
  scores_of product stock raw item_count hour =
      let unit = λ (x : F). clamp x (of_int (pos 0)) (of_int (pos 1)) in
      record {
        pair_affinity = unit (div raw (of_int (pos (if ltb 1 item_count then item_count else 1))));
        margin_score = unit (div product.margin_rate (decimal 40 2));
        stock_score = unit (div (of_int stock) (of_int (pos 90)));
        time_relevance = category_hour_relevance product.category hour;
      }

  unfoldable pub confidence_of : Scores F → ℤ → F
  unfolding clamp
  confidence_of scores prompt_count =
      let fatigue =
        clamp (div (of_int prompt_count) (of_int (pos 4))) (of_int (pos 0)) (of_int (pos 1)) in
      let gain =
        add
          (add
            (add (mul (decimal 40 2) scores.pair_affinity) (mul (decimal 25 2) scores.margin_score))
            (mul (decimal 20 2) scores.stock_score))
          (mul (decimal 10 2) scores.time_relevance) in
      clamp (sub gain (mul (decimal 5 2) fatigue)) (of_int (pos 0)) (of_int (pos 1))
