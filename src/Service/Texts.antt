-- ===== src/Service/Texts.antt =====
-- The texts of Go's standard library that products, lots, reports and receipts use: dates of the
-- form 2006-01-02, moments, rates with four digits, and base64.
use kasirinaja.Prelude.{ℕ, Option, none, some, String, List, str_eq, trim_space, if◌then◌else◌}
use kasirinaja.Domain.{Time}
use kasirinaja.Store.{Result, ok, err, invalid_transaction}

pub record Texts (F : Type 0) : Type 0 where
  pub parse_date : String → Option Time
  pub show_date : Time → String
  pub show_moment : Time → String
  pub show_rate : F → String
  pub base64 : List ℕ → String

-- A date that has to parse, or `fallback` where there is none.
unfoldable pub date_or : {F : Type 0} → Texts F → String → Time → Result Time
date_or texts date fallback =
    if str_eq (trim_space date) ""
    then ok fallback
    else elim (texts.parse_date date) [ none ↦ err invalid_transaction | some at ↦ ok at ]
