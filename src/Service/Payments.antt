-- ===== src/Service/Payments.antt =====
-- Payment methods and split payments.
use kasirinaja.Prelude.{
  ℤ, pos, ◌||◌, ◌&&◌, not, Bool, String, none, some, List, [], ◌∷◌, str_eq, ltb, ltb_ℤ, eqb_ℤ,
  add64, trim_space, to_lower, length, if◌then◌else◌,
}
use kasirinaja.Domain.{PaymentSplit}
use kasirinaja.Store.{invalid_transaction, Result, ok, err, bind, fold_result}
use kasirinaja.Service.Context.{Formats}
use text.Mathlib.Text.{starts_with}

unfoldable pub is_split_method_supported : String → Bool
is_split_method_supported method =
    str_eq method "cash" || str_eq method "card" || str_eq method "qris" || str_eq method "ewallet"

unfoldable pub is_supported_payment_method : String → Bool
unfolding is_split_method_supported
is_supported_payment_method method = is_split_method_supported method || str_eq method "split"

-- Splits with a method and at least one cent, trimmed.
unfoldable pub normalize_payment_splits : List PaymentSplit → List PaymentSplit
normalize_payment_splits [] = []
normalize_payment_splits (split ∷ splits) =
    let rest = normalize_payment_splits splits in
    let method = to_lower (trim_space split.method) in
    if str_eq method "" || ltb_ℤ split.amount_cents (pos 1)
    then rest
    else record {
      method = method;
      amount_cents = split.amount_cents;
      reference = trim_space split.reference;
    }
      ∷ rest

-- One round of the loop that sums the parts of a split payment.
unfoldable pub add_split : ℤ → PaymentSplit → Result ℤ
unfolding is_split_method_supported
add_split sum split =
    if not (is_split_method_supported split.method) || ltb_ℤ split.amount_cents (pos 1)
    then err invalid_transaction
    else (if not (str_eq split.method "cash") && str_eq (trim_space split.reference) ""
        then err invalid_transaction
        else ok (add64 sum split.amount_cents))

-- The parts of a split payment, at least two, make up the total.
unfoldable pub split_total : List PaymentSplit → ℤ → Result ℤ
unfolding add_split
split_total splits total =
    if ltb (length splits) 2
    then err invalid_transaction
    else (bind (fold_result add_split (pos 0) splits)
        λ sum. if eqb_ℤ sum total then ok sum else err invalid_transaction)

-- The parts of a payment from its reference, as `encodePaymentSplits` wrote them there.
unfoldable pub decode_payment_splits : Formats → String → List PaymentSplit
decode_payment_splits formats raw =
    let trimmed = trim_space raw in
    if str_eq trimmed "" || not (starts_with trimmed "[")
    then []
    else elim (formats.unmarshal_splits trimmed) [
      | none ↦ []
      | some splits ↦ normalize_payment_splits splits
    ]
