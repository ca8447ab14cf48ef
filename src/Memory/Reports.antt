-- ===== src/Memory/Reports.antt =====
-- `Store`: the figures of a day, the rate of accepted suggestions, and the training of the pairs of
-- articles. The transactions are those that `transactionsByID` points to.
pub mod Sums
pub mod Totals
use kasirinaja.Prelude.{
  ℕ, zero, suc, ◌-◌, ℤ, pos, Bool, true, false, not, ◌&&◌, ◌||◌, String, Option, none, some, List,
  [], ◌∷◌, ◌++◌, Dict, lookup, insert, values, keys, get_or, get_elem?, is_some, map, filter, foldl,
  take, length, sort_by, str_eq, str_lt, ltb, leb, ltb_ℤ, add64, mul64, if◌then◌else◌, Float64,
  has_prefix,
}
use Prim.Native.String.{◌++◌ as ◌++ˢ◌, slice, len}
use kasirinaja.Domain.{
  Time, Transaction, TransactionLine, AssociationPair, AttachMetrics, DailyReport,
  DailyReportPayment, DailyReportTerminal, tx_status_paid, tx_status_voided, tx_status_refunded,
}
use kasirinaja.Store.{Action, pure, gets, modify, ◌>>=◌, ◌>>◌}
use kasirinaja.Memory.State.{Store}

-- A tally of a map: an entry for the key that is made where it is missing and then changed.
unfoldable pub tally : {V : Type 0} → (String → V) → (V → V) → String → Dict V → Dict V
tally new bump k d = insert k (bump (get_or (lookup k d) (new k))) d

unfoldable pub new_payment : String → DailyReportPayment
new_payment method = record { payment_method = method; transactions = pos 0; total_cents = pos 0 }

unfoldable pub new_terminal : String → DailyReportTerminal
new_terminal id = record { terminal_id = id; transactions = pos 0; total_cents = pos 0 }

unfoldable pub bump_payment : ℤ → DailyReportPayment → DailyReportPayment
bump_payment total p = record p {
  transactions = add64 p.transactions (pos 1);
  total_cents = add64 p.total_cents total;
}

unfoldable pub bump_terminal : ℤ → DailyReportTerminal → DailyReportTerminal
bump_terminal total t = record t {
  transactions = add64 t.transactions (pos 1);
  total_cents = add64 t.total_cents total;
}

module _ {F : Type 0} where
  -- what a map of pointers leads to
  unfoldable pub all_transactions : List ℕ → Store F → List (Transaction F)
  all_transactions [] s = []
  all_transactions (p ∷ ps) s =
      let rest = all_transactions ps s in
      elim (get_elem? s.heap p) [ none ↦ rest | some tx ↦ tx ∷ rest ]

  unfoldable pub transactions_of : Store F → List (Transaction F)
  unfolding all_transactions
  transactions_of s = all_transactions (values s.transactions_by_id) s

  -- Of the store, from `from` on and before `until`, and not voided.
  unfoldable pub in_report : String → Time → Time → Transaction F → Bool
  in_report store from until tx =
      str_eq tx.store_id store
      && leb from tx.created_at
      && ltb tx.created_at until
      && not (str_eq tx.status tx_status_voided)

unfoldable pub count_up : Dict ℤ → String → Dict ℤ
count_up d k = insert k (add64 (get_or (lookup k d) (pos 0)) (pos 1)) d

pair_key : String → String → String
pair_key source target = source ++ˢ ("->" ++ˢ target)

unfoldable pub count_targets : List String → Dict ℤ → String → Dict ℤ
unfolding pair_key
count_targets skus d source =
    foldl (λ d target. if str_eq source target then d else count_up d (pair_key source target)) d
      skus

-- the first place of "->" in a key
unfoldable pub arrow_at : String → Option ℕ
arrow_at String.[] = none
arrow_at (String.◌∷◌ c s) =
    if has_prefix (String.◌∷◌ c s) "->"
    then some 0
    else elim (arrow_at s) [ none ↦ none | some i ↦ some (suc i) ]

-- The variables of the loop of `GetDailyReport`: the report, `byPayment` and `byTerminal`.
pub record Day : Type 0 where
  pub transactions : ℤ
  pub gross : ℤ
  pub discount : ℤ
  pub tax : ℤ
  pub net : ℤ
  pub margin : ℤ
  pub by_payment : Dict DailyReportPayment
  pub by_terminal : Dict DailyReportTerminal

abbrev pub no_day : Day
no_day = record {
  transactions = pos 0;
  gross = pos 0;
  discount = pos 0;
  tax = pos 0;
  net = pos 0;
  margin = pos 0;
  by_payment = [];
  by_terminal = [];
}

-- The report of a day, with its parts sorted by their keys.
unfoldable pub report_of : String → Day → DailyReport
report_of store day = record {
  store_id = store;
  date = "";
  transactions = day.transactions;
  gross_sales_cents = day.gross;
  discount_cents = day.discount;
  tax_cents = day.tax;
  net_sales_cents = day.net;
  estimated_margin_cents = day.margin;
  by_payment = sort_by (λ a b. str_lt a.payment_method b.payment_method) (values day.by_payment);
  by_terminal = sort_by (λ a b. str_lt a.terminal_id b.terminal_id) (values day.by_terminal);
}

module _ {F : Type 0} ⦃fl : Float64 F⦄ where
  open fl use {of_int, decimal, mul, div, lt, round}

  unfoldable pub add_margin : ℤ → TransactionLine F → ℤ
  add_margin margin item =
      add64 margin (round (mul (of_int (mul64 item.unit_price_cents item.qty)) item.margin_rate))

  unfoldable pub add_to_day : String → Time → Time → Day → Transaction F → Day
  unfolding in_report
  add_to_day store from until day tx =
      if in_report store from until tx
      then record {
        transactions = add64 day.transactions (pos 1);
        gross = add64 day.gross tx.subtotal_cents;
        discount = add64 day.discount tx.discount_cents;
        tax = add64 day.tax tx.tax_cents;
        net = add64 day.net tx.total_cents;
        margin = foldl add_margin day.margin tx.items;
        by_payment =
            tally new_payment (bump_payment tx.total_cents) tx.payment_method day.by_payment;
        by_terminal =
            tally new_terminal (bump_terminal tx.total_cents) tx.terminal_id day.by_terminal;
      }
      else day

  unfoldable pub get_daily_report : String → Time → Time → Action (Store F) DailyReport
  get_daily_report store from until = do
    found ← gets transactions_of
    let day = foldl (add_to_day store from until) no_day found
    pure (report_of store day)

  -- Of the store, not before `from` and not after `until`, paid or refunded.
  unfoldable pub in_metrics : String → Time → Time → Transaction F → Bool
  in_metrics store from until tx =
      str_eq tx.store_id store
      && leb from tx.created_at
      && leb tx.created_at until
      && (str_eq tx.status tx_status_paid || str_eq tx.status tx_status_refunded)

  unfoldable pub add_to_metrics : String → Time → Time → ℤ × ℤ → Transaction F → ℤ × ℤ
  unfolding in_metrics
  add_to_metrics store from until (count, accepted) tx =
      if in_metrics store from until tx
      then (
        add64 count (pos 1),
        if tx.recommendation_accepted then add64 accepted (pos 1) else accepted,
      )
      else (count, accepted)

  unfoldable pub get_attach_metrics : String → Time → Time → Action (Store F) (AttachMetrics F)
  get_attach_metrics store from until = do
    found ← gets transactions_of
    let counts = foldl (add_to_metrics store from until) (pos 0, pos 0) found
    pure (record {
      transactions = counts.0;
      accepted = counts.1;
      attach_rate =
          if ltb_ℤ (pos 0) counts.0
          then mul (div (of_int counts.1) (of_int counts.0)) (of_int (pos 100))
          else of_int (pos 0);
    })

  -- the codes of the lines, each once
  unfoldable pub seen_skus : List (TransactionLine F) → Dict (Unit {0})
  seen_skus items = foldl (λ d item. insert item.sku tt d) [] items

  -- One round of the loop over the transactions, on `sourceCount` and `pairCount`.
  unfoldable pub count_pairs : String → Dict ℤ × Dict ℤ → Transaction F → Dict ℤ × Dict ℤ
  count_pairs store (sources, pairs) tx =
      if str_eq tx.store_id store && str_eq tx.status tx_status_paid
      then (
        foldl count_up sources (keys (seen_skus tx.items)),
        foldl (count_targets (keys (seen_skus tx.items))) pairs (keys (seen_skus tx.items)),
      )
      else (sources, pairs)

  -- One round of the loop over `pairCount`.
  unfoldable pub add_pair :
      Dict ℤ → List (AssociationPair F) → String × ℤ → List (AssociationPair F)
  unfolding arrow_at
  add_pair sources pairs (key, count) = elim (arrow_at key) [
    | none ↦ pairs
    | some arrow ↦
        let source = slice key 0 arrow in
        let source_count = get_or (lookup source sources) (pos 0) in
        let affinity = div (of_int count) (of_int source_count) in
        if ltb arrow 1 || ltb_ℤ source_count (pos 1) || lt affinity (decimal 2 1)
        then pairs
        else pairs
          ++ (record {
            source_sku = source;
            target_sku = slice key (suc (suc arrow)) (len key);
            affinity = affinity;
          }
              ∷ [])
  ]

  -- By source, then the greater affinity first, then by target.
  unfoldable pub pair_before : AssociationPair F → AssociationPair F → Bool
  pair_before a b =
      if str_eq a.source_sku b.source_sku
      then (if lt b.affinity a.affinity
          then true
          else if lt a.affinity b.affinity
          then false
          else str_lt a.target_sku b.target_sku)
      else str_lt a.source_sku b.source_sku

  unfoldable pub rebuild_association_pairs : String → Action (Store F) ℤ
  unfolding pair_before
  rebuild_association_pairs store = do
    found ← gets transactions_of
    let counts = foldl (count_pairs store) ([], []) found
    let pairs = take 250 (sort_by pair_before (foldl (add_pair counts.0) [] counts.1))
    modify λ s. if leb (length pairs) 0 then s else record s { association_pairs = pairs }
    pure (pos (length pairs))
