-- ===== src/Memory/Reports/Totals.antt =====
-- The figures of a day agree with one another.
use kasirinaja.Prelude.{
  ◌+◌, ◌%◌, ◌^◌, ◌≡◌, refl, sym, ◌∙◌, ap, subst, ℤ, pos, Fits, low, low-lt, low_zero, low-add64,
  low-inj, add64, add64-Fits, Bool, String, List, [], ◌∷◌, values, sort_by, foldl, filter, str_lt,
  arith, Float64, Bool-cases, inl, inr, if◌then◌else◌,
}
use kasirinaja.Domain.{Time, Transaction, DailyReport}
use kasirinaja.Store.{ok}
use kasirinaja.Memory.State.{Store}
use kasirinaja.Memory.Reports.{
  new_payment, new_terminal, bump_payment, bump_terminal, Day, no_day, in_report, add_to_day,
  transactions_of, report_of, get_daily_report,
}
use kasirinaja.Memory.Reports.Sums.{sum_of, sum_of-Fits, sum_of-sort_by, sum_of-tally}

-- The parts of a day have the totals of the day.
record IsSplit (day : Day) : Type 0 where
  payment_counts : low (sum_of (λ p. p.transactions) (values day.by_payment)) ≡ low day.transactions
  payment_totals : low (sum_of (λ p. p.total_cents) (values day.by_payment)) ≡ low day.net
  terminal_counts :
      low (sum_of (λ t. t.transactions) (values day.by_terminal)) ≡ low day.transactions
  terminal_totals : low (sum_of (λ t. t.total_cents) (values day.by_terminal)) ≡ low day.net
  count_fits : Fits day.transactions
  net_fits : Fits day.net

no_day-IsSplit : IsSplit no_day
no_day-IsSplit = record {
  payment_counts = refl;
  payment_totals = refl;
  terminal_counts = refl;
  terminal_totals = refl;
  count_fits = omega arith;
  net_fits = omega arith;
}

grown : (a s x t : ℤ) → low a ≡ (low s + low t) % 2 ^ 64 → low s ≡ low x → low a ≡ low (add64 x t)
grown a s x t h e = omega (arith, low-add64 x t)

module _ {F : Type 0} ⦃fl : Float64 F⦄ where
  add_to_day-IsSplit :
      (store : String) (from until : Time) (day : Day) (tx : Transaction F)
      → IsSplit day
      → IsSplit (add_to_day store from until day tx)
  unfolding add_to_day new_payment bump_payment new_terminal bump_terminal
  add_to_day-IsSplit store from until day tx h = elim (Bool-cases (in_report store from until tx)) [
    | inr skipped ↦ rw skipped h
    | inl taken ↦ rw taken (record {
      payment_counts =
          grown _ (sum_of (λ v. v.transactions) (values day.by_payment)) day.transactions (pos 1)
            (sum_of-tally (λ v. v.transactions) new_payment (bump_payment tx.total_cents) (pos 1)
              tx.payment_method day.by_payment low_zero (λ v. low-add64 v.transactions (pos 1)))
            h.payment_counts;
      payment_totals =
          grown _ (sum_of (λ v. v.total_cents) (values day.by_payment)) day.net tx.total_cents
            (sum_of-tally (λ v. v.total_cents) new_payment (bump_payment tx.total_cents)
              tx.total_cents tx.payment_method day.by_payment low_zero
              (λ v. low-add64 v.total_cents tx.total_cents))
            h.payment_totals;
      terminal_counts =
          grown _ (sum_of (λ v. v.transactions) (values day.by_terminal)) day.transactions (pos 1)
            (sum_of-tally (λ v. v.transactions) new_terminal (bump_terminal tx.total_cents) (pos 1)
              tx.terminal_id day.by_terminal low_zero (λ v. low-add64 v.transactions (pos 1)))
            h.terminal_counts;
      terminal_totals =
          grown _ (sum_of (λ v. v.total_cents) (values day.by_terminal)) day.net tx.total_cents
            (sum_of-tally (λ v. v.total_cents) new_terminal (bump_terminal tx.total_cents)
              tx.total_cents tx.terminal_id day.by_terminal low_zero
              (λ v. low-add64 v.total_cents tx.total_cents))
            h.terminal_totals;
      count_fits = add64-Fits day.transactions (pos 1);
      net_fits = add64-Fits day.net tx.total_cents;
    })
  ]

  days-IsSplit :
      (store : String) (from until : Time) (day : Day) (txs : List (Transaction F))
      → IsSplit day
      → IsSplit (foldl (add_to_day store from until) day txs)
  days-IsSplit store from until day [] h = h
  days-IsSplit store from until day (tx ∷ txs) h =
      days-IsSplit store from until (add_to_day store from until day tx) txs
        (add_to_day-IsSplit store from until day tx h)

  -- A figure that grows with each transaction of the day is their sum.
  figure_sum :
      (store : String) (from until : Time) (g : Day → ℤ) (f : Transaction F → ℤ)
      → ((day : Day) (tx : Transaction F)
          → g (add_to_day store from until day tx)
            ≡ (if in_report store from until tx then add64 (g day) (f tx) else g day))
      → (day : Day) (txs : List (Transaction F))
      → low (g (foldl (add_to_day store from until) day txs))
        ≡ (low (g day) + low (sum_of f (filter (in_report store from until) txs))) % 2 ^ 64
  figure_sum store from until g f step day [] = omega (arith, low-lt (g day), low_zero)
  figure_sum store from until g f step day (tx ∷ txs) =
      let ih = figure_sum store from until g f step (add_to_day store from until day tx) txs in
      elim (Bool-cases (in_report store from until tx)) [
        | inr skipped ↦ rw skipped (
            ih
            ∙ ap (λ z. (low z + low (sum_of f (filter (in_report store from until) txs))) % 2 ^ 64)
                (step day tx ∙ rw skipped refl))
        | inl taken ↦
            let here : g (add_to_day store from until day tx) ≡ add64 (g day) (f tx) =
              step day tx ∙ rw taken refl in
            rw taken (
              omega (
                arith,
                ih,
                ap low here,
                low-add64 (g day) (f tx),
                low-add64 (f tx) (sum_of f (filter (in_report store from until) txs)),
              ))
      ]

  figure-Fits :
      (store : String) (from until : Time) (g : Day → ℤ) (f : Transaction F → ℤ)
      → ((day : Day) (tx : Transaction F)
          → g (add_to_day store from until day tx)
            ≡ (if in_report store from until tx then add64 (g day) (f tx) else g day))
      → (day : Day) (txs : List (Transaction F)) → Fits (g day)
      → Fits (g (foldl (add_to_day store from until) day txs))
  figure-Fits store from until g f step day [] h = h
  figure-Fits store from until g f step day (tx ∷ txs) h =
      figure-Fits store from until g f step (add_to_day store from until day tx) txs
        (elim (Bool-cases (in_report store from until tx)) [
          | inl taken ↦ subst Fits (sym (step day tx ∙ rw taken refl)) (add64-Fits (g day) (f tx))
          | inr skipped ↦ subst Fits (sym (step day tx ∙ rw skipped refl)) h
        ])

  -- a figure that starts at zero
  figure-eq :
      (store : String) (from until : Time) (g : Day → ℤ) (f : Transaction F → ℤ)
      → ((day : Day) (tx : Transaction F)
          → g (add_to_day store from until day tx)
            ≡ (if in_report store from until tx then add64 (g day) (f tx) else g day))
      → g no_day ≡ pos 0
      → (txs : List (Transaction F))
      → g (foldl (add_to_day store from until) no_day txs)
        ≡ sum_of f (filter (in_report store from until) txs)
  figure-eq store from until g f step z txs =
      let sum = sum_of f (filter (in_report store from until) txs) in
      low-inj _ sum
        (figure-Fits store from until g f step no_day txs (subst Fits (sym z) (omega arith)))
        (sum_of-Fits f (filter (in_report store from until) txs))
        (omega
          (arith, figure_sum store from until g f step no_day txs, ap low z, low_zero, low-lt sum))

split_sum :
    {V : Type 0} (f : V → ℤ) (before : V → V → Bool) (vs : List V) (total : ℤ)
    → low (sum_of f vs) ≡ low total
    → Fits total
    → sum_of f (sort_by before vs) ≡ total
split_sum f before vs total e fits =
    low-inj _ total (sum_of-Fits f (sort_by before vs)) fits (sum_of-sort_by f before vs ∙ e)

-- The figures of a report, each as a sum of its own.
pub record IsSummed {F : Type 0} (day : List (Transaction F)) (report : DailyReport) : Type 0 where
  pub transactions : report.transactions ≡ sum_of (λ tx. pos 1) day
  pub gross : report.gross_sales_cents ≡ sum_of (λ tx. tx.subtotal_cents) day
  pub discount : report.discount_cents ≡ sum_of (λ tx. tx.discount_cents) day
  pub tax : report.tax_cents ≡ sum_of (λ tx. tx.tax_cents) day
  pub net : report.net_sales_cents ≡ sum_of (λ tx. tx.total_cents) day
  pub payment_counts : sum_of (λ p. p.transactions) report.by_payment ≡ report.transactions
  pub payment_totals : sum_of (λ p. p.total_cents) report.by_payment ≡ report.net_sales_cents
  pub terminal_counts : sum_of (λ t. t.transactions) report.by_terminal ≡ report.transactions
  pub terminal_totals : sum_of (λ t. t.total_cents) report.by_terminal ≡ report.net_sales_cents

module _ {F : Type 0} ⦃fl : Float64 F⦄ where
  day-IsSummed :
      (store : String) (from until : Time) (txs : List (Transaction F))
      → IsSummed
          (filter (in_report store from until) txs)
          (report_of store (foldl (add_to_day store from until) no_day txs))
  unfolding report_of add_to_day
  day-IsSummed store from until txs =
      let day = foldl (add_to_day store from until) no_day txs in
      let split = days-IsSplit store from until no_day txs no_day-IsSplit in
      record {
        transactions =
            figure-eq store from until (λ day. day.transactions) (λ tx. pos 1)
              (λ day tx. ground arith) refl txs;
        gross =
            figure-eq store from until (λ day. day.gross) (λ tx. tx.subtotal_cents)
              (λ day tx. ground arith) refl txs;
        discount =
            figure-eq store from until (λ day. day.discount) (λ tx. tx.discount_cents)
              (λ day tx. ground arith) refl txs;
        tax =
            figure-eq store from until (λ day. day.tax) (λ tx. tx.tax_cents)
              (λ day tx. ground arith) refl txs;
        net =
            figure-eq store from until (λ day. day.net) (λ tx. tx.total_cents)
              (λ day tx. ground arith) refl txs;
        payment_counts =
            split_sum (λ p. p.transactions) (λ a b. str_lt a.payment_method b.payment_method)
              (values day.by_payment) day.transactions split.payment_counts split.count_fits;
        payment_totals =
            split_sum (λ p. p.total_cents) (λ a b. str_lt a.payment_method b.payment_method)
              (values day.by_payment) day.net split.payment_totals split.net_fits;
        terminal_counts =
            split_sum (λ t. t.transactions) (λ a b. str_lt a.terminal_id b.terminal_id)
              (values day.by_terminal) day.transactions split.terminal_counts split.count_fits;
        terminal_totals =
            split_sum (λ t. t.total_cents) (λ a b. str_lt a.terminal_id b.terminal_id)
              (values day.by_terminal) day.net split.terminal_totals split.net_fits;
      }

  -- The report of a day has the number and the sums of the transactions of the store in its time
  -- that are not voided, and its parts by payment and by terminal add up to that number and to the
  -- net sales, in sums that wrap as Go's do; nothing is changed.
  pub get_daily_report-IsSummed :
      (store : String) (from until : Time) (s : Store F) {report : DailyReport} {s' : Store F}
      → get_daily_report store from until s ≡ (ok report, s')
      → IsSummed (filter (in_report store from until) (transactions_of s)) report × (s' ≡ s)
  unfolding get_daily_report
  get_daily_report-IsSummed store from until s {report} h =
      let txs = transactions_of s in
      let is : report_of store (foldl (add_to_day store from until) no_day txs) ≡ report =
        ground arith in
      (
        subst (IsSummed (filter (in_report store from until) txs)) is
            (day-IsSummed store from until txs),
        ground arith,
      )
