-- ===== src/Http/Handlers/Reports.antt =====
-- The handlers of reports, alerts, suggestions, receipts and training, and the daily report as CSV.
-- `query` is `r.URL.Query().Get` and `atoi` is `strconv.Atoi`.
use kasirinaja.Prelude.{
  ℤ, pos, not, String, Option, none, some, List, [], ◌∷◌, ◌++◌, str_eq, trim_space, to_lower,
  trim_prefix, has_prefix, show_int, if◌then◌else◌, Float64,
}
use Prim.Native.String.{◌++◌ as ◌++ˢ◌}
use kasirinaja.Domain.{
  Env, CheckoutLookupResponse, AttachMetrics, AuditLog, DailyReport, DailyReportPayment,
  DailyReportTerminal, ReorderSuggestionResponse, OperationalAlertResponse, HardwareReceiptRequest,
  HardwareReceiptResponse, CashDrawerOpenRequest, CashDrawerOpenResponse, RetrainRequest,
  RetrainResponse,
}
use kasirinaja.Store.{message, Result}
use kasirinaja.Service.Context.{Context, Formats}
use kasirinaja.Service.Texts.{Texts}
use kasirinaja.Service.Checkout.{lookup_checkout_by_idempotency}
use kasirinaja.Service.Reports.{attach_metrics, daily_report, list_audit_logs, retrain_associations}
use kasirinaja.Service.Reorder.{reorder_suggestions}
use kasirinaja.Service.Alerts.{detect_operational_anomalies}
use kasirinaja.Service.Receipts.{build_hardware_receipt, open_cash_drawer, join_lines}
use kasirinaja.Http.Csrf.{Request}
use kasirinaja.Http.Handlers.{
  Api, Reply, write_error, method_not_allowed, serve_as, post_call, get_call, replies, valid_status,
  refund_status,
}
use kasirinaja.Http.Handlers.Office.{parse_positive_limit}

unfoldable pub payment_lines : List DailyReportPayment → List String
payment_lines [] = []
payment_lines (p ∷ rest) =
    ("payment," ++ˢ (p.payment_method ++ˢ ("_transactions," ++ˢ show_int p.transactions)))
    ∷ ("payment," ++ˢ (p.payment_method ++ˢ ("_total_cents," ++ˢ show_int p.total_cents)))
    ∷ payment_lines rest

unfoldable pub terminal_lines : List DailyReportTerminal → List String
terminal_lines [] = []
terminal_lines (t ∷ rest) =
    ("terminal," ++ˢ (t.terminal_id ++ˢ ("_transactions," ++ˢ show_int t.transactions)))
    ∷ ("terminal," ++ˢ (t.terminal_id ++ˢ ("_total_cents," ++ˢ show_int t.total_cents)))
    ∷ terminal_lines rest

unfoldable pub daily_report_to_csv : DailyReport → String
unfolding payment_lines terminal_lines join_lines
daily_report_to_csv report =
    let summary =
      "section,key,value"
      ∷ ("summary,date," ++ˢ report.date)
      ∷ ("summary,store_id," ++ˢ report.store_id)
      ∷ ("summary,transactions," ++ˢ show_int report.transactions)
      ∷ ("summary,gross_sales_cents," ++ˢ show_int report.gross_sales_cents)
      ∷ ("summary,discount_cents," ++ˢ show_int report.discount_cents)
      ∷ ("summary,tax_cents," ++ˢ show_int report.tax_cents)
      ∷ ("summary,net_sales_cents," ++ˢ show_int report.net_sales_cents)
      ∷ ("summary,estimated_margin_cents," ++ˢ show_int report.estimated_margin_cents)
      ∷ [] in
    join_lines (summary ++ (payment_lines report.by_payment ++ terminal_lines report.by_terminal))
    ++ˢ "\n"

-- The answer of `handleDailyReport` by its format; the page is a parameter.
pub data ReportReply : Type 0 where
  csv html : String → ReportReply
  json : DailyReport → ReportReply

unfoldable pub report_reply : (DailyReport → String) → String → DailyReport → ReportReply
unfolding daily_report_to_csv
report_reply page asked report =
    let format = to_lower (trim_space asked) in
    if str_eq format "csv"
    then csv (daily_report_to_csv report)
    else if str_eq format "pdf"
    then html (page report)
    else json report

-- `days`, from the text of the query
unfoldable pub asked_days : (String → Option ℤ) → String → ℤ
asked_days atoi text =
    if str_eq text "" then pos 30 else elim (atoi text) [ none ↦ pos 30 | some days ↦ days ]

module _ {F : Type 0} ⦃fl : Float64 F⦄ (ctx : Context) (formats : Formats) (texts : Texts F)
    (env : Env) (r : Request) (query : String → String) (atoi : String → Option ℤ) where
  unfoldable pub handle_checkout_lookup : Api F → Reply CheckoutLookupResponse × Api F
  unfolding write_error serve_as
  handle_checkout_lookup a =
      let key = trim_space (trim_prefix r.path "/api/v1/checkout/idempotency/") in
      if not (str_eq r.method "GET")
      then (method_not_allowed, a)
      else if not (has_prefix r.path "/api/v1/checkout/idempotency/")
      then (write_error 400 (message "invalid path"), a)
      else if str_eq key ""
      then (write_error 400 (message "idempotency key required"), a)
      else serve_as 200 (λ e. 422) (lookup_checkout_by_idempotency formats key) a

  unfoldable pub handle_attach_metrics : Api F → Reply (AttachMetrics F) × Api F
  unfolding get_call asked_days
  handle_attach_metrics =
      get_call r (λ e. 422)
        (attach_metrics ctx env (query "store_id") (asked_days atoi (query "days")))

  unfoldable pub handle_audit_logs : Api F → Reply (List AuditLog) × Api F
  unfolding get_call valid_status
  handle_audit_logs = get_call r valid_status (
      list_audit_logs ctx texts env (query "store_id") (query "date")
        (parse_positive_limit atoi (query "limit") (pos 100) (pos 500)))

  unfoldable pub handle_daily_report : (DailyReport → String) → Api F → Reply ReportReply × Api F
  unfolding get_call valid_status replies report_reply
  handle_daily_report page = get_call r valid_status (
      replies (report_reply page (query "format"))
        (daily_report ctx texts env (query "store_id") (query "date")))

  unfoldable pub handle_reorder_suggestions : Api F → Reply ReorderSuggestionResponse × Api F
  unfolding get_call valid_status
  handle_reorder_suggestions =
      get_call r valid_status (reorder_suggestions ctx formats env (query "store_id"))

  unfoldable pub handle_anomaly_alerts : Api F → Reply (OperationalAlertResponse F) × Api F
  unfolding get_call valid_status
  handle_anomaly_alerts =
      get_call r valid_status
        (detect_operational_anomalies ctx formats texts env (query "store_id") (query "date"))

  unfoldable pub handle_hardware_receipt_escpos :
      Result HardwareReceiptRequest → Api F → Reply HardwareReceiptResponse × Api F
  unfolding post_call refund_status
  handle_hardware_receipt_escpos = post_call r refund_status (build_hardware_receipt texts)

  unfoldable pub handle_cash_drawer_open :
      Result CashDrawerOpenRequest → Api F → Reply CashDrawerOpenResponse × Api F
  unfolding post_call valid_status
  handle_cash_drawer_open = post_call r valid_status (open_cash_drawer texts)

  unfoldable pub handle_retrain : Result RetrainRequest → Api F → Reply RetrainResponse × Api F
  unfolding post_call
  handle_retrain = post_call r (λ e. 422) (retrain_associations ctx formats env)
