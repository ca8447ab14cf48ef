-- ===== src/Service/Alerts.antt =====
-- `DetectOperationalAnomalies`: alerts from the audit log of a day.
use kasirinaja.Prelude.{
  ℕ, suc, ℤ, pos, Bool, ◌&&◌, String, List, [], ◌∷◌, ◌++◌, Dict, lookup, insert, get_or, foldl,
  length, sort_by, str_eq, contains, ltb, ltb_ℤ, add64, trim_space, show_int, if◌then◌else◌,
  Float64,
}
use kasirinaja.Domain.{Env, AuditLog, OperationalAlert, OperationalAlertResponse}
use kasirinaja.Store.{Action, pure, ◌>>=◌}
use kasirinaja.Memory.State.{Store}
use kasirinaja.Service.Context.{Context, Formats, later, or_default_store}
use kasirinaja.Service.Texts.{Texts}
use kasirinaja.Service.Reports.{list_audit_logs}
use Prim.Native.String.{◌++◌ as str_append}

-- The counts of the loop over the log.
pub record Counts : Type 0 where
  pub void_by_actor : Dict ℤ
  pub refund_by_actor : Dict ℤ
  pub manual_overrides : ℤ
  pub opname_batches : ℤ

unfoldable pub count_actor : String → Dict ℤ → Dict ℤ
count_actor actor d = insert actor (add64 (get_or (lookup actor d) (pos 0)) (pos 1)) d

unfoldable pub count_log : Counts → AuditLog → Counts
unfolding count_actor
count_log counts log =
    if str_eq log.action "void_transaction"
    then record counts { void_by_actor = count_actor log.actor_username counts.void_by_actor }
    else if str_eq log.action "refund_transaction"
    then record counts { refund_by_actor = count_actor log.actor_username counts.refund_by_actor }
    else if str_eq log.action "stock_opname"
    then record counts { opname_batches = add64 counts.opname_batches (pos 1) }
    else if str_eq log.action "checkout" && contains log.detail "manual_override=true"
    then record counts { manual_overrides = add64 counts.manual_overrides (pos 1) }
    else counts

unfoldable pub severity_rank : String → ℕ
severity_rank severity =
    if str_eq severity "high" then 1 else if str_eq severity "medium" then 2 else 3

module _ {F : Type 0} ⦃fl : Float64 F⦄ where
  open fl use {of_int, lt}

  -- An alert for a count that reaches its threshold; the `i`-th alert takes the `i`-th identifier.
  unfoldable pub add_alert :
      Formats
      → Env
      → String
      → String
      → String
      → ℤ
      → ℤ
      → String
      → List (OperationalAlert F)
      → List (OperationalAlert F)
  add_alert formats env code severity title threshold count description alerts =
      let i = length alerts in
      if ltb_ℤ count threshold
      then alerts
      else alerts
        ++ (record {
          id = env.new_id "alert" i;
          code = code;
          severity = severity;
          title = title;
          description = description;
          metric_value = of_int count;
          threshold = of_int threshold;
          created_at = formats.rfc3339 (env.now i);
        }
            ∷ [])

  unfoldable pub add_void_alert :
      Formats → Env → List (OperationalAlert F) → String × ℤ → List (OperationalAlert F)
  add_void_alert formats env alerts (actor, count) =
      add_alert formats env "void_spike" "high" "Void transaksi meningkat" (pos 3) count
        (str_append "Actor " (
          str_append actor (
            str_append " melakukan "
              (str_append (show_int count) " void transaksi dalam 1 hari."))))
        alerts

  unfoldable pub add_refund_alert :
      Formats → Env → List (OperationalAlert F) → String × ℤ → List (OperationalAlert F)
  add_refund_alert formats env alerts (actor, count) =
      add_alert formats env "refund_spike" "high" "Refund transaksi meningkat" (pos 2) count
        (str_append "Actor " (
          str_append actor
            (str_append " melakukan " (str_append (show_int count) " refund dalam 1 hari."))))
        alerts

  unfoldable pub alerts_of : Formats → Env → Counts → List (OperationalAlert F)
  unfolding add_alert add_void_alert add_refund_alert
  alerts_of formats env counts =
      let voids = foldl (add_void_alert formats env) [] counts.void_by_actor in
      let refunds = foldl (add_refund_alert formats env) voids counts.refund_by_actor in
      let overrides =
        add_alert formats env "manual_override_spike" "medium" "Manual override tinggi" (pos 5)
          counts.manual_overrides
          (str_append "Terdapat "
            (str_append (show_int counts.manual_overrides) " checkout dengan manual override."))
          refunds in
      add_alert formats env "stock_opname_frequency" "medium" "Frekuensi stock opname tinggi"
        (pos 3) counts.opname_batches
        (str_append "Stock opname dijalankan "
          (str_append (show_int counts.opname_batches) " kali hari ini."))
        overrides

  -- The gravest first, then the greater figure; Go leaves the order of equal ones open.
  unfoldable pub alert_before : OperationalAlert F → OperationalAlert F → Bool
  unfolding severity_rank
  alert_before a b =
      if str_eq a.severity b.severity
      then lt b.metric_value a.metric_value
      else ltb (severity_rank a.severity) (severity_rank b.severity)

  unfoldable pub detect_operational_anomalies :
      Context
      → Formats
      → Texts F
      → Env
      → String
      → String
      → Action (Store F) (OperationalAlertResponse F)
  unfolding count_log alerts_of alert_before
  detect_operational_anomalies ctx formats texts env asked date = do
    let store = or_default_store ctx asked
    logs ← list_audit_logs ctx texts env store date (pos 500)
    let counts =
        foldl count_log
          (record {
            void_by_actor = [];
            refund_by_actor = [];
            manual_overrides = pos 0;
            opname_batches = pos 0;
          })
          logs
    let alerts = alerts_of formats (later 1 env) counts
    let now = env.now (suc (length alerts))
    pure (record {
      store_id = store;
      date = if str_eq (trim_space date) "" then texts.show_date now else trim_space date;
      alerts = sort_by alert_before alerts;
    })
