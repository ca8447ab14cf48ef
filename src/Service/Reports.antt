-- ===== src/Service/Reports.antt =====
-- Reports of the service: metrics, the report of a day, the audit log, and training.
use kasirinaja.Prelude.{
  ◌+◌, ◌-◌, ◌*◌, ◌^◌, ℤ, pos, pos_part, neg_part, String, List, ltb_ℤ, mul64, if◌then◌else◌,
  Float64,
}
use kasirinaja.Domain.{
  Time, day, Env, AttachMetrics, DailyReport, AuditLog, RetrainRequest, RetrainResponse,
}
use kasirinaja.Store.{Action, pure, lift, ◌>>=◌}
use kasirinaja.Memory.State.{Store}
use kasirinaja.Memory.Lots.{now_date_utc}
use kasirinaja.Memory.Catalog.{list_audit_logs as store_list_audit_logs}
use kasirinaja.Memory.Reports.{get_attach_metrics, get_daily_report, rebuild_association_pairs}
use kasirinaja.Service.Context.{Context, Formats, or_default_store}
use kasirinaja.Service.Texts.{Texts, date_or}

-- `to.Add(-time.Duration(days) * 24 * time.Hour)`
unfoldable pub days_before : ℤ → Time → Time
days_before days to =
    let span = mul64 (mul64 days (pos 24)) (pos (3600 * 10 ^ 9)) in
    to + neg_part span - pos_part span

module _ {F : Type 0} ⦃fl : Float64 F⦄ where
  unfoldable pub attach_metrics : Context → Env → String → ℤ → Action (Store F) (AttachMetrics F)
  unfolding days_before
  attach_metrics ctx env store days =
      let to = env.now 0 in
      get_attach_metrics (or_default_store ctx store)
        (days_before (if ltb_ℤ days (pos 1) then pos 30 else days) to) to

  unfoldable pub daily_report :
      Context → Texts F → Env → String → String → Action (Store F) DailyReport
  unfolding date_or
  daily_report ctx texts env store date = do
    let store = or_default_store ctx store
    from ← lift (date_or texts date (now_date_utc (env.now 0)))
    report ← get_daily_report store from (from + day)
    pure (record report { store_id = store; date = texts.show_date from })

  unfoldable pub list_audit_logs :
      Context → Texts F → Env → String → String → ℤ → Action (Store F) (List AuditLog)
  unfolding date_or
  list_audit_logs ctx texts env store date limit = do
    from ← lift (date_or texts date (env.now 0 - day))
    store_list_audit_logs (or_default_store ctx store) from (from + day)
        (if ltb_ℤ limit (pos 1) then pos 100 else limit)

  unfoldable pub retrain_associations :
      Context → Formats → Env → RetrainRequest → Action (Store F) RetrainResponse
  retrain_associations ctx formats env request = do
    updated ← rebuild_association_pairs (or_default_store ctx request.store_id)
    pure (record { updated_pairs = updated; updated_at = formats.rfc3339 (env.now 0) })
