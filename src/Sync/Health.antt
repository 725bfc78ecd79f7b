-- ===== src/Sync/Health.antt =====
-- The health of the devices (app/modules/sync/application/health_service.py): the offline days, the
-- status, the alert's cooldown, and the columns that `run_for_company` writes to each state.
use dimax_ops_backend.Base.{
  ℕ, ◌+◌, ◌-◌, ◌*◌, ◌/◌, ◌≤◌, Bool, true, ◌||◌, Option, none, some, arith, leb, if◌then◌else◌,
}
use dimax_ops_backend.Domain.{HealthStatus, SyncState}
use dimax_ops_backend.ChangeLog.{max_cursor}

-- The settings SYNC_*.
pub record HealthSettings : Type 0 where
  pub warn_lag : ℕ
  pub danger_lag : ℕ
  pub warn_days_offline : ℕ
  pub danger_days_offline : ℕ
  pub alert_cooldown_minutes : ℕ

unfoldable pub days_offline : (now : ℕ) → (last_seen_at : Option ℕ) → ℕ
days_offline now none = 999999
days_offline now (some t) = (now - t) / 86400

unfoldable pub status : HealthSettings → (lag days_offline : ℕ) → HealthStatus
status s lag days_offline =
    if leb s.danger_lag lag || leb s.danger_days_offline days_offline
    then HealthStatus.danger
    else if leb s.warn_lag lag || leb s.warn_days_offline days_offline
    then HealthStatus.warn
    else HealthStatus.ok

unfoldable pub should_alert : HealthSettings → SyncState → (now : ℕ) → Bool
should_alert s r now = elim r.last_alert_at [
  | none ↦ true
  | some last ↦ leb (last + s.alert_cooldown_minutes * 60) now
]

-- A state with the three health columns.
unfoldable pub assessed : HealthSettings → (now max_cursor : ℕ) → SyncState → SyncState
unfolding days_offline status
assessed s now max_cursor r =
    let lag = max_cursor - r.last_cursor_ack in
    let days = days_offline now r.last_seen_at in
    record r {
      health_status = status s lag days;
      health_lag = some lag;
      health_days_offline = some days;
    }

-- The order of the statuses.
abbrev pub severity : HealthStatus → ℕ
severity HealthStatus.unknown = 0
severity HealthStatus.ok = 0
severity HealthStatus.warn = 1
severity HealthStatus.danger = 2

-- A device that lags more and was seen earlier is never in better health, when the limits of a
-- warning are not above those of danger.
status_monotone :
    (s : HealthSettings) (lag lag' days days' : ℕ)
    → s.warn_lag ≤ s.danger_lag
    → s.warn_days_offline ≤ s.danger_days_offline
    → lag ≤ lag'
    → days ≤ days'
    → severity (status s lag days) ≤ severity (status s lag' days')
unfolding status
status_monotone s lag lag' days days' w d l m = ground arith
