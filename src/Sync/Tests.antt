-- ===== src/Sync/Tests.antt =====
-- Runs of the synchronisation, and its theorems at concrete inputs.
use dimax_ops_backend.Sync.Service.{
  apply_addon_fact_create, parse_fact, parse_uuid, reset_required, respond, set_status,
}
use dimax_ops_backend.Sync.{get_or_create, acked, mark, mark_applied, mark_failed}
use dimax_ops_backend.Store.{add, assign, flush, violates}
use dimax_ops_backend.Uow.{flush_session, flushed, next_after, number_from, violates_unique}
use dimax_ops_backend.Addons.{create_fact, installer_add_fact, is_known_event}
use dimax_ops_backend.Base.{clip, concat}
use dimax_ops_backend.ChangeLog.{add_change, max_cursor, min_cursor}
use dimax_ops_backend.Domain.{message, str_door_status}
use dimax_ops_backend.Doors.UseCases.{close_issue_of, get_unlocked, mark_installed}
use dimax_ops_backend.Doors.{
  get_by_keys, latest_rate, recalc_and_set, resolve_installer_rate_snapshot, set_door,
}
use dimax_ops_backend.Sync.Service.{
  apply_door_set_status, apply_event, ensure_project_access, parse_event_type, prepare,
}
use dimax_ops_backend.Sync.{
  active_installers_count, create_pending, exists_client_event, min_ack_for_company, minimum,
  pending_row,
}
use dimax_ops_backend.Store.{count, exists, select}
use dimax_ops_backend.Sync.Collected.{AsksReset, run_once-respond}
use dimax_ops_backend.Sync.Gc.{cutoff_of, gc_all, gc_company}
use dimax_ops_backend.ChangeLog.{column, delete_upto}
use dimax_ops_backend.Base.{
  ℕ, ◌≡◌, ◌≤◌, ◌⊎◌, inl, refl, any, not, true, false, none, some, [], ◌∷◌, String, arith, map, pos,
}
use dimax_ops_backend.Store.{find, objects}
use dimax_ops_backend.ChangeLog.{pull_for_installer}
use dimax_ops_backend.Domain.{
  SyncState, SyncChangeType, LoggedChange, RawId, RawQty, EventPayload, plan_delete,
  validation_error,
}
use dimax_ops_backend.Uow.{Uow, ok}
use dimax_ops_backend.Doors.Lifecycle.{AllConsistent}
use dimax_ops_backend.Sync.{Event, has_state_key, ack_cursor, initial_state}
use dimax_ops_backend.Sync.Service.{
  ok_ack, failed_ack, process_event, apply_events, SyncRequest, SyncResponse, sync_v2,
}
use dimax_ops_backend.Sync.Acks.{apply_events-client_event_id, ack_cursor_max}
use dimax_ops_backend.Sync.Doors.{work, process_event_failed, sync_v2-AllConsistent}
use dimax_ops_backend.Sync.Retry.{sync_v2-retry}
use dimax_ops_backend.Sync.Gc.{run_once}
use dimax_ops_backend.Sync.Health.{HealthSettings, severity, status}
use dimax_ops_backend.Sample.{row, uow}

abbrev payload : EventPayload
payload = record {
  door_id = RawId.absent;
  status = none;
  reason_id = RawId.absent;
  addon_type_id = RawId.absent;
  qty_done = RawQty.absent;
  comment = none;
}

abbrev event : String → String → EventPayload → Event
event cid type p = record {
  client_event_id = cid;
  type = type;
  project_id = 10;
  happened_at = some 55;
  payload = p;
}

abbrev install_event : Event
install_event =
    event "e1" "DOOR_SET_STATUS"
      (record payload { door_id = RawId.uuid 100; status = some "INSTALLED" })

abbrev fact_event : Event
fact_event =
    event "e2" "ADDON_FACT_CREATE"
      (record payload { addon_type_id = RawId.uuid 40; qty_done = RawQty.number (pos 2) })

abbrev bad_event : Event
bad_event = event "e3" "DOOR_SET_STATUS" (record payload { door_id = RawId.malformed })

abbrev request : SyncRequest
request = record {
  company_id = 1;
  installer_id = 7;
  actor_user_id = 2;
  since_cursor = 0;
  ack_cursor = 0;
  app_version = some "1.4";
  device_id = none;
  events = install_event ∷ fact_event ∷ bad_event ∷ [];
}

abbrev response : SyncResponse
response = record {
  next_cursor = 2;
  reset_required = true;
  acks =
      ok_ack "e1" true
      ∷ ok_ack "e2" true
      ∷ failed_ack "e3" (validation_error "payload requires door_id and status")
      ∷ [];
  changes = [];
}

apply_events-client_event_id_example :
    map (λ a. a.client_event_id) (apply_events 60 1 7 2 request.events uow).0
    ≡ "e1" ∷ "e2" ∷ "e3" ∷ []
apply_events-client_event_id_example = apply_events-client_event_id 60 1 7 2 request.events uow

bad_event_fails : any (λ a. not a.ok) (process_event 60 1 7 2 bad_event uow).0 ≡ true
unfolding process_event prepare exists_client_event exists parse_event_type create_pending
    apply_event pending_row apply_door_set_status ensure_project_access select
bad_event_fails = refl

process_event_failed_example : work (process_event 60 1 7 2 bad_event uow).1 ≡ work uow
process_event_failed_example = process_event_failed 60 1 7 2 bad_event uow bad_event_fails

sync_v2_ok : (sync_v2 60 request uow).0 ≡ ok response
unfolding sync_v2 ack_cursor get_or_create find flush_session apply_events process_event prepare
    exists_client_event exists parse_event_type create_pending apply_event pending_row
    apply_door_set_status ensure_project_access select create_fact installer_add_fact is_known_event
    clip concat add_change max_cursor min_cursor message str_door_status close_issue_of get_unlocked
    mark_installed get_by_keys latest_rate recalc_and_set resolve_installer_rate_snapshot set_door
    add assign count flush objects violates apply_addon_fact_create parse_fact parse_uuid
    reset_required respond set_status acked mark mark_applied mark_failed flushed next_after
    number_from violates_unique
sync_v2_ok = refl

sync_v2-AllConsistent_example : AllConsistent (sync_v2 60 request uow).1
sync_v2-AllConsistent_example =
    sync_v2-AllConsistent 60 request uow (unfold objects in ground arith)

sync_v2-retry_example :
    let v = (sync_v2 60 request uow).1 in
    apply_events 90 1 7 2 request.events v
    ≡ (ok_ack "e1" false ∷ ok_ack "e2" false ∷ ok_ack "e3" false ∷ [], v)
sync_v2-retry_example =
    sync_v2-retry 60 90 request uow response tt (refl, (refl, (refl, tt))) sync_v2_ok

-- The installer acknowledged the changes up to 2500.
abbrev state : SyncState
state = record (initial_state 70 1 7) { last_cursor_ack = 2500; last_seen_at = some 5000000 }

abbrev change : ℕ → LoggedChange
change cursor = record {
  cursor_id = cursor;
  change = record {
    company_id = 1;
    created_at = 40;
    change_type = SyncChangeType.project_addon_plan;
    entity_id = 10;
    project_id = 10;
    installer_id = none;
    payload = plan_delete 10 40;
  };
}

abbrev busy : Uow
busy = record uow {
  sync_state = row state ∷ [];
  change_log = change 300 ∷ change 2400 ∷ change 2600 ∷ [];
  next_cursor = 2601;
}

ack_cursor_max_example :
    (s' : SyncState) × (find
        (has_state_key 1 7)
        (ack_cursor 60 1 7 2400 none none busy).1.sync_state
      ≡ some s')
    × (2500 ≤ s'.last_cursor_ack)
    × (2400 ≤ s'.last_cursor_ack)
    × ((s'.last_cursor_ack ≡ 2500) ⊎ (s'.last_cursor_ack ≡ 2400))
    × (s'.last_seen_at ≡ some 60)
ack_cursor_max_example = ack_cursor_max 60 1 7 2400 none none busy state (unfold find in refl) refl

-- The collection deletes the change 300, which the installer has acknowledged.
run_once_deletes : (run_once 5100000 30 2000 busy).change_log ≡ change 2400 ∷ change 2600 ∷ []
unfolding run_once gc_all gc_company active_installers_count count cutoff_of min_ack_for_company
    minimum column delete_upto
run_once_deletes = refl

abbrev settings : HealthSettings
settings = record {
  warn_lag = 2000;
  danger_lag = 5000;
  warn_days_offline = 3;
  danger_days_offline = 7;
  alert_cooldown_minutes = 360;
}

status_offline : severity (status settings 2200 8) ≡ 2
unfolding status
status_offline = refl

abbrev request_of : ℕ → SyncRequest
request_of since = record request { since_cursor = since; events = [] }

-- The device asked from 2500; the collection has deleted what it had acknowledged.
run_once-respond_example :
    let v = run_once 5100000 30 2000 busy in
    (pull_for_installer 1 7 2500 10 v ≡ pull_for_installer 1 7 2500 10 busy)
    × (AsksReset (request_of 2500) [] v
        ⊎ ((respond (request_of 2500) [] v).0 ≡ (respond (request_of 2500) [] busy).0))
run_once-respond_example =
    run_once-respond 5100000 30 2000 10 (request_of 2500) [] state busy refl refl refl (inl refl)
      refl (omega arith)
