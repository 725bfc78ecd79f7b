-- ===== src/Sync/Service.antt =====
-- `InstallerSyncService` (app/modules/sync/application/service.py). A response that asks for a
-- reset carries a snapshot as well, which is left out here.
use dimax_ops_backend.Base.{
  ℕ, Bool, true, false, ◌&&◌, ◌||◌, not, Option, none, some, List, [], ◌∷◌, ◌++◌, String, ◌==◌, ltb,
  if◌then◌else◌, is_value, is_some, is_empty, is_given, same_text, concat,
}
use dimax_ops_backend.Store.{find, select}
use dimax_ops_backend.Domain.{
  Error, message, value_error, forbidden, not_found, validation_error, str_door_status, SyncEvent,
  SyncEventType, RawId, RawQty, EventPayload, AddonFactSource, LoggedChange,
}
use dimax_ops_backend.Uow.{
  Uow, Action, ok, err, pure, raise, or_raise, query, ◌>>=◌, ◌>>◌, raise_if, branch, flush_session,
}
use dimax_ops_backend.ChangeLog.{min_cursor, max_cursor, pull_for_installer}
use dimax_ops_backend.ChangeLog.Pull.{next_cursor_of}
use dimax_ops_backend.Doors.{of_installer, has_door_key}
use dimax_ops_backend.Doors.UseCases.{mark_installed, mark_not_installed}
use dimax_ops_backend.Addons.{FactRequest, installer_add_fact}
use dimax_ops_backend.Sync.{
  Event, exists_client_event, create_pending, mark_applied, mark_failed, ack_cursor,
}

pub record Ack : Type 0 where
  pub client_event_id : String
  pub ok : Bool
  pub applied : Bool
  pub error : Option String

-- `SyncEventType(ev["type"])`
unfoldable pub parse_event_type : String → Action SyncEventType
parse_event_type type =
    if same_text type "DOOR_SET_STATUS"
    then pure SyncEventType.door_set_status
    else if same_text type "ADDON_FACT_CREATE"
    then pure SyncEventType.addon_fact_create
    else raise (value_error (concat "'" (concat type "' is not a valid SyncEventType")))

-- `uuid.UUID(str(...))` of a value that was given.
unfoldable pub parse_uuid : RawId → Action ℕ
parse_uuid RawId.absent = raise (value_error "badly formed hexadecimal UUID string")
parse_uuid RawId.malformed = raise (value_error "badly formed hexadecimal UUID string")
parse_uuid (RawId.uuid id) = pure id

abbrev pub is_absent : RawId → Bool
is_absent RawId.absent = true
is_absent RawId.malformed = false
is_absent (RawId.uuid id) = false

unfoldable pub ensure_project_access : (company_id installer_id project_id : ℕ) → Action (Unit {0})
ensure_project_access company_id installer_id project_id = do
  my_doors ← query (λ u. select (of_installer company_id project_id installer_id) u.doors)
  raise_if (is_empty my_doors) (forbidden "Project is not assigned to this installer")

-- `if status == "INSTALLED": ... elif status == "NOT_INSTALLED": ... else: ...`
unfoldable pub set_status :
    (now company_id actor_user_id door_id : ℕ)
    → (status : String) → EventPayload
    → Action (Unit {0})
set_status now company_id actor_user_id door_id status payload =
    branch (same_text status "INSTALLED")
      (mark_installed now
        (record { company_id = company_id; actor_user_id = actor_user_id; door_id = door_id }))
      (branch (same_text status "NOT_INSTALLED")
        (do
          raise_if (is_absent payload.reason_id)
              (validation_error "payload requires reason_id for NOT_INSTALLED")
          reason_id ← parse_uuid payload.reason_id
          mark_not_installed now (record {
            company_id = company_id;
            actor_user_id = actor_user_id;
            door_id = door_id;
            reason_id = some reason_id;
            comment = payload.comment;
          }))
        (raise (validation_error "payload status must be INSTALLED or NOT_INSTALLED")))

abbrev pub status_of : EventPayload → String
status_of payload = elim payload.status [ none ↦ "" | some s ↦ s ]

unfoldable pub apply_door_set_status :
    (now company_id installer_id actor_user_id project_id : ℕ) → EventPayload → Action (Unit {0})
apply_door_set_status now company_id installer_id actor_user_id project_id payload = do
  ensure_project_access company_id installer_id project_id
  raise_if (is_absent payload.door_id || not (is_given payload.status))
      (validation_error "payload requires door_id and status")
  door_id ← parse_uuid payload.door_id
  found ← query (λ u. find (has_door_key company_id door_id) u.doors)
  d ← or_raise found (not_found "Door not found in project")
  raise_if (not (d.project_id == project_id)) (not_found "Door not found in project")
  raise_if (is_some d.installer_id && not (is_value d.installer_id installer_id))
      (forbidden "Door is assigned to another installer")
  raise_if (same_text (str_door_status d.status) "INSTALLED")
      (forbidden "Door is locked (already INSTALLED)")
  set_status now company_id actor_user_id d.id (status_of payload) payload

-- The checks of `qty_done`, and `Decimal(str(qty_done))`.
unfoldable pub parse_fact :
    (company_id installer_id project_id : ℕ)
    → (client_event_id : String) → (happened_at : Option ℕ) → EventPayload
    → Action FactRequest
parse_fact company_id installer_id project_id client_event_id happened_at payload = do
  raise_if
      (is_absent payload.addon_type_id || elim payload.qty_done [
        | RawQty.absent ↦ true
        | RawQty.malformed ↦ false
        | RawQty.number n ↦ false
      ])
      (validation_error "payload requires addon_type_id and qty_done")
  addon_type_id ← parse_uuid payload.addon_type_id
  elim payload.qty_done [
    | RawQty.absent ↦ raise (value_error "[<class 'decimal.ConversionSyntax'>]")
    | RawQty.malformed ↦ raise (value_error "[<class 'decimal.ConversionSyntax'>]")
    | RawQty.number n ↦ pure (record {
      company_id = company_id;
      project_id = project_id;
      installer_id = installer_id;
      addon_type_id = addon_type_id;
      qty_done = n;
      comment = payload.comment;
      done_at = happened_at;
      source = AddonFactSource.offline;
      client_event_id = some client_event_id;
    })
  ]

unfoldable pub apply_addon_fact_create :
    (now company_id installer_id project_id : ℕ)
    → (client_event_id : String) → (happened_at : Option ℕ) → EventPayload
    → Action (Unit {0})
apply_addon_fact_create now company_id installer_id project_id client_event_id happened_at payload =
    do
      ensure_project_access company_id installer_id project_id
      r ← parse_fact company_id installer_id project_id client_event_id happened_at payload
      result ← installer_add_fact now r
      pure tt

-- The part of the loop's `try` up to the creation of the row: `none` for an event that the
-- database has.
unfoldable pub prepare : (company_id installer_id : ℕ) → Event → Action (Option SyncEvent)
prepare company_id installer_id ev = do
  known ← exists_client_event company_id ev.client_event_id
  branch known (pure none) (do
    etype ← parse_event_type ev.type
    row ← create_pending company_id installer_id etype ev
    pure (some row))

-- The dispatch on the type of the event, whose row is written by now.
unfoldable pub apply_event :
    (now company_id installer_id actor_user_id : ℕ) → Event → SyncEvent → Action (Unit {0})
apply_event now company_id installer_id actor_user_id ev row = elim row.event_type [
  | SyncEventType.door_set_status ↦
      apply_door_set_status now company_id installer_id actor_user_id ev.project_id ev.payload
  | SyncEventType.addon_fact_create ↦
      apply_addon_fact_create now company_id installer_id ev.project_id ev.client_event_id
        ev.happened_at ev.payload
]

abbrev pub ok_ack : (client_event_id : String) → (applied : Bool) → Ack
ok_ack client_event_id applied = record {
  client_event_id = client_event_id;
  ok = true;
  applied = applied;
  error = none;
}

abbrev pub failed_ack : (client_event_id : String) → Error → Ack
failed_ack client_event_id e = record {
  client_event_id = client_event_id;
  ok = false;
  applied = false;
  error = some (message e);
}

-- One turn of the loop, with what it appends to `acks`: whatever the event raises becomes its answer.
unfoldable pub process_event :
    (now company_id installer_id actor_user_id : ℕ) → Event → Uow → List Ack × Uow
process_event now company_id installer_id actor_user_id ev u =
    let (r, v) = prepare company_id installer_id ev u in
    elim r [
      | err e ↦ (failed_ack ev.client_event_id e ∷ [], v)
      | ok known ↦ elim known [
        | none ↦ (ok_ack ev.client_event_id false ∷ [], v)
        | some row ↦
            let (s, w) = apply_event now company_id installer_id actor_user_id ev row v in
            elim s [
              | ok _ ↦ (ok_ack ev.client_event_id true ∷ [], mark_applied now row w)
              | err e ↦ (failed_ack ev.client_event_id e ∷ [], mark_failed now row (message e) w)
            ]
      ]
    ]

unfoldable pub apply_events :
    (now company_id installer_id actor_user_id : ℕ) → List Event → Uow → List Ack × Uow
apply_events now company_id installer_id actor_user_id [] u = ([], u)
apply_events now company_id installer_id actor_user_id (ev ∷ evs) u =
    let (appended, v) = process_event now company_id installer_id actor_user_id ev u in
    let (acks, w) = apply_events now company_id installer_id actor_user_id evs v in
    (appended ++ acks, w)

pub record SyncResponse : Type 0 where
  pub next_cursor : ℕ
  pub reset_required : Bool
  pub acks : List Ack
  pub changes : List LoggedChange

-- The arguments of `sync_v2`.
pub record SyncRequest : Type 0 where
  pub company_id : ℕ
  pub installer_id : ℕ
  pub actor_user_id : ℕ
  pub since_cursor : ℕ
  pub ack_cursor : ℕ
  pub app_version : Option String
  pub device_id : Option String
  pub events : List Event

-- `min_available is not None and since_cursor < min_available`
unfoldable pub reset_required : (company_id since_cursor : ℕ) → Uow → Bool
reset_required company_id since_cursor u = elim (min_cursor company_id u) [
  | none ↦ false
  | some m ↦ ltb since_cursor m
]

-- The answer, once everything is flushed.
unfoldable pub respond : SyncRequest → List Ack → Action SyncResponse
respond q acks = query (λ u.
    if reset_required q.company_id q.since_cursor u
    then record {
      next_cursor = max_cursor q.company_id u;
      reset_required = true;
      acks = acks;
      changes = [];
    }
    else let rows = pull_for_installer q.company_id q.installer_id q.since_cursor 2000 u in
      record {
        next_cursor = next_cursor_of q.since_cursor rows;
        reset_required = false;
        acks = acks;
        changes = rows;
      })

unfoldable pub sync_v2 : (now : ℕ) → SyncRequest → Action SyncResponse
sync_v2 now q = do
  ack_cursor now q.company_id q.installer_id q.ack_cursor q.app_version q.device_id
  acks ← λ u.
      let (acks, v) = apply_events now q.company_id q.installer_id q.actor_user_id q.events u in
      (ok acks, v)
  flush_session
  respond q acks
