-- ===== src/Sync/Doors.antt =====
-- What the devices' events do to the doors and the issues.
use dimax_ops_backend.Base.{
  ℕ, suc, inl, inr, ◌≡◌, true, Option, any, not, List, [], ◌∷◌, String, arith,
}
use dimax_ops_backend.Store.{objects, add}
use dimax_ops_backend.Store.Laws.{objects-flush}
use dimax_ops_backend.Domain.{
  Door, Issue, Project, Change, Error, AddonFact, EventPayload, SyncEvent,
}
use dimax_ops_backend.Uow.{Uow, err, flush_session, flushed, flush_session-states}
use dimax_ops_backend.ChangeLog.{add_change}
use dimax_ops_backend.Doors.{MarkDoorInstalled, MarkDoorNotInstalled}
use dimax_ops_backend.Doors.UseCases.{mark_installed, mark_not_installed}
use dimax_ops_backend.Doors.Atomic.{mark_installed_atomic, mark_not_installed_atomic}
use dimax_ops_backend.Doors.Lifecycle.{
  AllConsistent, run, run-AllConsistent, install_door, not_installed_door,
}
use dimax_ops_backend.Addons.{FactRequest, fact_of, create_fact, installer_add_fact, is_known_event}
use dimax_ops_backend.Sync.{
  Event, mark, exists_client_event, create_pending, get_or_create, ack_cursor, mark_applied,
  mark_failed,
}
use dimax_ops_backend.Sync.Service.{
  prepare, parse_event_type, parse_uuid, parse_fact, ensure_project_access, set_status,
  apply_door_set_status, apply_addon_fact_create, apply_event, process_event, apply_events,
  SyncRequest, respond, sync_v2,
}

-- The doors, issues and projects, and the changes still to be logged.
abbrev pub work : Uow → List Door × List Issue × List Project × List Change
work u = (objects u.doors, objects u.issues, objects u.projects, u.pending_changes)

mark_installed-AllConsistent :
    (now : ℕ) (cmd : MarkDoorInstalled) (u : Uow)
    → AllConsistent u
    → AllConsistent (mark_installed now cmd u).1
unfolding run
mark_installed-AllConsistent now cmd u a = run-AllConsistent now (install_door cmd) u a

mark_not_installed-AllConsistent :
    (now : ℕ) (cmd : MarkDoorNotInstalled) (u : Uow)
    → AllConsistent u
    → AllConsistent (mark_not_installed now cmd u).1
unfolding run
mark_not_installed-AllConsistent now cmd u a = run-AllConsistent now (not_installed_door cmd) u a

set_status-AllConsistent :
    (now company_id actor_user_id door_id : ℕ) (status : String) (p : EventPayload) (u : Uow)
    → AllConsistent u
    → AllConsistent (set_status now company_id actor_user_id door_id status p u).1
unfolding set_status parse_uuid
set_status-AllConsistent now c a d status p u h =
    grind (arith, mark_installed-AllConsistent, mark_not_installed-AllConsistent)

set_status_atomic :
    (now company_id actor_user_id door_id : ℕ) (status : String) (p : EventPayload) (u : Uow)
    (e : Error)
    → (set_status now company_id actor_user_id door_id status p u).0 ≡ err e
    → (set_status now company_id actor_user_id door_id status p u).1 ≡ u
unfolding set_status parse_uuid
set_status_atomic now c a d status p u e h =
    grind (arith, mark_installed_atomic, mark_not_installed_atomic)

apply_door-AllConsistent :
    (now company_id installer_id actor_user_id project_id : ℕ) (p : EventPayload) (u : Uow)
    → AllConsistent u
    → AllConsistent
        (apply_door_set_status now company_id installer_id actor_user_id project_id p u).1
unfolding apply_door_set_status ensure_project_access parse_uuid
apply_door-AllConsistent now c i a k p u h = grind (arith, set_status-AllConsistent)

apply_door_atomic :
    (now company_id installer_id actor_user_id project_id : ℕ) (p : EventPayload) (u : Uow)
    (e : Error)
    → (apply_door_set_status now company_id installer_id actor_user_id project_id p u).0 ≡ err e
    → (apply_door_set_status now company_id installer_id actor_user_id project_id p u).1 ≡ u
unfolding apply_door_set_status ensure_project_access parse_uuid
apply_door_atomic now c i a k p u e h = grind (arith, set_status_atomic)

create_fact-doors :
    (now : ℕ) (r : FactRequest) (u : Uow) → objects (create_fact now r u).1.doors ≡ objects u.doors
unfolding create_fact flushed add_change
create_fact-doors now r u =
    let row : AddonFact = fact_of now u.next_id r in
    let w : Uow = record u { next_id = suc u.next_id; addon_facts = add row u.addon_facts } in
    elim (flush_session-states w) [
      | inl done ↦ ground (arith, objects-flush u.doors)
      | inr (e, b, failed) ↦ ground arith
    ]

create_fact_failed :
    (now : ℕ) (r : FactRequest) (u : Uow) (e : Error)
    → (create_fact now r u).0 ≡ err e
    → work (create_fact now r u).1 ≡ work u
unfolding create_fact flushed add_change
create_fact_failed now r u e h =
    let row : AddonFact = fact_of now u.next_id r in
    let w : Uow = record u { next_id = suc u.next_id; addon_facts = add row u.addon_facts } in
    elim (flush_session-states w) [
      | inl done ↦ absurd (ground arith)
      | inr (x, b, failed) ↦ ground arith
    ]

add_fact-doors :
    (now : ℕ) (r : FactRequest) (u : Uow)
    → objects (installer_add_fact now r u).1.doors ≡ objects u.doors
unfolding installer_add_fact is_known_event
add_fact-doors now r u = ground (arith, create_fact-doors now r u)

add_fact_failed :
    (now : ℕ) (r : FactRequest) (u : Uow) (e : Error)
    → (installer_add_fact now r u).0 ≡ err e
    → work (installer_add_fact now r u).1 ≡ work u
unfolding installer_add_fact is_known_event
add_fact_failed now r u e h = ground (arith, create_fact_failed now r u e)

apply_fact-doors :
    (now company_id installer_id project_id : ℕ) (cid : String) (at : Option ℕ) (p : EventPayload)
    (u : Uow)
    → objects (apply_addon_fact_create now company_id installer_id project_id cid at p u).1.doors
      ≡ objects u.doors
unfolding apply_addon_fact_create ensure_project_access parse_fact parse_uuid
apply_fact-doors now c i k cid at p u = grind (arith, add_fact-doors)

apply_fact_failed :
    (now company_id installer_id project_id : ℕ) (cid : String) (at : Option ℕ) (p : EventPayload)
    (u : Uow) (e : Error)
    → (apply_addon_fact_create now company_id installer_id project_id cid at p u).0 ≡ err e
    → work (apply_addon_fact_create now company_id installer_id project_id cid at p u).1 ≡ work u
unfolding apply_addon_fact_create ensure_project_access parse_fact parse_uuid
apply_fact_failed now c i k cid at p u e h = grind (arith, add_fact_failed)

apply_event-AllConsistent :
    (now company_id installer_id actor_user_id : ℕ) (ev : Event) (row : SyncEvent) (u : Uow)
    → AllConsistent u
    → AllConsistent (apply_event now company_id installer_id actor_user_id ev row u).1
unfolding apply_event
apply_event-AllConsistent now c i a ev row u h = grind (
  arith,
  apply_door-AllConsistent now c i a ev.project_id ev.payload u h,
  apply_fact-doors now c i ev.project_id ev.client_event_id ev.happened_at ev.payload u,
)

apply_event_failed :
    (now company_id installer_id actor_user_id : ℕ) (ev : Event) (row : SyncEvent) (u : Uow)
    (e : Error)
    → (apply_event now company_id installer_id actor_user_id ev row u).0 ≡ err e
    → work (apply_event now company_id installer_id actor_user_id ev row u).1 ≡ work u
unfolding apply_event
apply_event_failed now c i a ev row u e h = grind (
  arith,
  apply_door_atomic now c i a ev.project_id ev.payload u e,
  apply_fact_failed now c i ev.project_id ev.client_event_id ev.happened_at ev.payload u e,
)

work-prepare :
    (company_id installer_id : ℕ) (ev : Event) (u : Uow)
    → work (prepare company_id installer_id ev u).1 ≡ work u
unfolding prepare exists_client_event parse_event_type create_pending
work-prepare c i ev u = ground arith

-- An event that is answered with a failure has changed no door, issue or project and adds no
-- change for the devices.
pub process_event_failed :
    (now company_id installer_id actor_user_id : ℕ) (ev : Event) (u : Uow)
    → any (λ a. not a.ok) (process_event now company_id installer_id actor_user_id ev u).0 ≡ true
    → work (process_event now company_id installer_id actor_user_id ev u).1 ≡ work u
unfolding process_event mark mark_failed
process_event_failed now c i a ev u h = grind (arith, work-prepare c i ev u, apply_event_failed)

process_event-AllConsistent :
    (now company_id installer_id actor_user_id : ℕ) (ev : Event) (u : Uow)
    → AllConsistent u
    → AllConsistent (process_event now company_id installer_id actor_user_id ev u).1
unfolding process_event mark mark_applied mark_failed
process_event-AllConsistent now c i a ev u h =
    grind (arith, work-prepare c i ev u, apply_event-AllConsistent)

apply_events-AllConsistent :
    (now company_id installer_id actor_user_id : ℕ) (evs : List Event) (u : Uow)
    → AllConsistent u
    → AllConsistent (apply_events now company_id installer_id actor_user_id evs u).1
unfolding apply_events
apply_events-AllConsistent now c i a [] u h = h
apply_events-AllConsistent now c i a (ev ∷ evs) u h =
    apply_events-AllConsistent now c i a evs (process_event now c i a ev u).1
      (process_event-AllConsistent now c i a ev u h)

ack_cursor-doors :
    (now company_id installer_id cursor : ℕ) (version device : Option String) (u : Uow)
    → (ack_cursor now company_id installer_id cursor version device u).1.doors ≡ u.doors
unfolding ack_cursor get_or_create
ack_cursor-doors now c i cursor v d u = ground arith

flush-AllConsistent : (u : Uow) → AllConsistent u → AllConsistent (flush_session u).1
unfolding flushed
flush-AllConsistent u a = elim (flush_session-states u) [
  | inl done ↦ rw (done, objects-flush) a
  | inr (e, b, failed) ↦ rw failed a
]

-- A synchronisation that found every door consistent leaves every door consistent, whatever
-- events the device sends, also when it raises.
pub sync_v2-AllConsistent :
    (now : ℕ) (q : SyncRequest) (u : Uow) → AllConsistent u → AllConsistent (sync_v2 now q u).1
unfolding sync_v2 respond
sync_v2-AllConsistent now q u a = grind (
  arith,
  ack_cursor-doors now q.company_id q.installer_id q.ack_cursor q.app_version q.device_id u,
  apply_events-AllConsistent,
  flush-AllConsistent,
)
