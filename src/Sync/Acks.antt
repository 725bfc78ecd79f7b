-- ===== src/Sync/Acks.antt =====
-- The answers to a device's events: one for each, in their order, and none for an event twice.
use dimax_ops_backend.Base.{
  ℕ, ◌≤◌, ◌≡◌, refl, true, false, some, List, [], ◌∷◌, String, arith, All, map, map-append,
  Bool-cases, inl, inr, Option, ltb, ◌==◌, ==_refl, ◌⊎◌,
}
use dimax_ops_backend.Store.{exists, find}
use dimax_ops_backend.Store.Laws.{find-assign}
use dimax_ops_backend.Domain.{SyncState}
use dimax_ops_backend.Uow.{Uow}
use dimax_ops_backend.Sync.{
  Event, is_client_event, exists_client_event, get_or_create, has_state_key, ack_cursor, acked,
}
use dimax_ops_backend.Sync.Service.{ok_ack, prepare, process_event, apply_events}

process_event-client_event_id :
    (now company_id installer_id actor_user_id : ℕ) (ev : Event) (u : Uow)
    → map (λ a. a.client_event_id) (process_event now company_id installer_id actor_user_id ev u).0
      ≡ ev.client_event_id ∷ []
unfolding process_event
process_event-client_event_id now c i a ev u = ground arith

-- A device gets exactly one answer for each event that it sent, in their order.
pub apply_events-client_event_id :
    (now company_id installer_id actor_user_id : ℕ) (evs : List Event) (u : Uow)
    → map (λ a. a.client_event_id) (apply_events now company_id installer_id actor_user_id evs u).0
      ≡ map (λ ev. ev.client_event_id) evs
unfolding apply_events
apply_events-client_event_id now c i a [] u = refl
apply_events-client_event_id now c i a (ev ∷ evs) u =
    rw
      (
        map-append (λ x. x.client_event_id) (process_event now c i a ev u).0
            (apply_events now c i a evs (process_event now c i a ev u).1).0,
        process_event-client_event_id now c i a ev u,
        apply_events-client_event_id now c i a evs (process_event now c i a ev u).1,
      )
      refl

-- The database has the event.
abbrev pub IsKnown : (company_id : ℕ) → Uow → Event → Type 0
IsKnown company_id u ev =
    exists (is_client_event company_id ev.client_event_id) u.sync_events ≡ true

process_known :
    (now company_id installer_id actor_user_id : ℕ) (ev : Event) (u : Uow)
    → u.broken ≡ false
    → IsKnown company_id u ev
    → process_event now company_id installer_id actor_user_id ev u
      ≡ (ok_ack ev.client_event_id false ∷ [], u)
unfolding process_event prepare exists_client_event
process_known now c i a ev u b k = ground arith

-- A device that never saw the answer sends its events again: when the database has all of them,
-- each is answered with success and as not applied, and nothing is written.
pub apply_events_known :
    (now company_id installer_id actor_user_id : ℕ) (evs : List Event) (u : Uow)
    → u.broken ≡ false
    → All (IsKnown company_id u) evs
    → apply_events now company_id installer_id actor_user_id evs u
      ≡ (map (λ ev. ok_ack ev.client_event_id false) evs, u)
unfolding apply_events
apply_events_known now c i a [] u b k = refl
apply_events_known now c i a (ev ∷ evs) u b k =
    rw (process_known now c i a ev u b k.0, apply_events_known now c i a evs u b k.1) refl

-- In a healthy session an acknowledgement of a known device stores the larger of the cursor that
-- was stored and the one that was sent, and that the device was seen.
pub ack_cursor_max :
    (now company_id installer_id cursor : ℕ) (version device : Option String) (u : Uow)
    (s : SyncState)
    → find (has_state_key company_id installer_id) u.sync_state ≡ some s
    → u.broken ≡ false
    → (s' : SyncState) × (find
          (has_state_key company_id installer_id)
          (ack_cursor now company_id installer_id cursor version device u).1.sync_state
        ≡ some s')
      × (s.last_cursor_ack ≤ s'.last_cursor_ack)
      × (cursor ≤ s'.last_cursor_ack)
      × ((s'.last_cursor_ack ≡ s.last_cursor_ack) ⊎ (s'.last_cursor_ack ≡ cursor))
      × (s'.last_seen_at ≡ some now)
unfolding ack_cursor get_or_create acked
ack_cursor_max now c i cursor version device u s h b =
    let s' : SyncState = acked now cursor version device s in
    (
      s',
      ground (
        arith,
        find-assign (has_state_key c i) (λ x. x.id == s.id) (λ _. s') u.sync_state s,
        ==_refl s.id,
      ),
      ground arith,
      ground arith,
      elim (Bool-cases (ltb s.last_cursor_ack cursor)) [
        | inl newer ↦ inr (ground arith)
        | inr older ↦ inl (ground arith)
      ],
      refl,
    )
