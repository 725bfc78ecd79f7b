-- ===== src/Sync/Retry.antt =====
-- What a device gets when it sends again the events of a synchronisation that was committed.
use dimax_ops_backend.Base.{
  ℕ, ◌≡◌, refl, true, false, Option, List, [], ◌∷◌, String, arith, All, All-map, All-tabulate, ◌∙◌,
  map, inl, inr, Bool-cases,
}
use dimax_ops_backend.Store.Laws.{IsClean, exists-flush}
use dimax_ops_backend.Domain.{SyncEvent}
use dimax_ops_backend.Uow.{Uow, ok, flush_session, flushed}
use dimax_ops_backend.Sync.{
  Event, is_client_event, exists_client_event, get_or_create, ack_cursor, mark, pending_row,
}
use dimax_ops_backend.Sync.Acks.{apply_events_known}
use dimax_ops_backend.Sync.Service.{
  ok_ack, prepare, apply_event, process_event, apply_events, SyncRequest, SyncResponse, respond,
  sync_v2,
}
use dimax_ops_backend.Sync.Written.{
  HasRow, Kept, Carries, Keeps-IsClean, any_of_exists, has_type, with_event, with_event-HasRow,
  with_event-Carries, process_event-cases, Carries-trans, applied-Carries,
}

process_event-Carries :
    (now k i a c : ℕ) (cid : String) (ev : Event) (u : Uow)
    → Carries c cid u (process_event now k i a ev u).1
process_event-Carries now k i a c cid ev u = elim (process_event-cases now k i a ev u) [
  | inl (same, why) ↦ rw same (λ h. h, λ h. h)
  | inr (t, error, e) ↦
      let row : SyncEvent = pending_row u.next_id k i t ev in
      let w : Uow = mark now error row (apply_event now k i a ev row (with_event row u)).1 in
      rw e (
        Carries-trans c cid u (with_event row u) w (with_event-Carries c cid row u)
          (applied-Carries now k i a c cid ev error row (with_event row u)))
]

process_event-HasRow :
    (now k i a : ℕ) (ev : Event) (u : Uow)
    → has_type ev ≡ true
    → u.broken ≡ false
    → Kept k ev.client_event_id u
    → HasRow k ev.client_event_id (process_event now k i a ev u).1
process_event-HasRow now k i a ev u valid sound kept = elim (process_event-cases now k i a ev u) [
  | inl (same, inl (inl b)) ↦ absurd (ground arith)
  | inl (same, inl (inr f)) ↦ absurd (ground arith)
  | inl (same, inr known) ↦
      rw same (any_of_exists (is_client_event k ev.client_event_id) u.sync_events kept known)
  | inr (t, error, e) ↦
      let row = pending_row u.next_id k i t ev in
      rw e (
        (applied-Carries now k i a k ev.client_event_id ev error row (with_event row u)).0
          (with_event-HasRow k i t ev u))
]

process_event_broken :
    (now k i a : ℕ) (ev : Event) (u : Uow) → u.broken ≡ true → (process_event now k i a ev u).1 ≡ u
unfolding process_event prepare exists_client_event
process_event_broken now k i a ev u b = ground arith

apply_events_broken :
    (now k i a : ℕ) (evs : List Event) (u : Uow)
    → u.broken ≡ true
    → (apply_events now k i a evs u).1 ≡ u
unfolding apply_events
apply_events_broken now k i a [] u b = refl
apply_events_broken now k i a (ev ∷ evs) u b =
    rw (process_event_broken now k i a ev u b) (apply_events_broken now k i a evs u b)

apply_events-Carries :
    (now k i a c : ℕ) (cid : String) (evs : List Event) (u : Uow)
    → Carries c cid u (apply_events now k i a evs u).1
unfolding apply_events
apply_events-Carries now k i a c cid [] u = (λ h. h, λ h. h)
apply_events-Carries now k i a c cid (ev ∷ evs) u =
    Carries-trans c cid u (process_event now k i a ev u).1
      (apply_events now k i a evs (process_event now k i a ev u).1).1
      (process_event-Carries now k i a c cid ev u)
      (apply_events-Carries now k i a c cid evs (process_event now k i a ev u).1)

apply_events-HasRow :
    (now k i a : ℕ) (evs : List Event) (u : Uow)
    → All (λ ev. has_type ev ≡ true) evs
    → (apply_events now k i a evs u).1.broken ≡ false
    → All (λ ev. Kept k ev.client_event_id u) evs
    → All (λ ev. HasRow k ev.client_event_id (apply_events now k i a evs u).1) evs
unfolding apply_events
apply_events-HasRow now k i a [] u valid sound kept = tt
apply_events-HasRow now k i a (ev ∷ evs) u valid sound kept =
    let v = (process_event now k i a ev u).1 in
    (
      (apply_events-Carries now k i a k ev.client_event_id evs v).0 (
          process_event-HasRow now k i a ev u valid.0
            (elim (Bool-cases u.broken) [
              | inl b ↦ absurd (
                  ground (
                    arith,
                    process_event_broken now k i a ev u b,
                    apply_events_broken now k i a evs v,
                  ))
              | inr b ↦ b
            ])
            kept.0),
      apply_events-HasRow now k i a evs v valid.1 sound
          (All-map (λ x. (process_event-Carries now k i a k x.client_event_id ev u).1) evs kept.1),
    )

ack_cursor-sync_events :
    (now c i cursor : ℕ) (version device : Option String) (u : Uow)
    → (ack_cursor now c i cursor version device u).1.sync_events ≡ u.sync_events
unfolding ack_cursor get_or_create
ack_cursor-sync_events now c i cursor v d u = ground arith

-- A synchronisation that returns has flushed what its events wrote.
sync_v2-state :
    (now : ℕ) (q : SyncRequest) (u : Uow) (res : SyncResponse)
    → (sync_v2 now q u).0 ≡ ok res
    → let v =
        (ack_cursor now q.company_id q.installer_id q.ack_cursor q.app_version q.device_id u).1 in
      let w = (apply_events now q.company_id q.installer_id q.actor_user_id q.events v).1 in
      ((sync_v2 now q u).1 ≡ flushed w) × (w.broken ≡ false)
unfolding sync_v2 respond flush_session
sync_v2-state now q u res h = ground arith

-- When a synchronisation whose events all have a known type has flushed, in a session whose
-- events were as the database has them, sending the same events again answers each with success
-- and as not applied, and writes nothing.
pub sync_v2-retry :
    (now later : ℕ) (q : SyncRequest) (u : Uow) (res : SyncResponse)
    → IsClean u.sync_events
    → All (λ ev. has_type ev ≡ true) q.events
    → (sync_v2 now q u).0 ≡ ok res
    → let v = (sync_v2 now q u).1 in
      apply_events later q.company_id q.installer_id q.actor_user_id q.events v
      ≡ (map (λ ev. ok_ack ev.client_event_id false) q.events, v)
unfolding flushed
sync_v2-retry now later q u res clean valid h =
    let v =
      (ack_cursor now q.company_id q.installer_id q.ack_cursor q.app_version q.device_id u).1 in
    let w = (apply_events now q.company_id q.installer_id q.actor_user_id q.events v).1 in
    let (state, sound) = sync_v2-state now q u res h in
    let same =
      ack_cursor-sync_events now q.company_id q.installer_id q.ack_cursor q.app_version q.device_id
        u in
    let kept : All (λ ev. Kept q.company_id ev.client_event_id v) q.events =
      All-tabulate
        (λ ev.
          rw same
            (Keeps-IsClean (is_client_event q.company_id ev.client_event_id) u.sync_events clean))
        q.events in
    let rows =
      apply_events-HasRow now q.company_id q.installer_id q.actor_user_id q.events v valid sound
        kept in
    rw state (
      apply_events_known later q.company_id q.installer_id q.actor_user_id q.events (flushed w) refl
        (All-map
          (λ ev r. exists-flush (is_client_event q.company_id ev.client_event_id) w.sync_events ∙ r)
          q.events rows))
