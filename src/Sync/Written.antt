-- ===== src/Sync/Written.antt =====
-- What one event does to the table of the events.
use dimax_ops_backend.Base.{
  ℕ, suc, ◌≡◌, ◌⊎◌, refl, Bool, true, false, ◌||◌, Option, none, some, [], ◌∷◌, String, arith, any,
  ◌==◌, inl, inr, eq_iff, same_text, Bool-cases, concat, clip,
}
use dimax_ops_backend.Store.{Table, add, assign, flush, objects, exists}
use dimax_ops_backend.Store.Laws.{IsClean, objects-flush, objects-add, any-append}
use dimax_ops_backend.Domain.{
  Error, message, value_error, pending_rollback, SyncEvent, SyncEventType, EventPayload, AddonFact,
}
use dimax_ops_backend.Uow.{Uow, ok, err, flush_session-states, flushed}
use dimax_ops_backend.ChangeLog.{add_change}
use dimax_ops_backend.Doors.{
  MarkDoorInstalled, MarkDoorNotInstalled, resolve_installer_rate_snapshot, ensure_reason_exists,
  set_door, recalc_and_set,
}
use dimax_ops_backend.Doors.UseCases.{
  mark_installed, mark_not_installed, get_unlocked, close_issue_of, open_issue_of,
}
use dimax_ops_backend.Addons.{FactRequest, fact_of, create_fact, installer_add_fact, is_known_event}
use dimax_ops_backend.Sync.{
  Event, is_client_event, exists_client_event, create_pending, mark, mark_applied, mark_failed,
  pending_row,
}
use dimax_ops_backend.Doors.Lifecycle.{Result-cases}
use dimax_ops_backend.Sync.Acks.{IsKnown}
use dimax_ops_backend.Sync.Service.{
  prepare, parse_event_type, parse_uuid, parse_fact, ensure_project_access, set_status,
  apply_door_set_status, apply_addon_fact_create, apply_event, process_event,
}

-- Assignments to the objects have not changed what `p` says of the rows in the database.
abbrev pub Keeps : {A : Type 0} → (A → Bool) → Table A → Type 0
Keeps p [] = Unit {0}
Keeps p (e ∷ t) = (elim e.stored [ none ↦ Unit {0} | some a ↦ p a ≡ p e.live ]) × Keeps p t

module _ {A : Type 0} (p : A → Bool) where
  pub Keeps-IsClean : (t : Table A) → IsClean t → Keeps p t
  Keeps-IsClean [] c = tt
  Keeps-IsClean (e ∷ t) c = (rw c.0 refl, Keeps-IsClean t c.1)

  Keeps-flush : (t : Table A) → Keeps p (flush t)
  unfolding flush
  Keeps-flush [] = tt
  Keeps-flush (e ∷ t) = (refl, Keeps-flush t)

  Keeps-add : (a : A) (t : Table A) → Keeps p t → Keeps p (add a t)
  unfolding add
  Keeps-add a [] k = (tt, tt)
  Keeps-add a (e ∷ t) k = (k.0, Keeps-add a t k.1)

  Keeps-assign :
      (key : A → Bool) (f : A → A) (t : Table A)
      → ((a : A) → p (f a) ≡ p a)
      → Keeps p t
      → Keeps p (assign key f t)
  unfolding assign
  Keeps-assign key f [] same k = tt
  Keeps-assign key f (e ∷ t) same k =
      ground (arith, Keeps-assign key f t same k.1, same e.live, k.0)

  any-assign :
      (key : A → Bool) (f : A → A) (t : Table A)
      → ((a : A) → p (f a) ≡ p a)
      → any p (objects (assign key f t)) ≡ any p (objects t)
  unfolding assign objects
  any-assign key f [] same = refl
  any-assign key f (e ∷ t) same = elim (Bool-cases (key e.live)) [
    | inl hit ↦ rw (hit, same, any-assign key f t same) refl
    | inr miss ↦ rw (miss, any-assign key f t same) refl
  ]

  pub any_of_exists : (t : Table A) → Keeps p t → exists p t ≡ true → any p (objects t) ≡ true
  unfolding exists objects
  any_of_exists [] k h = h
  any_of_exists (e ∷ t) k h = ground (arith, any_of_exists t)

-- The table of events is as it was, or flushed.
abbrev pub KeptEvents : (u v : Uow) → Type 0
KeptEvents u v = ◌⊎◌ (v.sync_events ≡ u.sync_events) (v.sync_events ≡ flush u.sync_events)

mark_installed-sync_events :
    (now : ℕ) (cmd : MarkDoorInstalled) (u : Uow)
    → (mark_installed now cmd u).1.sync_events ≡ u.sync_events
unfolding mark_installed get_unlocked resolve_installer_rate_snapshot close_issue_of recalc_and_set
    set_door
mark_installed-sync_events now cmd u = ground arith

mark_not_installed-sync_events :
    (now : ℕ) (cmd : MarkDoorNotInstalled) (u : Uow)
    → (mark_not_installed now cmd u).1.sync_events ≡ u.sync_events
unfolding mark_not_installed get_unlocked ensure_reason_exists open_issue_of recalc_and_set set_door
mark_not_installed-sync_events now cmd u = ground arith

apply_door-sync_events :
    (now company_id installer_id actor_user_id project_id : ℕ) (p : EventPayload) (u : Uow)
    → (apply_door_set_status now company_id installer_id actor_user_id project_id p u).1.sync_events
      ≡ u.sync_events
unfolding apply_door_set_status ensure_project_access parse_uuid set_status
apply_door-sync_events now c i a k p u =
    grind (arith, mark_installed-sync_events, mark_not_installed-sync_events)

create_fact-KeptEvents :
    (now : ℕ) (r : FactRequest) (u : Uow) → KeptEvents u (create_fact now r u).1
unfolding create_fact flushed add_change
create_fact-KeptEvents now r u =
    let row : AddonFact = fact_of now u.next_id r in
    let w : Uow = record u { next_id = suc u.next_id; addon_facts = add row u.addon_facts } in
    elim (flush_session-states w) [
      | inl done ↦ inr (ground arith)
      | inr (e, b, failed) ↦ inl (ground arith)
    ]

add_fact-KeptEvents :
    (now : ℕ) (r : FactRequest) (u : Uow) → KeptEvents u (installer_add_fact now r u).1
unfolding installer_add_fact is_known_event
add_fact-KeptEvents now r u = ground (arith, create_fact-KeptEvents now r u)

-- The row of the event is among the objects.
abbrev pub HasRow : (company_id : ℕ) → (client_event_id : String) → Uow → Type 0
HasRow company_id cid u = any (is_client_event company_id cid) (objects u.sync_events) ≡ true

abbrev pub Kept : (company_id : ℕ) → (client_event_id : String) → Uow → Type 0
Kept company_id cid u = Keeps (is_client_event company_id cid) u.sync_events

-- What `HasRow` and `Kept` rest on is kept from one state to the next.
abbrev pub Carries : (company_id : ℕ) → (client_event_id : String) → (u v : Uow) → Type 0
Carries company_id cid u v =
    (HasRow company_id cid u → HasRow company_id cid v)
    × (Kept company_id cid u → Kept company_id cid v)

Carries-KeptEvents : (c : ℕ) (cid : String) (u v : Uow) → KeptEvents u v → Carries c cid u v
Carries-KeptEvents c cid u v (inl same) = (λ h. rw same h, λ h. rw same h)
Carries-KeptEvents c cid u v (inr flushed_events) = (
  λ h. rw (flushed_events, objects-flush) h,
  λ h. rw flushed_events (Keeps-flush (is_client_event c cid) u.sync_events),
)

parse_fact-state :
    (c i k : ℕ) (cid : String) (at : Option ℕ) (p : EventPayload) (u : Uow)
    → (parse_fact c i k cid at p u).1 ≡ u
unfolding parse_fact parse_uuid
parse_fact-state c i k cid at p u = ground arith

apply_fact-KeptEvents :
    (now c i k : ℕ) (cid : String) (at : Option ℕ) (p : EventPayload) (u : Uow)
    → KeptEvents u (apply_addon_fact_create now c i k cid at p u).1
unfolding apply_addon_fact_create ensure_project_access
apply_fact-KeptEvents now c i k cid at p u =
    grind (arith, parse_fact-state c i k cid at p u, add_fact-KeptEvents)

apply_event-KeptEvents :
    (now c i a : ℕ) (ev : Event) (row : SyncEvent) (u : Uow)
    → KeptEvents u (apply_event now c i a ev row u).1
unfolding apply_event
apply_event-KeptEvents now c i a ev row u = grind (
  arith,
  apply_door-sync_events now c i a ev.project_id ev.payload u,
  apply_fact-KeptEvents now c i ev.project_id ev.client_event_id ev.happened_at ev.payload u,
)

mark-Carries :
    (c : ℕ) (cid : String) (now : ℕ) (error : Option String) (row : SyncEvent) (u : Uow)
    → Carries c cid u (mark now error row u)
unfolding mark
mark-Carries c cid now error row u =
    let f : SyncEvent → SyncEvent = λ x. record x { applied_at = some now; apply_error = error } in
    (
      λ h.
          rw (any-assign (is_client_event c cid) (λ x. x.id == row.id) f u.sync_events (λ x. refl))
            h,
      λ h. Keeps-assign (is_client_event c cid) (λ x. x.id == row.id) f u.sync_events (λ x. refl) h,
    )

-- `SyncEventType(ev["type"])` does not raise.
abbrev pub has_type : Event → Bool
has_type ev = same_text ev.type "DOOR_SET_STATUS" || same_text ev.type "ADDON_FACT_CREATE"

abbrev pub with_event : SyncEvent → Uow → Uow
with_event row u = record u { next_id = suc u.next_id; sync_events = add row u.sync_events }

prepare-cases :
    (k i : ℕ) (ev : Event) (u : Uow)
    → ((e : Error) × (prepare k i ev u ≡ (err e, u)) × ◌⊎◌ (u.broken ≡ true) (has_type ev ≡ false))
      ⊎ (IsKnown k u ev × (prepare k i ev u ≡ (ok none, u)))
      ⊎ ((t : SyncEventType) × (prepare k i ev u ≡ (
        ok (some (pending_row u.next_id k i t ev)),
        with_event (pending_row u.next_id k i t ev) u,
      )))
unfolding prepare exists_client_event parse_event_type create_pending
prepare-cases k i ev u = elim (Bool-cases u.broken) [
  | inl b ↦ inl (pending_rollback, ground arith, inl b)
  | inr b ↦ elim (Bool-cases (exists (is_client_event k ev.client_event_id) u.sync_events)) [
    | inl known ↦ inr (inl (known, ground arith))
    | inr new ↦ elim (Bool-cases (same_text ev.type "DOOR_SET_STATUS")) [
      | inl d ↦ inr (inr (SyncEventType.door_set_status, ground arith))
      | inr d ↦ elim (Bool-cases (same_text ev.type "ADDON_FACT_CREATE")) [
        | inl a ↦ inr (inr (SyncEventType.addon_fact_create, ground arith))
        | inr a ↦ inl (
          value_error (concat "'" (concat ev.type "' is not a valid SyncEventType")),
          ground arith,
          inr (ground arith),
        )
      ]
    ]
  ]
]

pub with_event-HasRow :
    (k i : ℕ) (t : SyncEventType) (ev : Event) (u : Uow)
    → HasRow k ev.client_event_id (with_event (pending_row u.next_id k i t ev) u)
unfolding pending_row
with_event-HasRow k i t ev u =
    let row : SyncEvent = pending_row u.next_id k i t ev in
    ground (
      arith,
      objects-add row u.sync_events,
      any-append (is_client_event k ev.client_event_id) (objects u.sync_events) (row ∷ []),
      eq_iff ev.client_event_id ev.client_event_id,
    )

pub with_event-Carries :
    (c : ℕ) (cid : String) (row : SyncEvent) (u : Uow) → Carries c cid u (with_event row u)
with_event-Carries c cid row u = (
  λ h. ground (
    arith,
    objects-add row u.sync_events,
    any-append (is_client_event c cid) (objects u.sync_events) (row ∷ []),
  ),
  λ h. Keeps-add (is_client_event c cid) row u.sync_events h,
)

new_event-state :
    (now k i a : ℕ) (ev : Event) (u w : Uow) (row : SyncEvent)
    → prepare k i ev u ≡ (ok (some row), w)
    → (error : Option String) × ((process_event now k i a ev u).1
        ≡ mark now error row (apply_event now k i a ev row w).1)
unfolding process_event mark_applied mark_failed
new_event-state now k i a ev u w row p = elim (Result-cases (apply_event now k i a ev row w).0) [
  | inl done ↦ (none, ground arith)
  | inr (e, failed) ↦ (some (clip 5000 (message e)), ground arith)
]

pub process_event-cases :
    (now k i a : ℕ) (ev : Event) (u : Uow)
    → (((process_event now k i a ev u).1 ≡ u)
        × (◌⊎◌ (u.broken ≡ true) (has_type ev ≡ false) ⊎ IsKnown k u ev))
      ⊎ ((t : SyncEventType) × (error : Option String) × let row = pending_row u.next_id k i t ev in
            ((process_event now k i a ev u).1
              ≡ mark now error row (apply_event now k i a ev row (with_event row u)).1))
unfolding process_event
process_event-cases now k i a ev u = elim (prepare-cases k i ev u) [
  | inl (e, p, why) ↦ inl (ground arith, inl why)
  | inr (inl (known, p)) ↦ inl (ground arith, inr known)
  | inr (inr (t, p)) ↦
      let row : SyncEvent = pending_row u.next_id k i t ev in
      let (error, state) = new_event-state now k i a ev u (with_event row u) row p in
      inr (t, error, state)
]

pub Carries-trans :
    (c : ℕ) (cid : String) (u v w : Uow) → Carries c cid u v → Carries c cid v w → Carries c cid u w
Carries-trans c cid u v w f g = (λ h. g.0 (f.0 h), λ h. g.1 (f.1 h))

-- Once the row of the event `row` is written, the rest of the turn keeps all rows.
pub applied-Carries :
    (now k i a c : ℕ) (cid : String) (ev : Event) (error : Option String) (row : SyncEvent)
    (w : Uow)
    → Carries c cid w (mark now error row (apply_event now k i a ev row w).1)
applied-Carries now k i a c cid ev error row w =
    let v = (apply_event now k i a ev row w).1 in
    Carries-trans c cid w v (mark now error row v)
      (Carries-KeptEvents c cid w v (apply_event-KeptEvents now k i a ev row w))
      (mark-Carries c cid now error row v)
