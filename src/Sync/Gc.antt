-- ===== src/Sync/Gc.antt =====
-- The garbage collection of the log (app/workers/sync_gc_worker.py), and the pulls of the devices in
-- use after it.
use dimax_ops_backend.Base.{
  ℕ, ◌-◌, ◌≤◌, ◌≡◌, refl, Bool, true, ◌&&◌, not, some, List, [], ◌∷◌, arith, ◌∙◌, leb, ◌==◌,
  if◌then◌else◌, filter, inl, inr, Bool-cases, Option-cases, ◌⊎◌,
}
use dimax_ops_backend.Store.{Table}
use dimax_ops_backend.Domain.{LoggedChange, SyncState}
use dimax_ops_backend.Uow.{Uow}
use dimax_ops_backend.ChangeLog.{
  column, delete_upto, after, page, in_scope, project_ids_of, pull_for_installer,
}
use dimax_ops_backend.Sync.{is_active, minimum, min_ack_for_company, active_installers_count}

-- `SELECT DISTINCT company_id` of the log, in the order of the first rows.
unfoldable pub company_ids : List LoggedChange → List ℕ
company_ids [] = []
company_ids (r ∷ log) =
    r.change.company_id ∷ filter (λ c. not (c == r.change.company_id)) (company_ids log)

-- `int(min_ack) - int(settings.SYNC_GC_SAFETY_LAG)`; a difference that is not positive is 0 here.
unfoldable pub cutoff_of : (now company_id active_days safety_lag : ℕ) → Uow → ℕ
cutoff_of now company_id active_days safety_lag u =
    min_ack_for_company now company_id active_days u - safety_lag

-- One turn of the loop over the companies.
unfoldable pub gc_company : (now active_days safety_lag : ℕ) → (company_id : ℕ) → Uow → Uow
gc_company now active_days safety_lag company_id u =
    let cutoff = cutoff_of now company_id active_days safety_lag u in
    if leb (active_installers_count company_id u) 0
    then u
    else if leb cutoff 0
    then u
    else record u { change_log = delete_upto company_id cutoff u.change_log }

unfoldable pub gc_all : (now active_days safety_lag : ℕ) → List ℕ → Uow → Uow
gc_all now active_days safety_lag [] u = u
gc_all now active_days safety_lag (c ∷ cs) u =
    gc_all now active_days safety_lag cs (gc_company now active_days safety_lag c u)

-- `run_once`
unfoldable pub run_once : (now active_days safety_lag : ℕ) → Uow → Uow
unfolding company_ids
run_once now active_days safety_lag u =
    gc_all now active_days safety_lag (company_ids u.change_log) u

-- The database has the state `s`.
abbrev pub HasState : SyncState → Table SyncState → Type 0
HasState s [] = ⊥
HasState s (e ∷ t) = ◌⊎◌ (e.stored ≡ some s) (HasState s t)

min-le :
    (p : SyncState → Bool) (s : SyncState) (t : Table SyncState)
    → HasState s t
    → p s ≡ true
    → (m : ℕ) × (minimum (column p (λ x. x.last_cursor_ack) t) ≡ some m) × (m ≤ s.last_cursor_ack)
unfolding column minimum
min-le p s [] h k = absurd h
min-le p s (e ∷ t) (inl found) k =
    let rest = minimum (column p (λ x. x.last_cursor_ack) t) in
    elim (Option-cases rest) [
      | inl none_left ↦ (s.last_cursor_ack, ground arith, omega arith)
      | inr (m, found_m) ↦ elim (Bool-cases (leb s.last_cursor_ack m)) [
        | inl le ↦ (s.last_cursor_ack, ground arith, omega arith)
        | inr gt ↦ (m, ground arith, ground arith)
      ]
    ]
min-le p s (e ∷ t) (inr later) k =
    let (m, found_m, le_m) = min-le p s t later k in
    elim (Option-cases e.stored) [
      | inl unstored ↦ (m, ground arith, le_m)
      | inr (x, stored) ↦ elim (Bool-cases (p x && leb x.last_cursor_ack m)) [
        | inl first ↦ (x.last_cursor_ack, ground arith, ground arith)
        | inr second ↦ (m, ground arith, le_m)
      ]
    ]

filter_after-delete_upto :
    (c cutoff company_id installer_id since : ℕ) (project_ids : List ℕ) (log : List LoggedChange)
    → (c ≡ company_id → cutoff ≤ since)
    → filter (after since (in_scope company_id installer_id project_ids)) (delete_upto c cutoff log)
      ≡ filter (after since (in_scope company_id installer_id project_ids)) log
unfolding delete_upto
filter_after-delete_upto c cutoff k i since ps [] h = refl
filter_after-delete_upto c cutoff k i since ps (r ∷ log) h =
    ground (arith, filter_after-delete_upto c cutoff k i since ps log h)

pub cutoff-le :
    (now company_id active_days safety_lag : ℕ) (u : Uow) (s : SyncState)
    → HasState s u.sync_state
    → is_active now company_id active_days s ≡ true
    → cutoff_of now company_id active_days safety_lag u ≤ s.last_cursor_ack
unfolding cutoff_of min_ack_for_company
cutoff-le now k days lag u s h a =
    let (m, found_m, le_m) = min-le (is_active now k days) s u.sync_state h a in
    rw found_m (omega arith)

module _ (now active_days safety_lag : ℕ) (s : SyncState) (since limit : ℕ) where
  gc_company-pull :
      (c : ℕ) (u : Uow)
      → HasState s u.sync_state
      → is_active now s.company_id active_days s ≡ true
      → s.last_cursor_ack ≤ since
      → let v = gc_company now active_days safety_lag c u in
        (v.sync_state ≡ u.sync_state)
        × (pull_for_installer s.company_id s.installer_id since limit v
            ≡ pull_for_installer s.company_id s.installer_id since limit u)
  unfolding gc_company pull_for_installer page project_ids_of
  gc_company-pull c u h a le = ground (
    arith,
    filter_after-delete_upto c (cutoff_of now c active_days safety_lag u) s.company_id
        s.installer_id since (project_ids_of s.company_id s.installer_id u) u.change_log
        (λ e. rw e (omega (arith, cutoff-le now s.company_id active_days safety_lag u s h a))),
  )

  gc_all-pull :
      (cs : List ℕ) (u : Uow)
      → HasState s u.sync_state
      → is_active now s.company_id active_days s ≡ true
      → s.last_cursor_ack ≤ since
      → pull_for_installer s.company_id s.installer_id since limit
          (gc_all now active_days safety_lag cs u)
        ≡ pull_for_installer s.company_id s.installer_id since limit u
  unfolding gc_all
  gc_all-pull [] u h a le = refl
  gc_all-pull (c ∷ cs) u h a le =
      let (same_state, same_pull) = gc_company-pull c u h a le in
      gc_all-pull cs (gc_company now active_days safety_lag c u) (rw same_state h) a le ∙ same_pull

  -- A device seen within the active days that pulls from the cursor it acknowledged, or a later
  -- one, gets the same changes after a garbage collection as before it.
  pub run_once-pull_for_installer :
      (u : Uow)
      → HasState s u.sync_state
      → is_active now s.company_id active_days s ≡ true
      → s.last_cursor_ack ≤ since
      → pull_for_installer s.company_id s.installer_id since limit
          (run_once now active_days safety_lag u)
        ≡ pull_for_installer s.company_id s.installer_id since limit u
  unfolding run_once
  run_once-pull_for_installer u h a le = gc_all-pull (company_ids u.change_log) u h a le
