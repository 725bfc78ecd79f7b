-- ===== src/Sync/Collected.antt =====
-- What a device that synchronises gets after a garbage collection of the log.
use dimax_ops_backend.Base.{
  ℕ, ◌≤◌, ◌≡◌, ◌⊎◌, refl, Bool, true, false, Option, none, some, List, [], ◌∷◌, arith, ◌∙◌, ltb,
  inl, inr, Bool-cases,
}
use dimax_ops_backend.Domain.{LoggedChange, SyncState}
use dimax_ops_backend.Uow.{Uow, ok}
use dimax_ops_backend.ChangeLog.{delete_upto, min_of, min_cursor, pull_for_installer, max_cursor}
use dimax_ops_backend.Sync.{is_active}
use dimax_ops_backend.Sync.Gc.{
  HasState, cutoff_of, gc_company, gc_all, run_once, company_ids, cutoff-le,
  run_once-pull_for_installer,
}
use dimax_ops_backend.Sync.Service.{Ack, SyncRequest, SyncResponse, reset_required, respond}

abbrev ahead : (since : ℕ) → Option ℕ → Bool
ahead since o = elim o [ none ↦ false | some m ↦ ltb since m ]

min_of-none :
    (k c cutoff : ℕ) (log : List LoggedChange)
    → min_of k log ≡ none
    → min_of k (delete_upto c cutoff log) ≡ none
unfolding min_of delete_upto
min_of-none k c cutoff [] h = refl
min_of-none k c cutoff (r ∷ log) h = ground (arith, min_of-none k c cutoff log)

-- A log that begins after the cursor keeps its first change.
min_of-delete_upto :
    (k c cutoff since : ℕ) (log : List LoggedChange)
    → (c ≡ k → cutoff ≤ since)
    → ahead since (min_of k log) ≡ true
    → min_of k (delete_upto c cutoff log) ≡ min_of k log
unfolding min_of delete_upto
min_of-delete_upto k c cutoff since [] le h = refl
min_of-delete_upto k c cutoff since (r ∷ log) le h =
    ground (arith, min_of-delete_upto k c cutoff since log le, min_of-none k c cutoff log)

module _ (now active_days safety_lag since : ℕ) (s : SyncState) where
  gc_company_reset :
      (c : ℕ) (u : Uow)
      → HasState s u.sync_state
      → is_active now s.company_id active_days s ≡ true
      → s.last_cursor_ack ≤ since
      → reset_required s.company_id since u ≡ true
      → reset_required s.company_id since (gc_company now active_days safety_lag c u) ≡ true
  unfolding gc_company reset_required min_cursor
  gc_company_reset c u h a le ahead_of = ground (
    arith,
    min_of-delete_upto s.company_id c (cutoff_of now c active_days safety_lag u) since u.change_log
        (λ e. rw e (omega (arith, cutoff-le now s.company_id active_days safety_lag u s h a))),
  )

  gc_company-keeps :
      (c : ℕ) (u : Uow)
      → let v = gc_company now active_days safety_lag c u in
        (v.sync_state ≡ u.sync_state) × (v.broken ≡ u.broken)
  unfolding gc_company
  gc_company-keeps c u = ground arith

  gc_all_reset :
      (cs : List ℕ) (u : Uow)
      → HasState s u.sync_state
      → is_active now s.company_id active_days s ≡ true
      → s.last_cursor_ack ≤ since
      → let v = gc_all now active_days safety_lag cs u in
        (v.broken ≡ u.broken)
        × (reset_required s.company_id since u ≡ true → reset_required s.company_id since v ≡ true)
  unfolding gc_all
  gc_all_reset [] u h a le = (refl, λ r. r)
  gc_all_reset (c ∷ cs) u h a le =
      let (state, sound) = gc_company-keeps c u in
      let (same, kept) =
        gc_all_reset cs (gc_company now active_days safety_lag c u) (rw state h) a le in
      (same ∙ sound, λ r. kept (gc_company_reset c u h a le r))

-- The answer to a device that has no reset to make.
respond_same :
    (q : SyncRequest) (acks : List Ack) (u v : Uow)
    → v.broken ≡ u.broken
    → reset_required q.company_id q.since_cursor u ≡ false
    → reset_required q.company_id q.since_cursor v ≡ false
    → pull_for_installer q.company_id q.installer_id q.since_cursor 2000 v
      ≡ pull_for_installer q.company_id q.installer_id q.since_cursor 2000 u
    → (respond q acks v).0 ≡ (respond q acks u).0
unfolding respond
respond_same q acks u v b r r' same = ground arith

-- The response is an error, or asks for a reset.
abbrev pub AsksReset : SyncRequest → List Ack → Uow → Type 0
AsksReset q acks u =
    (res : SyncResponse) × ((respond q acks u).0 ≡ ok res) × (res.reset_required ≡ true)

respond_reset :
    (q : SyncRequest) (acks : List Ack) (v : Uow)
    → v.broken ≡ false
    → reset_required q.company_id q.since_cursor v ≡ true
    → AsksReset q acks v
unfolding respond
respond_reset q acks v b r = (
  record {
    next_cursor = max_cursor q.company_id v;
    reset_required = true;
    acks = acks;
    changes = [];
  },
  ground arith,
  refl,
)

-- In a healthy session a device seen within the active days that asks from the cursor it
-- acknowledged, or a later one, is after a garbage collection either asked to reset or answered
-- exactly as it would have been before it; the log has the same changes for it after that cursor.
pub run_once-respond :
    (now active_days safety_lag limit : ℕ) (q : SyncRequest) (acks : List Ack) (s : SyncState)
    (u : Uow)
    → u.broken ≡ false
    → s.company_id ≡ q.company_id
    → s.installer_id ≡ q.installer_id
    → HasState s u.sync_state
    → is_active now s.company_id active_days s ≡ true
    → s.last_cursor_ack ≤ q.since_cursor
    → let v = run_once now active_days safety_lag u in
      (pull_for_installer q.company_id q.installer_id q.since_cursor limit v
        ≡ pull_for_installer q.company_id q.installer_id q.since_cursor limit u)
      × (AsksReset q acks v ⊎ ((respond q acks v).0 ≡ (respond q acks u).0))
unfolding run_once
run_once-respond now days lag limit q acks s u b sk si h a le =
    let v = run_once now days lag u in
    let (sound, kept) =
      gc_all_reset now days lag q.since_cursor s (company_ids u.change_log) u h a le in
    let pulled = λ (n : ℕ). run_once-pull_for_installer now days lag s q.since_cursor n u h a le in
    (
      ground (arith, pulled limit, sk, si),
      elim (Bool-cases (reset_required q.company_id q.since_cursor v)) [
        | inl asks ↦ inl (respond_reset q acks v (sound ∙ b) asks)
        | inr none_asked ↦ inr (
            respond_same q acks u v sound (ground (arith, kept, sk, none_asked)) none_asked
              (ground (arith, pulled 2000, sk, si)))
      ],
    )
