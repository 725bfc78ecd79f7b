-- ===== src/Issues/Aligned.antt =====
-- A bulk of patches keeps every issue aligned.
use dimax_ops_backend.Base.{
  ℕ, ◌≡◌, refl, Bool, ◌&&◌, Option, none, some, List, [], ◌∷◌, String, ◌==◌, elem, unique_from,
  arith, All, Bool-cases, inl, inr,
}
use mathlib.Core.Path.{subst}
use dimax_ops_backend.Store.{Table, find, select, objects, matches}
use dimax_ops_backend.Store.Laws.{All-assign, objects-flush}
use dimax_ops_backend.Domain.{Issue, User, validation_error}
use dimax_ops_backend.Uow.{
  Uow, Action, pure, or_raise, query, ◌>>=◌, raise_if, modify, flush_session, flushed,
}
use dimax_ops_backend.Uow.Triples.{
  Any, Holds, bind-Holds, pure-Holds, or_raise-Holds, query-Holds, modify-Holds,
  flush_session-Holds, raise_if-Holds,
}
use dimax_ops_backend.Issues.{
  IssuePatch, Patched, absent, given, patch_owner, has_user_key, patched, set_issue_row,
  add_issue_entry, save_patched, apply_workflow_patch,
}
use dimax_ops_backend.Issues.Workflow.{IsAligned, IsCoherent, patched-IsAligned}
use dimax_ops_backend.Issues.Bulk.{
  issue_by_id, patch_found, patch_each, patch_rows, patch_ids, list_by_ids, updates_of,
  is_empty_ids, bulk_update_issue_workflow,
}

abbrev pub AllAligned : Uow → Type 0
AllAligned u = All IsAligned (objects u.issues)

flushed-AllAligned : (u : Uow) → AllAligned u → AllAligned (flushed u)
unfolding flushed
flushed-AllAligned u h = rw (objects-flush u.issues) h

save_patched-AllAligned :
    (now company_id actor_user_id : ℕ) (row row' : Issue) (action : String)
    → IsAligned row'
    → Holds AllAligned (save_patched now company_id actor_user_id row row' action) Any
save_patched-AllAligned now company_id actor_user_id row row' action a =
    let wrote = modify (set_issue_row row') in
    let entry = modify (add_issue_entry now company_id actor_user_id row row' action) in
    let flushes : Action Issue = flush_session >>= λ _. pure row' in
    let logs : Action Issue = entry >>= λ _. flushes in
    bind-Holds AllAligned {P = Any} {Q = Any} wrote (λ _. logs)
      (modify-Holds AllAligned (set_issue_row row')
        (λ u h. All-assign IsAligned (λ x. x.id == row'.id) row' u.issues h a))
      (λ _ _.
        bind-Holds AllAligned {P = Any} {Q = Any} entry (λ _. flushes)
          (modify-Holds AllAligned (add_issue_entry now company_id actor_user_id row row' action)
            (λ u h. h))
          (λ _ _.
            bind-Holds AllAligned {P = Any} {Q = Any} flush_session (λ _. pure row')
              (flush_session-Holds AllAligned flushed-AllAligned (λ u b h. h))
              (λ _ _. pure-Holds AllAligned row' tt)))

owned_by-IsAligned :
    (company_id owner_id : ℕ) (row : Issue)
    → IsAligned row
    → Holds AllAligned (patch_owner company_id (given (some owner_id)) row) IsAligned
unfolding patch_owner
owned_by-IsAligned company_id owner_id row a =
    let look = query (λ u. find (has_user_key company_id owner_id) u.users) in
    let missing = validation_error "owner_user_id not found or inactive" in
    let set = λ (owner : User). pure (record row { owner_user_id = some owner.id }) in
    bind-Holds AllAligned {P = Any} {Q = IsAligned} look (λ found. or_raise found missing >>= set)
      (query-Holds AllAligned (λ u. find (has_user_key company_id owner_id) u.users) (λ u h. tt))
      (λ found _.
        bind-Holds AllAligned {P = Any} {Q = IsAligned} (or_raise found missing) set
          (or_raise-Holds AllAligned found missing (λ o e. tt))
          (λ owner _. pure-Holds AllAligned (record row { owner_user_id = some owner.id }) a))

patch_owner-IsAligned :
    (company_id : ℕ) (owner : Patched (Option ℕ)) (row : Issue)
    → IsAligned row
    → Holds AllAligned (patch_owner company_id owner row) IsAligned
unfolding patch_owner
patch_owner-IsAligned company_id absent row a = pure-Holds AllAligned row a
patch_owner-IsAligned company_id (given none) row a =
    pure-Holds AllAligned (record row { owner_user_id = none }) a
patch_owner-IsAligned company_id (given (some owner_id)) row a =
    owned_by-IsAligned company_id owner_id row a

apply_workflow_patch-AllAligned :
    (now company_id actor_user_id : ℕ) (row : Issue) (patch : IssuePatch) (action : String)
    → IsAligned row
    → IsCoherent patch
    → Holds AllAligned (apply_workflow_patch now company_id actor_user_id row patch action) Any
unfolding apply_workflow_patch
apply_workflow_patch-AllAligned now company_id actor_user_id row patch action a coherent =
    bind-Holds AllAligned {P = IsAligned} {Q = Any} (patch_owner company_id patch.owner_user_id row)
      (λ owned. save_patched now company_id actor_user_id row (patched patch owned) action)
      (patch_owner-IsAligned company_id patch.owner_user_id row a)
      (λ owned aligned.
        save_patched-AllAligned now company_id actor_user_id row (patched patch owned) action
          (patched-IsAligned patch owned aligned coherent))

some_inj : {a b : Issue} → some a ≡ some b → a ≡ b
some_inj h = ground arith

issue_by_id-IsAligned :
    (issue_id : ℕ) (rows : List Issue) (row : Issue)
    → All IsAligned rows
    → issue_by_id issue_id rows ≡ some row
    → IsAligned row
issue_by_id-IsAligned issue_id [] row h e = cc
issue_by_id-IsAligned issue_id (i ∷ rows) row h e = elim (Bool-cases (i.id == issue_id)) [
  | inl hit ↦ subst IsAligned (some_inj {a = i} {b = row} (ground (arith, hit, e))) h.0
  | inr miss ↦ issue_by_id-IsAligned issue_id rows row h.1 (ground (arith, miss, e))
]

All-select :
    (p : Issue → Bool) (t : Table Issue) → All IsAligned (objects t) → All IsAligned (select p t)
unfolding select objects
All-select p [] h = tt
All-select p (e ∷ t) h = elim (Bool-cases (matches p e)) [
  | inl hit ↦ rw hit (h.0, All-select p t h.1)
  | inr miss ↦ rw miss (All-select p t h.1)
]

module _ (now company_id actor_user_id : ℕ) (patch : IssuePatch) (coherent : IsCoherent patch) where
  patch_found-AllAligned :
      (o : Option Issue) (rest : Action (List Issue))
      → ((row : Issue) → o ≡ some row → IsAligned row)
      → Holds AllAligned rest Any
      → Holds AllAligned (patch_found now company_id actor_user_id patch o rest) Any
  patch_found-AllAligned none rest aligned h = h
  patch_found-AllAligned (some row) rest aligned h =
      let action : String = "ISSUE_WORKFLOW_BULK_UPDATE" in
      bind-Holds AllAligned {P = Any} {Q = Any}
        (apply_workflow_patch now company_id actor_user_id row patch action)
        (λ item. rest >>= λ items. pure (item ∷ items))
        (apply_workflow_patch-AllAligned now company_id actor_user_id row patch action
          (aligned row refl) coherent)
        (λ item _.
          bind-Holds AllAligned {P = Any} {Q = Any} rest (λ items. pure (item ∷ items)) h
            (λ items _. pure-Holds AllAligned (item ∷ items) tt))

  patch_each-AllAligned :
      (rows : List Issue) (ids : List ℕ)
      → All IsAligned rows
      → Holds AllAligned (patch_each now company_id actor_user_id patch rows ids) Any
  unfolding patch_each
  patch_each-AllAligned rows [] aligned = pure-Holds AllAligned [] tt
  patch_each-AllAligned rows (id ∷ ids) aligned =
      patch_found-AllAligned (issue_by_id id rows)
        (patch_each now company_id actor_user_id patch rows ids)
        (λ row found. issue_by_id-IsAligned id rows row aligned found)
        (patch_each-AllAligned rows ids aligned)

  patch_ids-AllAligned :
      (ids : List ℕ) → Holds AllAligned (patch_ids now company_id actor_user_id ids patch) Any
  patch_ids-AllAligned ids =
      bind-Holds AllAligned {P = All IsAligned} {Q = Any} (query (list_by_ids company_id ids))
        (patch_rows now company_id actor_user_id patch ids)
        (query-Holds AllAligned {Q = All IsAligned} (list_by_ids company_id ids)
          (λ u h. All-select (λ i. i.company_id == company_id && elem i.id ids) u.issues h))
        (λ rows aligned.
          bind-Holds AllAligned {P = Any} {Q = Any}
            (patch_each now company_id actor_user_id patch rows ids)
            (λ items. pure (updates_of rows items ids)) (patch_each-AllAligned rows ids aligned)
            (λ items _. pure-Holds AllAligned (updates_of rows items ids) tt))

  -- A bulk of patches that does not name a status and a workflow state that contradict each other
  -- keeps every issue closed exactly when its workflow is, also when it raises.
  pub bulk_update_issue_workflow-AllAligned :
      (issue_ids : List ℕ) (u : Uow)
      → AllAligned u
      → AllAligned
          (bulk_update_issue_workflow now company_id actor_user_id issue_ids (some patch) u).1
  unfolding bulk_update_issue_workflow
  bulk_update_issue_workflow-AllAligned issue_ids u h =
      let ids = unique_from [] issue_ids in
      let no_ids = validation_error "issue_ids must not be empty" in
      (bind-Holds AllAligned {P = Any} {Q = Any} (raise_if (is_empty_ids issue_ids) no_ids)
        (λ _. patch_ids now company_id actor_user_id ids patch)
        (raise_if-Holds AllAligned (is_empty_ids issue_ids) no_ids (λ _. tt))
        (λ _ _. patch_ids-AllAligned ids) u h).0
