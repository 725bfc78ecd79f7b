-- ===== src/Issues/Bulk.antt =====
-- The operations of `IssuesAdminApiService` that change issues
-- (app/modules/issues/application/admin_api_service.py). A patch that has no key is `none`.
use dimax_ops_backend.Base.{
  ℕ, Bool, true, false, ◌&&◌, not, Option, none, some, List, [], ◌∷◌, String, ◌==◌, if◌then◌else◌,
  elem, unique_from, length, filter, is_some,
}
use dimax_ops_backend.Store.{find, select}
use dimax_ops_backend.Domain.{Issue, IssueStatus, not_found, validation_error}
use dimax_ops_backend.Uow.{Uow, Action, pure, or_raise, query, ◌>>=◌, ◌>>◌, raise_if}
use dimax_ops_backend.Issues.{IssuePatch, absent, given, apply_workflow_patch}

-- `IssueRepository.get`
abbrev pub has_issue_key : (company_id issue_id : ℕ) → Issue → Bool
has_issue_key company_id issue_id i = i.company_id == company_id && i.id == issue_id

abbrev pub status_patch : IssueStatus → (details : Option String) → IssuePatch
status_patch status details = record {
  owner_user_id = absent;
  due_at = absent;
  priority = none;
  status = some status;
  workflow_state = none;
  details = given details;
}

unfoldable pub update_issue_status :
    (now company_id actor_user_id issue_id : ℕ)
    → IssueStatus
    → (details : Option String) → Action Issue
unfolding apply_workflow_patch
update_issue_status now company_id actor_user_id issue_id status details = do
  found ← query (λ u. find (has_issue_key company_id issue_id) u.issues)
  row ← or_raise found (not_found "Issue not found")
  apply_workflow_patch now company_id actor_user_id row (status_patch status details)
      "ISSUE_STATUS_UPDATE"

unfoldable pub update_issue_workflow :
    (now company_id actor_user_id issue_id : ℕ) → Option IssuePatch → Action Issue
unfolding apply_workflow_patch
update_issue_workflow now company_id actor_user_id issue_id patch = do
  found ← query (λ u. find (has_issue_key company_id issue_id) u.issues)
  row ← or_raise found (not_found "Issue not found")
  given_patch ← or_raise patch (validation_error "at least one field must be provided")
  apply_workflow_patch now company_id actor_user_id row given_patch "ISSUE_WORKFLOW_UPDATE"

-- `by_id[issue_id]`
abbrev pub issue_by_id : (issue_id : ℕ) → List Issue → Option Issue
issue_by_id issue_id [] = none
issue_by_id issue_id (i ∷ rows) = if i.id == issue_id then some i else issue_by_id issue_id rows

-- The body of the loop over the ids, before `rest` of it.
abbrev pub patch_found :
    (now company_id actor_user_id : ℕ)
    → IssuePatch
    → Option Issue
    → (rest : Action (List Issue)) → Action (List Issue)
patch_found now company_id actor_user_id patch none rest = rest
patch_found now company_id actor_user_id patch (some row) rest = do
  item ← apply_workflow_patch now company_id actor_user_id row patch "ISSUE_WORKFLOW_BULK_UPDATE"
  items ← rest
  pure (item ∷ items)

unfoldable pub patch_each :
    (now company_id actor_user_id : ℕ)
    → IssuePatch
    → (rows : List Issue) → (issue_ids : List ℕ) → Action (List Issue)
unfolding apply_workflow_patch
patch_each now company_id actor_user_id patch rows [] = pure []
patch_each now company_id actor_user_id patch rows (id ∷ ids) =
    patch_found now company_id actor_user_id patch (issue_by_id id rows)
      (patch_each now company_id actor_user_id patch rows ids)

pub record IssuesUpdated : Type 0 where
  pub updated : ℕ
  pub missing_issue_ids : List ℕ
  pub items : List Issue

abbrev pub is_empty_ids : List ℕ → Bool
is_empty_ids [] = true
is_empty_ids (id ∷ ids) = false

abbrev pub missing_of : (rows : List Issue) → List ℕ → List ℕ
missing_of rows ids = filter (λ id. not (is_some (issue_by_id id rows))) ids

abbrev pub updates_of : (rows items : List Issue) → (ids : List ℕ) → IssuesUpdated
updates_of rows items ids = record {
  updated = length items;
  missing_issue_ids = missing_of rows ids;
  items = items;
}

abbrev pub patch_rows :
    (now company_id actor_user_id : ℕ)
    → IssuePatch
    → (ids : List ℕ) → (rows : List Issue) → Action IssuesUpdated
patch_rows now company_id actor_user_id patch ids rows = do
  items ← patch_each now company_id actor_user_id patch rows ids
  pure (updates_of rows items ids)

-- `IssueRepository.list_by_ids`
abbrev pub list_by_ids : (company_id : ℕ) → (ids : List ℕ) → Uow → List Issue
list_by_ids company_id ids u = select (λ i. i.company_id == company_id && elem i.id ids) u.issues

abbrev pub patch_ids :
    (now company_id actor_user_id : ℕ) → (ids : List ℕ) → IssuePatch → Action IssuesUpdated
patch_ids now company_id actor_user_id ids patch = do
  rows ← query (list_by_ids company_id ids)
  patch_rows now company_id actor_user_id patch ids rows

unfoldable pub bulk_update_issue_workflow :
    (now company_id actor_user_id : ℕ)
    → (issue_ids : List ℕ) → Option IssuePatch
    → Action IssuesUpdated
unfolding patch_each
bulk_update_issue_workflow now company_id actor_user_id issue_ids patch = do
  raise_if (is_empty_ids issue_ids) (validation_error "issue_ids must not be empty")
  given_patch ← or_raise patch (validation_error "at least one field must be provided")
  patch_ids now company_id actor_user_id (unique_from [] issue_ids) given_patch
