-- ===== src/Issues.antt =====
-- The admin's changes to issues: `_apply_workflow_patch`
-- (app/modules/issues/application/admin_api_service.py). A key that a patch does not have is
-- `absent`, and the values of the enumerations are parsed.
pub mod Workflow
pub mod Bulk
pub mod Aligned
mod Tests
use dimax_ops_backend.Base.{
  ℕ, suc, Bool, true, false, ◌&&◌, not, Option, none, some, List, [], ◌∷◌, ◌++◌, String, ◌==◌,
  if◌then◌else◌, is_blank_text, strip,
}
use dimax_ops_backend.Store.{find, assign}
use dimax_ops_backend.Domain.{
  User, validation_error, Issue, IssueStatus, IssuePriority, IssueWorkflowState, AuditLog,
  AuditSnapshot, issue_snapshot, is_opened, validation_error,
}
use dimax_ops_backend.Uow.{
  Uow, Action, ok, err, pure, or_raise, raise, query, ◌>>=◌, ◌>>◌, raise_if, branch, modify,
  flush_session,
}

-- `patch.get(key)` of a key that is there, or `absent`.
pub data Patched (A : Type 0) : Type 0 where
  absent : Patched A
  given : A → Patched A

pub record IssuePatch : Type 0 where
  pub owner_user_id : Patched (Option ℕ)
  pub due_at : Patched (Option ℕ)
  pub priority : Option IssuePriority
  pub status : Option IssueStatus
  pub workflow_state : Option IssueWorkflowState
  pub details : Patched (Option String)

abbrev pub is_wf_closed : IssueWorkflowState → Bool
is_wf_closed IssueWorkflowState.closed = true
is_wf_closed IssueWorkflowState.new = false
is_wf_closed IssueWorkflowState.triaged = false
is_wf_closed IssueWorkflowState.in_progress = false
is_wf_closed IssueWorkflowState.blocked = false
is_wf_closed IssueWorkflowState.resolved = false

-- `_snapshot`
unfoldable pub snapshot : Issue → AuditSnapshot
snapshot i =
    issue_snapshot i.door_id i.status i.workflow_state i.priority i.owner_user_id i.due_at i.title
      i.details

-- `UserRepository.get_by_id`
abbrev pub has_user_key : (company_id user_id : ℕ) → User → Bool
has_user_key company_id user_id u = u.company_id == company_id && u.id == user_id && u.is_active

unfoldable pub patch_owner : (company_id : ℕ) → Patched (Option ℕ) → Issue → Action Issue
patch_owner company_id absent row = pure row
patch_owner company_id (given none) row = pure (record row { owner_user_id = none })
patch_owner company_id (given (some owner_id)) row = do
  found ← query (λ u. find (has_user_key company_id owner_id) u.users)
  owner ← or_raise found (validation_error "owner_user_id not found or inactive")
  pure (record row { owner_user_id = some owner.id })

unfoldable pub patch_due_at : Patched (Option ℕ) → Issue → Issue
patch_due_at absent row = row
patch_due_at (given due_at) row = record row { due_at = due_at }

unfoldable pub patch_priority : Option IssuePriority → Issue → Issue
patch_priority none row = row
patch_priority (some p) row = record row { priority = p }

-- `if explicit_status: ...`
unfoldable pub patch_status : Option IssueStatus → (explicit_workflow : Bool) → Issue → Issue
patch_status none explicit_workflow row = row
patch_status (some IssueStatus.closed) explicit_workflow row = record row {
  status = IssueStatus.closed;
  workflow_state = if explicit_workflow then row.workflow_state else IssueWorkflowState.closed;
}
patch_status (some IssueStatus.opened) explicit_workflow row = record row {
  status = IssueStatus.opened;
  workflow_state =
      if is_wf_closed row.workflow_state && not explicit_workflow
      then IssueWorkflowState.new
      else row.workflow_state;
}

-- `if explicit_workflow: ...`
unfoldable pub patch_workflow : Option IssueWorkflowState → (explicit_status : Bool) → Issue → Issue
patch_workflow none explicit_status row = row
patch_workflow (some wf) explicit_status row = record row {
  workflow_state = wf;
  status =
      if is_wf_closed wf
      then IssueStatus.closed
      else if not (is_opened row.status) && not explicit_status
      then IssueStatus.opened
      else row.status;
}

unfoldable pub patch_details : Patched (Option String) → Issue → Issue
patch_details absent row = row
patch_details (given none) row = record row { details = none }
patch_details (given (some text)) row = record row {
  details = let stripped = strip text in if is_blank_text stripped then none else some stripped;
}

abbrev pub is_given_value : {A : Type 0} → Option A → Bool
is_given_value none = false
is_given_value (some a) = true

-- The row after everything but the owner.
unfoldable pub patched : IssuePatch → Issue → Issue
unfolding patch_due_at patch_priority patch_status patch_workflow patch_details
patched p row =
    let explicit_status = is_given_value p.status in
    let explicit_workflow = is_given_value p.workflow_state in
    patch_details p.details (
      patch_workflow p.workflow_state explicit_status (
        patch_status p.status explicit_workflow
          (patch_priority p.priority (patch_due_at p.due_at row))))

abbrev pub set_issue_row : Issue → Uow → Uow
set_issue_row i u = record u { issues = assign (λ x. x.id == i.id) (λ _. i) u.issues }

abbrev pub add_issue_entry :
    (now company_id actor_user_id : ℕ) → (row row' : Issue) → (action : String) → Uow → Uow
add_issue_entry now company_id actor_user_id row row' action u = record u {
  audit =
      u.audit
      ++ record {
        company_id = company_id;
        actor_user_id = actor_user_id;
        entity_type = "issue";
        entity_id = row'.id;
        action = action;
        reason = none;
        before = some (snapshot row);
        after = some (snapshot row');
        created_at = now;
      }
        ∷ [];
}

-- The end of `_apply_workflow_patch`, from `save` on.
abbrev pub save_patched :
    (now company_id actor_user_id : ℕ) → (row row' : Issue) → (action : String) → Action Issue
save_patched now company_id actor_user_id row row' action = do
  modify (set_issue_row row')
  modify (add_issue_entry now company_id actor_user_id row row' action)
  flush_session
  pure row'

unfoldable pub apply_workflow_patch :
    (now company_id actor_user_id : ℕ) → Issue → IssuePatch → (action : String) → Action Issue
unfolding patched
apply_workflow_patch now company_id actor_user_id row patch action = do
  owned ← patch_owner company_id patch.owner_user_id row
  save_patched now company_id actor_user_id row (patched patch owned) action
