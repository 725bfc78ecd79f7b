-- ===== src/Issues/Tests.antt =====
-- A bulk of patches at a concrete input, and its theorem there.
use dimax_ops_backend.Base.{ℕ, ◌≡◌, refl, none, some, List, [], ◌∷◌}
use dimax_ops_backend.Store.{select, assign, flush, objects, violates}
use dimax_ops_backend.Uow.{Uow, Result, ok, err, flush_session, flushed, violates_unique}
use dimax_ops_backend.Sample
use dimax_ops_backend.Sample.{row}
use dimax_ops_backend.Issues.{apply_workflow_patch, patch_owner}
use dimax_ops_backend.Issues.Bulk.{IssuesUpdated, patch_each, bulk_update_issue_workflow}
use dimax_ops_backend.Issues.Aligned.{AllAligned, bulk_update_issue_workflow-AllAligned}
use dimax_ops_backend.Domain.{Issue, IssueStatus, IssuePriority, IssueWorkflowState}
use dimax_ops_backend.Issues.{IssuePatch, absent, given, patched}

abbrev issue : Issue
issue = record {
  id = 30;
  company_id = 1;
  door_id = 100;
  status = IssueStatus.closed;
  title = none;
  details = none;
  owner_user_id = none;
  due_at = none;
  priority = IssuePriority.p3;
  workflow_state = IssueWorkflowState.closed;
}

-- The issue is taken up again.
abbrev reopen : IssuePatch
reopen = record {
  owner_user_id = absent;
  due_at = given (some 500);
  priority = some IssuePriority.p1;
  status = none;
  workflow_state = some IssueWorkflowState.in_progress;
  details = given (some " again ");
}

abbrev uow : Uow
uow = record Sample.uow { issues = row issue ∷ [] }

abbrev reopened : Result IssuesUpdated → ℕ × List ℕ
reopened (ok r) = (r.updated, r.missing_issue_ids)
reopened (err e) = (0, [])

-- No issue has the id 31.
one_of_two :
    reopened (bulk_update_issue_workflow 60 1 2 (31 ∷ 30 ∷ 30 ∷ []) (some reopen) uow).0
    ≡ (1, 31 ∷ [])
unfolding bulk_update_issue_workflow patch_each apply_workflow_patch patch_owner patched select
    assign flush_session flushed flush violates_unique violates objects
one_of_two = refl

bulk_update_issue_workflow-AllAligned_example :
    AllAligned (bulk_update_issue_workflow 60 1 2 (31 ∷ 30 ∷ 30 ∷ []) (some reopen) uow).1
unfolding objects
bulk_update_issue_workflow-AllAligned_example =
    bulk_update_issue_workflow-AllAligned 60 1 2 reopen tt (31 ∷ 30 ∷ 30 ∷ []) uow (refl, tt)
