-- ===== src/Issues/Workflow.antt =====
-- How the status of an issue goes with the state of its workflow.
use dimax_ops_backend.Base.{◌≡◌, Option, String, none, some, arith, not}
use dimax_ops_backend.Domain.{Issue, IssueStatus, IssueWorkflowState, is_opened}
use dimax_ops_backend.Issues.{
  IssuePatch, Patched, absent, given, is_wf_closed, is_given_value, patch_due_at, patch_priority,
  patch_status, patch_workflow, patch_details, patched,
}

-- The issue is closed exactly when its workflow is.
abbrev pub IsAligned : Issue → Type 0
IsAligned i = is_opened i.status ≡ not (is_wf_closed i.workflow_state)

-- What a patch names of the two is aligned, when it names both.
abbrev pub AreAligned : Option IssueStatus → Option IssueWorkflowState → Type 0
AreAligned none w = Unit {0}
AreAligned (some s) none = Unit {0}
AreAligned (some s) (some w) = is_opened s ≡ not (is_wf_closed w)

abbrev pub IsCoherent : IssuePatch → Type 0
IsCoherent p = AreAligned p.status p.workflow_state

patch_status_workflow :
    (s : Option IssueStatus) (w : Option IssueWorkflowState) (i : Issue)
    → IsAligned i
    → AreAligned s w
    → IsAligned (patch_workflow w (is_given_value s) (patch_status s (is_given_value w) i))
unfolding patch_status patch_workflow
patch_status_workflow none none i a h = a
patch_status_workflow none (some w) i a h = ground arith
patch_status_workflow (some IssueStatus.opened) none i a h = ground arith
patch_status_workflow (some IssueStatus.closed) none i a h = ground arith
patch_status_workflow (some IssueStatus.opened) (some w) i a h = ground arith
patch_status_workflow (some IssueStatus.closed) (some w) i a h = ground arith

patch_before-IsAligned :
    (p : IssuePatch) (i : Issue)
    → IsAligned i
    → IsAligned (patch_priority p.priority (patch_due_at p.due_at i))
unfolding patch_due_at patch_priority
patch_before-IsAligned p i a = ground arith

patch_details-IsAligned :
    (d : Patched (Option String)) (i : Issue) → IsAligned i → IsAligned (patch_details d i)
unfolding patch_details
patch_details-IsAligned absent i a = a
patch_details-IsAligned (given none) i a = a
patch_details-IsAligned (given (some t)) i a = a

-- A patch of an issue whose status and workflow state are aligned keeps them aligned, unless it
-- names a pair that is not.
pub patched-IsAligned :
    (p : IssuePatch) (i : Issue) → IsAligned i → IsCoherent p → IsAligned (patched p i)
unfolding patched
patched-IsAligned p i a both = patch_details-IsAligned p.details _ (
    patch_status_workflow p.status p.workflow_state
      (patch_priority p.priority (patch_due_at p.due_at i)) (patch_before-IsAligned p i a) both)
