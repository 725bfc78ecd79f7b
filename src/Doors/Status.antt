-- ===== src/Doors/Status.antt =====
-- The status of a project after a door was marked.
use dimax_ops_backend.Base.{ℕ, ◌≡◌, false, some, List, arith, any, ==_refl, ◌==◌, if◌then◌else◌}
use dimax_ops_backend.Store.{find, objects}
use dimax_ops_backend.Store.Laws.{
  IsClean, find-assign, count-assign, count_of_find, count-any, find_sound,
}
use dimax_ops_backend.Domain.{DoorStatus, Door, ProjectStatus, Project}
use dimax_ops_backend.Uow.{Uow, ok}
use dimax_ops_backend.Doors.{
  MarkDoorInstalled, has_door_key, has_project_key, not_installed_in,
  resolve_installer_rate_snapshot, set_door, recalc_and_set,
}
use dimax_ops_backend.Doors.Effects.{rate_at}
use dimax_ops_backend.Doors.UseCases.{install, get_unlocked, close_issue_of, mark_installed}

-- What the documentation of the projects calls the status: PROBLEM when some door of the project
-- is not installed.
abbrev pub true_status : (company_id project_id : ℕ) → List Door → ProjectStatus
true_status company_id project_id ds =
    if any (not_installed_in company_id project_id) ds
    then ProjectStatus.problem
    else ProjectStatus.ok

-- Where no door has unflushed changes, the recalculated status of a project is the true one.
pub recalc_and_set-true_status :
    (company_id project_id : ℕ) (u : Uow) (p : Project)
    → u.broken ≡ false
    → IsClean u.doors
    → find (has_project_key company_id project_id) u.projects ≡ some p
    → find
        (has_project_key company_id project_id)
        (recalc_and_set company_id project_id u).1.projects
      ≡ some (record p { status = true_status company_id project_id (objects u.doors) })
unfolding recalc_and_set
recalc_and_set-true_status c j u p b clean found = ground (
  arith,
  count-any (not_installed_in c j) u.doors clean,
  find-assign (has_project_key c j) (λ x. x.id == p.id)
      (λ _. record p { status = true_status c j (objects u.doors) }) u.projects p found
      (==_refl p.id),
)

-- In a session that has no unflushed doors, the successful installation of a door that is
-- NOT_INSTALLED leaves its project at PROBLEM, whatever the other doors are.
pub mark_installed_status_lags :
    (now : ℕ) (cmd : MarkDoorInstalled) (u : Uow) (d : Door) (p : Project)
    → IsClean u.doors
    → find (has_door_key cmd.company_id cmd.door_id) u.doors ≡ some d
    → d.status ≡ DoorStatus.not_installed
    → find (has_project_key cmd.company_id d.project_id) u.projects ≡ some p
    → (mark_installed now cmd u).0 ≡ ok tt
    → find (has_project_key cmd.company_id d.project_id) (mark_installed now cmd u).1.projects
      ≡ some (record p { status = ProjectStatus.problem })
unfolding mark_installed get_unlocked resolve_installer_rate_snapshot close_issue_of recalc_and_set
    set_door
mark_installed_status_lags now cmd u d p clean found down project done = ground (
  arith,
  find_sound (has_door_key cmd.company_id cmd.door_id) u.doors d clean found,
  count_of_find (has_door_key cmd.company_id cmd.door_id)
      (not_installed_in cmd.company_id d.project_id) u.doors d clean found,
  count-assign (not_installed_in cmd.company_id d.project_id) (λ x. x.id == d.id)
      (λ _. install now (rate_at now cmd.company_id d u) d) u.doors,
  find-assign (has_project_key cmd.company_id d.project_id) (λ x. x.id == p.id)
      (λ _. record p { status = ProjectStatus.problem }) u.projects p project (==_refl p.id),
)
