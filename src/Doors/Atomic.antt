-- ===== src/Doors/Atomic.antt =====
-- A use case of the doors that raises has written nothing.
use dimax_ops_backend.Base.{ℕ, ◌≡◌, String, arith}
use dimax_ops_backend.Domain.{Error}
use dimax_ops_backend.Uow.{Uow, err}
use dimax_ops_backend.Doors.{
  MarkDoorInstalled, MarkDoorNotInstalled, AdminOverrideDoor, resolve_installer_rate_snapshot,
  ensure_reason_exists, set_door, recalc_and_set,
}
use dimax_ops_backend.Doors.UseCases.{
  mark_installed, mark_not_installed, admin_override, get_unlocked, close_issue_of, open_issue_of,
  override_installed, override_not_installed, override_close_issue_of,
}

pub mark_installed_atomic :
    (now : ℕ) (cmd : MarkDoorInstalled) (u : Uow) (e : Error)
    → (mark_installed now cmd u).0 ≡ err e
    → (mark_installed now cmd u).1 ≡ u
unfolding mark_installed get_unlocked resolve_installer_rate_snapshot close_issue_of recalc_and_set
    set_door
mark_installed_atomic now cmd u e h = ground arith

pub mark_not_installed_atomic :
    (now : ℕ) (cmd : MarkDoorNotInstalled) (u : Uow) (e : Error)
    → (mark_not_installed now cmd u).0 ≡ err e
    → (mark_not_installed now cmd u).1 ≡ u
unfolding mark_not_installed get_unlocked ensure_reason_exists open_issue_of recalc_and_set set_door
mark_not_installed_atomic now cmd u e h = ground arith

pub admin_override_atomic :
    (now : ℕ) (cmd : AdminOverrideDoor) (actor_role : String) (u : Uow) (e : Error)
    → (admin_override now cmd actor_role u).0 ≡ err e
    → (admin_override now cmd actor_role u).1 ≡ u
unfolding admin_override override_installed override_not_installed resolve_installer_rate_snapshot
    override_close_issue_of ensure_reason_exists open_issue_of recalc_and_set set_door
admin_override_atomic now cmd actor_role u e h = ground arith
