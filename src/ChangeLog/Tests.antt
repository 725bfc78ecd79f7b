-- ===== src/ChangeLog/Tests.antt =====
-- The theorems on the log at concrete inputs.
use dimax_ops_backend.Base.{ℕ, ◌≤◌, ◌≡◌, none, [], ◌∷◌, ◌++◌, arith, All, length}
use dimax_ops_backend.Domain.{SyncChangeType, LoggedChange, plan_delete}
use dimax_ops_backend.Uow.{Uow}
use dimax_ops_backend.ChangeLog.{pull_for_installer}
use dimax_ops_backend.ChangeLog.Order.{IsOrdered}
use dimax_ops_backend.ChangeLog.Pull.{next_cursor_of, pull_for_installer-continues}
use dimax_ops_backend.ChangeLog.Visible.{IsVisible, pull_for_installer-IsVisible}
use dimax_ops_backend.Sample.{uow}

abbrev change : ℕ → LoggedChange
change cursor = record {
  cursor_id = cursor;
  change = record {
    company_id = 1;
    created_at = 40;
    change_type = SyncChangeType.project_addon_plan;
    entity_id = 10;
    project_id = 10;
    installer_id = none;
    payload = plan_delete 10 40;
  };
}

abbrev busy : Uow
busy = record uow {
  change_log = change 3 ∷ change 4 ∷ change 7 ∷ [];
  pending_changes = (change 0).change ∷ [];
  next_cursor = 8;
}

busy-IsOrdered : IsOrdered busy
busy-IsOrdered = (omega arith, (omega arith, (omega arith, omega arith)))

pull_for_installer-continues_example :
    let first = pull_for_installer 1 7 2 1 busy in
    first ++ pull_for_installer 1 7 (next_cursor_of 2 first) 2 busy
    ≡ pull_for_installer 1 7 2 3 busy
pull_for_installer-continues_example = pull_for_installer-continues 1 7 2 1 2 busy busy-IsOrdered

pull_for_installer-IsVisible_example :
    (length (pull_for_installer 1 7 3 1 busy) ≤ 1)
    × All (IsVisible 1 7 3 busy) (pull_for_installer 1 7 3 1 busy)
pull_for_installer-IsVisible_example = pull_for_installer-IsVisible 1 7 3 1 busy
