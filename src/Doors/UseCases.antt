-- ===== src/Doors/UseCases.antt =====
-- `DoorUseCases` (app/modules/doors/application/use_cases.py). `now` is what `utcnow` answers
-- during the call.
use dimax_ops_backend.Base.{
  ℕ, true, false, Option, none, some, [], ◌∷◌, ◌++◌, String, if◌then◌else◌, not, same_text,
}
use dimax_ops_backend.Store.{find, add}
use dimax_ops_backend.Domain.{
  DoorStatus, Door, IssueStatus, IssuePriority, IssueWorkflowState, SyncChangeType, Change,
  door_state, AuditSnapshot, door_snapshot, is_opened, str_door_status, not_found, forbidden,
  conflict, validation_error,
}
use dimax_ops_backend.Uow.{
  Action, pure, raise, or_raise, query, ◌>>=◌, ◌>>◌, raise_if, modify, new_id,
}
use dimax_ops_backend.ChangeLog.{add_change}
use dimax_ops_backend.Doors.{
  MarkDoorInstalled, MarkDoorNotInstalled, AdminOverrideDoor, has_door_key, has_issue_door,
  resolve_installer_rate_snapshot, ensure_reason_exists, set_door, set_issue, recalc_and_set,
}

-- The door after the assignments of the INSTALLED branch.
unfoldable pub install : (now : ℕ) → (rate : Option ℕ) → Door → Door
install now rate d = record d {
  status = DoorStatus.installed;
  installed_at = some now;
  is_locked = true;
  reason_id = none;
  comment = none;
  installer_rate_snapshot = rate;
}

-- The door after the assignments of `mark_not_installed`, which leaves the lock alone.
unfoldable pub uninstall : (reason_id : Option ℕ) → (comment : Option String) → Door → Door
uninstall reason_id comment d = record d {
  status = DoorStatus.not_installed;
  reason_id = reason_id;
  comment = comment;
  installed_at = none;
  installer_rate_snapshot = none;
}

-- `uow.sync_change_log.add_change` with the payload that the three use cases build alike.
unfoldable pub door_change : (now company_id : ℕ) → Door → Change
door_change now company_id d = record {
  company_id = company_id;
  created_at = now;
  change_type = SyncChangeType.door;
  entity_id = d.id;
  project_id = d.project_id;
  installer_id = d.installer_id;
  payload =
      door_state d.id d.project_id d.door_type_id d.labels (str_door_status d.status) d.comment now;
}

-- An existing issue is closed; `mark_installed` skips one that is closed already.
unfoldable pub close_issue_of : (company_id door_id : ℕ) → Action (Unit {0})
unfolding set_issue
close_issue_of company_id door_id = do
  issue ← query (λ u. find (has_issue_door company_id door_id) u.issues)
  elim issue [
    | none ↦ pure tt
    | some i ↦
        if is_opened i.status
        then modify (set_issue (record i { status = IssueStatus.closed }))
        else pure tt
  ]

-- The issue of the door is created when the database has none, otherwise opened.
unfoldable pub open_issue_of :
    (company_id door_id : ℕ) (title : String) (details : Option String) → Action (Unit {0})
unfolding set_issue
open_issue_of company_id door_id title details = do
  issue ← query (λ u. find (has_issue_door company_id door_id) u.issues)
  elim issue [
    | none ↦ do
      id ← new_id
      modify (λ u. record u {
        issues =
            add
              (record {
                id = id;
                company_id = company_id;
                door_id = door_id;
                status = IssueStatus.opened;
                title = some title;
                details = details;
                owner_user_id = none;
                due_at = none;
                priority = IssuePriority.p3;
                workflow_state = IssueWorkflowState.new;
              })
              u.issues;
      })
    | some i ↦ modify (set_issue (record i { status = IssueStatus.opened; details = details }))
  ]

-- `uow.doors.get`, then the lock.
unfoldable pub get_unlocked : (company_id door_id : ℕ) → Action Door
get_unlocked company_id door_id = do
  found ← query (λ u. find (has_door_key company_id door_id) u.doors)
  door ← or_raise found (not_found "Door not found")
  raise_if door.is_locked (conflict "Door is locked (already installed). Admin override required.")
  pure door

unfoldable pub mark_installed : (now : ℕ) → MarkDoorInstalled → Action (Unit {0})
unfolding install door_change add_change
mark_installed now cmd = do
  door ← get_unlocked cmd.company_id cmd.door_id
  rate ← resolve_installer_rate_snapshot cmd.company_id door.installer_id door.door_type_id now
  let door' = install now rate door
  modify (set_door door')
  close_issue_of cmd.company_id cmd.door_id
  recalc_and_set cmd.company_id door.project_id
  modify (add_change (door_change now cmd.company_id door'))

unfoldable pub mark_not_installed : (now : ℕ) → MarkDoorNotInstalled → Action (Unit {0})
unfolding uninstall door_change add_change
mark_not_installed now cmd = do
  door ← get_unlocked cmd.company_id cmd.door_id
  reason_id ← or_raise cmd.reason_id (validation_error "reason_id is required for NOT_INSTALLED")
  ensure_reason_exists cmd.company_id reason_id
  let door' = uninstall (some reason_id) cmd.comment door
  modify (set_door door')
  open_issue_of cmd.company_id cmd.door_id "Door not installed" cmd.comment
  recalc_and_set cmd.company_id door.project_id
  modify (add_change (door_change now cmd.company_id door'))

-- `if issue: issue.status = IssueStatus.CLOSED`, whatever the status was.
unfoldable pub override_close_issue_of : (company_id door_id : ℕ) → Action (Unit {0})
unfolding set_issue
override_close_issue_of company_id door_id = do
  issue ← query (λ u. find (has_issue_door company_id door_id) u.issues)
  elim issue [
    | none ↦ pure tt
    | some i ↦ modify (set_issue (record i { status = IssueStatus.closed }))
  ]

-- The dictionaries `before` and `after` of `admin_override`.
unfoldable pub snapshot_door : Door → AuditSnapshot
snapshot_door d =
    door_snapshot d.status d.reason_id d.comment d.installed_at d.is_locked
      d.installer_rate_snapshot

-- The INSTALLED branch of `admin_override`.
unfoldable pub override_installed : (now company_id door_id : ℕ) → Door → Action Door
unfolding install
override_installed now company_id door_id door = do
  rate ← resolve_installer_rate_snapshot company_id door.installer_id door.door_type_id now
  override_close_issue_of company_id door_id
  pure (install now rate door)

-- The NOT_INSTALLED branch, which takes the lock off.
unfoldable pub override_not_installed :
    (company_id door_id : ℕ) (reason_id : Option ℕ) (comment : Option String) → Door → Action Door
unfolding uninstall
override_not_installed company_id door_id reason_id comment door = do
  reason ← or_raise reason_id (validation_error "reason_id is required for NOT_INSTALLED")
  ensure_reason_exists company_id reason
  open_issue_of company_id door_id "Door not installed (override)" comment
  let door' = uninstall (some reason) comment door
  pure (record door' { is_locked = false })

unfoldable pub admin_override :
    (now : ℕ) → AdminOverrideDoor → (actor_role : String) → Action (Unit {0})
unfolding door_change add_change snapshot_door
admin_override now cmd actor_role = do
  raise_if (not (same_text actor_role "ADMIN")) (forbidden "Admin only")
  found ← query (λ u. find (has_door_key cmd.company_id cmd.door_id) u.doors)
  door ← or_raise found (not_found "Door not found")
  door' ←
      if same_text cmd.new_status "INSTALLED"
      then override_installed now cmd.company_id cmd.door_id door
      else if same_text cmd.new_status "NOT_INSTALLED"
      then override_not_installed cmd.company_id cmd.door_id cmd.reason_id cmd.comment door
      else raise (validation_error "new_status must be INSTALLED or NOT_INSTALLED")
  modify (set_door door')
  modify (λ u. record u {
    audit =
        u.audit
        ++ record {
          company_id = cmd.company_id;
          actor_user_id = cmd.actor_user_id;
          entity_type = "Door";
          entity_id = door'.id;
          action = "ADMIN_OVERRIDE";
          reason = cmd.override_reason;
          before = some (snapshot_door door);
          after = some (snapshot_door door');
          created_at = now;
        }
          ∷ [];
  })
  recalc_and_set cmd.company_id door'.project_id
  modify (add_change (door_change now cmd.company_id door'))
