-- ===== src/Doors/Effects.antt =====
-- What a use case of the doors has done when it returns, table by table.
use dimax_ops_backend.Base.{
  ℕ, ◌≡◌, refl, true, false, ◌++◌, Option, none, some, [], ◌∷◌, String, arith, inl, inr,
  Option-cases, Bool-cases, ◌==◌, if◌then◌else◌, same_text,
}
use dimax_ops_backend.Store.{find, assign}
use dimax_ops_backend.Domain.{Door, DoorStatus, SyncChangeType, door_state, str_door_status}
use dimax_ops_backend.Uow.{Uow, ok}
use dimax_ops_backend.Doors.{
  MarkDoorInstalled, MarkDoorNotInstalled, AdminOverrideDoor, resolve_installer_rate_snapshot,
  has_door_key, ensure_reason_exists, set_door, recalc_and_set, get_by_keys,
}
use dimax_ops_backend.Doors.UseCases.{
  install, uninstall, get_unlocked, close_issue_of, open_issue_of, override_close_issue_of,
  mark_installed, mark_not_installed, override_installed, override_not_installed, admin_override,
  door_change,
}

-- The price that an installation at `now` is settled at.
abbrev pub rate_at : (now company_id : ℕ) → Door → Uow → Option ℕ
rate_at now company_id d u = elim d.installer_id [
  | none ↦ none
  | some i ↦ elim (get_by_keys company_id i d.door_type_id now u) [
    | none ↦ none
    | some r ↦ some r.price
  ]
]

-- The doors and the changes after `d` became `d'`.
pub record Became (now company_id : ℕ) (d' : Door) (u v : Uow) : Type 0 where
  pub doors : v.doors ≡ assign (λ x. x.id == d'.id) (λ _. d') u.doors
  pub changes : v.pending_changes ≡ u.pending_changes ++ door_change now company_id d' ∷ []

-- A successful mark_installed found an unlocked door, has written that door alone, with the rate
-- in force, and has added one change for the devices.
pub mark_installed-Became :
    (now : ℕ) (cmd : MarkDoorInstalled) (u : Uow)
    → (mark_installed now cmd u).0 ≡ ok tt
    → (d : Door) × (find (has_door_key cmd.company_id cmd.door_id) u.doors ≡ some d)
      × (d.is_locked ≡ false)
      × Became now cmd.company_id
          (install now (rate_at now cmd.company_id d u) d)
          u
          (mark_installed now cmd u).1
unfolding mark_installed get_unlocked resolve_installer_rate_snapshot close_issue_of recalc_and_set
    set_door
mark_installed-Became now cmd u h =
    elim (Option-cases (find (has_door_key cmd.company_id cmd.door_id) u.doors)) [
      | inl missing ↦ absurd (ground arith)
      | inr (d, found) ↦ (d, found, ground arith, ground arith)
    ]

-- The door and its change after an installation at `now`, column by column.
pub record Installed (now company_id : ℕ) (d : Door) (u v : Uow) : Type 0 where
  pub door : Door
  pub columns : door ≡ record d {
    status = DoorStatus.installed;
    installed_at = some now;
    is_locked = true;
    reason_id = none;
    comment = none;
    installer_rate_snapshot = rate_at now company_id d u;
  }
  pub doors : v.doors ≡ assign (λ x. x.id == d.id) (λ _. door) u.doors
  pub changes :
      v.pending_changes
      ≡ u.pending_changes
        ++ record {
          company_id = company_id;
          created_at = now;
          change_type = SyncChangeType.door;
          entity_id = d.id;
          project_id = d.project_id;
          installer_id = d.installer_id;
          payload =
              door_state d.id d.project_id d.door_type_id d.labels
                (str_door_status DoorStatus.installed)
                none
                now;
        }
          ∷ []

-- A successful mark_installed found an unlocked door, has written that door alone, which is
-- installed, locked and has the rate in force, and has added one change for the devices.
pub mark_installed-Installed :
    (now : ℕ) (cmd : MarkDoorInstalled) (u : Uow)
    → (mark_installed now cmd u).0 ≡ ok tt
    → (d : Door) × (find (has_door_key cmd.company_id cmd.door_id) u.doors ≡ some d)
      × (d.is_locked ≡ false)
      × Installed now cmd.company_id d u (mark_installed now cmd u).1
unfolding install door_change
mark_installed-Installed now cmd u h =
    let (d, found, unlocked, became) = mark_installed-Became now cmd u h in
    (
      d,
      found,
      unlocked,
      record {
        door = install now (rate_at now cmd.company_id d u) d;
        columns = refl;
        doors = became.doors;
        changes = became.changes;
      },
    )

pub mark_not_installed-Became :
    (now : ℕ) (cmd : MarkDoorNotInstalled) (u : Uow)
    → (mark_not_installed now cmd u).0 ≡ ok tt
    → (d : Door) × (find (has_door_key cmd.company_id cmd.door_id) u.doors ≡ some d)
      × (d.is_locked ≡ false)
      × Became now cmd.company_id
          (uninstall cmd.reason_id cmd.comment d)
          u
          (mark_not_installed now cmd u).1
unfolding mark_not_installed get_unlocked ensure_reason_exists open_issue_of recalc_and_set set_door
mark_not_installed-Became now cmd u h =
    elim (Option-cases (find (has_door_key cmd.company_id cmd.door_id) u.doors)) [
      | inl missing ↦ absurd (ground arith)
      | inr (d, found) ↦ (d, found, ground arith, ground arith)
    ]

-- The door after an override, whichever status it sets.
abbrev pub overridden : (now : ℕ) → AdminOverrideDoor → Door → Uow → Door
overridden now cmd d u =
    if same_text cmd.new_status "INSTALLED"
    then install now (rate_at now cmd.company_id d u) d
    else record (uninstall cmd.reason_id cmd.comment d) { is_locked = false }

pub admin_override-Became :
    (now : ℕ) (cmd : AdminOverrideDoor) (actor_role : String) (u : Uow)
    → (admin_override now cmd actor_role u).0 ≡ ok tt
    → (d : Door) × (find (has_door_key cmd.company_id cmd.door_id) u.doors ≡ some d)
      × (same_text actor_role "ADMIN" ≡ true)
      × Became now cmd.company_id (overridden now cmd d u) u (admin_override now cmd actor_role u).1
unfolding admin_override override_installed override_not_installed resolve_installer_rate_snapshot
    override_close_issue_of ensure_reason_exists open_issue_of recalc_and_set set_door
admin_override-Became now cmd actor_role u h =
    elim (Option-cases (find (has_door_key cmd.company_id cmd.door_id) u.doors)) [
      | inl missing ↦ absurd (ground arith)
      | inr (d, found) ↦ (
        d,
        found,
        ground arith,
        elim (Bool-cases (same_text cmd.new_status "INSTALLED")) [
          | inl sets ↦ ground arith
          | inr skips ↦ ground arith
        ],
      )
    ]
