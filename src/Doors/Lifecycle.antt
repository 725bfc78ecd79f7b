-- ===== src/Doors/Lifecycle.antt =====
-- The lock of a door, and the history of the doors under the three use cases.
use dimax_ops_backend.Base.{
  ℕ, ◌≡◌, refl, true, false, Option, none, List, [], ◌∷◌, String, arith, All, is_some, inl, inr,
  Bool-cases, ◌==◌, ◌⊎◌, same_text,
}
use dimax_ops_backend.Store.{objects}
use dimax_ops_backend.Store.Laws.{All-assign, objects-flush}
use dimax_ops_backend.Domain.{DoorStatus, Door, Error}
use dimax_ops_backend.Uow.{Uow, Action, ok, err, Result, with_uow, flush_session, flushed}
use dimax_ops_backend.Doors.Atomic.{
  mark_installed_atomic, mark_not_installed_atomic, admin_override_atomic,
}
use dimax_ops_backend.Doors.Effects.{
  rate_at, Became, mark_installed-Became, mark_not_installed-Became, overridden,
  admin_override-Became,
}
use dimax_ops_backend.Doors.{MarkDoorInstalled, MarkDoorNotInstalled, AdminOverrideDoor}
use dimax_ops_backend.Doors.UseCases.{
  install, uninstall, mark_installed, mark_not_installed, admin_override,
}

-- INSTALLED goes with the lock and the time, and has no reason; NOT_INSTALLED has neither.
pub record IsConsistent (d : Door) : Type 0 where
  pub locked : d.status ≡ DoorStatus.installed → d.is_locked ≡ true
  pub timed : d.status ≡ DoorStatus.installed → is_some d.installed_at ≡ true
  pub no_reason : d.status ≡ DoorStatus.installed → (d.reason_id ≡ none) × (d.comment ≡ none)
  pub unlocked : d.status ≡ DoorStatus.not_installed → d.is_locked ≡ false
  pub untimed : d.status ≡ DoorStatus.not_installed → d.installed_at ≡ none
  pub unpriced : d.status ≡ DoorStatus.not_installed → d.installer_rate_snapshot ≡ none

abbrev pub AllConsistent : Uow → Type 0
AllConsistent u = All IsConsistent (objects u.doors)

install-IsConsistent : (now : ℕ) (rate : Option ℕ) (d : Door) → IsConsistent (install now rate d)
unfolding install
install-IsConsistent now rate d = ground arith

uninstall-IsConsistent :
    (reason : Option ℕ) (comment : Option String) (d : Door)
    → d.is_locked ≡ false
    → IsConsistent (uninstall reason comment d)
unfolding uninstall
uninstall-IsConsistent reason comment d h = ground arith

unlock-IsConsistent :
    (reason : Option ℕ) (comment : Option String) (d : Door)
    → IsConsistent (record (uninstall reason comment d) { is_locked = false })
unfolding uninstall
unlock-IsConsistent reason comment d = ground arith

overridden-IsConsistent :
    (now : ℕ) (cmd : AdminOverrideDoor) (d : Door) (u : Uow) → IsConsistent (overridden now cmd d u)
overridden-IsConsistent now cmd d u = elim (Bool-cases (same_text cmd.new_status "INSTALLED")) [
  | inl e ↦ rw e (install-IsConsistent now (rate_at now cmd.company_id d u) d)
  | inr e ↦ rw e (unlock-IsConsistent cmd.reason_id cmd.comment d)
]

Became-AllConsistent :
    {now company_id : ℕ} {d' : Door} {u v : Uow}
    → Became now company_id d' u v
    → IsConsistent d'
    → AllConsistent u
    → AllConsistent v
Became-AllConsistent {d' = d'} {u = u} b c h =
    rw b.doors (All-assign IsConsistent (λ x. x.id == d'.id) d' u.doors h c)

-- A request of the doors' API.
pub data Command : Type 0 where
  install_door : MarkDoorInstalled → Command
  not_installed_door : MarkDoorNotInstalled → Command
  override_door : AdminOverrideDoor → (actor_role : String) → Command

unfoldable pub run : (now : ℕ) → Command → Action (Unit {0})
run now (install_door cmd) = mark_installed now cmd
run now (not_installed_door cmd) = mark_not_installed now cmd
run now (override_door cmd actor_role) = admin_override now cmd actor_role

pub Result-cases : (r : Result (Unit {0})) → (r ≡ ok tt) ⊎ ((e : Error) × (r ≡ err e))
Result-cases (ok tt) = inl refl
Result-cases (err e) = inr (e, refl)

-- A use case of the doors that raises has written nothing.
pub run_atomic :
    (now : ℕ) (c : Command) (u : Uow) (e : Error) → (run now c u).0 ≡ err e → (run now c u).1 ≡ u
unfolding run
run_atomic now (install_door cmd) u e h = mark_installed_atomic now cmd u e h
run_atomic now (not_installed_door cmd) u e h = mark_not_installed_atomic now cmd u e h
run_atomic now (override_door cmd role) u e h = admin_override_atomic now cmd role u e h

run_ok-AllConsistent :
    (now : ℕ) (c : Command) (u : Uow)
    → (run now c u).0 ≡ ok tt
    → AllConsistent u
    → AllConsistent (run now c u).1
unfolding run
run_ok-AllConsistent now (install_door cmd) u h a =
    let (d, found, unlocked, b) = mark_installed-Became now cmd u h in
    Became-AllConsistent b (install-IsConsistent now _ d) a
run_ok-AllConsistent now (not_installed_door cmd) u h a =
    let (d, found, unlocked, b) = mark_not_installed-Became now cmd u h in
    Became-AllConsistent b (uninstall-IsConsistent _ _ d unlocked) a
run_ok-AllConsistent now (override_door cmd role) u h a =
    let (d, found, admin, b) = admin_override-Became now cmd role u h in
    Became-AllConsistent b (overridden-IsConsistent now cmd d u) a

pub run-AllConsistent :
    (now : ℕ) (c : Command) (u : Uow) → AllConsistent u → AllConsistent (run now c u).1
run-AllConsistent now c u a = elim (Result-cases (run now c u).0) [
  | inl done ↦ run_ok-AllConsistent now c u done a
  | inr (e, failed) ↦ rw (run_atomic now c u e failed) a
]

-- A history: each request in a unit of work of its own, at its time.
unfoldable pub history : List (ℕ × Command) → Uow → Uow
history [] u = u
history ((now, c) ∷ cs) u = history cs (with_uow (run now c) u).1

flushed-AllConsistent : (u : Uow) → AllConsistent u → AllConsistent (flushed u)
unfolding flushed
flushed-AllConsistent u a = rw objects-flush a

with_uow-AllConsistent :
    (now : ℕ) (c : Command) (u : Uow) → AllConsistent u → AllConsistent (with_uow (run now c) u).1
unfolding with_uow flush_session
with_uow-AllConsistent now c u a =
    ground (arith, run-AllConsistent now c u a, flushed-AllConsistent (run now c u).1)

-- Whatever requests the doors' API serves, every door stays consistent if every door was:
-- INSTALLED exactly when locked, with the time and without a reason; NOT_INSTALLED without time
-- and price.
pub history-AllConsistent :
    (cs : List (ℕ × Command)) (u : Uow) → AllConsistent u → AllConsistent (history cs u)
unfolding history
history-AllConsistent [] u a = a
history-AllConsistent ((now, c) ∷ cs) u a =
    history-AllConsistent cs (with_uow (run now c) u).1 (with_uow-AllConsistent now c u a)
