-- ===== src/Doors/Tests.antt =====
-- Runs of the use cases of the doors, and the theorems at concrete inputs.
use dimax_ops_backend.Base.{ℕ, ◌≤◌, ◌≡◌, refl, true, false, none, some, [], ◌∷◌, arith, All, List}
use dimax_ops_backend.Store.{violates, find, objects, assign, count, select, flush}
use dimax_ops_backend.Domain.{Door, ProjectStatus}
use dimax_ops_backend.Uow.{ok, with_uow, flush_session, flushed, violates_unique}
use dimax_ops_backend.Doors.{
  MarkDoorInstalled, has_project_key, has_door_key, rate_applies, latest_rate, get_by_keys,
  resolve_installer_rate_snapshot, set_door, recalc_and_set,
}
use dimax_ops_backend.Doors.UseCases.{get_unlocked, close_issue_of, mark_installed}
use dimax_ops_backend.Doors.Lifecycle.{
  Command, install_door, override_door, run, history, AllConsistent, run_atomic,
  history-AllConsistent,
}
use dimax_ops_backend.Doors.Status.{recalc_and_set-true_status, mark_installed_status_lags}
use dimax_ops_backend.Doors.Rates.{get_by_keys_latest}
use dimax_ops_backend.Doors.Effects.{Installed, mark_installed-Installed}
use dimax_ops_backend.Sample.{uow, door, project, rate}

abbrev install_100 : MarkDoorInstalled
install_100 = record { company_id = 1; actor_user_id = 2; door_id = 100 }

abbrev requests : List (ℕ × Command)
requests =
    (60, install_door install_100)
    ∷ (
      61,
      override_door
          (record {
            company_id = 1;
            actor_user_id = 2;
            door_id = 100;
            new_status = "NOT_INSTALLED";
            reason_id = some 5;
            comment = some "damaged";
            override_reason = none;
          })
          "ADMIN",
    )
    ∷ []

mark_installed_100 : (mark_installed 60 install_100 uow).0 ≡ ok tt
unfolding mark_installed get_unlocked resolve_installer_rate_snapshot close_issue_of recalc_and_set
    set_door find latest_rate get_by_keys select assign count
mark_installed_100 = refl

history-AllConsistent_example : AllConsistent (history requests uow)
history-AllConsistent_example = history-AllConsistent requests uow (unfold objects in ground arith)

run_atomic_example :
    let c = install_door (record { company_id = 1; actor_user_id = 2; door_id = 999 }) in
    (run 60 c uow).1 ≡ uow
unfolding run mark_installed get_unlocked find
run_atomic_example =
    run_atomic 60 (install_door (record { company_id = 1; actor_user_id = 2; door_id = 999 })) uow _
      refl

recalc_and_set-true_status_example :
    find (has_project_key 1 10) (recalc_and_set 1 10 uow).1.projects ≡ some project
unfolding find objects
recalc_and_set-true_status_example =
    recalc_and_set-true_status 1 10 uow project refl (refl, (refl, tt)) refl

mark_installed_status_lags_example :
    find (has_project_key 1 10) (mark_installed 60 install_100 uow).1.projects
    ≡ some (record project { status = ProjectStatus.problem })
mark_installed_status_lags_example =
    mark_installed_status_lags 60 install_100 uow (door 100) project (refl, (refl, tt))
      (unfold find in refl) refl (unfold find in refl) mark_installed_100

get_by_keys_latest_example :
    (rate_applies 1 7 3 60 (rate 2 50 17000) ≡ true)
    × All
        (λ s. rate_applies 1 7 3 60 s ≡ true → s.effective_from ≤ 50)
        (objects uow.installer_rates)
get_by_keys_latest_example =
    get_by_keys_latest 1 7 3 60 uow (rate 2 50 17000) (refl, (refl, (refl, tt)))
      (unfold get_by_keys latest_rate select in refl)

-- After both doors of the project were installed, in two requests, it is still stored as PROBLEM.
all_installed_still_problem :
    find
      (has_project_key 1 10)
      (history
        ((60, install_door install_100)
          ∷ (61, install_door (record { company_id = 1; actor_user_id = 2; door_id = 101 }))
          ∷ [])
        uow).projects
    ≡ some project
unfolding history run with_uow flush_session flushed violates_unique mark_installed get_unlocked
    flush resolve_installer_rate_snapshot close_issue_of recalc_and_set set_door find latest_rate
    get_by_keys select assign count objects violates
all_installed_still_problem = refl

mark_installed-Installed_example :
    (d : Door) × (find (has_door_key 1 100) uow.doors ≡ some d)
    × (d.is_locked ≡ false)
    × Installed 60 1 d uow (mark_installed 60 install_100 uow).1
mark_installed-Installed_example = mark_installed-Installed 60 install_100 uow mark_installed_100
