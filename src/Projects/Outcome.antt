-- ===== src/Projects/Outcome.antt =====
-- How a successful `import_doors` went, step by step.
use dimax_ops_backend.Base.{ℕ, ◌≡◌, ◌∙◌, refl, sym, ap, true, List, arith, some, length}
use mathlib.Core.Path.{subst⁻¹}
use dimax_ops_backend.Store.{find}
use dimax_ops_backend.Domain.{Door, Project, PreparedRow}
use dimax_ops_backend.Uow.{Uow, ok, flushed, flush_session-cases, ◌>>◌}
use dimax_ops_backend.Uow.Triples.{Holds, bind-Holds, bind_ok}
use dimax_ops_backend.Companies.{assert_can_add_doors_to_project}
use dimax_ops_backend.Doors.{has_project_key, recalc_and_set, set_project}
use dimax_ops_backend.Projects.{import_doors, new_doors, add_doors, add_many, get_project}
use dimax_ops_backend.Projects.Loop.{SameBut, Split, new_doors-Split}

get_project-state :
    (company_id project_id : ℕ) (u : Uow) → (get_project company_id project_id u).1 ≡ u
unfolding get_project
get_project-state c j u = ground arith

assert_can_add_doors-state :
    (company_id project_id n : ℕ) (u : Uow)
    → (assert_can_add_doors_to_project company_id project_id n u).1 ≡ u
unfolding assert_can_add_doors_to_project
assert_can_add_doors-state c j n u = ground arith

pub recalc_and_set-doors :
    (company_id project_id : ℕ) (u : Uow)
    → (recalc_and_set company_id project_id u).1.doors ≡ u.doors
unfolding recalc_and_set set_project
recalc_and_set-doors c j u = ground arith

-- The state that the flush of `add_doors` is given.
abbrev pub with_doors : List Door → Uow → Uow
with_doors ds u = record u { doors = add_many ds u.doors }

pub add_doors_ok :
    (company_id project_id : ℕ) (found : List Door × ℕ) (u : Uow) (a : ℕ × ℕ)
    → (add_doors company_id project_id found u).0 ≡ ok a
    → ((assert_can_add_doors_to_project company_id project_id (length found.0) u).0 ≡ ok tt)
      × (a ≡ (length found.0, found.1))
      × ((add_doors company_id project_id found u).1
          ≡ (recalc_and_set company_id project_id (flushed (with_doors found.0 u))).1)
unfolding add_doors
add_doors_ok c j found u a h = ground (
  arith,
  assert_can_add_doors-state c j (length found.0) u,
  flush_session-cases (with_doors found.0 u),
)

found_project :
    (company_id project_id : ℕ) (u : Uow) (p : Project)
    → (get_project company_id project_id u).0 ≡ ok p
    → find (has_project_key company_id project_id) u.projects ≡ some p
unfolding get_project
found_project c j u p h = ground arith

found_rows-Holds :
    (u : Uow) (company_id project_id : ℕ) (rows : List PreparedRow)
    → Holds
        (SameBut u)
        (get_project company_id project_id >> new_doors company_id project_id true rows)
        (Split company_id project_id u rows)
found_rows-Holds u c j rows =
    bind-Holds (SameBut u) {P = λ _. Unit {0}} (get_project c j) (λ _. new_doors c j true rows)
      (λ v i. (subst⁻¹ (SameBut u) (get_project-state c j v) i, λ _ _. tt))
      (λ _ _. new_doors-Split u c j rows)

-- How an import that returns went: the loop, then the end.
pub import_doors_ok :
    (company_id project_id : ℕ) (rows : List PreparedRow) (u : Uow) (a : ℕ × ℕ)
    → (import_doors company_id project_id rows true u).0 ≡ ok a
    → (found : List Door × ℕ) × (v : Uow) × Split company_id project_id u rows found
      × SameBut u v
      × ((add_doors company_id project_id found v).0 ≡ ok a)
      × ((import_doors company_id project_id rows true u).1
          ≡ (add_doors company_id project_id found v).1)
unfolding import_doors
import_doors_ok c j rows u a h =
    let loop = get_project c j >> new_doors c j true rows in
    let end = bind_ok loop (add_doors c j) u a h in
    let held = found_rows-Holds u c j rows u refl in
    (
      end.0,
      (loop u).1,
      held.1 end.0 end.1,
      held.0,
      sym (ap (λ r. r.0) end.2) ∙ h,
      ap (λ r. r.1) end.2,
    )

-- A successful import has found its project.
pub import_doors-get_project :
    (company_id project_id : ℕ) (rows : List PreparedRow) (u : Uow) (a : ℕ × ℕ)
    → (import_doors company_id project_id rows true u).0 ≡ ok a
    → (p : Project) × (find (has_project_key company_id project_id) u.projects ≡ some p)
unfolding import_doors get_project
import_doors-get_project c j rows u a h =
    let loop = get_project c j >> new_doors c j true rows in
    let end = bind_ok loop (add_doors c j) u a h in
    let start = bind_ok (get_project c j) (λ _. new_doors c j true rows) u end.0 end.1 in
    (start.0, found_project c j u start.0 start.1)
