-- ===== src/Projects/Bounds.antt =====
-- The limits of the company's plan bound what the use cases add.
use dimax_ops_backend.Base.{
  ℕ, ◌+◌, ◌≤◌, ◌<◌, ◌≡◌, ◌∙◌, sym, ap, true, some, List, arith, length, ltb, length-filter-append,
  filter, ◌⊎◌, inl, inr, Bool-cases, ltb→lt,
}
use mathlib.Core.Path.{subst, subst⁻¹}
use dimax_ops_backend.Store.{Table, count, find, flush, objects}
use dimax_ops_backend.Store.Laws.{IsClean, count_clean, count-flush}
use dimax_ops_backend.Domain.{CompanyPlan, Door, PreparedRow}
use dimax_ops_backend.Uow.{Uow, ok, flushed}
use dimax_ops_backend.Companies.{of_company, assert_can_add_doors_to_project}
use dimax_ops_backend.Doors.{in_project}
use dimax_ops_backend.Projects.{import_doors, add_many}
use dimax_ops_backend.Projects.Outcome.{
  recalc_and_set-doors, with_doors, add_doors_ok, import_doors_ok,
}
use dimax_ops_backend.Projects.Loop.{SameBut, Split-length, Split-in_project, objects-add_many}

-- The rows of a project after a flush of new doors of it.
count-add_many :
    (company_id project_id : ℕ) (ds : List Door) (t : Table Door)
    → IsClean t
    → length (filter (in_project company_id project_id) ds) ≡ length ds
    → count (in_project company_id project_id) (flush (add_many ds t))
      ≡ count (in_project company_id project_id) t + length ds
count-add_many c j ds t clean h = ground (
  arith,
  count-flush (in_project c j) (add_many ds t),
  count_clean (in_project c j) t clean,
  objects-add_many ds t,
  length-filter-append (in_project c j) (objects t) ds,
)

-- What the check of the plan lets pass.
assert_can_add_doors-le :
    (company_id project_id n : ℕ) (u : Uow) (p : CompanyPlan) (limit : ℕ)
    → find (of_company company_id) u.company_plans ≡ some p
    → p.max_doors_per_project ≡ some limit
    → 0 < n
    → (assert_can_add_doors_to_project company_id project_id n u).0 ≡ ok tt
    → count (in_project company_id project_id) u.doors + n ≤ limit
unfolding assert_can_add_doors_to_project
assert_can_add_doors-le c j n u p limit found max some_doors h = ground arith

added :
    (company_id project_id : ℕ) (rows : List PreparedRow) (u : Uow) (imported skipped : ℕ)
    → (import_doors company_id project_id rows true u).0 ≡ ok (imported, skipped)
    → (ds : List Door) × (v : Uow) × SameBut u v
      × (length ds ≡ imported)
      × (imported + skipped ≡ length rows)
      × (length (filter (in_project company_id project_id) ds) ≡ length ds)
      × ((assert_can_add_doors_to_project company_id project_id imported v).0 ≡ ok tt)
      × ((import_doors company_id project_id rows true u).1.doors ≡ flush (add_many ds u.doors))
unfolding flushed
added c j rows u n k h =
    let went = import_doors_ok c j rows u (n, k) h in
    let end = add_doors_ok c j went.0 went.1 (n, k) went.4 in
    let counted = ap {B = ℕ} (λ x. x.0) end.1 in
    (
      went.0.0,
      went.1,
      went.3,
      sym counted,
      ap {B = ℕ} (λ x. x.0 + x.1) end.1 ∙ Split-length went.2,
      Split-in_project went.2,
      subst (λ m. (assert_can_add_doors_to_project c j m went.1).0 ≡ ok tt) (sym counted) end.0,
      ap (λ w. w.doors) (went.5 ∙ end.2)
          ∙ recalc_and_set-doors c j (flushed (with_doors went.0.0 went.1))
          ∙ ap (λ w. flush (add_many went.0.0 w.doors)) went.3,
    )

-- A successful import of rows into a project, in the mode that skips existing doors, adds one
-- door of the project for each row that it does not skip, and the limit of the company's plan is
-- kept unless the import added nothing. No door has unflushed changes before.
pub import_doors-le :
    (company_id project_id : ℕ) (rows : List PreparedRow) (u : Uow) (imported skipped : ℕ)
    (p : CompanyPlan) (limit : ℕ)
    → IsClean u.doors
    → find (of_company company_id) u.company_plans ≡ some p
    → p.max_doors_per_project ≡ some limit
    → (import_doors company_id project_id rows true u).0 ≡ ok (imported, skipped)
    → (imported + skipped ≡ length rows)
      × (count
            (in_project company_id project_id)
            (import_doors company_id project_id rows true u).1.doors
          ≡ count (in_project company_id project_id) u.doors + imported)
      × ((imported ≡ 0)
          ⊎ (count
                (in_project company_id project_id)
                (import_doors company_id project_id rows true u).1.doors
              ≤ limit))
import_doors-le c j rows u n k p limit clean found max h =
    let (ds, v, same, len, total, own, may, doors) = added c j rows u n k h in
    let counted =
      ap (count (in_project c j)) doors
      ∙ count-add_many c j ds u.doors clean own
      ∙ ap (λ m. count (in_project c j) u.doors + m) len in
    (
      total,
      counted,
      elim (Bool-cases (ltb 0 n)) [
        | inl some_doors ↦ inr (
            subst⁻¹ (λ m. m ≤ limit) counted
              (subst (λ w. count (in_project c j) w.doors + n ≤ limit) same
                (assert_can_add_doors-le c j n v p limit
                  (ap (λ w. find (of_company c) w.company_plans) same ∙ found) max
                  (ltb→lt 0 n some_doors) may)))
        | inr no_doors ↦ inl (ground arith)
      ],
    )
