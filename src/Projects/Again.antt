-- ===== src/Projects/Again.antt =====
-- Rows that were imported once are skipped by every later import.
use dimax_ops_backend.Base.{
  ℕ, ◌≡◌, refl, sym, ap, ◌∙◌, Bool, true, false, ◌++◌, List, [], ◌∷◌, arith, some, All, All-map,
  any, length, strip, ==_refl, ◌==◌, ltb, if◌then◌else◌, eq_iff,
}
use mathlib.Core.Path.{subst⁻¹}
use dimax_ops_backend.Store.{Table, count, exists, find, flush, objects}
use dimax_ops_backend.Store.Laws.{
  IsClean, exists-flush, any-append, flush_clean, find-flush, find-assign,
}
use dimax_ops_backend.Domain.{ProjectStatus, Door, DoorType, Project, PreparedRow}
use dimax_ops_backend.Uow.{Uow, ok, Action, pure, ◌>>◌, flushed, flush_session}
use dimax_ops_backend.Companies.{assert_can_add_doors_to_project}
use dimax_ops_backend.Uow.Triples.{bind_step}
use dimax_ops_backend.Doors.{not_installed_in, has_project_key, set_project, recalc_and_set}
use dimax_ops_backend.Projects.{
  at_position, new_door, count_skipped, import_row, new_doors, is_skipped, add_doors, add_many,
  get_project, import_doors,
}
use dimax_ops_backend.Projects.Outcome.{
  add_doors_ok, import_doors_ok, with_doors, recalc_and_set-doors, import_doors-get_project,
}
use dimax_ops_backend.Projects.Loop.{
  HasType, HasTypeIn, Split, done, skip, create, objects-add_many,
}

-- A label that `str.strip` leaves as it is.
abbrev pub IsStripped : PreparedRow → Type 0
IsStripped r = strip r.labels.unit_label ≡ r.labels.unit_label

-- The place of a row is taken by one of the doors.
abbrev IsPlaced : (company_id project_id : ℕ) → List Door → PreparedRow → Type 0
IsPlaced company_id project_id ds r =
    any (at_position company_id project_id (strip r.labels.unit_label) r.door_type_id) ds ≡ true

exists_clean :
    {A : Type 0} (p : A → Bool) (t : Table A) → IsClean t → exists p t ≡ any p (objects t)
exists_clean p t c = ap (exists p) (sym (flush_clean t c)) ∙ exists-flush p t

Split-HasType :
    {company_id project_id : ℕ} {u : Uow} {rows : List PreparedRow} {p : List Door × ℕ}
    → Split company_id project_id u rows p
    → All (HasType company_id u) rows
Split-HasType done = tt
Split-HasType (skip t b d) = (t, Split-HasType d)
Split-HasType (create id t d) = (t, Split-HasType d)

any_weaken :
    {A : Type 0} (p : A → Bool) (xs : List A) (y : A) (ys : List A)
    → any p (xs ++ ys) ≡ true
    → any p (xs ++ y ∷ ys) ≡ true
any_weaken p xs y ys h = ground (arith, any-append p xs ys, any-append p xs (y ∷ ys))

Split-IsPlaced :
    {company_id project_id : ℕ} {u : Uow} {rows : List PreparedRow} {p : List Door × ℕ}
    → IsClean u.doors
    → All IsStripped rows
    → Split company_id project_id u rows p
    → All (IsPlaced company_id project_id (objects u.doors ++ p.0)) rows
Split-IsPlaced clean stripped done = tt
Split-IsPlaced {company_id = c} {project_id = j} {u = u} clean stripped
      (skip {r = r} {rows = rows} {ds = ds} t b d) =
    (
      ground (
        arith,
        any-append (at_position c j (strip r.labels.unit_label) r.door_type_id) (objects u.doors)
            ds,
        exists_clean (at_position c j (strip r.labels.unit_label) r.door_type_id) u.doors clean,
      ),
      Split-IsPlaced clean stripped.1 d,
    )
Split-IsPlaced {company_id = c} {project_id = j} {u = u} clean stripped
      (create {r = r} {rows = rows} {ds = ds} id t d) =
    (
      ground (
        arith,
        any-append (at_position c j (strip r.labels.unit_label) r.door_type_id) (objects u.doors)
            (new_door id c j r ∷ ds),
        stripped.0,
        eq_iff r.labels.unit_label (strip r.labels.unit_label),
        ==_refl c,
        ==_refl j,
        ==_refl r.door_type_id,
      ),
      All-map (λ r h. any_weaken _ (objects u.doors) _ ds h) rows
          (Split-IsPlaced clean stripped.1 d),
    )

import_row_taken :
    (company_id project_id : ℕ) (r : PreparedRow) (rest : Action (List Door × ℕ)) (w : Uow)
    → w.broken ≡ false
    → HasType company_id w r
    → is_skipped company_id project_id true r w ≡ true
    → import_row company_id project_id true r rest w ≡ count_skipped rest w
unfolding import_row
import_row_taken c j r rest w up (t, found, active) taken = ground arith

new_doors_taken :
    (company_id project_id : ℕ) (rows : List PreparedRow) (w : Uow)
    → w.broken ≡ false
    → All (HasType company_id w) rows
    → All (λ r. is_skipped company_id project_id true r w ≡ true) rows
    → new_doors company_id project_id true rows w ≡ (ok ([], length rows), w)
unfolding new_doors
new_doors_taken c j [] w up typed taken = refl
new_doors_taken c j (r ∷ rows) w up typed taken =
    import_row_taken c j r (new_doors c j true rows) w up typed.0 taken.0
    ∙ ap (λ q. count_skipped (λ _. q) w) (new_doors_taken c j rows w up typed.1 taken.1)

-- The project after `recalc_and_set`.
abbrev recalculated : (company_id project_id : ℕ) → Uow → Project → Project
recalculated company_id project_id u p = record p {
  status =
      if ltb 0 (count (not_installed_in company_id project_id) u.doors)
      then ProjectStatus.problem
      else ProjectStatus.ok;
}

abbrev types_of : Uow → Bool × Table DoorType
types_of u = (u.broken, u.door_types)

recalc_and_set-types :
    (company_id project_id : ℕ) (u : Uow)
    → types_of (recalc_and_set company_id project_id u).1 ≡ types_of u
unfolding recalc_and_set set_project
recalc_and_set-types c j u = ground arith

recalc_and_set-find :
    (company_id project_id : ℕ) (u : Uow) (p : Project)
    → u.broken ≡ false
    → find (has_project_key company_id project_id) u.projects ≡ some p
    → (q : Project) × (find
          (has_project_key company_id project_id)
          (recalc_and_set company_id project_id u).1.projects
        ≡ some q)
unfolding recalc_and_set
recalc_and_set-find c j u p up found =
    let q = recalculated c j u p in
    (
      q,
      ground (
        arith,
        find-assign (has_project_key c j) (λ x. x.id == p.id) (λ _. q) u.projects p found
            (==_refl p.id),
      ),
    )

pub get_project_found :
    (company_id project_id : ℕ) (u : Uow) (p : Project)
    → u.broken ≡ false
    → find (has_project_key company_id project_id) u.projects ≡ some p
    → get_project company_id project_id u ≡ (ok p, u)
unfolding get_project
get_project_found c j u p up found = ground arith

add_doors_none :
    (company_id project_id n : ℕ) (u : Uow)
    → add_doors company_id project_id ([], n) u
      ≡ (flush_session >> (recalc_and_set company_id project_id >> pure (0, n))) u
unfolding add_doors add_many assert_can_add_doors_to_project
add_doors_none c j n u = refl

import_doors_taken :
    (company_id project_id n : ℕ) (rows : List PreparedRow) (w : Uow) (q : Project)
    → get_project company_id project_id w ≡ (ok q, w)
    → new_doors company_id project_id true rows w ≡ (ok ([], n), w)
    → import_doors company_id project_id rows true w ≡ add_doors company_id project_id ([], n) w
unfolding import_doors
import_doors_taken c j n rows w q found taken =
    bind_step (get_project c j >> new_doors c j true rows) (add_doors c j) w w ([], n)
      (bind_step (get_project c j) (λ _. new_doors c j true rows) w w q found ∙ taken)

-- What a successful import has left for the next one.
import_doors-left :
    (company_id project_id : ℕ) (rows : List PreparedRow) (u : Uow) (a : ℕ × ℕ)
    → IsClean u.doors
    → IsClean u.door_types
    → IsClean u.projects
    → All IsStripped rows
    → (import_doors company_id project_id rows true u).0 ≡ ok a
    → let w = (import_doors company_id project_id rows true u).1 in
      (types_of w ≡ (false, u.door_types))
      × All (HasType company_id u) rows
      × All (λ r. is_skipped company_id project_id true r w ≡ true) rows
      × ((q : Project) × (find (has_project_key company_id project_id) w.projects ≡ some q))
unfolding flushed
import_doors-left c j rows u a doors types projects stripped h =
    let (found, v, split, same, end, state) = import_doors_ok c j rows u a h in
    let (may, answer, last) = add_doors_ok c j found v a end in
    let z = flushed (with_doors found.0 v) in
    let (p, is_p) = import_doors-get_project c j rows u a h in
    let (q, is_q) = recalc_and_set-find c j z p refl (
      ap (λ x. find (has_project_key c j) (flush x.projects)) same
      ∙ find-flush (has_project_key c j) u.projects projects
      ∙ is_p) in
    let reached = state ∙ last in
    let taken =
      ap (λ x. x.doors) reached
      ∙ recalc_and_set-doors c j z
      ∙ ap (λ x. flush (add_many found.0 x.doors)) same in
    (
      ap types_of reached
          ∙ recalc_and_set-types c j z
          ∙ ap {B = Bool × Table DoorType} (λ x. (false, flush x.door_types)) same
          ∙ ap {B = Bool × Table DoorType} (λ t. (false, t)) (flush_clean u.door_types types),
      Split-HasType split,
      All-map
          (λ r held.
            let place = at_position c j (strip r.labels.unit_label) r.door_type_id in
            ap (exists place) taken
            ∙ exists-flush place (add_many found.0 u.doors)
            ∙ ap (any place) (objects-add_many found.0 u.doors)
            ∙ held)
          rows (Split-IsPlaced doors stripped split),
      (q, ap (λ x. find (has_project_key c j) x.projects) reached ∙ is_q),
    )

-- Once an import of rows that skips existing doors has succeeded, in a session without unflushed
-- doors, door types and projects, importing the same rows again in the same mode adds no door: it
-- only flushes, recalculates the status of the project and answers that every row was skipped.
-- The labels of the rows carry no outer space.
pub import_doors_again :
    (company_id project_id : ℕ) (rows : List PreparedRow) (u : Uow) (a : ℕ × ℕ)
    → IsClean u.doors
    → IsClean u.door_types
    → IsClean u.projects
    → All IsStripped rows
    → (import_doors company_id project_id rows true u).0 ≡ ok a
    → import_doors company_id project_id rows true
        (import_doors company_id project_id rows true u).1
      ≡ (flush_session >> (recalc_and_set company_id project_id >> pure (0, length rows)))
          (import_doors company_id project_id rows true u).1
import_doors_again c j rows u a doors types projects stripped h =
    let w = (import_doors c j rows true u).1 in
    let (kept, typed, placed, (q, found)) =
      import_doors-left c j rows u a doors types projects stripped h in
    let up = ap (λ x. x.0) kept in
    import_doors_taken c j (length rows) rows w q (get_project_found c j w q up found) (
      new_doors_taken c j rows w up
        (All-map (λ r. subst⁻¹ (λ t. HasTypeIn c t r) (ap (λ x. x.1) kept)) rows typed) placed)
    ∙ add_doors_none c j (length rows) w
