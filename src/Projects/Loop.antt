-- ===== src/Projects/Loop.antt =====
-- What the loop of `import_doors` returns and what it leaves alone.
use dimax_ops_backend.Base.{
  ℕ, ◌+◌, suc, ◌≡◌, ◌∙◌, refl, sym, ap, true, false, ◌++◌, List, [], ◌∷◌, arith, some, length,
  filter, not,
}
use mathlib.Core.List.{append-nil, append_assoc}
use dimax_ops_backend.Store.{Table, add, find, objects}
use dimax_ops_backend.Store.Laws.{objects-add}
use dimax_ops_backend.Domain.{conflict, Door, DoorType, PreparedRow}
use dimax_ops_backend.Uow.{Uow, Action, pure, query, ◌>>=◌, ◌>>◌, raise_if, branch, new_id}
use dimax_ops_backend.Uow.Triples.{
  Holds, pure-Holds, or_raise-Holds, query-Holds, raise_if-Holds, branch-Holds, bind-Holds,
  new_id-Holds,
}
use dimax_ops_backend.Doors.{in_project}
use dimax_ops_backend.Projects.{
  new_doors, add_many, check_type, import_row, count_skipped, append_door, is_skipped, new_door,
  has_door_type_key,
}

-- `v` is `u`, up to the ids that were drawn.
abbrev pub SameBut : Uow → Uow → Type 0
SameBut u v = v ≡ record u { next_id = v.next_id }

-- The door type of a row is there and active.
abbrev pub HasTypeIn : (company_id : ℕ) → Table DoorType → PreparedRow → Type 0
HasTypeIn company_id types r =
    (t : DoorType) × (find (has_door_type_key company_id r.door_type_id) types ≡ some t)
    × (t.is_active ≡ true)

abbrev pub HasType : (company_id : ℕ) → Uow → PreparedRow → Type 0
HasType company_id u = HasTypeIn company_id u.door_types

check_type-Holds :
    (u : Uow) (company_id : ℕ) (r : PreparedRow)
    → Holds (SameBut u) (check_type company_id r.door_type_id) (λ _. HasType company_id u r)
unfolding check_type
check_type-Holds u c r =
    bind-Holds (SameBut u) {P = λ o. o ≡ find (has_door_type_key c r.door_type_id) u.door_types} _ _
      (query-Holds (SameBut u) _
        (λ v i. ap (λ w. find (has_door_type_key c r.door_type_id) w.door_types) i))
      (λ o e.
        bind-Holds (SameBut u) {P = λ t. o ≡ some t} _
          (λ t. raise_if (not t.is_active) (conflict "Door type is inactive"))
          (or_raise-Holds (SameBut u) _ _ (λ a p. p))
          (λ t p.
            raise_if-Holds (SameBut u) _ _
              (λ (q : not t.is_active ≡ false). (t, sym e ∙ p, ground arith))))

-- What the loop has done with the rows: a row found its place taken, or became a door.
pub data Split (company_id project_id : ℕ) (u : Uow)
    : List PreparedRow → List Door × ℕ → Type 0 where
  done : Split company_id project_id u [] ([], 0)
  skip :
      {r : PreparedRow} {rows : List PreparedRow} {ds : List Door} {k : ℕ}
      → HasType company_id u r
      → is_skipped company_id project_id true r u ≡ true
      → Split company_id project_id u rows (ds, k)
      → Split company_id project_id u (r ∷ rows) (ds, suc k)
  create :
      {r : PreparedRow} {rows : List PreparedRow} {ds : List Door} {k : ℕ} (id : ℕ)
      → HasType company_id u r
      → Split company_id project_id u rows (ds, k)
      → Split company_id project_id u (r ∷ rows) (new_door id company_id project_id r ∷ ds, k)

count_skipped-Holds :
    (u : Uow) (company_id project_id : ℕ) (r : PreparedRow) (rows : List PreparedRow)
    (rest : Action (List Door × ℕ))
    → Holds (SameBut u) rest (Split company_id project_id u rows)
    → HasType company_id u r
    → is_skipped company_id project_id true r u ≡ true
    → Holds (SameBut u) (count_skipped rest) (Split company_id project_id u (r ∷ rows))
count_skipped-Holds u c j r rows rest h t b =
    bind-Holds (SameBut u) rest (λ p. pure (p.0, suc p.1)) h
      (λ p d. pure-Holds (SameBut u) (p.0, suc p.1) (skip t b d))

append_door-Holds :
    (u : Uow) (company_id project_id : ℕ) (r : PreparedRow) (rows : List PreparedRow)
    (rest : Action (List Door × ℕ))
    → Holds (SameBut u) rest (Split company_id project_id u rows)
    → HasType company_id u r
    → Holds
        (SameBut u)
        (append_door company_id project_id r rest)
        (Split company_id project_id u (r ∷ rows))
append_door-Holds u c j r rows rest h t =
    bind-Holds (SameBut u) {P = λ _. Unit {0}} new_id
      (λ id. rest >>= λ p. pure (new_door id c j r ∷ p.0, p.1))
      (new_id-Holds (SameBut u) (λ v i. ap {A = Uow} (λ w. record w { next_id = suc v.next_id }) i)
        (λ v i. tt))
      (λ id _.
        bind-Holds (SameBut u) rest (λ p. pure (new_door id c j r ∷ p.0, p.1)) h
          (λ p d. pure-Holds (SameBut u) (new_door id c j r ∷ p.0, p.1) (create id t d)))

import_row-Holds :
    (u : Uow) (company_id project_id : ℕ) (r : PreparedRow) (rows : List PreparedRow)
    (rest : Action (List Door × ℕ))
    → Holds (SameBut u) rest (Split company_id project_id u rows)
    → Holds
        (SameBut u)
        (import_row company_id project_id true r rest)
        (Split company_id project_id u (r ∷ rows))
unfolding import_row
import_row-Holds u c j r rows rest h =
    bind-Holds (SameBut u) {P = λ s. HasType c u r × (s ≡ is_skipped c j true r u)}
      (check_type c r.door_type_id >> query (is_skipped c j true r))
      (λ s. branch s (count_skipped rest) (append_door c j r rest))
      (bind-Holds (SameBut u) (check_type c r.door_type_id) (λ _. query (is_skipped c j true r))
        (check_type-Holds u c r)
        (λ _ t.
          query-Holds (SameBut u) (is_skipped c j true r)
            (λ v i. (t, ap (is_skipped c j true r) i))))
      (λ s e.
        branch-Holds (SameBut u) s (count_skipped rest) (append_door c j r rest)
          (λ b. count_skipped-Holds u c j r rows rest h e.0 (sym e.1 ∙ b))
          (λ b. append_door-Holds u c j r rows rest h e.0))

pub new_doors-Split :
    (u : Uow) (company_id project_id : ℕ) (rows : List PreparedRow)
    → Holds
        (SameBut u)
        (new_doors company_id project_id true rows)
        (Split company_id project_id u rows)
unfolding new_doors
new_doors-Split u c j [] = pure-Holds (SameBut u) _ done
new_doors-Split u c j (r ∷ rows) = import_row-Holds u c j r rows _ (new_doors-Split u c j rows)

pub objects-add_many : (ds : List Door) (t : Table Door) → objects (add_many ds t) ≡ objects t ++ ds
unfolding add_many
objects-add_many [] t = sym (append-nil (objects t))
objects-add_many (d ∷ ds) t =
    objects-add_many ds (add d t)
    ∙ ap (λ xs. xs ++ ds) (objects-add d t)
    ∙ append_assoc (objects t) (d ∷ []) ds

-- Each row is a door or is skipped.
pub Split-length :
    {company_id project_id : ℕ} {u : Uow} {rows : List PreparedRow} {p : List Door × ℕ}
    → Split company_id project_id u rows p
    → length p.0 + p.1 ≡ length rows
Split-length done = refl
Split-length (skip t b d) = omega (arith, Split-length d)
Split-length (create id t d) = omega (arith, Split-length d)

-- The doors are of the project.
pub Split-in_project :
    {company_id project_id : ℕ} {u : Uow} {rows : List PreparedRow} {p : List Door × ℕ}
    → Split company_id project_id u rows p
    → length (filter (in_project company_id project_id) p.0) ≡ length p.0
Split-in_project done = refl
Split-in_project (skip t b d) = Split-in_project d
Split-in_project (create id t d) = ground (arith, Split-in_project d)
