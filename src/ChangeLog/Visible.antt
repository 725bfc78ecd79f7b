-- ===== src/ChangeLog/Visible.antt =====
-- Whose changes a device may see.
use dimax_ops_backend.Base.{
  ℕ, zero, suc, ◌<◌, ◌≤◌, ◌≡◌, ◌⊎◌, inl, inr, Bool, true, ◌&&◌, Option, none, some, List, [], ◌∷◌,
  arith, All, All-map, filter, take, elem, is_value, ◌==◌, length-take, length, Bool-cases,
  Option-cases,
}
use dimax_ops_backend.Store.{Table}
use dimax_ops_backend.Domain.{Door, LoggedChange}
use dimax_ops_backend.Uow.{Uow}
use dimax_ops_backend.ChangeLog.{after, column, page, in_scope, project_ids_of, pull_for_installer}

-- The database has a door of the installer in the project.
abbrev pub HasDoor : (company_id installer_id project_id : ℕ) → Table Door → Type 0
HasDoor company_id installer_id project_id [] = ⊥
HasDoor company_id installer_id project_id (e ∷ t) =
    ◌⊎◌
      ((d : Door) × (e.stored ≡ some d)
        × (d.company_id ≡ company_id)
        × (d.installer_id ≡ some installer_id)
        × (d.project_id ≡ project_id))
      (HasDoor company_id installer_id project_id t)

-- A change after the cursor, of the company, which is the installer's own or for everyone in a
-- project where the installer has a door.
abbrev pub IsVisible : (company_id installer_id since : ℕ) → Uow → LoggedChange → Type 0
IsVisible company_id installer_id since u r =
    (since < r.cursor_id)
    × (r.change.company_id ≡ company_id)
    × ((r.change.installer_id ≡ some installer_id)
        ⊎ ((r.change.installer_id ≡ none)
            × HasDoor company_id installer_id r.change.project_id u.doors))

is_value→eq : (o : Option ℕ) (n : ℕ) → is_value o n ≡ true → o ≡ some n
is_value→eq o n h = ground arith

-- A project of the list is that of a door.
project_ids-HasDoor :
    (c i p : ℕ) (t : Table Door)
    → elem p (
        column (λ (d : Door). d.company_id == c && is_value d.installer_id i) (λ d. d.project_id) t)
      ≡ true
    → HasDoor c i p t
unfolding column
project_ids-HasDoor c i p [] h = absurd (ground arith)
project_ids-HasDoor c i p (e ∷ t) h = elim (Option-cases e.stored) [
  | inl new ↦ inr (project_ids-HasDoor c i p t (ground arith))
  | inr (d, stored) ↦ elim (Bool-cases (d.company_id == c && is_value d.installer_id i)) [
    | inl mine ↦ elim (Bool-cases (p == d.project_id)) [
      | inl here ↦
          inl (d, stored, ground arith, is_value→eq d.installer_id i (ground arith), ground arith)
      | inr later ↦ inr (project_ids-HasDoor c i p t (ground arith))
    ]
    | inr other ↦ inr (project_ids-HasDoor c i p t (ground arith))
  ]
]

in_scope-IsVisible :
    (c i since : ℕ) (u : Uow) (r : LoggedChange)
    → after since (in_scope c i (project_ids_of c i u)) r ≡ true
    → IsVisible c i since u r
unfolding project_ids_of
in_scope-IsVisible c i since u r h = (
  ground arith,
  ground arith,
  elim (Option-cases r.change.installer_id) [
    | inl everyone ↦
        inr (everyone, project_ids-HasDoor c i r.change.project_id u.doors (ground arith))
    | inr (j, owned) ↦ inl (ground arith)
  ],
)

filter-All : {A : Type 0} (p : A → Bool) (xs : List A) → All (λ x. p x ≡ true) (filter p xs)
filter-All p [] = tt
filter-All p (x ∷ xs) = ground (arith, filter-All p xs)

All-take :
    (P : LoggedChange → Type 0) (n : ℕ) (xs : List LoggedChange) → All P xs → All P (take n xs)
All-take P zero xs a = tt
All-take P (suc n) [] a = tt
All-take P (suc n) (x ∷ xs) a = (a.0, All-take P n xs a.1)

-- A pull answers at most limit changes, all of them after the cursor, of the company, and the
-- installer's own or for everyone in a project where the database has a door of the installer.
pub pull_for_installer-IsVisible :
    (company_id installer_id since limit : ℕ) (u : Uow)
    → (length (pull_for_installer company_id installer_id since limit u) ≤ limit)
      × All
          (IsVisible company_id installer_id since u)
          (pull_for_installer company_id installer_id since limit u)
unfolding pull_for_installer page
pull_for_installer-IsVisible c i since limit u =
    let scope = in_scope c i (project_ids_of c i u) in
    let found = filter (after since scope) u.change_log in
    (
      length-take limit found,
      All-take (IsVisible c i since u) limit found (
          All-map (λ r h. in_scope-IsVisible c i since u r h) found
            (filter-All (after since scope) u.change_log)),
    )
