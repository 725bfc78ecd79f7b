-- ===== src/ChangeLog.antt =====
-- `SyncChangeLogRepository` and `SyncChangeLogGCRepository` (app/modules/sync/infrastructure/
-- repositories.py): the log of changes that the devices of the installers pull by cursor.
pub mod Order
pub mod Pull
pub mod Visible
mod Tests
use dimax_ops_backend.Base.{
  ℕ, suc, ◌<◌, ◌≡◌, Bool, true, false, ◌&&◌, ◌||◌, not, Option, none, some, List, [], ◌∷◌, ◌++◌,
  ◌==◌, ltb, leb, if◌then◌else◌, is_value, is_some, filter, take, elem, map,
}
use dimax_ops_backend.Store.{Table, Entry}
use dimax_ops_backend.Domain.{Change, LoggedChange, Door}
use dimax_ops_backend.Uow.{Uow}

unfoldable pub add_change : Change → Uow → Uow
add_change c u = record u { pending_changes = u.pending_changes ++ c ∷ [] }

-- The values of a column of the rows that the database has.
unfoldable pub column : {A B : Type 0} → (A → Bool) → (A → B) → Table A → List B
column p f [] = []
column p f (e ∷ t) =
    let rest = column p f t in
    elim e.stored [ none ↦ rest | some a ↦ if p a then f a ∷ rest else rest ]

-- The projects where the installer has a door.
unfoldable pub project_ids_of : (company_id installer_id : ℕ) → Uow → List ℕ
project_ids_of company_id installer_id u =
    column (λ (d : Door). d.company_id == company_id && is_value d.installer_id installer_id)
      (λ d. d.project_id) u.doors

-- `scope_filter`: the installer's own changes, and those for everyone in one of its projects.
abbrev pub in_scope : (company_id installer_id : ℕ) → (project_ids : List ℕ) → LoggedChange → Bool
in_scope company_id installer_id project_ids r =
    r.change.company_id == company_id
    && (is_value r.change.installer_id installer_id
        || not (is_some r.change.installer_id) && elem r.change.project_id project_ids)

abbrev pub after : (since_cursor : ℕ) → (LoggedChange → Bool) → LoggedChange → Bool
after since_cursor scope r = ltb since_cursor r.cursor_id && scope r

-- A page of the log, which is in the order of its cursors.
unfoldable pub page :
    (since_cursor limit : ℕ) → (LoggedChange → Bool) → List LoggedChange → List LoggedChange
page since_cursor limit scope log = take limit (filter (after since_cursor scope) log)

unfoldable pub pull_for_installer :
    (company_id installer_id since_cursor limit : ℕ) → Uow → List LoggedChange
unfolding page
pull_for_installer company_id installer_id since_cursor limit u =
    page since_cursor limit
      (in_scope company_id installer_id (project_ids_of company_id installer_id u)) u.change_log

-- `func.min` and `func.max` over the company's rows
unfoldable pub min_of : (company_id : ℕ) → List LoggedChange → Option ℕ
min_of company_id [] = none
min_of company_id (r ∷ log) =
    let rest = min_of company_id log in
    if r.change.company_id == company_id
    then elim rest [
      | none ↦ some r.cursor_id
      | some m ↦ if leb r.cursor_id m then some r.cursor_id else some m
    ]
    else rest

unfoldable pub min_cursor : (company_id : ℕ) → Uow → Option ℕ
unfolding min_of
min_cursor company_id u = min_of company_id u.change_log

unfoldable pub max_of : (company_id : ℕ) → List LoggedChange → ℕ
max_of company_id [] = 0
max_of company_id (r ∷ log) =
    let rest = max_of company_id log in
    if r.change.company_id == company_id
    then if leb rest r.cursor_id then r.cursor_id else rest
    else rest

unfoldable pub max_cursor : (company_id : ℕ) → Uow → ℕ
unfolding max_of
max_cursor company_id u = max_of company_id u.change_log

-- `delete_upto_cursor`: the number of rows deleted is not kept.
unfoldable pub delete_upto :
    (company_id max_cursor_inclusive : ℕ) → List LoggedChange → List LoggedChange
delete_upto company_id max_cursor_inclusive log =
    filter (λ r. not (r.change.company_id == company_id && leb r.cursor_id max_cursor_inclusive))
      log
