-- ===== src/Rates.antt =====
-- The administration of the installers' rates: `InstallerRatesAdminApiService`
-- (app/modules/installers/application/admin_api_service.py) over `RatesAdminService` and
-- `InstallerRatesRepository`. A rate has versions, which hold from an instant on. What the inner
-- service raises is written as the `HTTPException` that the outer one makes of it. `session.delete`
-- is carried out at once: the flush comes before the next query of the row.
pub mod Bulk
mod Tests
use dimax_ops_backend.Base.{
  ℕ, suc, Bool, true, false, ◌&&◌, ◌||◌, not, Option, none, some, List, [], ◌∷◌, ◌++◌, String, ◌==◌,
  if◌then◌else◌, is_some, get_or,
}
use dimax_ops_backend.Store.{Table, find, add, assign, delete_where}
use dimax_ops_backend.Domain.{
  Error, http_error, integrity_error, InstallerRate, Installer, DoorType, AuditLog, AuditSnapshot,
  installer_rate_snapshot,
}
use dimax_ops_backend.Uow.{
  Uow, Result, ok, err, Action, pure, raise, or_raise, query, ◌>>=◌, ◌>>◌, raise_if, branch, modify,
  new_id, flush_session,
}

-- `_installer_rate_snapshot`
abbrev pub rate_snapshot : InstallerRate → AuditSnapshot
rate_snapshot r = installer_rate_snapshot r.installer_id r.door_type_id r.price r.effective_from

-- `AuditService.add` of an entry about a rate.
abbrev pub add_entry :
    (now company_id actor_user_id entity_id : ℕ) (action : String) (reason : Option String)
    (before after : Option AuditSnapshot)
    → Uow
    → Uow
add_entry now company_id actor_user_id entity_id action reason before after u = record u {
  audit =
      u.audit
      ++ record {
        company_id = company_id;
        actor_user_id = actor_user_id;
        entity_type = "installer_rate";
        entity_id = entity_id;
        action = action;
        reason = reason;
        before = before;
        after = after;
        created_at = now;
      }
        ∷ [];
}

-- `InstallerRatesRepository.get`
abbrev pub has_rate_key : (company_id rate_id : ℕ) → InstallerRate → Bool
has_rate_key company_id rate_id r = r.company_id == company_id && r.id == rate_id

-- `get_by_scope_effective_from`
abbrev pub is_version :
    (company_id installer_id door_type_id effective_from : ℕ) → InstallerRate → Bool
is_version company_id installer_id door_type_id effective_from r =
    r.company_id == company_id
    && r.installer_id == installer_id
    && r.door_type_id == door_type_id
    && r.effective_from == effective_from

abbrev pub has_installer_id : (company_id installer_id : ℕ) → Installer → Bool
has_installer_id company_id installer_id i = i.company_id == company_id && i.id == installer_id

abbrev pub has_type_id : (company_id door_type_id : ℕ) → DoorType → Bool
has_type_id company_id door_type_id t = t.company_id == company_id && t.id == door_type_id

unfoldable pub ensure_installer_exists_and_not_deleted :
    (company_id installer_id : ℕ) → Action (Unit {0})
ensure_installer_exists_and_not_deleted company_id installer_id = do
  found ← query (λ u. find (has_installer_id company_id installer_id) u.installers)
  row ← or_raise found (http_error 400 "installer_id invalid or not found")
  raise_if (is_some row.deleted_at) (http_error 400 "installer is deleted")

unfoldable pub ensure_door_type_exists : (company_id door_type_id : ℕ) → Action (Unit {0})
ensure_door_type_exists company_id door_type_id = do
  found ← query (λ u. find (has_type_id company_id door_type_id) u.door_types)
  row ← or_raise found (http_error 400 "door_type_id not found")
  raise_if (is_some row.deleted_at) (http_error 400 "door type is deleted")

-- `InstallerRateCreateDTO`
pub record NewRate : Type 0 where
  pub installer_id : ℕ
  pub door_type_id : ℕ
  pub price : ℕ
  pub effective_from : Option ℕ

abbrev pub version_of :
    (id company_id installer_id door_type_id effective_from price : ℕ) → InstallerRate
version_of id company_id installer_id door_type_id effective_from price = record {
  id = id;
  company_id = company_id;
  installer_id = installer_id;
  door_type_id = door_type_id;
  effective_from = effective_from;
  price = price;
}

abbrev pub add_rate : InstallerRate → Uow → Uow
add_rate r u = record u { installer_rates = add r u.installer_rates }

-- `except IntegrityError as e: raise ...`
abbrev replace_integrity : (e : Error) → Error → Error
replace_integrity e Error.integrity_error = e
replace_integrity e (Error.not_found m) = Error.not_found m
replace_integrity e (Error.forbidden m) = Error.forbidden m
replace_integrity e (Error.conflict m) = Error.conflict m
replace_integrity e (Error.validation_error m) = Error.validation_error m
replace_integrity e (Error.value_error m) = Error.value_error m
replace_integrity e (Error.other_error m) = Error.other_error m
replace_integrity e (Error.plan_limit_exceeded m) = Error.plan_limit_exceeded m
replace_integrity e (Error.http_error n m) = Error.http_error n m
replace_integrity e Error.pending_rollback = Error.pending_rollback

abbrev pub catch_integrity : {A : Type 0} → Error → Action A → Action A
catch_integrity e m u =
    let (r, v) = m u in (elim r [ ok a ↦ ok a | err x ↦ err (replace_integrity e x) ], v)

-- `RatesAdminService.create`
unfoldable pub create_version : (now company_id : ℕ) → NewRate → Action InstallerRate
unfolding ensure_installer_exists_and_not_deleted ensure_door_type_exists
create_version now company_id input = do
  ensure_installer_exists_and_not_deleted company_id input.installer_id
  ensure_door_type_exists company_id input.door_type_id
  let effective_from = get_or input.effective_from now
  existing ← query (λ u.
      find (is_version company_id input.installer_id input.door_type_id effective_from)
        u.installer_rates)
  raise_if (is_some existing)
      (http_error 409 "rate already exists for this installer, door type and effective_from")
  id ← new_id
  let row =
      version_of id company_id input.installer_id input.door_type_id effective_from input.price
  modify (add_rate row)
  flush_session
  pure row

unfoldable pub create_rate : (now company_id actor_user_id : ℕ) → NewRate → Action InstallerRate
unfolding create_version
create_rate now company_id actor_user_id input = do
  row ←
      catch_integrity (http_error 409 "installer rate violates unique constraints")
        (create_version now company_id input)
  flush_session
  modify (
      add_entry now company_id actor_user_id row.id "INSTALLER_RATE_CREATE" none none
        (some (rate_snapshot row)))
  pure row

-- `InstallerRateUpdateDTO`: `price` is `none` when it is not set, and `some none` when it is set to
-- None; an instant that is None is as one that is not set.
pub record RateUpdate : Type 0 where
  pub price : Option (Option ℕ)
  pub effective_from : Option ℕ

unfoldable pub updated : RateUpdate → InstallerRate → InstallerRate
updated patch r = record r {
  price = get_or (get_or patch.price none) r.price;
  effective_from = get_or patch.effective_from r.effective_from;
}

-- The flush of a row whose price is None, which the column refuses.
abbrev refuse_null : RateUpdate → Action (Unit {0}) → Action (Unit {0})
refuse_null patch m =
    branch (is_some patch.price && not (is_some (get_or patch.price none)))
      (λ u. (err integrity_error, record u { broken = true })) m

abbrev pub get_rate : (company_id rate_id : ℕ) → Action InstallerRate
get_rate company_id rate_id = do
  found ← query (λ u. find (has_rate_key company_id rate_id) u.installer_rates)
  or_raise found (http_error 404 "installer rate not found")

unfoldable pub update_rate :
    (now company_id actor_user_id rate_id : ℕ) → RateUpdate → Action InstallerRate
unfolding updated
update_rate now company_id actor_user_id rate_id patch = do
  row ← get_rate company_id rate_id
  modify (λ u. record u {
    installer_rates = assign (λ r. r.id == row.id) (updated patch) u.installer_rates;
  })
  refuse_null patch flush_session
  modify (
      add_entry now company_id actor_user_id row.id "INSTALLER_RATE_UPDATE" none
        (some (rate_snapshot row)) (some (rate_snapshot (updated patch row))))
  pure (updated patch row)

-- `session.delete` of a row.
abbrev pub remove_rate : (id : ℕ) → Uow → Uow
remove_rate id u = record u { installer_rates = delete_where (λ r. r.id == id) u.installer_rates }

unfoldable pub delete_rate : (now company_id actor_user_id rate_id : ℕ) → Action (Unit {0})
delete_rate now company_id actor_user_id rate_id = do
  row ← get_rate company_id rate_id
  modify (remove_rate row.id)
  flush_session
  modify (
      add_entry now company_id actor_user_id rate_id "INSTALLER_RATE_DELETE" none
        (some (rate_snapshot row)) none)
