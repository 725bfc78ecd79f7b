-- ===== src/Rates/Bulk.antt =====
-- `bulk_rates` of `InstallerRatesAdminApiService`
-- (app/modules/installers/application/admin_api_service.py): a new price for rates, or their deletion.
pub mod Prices
pub mod InForce
use dimax_ops_backend.Base.{
  ℕ, suc, Bool, true, false, ◌&&◌, not, Option, none, some, List, [], ◌∷◌, String, ◌==◌,
  if◌then◌else◌, is_some, get_or, unique_from, same_text,
}
use dimax_ops_backend.Store.{find}
use dimax_ops_backend.Domain.{http_error, InstallerRate}
use dimax_ops_backend.Uow.{
  Uow, Result, ok, err, Action, pure, raise, query, ◌>>=◌, ◌>>◌, raise_if, branch, modify, new_id,
  flush_session,
}
use dimax_ops_backend.Rates.{
  rate_snapshot, add_entry, has_rate_key, is_version, version_of, add_rate, remove_rate,
}

-- What `bulk_rates` answers.
pub record BulkCounts : Type 0 where
  pub affected : ℕ
  pub not_found : ℕ
  pub unchanged : ℕ

pub data Counted : Type 0 where
  affected not_found unchanged : Counted

unfoldable pub add_count : Counted → BulkCounts → BulkCounts
add_count Counted.affected c = record c { affected = suc c.affected }
add_count Counted.not_found c = record c { not_found = suc c.not_found }
add_count Counted.unchanged c = record c { unchanged = suc c.unchanged }

-- The arguments of `bulk_rates`, with `target_effective_from`.
pub record BulkCall : Type 0 where
  pub now : ℕ
  pub company_id : ℕ
  pub actor_user_id : ℕ
  pub operation : String
  pub price : ℕ
  pub target_effective_from : ℕ

abbrev pub version_exists_text : String
version_exists_text =
    "installer rate version already exists with different price for effective_from"

abbrev pub audit_version : BulkCall → (before row : InstallerRate) → Uow → Uow
audit_version call before row =
    add_entry call.now call.company_id call.actor_user_id row.id "INSTALLER_RATE_CREATE"
      (some "BULK_SET_PRICE") (some (rate_snapshot before)) (some (rate_snapshot row))

-- `operation == "set_price"` on a rate: a new version of it.
unfoldable pub add_version : BulkCall → InstallerRate → Action Counted
add_version call obj = do
  id ← new_id
  let row =
      version_of id call.company_id obj.installer_id obj.door_type_id call.target_effective_from
        call.price
  modify (add_rate row)
  flush_session
  modify (audit_version call obj row)
  pure Counted.affected

unfoldable pub set_price : BulkCall → InstallerRate → Action Counted
unfolding add_version
set_price call obj = do
  existing ← query (λ u.
      find (is_version call.company_id obj.installer_id obj.door_type_id call.target_effective_from)
        u.installer_rates)
  elim existing [
    | none ↦ add_version call obj
    | some version ↦
        branch (version.price == call.price) (pure Counted.unchanged)
          (raise (http_error 409 version_exists_text))
  ]

unfoldable pub delete_one : BulkCall → InstallerRate → Action Counted
delete_one call obj = do
  modify (remove_rate obj.id)
  modify (
      add_entry call.now call.company_id call.actor_user_id obj.id "INSTALLER_RATE_DELETE"
        (some "BULK_DELETE") (some (rate_snapshot obj)) none)
  pure Counted.affected

-- The body of the loop of `bulk_rates`.
unfoldable pub bulk_rate : BulkCall → (rate_id : ℕ) → Action Counted
unfolding set_price delete_one
bulk_rate call rate_id = do
  found ← query (λ u. find (has_rate_key call.company_id rate_id) u.installer_rates)
  elim found [
    | none ↦ pure Counted.not_found
    | some obj ↦ branch (same_text call.operation "set_price") (set_price call obj) (
        branch (same_text call.operation "delete") (delete_one call obj)
          (raise (http_error 422 "unsupported bulk operation")))
  ]

unfoldable pub bulk_loop : BulkCall → (rate_ids : List ℕ) → Action BulkCounts
unfolding bulk_rate add_count
bulk_loop call [] = pure (record { affected = 0; not_found = 0; unchanged = 0 })
bulk_loop call (id ∷ ids) = do
  counted ← bulk_rate call id
  rest ← bulk_loop call ids
  pure (add_count counted rest)

unfoldable pub bulk_rates :
    (now company_id actor_user_id : ℕ) (ids : List ℕ) (operation : String)
    (price effective_from : Option ℕ)
    → Action BulkCounts
unfolding bulk_loop
bulk_rates now company_id actor_user_id ids operation price effective_from = do
  raise_if (same_text operation "set_price" && not (is_some price))
      (http_error 422 "price is required for set_price")
  raise_if (same_text operation "delete" && is_some price)
      (http_error 422 "price must be omitted for delete")
  raise_if (same_text operation "delete" && is_some effective_from)
      (http_error 422 "effective_from must be omitted for delete")
  counts ←
      bulk_loop
        (record {
          now = now;
          company_id = company_id;
          actor_user_id = actor_user_id;
          operation = operation;
          price = get_or price 0;
          target_effective_from = get_or effective_from now;
        })
        (unique_from [] ids)
  flush_session
  pure counts
