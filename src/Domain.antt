-- ===== src/Domain.antt =====
-- The domain errors (app/shared/domain/errors.py), the enumerations of the modules'
-- domain/enums.py, and the rows of the ORM models.
mod Rows
mod Delivery
mod Planning
unfoldable pub use Rows.*
pub use Delivery.*
pub use Planning.*
use dimax_ops_backend.Base.{ℕ, ◌≡◌, refl, Bool, true, false, String}

-- `DomainError` and its subclasses with their message; beside them what other code raises through
-- the services: `IntegrityError` and `PendingRollbackError` of a session, `ValueError`, FastAPI's
-- `HTTPException` with its status and detail, and any other exception. `CompanyPlanLimitExceeded` is a
-- `Conflict` that the services catch by its class.
pub data Error : Type 0 where
  not_found forbidden conflict validation_error value_error other_error : String → Error
  plan_limit_exceeded : String → Error
  http_error : (status_code : ℕ) → (detail : String) → Error
  integrity_error pending_rollback : Error

-- `str(e)`
unfoldable pub message : Error → String
message (not_found m) = m
message (forbidden m) = m
message (conflict m) = m
message (validation_error m) = m
message (value_error m) = m
message (other_error m) = m
message (plan_limit_exceeded m) = m
message (http_error n m) = m
message integrity_error = "IntegrityError"
message pending_rollback = "PendingRollbackError"
