-- ===== src/Outbox/RetryBulk.antt =====
-- The admin's retry of many messages: `retry_failed_outbox_bulk`
-- (app/modules/outbox/application/admin_service.py). The only ValidationError of a retry is that of a
-- message that was sent, whose details have the status SENT. The entries for the audit log, which the
-- caller writes, are left out.
use dimax_ops_backend.Base.{ℕ, suc, Option, none, some, List, [], ◌∷◌, String, length, unique_from}
use dimax_ops_backend.Domain.{
  Error, forbidden, conflict, value_error, other_error, plan_limit_exceeded, http_error,
  integrity_error, pending_rollback, OutboxMessage,
}
use dimax_ops_backend.Uow.{Result, ok, err, Action, pure, ◌>>=◌}
use dimax_ops_backend.Outbox.Retry.{retry_outbox}

-- `OutboxBulkRetryItemDTO`
pub record OutboxBulkItem : Type 0 where
  pub outbox_id : ℕ
  pub status : String
  pub item : Option OutboxMessage
  pub error : Option String

-- `OutboxBulkRetryResponse`
pub record OutboxBulkResponse : Type 0 where
  pub items : List OutboxBulkItem
  pub total_messages : ℕ
  pub successful_messages : ℕ
  pub failed_messages : ℕ
  pub skipped_messages : ℕ

abbrev pub refused_item : (outbox_id : ℕ) (status error : String) → OutboxBulkItem
refused_item outbox_id status error = record {
  outbox_id = outbox_id;
  status = status;
  item = none;
  error = some error;
}

abbrev with_item : OutboxBulkItem → OutboxBulkResponse → OutboxBulkResponse
with_item item r = record r { items = item ∷ r.items }

-- What the loop's body adds to the answer, or what it raises, by the result of a retry.
unfoldable pub count_retry :
    (outbox_id : ℕ) → Result OutboxMessage → Result (OutboxBulkResponse → OutboxBulkResponse)
count_retry outbox_id (ok message) = ok (λ r.
    record (with_item
      (record { outbox_id = outbox_id; status = "retried"; item = some message; error = none }) r) {
        successful_messages = suc r.successful_messages;
      })
count_retry outbox_id (err (Error.not_found m)) = ok (λ r.
    record (with_item (refused_item outbox_id "failed" m) r) {
      failed_messages = suc r.failed_messages;
    })
count_retry outbox_id (err (Error.validation_error m)) = ok (λ r.
    record (with_item (refused_item outbox_id "skipped" m) r) {
      skipped_messages = suc r.skipped_messages;
    })
count_retry outbox_id (err (Error.forbidden m)) = err (forbidden m)
count_retry outbox_id (err (Error.conflict m)) = err (conflict m)
count_retry outbox_id (err (Error.value_error m)) = err (value_error m)
count_retry outbox_id (err (Error.other_error m)) = err (other_error m)
count_retry outbox_id (err (Error.plan_limit_exceeded m)) = err (plan_limit_exceeded m)
count_retry outbox_id (err (Error.http_error n m)) = err (http_error n m)
count_retry outbox_id (err Error.integrity_error) = err integrity_error
count_retry outbox_id (err Error.pending_rollback) = err pending_rollback

abbrev pub try_retry :
    (now company_id outbox_id : ℕ) → Action (OutboxBulkResponse → OutboxBulkResponse)
try_retry now company_id outbox_id u =
    let (r, v) = retry_outbox now company_id outbox_id u in (count_retry outbox_id r, v)

unfoldable pub retry_each :
    (now company_id total : ℕ) → (outbox_ids : List ℕ) → Action OutboxBulkResponse
unfolding retry_outbox count_retry
retry_each now company_id total [] = pure (record {
  items = [];
  total_messages = total;
  successful_messages = 0;
  failed_messages = 0;
  skipped_messages = 0;
})
retry_each now company_id total (id ∷ ids) = do
  add ← try_retry now company_id id
  rest ← retry_each now company_id total ids
  pure (add rest)

unfoldable pub retry_failed_outbox_bulk :
    (now company_id : ℕ) → (outbox_ids : List ℕ) → Action OutboxBulkResponse
unfolding retry_each
retry_failed_outbox_bulk now company_id outbox_ids =
    let ids = unique_from [] outbox_ids in retry_each now company_id (length ids) ids
