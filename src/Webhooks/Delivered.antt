-- ===== src/Webhooks/Delivered.antt =====
-- What later reports may do to a message that was delivered, and repeated reports.
use dimax_ops_backend.Base.{ℕ, ◌<◌, ◌≡◌, true, false, none, some, List, [], ◌∷◌, arith}
use dimax_ops_backend.Store.{find}
use dimax_ops_backend.Domain.{OutboxMessage, OutboxStatus, DeliveryStatus, validation_error}
use dimax_ops_backend.Uow.{Uow, ok, err}
use dimax_ops_backend.Outbox.{is_due}
use dimax_ops_backend.Outbox.Retry.{has_message_key, retry_outbox, retry_outbox-is_due}
use dimax_ops_backend.Webhooks.{
  Report, reported, with_status, with_provider, status_to_delivery_status,
}

-- The reports of a message, each at its time.
unfoldable pub reports : List (ℕ × Report) → OutboxMessage → OutboxMessage
reports [] m = m
reports ((now, r) ∷ rs) m = reports rs (reported now r m)

reported-delivered :
    (now : ℕ) (r : Report) (m : OutboxMessage)
    → m.delivery_status ≡ DeliveryStatus.delivered
    → (reported now r m).delivery_status ≡ DeliveryStatus.delivered
unfolding reported with_status with_provider
reported-delivered now r m d = ground arith

-- A message that was delivered stays so whatever its provider reports afterwards.
pub reports-delivered :
    (rs : List (ℕ × Report)) (m : OutboxMessage)
    → m.delivery_status ≡ DeliveryStatus.delivered
    → (reports rs m).delivery_status ≡ DeliveryStatus.delivered
unfolding reports
reports-delivered [] m d = d
reports-delivered ((now, r) ∷ rs) m d =
    reports-delivered rs (reported now r m) (reported-delivered now r m d)

-- A report of failure after the delivery leaves the delivery DELIVERED and the status FAILED.
reported_late_failure :
    (now : ℕ) (r : Report) (m : OutboxMessage)
    → m.delivery_status ≡ DeliveryStatus.delivered
    → status_to_delivery_status r.provider_status ≡ DeliveryStatus.failed
    → ((reported now r m).delivery_status ≡ DeliveryStatus.delivered)
      × ((reported now r m).status ≡ OutboxStatus.failed)
unfolding reported with_status with_provider
reported_late_failure now r m d f = ground arith

-- In healthy sessions an admin's retry of a sent and delivered message is refused, but when its
-- provider has reported a failure after the delivery the retry is accepted and the message is due
-- again with a try left.
pub reported_late_failure-is_due :
    (now later company_id outbox_id : ℕ) (r : Report) (m : OutboxMessage) (u v : Uow)
    → u.broken ≡ false
    → v.broken ≡ false
    → find (has_message_key company_id outbox_id) u.outbox ≡ some m
    → find (has_message_key company_id outbox_id) v.outbox ≡ some (reported now r m)
    → m.status ≡ OutboxStatus.sent
    → m.delivery_status ≡ DeliveryStatus.delivered
    → status_to_delivery_status r.provider_status ≡ DeliveryStatus.failed
    → ((retry_outbox later company_id outbox_id u).0
        ≡ err (validation_error "Cannot retry already sent outbox message"))
      × (m' : OutboxMessage) × ((retry_outbox later company_id outbox_id v).0 ≡ ok m')
      × (find
            (has_message_key company_id outbox_id)
            (retry_outbox later company_id outbox_id v).1.outbox
          ≡ some m')
      × (is_due later none m' ≡ true)
      × (m'.attempts < m'.max_attempts)
unfolding retry_outbox
reported_late_failure-is_due now later c o r m u v b b' before after sent d f =
    let (kept, failed) = reported_late_failure now r m d f in
    let (m', done, found, due, same, left) =
      retry_outbox-is_due later c o (reported now r m) v after failed b' in
    (ground arith, m', done, found, due, left)
