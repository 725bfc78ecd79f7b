-- ===== src/Webhooks/Tests.antt =====
-- The reports and the duplicates of webhooks at concrete inputs.
use dimax_ops_backend.Base.{strip}
use dimax_ops_backend.Base.{◌≡◌, ◌<◌, true, refl, none, some, [], ◌∷◌}
use dimax_ops_backend.Domain.{OutboxMessage, OutboxStatus, OutboxChannel, DeliveryStatus}
use dimax_ops_backend.Webhooks.{Report, reported, status_to_delivery_status, is_in}
use dimax_ops_backend.Store.{find}
use dimax_ops_backend.Domain.{validation_error}
use dimax_ops_backend.Uow.{Uow, ok, err, empty_uow}
use dimax_ops_backend.Outbox.{is_due}
use dimax_ops_backend.Outbox.Retry.{has_message_key, retry_outbox}
use dimax_ops_backend.Webhooks.{with_status, with_provider}
use dimax_ops_backend.Webhooks.Delivered.{reports, reports-delivered, reported_late_failure-is_due}

abbrev message : OutboxMessage
message = record {
  id = 80;
  company_id = 1;
  created_at = 30;
  channel = OutboxChannel.email;
  status = OutboxStatus.sent;
  correlation_id = none;
  payload = record {
    to_email = some "a@b.c";
    to_phone = none;
    subject = some "Journal";
    body_text = some "Hello";
    media_url = none;
    object_key = none;
    attachment_name = none;
    fallback_email = none;
    fallback_subject = none;
    fallback_body_text = none;
    fallback_reason = none;
  };
  attempts = 0;
  max_attempts = 5;
  last_error = none;
  scheduled_at = 30;
  sent_at = some 40;
  provider_message_id = some "p1";
  provider_status = some "delivered";
  provider_error = none;
  delivery_status = DeliveryStatus.delivered;
  delivered_at = some 45;
}

abbrev late : Report
late = record {
  provider_message_id = some "p1";
  provider_status = some " Bounced ";
  provider_error = some "mailbox full";
  delivered_at = none;
}

reports-delivered_example :
    (reports ((60, late) ∷ (70, late) ∷ []) message).delivery_status ≡ DeliveryStatus.delivered
reports-delivered_example = reports-delivered ((60, late) ∷ (70, late) ∷ []) message refl

late_fails : status_to_delivery_status late.provider_status ≡ DeliveryStatus.failed
unfolding status_to_delivery_status is_in strip
late_fails = refl

abbrev outbox_of : OutboxMessage → Uow
outbox_of m = record empty_uow { outbox = record { stored = some m; live = m } ∷ [] }

late_message_is_found :
    find (has_message_key 1 80) (outbox_of (reported 60 late message)).outbox
    ≡ some (reported 60 late message)
unfolding find reported with_status with_provider status_to_delivery_status is_in strip
late_message_is_found = refl

reported_late_failure-is_due_example :
    let v = outbox_of (reported 60 late message) in
    ((retry_outbox 70 1 80 (outbox_of message)).0
      ≡ err (validation_error "Cannot retry already sent outbox message"))
    × (m' : OutboxMessage) × ((retry_outbox 70 1 80 v).0 ≡ ok m')
    × (find (has_message_key 1 80) (retry_outbox 70 1 80 v).1.outbox ≡ some m')
    × (is_due 70 none m' ≡ true)
    × (m'.attempts < m'.max_attempts)
reported_late_failure-is_due_example =
    reported_late_failure-is_due 60 70 1 80 late message (outbox_of message)
      (outbox_of (reported 60 late message)) refl refl (unfold find in refl) late_message_is_found
      refl refl late_fails
