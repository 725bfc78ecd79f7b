-- ===== src/Outbox/Tests.antt =====
-- Runs of the worker, and its theorems at concrete inputs.
use dimax_ops_backend.Base.{
  ℕ, ◌≡◌, ◌≤◌, ◌<◌, ◌⊎◌, refl, true, false, none, some, List, [], ◌∷◌, ◌++◌, String, Bool, All,
  length,
}
use dimax_ops_backend.Store.{find, select, assign}
use dimax_ops_backend.Domain.{
  Error, message, OutboxMessage, OutboxStatus, OutboxChannel, DeliveryStatus,
}
use dimax_ops_backend.Uow.{Uow, Result, ok, err}
use dimax_ops_backend.Outbox.{is_due, lock_next_batch}
use dimax_ops_backend.Outbox.Batch.{number, IsSorted, IsOldest, lock_next_batch-IsOldest}
use dimax_ops_backend.Outbox.Worker.{Senders, done, failed, send, process_message}
use dimax_ops_backend.Outbox.Attempts.{
  tries, tries_end, Becomes, process_message-Becomes, WasSent, WasTried,
}
use dimax_ops_backend.Outbox.Retry.{has_message_key, retried, retry_outbox, retry_outbox-is_due}
use dimax_ops_backend.Outbox.RetryBulk.{
  OutboxBulkResponse, count_retry, retry_each, retry_failed_outbox_bulk,
}
use dimax_ops_backend.Sample.{row, uow}

-- The network takes every e-mail and no WhatsApp message.
abbrev senders : Senders
senders = record {
  get_pdf = λ k. done k;
  send_email = λ to subject body payload. done "";
  send_whatsapp = λ to body payload. failed "no credit";
  fallback_to_email = true;
}

abbrev mail : OutboxMessage
mail = record {
  id = 80;
  company_id = 1;
  created_at = 30;
  channel = OutboxChannel.email;
  status = OutboxStatus.pending;
  correlation_id = none;
  payload = record {
    to_email = some "a@b.c";
    to_phone = none;
    subject = some "Journal";
    body_text = some "Hello";
    media_url = none;
    object_key = none;
    attachment_name = none;
    fallback_email = none;
    fallback_subject = none;
    fallback_body_text = none;
    fallback_reason = none;
  };
  attempts = 0;
  max_attempts = 5;
  last_error = none;
  scheduled_at = 30;
  sent_at = none;
  provider_message_id = none;
  provider_status = none;
  provider_error = none;
  delivery_status = DeliveryStatus.pending;
  delivered_at = none;
}

-- A WhatsApp message that may fall back to an e-mail.
abbrev whatsapp : OutboxMessage
whatsapp = record mail {
  id = 81;
  channel = OutboxChannel.whatsapp;
  payload = record mail.payload {
    to_phone = some "+1";
    object_key = some "k";
    fallback_email = some "a@b.c";
  };
}

abbrev busy : Uow
busy = record uow { outbox = row mail ∷ row whatsapp ∷ [] }

tries_end_example :
    ((tries "timeout" 4 mail).status ≡ OutboxStatus.pending)
    × ((tries "timeout" 5 mail).status ≡ OutboxStatus.failed)
    × ((tries "timeout" 5 mail).attempts ≡ 5)
tries_end_example = tries_end "timeout" 4 mail refl refl

lock_next_batch-IsOldest_example :
    let batch = lock_next_batch 60 none 1 busy.outbox in
    (rest : List OutboxMessage) × ((p : OutboxMessage → Bool)
      → number p (batch ++ rest) ≡ number p (select (is_due 60 none) busy.outbox))
    × (length batch ≤ 1)
    × IsSorted batch
    × All (λ m. IsOldest m rest) batch
lock_next_batch-IsOldest_example = lock_next_batch-IsOldest 60 none 1 busy.outbox

-- A message that has used up its tries.
abbrev exhausted : OutboxMessage
exhausted = record mail { status = OutboxStatus.failed; attempts = 5 }

abbrev stuck : Uow
stuck = record uow { outbox = row exhausted ∷ [] }

retry_outbox-is_due_example :
    (m' : OutboxMessage) × ((retry_outbox 70 1 80 stuck).0 ≡ ok m')
    × (find (has_message_key 1 80) (retry_outbox 70 1 80 stuck).1.outbox ≡ some m')
    × (is_due 70 none m' ≡ true)
    × (m'.attempts ≡ 5)
    × (m'.attempts < m'.max_attempts)
retry_outbox-is_due_example =
    retry_outbox-is_due 70 1 80 exhausted stuck (unfold find in refl) refl refl

abbrev counts_of : Result OutboxBulkResponse → ℕ × ℕ × ℕ × ℕ
counts_of (ok r) = (r.total_messages, r.successful_messages, r.failed_messages, r.skipped_messages)
counts_of (err e) = (0, 0, 0, 0)

-- No message has the id 99.
one_of_two : counts_of (retry_failed_outbox_bulk 70 1 (80 ∷ 99 ∷ 80 ∷ []) stuck).0 ≡ (2, 1, 1, 0)
unfolding retry_failed_outbox_bulk retry_each retry_outbox count_retry find assign retried
one_of_two = refl

process_message-Becomes_example :
    ((sid : String) × (send senders mail busy ≡ (ok sid, busy))
      × (m' : OutboxMessage) × WasSent 60 mail m'
      × Becomes m' true (process_message senders 60 mail busy))
    ⊎ ((e : Error) × (send senders mail busy ≡ (err e, busy))
        × (m' : OutboxMessage) × WasTried (message e) mail m'
        × Becomes m' false (process_message senders 60 mail busy))
process_message-Becomes_example =
    process_message-Becomes senders 60 mail busy refl (unfold find in refl)
