-- ===== src/Outbox/Worker.antt =====
-- The worker that sends the messages (app/workers/outbox_worker.py). What the senders and the
-- storage of app/integrations answer over the network is an argument.
use dimax_ops_backend.Base.{
  ℕ, suc, Bool, true, false, ◌&&◌, Option, none, some, List, [], ◌∷◌, String, if◌then◌else◌,
  is_given, clip,
}
use dimax_ops_backend.Domain.{
  message, other_error, OutboxMessage, OutboxStatus, OutboxChannel, DeliveryStatus,
  JournalDeliveryStatus, MessagePayload,
}
use dimax_ops_backend.Uow.{
  Action, ok, err, pure, raise, ◌>>=◌, ◌>>◌, branch, modify, new_id, with_uow,
}
use dimax_ops_backend.Outbox.{
  lock_next_batch, mark_sent, mark_failed, set_provider_status, set_message, enqueue,
  set_email_status, set_whatsapp_status,
}

-- An answer of the network: a value, or the text of the exception.
pub data Answer : Type 0 where
  done : (sid : String) → Answer
  failed : (error : String) → Answer

pub record Senders : Type 0 where
  pub get_pdf : (object_key : String) → Answer
  pub send_email : (to_email subject body_text : String) → MessagePayload → Answer
  pub send_whatsapp : (to_phone body_text : String) → MessagePayload → Answer
  pub fallback_to_email : Bool  -- `settings.WHATSAPP_FALLBACK_TO_EMAIL`

unfoldable pub answer : Answer → Action String
answer (done sid) = pure sid
answer (failed error) = raise (other_error error)

-- `payload[key]`
unfoldable pub required : Option String → (key_error : String) → Action String
required none key_error = raise (other_error key_error)
required (some s) key_error = pure s

abbrev pub text_or : Option String → String → String
text_or o d = if is_given o then (elim o [ none ↦ d | some s ↦ s ]) else d

unfoldable pub fallback_message : (now id : ℕ) → OutboxMessage → (error : String) → OutboxMessage
fallback_message now id m error = record {
  id = id;
  company_id = m.company_id;
  created_at = now;
  channel = OutboxChannel.email;
  status = OutboxStatus.pending;
  correlation_id = m.correlation_id;
  payload = record {
    to_email = m.payload.fallback_email;
    to_phone = none;
    subject = some (text_or m.payload.fallback_subject "Journal delivery");
    body_text =
        some (text_or m.payload.fallback_body_text "WhatsApp delivery failed; PDF sent by email.");
    media_url = none;
    object_key = m.payload.object_key;
    attachment_name = m.payload.attachment_name;
    fallback_email = none;
    fallback_subject = none;
    fallback_body_text = none;
    fallback_reason = some (clip 500 error);
  };
  attempts = 0;
  max_attempts = 5;
  last_error = none;
  scheduled_at = now;
  sent_at = none;
  provider_message_id = none;
  provider_status = none;
  provider_error = none;
  delivery_status = DeliveryStatus.pending;
  delivered_at = none;
}

abbrev pub has_fallback : Senders → OutboxMessage → Bool
has_fallback s m =
    s.fallback_to_email && is_given m.payload.fallback_email && is_given m.payload.object_key

unfoldable pub enqueue_whatsapp_fallback_email :
    Senders → (now : ℕ) → OutboxMessage → (error : String) → Action Bool
enqueue_whatsapp_fallback_email s now m error =
    branch (has_fallback s m)
      (do id ← new_id; modify (enqueue (fallback_message now id m error)); pure true) (pure false)

-- `if m.correlation_id:`
unfoldable pub on_journal : OutboxMessage → (ℕ → Action (Unit {0})) → Action (Unit {0})
on_journal m f = elim m.correlation_id [ none ↦ pure tt | some j ↦ f j ]

-- The call of the sender, with what it reads of the payload before; it answers the provider's id.
unfoldable pub send : Senders → OutboxMessage → Action String
send s m = elim m.channel [
  | OutboxChannel.email ↦ do
    branch (is_given m.payload.object_key)
        (answer (elim m.payload.object_key [ none ↦ done "" | some k ↦ s.get_pdf k ])) (pure "")
    to_email ← required m.payload.to_email "'to_email'"
    subject ← required m.payload.subject "'subject'"
    body_text ← required m.payload.body_text "'body_text'"
    answer (s.send_email to_email subject body_text m.payload)
  | OutboxChannel.whatsapp ↦ do
    to_phone ← required m.payload.to_phone "'to_phone'"
    body_text ← required m.payload.body_text "'body_text'"
    answer (s.send_whatsapp to_phone body_text m.payload)
]

-- The message with what the provider answered.
unfoldable pub provided : (sid : String) → OutboxMessage → OutboxMessage
provided sid m = elim m.channel [
  | OutboxChannel.email ↦ m
  | OutboxChannel.whatsapp ↦ set_provider_status (some sid) (some "created") none m
]

-- What the delivery of a message tells its journal.
unfoldable pub journal_delivered : (now : ℕ) → OutboxMessage → Action (Unit {0})
journal_delivered now m = on_journal m (λ j. elim m.channel [
  | OutboxChannel.email ↦
      set_email_status m.company_id j JournalDeliveryStatus.delivered (some now) none
  | OutboxChannel.whatsapp ↦
      set_whatsapp_status m.company_id j JournalDeliveryStatus.pending (some now) none none
])

-- The body of the `try`, up to `mark_sent`; it answers the message as it is then. An e-mail's
-- object is written with the columns that it has.
unfoldable pub deliver : Senders → (now : ℕ) → OutboxMessage → Action OutboxMessage
deliver s now m = do
  sid ← send s m
  modify (set_message (provided sid m))
  journal_delivered now m
  pure (provided sid m)

-- What the failure of a message tells its journal.
unfoldable pub journal_failed :
    OutboxMessage → (fallback_enqueued : Bool) → (error : String) → Action (Unit {0})
journal_failed m fallback_enqueued error = on_journal m (λ j. elim m.channel [
  | OutboxChannel.email ↦
      set_email_status m.company_id j JournalDeliveryStatus.failed none (some error)
  | OutboxChannel.whatsapp ↦
      branch fallback_enqueued
        (set_email_status m.company_id j JournalDeliveryStatus.pending none none) (pure tt)
      >> set_whatsapp_status m.company_id j JournalDeliveryStatus.failed none none (some error)
])

-- `if m.channel == OutboxChannel.WHATSAPP: ...`
unfoldable pub fall_back : Senders → (now : ℕ) → OutboxMessage → (error : String) → Action Bool
fall_back s now m error = elim m.channel [
  | OutboxChannel.email ↦ pure false
  | OutboxChannel.whatsapp ↦ enqueue_whatsapp_fallback_email s now m error
]

-- The `except` block.
unfoldable pub fail : Senders → (now : ℕ) → OutboxMessage → (error : String) → Action (Unit {0})
fail s now m error = do
  fallback_enqueued ← fall_back s now m error
  modify (set_message (mark_failed error m))
  journal_failed m fallback_enqueued error

-- One turn of the loop: whether the message was sent.
unfoldable pub process_message : Senders → (now : ℕ) → OutboxMessage → Action Bool
process_message s now m u =
    let (r, v) = deliver s now m u in
    elim r [
      | ok m' ↦ (ok true, set_message (mark_sent now m') v)
      | err e ↦ (fail s now m (message e) >> pure false) v
    ]

-- The number of messages that were sent.
unfoldable pub process_all : Senders → (now : ℕ) → List OutboxMessage → Action ℕ
process_all s now [] = pure 0
process_all s now (m ∷ ms) = do
  sent ← process_message s now m
  n ← process_all s now ms
  pure (if sent then suc n else n)

unfoldable pub run_once : Senders → (now limit : ℕ) → Action ℕ
run_once s now limit = with_uow (λ u. process_all s now (lock_next_batch now none limit u.outbox) u)
