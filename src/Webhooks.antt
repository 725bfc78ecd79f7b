-- ===== src/Webhooks.antt =====
-- The providers' delivery reports (app/webhooks/delivery_service.py): which message a report is
-- about, whether it came before, and what it does to the message and to its journal.
pub mod Delivered
mod Tests
use dimax_ops_backend.Base.{
  ℕ, ◌+◌, Bool, true, false, ◌&&◌, ◌||◌, not, Option, none, some, List, [], ◌∷◌, String, ◌==◌, leb,
  if◌then◌else◌, is_given, is_some, same_text, codes, clip, strip, any, get_or,
}
use dimax_ops_backend.Store.{find, exists, add}
use dimax_ops_backend.Domain.{
  OutboxMessage, OutboxStatus, OutboxChannel, DeliveryStatus, JournalDeliveryStatus, WebhookEvent,
}
use dimax_ops_backend.Uow.{Uow, Action, pure, query, ◌>>=◌, ◌>>◌, branch, modify}
use dimax_ops_backend.Outbox.{set_email_status, set_whatsapp_status}

abbrev pub same_codes : List ℕ → List ℕ → Bool
same_codes [] [] = true
same_codes [] (d ∷ ds) = false
same_codes (c ∷ cs) [] = false
same_codes (c ∷ cs) (d ∷ ds) = c == d && same_codes cs ds

-- `str.lower` on the characters whose small letter is an ASCII letter alone: the capitals, and the
-- Kelvin sign. It is only compared with words of ASCII letters.
abbrev pub lower_code : ℕ → ℕ
lower_code c = if leb 65 c && leb c 90 then c + 32 else if c == 8490 then 107 else c

abbrev pub lower_codes : List ℕ → List ℕ
lower_codes [] = []
lower_codes (c ∷ cs) = lower_code c ∷ lower_codes cs

abbrev pub delivered_statuses : List String
delivered_statuses = "delivered" ∷ "delivery" ∷ "success" ∷ "completed" ∷ "confirmed" ∷ []

abbrev pub failed_statuses : List String
failed_statuses =
    "failed" ∷ "undelivered" ∷ "bounced" ∷ "bounce" ∷ "dropped" ∷ "blocked" ∷ "rejected"
    ∷ "complained" ∷ "error" ∷ []

-- `value in statuses`, for the stripped text in small letters
unfoldable pub is_in : String → List String → Bool
is_in value statuses = any (λ s. same_codes (lower_codes (codes value)) (codes s)) statuses

unfoldable pub status_to_delivery_status : Option String → DeliveryStatus
status_to_delivery_status none = DeliveryStatus.pending
status_to_delivery_status (some raw) =
    let value = strip raw in
    if is_in value delivered_statuses
    then DeliveryStatus.delivered
    else if is_in value failed_statuses
    then DeliveryStatus.failed
    else DeliveryStatus.pending

-- What a report says of a message.
pub record Report : Type 0 where
  pub provider_message_id : Option String
  pub provider_status : Option String
  pub provider_error : Option String
  pub delivered_at : Option ℕ

abbrev pub is_delivered : DeliveryStatus → Bool
is_delivered DeliveryStatus.delivered = true
is_delivered DeliveryStatus.failed = false
is_delivered DeliveryStatus.pending = false

abbrev pub is_final : DeliveryStatus → Bool
is_final DeliveryStatus.delivered = true
is_final DeliveryStatus.failed = true
is_final DeliveryStatus.pending = false

-- `target_delivered_at`
unfoldable pub target_delivered_at : (now : ℕ) → Report → Option ℕ
target_delivered_at now r =
    if is_delivered (status_to_delivery_status r.provider_status) && not (is_some r.delivered_at)
    then some now
    else r.delivered_at

-- The three `if`s on what the provider sent.
unfoldable pub with_provider : Report → OutboxMessage → OutboxMessage
with_provider r m = record m {
  provider_message_id =
      if is_given r.provider_message_id && not (is_given m.provider_message_id)
      then r.provider_message_id
      else m.provider_message_id;
  provider_status = elim r.provider_status [
    | none ↦ m.provider_status
    | some s ↦ if is_given (some s) then some (clip 40 s) else m.provider_status
  ];
  provider_error = elim r.provider_error [
    | none ↦ m.provider_error
    | some e ↦ if is_given (some e) then some (clip 5000 e) else m.provider_error
  ];
  last_error = elim r.provider_error [
    | none ↦ m.last_error
    | some e ↦ if is_given (some e) then some (clip 5000 e) else m.last_error
  ];
}

-- `if status == DELIVERED: ... elif status == FAILED: ... else: ...`
unfoldable pub with_status :
    DeliveryStatus → (target_delivered_at : Option ℕ) → OutboxMessage → OutboxMessage
with_status DeliveryStatus.delivered target m = record m {
  delivery_status = DeliveryStatus.delivered;
  delivered_at = target;
  status = OutboxStatus.sent;
  last_error = none;
}
with_status DeliveryStatus.failed target m = record m {
  delivery_status =
      if is_delivered m.delivery_status then m.delivery_status else DeliveryStatus.failed;
  status = OutboxStatus.failed;
}
with_status DeliveryStatus.pending target m = record m {
  delivery_status =
      if is_final m.delivery_status then m.delivery_status else DeliveryStatus.pending;
}

unfoldable pub reported : (now : ℕ) → Report → OutboxMessage → OutboxMessage
reported now r m =
    with_status (status_to_delivery_status r.provider_status) (target_delivered_at now r)
      (with_provider r m)

unfoldable pub resolve_message :
    (outbox_id : Option ℕ) → (provider_message_id : Option String) → Action (Option OutboxMessage)
resolve_message (some outbox_id) provider_message_id =
    query (λ u. find (λ m. m.id == outbox_id) u.outbox)
resolve_message none provider_message_id =
    branch (is_given provider_message_id)
      (query (λ u.
        find
          (λ m. elim m.provider_message_id [
            | none ↦ false
            | some s ↦ elim provider_message_id [ none ↦ false | some t ↦ same_text s t ]
          ])
          u.outbox))
      (pure none)

abbrev pub same_company : Option ℕ → Option ℕ → Bool
same_company none none = true
same_company none (some c) = false
same_company (some c) none = false
same_company (some c) (some d) = c == d

abbrev pub is_event :
    (provider event_type external_id : String) → (company_id : Option ℕ) → WebhookEvent → Bool
is_event provider event_type external_id company_id e =
    same_text e.provider provider
    && same_text e.event_type event_type
    && elim e.external_id [ none ↦ false | some s ↦ same_text s external_id ]
    && same_company e.company_id company_id

unfoldable pub is_duplicate_event :
    (provider event_type : String)
    → (external_event_id : Option String) → (company_id : Option ℕ) → Action Bool
is_duplicate_event provider event_type external_event_id company_id =
    branch (is_given external_event_id)
      (query (λ u.
        exists
          (λ e. elim external_event_id [
            | none ↦ false
            | some s ↦ is_event provider event_type s company_id e
          ])
          u.webhook_events))
      (pure false)

unfoldable pub record_webhook_event :
    (company_id : Option ℕ)
    → (provider event_type : String) → (external_event_id : Option String) → (outcome : String)
    → Uow
    → Uow
record_webhook_event company_id provider event_type external_event_id outcome u = record u {
  webhook_events =
      add
        (record {
          company_id = company_id;
          provider = provider;
          event_type = event_type;
          external_id = external_event_id;
          delivery_result = outcome;
        })
        u.webhook_events;
}

-- `(error or message.provider_error or "Delivery failed")[:5000]`
abbrev pub failure_text : (error : Option String) → OutboxMessage → String
failure_text error m = clip 5000 (
    if is_given error
    then elim error [ none ↦ "" | some e ↦ e ]
    else if is_given m.provider_error
    then elim m.provider_error [ none ↦ "" | some e ↦ e ]
    else "Delivery failed")

unfoldable pub sync_journal_delivery :
    OutboxMessage
    → (error : Option String) → (delivered_at : Option ℕ) → (now : ℕ) → Action (Unit {0})
sync_journal_delivery m error delivered_at now = elim m.correlation_id [
  | none ↦ pure tt
  | some j ↦ elim m.channel [
    | OutboxChannel.whatsapp ↦ elim m.delivery_status [
      | DeliveryStatus.delivered ↦
          set_whatsapp_status m.company_id j JournalDeliveryStatus.delivered
            (some (get_or m.sent_at now)) (some (get_or delivered_at now)) none
      | DeliveryStatus.failed ↦
          set_whatsapp_status m.company_id j JournalDeliveryStatus.failed none none
            (some (failure_text error m))
      | DeliveryStatus.pending ↦
          set_whatsapp_status m.company_id j JournalDeliveryStatus.pending
            (some (get_or m.sent_at now)) none none
    ]
    | OutboxChannel.email ↦ elim m.delivery_status [
      | DeliveryStatus.delivered ↦
          set_email_status m.company_id j JournalDeliveryStatus.delivered
            (some (get_or m.sent_at (get_or delivered_at now))) none
      | DeliveryStatus.failed ↦
          set_email_status m.company_id j JournalDeliveryStatus.failed none
            (some (failure_text error m))
      | DeliveryStatus.pending ↦
          set_email_status m.company_id j JournalDeliveryStatus.pending
            (some (get_or m.sent_at now)) none
    ]
  ]
]
