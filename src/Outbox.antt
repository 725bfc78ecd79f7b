-- ===== src/Outbox.antt =====
-- `OutboxRepository` (app/modules/outbox/infrastructure/repositories.py), and the delivery columns
-- of a journal (`JournalRepository`, app/modules/journal/infrastructure/repositories.py).
pub mod Worker
pub mod Batch
pub mod Attempts
pub mod Retry
pub mod RetryBulk
mod Tests
use dimax_ops_backend.Base.{
  ℕ, suc, Bool, true, false, ◌&&◌, Option, none, some, List, [], ◌∷◌, String, ◌==◌, leb,
  if◌then◌else◌, clip, take,
}
use dimax_ops_backend.Store.{Table, select, find, add, assign}
use dimax_ops_backend.Domain.{
  OutboxMessage, OutboxStatus, Journal, JournalDeliveryStatus, MessagePayload,
}
use dimax_ops_backend.Uow.{Uow, Action, query, ◌>>=◌, ◌>>◌, pure, modify}

abbrev pub is_pending : OutboxStatus → Bool
is_pending OutboxStatus.pending = true
is_pending OutboxStatus.sent = false
is_pending OutboxStatus.failed = false

-- The WHERE clause of `lock_next_batch`; without a company every company's messages count.
abbrev pub is_due : (now : ℕ) → (company_id : Option ℕ) → OutboxMessage → Bool
is_due now company_id m =
    is_pending m.status
    && leb m.scheduled_at now
    && elim company_id [ none ↦ true | some c ↦ m.company_id == c ]

-- `ORDER BY created_at ASC`
unfoldable pub insert_by_age : OutboxMessage → List OutboxMessage → List OutboxMessage
insert_by_age m [] = m ∷ []
insert_by_age m (x ∷ xs) =
    let rest = insert_by_age m xs in if leb m.created_at x.created_at then m ∷ x ∷ xs else x ∷ rest

unfoldable pub sort_by_age : List OutboxMessage → List OutboxMessage
sort_by_age [] = []
sort_by_age (x ∷ xs) = insert_by_age x (sort_by_age xs)

unfoldable pub lock_next_batch :
    (now : ℕ) → (company_id : Option ℕ) → (limit : ℕ) → Table OutboxMessage → List OutboxMessage
lock_next_batch now company_id limit t = take limit (sort_by_age (select (is_due now company_id) t))

unfoldable pub mark_sent : (now : ℕ) → OutboxMessage → OutboxMessage
mark_sent now m = record m { status = OutboxStatus.sent; sent_at = some now }

unfoldable pub mark_failed : (error : String) → OutboxMessage → OutboxMessage
mark_failed error m = record m {
  attempts = suc m.attempts;
  last_error = some (clip 5000 error);
  status = if leb m.max_attempts (suc m.attempts) then OutboxStatus.failed else m.status;
}

abbrev pub or_keep : {A : Type 0} → Option A → Option A → Option A
or_keep none old = old
or_keep (some a) old = some a

unfoldable pub set_provider_status :
    (provider_message_id provider_status provider_error : Option String)
    → OutboxMessage
    → OutboxMessage
set_provider_status provider_message_id provider_status provider_error m = record m {
  provider_message_id = or_keep provider_message_id m.provider_message_id;
  provider_status = or_keep provider_status m.provider_status;
  provider_error = elim provider_error [ none ↦ m.provider_error | some e ↦ some (clip 5000 e) ];
}

abbrev pub set_message : OutboxMessage → Uow → Uow
set_message m u = record u { outbox = assign (λ x. x.id == m.id) (λ _. m) u.outbox }

unfoldable pub enqueue : OutboxMessage → Uow → Uow
enqueue m u = record u { outbox = add m u.outbox }

abbrev pub has_journal_key : (company_id journal_id : ℕ) → Journal → Bool
has_journal_key company_id journal_id j = j.company_id == company_id && j.id == journal_id

abbrev pub set_journal : Journal → Uow → Uow
set_journal j u = record u { journals = assign (λ x. x.id == j.id) (λ _. j) u.journals }

unfoldable pub set_email_status :
    (company_id journal_id : ℕ)
    → JournalDeliveryStatus
    → (sent_at : Option ℕ) → (error : Option String) → Action (Unit {0})
set_email_status company_id journal_id status sent_at error = do
  found ← query (λ u. find (has_journal_key company_id journal_id) u.journals)
  elim found [
    | none ↦ pure tt
    | some j ↦ modify (
        set_journal (record j {
          email_delivery_status = status;
          email_last_sent_at = or_keep sent_at j.email_last_sent_at;
          email_last_error = elim error [ none ↦ j.email_last_error | some e ↦ some (clip 5000 e) ];
        }))
  ]

unfoldable pub set_whatsapp_status :
    (company_id journal_id : ℕ)
    → JournalDeliveryStatus
    → (sent_at delivered_at : Option ℕ) → (error : Option String) → Action (Unit {0})
set_whatsapp_status company_id journal_id status sent_at delivered_at error = do
  found ← query (λ u. find (has_journal_key company_id journal_id) u.journals)
  elim found [
    | none ↦ pure tt
    | some j ↦ modify (
        set_journal (record j {
          whatsapp_delivery_status = status;
          whatsapp_last_sent_at = or_keep sent_at j.whatsapp_last_sent_at;
          whatsapp_delivered_at = or_keep delivered_at j.whatsapp_delivered_at;
          whatsapp_last_error = elim error [
            | none ↦ j.whatsapp_last_error
            | some e ↦ some (clip 5000 e)
          ];
        }))
  ]
