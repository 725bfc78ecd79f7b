-- ===== src/Outbox/Attempts.antt =====
-- What a pass of the worker makes of a message: sent, or tried once more, until it has been tried
-- `max_attempts` times.
use dimax_ops_backend.Base.{
  ℕ, zero, suc, ◌+◌, ◌≡◌, ◌⊎◌, Bool, true, false, Option, some, String, arith, ◌==◌, inl, inr,
  ==_refl, refl, clip, leb, if◌then◌else◌,
}
use dimax_ops_backend.Store.{find}
use dimax_ops_backend.Store.Laws.{find-assign, find-add}
use dimax_ops_backend.Domain.{
  JournalDeliveryStatus, Error, message, OutboxMessage, OutboxStatus, OutboxChannel,
}
use dimax_ops_backend.Uow.{Uow, Action, Result, Result-split, ok, err}
use dimax_ops_backend.Outbox.{
  mark_sent, mark_failed, set_provider_status, set_message, enqueue, set_email_status,
  set_whatsapp_status,
}
use dimax_ops_backend.Outbox.Worker.{
  Senders, has_fallback, fall_back, send, provided, journal_delivered, answer, required,
  fallback_message, enqueue_whatsapp_fallback_email, on_journal, deliver, journal_failed, fail,
  process_message,
}

-- `n` tries that fail, one after the other.
abbrev pub tries : (error : String) → ℕ → OutboxMessage → OutboxMessage
tries error zero m = m
tries error (suc n) m = tries error n (mark_failed error m)

-- A waiting message whose tries all fail still waits before the last try that max_attempts
-- allows, and has failed after it.
pub tries_end :
    (error : String) (n : ℕ) (m : OutboxMessage)
    → m.status ≡ OutboxStatus.pending
    → m.attempts + suc n ≡ m.max_attempts
    → ((tries error n m).status ≡ OutboxStatus.pending)
      × ((tries error (suc n) m).status ≡ OutboxStatus.failed)
      × ((tries error (suc n) m).attempts ≡ m.max_attempts)
unfolding mark_failed
tries_end error zero m p e = (p, ground arith, omega arith)
tries_end error (suc n) m p e = ground (arith, tries_end error n (mark_failed error m))

abbrev pub has_id : ℕ → OutboxMessage → Bool
has_id id x = x.id == id

-- The action succeeds and changes journals at most.
abbrev pub OnlyJournals : Action (Unit {0}) → Uow → Type 0
OnlyJournals a u = ((a u).0 ≡ ok tt) × ((a u).1.outbox ≡ u.outbox) × ((a u).1.broken ≡ u.broken)

set_email_status-OnlyJournals :
    (c j : ℕ) (status : JournalDeliveryStatus) (at : Option ℕ) (error : Option String) (u : Uow)
    → u.broken ≡ false
    → OnlyJournals (set_email_status c j status at error) u
unfolding set_email_status
set_email_status-OnlyJournals c j status at error u b = ground arith

set_whatsapp_status-OnlyJournals :
    (c j : ℕ) (status : JournalDeliveryStatus) (at delivered : Option ℕ) (error : Option String)
    (u : Uow)
    → u.broken ≡ false
    → OnlyJournals (set_whatsapp_status c j status at delivered error) u
unfolding set_whatsapp_status
set_whatsapp_status-OnlyJournals c j status at delivered error u b = ground arith

journal_delivered-OnlyJournals :
    (now : ℕ) (m : OutboxMessage) (u : Uow)
    → u.broken ≡ false
    → OnlyJournals (journal_delivered now m) u
unfolding journal_delivered on_journal set_email_status set_whatsapp_status
journal_delivered-OnlyJournals now m u b = ground arith

journal_failed-OnlyJournals :
    (m : OutboxMessage) (enqueued : Bool) (error : String) (u : Uow)
    → u.broken ≡ false
    → OnlyJournals (journal_failed m enqueued error) u
unfolding journal_failed on_journal set_email_status set_whatsapp_status
journal_failed-OnlyJournals m enqueued error u b = ground arith

send-state : (s : Senders) (m : OutboxMessage) (u : Uow) → (send s m u).1 ≡ u
unfolding send answer required
send-state s m u = ground arith

send-cases :
    (s : Senders) (m : OutboxMessage) (u : Uow)
    → ((sid : String) × (send s m u ≡ (ok sid, u))) ⊎ ((e : Error) × (send s m u ≡ (err e, u)))
send-cases s m u = Result-split (send s m u) (send-state s m u)

provided-id : (sid : String) (m : OutboxMessage) → (provided sid m).id ≡ m.id
unfolding provided set_provider_status
provided-id sid m = ground arith

-- The message is found with its new columns, and the pass goes on.
abbrev pub Becomes : (m' : OutboxMessage) → (sent : Bool) → (p : Result Bool × Uow) → Type 0
Becomes m' sent p =
    (p.0 ≡ ok sent) × (find (has_id m'.id) p.1.outbox ≡ some m') × (p.1.broken ≡ false)

sent-Becomes :
    (s : Senders) (now : ℕ) (m : OutboxMessage) (u : Uow) (sid : String)
    → u.broken ≡ false
    → find (has_id m.id) u.outbox ≡ some m
    → send s m u ≡ (ok sid, u)
    → Becomes (mark_sent now (provided sid m)) true (process_message s now m u)
unfolding process_message deliver mark_sent
sent-Becomes s now m u sid b found h =
    let m' : OutboxMessage = provided sid m in
    let v : Uow = set_message m' u in
    ground (
      arith,
      provided-id sid m,
      journal_delivered-OnlyJournals now m v,
      find-assign (has_id m.id) (λ x. x.id == m'.id) (λ _. m') u.outbox m found,
      find-assign (has_id m.id) (λ x. x.id == m'.id) (λ _. mark_sent now m') v.outbox m',
      ==_refl m.id,
    )

abbrev pub falls_back : Senders → OutboxMessage → Bool
falls_back s m = elim m.channel [
  | OutboxChannel.email ↦ false
  | OutboxChannel.whatsapp ↦ has_fallback s m
]

fall_back_step :
    (s : Senders) (now : ℕ) (m : OutboxMessage) (error : String) (u : Uow)
    → let p = fall_back s now m error u in
      (p.0 ≡ ok (falls_back s m))
      × (find (has_id m.id) p.1.outbox ≡ find (has_id m.id) u.outbox)
      × (p.1.broken ≡ u.broken)
unfolding fall_back enqueue_whatsapp_fallback_email enqueue
fall_back_step s now m error u =
    ground (arith, find-add (has_id m.id) (fallback_message now u.next_id m error) u.outbox)

failed-Becomes :
    (s : Senders) (now : ℕ) (m : OutboxMessage) (u : Uow) (e : Error)
    → u.broken ≡ false
    → find (has_id m.id) u.outbox ≡ some m
    → send s m u ≡ (err e, u)
    → Becomes (mark_failed (message e) m) false (process_message s now m u)
unfolding process_message deliver fail mark_failed
failed-Becomes s now m u e b found h =
    let m' : OutboxMessage = mark_failed (message e) m in
    let w : Uow = (fall_back s now m (message e) u).1 in
    ground (
      arith,
      fall_back_step s now m (message e) u,
      journal_failed-OnlyJournals m (falls_back s m) (message e) (set_message m' w),
      find-assign (has_id m.id) (λ x. x.id == m'.id) (λ _. m') w.outbox m,
      ==_refl m.id,
    )

-- The message after it was handed over at `now`.
pub record WasSent (now : ℕ) (m m' : OutboxMessage) : Type 0 where
  pub id : m'.id ≡ m.id
  pub status : m'.status ≡ OutboxStatus.sent
  pub sent_at : m'.sent_at ≡ some now
  pub attempts : m'.attempts ≡ m.attempts

-- The message after one more try failed with the error.
pub record WasTried (error : String) (m m' : OutboxMessage) : Type 0 where
  pub id : m'.id ≡ m.id
  pub attempts : m'.attempts ≡ suc m.attempts
  pub last_error : m'.last_error ≡ some (clip 5000 error)
  pub status :
      m'.status ≡ (if leb m.max_attempts (suc m.attempts) then OutboxStatus.failed else m.status)

mark_sent-WasSent :
    (now : ℕ) (sid : String) (m : OutboxMessage) → WasSent now m (mark_sent now (provided sid m))
unfolding mark_sent provided set_provider_status
mark_sent-WasSent now sid m = record {
  id = ground arith;
  status = refl;
  sent_at = refl;
  attempts = ground arith;
}

-- In a healthy session a message of the batch that is found under its id is stored as SENT at
-- that time when its sender answers, and otherwise with one more try and the error, and as FAILED
-- when that was the last try that max_attempts allows; the worker goes on either way.
pub process_message-Becomes :
    (s : Senders) (now : ℕ) (m : OutboxMessage) (u : Uow)
    → u.broken ≡ false
    → find (has_id m.id) u.outbox ≡ some m
    → ((sid : String) × (send s m u ≡ (ok sid, u))
        × (m' : OutboxMessage) × WasSent now m m'
        × Becomes m' true (process_message s now m u))
      ⊎ ((e : Error) × (send s m u ≡ (err e, u))
          × (m' : OutboxMessage) × WasTried (message e) m m'
          × Becomes m' false (process_message s now m u))
unfolding mark_failed
process_message-Becomes s now m u b found = elim (send-cases s m u) [
  | inl (sid, h) ↦ inl (
    sid,
    h,
    mark_sent now (provided sid m),
    mark_sent-WasSent now sid m,
    sent-Becomes s now m u sid b found h,
  )
  | inr (e, h) ↦ inr (
    e,
    h,
    mark_failed (message e) m,
    record { id = refl; attempts = refl; last_error = refl; status = refl },
    failed-Becomes s now m u e b found h,
  )
]
