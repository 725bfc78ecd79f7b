-- ===== src/Outbox/Retry.antt =====
-- The admin's retry of a message (`retry_outbox`, app/modules/outbox/application/admin_service.py);
-- the snapshots before and after, which the caller writes to the audit log, are left out.
use dimax_ops_backend.Base.{
  ℕ, suc, ◌<◌, ◌≡◌, Bool, true, false, ◌&&◌, none, some, arith, leb, ◌==◌, ==_refl, if◌then◌else◌,
}
use dimax_ops_backend.Store.{find}
use dimax_ops_backend.Store.Laws.{find-assign}
use dimax_ops_backend.Domain.{
  OutboxMessage, OutboxStatus, DeliveryStatus, not_found, validation_error,
}
use dimax_ops_backend.Uow.{Uow, Action, ok, pure, query, or_raise, raise_if, modify, ◌>>=◌, ◌>>◌}
use dimax_ops_backend.Outbox.{is_due, set_message}

abbrev pub has_message_key : (company_id outbox_id : ℕ) → OutboxMessage → Bool
has_message_key company_id outbox_id m = m.company_id == company_id && m.id == outbox_id

abbrev pub is_sent : OutboxStatus → Bool
is_sent OutboxStatus.sent = true
is_sent OutboxStatus.pending = false
is_sent OutboxStatus.failed = false

abbrev pub is_failed : OutboxStatus → Bool
is_failed OutboxStatus.failed = true
is_failed OutboxStatus.sent = false
is_failed OutboxStatus.pending = false

unfoldable pub retried : (now : ℕ) → OutboxMessage → OutboxMessage
retried now m = record m {
  max_attempts =
      if is_failed m.status && leb m.max_attempts m.attempts
      then suc m.attempts
      else m.max_attempts;
  status = OutboxStatus.pending;
  delivery_status = DeliveryStatus.pending;
  scheduled_at = now;
  last_error = none;
  provider_error = none;
}

unfoldable pub retry_outbox : (now company_id outbox_id : ℕ) → Action OutboxMessage
retry_outbox now company_id outbox_id = do
  found ← query (λ u. find (has_message_key company_id outbox_id) u.outbox)
  m ← or_raise found (not_found "Outbox message not found")
  raise_if (is_sent m.status) (validation_error "Cannot retry already sent outbox message")
  modify (set_message (retried now m))
  pure (retried now m)

-- In a healthy session a failed message that an admin retries is due at once and has a try left.
pub retry_outbox-is_due :
    (now company_id outbox_id : ℕ) (m : OutboxMessage) (u : Uow)
    → find (has_message_key company_id outbox_id) u.outbox ≡ some m
    → m.status ≡ OutboxStatus.failed
    → u.broken ≡ false
    → (m' : OutboxMessage) × ((retry_outbox now company_id outbox_id u).0 ≡ ok m')
      × (find
            (has_message_key company_id outbox_id)
            (retry_outbox now company_id outbox_id u).1.outbox
          ≡ some m')
      × (is_due now none m' ≡ true)
      × (m'.attempts ≡ m.attempts)
      × (m'.attempts < m'.max_attempts)
unfolding retry_outbox retried
retry_outbox-is_due now c o m u found failed b =
    let m' : OutboxMessage = retried now m in
    (
      m',
      ground arith,
      ground (
        arith,
        find-assign (has_message_key c o) (λ x. x.id == m'.id) (λ _. m') u.outbox m found,
        ==_refl m.id,
      ),
      ground arith,
      ground arith,
      ground arith,
    )
