-- ===== src/Journals/Tests.antt =====
-- The theorems on journals at concrete inputs.
use dimax_ops_backend.Base.{strip}
use dimax_ops_backend.Uow.{flush_session, violates_unique}
use dimax_ops_backend.Store.{add, assign, delete_where, violates}
use dimax_ops_backend.Journals.{add_items}
use dimax_ops_backend.Base.{◌≡◌, refl, true, none, some, [], ◌∷◌, arith}
use dimax_ops_backend.Store.{find, select, objects}
use dimax_ops_backend.Domain.{Error, DoorStatus, Journal, JournalStatus, JournalDeliveryStatus}
use dimax_ops_backend.Uow.{Uow, ok, err, with_uow}
use dimax_ops_backend.Journals.{
  is_item_of, items_of, installed_of, refresh_snapshot, public_get, public_sign,
}
use dimax_ops_backend.Journals.Signing.{public_sign_once}
use dimax_ops_backend.Journals.Snapshot.{
  columns_of_item, columns_of_door, is_installed, refresh_snapshot-columns,
}
use dimax_ops_backend.Base.{map, filter}
use dimax_ops_backend.Doors.{in_project}
use dimax_ops_backend.Sample.{row, door, uow}

abbrev draft : Journal
draft = record {
  id = 60;
  company_id = 1;
  project_id = 10;
  status = JournalStatus.draft;
  title = some "Journal - Tower";
  public_token = none;
  public_token_expires_at = none;
  signed_at = none;
  signer_name = none;
  snapshot_version = 1;
  email_delivery_status = JournalDeliveryStatus.none;
  whatsapp_delivery_status = JournalDeliveryStatus.none;
  email_last_sent_at = none;
  whatsapp_last_sent_at = none;
  whatsapp_delivered_at = none;
  email_last_error = none;
  whatsapp_last_error = none;
}

abbrev ready : Journal
ready = record draft {
  id = 61;
  status = JournalStatus.active;
  public_token = some "abc";
  public_token_expires_at = some 900;
}

-- The door 100 is installed.
abbrev busy : Uow
busy = record uow {
  doors =
      row (record (door 100) { status = DoorStatus.installed; installed_at = some 50 })
      ∷ row (door 101)
      ∷ [];
  journals = row draft ∷ row ready ∷ [];
}

signs : (with_uow (public_sign 60 "abc" "Dana" true) busy).0 ≡ ok tt
unfolding with_uow public_sign public_get find strip add assign flush_session violates_unique
    violates objects
signs = refl

public_sign_once_example :
    let v = (with_uow (public_sign 60 "abc" "Dana" true) busy).1 in
    (e : Error) × (public_get 70 "abc" v ≡ (err e, v))
    × (public_sign 70 "abc" "Noa" true v ≡ (err e, v))
public_sign_once_example =
    public_sign_once 60 70 "abc" "Dana" "Noa" true true ready busy (unfold find in refl)
      (unfold objects in (λ h. absurd (ground arith), (λ _. refl, tt))) signs

refreshes : (with_uow (refresh_snapshot 1 60) busy).0 ≡ ok tt
unfolding with_uow refresh_snapshot find flush_session violates_unique violates objects add_items
    items_of installed_of select add delete_where assign
refreshes = refl

refresh_snapshot-columns_example :
    (draft.status ≡ JournalStatus.draft)
    × (map columns_of_item
          (select (is_item_of 1 60) (with_uow (refresh_snapshot 1 60) busy).1.journal_items)
        ≡ map columns_of_door
            (filter (λ d. is_installed d.status) (select (in_project 1 10) busy.doors)))
refresh_snapshot-columns_example =
    refresh_snapshot-columns 1 60 draft busy tt (unfold find in refl) refreshes
