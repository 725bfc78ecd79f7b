-- ===== src/Journals.antt =====
-- Journals of a project: `JournalUseCases` (app/modules/journal/application/use_cases.py), without the
-- export as PDF. A journal is drawn up as a draft, opened to the public by a link, and archived when it
-- is signed. `token` is what `uuid4` draws.
pub mod Signing
pub mod Snapshot
mod Tests
use dimax_ops_backend.Base.{
  ℕ, suc, ◌+◌, Bool, true, false, ◌&&◌, not, Option, none, some, List, [], ◌∷◌, String, ◌==◌,
  if◌then◌else◌, ltb, is_given, is_some, same_text, concat, strip, chars,
}
use dimax_ops_backend.Store.{Table, find, select, add, assign, delete_where}
use dimax_ops_backend.Domain.{
  Journal, JournalStatus, JournalDeliveryStatus, JournalDoorItem, JournalSignature, Door,
  DoorStatus, is_not_installed, not_found, forbidden, conflict, validation_error,
}
use dimax_ops_backend.Uow.{
  Uow, Action, pure, raise, or_raise, query, ◌>>=◌, ◌>>◌, raise_if, modify, new_id, flush_session,
}
use dimax_ops_backend.Doors.{in_project, has_project_key}
use dimax_ops_backend.Outbox.{has_journal_key, set_journal}

abbrev pub is_draft : JournalStatus → Bool
is_draft JournalStatus.draft = true
is_draft JournalStatus.active = false
is_draft JournalStatus.archived = false

abbrev pub is_active_status : JournalStatus → Bool
is_active_status JournalStatus.draft = false
is_active_status JournalStatus.active = true
is_active_status JournalStatus.archived = false

abbrev pub is_item_of : (company_id journal_id : ℕ) → JournalDoorItem → Bool
is_item_of company_id journal_id i = i.company_id == company_id && i.journal_id == journal_id

unfoldable pub item_of : (id company_id journal_id : ℕ) → Door → JournalDoorItem
item_of id company_id journal_id d = record {
  id = id;
  company_id = company_id;
  journal_id = journal_id;
  door_id = d.id;
  unit_label = d.labels.unit_label;
  door_type_id = d.door_type_id;
  installed_at = d.installed_at;
}

-- `[d for d in doors if d.status == DoorStatus.INSTALLED]`
unfoldable pub installed_of : List Door → List Door
installed_of [] = []
installed_of (d ∷ ds) =
    let rest = installed_of ds in if is_not_installed d.status then rest else d ∷ rest

-- The items of the doors, whose keys are drawn one after the other.
unfoldable pub items_of : (id company_id journal_id : ℕ) → List Door → List JournalDoorItem
unfolding item_of
items_of id company_id journal_id [] = []
items_of id company_id journal_id (d ∷ ds) =
    item_of id company_id journal_id d ∷ items_of (suc id) company_id journal_id ds

unfoldable pub add_items : List JournalDoorItem → Table JournalDoorItem → Table JournalDoorItem
add_items [] t = t
add_items (i ∷ is) t = add_items is (add i t)

abbrev pub count_of : List Door → ℕ
count_of [] = 0
count_of (d ∷ ds) = suc (count_of ds)

-- The doors come in the order of the table; the database orders them by their labels.
unfoldable pub refresh_snapshot : (company_id journal_id : ℕ) → Action (Unit {0})
refresh_snapshot company_id journal_id = do
  found ← query (λ u. find (has_journal_key company_id journal_id) u.journals)
  j ← or_raise found (not_found "Journal not found")
  raise_if (not (is_draft j.status)) (conflict "Snapshot can be refreshed only in DRAFT")
  modify (λ u. record u {
    journal_items = delete_where (is_item_of company_id journal_id) u.journal_items;
  })
  doors ← query (λ u. select (in_project company_id j.project_id) u.doors)
  modify (λ u. record u {
    journal_items =
        add_items (items_of u.next_id company_id journal_id (installed_of doors)) u.journal_items;
    next_id = u.next_id + count_of (installed_of doors);
  })
  modify (set_journal (record j { snapshot_version = suc j.snapshot_version }))

unfoldable pub draft_of :
    (id company_id project_id : ℕ) → (title : Option String) → (project_name : String) → Journal
draft_of id company_id project_id title project_name = record {
  id = id;
  company_id = company_id;
  project_id = project_id;
  status = JournalStatus.draft;
  title = if is_given title then title else some (concat "Journal - " project_name);
  public_token = none;
  public_token_expires_at = none;
  signed_at = none;
  signer_name = none;
  snapshot_version = 1;
  email_delivery_status = JournalDeliveryStatus.none;
  whatsapp_delivery_status = JournalDeliveryStatus.none;
  email_last_sent_at = none;
  whatsapp_last_sent_at = none;
  whatsapp_delivered_at = none;
  email_last_error = none;
  whatsapp_last_error = none;
}

unfoldable pub create_draft : (company_id project_id : ℕ) → (title : Option String) → Action ℕ
create_draft company_id project_id title = do
  found ← query (λ u. find (has_project_key company_id project_id) u.projects)
  project ← or_raise found (not_found "Project not found")
  id ← new_id
  modify (λ u. record u {
    journals = add (draft_of id company_id project_id title project.name) u.journals;
  })
  flush_session
  refresh_snapshot company_id id
  pure id

unfoldable pub mark_ready :
    (now ttl_sec company_id journal_id : ℕ) → (token : String) → Action String
mark_ready now ttl_sec company_id journal_id token = do
  found ← query (λ u. find (has_journal_key company_id journal_id) u.journals)
  j ← or_raise found (not_found "Journal not found")
  raise_if (not (is_draft j.status)) (conflict "Only DRAFT journal can be marked ready")
  modify (
      set_journal (record j {
        public_token = some token;
        public_token_expires_at = some (now + ttl_sec);
        status = JournalStatus.active;
      }))
  pure token

abbrev pub has_token : (token : String) → Journal → Bool
has_token token j = elim j.public_token [ none ↦ false | some t ↦ same_text t token ]

-- The WHERE clause of `get_by_token`
abbrev pub is_open_token : (now : ℕ) → (token : String) → Journal → Bool
is_open_token now token j =
    has_token token j
    && elim j.public_token_expires_at [ none ↦ true | some expires ↦ ltb now expires ]

unfoldable pub public_get : (now : ℕ) → (token : String) → Action Journal
public_get now token = do
  found ← query (λ u. find (is_open_token now token) u.journals)
  j ← or_raise found (not_found "Journal link not found")
  raise_if (not (is_active_status j.status)) (forbidden "Journal is not active")
  pure j

-- `has_payload`: the signature is a dictionary that is not empty.
unfoldable pub public_sign :
    (now : ℕ) (token signer_name : String) (has_payload : Bool) → Action (Unit {0})
public_sign now token signer_name has_payload = do
  j ← public_get now token
  raise_if (is_some j.signed_at) (conflict "Journal already signed")
  raise_if (ltb (chars (strip signer_name)) 2) (validation_error "signer_name is required")
  raise_if (not has_payload) (validation_error "signature_payload is required")
  id ← new_id
  modify (λ u. record u {
    journal_signatures =
        add
          (record {
            id = id;
            company_id = j.company_id;
            journal_id = j.id;
            signer_name = strip signer_name;
          })
          u.journal_signatures;
  })
  modify (
      set_journal (record j {
        signed_at = some now;
        signer_name = some (strip signer_name);
        status = JournalStatus.archived;
      }))
