-- ===== src/Uow.antt =====
-- `SqlAlchemyUnitOfWork` (app/shared/infrastructure/db/uow_sqlalchemy.py) over the tables of
-- Store, and the actions that the services run in it: a call that raises keeps what it wrote.
pub mod Triples
use dimax_ops_backend.Base.{
  arith, ◌≡◌, refl, ◌⊎◌, inl, inr, ap, Bool-cases, ℕ, suc, Bool, true, false, ◌&&◌, ◌||◌, Option,
  none, some, List, [], ◌∷◌, ◌++◌, ◌==◌, if◌then◌else◌, same_text, length,
}
use dimax_ops_backend.Store.{Table, flush, violates, objects}
use dimax_ops_backend.Domain.{
  Error, integrity_error, pending_rollback, Door, Project, Issue, Reason, InstallerRate, AddonType,
  AddonPlan, AddonFact, SyncEvent, SyncState, Change, LoggedChange, OutboxMessage, Journal,
  JournalDoorItem, JournalSignature, WebhookEvent, AuditLog, RefreshToken, User, DoorType,
  Installer, CompanyPlan, ImportRun, FileToken, FileDownloadEvent,
}

pub record Uow : Type 0 where
  pub doors : Table Door
  pub projects : Table Project
  pub issues : Table Issue
  pub reasons : Table Reason
  pub installer_rates : Table InstallerRate
  pub addon_types : Table AddonType
  pub addon_plans : Table AddonPlan
  pub addon_facts : Table AddonFact
  pub sync_events : Table SyncEvent
  pub sync_state : Table SyncState
  pub change_log : List LoggedChange  -- the flushed rows, in the order of their cursors
  pub pending_changes : List Change
  pub next_cursor : ℕ  -- the next value of `sync_cursor_seq`
  pub outbox : Table OutboxMessage
  pub journals : Table Journal
  pub journal_items : Table JournalDoorItem
  pub journal_signatures : Table JournalSignature
  pub webhook_events : Table WebhookEvent
  pub audit : List AuditLog
  pub audit_flushed : ℕ  -- how many of them the database has
  pub refresh_tokens : Table RefreshToken
  pub users : Table User
  pub door_types : Table DoorType
  pub installers : Table Installer
  pub company_plans : Table CompanyPlan
  pub project_import_runs : Table ImportRun
  pub file_tokens : Table FileToken
  pub file_download_events : Table FileDownloadEvent
  pub next_id : ℕ  -- the next primary key
  pub broken : Bool  -- a flush has failed: objects are expired, and the session waits for a rollback

-- The first session of an empty database.
abbrev pub empty_uow : Uow
empty_uow = record {
  doors = [];
  projects = [];
  issues = [];
  reasons = [];
  installer_rates = [];
  addon_types = [];
  addon_plans = [];
  addon_facts = [];
  sync_events = [];
  sync_state = [];
  change_log = [];
  pending_changes = [];
  next_cursor = 1;
  outbox = [];
  journals = [];
  journal_items = [];
  journal_signatures = [];
  webhook_events = [];
  audit = [];
  audit_flushed = 0;
  refresh_tokens = [];
  users = [];
  door_types = [];
  installers = [];
  company_plans = [];
  project_import_runs = [];
  file_tokens = [];
  file_download_events = [];
  next_id = 1000;
  broken = false;
}

pub data Result (A : Type 0) : Type 0 where
  ok : A → Result A
  err : Error → Result A

abbrev pub Action : Type 0 → Type 0
Action A = Uow → Result A × Uow

module _ {A : Type 0} where
  abbrev pub pure : A → Action A
  pure a u = (ok a, u)

  abbrev pub raise : Error → Action A
  raise e u = (err e, u)

  abbrev pub or_raise : Option A → Error → Action A
  or_raise none e = raise e
  or_raise (some a) _ = pure a

  -- A query. After a failed flush the database has rolled back and the session's objects are
  -- expired: until the session is rolled back too, it refuses every query.
  abbrev pub query : (Uow → A) → Action A
  query f u = (if u.broken then err pending_rollback else ok (f u), u)

-- The attributes of a row that is held: those of an expired one are queried.
abbrev pub attributes : {A : Type 0} → A → Action A
attributes row = query (λ _. row)

infixl 5 ◌>>=◌ ◌>>◌
abbrev pub ◌>>=◌ : {A B : Type 0} → Action A → (A → Action B) → Action B
◌>>=◌ m f u = let (r, v) = m u in elim r [ ok a ↦ f a v | err e ↦ raise e v ]

abbrev pub ◌>>◌ : {A B : Type 0} → Action A → Action B → Action B
m >> k = m >>= λ _. k

abbrev pub raise_if : Bool → Error → Action (Unit {0})
raise_if c e u = (if c then err e else ok tt, u)

-- `if c: ... else: ...` around the rest of a method.
abbrev pub branch : {A : Type 0} → Bool → Action A → Action A → Action A
branch c m k u = if c then m u else k u

abbrev pub modify : (Uow → Uow) → Action (Unit {0})
modify f u = (ok tt, f u)

-- The UNIQUE constraints of the ORM models.
abbrev pub same_issue_door : Issue → Issue → Bool
same_issue_door a b = a.company_id == b.company_id && a.door_id == b.door_id

abbrev pub same_client_event : SyncEvent → SyncEvent → Bool
same_client_event a b =
    a.company_id == b.company_id && same_text a.client_event_id b.client_event_id

abbrev pub same_fact_event : AddonFact → AddonFact → Bool
same_fact_event a b = a.company_id == b.company_id && elim a.client_event_id [
  | none ↦ false
  | some s ↦ elim b.client_event_id [ none ↦ false | some t ↦ same_text s t ]
]

abbrev pub same_plan : AddonPlan → AddonPlan → Bool
same_plan a b =
    a.company_id == b.company_id
    && a.project_id == b.project_id
    && a.addon_type_id == b.addon_type_id

abbrev pub same_sync_state : SyncState → SyncState → Bool
same_sync_state a b = a.company_id == b.company_id && a.installer_id == b.installer_id

abbrev pub same_jti : RefreshToken → RefreshToken → Bool
same_jti a b = a.company_id == b.company_id && same_text a.jti b.jti

abbrev pub same_journal_door : JournalDoorItem → JournalDoorItem → Bool
same_journal_door a b =
    a.company_id == b.company_id && a.journal_id == b.journal_id && a.door_id == b.door_id

abbrev pub same_public_token : Journal → Journal → Bool
same_public_token a b = a.company_id == b.company_id && elim a.public_token [
  | none ↦ false
  | some s ↦ elim b.public_token [ none ↦ false | some t ↦ same_text s t ]
]

abbrev pub same_door_position : Door → Door → Bool
same_door_position a b =
    a.company_id == b.company_id
    && a.project_id == b.project_id
    && same_text a.labels.unit_label b.labels.unit_label
    && a.door_type_id == b.door_type_id

abbrev pub same_project_address : Project → Project → Bool
same_project_address a b =
    a.company_id == b.company_id && same_text a.name b.name && same_text a.address b.address

abbrev pub same_type_code : DoorType → DoorType → Bool
same_type_code a b = a.company_id == b.company_id && same_text a.code b.code

abbrev pub same_plan_company : CompanyPlan → CompanyPlan → Bool
same_plan_company a b = a.company_id == b.company_id

abbrev pub same_import_run : ImportRun → ImportRun → Bool
same_import_run a b =
    a.company_id == b.company_id
    && a.project_id == b.project_id
    && same_text a.fingerprint b.fingerprint
    && same_text a.import_mode b.import_mode

abbrev pub same_file_token : FileToken → FileToken → Bool
same_file_token a b = same_text a.token b.token

abbrev pub same_rate_version : InstallerRate → InstallerRate → Bool
same_rate_version a b =
    a.company_id == b.company_id
    && a.installer_id == b.installer_id
    && a.door_type_id == b.door_type_id
    && a.effective_from == b.effective_from

abbrev pub same_phone : Installer → Installer → Bool
same_phone a b = a.company_id == b.company_id && elim a.phone [
  | none ↦ false
  | some s ↦ elim b.phone [ none ↦ false | some t ↦ same_text s t ]
]

-- The index `uq_installers_user_id` of the migrations.
abbrev pub same_linked_user : Installer → Installer → Bool
same_linked_user a b = elim a.user_id [
  | none ↦ false
  | some s ↦ elim b.user_id [ none ↦ false | some t ↦ s == t ]
]

unfoldable pub violates_unique : Uow → Bool
violates_unique u =
    violates same_issue_door (objects u.issues)
    || violates same_client_event (objects u.sync_events)
    || violates same_fact_event (objects u.addon_facts)
    || violates same_plan (objects u.addon_plans)
    || violates same_sync_state (objects u.sync_state)
    || violates same_jti (objects u.refresh_tokens)
    || violates same_journal_door (objects u.journal_items)
    || violates same_public_token (objects u.journals)
    || violates same_door_position (objects u.doors)
    || violates same_project_address (objects u.projects)
    || violates same_type_code (objects u.door_types)
    || violates same_plan_company (objects u.company_plans)
    || violates same_import_run (objects u.project_import_runs)
    || violates same_file_token (objects u.file_tokens)
    || violates same_rate_version (objects u.installer_rates)
    || violates same_phone (objects u.installers)
    || violates same_linked_user (objects u.installers)

-- The sequence numbers the changes of a flush in the order in which they were added.
unfoldable pub number_from : ℕ → List Change → List LoggedChange
number_from n [] = []
number_from n (c ∷ cs) = record { cursor_id = n; change = c } ∷ number_from (suc n) cs

unfoldable pub next_after : ℕ → List Change → ℕ
next_after n [] = n
next_after n (c ∷ cs) = next_after (suc n) cs

unfoldable pub flushed : Uow → Uow
flushed u = record {
  doors = flush u.doors;
  projects = flush u.projects;
  issues = flush u.issues;
  reasons = flush u.reasons;
  installer_rates = flush u.installer_rates;
  addon_types = flush u.addon_types;
  addon_plans = flush u.addon_plans;
  addon_facts = flush u.addon_facts;
  sync_events = flush u.sync_events;
  sync_state = flush u.sync_state;
  change_log = u.change_log ++ number_from u.next_cursor u.pending_changes;
  pending_changes = [];
  next_cursor = next_after u.next_cursor u.pending_changes;
  outbox = flush u.outbox;
  journals = flush u.journals;
  journal_items = flush u.journal_items;
  journal_signatures = flush u.journal_signatures;
  webhook_events = flush u.webhook_events;
  audit = u.audit;
  audit_flushed = length u.audit;
  refresh_tokens = flush u.refresh_tokens;
  users = flush u.users;
  door_types = flush u.door_types;
  installers = flush u.installers;
  company_plans = flush u.company_plans;
  project_import_runs = flush u.project_import_runs;
  file_tokens = flush u.file_tokens;
  file_download_events = flush u.file_download_events;
  next_id = u.next_id;
  broken = false;
}

-- `session.flush()`. When it fails, the tables stand for nothing that code can read: `query` and
-- `attributes` refuse, and `with_uow` goes back to the state that the transaction began with.
unfoldable pub flush_session : Action (Unit {0})
flush_session u =
    if u.broken
    then (err pending_rollback, u)
    else if violates_unique u
    then (err integrity_error, record u { broken = true })
    else (ok tt, flushed u)

-- The primary key of a new object.
abbrev pub new_id : Action ℕ
new_id u = (ok u.next_id, record u { next_id = suc u.next_id })

-- `with uow:`: commit when the body returns, roll back when it raises.
unfoldable pub with_uow : {A : Type 0} → Action A → Action A
with_uow body u =
    let (r, v) = (body >>= λ a. flush_session >> pure a) u in
    elim r [ ok a ↦ (ok a, v) | err e ↦ (err e, u) ]

pub flush_session-cases :
    (u : Uow)
    → (flush_session u ≡ (ok tt, flushed u)) ⊎ ((e : Error) × ((flush_session u).0 ≡ err e))
unfolding flush_session
flush_session-cases u = elim (Bool-cases u.broken) [
  | inl b ↦ inr (pending_rollback, ground arith)
  | inr b ↦ elim (Bool-cases (violates_unique u)) [
    | inl v ↦ inr (integrity_error, ground arith)
    | inr v ↦ inl (ground arith)
  ]
]

pub flush_session-states :
    (u : Uow)
    → (flush_session u ≡ (ok tt, flushed u))
      ⊎ ((e : Error) × (b : Bool) × (flush_session u ≡ (err e, record u { broken = b })))
unfolding flush_session
flush_session-states u = elim (Bool-cases u.broken) [
  | inl b ↦ inr (pending_rollback, u.broken, ground arith)
  | inr b ↦ elim (Bool-cases (violates_unique u)) [
    | inl v ↦ inr (integrity_error, true, ground arith)
    | inr v ↦ inl (ground arith)
  ]
]

pub Result-split :
    {A : Type 0} {u : Uow} (p : Result A × Uow)
    → p.1 ≡ u
    → ((a : A) × (p ≡ (ok a, u))) ⊎ ((e : Error) × (p ≡ (err e, u)))
Result-split (ok a, v) h = inl (a, ap (λ w. (ok a, w)) h)
Result-split (err e, v) h = inr (e, ap (λ w. (err e, w)) h)

-- A unit of work that commits has flushed the state that its body left.
pub with_uow_ok :
    {A : Type 0} (body : Action A) (u : Uow) (a : A)
    → (with_uow body u).0 ≡ ok a
    → ((body u).0 ≡ ok a) × ((with_uow body u).1 ≡ flushed (body u).1)
unfolding with_uow flush_session
with_uow_ok body u a h = ground arith

-- One that raises has left the state as it was.
pub with_uow_err :
    {A : Type 0} (body : Action A) (u : Uow) (e : Error)
    → (with_uow body u).0 ≡ err e
    → (with_uow body u).1 ≡ u
unfolding with_uow flush_session
with_uow_err body u e h = ground arith

pub Result-cases :
    {A : Type 0} (r : Result A) → ((a : A) × (r ≡ ok a)) ⊎ ((e : Error) × (r ≡ err e))
Result-cases (ok a) = inl (a, refl)
Result-cases (err e) = inr (e, refl)
