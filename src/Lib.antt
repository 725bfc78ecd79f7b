-- ===== src/Lib.antt =====
-- Verification of the backend of a door-installation company: doors of projects are marked as
-- installed or not by installers, in the office or from devices that synchronise now and then.
--
-- Parts. A request runs in a unit of work (app/shared): the services read and write rows through
-- repositories, and the unit of work commits or rolls back. The doors' use cases (app/modules/doors)
-- write a door, its issue and the status of its project, and add a change to the change log
-- (app/modules/sync). Add-on work (app/modules/addons) does the same. A device pulls the log by
-- cursor and sends events, which call the same use cases. The worker sync_gc_worker deletes what all
-- devices have acknowledged. Beside them stand the journals of installed doors
-- (app/modules/journal), the outbox with its worker, the reports of the providers (app/webhooks),
-- refresh tokens (app/modules/identity), the admin's changes to issues (app/modules/issues) and the
-- rate limiter (app/api/v1/rate_limit.py). Projects get their doors by imports of files
-- (app/modules/projects), within the limits of the company's plan (app/modules/companies). The
-- office sets the installers' rates (app/modules/installers), and files are downloaded by links
-- (app/modules/files).
--
-- Files:
--   Base: names of the libraries, Boolean tests, lists, texts, integers.
--   Store: a table, whose rows have the version that the database has and the session's object; the
--     session has autoflush off (app/shared/infrastructure/db/session.py). Store/Laws: its lemmas.
--   Domain, Domain/Rows, Domain/Delivery, Domain/Planning: errors (app/shared/domain/errors.py), enumerations
--     (domain/enums.py of the modules) and ORM rows (infrastructure/models.py).
--   Uow: SqlAlchemyUnitOfWork, flush with the UNIQUE constraints of the ORM models, `with_uow`.
--     Uow/Triples: rules for what an action keeps and returns.
--   Doors: mark_installed, mark_not_installed, admin_override of
--     app/modules/doors/application/use_cases.py (Doors/UseCases), ProjectStatusService, the rates.
--   ChangeLog: SyncChangeLogRepository, SyncChangeLogGCRepository.
--   Sync: SyncEventRepository, InstallerSyncStateRepository; Sync/Service: InstallerSyncService;
--     Sync/Gc: app/workers/sync_gc_worker.py; Sync/Collected: what a device is answered after it;
--     Sync/Health: the assessment in health_service.py.
--   Addons: AddonsUseCases and its repositories.
--   Outbox: OutboxRepository; Outbox/Worker: app/workers/outbox_worker.py;
--     Outbox/Retry, Outbox/RetryBulk: app/modules/outbox/application/admin_service.py.
--   Webhooks: app/webhooks/delivery_service.py.
--   Journals: JournalUseCases and JournalRepository (app/modules/journal).
--   Identity: RefreshTokenRepository, AuthApiService, app/core/security/jwt.py.
--   Issues: the patch of an issue in app/modules/issues/application/admin_api_service.py; Issues/Bulk:
--     the operations that patch one issue or many.
--   RateLimit: `_allow` of app/api/v1/rate_limit.py.
--   Companies: CompanyLimitsService and the usage of a company (app/modules/companies);
--     Companies/Alerts: CompanyLimitAlertsService, with percentages in hundredths that are rounded half
--     to even from the exact quotient.
--   Projects: ProjectUseCases; Projects/Import: app/modules/projects/application/
--     file_import_service.py, its words (Aliases), texts (Text), rows (Rows), loop (Prepare),
--     diagnostics, preview groups (Previews), the lines of tables and the choice of the parser
--     (Tables) and the method itself (Service); Projects/Retry: the import runs of
--     app/modules/projects/application/admin_service.py; Projects/Retry/Runs: the retries of one run,
--     of many, and of the latest runs of projects.
--   Files: PublicFilesService, FileTokenService and their repositories (app/modules/files).
--   Rates: InstallerRatesAdminApiService and RatesAdminService (app/modules/installers/application);
--     Rates/Bulk: its bulk of prices and deletions.
--   Installers: InstallersAdminApiService and InstallersAdminService (app/modules/installers/
--     application), without the change of single fields.
--   Sample: rows that the Tests modules share.
--
-- How the code is read. A service is an action on a `Uow`: it answers a value or an error, and keeps
-- what it wrote when it raises, as the objects of a session do. `now` is what utcnow answers during
-- one call. Ids and instants are numbers, an instant in seconds; prices are hundredths and
-- quantities integers. Loops run over lists by structural recursion, so that no fuel is needed.
-- Arguments that stand for code outside the repository: `Jwt` (the library jwt, SHA-256, random
-- ids), `Senders` (the network behind app/integrations), and for an import `Python`, `Codec`, `Parsers`
-- and `Library`: the Unicode tables, the parsers of numbers, UUIDs and file formats, base64 and the
-- digest. `Caller` is who asks for a retry, with its codec and the settings of the alerts.
-- `restart` is the database from which a session goes on after `session.rollback()`, with what others
-- have committed meanwhile. A flush that fails breaks the session: its rows are expired, so that a
-- query or a read of a row (`query`, `attributes`) raises PendingRollbackError. A flush finds the violations that the session's own objects show.
--
-- Not modelled: the cold snapshot of a synchronisation, the run of the health service over a company,
-- the risk issues, login, the export and the sending of journals, the parsers of the bytes of imported
-- files, what AuditService.add_independent commits in a session of its own, the administration of
-- companies, the webhook of the alerts, reports, the calendar, the HTTP layer, the integrations,
-- logging. Log entries and the lists for screens change no state.
pub mod Base
pub mod Store
pub mod Domain
pub mod Uow
pub mod Doors
pub mod Sample
pub mod ChangeLog
pub mod Companies
pub mod Projects
pub mod Addons
pub mod Sync
pub mod Outbox
pub mod Files
pub mod Identity
pub mod Issues
pub mod Journals
pub mod Webhooks
pub mod RateLimit
pub mod Rates
pub mod Installers
