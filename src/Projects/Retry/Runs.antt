-- ===== src/Projects/Retry/Runs.antt =====
-- The retries of import runs: `_run_retry_import`, `retry_import_run`, `retry_failed_runs_bulk` and
-- `bulk_reconcile_latest_imports` of app/modules/projects/application/admin_service.py. What
-- `AuditService.add_independent` commits in a session of its own is left out. `fresh` is the text of
-- the random id that a new run's fingerprint ends in.
use dimax_ops_backend.Base.{
  ℕ, suc, Bool, true, false, ◌&&◌, not, Option, none, some, List, [], ◌∷◌, String, ◌==◌,
  if◌then◌else◌, ltb, length, clip, concat, str, is_blank_text, elem, unique_from,
}
use dimax_ops_backend.Store.{find, select, add}
use dimax_ops_backend.Domain.{
  PreparedRow, ImportResult, ImportRun, validation_error, not_found, message,
}
use dimax_ops_backend.Uow.{
  Uow, Result, ok, err, Action, pure, or_raise, query, attributes, ◌>>=◌, ◌>>◌, raise_if, branch,
  modify, new_id, flush_session,
}
use dimax_ops_backend.Companies.Alerts.{AlertSettings, evaluate_and_alert}
use dimax_ops_backend.Doors.{has_project_key}
use dimax_ops_backend.Projects.{get_project, import_doors}
use dimax_ops_backend.Projects.Retry.{
  Codec, deserialize_retry_rows, retry_prepared_rows, import_run_status, errors_count_from_payload,
  imported_of, is_import_mode, is_failed_status,
}

-- What a retry takes from elsewhere, and who asks for it.
pub record Caller : Type 0 where
  pub codec : Codec
  pub settings : AlertSettings
  pub fresh : ℕ → String
  pub now : ℕ
  pub company_id : ℕ
  pub actor_user_id : ℕ

abbrev is_empty_rows : List PreparedRow → Bool
is_empty_rows [] = true
is_empty_rows (r ∷ rows) = false

-- The result of a retry.
unfoldable pub retry_result : ImportRun → (prepared_rows imported skipped : ℕ) → ImportResult
retry_result run prepared_rows imported skipped = record {
  parsed_rows = elim run.result_payload [ none ↦ prepared_rows | some p ↦ p.result.parsed_rows ];
  prepared_rows = prepared_rows;
  imported = imported;
  skipped = skipped;
  errors = [];
  diagnostics = elim run.result_payload [ none ↦ none | some p ↦ p.result.diagnostics ];
  mode = "import_retry";
  would_import = imported;
  would_skip = skipped;
  idempotency_hit = false;
}

-- The run of a retry, with the payload of `_build_retry_persist_payload`.
unfoldable pub retry_run : Caller → (id project_id : ℕ) → ImportRun → ImportResult → ImportRun
unfolding retry_prepared_rows concat str
retry_run caller id project_id source result = record {
  id = id;
  company_id = caller.company_id;
  project_id = project_id;
  created_at = caller.now;
  fingerprint = concat "retry:" (concat (str source.id) (concat ":" (caller.fresh id)));
  import_mode = "import_retry";
  source_filename = source.source_filename;
  mapping_profile =
      if is_blank_text source.mapping_profile then "auto_v1" else source.mapping_profile;
  result_payload = some (record {
    result = result;
    retry = some (record {
      filename = source.source_filename;
      mapping_profile = source.mapping_profile;
      prepared_rows = retry_prepared_rows source.result_payload;
    });
  });
}

-- `_run_retry_import`
unfoldable pub run_retry_import : Caller → (project_id : ℕ) → ImportRun → Action ImportResult
unfolding deserialize_retry_rows retry_prepared_rows retry_result retry_run
run_retry_import caller project_id source = do
  let rows = deserialize_retry_rows caller.codec (retry_prepared_rows source.result_payload)
  raise_if (is_empty_rows rows) (validation_error "Retry data is unavailable for this import run")
  answer ← import_doors caller.company_id project_id rows true
  let result = retry_result source (length rows) answer.0 answer.1
  id ← new_id
  modify (λ u. record u {
    project_import_runs = add (retry_run caller id project_id source result) u.project_import_runs;
  })
  flush_session
  branch (ltb 0 answer.0)
      (evaluate_and_alert caller.settings caller.now caller.company_id caller.actor_user_id
        ("doors_per_project" ∷ []))
      (pure tt)
  pure result

abbrev has_run_key : (company_id project_id run_id : ℕ) → ImportRun → Bool
has_run_key company_id project_id run_id r =
    r.company_id == company_id && r.project_id == project_id && r.id == run_id

unfoldable pub retry_import_run : Caller → (project_id run_id : ℕ) → Action ImportResult
unfolding get_project run_retry_import
retry_import_run caller project_id run_id = do
  get_project caller.company_id project_id
  found ← query (λ u. find (has_run_key caller.company_id project_id run_id) u.project_import_runs)
  run ← or_raise found (not_found "Import run not found")
  run_retry_import caller project_id run

-- What a bulk retry answers for a run or a project.
pub record BulkItem : Type 0 where
  pub run_id : Option ℕ
  pub project_id : Option ℕ
  pub status : String
  pub imported : ℕ
  pub skipped : ℕ
  pub errors_count : ℕ
  pub last_error : Option String

pub data Outcome : Type 0 where
  successful failed skipped : Outcome

pub record BulkResponse : Type 0 where
  pub items : List BulkItem
  pub total : ℕ
  pub successful : ℕ
  pub failed : ℕ
  pub skipped : ℕ

-- An item that is counted as `outcome`.
unfoldable pub add_item : Outcome → BulkItem → BulkResponse → BulkResponse
add_item Outcome.successful item r = record r {
  items = item ∷ r.items;
  successful = suc r.successful;
}
add_item Outcome.failed item r = record r { items = item ∷ r.items; failed = suc r.failed }
add_item Outcome.skipped item r = record r { items = item ∷ r.items; skipped = suc r.skipped }

abbrev pub plain_item :
    (run_id project_id : Option ℕ) (status : String) (errors_count : ℕ) (last_error : Option String)
    → BulkItem
plain_item run_id project_id status errors_count last_error = record {
  run_id = run_id;
  project_id = project_id;
  status = status;
  imported = 0;
  skipped = 0;
  errors_count = errors_count;
  last_error = last_error;
}

-- The end of the loop's body: `try: _run_retry_import(...) except Exception`.
unfoldable pub retried_item : (run_id project_id : ℕ) → Result ImportResult → Outcome × BulkItem
retried_item run_id project_id (ok result) = (
  Outcome.successful,
  record {
    run_id = some run_id;
    project_id = some project_id;
    status = "SUCCESS";
    imported = result.imported;
    skipped = result.skipped;
    errors_count = length result.errors;
    last_error = none;
  },
)
retried_item run_id project_id (err e) = (
  Outcome.failed,
  plain_item (some run_id) (some project_id) "FAILED" 1 (some (clip 300 (message e))),
)

-- `try: m except Exception`, with what is read of the run for the item: after a failed flush the run
-- is expired, and reading it raises out of the loop.
abbrev pub catch_retry :
    ImportRun → (project_id : ℕ) → Action ImportResult → Action (Outcome × BulkItem)
catch_retry run project_id m u =
    let (r, v) = m u in (attributes run >>= λ read. pure (retried_item read.id project_id r)) v

abbrev pub status_of_run : ImportRun → String
status_of_run run =
    import_run_status run.import_mode (imported_of run.result_payload)
      (errors_count_from_payload run.result_payload)

abbrev pub skipped_item : ImportRun → (status : String) → Outcome × BulkItem
skipped_item run status =
    (Outcome.skipped, plain_item (some run.id) (some run.project_id) status 0 none)

-- The body of the loop of `retry_failed_runs_bulk` for a run that is there, once it is read.
unfoldable pub retry_row : Caller → ImportRun → Action (Outcome × BulkItem)
unfolding import_run_status errors_count_from_payload run_retry_import retried_item
retry_row caller row =
    branch (not (is_import_mode row.import_mode))
      (pure (skipped_item row "SKIPPED_UNSUPPORTED_MODE"))
      (branch (not (is_failed_status (status_of_run row)))
        (pure (skipped_item row "SKIPPED_NOT_FAILED"))
        (catch_retry row row.project_id (run_retry_import caller row.project_id row)))

-- The body of the loop of `retry_failed_runs_bulk`.
unfoldable pub retry_one : Caller → (run_id : ℕ) → Option ImportRun → Action (Outcome × BulkItem)
unfolding retry_row
retry_one caller run_id none = pure (
  Outcome.failed,
  plain_item (some run_id) none "FAILED_RUN_NOT_FOUND" 1 (some "Import run not found"),
)
retry_one caller run_id (some run) = attributes run >>= retry_row caller

-- `{run.id: run for run in runs}.get(run_id)`
abbrev pub run_by_id : (run_id : ℕ) → List ImportRun → Option ImportRun
run_by_id run_id [] = none
run_by_id run_id (r ∷ runs) = if r.id == run_id then some r else run_by_id run_id runs

abbrev pub no_items : (total : ℕ) → BulkResponse
no_items total = record { items = []; total = total; successful = 0; failed = 0; skipped = 0 }

-- A loop whose body answers an item for each of the ids.
unfoldable pub each_item :
    (ℕ → Action (Outcome × BulkItem)) → (total : ℕ) → List ℕ → Action BulkResponse
unfolding add_item
each_item body total [] = pure (no_items total)
each_item body total (id ∷ ids) = do
  item ← body id
  rest ← each_item body total ids
  pure (add_item item.0 item.1 rest)

unfoldable pub retry_failed_runs_bulk : Caller → (run_ids : List ℕ) → Action BulkResponse
unfolding each_item retry_one
retry_failed_runs_bulk caller run_ids = do
  let ids = unique_from [] run_ids
  runs ←
      query (λ u.
        select (λ r. r.company_id == caller.company_id && elem r.id ids) u.project_import_runs)
  each_item (λ id. retry_one caller id (run_by_id id runs)) (length ids) ids

-- `ORDER BY created_at DESC`, first row.
abbrev latest_run : List ImportRun → Option ImportRun
latest_run [] = none
latest_run (r ∷ runs) = elim (latest_run runs) [
  | none ↦ some r
  | some s ↦ if ltb r.created_at s.created_at then some s else some r
]

-- `latest_retryable_for_project`
unfoldable pub latest_retryable_for_project : (company_id project_id : ℕ) → Uow → Option ImportRun
latest_retryable_for_project company_id project_id u = latest_run (
    select
      (λ r.
        r.company_id == company_id && r.project_id == project_id && is_import_mode r.import_mode)
      u.project_import_runs)

-- The body of the loop of `bulk_reconcile_latest_imports`, from the project's latest run on.
unfoldable pub reconcile_run :
    Caller
    → (only_failed_runs : Bool) (project_id : ℕ) → Option ImportRun
    → Action (Outcome × BulkItem)
unfolding import_run_status errors_count_from_payload run_retry_import retried_item
reconcile_run caller only_failed_runs project_id none =
    pure (Outcome.skipped, plain_item none (some project_id) "SKIPPED_NO_RUN" 0 none)
reconcile_run caller only_failed_runs project_id (some run) =
    branch (only_failed_runs && not (is_failed_status (status_of_run run)))
      (pure
        (Outcome.skipped, plain_item (some run.id) (some project_id) "SKIPPED_NOT_FAILED" 0 none))
      (catch_retry run project_id (run_retry_import caller project_id run))

unfoldable pub reconcile_one :
    Caller → (only_failed_runs : Bool) (project_id : ℕ) → Action (Outcome × BulkItem)
unfolding latest_retryable_for_project reconcile_run
reconcile_one caller only_failed_runs project_id = do
  project ← query (λ u. find (has_project_key caller.company_id project_id) u.projects)
  elim project [
    | none ↦ pure (
      Outcome.failed,
      plain_item none (some project_id) "FAILED_PROJECT_NOT_FOUND" 1 (some "Project not found"),
    )
    | some p ↦ do
      run ← query (latest_retryable_for_project caller.company_id project_id)
      reconcile_run caller only_failed_runs project_id run
  ]

unfoldable pub bulk_reconcile_latest_imports :
    Caller → (project_ids : List ℕ) (only_failed_runs : Bool) → Action BulkResponse
unfolding each_item reconcile_one
bulk_reconcile_latest_imports caller project_ids only_failed_runs =
    each_item (reconcile_one caller only_failed_runs) (length project_ids) project_ids
