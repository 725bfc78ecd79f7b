-- ===== src/Projects/Import/Service.antt =====
-- `ProjectFileImportService.import_project_doors_from_file`
-- (app/modules/projects/application/file_import_service.py). What it takes from elsewhere is given by
-- `Library`: base64, the parsers of the file formats, and the digest. `restart` is the database after
-- `session.rollback()`, with what others have committed meanwhile; the logging is left out.
use dimax_ops_backend.Base.{
  ℕ, ◌+◌, Bool, true, false, ◌&&◌, ◌||◌, not, Option, none, some, List, [], ◌∷◌, String, ◌==◌,
  if◌then◌else◌, take, length, is_empty, concat, join, str, strip, is_given, get_or, same_text,
}
use dimax_ops_backend.Store.{find, add}
use dimax_ops_backend.Domain.{
  PreparedRow, RowError, Diagnostics, ImportResult, ImportRun, integrity_error, http_error,
}
use dimax_ops_backend.Uow.{
  Uow, Result, ok, err, Action, pure, raise, query, ◌>>=◌, ◌>>◌, raise_if, branch, modify, new_id,
  flush_session,
}
use dimax_ops_backend.Projects.{import_doors, get_project}
use dimax_ops_backend.Projects.Import.Text.{Unicode, Row, build_alias_groups}
use dimax_ops_backend.Projects.Import.Rows.{Python, LoopOptions, is_factory}
use dimax_ops_backend.Projects.Import.Prepare.{Prepared, nothing_prepared, prepare_rows}
use dimax_ops_backend.Projects.Import.Tables.{Parsers, parse_rows_by_filename}
use dimax_ops_backend.Projects.Import.Previews.{collect_preview_groups}
use dimax_ops_backend.Projects.Import.Diagnostics.{
  collect_columns_diagnostics, collect_data_summary,
}
use dimax_ops_backend.Projects.Retry.{Codec, serialize_prepared_rows}

pub record Request : Type 0 where
  pub company_id : ℕ
  pub project_id : ℕ
  pub filename : String
  pub content_base64 : String
  pub default_door_type_id : Option ℕ
  pub default_our_price : ℕ
  pub delimiter : Option String
  pub mapping_profile : String
  pub strict_required_fields : Option Bool
  pub create_missing_door_types : Bool
  pub analyze_only : Bool

-- What `_import_fingerprint` digests beside the file's content.
pub record Metadata : Type 0 where
  pub filename : String
  pub default_door_type_id : Option ℕ
  pub default_our_price : ℕ
  pub delimiter : Option String
  pub mapping_profile : String
  pub strict_required_fields : Bool
  pub create_missing_door_types : Bool
  pub analyze_only : Bool

pub record Library : Type 0 where
  pub python : Python
  pub codec : Codec
  pub b64decode : String → Option (List ℕ)
  pub sha256_json : List ℕ → Metadata → String
  pub parsers : Parsers

unfoldable pub normalize_mapping_profile : Python → String → Action String
unfolding concat
normalize_mapping_profile python value =
    let profile = python.lower (strip (if is_given (some value) then value else "auto_v1")) in
    branch (same_text profile "auto_v1" || is_factory profile || same_text profile "generic_en_v1")
      (pure profile) (raise (http_error 422 (concat "unknown mapping_profile: " value)))

unfoldable pub profile_preferred_delimiter : String → Option String
profile_preferred_delimiter profile =
    if is_factory profile
    then some ";"
    else if same_text profile "generic_en_v1"
    then some ","
    else none

abbrev pub import_mode : (analyze_only : Bool) → String
import_mode true = "analyze"
import_mode false = "import"

-- The values that the method computes from its arguments before it looks for a former run.
pub record Setting : Type 0 where
  pub content : List ℕ
  pub profile_code : String
  pub strict_required : Bool
  pub delimiter : Option String
  pub fingerprint : String

unfoldable pub setting_of : Library → Request → Action Setting
unfolding normalize_mapping_profile profile_preferred_delimiter
setting_of lib request = elim (lib.b64decode request.content_base64) [
  | none ↦ raise (http_error 422 "invalid base64 content")
  | some content ↦ do
    profile_code ← normalize_mapping_profile lib.python request.mapping_profile
    let strict_required = get_or request.strict_required_fields (is_factory profile_code)
    let delimiter =
        if is_given request.delimiter
        then request.delimiter
        else profile_preferred_delimiter profile_code
    pure (record {
      content = content;
      profile_code = profile_code;
      strict_required = strict_required;
      delimiter = delimiter;
      fingerprint = lib.sha256_json content (record {
        filename = request.filename;
        default_door_type_id = request.default_door_type_id;
        default_our_price = request.default_our_price;
        delimiter = delimiter;
        mapping_profile = profile_code;
        strict_required_fields = strict_required;
        create_missing_door_types = request.create_missing_door_types;
        analyze_only = request.analyze_only;
      });
    })
]

-- `get_by_fingerprint`
abbrev pub has_fingerprint :
    (company_id project_id : ℕ) (fingerprint mode : String) → ImportRun → Bool
has_fingerprint company_id project_id fingerprint mode r =
    r.company_id == company_id
    && r.project_id == project_id
    && same_text r.fingerprint fingerprint
    && same_text r.import_mode mode

-- The result of a former run, marked as a hit; `none` without a run, or when it has no payload.
unfoldable pub cached : Request → Setting → Uow → Option ImportResult
cached request setting u =
    elim (find
      (has_fingerprint request.company_id request.project_id setting.fingerprint
        (import_mode request.analyze_only))
      u.project_import_runs) [
        | none ↦ none
        | some run ↦ elim run.result_payload [
          | none ↦ none
          | some payload ↦ some (record payload.result { idempotency_hit = true })
        ]
      ]

-- `with uow.session.begin_nested() as preview_tx: ...; preview_tx.rollback()`: a flush, then a body
-- whose writes are undone, whether it raises or not.
unfoldable pub preview : {A : Type 0} → Action A → Action A
preview body = flush_session >> λ u. let (r, v) = body u in (r, record u { next_id = v.next_id })

abbrev pub options_of : Library → Request → Setting → LoopOptions
options_of lib request setting = record {
  company_id = request.company_id;
  profile_code = setting.profile_code;
  strict_required = setting.strict_required;
  create_missing_door_types = request.create_missing_door_types;
  default_door_type_id = request.default_door_type_id;
  default_our_price = request.default_our_price;
  alias_groups = build_alias_groups lib.python.unicode;
}

-- `"; ".join(f"row {row}: {message}" for x in errors[:3])`
abbrev error_texts : List RowError → List String
error_texts [] = []
error_texts (e ∷ errors) =
    concat "row " (concat (str e.row) (concat ": " e.message)) ∷ error_texts errors

abbrev pub no_rows_text : List RowError → String
no_rows_text [] = "no valid rows to import"
no_rows_text (e ∷ errors) =
    concat "no valid rows to import (" (concat (join "; " (error_texts (take 3 (e ∷ errors)))) ")")

unfoldable pub parse_file : Library → Request → Setting → Action (List Row)
unfolding parse_rows_by_filename
parse_file lib request setting u = (
  parse_rows_by_filename lib.parsers lib.python.unicode (build_alias_groups lib.python.unicode)
      request.filename setting.content setting.delimiter,
  u,
)

-- The file's rows, and their diagnostics.
unfoldable pub read_file : Library → Request → Setting → Action (List Row × Diagnostics)
unfolding concat join collect_columns_diagnostics parse_file
read_file lib request setting u =
    (do
      rows ← parse_file lib request setting
      raise_if (is_empty rows) (http_error 422 "no rows found in file")
      let diagnostics =
          collect_columns_diagnostics lib.python.unicode rows
            (build_alias_groups lib.python.unicode) setting.profile_code setting.strict_required
      raise_if (setting.strict_required && not (is_empty diagnostics.missing_required_fields)) (
          http_error 422
            (concat "missing required columns: " (join ", " diagnostics.missing_required_fields)))
      pure (rows, diagnostics))
      u

-- The result, from what `import_doors` answered.
unfoldable pub result_of :
    Unicode → Request → (parsed : ℕ) → Diagnostics → Prepared → ℕ × ℕ → ImportResult
unfolding collect_data_summary collect_preview_groups
result_of unicode request parsed diagnostics st answer = record {
  parsed_rows = parsed;
  prepared_rows = length st.rows;
  imported = if request.analyze_only then 0 else answer.0;
  skipped = answer.1 + st.skipped;
  errors = take 500 st.errors;
  diagnostics = some (record diagnostics {
    data_summary = some (collect_data_summary parsed st.rows (length st.errors) st.skipped);
    preview_groups = collect_preview_groups unicode st.rows;
  });
  mode = import_mode request.analyze_only;
  would_import = answer.0;
  would_skip = answer.1 + st.skipped;
  idempotency_hit = false;
}

-- The run that `_save_import_run` makes, with the payload of `_build_persist_payload`.
unfoldable pub new_run :
    (id now : ℕ) → Library → Request → Setting → List PreparedRow → ImportResult → ImportRun
unfolding serialize_prepared_rows
new_run id now lib request setting rows result = record {
  id = id;
  company_id = request.company_id;
  project_id = request.project_id;
  created_at = now;
  fingerprint = setting.fingerprint;
  import_mode = import_mode request.analyze_only;
  source_filename = some request.filename;
  mapping_profile = setting.profile_code;
  result_payload = some (record {
    result = result;
    retry = some (record {
      filename = some request.filename;
      mapping_profile = setting.profile_code;
      prepared_rows = serialize_prepared_rows lib.codec rows;
    });
  });
}

-- `_save_import_run` with the payload of `_build_persist_payload`.
unfoldable pub save_import_run :
    Library → (now : ℕ) → Request → Setting → List PreparedRow → ImportResult → Action (Unit {0})
unfolding new_run
save_import_run lib now request setting rows result = do
  id ← new_id
  modify (λ u. record u {
    project_import_runs =
        add (new_run id now lib request setting rows result) u.project_import_runs;
  })
  flush_session

-- `except IntegrityError`: after the rollback, the result of a run with this fingerprint, or else the
-- result that was to be saved.
unfoldable pub after_save :
    (restart : Uow)
    → Request
    → Setting
    → ImportResult
    → Result (Unit {0}) × Uow
    → Result ImportResult × Uow
unfolding cached
after_save restart request setting result (ok done, v) = (ok result, v)
after_save restart request setting result (err integrity_error, v) =
    (ok (get_or (cached request setting restart) result), restart)
after_save restart request setting result (err e, v) = (err e, v)

-- The call of `import_doors`, which an analysis takes back.
unfoldable pub import_or_preview : Request → List PreparedRow → Action (ℕ × ℕ)
unfolding preview import_doors
import_or_preview request rows =
    branch request.analyze_only
      (preview (import_doors request.company_id request.project_id rows true))
      (import_doors request.company_id request.project_id rows true)

-- The method from the saving of the run on.
unfoldable pub save_result :
    Library
    → (restart : Uow) (now : ℕ) → Request
    → Setting
    → List PreparedRow
    → ImportResult
    → Action ImportResult
unfolding save_import_run after_save
save_result lib restart now request setting rows result u =
    after_save restart request setting result
      (save_import_run lib now request setting rows result u)

-- The method from the test for valid rows on.
abbrev pub finish_import :
    Library
    → (restart : Uow) (now : ℕ) → Request
    → Setting
    → List Row × Diagnostics
    → Prepared
    → Action ImportResult
finish_import lib restart now request setting read st =
    raise_if (is_empty st.rows) (http_error 422 (no_rows_text st.errors))
    >> (import_or_preview request st.rows >>= λ answer.
        save_result lib restart now request setting st.rows
          (result_of lib.python.unicode request (length read.0) read.1 st answer))

-- The method from the loop over the rows on.
abbrev pub prepare_and_import :
    Library
    → (restart : Uow) (now : ℕ) → Request
    → Setting
    → List Row × Diagnostics
    → Action ImportResult
prepare_and_import lib restart now request setting read =
    prepare_rows lib.python (options_of lib request setting) 1 read.0 nothing_prepared
    >>= finish_import lib restart now request setting read

-- The method after a lookup that found no former run.
unfoldable pub run_import :
    Library → (restart : Uow) (now : ℕ) → Request → Setting → Action ImportResult
unfolding read_file prepare_rows concat join str import_or_preview result_of save_result
run_import lib restart now request setting =
    read_file lib request setting >>= prepare_and_import lib restart now request setting

abbrev pub hit_or :
    Library
    → (restart : Uow) (now : ℕ) → Request
    → Setting
    → Option ImportResult
    → Action ImportResult
hit_or lib restart now request setting none = run_import lib restart now request setting
hit_or lib restart now request setting (some result) = pure result

-- The method after its arguments are read.
abbrev pub look_up : Library → (restart : Uow) (now : ℕ) → Request → Setting → Action ImportResult
look_up lib restart now request setting =
    query (cached request setting) >>= hit_or lib restart now request setting

unfoldable pub import_project_doors_from_file :
    Library → (restart : Uow) (now : ℕ) → Request → Action ImportResult
unfolding get_project setting_of cached run_import
import_project_doors_from_file lib restart now request =
    get_project request.company_id request.project_id
    >> (setting_of lib request >>= look_up lib restart now request)
