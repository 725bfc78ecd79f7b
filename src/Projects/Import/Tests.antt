-- ===== src/Projects/Import/Tests.antt =====
-- Runs of the import of a file in the company of Sample. The file formats, the digests and the
-- Unicode tables are small functions on ASCII texts here.
use dimax_ops_backend.Base.{String, List, map, clip, strip, strip_of}
use dimax_ops_backend.Uow.{flush_session, flushed, violates_unique}
use dimax_ops_backend.Store.{add, find, flush, violates}
use dimax_ops_backend.Base.{
  ℕ, ◌≡◌, refl, Bool, true, false, ◌&&◌, ◌||◌, some, none, [], ◌∷◌, leb, pos, chars, length, concat,
}
use dimax_ops_backend.Store.{objects}
use dimax_ops_backend.Domain.{DoorType, PreparedRow, PreviewGroup, ImportResult}
use dimax_ops_backend.Uow.{Uow, Result, ok, err}
use dimax_ops_backend.Sample
use dimax_ops_backend.Sample.{row}
use dimax_ops_backend.Projects.Retry.{Codec}
use dimax_ops_backend.Projects.Import.Text.{Row, Unicode, normalize_token}
use dimax_ops_backend.Projects.Import.Rows.{
  Python, LoopOptions, number, build_unit_label, door_type_code_of,
}
use dimax_ops_backend.Projects.Import.Prepare.{Prepared, nothing_prepared, prepare_rows}
use dimax_ops_backend.Projects.Import.Tables.{Parsers, rows_from_tabular_lines}
use dimax_ops_backend.Projects.Import.Previews.{collect_preview_groups}
use dimax_ops_backend.Projects.Import.Distinct.{IsSound, IsOutcome, Gives, prepare_rows-IsSound}
use dimax_ops_backend.Projects.Import.Service.{
  Library, Request, Setting, setting_of, save_import_run, import_project_doors_from_file,
}
use dimax_ops_backend.Projects.Import.Preview.{analyze-doors}
use dimax_ops_backend.Projects.Import.Cached.{import_again}

abbrev is_ascii_alnum : ℕ → Bool
is_ascii_alnum c = leb b'0' c && leb c b'9' || leb b'a' c && leb c b'z'

abbrev unicode : Unicode
unicode = record { casefold = λ s. s; is_alnum = is_ascii_alnum }

abbrev python : Python
python = record {
  unicode = unicode;
  lower = λ s. s;
  int_float = λ s. number (pos (chars s));
  decimal = λ s. some (pos (chars s));
  uuid = λ s. none;
}

abbrev codec : Codec
codec = record {
  str_uuid = λ n. "3";
  uuid = λ s. some 3;
  str_decimal = λ n. "1";
  decimal = λ s. some 1;
}

abbrev file_row : Row
file_row = ("house", some "5") ∷ ("mark", some "M 1") ∷ ("qty", some "xx") ∷ []

abbrev parsers : Parsers
parsers = record {
  delimited_rows = λ content delimiter. ok (file_row ∷ file_row ∷ []);
  json_rows = λ content. ok [];
  xml_rows = λ content. ok [];
  xlsx_rows = λ content. ok [];
  pdf_text_lines = λ content. ok [];
  ocr_lines = λ content. [];
  lower = λ s. s;
}

abbrev lib : Library
lib = record {
  python = python;
  codec = codec;
  b64decode = λ s. some (1 ∷ []);
  sha256_json = λ content metadata. concat metadata.mapping_profile metadata.filename;
  parsers = parsers;
}

abbrev request : Bool → Request
request analyze_only = record {
  company_id = 1;
  project_id = 10;
  filename = "doors.csv";
  content_base64 = "AQ==";
  default_door_type_id = some 3;
  default_our_price = 90000;
  delimiter = none;
  mapping_profile = "auto_v1";
  strict_required_fields = none;
  create_missing_door_types = false;
  analyze_only = analyze_only;
}

abbrev uow : Uow
uow = record Sample.uow {
  door_types =
      row {A = DoorType} (record {
        id = 3;
        company_id = 1;
        code = "steel";
        name = "Steel";
        is_active = true;
        deleted_at = none;
      })
      ∷ [];
}

token : normalize_token unicode " door--type / code " ≡ "door_type_code"
unfolding normalize_token strip_of strip
token = refl

code : door_type_code_of python "-steel (90 min)!" ≡ "steel-90-min"
unfolding door_type_code_of clip strip_of strip
code = refl

abbrev options : LoopOptions
options = record {
  company_id = 1;
  profile_code = "auto_v1";
  strict_required = false;
  create_missing_door_types = false;
  default_door_type_id = some 3;
  default_our_price = 90000;
  alias_groups = record {
    house = "house" ∷ [];
    floor = [];
    apartment = [];
    marking = "mark" ∷ [];
    location = [];
    door_type_code = [];
    door_type_id = [];
    qty = "qty" ∷ [];
    price = [];
    unit_label = [];
    order_number = [];
  };
}

nothing_prepared-IsSound : IsSound nothing_prepared
nothing_prepared-IsSound = record { keys = refl; distinct = tt; short = tt }

prepare_rows-IsSound_example :
    Gives
      (IsOutcome python options 1 (file_row ∷ file_row ∷ []) nothing_prepared uow)
      (prepare_rows python options 1 (file_row ∷ file_row ∷ []) nothing_prepared uow)
prepare_rows-IsSound_example =
    prepare_rows-IsSound python options 1 (file_row ∷ file_row ∷ []) nothing_prepared uow
      nothing_prepared-IsSound

analyze-doors_example :
    objects (import_project_doors_from_file lib uow 60 (request true) uow).1.doors
    ≡ objects uow.doors
analyze-doors_example = analyze-doors lib uow 60 (request true) uow refl refl

abbrev setting : Setting
setting = record {
  content = 1 ∷ [];
  profile_code = "auto_v1";
  strict_required = false;
  delimiter = none;
  fingerprint = "auto_v1doors.csv";
}

abbrev result : ImportResult
result = record {
  parsed_rows = 2;
  prepared_rows = 2;
  imported = 2;
  skipped = 2;
  errors = [];
  diagnostics = none;
  mode = "import";
  would_import = 2;
  would_skip = 2;
  idempotency_hit = false;
}

setting_is : (setting_of lib (request false) uow).0 ≡ ok setting
unfolding setting_of strip
setting_is = refl

saves : (save_import_run lib 60 (request false) setting [] result uow).0 ≡ ok tt
unfolding save_import_run flush_session violates_unique violates objects add
saves = refl

import_again_example :
    import_project_doors_from_file lib uow 90
      (request false)
      (save_import_run lib 60 (request false) setting [] result uow).1
    ≡ (
      ok (record result { idempotency_hit = true }),
      (save_import_run lib 60 (request false) setting [] result uow).1,
    )
unfolding find save_import_run flush_session violates_unique violates objects add flushed flush
import_again_example =
    import_again lib uow 60 90 (request false) setting [] result uow Sample.project tt refl
      setting_is saves refl

-- Two rows of the file that stand for the same two doors: one pair is skipped.
abbrev counts_of : Result Prepared → ℕ × ℕ × ℕ
counts_of (ok st) = (length st.rows, st.skipped, length st.errors)
counts_of (err e) = (0, 0, 0)

prepares_two :
    counts_of (prepare_rows python options 1 (file_row ∷ file_row ∷ []) nothing_prepared uow).0
    ≡ (2, 2, 0)
unfolding prepare_rows strip_of strip build_unit_label clip
prepares_two = refl

-- A table in the text of a PDF: two columns are recognised, so the first line is the header.
table_of_lines :
    rows_from_tabular_lines unicode options.alias_groups none none none
      ("house | mark" ∷ "5 | M 1" ∷ " | " ∷ "6 | M | 2" ∷ [])
    ≡ (("house", some "5") ∷ ("mark", some "M 1") ∷ [])
      ∷ (("house", some "6") ∷ ("mark", some "M 2") ∷ [])
      ∷ []
unfolding rows_from_tabular_lines strip_of
table_of_lines = refl

abbrev one : String → PreparedRow
one house = record {
  door_type_id = 3;
  our_price = 1;
  labels = record (Sample.labels 100) { house_number = some house };
}

abbrev groups_count : List PreviewGroup → List ℕ
groups_count gs = map (λ g. g.door_count) gs

previews_two :
    groups_count (collect_preview_groups unicode (one "b" ∷ one "a" ∷ one "b" ∷ [])) ≡ 1 ∷ 2 ∷ []
unfolding collect_preview_groups strip
previews_two = refl
