-- ===== src/Projects/Retry.antt =====
-- The import runs and their retries: app/modules/projects/application/admin_service.py, with
-- `_serialize_prepared_rows` of file_import_service.py, which writes what a retry reads. The audit
-- entries of `AuditService.add_independent` go to a session of their own.
pub mod Roundtrip
pub mod Runs
pub mod Totals
mod Tests
use dimax_ops_backend.Base.{
  ℕ, zero, suc, Bool, true, false, ◌&&◌, ◌||◌, not, Option, none, some, List, [], ◌∷◌, String,
  if◌then◌else◌, clip, strip, is_blank_text, text_or_none, same_text, length, ltb, leb,
}
use dimax_ops_backend.Domain.{
  DoorLabels, PreparedRow, SerializedRow, RowError, ImportResult, ImportPayload, ImportRun,
}

-- `str` and the parsers of UUIDs and decimals; prices that the service writes are not negative.
pub record Codec : Type 0 where
  pub str_uuid : ℕ → String
  pub uuid : String → Option ℕ
  pub str_decimal : ℕ → String
  pub decimal : String → Option ℕ

-- `_empty_to_none`, and `_clean_text` of the file import, which is the same function.
unfoldable pub empty_to_none : Option String → Option String
empty_to_none none = none
empty_to_none (some value) = text_or_none (strip value)

abbrev pub tidy_labels : (unit_label : String) → DoorLabels → DoorLabels
tidy_labels unit_label l = record {
  unit_label = unit_label;
  order_number = empty_to_none l.order_number;
  house_number = empty_to_none l.house_number;
  floor_label = empty_to_none l.floor_label;
  apartment_number = empty_to_none l.apartment_number;
  location_code = empty_to_none l.location_code;
  door_marking = empty_to_none l.door_marking;
}

-- `continue`, or `rows.append(...)`
abbrev pub append_some : {A : Type 0} → Option A → List A → List A
append_some none rest = rest
append_some (some a) rest = a ∷ rest

module _ (codec : Codec) where
  -- `str(row.get("our_price") or "0")`
  abbrev pub price_text : ℕ → String
  price_text zero = "0"
  price_text (suc n) = codec.str_decimal (suc n)

  unfoldable pub serialize_prepared_rows : List PreparedRow → List SerializedRow
  unfolding empty_to_none
  serialize_prepared_rows [] = []
  serialize_prepared_rows (r ∷ rows) =
      record {
        door_type_id = codec.str_uuid r.door_type_id;
        our_price = price_text r.our_price;
        labels = tidy_labels r.labels.unit_label r.labels;
      }
      ∷ serialize_prepared_rows rows

  -- A serialized row read back; `none` where the loop goes on without it.
  unfoldable pub deserialize_row : SerializedRow → Option PreparedRow
  unfolding empty_to_none
  deserialize_row r =
      if is_blank_text (strip r.door_type_id) || is_blank_text (strip r.labels.unit_label)
      then none
      else elim (codec.uuid (strip r.door_type_id)) [
        | none ↦ none
        | some id ↦
            elim (codec.decimal (strip (if is_blank_text r.our_price then "0" else r.our_price))) [
              | none ↦ none
              | some price ↦ some (record {
                door_type_id = id;
                our_price = price;
                labels = tidy_labels (clip 120 (strip r.labels.unit_label)) r.labels;
              })
            ]
      ]

  unfoldable pub deserialize_retry_rows : List SerializedRow → List PreparedRow
  unfolding deserialize_row
  deserialize_retry_rows [] = []
  deserialize_retry_rows (r ∷ rows) = append_some (deserialize_row r) (deserialize_retry_rows rows)

-- `_retry_prepared_rows`
unfoldable pub retry_prepared_rows : Option ImportPayload → List SerializedRow
retry_prepared_rows none = []
retry_prepared_rows (some payload) = elim payload.retry [ none ↦ [] | some s ↦ s.prepared_rows ]

-- `_import_run_status`
unfoldable pub import_run_status : (mode : String) (imported errors_count : ℕ) → String
import_run_status mode imported errors_count =
    if same_text mode "analyze"
    then "ANALYZED"
    else if leb imported 0 && ltb 0 errors_count
    then "FAILED"
    else if ltb 0 imported && ltb 0 errors_count
    then "PARTIAL"
    else if ltb 0 imported
    then "SUCCESS"
    else "EMPTY"

-- `_errors_count_from_payload`
unfoldable pub errors_count_from_payload : Option ImportPayload → ℕ
errors_count_from_payload none = 0
errors_count_from_payload (some payload) = length payload.result.errors

-- `_first_error_from_payload`
unfoldable pub first_error_from_payload : Option ImportPayload → Option String
first_error_from_payload none = none
first_error_from_payload (some payload) = elim payload.result.errors [
  | [] ↦ none
  | e ∷ rest ↦ text_or_none (clip 300 (strip e.message))
]

-- `mode in {"import", "import_retry"}`
abbrev pub is_import_mode : String → Bool
is_import_mode mode = same_text mode "import" || same_text mode "import_retry"

-- `status in {"FAILED", "PARTIAL"}`
abbrev pub is_failed_status : String → Bool
is_failed_status status = same_text status "FAILED" || same_text status "PARTIAL"

-- `imported` of a payload, 0 where the run has none
abbrev pub imported_of : Option ImportPayload → ℕ
imported_of none = 0
imported_of (some payload) = payload.result.imported

-- `_to_import_run_item`, the keys that the code computes.
pub record ImportRunItem : Type 0 where
  pub id : ℕ
  pub mode : String
  pub status : String
  pub imported : ℕ
  pub errors_count : ℕ
  pub retry_available : Bool
  pub last_error : Option String

abbrev has_rows : List SerializedRow → Bool
has_rows [] = false
has_rows (r ∷ rows) = true

unfoldable pub to_import_run_item : ImportRun → ImportRunItem
unfolding import_run_status errors_count_from_payload first_error_from_payload retry_prepared_rows
to_import_run_item run = record {
  id = run.id;
  mode = run.import_mode;
  status =
      import_run_status run.import_mode (imported_of run.result_payload)
        (errors_count_from_payload run.result_payload);
  imported = imported_of run.result_payload;
  errors_count = errors_count_from_payload run.result_payload;
  retry_available =
      is_import_mode run.import_mode && has_rows (retry_prepared_rows run.result_payload);
  last_error = first_error_from_payload run.result_payload;
}
