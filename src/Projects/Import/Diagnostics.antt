-- ===== src/Projects/Import/Diagnostics.antt =====
-- The diagnostics of an imported file: `_collect_columns_diagnostics` and `_collect_data_summary` of
-- app/modules/projects/application/file_import_service.py.
use dimax_ops_backend.Base.{
  ℕ, Bool, ◌||◌, not, Option, none, some, List, [], ◌∷◌, ◌++◌, String, if◌then◌else◌, map, filter,
  length, strip, is_blank_text, is_empty, mem_text,
}
use dimax_ops_backend.Domain.{PreparedRow, DataSummary, RequiredField, Diagnostics}
use dimax_ops_backend.Projects.Import.Text.{Unicode, Row, AliasGroups, normalize_token}

-- The labels of the columns in the order in which the rows show them, each once.
unfoldable pub source_columns_of_row : Row → (seen : List String) → List String
source_columns_of_row [] seen = seen
source_columns_of_row ((key, value) ∷ row) seen = source_columns_of_row row (
    if is_blank_text (strip key) || mem_text (strip key) seen then seen else seen ++ strip key ∷ [])

unfoldable pub source_columns : List Row → (seen : List String) → List String
unfolding source_columns_of_row
source_columns [] seen = seen
source_columns (row ∷ rows) seen = source_columns rows (source_columns_of_row row seen)

-- `any(token in aliases for aliases in alias_groups.values())`
abbrev pub is_recognized : AliasGroups → (token : String) → Bool
is_recognized g token =
    mem_text token g.house
    || mem_text token g.floor
    || mem_text token g.apartment
    || mem_text token g.marking
    || mem_text token g.location
    || mem_text token g.door_type_code
    || mem_text token g.door_type_id
    || mem_text token g.qty
    || mem_text token g.price
    || mem_text token g.unit_label
    || mem_text token g.order_number

-- `REQUIRED_IMPORT_FIELDS`: key, display name and aliases.
abbrev pub required_import_fields : AliasGroups → List (String × String × List String)
required_import_fields g =
    ("house_number", "\u{5d1}\u{5e0}\u{5d9}\u{5d9}\u{5df}", g.house)
    ∷ ("floor_label", "\u{5e7}\u{5d5}\u{5de}\u{5d4}", g.floor)
    ∷ ("apartment_number", "\u{5d3}\u{5d9}\u{5e8}\u{5d4}", g.apartment)
    ∷ ("door_marking", "\u{5d3}\u{5d2}\u{5dd} \u{5db}\u{5e0}\u{5e3}", g.marking)
    ∷ (
      "order_number", "\u{5de}\u{5e1}\u{5e4}\u{5e8} \u{5d4}\u{5d6}\u{5de}\u{5e0}\u{5d4}",
      g.order_number,
    )
    ∷ []

module _ (unicode : Unicode) where
  unfoldable pub matched_fields :
      List (String × String × List String) → (columns : List String) → List RequiredField
  unfolding normalize_token
  matched_fields [] columns = []
  matched_fields ((field_key, display_name, aliases) ∷ fields) columns =
      let matched = filter (λ c. mem_text (normalize_token unicode c) aliases) columns in
      record {
        field_key = field_key;
        display_name = display_name;
        found = not (is_empty matched);
        matched_columns = matched;
      }
      ∷ matched_fields fields columns

  unfoldable pub collect_columns_diagnostics :
      List Row
      → AliasGroups
      → (mapping_profile : String) (strict_required_fields : Bool) → Diagnostics
  unfolding source_columns matched_fields normalize_token
  collect_columns_diagnostics parsed_rows groups mapping_profile strict_required_fields =
      let columns = source_columns parsed_rows [] in
      let required = matched_fields (required_import_fields groups) columns in
      record {
        required_fields = required;
        recognized_columns = filter (λ c. is_recognized groups (normalize_token unicode c)) columns;
        unmapped_columns =
            filter (λ c. not (is_recognized groups (normalize_token unicode c))) columns;
        mapping_profile = mapping_profile;
        strict_required_fields = strict_required_fields;
        missing_required_fields = map (λ f. f.field_key) (filter (λ f. not f.found) required);
        data_summary = none;
        preview_groups = [];
      }

-- The size of a set of texts, without the missing and the blank ones.
unfoldable pub count_texts : List (Option String) → (seen : List String) → ℕ
count_texts [] seen = length seen
count_texts (none ∷ texts) seen = count_texts texts seen
count_texts (some t ∷ texts) seen =
    count_texts texts
      (if is_blank_text (strip t) || mem_text (strip t) seen then seen else strip t ∷ seen)

unfoldable pub collect_data_summary :
    (parsed : ℕ) → List PreparedRow → (errors skipped_duplicates : ℕ) → DataSummary
unfolding count_texts
collect_data_summary parsed rows errors skipped_duplicates = record {
  source_rows = parsed;
  prepared_rows = length rows;
  rows_with_errors = errors;
  duplicate_rows_skipped = skipped_duplicates;
  unique_order_numbers = count_texts (map (λ r. r.labels.order_number) rows) [];
  unique_houses = count_texts (map (λ r. r.labels.house_number) rows) [];
  unique_floors = count_texts (map (λ r. r.labels.floor_label) rows) [];
  unique_apartments = count_texts (map (λ r. r.labels.apartment_number) rows) [];
  unique_locations = count_texts (map (λ r. r.labels.location_code) rows) [];
  unique_markings = count_texts (map (λ r. r.labels.door_marking) rows) [];
}
