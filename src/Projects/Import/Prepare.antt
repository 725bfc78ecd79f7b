-- ===== src/Projects/Import/Prepare.antt =====
-- The loop of `import_project_doors_from_file` over the rows of the file
-- (app/modules/projects/application/file_import_service.py): it collects the rows to import, the
-- errors, and the number of repetitions. A row that raises is recorded and the loop goes on, in the
-- session as that row left it.
use dimax_ops_backend.Base.{
  ℕ, suc, zero, Bool, true, false, ◌&&◌, ◌||◌, not, List, [], ◌∷◌, ◌++◌, String, ◌==◌, clip, concat,
  join, is_empty, same_text,
}
use dimax_ops_backend.Domain.{PreparedRow, RowError, Error, http_error, message}
use dimax_ops_backend.Uow.{Uow, Result, ok, err, Action, pure, ◌>>=◌, ◌>>◌, raise_if}
use dimax_ops_backend.Projects.Import.Text.{Row, first_value}
use dimax_ops_backend.Projects.Import.Rows.{
  Python, LoopOptions, Fields, read_fields, required_row_missing_fields, parse_quantity,
  parse_price, type_of_row, build_unit_label,
}

-- The key of a row in `payload_keys_seen`.
abbrev pub Key : Type 0
Key = String × ℕ

abbrev pub same_key : Key → Key → Bool
same_key a b = same_text a.0 b.0 && a.1 == b.1

abbrev pub mem_key : Key → List Key → Bool
mem_key k [] = false
mem_key k (j ∷ js) = same_key k j || mem_key k js

-- The variables of the loop.
pub record Prepared : Type 0 where
  pub rows : List PreparedRow
  pub errors : List RowError
  pub seen : List Key
  pub skipped : ℕ

abbrev pub nothing_prepared : Prepared
nothing_prepared = record { rows = []; errors = []; seen = []; skipped = 0 }

-- A row of the file, read: its fields, how many doors it stands for, their price and their type.
pub record Parsed : Type 0 where
  pub fields : Fields
  pub quantity : ℕ
  pub price : ℕ
  pub door_type_id : ℕ

abbrev pub prepared_row : Parsed → (unit_label : String) → PreparedRow
prepared_row p unit_label = record {
  door_type_id = p.door_type_id;
  our_price = p.price;
  labels = record {
    unit_label = unit_label;
    order_number = p.fields.order_number;
    house_number = p.fields.house_number;
    floor_label = p.fields.floor_label;
    apartment_number = p.fields.apartment_number;
    location_code = p.fields.location_code;
    door_marking = p.fields.door_marking;
  };
}

abbrev pub label_for : Parsed → (row_number q_idx : ℕ) → String
label_for p row_number q_idx = build_unit_label p.fields q_idx p.quantity row_number

-- The two branches on `key in payload_keys_seen`.
unfoldable pub keep_row : (again : Bool) → Key → PreparedRow → Prepared → Prepared
keep_row true key r st = record st { skipped = suc st.skipped }
keep_row false key r st = record st { seen = st.seen ++ key ∷ []; rows = st.rows ++ r ∷ [] }

-- The body of `for q_idx in range(qty)`.
unfoldable pub add_copy : Parsed → (row_number q_idx : ℕ) → Prepared → Prepared
unfolding keep_row
add_copy p row_number q_idx st =
    keep_row (mem_key (label_for p row_number q_idx, p.door_type_id) st.seen)
      (label_for p row_number q_idx, p.door_type_id) (prepared_row p (label_for p row_number q_idx))
      st

-- The copies from `q_idx` on, of which `left` are left.
unfoldable pub add_copies : Parsed → (row_number left q_idx : ℕ) → Prepared → Prepared
unfolding add_copy
add_copies p row_number zero q_idx st = st
add_copies p row_number (suc left) q_idx st =
    add_copies p row_number left (suc q_idx) (add_copy p row_number q_idx st)

-- `if strict_required: ... raise`
abbrev missing_values : Fields → List String
missing_values f =
    required_row_missing_fields f.order_number f.house_number f.floor_label f.apartment_number
      f.door_marking

unfoldable pub check_required : (strict : Bool) → Fields → Action (Unit {0})
unfolding required_row_missing_fields concat join
check_required strict f =
    raise_if (strict && not (is_empty (missing_values f)))
      (http_error 422 (concat "missing required row values: " (join ", " (missing_values f))))

-- The end of `parse_row`, from the door type on.
abbrev pub parse_type : Python → LoopOptions → Row → Fields → (quantity price : ℕ) → Action Parsed
parse_type python options source f quantity price =
    type_of_row python options source f >>= λ door_type_id.
    pure (record { fields = f; quantity = quantity; price = price; door_type_id = door_type_id })

-- The end of `parse_row`, from the price on.
abbrev pub parse_amounts : Python → LoopOptions → Row → Fields → (quantity : ℕ) → Action Parsed
parse_amounts python options source f quantity =
    parse_price python (first_value python.unicode source options.alias_groups.price)
      options.default_our_price
    >>= parse_type python options source f quantity

-- The body of the loop up to the copies.
unfoldable pub parse_row : Python → LoopOptions → Row → Action Parsed
unfolding read_fields first_value check_required parse_quantity parse_price type_of_row
parse_row python options source =
    let f = read_fields python.unicode options.alias_groups source in
    check_required options.strict_required f
    >> (parse_quantity python (first_value python.unicode source options.alias_groups.qty)
        >>= parse_amounts python options source f)

abbrev pub add_error : (row_number : ℕ) → Error → Prepared → Prepared
add_error row_number e st = record st {
  errors = st.errors ++ record { row = row_number; message = clip 500 (message e) } ∷ [];
}

-- `try: ... except Exception as e: errors.append(...)` around a row.
unfoldable pub catch_row : (row_number : ℕ) → Prepared → Result Parsed × Uow → Result Prepared × Uow
unfolding add_copies
catch_row row_number st (ok p, v) = (ok (add_copies p row_number p.quantity 0 st), v)
catch_row row_number st (err e, v) = (ok (add_error row_number e st), v)

unfoldable pub prepare_row :
    Python → LoopOptions → (row_number : ℕ) → Row → Prepared → Action Prepared
unfolding parse_row catch_row
prepare_row python options row_number source st u =
    catch_row row_number st (parse_row python options source u)

unfoldable pub prepare_rows :
    Python → LoopOptions → (row_number : ℕ) → List Row → Prepared → Action Prepared
unfolding prepare_row
prepare_rows python options row_number [] st = pure st
prepare_rows python options row_number (source ∷ sources) st =
    prepare_row python options row_number source st
    >>= prepare_rows python options (suc row_number) sources
