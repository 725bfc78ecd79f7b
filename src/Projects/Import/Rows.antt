-- ===== src/Projects/Import/Rows.antt =====
-- The rows that an import prepares from the rows of the file: the loop of
-- `import_project_doors_from_file` (app/modules/projects/application/file_import_service.py) and the
-- helpers that it calls. What Python's `float`, `Decimal`, `UUID` and `str.lower` answer is given by
-- `Python`; amounts are hundredths.
use dimax_ops_backend.Base.{
  ℕ, suc, Bool, true, false, ◌&&◌, ◌||◌, not, Option, none, some, List, [], ◌∷◌, String, ◌==◌, leb,
  ltb, if◌then◌else◌, ℤ, pos, negsuc, chars, clip, concat, strip, strip_of, join, str,
  is_blank_text, is_given, get_or, same_text, is_empty,
}
use Prim.Native.Char.{code}
use dimax_ops_backend.Store.{find, add}
use dimax_ops_backend.Domain.{DoorType, http_error, value_error, other_error}
use dimax_ops_backend.Uow.{
  Uow, Action, pure, raise, or_raise, query, ◌>>=◌, ◌>>◌, raise_if, branch, modify, new_id,
  flush_session,
}
use dimax_ops_backend.Projects.Import.Text.{
  Unicode, Row, AliasGroups, first_value, normalize_optional_value, normalize_marking,
  normalize_location_code,
}

-- `int(float(text))`: a number, `ValueError`, or `OverflowError` on an infinity.
pub data Parsed : Type 0 where
  number : ℤ → Parsed
  malformed overflow : Parsed

pub record Python : Type 0 where
  pub unicode : Unicode
  pub lower : String → String
  pub int_float : String → Parsed
  pub decimal : String → Option ℤ  -- `none` for `InvalidOperation`
  pub uuid : String → Option ℕ  -- `none` for `ValueError`

-- The parameters of an import that its loop reads.
pub record LoopOptions : Type 0 where
  pub company_id : ℕ
  pub profile_code : String
  pub strict_required : Bool
  pub create_missing_door_types : Bool
  pub default_door_type_id : Option ℕ
  pub default_our_price : ℕ
  pub alias_groups : AliasGroups

abbrev missing_field : (name : String) → Option String → List String → List String
missing_field name none rest = name ∷ rest
missing_field name (some v) rest = rest

unfoldable pub required_row_missing_fields :
    (order_number house_number floor_label apartment_number door_marking : Option String)
    → List String
required_row_missing_fields order_number house_number floor_label apartment_number door_marking =
    missing_field "order_number" order_number (
      missing_field "house_number" house_number (
        missing_field "floor_label" floor_label (
          missing_field "apartment_number" apartment_number
            (missing_field "door_marking" door_marking []))))

abbrev check_quantity : (value : String) → Bool → ℕ → Action ℕ
check_quantity value bad n =
    branch bad (raise (http_error 422 (concat "quantity out of range: " value))) (pure n)

abbrev quantity_in_range : (value : String) → ℤ → Action ℕ
quantity_in_range value (negsuc n) = check_quantity value true 0
quantity_in_range value (pos n) = check_quantity value (ltb n 1 || ltb 1000 n) n

-- `text.replace(",", ".")`
unfoldable pub replace_commas : String → String
unfolding concat
replace_commas String.[] = String.[]
replace_commas (String.◌∷◌ c s) =
    let rest = replace_commas s in if code c == b',' then concat "." rest else String.◌∷◌ c rest

unfoldable pub parse_quantity : Python → Option String → Action ℕ
unfolding concat replace_commas
parse_quantity python none = pure 1
parse_quantity python (some value) =
    branch (is_blank_text (strip value)) (pure 1)
      (elim (python.int_float (replace_commas (strip value))) [
        | number z ↦ quantity_in_range value z
        | malformed ↦ raise (http_error 422 (concat "invalid quantity: " value))
        | overflow ↦ raise (other_error "cannot convert float infinity to integer")
      ])

unfoldable pub parse_price : Python → Option String → (default_price : ℕ) → Action ℕ
unfolding concat replace_commas
parse_price python none default_price = pure default_price
parse_price python (some value) default_price =
    branch (is_blank_text (strip value)) (pure default_price)
      (elim (python.decimal (strip (replace_commas value))) [
        | none ↦ raise (http_error 422 (concat "invalid price: " value))
        | some (pos n) ↦ pure n
        | some (negsuc n) ↦ raise (http_error 422 (concat "price must be >= 0: " value))
      ])

abbrev pub is_factory : String → Bool
is_factory profile = same_text profile "factory_he_v1" || same_text profile "factory_ru_v1"

unfoldable pub factory_profile_door_type_code_fallback :
    Unicode
    → (profile_code : String) (door_marking : Option String) → Row
    → AliasGroups
    → Option String
unfolding first_value
factory_profile_door_type_code_fallback unicode profile_code door_marking source groups =
    if not (is_factory profile_code)
      || is_given (first_value unicode source groups.door_type_code)
      || is_given (first_value unicode source groups.door_type_id)
    then none
    else door_marking

-- What the loop reads of a row of the file.
pub record Fields : Type 0 where
  pub raw_unit_label : Option String
  pub order_number : Option String
  pub house_number : Option String
  pub floor_label : Option String
  pub apartment_number : Option String
  pub location_code : Option String
  pub door_marking : Option String

unfoldable pub read_fields : Unicode → AliasGroups → Row → Fields
unfolding first_value normalize_optional_value normalize_location_code normalize_marking
read_fields unicode groups source = record {
  raw_unit_label = first_value unicode source groups.unit_label;
  order_number = normalize_optional_value (first_value unicode source groups.order_number) 80;
  house_number = normalize_optional_value (first_value unicode source groups.house) 40;
  floor_label = normalize_optional_value (first_value unicode source groups.floor) 40;
  apartment_number = normalize_optional_value (first_value unicode source groups.apartment) 40;
  location_code =
      elim (normalize_location_code unicode (first_value unicode source groups.location) false) [
        | some l ↦ some l
        | none ↦ normalize_location_code unicode (first_value unicode source groups.marking) true
      ];
  door_marking = normalize_marking (first_value unicode source groups.marking);
}

abbrev given_parts : List (Option String) → List String
given_parts [] = []
given_parts (none ∷ parts) = given_parts parts
given_parts (some t ∷ parts) = if is_blank_text t then given_parts parts else t ∷ given_parts parts

-- `_build_unit_label`
unfoldable pub build_unit_label : Fields → (quantity_index quantity row_number : ℕ) → String
unfolding concat join str
build_unit_label f quantity_index quantity row_number =
    let parts = given_parts (
      f.house_number ∷ f.floor_label ∷ f.apartment_number ∷ f.location_code ∷ f.door_marking
      ∷ []) in
    let built = if is_empty parts then concat "ROW-" (str row_number) else join "-" parts in
    let base = if is_given f.raw_unit_label then get_or f.raw_unit_label "" else built in
    clip 120 (if ltb 1 quantity then concat base (concat "/" (str (suc quantity_index))) else base)

abbrev pub has_code : (company_id : ℕ) (code : String) → DoorType → Bool
has_code company_id code t = t.company_id == company_id && same_text t.code code

abbrev is_code_char : ℕ → Bool
is_code_char c = leb b'a' c && leb c b'z' || leb b'0' c && leb c b'9' || c == b'_' || c == b'-'

-- `re.sub(r"[^a-z0-9_-]+", "-", text)`: a run of other characters is one dash; `in_run` says that
-- the dash of the run has been written.
unfoldable pub type_code : (in_run : Bool) → String → String
unfolding concat
type_code in_run String.[] = String.[]
type_code in_run (String.◌∷◌ c s) =
    let kept = type_code false s in
    let rest = type_code true s in
    if is_code_char (code c) then String.◌∷◌ c kept else if in_run then rest else concat "-" rest

-- The normalised code of a door type.
unfoldable pub door_type_code_of : Python → String → String
unfolding type_code
door_type_code_of python text =
    clip 64 (strip_of (λ c. c == b'-') (type_code false (python.lower (strip text))))

abbrev pub new_door_type : (id company_id : ℕ) (code name : String) → DoorType
new_door_type id company_id code name = record {
  id = id;
  company_id = company_id;
  code = code;
  name = name;
  is_active = true;
  deleted_at = none;
}

-- `DoorTypeORM(...)`, saved and flushed
abbrev pub save_type : (id company_id : ℕ) (code door_type_code : String) → Uow → Uow
save_type id company_id code door_type_code u = record u {
  door_types =
      add (new_door_type id company_id code (clip 256 (strip door_type_code))) u.door_types;
}

abbrev pub create_type : (company_id : ℕ) (code door_type_code : String) → Action (Option ℕ)
create_type company_id code door_type_code = new_id >>= λ id.
    modify (save_type id company_id code door_type_code) >> (flush_session >> pure (some id))

-- What becomes of the door type that the query found, or did not find.
abbrev pub named_type :
    LoopOptions → (code door_type_code : String) → Option DoorType → Action (Option ℕ)
named_type options code door_type_code (some t) = pure (some t.id)
named_type options code door_type_code none =
    branch options.create_missing_door_types (create_type options.company_id code door_type_code)
      (pure none)

-- The door type that a code names, made when it is missing and the import may.
unfoldable pub type_by_code : Python → LoopOptions → (door_type_code : String) → Action (Option ℕ)
unfolding door_type_code_of
type_by_code python options door_type_code = do
  raise_if (ltb (chars (door_type_code_of python door_type_code)) 2)
      (http_error 422 "door_type_code is invalid")
  found ← query (λ u.
      find (has_code options.company_id (door_type_code_of python door_type_code)) u.door_types)
  named_type options (door_type_code_of python door_type_code) door_type_code found

abbrev pub uuid_of : Python → String → Action (Option ℕ)
uuid_of python raw = elim (python.uuid raw) [
  | none ↦ raise (value_error "badly formed hexadecimal UUID string")
  | some id ↦ pure (some id)
]

-- `if door_type_id is None: door_type_id = default_door_type_id`
abbrev pub default_type : LoopOptions → Option ℕ → Action ℕ
default_type options (some id) = pure id
default_type options none =
    or_raise options.default_door_type_id
      (http_error 422 "door_type_id or door_type_code is required")

-- The door type that the id or the code of a row names.
abbrev pub given_type :
    Python → LoopOptions → (raw door_type_code : Option String) → Action (Option ℕ)
given_type python options raw door_type_code =
    branch (is_given raw) (uuid_of python (get_or raw "")) (
      branch (is_given door_type_code) (type_by_code python options (get_or door_type_code ""))
        (pure none))

-- The code of a row's door type, or what the factory profiles take for it.
unfoldable pub code_of_row : Python → LoopOptions → Row → Fields → Option String
unfolding first_value factory_profile_door_type_code_fallback
code_of_row python options source f =
    let given = first_value python.unicode source options.alias_groups.door_type_code in
    if is_given given
    then given
    else factory_profile_door_type_code_fallback python.unicode options.profile_code f.door_marking
        source options.alias_groups

-- `door_type_id` of a row.
unfoldable pub type_of_row : Python → LoopOptions → Row → Fields → Action ℕ
unfolding first_value code_of_row type_by_code
type_of_row python options source f =
    given_type python options (first_value python.unicode source options.alias_groups.door_type_id)
      (code_of_row python options source f)
    >>= default_type options
