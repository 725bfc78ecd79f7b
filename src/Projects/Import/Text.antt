-- ===== src/Projects/Import/Text.antt =====
-- The normalising of an imported file's texts: app/modules/projects/application/file_import_service.py.
-- `casefold` and `is_alnum` are Python's `str.casefold` and `str.isalnum`, which stand on the Unicode
-- tables; characters are their code points.
use dimax_ops_backend.Base.{
  ℕ, Bool, false, ◌&&◌, ◌||◌, Option, none, some, List, [], ◌∷◌, String, ◌==◌, leb, if◌then◌else◌,
  elem, clip, strip, strip_of, concat, is_blank_text, mem_text, same_text, text_or_none,
}
use Prim.Native.Char.{code}
use dimax_ops_backend.Projects.Import.Aliases

pub record Unicode : Type 0 where
  pub casefold : String → String
  pub is_alnum : ℕ → Bool

-- A row of the file: the labels of its columns with their cells.
abbrev pub Row : Type 0
Row = List (String × Option String)

abbrev pub is_underscore : ℕ → Bool
is_underscore c = c == b'_'

abbrev pub starts_with_underscore : String → Bool
starts_with_underscore String.[] = false
starts_with_underscore (String.◌∷◌ c s) = is_underscore (code c)

-- `re.sub(r"_+", "_", token)`
unfoldable pub collapse : String → String
collapse String.[] = String.[]
collapse (String.◌∷◌ c s) =
    let rest = collapse s in
    if is_underscore (code c) && starts_with_underscore rest then rest else String.◌∷◌ c rest

-- The characters " ", "-", "_", "/", "\" and ".".
abbrev pub is_separator : ℕ → Bool
is_separator c = elem c (32 ∷ 45 ∷ 95 ∷ 47 ∷ 92 ∷ 46 ∷ [])

-- `_clean_text`
unfoldable pub clean_text : Option String → Option String
clean_text none = none
clean_text (some t) = text_or_none (strip t)

unfoldable pub normalize_optional_value : Option String → (max_len : ℕ) → Option String
unfolding clean_text
normalize_optional_value value max_len = elim (clean_text value) [
  | none ↦ none
  | some raw ↦ some (clip max_len raw)
]

unfoldable pub normalize_marking : Option String → Option String
unfolding clean_text
normalize_marking value = elim (clean_text value) [ none ↦ none | some raw ↦ some (clip 120 raw) ]

-- `re.sub(r"[^0-9a-z_]+", "", token)`
unfoldable pub ascii_of : String → String
ascii_of String.[] = String.[]
ascii_of (String.◌∷◌ c s) =
    let rest = ascii_of s in
    if leb 48 (code c) && leb (code c) 57
      || leb 97 (code c) && leb (code c) 122
      || is_underscore (code c)
    then String.◌∷◌ c rest
    else rest

-- The groups of `_build_alias_groups`.
pub record AliasGroups : Type 0 where
  pub house : List String
  pub floor : List String
  pub apartment : List String
  pub marking : List String
  pub location : List String
  pub door_type_code : List String
  pub door_type_id : List String
  pub qty : List String
  pub price : List String
  pub unit_label : List String
  pub order_number : List String

module _ (unicode : Unicode) where
  -- The loop of `_normalize_token`.
  unfoldable pub token_chars : String → String
  unfolding concat
  token_chars String.[] = String.[]
  token_chars (String.◌∷◌ c s) =
      let rest = token_chars s in
      if unicode.is_alnum (code c)
      then String.◌∷◌ c rest
      else if is_separator (code c)
      then concat "_" rest
      else rest

  unfoldable pub normalize_token : String → String
  unfolding collapse token_chars
  normalize_token value =
      strip_of is_underscore (collapse (token_chars (unicode.casefold (strip value))))

  unfoldable pub alias_set : List String → List String
  unfolding normalize_token
  alias_set [] = []
  alias_set (v ∷ values) =
      let rest = alias_set values in
      if is_blank_text v || is_blank_text (normalize_token v)
      then rest
      else normalize_token v ∷ rest

  unfoldable pub first_value : Row → (aliases : List String) → Option String
  unfolding normalize_token clean_text
  first_value [] aliases = none
  first_value ((key, value) ∷ row) aliases =
      let rest = first_value row aliases in
      if mem_text (normalize_token key) aliases then clean_text value else rest

  -- `_build_alias_groups`, the same for every profile.
  unfoldable pub build_alias_groups : AliasGroups
  unfolding alias_set
  build_alias_groups = record {
    house = alias_set Aliases.house_words;
    floor = alias_set Aliases.floor_words;
    apartment = alias_set Aliases.apartment_words;
    marking = alias_set Aliases.marking_words;
    location = alias_set Aliases.location_words;
    door_type_code = alias_set Aliases.door_type_code_words;
    door_type_id = alias_set Aliases.door_type_id_words;
    qty = alias_set Aliases.qty_words;
    price = alias_set Aliases.price_words;
    unit_label = alias_set Aliases.unit_label_words;
    order_number = alias_set Aliases.order_number_words;
  }

  -- `LOCATION_ALIAS_MAP.get(token)`; of two words with one token the later has the word, but those
  -- have the same code.
  unfoldable pub location_of : List (String × String) → (token : String) → Option String
  unfolding normalize_token
  location_of [] token = none
  location_of ((word, location) ∷ words) token =
      let rest = location_of words token in
      elim rest [
        | some l ↦ some l
        | none ↦ if same_text (normalize_token word) token then some location else none
      ]

  unfoldable pub normalize_location_code : Option String → (aliases_only : Bool) → Option String
  unfolding clean_text normalize_token location_of ascii_of
  normalize_location_code value aliases_only = elim (clean_text value) [
    | none ↦ none
    | some raw ↦
        let token = normalize_token raw in
        if is_blank_text token
        then none
        else elim (location_of Aliases.location_alias_words token) [
          | some mapped ↦ some mapped
          | none ↦
              if aliases_only || is_blank_text (ascii_of token)
              then none
              else some (clip 80 (ascii_of token))
        ]
  ]
