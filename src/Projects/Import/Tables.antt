-- ===== src/Projects/Import/Tables.antt =====
-- The rows of a file: `_split_tabular_line`, `_detect_header_categories`, `_rows_from_tabular_lines`,
-- `_parse_pdf_rows` and `_parse_rows_by_filename` of
-- app/modules/projects/application/file_import_service.py. The parsers of the formats are given by
-- `Parsers`, and so are the lines that a PDF shows or that its images do.
use dimax_ops_backend.Base.{
  ℕ, zero, suc, ◌-◌, Bool, true, false, ◌&&◌, ◌||◌, not, Option, none, some, List, [], ◌∷◌, ◌++◌,
  String, if◌then◌else◌, leb, ltb, any, filter, length, map, is_empty, chars, concat, join, strip,
  is_space, is_blank_text, is_given, is_some, mem_text, same_text, last?, get_or,
}
use Prim.Native.Char.{code}
use dimax_ops_backend.Domain.{http_error}
use dimax_ops_backend.Uow.{Result, ok, err}
use dimax_ops_backend.Projects.Import.Text.{Unicode, Row, AliasGroups, normalize_token, clean_text}

-- `c + pieces[0]`
abbrev pub onto_first : String → List String → List String
onto_first c [] = c ∷ []
onto_first c (p ∷ ps) = concat c p ∷ ps

abbrev pub starts_with : (start : String) → String → Bool
starts_with String.[] s = true
starts_with (String.◌∷◌ a t) String.[] = false
starts_with (String.◌∷◌ a t) (String.◌∷◌ b s) =
    same_text (String.◌∷◌ a String.[]) (String.◌∷◌ b String.[]) && starts_with t s

-- `text.split(sep)` of a separator that is not empty; `skip` characters belong to one that was found.
unfoldable pub split_on : (sep : String) → (skip : ℕ) → String → List String
unfolding concat
split_on sep skip String.[] = String.[] ∷ []
split_on sep (suc skip) (String.◌∷◌ c s) = split_on sep skip s
split_on sep zero (String.◌∷◌ c s) =
    let found = split_on sep (chars sep - 1) s in
    let rest = split_on sep 0 s in
    if starts_with sep (String.◌∷◌ c s)
    then String.[] ∷ found
    else onto_first (String.◌∷◌ c String.[]) rest

abbrev starts_with_space : String → Bool
starts_with_space String.[] = false
starts_with_space (String.◌∷◌ c s) = is_space (code c)

-- `re.split(r"\\s{2,}", text)`; `in_run` says that a run of spaces goes on.
unfoldable pub split_spaces : (in_run : Bool) → String → List String
unfolding concat is_space
split_spaces in_run String.[] = String.[] ∷ []
split_spaces in_run (String.◌∷◌ c s) =
    let run = split_spaces true s in
    let rest = split_spaces false s in
    if is_space (code c) && in_run
    then run
    else if is_space (code c) && starts_with_space s
    then String.[] ∷ run
    else onto_first (String.◌∷◌ c String.[]) rest

-- The loop over the separators.
unfoldable pub split_by :
    (separators : List String) → (text : String) → Option (List String × String)
unfolding split_on strip
split_by [] text = none
split_by (sep ∷ separators) text =
    let rest = split_by separators text in
    let pieces = split_on sep 0 text in
    if ltb 1 (length pieces) then some (map strip pieces, sep) else rest

abbrev given_list : Option String → List String
given_list o = if is_given o then get_or o "" ∷ [] else []

-- `_split_tabular_line`
unfoldable pub split_tabular_line :
    (delimiter preferred_separator : Option String) (line : String) → List String × Option String
unfolding split_by split_spaces strip
split_tabular_line delimiter preferred_separator line =
    let text = strip line in
    let separators =
      given_list delimiter ++ given_list preferred_separator ++ "\t" ∷ "|" ∷ ";" ∷ "," ∷ [] in
    let spaced =
      map strip (filter (λ c. not (is_blank_text (strip c))) (split_spaces false text)) in
    if is_blank_text text then ([], none) else elim (split_by separators text) [
      | some found ↦ (found.0, some found.1)
      | none ↦ if ltb 1 (length spaced) then (spaced, some "__space__") else (text ∷ [], none)
    ]

abbrev groups_of : AliasGroups → List (List String)
groups_of g =
    g.house ∷ g.floor ∷ g.apartment ∷ g.marking ∷ g.location ∷ g.door_type_code ∷ g.door_type_id
    ∷ g.qty ∷ g.price ∷ g.unit_label ∷ g.order_number ∷ []

-- `row[key] = value`
unfoldable pub set_cell : (key value : String) → Row → Row
set_cell key value [] = (key, some value) ∷ []
set_cell key value ((k, v) ∷ row) =
    let rest = set_cell key value row in
    if same_text k key then (k, some value) ∷ row else (k, v) ∷ rest

unfoldable pub row_of : (headers cells : List String) → Row → Row
unfolding set_cell
row_of [] cells row = row
row_of (h ∷ headers) [] row = row
row_of (h ∷ headers) (c ∷ cells) row = row_of headers cells (set_cell h c row)

-- The cells, as many as there are headers.
unfoldable pub fit_cells : (headers cells : List String) → List String
unfolding join
fit_cells headers [] = map (λ h. "") headers
fit_cells [] (c ∷ cells) = []
fit_cells (h ∷ []) (c ∷ cells) = join " " (c ∷ cells) ∷ []
fit_cells (h ∷ k ∷ headers) (c ∷ cells) = c ∷ fit_cells (k ∷ headers) cells

-- The row of a line in a file without headers.
unfoldable pub fallback_row : (cells : List String) → Option Row
fallback_row (a ∷ b ∷ c ∷ d ∷ []) =
    some (("house", some a) ∷ ("floor", some b) ∷ ("apartment", some c) ∷ ("marking", some d) ∷ [])
fallback_row (a ∷ b ∷ c ∷ d ∷ e ∷ []) = some (
    ("house", some a)
    ∷ ("floor", some b)
    ∷ ("apartment", some c)
    ∷ ("marking", some d)
    ∷ ("door_type", some e)
    ∷ [])
fallback_row (a ∷ b ∷ c ∷ d ∷ e ∷ f ∷ rest) = some (
    ("house", some a)
    ∷ ("floor", some b)
    ∷ ("apartment", some c)
    ∷ ("marking", some d)
    ∷ ("door_type", some e)
    ∷ ("qty", some f)
    ∷ [])
fallback_row cells = none

abbrev append_row : Option Row → List Row → List Row
append_row none rows = rows
append_row (some r) rows = r ∷ rows

module _ (unicode : Unicode) (groups : AliasGroups) where
  -- The number of `_detect_header_categories`.
  unfoldable pub count_header_categories : (cells : List String) → ℕ
  unfolding normalize_token
  count_header_categories cells = length (
      filter
        (λ aliases.
          any
            (λ c.
              not (is_blank_text (normalize_token unicode c))
              && mem_text (normalize_token unicode c) aliases)
            cells)
        (groups_of groups))

  -- The row of a line below the headers, when some cell is not blank.
  unfoldable pub table_row : (headers cells : List String) → Option Row
  unfolding row_of fit_cells clean_text
  table_row headers cells =
      let row = row_of headers (fit_cells headers cells) [] in
      if any (λ c. is_some (clean_text c.1)) row then some row else none

  -- `_rows_from_tabular_lines`
  unfoldable pub rows_from_tabular_lines :
      (delimiter : Option String) (headers : Option (List String)) (separator : Option String)
      → (lines : List String) → List Row
  unfolding split_tabular_line count_header_categories table_row fallback_row
  rows_from_tabular_lines delimiter headers separator [] = []
  rows_from_tabular_lines delimiter headers separator (line ∷ lines) =
      let split = split_tabular_line delimiter separator line in
      let below = rows_from_tabular_lines delimiter (some split.0) split.1 lines in
      let rest = rows_from_tabular_lines delimiter headers separator lines in
      if is_empty split.0
      then rest
      else if leb 2 (count_header_categories split.0)
      then below
      else append_row
          (elim headers [ none ↦ fallback_row split.0 | some hs ↦ table_row hs split.0 ]) rest

-- What the libraries read in a file.
pub record Parsers : Type 0 where
  pub delimited_rows : List ℕ → (delimiter : Option String) → Result (List Row)
  pub json_rows : List ℕ → Result (List Row)
  pub xml_rows : List ℕ → Result (List Row)
  pub xlsx_rows : List ℕ → Result (List Row)
  pub pdf_text_lines : List ℕ → Result (List String)
  pub ocr_lines : List ℕ → List String
  pub lower : String → String

module _ (parsers : Parsers) (unicode : Unicode) (groups : AliasGroups) where
  -- `_parse_pdf_rows`: the text of the file, and its images when the text has no rows.
  unfoldable pub parse_pdf_rows : List ℕ → (delimiter : Option String) → Result (List Row)
  unfolding rows_from_tabular_lines
  parse_pdf_rows content delimiter = elim (parsers.pdf_text_lines content) [
    | err e ↦ err e
    | ok lines ↦
        let rows = rows_from_tabular_lines unicode groups delimiter none none lines in
        let scanned =
          rows_from_tabular_lines unicode groups delimiter none none (parsers.ocr_lines content) in
        ok (if is_empty rows then scanned else rows)
  ]

  -- `filename.rsplit(".", 1)[-1].lower() if "." in filename else ""`
  unfoldable pub extension : (filename : String) → String
  unfolding split_on
  extension filename =
      let pieces = split_on "." 0 filename in
      if ltb 1 (length pieces) then parsers.lower (get_or (last? pieces) "") else ""

  unfoldable pub parse_rows_by_filename :
      (filename : String) → (content : List ℕ) → (delimiter : Option String) → Result (List Row)
  unfolding parse_pdf_rows extension concat
  parse_rows_by_filename filename content delimiter =
      let ext = extension filename in
      if same_text ext "csv" || same_text ext "txt"
      then parsers.delimited_rows content delimiter
      else if same_text ext "tsv"
      then parsers.delimited_rows content (some "\t")
      else if same_text ext "json"
      then parsers.json_rows content
      else if same_text ext "xml"
      then parsers.xml_rows content
      else if same_text ext "xlsx"
      then parsers.xlsx_rows content
      else if same_text ext "pdf"
      then parse_pdf_rows content delimiter
      else err (
          http_error 422
            (concat "unsupported file format: ." (if is_blank_text ext then "unknown" else ext)))
