-- ===== src/Projects/Import/Preview.antt =====
-- An analysis of a file leaves the doors alone.
use dimax_ops_backend.Base.{
  ℕ, suc, ◌≡◌, ◌∙◌, refl, true, Option, none, some, List, [], ◌∷◌, String, arith, get_or, is_given,
  chars, ltb, is_empty, length,
}
use mathlib.Core.Path.{subst⁻¹}
use dimax_ops_backend.Store.{objects, find}
use dimax_ops_backend.Store.Laws.{objects-flush}
use dimax_ops_backend.Domain.{
  Diagnostics, Door, DoorType, PreparedRow, ImportResult, integrity_error, pending_rollback,
  not_found, forbidden, conflict, validation_error, value_error, other_error, plan_limit_exceeded,
  http_error,
}
use dimax_ops_backend.Uow.{
  Uow, Result, ok, err, Action, pure, query, ◌>>=◌, ◌>>◌, raise_if, branch, modify, new_id,
  flush_session, flushed,
}
use dimax_ops_backend.Uow.Triples.{
  Any, Holds, pure-Holds, branch-Holds, bind-Holds, new_id-Holds, reads-Holds, modify-Holds,
  flush_session-Holds,
}
use dimax_ops_backend.Projects.{import_doors, get_project}
use dimax_ops_backend.Projects.Import.Text.{Row, first_value}
use dimax_ops_backend.Projects.Import.Rows.{
  Python, LoopOptions, Fields, read_fields, parse_quantity, parse_price, create_type, save_type,
  door_type_code_of, has_code, code_of_row, named_type, uuid_of, default_type, given_type,
  type_by_code, type_of_row,
}
use dimax_ops_backend.Projects.Import.Prepare.{
  Prepared, Parsed, nothing_prepared, check_required, parse_type, parse_amounts, parse_row,
  catch_row, prepare_row, prepare_rows,
}
use dimax_ops_backend.Projects.Import.Service.{
  Library, Request, Setting, setting_of, cached, read_file, parse_file, preview, import_or_preview,
  save_import_run, after_save, save_result, run_import, import_project_doors_from_file,
  finish_import, prepare_and_import, hit_or, look_up, no_rows_text, options_of, result_of,
}

-- The doors, flushed or not, are `ds`.
abbrev Doors : List Door → Uow → Type 0
Doors ds u = objects u.doors ≡ ds

flushed-Doors : (ds : List Door) (u : Uow) → Doors ds u → Doors ds (flushed u)
unfolding flushed
flushed-Doors ds u i = objects-flush u.doors ∙ i

default_type-state :
    (options : LoopOptions) (o : Option ℕ) (u : Uow) → (default_type options o u).1 ≡ u
default_type-state options (some id) u = refl
default_type-state options none u = ground arith

flush-Holds : (ds : List Door) → Holds (Doors ds) flush_session Any
flush-Holds ds = flush_session-Holds (Doors ds) (λ u i. flushed-Doors ds u i) (λ u b i. i)

parse_quantity-state :
    (python : Python) (o : Option String) (u : Uow) → (parse_quantity python o u).1 ≡ u
unfolding parse_quantity
parse_quantity-state python o u = ground arith

parse_price-state :
    (python : Python) (o : Option String) (n : ℕ) (u : Uow) → (parse_price python o n u).1 ≡ u
unfolding parse_price
parse_price-state python o n u = ground arith

create_type-Holds :
    (ds : List Door) (company_id : ℕ) (code text : String)
    → Holds (Doors ds) (create_type company_id code text) Any
create_type-Holds ds c code text =
    bind-Holds (Doors ds) {P = Any} new_id
      (λ id. modify (save_type id c code text) >> (flush_session >> pure (some id)))
      (new_id-Holds (Doors ds) (λ u i. i) (λ u i. tt))
      (λ id _.
        bind-Holds (Doors ds) {P = Any} (modify (save_type id c code text))
          (λ _. flush_session >> pure (some id))
          (modify-Holds (Doors ds) (save_type id c code text) (λ u i. i))
          (λ _ _.
            bind-Holds (Doors ds) {P = Any} flush_session (λ _. pure (some id)) (flush-Holds ds)
              (λ _ _. pure-Holds (Doors ds) (some id) tt)))

named_type-Holds :
    (ds : List Door) (options : LoopOptions) (code text : String) (o : Option DoorType)
    → Holds (Doors ds) (named_type options code text o) Any
named_type-Holds ds options code text (some t) = pure-Holds (Doors ds) (some t.id) tt
named_type-Holds ds options code text none =
    branch-Holds (Doors ds) options.create_missing_door_types
      (create_type options.company_id code text) (pure none)
      (λ _. create_type-Holds ds options.company_id code text) (λ _. pure-Holds (Doors ds) none tt)

type_by_code-Holds :
    (ds : List Door) (python : Python) (options : LoopOptions) (text : String)
    → Holds (Doors ds) (type_by_code python options text) Any
unfolding type_by_code
type_by_code-Holds ds python options text =
    let code = door_type_code_of python text in
    let checked = raise_if (ltb (chars code) 2) (http_error 422 "door_type_code is invalid") in
    let found = query (λ u. find (has_code options.company_id code) u.door_types) in
    bind-Holds (Doors ds) {P = Any} checked (λ _. found >>= named_type options code text)
      (reads-Holds (Doors ds) checked (λ u. refl))
      (λ _ _.
        bind-Holds (Doors ds) {P = Any} found (named_type options code text)
          (reads-Holds (Doors ds) found (λ u. refl))
          (λ o _. named_type-Holds ds options code text o))

uuid_of-state : (python : Python) (raw : String) (u : Uow) → (uuid_of python raw u).1 ≡ u
uuid_of-state python raw u = ground arith

given_type-Holds :
    (ds : List Door) (python : Python) (options : LoopOptions) (raw code : Option String)
    → Holds (Doors ds) (given_type python options raw code) Any
given_type-Holds ds python options raw code =
    branch-Holds (Doors ds) (is_given raw) (uuid_of python (get_or raw ""))
      (branch (is_given code) (type_by_code python options (get_or code "")) (pure none))
      (λ _.
        reads-Holds (Doors ds) (uuid_of python (get_or raw ""))
          (uuid_of-state python (get_or raw "")))
      (λ _.
        branch-Holds (Doors ds) (is_given code) (type_by_code python options (get_or code ""))
          (pure none) (λ _. type_by_code-Holds ds python options (get_or code ""))
          (λ _. pure-Holds (Doors ds) none tt))

type_of_row-Holds :
    (ds : List Door) (python : Python) (options : LoopOptions) (source : Row) (f : Fields)
    → Holds (Doors ds) (type_of_row python options source f) Any
unfolding type_of_row
type_of_row-Holds ds python options source f =
    let raw = first_value python.unicode source options.alias_groups.door_type_id in
    let code = code_of_row python options source f in
    bind-Holds (Doors ds) {P = Any} (given_type python options raw code) (default_type options)
      (given_type-Holds ds python options raw code)
      (λ o _. reads-Holds (Doors ds) (default_type options o) (default_type-state options o))

parse_amounts-Holds :
    (ds : List Door) (python : Python) (options : LoopOptions) (source : Row) (f : Fields)
    (quantity : ℕ)
    → Holds (Doors ds) (parse_amounts python options source f quantity) Any
parse_amounts-Holds ds python options source f quantity =
    let cell = first_value python.unicode source options.alias_groups.price in
    bind-Holds (Doors ds) {P = Any} (parse_price python cell options.default_our_price)
      (parse_type python options source f quantity)
      (reads-Holds (Doors ds) (parse_price python cell options.default_our_price)
        (parse_price-state python cell options.default_our_price))
      (λ price _.
        bind-Holds (Doors ds) {P = Any} (type_of_row python options source f)
          (λ id.
            pure (record { fields = f; quantity = quantity; price = price; door_type_id = id }))
          (type_of_row-Holds ds python options source f) (λ id _. pure-Holds (Doors ds) _ tt))

parse_row-Holds :
    (ds : List Door) (python : Python) (options : LoopOptions) (source : Row)
    → Holds (Doors ds) (parse_row python options source) Any
unfolding parse_row check_required
parse_row-Holds ds python options source =
    let f = read_fields python.unicode options.alias_groups source in
    let cell = first_value python.unicode source options.alias_groups.qty in
    bind-Holds (Doors ds) {P = Any} (check_required options.strict_required f)
      (λ _. parse_quantity python cell >>= parse_amounts python options source f)
      (reads-Holds (Doors ds) (check_required options.strict_required f) (λ u. refl))
      (λ _ _.
        bind-Holds (Doors ds) {P = Any} (parse_quantity python cell)
          (parse_amounts python options source f)
          (reads-Holds (Doors ds) (parse_quantity python cell) (parse_quantity-state python cell))
          (λ quantity _. parse_amounts-Holds ds python options source f quantity))

catch_row-state :
    (row_number : ℕ) (st : Prepared) (r : Result Parsed × Uow) → (catch_row row_number st r).1 ≡ r.1
unfolding catch_row
catch_row-state n st (ok p, v) = refl
catch_row-state n st (err e, v) = refl

prepare_row-Holds :
    (ds : List Door) (python : Python) (options : LoopOptions) (row_number : ℕ) (source : Row)
    (st : Prepared)
    → Holds (Doors ds) (prepare_row python options row_number source st) Any
unfolding prepare_row
prepare_row-Holds ds python options n source st u i = (
  subst⁻¹ (Doors ds) (catch_row-state n st (parse_row python options source u))
      (parse_row-Holds ds python options source u i).0,
  λ _ _. tt,
)

prepare_rows-Holds :
    (ds : List Door) (python : Python) (options : LoopOptions) (row_number : ℕ) (sources : List Row)
    (st : Prepared)
    → Holds (Doors ds) (prepare_rows python options row_number sources st) Any
unfolding prepare_rows
prepare_rows-Holds ds python options n [] st = pure-Holds (Doors ds) st tt
prepare_rows-Holds ds python options n (source ∷ sources) st =
    bind-Holds (Doors ds) {P = Any} (prepare_row python options n source st)
      (prepare_rows python options (suc n) sources)
      (prepare_row-Holds ds python options n source st)
      (λ st' _. prepare_rows-Holds ds python options (suc n) sources st')

-- What a preview writes is taken back.
preview-Holds :
    {A : Type 0} (ds : List Door) (body : Action A) → Holds (Doors ds) (preview body) Any
unfolding preview
preview-Holds ds body =
    bind-Holds (Doors ds) {P = Any} flush_session
      (λ _ u. ((body u).0, record u { next_id = (body u).1.next_id })) (flush-Holds ds)
      (λ _ _ u i. (i, λ _ _. tt))

save_import_run-Holds :
    (ds : List Door) (lib : Library) (now : ℕ) (request : Request) (setting : Setting)
    (rows : List PreparedRow) (result : ImportResult)
    → Holds (Doors ds) (save_import_run lib now request setting rows result) Any
unfolding save_import_run
save_import_run-Holds ds lib now request setting rows result u i = flush-Holds ds _ i

after_save-Holds :
    (ds : List Door) (restart : Uow) (request : Request) (setting : Setting) (result : ImportResult)
    (r : Result (Unit {0}) × Uow)
    → Doors ds restart
    → Doors ds r.1
    → Doors ds (after_save restart request setting result r).1
unfolding after_save
after_save-Holds ds restart request setting result (ok x, v) again i = i
after_save-Holds ds restart request setting result (err integrity_error, v) again i = again
after_save-Holds ds restart request setting result (err pending_rollback, v) again i = i
after_save-Holds ds restart request setting result (err (not_found m), v) again i = i
after_save-Holds ds restart request setting result (err (forbidden m), v) again i = i
after_save-Holds ds restart request setting result (err (conflict m), v) again i = i
after_save-Holds ds restart request setting result (err (validation_error m), v) again i = i
after_save-Holds ds restart request setting result (err (value_error m), v) again i = i
after_save-Holds ds restart request setting result (err (other_error m), v) again i = i
after_save-Holds ds restart request setting result (err (plan_limit_exceeded m), v) again i = i
after_save-Holds ds restart request setting result (err (http_error n m), v) again i = i

save_result-Holds :
    (ds : List Door) (lib : Library) (restart : Uow) (now : ℕ) (request : Request)
    (setting : Setting) (rows : List PreparedRow) (result : ImportResult)
    → Doors ds restart
    → Holds (Doors ds) (save_result lib restart now request setting rows result) Any
unfolding save_result
save_result-Holds ds lib restart now request setting rows result again u i = (
  after_save-Holds ds restart request setting result
      (save_import_run lib now request setting rows result u) again
      (save_import_run-Holds ds lib now request setting rows result u i).0,
  λ _ _. tt,
)

read_file-state :
    (lib : Library) (request : Request) (setting : Setting) (u : Uow)
    → (read_file lib request setting u).1 ≡ u
unfolding read_file parse_file
read_file-state lib request setting u = ground arith

pub setting_of-state :
    (lib : Library) (request : Request) (u : Uow) → (setting_of lib request u).1 ≡ u
unfolding setting_of
setting_of-state lib request u = ground arith

get_project-state :
    (company_id project_id : ℕ) (u : Uow) → (get_project company_id project_id u).1 ≡ u
unfolding get_project
get_project-state c j u = ground arith

import_or_preview-Holds :
    (ds : List Door) (request : Request) (rows : List PreparedRow)
    → request.analyze_only ≡ true
    → Holds (Doors ds) (import_or_preview request rows) Any
unfolding import_or_preview
import_or_preview-Holds ds request rows analyze =
    let body = import_doors request.company_id request.project_id rows true in
    branch-Holds (Doors ds) request.analyze_only (preview body) body (λ _. preview-Holds ds body)
      (λ h. absurd (ground arith))

module _ (ds : List Door) (lib : Library) (restart : Uow) (now : ℕ) (request : Request)
    (again : Doors ds restart) (analyze : request.analyze_only ≡ true) where
  finish_import-Holds :
      (setting : Setting) (read : List Row × Diagnostics) (st : Prepared)
      → Holds (Doors ds) (finish_import lib restart now request setting read st) Any
  finish_import-Holds setting read st =
      let some_rows = raise_if (is_empty st.rows) (http_error 422 (no_rows_text st.errors)) in
      let save = λ (answer : ℕ × ℕ).
        save_result lib restart now request setting st.rows
          (result_of lib.python.unicode request (length read.0) read.1 st answer) in
      bind-Holds (Doors ds) {P = Any} some_rows (λ _. import_or_preview request st.rows >>= save)
        (reads-Holds (Doors ds) some_rows (λ u. refl))
        (λ _ _.
          bind-Holds (Doors ds) {P = Any} (import_or_preview request st.rows) save
            (import_or_preview-Holds ds request st.rows analyze)
            (λ answer _.
              save_result-Holds ds lib restart now request setting st.rows
                (result_of lib.python.unicode request (length read.0) read.1 st answer) again))

  run_import-Holds :
      (setting : Setting) → Holds (Doors ds) (run_import lib restart now request setting) Any
  unfolding run_import
  run_import-Holds setting =
      bind-Holds (Doors ds) {P = Any} (read_file lib request setting)
        (prepare_and_import lib restart now request setting)
        (reads-Holds (Doors ds) (read_file lib request setting)
          (read_file-state lib request setting))
        (λ read _.
          let loop =
            prepare_rows lib.python (options_of lib request setting) 1 read.0 nothing_prepared in
          bind-Holds (Doors ds) {P = Any} loop (finish_import lib restart now request setting read)
            (prepare_rows-Holds ds lib.python (options_of lib request setting) 1 read.0
              nothing_prepared)
            (λ st _. finish_import-Holds setting read st))

  hit_or-Holds :
      (setting : Setting) (o : Option ImportResult)
      → Holds (Doors ds) (hit_or lib restart now request setting o) Any
  hit_or-Holds setting none = run_import-Holds setting
  hit_or-Holds setting (some result) = pure-Holds (Doors ds) result tt

  import-Holds : Holds (Doors ds) (import_project_doors_from_file lib restart now request) Any
  unfolding import_project_doors_from_file
  import-Holds =
      let project = get_project request.company_id request.project_id in
      let setting_of_request = setting_of lib request in
      bind-Holds (Doors ds) {P = Any} project
        (λ _. setting_of_request >>= look_up lib restart now request)
        (reads-Holds (Doors ds) project (get_project-state request.company_id request.project_id))
        (λ _ _.
          bind-Holds (Doors ds) {P = Any} setting_of_request (look_up lib restart now request)
            (reads-Holds (Doors ds) setting_of_request (setting_of-state lib request))
            (λ setting _.
              bind-Holds (Doors ds) {P = Any} (query (cached request setting))
                (hit_or lib restart now request setting)
                (reads-Holds (Doors ds) (query (cached request setting)) (λ u. refl))
                (λ o _. hit_or-Holds setting o)))

-- An analysis of a file, whether it returns or raises, leaves the session with the doors that it
-- had: the doors that it would import are taken back. The database that a rollback would restart
-- from has the same doors.
pub analyze-doors :
    (lib : Library) (restart : Uow) (now : ℕ) (request : Request) (u : Uow)
    → request.analyze_only ≡ true
    → objects restart.doors ≡ objects u.doors
    → objects (import_project_doors_from_file lib restart now request u).1.doors ≡ objects u.doors
analyze-doors lib restart now request u analyze again =
    (import-Holds (objects u.doors) lib restart now request again analyze u refl).0
