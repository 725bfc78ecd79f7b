-- ===== src/Projects/Import/Distinct.antt =====
-- What the loop over the rows of a file guarantees of the rows that it prepares.
use dimax_ops_backend.Base.{
  ℕ, suc, zero, ◌≤◌, ◌≡◌, refl, sym, ap, ◌∙◌, Bool, true, false, ◌||◌, List, [], ◌∷◌, ◌++◌, arith,
  map, map-append, inl, inr, clip, chars, chars-clip, All, eq_iff,
}
use mathlib.Core.List.{append-nil, append_assoc}
use dimax_ops_backend.Domain.{PreparedRow, RowError, message}
use dimax_ops_backend.Uow.{Uow, Result, Result-cases, ok, err}
use dimax_ops_backend.Uow.Triples.{bind_step}
use dimax_ops_backend.Projects.Import.Rows.{Python, LoopOptions, build_unit_label}
use dimax_ops_backend.Projects.Import.Text.{Row}
use dimax_ops_backend.Projects.Import.Prepare.{
  Key, same_key, mem_key, Prepared, Parsed, add_copies, prepare_row, prepare_rows, prepared_row,
  parse_row, keep_row, add_copy, label_for, catch_row,
}

-- The key of a prepared row.
abbrev pub key_of : PreparedRow → Key
key_of r = (r.labels.unit_label, r.door_type_id)

-- No key comes twice.
abbrev pub IsDistinct : List Key → Type 0
IsDistinct [] = Unit
IsDistinct (k ∷ ks) = (mem_key k ks ≡ false) × IsDistinct ks

mem_key-append :
    (k : Key) (ks js : List Key) → mem_key k (ks ++ js) ≡ (mem_key k ks || mem_key k js)
mem_key-append k [] js = refl
mem_key-append k (i ∷ ks) js = ground (arith, mem_key-append k ks js)

same_key_comm : (a b : Key) → same_key a b ≡ same_key b a
same_key_comm a b = ground (arith, eq_iff a.0 b.0, eq_iff b.0 a.0)

IsDistinct-append :
    (ks : List Key) (k : Key) → IsDistinct ks → mem_key k ks ≡ false → IsDistinct (ks ++ k ∷ [])
IsDistinct-append [] k d h = (refl, tt)
IsDistinct-append (j ∷ ks) k d h = (
  ground (arith, mem_key-append j ks (k ∷ []), same_key_comm j k),
  IsDistinct-append ks k d.1 (ground arith),
)

-- The loop's variables agree: the keys are those of the rows, they are distinct, and no label is
-- longer than its column.
pub record IsSound (st : Prepared) : Type 0 where
  pub keys : st.seen ≡ map key_of st.rows
  pub distinct : IsDistinct st.seen
  pub short : All (λ r. chars r.labels.unit_label ≤ 120) st.rows

All-append :
    {A : Type 0} (P : A → Type 0) (xs : List A) (x : A) → All P xs → P x → All P (xs ++ x ∷ [])
All-append P [] x h p = (p, tt)
All-append P (y ∷ xs) x h p = (h.0, All-append P xs x h.1 p)

build_unit_label-le :
    (p : Parsed) (q_idx row_number : ℕ)
    → chars (build_unit_label p.fields q_idx p.quantity row_number) ≤ 120
unfolding build_unit_label
build_unit_label-le p q_idx row_number = chars-clip 120 _

keep_row-IsSound :
    (again : Bool) (r : PreparedRow) (st : Prepared)
    → mem_key (key_of r) st.seen ≡ again
    → chars r.labels.unit_label ≤ 120
    → IsSound st
    → IsSound (keep_row again (key_of r) r st)
unfolding keep_row
keep_row-IsSound true r st h short s = record {
  keys = s.keys;
  distinct = s.distinct;
  short = s.short;
}
keep_row-IsSound false r st h short s = record {
  keys = ap (λ ks. ks ++ key_of r ∷ []) s.keys ∙ sym (map-append key_of st.rows (r ∷ []));
  distinct = IsDistinct-append st.seen (key_of r) s.distinct h;
  short = All-append (λ x. chars x.labels.unit_label ≤ 120) st.rows r s.short short;
}

add_copies-IsSound :
    (p : Parsed) (row_number left q_idx : ℕ) (st : Prepared)
    → IsSound st
    → IsSound (add_copies p row_number left q_idx st)
unfolding add_copies
add_copies-IsSound p n zero q st s = s
add_copies-IsSound p n (suc left) q st s =
    add_copies-IsSound p n left (suc q) _
      (keep_row-IsSound _ (prepared_row p (label_for p n q)) st refl (build_unit_label-le p q n) s)

-- What an action returns, and that it returns.
abbrev pub Gives : {A : Type 0} → (A → Type 0) → Result A × Uow → Type 0
Gives {A = A} Q r = (a : A) × (r ≡ (ok a, r.1)) × Q a

-- The errors of the rows that cannot be read, each with its number and the first 500 characters of
-- its message; a row is read in the session that the rows before it have left.
unfoldable pub failures : Python → LoopOptions → (row_number : ℕ) → List Row → Uow → List RowError
failures python options row_number [] u = []
failures python options row_number (source ∷ sources) u =
    let (r, v) = parse_row python options source u in
    let rest = failures python options (suc row_number) sources v in
    elim r [
      | ok p ↦ rest
      | err e ↦ record { row = row_number; message = clip 500 (message e) } ∷ rest
    ]

add_copies-errors :
    (p : Parsed) (row_number left q_idx : ℕ) (st : Prepared)
    → (add_copies p row_number left q_idx st).errors ≡ st.errors
unfolding add_copies add_copy keep_row
add_copies-errors p n zero q st = refl
add_copies-errors p n (suc left) q st =
    add_copies-errors p n left (suc q) (add_copy p n q st) ∙ ground arith

-- The variables after the rows from `row_number` on, which started from `st`.
abbrev pub IsOutcome :
    Python → LoopOptions → (row_number : ℕ) → List Row → Prepared → Uow → Prepared → Type 0
IsOutcome python options row_number sources st u end =
    IsSound end × (end.errors ≡ st.errors ++ failures python options row_number sources u)

catch_row-IsSound :
    (row_number : ℕ) (st : Prepared) (r : Result Parsed × Uow)
    → IsSound st
    → Gives IsSound (catch_row row_number st r)
unfolding catch_row
catch_row-IsSound n st (ok p, v) s = (_, refl, add_copies-IsSound p n p.quantity 0 st s)
catch_row-IsSound n st (err e, v) s =
    (_, refl, record { keys = s.keys; distinct = s.distinct; short = s.short })

prepare_row-errors :
    (python : Python) (options : LoopOptions) (row_number : ℕ) (source : Row) (sources : List Row)
    (st st' : Prepared) (u : Uow)
    → (prepare_row python options row_number source st u).0 ≡ ok st'
    → st'.errors
        ++ failures python options
            (suc row_number)
            sources
            (prepare_row python options row_number source st u).1
      ≡ st.errors ++ failures python options row_number (source ∷ sources) u
unfolding prepare_row catch_row failures
prepare_row-errors python options n source sources st st' u h =
    elim (Result-cases (parse_row python options source u).0) [
      | inl (p, read) ↦ ground (arith, add_copies-errors p n p.quantity 0 st)
      | inr (e, raised) ↦ ground (
        arith,
        append_assoc st.errors (record { row = n; message = clip 500 (message e) } ∷ [])
            (failures python options (suc n) sources (parse_row python options source u).1),
      )
    ]

-- Whatever the rows of the file are, the loop returns. From variables that are sound, the
-- prepared rows have distinct keys, which are the keys that the loop has seen, and labels of at
-- most 120 characters; and the errors are those that there were and one for each row that raises,
-- in their order, with its number and the first 500 characters of its message.
pub prepare_rows-IsSound :
    (python : Python) (options : LoopOptions) (row_number : ℕ) (sources : List Row) (st : Prepared)
    (u : Uow)
    → IsSound st
    → Gives
        (IsOutcome python options row_number sources st u)
        (prepare_rows python options row_number sources st u)
unfolding prepare_rows failures
prepare_rows-IsSound python options n [] st u s = (st, refl, (s, sym (append-nil st.errors)))
prepare_rows-IsSound python options n (source ∷ sources) st u s =
    let (st', returns, s') = catch_row-IsSound n st (parse_row python options source u) s in
    let v = (prepare_row python options n source st u).1 in
    let (end, reached, (sound, errors)) =
      prepare_rows-IsSound python options (suc n) sources st' v s' in
    let step =
      bind_step (prepare_row python options n source st)
        (prepare_rows python options (suc n) sources) u v st' returns in
    (
      end,
      step ∙ reached ∙ ap (λ r. (ok end, r.1)) (sym step),
      (
        sound,
        errors
            ∙ prepare_row-errors python options n source sources st st' u (ap (λ r. r.0) returns),
      ),
    )
