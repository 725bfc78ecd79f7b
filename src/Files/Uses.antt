-- ===== src/Files/Uses.antt =====
-- How often a link serves its file.
use dimax_ops_backend.Base.{
  ℕ, ◌+◌, ◌≤◌, ◌<◌, ◌≡◌, refl, sym, ap, ◌∙◌, Bool, true, some, List, [], ◌∷◌, String, arith, ◌==◌,
  if◌then◌else◌, same_text, Bool-cases, Option-cases, inl, inr,
}
use text.Mathlib.Text.{is_eq}
use text.Mathlib.TextEquality.{path_by_compare}
use Prim.Native.String.{compare}
use Prim.Native.Nat.{Ordering}
use dimax_ops_backend.Store.{Table, find, assign, objects}
use dimax_ops_backend.Store.Laws.{IsClean, flush-IsClean, objects-flush}
use dimax_ops_backend.Domain.{FileToken}
use dimax_ops_backend.Uow.{
  Uow, Result, ok, err, with_uow, with_uow_ok, with_uow_err, Result-cases, flushed,
}
use dimax_ops_backend.Files.{Download, PublicFile, is_token, consumed, prepare_download}

-- The uses that the links with the token have left.
unfoldable pub uses_left : (token : String) → List FileToken → ℕ
uses_left token [] = 0
uses_left token (r ∷ rows) =
    let rest = uses_left token rows in if is_token token r then r.uses_left + rest else rest

uses_left-assign :
    (token : String) (key : FileToken → Bool) (now : ℕ) (req : Download) (t : Table FileToken)
    → uses_left token (objects (assign key (consumed now req) t)) ≤ uses_left token (objects t)
unfolding uses_left assign objects consumed
uses_left-assign token key now req [] = omega arith
uses_left-assign token key now req (e ∷ t) = ground (arith, uses_left-assign token key now req t)

uses_left-consumed :
    (token : String) (now : ℕ) (req : Download) (row : FileToken) (t : Table FileToken)
    → IsClean t
    → find (is_token token) t ≡ some row
    → 0 < row.uses_left
    → uses_left token (objects (assign (λ r. r.id == row.id) (consumed now req) t))
      < uses_left token (objects t)
unfolding uses_left assign objects consumed find
uses_left-consumed token now req row [] c found left = cc
uses_left-consumed token now req row (e ∷ t) c found left = ground (
  arith,
  uses_left-consumed token now req row t c.1,
  uses_left-assign token (λ r. r.id == row.id) now req t,
  c.0,
)

eq_of : (o : Ordering) → is_eq o ≡ true → o ≡ Ordering.eq
eq_of Ordering.lt h = cc
eq_of Ordering.eq h = refl
eq_of Ordering.gt h = cc

same_text→eq : (s t : String) → same_text s t ≡ true → s ≡ t
same_text→eq s t h = path_by_compare s t (eq_of (compare s t) h)

module _ {Stream : Type 0} (get_object_stream : (bucket object_key : String) → Result Stream) where
  -- A download that returns has found a link that had a use left, and taken one.
  pub prepare_download-finds :
      (now : ℕ) (req : Download) (u : Uow) (a : PublicFile Stream)
      → (prepare_download get_object_stream now req u).0 ≡ ok a
      → (row : FileToken) × (find (is_token req.token) u.file_tokens ≡ some row)
  unfolding prepare_download
  prepare_download-finds now req u a h =
      elim (Option-cases (find (is_token req.token) u.file_tokens)) [
        | inl missing ↦ absurd (ground (arith, missing, h))
        | inr found ↦ found
      ]

  prepare_download-writes :
      (now : ℕ) (req : Download) (u : Uow) (a : PublicFile Stream) (row : FileToken)
      → find (is_token req.token) u.file_tokens ≡ some row
      → (prepare_download get_object_stream now req u).0 ≡ ok a
      → (0 < row.uses_left)
        × ((prepare_download get_object_stream now req u).1.file_tokens
            ≡ assign (λ r. r.id == row.id) (consumed now req) u.file_tokens)
  unfolding prepare_download
  prepare_download-writes now req u a row found h = (ground (arith), ground (arith))

  abbrev pub gain : (token : String) → Download → Result (PublicFile Stream) → ℕ
  gain token req (ok a) = if same_text req.token token then 1 else 0
  gain token req (err e) = 0

  -- How many requests of a sequence were served by a link with the token, and the state they leave.
  unfoldable pub serve : (token : String) → List (ℕ × Download) → Uow → ℕ × Uow
  serve token [] u = (0, u)
  serve token ((now, req) ∷ reqs) u =
      let (r, v) = with_uow (prepare_download get_object_stream now req) u in
      let (n, w) = serve token reqs v in (gain token req r + n, w)

  served_ok :
      (token : String) (now : ℕ) (req : Download) (u : Uow) (a : PublicFile Stream)
      (row : FileToken)
      → IsClean u.file_tokens
      → find (is_token req.token) u.file_tokens ≡ some row
      → (prepare_download get_object_stream now req u).0 ≡ ok a
      → gain token req (ok a)
          + uses_left token (objects (prepare_download get_object_stream now req u).1.file_tokens)
        ≤ uses_left token (objects u.file_tokens)
  served_ok token now req u a row c found h =
      let (left, writes) = prepare_download-writes now req u a row found h in
      let fewer = uses_left-assign token (λ r. r.id == row.id) now req u.file_tokens in
      rw writes (elim (Bool-cases (same_text req.token token)) [
        | inl same ↦
            let one_less =
              uses_left-consumed token now req row u.file_tokens c
                (sym (ap (λ s. find (is_token s) u.file_tokens) (same_text→eq req.token token same))
                  ∙ found)
                left in
            rw same (omega (arith, one_less))
        | inr other ↦ rw other (omega (arith, fewer))
      ])

  serve_step :
      (token : String) (now : ℕ) (req : Download) (u : Uow)
      → IsClean u.file_tokens
      → let q = with_uow (prepare_download get_object_stream now req) u in
        IsClean q.1.file_tokens
        × (gain token req q.0 + uses_left token (objects q.1.file_tokens)
            ≤ uses_left token (objects u.file_tokens))
  unfolding flushed
  serve_step token now req u c =
      let body = prepare_download get_object_stream now req in
      elim (Result-cases (with_uow body u).0) [
        | inl (a, h) ↦
            let (done, state) = with_uow_ok body u a h in
            let (row, found) = prepare_download-finds now req u a done in
            rw (h, state, objects-flush (body u).1.file_tokens)
              (flush-IsClean (body u).1.file_tokens, served_ok token now req u a row c found done)
        | inr (e, h) ↦ rw (h, with_uow_err body u e h) (c, omega arith)
      ]

  -- In a session whose links are as the database has them, the requests of any sequence that a
  -- link with the token serves, together with the uses that it has left afterwards, are at most
  -- the uses that it had.
  pub serve-uses_left :
      (token : String) (reqs : List (ℕ × Download)) (u : Uow)
      → IsClean u.file_tokens
      → (serve token reqs u).0 + uses_left token (objects (serve token reqs u).1.file_tokens)
        ≤ uses_left token (objects u.file_tokens)
  unfolding serve
  serve-uses_left token [] u c = omega arith
  serve-uses_left token ((now, req) ∷ reqs) u c =
      let (clean, step) = serve_step token now req u c in
      let rest =
        serve-uses_left token reqs (with_uow (prepare_download get_object_stream now req) u).1
          clean in
      omega (arith, step, rest)
