-- ===== src/Files/Cleanup.antt =====
-- The cleanup of the links deletes none that a download would still serve.
use dimax_ops_backend.Base.{ℕ, ◌≤◌, ◌<◌, ◌≡◌, Bool, false, some, [], ◌∷◌, String, arith}
use dimax_ops_backend.Store.{Table, find, delete_where}
use dimax_ops_backend.Store.Laws.{IsClean}
use dimax_ops_backend.Domain.{FileToken}
use dimax_ops_backend.Uow.{Uow, Result, ok}
use dimax_ops_backend.Files.{Download, PublicFile, is_token, is_spent, prepare_download, cleanup}
use dimax_ops_backend.Files.Uses.{prepare_download-finds}

-- The first link that a query finds is found again when a deletion spares it.
find-delete_where :
    (p dead : FileToken → Bool) (t : Table FileToken) (row : FileToken)
    → IsClean t
    → find p t ≡ some row
    → dead row ≡ false
    → find p (delete_where dead t) ≡ some row
unfolding find delete_where
find-delete_where p dead [] row c found alive = cc
find-delete_where p dead (e ∷ t) row c found alive =
    ground (arith, find-delete_where p dead t row c.1, c.0)

is_spent_alive :
    (now later : ℕ) (row : FileToken)
    → now ≤ later
    → later < row.expires_at
    → 0 < row.uses_left
    → is_spent now row ≡ false
is_spent_alive now later row order in_time left = ground arith

module _ {Stream : Type 0} (get_object_stream : (bucket object_key : String) → Result Stream) where
  prepare_download-alive :
      (now : ℕ) (req : Download) (u : Uow) (a : PublicFile Stream) (row : FileToken)
      → find (is_token req.token) u.file_tokens ≡ some row
      → (prepare_download get_object_stream now req u).0 ≡ ok a
      → (now < row.expires_at) × (0 < row.uses_left)
  unfolding prepare_download
  prepare_download-alive now req u a row found h = (ground arith, ground arith)

  served_again :
      (now later : ℕ) (req : Download) (u : Uow) (a : PublicFile Stream) (row : FileToken)
      → find (is_token req.token) u.file_tokens ≡ some row
      → find (is_token req.token) (delete_where (is_spent now) u.file_tokens) ≡ some row
      → (prepare_download get_object_stream later req u).0 ≡ ok a
      → (prepare_download get_object_stream later req (cleanup now u).1).0 ≡ ok a
  unfolding prepare_download cleanup
  served_again now later req u a row found kept h = ground arith

  -- A download that would be served is served the same after an earlier cleanup, in a session
  -- whose links are as the database has them.
  pub prepare_download-cleanup :
      (now later : ℕ) (req : Download) (u : Uow) (a : PublicFile Stream)
      → now ≤ later
      → IsClean u.file_tokens
      → (prepare_download get_object_stream later req u).0 ≡ ok a
      → (prepare_download get_object_stream later req (cleanup now u).1).0 ≡ ok a
  prepare_download-cleanup now later req u a order c h =
      let (row, found) = prepare_download-finds get_object_stream later req u a h in
      let (in_time, left) = prepare_download-alive later req u a row found h in
      let kept =
        find-delete_where (is_token req.token) (is_spent now) u.file_tokens row c found
          (is_spent_alive now later row order in_time left) in
      served_again now later req u a row found kept h
