-- ===== src/Files/Tests.antt =====
-- Runs of the downloads, and their theorems at concrete inputs.
use dimax_ops_backend.Base.{ℕ, ◌+◌, ◌≤◌, ◌≡◌, refl, none, some, List, [], ◌∷◌, String, arith}
use dimax_ops_backend.Store.{find, assign, flush, objects, violates, add}
use dimax_ops_backend.Domain.{FileToken, forbidden}
use dimax_ops_backend.Uow.{Uow, Result, ok, err, with_uow, flush_session, flushed, violates_unique}
use dimax_ops_backend.Sample
use dimax_ops_backend.Sample.{row}
use dimax_ops_backend.Files.{
  Download, PublicFile, prepare_download, cleanup, consumed, download_event,
}
use dimax_ops_backend.Files.Uses.{serve, uses_left, serve-uses_left}
use dimax_ops_backend.Files.Cleanup.{prepare_download-cleanup}

abbrev link : FileToken
link = record {
  id = 50;
  company_id = 1;
  token = "abc";
  object_key = "journals/1.pdf";
  bucket = "dimax";
  mime_type = "application/pdf";
  file_name = none;
  expires_at = 100;
  uses_left = 2;
  last_used_at = none;
  last_used_ip = none;
  last_used_ua = none;
  audience = some "client";
}

abbrev uow : Uow
uow = record Sample.uow { file_tokens = row link ∷ [] }

abbrev storage : (bucket object_key : String) → Result String
storage bucket object_key = ok object_key

abbrev request : Download
request = record { token = "abc"; aud = some "client"; ip = none; user_agent = none }

abbrev file : PublicFile String
file = record { obj = "journals/1.pdf"; mime_type = "application/pdf"; file_name = "file" }

abbrev requests : List (ℕ × Download)
requests = (60, request) ∷ (61, record request { aud = none }) ∷ (62, request) ∷ (63, request) ∷ []

served_once : (prepare_download storage 60 request uow).0 ≡ ok file
unfolding prepare_download find
served_once = refl

expired : (prepare_download storage 100 request uow).0 ≡ err (forbidden "File token expired")
unfolding prepare_download find
expired = refl

-- Of four requests one has no audience, and the last finds no use left.
served_twice : (serve storage "abc" requests uow).0 ≡ 2
unfolding serve prepare_download find assign with_uow flush_session flushed violates_unique violates
    flush objects consumed add download_event
served_twice = refl

serve-uses_left_example :
    (serve storage "abc" requests uow).0
      + uses_left "abc" (objects (serve storage "abc" requests uow).1.file_tokens)
    ≤ uses_left "abc" (objects uow.file_tokens)
serve-uses_left_example = serve-uses_left storage "abc" requests uow (refl, tt)

prepare_download-cleanup_example :
    (prepare_download storage 60 request (cleanup 50 uow).1).0 ≡ ok file
prepare_download-cleanup_example =
    prepare_download-cleanup storage 50 60 request uow file (omega arith) (refl, tt) served_once
