-- ===== src/Files.antt =====
-- Links to files: app/modules/files/application/api_service.py and service.py, and the repositories of
-- app/modules/files/infrastructure/repositories.py. `get_object_stream` is the object storage, `drawn`
-- what `secrets.token_urlsafe` draws.
pub mod Uses
pub mod Cleanup
mod Tests
use dimax_ops_backend.Base.{
  ℕ, ◌+◌, ◌-◌, Bool, true, false, ◌||◌, not, Option, none, some, String, ◌==◌, leb, same_text,
  get_or, is_given,
}
use dimax_ops_backend.Store.{Table, find, count, add, assign, delete_where}
use dimax_ops_backend.Domain.{FileToken, FileDownloadEvent, not_found, forbidden}
use dimax_ops_backend.Uow.{
  Uow, Result, Action, pure, or_raise, query, ◌>>=◌, ◌>>◌, raise_if, modify, new_id,
}

-- A request for a download.
pub record Download : Type 0 where
  pub token : String
  pub aud : Option String
  pub ip : Option String
  pub user_agent : Option String

-- `PublicFileDownloadResult`
pub record PublicFile (Stream : Type 0) : Type 0 where
  pub obj : Stream
  pub mime_type : String
  pub file_name : String

abbrev pub is_token : String → FileToken → Bool
is_token token r = same_text r.token token

-- The assignments of `consume`.
unfoldable pub consumed : (now : ℕ) → Download → FileToken → FileToken
consumed now req row = record row {
  last_used_at = some now;
  last_used_ip = req.ip;
  last_used_ua = req.user_agent;
  uses_left = row.uses_left - 1;
}

unfoldable pub download_event : (id : ℕ) → Download → FileToken → FileDownloadEvent
download_event id req row = record {
  id = id;
  company_id = row.company_id;
  source = "PUBLIC_TOKEN";
  token = some row.token;
  object_key = row.object_key;
  bucket = row.bucket;
  mime_type = row.mime_type;
  file_name = row.file_name;
  ip = req.ip;
  user_agent = req.user_agent;
  actor_user_id = none;
  correlation_id = none;
}

-- `row.audience is not None and aud != row.audience`
abbrev pub wrong_audience : (audience aud : Option String) → Bool
wrong_audience none aud = false
wrong_audience (some a) none = true
wrong_audience (some a) (some b) = not (same_text b a)

abbrev pub consume : (now : ℕ) → Download → FileToken → Uow → Uow
consume now req row u = record u {
  file_tokens = assign (λ r. r.id == row.id) (consumed now req) u.file_tokens;
}

-- `x or default`
abbrev text_or : (default : String) → Option String → String
text_or default o = elim (is_given o) [ true ↦ get_or o "" | false ↦ default ]

-- A call that does not write.
abbrev answer : {A : Type 0} → Result A → Action A
answer r u = (r, u)

unfoldable pub prepare_download :
    {Stream : Type 0}
    → (get_object_stream : (bucket object_key : String) → Result Stream) → (now : ℕ) → Download
    → Action (PublicFile Stream)
unfolding consumed download_event
prepare_download get_object_stream now req = do
  found ← query (λ u. find (is_token req.token) u.file_tokens)
  row ← or_raise found (not_found "File token not found")
  raise_if (leb row.expires_at now) (forbidden "File token expired")
  raise_if (leb row.uses_left 0) (forbidden "File token already used")
  raise_if (wrong_audience row.audience req.aud) (forbidden "Invalid token audience")
  modify (consume now req row)
  id ← new_id
  modify (λ u. record u {
    file_download_events = add (download_event id req row) u.file_download_events;
  })
  obj ← answer (get_object_stream row.bucket row.object_key)
  pure (record {
    obj = obj;
    mime_type = text_or "application/octet-stream" (some row.mime_type);
    file_name = text_or "file" row.file_name;
  })

-- What a link is made for.
pub record NewToken : Type 0 where
  pub company_id : ℕ
  pub bucket : String
  pub object_key : String
  pub mime_type : String
  pub file_name : Option String
  pub ttl_sec : Option ℕ
  pub uses : Option ℕ
  pub audience : Option String

-- `FILE_TOKEN_*` of the settings.
pub record FileSettings : Type 0 where
  pub token_ttl_sec : ℕ
  pub token_uses : ℕ

unfoldable pub token_row : FileSettings → (now id : ℕ) → (drawn : String) → NewToken → FileToken
token_row settings now id drawn wanted = record {
  id = id;
  company_id = wanted.company_id;
  token = drawn;
  object_key = wanted.object_key;
  bucket = wanted.bucket;
  mime_type = wanted.mime_type;
  file_name = wanted.file_name;
  expires_at = now + get_or wanted.ttl_sec settings.token_ttl_sec;
  uses_left = get_or wanted.uses settings.token_uses;
  last_used_at = none;
  last_used_ip = none;
  last_used_ua = none;
  audience = wanted.audience;
}

unfoldable pub create_token_for_object :
    FileSettings → (now : ℕ) → (drawn : String) → NewToken → Action String
unfolding token_row
create_token_for_object settings now drawn wanted = do
  id ← new_id
  modify
      (λ u. record u { file_tokens = add (token_row settings now id drawn wanted) u.file_tokens })
  pure drawn

abbrev pub is_spent : (now : ℕ) → FileToken → Bool
is_spent now r = leb r.expires_at now || leb r.uses_left 0

-- `cleanup`, by `delete_expired_and_used`
unfoldable pub cleanup : (now : ℕ) → Action ℕ
cleanup now = do
  n ← query (λ u. count (is_spent now) u.file_tokens)
  modify (λ u. record u { file_tokens = delete_where (is_spent now) u.file_tokens })
  pure n
