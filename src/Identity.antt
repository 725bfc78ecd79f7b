-- ===== src/Identity.antt =====
-- Refresh tokens: app/modules/identity/infrastructure/refresh_tokens_repo.py, and the services of
-- application/auth_api_service.py that rotate and revoke them (`refresh_tokens`, `logout_refresh`,
-- `logout_all`). The library that signs and verifies tokens (`jwt`), SHA-256 and the random ids are
-- arguments.
pub mod Rotation
pub mod Revocation
mod Tests
use dimax_ops_backend.Base.{
  ℕ, ◌+◌, ◌*◌, Bool, true, false, ◌&&◌, not, Option, none, some, List, [], ◌∷◌, String, ◌==◌,
  if◌then◌else◌, is_some, same_text,
}
use dimax_ops_backend.Store.{find, count, add, assign, update_where}
use dimax_ops_backend.Domain.{Error, forbidden, RefreshToken}
use dimax_ops_backend.Uow.{
  Uow, Action, Result, ok, err, pure, raise, or_raise, query, ◌>>=◌, ◌>>◌, raise_if, modify, new_id,
}

-- The payload of a token.
pub record Claims : Type 0 where
  pub sub : ℕ
  pub company_id : ℕ
  pub role : String
  pub type : String
  pub jti : String
  pub iat : ℕ
  pub exp : ℕ

-- `jwt.encode`, `jwt.decode` at a time, with the errors that `_decode` turns into `Forbidden`, and
-- `_hash_token`; the lifetimes are settings.
pub data DecodeError : Type 0 where
  expired invalid : DecodeError

pub data Decoded : Type 0 where
  claims : Claims → Decoded
  refused : DecodeError → Decoded

pub record Jwt : Type 0 where
  pub encode : Claims → String
  pub decode : (now : ℕ) → String → Decoded
  pub hash_token : String → String
  pub access_ttl_min : ℕ
  pub refresh_ttl_days : ℕ

pub record TokenPair : Type 0 where
  pub access_token : String
  pub refresh_token : String

unfoldable pub decode_token : Jwt → (now : ℕ) → (token : String) → Action Claims
decode_token jwt now token = elim (jwt.decode now token) [
  | claims c ↦ pure c
  | refused e ↦ elim e [
    | expired ↦ raise (forbidden "Token expired")
    | invalid ↦ raise (forbidden "Invalid token")
  ]
]

unfoldable pub decode_and_validate_refresh : Jwt → (now : ℕ) → (token : String) → Action Claims
decode_and_validate_refresh jwt now token = do
  c ← decode_token jwt now token
  raise_if (not (same_text c.type "refresh")) (forbidden "Expected refresh token")
  pure c

-- `create_access_token` and `create_refresh_token`, with the claims that they encode.
unfoldable pub access_claims : Jwt → (now user_id company_id : ℕ) → (role jti : String) → Claims
access_claims jwt now user_id company_id role jti = record {
  sub = user_id;
  company_id = company_id;
  role = role;
  type = "access";
  jti = jti;
  iat = now;
  exp = now + jwt.access_ttl_min * 60;
}

unfoldable pub refresh_claims : Jwt → (now user_id company_id : ℕ) → (role jti : String) → Claims
refresh_claims jwt now user_id company_id role jti = record {
  sub = user_id;
  company_id = company_id;
  role = role;
  type = "refresh";
  jti = jti;
  iat = now;
  exp = now + jwt.refresh_ttl_days * 86400;
}

abbrev pub is_active_jti : (company_id : ℕ) → (jti : String) → RefreshToken → Bool
is_active_jti company_id jti t =
    t.company_id == company_id && same_text t.jti jti && not (is_some t.revoked_at)

unfoldable pub get_active_by_jti : (company_id : ℕ) → (jti : String) → Action (Option RefreshToken)
get_active_by_jti company_id jti = query (λ u. find (is_active_jti company_id jti) u.refresh_tokens)

unfoldable pub revoked :
    (revoked_at : ℕ) → (replaced_by_jti : Option String) → RefreshToken → RefreshToken
revoked revoked_at replaced_by_jti t = record t {
  revoked_at = some revoked_at;
  replaced_by_jti = replaced_by_jti;
}

unfoldable pub revoke :
    RefreshToken → (revoked_at : ℕ) → (replaced_by_jti : Option String) → Uow → Uow
revoke t revoked_at replaced_by_jti u = record u {
  refresh_tokens = assign (λ x. x.id == t.id) (revoked revoked_at replaced_by_jti) u.refresh_tokens;
}

abbrev pub is_active_of : (company_id user_id : ℕ) → RefreshToken → Bool
is_active_of company_id user_id t =
    t.company_id == company_id && t.user_id == user_id && not (is_some t.revoked_at)

unfoldable pub revoke_all_active_by_user : (company_id user_id revoked_at : ℕ) → Action ℕ
revoke_all_active_by_user company_id user_id revoked_at = do
  n ← query (λ u. count (is_active_of company_id user_id) u.refresh_tokens)
  modify (λ u. record u {
    refresh_tokens =
        update_where (is_active_of company_id user_id) (revoked revoked_at none) u.refresh_tokens;
  })
  pure n

unfoldable pub new_token : Jwt → (id : ℕ) → Claims → RefreshToken
new_token jwt id c = record {
  id = id;
  company_id = c.company_id;
  user_id = c.sub;
  jti = c.jti;
  token_hash = jwt.hash_token (jwt.encode c);
  expires_at = c.exp;
  revoked_at = none;
  replaced_by_jti = none;
}

-- `jti` and `access_jti` are the ids that `uuid4` draws.
unfoldable pub refresh_tokens :
    Jwt → (now : ℕ) → (access_jti jti : String) → (refresh_token : String) → Action TokenPair
refresh_tokens jwt now access_jti jti refresh_token = do
  payload ← decode_and_validate_refresh jwt now refresh_token
  found ← get_active_by_jti payload.company_id payload.jti
  db_token ← or_raise found (forbidden "Refresh token revoked or not found")
  raise_if (not (same_text db_token.token_hash (jwt.hash_token refresh_token)))
      (forbidden "Refresh token mismatch")
  let access : Claims = access_claims jwt now payload.sub payload.company_id payload.role access_jti
  let refresh : Claims = refresh_claims jwt now payload.sub payload.company_id payload.role jti
  modify (revoke db_token now (some jti))
  id ← new_id
  modify (λ u. record u { refresh_tokens = add (new_token jwt id refresh) u.refresh_tokens })
  pure (record { access_token = jwt.encode access; refresh_token = jwt.encode refresh })

-- The answer's `revoked`.
unfoldable pub logout_refresh : Jwt → (now : ℕ) → (refresh_token : String) → Action Bool
logout_refresh jwt now refresh_token = do
  payload ← decode_and_validate_refresh jwt now refresh_token
  found ← get_active_by_jti payload.company_id payload.jti
  elim found [
    | none ↦ pure false
    | some db_token ↦ do
      raise_if (not (same_text db_token.token_hash (jwt.hash_token refresh_token)))
          (forbidden "Refresh token mismatch")
      modify (revoke db_token now none)
      pure true
  ]

-- The answer's `revoked_count`.
unfoldable pub logout_all : (now company_id user_id : ℕ) → Action ℕ
logout_all now company_id user_id = revoke_all_active_by_user company_id user_id now
