-- ===== src/Identity/Tests.antt =====
-- The theorems on refresh tokens at concrete inputs.
use dimax_ops_backend.Uow.{flush_session, flushed, violates_unique, number_from, next_after}
use dimax_ops_backend.Identity.{
  decode_and_validate_refresh, decode_token, access_claims, refresh_claims, revoke, new_token,
}
use dimax_ops_backend.Store.{add, assign, violates, flush}
use dimax_ops_backend.Identity.{revoke_all_active_by_user, revoked}
use dimax_ops_backend.Store.{update_where}
use dimax_ops_backend.Base.{
  ℕ, ◌≡◌, ◌≢◌, refl, none, some, [], ◌∷◌, arith, same_text, ltb, ◌&&◌, if◌then◌else◌,
}
use dimax_ops_backend.Store.{find, objects}
use dimax_ops_backend.Domain.{forbidden, RefreshToken}
use dimax_ops_backend.Uow.{Uow, ok, err, with_uow}
use dimax_ops_backend.Identity.{
  Jwt, Claims, claims, refused, DecodeError, get_active_by_jti, refresh_tokens, logout_all,
}
use dimax_ops_backend.Identity.Rotation.{refresh_tokens_once}
use dimax_ops_backend.Identity.Revocation.{
  LoggedOut, logout_all-LoggedOut, logout_all-get_active_by_jti,
}
use dimax_ops_backend.Sample.{row, uow}

abbrev payload : Claims
payload = record {
  sub = 2;
  company_id = 1;
  role = "ADMIN";
  type = "refresh";
  jti = "j1";
  iat = 0;
  exp = 90000;
}

-- A signer with one token, which decodes until it expires.
abbrev jwt : Jwt
jwt = record {
  encode = λ c. c.jti;
  decode = λ now token.
      if same_text token "j1" && ltb now 90000 then claims payload else refused DecodeError.expired;
  hash_token = λ token. token;
  access_ttl_min = 15;
  refresh_ttl_days = 30;
}

abbrev token : RefreshToken
token = record {
  id = 90;
  company_id = 1;
  user_id = 2;
  jti = "j1";
  token_hash = "j1";
  expires_at = 90000;
  revoked_at = none;
  replaced_by_jti = none;
}

abbrev other : RefreshToken
other = record token { id = 91; user_id = 3; jti = "j9"; token_hash = "j9" }

abbrev busy : Uow
busy = record uow { refresh_tokens = row token ∷ row other ∷ [] }

refresh_tokens_commits :
    (with_uow (refresh_tokens jwt 60 "a1" "j2" "j1") busy).0
    ≡ ok (record { access_token = "a1"; refresh_token = "j2" })
unfolding with_uow refresh_tokens decode_and_validate_refresh decode_token get_active_by_jti find
    access_claims refresh_claims revoke revoked new_token add assign flush_session flushed
    violates_unique violates objects flush number_from next_after
refresh_tokens_commits = refl

refresh_tokens_once_example :
    let v = (with_uow (refresh_tokens jwt 60 "a1" "j2" "j1") busy).1 in
    refresh_tokens jwt 70 "a3" "j3" "j1" v
    ≡ (err (forbidden "Refresh token revoked or not found"), v)
refresh_tokens_once_example =
    refresh_tokens_once jwt 60 70 "a1" "j2" "a3" "j3" "j1" payload token busy
      (record { access_token = "a1"; refresh_token = "j2" }) refl refl (unfold find in refl)
      (unfold objects in (λ _. refl, (λ h. absurd (ground arith), tt))) refl refresh_tokens_commits

other_is_active : (get_active_by_jti 1 "j9" (logout_all 60 1 2 busy).1).0 ≡ ok (some other)
unfolding get_active_by_jti logout_all revoke_all_active_by_user find update_where revoked
other_is_active = refl

logout_all-get_active_by_jti_example : other.user_id ≢ 2
logout_all-get_active_by_jti_example =
    logout_all-get_active_by_jti 60 1 2 "j9" other busy (refl, (refl, tt)) refl other_is_active

logout_all-LoggedOut_example :
    (n : ℕ) × ((logout_all 60 1 2 busy).0 ≡ ok n)
    × LoggedOut 60 1 2
        (objects busy.refresh_tokens)
        (objects (logout_all 60 1 2 busy).1.refresh_tokens)
        n
logout_all-LoggedOut_example = logout_all-LoggedOut 60 1 2 busy (refl, (refl, tt)) refl
