-- ===== src/Identity/Rotation.antt =====
-- Each refresh token is good for one rotation.
use dimax_ops_backend.Base.{
  ℕ, ◌≡◌, refl, Bool, true, false, none, some, [], ◌∷◌, String, arith, All, any, same_text, ◌==◌,
}
use dimax_ops_backend.Store.{Table, find, add, assign, flush, objects}
use dimax_ops_backend.Store.Laws.{objects-add, any-append}
use dimax_ops_backend.Domain.{forbidden, RefreshToken}
use dimax_ops_backend.Uow.{Uow, ok, err, with_uow, with_uow_ok, flushed}
use dimax_ops_backend.Identity.{
  Jwt, Claims, claims, TokenPair, decode_token, decode_and_validate_refresh, is_active_jti,
  get_active_by_jti, revoked, revoke, new_token, refresh_claims, refresh_tokens,
}

module _ {A : Type 0} (p : A → Bool) where
  find-flush-none : (t : Table A) → any p (objects t) ≡ false → find p (flush t) ≡ none
  unfolding find flush objects
  find-flush-none [] h = refl
  find-flush-none (e ∷ t) h = ground (arith, find-flush-none t)

  -- The assignment takes every row that passes the test out of it.
  any-assign-false :
      (key : A → Bool) (f : A → A) (t : Table A)
      → All (λ a. p a ≡ true → key a ≡ true) (objects t)
      → ((a : A) → p (f a) ≡ false)
      → any p (objects (assign key f t)) ≡ false
  unfolding assign objects
  any-assign-false key f [] h out = refl
  any-assign-false key f (e ∷ t) h out =
      ground (arith, any-assign-false key f t h.1 out, out e.live, h.0)

-- No other row is active under the id of the token.
abbrev pub IsOnly : RefreshToken → (company_id : ℕ) → (jti : String) → Uow → Type 0
IsOnly d company_id jti u =
    All (λ x. is_active_jti company_id jti x ≡ true → (x.id == d.id) ≡ true)
      (objects u.refresh_tokens)

refresh_tokens-writes :
    (jwt : Jwt) (now : ℕ) (access_jti jti token : String) (c : Claims) (d : RefreshToken) (u : Uow)
    (pair : TokenPair)
    → jwt.decode now token ≡ claims c
    → find (is_active_jti c.company_id c.jti) u.refresh_tokens ≡ some d
    → (refresh_tokens jwt now access_jti jti token u).0 ≡ ok pair
    → (refresh_tokens jwt now access_jti jti token u).1.refresh_tokens
      ≡ add
          (new_token jwt u.next_id (refresh_claims jwt now c.sub c.company_id c.role jti))
          (assign (λ x. x.id == d.id) (revoked now (some jti)) u.refresh_tokens)
unfolding refresh_tokens decode_and_validate_refresh decode_token get_active_by_jti revoke
refresh_tokens-writes jwt now a jti token c d u pair e found h = ground arith

revoked-is_active_jti :
    (company_id : ℕ) (jti : String) (now : ℕ) (by : String) (x : RefreshToken)
    → is_active_jti company_id jti (revoked now (some by) x) ≡ false
unfolding revoked
revoked-is_active_jti c jti now by x = ground arith

new_token-is_active_jti :
    (jwt : Jwt) (id now : ℕ) (jti : String) (c : Claims)
    → same_text jti c.jti ≡ false
    → is_active_jti c.company_id c.jti
        (new_token jwt id (refresh_claims jwt now c.sub c.company_id c.role jti))
      ≡ false
unfolding new_token refresh_claims
new_token-is_active_jti jwt id now jti c fresh = ground arith

spent_after :
    (jwt : Jwt) (now : ℕ) (access_jti jti token : String) (c : Claims) (d : RefreshToken) (u : Uow)
    (pair : TokenPair)
    → jwt.decode now token ≡ claims c
    → find (is_active_jti c.company_id c.jti) u.refresh_tokens ≡ some d
    → IsOnly d c.company_id c.jti u
    → same_text jti c.jti ≡ false
    → (refresh_tokens jwt now access_jti jti token u).0 ≡ ok pair
    → find
        (is_active_jti c.company_id c.jti)
        (flush (refresh_tokens jwt now access_jti jti token u).1.refresh_tokens)
      ≡ none
spent_after jwt now a jti token c d u pair e found only fresh h =
    let p = is_active_jti c.company_id c.jti in
    let row : RefreshToken =
      new_token jwt u.next_id (refresh_claims jwt now c.sub c.company_id c.role jti) in
    let f = revoked now (some jti) in
    let t = assign (λ x. x.id == d.id) f u.refresh_tokens in
    find-flush-none p (refresh_tokens jwt now a jti token u).1.refresh_tokens (
      rw (refresh_tokens-writes jwt now a jti token c d u pair e found h, objects-add row t)
        (ground (
          arith,
          any-append p (objects t) (row ∷ []),
          any-assign-false p (λ x. x.id == d.id) f u.refresh_tokens only
              (revoked-is_active_jti c.company_id c.jti now jti),
          new_token-is_active_jti jwt u.next_id now jti c fresh,
        )))

refresh_tokens_refused :
    (jwt : Jwt) (now : ℕ) (access_jti jti token : String) (c : Claims) (v : Uow)
    → jwt.decode now token ≡ claims c
    → same_text c.type "refresh" ≡ true
    → v.broken ≡ false
    → find (is_active_jti c.company_id c.jti) v.refresh_tokens ≡ none
    → refresh_tokens jwt now access_jti jti token v
      ≡ (err (forbidden "Refresh token revoked or not found"), v)
unfolding refresh_tokens decode_and_validate_refresh decode_token get_active_by_jti
refresh_tokens_refused jwt now a jti token c v e t b f = ground arith

refresh_tokens-type :
    (jwt : Jwt) (now : ℕ) (access_jti jti token : String) (c : Claims) (u : Uow) (pair : TokenPair)
    → jwt.decode now token ≡ claims c
    → (refresh_tokens jwt now access_jti jti token u).0 ≡ ok pair
    → same_text c.type "refresh" ≡ true
unfolding refresh_tokens decode_and_validate_refresh decode_token
refresh_tokens-type jwt now a jti token c u pair e h = ground arith

-- A refresh token whose exchange was committed is refused at any later time at which it decodes,
-- when one row is active under its id and the new id differs from it.
pub refresh_tokens_once :
    (jwt : Jwt) (now later : ℕ) (access_jti jti access_jti' jti' token : String) (c : Claims)
    (d : RefreshToken) (u : Uow) (pair : TokenPair)
    → jwt.decode now token ≡ claims c
    → jwt.decode later token ≡ claims c
    → find (is_active_jti c.company_id c.jti) u.refresh_tokens ≡ some d
    → IsOnly d c.company_id c.jti u
    → same_text jti c.jti ≡ false
    → (with_uow (refresh_tokens jwt now access_jti jti token) u).0 ≡ ok pair
    → let v = (with_uow (refresh_tokens jwt now access_jti jti token) u).1 in
      refresh_tokens jwt later access_jti' jti' token v
      ≡ (err (forbidden "Refresh token revoked or not found"), v)
unfolding flushed
refresh_tokens_once jwt now later a jti a' jti' token c d u pair e e' found only fresh h =
    let (done, state) = with_uow_ok (refresh_tokens jwt now a jti token) u pair h in
    rw state (
      refresh_tokens_refused jwt later a' jti' token c
        (flushed (refresh_tokens jwt now a jti token u).1) e'
        (refresh_tokens-type jwt now a jti token c u pair e done) refl
        (spent_after jwt now a jti token c d u pair e found only fresh done))
