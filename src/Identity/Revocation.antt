-- ===== src/Identity/Revocation.antt =====
-- Logging out everywhere.
use dimax_ops_backend.Base.{
  ℕ, suc, ◌≡◌, ◌≢◌, inl, inr, Bool-cases, true, false, none, some, List, [], ◌∷◌, String, arith,
}
use dimax_ops_backend.Store.{Table, find, count, objects, update_where}
use dimax_ops_backend.Store.Laws.{IsClean}
use dimax_ops_backend.Domain.{RefreshToken}
use dimax_ops_backend.Uow.{Uow, ok}
use dimax_ops_backend.Identity.{
  get_active_by_jti, is_active_of, is_active_jti, revoked, revoke_all_active_by_user, logout_all,
}

-- An active token of the user, by its columns.
abbrev pub IsActive : (company_id user_id : ℕ) → RefreshToken → Type 0
IsActive company_id user_id t =
    (t.company_id ≡ company_id) × (t.user_id ≡ user_id) × (t.revoked_at ≡ none)

-- What logging out at `now` makes of the rows, and how many of them it revokes: an active token of
-- the user is revoked at that time, without a successor, and any other is left as it is.
pub data LoggedOut (now company_id user_id : ℕ)
    : List RefreshToken → List RefreshToken → ℕ → Type 0 where
  done : LoggedOut now company_id user_id [] [] 0
  revokes :
      {t : RefreshToken} {ts ts' : List RefreshToken} {n : ℕ}
      → IsActive company_id user_id t
      → LoggedOut now company_id user_id ts ts' n
      → LoggedOut now company_id user_id
          (t ∷ ts)
          (record t { revoked_at = some now; replaced_by_jti = none } ∷ ts')
          (suc n)
  keeps :
      {t : RefreshToken} {ts ts' : List RefreshToken} {n : ℕ}
      → ¬ IsActive company_id user_id t
      → LoggedOut now company_id user_id ts ts' n
      → LoggedOut now company_id user_id (t ∷ ts) (t ∷ ts') n

token_of_user_lem : (c k : ℕ) (t : RefreshToken) → is_active_of c k t ≡ true → IsActive c k t
token_of_user_lem c k t h = (ground arith, ground arith, ground arith)

other_token_lem : (c k : ℕ) (t : RefreshToken) → is_active_of c k t ≡ false → ¬ IsActive c k t
other_token_lem c k t h a = ground (arith, a.0, a.1, h)

update_where-LoggedOut :
    (now c k : ℕ) (t : Table RefreshToken)
    → IsClean t
    → LoggedOut now c k
        (objects t)
        (objects (update_where (is_active_of c k) (revoked now none) t))
        (count (is_active_of c k) t)
unfolding update_where objects count revoked
update_where-LoggedOut now c k [] h = done
update_where-LoggedOut now c k (e ∷ t) h =
    let rest = update_where-LoggedOut now c k t h.1 in
    elim (Bool-cases (is_active_of c k e.live)) [
      | inl active ↦ rw (h.0, active) (revokes (token_of_user_lem c k e.live active) rest)
      | inr other ↦ rw (h.0, other) (keeps (other_token_lem c k e.live other) rest)
    ]

-- Logging out everywhere revokes exactly the user's active tokens and answers their number, in a
-- healthy session whose tokens are as the database has them.
pub logout_all-LoggedOut :
    (now company_id user_id : ℕ) (u : Uow)
    → IsClean u.refresh_tokens
    → u.broken ≡ false
    → (n : ℕ) × ((logout_all now company_id user_id u).0 ≡ ok n)
      × LoggedOut now company_id user_id
          (objects u.refresh_tokens)
          (objects (logout_all now company_id user_id u).1.refresh_tokens)
          n
unfolding logout_all revoke_all_active_by_user
logout_all-LoggedOut now c k u clean b = (
  count (is_active_of c k) u.refresh_tokens,
  ground arith,
  rw b (update_where-LoggedOut now c k u.refresh_tokens clean),
)

active_of_others :
    (now c k : ℕ) (jti : String) (t : Table RefreshToken) (d : RefreshToken)
    → IsClean t
    → find (is_active_jti c jti) (update_where (is_active_of c k) (revoked now none) t) ≡ some d
    → d.user_id ≢ k
unfolding find update_where revoked
active_of_others now c k jti [] d h f = absurd (ground arith)
active_of_others now c k jti (e ∷ t) d h f =
    ground (arith, active_of_others now c k jti t d h.1, h.0)

-- After logging out everywhere no refresh token finds an active row of the user, in a healthy
-- session whose tokens were as the database has them.
pub logout_all-get_active_by_jti :
    (now company_id user_id : ℕ) (jti : String) (d : RefreshToken) (u : Uow)
    → IsClean u.refresh_tokens
    → u.broken ≡ false
    → (get_active_by_jti company_id jti (logout_all now company_id user_id u).1).0 ≡ ok (some d)
    → d.user_id ≢ user_id
unfolding logout_all revoke_all_active_by_user get_active_by_jti
logout_all-get_active_by_jti now c k jti d u clean b h =
    active_of_others now c k jti u.refresh_tokens d clean (ground arith)
