-- ===== src/Journals/Signing.antt =====
-- A journal is signed once.
use dimax_ops_backend.Base.{
  ℕ, ◌≡◌, refl, sym, ap, ◌∙◌, Bool, true, some, [], ◌∷◌, String, arith, All, ◌==◌, Bool-cases,
  Option-cases, inl, inr, strip,
}
use dimax_ops_backend.Store.{Table, find, assign, flush, objects}
use dimax_ops_backend.Store.Laws.{flush-IsClean, find_sound, All-find, objects-flush}
use dimax_ops_backend.Domain.{Error, pending_rollback, not_found, forbidden, Journal, JournalStatus}
use dimax_ops_backend.Uow.{Uow, ok, err, with_uow, with_uow_ok, flushed}
use dimax_ops_backend.Journals.{has_token, is_open_token, public_get, public_sign}

abbrev pub signed : (now : ℕ) → (signer_name : String) → Journal → Journal
signed now signer_name j = record j {
  signed_at = some now;
  signer_name = some (strip signer_name);
  status = JournalStatus.archived;
}

-- No other journal has the token.
abbrev pub IsOnly : Journal → (token : String) → Uow → Type 0
IsOnly j token u = All (λ x. has_token token x ≡ true → (x.id == j.id) ≡ true) (objects u.journals)

-- What a signature that returns has written of the journals.
public_sign-writes :
    (now : ℕ) (token name : String) (payload : Bool) (j : Journal) (u : Uow)
    → find (is_open_token now token) u.journals ≡ some j
    → (public_sign now token name payload u).0 ≡ ok tt
    → (public_sign now token name payload u).1.journals
      ≡ assign (λ x. x.id == j.id) (λ _. signed now name j) u.journals
unfolding public_sign public_get
public_sign-writes now token name payload j u found h = ground arith

module _ (token : String) where
  abbrev IsArchived : Journal → Type 0
  IsArchived x = has_token token x ≡ true → x.status ≡ JournalStatus.archived

  All-IsArchived :
      (now : ℕ) (name : String) (j : Journal) (t : Table Journal)
      → All (λ x. has_token token x ≡ true → (x.id == j.id) ≡ true) (objects t)
      → All IsArchived (objects (assign (λ x. x.id == j.id) (λ _. signed now name j) t))
  unfolding assign objects
  All-IsArchived now name j [] a = tt
  All-IsArchived now name j (e ∷ t) a = elim (Bool-cases (e.live.id == j.id)) [
    | inl hit ↦ rw hit (λ _. refl, All-IsArchived now name j t a.1)
    | inr miss ↦ rw miss (λ h. absurd (ground (arith, a.0 h)), All-IsArchived now name j t a.1)
  ]

  closed_link :
      (later : ℕ) (t : Table Journal) (x : Journal)
      → All IsArchived (objects t)
      → find (is_open_token later token) (flush t) ≡ some x
      → x.status ≡ JournalStatus.archived
  closed_link later t x a found =
      let open_token = find_sound (is_open_token later token) (flush t) x (flush-IsClean t) found in
      All-find IsArchived (is_open_token later token) (flush t) x (rw objects-flush a) found
        (ground arith)

public_get_err :
    (later : ℕ) (token : String) (v : Uow)
    → ((x : Journal)
        → find (is_open_token later token) v.journals ≡ some x
        → x.status ≡ JournalStatus.archived)
    → (e : Error) × (public_get later token v ≡ (err e, v))
unfolding public_get
public_get_err later token v closed = elim (Bool-cases v.broken) [
  | inl b ↦ (pending_rollback, ground arith)
  | inr b ↦ elim (Option-cases (find (is_open_token later token) v.journals)) [
    | inl none_left ↦ (not_found "Journal link not found", ground arith)
    | inr (x, found) ↦ (forbidden "Journal is not active", ground (arith, closed x found))
  ]
]

public_sign_err :
    (later : ℕ) (token name : String) (payload : Bool) (v : Uow) (e : Error)
    → public_get later token v ≡ (err e, v)
    → public_sign later token name payload v ≡ (err e, v)
unfolding public_sign
public_sign_err later token name payload v e h = ground arith

-- A journal whose signature was committed can not be signed or read by its link again, when no
-- other journal has its token.
pub public_sign_once :
    (now later : ℕ) (token name name' : String) (payload payload' : Bool) (j : Journal) (u : Uow)
    → find (is_open_token now token) u.journals ≡ some j
    → IsOnly j token u
    → (with_uow (public_sign now token name payload) u).0 ≡ ok tt
    → let v = (with_uow (public_sign now token name payload) u).1 in
      (e : Error) × (public_get later token v ≡ (err e, v))
      × (public_sign later token name' payload' v ≡ (err e, v))
unfolding flushed
public_sign_once now later token name name' payload payload' j u found only h =
    let (done, state) = with_uow_ok (public_sign now token name payload) u tt h in
    let v : Uow = flushed (public_sign now token name payload u).1 in
    let t : Table Journal = assign (λ x. x.id == j.id) (λ _. signed now name j) u.journals in
    let (e, got) = public_get_err later token v (λ x f.
      closed_link token later t x (All-IsArchived token now name j u.journals only) (
        sym (
          ap (λ z. find (is_open_token later token) (flush z))
            (public_sign-writes now token name payload j u found done))
        ∙ f)) in
    rw state (e, got, public_sign_err later token name' payload' v e got)
