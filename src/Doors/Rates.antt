-- ===== src/Doors/Rates.antt =====
-- The rate that an installation is settled at.
use dimax_ops_backend.Base.{
  ℕ, ◌≤◌, ◌≡◌, refl, Bool, true, none, some, List, [], ◌∷◌, arith, All, inl, inr, Option-cases,
}
use dimax_ops_backend.Store.{Table, select, objects}
use dimax_ops_backend.Store.Laws.{IsClean}
use dimax_ops_backend.Domain.{InstallerRate}
use dimax_ops_backend.Uow.{Uow}
use dimax_ops_backend.Doors.{rate_applies, latest_rate, get_by_keys}

-- Every rate of the list took effect no later.
abbrev pub NoneLater : InstallerRate → List InstallerRate → Type 0
NoneLater r = All (λ s. s.effective_from ≤ r.effective_from)

NoneLater-mono :
    (r s : InstallerRate) (rs : List InstallerRate)
    → s.effective_from ≤ r.effective_from
    → NoneLater s rs
    → NoneLater r rs
NoneLater-mono r s [] h n = tt
NoneLater-mono r s (x ∷ rs) h n = (omega arith, NoneLater-mono r s rs h n.1)

latest_rate-none : (rs : List InstallerRate) → latest_rate rs ≡ none → rs ≡ []
unfolding latest_rate
latest_rate-none [] h = refl
latest_rate-none (x ∷ rs) h = ground arith

latest_rate-NoneLater :
    (rs : List InstallerRate) (r : InstallerRate) → latest_rate rs ≡ some r → NoneLater r rs
unfolding latest_rate
latest_rate-NoneLater [] r h = cc
latest_rate-NoneLater (x ∷ rs) r h = elim (Option-cases (latest_rate rs)) [
  | inl e ↦ rw (latest_rate-none rs e) (ground arith)
  | inr (s, e) ↦ ground (arith, latest_rate-NoneLater rs s e, NoneLater-mono r s rs)
]

latest_rate-All :
    (P : InstallerRate → Type 0) (rs : List InstallerRate) (r : InstallerRate)
    → All P rs
    → latest_rate rs ≡ some r
    → P r
unfolding latest_rate
latest_rate-All P [] r a h = cc
latest_rate-All P (x ∷ rs) r a h = elim (Option-cases (latest_rate rs)) [
  | inl e ↦ ground arith
  | inr (s, e) ↦ ground (arith, latest_rate-All P rs s a.1 e)
]

module _ (p : InstallerRate → Bool) where
  select-All : (t : Table InstallerRate) → IsClean t → All (λ r. p r ≡ true) (select p t)
  unfolding select
  select-All [] c = tt
  select-All (e ∷ t) c = ground (arith, select-All t c.1)

  NoneLater-objects :
      (r : InstallerRate) (t : Table InstallerRate)
      → IsClean t
      → NoneLater r (select p t)
      → All (λ s. p s ≡ true → s.effective_from ≤ r.effective_from) (objects t)
  unfolding select objects
  NoneLater-objects r [] c h = tt
  NoneLater-objects r (e ∷ t) c h = (ground arith, NoneLater-objects r t c.1 (ground arith))

-- In a session whose rates are as the database has them, the rate that get_by_keys answers is in
-- force, and none in force took effect later.
pub get_by_keys_latest :
    (company_id installer_id door_type_id at : ℕ) (u : Uow) (r : InstallerRate)
    → IsClean u.installer_rates
    → get_by_keys company_id installer_id door_type_id at u ≡ some r
    → (rate_applies company_id installer_id door_type_id at r ≡ true)
      × All
          (λ s.
            rate_applies company_id installer_id door_type_id at s ≡ true
            → s.effective_from ≤ r.effective_from)
          (objects u.installer_rates)
unfolding get_by_keys
get_by_keys_latest c i k at u r clean h =
    let p : InstallerRate → Bool = rate_applies c i k at in
    let rows : List InstallerRate = select p u.installer_rates in
    (
      latest_rate-All (λ s. p s ≡ true) rows r (select-All p u.installer_rates clean) h,
      NoneLater-objects p r u.installer_rates clean (latest_rate-NoneLater rows r h),
    )
