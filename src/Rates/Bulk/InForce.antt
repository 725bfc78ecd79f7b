-- ===== src/Rates/Bulk/InForce.antt =====
-- After a bulk of prices every rate of it has the version that was asked for.
use dimax_ops_backend.Base.{
  ℕ, ◌≡◌, ◌⊎◌, inl, inr, refl, sym, ap, ◌∙◌, true, false, Option, some, List, [], ◌∷◌, ◌==◌, ==→eq,
  arith, any, elem, unique_from, get_or, same_text, Bool-cases,
}
use mathlib.Core.Path.{subst}
use dimax_ops_backend.Store.{find, objects}
use dimax_ops_backend.Store.Laws.{IsClean, objects-flush}
use dimax_ops_backend.Domain.{InstallerRate}
use dimax_ops_backend.Uow.{Uow, ok, pure, ◌>>=◌, flush_session, flushed}
use dimax_ops_backend.Uow.Triples.{bind_ok}
use dimax_ops_backend.Rates.{has_rate_key}
use dimax_ops_backend.Rates.Bulk.{BulkCall, BulkCounts, bulk_rate, bulk_loop, bulk_rates, add_count}
use dimax_ops_backend.Rates.Bulk.Prices.{
  is_wanted, Grown, Grown-IsClean, Grown-any, Grown-find, bulk_rate-Stepped,
}

module _ (call : BulkCall) (op : same_text call.operation "set_price" ≡ true) where
  abbrev IsPriced : InstallerRate → Uow → Type 0
  IsPriced obj u =
      any (is_wanted call.company_id call.target_effective_from call.price obj)
        (objects u.installer_rates)
      ≡ true

  -- The rate is in the rest of the bulk, or has its version.
  pending_after :
      (rate_id id : ℕ) (ids : List ℕ) (obj : InstallerRate) (u v : Uow)
      → Grown u.installer_rates v.installer_rates
      → ((o : InstallerRate)
          → find (has_rate_key call.company_id id) u.installer_rates ≡ some o
          → IsPriced o v)
      → find (has_rate_key call.company_id rate_id) u.installer_rates ≡ some obj
      → IsPriced obj u ⊎ (elem rate_id (id ∷ ids) ≡ true)
      → IsPriced obj v ⊎ (elem rate_id ids ≡ true)
  pending_after rate_id id ids obj u v grown priced found (inl here) = inl (
      Grown-any (is_wanted call.company_id call.target_effective_from call.price obj)
        u.installer_rates v.installer_rates grown here)
  pending_after rate_id id ids obj u v grown priced found (inr waits) =
      elim (Bool-cases (rate_id == id)) [
        | inl same ↦ inl (
            priced obj (
              subst (λ n. find (has_rate_key call.company_id n) u.installer_rates ≡ some obj)
                (==→eq rate_id id same) found))
        | inr other ↦ inr (ground (arith, other, waits))
      ]

  bulk_loop-IsPriced :
      (rate_id : ℕ) (obj : InstallerRate) (ids : List ℕ) (u : Uow) (c : BulkCounts)
      → IsClean u.installer_rates
      → (bulk_loop call ids u).0 ≡ ok c
      → find (has_rate_key call.company_id rate_id) u.installer_rates ≡ some obj
      → IsPriced obj u ⊎ (elem rate_id ids ≡ true)
      → IsPriced obj (bulk_loop call ids u).1
  unfolding bulk_loop
  bulk_loop-IsPriced rate_id obj [] u c clean h found (inl here) = here
  bulk_loop-IsPriced rate_id obj [] u c clean h found (inr waits) = absurd (ground arith)
  bulk_loop-IsPriced rate_id obj (id ∷ ids) u c clean h found waits =
      let (x, done, step) =
        bind_ok (bulk_rate call id) (λ x. bulk_loop call ids >>= λ rest. pure (add_count x rest)) u
          c h in
      let v = (bulk_rate call id u).1 in
      let (grown, priced) = bulk_rate-Stepped call id u x op clean done in
      let (rest, done', step') =
        bind_ok (bulk_loop call ids) (λ rest. pure (add_count x rest)) v c
          (sym (ap (λ q. q.0) step) ∙ h) in
      let goes_on =
        bulk_loop-IsPriced rate_id obj ids v rest
          (Grown-IsClean u.installer_rates v.installer_rates grown clean) done'
          (Grown-find (has_rate_key call.company_id rate_id) obj u.installer_rates v.installer_rates
            grown clean found)
          (pending_after rate_id id ids obj u v grown priced found waits) in
      rw (step, step') goes_on

elem-unique_from :
    (a : ℕ) (seen xs : List ℕ)
    → elem a xs ≡ true
    → elem a seen ≡ false
    → elem a (unique_from seen xs) ≡ true
elem-unique_from a seen [] h fresh = h
elem-unique_from a seen (x ∷ xs) h fresh = elim (Bool-cases (a == x)) [
  | inl same ↦ ground (arith, ==→eq a x same, same, fresh)
  | inr other ↦ ground (arith, other, elem-unique_from a seen xs, elem-unique_from a (x ∷ seen) xs)
]

abbrev price_call : (now company_id actor_user_id price : ℕ) (effective_from : Option ℕ) → BulkCall
price_call now company_id actor_user_id price effective_from = record {
  now = now;
  company_id = company_id;
  actor_user_id = actor_user_id;
  operation = "set_price";
  price = price;
  target_effective_from = get_or effective_from now;
}

-- A bulk of prices that returns has run its loop and flushed.
bulk_rates-loop :
    (now company_id actor_user_id price : ℕ) (ids : List ℕ) (effective_from : Option ℕ) (u : Uow)
    (c : BulkCounts)
    → (bulk_rates now company_id actor_user_id ids "set_price" (some price) effective_from u).0
      ≡ ok c
    → let loop =
        bulk_loop
          (price_call now company_id actor_user_id price effective_from)
          (unique_from [] ids)
          u in
      (loop.0 ≡ ok c)
      × ((bulk_rates now company_id actor_user_id ids "set_price" (some price) effective_from u).1
          ≡ flushed loop.1)
unfolding bulk_rates flush_session
bulk_rates-loop now company_id actor_user_id price ids effective_from u c h =
    (ground arith, ground arith)

-- Each rate of a bulk of prices that returns has a version from the instant on at the price, in a
-- session whose rates are as the database has them.
pub bulk_rates-is_wanted :
    (now company_id actor_user_id rate_id price : ℕ) (ids : List ℕ) (effective_from : Option ℕ)
    (obj : InstallerRate) (u : Uow) (c : BulkCounts)
    → IsClean u.installer_rates
    → elem rate_id ids ≡ true
    → find (has_rate_key company_id rate_id) u.installer_rates ≡ some obj
    → (bulk_rates now company_id actor_user_id ids "set_price" (some price) effective_from u).0
      ≡ ok c
    → any (is_wanted company_id (get_or effective_from now) price obj) (
        objects
          (bulk_rates now company_id actor_user_id ids "set_price"
            (some price)
            effective_from
            u).1.installer_rates)
      ≡ true
unfolding flushed
bulk_rates-is_wanted now company_id actor_user_id rate_id price ids effective_from obj u c clean
      asked found h =
    let call = price_call now company_id actor_user_id price effective_from in
    let (done, state) =
      bulk_rates-loop now company_id actor_user_id price ids effective_from u c h in
    let w = (bulk_loop call (unique_from [] ids) u).1 in
    let priced =
      bulk_loop-IsPriced call refl rate_id obj (unique_from [] ids) u c clean done found
        (inr (elem-unique_from rate_id [] ids asked refl)) in
    rw (state, objects-flush w.installer_rates) priced
