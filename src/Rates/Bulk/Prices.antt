-- ===== src/Rates/Bulk/Prices.antt =====
-- The versions that a bulk of prices leaves.
use dimax_ops_backend.Base.{
  ℕ, ◌≡◌, ◌⊎◌, inl, inr, refl, sym, ◌∙◌, Bool, true, ◌&&◌, ◌||◌, none, some, [], ◌∷◌, ◌==◌, arith,
  any, same_text, Option-cases,
}
use mathlib.Core.Path.{subst}
use dimax_ops_backend.Store.{Table, find, add, flush, objects}
use dimax_ops_backend.Store.Laws.{
  IsClean, flush-IsClean, objects-flush, objects-add, any-append, find_sound,
}
use dimax_ops_backend.Domain.{InstallerRate}
use dimax_ops_backend.Uow.{Uow, ok, flush_session, flushed}
use dimax_ops_backend.Rates.{has_rate_key, is_version, version_of}
use dimax_ops_backend.Rates.Bulk.{BulkCall, Counted, add_version, set_price, bulk_rate}

-- The version of the rate `obj` that the call asks for, at its price.
abbrev pub is_wanted :
    (company_id effective_from price : ℕ) → (obj : InstallerRate) → InstallerRate → Bool
is_wanted company_id effective_from price obj r =
    is_version company_id obj.installer_id obj.door_type_id effective_from r && r.price == price

-- A table that has got at most one row more, and was flushed then.
pub Grown : Table InstallerRate → Table InstallerRate → Type 0
Grown t t' = (t' ≡ t) ⊎ ((a : InstallerRate) × (t' ≡ flush (add a t)))

find-flush-add :
    (p : InstallerRate → Bool) (a obj : InstallerRate) (t : Table InstallerRate)
    → IsClean t
    → find p t ≡ some obj
    → find p (flush (add a t)) ≡ some obj
unfolding find flush add
find-flush-add p a obj [] c h = cc
find-flush-add p a obj (e ∷ t) c h = ground (arith, find-flush-add p a obj t c.1, c.0)

any-flush-add :
    (p : InstallerRate → Bool) (a : InstallerRate) (t : Table InstallerRate)
    → any p (objects (flush (add a t))) ≡ (any p (objects t) || p a)
any-flush-add p a t =
    rw (objects-flush (add a t), objects-add a t, any-append p (objects t) (a ∷ [])) (ground arith)

add_version-writes :
    (call : BulkCall) (obj : InstallerRate) (u : Uow) (x : Counted)
    → (add_version call obj u).0 ≡ ok x
    → (add_version call obj u).1.installer_rates
      ≡ flush (
          add
            (version_of u.next_id call.company_id obj.installer_id obj.door_type_id
              call.target_effective_from call.price)
            u.installer_rates)
unfolding add_version flush_session flushed
add_version-writes call obj u x h = ground arith

any_of_find :
    (p q : InstallerRate → Bool) (t : Table InstallerRate) (a : InstallerRate)
    → find p t ≡ some a
    → q a ≡ true
    → any q (objects t) ≡ true
unfolding find objects
any_of_find p q [] a h k = cc
any_of_find p q (e ∷ t) a h k = ground (arith, any_of_find p q t a)

-- What a price for a rate leaves: its version is there, and no other is lost.
abbrev Priced : BulkCall → InstallerRate → (u v : Uow) → Type 0
Priced call obj u v =
    Grown u.installer_rates v.installer_rates
    × (any (is_wanted call.company_id call.target_effective_from call.price obj)
          (objects v.installer_rates)
        ≡ true)

version_of-is_wanted :
    (company_id effective_from price id : ℕ) (obj : InstallerRate)
    → is_wanted company_id effective_from price obj
        (version_of id company_id obj.installer_id obj.door_type_id effective_from price)
      ≡ true
version_of-is_wanted company_id effective_from price id obj = ground arith

add_version-Priced :
    (call : BulkCall) (obj : InstallerRate) (u : Uow) (x : Counted)
    → (add_version call obj u).0 ≡ ok x
    → Priced call obj u (add_version call obj u).1
unfolding Grown
add_version-Priced call obj u x h =
    let row =
      version_of u.next_id call.company_id obj.installer_id obj.door_type_id
        call.target_effective_from call.price in
    let wanted = is_wanted call.company_id call.target_effective_from call.price obj in
    let here =
      version_of-is_wanted call.company_id call.target_effective_from call.price u.next_id obj in
    rw (add_version-writes call obj u x h)
      (inr (row, refl), rw (any-flush-add wanted row u.installer_rates, here) (ground arith))

known-Priced :
    (call : BulkCall) (obj version : InstallerRate) (u : Uow)
    → IsClean u.installer_rates
    → find
        (is_version call.company_id obj.installer_id obj.door_type_id call.target_effective_from)
        u.installer_rates
      ≡ some version
    → (version.price == call.price) ≡ true
    → Priced call obj u u
unfolding Grown
known-Priced call obj version u c found same =
    let key =
      is_version call.company_id obj.installer_id obj.door_type_id call.target_effective_from in
    let sound = find_sound key u.installer_rates version c found in
    (
      inl refl,
      any_of_find key (is_wanted call.company_id call.target_effective_from call.price obj)
          u.installer_rates version found (ground (arith, sound, same)),
    )

set_price-cases :
    (call : BulkCall) (obj : InstallerRate) (u : Uow) (x : Counted)
    → (set_price call obj u).0 ≡ ok x
    → ((add_version call obj u).0 ≡ ok x) × (set_price call obj u ≡ add_version call obj u)
      ⊎ ((version : InstallerRate) × (find
              (is_version call.company_id obj.installer_id obj.door_type_id
                call.target_effective_from)
              u.installer_rates
            ≡ some version)
          × ((version.price == call.price) ≡ true)
          × ((set_price call obj u).1 ≡ u))
unfolding set_price
set_price-cases call obj u x h =
    elim (Option-cases (
      find (is_version call.company_id obj.installer_id obj.door_type_id call.target_effective_from)
        u.installer_rates)) [
          | inl missing ↦ inl (ground arith, ground arith)
          | inr (version, found) ↦ inr (version, found, ground arith, ground arith)
        ]

set_price-Priced :
    (call : BulkCall) (obj : InstallerRate) (u : Uow) (x : Counted)
    → IsClean u.installer_rates
    → (set_price call obj u).0 ≡ ok x
    → Priced call obj u (set_price call obj u).1
set_price-Priced call obj u x c h = elim (set_price-cases call obj u x h) [
  | inl (added, same) ↦ rw same (add_version-Priced call obj u x added)
  | inr (version, found, price, same) ↦ rw same (known-Priced call obj version u c found price)
]

-- What a rate of the bulk leaves of the table, and for itself when it is there.
abbrev pub Stepped : BulkCall → (rate_id : ℕ) → (u v : Uow) → Type 0
Stepped call rate_id u v =
    Grown u.installer_rates v.installer_rates
    × ((obj : InstallerRate)
        → find (has_rate_key call.company_id rate_id) u.installer_rates ≡ some obj
        → any (is_wanted call.company_id call.target_effective_from call.price obj)
            (objects v.installer_rates)
          ≡ true)

bulk_rate-cases :
    (call : BulkCall) (rate_id : ℕ) (u : Uow) (x : Counted)
    → same_text call.operation "set_price" ≡ true
    → (bulk_rate call rate_id u).0 ≡ ok x
    → (find (has_rate_key call.company_id rate_id) u.installer_rates ≡ none)
        × ((bulk_rate call rate_id u).1 ≡ u)
      ⊎ ((obj : InstallerRate) × (find (has_rate_key call.company_id rate_id) u.installer_rates
            ≡ some obj)
          × ((set_price call obj u).0 ≡ ok x)
          × (bulk_rate call rate_id u ≡ set_price call obj u))
unfolding bulk_rate
bulk_rate-cases call rate_id u x op h =
    elim (Option-cases (find (has_rate_key call.company_id rate_id) u.installer_rates)) [
      | inl missing ↦ inl (missing, ground arith)
      | inr (obj, found) ↦ inr (obj, found, ground arith, ground arith)
    ]

some_inj : {a b : InstallerRate} → some a ≡ some b → a ≡ b
some_inj h = ground arith

pub bulk_rate-Stepped :
    (call : BulkCall) (rate_id : ℕ) (u : Uow) (x : Counted)
    → same_text call.operation "set_price" ≡ true
    → IsClean u.installer_rates
    → (bulk_rate call rate_id u).0 ≡ ok x
    → Stepped call rate_id u (bulk_rate call rate_id u).1
unfolding Grown
bulk_rate-Stepped call rate_id u x op c h = elim (bulk_rate-cases call rate_id u x op h) [
  | inl (missing, same) ↦ rw same (inl refl, λ obj found. absurd (ground (arith, missing, found)))
  | inr (obj, found, done, same) ↦
      let (grown, priced) = set_price-Priced call obj u x c done in
      rw same (
        grown,
        λ other f.
            subst
              (λ o.
                any (is_wanted call.company_id call.target_effective_from call.price o)
                  (objects (set_price call obj u).1.installer_rates)
                ≡ true)
              (some_inj (sym found ∙ f)) priced,
      )
]

-- A table that grows stays clean, keeps its rows, and finds what it found.
pub Grown-IsClean : (t t' : Table InstallerRate) → Grown t t' → IsClean t → IsClean t'
unfolding Grown
Grown-IsClean t t' (inl same) c = rw same c
Grown-IsClean t t' (inr (a, more)) c = rw more (flush-IsClean (add a t))

pub Grown-any :
    (p : InstallerRate → Bool) (t t' : Table InstallerRate)
    → Grown t t'
    → any p (objects t) ≡ true
    → any p (objects t') ≡ true
unfolding Grown
Grown-any p t t' (inl same) h = rw same h
Grown-any p t t' (inr (a, more)) h = rw (more, any-flush-add p a t, h) refl

pub Grown-find :
    (p : InstallerRate → Bool) (obj : InstallerRate) (t t' : Table InstallerRate)
    → Grown t t'
    → IsClean t
    → find p t ≡ some obj
    → find p t' ≡ some obj
unfolding Grown
Grown-find p obj t t' (inl same) c h = rw same h
Grown-find p obj t t' (inr (a, more)) c h = rw more (find-flush-add p a obj t c h)
