-- ===== src/Uow/Triples.antt =====
-- Rules for the actions of Uow: `Holds I m Q` says that `m` keeps the invariant `I` of the unit of
-- work, whether it raises or not, and that what it returns satisfies `Q`.
use dimax_ops_backend.Base.{
  ◌≡◌, inl, inr, refl, ap, Bool, true, false, ℕ, Option, none, some, arith, suc, if◌then◌else◌,
}
use mathlib.Core.Path.{subst, subst⁻¹}
use dimax_ops_backend.Domain.{Error, pending_rollback}
use dimax_ops_backend.Uow.{
  Uow, Result, ok, err, Action, pure, raise, or_raise, query, ◌>>=◌, raise_if, branch, new_id,
  modify, flush_session, flush_session-states, flushed,
}

-- What an action returns does not matter.
abbrev pub Any : {A : Type 0} → A → Type 0
Any a = Unit {0}

ok_inj : {A : Type 0} {a b : A} → ok a ≡ ok b → a ≡ b
ok_inj h = ground arith

answer_inj :
    {A : Type 0} {a b : A} (down : Bool)
    → (if down then err pending_rollback else ok a) ≡ ok b
    → a ≡ b
answer_inj true h = absurd (ground arith)
answer_inj false h = ok_inj h

module _ (I : Uow → Type 0) where
  abbrev pub Holds : {A : Type 0} → Action A → (A → Type 0) → Type 0
  Holds m Q = (u : Uow) → I u → I (m u).1 × ((a : _) → (m u).0 ≡ ok a → Q a)

  pub pure-Holds : {A : Type 0} {Q : A → Type 0} (a : A) → Q a → Holds (pure a) Q
  pure-Holds {Q = Q} a q u i = (i, λ b h. subst Q (ok_inj h) q)

  pub raise-Holds : {A : Type 0} {Q : A → Type 0} (e : Error) → Holds (raise {A = A} e) Q
  raise-Holds e u i = (i, λ b h. absurd (ground arith))

  pub or_raise-Holds :
      {A : Type 0} {Q : A → Type 0} (o : Option A) (e : Error)
      → ((a : A) → o ≡ some a → Q a)
      → Holds (or_raise o e) Q
  or_raise-Holds none e q = raise-Holds e
  or_raise-Holds (some a) e q = pure-Holds a (q a refl)

  pub query-Holds :
      {A : Type 0} {Q : A → Type 0} (f : Uow → A) → ((u : Uow) → I u → Q (f u)) → Holds (query f) Q
  query-Holds {Q = Q} f q u i = (i, λ b h. subst Q (answer_inj u.broken h) (q u i))

  pub raise_if-Holds :
      {Q : Unit {0} → Type 0} (c : Bool) (e : Error) → (c ≡ false → Q tt) → Holds (raise_if c e) Q
  raise_if-Holds true e q u i = (i, λ b h. absurd (ground arith))
  raise_if-Holds false e q u i = (i, λ b h. q refl)

  pub branch-Holds :
      {A : Type 0} {Q : A → Type 0} (c : Bool) (m k : Action A)
      → (c ≡ true → Holds m Q)
      → (c ≡ false → Holds k Q)
      → Holds (branch c m k) Q
  branch-Holds true m k f g u i = f refl u i
  branch-Holds false m k f g u i = g refl u i

  continued :
      {A B : Type 0} {P : A → Type 0} {Q : B → Type 0} (f : A → Action B) (p : Result A × Uow)
      → I p.1
      → ((a : A) → p.0 ≡ ok a → P a)
      → ((a : A) → P a → Holds (f a) Q)
      → I (((λ _. p) >>= f) p.1).1 × ((b : B) → (((λ _. p) >>= f) p.1).0 ≡ ok b → Q b)
  continued f (ok a, v) i h k = k a (h a refl) v i
  continued f (err e, v) i h k = (i, λ b r. absurd (ground arith))

  pub bind-Holds :
      {A B : Type 0} {P : A → Type 0} {Q : B → Type 0} (m : Action A) (f : A → Action B)
      → Holds m P
      → ((a : A) → P a → Holds (f a) Q)
      → Holds (m >>= f) Q
  bind-Holds m f h k u i = continued f (m u) (h u i).0 (h u i).1 k

  pub new_id-Holds :
      {Q : ℕ → Type 0}
      → ((u : Uow) → I u → I (record u { next_id = suc u.next_id }))
      → ((u : Uow) → I u → Q u.next_id)
      → Holds new_id Q
  new_id-Holds {Q = Q} step q u i = (step u i, λ b h. subst Q (ok_inj h) (q u i))

  pub reads-Holds : {A : Type 0} (m : Action A) → ((u : Uow) → (m u).1 ≡ u) → Holds m Any
  reads-Holds m h u i = (subst⁻¹ I (h u) i, λ _ _. tt)

  pub modify-Holds : (f : Uow → Uow) → ((u : Uow) → I u → I (f u)) → Holds (modify f) Any
  modify-Holds f h u i = (h u i, λ _ _. tt)

  pub flush_session-Holds :
      ((u : Uow) → I u → I (flushed u))
      → ((u : Uow) (b : Bool) → I u → I (record u { broken = b }))
      → Holds flush_session Any
  flush_session-Holds f g u i = elim (flush_session-states u) [
    | inl h ↦ (subst⁻¹ I (ap (λ r. r.1) h) (f u i), λ _ _. tt)
    | inr (e, b, h) ↦ (subst⁻¹ I (ap (λ r. r.1) h) (g u b i), λ _ _. tt)
  ]

split_ok :
    {A B : Type 0} (f : A → Action B) (p : Result A × Uow) (b : B)
    → (((λ _. p) >>= f) p.1).0 ≡ ok b
    → (a : A) × (p.0 ≡ ok a) × (((λ _. p) >>= f) p.1 ≡ f a p.1)
split_ok f (ok a, v) b h = (a, refl, refl)
split_ok f (err e, v) b h = absurd (ground arith)

-- A sequence that returns has returned from each part.
pub bind_ok :
    {A B : Type 0} (m : Action A) (f : A → Action B) (u : Uow) (b : B)
    → ((m >>= f) u).0 ≡ ok b
    → (a : A) × ((m u).0 ≡ ok a) × ((m >>= f) u ≡ f a (m u).1)
bind_ok m f u b h = split_ok f (m u) b h

pub bind_step :
    {A B : Type 0} (m : Action A) (f : A → Action B) (u v : Uow) (a : A)
    → m u ≡ (ok a, v)
    → (m >>= f) u ≡ f a v
bind_step m f u v a h = ap (λ p. ((λ _. p) >>= f) u) h
