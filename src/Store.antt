-- ===== src/Store.antt =====
-- The rows that a unit of work holds (app/shared/infrastructure/db/uow_sqlalchemy.py and
-- session.py, where the session is opened with `autoflush=False`). A query is answered by the
-- database and hands out the session's objects, so each row has two versions: the one that the
-- database has, and the object, which runs ahead of it until the next flush.
pub mod Laws
use dimax_ops_backend.Base.{
  ℕ, suc, ◌≡◌, Bool, true, false, Option, none, some, List, [], ◌∷◌, ◌++◌, if◌then◌else◌, ◌||◌,
}

pub record Entry (A : Type 0) : Type 0 where
  pub stored : Option A  -- as the database has it; `none` before the INSERT
  pub live : A  -- the session's object

abbrev pub Table : Type 0 → Type 0
Table A = List (Entry A)

module _ {A : Type 0} where
  -- Whether the WHERE clause `p` holds of the row in the database.
  abbrev pub matches : (A → Bool) → Entry A → Bool
  matches p e = elim e.stored [ none ↦ false | some a ↦ p a ]

  -- `.first()` and `.one_or_none()`
  unfoldable pub find : (A → Bool) → Table A → Option A
  find p [] = none
  find p (e ∷ t) = if matches p e then some e.live else find p t

  -- `.all()`, in the order of the table
  unfoldable pub select : (A → Bool) → Table A → List A
  select p [] = []
  select p (e ∷ t) = let rest = select p t in if matches p e then e.live ∷ rest else rest

  -- `.count()`
  unfoldable pub count : (A → Bool) → Table A → ℕ
  count p [] = 0
  count p (e ∷ t) = let rest = count p t in if matches p e then suc rest else rest

  -- `.first() is not None`
  unfoldable pub exists : (A → Bool) → Table A → Bool
  exists p [] = false
  exists p (e ∷ t) = matches p e || exists p t

  -- `session.add` of a new object
  unfoldable pub add : A → Table A → Table A
  add a t = t ++ record { stored = none; live = a } ∷ []

  -- Assignments to attributes of the object that `key` picks out.
  unfoldable pub assign : (A → Bool) → (A → A) → Table A → Table A
  assign key f [] = []
  assign key f (e ∷ t) = (if key e.live then record e { live = f e.live } else e) ∷ assign key f t

  -- `query(...).delete(synchronize_session=False)`
  unfoldable pub delete_where : (A → Bool) → Table A → Table A
  delete_where p [] = []
  delete_where p (e ∷ t) = let rest = delete_where p t in if matches p e then rest else e ∷ rest

  -- `query(...).update(..., synchronize_session=False)` of rows that the session has not loaded.
  unfoldable pub update_where : (A → Bool) → (A → A) → Table A → Table A
  update_where p f [] = []
  update_where p f (e ∷ t) =
      (if matches p e
        then record {
          stored = elim e.stored [ none ↦ none | some a ↦ some (f a) ];
          live = f e.live;
        }
        else e)
      ∷ update_where p f t

  -- What a flush sends to the database.
  unfoldable pub flush : Table A → Table A
  flush [] = []
  flush (e ∷ t) = record { stored = some e.live; live = e.live } ∷ flush t

  -- The objects, flushed or not.
  unfoldable pub objects : Table A → List A
  objects [] = []
  objects (e ∷ t) = e.live ∷ objects t

  -- A UNIQUE constraint, by the test that two rows clash.
  abbrev pub clashes : (A → A → Bool) → A → List A → Bool
  clashes same a [] = false
  clashes same a (b ∷ bs) = same a b || clashes same a bs

  unfoldable pub violates : (A → A → Bool) → List A → Bool
  violates same [] = false
  violates same (a ∷ rest) = clashes same a rest || violates same rest
