-- ===== src/Store/Laws.antt =====
-- What the operations on tables do to the objects and to the rows that a query finds.
use dimax_ops_backend.Base.{
  ◌||◌, List, ◌<◌, ◌≡◌, refl, Bool, true, some, [], ◌∷◌, ◌++◌, arith, All, any, ltb, length, filter,
  ap,
}
use dimax_ops_backend.Store.{Table, find, count, exists, add, assign, flush, objects}

module _ {A : Type 0} where
  -- In a table that nothing runs ahead of, the database has every object.
  abbrev pub IsClean : Table A → Type 0
  IsClean [] = Unit
  IsClean (e ∷ t) = (e.stored ≡ some e.live) × IsClean t

  pub flush-IsClean : (t : Table A) → IsClean (flush t)
  unfolding flush
  flush-IsClean [] = tt
  flush-IsClean (e ∷ t) = (refl, flush-IsClean t)

  pub flush_clean : (t : Table A) → IsClean t → flush t ≡ t
  unfolding flush
  flush_clean [] c = refl
  flush_clean (e ∷ t) c = ground (arith, flush_clean t c.1)

  -- After a flush the database answers by the objects.
  pub exists-flush : (p : A → Bool) (t : Table A) → exists p (flush t) ≡ any p (objects t)
  unfolding flush exists objects
  exists-flush p [] = refl
  exists-flush p (e ∷ t) = ground (arith, exists-flush p t)

  pub any-append : (p : A → Bool) (xs ys : List A) → any p (xs ++ ys) ≡ (any p xs || any p ys)
  any-append p [] ys = refl
  any-append p (x ∷ xs) ys = ground (arith, any-append p xs ys)

  pub objects-flush : (t : Table A) → objects (flush t) ≡ objects t
  unfolding flush objects
  objects-flush [] = refl
  objects-flush (e ∷ t) = ground (arith, objects-flush t)

  pub objects-add : (a : A) (t : Table A) → objects (add a t) ≡ objects t ++ a ∷ []
  unfolding add objects
  objects-add a [] = refl
  objects-add a (e ∷ t) = ground (arith, objects-add a t)

  pub find-assign :
      (p key : A → Bool) (f : A → A) (t : Table A) (a : A)
      → find p t ≡ some a
      → key a ≡ true
      → find p (assign key f t) ≡ some (f a)
  unfolding find assign
  find-assign p key f [] a h k = cc
  find-assign p key f (e ∷ t) a h k = ground (arith, find-assign p key f t a)

  pub find-add : (p : A → Bool) (a : A) (t : Table A) → find p (add a t) ≡ find p t
  unfolding find add
  find-add p a [] = refl
  find-add p a (e ∷ t) = ground (arith, find-add p a t)

  -- The database does not see what an assignment wrote.
  pub count-assign :
      (p key : A → Bool) (f : A → A) (t : Table A) → count p (assign key f t) ≡ count p t
  unfolding count assign
  count-assign p key f [] = refl
  count-assign p key f (e ∷ t) = ground (arith, count-assign p key f t)

  pub exists-assign :
      (p key : A → Bool) (f : A → A) (t : Table A) → exists p (assign key f t) ≡ exists p t
  unfolding exists assign
  exists-assign p key f [] = refl
  exists-assign p key f (e ∷ t) = ground (arith, exists-assign p key f t)

  pub exists-add : (p : A → Bool) (a : A) (t : Table A) → exists p (add a t) ≡ exists p t
  unfolding exists add
  exists-add p a [] = refl
  exists-add p a (e ∷ t) = ground (arith, exists-add p a t)

  pub count_of_find :
      (p q : A → Bool) (t : Table A) (a : A)
      → IsClean t
      → find p t ≡ some a
      → q a ≡ true
      → 0 < count q t
  unfolding find count
  count_of_find p q [] a c h k = cc
  count_of_find p q (e ∷ t) a c h k = ground (arith, count_of_find p q t a)

  pub find_sound : (p : A → Bool) (t : Table A) (a : A) → IsClean t → find p t ≡ some a → p a ≡ true
  unfolding find
  find_sound p [] a c h = cc
  find_sound p (e ∷ t) a c h = ground (arith, find_sound p t a)

  -- In a clean table a count is positive exactly when an object passes the test.
  pub count-any : (p : A → Bool) (t : Table A) → IsClean t → ltb 0 (count p t) ≡ any p (objects t)
  unfolding count objects
  count-any p [] c = refl
  count-any p (e ∷ t) c = ground (arith, count-any p t)

  pub All-find :
      (P : A → Type 0) (p : A → Bool) (t : Table A) (a : A)
      → All P (objects t)
      → find p t ≡ some a
      → P a
  unfolding find objects
  All-find P p [] a h e = cc
  All-find P p (x ∷ t) a h e = ground (arith, All-find P p t a h.1)

  pub All-assign :
      (P : A → Type 0) (key : A → Bool) (b : A) (t : Table A)
      → All P (objects t)
      → P b
      → All P (objects (assign key (λ _. b) t))
  unfolding assign objects
  All-assign P key b [] h k = tt
  All-assign P key b (x ∷ t) h k = ground (arith, All-assign P key b t h.1 k)

  -- The count of a clean table, and that of a flushed one, is taken over the objects.
  pub count_clean :
      (p : A → Bool) (t : Table A) → IsClean t → count p t ≡ length (filter p (objects t))
  unfolding count objects
  count_clean p [] c = refl
  count_clean p (e ∷ t) c = ground (arith, count_clean p t c.1)

  pub count-flush : (p : A → Bool) (t : Table A) → count p (flush t) ≡ length (filter p (objects t))
  unfolding count flush objects
  count-flush p [] = refl
  count-flush p (e ∷ t) = ground (arith, count-flush p t)

  pub find-flush : (p : A → Bool) (t : Table A) → IsClean t → find p (flush t) ≡ find p t
  find-flush p t c = ap (find p) (flush_clean t c)
