-- ===== src/Outbox/Batch.antt =====
-- The batch that the worker takes: messages that are due, the oldest first.
use dimax_ops_backend.Base.{
  ℕ, zero, suc, ◌+◌, ◌≤◌, ◌≡◌, refl, ap, ◌∙◌, Bool, Option, List, [], ◌∷◌, ◌++◌, arith, All,
  All-map, take, drop, length, length-take, leb, if◌then◌else◌, Bool-cases, inl, inr,
}
use dimax_ops_backend.Store.{Table, select}
use dimax_ops_backend.Domain.{OutboxMessage}
use dimax_ops_backend.Outbox.{is_due, insert_by_age, sort_by_age, lock_next_batch}

-- Nothing in `ms` is older than `m`.
abbrev pub IsOldest : OutboxMessage → List OutboxMessage → Type 0
IsOldest m ms = All (λ x. m.created_at ≤ x.created_at) ms

abbrev pub IsSorted : List OutboxMessage → Type 0
IsSorted [] = Unit {0}
IsSorted (m ∷ ms) = IsOldest m ms × IsSorted ms

All-insert_by_age :
    (P : OutboxMessage → Type 0) (m : OutboxMessage) (xs : List OutboxMessage)
    → P m
    → All P xs
    → All P (insert_by_age m xs)
unfolding insert_by_age
All-insert_by_age P m [] h k = (h, tt)
All-insert_by_age P m (x ∷ xs) h k = elim (Bool-cases (leb m.created_at x.created_at)) [
  | inl older ↦ rw older (h, k)
  | inr newer ↦ rw newer (k.0, All-insert_by_age P m xs h k.1)
]

insert_by_age-IsSorted :
    (m : OutboxMessage) (xs : List OutboxMessage) → IsSorted xs → IsSorted (insert_by_age m xs)
unfolding insert_by_age
insert_by_age-IsSorted m [] h = (tt, tt)
insert_by_age-IsSorted m (x ∷ xs) h = elim (Bool-cases (leb m.created_at x.created_at)) [
  | inl older ↦ rw older ((ground arith, All-map (λ y k. ground arith) xs h.0), h)
  | inr newer ↦ rw newer (
    All-insert_by_age (λ y. x.created_at ≤ y.created_at) m xs (ground arith) h.0,
    insert_by_age-IsSorted m xs h.1,
  )
]

sort_by_age-IsSorted : (xs : List OutboxMessage) → IsSorted (sort_by_age xs)
unfolding sort_by_age
sort_by_age-IsSorted [] = tt
sort_by_age-IsSorted (x ∷ xs) = insert_by_age-IsSorted x (sort_by_age xs) (sort_by_age-IsSorted xs)

All-sort_by_age :
    (P : OutboxMessage → Type 0) (xs : List OutboxMessage) → All P xs → All P (sort_by_age xs)
unfolding sort_by_age
All-sort_by_age P [] h = tt
All-sort_by_age P (x ∷ xs) h = All-insert_by_age P x (sort_by_age xs) h.0 (All-sort_by_age P xs h.1)

All-drop :
    (P : OutboxMessage → Type 0) (n : ℕ) (xs : List OutboxMessage) → All P xs → All P (drop n xs)
All-drop P zero xs h = h
All-drop P (suc n) [] h = tt
All-drop P (suc n) (x ∷ xs) h = All-drop P n xs h.1

-- What is left behind is no older than what was taken.
take-drop-IsOldest :
    (n : ℕ) (xs : List OutboxMessage) → IsSorted xs → All (λ m. IsOldest m (drop n xs)) (take n xs)
take-drop-IsOldest zero xs h = tt
take-drop-IsOldest (suc n) [] h = tt
take-drop-IsOldest (suc n) (x ∷ xs) h =
    (All-drop (λ y. x.created_at ≤ y.created_at) n xs h.0, take-drop-IsOldest n xs h.1)

-- The number of the messages that pass a test.
abbrev pub number : (OutboxMessage → Bool) → List OutboxMessage → ℕ
number p [] = 0
number p (x ∷ xs) = (if p x then 1 else 0) + number p xs

number-insert_by_age :
    (p : OutboxMessage → Bool) (m : OutboxMessage) (xs : List OutboxMessage)
    → number p (insert_by_age m xs) ≡ number p (m ∷ xs)
unfolding insert_by_age
number-insert_by_age p m [] = refl
number-insert_by_age p m (x ∷ xs) = elim (Bool-cases (leb m.created_at x.created_at)) [
  | inl older ↦ rw older refl
  | inr newer ↦ rw newer (omega (arith, number-insert_by_age p m xs))
]

number-sort_by_age :
    (p : OutboxMessage → Bool) (xs : List OutboxMessage) → number p (sort_by_age xs) ≡ number p xs
unfolding sort_by_age
number-sort_by_age p [] = refl
number-sort_by_age p (x ∷ xs) =
    number-insert_by_age p x (sort_by_age xs) ∙ omega (arith, number-sort_by_age p xs)

take-drop : (n : ℕ) (xs : List OutboxMessage) → take n xs ++ drop n xs ≡ xs
take-drop zero xs = refl
take-drop (suc n) [] = refl
take-drop (suc n) (x ∷ xs) = ap (λ ys. x ∷ ys) (take-drop n xs)

All-take :
    (P : OutboxMessage → Type 0) (n : ℕ) (xs : List OutboxMessage) → All P xs → All P (take n xs)
All-take P zero xs h = tt
All-take P (suc n) [] h = tt
All-take P (suc n) (x ∷ xs) h = (h.0, All-take P n xs h.1)

take-IsSorted : (n : ℕ) (xs : List OutboxMessage) → IsSorted xs → IsSorted (take n xs)
take-IsSorted zero xs h = tt
take-IsSorted (suc n) [] h = tt
take-IsSorted (suc n) (x ∷ xs) h =
    (All-take (λ y. x.created_at ≤ y.created_at) n xs h.0, take-IsSorted n xs h.1)

-- The worker's batch is of the oldest due messages, at most limit, in the order of their
-- creation.
pub lock_next_batch-IsOldest :
    (now : ℕ) (company_id : Option ℕ) (limit : ℕ) (t : Table OutboxMessage)
    → let batch = lock_next_batch now company_id limit t in
      (rest : List OutboxMessage) × ((p : OutboxMessage → Bool)
        → number p (batch ++ rest) ≡ number p (select (is_due now company_id) t))
      × (length batch ≤ limit)
      × IsSorted batch
      × All (λ m. IsOldest m rest) batch
unfolding lock_next_batch
lock_next_batch-IsOldest now company_id limit t =
    let sorted = sort_by_age (select (is_due now company_id) t) in
    let in_order = sort_by_age-IsSorted (select (is_due now company_id) t) in
    (
      drop limit sorted,
      λ p.
          ap (number p) (take-drop limit sorted)
          ∙ number-sort_by_age p (select (is_due now company_id) t),
      length-take limit sorted,
      take-IsSorted limit sorted in_order,
      take-drop-IsOldest limit sorted in_order,
    )
