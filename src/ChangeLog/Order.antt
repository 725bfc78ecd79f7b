-- ===== src/ChangeLog/Order.antt =====
-- The log is in the order of its cursors, whatever is flushed or deleted.
use dimax_ops_backend.Base.{
  ℕ, suc, ◌≤◌, Bool, List, [], ◌∷◌, ◌++◌, arith, filter, inl, inr, Bool-cases,
}
use dimax_ops_backend.Domain.{Change, LoggedChange}
use dimax_ops_backend.Uow.{Uow, number_from, next_after, flushed}
use dimax_ops_backend.ChangeLog.{delete_upto}

-- The cursors rise from above `lo` and stay below `hi`.
abbrev pub Rises : (lo hi : ℕ) → List LoggedChange → Type 0
Rises lo hi [] = lo ≤ hi
Rises lo hi (r ∷ log) = (lo ≤ r.cursor_id) × Rises (suc r.cursor_id) hi log

pub Rises-weaken :
    (lo lo' hi : ℕ) (log : List LoggedChange) → lo ≤ lo' → Rises lo' hi log → Rises lo hi log
Rises-weaken lo lo' hi [] h r = omega arith
Rises-weaken lo lo' hi (x ∷ log) h r = (omega arith, r.1)

pub Rises-filter :
    (lo hi : ℕ) (p : LoggedChange → Bool) (log : List LoggedChange)
    → Rises lo hi log
    → Rises lo hi (filter p log)
Rises-filter lo hi p [] r = r
Rises-filter lo hi p (x ∷ log) r =
    let ih = Rises-filter (suc x.cursor_id) hi p log r.1 in
    elim (Bool-cases (p x)) [
      | inl kept ↦ rw kept (r.0, ih)
      | inr dropped ↦
          rw dropped (Rises-weaken lo (suc x.cursor_id) hi (filter p log) (omega arith) ih)
    ]

Rises-number_from : (n : ℕ) (cs : List Change) → Rises n (next_after n cs) (number_from n cs)
unfolding number_from next_after
Rises-number_from n [] = omega arith
Rises-number_from n (c ∷ cs) = (omega arith, Rises-number_from (suc n) cs)

Rises-append :
    (lo mid hi : ℕ) (xs ys : List LoggedChange)
    → Rises lo mid xs
    → Rises mid hi ys
    → Rises lo hi (xs ++ ys)
Rises-append lo mid hi [] ys h k = Rises-weaken lo mid hi ys h k
Rises-append lo mid hi (x ∷ xs) ys h k = (h.0, Rises-append (suc x.cursor_id) mid hi xs ys h.1 k)

-- A log in which every cursor is below the next value of the sequence.
abbrev pub IsOrdered : Uow → Type 0
IsOrdered u = Rises 0 u.next_cursor u.change_log

-- A flush and a garbage collection keep the log in the order of its cursors.
flushed_delete-IsOrdered :
    (company_id max_cursor_inclusive : ℕ) (u : Uow)
    → IsOrdered u
    → IsOrdered (flushed u)
      × Rises 0 u.next_cursor (delete_upto company_id max_cursor_inclusive u.change_log)
unfolding flushed delete_upto
flushed_delete-IsOrdered company_id cutoff u h = (
  Rises-append 0 u.next_cursor _ u.change_log (number_from u.next_cursor u.pending_changes) h
      (Rises-number_from u.next_cursor u.pending_changes),
  Rises-filter 0 u.next_cursor _ u.change_log h,
)
