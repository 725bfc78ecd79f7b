-- ===== src/ChangeLog/Pull.antt =====
-- Paging through the log: a device that pulls page after page, each from the last cursor of the
-- one before, misses no change and sees none twice.
use dimax_ops_backend.Base.{
  ℕ, zero, suc, ◌+◌, ◌<◌, ◌≤◌, ◌≡◌, refl, Bool, List, [], ◌∷◌, ◌++◌, arith, filter, take, drop,
  take-add,
}
use dimax_ops_backend.Domain.{LoggedChange}
use dimax_ops_backend.Uow.{Uow}
use dimax_ops_backend.ChangeLog.{after, page, in_scope, project_ids_of, pull_for_installer}
use dimax_ops_backend.ChangeLog.Order.{IsOrdered, Rises}

-- `rows[-1].cursor_id if rows else since_cursor`
abbrev pub next_cursor_of : (since_cursor : ℕ) → List LoggedChange → ℕ
next_cursor_of since_cursor [] = since_cursor
next_cursor_of since_cursor (r ∷ rows) = next_cursor_of r.cursor_id rows

module _ (scope : LoggedChange → Bool) where
  -- From a cursor below all that is left, only the scope decides.
  filter-after :
      (a b lo hi : ℕ) (log : List LoggedChange)
      → a < lo
      → b < lo
      → Rises lo hi log
      → filter (after a scope) log ≡ filter (after b scope) log
  filter-after a b lo hi [] h k r = refl
  filter-after a b lo hi (x ∷ log) h k r = ground (arith, filter-after a b (suc x.cursor_id) hi log)

  since-le-next :
      (since lo hi n : ℕ) (log : List LoggedChange)
      → Rises lo hi log
      → since ≤ next_cursor_of since (take n (filter (after since scope) log))
  since-le-next since lo hi zero log r = omega arith
  since-le-next since lo hi (suc n) [] r = omega arith
  since-le-next since lo hi (suc n) (x ∷ log) r = ground (
    arith,
    since-le-next x.cursor_id (suc x.cursor_id) hi n log,
    since-le-next since (suc x.cursor_id) hi (suc n) log,
    filter-after since x.cursor_id (suc x.cursor_id) hi log,
  )

  filter-next :
      (since lo hi n next : ℕ) (log : List LoggedChange)
      → Rises lo hi log
      → next ≡ next_cursor_of since (take n (filter (after since scope) log))
      → filter (after next scope) log ≡ drop n (filter (after since scope) log)
  filter-next since lo hi zero next log r e = rw e refl
  filter-next since lo hi (suc n) next [] r e = refl
  filter-next since lo hi (suc n) next (x ∷ log) r e = ground (
    arith,
    since-le-next x.cursor_id (suc x.cursor_id) hi n log r.1,
    since-le-next since (suc x.cursor_id) hi (suc n) log r.1,
    filter-after since x.cursor_id (suc x.cursor_id) hi log,
    filter-next x.cursor_id (suc x.cursor_id) hi n next log r.1,
    filter-next since (suc x.cursor_id) hi (suc n) next log r.1,
  )

-- A device that pulls a page and then pulls again from the cursor that it was given gets, together,
-- exactly the longer page that one pull would have given it: no change in its scope is missed,
-- repeated or reordered.
pub page-continues :
    (since m n lo hi : ℕ) (scope : LoggedChange → Bool) (log : List LoggedChange)
    → Rises lo hi log
    → let first = page since m scope log in
      first ++ page (next_cursor_of since first) n scope log ≡ page since (m + n) scope log
unfolding page
page-continues since m n lo hi scope log r =
    rw (take-add m n, filter-next scope since lo hi m _ log r refl) refl

-- While the log is in the order of its cursors, two pulls in succession, the second from the
-- cursor that the first answered, give exactly what one longer pull gives.
pub pull_for_installer-continues :
    (company_id installer_id since m n : ℕ) (u : Uow)
    → IsOrdered u
    → let first = pull_for_installer company_id installer_id since m u in
      first ++ pull_for_installer company_id installer_id (next_cursor_of since first) n u
      ≡ pull_for_installer company_id installer_id since (m + n) u
unfolding pull_for_installer
pull_for_installer-continues c i since m n u h =
    page-continues since m n 0 u.next_cursor (in_scope c i (project_ids_of c i u)) u.change_log h
