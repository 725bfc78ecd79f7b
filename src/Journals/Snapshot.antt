-- ===== src/Journals/Snapshot.antt =====
-- The items of a draft after its snapshot was refreshed.
use dimax_ops_backend.Base.{
  ℕ, suc, ◌≡◌, refl, sym, ap, Bool, true, false, some, Option, String, map, filter, List, [], ◌∷◌,
  ◌++◌, arith, All, ==_refl, ◌∙◌,
}
use mathlib.Core.List.{append-nil, append_assoc}
use dimax_ops_backend.Store.{Table, select, find, add, flush, delete_where}
use dimax_ops_backend.Store.Laws.{IsClean}
use dimax_ops_backend.Domain.{Journal, JournalStatus, JournalDoorItem, Door, DoorStatus}
use dimax_ops_backend.Uow.{Uow, ok, with_uow, with_uow_ok, flushed}
use dimax_ops_backend.Doors.{in_project}
use dimax_ops_backend.Outbox.{has_journal_key}
use dimax_ops_backend.Journals.{
  is_draft, is_item_of, item_of, installed_of, items_of, add_items, refresh_snapshot,
}

select-delete_where :
    {A : Type 0} (p : A → Bool) (t : Table A) → IsClean t → select p (flush (delete_where p t)) ≡ []
unfolding select flush delete_where
select-delete_where p [] c = refl
select-delete_where p (e ∷ t) c = ground (arith, select-delete_where p t c.1, c.0)

select-add :
    {A : Type 0} (p : A → Bool) (a : A) (t : Table A)
    → p a ≡ true
    → select p (flush (add a t)) ≡ select p (flush t) ++ a ∷ []
unfolding select flush add
select-add p a [] h = ground arith
select-add p a (e ∷ t) h = ground (arith, select-add p a t h)

select-add_items :
    (c j : ℕ) (is : List JournalDoorItem) (t : Table JournalDoorItem)
    → All (λ i. is_item_of c j i ≡ true) is
    → select (is_item_of c j) (flush (add_items is t)) ≡ select (is_item_of c j) (flush t) ++ is
unfolding add_items
select-add_items c j [] t a = sym (append-nil (select (is_item_of c j) (flush t)))
select-add_items c j (i ∷ is) t a =
    select-add_items c j is (add i t) a.1
    ∙ ap (λ xs. xs ++ is) (select-add (is_item_of c j) i t a.0)
    ∙ append_assoc (select (is_item_of c j) (flush t)) (i ∷ []) is

items_of-is_item_of :
    (id c j : ℕ) (ds : List Door) → All (λ i. is_item_of c j i ≡ true) (items_of id c j ds)
unfolding items_of item_of
items_of-is_item_of id c j [] = tt
items_of-is_item_of id c j (d ∷ ds) =
    (ground (arith, ==_refl c, ==_refl j), items_of-is_item_of (suc id) c j ds)

refresh_snapshot-writes :
    (c k : ℕ) (j : Journal) (u : Uow)
    → find (has_journal_key c k) u.journals ≡ some j
    → (refresh_snapshot c k u).0 ≡ ok tt
    → (is_draft j.status ≡ true)
      × ((refresh_snapshot c k u).1.journal_items
          ≡ add_items
              (items_of u.next_id c k (installed_of (select (in_project c j.project_id) u.doors)))
              (delete_where (is_item_of c k) u.journal_items))
unfolding refresh_snapshot
refresh_snapshot-writes c k j u found h = ground arith

abbrev pub is_installed : DoorStatus → Bool
is_installed DoorStatus.installed = true
is_installed DoorStatus.not_installed = false

-- The columns of an item that come from its door, and those of the door.
abbrev pub ItemColumns : Type 0
ItemColumns = ℕ × String × ℕ × Option ℕ

abbrev pub columns_of_item : JournalDoorItem → ItemColumns
columns_of_item i = (i.door_id, i.unit_label, i.door_type_id, i.installed_at)

abbrev pub columns_of_door : Door → ItemColumns
columns_of_door d = (d.id, d.labels.unit_label, d.door_type_id, d.installed_at)

items_of-columns :
    (id c j : ℕ) (ds : List Door)
    → map columns_of_item (items_of id c j (installed_of ds))
      ≡ map columns_of_door (filter (λ d. is_installed d.status) ds)
unfolding items_of item_of installed_of
items_of-columns id c j [] = refl
items_of-columns id c j (d ∷ ds) =
    ground (arith, items_of-columns id c j ds, items_of-columns (suc id) c j ds)

-- A refreshed snapshot was that of a draft and holds exactly the items of the installed doors of
-- the project, with their labels, types and times, in a session whose items were as the database
-- has them.
pub refresh_snapshot-columns :
    (c k : ℕ) (j : Journal) (u : Uow)
    → IsClean u.journal_items
    → find (has_journal_key c k) u.journals ≡ some j
    → (with_uow (refresh_snapshot c k) u).0 ≡ ok tt
    → (j.status ≡ JournalStatus.draft)
      × (map columns_of_item
            (select (is_item_of c k) (with_uow (refresh_snapshot c k) u).1.journal_items)
          ≡ map columns_of_door
              (filter (λ d. is_installed d.status) (select (in_project c j.project_id) u.doors)))
unfolding flushed
refresh_snapshot-columns c k j u clean found h =
    let (done, state) = with_uow_ok (refresh_snapshot c k) u tt h in
    let (draft, items) = refresh_snapshot-writes c k j u found done in
    let doors = select (in_project c j.project_id) u.doors in
    let rows = items_of u.next_id c k (installed_of doors) in
    let held =
      select-add_items c k rows (delete_where (is_item_of c k) u.journal_items)
        (items_of-is_item_of u.next_id c k _)
      ∙ ap (λ xs. xs ++ rows) (select-delete_where (is_item_of c k) u.journal_items clean) in
    (
      ground (arith, draft),
      rw (state, items) (ap (map columns_of_item) held ∙ items_of-columns u.next_id c k doors),
    )
