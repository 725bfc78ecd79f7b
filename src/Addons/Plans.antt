-- ===== src/Addons/Plans.antt =====
-- What the plan of a project holds after it was set.
use dimax_ops_backend.Base.{
  ℕ, ◌≡◌, refl, Bool, true, false, none, some, [], ◌∷◌, arith, ◌==◌, ==_refl, Option-cases, inl,
  inr,
}
use dimax_ops_backend.Store.{Table, find, add, assign, flush, delete_where}
use dimax_ops_backend.Store.Laws.{IsClean}
use dimax_ops_backend.Domain.{AddonPlan, PlanItem}
use dimax_ops_backend.Uow.{Uow, ok, with_uow, with_uow_ok, flushed}
use dimax_ops_backend.Addons.{has_plan_key, upsert, ensure_project, admin_set_project_plan}

module _ {A : Type 0} (p : A → Bool) where
  find_added :
      (a : A) (t : Table A)
      → IsClean t
      → find p t ≡ none
      → p a ≡ true
      → find p (flush (add a t)) ≡ some a
  unfolding find flush add
  find_added a [] c n h = ground arith
  find_added a (e ∷ t) c n h = ground (arith, find_added a t c.1)

  find_assigned :
      (key : A → Bool) (f : A → A) (a : A) (t : Table A)
      → IsClean t
      → find p t ≡ some a
      → key a ≡ true
      → ((x : A) → p (f x) ≡ p x)
      → find p (flush (assign key f t)) ≡ some (f a)
  unfolding find flush assign
  find_assigned key f a [] c n k same = absurd (ground arith)
  find_assigned key f a (e ∷ t) c n k same =
      ground (arith, find_assigned key f a t c.1, same e.live, c.0)

  find_deleted : (t : Table A) → IsClean t → find p (flush (delete_where p t)) ≡ none
  unfolding find flush delete_where
  find_deleted [] c = refl
  find_deleted (e ∷ t) c = ground (arith, find_deleted t c.1, c.0)

-- The row carries the numbers of the item.
abbrev pub Carries : PlanItem → AddonPlan → Type 0
Carries item p =
    (p.qty_planned ≡ item.qty_planned)
    × (p.client_price ≡ item.client_price)
    × (p.installer_price ≡ item.installer_price)

-- The row of the plan after `upsert`.
abbrev pub planned : (id company_id project_id : ℕ) → PlanItem → AddonPlan
planned id company_id project_id item = record {
  id = id;
  company_id = company_id;
  project_id = project_id;
  addon_type_id = item.addon_type_id;
  qty_planned = item.qty_planned;
  client_price = item.client_price;
  installer_price = item.installer_price;
}

upsert-find :
    (c k : ℕ) (item : PlanItem) (u : Uow)
    → IsClean u.addon_plans
    → u.broken ≡ false
    → (p : AddonPlan) × (find
          (has_plan_key c k item.addon_type_id)
          (flush (upsert c k item u).1.addon_plans)
        ≡ some p)
      × Carries item p
unfolding upsert
upsert-find c k item u clean b =
    let key = has_plan_key c k item.addon_type_id in
    elim (Option-cases (find key u.addon_plans)) [
      | inl new ↦ (
        planned u.next_id c k item,
        ground (arith, find_added key (planned u.next_id c k item) u.addon_plans clean new),
        (refl, refl, refl),
      )
      | inr (p, old) ↦
          let f : AddonPlan → AddonPlan = λ x. record x {
            qty_planned = item.qty_planned;
            client_price = item.client_price;
            installer_price = item.installer_price;
          } in
          (
            f p,
            ground (
              arith,
              find_assigned key (λ x. x.id == p.id) f p u.addon_plans clean old (==_refl p.id)
                  (λ x. refl),
            ),
            (refl, refl, refl),
          )
    ]

-- After an item of a plan was set and committed, in a healthy session whose plans were as the
-- database has them, the plan holds a row with the numbers sent.
admin_set_project_plan-find :
    (c k : ℕ) (item : PlanItem) (u : Uow)
    → IsClean u.addon_plans
    → u.broken ≡ false
    → (with_uow (admin_set_project_plan c k item) u).0 ≡ ok tt
    → (p : AddonPlan) × (find
          (has_plan_key c k item.addon_type_id)
          (with_uow (admin_set_project_plan c k item) u).1.addon_plans
        ≡ some p)
      × Carries item p
unfolding admin_set_project_plan ensure_project flushed
admin_set_project_plan-find c k item u clean b h =
    let (done, state) = with_uow_ok (admin_set_project_plan c k item) u tt h in
    let (p, found, same) = upsert-find c k item u clean b in (p, ground arith, same)
