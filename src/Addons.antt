-- ===== src/Addons.antt =====
-- Add-ons of a project: app/modules/addons/application/use_cases.py and
-- infrastructure/repositories.py.
pub mod Plans
pub mod Facts
mod Tests
use dimax_ops_backend.Base.{
  ℕ, ◌≡◌, Bool, true, false, ◌&&◌, ◌||◌, not, Option, none, some, List, [], ◌∷◌, ◌++◌, String, ℤ,
  is_nonpositive, ◌==◌, if◌then◌else◌, is_value, is_some, get_or, is_empty, is_given, is_blank_text,
  strip, same_text, map,
}
use dimax_ops_backend.Store.{find, select, exists, add, assign, delete_where}
use dimax_ops_backend.Domain.{
  Project, ChangePayload, AddonType, AddonPlan, AddonFact, AddonFactSource, SyncChangeType, Change,
  PlanItem, addon_fact_state, plan_upsert, plan_delete, not_found, forbidden, validation_error,
}
use dimax_ops_backend.Uow.{
  Uow, Action, pure, raise, or_raise, query, ◌>>=◌, ◌>>◌, raise_if, branch, modify, new_id,
  flush_session,
}
use dimax_ops_backend.ChangeLog.{add_change}
use dimax_ops_backend.Doors.{has_project_key, of_installer}

abbrev pub has_type_key : (company_id addon_type_id : ℕ) → AddonType → Bool
has_type_key company_id addon_type_id t =
    t.company_id == company_id && t.id == addon_type_id && not (is_some t.deleted_at)

abbrev pub has_plan_key : (company_id project_id addon_type_id : ℕ) → AddonPlan → Bool
has_plan_key company_id project_id addon_type_id p =
    p.company_id == company_id && p.project_id == project_id && p.addon_type_id == addon_type_id

abbrev pub has_client_event : (company_id : ℕ) → (client_event_id : String) → AddonFact → Bool
has_client_event company_id client_event_id f =
    f.company_id == company_id
    && elim f.client_event_id [ none ↦ false | some s ↦ same_text s client_event_id ]

unfoldable pub admin_create_addon_type :
    (company_id : ℕ) (name unit : String) (default_client_price default_installer_price : ℕ)
    → Action AddonType
admin_create_addon_type company_id name unit default_client_price default_installer_price = do
  id ← new_id
  let stripped : String = strip unit
  let row : AddonType = record {
    id = id;
    company_id = company_id;
    name = strip name;
    unit = if is_blank_text stripped then "pcs" else stripped;
    default_client_price = default_client_price;
    default_installer_price = default_installer_price;
    is_active = true;
    deleted_at = none;
  }
  modify (λ u. record u { addon_types = add row u.addon_types })
  pure row

-- `ProjectAddonPlanRepository.upsert`
unfoldable pub upsert : (company_id project_id : ℕ) → PlanItem → Action (Unit {0})
upsert company_id project_id item = do
  found ← query (λ u. find (has_plan_key company_id project_id item.addon_type_id) u.addon_plans)
  elim found [
    | none ↦ do
      id ← new_id
      modify (λ u. record u {
        addon_plans =
            add
              (record {
                id = id;
                company_id = company_id;
                project_id = project_id;
                addon_type_id = item.addon_type_id;
                qty_planned = item.qty_planned;
                client_price = item.client_price;
                installer_price = item.installer_price;
              })
              u.addon_plans;
      })
    | some p ↦ modify (λ u. record u {
      addon_plans =
          assign (λ x. x.id == p.id)
            (λ x. record x {
              qty_planned = item.qty_planned;
              client_price = item.client_price;
              installer_price = item.installer_price;
            })
            u.addon_plans;
    })
  ]

unfoldable pub ensure_project : (company_id project_id : ℕ) → Action (Unit {0})
ensure_project company_id project_id = do
  p ← query (λ u. find (has_project_key company_id project_id) u.projects)
  raise_if (not (is_some p)) (not_found "Project not found")

unfoldable pub admin_set_project_plan : (company_id project_id : ℕ) → PlanItem → Action (Unit {0})
admin_set_project_plan company_id project_id item = do
  ensure_project company_id project_id
  at ← query (λ u. find (has_type_key company_id item.addon_type_id) u.addon_types)
  raise_if (not (is_some at)) (not_found "Addon type not found")
  upsert company_id project_id item

-- The loop over the items of a batch.
unfoldable pub upsert_all : (company_id project_id : ℕ) → List PlanItem → Action (Unit {0})
upsert_all company_id project_id [] = pure tt
upsert_all company_id project_id (item ∷ items) =
    upsert company_id project_id item >> upsert_all company_id project_id items

abbrev pub plan_change : (now company_id project_id : ℕ) → ChangePayload → Change
plan_change now company_id project_id payload = record {
  company_id = company_id;
  created_at = now;
  change_type = SyncChangeType.project_addon_plan;
  entity_id = project_id;
  project_id = project_id;
  installer_id = none;
  payload = payload;
}

unfoldable pub admin_set_project_plan_batch :
    (now company_id project_id : ℕ) → List PlanItem → Action (Unit {0})
admin_set_project_plan_batch now company_id project_id items = do
  ensure_project company_id project_id
  upsert_all company_id project_id items
  modify (add_change (plan_change now company_id project_id (plan_upsert project_id items)))

unfoldable pub admin_delete_project_plan_item :
    (now company_id project_id addon_type_id : ℕ) → Action (Unit {0})
admin_delete_project_plan_item now company_id project_id addon_type_id = do
  ensure_project company_id project_id
  query (λ u. tt)
  modify (λ u. record u {
    addon_plans = delete_where (has_plan_key company_id project_id addon_type_id) u.addon_plans;
  })
  modify (add_change (plan_change now company_id project_id (plan_delete project_id addon_type_id)))

-- The arguments of `installer_add_fact`.
pub record FactRequest : Type 0 where
  pub company_id : ℕ
  pub project_id : ℕ
  pub installer_id : ℕ
  pub addon_type_id : ℕ
  pub qty_done : ℤ
  pub comment : Option String
  pub done_at : Option ℕ
  pub source : AddonFactSource
  pub client_event_id : Option String

unfoldable pub fact_of : (now id : ℕ) → FactRequest → AddonFact
fact_of now id r = record {
  id = id;
  company_id = r.company_id;
  project_id = r.project_id;
  addon_type_id = r.addon_type_id;
  installer_id = r.installer_id;
  qty_done = r.qty_done;
  done_at = get_or r.done_at now;
  comment = r.comment;
  source = r.source;
  client_event_id = r.client_event_id;
}

unfoldable pub fact_change : (now : ℕ) → AddonFact → Change
fact_change now f = record {
  company_id = f.company_id;
  created_at = now;
  change_type = SyncChangeType.addon_fact;
  entity_id = f.id;
  project_id = f.project_id;
  installer_id = some f.installer_id;
  payload = addon_fact_state f;
}

-- `client_event_id and uow.addon_facts.exists_client_event(...)`
unfoldable pub is_known_event : (company_id : ℕ) → Option String → Action Bool
is_known_event company_id client_event_id =
    branch (is_given client_event_id)
      (query (λ u.
        exists
          (λ f. elim client_event_id [ none ↦ false | some s ↦ has_client_event company_id s f ])
          u.addon_facts))
      (pure false)

-- The row is created and flushed, so that the change can name its id.
unfoldable pub create_fact : (now : ℕ) → FactRequest → Action (Option AddonFact)
unfolding fact_of fact_change
create_fact now r = do
  id ← new_id
  let row : AddonFact = fact_of now id r
  modify (λ u. record u { addon_facts = add row u.addon_facts })
  flush_session
  modify (add_change (fact_change now row))
  pure (some row)

unfoldable pub installer_add_fact : (now : ℕ) → FactRequest → Action (Option AddonFact)
installer_add_fact now r = do
  raise_if (is_nonpositive r.qty_done) (validation_error "qty_done must be > 0")
  my_doors ← query (λ u. select (of_installer r.company_id r.project_id r.installer_id) u.doors)
  raise_if (is_empty my_doors) (forbidden "Project is not assigned to this installer")
  found ← query (λ u. find (has_type_key r.company_id r.addon_type_id) u.addon_types)
  at ← or_raise found (not_found "Addon type not found or inactive")
  raise_if (is_some at.deleted_at || not at.is_active)
      (not_found "Addon type not found or inactive")
  known ← is_known_event r.company_id r.client_event_id
  branch known (pure none) (create_fact now r)
