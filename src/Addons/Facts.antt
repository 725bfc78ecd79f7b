-- ===== src/Addons/Facts.antt =====
-- What an installer's report of add-on work does, and that reporting it again does nothing.
use dimax_ops_backend.Base.{
  eq_iff, ℕ, suc, ◌≡◌, Bool, true, false, none, some, [], ◌∷◌, ◌++◌, String, arith, is_nonpositive,
  is_empty, is_given, inl, inr, Option-cases,
}
use dimax_ops_backend.Store.{select, find, exists, add, flush, objects}
use dimax_ops_backend.Store.Laws.{
  IsClean, flush_clean, exists-flush, objects-add, objects-flush, any-append,
}
use dimax_ops_backend.Domain.{AddonFact, AddonType}
use dimax_ops_backend.Uow.{Uow, ok, flush_session-cases, flushed}
use dimax_ops_backend.ChangeLog.{add_change}
use dimax_ops_backend.Doors.{of_installer}
use dimax_ops_backend.Addons.{
  FactRequest, has_type_key, has_client_event, fact_of, fact_change, is_known_event, create_fact,
  installer_add_fact,
}

-- What was checked of a report, and what it wrote.
pub record Reported (now : ℕ) (r : FactRequest) (f : AddonFact) (u v : Uow) : Type 0 where
  pub positive : is_nonpositive r.qty_done ≡ false
  pub assigned :
      is_empty (select (of_installer r.company_id r.project_id r.installer_id) u.doors) ≡ false
  pub addon_type : AddonType
  pub known : find (has_type_key r.company_id r.addon_type_id) u.addon_types ≡ some addon_type
  pub active : addon_type.is_active ≡ true
  pub not_deleted : addon_type.deleted_at ≡ none
  pub fact : f ≡ fact_of now u.next_id r
  pub facts : objects v.addon_facts ≡ objects u.addon_facts ++ f ∷ []
  pub changes : v.pending_changes ≡ fact_change now f ∷ []
  pub doors : objects v.doors ≡ objects u.doors
  pub issues : objects v.issues ≡ objects u.issues
  pub projects : objects v.projects ≡ objects u.projects
  pub addon_types : objects v.addon_types ≡ objects u.addon_types
  pub addon_plans : objects v.addon_plans ≡ objects u.addon_plans
  pub outbox : objects v.outbox ≡ objects u.outbox
  pub journals : objects v.journals ≡ objects u.journals
  pub healthy : v.broken ≡ false

create_fact-writes :
    (now : ℕ) (r : FactRequest) (u : Uow) (f : AddonFact)
    → (create_fact now r u).0 ≡ ok (some f)
    → let v = (create_fact now r u).1 in
      (f ≡ fact_of now u.next_id r)
      × (objects v.addon_facts ≡ objects u.addon_facts ++ f ∷ [])
      × (v.pending_changes ≡ fact_change now f ∷ [])
      × (v.broken ≡ false)
unfolding create_fact flushed add_change
create_fact-writes now r u f h =
    let row : AddonFact = fact_of now u.next_id r in
    let w : Uow = record u { next_id = suc u.next_id; addon_facts = add row u.addon_facts } in
    elim (flush_session-cases w) [
      | inl flushed_ok ↦
          ground (arith, objects-add row u.addon_facts, objects-flush (add row u.addon_facts))
      | inr (e, failed) ↦ absurd (ground arith)
    ]

create_fact-others :
    (now : ℕ) (r : FactRequest) (u : Uow) (f : AddonFact)
    → (create_fact now r u).0 ≡ ok (some f)
    → let v = (create_fact now r u).1 in
      (objects v.doors ≡ objects u.doors)
      × (objects v.issues ≡ objects u.issues)
      × (objects v.projects ≡ objects u.projects)
      × (objects v.addon_types ≡ objects u.addon_types)
      × (objects v.addon_plans ≡ objects u.addon_plans)
      × (objects v.outbox ≡ objects u.outbox)
      × (objects v.journals ≡ objects u.journals)
unfolding create_fact flushed add_change
create_fact-others now r u f h =
    let row : AddonFact = fact_of now u.next_id r in
    let w : Uow = record u { next_id = suc u.next_id; addon_facts = add row u.addon_facts } in
    elim (flush_session-cases w) [
      | inl done ↦ (
        ground (arith, objects-flush u.doors),
        ground (arith, objects-flush u.issues),
        ground (arith, objects-flush u.projects),
        ground (arith, objects-flush u.addon_types),
        ground (arith, objects-flush u.addon_plans),
        ground (arith, objects-flush u.outbox),
        ground (arith, objects-flush u.journals),
      )
      | inr (e, failed) ↦ absurd (ground arith)
    ]

-- An accepted report was of a positive quantity of an add-on type that is active and not deleted,
-- by an installer with a door in the project; it has added its fact and one change, and no other
-- door, issue, project, add-on type, plan, message or journal has changed.
pub installer_add_fact-Reported :
    (now : ℕ) (r : FactRequest) (u : Uow) (f : AddonFact)
    → (installer_add_fact now r u).0 ≡ ok (some f)
    → Reported now r f u (installer_add_fact now r u).1
unfolding installer_add_fact is_known_event
installer_add_fact-Reported now r u f h =
    elim (Option-cases (find (has_type_key r.company_id r.addon_type_id) u.addon_types)) [
      | inl missing ↦ absurd (ground arith)
      | inr (type, known) ↦
          let made : (create_fact now r u).0 ≡ ok (some f) = ground arith in
          let state : (installer_add_fact now r u).1 ≡ (create_fact now r u).1 = ground arith in
          let (fact, facts, changes, healthy) = create_fact-writes now r u f made in
          let others = create_fact-others now r u f made in
          rw state (record {
            positive = ground arith;
            assigned = ground arith;
            addon_type = type;
            known = known;
            active = ground arith;
            not_deleted = ground arith;
            fact = fact;
            facts = facts;
            changes = changes;
            doors = others.0;
            issues = others.1;
            projects = others.2;
            addon_types = others.3;
            addon_plans = others.4;
            outbox = others.5;
            journals = others.6;
            healthy = healthy;
          })
    ]

-- The second report of an event: the database has the fact by now.
known_after :
    (now : ℕ) (r : FactRequest) (u : Uow) (s : String) (f : AddonFact)
    → r.client_event_id ≡ some s
    → (create_fact now r u).0 ≡ ok (some f)
    → exists
        (λ g. elim r.client_event_id [ none ↦ false | some t ↦ has_client_event r.company_id t g ])
        (create_fact now r u).1.addon_facts
      ≡ true
unfolding create_fact flushed add_change
known_after now r u s f e h =
    let row : AddonFact = fact_of now u.next_id r in
    let w : Uow = record u { next_id = suc u.next_id; addon_facts = add row u.addon_facts } in
    let p : AddonFact → Bool =
      λ g. elim r.client_event_id [ none ↦ false | some t ↦ has_client_event r.company_id t g ] in
    elim (flush_session-cases w) [
      | inl flushed_ok ↦ ground (
        arith,
        exists-flush p (add row u.addon_facts),
        objects-add row u.addon_facts,
        any-append p (objects u.addon_facts) (row ∷ []),
        eq_iff s s,
      )
      | inr (x, failed) ↦ absurd (ground arith)
    ]

create_fact-keeps :
    (now : ℕ) (r : FactRequest) (u : Uow) (f : AddonFact)
    → (create_fact now r u).0 ≡ ok (some f)
    → let v = (create_fact now r u).1 in
      (v.doors ≡ flush u.doors) × (v.addon_types ≡ flush u.addon_types)
unfolding create_fact flushed add_change
create_fact-keeps now r u f h =
    let row : AddonFact = fact_of now u.next_id r in
    let w : Uow = record u { next_id = suc u.next_id; addon_facts = add row u.addon_facts } in
    elim (flush_session-cases w) [
      | inl flushed_ok ↦ ground arith
      | inr (x, failed) ↦ absurd (ground arith)
    ]

-- A report of add-on work with the device's event id that was accepted writes nothing when it
-- comes again, in a session whose doors and add-on types were as the database has them.
pub installer_add_fact_again :
    (now later : ℕ) (r : FactRequest) (u : Uow) (s : String) (f : AddonFact)
    → IsClean u.doors
    → IsClean u.addon_types
    → r.client_event_id ≡ some s
    → is_given r.client_event_id ≡ true
    → (installer_add_fact now r u).0 ≡ ok (some f)
    → let v = (installer_add_fact now r u).1 in installer_add_fact later r v ≡ (ok none, v)
unfolding installer_add_fact is_known_event
installer_add_fact_again now later r u s f doors types e given h = ground (
  arith,
  create_fact-writes now r u f,
  create_fact-keeps now r u f,
  known_after now r u s f,
  flush_clean u.doors doors,
  flush_clean u.addon_types types,
)
