-- ===== src/Addons/Tests.antt =====
-- The theorems on add-ons at concrete inputs.
use dimax_ops_backend.Store.{add, exists, objects, select, violates}
use dimax_ops_backend.Addons.{create_fact, ensure_project, is_known_event, upsert}
use dimax_ops_backend.Uow.{flush_session, violates_unique}
use dimax_ops_backend.Base.{◌≡◌, refl, none, some, pos}
use dimax_ops_backend.Store.{find}
use dimax_ops_backend.Domain.{AddonFact, AddonFactSource, PlanItem}
use dimax_ops_backend.Uow.{ok, with_uow}
use dimax_ops_backend.Addons.{FactRequest, installer_add_fact, admin_set_project_plan}
use dimax_ops_backend.Addons.Facts.{Reported, installer_add_fact-Reported, installer_add_fact_again}
use dimax_ops_backend.Sample.{uow}

abbrev request : FactRequest
request = record {
  company_id = 1;
  project_id = 10;
  installer_id = 7;
  addon_type_id = 40;
  qty_done = pos 2;
  comment = none;
  done_at = none;
  source = AddonFactSource.offline;
  client_event_id = some "e2";
}

abbrev fact : AddonFact
fact = record {
  id = 1000;
  company_id = 1;
  project_id = 10;
  addon_type_id = 40;
  installer_id = 7;
  qty_done = pos 2;
  done_at = 60;
  comment = none;
  source = AddonFactSource.offline;
  client_event_id = some "e2";
}

reported : (installer_add_fact 60 request uow).0 ≡ ok (some fact)
unfolding installer_add_fact select find is_known_event exists create_fact flush_session
    violates_unique violates objects add
reported = refl

installer_add_fact-Reported_example :
    Reported 60 request fact uow (installer_add_fact 60 request uow).1
installer_add_fact-Reported_example = installer_add_fact-Reported 60 request uow fact reported

installer_add_fact_again_example :
    let v = (installer_add_fact 60 request uow).1 in installer_add_fact 90 request v ≡ (ok none, v)
installer_add_fact_again_example =
    installer_add_fact_again 60 90 request uow "e2" fact (refl, (refl, tt)) (refl, tt) refl refl
      reported

abbrev item : PlanItem
item = record { addon_type_id = 40; qty_planned = 12; client_price = 5000; installer_price = 2000 }

plan_commits : (with_uow (admin_set_project_plan 1 10 item) uow).0 ≡ ok tt
unfolding with_uow admin_set_project_plan ensure_project find upsert flush_session violates_unique
    violates objects add
plan_commits = refl
