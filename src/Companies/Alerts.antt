-- ===== src/Companies/Alerts.antt =====
-- The alerts when a company nears the limits of its plan:
-- app/modules/companies/application/alerts_service.py over `limits_kpi` of `CompanyPlanRepository` and
-- `exists_recent_action` of the audit log. Percentages are hundredths, rounded half to even as `round`
-- does; the quotient before it is taken to be exact. The webhook is left out.
use dimax_ops_backend.Base.{
  ℕ, zero, suc, ◌+◌, ◌*◌, ◌/◌, ◌%◌, Bool, ◌&&◌, Option, none, some, List, [], ◌∷◌, ◌++◌, String,
  if◌then◌else◌, leb, ltb, ◌==◌, any, take, map, concat, same_text,
}
use dimax_ops_backend.Store.{find, count, select}
use dimax_ops_backend.Domain.{CompanyPlan, Door, plan_alert_snapshot, other_error}
use dimax_ops_backend.Uow.{Uow, Action, pure, raise, query, ◌>>=◌, ◌>>◌, branch, modify}
use dimax_ops_backend.Doors.{in_project}
use dimax_ops_backend.Companies.{of_company, usage_summary}

-- `PLAN_ALERT_*` of the settings.
pub record AlertSettings : Type 0 where
  pub warn_pct : ℕ
  pub danger_pct : ℕ
  pub cooldown_minutes : ℕ

pub record Metric : Type 0 where
  pub current : ℕ
  pub limit : Option ℕ
  pub utilization_pct : Option ℕ

-- A metric of `limits_kpi` under its key, with `metric_key.upper()`.
pub record NamedMetric : Type 0 where
  pub key : String
  pub upper : String
  pub metric : Metric

abbrev pub max_of : List ℕ → ℕ
max_of [] = 0
max_of (n ∷ ns) = if ltb (max_of ns) n then n else max_of ns

-- The largest number of doors that a project of the company has.
unfoldable pub max_doors_in_project : (company_id : ℕ) → Uow → ℕ
max_doors_in_project company_id u = max_of (
    map (λ (d : Door). count (in_project company_id d.project_id) u.doors)
      (select (λ d. d.company_id == company_id) u.doors))

-- `round(a / b)` of numbers, half to even.
unfoldable pub round_half_even : (a b : ℕ) → ℕ
round_half_even a b =
    if ltb (2 * (a % b)) b
    then a / b
    else if ltb b (2 * (a % b))
    then suc (a / b)
    else if a / b % 2 == 0
    then a / b
    else suc (a / b)

-- `_metric`
unfoldable pub metric : (current : ℕ) → (limit : Option ℕ) → Action Metric
unfolding round_half_even
metric current none = pure (record { current = current; limit = none; utilization_pct = none })
metric current (some zero) = raise (other_error "division by zero")
metric current (some (suc n)) = pure (record {
  current = current;
  limit = some (suc n);
  utilization_pct = some (round_half_even (current * 10000) (suc n));
})

abbrev limit_of : (CompanyPlan → Option ℕ) → Option CompanyPlan → Option ℕ
limit_of field none = none
limit_of field (some p) = field p

abbrev named : (key upper : String) → Metric → NamedMetric
named key upper m = record { key = key; upper = upper; metric = m }

-- `limits_kpi`
unfoldable pub limits_kpi : (company_id : ℕ) → Action (Option CompanyPlan × List NamedMetric)
unfolding usage_summary max_doors_in_project metric
limits_kpi company_id = do
  plan ← query (λ u. find (of_company company_id) u.company_plans)
  usage ← query (usage_summary company_id)
  doors ← query (max_doors_in_project company_id)
  users ← metric usage.active_users (limit_of (λ p. p.max_users) plan)
  admins ← metric usage.active_admin_users (limit_of (λ p. p.max_admin_users) plan)
  installer_users ← metric usage.active_installer_users (limit_of (λ p. p.max_installer_users) plan)
  installers ← metric usage.active_installers (limit_of (λ p. p.max_installers) plan)
  projects ← metric usage.active_projects (limit_of (λ p. p.max_projects) plan)
  per_project ← metric doors (limit_of (λ p. p.max_doors_per_project) plan)
  pure (
    plan,
    named "users" "USERS" users
        ∷ named "admin_users" "ADMIN_USERS" admins
        ∷ named "installer_users" "INSTALLER_USERS" installer_users
        ∷ named "installers" "INSTALLERS" installers
        ∷ named "projects" "PROJECTS" projects
        ∷ named "doors_per_project" "DOORS_PER_PROJECT" per_project
        ∷ [],
  )

-- `_level_from_utilization`
unfoldable pub level_from_utilization : AlertSettings → (utilization_pct : ℕ) → Option String
level_from_utilization settings pct =
    if leb (settings.danger_pct * 100) pct
    then some "DANGER"
    else if leb (settings.warn_pct * 100) pct
    then some "WARN"
    else none

-- `exists_recent_action`, among the entries that the database has.
unfoldable pub exists_recent_action :
    (now cooldown_minutes company_id : ℕ) (action : String) → Uow → Bool
exists_recent_action now cooldown_minutes company_id action u =
    any
      (λ a.
        a.company_id == company_id
        && same_text a.action action
        && leb now (a.created_at + cooldown_minutes * 60))
      (take u.audit_flushed u.audit)

abbrev metric_named : String → List NamedMetric → Option NamedMetric
metric_named key [] = none
metric_named key (m ∷ ms) = if same_text m.key key then some m else metric_named key ms

abbrev add_alert :
    (now company_id actor_user_id : ℕ) (action : String) (m : NamedMetric) (level : String)
    (limit pct : ℕ) (plan_code : String)
    → Uow
    → Uow
add_alert now company_id actor_user_id action m level limit pct plan_code u = record u {
  audit =
      u.audit
      ++ record {
        company_id = company_id;
        actor_user_id = actor_user_id;
        entity_type = "company_plan";
        entity_id = company_id;
        action = action;
        reason = none;
        before = none;
        after = some (plan_alert_snapshot m.key level m.metric.current limit pct plan_code);
        created_at = now;
      }
        ∷ [];
}

-- The body of the loop for a metric of a plan.
unfoldable pub alert_on :
    AlertSettings
    → (now company_id actor_user_id : ℕ) → CompanyPlan
    → NamedMetric
    → Action (Unit {0})
unfolding level_from_utilization exists_recent_action concat
alert_on settings now company_id actor_user_id plan m = elim m.metric.limit [
  | none ↦ pure tt
  | some limit ↦ elim m.metric.utilization_pct [
    | none ↦ pure tt
    | some pct ↦ elim (level_from_utilization settings pct) [
      | none ↦ pure tt
      | some level ↦ do
        let action = concat "PLAN_LIMIT_ALERT_" (concat level (concat "_" m.upper))
        recent ← query (exists_recent_action now settings.cooldown_minutes company_id action)
        branch recent (pure tt) (
            modify (add_alert now company_id actor_user_id action m level limit pct plan.plan_code))
    ]
  ]
]

unfoldable pub alert_each :
    AlertSettings
    → (now company_id actor_user_id : ℕ) → CompanyPlan
    → List NamedMetric
    → (metric_keys : List String) → Action (Unit {0})
unfolding alert_on
alert_each settings now company_id actor_user_id plan metrics [] = pure tt
alert_each settings now company_id actor_user_id plan metrics (key ∷ keys) =
    elim (metric_named key metrics) [
      | none ↦ pure tt
      | some m ↦ alert_on settings now company_id actor_user_id plan m
    ]
    >> alert_each settings now company_id actor_user_id plan metrics keys

abbrev metric_keys_or_default : List String → List String
metric_keys_or_default [] = "users" ∷ "installers" ∷ "projects" ∷ "doors_per_project" ∷ []
metric_keys_or_default (key ∷ keys) = key ∷ keys

-- `evaluate_and_alert`; without a plan no metric is enforced, and no keys stand for `_METRIC_KEYS`.
unfoldable pub evaluate_and_alert :
    AlertSettings
    → (now company_id actor_user_id : ℕ) → (metric_keys : List String) → Action (Unit {0})
unfolding limits_kpi alert_each
evaluate_and_alert settings now company_id actor_user_id metric_keys = do
  kpi ← limits_kpi company_id
  elim kpi.0 [
    | none ↦ pure tt
    | some plan ↦
        alert_each settings now company_id actor_user_id plan kpi.1
          (metric_keys_or_default metric_keys)
  ]
