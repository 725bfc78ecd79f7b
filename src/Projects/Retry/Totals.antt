-- ===== src/Projects/Retry/Totals.antt =====
-- What a bulk retry counts.
use mathlib.Core.Path.{subst⁻¹}
use dimax_ops_backend.Base.{
  ◌⊎◌, inl, inr, Bool-cases, true, ℕ, suc, ◌+◌, ◌≡◌, refl, ap, Bool, false, ◌&&◌, not, Option, none,
  some, List, [], ◌∷◌, arith, length, unique_from, elem, ◌==◌, if◌then◌else◌,
}
use dimax_ops_backend.Store.{select}
use dimax_ops_backend.Domain.{ImportRun, ImportResult, pending_rollback}
use dimax_ops_backend.Uow.{Uow, Result, ok, err, Action, pure, query, attributes, ◌>>=◌, branch}
use dimax_ops_backend.Uow.Triples.{bind_step}
use dimax_ops_backend.Projects.Retry.{is_import_mode, is_failed_status}
use dimax_ops_backend.Projects.Retry.Runs.{
  Caller, Outcome, BulkItem, BulkResponse, add_item, each_item, retry_one, retry_row, catch_retry,
  run_by_id, run_retry_import, retry_failed_runs_bulk, skipped_item, retried_item, status_of_run,
  no_items,
}

-- The items are those of `count` ids, and each is counted once.
pub record IsCounted (total count : ℕ) (r : BulkResponse) : Type 0 where
  pub announced : r.total ≡ total
  pub items : length r.items ≡ count
  pub sum : r.successful + r.failed + r.skipped ≡ count

add_item-IsCounted :
    (total count : ℕ) (x : Outcome × BulkItem) (r : BulkResponse)
    → IsCounted total count r
    → IsCounted total (suc count) (add_item x.0 x.1 r)
unfolding add_item
add_item-IsCounted total count (Outcome.successful, item) r c = record {
  announced = c.announced;
  items = ap suc c.items;
  sum = omega (arith, c.sum);
}
add_item-IsCounted total count (Outcome.failed, item) r c = record {
  announced = c.announced;
  items = ap suc c.items;
  sum = omega (arith, c.sum);
}
add_item-IsCounted total count (Outcome.skipped, item) r c = record {
  announced = c.announced;
  items = ap suc c.items;
  sum = omega (arith, c.sum);
}

-- What the bulk may come to: an answer in which every id is counted once, or the error of a session
-- in which a flush has failed.
abbrev pub CountedOrBroken : (total count : ℕ) → Result BulkResponse × Uow → Type 0
CountedOrBroken total count p =
    ((r : BulkResponse) × (p.0 ≡ ok r) × IsCounted total count r)
    ⊎ ((p.0 ≡ err pending_rollback) × (p.1.broken ≡ true))

-- A body that returns, or raises because a flush has failed.
abbrev pub ReturnsOrBroken : {A : Type 0} → Result A × Uow → Type 0
ReturnsOrBroken {A = A} p =
    ((a : A) × (p ≡ (ok a, p.1))) ⊎ ((p.0 ≡ err pending_rollback) × (p.1.broken ≡ true))

counted_step :
    (total count : ℕ) (x : Outcome × BulkItem) (m : Action BulkResponse) (v : Uow)
    → CountedOrBroken total count (m v)
    → CountedOrBroken total (suc count) ((m >>= λ rest. pure (add_item x.0 x.1 rest)) v)
counted_step total count x m v (inl (r, done, counted)) =
    inl (add_item x.0 x.1 r, ground arith, add_item-IsCounted total count x r counted)
counted_step total count x m v (inr (raised, down)) = inr (ground arith, ground arith)

-- A loop with such a body counts every id once, or ends with that error.
each_item-IsCounted :
    (body : ℕ → Action (Outcome × BulkItem)) (total : ℕ)
    → ((id : ℕ) (u : Uow) → ReturnsOrBroken (body id u))
    → (ids : List ℕ) (u : Uow) → CountedOrBroken total (length ids) (each_item body total ids u)
unfolding each_item
each_item-IsCounted body total returns [] u =
    inl (no_items total, refl, record { announced = refl; items = refl; sum = refl })
each_item-IsCounted body total returns (id ∷ ids) u = elim (returns id u) [
  | inl (x, at) ↦
      let v = (body id u).1 in
      subst⁻¹ (CountedOrBroken total (suc (length ids)))
        (bind_step (body id)
          (λ item. each_item body total ids >>= λ r. pure (add_item item.0 item.1 r)) u v x at)
        (counted_step total (length ids) x (each_item body total ids) v
          (each_item-IsCounted body total returns ids v))
  | inr (raised, down) ↦ inr (ground arith, ground arith)
]

catch_retry-Returns :
    (run : ImportRun) (project_id : ℕ) (m : Action ImportResult) (u : Uow)
    → ReturnsOrBroken (catch_retry run project_id m u)
catch_retry-Returns run project_id m u = elim (Bool-cases (m u).1.broken) [
  | inl down ↦ inr (ground arith, ground arith)
  | inr up ↦ inl (retried_item run.id project_id (m u).0, ground arith)
]

branch-ReturnsOrBroken :
    {A : Type 0} (c : Bool) (m k : Action A) (u : Uow)
    → ReturnsOrBroken (m u)
    → ReturnsOrBroken (k u)
    → ReturnsOrBroken (branch c m k u)
branch-ReturnsOrBroken true m k u f g = f
branch-ReturnsOrBroken false m k u f g = g

retry_row-Returns :
    (caller : Caller) (run : ImportRun) (u : Uow) → ReturnsOrBroken (retry_row caller run u)
unfolding retry_row
retry_row-Returns caller run u =
    let unsupported = skipped_item run "SKIPPED_UNSUPPORTED_MODE" in
    let not_failed = skipped_item run "SKIPPED_NOT_FAILED" in
    let retry = run_retry_import caller run.project_id run in
    let caught = catch_retry run run.project_id retry in
    branch-ReturnsOrBroken (not (is_import_mode run.import_mode)) (pure unsupported)
      (branch (not (is_failed_status (status_of_run run))) (pure not_failed) caught) u
      (inl (unsupported, refl))
      (branch-ReturnsOrBroken (not (is_failed_status (status_of_run run))) (pure not_failed) caught
        u (inl (not_failed, refl)) (catch_retry-Returns run run.project_id retry u))

-- A query of a healthy session answers.
query_up : {A : Type 0} (f : Uow → A) (u : Uow) → u.broken ≡ false → query f u ≡ (ok (f u), u)
query_up f u up =
    ap {B = Result _ × Uow} (λ b. (if b then err pending_rollback else ok (f u), u)) up

retry_one-Returns :
    (caller : Caller) (run_id : ℕ) (o : Option ImportRun) (u : Uow)
    → ReturnsOrBroken (retry_one caller run_id o u)
unfolding retry_one
retry_one-Returns caller run_id none u = inl (_, refl)
retry_one-Returns caller run_id (some run) u = elim (Bool-cases u.broken) [
  | inl down ↦ inr (ground arith, ground arith)
  | inr up ↦
      subst⁻¹ ReturnsOrBroken
        (bind_step (attributes run) (retry_row caller) u u run (query_up (λ _. run) u up))
        (retry_row-Returns caller run u)
]

-- A bulk retry that starts in a healthy session either answers with one item for each distinct
-- id, and the items that it counts as successful, failed and skipped are all of them, or a flush
-- has broken the session and the bulk raises PendingRollbackError.
pub retry_failed_runs_bulk-IsCounted :
    (caller : Caller) (run_ids : List ℕ) (u : Uow)
    → u.broken ≡ false
    → CountedOrBroken
        (length (unique_from [] run_ids))
        (length (unique_from [] run_ids))
        (retry_failed_runs_bulk caller run_ids u)
unfolding retry_failed_runs_bulk
retry_failed_runs_bulk-IsCounted caller run_ids u up =
    let ids = unique_from [] run_ids in
    let wanted = λ (r : ImportRun). r.company_id == caller.company_id && elem r.id ids in
    let runs = select wanted u.project_import_runs in
    let loop = λ (rs : List ImportRun).
      each_item (λ id. retry_one caller id (run_by_id id rs)) (length ids) ids in
    subst⁻¹ (CountedOrBroken (length ids) (length ids))
      (bind_step (query (λ v. select wanted v.project_import_runs)) loop u u runs
        (query_up (λ v. select wanted v.project_import_runs) u up))
      (each_item-IsCounted (λ id. retry_one caller id (run_by_id id runs)) (length ids)
        (λ id v. retry_one-Returns caller id (run_by_id id runs) v) ids u)
