-- ===== src/Projects/Import/Cached.antt =====
-- A file that was imported once is answered from the run that was saved.
use dimax_ops_backend.Base.{
  ℕ, suc, ◌≡◌, ◌∙◌, ap, Bool, true, false, none, some, List, [], ◌∷◌, arith, ==_refl, eq_iff, inl,
  inr,
}
use dimax_ops_backend.Store.{Table, find, add, flush}
use dimax_ops_backend.Store.Laws.{IsClean}
use dimax_ops_backend.Domain.{Project, PreparedRow, ImportResult}
use dimax_ops_backend.Uow.{Uow, Result, ok, query, ◌>>=◌, flush_session-cases, flushed}
use dimax_ops_backend.Uow.Triples.{bind_step}
use dimax_ops_backend.Doors.{has_project_key}
use dimax_ops_backend.Projects.{get_project}
use dimax_ops_backend.Projects.Again.{get_project_found}
use dimax_ops_backend.Projects.Import.Preview.{setting_of-state}
use dimax_ops_backend.Projects.Import.Service.{
  Library, Request, Setting, setting_of, has_fingerprint, cached, import_mode, new_run,
  save_import_run, hit_or, look_up, import_project_doors_from_file,
}

-- A new row that the query asks for is found after a flush, when no other row is.
find-flush-add :
    {A : Type 0} (p : A → Bool) (a : A) (t : Table A)
    → IsClean t
    → find p t ≡ none
    → p a ≡ true
    → find p (flush (add a t)) ≡ some a
unfolding find flush add
find-flush-add p a [] c h k = ground arith
find-flush-add p a (e ∷ t) c h k = ground (arith, find-flush-add p a t c.1)

new_run-has_fingerprint :
    (id now : ℕ) (lib : Library) (request : Request) (setting : Setting) (rows : List PreparedRow)
    (result : ImportResult)
    → has_fingerprint request.company_id request.project_id setting.fingerprint
        (import_mode request.analyze_only)
        (new_run id now lib request setting rows result)
      ≡ true
unfolding new_run
new_run-has_fingerprint id now lib request setting rows result = ground (
  arith,
  ==_refl request.company_id,
  ==_refl request.project_id,
  eq_iff setting.fingerprint setting.fingerprint,
  eq_iff (import_mode request.analyze_only) (import_mode request.analyze_only),
)

-- The session that `save_import_run` flushes.
abbrev unsaved :
    Library → (now : ℕ) → Request → Setting → List PreparedRow → ImportResult → Uow → Uow
unsaved lib now request setting rows result u = record u {
  next_id = suc u.next_id;
  project_import_runs =
      add (new_run u.next_id now lib request setting rows result) u.project_import_runs;
}

-- The session after a save that returned.
save_import_run_ok :
    (lib : Library) (now : ℕ) (request : Request) (setting : Setting) (rows : List PreparedRow)
    (result : ImportResult) (u : Uow)
    → (save_import_run lib now request setting rows result u).0 ≡ ok tt
    → let v = (save_import_run lib now request setting rows result u).1 in
      (v.broken ≡ false)
      × (v.project_import_runs
          ≡ flush
              (add (new_run u.next_id now lib request setting rows result) u.project_import_runs))
unfolding save_import_run flushed
save_import_run_ok lib now request setting rows result u h =
    elim (flush_session-cases (unsaved lib now request setting rows result u)) [
      | inl e ↦ (ap (λ r. r.1.broken) e, ap (λ r. r.1.project_import_runs) e)
      | inr (e, raised) ↦ absurd (ground arith)
    ]

setting_of-any :
    (lib : Library) (request : Request) (u v : Uow)
    → (setting_of lib request u).0 ≡ (setting_of lib request v).0
unfolding setting_of
setting_of-any lib request u v = ground arith

Result-eta :
    {A : Type 0} (r : Result A × Uow) (a : A) (v : Uow) → r.0 ≡ ok a → r.1 ≡ v → r ≡ (ok a, v)
Result-eta r a v h k i = (h i, k i)

cached-new_run :
    (id now : ℕ) (lib : Library) (request : Request) (setting : Setting) (rows : List PreparedRow)
    (result : ImportResult) (v : Uow)
    → v.broken ≡ false
    → find
        (has_fingerprint request.company_id request.project_id setting.fingerprint
          (import_mode request.analyze_only))
        v.project_import_runs
      ≡ some (new_run id now lib request setting rows result)
    → query (cached request setting) v ≡ (ok (some (record result { idempotency_hit = true })), v)
unfolding cached new_run
cached-new_run id now lib request setting rows result v up found = ground arith

-- Once the run of an import has been saved, where no run had its fingerprint before, importing
-- the file again answers the same result, marked as a hit, and leaves the session as it is.
pub import_again :
    (lib : Library) (restart : Uow) (now later : ℕ) (request : Request) (setting : Setting)
    (rows : List PreparedRow) (result : ImportResult) (u : Uow) (p : Project)
    → IsClean u.project_import_runs
    → find
        (has_fingerprint request.company_id request.project_id setting.fingerprint
          (import_mode request.analyze_only))
        u.project_import_runs
      ≡ none
    → (setting_of lib request u).0 ≡ ok setting
    → (save_import_run lib now request setting rows result u).0 ≡ ok tt
    → find
        (has_project_key request.company_id request.project_id)
        (save_import_run lib now request setting rows result u).1.projects
      ≡ some p
    → import_project_doors_from_file lib restart later request
        (save_import_run lib now request setting rows result u).1
      ≡ (
        ok (record result { idempotency_hit = true }),
        (save_import_run lib now request setting rows result u).1,
      )
unfolding import_project_doors_from_file
import_again lib restart now later request setting rows result u p clean fresh set saved found =
    let v = (save_import_run lib now request setting rows result u).1 in
    let (up, runs) = save_import_run_ok lib now request setting rows result u saved in
    let key =
      has_fingerprint request.company_id request.project_id setting.fingerprint
        (import_mode request.analyze_only) in
    let run = new_run u.next_id now lib request setting rows result in
    let is_run =
      ap (find key) runs
      ∙ find-flush-add key run u.project_import_runs clean fresh
          (new_run-has_fingerprint u.next_id now lib request setting rows result) in
    bind_step (get_project request.company_id request.project_id)
      (λ _. setting_of lib request >>= look_up lib restart later request) v v p
      (get_project_found request.company_id request.project_id v p up found)
    ∙ bind_step (setting_of lib request) (look_up lib restart later request) v v setting (
        Result-eta (setting_of lib request v) setting v (setting_of-any lib request v u ∙ set)
          (setting_of-state lib request v))
    ∙ bind_step (query (cached request setting)) (hit_or lib restart later request setting) v v
        (some (record result { idempotency_hit = true }))
        (cached-new_run u.next_id now lib request setting rows result v up is_run)
