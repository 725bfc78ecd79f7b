-- ===== src/Projects/Retry/Tests.antt =====
-- The rows of a run written and read back, with numbers written as strokes.
use dimax_ops_backend.Store.{find, select}
use dimax_ops_backend.Projects.{import_doors, new_doors}
use dimax_ops_backend.Base.{
  ℕ, zero, suc, ◌-◌, ◌≡◌, ◌∙◌, refl, ap, false, some, none, [], ◌∷◌, String, chars, strip,
  strip_right, is_space, is_blank_text, arith,
}
use dimax_ops_backend.Domain.{PreparedRow, ImportRun}
use dimax_ops_backend.Uow.{Uow, Result, ok, err}
use dimax_ops_backend.Sample
use dimax_ops_backend.Sample.{row}
use dimax_ops_backend.Projects.Retry.Runs.{Caller, BulkResponse, retry_failed_runs_bulk}
use dimax_ops_backend.Projects.Retry.Totals.{CountedOrBroken, retry_failed_runs_bulk-IsCounted}
use dimax_ops_backend.Projects.Retry.{
  Codec, empty_to_none, import_run_status, serialize_prepared_rows, deserialize_retry_rows,
}
use dimax_ops_backend.Projects.Retry.Roundtrip.{Laws, IsTidy, deserialize-serialize}

-- A number as one stroke more than it counts.
abbrev strokes : ℕ → String
strokes zero = "I"
strokes (suc n) = String.◌∷◌ "I" (strokes n)

abbrev count_strokes : String → ℕ
count_strokes s = chars s - 1

abbrev codec : Codec
codec = record {
  str_uuid = strokes;
  uuid = λ s. some (count_strokes s);
  str_decimal = strokes;
  decimal = λ s. some (count_strokes s);
}

strip_right-strokes : (n : ℕ) → strip_right (strokes n) ≡ strokes n
unfolding strip_right is_space
strip_right-strokes zero = refl
strip_right-strokes (suc n) = ap (λ s. String.◌∷◌ "I" s) (strip_right-strokes n)

strip-strokes : (n : ℕ) → strip (strokes n) ≡ strokes n
unfolding strip
strip-strokes zero = refl
strip-strokes (suc n) = strip_right-strokes (suc n)

chars-strokes : (n : ℕ) → chars (strokes n) ≡ suc n
chars-strokes zero = refl
chars-strokes (suc n) = ap suc (chars-strokes n)

strokes_read : (n : ℕ) → count_strokes (strip (strokes n)) ≡ n
strokes_read n = ap count_strokes (strip-strokes n) ∙ omega (arith, chars-strokes n)

strokes_given : (n : ℕ) → is_blank_text (strokes n) ≡ false
strokes_given zero = refl
strokes_given (suc n) = refl

codec-Laws : Laws codec
unfolding strip
codec-Laws = record {
  uuid = λ n. ap some (strokes_read n);
  uuid_given = λ n. ap is_blank_text (strip-strokes n) ∙ strokes_given n;
  decimal = λ n. ap some (strokes_read n);
  decimal_given = λ n. strokes_given n;
  decimal_zero = refl;
}

abbrev prepared : PreparedRow
prepared = record {
  door_type_id = 3;
  our_price = 2;
  labels = record {
    unit_label = "12";
    order_number = some "A 7";
    house_number = some "5";
    floor_label = none;
    apartment_number = none;
    location_code = some "mamad";
    door_marking = none;
  };
}

prepared-IsTidy : IsTidy prepared
unfolding empty_to_none strip
prepared-IsTidy = record {
  label = refl;
  given = refl;
  short = omega arith;
  order_number = refl;
  house_number = refl;
  floor_label = refl;
  apartment_number = refl;
  location_code = refl;
  door_marking = refl;
}

deserialize-serialize_example :
    deserialize_retry_rows codec (serialize_prepared_rows codec (prepared ∷ [])) ≡ prepared ∷ []
deserialize-serialize_example =
    deserialize-serialize codec (prepared ∷ []) codec-Laws (prepared-IsTidy, tt)

partly_imported : import_run_status "import" 3 1 ≡ "PARTIAL"
unfolding import_run_status
partly_imported = refl

abbrev caller : Caller
caller = record {
  codec = codec;
  settings = record { warn_pct = 80; danger_pct = 95; cooldown_minutes = 360 };
  fresh = λ n. "f0";
  now = 90;
  company_id = 1;
  actor_user_id = 2;
}

-- A run that imported one row and recorded one error.
abbrev run : ImportRun
run = record {
  id = 70;
  company_id = 1;
  project_id = 10;
  created_at = 60;
  fingerprint = "f";
  import_mode = "import";
  source_filename = some "doors.csv";
  mapping_profile = "auto_v1";
  result_payload = some (record {
    result = record {
      parsed_rows = 2;
      prepared_rows = 1;
      imported = 1;
      skipped = 0;
      errors = record { row = 2; message = "invalid price: x" } ∷ [];
      diagnostics = none;
      mode = "import";
      would_import = 1;
      would_skip = 0;
      idempotency_hit = false;
    };
    retry = some (record {
      filename = some "doors.csv";
      mapping_profile = "auto_v1";
      prepared_rows = serialize_prepared_rows codec (prepared ∷ []);
    });
  });
}

abbrev uow : Uow
uow = record Sample.uow { project_import_runs = row run ∷ [] }

-- The door type of the row is missing, so its retry fails; no run has the id 71.
abbrev counts_of : Result BulkResponse → ℕ × ℕ × ℕ
counts_of (ok r) = (r.successful, r.failed, r.skipped)
counts_of (err e) = (0, 0, 0)

fails_twice : counts_of (retry_failed_runs_bulk caller (70 ∷ 71 ∷ 70 ∷ []) uow).0 ≡ (0, 2, 0)
unfolding retry_failed_runs_bulk select serialize_prepared_rows strip import_doors find new_doors
fails_twice = refl

retry_failed_runs_bulk-IsCounted_example :
    CountedOrBroken 2 2 (retry_failed_runs_bulk caller (70 ∷ 71 ∷ 70 ∷ []) uow)
retry_failed_runs_bulk-IsCounted_example =
    retry_failed_runs_bulk-IsCounted caller (70 ∷ 71 ∷ 70 ∷ []) uow refl
