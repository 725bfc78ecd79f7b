-- ===== src/Rates/Tests.antt =====
-- Runs of the rates' administration, and its theorem at concrete inputs.
use dimax_ops_backend.Base.{◌≡◌, refl, true, none, some, [], ◌∷◌, any}
use dimax_ops_backend.Store.{find, add, flush, objects, violates, delete_where}
use dimax_ops_backend.Domain.{InstallerRate, http_error}
use dimax_ops_backend.Uow.{Uow, ok, err, flush_session, flushed, violates_unique}
use dimax_ops_backend.Sample
use dimax_ops_backend.Sample.{row}
use dimax_ops_backend.Rates.{version_of, delete_rate}
use dimax_ops_backend.Rates.Bulk.{
  BulkCounts, bulk_rates, bulk_loop, bulk_rate, set_price, add_version, add_count,
}
use dimax_ops_backend.Rates.Bulk.Prices.{is_wanted}
use dimax_ops_backend.Rates.Bulk.InForce.{bulk_rates-is_wanted}

abbrev rate : InstallerRate
rate = version_of 40 1 7 3 10 5000

abbrev uow : Uow
uow = record Sample.uow { installer_rates = row rate ∷ [] }

abbrev counts : BulkCounts
counts = record { affected = 1; not_found = 1; unchanged = 0 }

bulk_of_two :
    (bulk_rates 60 1 2 (40 ∷ 41 ∷ 40 ∷ []) "set_price" (some 7000) (some 50) uow).0 ≡ ok counts
unfolding bulk_rates bulk_loop bulk_rate set_price add_version add_count find add flush_session
    flushed flush violates_unique violates objects
bulk_of_two = refl

no_price :
    (bulk_rates 60 1 2 (40 ∷ []) "set_price" none none uow).0
    ≡ err (http_error 422 "price is required for set_price")
unfolding bulk_rates
no_price = refl

deleted : (delete_rate 60 1 2 40 uow).1.installer_rates ≡ []
unfolding delete_rate find delete_where flush_session flushed flush violates_unique violates objects
deleted = refl

bulk_rates-is_wanted_example :
    any (is_wanted 1 50 7000 rate) (
      objects
        (bulk_rates 60 1 2
          (40 ∷ 41 ∷ 40 ∷ [])
          "set_price"
          (some 7000)
          (some 50)
          uow).1.installer_rates)
    ≡ true
bulk_rates-is_wanted_example =
    bulk_rates-is_wanted 60 1 2 40 7000 (40 ∷ 41 ∷ 40 ∷ []) (some 50) rate uow counts (refl, tt)
      refl (unfold find in refl) bulk_of_two
