-- ===== src/Validator/Examples.antt =====
-- Stored rates against a service that quotes one dollar a euro, and none.
use fx_rates.Prelude.{
  inr, ◌≡◌, ◌+◌, ◌*◌, refl, ℕ, zero, suc, Bool, true, false, Text, codes, List, [], ◌∷◌, Option,
  none, some, length, ◌<◌,
}
use fx_rates.Clock.{Time, day, unix_epoch}
use fx_rates.Float64.{Sample, milli, samples, samples-IsIeee}
use fx_rates.Errors.{ok}
use fx_rates.Validator.{DbRecord, Snapshot, ok_status, warning, invalid, missing, Status}
use fx_rates.Validator.Client.{Client, Service, data_of, bad_status, new_client, snapshot_for_date}
use fx_rates.Validator.Run.{compare_with, validate, collect_symbols}
use fx_rates.Validator.Run.Tallies.{IsCounted, validate-IsCounted}
use fx_rates.Validator.Run.Verdict.{same_or_zero_is_ok}
use fx_rates.Validator.Run.Cache.{snapshot_for_date_again}

abbrev stored : DbRecord Sample
stored = record {
  date = unix_epoch + 8 * day;
  base = codes "EUR";
  quote = codes "usd";
  rate = milli 1100;
  provider = codes "ECB";
}

abbrev unsupported : DbRecord Sample
unsupported = record stored { quote = codes "TRY" }

-- The service answers its first request and fails afterwards.
abbrev service : Service Sample
service zero from to symbols = data_of (
    record { date = codes "1970-01-07"; base = codes "EUR"; quote = codes "USD"; rate = milli 900 }
    ∷ record {
      date = codes "1970-01-08";
      base = codes "EUR";
      quote = codes "USD";
      rate = milli 1100;
    }
    ∷ [])
service (suc n) from to symbols = bad_status 500

abbrev client : Client Sample
client = new_client (collect_symbols (stored ∷ unsupported ∷ []))

abbrev latest : Snapshot Sample
latest = record { effective_date = codes "1970-01-08"; rates = (codes "USD", milli 1100) ∷ [] }

answered : (snapshot_for_date service (unix_epoch + 8 * day) client).0 ≡ ok latest
unfolding snapshot_for_date new_client fx_rates.Sorting.sort fx_rates.Strings.to_upper
    fx_rates.Strings.trim_space fx_rates.Prelude.text_eq fx_rates.Validator.Client.snapshot_from
    fx_rates.Clock.Civil.format_date
answered = refl

snapshot_for_date_again_example :
    let c = (snapshot_for_date service (unix_epoch + 8 * day) client).1 in
    snapshot_for_date (λ n from to symbols. bad_status 404) (unix_epoch + 8 * day) c
    ≡ (ok latest, c)
snapshot_for_date_again_example =
    snapshot_for_date_again service (λ n from to symbols. bad_status 404) (unix_epoch + 8 * day)
      client latest answered

-- Both records are validated with the one request that succeeds.
validates_both :
    (validate service (stored ∷ unsupported ∷ []) client).1
    ≡ record { total = 2; ok_count = 1; warning_count = 0; invalid_count = 0; missing_count = 1 }
unfolding validate snapshot_for_date new_client fx_rates.Sorting.sort fx_rates.Strings.to_upper
    fx_rates.Strings.trim_space fx_rates.Prelude.text_eq fx_rates.Validator.Client.snapshot_from
    fx_rates.Clock.Civil.format_date fx_rates.Validator.Client.lookup_rate
    fx_rates.Validator.Run.compare_with fx_rates.Validator.cross_rate
validates_both = refl

validate-IsCounted_example : IsCounted 2 (validate service (stored ∷ unsupported ∷ []) client)
validate-IsCounted_example = validate-IsCounted service (stored ∷ unsupported ∷ []) client

same_or_zero_is_ok_example :
    (compare_with stored (codes "1970-01-08") [] (some (milli 1100))).status ≡ ok_status
same_or_zero_is_ok_example =
    same_or_zero_is_ok samples-IsIeee stored (codes "1970-01-08") [] (milli 1100)
      (inr (refl, refl, refl))

-- A stored rate of 1.1 against a reference of zero.
zero_is_ok : (compare_with stored (codes "1970-01-09") [] (some (milli 0))).status ≡ ok_status
unfolding compare_with
zero_is_ok = refl
