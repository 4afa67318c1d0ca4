-- ===== src/Examples.antt =====
-- Sample data: an upstream that answers 503 once, tables that are empty or hold one row.
pub mod Runs
pub mod Parts
pub mod Fetch
use fx_rates.Prelude.{
  ℕ, ◌+◌, ◌*◌, ◌≡◌, ◌≤◌, refl, Bool, true, false, Text, codes, List, [], ◌∷◌, suc, Option, none,
  some, ◌==◌, if◌then◌else◌, arith, ◌↔◌, ◌≢◌, length, ◌++◌, ◌||◌, All, ◌<◌,
}
use fx_rates.Clock.{Time, day, zero_time, unix_epoch, is_zero, before}
use fx_rates.Number.{pos}
use fx_rates.Float64.{Sample, milli, samples}
use fx_rates.Errors.{Error, Result, ok, err, http_status}
use fx_rates.Provider.{Record, Adapter, FetchEvent}
use fx_rates.Provider.Fetch.{
  Surroundings, fetch_retrying, max_retries, fetch_each_observed, out_of_fuel,
}
use fx_rates.Provider.Fetch.Retry.{IsCounted, EndsRightly, retry_bound}
use fx_rates.Provider.Fetch.Total.{fetch_each-total}
use fx_rates.Database.{Rate, Provider, empty_db}
use fx_rates.Database.Rates.{insert_staged}
use fx_rates.Database.Rates.Upsert.{KeysUnique, insert_staged_twice, insert_staged-KeysUnique}
use fx_rates.World.{World, Oracles, start_world}
use fx_rates.Repo.{upsert_currency_summary}
use fx_rates.Registry.{Entry, ecb}
use fx_rates.Scheduler.{Options, BackfillResult, Status}
use fx_rates.Scheduler.Start.{
  max_time_ptr, LePtr, max_time_ptr-is_lub, adjust_start_for_mode, adjust_start_floor,
}
use fx_rates.Scheduler.Batch.{
  filter_valid_records, unique_currencies, bulk_upsert_rates, process_batch,
}
use fx_rates.Scheduler.Batch.Filter.{stamped, IsLatest, filter_valid_records_lem}
use fx_rates.Scheduler.Batch.Unique.{IsNodup, has_code, mentions, unique_currencies_lem}
use fx_rates.Scheduler.Batch.Store.{IsAtomic, bulk_upsert_rates-IsAtomic}
use fx_rates.Scheduler.Batch.Sound.{IsSound, process_batch-IsSound}
use fx_rates.Scheduler.Backfill.{
  backfill_provider, initial_result, world_surroundings, world_adapter, world_observer,
}
use fx_rates.Scheduler.Backfill.Sound.{IsFaithful, backfill_provider-IsFaithful}
use fx_rates.Scheduler.Backfill.Coverage.{
  IsContext, backfill_provider-Covers, full_run_misses_coverage_start,
}
use fx_rates.Scheduler.Entry.{summarize, after_backfill, backfill_entry}
use fx_rates.Scheduler.Entry.Accounts.{Accounts, backfill_entry-Accounts}
use fx_rates.Scheduler.Entry.Exit.{IsAudited, summarize-counts_once, after_backfill-exit}

-- 2024-10-04 and ten days before, both at midnight.
abbrev pub today : Time
today = unix_epoch + 20000 * day

abbrev pub first_day : Time
first_day = unix_epoch + 19990 * day

abbrev pub usd : Record Sample
usd = record {
  date = first_day + day;
  base = codes "EUR";
  quote = codes "USD";
  rate = milli 1100;
  provider = [];
}

abbrev pub xdr : Record Sample
xdr = record usd { quote = codes "XDR" }

abbrev pub usd_row : Rate Sample
usd_row = record {
  date = first_day;
  base = codes "EUR";
  quote = codes "USD";
  rate = milli 1090;
  provider = codes "ECB";
}

-- The first request is answered by 503, later ones by two records.
abbrev pub oracles : Oracles Sample
oracles = record {
  now = λ n. today + 12 * 3600 * 1_000_000_000;
  ctx_err = λ n. none;
  ctx_wins = λ n. false;
  fault = λ n. none;
  upstream = λ n from upto. if n == 1 then err (http_status 503 []) else ok (usd ∷ xdr ∷ []);
}

pub context : IsContext oracles
context = record { done_has_error = λ n h. cc }

abbrev pub ecb_provider : Provider
ecb_provider = record {
  key = codes "ECB";
  name = codes "European Central Bank";
  country_code = none;
  rate_type = none;
  pivot_currency = none;
  data_url = none;
  terms_url = none;
  publish_time = none;
  publish_days = none;
  coverage_start = record { time = first_day; valid = true };
}

abbrev pub world : World Sample
world = start_world (record empty_db { rates = usd_row ∷ []; providers = ecb_provider ∷ [] })

abbrev pub options : Options
options = record { debug = false; daily_sync = false; daily_sync_lookback = pos 0 }

abbrev pub entry : Entry
entry = record { key = codes "ECB"; adapter = ecb }

pub unique : KeysUnique world.db.rates
unfolding fx_rates.Database.Rates.has_key
unique = (refl, tt)

pub first_day_is_dated : first_day ≢ zero_time
unfolding zero_time
first_day_is_dated = λ e. ground arith

pub first_day_is_past : first_day < today
first_day_is_past = omega arith

pub world-IsSound : IsSound (codes "ECB") world.db.rates world
world-IsSound = record { grown = (unique, [], refl, refl, tt); accounted = omega arith }

abbrev pub up_to_date_result : BackfillResult
up_to_date_result = record (initial_result (codes "ECB") (some today)) {
  status = some Status.up_to_date;
}
