-- ===== src/Examples/Fetch.antt =====
-- The fetch loop over an adapter that fails once and over a book of the requests.
use fx_rates.Prelude.{
  length, ℕ, ◌+◌, ◌≡◌, refl, true, false, List, [], ◌∷◌, suc, Option, none, ◌==◌, if◌then◌else◌,
  ◌≢◌, ◌||◌,
}
use fx_rates.Clock.{zero_time, is_zero, before}
use fx_rates.Number.{pos}
use fx_rates.Float64.{Sample, samples}
use fx_rates.Errors.{Error, ok, err, http_status}
use fx_rates.Provider.{Record, Adapter, FetchEvent}
use fx_rates.Provider.Fetch.{
  Surroundings, fetch_retrying, max_retries, fetch_each_observed, out_of_fuel,
}
use fx_rates.Provider.Fetch.Retry.{IsCounted, EndsRightly, retry_bound}
use fx_rates.Provider.Fetch.Total.{fetch_each-total}
use fx_rates.Provider.Fetch.Answers.{Book, answer, hand}
use fx_rates.Provider.Fetch.Windows.{Progress, IsLogged, fetch_each_covers}
use fx_rates.Examples.{today, first_day, usd}

-- Surroundings in which the clock stands, the context lives and a backoff ends at once.
abbrev counting : (S : Type 0) → Surroundings S
counting S = record { now = λ s. today; ctx_err = λ s. none; backoff = λ n s. (false, s) }

-- An adapter that counts its calls; the first one answers 503.
abbrev flaky : Adapter Sample ℕ
flaky = record {
  fetch = λ from upto s. (if s == 0 then err (http_status 503 []) else ok (usd ∷ []), s + 1);
  backfill_range = pos 4;
}

abbrev ignore : FetchEvent → ℕ → ℕ
ignore e s = s

abbrev keep : {S : Type 0} → List (Record Sample) → S → Option Error × S
keep records s = (none, s)

flaky-IsCounted : IsCounted (counting ℕ) flaky ignore (λ calls. calls)
flaky-IsCounted = record {
  calls-fetch = λ from upto s. refl;
  calls-observe = λ e s. refl;
  calls-backoff = λ n s. refl;
}

-- An adapter and a callback over a book of the answers and the records.
abbrev steady : Adapter Sample Book
steady = record {
  fetch = λ from upto s. (ok (usd ∷ []), answer from upto 1 s);
  backfill_range = pos 4;
}

abbrev unobserved : FetchEvent → Book → Book
unobserved e s = s

abbrev count : List (Record Sample) → Book → Option Error × Book
count records s = (none, hand (length records) s)

steady-IsLogged : IsLogged (counting Book) steady unobserved count (λ s. s)
steady-IsLogged = record {
  log-fetch = λ from upto s. refl;
  log-observe = λ e s. refl;
  log-backoff = λ n s. refl;
  log-fn = λ records s. refl;
  done_has_error = λ n s h. cc;
}

first_day_is_before : (is_zero first_day || before first_day today) ≡ true
unfolding zero_time
first_day_is_before = refl

retry_bound_example :
    EndsRightly
      (counting ℕ)
      flaky
      ignore
      (λ calls. calls)
      0
      (fetch_retrying (counting ℕ) flaky ignore (suc max_retries) first_day zero_time 0 0)
retry_bound_example =
    retry_bound (counting ℕ) flaky ignore (λ calls. calls) flaky-IsCounted first_day zero_time 0

fetch_each-total_example :
    (fetch_each_observed (counting ℕ) flaky ignore keep first_day 0).0 ≢ out_of_fuel
fetch_each-total_example = fetch_each-total (counting ℕ) flaky ignore keep first_day 0

fetch_each_covers_example :
    Progress
      (counting Book)
      steady
      unobserved
      count
      (λ s. s)
      steady-IsLogged
      today
      first_day
      ([], 0)
      (fetch_each_observed (counting Book) steady unobserved count first_day ([], 0))
fetch_each_covers_example =
    fetch_each_covers (counting Book) steady unobserved count (λ s. s) steady-IsLogged first_day
      ([], 0) first_day_is_before
