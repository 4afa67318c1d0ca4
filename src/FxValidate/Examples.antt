-- ===== src/FxValidate/Examples.antt =====
-- A table of two rows, a service that knows one of the pairs, and the report.
use fx_rates.Strings.{trim_space}
use fx_rates.Errors.{Error, err, ok, other}
use fx_rates.FxValidate.Path.{output_path, is_rooted, split_slash}
use fx_rates.FxValidate.Path.Climb.{climbs, output_path-climbs}
use fx_rates.Prelude.{
  ◌↔◌, text_eq, false, true, ◌≡◌, refl, Text, codes, List, [], ◌∷◌, Option, none, some, ◌++◌, ◌+◌,
  ◌*◌, map, length, arith, ℕ, if◌then◌else◌,
}
use fx_rates.Clock.{Time, day, unix_epoch}
use fx_rates.Clock.Civil.{parse_date}
use fx_rates.Number.{pos}
use fx_rates.Float64.{Sample, milli, samples}
use fx_rates.Database.{Rate}
use fx_rates.Database.Rates.Validation.{FetchParams, bound_of, fetch_rates_for_validation}
use fx_rates.Database.Rates.Validation.Sound.{IsFetched, fetch_rates-IsFetched}
use fx_rates.Validator.{Comparison, Summary, Status, ok_status, missing}
use fx_rates.Validator.Client.{Service, data_of}
use fx_rates.Config.Examples.{loaded}
use fx_rates.FxValidate.{
  Filters, Outside, Ended, reported, check_flags, fetch_params, fetch_records, fx_validate,
}
use fx_rates.FxValidate.Csv.{header, row_of, csv_text}
use fx_rates.FxValidate.Csv.RoundTrip.{read_csv, read_csv-csv_text}
use fx_rates.FxValidate.Report.{IsReportOn, fx_validate-IsReportOn}

abbrev usd : Rate Sample
usd = record {
  date = unix_epoch + 8 * day;
  base = codes "EUR";
  quote = codes "USD";
  rate = milli 1100;
  provider = codes "ECB";
}

abbrev try : Rate Sample
try = record usd { date = unix_epoch + 7 * day; quote = codes "TRY" }

abbrev rates : List (Rate Sample)
rates = usd ∷ try ∷ []

abbrev filters : Filters
filters = record {
  date_from = codes "1970-01-01";
  date_to = [];
  base = codes " eur";
  quote = [];
  provider = codes "ecb";
  limit = pos 100;
  output = codes "out/report.csv";
  env_file = codes ".env";
}

abbrev params : FetchParams
params = fetch_params (record filters { provider = codes "ECB" })

fetched : fetch_rates_for_validation parse_date params rates ≡ ok (try ∷ usd ∷ [])
unfolding fetch_rates_for_validation parse_date fx_rates.Prelude.text_eq fx_rates.Strings.to_upper
    fx_rates.Strings.trim_space
fetched = refl

fetch_rates-IsFetched_example :
    (from : Option Time) × (bound_of parse_date params.date_from ≡ ok from)
    × (upto : Option Time) × (bound_of parse_date params.date_to ≡ ok upto)
    × (n : ℕ) × (params.row_limit ≡ pos n)
    × IsFetched params from upto rates (try ∷ usd ∷ []) n
fetch_rates-IsFetched_example =
    fetch_rates-IsFetched parse_date params rates (try ∷ usd ∷ []) fetched

-- A limit of 2 ^ 32 is cut to 0: the row that matches is not fetched.
no_row_of_many :
    fetch_records parse_date
      (record filters { provider = codes "ECB"; limit = pos 4294967296 })
      rates
    ≡ ok []
unfolding fetch_records parse_date
no_row_of_many = refl

-- White space passes the check of the date flags, and the cast refuses it.
blank_date_is_no_date :
    fetch_records parse_date (record filters { date_from = codes " " }) rates
    ≡ err (other (codes "invalid input syntax for type date"))
unfolding fetch_records parse_date
blank_date_is_no_date = refl

abbrev blank_from : Filters
blank_from = record filters { date_from = codes " "; provider = codes "ECB" }

blank_date_is_accepted : check_flags blank_from ≡ ok blank_from
unfolding check_flags fx_rates.Prelude.text_eq
blank_date_is_accepted = refl

-- A note with a comma, quotes and a line break.
abbrev noted : Comparison Sample
noted = record {
  date = codes "1970-01-09";
  base = codes "EUR";
  quote = codes "USD";
  db_rate = milli 1100;
  online_rate = some (milli 1100);
  absolute_diff = none;
  relative_diff_pct = none;
  status = ok_status;
  notes = 34 ∷ (codes "a, b" ++ (34 ∷ 10 ∷ codes "c"));
}

read_csv-csv_text_example : read_csv (csv_text (noted ∷ [])) ≡ header ∷ map row_of (noted ∷ [])
read_csv-csv_text_example = read_csv-csv_text (noted ∷ [])

abbrev outside : Outside Sample
outside = record {
  bootstrap = λ path. ok loaded;
  connect = λ cfg. none;
  cast = parse_date;
  service = λ n from upto symbols. data_of (
      record {
        date = codes "1970-01-08";
        base = codes "EUR";
        quote = codes "USD";
        rate = milli 1100;
      }
      ∷ []);
  create = λ path. none;
  write = λ target text. none;
}

abbrev report : Text × Summary
report = elim (fx_validate outside filters rates) [
  | reported target text summary ↦ (text, summary)
  | _ ↦ (
    [],
    record { total = 0; ok_count = 0; warning_count = 0; invalid_count = 0; missing_count = 0 },
  )
]

reports :
    fx_validate outside filters rates
    ≡ reported (some (codes "out/report.csv")) report.0 (record {
      total = 2;
      ok_count = 1;
      warning_count = 0;
      invalid_count = 0;
      missing_count = 1;
    })
unfolding fx_validate fx_rates.Prelude.text_eq parse_date fx_rates.Validator.Run.validate
    fx_rates.Validator.Client.lookup_rate fx_rates.Validator.Client.snapshot_for_date
    fx_rates.Validator.Client.new_client fx_rates.Sorting.sort fx_rates.Clock.Civil.format_date
    fx_rates.FxValidate.Path.output_path fx_rates.Validator.Run.compare_with
    fx_rates.Validator.Client.snapshot_from fx_rates.Validator.cross_rate
    fx_rates.Strings.trim_space fx_rates.Strings.to_upper fx_rates.Validator.classify
reports = refl

fx_validate-IsReportOn_example :
    (cfg : Filters) × (check_flags filters ≡ ok cfg)
    × IsReportOn outside
        (some (codes "out/report.csv"))
        report.0
        (record {
          total = 2;
          ok_count = 1;
          warning_count = 0;
          invalid_count = 0;
          missing_count = 1;
        })
        cfg
        rates
fx_validate-IsReportOn_example =
    fx_validate-IsReportOn outside (some (codes "out/report.csv")) report.0
      (record { total = 2; ok_count = 1; warning_count = 0; invalid_count = 0; missing_count = 1 })
      filters rates reports

output_path-climbs_example : ((e : Error) × (output_path (codes "../x") ≡ err e)) ↔ (
    (text_eq (trim_space (codes "../x")) [] ≡ false)
    × (is_rooted (trim_space (codes "../x")) ≡ false)
    × (climbs 0 (split_slash (trim_space (codes "../x"))) ≡ true))
output_path-climbs_example = output_path-climbs (codes "../x")
