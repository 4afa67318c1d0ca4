-- ===== src/FxValidate.antt =====
-- cmd/fx-validate/main.go: the flags, the rows to validate and the order of the steps. The flag
-- parser, the pool, Postgres's cast of a text to a date and the files are parameters.
pub mod Csv
pub mod Examples
pub mod Path
pub mod Report
use fx_rates.Prelude.{
  ℕ, zero, suc, Bool, Text, codes, List, [], ◌∷◌, ◌++◌, Option, none, some, map, text_eq,
  if◌then◌else◌,
}
use fx_rates.Clock.{Time}
use fx_rates.Clock.Civil.{parse_date}
use fx_rates.Number.{ℤ, pos, negsuc, to_int32}
use fx_rates.Float64.{Float64}
use fx_rates.Errors.{Error, Result, ok, err, other}
use fx_rates.Strings.{quoted, trim_space, to_upper}
use fx_rates.Config.{Config}
use fx_rates.Database.{Rate}
use fx_rates.Database.Rates.Validation.{FetchParams, fetch_rates_for_validation}
use fx_rates.Validator.{DbRecord, Comparison, Summary}
use fx_rates.Validator.Client.{Client, Service, new_client}
use fx_rates.Validator.Run.{Outcome, validate, collect_symbols}
use fx_rates.FxValidate.Path.{output_path}
use fx_rates.FxValidate.Csv.{csv_text}

-- `filters`
pub record Filters : Type 0 where
  pub date_from : Text
  pub date_to : Text
  pub base : Text
  pub quote : Text
  pub provider : Text
  pub limit : ℤ
  pub output : Text
  pub env_file : Text

-- `validateDateFlag`
unfoldable pub validate_date_flag : Text → Text → Option Error
unfolding trim_space quoted
validate_date_flag name value =
    if text_eq (trim_space value) [] then none else elim (parse_date value) [
      | none ↦
          some (other (b'-' ∷ (name ++ (codes " must be in YYYY-MM-DD format: " ++ quoted value))))
      | some t ↦ none
    ]

-- `normalizeProviderFilter`
unfoldable pub normalize_provider_filter : Text → Result Text
unfolding trim_space to_upper
normalize_provider_filter value =
    let provider = to_upper (trim_space value) in
    if text_eq provider []
    then ok (codes "ECB")
    else if text_eq provider (codes "ECB")
    then ok provider
    else err (other (codes "unsupported provider"))

-- `cfg.limit <= 0`
abbrev limit_error : ℤ → Option Error
limit_error (negsuc n) = some (other (codes "limit must be greater than zero"))
limit_error (pos zero) = some (other (codes "limit must be greater than zero"))
limit_error (pos (suc n)) = none

abbrev pub with_provider : Filters → Result Text → Result Filters
with_provider cfg (err e) = err (other (codes "only provider=ECB is supported"))
with_provider cfg (ok provider) = ok (record cfg { provider = provider })

abbrev after_checks : Filters → Option Error → Option Error → Option Error → Result Filters
after_checks cfg (some e) from upto = err e
after_checks cfg none (some e) upto = err e
after_checks cfg none none (some e) = err e
after_checks cfg none none none = with_provider cfg (normalize_provider_filter cfg.provider)

-- The checks of `main`, in their order.
unfoldable pub check_flags : Filters → Result Filters
unfolding validate_date_flag normalize_provider_filter
check_flags cfg =
    after_checks cfg (limit_error cfg.limit) (validate_date_flag (codes "date-from") cfg.date_from)
      (validate_date_flag (codes "date-to") cfg.date_to)

-- `int32(cfg.limit)` of a limit above zero.
abbrev int32_limit : ℤ → ℤ
int32_limit (pos n) = to_int32 n
int32_limit (negsuc n) = negsuc n

abbrev pub fetch_params : Filters → FetchParams
fetch_params cfg = record {
  date_from = cfg.date_from;
  date_to = cfg.date_to;
  base_code = to_upper (trim_space cfg.base);
  quote_code = to_upper (trim_space cfg.quote);
  provider_key = cfg.provider;
  row_limit = int32_limit cfg.limit;
}

module _ {F : Type 0} where
  abbrev pub db_record : Rate F → DbRecord F
  db_record r = record {
    date = r.date;
    base = to_upper r.base;
    quote = to_upper r.quote;
    rate = r.rate;
    provider = to_upper r.provider;
  }

  abbrev pub records_of : Result (List (Rate F)) → Result (List (DbRecord F))
  records_of (err e) = err e
  records_of (ok rows) = ok (map db_record rows)

  -- `fetchRecords`, of a query that reaches the database.
  unfoldable pub fetch_records :
      (Text → Option Time) → Filters → List (Rate F) → Result (List (DbRecord F))
  unfolding fetch_rates_for_validation to_upper trim_space
  fetch_records cast cfg rates =
      records_of (fetch_rates_for_validation cast (fetch_params cfg) rates)

-- How `main` ends: an error on the standard error and exit code 1, no rows, or the rows written, to
-- the standard output or to a file, and the summary.
pub data Ended : Type 0 where
  failed : Error → Ended
  no_rows : Ended
  reported : Option Text → Text → Summary → Ended

-- What lies outside: `config.Bootstrap`, `db.NewPool`, the cast of a date, the reference service,
-- `os.Create` and the writer.
pub record Outside (F : Type 0) : Type 0 where
  pub bootstrap : Text → Result Config
  pub connect : Config → Option Error
  pub cast : Text → Option Time
  pub service : Service F
  pub create : Text → Option Error
  pub write : Option Text → Text → Option Error

module _ {F : Type 0} ⦃fl : Float64 F⦄ (out : Outside F) where
  abbrev pub written : Option Text → Text → Summary → Option Error → Ended
  written target text summary (some e) = failed e
  written target text summary none = reported target text summary

  abbrev pub create_error : Option Text → Option Error
  create_error none = none
  create_error (some path) = out.create path

  abbrev pub write_to : Option Text → List (Comparison F) → Summary → Option Error → Ended
  write_to target results summary (some e) = failed e
  write_to target results summary none =
      let text = csv_text results in written target text summary (out.write target text)

  abbrev pub open_output : List (Comparison F) → Summary → Result (Option Text) → Ended
  open_output results summary (err e) = failed e
  open_output results summary (ok target) = write_to target results summary (create_error target)

  abbrev pub after_validate : Text → Outcome F → Ended
  after_validate output (err e, summary, c) = failed e
  after_validate output (ok results, summary, c) = open_output results summary (output_path output)

  abbrev pub on_records : Text → Result (List (DbRecord F)) → Ended
  on_records output (err e) = failed e
  on_records output (ok []) = no_rows
  on_records output (ok (r ∷ records)) =
      after_validate output
        (validate out.service (r ∷ records) (new_client (collect_symbols (r ∷ records))))

  abbrev pub on_pool : Filters → List (Rate F) → Option Error → Ended
  on_pool cfg rates (some e) = failed e
  on_pool cfg rates none = on_records cfg.output (fetch_records out.cast cfg rates)

  abbrev pub on_config : Filters → List (Rate F) → Result Config → Ended
  on_config cfg rates (err e) = failed e
  on_config cfg rates (ok app) = on_pool cfg rates (out.connect app)

  abbrev pub on_flags : List (Rate F) → Result Filters → Ended
  on_flags rates (err e) = failed e
  on_flags rates (ok cfg) = on_config cfg rates (out.bootstrap cfg.env_file)

  -- `main`
  unfoldable pub fx_validate : Filters → List (Rate F) → Ended
  unfolding check_flags fetch_records
  fx_validate cfg rates = on_flags rates (check_flags cfg)
