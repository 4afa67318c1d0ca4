-- ===== src/Database/Rates/Validation.antt =====
-- FetchRatesForValidation (internal/db/sqlcgen/queries.sql.go). The cast of a text to a date is
-- Postgres's and a parameter; codes are in capitals, which every collation orders as bytes.
pub mod Filters
pub mod Sound
use fx_rates.Prelude.{
  ℕ, ◌+◌, Bool, true, ◌&&◌, ◌||◌, Text, codes, List, [], ◌∷◌, Option, none, some, leb, ltb, ◌==◌,
  text_eq, take, if◌then◌else◌,
}
use fx_rates.Clock.{Time}
use fx_rates.Number.{ℤ, pos, negsuc}
use fx_rates.Errors.{Error, Result, ok, err, other}
use fx_rates.Sorting.{text_lt, sort_on}
use fx_rates.Database.{Rate}

-- `FetchRatesForValidationParams`
pub record FetchParams : Type 0 where
  pub date_from : Text
  pub date_to : Text
  pub base_code : Text
  pub quote_code : Text
  pub provider_key : Text
  pub row_limit : ℤ

-- `$1 = '' OR date >= $1::date`
abbrev pub bound_of : (Text → Option Time) → Text → Result (Option Time)
bound_of cast [] = ok none
bound_of cast (c ∷ t) = elim (cast (c ∷ t)) [
  | none ↦ err (other (codes "invalid input syntax for type date"))
  | some d ↦ ok (some d)
]

abbrev pub at_or_after : Option Time → Time → Bool
at_or_after none t = true
at_or_after (some from) t = leb from t

abbrev pub at_or_before : Option Time → Time → Bool
at_or_before none t = true
at_or_before (some upto) t = leb t upto

-- `$3 = '' OR base = $3`
abbrev pub is_wanted : Text → Text → Bool
is_wanted code t = text_eq code [] || text_eq t code

module _ {F : Type 0} where
  -- The WHERE clause.
  unfoldable pub matches : FetchParams → Option Time → Option Time → Rate F → Bool
  matches arg from upto r =
      at_or_after from r.date
      && at_or_before upto r.date
      && is_wanted arg.base_code r.base
      && is_wanted arg.quote_code r.quote
      && text_eq r.provider arg.provider_key

  abbrev pub rows_where : (Rate F → Bool) → List (Rate F) → List (Rate F)
  rows_where p [] = []
  rows_where p (r ∷ rates) = let rest = rows_where p rates in if p r then r ∷ rest else rest

  -- `ORDER BY date, provider, base, quote`
  unfoldable pub row_lt : Rate F → Rate F → Bool
  row_lt r q =
      ltb r.date q.date
      || ((r.date == q.date)
          && (text_lt r.provider q.provider
              || (text_eq r.provider q.provider
                  && (text_lt r.base q.base
                      || (text_eq r.base q.base && text_lt r.quote q.quote)))))

  abbrev pub limited : ℤ → List (Rate F) → Result (List (Rate F))
  limited (negsuc n) rows = err (other (codes "LIMIT must not be negative"))
  limited (pos n) rows = ok (take n rows)

  abbrev pub fetch_between :
      FetchParams
      → Result (Option Time)
      → Result (Option Time)
      → List (Rate F)
      → Result (List (Rate F))
  fetch_between arg (err e) upto rates = err e
  fetch_between arg (ok from) (err e) rates = err e
  fetch_between arg (ok from) (ok upto) rates =
      limited arg.row_limit (sort_on row_lt (rows_where (matches arg from upto) rates))

  unfoldable pub fetch_rates_for_validation :
      (Text → Option Time) → FetchParams → List (Rate F) → Result (List (Rate F))
  unfolding matches row_lt sort_on
  fetch_rates_for_validation cast arg =
      fetch_between arg (bound_of cast arg.date_from) (bound_of cast arg.date_to)
