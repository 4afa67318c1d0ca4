-- ===== src/Ecb/Examples.antt =====
-- A small response read with a reader that splits a line at its commas.
use fx_rates.Prelude.{
  ◌+◌, ◌*◌, ◌≡◌, ◌≢◌, ◌≤◌, refl, ℕ, Bool, true, false, not, Text, codes, List, [], ◌∷◌, ◌++◌,
  Option, none, some, ◌==◌, if◌then◌else◌, map, All, length, arith, ◌<◌,
}
use fx_rates.Clock.{day, unix_epoch, zero_time}
use fx_rates.Float64.{Sample, milli, samples}
use fx_rates.Scheduler.{is_excluded}
use fx_rates.Scheduler.Batch.{is_valid_record, rate_row, row_fits}
use fx_rates.Ecb.{
  max_line_bytes, Body, Response, parse_lines, parse_stream, on_response, request_url, response_cap,
}
use fx_rates.Scanner.{scan}
use fx_rates.Ecb.Sound.{IsObservation, parse_stream-IsObservation, parse_stream-accepted}

-- The fields of a line that holds no quotes.
abbrev split_from : Text → Text → List Text
split_from field [] = field ∷ []
split_from field (c ∷ t) = elim (c == b',') [
  | true ↦ field ∷ split_from [] t
  | false ↦ split_from (field ++ c ∷ []) t
]

abbrev split_line : Text → Option (List Text)
split_line [] = none
split_line (c ∷ t) = some (split_from [] (c ∷ t))

-- The lines, each with its newline.
abbrev unlines : List Text → Text
unlines [] = []
unlines (l ∷ ls) = l ++ (10 ∷ unlines ls)

abbrev body : Body
body = record {
  bytes = unlines (
      codes "FREQ,CURRENCY,OBS_VALUE,TIME_PERIOD"
      ∷ codes "D,USD,2,1970-01-02"
      ∷ codes "M,USD,2,1970-01-02"
      ∷ []);
  failure = none;
}

parses_one : parse_stream Sample split_line 100 body ≡ (
  record {
    date = unix_epoch + day;
    base = codes "EUR";
    quote = codes "USD";
    rate = milli 2000;
    provider = [];
  }
      ∷ [],
  none,
)
unfolding parse_stream fx_rates.Ecb.parse_row fx_rates.Prelude.text_eq fx_rates.Number.parse_nat
    fx_rates.Clock.Civil.parse_date
parses_one = refl

-- The response is five bytes longer than the cap.
refuses_beyond_the_cap : (parse_stream Sample split_line 70 body).0 ≡ []
unfolding parse_stream fx_rates.Ecb.parse_row fx_rates.Prelude.text_eq fx_rates.Number.parse_nat
    fx_rates.Clock.Civil.parse_date
refuses_beyond_the_cap = refl

caps : (response_cap (codes "4096") ≡ 4096) × (response_cap (codes "-1") ≡ 10 * 1024 * 1024)
unfolding response_cap
caps = (refl, refl)

asks_for_a_window :
    request_url (unix_epoch + day) (unix_epoch + 2 * day)
    ≡ codes
        "https://data-api.ecb.europa.eu/service/data/EXR/D..EUR.SP00.A?endPeriod=1970-01-03&format=csvdata&startPeriod=1970-01-02"
unfolding request_url zero_time
asks_for_a_window = refl

parse_stream-IsObservation_example :
    let (records, e) = parse_stream Sample split_line 100 body in
    All IsObservation records
    × (e ≡ none
        → (length body.bytes ≤ 100)
          × (body.failure ≡ none)
          × (parse_lines Sample split_line none (scan max_line_bytes body.bytes)
              ≡ (records, false)))
parse_stream-IsObservation_example = parse_stream-IsObservation Sample split_line 100 body

parse_stream-accepted_example :
    All
      (λ r.
        (is_valid_record r ≡ not (is_excluded r.quote))
        × (row_fits (rate_row (record r { provider = codes "ECB" })) ≡ true))
      (parse_stream Sample split_line 100 body).0
parse_stream-accepted_example =
    parse_stream-accepted Sample split_line 100 body (codes "ECB") (omega arith)
