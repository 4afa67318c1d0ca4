-- ===== src/Ecb.antt =====
-- internal/provider/adapters/ecb.go: the adapter of the European Central Bank. The reader of one CSV
-- line (`encoding/csv` with LazyQuotes) and the HTTP client are parameters.
pub mod Examples
pub mod Sound
use fx_rates.Prelude.{
  ◌-◌, ◌*◌, ℕ, zero, suc, ◌+◌, ◌^◌, Bool, true, false, not, ◌&&◌, ◌||◌, Text, codes, List, [], ◌∷◌,
  ◌++◌, Option, none, some, length, take, leb, ltb, ◌==◌, text_eq, if◌then◌else◌,
}
use fx_rates.Clock.{Time, is_zero}
use fx_rates.Clock.Civil.{format_date, parse_date}
use fx_rates.Number.{decimal, atoi, ℤ, pos, negsuc}
use fx_rates.Scanner.{Scanned, line, too_long, scan}
use fx_rates.Strings.{trim_space}
use fx_rates.Float64.{Float64}
use fx_rates.Errors.{Error, Result, ok, err, other, http_status}
use fx_rates.Provider.{Record}

-- `defaultECBMaxResponseBytes`
abbrev pub default_max_response_bytes : ℕ
default_max_response_bytes = 10 * 1024 * 1024

-- `maxECBLineBytes`
abbrev pub max_line_bytes : ℕ
max_line_bytes = 2 ^ 20

abbrev cap_of : Option ℤ → ℕ
cap_of none = default_max_response_bytes
cap_of (some (negsuc n)) = default_max_response_bytes
cap_of (some (pos zero)) = default_max_response_bytes
cap_of (some (pos (suc n))) = if ltb (suc n) (2 ^ 63) then suc n else default_max_response_bytes

-- `ecbResponseCap`, of the value of ECB_MAX_RESPONSE_BYTES; a number beyond 64 bits is no number.
unfoldable pub response_cap : Text → ℕ
unfolding atoi
response_cap v = cap_of (atoi v)

-- `idx` of `ecbParseRow`: the field below the first header of the name that the row reaches.
unfoldable pub field : List Text → List Text → Text → Text
field [] row name = []
field (h ∷ headers) [] name = []
field (h ∷ headers) (v ∷ row) name =
    let rest = field headers row name in if text_eq h name then v else rest

module _ {F : Type 0} ⦃fl : Float64 F⦄ where
  abbrev pub is_usable_rate : F → Bool
  is_usable_rate rate = not (fl.le rate fl.nought || fl.is_nan rate || fl.is_inf rate)

  abbrev dated_record : Text → F → Option Time → Option (Record F)
  dated_record quote rate none = none
  dated_record quote rate (some d) =
      some (record { date = d; base = codes "EUR"; quote = quote; rate = rate; provider = [] })

  abbrev rated_record : Text → Text → Option F → Option (Record F)
  rated_record quote date none = none
  rated_record quote date (some rate) =
      if is_usable_rate rate then dated_record quote rate (parse_date date) else none

module _ (F : Type 0) ⦃fl : Float64 F⦄ where
  -- `ecbParseRow`
  unfoldable pub parse_row : List Text → List Text → Option (Record F)
  unfolding field
  parse_row headers row =
      let quote = field headers row (codes "CURRENCY") in
      let value = field headers row (codes "OBS_VALUE") in
      if not (text_eq (field headers row (codes "FREQ")) (codes "D"))
      then none
      else if not (length quote == 3)
      then none
      else if text_eq value []
      then none
      else rated_record quote (field headers row (codes "TIME_PERIOD")) (fl.parse value)

-- The greatest `int`.
abbrev pub max_int : ℕ
max_int = 2 ^ 63 - 1

-- A response body: the bytes that can be read, and the error that ends them if it is not EOF.
pub record Body : Type 0 where
  pub bytes : Text
  pub failure : Option Error

module _ (F : Type 0) ⦃fl : Float64 F⦄ where
  -- A row that the reader has refused is skipped.
  abbrev pub row_record : List Text → Option (List Text) → Option (Record F)
  row_record headers none = none
  row_record headers (some row) = parse_row F headers row

abbrev pub keep_record :
    {F : Type 0} → Option (Record F) → List (Record F) × Bool → List (Record F) × Bool
keep_record none parsed = parsed
keep_record (some r) (records, long) = (r ∷ records, long)

module _ (F : Type 0) ⦃fl : Float64 F⦄ (read_csv : Text → Option (List Text)) where
  -- The loop of `parseECBStream`: the records and whether a line was too long.
  unfoldable pub parse_lines : Option (List Text) → List Scanned → List (Record F) × Bool
  parse_lines headers [] = ([], false)
  parse_lines headers (too_long ∷ lines) = ([], true)
  parse_lines none (line l ∷ lines) = parse_lines (read_csv l) lines
  parse_lines (some headers) (line l ∷ lines) =
      keep_record (row_record F headers (read_csv l)) (parse_lines (some headers) lines)

  -- `parseECBStream`: the records and the error; both may be there. One byte more than the cap is
  -- read, and the body's own error is met only within the cap. At the greatest cap `int64(maxBytes)
  -- + 1` wraps to a negative number, so nothing is read and every response exceeds it.
  unfoldable pub parse_stream : ℕ → Body → List (Record F) × Option Error
  unfolding parse_lines scan
  parse_stream cap body =
      let read = if cap == max_int then [] else take (cap + 1) body.bytes in
      let (records, long) = parse_lines none (scan max_line_bytes read) in
      let whole = not (cap == max_int) && leb (length body.bytes) cap in
      if long
      then (records, some (other (codes "bufio.Scanner: token too long")))
      else if whole
      then (records, body.failure)
      else ([], some (other (codes "ECB response exceeded " ++ (decimal cap ++ codes " bytes"))))

-- `http.Response`
pub record Response : Type 0 where
  pub status : ℕ
  pub body : Body

-- The address of a request; `params.Encode()` puts the names in order.
unfoldable pub request_url : Time → Time → Text
unfolding format_date
request_url after upto =
    let format = codes "format=csvdata" in
    let ending =
      if is_zero upto
      then format
      else codes "endPeriod=" ++ (format_date upto ++ (codes "&" ++ format)) in
    codes "https://data-api.ecb.europa.eu/service/data/EXR/D..EUR.SP00.A?"
    ++ (if is_zero after then ending else ending ++ (codes "&startPeriod=" ++ format_date after))

module _ (F : Type 0) ⦃fl : Float64 F⦄ (read_csv : Text → Option (List Text)) where
  -- `Fetch` from the answer of the client.
  unfoldable pub on_response : ℕ → Result Response → List (Record F) × Option Error
  unfolding parse_stream trim_space
  on_response cap (err e) = ([], some e)
  on_response cap (ok response) =
      if not (response.status == 200)
      then ([], some (http_status response.status (trim_space (take 512 response.body.bytes))))
      else parse_stream F read_csv cap response.body

  -- `Fetch`
  unfoldable pub fetch : (Text → Result Response) → ℕ → Time → Time → List (Record F) × Option Error
  unfolding on_response request_url
  fetch get cap after upto = on_response cap (get (request_url after upto))
