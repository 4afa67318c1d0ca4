-- ===== src/FxValidate/Csv.antt =====
-- `writeCSV` of cmd/fx-validate/main.go, with the quoting of `encoding/csv`, on ASCII texts.
pub mod RoundTrip
use fx_rates.Prelude.{
  ℕ, false, Bool, ◌||◌, Text, codes, List, [], ◌∷◌, ◌++◌, Option, none, some, exists, map, text_eq,
  ◌==◌, if◌then◌else◌,
}
use fx_rates.Float64.{Float64}
use fx_rates.Strings.{is_space}
use fx_rates.Validator.{Comparison, Status, ok_status, warning, invalid, missing}

abbrev starts_with_space : Text → Bool
starts_with_space [] = false
starts_with_space (c ∷ t) = is_space c

abbrev pub is_special : ℕ → Bool
is_special c = (c == b',') || (c == 34) || (c == 10) || (c == 13)

-- `(*Writer).fieldNeedsQuotes` of a field that is not empty: `\.`, a comma, a quote, a line break, or
-- white space at the start.
abbrev pub needs_quotes : Text → Bool
needs_quotes f = text_eq f (92 ∷ b'.' ∷ []) || exists is_special f || starts_with_space f

-- The bytes between the quotes, each quote doubled.
unfoldable pub doubled : Text → Text
doubled [] = []
doubled (c ∷ t) = let rest = doubled t in if c == 34 then 34 ∷ 34 ∷ rest else c ∷ rest

abbrev pub write_field : Text → Text
write_field f = if needs_quotes f then 34 ∷ (doubled f ++ 34 ∷ []) else f

abbrev pub write_rest : List Text → Text
write_rest [] = 10 ∷ []
write_rest (f ∷ fields) = b',' ∷ (write_field f ++ write_rest fields)

-- `(*Writer).Write`
unfoldable pub write_record : List Text → Text
unfolding doubled
write_record [] = 10 ∷ []
write_record (f ∷ fields) = write_field f ++ write_rest fields

unfoldable pub write_records : List (List Text) → Text
unfolding write_record
write_records [] = []
write_records (r ∷ records) = write_record r ++ write_records records

-- `statusOK` and so on, as they are spelled.
abbrev pub status_cell : Status → Text
status_cell ok_status = codes "OK"
status_cell warning = codes "WARNING"
status_cell invalid = codes "INVALID"
status_cell missing = codes "MISSING"

abbrev pub header : List Text
header =
    codes "date"
    ∷ codes "base"
    ∷ codes "quote"
    ∷ codes "db_rate"
    ∷ codes "online_rate"
    ∷ codes "absolute_diff"
    ∷ codes "relative_diff_pct"
    ∷ codes "status"
    ∷ codes "notes"
    ∷ []

module _ {F : Type 0} ⦃fl : Float64 F⦄ where
  -- `nullableFloatString`
  abbrev pub nullable_float_string : Option F → Text
  nullable_float_string none = []
  nullable_float_string (some x) = fl.format x

  abbrev pub row_of : Comparison F → List Text
  row_of r =
      r.date
      ∷ r.base
      ∷ r.quote
      ∷ fl.format r.db_rate
      ∷ nullable_float_string r.online_rate
      ∷ nullable_float_string r.absolute_diff
      ∷ nullable_float_string r.relative_diff_pct
      ∷ status_cell r.status
      ∷ r.notes
      ∷ []

  -- What `writeCSV` writes where the writer takes it all.
  unfoldable pub csv_text : List (Comparison F) → Text
  unfolding write_records
  csv_text results = write_records (header ∷ map row_of results)
