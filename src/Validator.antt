-- ===== src/Validator.antt =====
-- internal/validator/validator.go: the stored rates against those of the reference service. The HTTP
-- client and the JSON decoder are an oracle. Codes are ASCII.
pub mod Client
pub mod Examples
pub mod Run
use fx_rates.Prelude.{
  ℕ, Bool, ◌&&◌, Text, codes, List, [], ◌∷◌, ◌++◌, Option, none, some, text_eq, if◌then◌else◌,
}
use fx_rates.Clock.{Time}
use fx_rates.Float64.{Float64}

-- `DBRecord`
pub record DbRecord (F : Type 0) : Type 0 where
  pub date : Time
  pub base : Text
  pub quote : Text
  pub rate : F
  pub provider : Text

-- `statusOK` and so on
pub data Status : Type 0 where
  ok_status warning invalid missing : Status

-- `Result`
pub record Comparison (F : Type 0) : Type 0 where
  pub date : Text
  pub base : Text
  pub quote : Text
  pub db_rate : F
  pub online_rate : Option F
  pub absolute_diff : Option F
  pub relative_diff_pct : Option F
  pub status : Status
  pub notes : Text

-- `Summary`
pub record Summary : Type 0 where
  pub total : ℕ
  pub ok_count : ℕ
  pub warning_count : ℕ
  pub invalid_count : ℕ
  pub missing_count : ℕ

-- `referenceSnapshot`; the rates are a map, of which the first entry of a code counts.
pub record Snapshot (F : Type 0) : Type 0 where
  pub effective_date : Text
  pub rates : List (Text × F)

abbrev pub get_rate : {F : Type 0} → Text → List (Text × F) → Option F
get_rate code [] = none
get_rate code ((c, rate) ∷ rates) = if text_eq c code then some rate else get_rate code rates

abbrev pub euro : Text
euro = codes "EUR"

module _ {F : Type 0} ⦃fl : Float64 F⦄ where
  abbrev divide : F → Option F → Option F
  divide x none = none
  divide x (some rate) = if fl.eq rate fl.nought then none else some (fl.div x rate)

  abbrev divide_rates : Option F → Option F → Option F
  divide_rates none base_rate = none
  divide_rates (some quote_rate) base_rate = divide quote_rate base_rate

  -- `crossRate`
  unfoldable pub cross_rate : List (Text × F) → Text → Text → Option F
  cross_rate rates base quote =
      if text_eq base euro
      then get_rate quote rates
      else if text_eq quote euro
      then divide fl.one (get_rate base rates)
      else divide_rates (get_rate quote rates) (get_rate base rates)

  -- `classify`
  unfoldable pub classify : F → Status
  classify pct =
      if fl.le pct fl.tenth then ok_status else if fl.le pct fl.one then warning else invalid

-- `noteFor`
unfoldable pub note_for : Text → Text → Text → Text
note_for requested effective source =
    if text_eq effective []
    then source
    else if text_eq effective requested
    then source
    else if text_eq source []
    then codes "used previous business day " ++ effective
    else source ++ (codes "; used previous business day " ++ effective)
