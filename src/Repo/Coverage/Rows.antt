-- ===== src/Repo/Coverage/Rows.antt =====
-- The rows of `currency_coverages` and of `currencies`, and their upserts.
use fx_rates.Prelude.{
  ◌≡◌, ◌≤◌, ◌⊎◌, refl, true, Text, List, [], ◌∷◌, Bool-cases, inl, inr, text_eq, text_eq_iff, arith,
}
use fx_rates.Clock.{Time}
use fx_rates.Sorting.Order.{Contains}
use fx_rates.Database.{Currency, CurrencyCoverage}
use fx_rates.Database.Dates.{Date, minimum, maximum, least, greatest, time_to_date}
use fx_rates.Database.Currencies.{upsert_currency_coverage, upsert_currency, same_coverage}

-- The day lies between two dates that are not NULL.
abbrev pub Within : Time → Date → Date → Type 0
Within t first last =
    (first.valid ≡ true) × (first.time ≤ t) × (last.valid ≡ true) × (t ≤ last.time)

-- A row of the provider and the code covers the day.
abbrev pub IsCovered : Text → Text → Time → List CurrencyCoverage → Type 0
IsCovered key code t [] = ⊥
IsCovered key code t (c ∷ cs) =
    ((c.provider_key ≡ key) × (c.iso_code ≡ code) × Within t c.start_date c.end_date)
    ⊎ IsCovered key code t cs

Within-wider :
    (t : Time) (first last first' last' : Date)
    → Within t first last
    → Within t (least first first') (greatest last last')
Within-wider t first last first' last' h = ground arith

Within-joined :
    (t : Time) (first last first' last' : Date)
    → Within t first last
    → Within t (least first' first) (greatest last' last)
Within-joined t first last first' last' h = ground arith

-- An upsert narrows no row.
pub IsCovered-upsert :
    (key code : Text) (t : Time) (c : CurrencyCoverage) (cs : List CurrencyCoverage)
    → IsCovered key code t cs
    → IsCovered key code t (upsert_currency_coverage c cs)
unfolding upsert_currency_coverage
IsCovered-upsert key code t c [] h = absurd h
IsCovered-upsert key code t c (d ∷ ds) (inl (k, i, w)) = elim (Bool-cases (same_coverage c d)) [
  | inl same ↦
      rw same (inl (k, i, Within-wider t d.start_date d.end_date c.start_date c.end_date w))
  | inr other ↦ rw other (inl (k, i, w))
]
IsCovered-upsert key code t c (d ∷ ds) (inr h) = elim (Bool-cases (same_coverage c d)) [
  | inl same ↦ rw same (inr h)
  | inr other ↦ rw other (inr (IsCovered-upsert key code t c ds h))
]

-- A day within the dates of a row is covered after its upsert.
pub upsert-IsCovered :
    (t : Time) (c : CurrencyCoverage) (cs : List CurrencyCoverage)
    → Within t c.start_date c.end_date
    → IsCovered c.provider_key c.iso_code t (upsert_currency_coverage c cs)
unfolding upsert_currency_coverage
upsert-IsCovered t c [] w = inl (refl, refl, w)
upsert-IsCovered t c (d ∷ ds) w = elim (Bool-cases (same_coverage c d)) [
  | inl same ↦
      let key : d.provider_key ≡ c.provider_key =
        ground (arith, text_eq_iff c.provider_key d.provider_key) in
      let code : d.iso_code ≡ c.iso_code = ground (arith, text_eq_iff c.iso_code d.iso_code) in
      rw same (inl (key, code, Within-joined t c.start_date c.end_date d.start_date d.end_date w))
  | inr other ↦ rw other (inr (upsert-IsCovered t c ds w))
]

-- A row of the currency covers the day.
abbrev pub IsListed : Text → Time → List Currency → Type 0
IsListed code t [] = ⊥
IsListed code t (c ∷ cs) =
    ((c.iso_code ≡ code) × Within t c.start_date c.end_date) ⊎ IsListed code t cs

pub IsListed-upsert :
    (code : Text) (t : Time) (c : Currency) (cs : List Currency)
    → IsListed code t cs
    → IsListed code t (upsert_currency c cs)
unfolding upsert_currency
IsListed-upsert code t c [] h = absurd h
IsListed-upsert code t c (d ∷ ds) (inl (i, w)) = elim (Bool-cases (text_eq c.iso_code d.iso_code)) [
  | inl same ↦ rw same (inl (i, Within-wider t d.start_date d.end_date c.start_date c.end_date w))
  | inr other ↦ rw other (inl (i, w))
]
IsListed-upsert code t c (d ∷ ds) (inr h) = elim (Bool-cases (text_eq c.iso_code d.iso_code)) [
  | inl same ↦ rw same (inr h)
  | inr other ↦ rw other (inr (IsListed-upsert code t c ds h))
]

pub upsert-IsListed :
    (t : Time) (c : Currency) (cs : List Currency)
    → Within t c.start_date c.end_date
    → IsListed c.iso_code t (upsert_currency c cs)
unfolding upsert_currency
upsert-IsListed t c [] w = inl (refl, w)
upsert-IsListed t c (d ∷ ds) w = elim (Bool-cases (text_eq c.iso_code d.iso_code)) [
  | inl same ↦
      let code : d.iso_code ≡ c.iso_code = ground (arith, text_eq_iff c.iso_code d.iso_code) in
      rw same (inl (code, Within-joined t c.start_date c.end_date d.start_date d.end_date w))
  | inr other ↦ rw other (inr (upsert-IsListed t c ds w))
]

-- The minimum and the maximum of some dates.
pub Within-extremes :
    (t : Time) (ts : List Time) → Contains t ts → Within t (minimum ts) (maximum ts)
Within-extremes t [] h = absurd h
Within-extremes t (u ∷ ts) (inl e) =
    let one : Within t (time_to_date u) (time_to_date u) = ground arith in
    Within-wider t (time_to_date u) (time_to_date u) (minimum ts) (maximum ts) one
Within-extremes t (u ∷ ts) (inr h) =
    Within-joined t (minimum ts) (maximum ts) (time_to_date u) (time_to_date u)
      (Within-extremes t ts h)
