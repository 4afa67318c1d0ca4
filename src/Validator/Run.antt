-- ===== src/Validator/Run.antt =====
-- `validateOne` and `Validate`.
pub mod Tallies
pub mod Verdict
pub mod Cache
use fx_rates.Prelude.{ℕ, ◌+◌, Bool, Text, List, [], ◌∷◌, ◌++◌, Option, none, some, if◌then◌else◌}
use fx_rates.Clock.Civil.{format_date}
use fx_rates.Float64.{Float64}
use fx_rates.Errors.{Error, Result, ok, err}
use fx_rates.Validator.{
  DbRecord, Comparison, Summary, Status, ok_status, warning, invalid, missing, classify, note_for,
}
use fx_rates.Validator.Client.{Client, Service, Found, lookup_rate}

module _ {F : Type 0} ⦃fl : Float64 F⦄ where
  -- The percentage by which the stored rate is off, of a reference that is not zero.
  abbrev pub relative_diff : F → F → F
  relative_diff diff rate =
      if fl.eq rate fl.nought then fl.nought else fl.mul (fl.div diff rate) fl.hundred

  abbrev missing_result : DbRecord F → Text → Comparison F
  missing_result r notes = record {
    date = format_date r.date;
    base = r.base;
    quote = r.quote;
    db_rate = r.rate;
    online_rate = none;
    absolute_diff = none;
    relative_diff_pct = none;
    status = missing;
    notes = notes;
  }

  -- From the reference that was found on.
  unfoldable pub compare_with : DbRecord F → Text → Text → Option F → Comparison F
  unfolding classify note_for
  compare_with r effective note none = missing_result r note
  compare_with r effective note (some rate) =
      let diff = fl.abs (fl.sub r.rate rate) in
      let pct = relative_diff diff rate in
      record (missing_result r (note_for (format_date r.date) effective note)) {
        online_rate = some rate;
        absolute_diff = some diff;
        relative_diff_pct = some pct;
        status = classify pct;
      }

  abbrev on_found : DbRecord F → Result (Found F) × Client F → Result (Comparison F) × Client F
  on_found r (err e, c) = (err e, c)
  on_found r (ok f, c) = (ok (compare_with r f.effective_date f.note f.rate), c)

  -- `validateOne`
  unfoldable pub validate_one : Service F → DbRecord F → Client F → Result (Comparison F) × Client F
  validate_one service r c = on_found r (lookup_rate service r.date r.base r.quote c)

abbrev pub count_status : Status → Summary → Summary
count_status ok_status s = record s { total = s.total + 1; ok_count = s.ok_count + 1 }
count_status warning s = record s { total = s.total + 1; warning_count = s.warning_count + 1 }
count_status invalid s = record s { total = s.total + 1; invalid_count = s.invalid_count + 1 }
count_status missing s = record s { total = s.total + 1; missing_count = s.missing_count + 1 }

abbrev pub no_summary : Summary
no_summary = record {
  total = 0;
  ok_count = 0;
  warning_count = 0;
  invalid_count = 0;
  missing_count = 0;
}

-- What `Validate` returns: the results, none for an error, and the summary so far.
abbrev pub Outcome : Type 0 → Type 0
Outcome F = Result (List (Comparison F)) × Summary × Client F

module _ {F : Type 0} ⦃fl : Float64 F⦄ (service : Service F) where
  abbrev pub after_one :
      (List (Comparison F) → Summary → Client F → Outcome F)
      → List (Comparison F)
      → Summary
      → Result (Comparison F) × Client F
      → Outcome F
  after_one next results s (err e, c) = (err e, s, c)
  after_one next results s (ok r, c) = next (results ++ r ∷ []) (count_status r.status s) c

  validate_from : List (DbRecord F) → List (Comparison F) → Summary → Client F → Outcome F
  unfolding validate_one
  validate_from [] results s c = (ok results, s, c)
  validate_from (r ∷ records) results s c =
      after_one (validate_from records) results s (validate_one service r c)

  -- `Validate`
  unfoldable pub validate : List (DbRecord F) → Client F → Outcome F
  unfolding validate_from
  validate records = validate_from records [] no_summary

abbrev pub collect_symbols : {F : Type 0} → List (DbRecord F) → List Text
collect_symbols [] = []
collect_symbols (r ∷ records) = r.base ∷ r.quote ∷ collect_symbols records
