-- ===== src/FxValidate/Report.antt =====
-- A report of `main` of cmd/fx-validate: the rows fetched, their results, the text and the summary.
use fx_rates.Prelude.{Option, none, some, ◌≡◌, refl, Text, List, [], ◌∷◌, length, map, arith, ℕ}
use fx_rates.Float64.{Float64}
use fx_rates.Errors.{Error, Result, ok, err}
use fx_rates.Validator.{DbRecord, Comparison, Summary}
use fx_rates.Validator.Client.{new_client}
use fx_rates.Validator.Run.{Outcome, collect_symbols}
use fx_rates.Validator.Run.Tallies.{IsTallied, IsCounted, validate-IsCounted}
use fx_rates.FxValidate.Path.{output_path}
use fx_rates.FxValidate.Csv.{csv_text, header, row_of}
use fx_rates.FxValidate.Csv.RoundTrip.{read_csv, read_csv-csv_text}
use fx_rates.Config.{Config}
use fx_rates.Database.{Rate}
use fx_rates.FxValidate.{
  Filters, check_flags, fetch_records, on_pool, on_config, on_flags, fx_validate, Outside, reported,
  open_output, after_validate, on_records,
}

module _ {F : Type 0} ⦃fl : Float64 F⦄ (out : Outside F) (target : Option Text) (text : Text)
    (summary : Summary) where
  -- A report of `n` results: the summary counts them, and the text, which the writer took, reads as
  -- the header and their rows.
  abbrev pub IsReport : ℕ → Type 0
  IsReport n =
      (results : List (Comparison F)) × (length results ≡ n)
      × IsTallied results summary
      × (read_csv text ≡ header ∷ map row_of results)
      × (out.write target text ≡ none)

  open_output_reported :
      (results : List (Comparison F)) (s : Summary) (p : Result (Option Text))
      → open_output out results s p ≡ reported target text summary
      → (s ≡ summary) × (csv_text results ≡ text) × (out.write target text ≡ none)
  open_output_reported results s p h = ground arith

  after_validate-IsReport :
      (output : Text) (n : ℕ) (r : Outcome F)
      → IsCounted n r
      → after_validate out output r ≡ reported target text summary
      → IsReport n
  after_validate-IsReport output n (err e, s, c) counted h = cc
  after_validate-IsReport output n (ok results, s, c) counted h =
      let (es, et, taken) = open_output_reported results s (output_path output) h in
      (results, counted.0, rw (← es) (counted.1), rw (← et) (read_csv-csv_text results), taken)

  on_records-IsReport :
      (output : Text) (r : Result (List (DbRecord F)))
      → on_records out output r ≡ reported target text summary
      → (records : List (DbRecord F)) × (r ≡ ok records) × IsReport (length records)
  on_records-IsReport output (err e) h = cc
  on_records-IsReport output (ok []) h = cc
  on_records-IsReport output (ok (r ∷ records)) h = (
    r ∷ records,
    refl,
    after_validate-IsReport output (length (r ∷ records)) _
        (validate-IsCounted out.service (r ∷ records) (new_client (collect_symbols (r ∷ records))))
        h,
  )

  -- The rows that a run reports on.
  abbrev pub IsReportOn : Filters → List (Rate F) → Type 0
  IsReportOn cfg rates =
      (records : List (DbRecord F)) × (fetch_records out.cast cfg rates ≡ ok records)
      × IsReport (length records)

  on_pool-IsReportOn :
      (cfg : Filters) (rates : List (Rate F)) (e : Option Error)
      → on_pool out cfg rates e ≡ reported target text summary
      → IsReportOn cfg rates
  on_pool-IsReportOn cfg rates (some e) h = cc
  on_pool-IsReportOn cfg rates none h =
      on_records-IsReport cfg.output (fetch_records out.cast cfg rates) h

  on_config-IsReportOn :
      (cfg : Filters) (rates : List (Rate F)) (r : Result Config)
      → on_config out cfg rates r ≡ reported target text summary
      → IsReportOn cfg rates
  on_config-IsReportOn cfg rates (err e) h = cc
  on_config-IsReportOn cfg rates (ok app) h = on_pool-IsReportOn cfg rates (out.connect app) h

  on_flags-IsReportOn :
      (rates : List (Rate F)) (r : Result Filters)
      → on_flags out rates r ≡ reported target text summary
      → (cfg : Filters) × (r ≡ ok cfg) × IsReportOn cfg rates
  on_flags-IsReportOn rates (err e) h = cc
  on_flags-IsReportOn rates (ok cfg) h =
      (cfg, refl, on_config-IsReportOn cfg rates (out.bootstrap cfg.env_file) h)

  -- Where a run reports, its flags passed the checks and the rows were fetched; there is one result
  -- for each row, the summary counts the results by their status, and the text that the writer took
  -- reads, as comma-separated records, as the header and the row of each result.
  pub fx_validate-IsReportOn :
      (given : Filters) (rates : List (Rate F))
      → fx_validate out given rates ≡ reported target text summary
      → (cfg : Filters) × (check_flags given ≡ ok cfg) × IsReportOn cfg rates
  unfolding fx_validate
  fx_validate-IsReportOn given rates h = on_flags-IsReportOn rates (check_flags given) h
