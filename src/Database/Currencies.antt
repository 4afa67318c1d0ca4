-- ===== src/Database/Currencies.antt =====
-- UpsertCurrency and UpsertCurrencyCoverage.
use fx_rates.Prelude.{Bool, ◌&&◌, List, [], ◌∷◌, text_eq, if◌then◌else◌}
use fx_rates.Database.{Currency, CurrencyCoverage}
use fx_rates.Database.Dates.{least, greatest}

-- `INSERT INTO currencies … ON CONFLICT (iso_code) DO UPDATE SET start_date = LEAST(…), …`
unfoldable pub upsert_currency : Currency → List Currency → List Currency
upsert_currency c [] = c ∷ []
upsert_currency c (d ∷ ds) =
    if text_eq c.iso_code d.iso_code
    then record d {
      start_date = least d.start_date c.start_date;
      end_date = greatest d.end_date c.end_date;
    }
      ∷ ds
    else d ∷ upsert_currency c ds

abbrev pub same_coverage : CurrencyCoverage → CurrencyCoverage → Bool
same_coverage c d = text_eq c.provider_key d.provider_key && text_eq c.iso_code d.iso_code

-- `INSERT INTO currency_coverages … ON CONFLICT (provider_key, iso_code) DO UPDATE SET …`
unfoldable pub upsert_currency_coverage :
    CurrencyCoverage → List CurrencyCoverage → List CurrencyCoverage
upsert_currency_coverage c [] = c ∷ []
upsert_currency_coverage c (d ∷ ds) =
    if same_coverage c d
    then record d {
      start_date = least d.start_date c.start_date;
      end_date = greatest d.end_date c.end_date;
    }
      ∷ ds
    else d ∷ upsert_currency_coverage c ds
