-- ===== src/Examples/Parts.antt =====
-- The filter, the summaries and the choice of the start on the sample data.
use fx_rates.Prelude.{
  refl, inl, inr, ◌+◌, ◌*◌, ◌≡◌, ◌≤◌, true, Text, codes, [], ◌∷◌, none, some, arith, ◌↔◌, ◌≢◌,
}
use fx_rates.Clock.{day, zero_time}
use fx_rates.Number.{pos}
use fx_rates.Float64.{samples}
use fx_rates.Errors.{ok}
use fx_rates.Repo.{upsert_currency_summary}
use fx_rates.Repo.Coverage.{IsSummarized, upsert_currency_summary-IsSummarized}
use fx_rates.Scheduler.{Status}
use fx_rates.Scheduler.Start.{adjust_start_for_mode, adjust_start_floor}
use fx_rates.Scheduler.Batch.{filter_valid_records, unique_currencies}
use fx_rates.Scheduler.Batch.Filter.{stamped, IsLatest, filter_valid_records_lem}
use fx_rates.Scheduler.Batch.Unique.{IsNodup, has_code, mentions, unique_currencies_lem}
use fx_rates.Scheduler.Entry.{after_backfill}
use fx_rates.Scheduler.Entry.Exit.{IsAudited, after_backfill-exit}
use fx_rates.Examples.{
  usd_row, today, first_day, usd, xdr, oracles, world, options, up_to_date_result,
}

filter_valid_records_lem_example :
    let (valid, max_seen) = filter_valid_records (xdr ∷ usd ∷ []) (codes "ECB") in
    (valid ≡ stamped (codes "ECB") (xdr ∷ usd ∷ [])) × IsLatest valid max_seen
filter_valid_records_lem_example = filter_valid_records_lem (xdr ∷ usd ∷ []) (codes "ECB")

unique_currencies_lem_example :
    IsNodup (unique_currencies (usd ∷ xdr ∷ []))
    × ((c : Text) → has_code c (unique_currencies (usd ∷ xdr ∷ [])) ≡ mentions c (usd ∷ xdr ∷ []))
unique_currencies_lem_example = unique_currencies_lem (usd ∷ xdr ∷ [])

summary_succeeds :
    (upsert_currency_summary oracles (codes "ECB") (codes "EUR" ∷ codes "USD" ∷ []) world).0 ≡ ok tt
unfolding upsert_currency_summary fx_rates.World.query
    fx_rates.Database.Rates.get_currency_date_range fx_rates.Prelude.text_eq
summary_succeeds = refl

upsert_currency_summary-IsSummarized_example :
    IsSummarized
      (codes "ECB")
      (codes "USD")
      first_day
      (upsert_currency_summary oracles (codes "ECB") (codes "EUR" ∷ codes "USD" ∷ []) world).1
upsert_currency_summary-IsSummarized_example =
    upsert_currency_summary-IsSummarized oracles (λ n. refl) (codes "ECB") (codes "USD")
      (codes "EUR" ∷ codes "USD" ∷ []) world usd_row summary_succeeds (inr (inl refl)) (inl refl)
      (refl, inl refl)

adjust_start_floor_example :
    let start' = (adjust_start_for_mode first_day today true (pos 3)).0 in
    (today ≤ start' + 3 * day)
    × (first_day ≢ zero_time → first_day ≤ start')
    × (first_day ≢ zero_time → today ≤ first_day + 3 * day → start' ≡ first_day)
adjust_start_floor_example = adjust_start_floor first_day today 2 (omega arith)

after_backfill-exit_example :
    let (e, w) = after_backfill oracles options (codes "ECB") today (up_to_date_result, world) in
    ((e ≡ none) ↔ (
      (oracles.ctx_err (world.tick + 1) ≡ none) × (up_to_date_result.status ≢ some Status.error)))
    × (oracles.fault world.tick ≡ none → IsAudited up_to_date_result today world w)
    × (oracles.fault world.tick ≢ none → w.db ≡ world.db)
after_backfill-exit_example =
    after_backfill-exit oracles options (codes "ECB") today up_to_date_result world tt
