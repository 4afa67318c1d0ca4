-- ===== src/Scheduler/Batch/Events.antt =====
-- `processBatch`, the requests of the adapter and the count of fetched records.
use fx_rates.Prelude.{
  ◌≡◌, refl, ap, ◌∙◌, ℕ, ◌+◌, Text, List, [], ◌∷◌, Bool-cases, inl, inr, ltb, length, arith,
}
use fx_rates.Float64.{Float64}
use fx_rates.Errors.{Result, ok, err}
use fx_rates.Clock.{Time}
use fx_rates.Provider.{Record}
use fx_rates.World.{World, Oracles}
use fx_rates.Repo.Frame.{Kept, upsert_currency_summary-kept}
use fx_rates.Scheduler.Batch.{
  filter_valid_records, after_upsert, store_valid, process_batch, unique_currencies,
}
use fx_rates.Scheduler.Batch.Store.{IsAtomic, bulk_upsert_rates-IsAtomic}

module _ {F : Type 0} (o : Oracles F) where
  -- The answered requests and the number of records that the batches were called with.
  abbrev pub book : World F → List (Time × Time × ℕ) × ℕ
  book w = (w.requests, w.progress.fetched)

  book-same :
      (w w' : World F)
      → w'.requests ≡ w.requests
      → w'.progress.fetched ≡ w.progress.fetched
      → book w' ≡ book w
  book-same w w' r f = rw (r, f) refl

  after_upsert-book :
      (key : Text) (valid : List (Record F)) (w : World F) (r : Result ℕ × World F)
      → IsAtomic valid w r
      → book (after_upsert o key valid r).1 ≡ book w
  unfolding after_upsert
  after_upsert-book key valid w (err e, w') (d, rest) =
      book-same w w' rest.4 (ap (λ p. p.fetched) rest.0)
  after_upsert-book key valid w (ok n, w') (d, en, rest) = elim (Bool-cases (ltb 0 n)) [
    | inl some_new ↦
        let kept = upsert_currency_summary-kept o key (unique_currencies valid) _ in
        rw some_new (
          ap (λ (v : Kept F). (v.7, v.3.fetched)) kept
          ∙ book-same w w' rest.4 (ap (λ p. p.fetched) rest.0))
    | inr none_new ↦ rw none_new (book-same w w' rest.4 (ap (λ p. p.fetched) rest.0))
  ]

  store_valid-book :
      (key : Text) (valid : List (Record F)) (w : World F)
      → book (store_valid o key valid w).1 ≡ book w
  unfolding store_valid
  store_valid-book key [] w = refl
  store_valid-book key (r ∷ valid) w =
      after_upsert-book key (r ∷ valid) w _ (bulk_upsert_rates-IsAtomic o (r ∷ valid) w)

  -- On every path a batch counts the records that it was called with, and asks for nothing.
  pub process_batch-book :
      ⦃fl : Float64 F⦄ (key : Text) (records : List (Record F)) (w : World F)
      → book (process_batch o key records w).1 ≡ (w.requests, w.progress.fetched + length records)
  unfolding process_batch
  process_batch-book key [] w = ap (λ n. (w.requests, n)) (omega arith)
  process_batch-book key (r ∷ records) w =
      store_valid-book key (filter_valid_records (r ∷ records) key).0 _
