-- ===== src/Scheduler/Batch/Served.antt =====
-- `processBatch` where no statement fails and the records fit their columns.
use fx_rates.Prelude.{
  ℕ, ◌+◌, ◌≤◌, ◌≡◌, refl, false, not, List, [], ◌∷◌, none, length, All, arith, Text, map, exists,
}
use fx_rates.Float64.{Float64}
use fx_rates.Errors.{Result, ok, err}
use fx_rates.Provider.{Record}
use fx_rates.World.{World, Oracles}
use fx_rates.Scheduler.Batch.{
  rate_row, row_fits, bulk_upsert_rates, after_upsert, store_valid, process_batch,
}
use fx_rates.Scheduler.Batch.Filter.{stamped, filter_valid_records_lem}

-- The codes of the record fit their columns.
abbrev pub Fits : {F : Type 0} → Record F → Type 0
Fits r = (length r.base ≤ 3) × (length r.quote ≤ 3)

module _ {F : Type 0} ⦃fl : Float64 F⦄ where
  stamped-Fits :
      (key : Text) (records : List (Record F))
      → length key ≤ 10
      → All Fits records
      → exists (λ r. not (row_fits r)) (map rate_row (stamped key records)) ≡ false
  stamped-Fits key [] k h = refl
  stamped-Fits key (r ∷ records) k h = ground (arith, stamped-Fits key records k h.1)

module _ {F : Type 0} (o : Oracles F) (served : (n : ℕ) → o.fault n ≡ none) where
  abbrev IsOk : {A : Type 0} → Result A → Type 0
  IsOk (ok a) = Unit
  IsOk (err e) = ⊥

  bulk_upsert_rates-IsOk :
      (records : List (Record F)) (w : World F)
      → exists (λ r. not (row_fits r)) (map rate_row records) ≡ false
      → IsOk (bulk_upsert_rates o records w).0
  unfolding bulk_upsert_rates fx_rates.World.statement
  bulk_upsert_rates-IsOk [] w fit = tt
  bulk_upsert_rates-IsOk (r ∷ records) w fit = ground (
    arith,
    served w.tick,
    served (w.tick + 1),
    served (w.tick + 1 + 1),
    served (w.tick + 1 + 1 + 1),
    served (w.tick + 1 + 1 + 1 + 1),
  )

  after_upsert-none :
      (key : Text) (valid : List (Record F)) (r : Result ℕ × World F)
      → IsOk r.0
      → (after_upsert o key valid r).0 ≡ none
  unfolding after_upsert
  after_upsert-none key valid (ok n, w) k = ground arith
  after_upsert-none key valid (err e, w) k = absurd k

  store_valid-none :
      (key : Text) (valid : List (Record F)) (w : World F)
      → exists (λ r. not (row_fits r)) (map rate_row valid) ≡ false
      → (store_valid o key valid w).0 ≡ none
  unfolding store_valid
  store_valid-none key [] w fit = refl
  store_valid-none key (r ∷ valid) w fit =
      after_upsert-none key (r ∷ valid) _ (bulk_upsert_rates-IsOk (r ∷ valid) w fit)

  pub process_batch-none :
      ⦃fl : Float64 F⦄ (key : Text) (records : List (Record F)) (w : World F)
      → length key ≤ 10
      → All Fits records
      → (process_batch o key records w).0 ≡ none
  unfolding process_batch
  process_batch-none key [] w k fits = refl
  process_batch-none key (r ∷ records) w k fits =
      let valid_eq = (filter_valid_records_lem (r ∷ records) key).0 in
      store_valid-none key _ _ (rw valid_eq (stamped-Fits key (r ∷ records) k fits))
