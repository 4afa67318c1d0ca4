-- ===== src/Scheduler/Batch/Store.antt =====
-- `bulkUpsertRates` and its transaction.
use fx_rates.Prelude.{ℕ, ◌≡◌, refl, ap, List, [], ◌∷◌, ◌++◌, map, arith, length, append-nil, sym}
use fx_rates.Errors.{Result, ok, err}
use fx_rates.Provider.{Record}
use fx_rates.Database.{Rate}
use fx_rates.Database.Rates.Upsert.{new_rows, insert_staged-eq-new_rows}
use fx_rates.World.{World, Oracles}
use fx_rates.Scheduler.Batch.{rate_row, bulk_upsert_rates}

module _ {F : Type 0} where
  -- Only the clock of the world moved, and the tables.
  abbrev pub SameRest : World F → World F → Type 0
  SameRest w w' =
      (w'.progress ≡ w.progress)
      × (w'.running ≡ w.running)
      × (w'.metrics ≡ w.metrics)
      × (w'.events ≡ w.events)
      × (w'.requests ≡ w.requests)

  -- What a batch adds to the rates.
  abbrev pub added_rows : List (Record F) → World F → List (Rate F)
  added_rows records w = new_rows (map rate_row records) w.db.rates

  -- The transaction has stored the rows that were new and counted them, or has changed no table.
  abbrev pub IsAtomic : List (Record F) → World F → Result ℕ × World F → Type 0
  IsAtomic records w (ok n, w') =
      (w'.db ≡ record (w.db) { rates = w.db.rates ++ added_rows records w })
      × (n ≡ length (added_rows records w))
      × SameRest w w'
  IsAtomic records w (err e, w') = (w'.db ≡ w.db) × SameRest w w'

  module _ (o : Oracles F) where
    -- On every path a batch is stored whole, its new rows counted, or no table changes; nothing
    -- but the tables changes.
    pub bulk_upsert_rates-IsAtomic :
        (records : List (Record F)) (w : World F)
        → IsAtomic records w (bulk_upsert_rates o records w)
    unfolding bulk_upsert_rates
    bulk_upsert_rates-IsAtomic [] w = (
      ap (λ rs. record (w.db) { rates = rs }) (sym (append-nil w.db.rates)),
      refl,
      (refl, refl, refl, refl, refl),
    )
    bulk_upsert_rates-IsAtomic (r ∷ records) w =
        ground (arith, insert_staged-eq-new_rows (map rate_row (r ∷ records)) w.db.rates)
