-- ===== src/Scheduler/Batch/Refine.antt =====
-- `bulkUpsertRates` against its specification on the rates as a map.
use fx_rates.Prelude.{
  ℕ, ◌≡◌, ap, ◌∙◌, List, [], ◌∷◌, map, Option, none, some, true, false, Bool-cases, inl, inr, ◌⊎◌,
  refl,
}
use fx_rates.Errors.{Result, ok, err}
use fx_rates.Provider.{Record}
use fx_rates.Database.{Rate}
use fx_rates.Database.Rates.{same_key}
use fx_rates.Database.Rates.Mapping.{find_rate, or_else, find_rate-new_rows}
use fx_rates.World.{World, Oracles}
use fx_rates.Scheduler.Batch.{rate_row, bulk_upsert_rates}
use fx_rates.Scheduler.Batch.Store.{IsAtomic, bulk_upsert_rates-IsAtomic}

module _ {F : Type 0} where
  -- One of the rows has the key of `q` and the rate.
  abbrev pub Offered : Rate F → F → List (Rate F) → Type 0
  Offered q rate [] = ⊥
  Offered q rate (r ∷ rows) = ((same_key q r ≡ true) × (r.rate ≡ rate)) ⊎ Offered q rate rows

  -- None of the rows has the key of `q`.
  abbrev pub Unoffered : Rate F → List (Rate F) → Type 0
  Unoffered q [] = Unit
  Unoffered q (r ∷ rows) = (same_key q r ≡ false) × Unoffered q rows

  -- What a key without a rate gets from the rows, in whatever order they are inserted.
  abbrev pub IsFilled : Rate F → List (Rate F) → Option F → Type 0
  IsFilled q rows none = Unoffered q rows
  IsFilled q rows (some rate) = Offered q rate rows

  -- What a key that had the first rate, or none, has after the rows.
  abbrev pub IsWritten : Rate F → List (Rate F) → Option F → Option F → Type 0
  IsWritten q rows (some rate) now = now ≡ some rate
  IsWritten q rows none now = IsFilled q rows now

  -- The first write of a key wins: a batch that is stored fills in the keys that had no rate; a batch
  -- that is not stored leaves every rate.
  abbrev pub IsFirstWrite : List (Record F) → World F → Rate F → Result ℕ × World F → Type 0
  IsFirstWrite records w q (ok n, w') =
      IsWritten q (map rate_row records) (find_rate q w.db.rates) (find_rate q w'.db.rates)
  IsFirstWrite records w q (err e, w') = find_rate q w'.db.rates ≡ find_rate q w.db.rates

  find_rate-IsFilled : (q : Rate F) (rows : List (Rate F)) → IsFilled q rows (find_rate q rows)
  find_rate-IsFilled q [] = tt
  find_rate-IsFilled q (r ∷ rows) = elim (Bool-cases (same_key q r)) [
    | inl same ↦ rw same (inl (same, refl))
    | inr other ↦ rw other (further (find_rate q rows) other (find_rate-IsFilled q rows))
  ]
    where
      further : (o : Option F) → same_key q r ≡ false → IsFilled q rows o → IsFilled q (r ∷ rows) o
      further none other h = (other, h)
      further (some rate) other h = inr h

  or_else-IsWritten :
      (q : Rate F) (rows : List (Rate F)) (old : Option F)
      → IsWritten q rows old (or_else old (find_rate q rows))
  or_else-IsWritten q rows none = find_rate-IsFilled q rows
  or_else-IsWritten q rows (some rate) = refl

  IsAtomic-IsFirstWrite :
      (records : List (Record F)) (w : World F) (q : Rate F) (r : Result ℕ × World F)
      → IsAtomic records w r
      → IsFirstWrite records w q r
  IsAtomic-IsFirstWrite records w q (ok n, w') h =
      let now =
        ap (λ d. find_rate q d.rates) h.0
        ∙ find_rate-new_rows q (map rate_row records) w.db.rates in
      rw now (or_else-IsWritten q (map rate_row records) (find_rate q w.db.rates))
  IsAtomic-IsFirstWrite records w q (err e, w') h = ap (λ d. find_rate q d.rates) h.0

  -- On every path, for every key: a batch that is stored keeps the rate of a key that had one; a key
  -- that had none has the rate of some record of the batch with the key, and none only where no
  -- record has the key. A batch that fails leaves the rate as it was.
  pub bulk_upsert_rates-IsFirstWrite :
      (o : Oracles F) (records : List (Record F)) (w : World F) (q : Rate F)
      → IsFirstWrite records w q (bulk_upsert_rates o records w)
  bulk_upsert_rates-IsFirstWrite o records w q =
      IsAtomic-IsFirstWrite records w q (bulk_upsert_rates o records w)
        (bulk_upsert_rates-IsAtomic o records w)
