-- ===== src/Scheduler/Batch/Sound.antt =====
-- The invariant of a provider run, and `processBatch` under it.
use fx_rates.Prelude.{
  ℕ, ◌+◌, ◌-◌, ◌≤◌, ◌≡◌, refl, ap, ◌∙◌, false, Text, List, [], ◌∷◌, ◌++◌, map, arith, length,
  length-append, All, All-append, Bool-cases, inl, inr, append_assoc, ltb,
}
use fx_rates.Float64.{Float64}
use fx_rates.Errors.{Result, ok, err}
use fx_rates.Provider.{Record}
use fx_rates.Database.{Rate}
use fx_rates.Database.Rates.Upsert.{new_rows, KeysUnique, KeysUnique-new_rows, length-new_rows_le}
use fx_rates.World.{World, Oracles}
use fx_rates.Repo.Frame.{Kept, upsert_currency_summary-kept}
use fx_rates.Scheduler.{is_excluded}
use fx_rates.Scheduler.Start.{max_time_ptr}
use fx_rates.Scheduler.Batch.{
  is_valid_record, rate_row, filter_valid_records, after_upsert, store_valid, process_batch,
  unique_currencies,
}
use fx_rates.Scheduler.Batch.Filter.{stamped, filter_valid_records_lem}
use fx_rates.Scheduler.Batch.Store.{IsAtomic, bulk_upsert_rates-IsAtomic}

module _ {F : Type 0} where
  All-new_rows :
      (P : Rate F → Type 0) (staged rates : List (Rate F))
      → All P staged
      → All P (new_rows staged rates)
  All-new_rows P [] rates h = tt
  All-new_rows P (r ∷ staged) rates h =
      ground (arith, All-new_rows P staged rates h.1, All-new_rows P staged (rates ++ r ∷ []) h.1)

  length-map-rate_row : (records : List (Record F)) → length (map rate_row records) ≡ length records
  length-map-rate_row [] = refl
  length-map-rate_row (r ∷ records) = omega (arith, length-map-rate_row records)

module _ {F : Type 0} ⦃fl : Float64 F⦄ where
  -- A row of the provider, of no excluded currency, with a rate that is above zero and finite.
  abbrev pub IsStorable : Text → Rate F → Type 0
  IsStorable key r =
      (r.provider ≡ key)
      × (is_excluded r.quote ≡ false)
      × (is_excluded r.base ≡ false)
      × (fl.le r.rate fl.nought ≡ false)
      × (fl.is_nan r.rate ≡ false)
      × (fl.is_inf r.rate ≡ false)

  stamped-IsStorable :
      (key : Text) (records : List (Record F))
      → All (IsStorable key) (map rate_row (stamped key records))
  unfolding is_valid_record
  stamped-IsStorable key [] = tt
  stamped-IsStorable key (r ∷ records) = ground (arith, stamped-IsStorable key records)

  length-stamped_le :
      (key : Text) (records : List (Record F)) → length (stamped key records) ≤ length records
  length-stamped_le key [] = omega arith
  length-stamped_le key (r ∷ records) = ground (arith, length-stamped_le key records)

  -- The rates, `base` at the start of the run, with `inserted` rows added since.
  abbrev pub Grown : Text → List (Rate F) → List (Rate F) → ℕ → Type 0
  Grown key base rates inserted =
      KeysUnique rates
      × (added : List (Rate F)) × (rates ≡ base ++ added)
      × (length added ≡ inserted)
      × All (IsStorable key) added

  Grown-new_rows :
      (key : Text) (base staged rates : List (Rate F)) (inserted : ℕ)
      → All (IsStorable key) staged
      → Grown key base rates inserted
      → Grown key base (rates ++ new_rows staged rates) (inserted + length (new_rows staged rates))
  Grown-new_rows key base staged rates inserted fit (unique, added, e, n, h) = (
    KeysUnique-new_rows staged rates unique,
    added ++ new_rows staged rates,
    ap (λ l. l ++ new_rows staged rates) e ∙ append_assoc base added _,
    length-append added _ ∙ ap (λ k. k + length (new_rows staged rates)) n,
    All-append (IsStorable key) added _ h (All-new_rows (IsStorable key) staged rates fit),
  )

  pub record IsSound (key : Text) (base : List (Rate F)) (w : World F) : Type 0 where
    pub grown : Grown key base w.db.rates w.progress.inserted
    pub accounted : w.progress.inserted + w.progress.skipped ≤ w.progress.fetched

  -- The same, with room for `n` more rows among those fetched.
  abbrev IsReady : Text → List (Rate F) → ℕ → World F → Type 0
  IsReady key base n w =
      Grown key base w.db.rates w.progress.inserted
      × (w.progress.inserted + w.progress.skipped + n ≤ w.progress.fetched)

  IsSound-kept :
      (key : Text) (base : List (Rate F)) (w w' : World F)
      → w'.db.rates ≡ w.db.rates
      → w'.progress ≡ w.progress
      → IsSound key base w
      → IsSound key base w'
  IsSound-kept key base w w' er ep h = record {
    grown = rw (er, ep) h.grown;
    accounted = rw ep h.accounted;
  }

  module _ (o : Oracles F) where
    after_upsert-IsSound :
        (key : Text) (base : List (Rate F)) (valid : List (Record F)) (w : World F)
        (r : Result ℕ × World F)
        → All (IsStorable key) (map rate_row valid)
        → IsReady key base (length valid) w
        → IsAtomic valid w r
        → IsSound key base (after_upsert o key valid r).1
    unfolding after_upsert
    after_upsert-IsSound key base valid w (err e, w') fit (grown, room) (d, rest) = record {
      grown = rw (d, rest.0) grown;
      accounted = rw rest.0 (omega arith);
    }
    after_upsert-IsSound key base valid w (ok n, w') fit (grown, room) (d, en, rest) =
        elim (Bool-cases (ltb 0 n)) [
          | inl some_new ↦
              let kept = upsert_currency_summary-kept o key (unique_currencies valid) counted in
              rw some_new (
                IsSound-kept key base counted _ (ap (λ (v : Kept F). v.0) kept)
                  (ap (λ (v : Kept F). v.3) kept) sound)
          | inr none_new ↦ rw none_new sound
        ]
      where
        counted : World F
        counted = record w' {
          progress = record (w'.progress) {
            inserted = w'.progress.inserted + n;
            skipped = w'.progress.skipped + (length valid - n);
          };
        }

        few : n ≤ length valid
        few = rw en (
            omega (
              arith,
              length-new_rows_le (map rate_row valid) w.db.rates,
              length-map-rate_row valid,
            ))

        sound : IsSound key base counted
        sound = record {
          grown = rw (d, rest.0, en) (Grown-new_rows key base (map rate_row valid) _ _ fit grown);
          accounted = rw rest.0 (omega (arith, few));
        }

    store_valid-IsSound :
        (key : Text) (base : List (Rate F)) (valid : List (Record F)) (w : World F)
        → All (IsStorable key) (map rate_row valid)
        → IsReady key base (length valid) w
        → IsSound key base (store_valid o key valid w).1
    unfolding store_valid
    store_valid-IsSound key base [] w fit (grown, room) = record {
      grown = grown;
      accounted = omega arith;
    }
    store_valid-IsSound key base (r ∷ valid) w fit ready =
        after_upsert-IsSound key base (r ∷ valid) w _ fit ready
          (bulk_upsert_rates-IsAtomic o (r ∷ valid) w)

    -- Whatever statements fail, a batch keeps the invariant: the primary key holds, the rates have
    -- only grown, by as many rows as are counted as inserted, each of this provider, of no excluded
    -- currency and with a rate above zero and finite, and no more rows are counted than fetched.
    pub process_batch-IsSound :
        (key : Text) (base : List (Rate F)) (records : List (Record F)) (w : World F)
        → IsSound key base w
        → IsSound key base (process_batch o key records w).1
    unfolding process_batch
    process_batch-IsSound key base [] w h = h
    process_batch-IsSound key base (r ∷ records) w h =
        let (valid, max_seen) = filter_valid_records (r ∷ records) key in
        let valid_eq = (filter_valid_records_lem (r ∷ records) key).0 in
        let w' = record w {
          progress = record (w.progress) {
            fetched = w.progress.fetched + length (r ∷ records);
            max_seen_date = max_time_ptr w.progress.max_seen_date max_seen;
          };
        } in
        let fit : All (IsStorable key) (map rate_row valid) =
          rw valid_eq (stamped-IsStorable key (r ∷ records)) in
        let few : length valid ≤ length (r ∷ records) =
          rw valid_eq (length-stamped_le key (r ∷ records)) in
        store_valid-IsSound key base valid w' fit (h.grown, omega (arith, h.accounted, few))
