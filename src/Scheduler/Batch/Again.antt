-- ===== src/Scheduler/Batch/Again.antt =====
-- A batch that comes a second time.
use fx_rates.Prelude.{
  ℕ, ◌+◌, ◌≡◌, refl, sym, ap, ◌∙◌, List, [], ◌∷◌, ◌++◌, none, length, arith, Text, map, append-nil,
  ltb, Bool-cases, inl, inr,
}
use fx_rates.Float64.{Float64}
use fx_rates.Errors.{Result, ok, err}
use fx_rates.Provider.{Record}
use fx_rates.Database.{Rate}
use fx_rates.Database.Rates.{insert_staged}
use fx_rates.Database.Rates.Upsert.{new_rows, insert_staged-eq-new_rows, insert_staged_twice}
use fx_rates.World.{World, Oracles}
use fx_rates.Repo.Frame.{Kept, upsert_currency_summary-kept}
use fx_rates.Scheduler.Batch.{
  rate_row, filter_valid_records, after_upsert, store_valid, process_batch, unique_currencies,
}
use fx_rates.Scheduler.Batch.Store.{IsAtomic, added_rows, bulk_upsert_rates-IsAtomic}

module _ {F : Type 0} where
  length-nil : (xs : List (Rate F)) → length xs ≡ 0 → xs ≡ []
  length-nil [] h = refl
  length-nil (x ∷ xs) h = absurd (omega arith)

  -- After an insertion the same rows are not new.
  new_rows_twice :
      (staged rates : List (Rate F)) → new_rows staged (rates ++ new_rows staged rates) ≡ []
  new_rows_twice staged rates =
      let after = rates ++ new_rows staged rates in
      let once : (insert_staged staged rates).1 ≡ after =
        ap (λ r. r.1) (insert_staged-eq-new_rows staged rates) in
      let twice : (insert_staged staged after).0 ≡ 0 =
        ap (λ l. (insert_staged staged l).0) (sym once)
        ∙ ap (λ r. r.0) (insert_staged_twice staged rates) in
      length-nil _ (sym (ap (λ r. r.0) (insert_staged-eq-new_rows staged after)) ∙ twice)

module _ {F : Type 0} where
  -- What the end of a batch leaves of the rates and of the count of inserted rows.
  after_upsert-rates :
      (o : Oracles F) (key : Text) (valid : List (Record F)) (n : ℕ) (w : World F)
      → let w' = (after_upsert o key valid (ok n, w)).1 in
        (w'.db.rates ≡ w.db.rates) × (w'.progress.inserted ≡ w.progress.inserted + n)
  unfolding after_upsert
  after_upsert-rates o key valid n w = elim (Bool-cases (ltb 0 n)) [
    | inl some_new ↦
        let kept = upsert_currency_summary-kept o key (unique_currencies valid) _ in
        rw some_new (ap (λ (v : Kept F). v.0) kept, ap (λ (v : Kept F). v.3.inserted) kept)
    | inr none_new ↦ rw none_new (refl, refl)
  ]

  after_upsert-stored :
      (o : Oracles F) (key : Text) (valid : List (Record F)) (w : World F) (r : Result ℕ × World F)
      → IsAtomic valid w r
      → (after_upsert o key valid r).0 ≡ none
      → (after_upsert o key valid r).1.db.rates ≡ w.db.rates ++ added_rows valid w
  unfolding after_upsert
  after_upsert-stored o key valid w (err e, w') atomic h = cc
  after_upsert-stored o key valid w (ok n, w') atomic h =
      (after_upsert-rates o key valid n w').0 ∙ ap (λ d. d.rates) atomic.0

  after_upsert-no_new :
      (o : Oracles F) (key : Text) (valid : List (Record F)) (w : World F) (r : Result ℕ × World F)
      → added_rows valid w ≡ []
      → IsAtomic valid w r
      → let w' = (after_upsert o key valid r).1 in
        (w'.db.rates ≡ w.db.rates) × (w'.progress.inserted ≡ w.progress.inserted)
  unfolding after_upsert
  after_upsert-no_new o key valid w (err e, w') old (d, rest) =
      (ap (λ d. d.rates) d, ap (λ p. p.inserted) rest.0)
  after_upsert-no_new o key valid w (ok n, w') old (d, en, rest) =
      let (rates, inserted) = after_upsert-rates o key valid n w' in
      let none_counted : n ≡ 0 = en ∙ ap length old in
      (
        rates ∙ ap (λ d. d.rates) d ∙ ap (λ l. w.db.rates ++ l) old ∙ append-nil w.db.rates,
        inserted ∙ ap (λ p. p.inserted + n) rest.0 ∙ omega arith,
      )

  module _ (o o' : Oracles F) where
    store_valid_again :
        (key : Text) (valid : List (Record F)) (w w' : World F)
        → (store_valid o key valid w).0 ≡ none
        → w'.db.rates ≡ (store_valid o key valid w).1.db.rates
        → let again = (store_valid o' key valid w').1 in
          (again.db.rates ≡ w'.db.rates) × (again.progress.inserted ≡ w'.progress.inserted)
    unfolding store_valid
    store_valid_again key [] w w' h e = (refl, refl)
    store_valid_again key (r ∷ valid) w w' h e =
        let stored =
          after_upsert-stored o key (r ∷ valid) w _ (bulk_upsert_rates-IsAtomic o (r ∷ valid) w)
            h in
        let old : added_rows (r ∷ valid) w' ≡ [] =
          ap (new_rows (map rate_row (r ∷ valid))) (e ∙ stored)
          ∙ new_rows_twice (map rate_row (r ∷ valid)) w.db.rates in
        after_upsert-no_new o' key (r ∷ valid) w' _ old
          (bulk_upsert_rates-IsAtomic o' (r ∷ valid) w')

    -- After a batch has been processed without an error, processing it again, whatever fails this
    -- time, leaves the rates as they are and counts no row as inserted.
    pub process_batch_again :
        ⦃fl : Float64 F⦄ (key : Text) (records : List (Record F)) (w : World F)
        → let (e, w') = process_batch o key records w in
          let again = (process_batch o' key records w').1 in
          e ≡ none
          → (again.db.rates ≡ w'.db.rates) × (again.progress.inserted ≡ w'.progress.inserted)
    unfolding process_batch
    process_batch_again key [] w h = (refl, refl)
    process_batch_again key (r ∷ records) w h =
        store_valid_again key (filter_valid_records (r ∷ records) key).0 _ _ h refl
