-- ===== src/Repo/Coverage.antt =====
-- `UpsertCurrencySummary` and the dates of the rates that it summarizes.
pub mod Rows
use fx_rates.Prelude.{
  ◌∙◌, ◌≡◌, ◌≤◌, ◌+◌, ◌⊎◌, refl, ap, ℕ, Bool, true, false, Text, List, [], ◌∷◌, none, Bool-cases,
  inl, inr, exists, text_eq, text_eq_iff, arith, ◌≢◌,
}
use fx_rates.Clock.{Time}
use fx_rates.Errors.{err, Result, ok}
use fx_rates.Sorting.Order.{Contains}
use fx_rates.Database.{Rate, CurrencyCoverage}
use fx_rates.Database.Dates.{Date, minimum, maximum, least, greatest, time_to_date}
use fx_rates.Database.Rates.{get_currency_date_range, dates_where, observes}
use fx_rates.Database.Currencies.{upsert_currency_coverage, upsert_currency, same_coverage}
use fx_rates.World.{query, continue, next_tick, World, Oracles, statement}
use fx_rates.Repo.{query, Action, upsert_currency_summary, after_range, upsert_summary}
use fx_rates.Repo.Coverage.Rows.{
  Within, IsCovered, IsCovered-upsert, upsert-IsCovered, IsListed, IsListed-upsert, upsert-IsListed,
  Within-extremes,
}

module _ {F : Type 0} where
  Contains-dates_where :
      (p : Rate F → Bool) (r : Rate F) (rates : List (Rate F))
      → Contains r rates
      → p r ≡ true
      → Contains r.date (dates_where p rates)
  Contains-dates_where p r [] c h = absurd c
  Contains-dates_where p r (q ∷ rates) (inl e) h =
      let hit : p q ≡ true = rw (← e) h in rw hit (inl (ap (λ x. x.date) e))
  Contains-dates_where p r (q ∷ rates) (inr c) h = elim (Bool-cases (p q)) [
    | inl hit ↦ rw hit (inr (Contains-dates_where p r rates c h))
    | inr miss ↦ rw miss (Contains-dates_where p r rates c h)
  ]

  -- The rate is one of the provider, from or to the currency.
  abbrev pub Observes : Text → Text → Rate F → Type 0
  Observes key code r = (r.provider ≡ key) × ((r.quote ≡ code) ⊎ (r.base ≡ code))

  observes_of : (key code : Text) (r : Rate F) → Observes key code r → observes key code r ≡ true
  observes_of key code r h =
      ground (arith, text_eq_iff r.provider key, text_eq_iff r.quote code, text_eq_iff r.base code)

  -- The range of a provider and a currency holds the date of each of their rates.
  range_holds :
      (key code : Text) (r : Rate F) (rates : List (Rate F))
      → Contains r rates
      → Observes key code r
      → let (first, last) = get_currency_date_range key code rates in Within r.date first last
  unfolding get_currency_date_range
  range_holds key code r rates c h =
      Within-extremes r.date (dates_where (observes key code) rates)
        (Contains-dates_where (observes key code) r rates c (observes_of key code r h))

  -- The day is covered in both tables.
  abbrev pub IsSummarized : Text → Text → Time → World F → Type 0
  IsSummarized key code t w = IsCovered key code t w.db.coverages × IsListed code t w.db.currencies

  module _ (o : Oracles F) (served : (n : ℕ) → o.fault n ≡ none) where
    -- The provider is one of the table.
    abbrev is_known : Text → World F → Bool
    is_known key w = exists (λ p. text_eq p.key key) w.db.providers

    -- The world after one code whose range is there.
    abbrev summarized : Text → Text → Date → Date → World F → World F
    summarized key code first last w = record w {
      tick = w.tick + 1 + 1;
      db = record (w.db) {
        coverages =
            upsert_currency_coverage
              (record { provider_key = key; iso_code = code; start_date = first; end_date = last })
              w.db.coverages;
        currencies =
            upsert_currency (record { iso_code = code; start_date = first; end_date = last })
              w.db.currencies;
      };
    }

    upsert_summary_known :
        (key code : Text) (first last : Date) (w : World F)
        → is_known key w ≡ true
        → upsert_summary o key code (first, last) w ≡ (ok tt, summarized key code first last w)
    unfolding upsert_summary statement
    upsert_summary_known key code first last w known =
        rw (served w.tick, known, served (w.tick + 1)) refl

    upsert_summary_unknown :
        (key code : Text) (first last : Date) (w : World F)
        → is_known key w ≡ false
        → (upsert_summary o key code (first, last) w).0 ≢ ok tt
    unfolding upsert_summary statement
    upsert_summary_unknown key code first last w unknown = rw (served w.tick, unknown) (λ e. cc)

    -- The upserts of a round, and the rest where they succeed.
    abbrev then_rest :
        Action F (Unit {0}) → Result (Unit {0}) × World F → Result (Unit {0}) × World F
    then_rest rest (r, w) = continue r (λ _. rest) w

    after_range_dated :
        (key code : Text) (rest : Action F (Unit {0})) (first last : Date) (w : World F)
        → first.valid ≡ true
        → after_range o key code rest (ok (first, last)) w
          ≡ then_rest rest (upsert_summary o key code (first, last) w)
    unfolding after_range
    after_range_dated key code rest first last w dated = simp dated

    then_rest_failed :
        (rest : Action F (Unit {0})) (r : Result (Unit {0}) × World F)
        → r.0 ≢ ok tt
        → (then_rest rest r).0 ≢ ok tt
    then_rest_failed rest (ok x, w) h = absurd (h refl)
    then_rest_failed rest (err e, w) h = h

    -- What one round comes to: the code has no rates, or it is summarized, or the round fails.
    after_range_cases :
        (key code : Text) (rest : Action F (Unit {0})) (first last : Date) (w : World F)
        → ((first.valid ≡ false) × (after_range o key code rest (ok (first, last)) w ≡ rest w))
          ⊎ (after_range o key code rest (ok (first, last)) w
              ≡ rest (summarized key code first last w))
          ⊎ ((after_range o key code rest (ok (first, last)) w).0 ≢ ok tt)
    unfolding after_range
    after_range_cases key code rest first last w = elim (Bool-cases first.valid) [
      | inr undated ↦ inl (undated, rw undated refl)
      | inl dated ↦
          let e = after_range_dated key code rest first last w dated in
          elim (Bool-cases (is_known key w)) [
            | inl known ↦
                inr
                  (inl (e ∙ ap (then_rest rest) (upsert_summary_known key code first last w known)))
            | inr unknown ↦ inr (
                inr (
                  rw e (
                    then_rest_failed rest _
                      (upsert_summary_unknown key code first last w unknown))))
          ]
    ]

    round :
        (key code : Text) (codes : List Text) (w : World F)
        → let range = get_currency_date_range key code w.db.rates in
          upsert_currency_summary o key (code ∷ codes) w
          ≡ after_range o key code (upsert_currency_summary o key codes) (ok range) (next_tick w)
    unfolding upsert_currency_summary query statement
    round key code codes w = rw (served w.tick) refl

    summarized-IsSummarized :
        (key code c : Text) (t : Time) (first last : Date) (w : World F)
        → IsSummarized key code t w
        → IsSummarized key code t (summarized key c first last w)
    summarized-IsSummarized key code c t first last w (h, k) =
        (IsCovered-upsert key code t _ w.db.coverages h, IsListed-upsert code t _ w.db.currencies k)

    -- The rounds that are left narrow no row.
    rounds-IsSummarized :
        (key code : Text) (t : Time) (codes : List Text) (w : World F)
        → (upsert_currency_summary o key codes w).0 ≡ ok tt
        → IsSummarized key code t w
        → IsSummarized key code t (upsert_currency_summary o key codes w).1
    unfolding upsert_currency_summary
    rounds-IsSummarized key code t [] w done h = h
    rounds-IsSummarized key code t (c ∷ codes) w done h =
        let (first, last) = get_currency_date_range key c w.db.rates in
        let rest = upsert_currency_summary o key codes in
        let goes = rw (round key c codes w) at done in
        rw (round key c codes w) (elim (after_range_cases key c rest first last (next_tick w)) [
          | inl (undated, e) ↦
              rw e (rounds-IsSummarized key code t codes (next_tick w) (rw e at goes) h)
          | inr (inl e) ↦ rw e (
              rounds-IsSummarized key code t codes (summarized key c first last (next_tick w))
                (rw e at goes) (summarized-IsSummarized key code c t first last (next_tick w) h))
          | inr (inr fails) ↦ absurd (fails goes)
        ])

    -- Where no statement fails by itself and the summary succeeds, every rate of the provider from or
    -- to a listed currency has its date within a row of `currency_coverages` of that provider and
    -- that currency, and within a row of `currencies` of that currency.
    pub upsert_currency_summary-IsSummarized :
        (key code : Text) (codes : List Text) (w : World F) (r : Rate F)
        → (upsert_currency_summary o key codes w).0 ≡ ok tt
        → Contains code codes
        → Contains r w.db.rates
        → Observes key code r
        → IsSummarized key code r.date (upsert_currency_summary o key codes w).1
    unfolding upsert_currency_summary
    upsert_currency_summary-IsSummarized key code [] w r done listed stored obs = absurd listed
    upsert_currency_summary-IsSummarized key code (c ∷ codes) w r done (inl e) stored obs =
        let (first, last) = get_currency_date_range key c w.db.rates in
        let rest = upsert_currency_summary o key codes in
        let goes = rw (round key c codes w) at done in
        let obs' : Observes key c r = rw (← e) obs in
        let within = range_holds key c r w.db.rates stored obs' in
        rw (round key c codes w, e)
          (elim (after_range_cases key c rest first last (next_tick w)) [
            | inl (undated, _) ↦ cc
            | inr (inl step) ↦ rw step (
                rounds-IsSummarized key c r.date codes (summarized key c first last (next_tick w))
                  (rw step at goes)
                  (
                    upsert-IsCovered r.date _ w.db.coverages within,
                    upsert-IsListed r.date _ w.db.currencies within,
                  ))
            | inr (inr fails) ↦ absurd (fails goes)
          ])
    upsert_currency_summary-IsSummarized key code (c ∷ codes) w r done (inr later) stored obs =
        let (first, last) = get_currency_date_range key c w.db.rates in
        let rest = upsert_currency_summary o key codes in
        let goes = rw (round key c codes w) at done in
        rw (round key c codes w) (elim (after_range_cases key c rest first last (next_tick w)) [
          | inl (undated, step) ↦ rw step (
              upsert_currency_summary-IsSummarized key code codes (next_tick w) r (rw step at goes)
                later stored obs)
          | inr (inl step) ↦ rw step (
              upsert_currency_summary-IsSummarized key code codes
                (summarized key c first last (next_tick w)) r (rw step at goes) later stored obs)
          | inr (inr fails) ↦ absurd (fails goes)
        ])
