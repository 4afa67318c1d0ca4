-- ===== src/Database/Rates/Validation/Sound.antt =====
-- The rows of FetchRatesForValidation.
use fx_rates.Prelude.{
  All, All-map, Bool-cases, inl, inr, length-take_le, Text, ℕ, zero, suc, ◌≤◌, ◌<◌, ◌≡◌, refl, ap,
  Bool, true, false, List, [], ◌∷◌, Option, text_eq_comm, take, length, arith,
}
use fx_rates.Clock.{Time}
use fx_rates.Sorting.{sort_on}
use fx_rates.Sorting.Order.{
  text_lt_asym, text_lt-text_eq, IsOrdered, Contains, All-sort_on, Contains-sort_on,
  sort_on-IsOrdered,
}
use fx_rates.Database.{Rate}
use fx_rates.Number.{ℤ, pos, negsuc}
use fx_rates.Errors.{Result, ok, err}
use fx_rates.Database.Rates.Validation.{
  bound_of, limited, fetch_between, fetch_rates_for_validation, FetchParams, matches, rows_where,
  row_lt,
}
use fx_rates.Database.Rates.Validation.Filters.{
  IsSelected, matches-IsSelected, IsSelected-matches, InOrder, IsOrdered-InOrder,
}

module _ {F : Type 0} where
  row_lt_asym : (r q : Rate F) → row_lt r q ≡ true → row_lt q r ≡ false
  unfolding row_lt
  row_lt_asym r q h = ground (
    arith,
    text_eq_comm r.provider q.provider,
    text_eq_comm r.base q.base,
    text_lt_asym r.provider q.provider,
    text_lt_asym r.base q.base,
    text_lt_asym r.quote q.quote,
    text_lt-text_eq r.provider q.provider,
    text_lt-text_eq r.base q.base,
    text_lt-text_eq q.provider r.provider,
    text_lt-text_eq q.base r.base,
  )

  -- A row of the table that meets the filters.
  abbrev pub IsHit : FetchParams → Option Time → Option Time → List (Rate F) → Rate F → Type 0
  IsHit arg from upto rates r = Contains r rates × IsSelected arg from upto r

  All-rows_where :
      (arg : FetchParams) (from upto : Option Time) (rates : List (Rate F))
      → All (IsHit arg from upto rates) (rows_where (matches arg from upto) rates)
  All-rows_where arg from upto [] = tt
  All-rows_where arg from upto (r ∷ rates) =
      let rest =
        All-map (IsHit arg from upto rates) (IsHit arg from upto (r ∷ rates))
          (λ q h. (inr h.0, h.1)) (rows_where (matches arg from upto) rates)
          (All-rows_where arg from upto rates) in
      elim (Bool-cases (matches arg from upto r)) [
        | inl hit ↦ rw hit ((inl refl, matches-IsSelected arg from upto r hit), rest)
        | inr miss ↦ rw miss rest
      ]

  Contains-rows_where :
      (p : Rate F → Bool) (r : Rate F) (rates : List (Rate F))
      → Contains r rates
      → p r ≡ true
      → Contains r (rows_where p rates)
  Contains-rows_where p r [] c h = c
  Contains-rows_where p r (q ∷ rates) (inl e) h =
      let hit : p q ≡ true = rw (← e) h in rw hit (inl e)
  Contains-rows_where p r (q ∷ rates) (inr c) h = elim (Bool-cases (p q)) [
    | inl hit ↦ rw hit (inr (Contains-rows_where p r rates c h))
    | inr miss ↦ rw miss (Contains-rows_where p r rates c h)
  ]

  take-IsOrdered :
      (n : ℕ) (rows : List (Rate F)) → IsOrdered row_lt rows → IsOrdered row_lt (take n rows)
  take-IsOrdered zero rows h = tt
  take-IsOrdered (suc n) [] h = tt
  take-IsOrdered (suc zero) (r ∷ rows) h = tt
  take-IsOrdered (suc (suc n)) (r ∷ []) h = tt
  take-IsOrdered (suc (suc n)) (r ∷ q ∷ rows) h = (h.0, take-IsOrdered (suc n) (q ∷ rows) h.1)

  take_short : (n : ℕ) (rows : List (Rate F)) → length (take n rows) < n → take n rows ≡ rows
  take_short zero rows h = absurd (omega arith)
  take_short (suc n) [] h = refl
  take_short (suc n) (r ∷ rows) h = ap (λ l. r ∷ l) (take_short n rows (omega arith))

  All-take : (P : Rate F → Type 0) (n : ℕ) (rows : List (Rate F)) → All P rows → All P (take n rows)
  All-take P zero rows h = tt
  All-take P (suc n) [] h = tt
  All-take P (suc n) (r ∷ rows) h = (h.0, All-take P n rows h.1)

  -- What a fetch promises of its rows: as many as the limit at most, in the order of date, provider,
  -- base and quote; each is a row of the table that meets the filters; and where they are fewer than
  -- the limit, every such row is among them.
  abbrev pub IsFetched :
      FetchParams → Option Time → Option Time → List (Rate F) → List (Rate F) → ℕ → Type 0
  IsFetched arg from upto rates rows n =
      (length rows ≤ n)
      × InOrder rows
      × All (IsHit arg from upto rates) rows
      × (length rows < n → (r : Rate F) → IsHit arg from upto rates r → Contains r rows)

  take-IsFetched :
      (arg : FetchParams) (from upto : Option Time) (rates : List (Rate F)) (n : ℕ)
      → IsFetched arg from upto rates
          (take n (sort_on row_lt (rows_where (matches arg from upto) rates)))
          n
  take-IsFetched arg from upto rates n =
      let hits = rows_where (matches arg from upto) rates in
      let all = sort_on row_lt hits in
      (
        length-take_le n all,
        IsOrdered-InOrder (take n all)
            (take-IsOrdered n all (sort_on-IsOrdered row_lt row_lt_asym hits)),
        All-take (IsHit arg from upto rates) n all (
            All-sort_on row_lt (IsHit arg from upto rates) hits
              (All-rows_where arg from upto rates)),
        λ short r hit. rw (take_short n all short) (
            Contains-sort_on row_lt r hits (
              Contains-rows_where (matches arg from upto) r rates hit.0
                (IsSelected-matches arg from upto r hit.1))),
      )

  limited-IsFetched :
      (arg : FetchParams) (from upto : Option Time) (rates rows : List (Rate F)) (limit : ℤ)
      → limited limit (sort_on row_lt (rows_where (matches arg from upto) rates)) ≡ ok rows
      → (n : ℕ) × (limit ≡ pos n) × IsFetched arg from upto rates rows n
  limited-IsFetched arg from upto rates rows (negsuc n) h = cc
  limited-IsFetched arg from upto rates rows (pos n) h =
      let e : take n (sort_on row_lt (rows_where (matches arg from upto) rates)) ≡ rows = cc in
      (n, refl, rw (← e) (take-IsFetched arg from upto rates n))

  fetch_between-IsFetched :
      (arg : FetchParams) (from upto : Result (Option Time)) (rates rows : List (Rate F))
      → fetch_between arg from upto rates ≡ ok rows
      → (from' : Option Time) × (from ≡ ok from')
        × (upto' : Option Time) × (upto ≡ ok upto')
        × (n : ℕ) × (arg.row_limit ≡ pos n)
        × IsFetched arg from' upto' rates rows n
  fetch_between-IsFetched arg (err e) upto rates rows h = cc
  fetch_between-IsFetched arg (ok from) (err e) rates rows h = cc
  fetch_between-IsFetched arg (ok from) (ok upto) rates rows h =
      let (n, limit, rest) = limited-IsFetched arg from upto rates rows arg.row_limit h in
      (from, refl, upto, refl, n, limit, rest)

  -- Where FetchRatesForValidation succeeds, each date filter is empty or a date and the limit is not
  -- negative. The rows are at most as many as the limit, in the order of date, provider, base and
  -- quote; each is a row of the table with the provider, not before the first date and not after the
  -- last, and with the base and the quote where the filters are not empty. Where the rows are fewer
  -- than the limit, they are all such rows of the table.
  pub fetch_rates-IsFetched :
      (cast : Text → Option Time) (arg : FetchParams) (rates rows : List (Rate F))
      → fetch_rates_for_validation cast arg rates ≡ ok rows
      → (from : Option Time) × (bound_of cast arg.date_from ≡ ok from)
        × (upto : Option Time) × (bound_of cast arg.date_to ≡ ok upto)
        × (n : ℕ) × (arg.row_limit ≡ pos n)
        × IsFetched arg from upto rates rows n
  unfolding fetch_rates_for_validation
  fetch_rates-IsFetched cast arg rates rows h =
      fetch_between-IsFetched arg (bound_of cast arg.date_from) (bound_of cast arg.date_to) rates
        rows h
