-- ===== src/Database/Rates/Validation/Filters.antt =====
-- The filters and the order of FetchRatesForValidation, column by column.
use fx_rates.Prelude.{
  ◌⊎◌, All, All-map, Bool-cases, inl, inr, none, some, text_eq_iff, length-take_le, Text, ℕ, zero,
  suc, ◌≤◌, ◌<◌, ◌≡◌, refl, ◌∙◌, ap, Bool, true, false, ◌&&◌, List, [], ◌∷◌, Option, text_eq_comm,
  take, length, exists, arith,
}
use fx_rates.Clock.{Time}
use fx_rates.Sorting.{text_lt}
use fx_rates.Sorting.Order.{text_lt_total, IsOrdered}
use fx_rates.Database.{Rate}
use fx_rates.Database.Rates.Validation.{
  text_eq, at_or_after, at_or_before, is_wanted, FetchParams, matches, row_lt,
}

-- The date is not before the bound, if there is one.
abbrev pub NotBefore : Option Time → Time → Type 0
NotBefore none t = Unit
NotBefore (some from) t = from ≤ t

abbrev pub NotAfter : Option Time → Time → Type 0
NotAfter none t = Unit
NotAfter (some upto) t = t ≤ upto

-- The code is the one of the filter, if that is not empty.
abbrev pub HasCode : Text → Text → Type 0
HasCode [] t = Unit
HasCode (c ∷ code) t = t ≡ c ∷ code

is_wanted-HasCode : (code t : Text) → is_wanted code t ≡ true → HasCode code t
unfolding fx_rates.Prelude.text_eq
is_wanted-HasCode [] t h = tt
is_wanted-HasCode (c ∷ code) t h = ground (arith, text_eq_iff t (c ∷ code))

HasCode-is_wanted : (code t : Text) → HasCode code t → is_wanted code t ≡ true
unfolding fx_rates.Prelude.text_eq
HasCode-is_wanted [] t h = refl
HasCode-is_wanted (c ∷ code) t h = ground (arith, text_eq_iff t (c ∷ code))

at_or_after-NotBefore :
    (from : Option Time) (t : Time) → at_or_after from t ≡ true → NotBefore from t
at_or_after-NotBefore none t h = tt
at_or_after-NotBefore (some from) t h = ground arith

NotBefore-at_or_after :
    (from : Option Time) (t : Time) → NotBefore from t → at_or_after from t ≡ true
NotBefore-at_or_after none t h = refl
NotBefore-at_or_after (some from) t h = ground arith

at_or_before-NotAfter :
    (upto : Option Time) (t : Time) → at_or_before upto t ≡ true → NotAfter upto t
at_or_before-NotAfter none t h = tt
at_or_before-NotAfter (some upto) t h = ground arith

NotAfter-at_or_before :
    (upto : Option Time) (t : Time) → NotAfter upto t → at_or_before upto t ≡ true
NotAfter-at_or_before none t h = refl
NotAfter-at_or_before (some upto) t h = ground arith

module _ {F : Type 0} where
  -- The row meets every filter.
  abbrev pub IsSelected : FetchParams → Option Time → Option Time → Rate F → Type 0
  IsSelected arg from upto r =
      (r.provider ≡ arg.provider_key)
      × NotBefore from r.date
      × NotAfter upto r.date
      × HasCode arg.base_code r.base
      × HasCode arg.quote_code r.quote

  pub matches-IsSelected :
      (arg : FetchParams) (from upto : Option Time) (r : Rate F)
      → matches arg from upto r ≡ true
      → IsSelected arg from upto r
  unfolding matches
  matches-IsSelected arg from upto r h = (
    ground (arith, text_eq_iff r.provider arg.provider_key),
    at_or_after-NotBefore from r.date (ground arith),
    at_or_before-NotAfter upto r.date (ground arith),
    is_wanted-HasCode arg.base_code r.base (ground arith),
    is_wanted-HasCode arg.quote_code r.quote (ground arith),
  )

  pub IsSelected-matches :
      (arg : FetchParams) (from upto : Option Time) (r : Rate F)
      → IsSelected arg from upto r
      → matches arg from upto r ≡ true
  unfolding matches
  IsSelected-matches arg from upto r (p, a, b, base, quote) = ground (
    arith,
    text_eq_iff r.provider arg.provider_key,
    NotBefore-at_or_after from r.date a,
    NotAfter-at_or_before upto r.date b,
    HasCode-is_wanted arg.base_code r.base base,
    HasCode-is_wanted arg.quote_code r.quote quote,
  )

  -- The first row may stand before the second: the earlier date first, then the provider, the base
  -- and the quote.
  abbrev pub MayPrecede : Rate F → Rate F → Type 0
  MayPrecede r q =
      (r.date < q.date)
      ⊎ ((r.date ≡ q.date)
          × ((text_lt r.provider q.provider ≡ true)
              ⊎ ((r.provider ≡ q.provider)
                  × ((text_lt r.base q.base ≡ true)
                      ⊎ ((r.base ≡ q.base) × (text_lt q.quote r.quote ≡ false))))))

  row_lt-MayPrecede : (r q : Rate F) → row_lt q r ≡ false → MayPrecede r q
  unfolding row_lt
  row_lt-MayPrecede r q h = ground (
    arith,
    text_lt_total q.provider r.provider,
    text_lt_total q.base r.base,
    text_eq_iff q.provider r.provider,
    text_eq_iff q.base r.base,
  )

  abbrev pub InOrder : List (Rate F) → Type 0
  InOrder [] = Unit
  InOrder (r ∷ []) = Unit
  InOrder (r ∷ q ∷ rows) = MayPrecede r q × InOrder (q ∷ rows)

  pub IsOrdered-InOrder : (rows : List (Rate F)) → IsOrdered row_lt rows → InOrder rows
  IsOrdered-InOrder [] h = tt
  IsOrdered-InOrder (r ∷ []) h = tt
  IsOrdered-InOrder (r ∷ q ∷ rows) h = (row_lt-MayPrecede r q h.0, IsOrdered-InOrder (q ∷ rows) h.1)
