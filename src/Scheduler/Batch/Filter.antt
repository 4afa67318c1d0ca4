-- ===== src/Scheduler/Batch/Filter.antt =====
-- `filterValidRecords` against the records that pass its tests and the latest of their dates.
use fx_rates.Prelude.{
  ◌≡◌, refl, ap, Text, List, [], ◌∷◌, Option, none, some, arith, All, Bool-cases, inl, inr,
  if◌then◌else◌,
}
use fx_rates.Clock.{Time}
use fx_rates.Float64.{Float64}
use fx_rates.Provider.{Record}
use fx_rates.Scheduler.Start.{max_time_ptr, LePtr, LePtr-refl, max_time_ptr-is_lub}
use fx_rates.Scheduler.Batch.{is_valid_record, filter_from, filter_valid_records}

LePtr-trans : (p q r : Option Time) → LePtr p q → LePtr q r → LePtr p r
LePtr-trans none q r h k = tt
LePtr-trans (some t) none r h k = absurd h
LePtr-trans (some t) (some u) none h k = absurd k
LePtr-trans (some t) (some u) (some v) h k = omega arith

module _ {F : Type 0} ⦃fl : Float64 F⦄ where
  -- The records that pass the tests, in order, with the provider's key.
  abbrev pub stamped : Text → List (Record F) → List (Record F)
  stamped key [] = []
  stamped key (r ∷ records) =
      let rest = stamped key records in
      if is_valid_record r then record r { provider = key } ∷ rest else rest

  abbrev pub DatesBelow : List (Record F) → Option Time → Type 0
  DatesBelow records p = All (λ r. LePtr (some r.date) p) records

  -- `p` is the latest of the dates: an upper bound that is below every other one.
  abbrev pub IsLatest : List (Record F) → Option Time → Type 0
  IsLatest records p = DatesBelow records p × ((q : Option Time) → DatesBelow records q → LePtr p q)

  filter_from-eq-stamped :
      (key : Text) (records : List (Record F)) (seen : Option Time)
      → (filter_from key records seen).0 ≡ stamped key records
  unfolding filter_from
  filter_from-eq-stamped key [] seen = refl
  filter_from-eq-stamped key (r ∷ records) seen = elim (Bool-cases (is_valid_record r)) [
    | inl kept ↦
        rw kept (ap (λ l. record r { provider = key } ∷ l) (filter_from-eq-stamped key records _))
    | inr dropped ↦ rw dropped (filter_from-eq-stamped key records seen)
  ]

  filter_from-lub :
      (key : Text) (records : List (Record F)) (seen : Option Time)
      → let out = (filter_from key records seen).1 in
        LePtr seen out
        × DatesBelow (stamped key records) out
        × ((q : Option Time) → LePtr seen q → DatesBelow (stamped key records) q → LePtr out q)
  unfolding filter_from
  filter_from-lub key [] seen = (LePtr-refl seen, tt, λ q h k. h)
  filter_from-lub key (r ∷ records) seen = elim (Bool-cases (is_valid_record r)) [
    | inr dropped ↦ rw dropped (filter_from-lub key records seen)
    | inl kept ↦
        let seen' = max_time_ptr seen (some r.date) in
        let (above, below, least) = filter_from-lub key records seen' in
        let lub = max_time_ptr-is_lub seen (some r.date) in
        rw kept (
          LePtr-trans seen seen' _ (lub none).0 above,
          (LePtr-trans (some r.date) seen' _ (lub none).1 above, below),
          λ q h k. least q ((lub q).2 h k.0) k.1,
        )
  ]

  -- The filter returns the records that pass its tests, in order and stamped with the key, and the
  -- latest of their dates, which is nil for none.
  pub filter_valid_records_lem :
      (records : List (Record F)) (key : Text)
      → let (valid, max_seen) = filter_valid_records records key in
        (valid ≡ stamped key records) × IsLatest valid max_seen
  unfolding filter_valid_records
  filter_valid_records_lem records key =
      let e = filter_from-eq-stamped key records none in
      let (above, below, least) = filter_from-lub key records none in
      (e, rw e (below, λ q k. least q tt k))
