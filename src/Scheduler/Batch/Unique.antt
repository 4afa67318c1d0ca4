-- ===== src/Scheduler/Batch/Unique.antt =====
-- `uniqueCurrencies` against the codes of a batch.
use fx_rates.Prelude.{
  ◌≡◌, refl, ◌∙◌, Bool, false, ◌||◌, Text, List, [], ◌∷◌, ◌++◌, arith, Bool-cases, inl, inr, exists,
  exists-append, text_eq, text_eq_iff, text_eq_refl, text_eq_comm,
}
use fx_rates.Provider.{Record}
use fx_rates.Scheduler.Batch.{add_currency, unique_from, unique_currencies}

abbrev pub has_code : Text → List Text → Bool
has_code c = exists (text_eq c)

-- No code stands twice.
abbrev pub IsNodup : List Text → Type 0
IsNodup [] = Unit
IsNodup (c ∷ out) = (has_code c out ≡ false) × IsNodup out

has_code-add_currency :
    (c d : Text) (out : List Text)
    → has_code c (add_currency out d) ≡ (has_code c out || text_eq c d)
has_code-add_currency c d out = elim (Bool-cases (text_eq c d)) [
  | inl same ↦
      let e : c ≡ d = (text_eq_iff c d).0 same in
      rw e (ground (arith, exists-append (text_eq d) out (d ∷ []), text_eq_refl d))
  | inr other ↦ ground (arith, exists-append (text_eq c) out (d ∷ []))
]

IsNodup-snoc :
    (d : Text) (out : List Text) → IsNodup out → has_code d out ≡ false → IsNodup (out ++ d ∷ [])
IsNodup-snoc d [] h k = (refl, tt)
IsNodup-snoc d (c ∷ out) h k =
    ground (arith, IsNodup-snoc d out h.1, exists-append (text_eq c) out (d ∷ []), text_eq_comm c d)

IsNodup-add_currency : (d : Text) (out : List Text) → IsNodup out → IsNodup (add_currency out d)
IsNodup-add_currency d out h = elim (Bool-cases (has_code d out)) [
  | inl old ↦ rw old h
  | inr new ↦ rw new (IsNodup-snoc d out h new)
]

module _ {F : Type 0} where
  -- The code is the base or the quote of one of the records.
  abbrev pub mentions : Text → List (Record F) → Bool
  mentions c = exists (λ r. text_eq c r.base || text_eq c r.quote)

  unique_from_lem :
      (out : List Text) (records : List (Record F))
      → IsNodup out
      → IsNodup (unique_from out records)
        × ((c : Text)
            → has_code c (unique_from out records) ≡ (has_code c out || mentions c records))
  unfolding unique_from
  unique_from_lem out [] h = (h, λ c. ground arith)
  unique_from_lem out (r ∷ records) h =
      let based = add_currency out r.base in
      let rest =
        unique_from_lem (add_currency based r.quote) records
          (IsNodup-add_currency r.quote based (IsNodup-add_currency r.base out h)) in
      (
        rest.0,
        λ c.
            rest.1 c
            ∙ rw (has_code-add_currency c r.quote based, has_code-add_currency c r.base out)
                (ground arith),
      )

  -- A code is listed exactly if it is the base or the quote of a record, and none is listed twice.
  pub unique_currencies_lem :
      (records : List (Record F))
      → IsNodup (unique_currencies records)
        × ((c : Text) → has_code c (unique_currencies records) ≡ mentions c records)
  unfolding unique_currencies
  unique_currencies_lem records = unique_from_lem [] records tt
