-- ===== src/Database/Rates/Mapping.antt =====
-- The rates as a partial map from (provider, date, base, quote) to a rate, and the insertion of
-- `bulkUpsertRates` as an operation of it.
use fx_rates.Prelude.{
  ◌≡◌, refl, ap, ◌∙◌, sym, append_assoc, true, List, [], ◌∷◌, ◌++◌, Option, none, some, arith,
  text_eq_iff, Bool-cases, inl, inr, if◌then◌else◌,
}
use fx_rates.Database.{Rate}
use fx_rates.Database.Rates.{same_key, has_key}
use fx_rates.Database.Rates.Upsert.{new_rows}

module _ {F : Type 0} where
  -- The rate under the key of `q`.
  abbrev pub find_rate : Rate F → List (Rate F) → Option F
  find_rate q [] = none
  find_rate q (r ∷ rates) =
      let rest = find_rate q rates in if same_key q r then some r.rate else rest

  -- What the first map has counts before the second.
  abbrev pub or_else : Option F → Option F → Option F
  or_else none o = o
  or_else (some x) o = some x

  or_else_assoc : (a b c : Option F) → or_else (or_else a b) c ≡ or_else a (or_else b c)
  or_else_assoc none b c = refl
  or_else_assoc (some x) b c = refl

  find_rate-append :
      (q : Rate F) (xs ys : List (Rate F))
      → find_rate q (xs ++ ys) ≡ or_else (find_rate q xs) (find_rate q ys)
  find_rate-append q [] ys = refl
  find_rate-append q (x ∷ xs) ys = ground (arith, find_rate-append q xs ys)

  same_key_trans :
      (q r s : Rate F) → same_key q r ≡ true → same_key r s ≡ true → same_key q s ≡ true
  unfolding same_key
  same_key_trans q r s h k = ground (
    arith,
    text_eq_iff q.provider r.provider,
    text_eq_iff r.provider s.provider,
    text_eq_iff q.provider s.provider,
    text_eq_iff q.base r.base,
    text_eq_iff r.base s.base,
    text_eq_iff q.base s.base,
    text_eq_iff q.quote r.quote,
    text_eq_iff r.quote s.quote,
    text_eq_iff q.quote s.quote,
  )

  -- A row whose key is taken changes nothing after those before it.
  taken_or_else :
      (q r : Rate F) (rates : List (Rate F)) (o : Option F)
      → has_key r rates ≡ true
      → or_else (find_rate q rates) (if same_key q r then some r.rate else o)
        ≡ or_else (find_rate q rates) o
  unfolding has_key
  taken_or_else q r [] o h = cc
  taken_or_else q r (x ∷ rates) o h =
      ground (arith, taken_or_else q r rates o, same_key_trans q r x)

  first_or_else :
      (q r : Rate F) (a b : Option F)
      → or_else (or_else a (find_rate q (r ∷ []))) b
        ≡ or_else a (if same_key q r then some r.rate else b)
  first_or_else q r a b = ground arith

  pub find_rate-new_rows :
      (q : Rate F) (staged rates : List (Rate F))
      → find_rate q (rates ++ new_rows staged rates)
        ≡ or_else (find_rate q rates) (find_rate q staged)
  find_rate-new_rows q [] rates = find_rate-append q rates []
  find_rate-new_rows q (r ∷ staged) rates = elim (Bool-cases (has_key r rates)) [
    | inl old ↦
        rw old (
          find_rate-new_rows q staged rates
          ∙ sym (taken_or_else q r rates (find_rate q staged) old))
    | inr new ↦
        let one = ap (λ o. or_else o (find_rate q staged)) (find_rate-append q rates (r ∷ [])) in
        let all = find_rate-new_rows q staged (rates ++ r ∷ []) ∙ one in
        rw (new, ← append_assoc rates (r ∷ []) (new_rows staged (rates ++ r ∷ [])))
          (all ∙ first_or_else q r (find_rate q rates) (find_rate q staged))
  ]
