-- ===== src/Database/Rates/Upsert.antt =====
-- The insertion of `bulkUpsertRates` with ON CONFLICT DO NOTHING, by the rows that are new.
use fx_rates.Prelude.{
  ◌≤◌, ◌≡◌, refl, sym, ap, true, false, ◌||◌, List, [], ◌∷◌, ◌++◌, length, arith, append_assoc,
  append-nil, text_eq_comm, Bool-cases, inl, inr, if◌then◌else◌, ==_refl, text_eq_refl,
}
use fx_rates.Database.{Rate}
use fx_rates.Database.Rates.{same_key, has_key, insert_staged}

module _ {F : Type 0} where
  pub same_key_refl : (r : Rate F) → same_key r r ≡ true
  unfolding same_key
  same_key_refl r = simp (text_eq_refl, ==_refl)

  same_key_comm : (r q : Rate F) → same_key r q ≡ same_key q r
  unfolding same_key
  same_key_comm r q =
      rw (text_eq_comm r.provider, text_eq_comm r.base, text_eq_comm r.quote) (ground arith)

  pub has_key-append :
      (r : Rate F) (xs ys : List (Rate F)) → has_key r (xs ++ ys) ≡ (has_key r xs || has_key r ys)
  unfolding has_key
  has_key-append r [] ys = refl
  has_key-append r (x ∷ xs) ys = ground (arith, has_key-append r xs ys)

  -- The rows of the stage that an insertion appends.
  abbrev pub new_rows : List (Rate F) → List (Rate F) → List (Rate F)
  new_rows [] rates = []
  new_rows (r ∷ staged) rates =
      let old = new_rows staged rates in
      let new = r ∷ new_rows staged (rates ++ r ∷ []) in if has_key r rates then old else new

  pub insert_staged-eq-new_rows :
      (staged rates : List (Rate F))
      → insert_staged staged rates
        ≡ (length (new_rows staged rates), rates ++ new_rows staged rates)
  unfolding insert_staged
  insert_staged-eq-new_rows [] rates = ap (λ l. (0, l)) (sym (append-nil rates))
  insert_staged-eq-new_rows (r ∷ staged) rates = elim (Bool-cases (has_key r rates)) [
    | inl old ↦ rw (old, insert_staged-eq-new_rows staged rates)
    | inr new ↦
        rw (new, insert_staged-eq-new_rows staged (rates ++ r ∷ []), append_assoc)
          (ap (λ n. (n, rates ++ (r ∷ new_rows staged (rates ++ r ∷ [])))) (omega arith))
  ]

  -- No two rows have the same key.
  abbrev pub KeysUnique : List (Rate F) → Type 0
  KeysUnique [] = Unit
  KeysUnique (r ∷ rates) = (has_key r rates ≡ false) × KeysUnique rates

  KeysUnique-snoc :
      (r : Rate F) (rates : List (Rate F))
      → KeysUnique rates
      → has_key r rates ≡ false
      → KeysUnique (rates ++ r ∷ [])
  unfolding has_key
  KeysUnique-snoc r [] h k = (refl, tt)
  KeysUnique-snoc r (q ∷ rates) h k =
      ground
        (arith, KeysUnique-snoc r rates h.1, has_key-append q rates (r ∷ []), same_key_comm q r)

  -- Each of the rows finds its key.
  abbrev AllPresent : List (Rate F) → List (Rate F) → Type 0
  AllPresent [] rates = Unit
  AllPresent (r ∷ staged) rates = (has_key r rates ≡ true) × AllPresent staged rates

  AllPresent-append :
      (staged rates added : List (Rate F))
      → AllPresent staged rates
      → AllPresent staged (rates ++ added)
  AllPresent-append [] rates added h = tt
  AllPresent-append (r ∷ staged) rates added h =
      (rw (has_key-append, h.0), AllPresent-append staged rates added h.1)

  has_key-snoc_self : (r : Rate F) (rates : List (Rate F)) → has_key r (rates ++ r ∷ []) ≡ true
  unfolding has_key
  has_key-snoc_self r rates = rw has_key-append (ground (arith, same_key_refl r))

  AllPresent-new_rows :
      (staged rates : List (Rate F)) → AllPresent staged (rates ++ new_rows staged rates)
  AllPresent-new_rows [] rates = tt
  AllPresent-new_rows (r ∷ staged) rates = elim (Bool-cases (has_key r rates)) [
    | inl old ↦ rw old (rw (has_key-append, old), AllPresent-new_rows staged rates)
    | inr new ↦
        let rates' = rates ++ r ∷ [] in
        rw new (
          rw (← append_assoc rates (r ∷ []) _)
            (rw (has_key-append, has_key-snoc_self r rates), AllPresent-new_rows staged rates'))
  ]

  AllPresent-inserts_none :
      (staged rates : List (Rate F))
      → AllPresent staged rates
      → insert_staged staged rates ≡ (0, rates)
  unfolding insert_staged
  AllPresent-inserts_none [] rates h = refl
  AllPresent-inserts_none (r ∷ staged) rates h = rw (h.0, AllPresent-inserts_none staged rates h.1)

  -- Inserting the same rows again inserts none and changes nothing.
  pub insert_staged_twice :
      (staged rates : List (Rate F))
      → let after = (insert_staged staged rates).1 in insert_staged staged after ≡ (0, after)
  insert_staged_twice staged rates =
      rw (insert_staged-eq-new_rows staged rates)
        (AllPresent-inserts_none staged _ (AllPresent-new_rows staged rates))

  pub KeysUnique-new_rows :
      (staged rates : List (Rate F))
      → KeysUnique rates
      → KeysUnique (rates ++ new_rows staged rates)
  KeysUnique-new_rows [] rates h = rw append-nil h
  KeysUnique-new_rows (r ∷ staged) rates h = elim (Bool-cases (has_key r rates)) [
    | inl old ↦ rw old (KeysUnique-new_rows staged rates h)
    | inr new ↦
        rw (new, ← append_assoc rates (r ∷ []) _)
          (KeysUnique-new_rows staged (rates ++ r ∷ []) (KeysUnique-snoc r rates h new))
  ]

  -- The insertion keeps the primary key, appends as many rows as it counts and leaves those before
  -- them as they were.
  pub insert_staged-KeysUnique :
      (staged rates : List (Rate F))
      → KeysUnique rates
      → let (n, after) = insert_staged staged rates in
        KeysUnique after × (added : List (Rate F)) × (after ≡ rates ++ added) × (length added ≡ n)
  insert_staged-KeysUnique staged rates h =
      rw (insert_staged-eq-new_rows staged rates)
        (KeysUnique-new_rows staged rates h, new_rows staged rates, refl, refl)

  pub length-new_rows_le :
      (staged rates : List (Rate F)) → length (new_rows staged rates) ≤ length staged
  length-new_rows_le [] rates = omega arith
  length-new_rows_le (r ∷ staged) rates =
      ground (arith, length-new_rows_le staged rates, length-new_rows_le staged (rates ++ r ∷ []))
