-- ===== src/Validator/Run/Tallies.antt =====
-- `Validate` and the summary of its results.
use fx_rates.Prelude.{
  ℕ, ◌+◌, ◌<◌, ◌≡◌, refl, Bool, true, false, List, [], ◌∷◌, ◌++◌, length, length-append, arith,
  if◌then◌else◌,
}
use fx_rates.Float64.{Float64}
use fx_rates.Errors.{Result, ok, err}
use fx_rates.Validator.{DbRecord, Comparison, Summary, Status, ok_status, warning, invalid, missing}
use fx_rates.Validator.Client.{Client, Service}
use fx_rates.Validator.Run.{
  validate_one, count_status, no_summary, Outcome, after_one, validate_from, validate,
}

abbrev is_ok : Status → Bool
is_ok ok_status = true
is_ok _ = false

abbrev is_warning : Status → Bool
is_warning warning = true
is_warning _ = false

abbrev is_invalid : Status → Bool
is_invalid invalid = true
is_invalid _ = false

abbrev is_missing : Status → Bool
is_missing missing = true
is_missing _ = false

module _ {F : Type 0} where
  -- How many results have a status that passes the test.
  abbrev tally : (Status → Bool) → List (Comparison F) → ℕ
  tally p [] = 0
  tally p (r ∷ rs) = (if p r.status then 1 else 0) + tally p rs

  tally-snoc :
      (p : Status → Bool) (rs : List (Comparison F)) (r : Comparison F)
      → tally p (rs ++ r ∷ []) ≡ tally p rs + (if p r.status then 1 else 0)
  tally-snoc p [] r = omega arith
  tally-snoc p (q ∷ rs) r = omega (arith, tally-snoc p rs r)

  abbrev pub IsTallied : List (Comparison F) → Summary → Type 0
  IsTallied results s =
      (s.total ≡ length results)
      × (s.ok_count ≡ tally is_ok results)
      × (s.warning_count ≡ tally is_warning results)
      × (s.invalid_count ≡ tally is_invalid results)
      × (s.missing_count ≡ tally is_missing results)

  count_status-IsTallied :
      (results : List (Comparison F)) (r : Comparison F) (s : Summary)
      → IsTallied results s
      → IsTallied (results ++ r ∷ []) (count_status r.status s)
  count_status-IsTallied results r s (t, o, w, i, m) = ground (
    arith,
    length-append results (r ∷ []),
    tally-snoc is_ok results r,
    tally-snoc is_warning results r,
    tally-snoc is_invalid results r,
    tally-snoc is_missing results r,
  )

  -- Every record has a result and the summary counts them; or an error ended the validation early.
  abbrev pub IsCounted : ℕ → Outcome F → Type 0
  IsCounted n (ok results, s, c) = (length results ≡ n) × IsTallied results s
  IsCounted n (err e, s, c) = s.total < n

module _ {F : Type 0} ⦃fl : Float64 F⦄ (service : Service F) where
  after_one-IsCounted :
      (next : List (Comparison F) → Summary → Client F → Outcome F) (n : ℕ)
      (results : List (Comparison F)) (s : Summary) (r : Result (Comparison F) × Client F)
      → ((results' : List (Comparison F)) (s' : Summary) (c : Client F)
          → length results' ≡ length results + 1
          → IsTallied results' s'
          → IsCounted n (next results' s' c))
      → length results < n
      → IsTallied results s
      → IsCounted n (after_one service next results s r)
  after_one-IsCounted next n results s (err e, c) go less t = omega arith
  after_one-IsCounted next n results s (ok r, c) go less t =
      go (results ++ r ∷ []) (count_status r.status s) c
        (omega (arith, length-append results (r ∷ []))) (count_status-IsTallied results r s t)

  validate_from-IsCounted :
      (records : List (DbRecord F)) (n : ℕ) (results : List (Comparison F)) (s : Summary)
      (c : Client F)
      → length results + length records ≡ n
      → IsTallied results s
      → IsCounted n (validate_from service records results s c)
  unfolding validate_from
  validate_from-IsCounted [] n results s c e t = (omega arith, t)
  validate_from-IsCounted (r ∷ records) n results s c e t =
      after_one-IsCounted (validate_from service records) n results s (validate_one service r c)
        (λ results' s' c' k t'. validate_from-IsCounted records n results' s' c' (omega arith) t')
        (omega arith) t

  -- A validation that succeeds has one result for each record, and its summary counts the results and,
  -- for each status, those that have it. One that an error ends has counted fewer than all records.
  pub validate-IsCounted :
      (records : List (DbRecord F)) (c : Client F)
      → IsCounted (length records) (validate service records c)
  unfolding validate
  validate-IsCounted records c =
      validate_from-IsCounted records (length records) [] no_summary c (omega arith)
        (refl, refl, refl, refl, refl)
