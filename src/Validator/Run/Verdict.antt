-- ===== src/Validator/Run/Verdict.antt =====
-- The comparison of `validateOne` with a reference.
use fx_rates.Prelude.{◌⊎◌, ◌≡◌, refl, ◌∙◌, true, false, Text, some, Bool-cases, inl, inr, ap}
use fx_rates.Float64.{Float64, IsIeee}
use fx_rates.Validator.{DbRecord, ok_status, classify}
use fx_rates.Validator.Run.{compare_with, relative_diff}

module _ {F : Type 0} ⦃fl : Float64 F⦄ (i : IsIeee fl) where
  zero-is_ok : (pct : F) → fl.eq pct fl.nought ≡ true → classify pct ≡ ok_status
  unfolding classify
  zero-is_ok pct zero_pct = rw (i.le-tenth pct zero_pct) refl

  relative_diff-nought :
      (rate : F) → fl.is_nan rate ≡ false → fl.eq (relative_diff fl.nought rate) fl.nought ≡ true
  relative_diff-nought rate number = elim (Bool-cases (fl.eq rate fl.nought)) [
    | inl zero_rate ↦ rw zero_rate (i.eq_refl fl.nought i.is_nan-nought)
    | inr other ↦ rw other (i.mul-hundred (fl.div fl.nought rate) (i.nought-div rate number other))
  ]

  -- The status of a comparison with a reference that is zero, or that is the stored rate itself where
  -- that is a finite number, is OK; against zero that holds for every stored rate.
  pub same_or_zero_is_ok :
      (r : DbRecord F) (effective note : Text) (rate : F)
      → (fl.eq rate fl.nought ≡ true)
        ⊎ ((rate ≡ r.rate) × (fl.is_nan r.rate ≡ false) × (fl.is_inf r.rate ≡ false))
      → (compare_with r effective note (some rate)).status ≡ ok_status
  unfolding compare_with
  same_or_zero_is_ok r effective note rate (inl zero_rate) =
      rw zero_rate (zero-is_ok fl.nought (i.eq_refl fl.nought i.is_nan-nought))
  same_or_zero_is_ok r effective note rate (inr (same, number, finite)) =
      let pct : relative_diff (fl.abs (fl.sub r.rate rate)) rate ≡ relative_diff fl.nought r.rate =
        ap (λ x. relative_diff (fl.abs (fl.sub r.rate x)) x) same
        ∙ ap (λ d. relative_diff d r.rate) (i.abs-sub_self r.rate number finite) in
      ap classify pct
      ∙ zero-is_ok (relative_diff fl.nought r.rate) (relative_diff-nought r.rate number)
