-- ===== src/Sorting/Order.antt =====
-- The sort by an order of the rows, and the order of texts.
use fx_rates.Prelude.{
  ◌⊎◌, All, Bool-cases, inl, inr, ◌≡◌, Bool, true, false, Text, List, [], ◌∷◌, arith, text_eq,
}
use fx_rates.Sorting.{text_lt, insert_on, sort_on}

pub text_lt_asym : (s t : Text) → text_lt s t ≡ true → text_lt t s ≡ false
unfolding text_lt
text_lt_asym [] [] h = ground arith
text_lt_asym [] (d ∷ t) h = ground arith
text_lt_asym (c ∷ s) [] h = ground arith
text_lt_asym (c ∷ s) (d ∷ t) h = ground (arith, text_lt_asym s t)

pub text_lt-text_eq : (s t : Text) → text_lt s t ≡ true → text_eq s t ≡ false
unfolding text_lt text_eq
text_lt-text_eq [] [] h = ground arith
text_lt-text_eq [] (d ∷ t) h = ground arith
text_lt-text_eq (c ∷ s) [] h = ground arith
text_lt-text_eq (c ∷ s) (d ∷ t) h = ground (arith, text_lt-text_eq s t)

pub text_lt_total : (s t : Text) → text_lt s t ≡ false → text_eq s t ≡ false → text_lt t s ≡ true
unfolding text_lt text_eq
text_lt_total [] [] h k = ground arith
text_lt_total [] (d ∷ t) h k = ground arith
text_lt_total (c ∷ s) [] h k = ground arith
text_lt_total (c ∷ s) (d ∷ t) h k = ground (arith, text_lt_total s t)

-- The element is one of the list.
abbrev pub Contains : {A : Type 0} → A → List A → Type 0
Contains x [] = ⊥
Contains x (y ∷ ys) = (x ≡ y) ⊎ Contains x ys

module _ {A : Type 0} (lt : A → A → Bool) where
  -- No element comes before the one that precedes it.
  abbrev pub IsOrdered : List A → Type 0
  IsOrdered [] = Unit
  IsOrdered (x ∷ []) = Unit
  IsOrdered (x ∷ y ∷ ys) = (lt y x ≡ false) × IsOrdered (y ∷ ys)

  All-insert_on :
      (P : A → Type 0) (x : A) (ys : List A) → P x → All P ys → All P (insert_on lt x ys)
  unfolding insert_on
  All-insert_on P x [] p h = (p, tt)
  All-insert_on P x (y ∷ ys) p h = elim (Bool-cases (lt y x)) [
    | inl before ↦ rw before (h.0, All-insert_on P x ys p h.1)
    | inr after ↦ rw after (p, h)
  ]

  pub All-sort_on : (P : A → Type 0) (xs : List A) → All P xs → All P (sort_on lt xs)
  unfolding sort_on
  All-sort_on P [] h = tt
  All-sort_on P (x ∷ xs) h = All-insert_on P x (sort_on lt xs) h.0 (All-sort_on P xs h.1)

  Contains-insert_on :
      (x y : A) (ys : List A) → (x ≡ y) ⊎ Contains x ys → Contains x (insert_on lt y ys)
  unfolding insert_on
  Contains-insert_on x y [] h = h
  Contains-insert_on x y (z ∷ ys) (inl e) = elim (Bool-cases (lt z y)) [
    | inl before ↦ rw before (inr (Contains-insert_on x y ys (inl e)))
    | inr after ↦ rw after (inl e)
  ]
  Contains-insert_on x y (z ∷ ys) (inr (inl e)) = elim (Bool-cases (lt z y)) [
    | inl before ↦ rw before (inl e)
    | inr after ↦ rw after (inr (inl e))
  ]
  Contains-insert_on x y (z ∷ ys) (inr (inr h)) = elim (Bool-cases (lt z y)) [
    | inl before ↦ rw before (inr (Contains-insert_on x y ys (inr h)))
    | inr after ↦ rw after (inr (inr h))
  ]

  pub Contains-sort_on : (x : A) (xs : List A) → Contains x xs → Contains x (sort_on lt xs)
  unfolding sort_on
  Contains-sort_on x [] h = h
  Contains-sort_on x (y ∷ xs) (inl e) = Contains-insert_on x y (sort_on lt xs) (inl e)
  Contains-sort_on x (y ∷ xs) (inr h) =
      Contains-insert_on x y (sort_on lt xs) (inr (Contains-sort_on x xs h))

  module _ (asym : (x y : A) → lt x y ≡ true → lt y x ≡ false) where
    insert_on-IsOrdered : (x : A) (ys : List A) → IsOrdered ys → IsOrdered (insert_on lt x ys)
    unfolding insert_on
    insert_on-IsOrdered x [] h = tt
    insert_on-IsOrdered x (y ∷ []) h = ground (arith, asym y x)
    insert_on-IsOrdered x (y ∷ z ∷ ys) h =
        ground (arith, insert_on-IsOrdered x (z ∷ ys) h.1, asym y x)

    pub sort_on-IsOrdered : (xs : List A) → IsOrdered (sort_on lt xs)
    unfolding sort_on
    sort_on-IsOrdered [] = tt
    sort_on-IsOrdered (x ∷ xs) = insert_on-IsOrdered x (sort_on lt xs) (sort_on-IsOrdered xs)
