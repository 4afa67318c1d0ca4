-- ===== src/Sorting.antt =====
-- `sort.Strings`, `slices.Sort` and `ORDER BY` on texts. The order of the keys is total, so every
-- sort gives the same list; here it is by insertion.
pub mod Order
use fx_rates.Prelude.{Bool, true, false, ◌&&◌, ◌||◌, Text, List, [], ◌∷◌, ltb, ◌==◌, if◌then◌else◌}

-- The comparison of Go's strings, byte by byte.
unfoldable pub text_lt : Text → Text → Bool
text_lt s [] = false
text_lt [] (d ∷ t) = true
text_lt (c ∷ s) (d ∷ t) = ltb c d || ((c == d) && text_lt s t)

module _ {A : Type 0} (key : A → Text) where
  unfoldable pub insert_by : A → List A → List A
  unfolding text_lt
  insert_by x [] = x ∷ []
  insert_by x (y ∷ ys) = if text_lt (key y) (key x) then y ∷ insert_by x ys else x ∷ y ∷ ys

  unfoldable pub sort_by : List A → List A
  unfolding insert_by
  sort_by [] = []
  sort_by (x ∷ xs) = insert_by x (sort_by xs)

unfoldable pub sort : List Text → List Text
unfolding sort_by
sort = sort_by (λ t. t)

-- `ORDER BY` several columns: by insertion, for an order of the rows.
module _ {A : Type 0} (lt : A → A → Bool) where
  unfoldable pub insert_on : A → List A → List A
  insert_on x [] = x ∷ []
  insert_on x (y ∷ ys) = let rest = insert_on x ys in if lt y x then y ∷ rest else x ∷ y ∷ ys

  unfoldable pub sort_on : List A → List A
  unfolding insert_on
  sort_on [] = []
  sort_on (x ∷ xs) = insert_on x (sort_on xs)
