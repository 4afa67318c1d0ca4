-- ===== src/Number.antt =====
-- `int`, where the sign matters, and decimal numbers as `fmt.Sprintf("%d")` and `strconv.Atoi`
-- write and read them.
use fx_rates.Prelude.{
  ◌^◌, ℕ, zero, suc, ◌+◌, ◌-◌, ◌*◌, ◌/◌, ◌%◌, Bool, true, false, ◌&&◌, Text, [], ◌∷◌, Option, none,
  some, ltb, leb, ◌==◌, if◌then◌else◌,
}

-- `negsuc n` is -(n + 1).
pub data ℤ : Type 0 where
  pos : ℕ → ℤ
  negsuc : ℕ → ℤ

abbrev pub is_digit : ℕ → Bool
is_digit c = leb b'0' c && leb c b'9'

-- The digits of `n` before those collected; `n` is its own fuel.
digits_before : ℕ → ℕ → Text → Text
digits_before zero n out = out
digits_before (suc f) n out =
    let out' = (b'0' + n % 10) ∷ out in
    let rest = digits_before f (n / 10) out' in if ltb n 10 then out' else rest

unfoldable pub decimal : ℕ → Text
unfolding digits_before
decimal n = digits_before (suc n) n []

digits_value : ℕ → Text → Option ℕ
digits_value n [] = some n
digits_value n (c ∷ cs) = elim (is_digit c) [
  | true ↦ digits_value (n * 10 + (c - b'0')) cs
  | false ↦ none
]

-- An unsigned run of digits, as `strconv.Atoi` reads it, without its limit of 64 bits.
unfoldable pub parse_nat : Text → Option ℕ
unfolding digits_value
parse_nat [] = none
parse_nat (c ∷ cs) = digits_value 0 (c ∷ cs)

-- `strconv.Atoi`: an optional sign, then digits.
unfoldable pub atoi : Text → Option ℤ
unfolding parse_nat
atoi [] = none
atoi (c ∷ cs) =
    if c == b'-'
    then elim (parse_nat cs) [
      | none ↦ none
      | some zero ↦ some (pos 0)
      | some (suc n) ↦ some (negsuc n)
    ]
    else elim (parse_nat (if c == b'+' then cs else c ∷ cs)) [ none ↦ none | some n ↦ some (pos n) ]

-- `int32(n)`, which wraps around.
abbrev pub to_int32 : ℕ → ℤ
to_int32 n = let low = n % 2 ^ 32 in if ltb low (2 ^ 31) then pos low else negsuc (2 ^ 32 - low - 1)
