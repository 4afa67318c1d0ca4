-- ===== src/Strings.antt =====
-- What the program uses of `strings`, on ASCII texts.
use fx_rates.Prelude.{
  ◌/◌, ◌%◌, ◌++◌, ltb, ℕ, ◌+◌, ◌-◌, Option, none, some, Bool, ◌&&◌, ◌||◌, Text, [], ◌∷◌, leb, ◌==◌,
  text_eq, map, if◌then◌else◌,
}

abbrev pub is_space : ℕ → Bool
is_space c = (leb 9 c && leb c 13) || (c == 32)

-- `strings.TrimFunc`
abbrev trim_left : (ℕ → Bool) → Text → Text
trim_left p [] = []
trim_left p (c ∷ t) = let rest = trim_left p t in if p c then rest else c ∷ t

abbrev trim_right : (ℕ → Bool) → Text → Text
trim_right p [] = []
trim_right p (c ∷ t) = let rest = trim_right p t in if p c && text_eq rest [] then [] else c ∷ rest

unfoldable pub trim_by : (ℕ → Bool) → Text → Text
trim_by p t = trim_right p (trim_left p t)

-- `strings.TrimSpace` of an ASCII text.
unfoldable pub trim_space : Text → Text
unfolding trim_by
trim_space = trim_by is_space

abbrev upper_byte : ℕ → ℕ
upper_byte c = if leb 97 c && leb c 122 then c - 32 else c

-- `strings.ToUpper` of an ASCII text.
unfoldable pub to_upper : Text → Text
to_upper = map upper_byte

abbrev pub lower_byte : ℕ → ℕ
lower_byte c = if leb 65 c && leb c 90 then c + 32 else c

-- `strings.ToLower` of an ASCII text.
unfoldable pub to_lower : Text → Text
to_lower = map lower_byte

abbrev keep_first : ℕ → Option (Text × Text) → Option (Text × Text)
keep_first c none = none
keep_first c (some (s, t)) = some (c ∷ s, t)

-- `strings.Cut` at a byte.
abbrev pub cut_at : ℕ → Text → Option (Text × Text)
cut_at b [] = none
cut_at b (c ∷ t) = let rest = keep_first c (cut_at b t) in if c == b then some ([], t) else rest

abbrev lower_hex : ℕ → ℕ
lower_hex n = if ltb n 10 then 48 + n else 87 + n

-- The letter of a short escape.
abbrev escape_letter : ℕ → Option ℕ
escape_letter c =
    if c == 7
    then some b'a'
    else if c == 8
    then some b'b'
    else if c == 9
    then some b't'
    else if c == 10
    then some b'n'
    else if c == 11
    then some b'v'
    else if c == 12
    then some b'f'
    else if c == 13
    then some b'r'
    else if (c == 34) || (c == 92)
    then some c
    else none

abbrev quoted_byte : ℕ → Text
quoted_byte c = elim (escape_letter c) [
  | some l ↦ 92 ∷ l ∷ []
  | none ↦
      if ltb c 32 || (c == 127)
      then 92 ∷ b'x' ∷ lower_hex (c / 16) ∷ lower_hex (c % 16) ∷ []
      else c ∷ []
]

abbrev quoted_bytes : Text → Text
quoted_bytes [] = []
quoted_bytes (c ∷ t) = quoted_byte c ++ quoted_bytes t

-- `strconv.Quote` of an ASCII text, which `%q` writes.
unfoldable pub quoted : Text → Text
quoted t = 34 ∷ (quoted_bytes t ++ 34 ∷ [])
