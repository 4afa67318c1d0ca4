-- ===== src/Redact.antt =====
-- `redactDSN` of main.go and cmd/fx-migrate/main.go, on an ASCII text: the regular expression
-- `(?i)(postgres(?:ql)?|pgx5?)://[^\s:/@]+:[^\s@/]+@`, whose match at a place is unique.
pub mod Dsn
use fx_rates.Prelude.{
  take, ℕ, zero, suc, ◌-◌, Bool, not, ◌||◌, Text, codes, length, [], ◌∷◌, ◌++◌, Option, none, some,
  ◌==◌, if◌then◌else◌,
}
use fx_rates.Strings.{lower_byte}

-- A literal of lower case letters under `(?i)`: what it matches, and the rest.
unfoldable pub match_fold : Text → Text → Option (Text × Text)
match_fold [] t = some ([], t)
match_fold (c ∷ lit) [] = none
match_fold (c ∷ lit) (d ∷ t) =
    if lower_byte d == c
    then elim (match_fold lit t) [ none ↦ none | some (s, rest) ↦ some (d ∷ s, rest) ]
    else none

-- A scheme and `://`; the group is the scheme as it is written.
abbrev grouped : Text → Option (Text × Text) → Option (Text × Text)
grouped scheme none = none
grouped scheme (some (s, rest)) = some (take (length scheme) s, rest)

abbrev pub scheme_then : Text → Text → Option (Text × Text)
scheme_then scheme t = grouped scheme (match_fold (scheme ++ codes "://") t)

abbrev or_try : Option (Text × Text) → Option (Text × Text) → Option (Text × Text)
or_try none q = q
or_try (some m) q = some m

-- The group and `://`: `ql` and `5` are taken where they stand.
abbrev pub match_scheme : Text → Option (Text × Text)
match_scheme t = or_try (scheme_then (codes "postgresql") t) (
    or_try (scheme_then (codes "postgres") t)
      (or_try (scheme_then (codes "pgx5") t) (scheme_then (codes "pgx") t)))

-- `\s`
abbrev is_blank_byte : ℕ → Bool
is_blank_byte c = (c == 9) || (c == 10) || (c == 12) || (c == 13) || (c == 32)

abbrev pub in_user : ℕ → Bool
in_user c = not (is_blank_byte c || (c == b':') || (c == b'/') || (c == b'@'))

abbrev pub in_password : ℕ → Bool
in_password c = not (is_blank_byte c || (c == b'@') || (c == b'/'))

-- As many bytes of the class as there are.
unfoldable pub after_class : (ℕ → Bool) → Text → Text
after_class p [] = []
after_class p (c ∷ t) = if p c then after_class p t else c ∷ t

-- One or more bytes of the class, then the byte.
abbrev pub class_then : (ℕ → Bool) → ℕ → Text → Option Text
class_then p b [] = none
class_then p b (c ∷ t) =
    if p c
    then elim (after_class p t) [ [] ↦ none | d ∷ rest ↦ if d == b then some rest else none ]
    else none

abbrev pub after_password : Text → Option Text → Option (Text × Text)
after_password scheme none = none
after_password scheme (some rest) = some (scheme, rest)

abbrev pub match_password : Text → Option Text → Option (Text × Text)
match_password scheme none = none
match_password scheme (some t) = after_password scheme (class_then in_password b'@' t)

abbrev pub match_user : Option (Text × Text) → Option (Text × Text)
match_user none = none
match_user (some (scheme, t)) = match_password scheme (class_then in_user b':' t)

-- A match at the start of the text: its group, and the text after it.
unfoldable pub match_here : Text → Option (Text × Text)
unfolding match_fold after_class
match_here t = match_user (match_scheme t)

-- `ReplaceAllString(s, "$1://***:***@")`; `skip` bytes belong to the last match.
unfoldable pub redact_from : ℕ → Text → Text
redact_from skip [] = []
redact_from (suc skip) (c ∷ t) = redact_from skip t
redact_from zero (c ∷ t) = elim (match_here (c ∷ t)) [
  | none ↦ c ∷ redact_from 0 t
  | some (scheme, rest) ↦ scheme ++ (codes "://***:***@" ++ redact_from (length t - length rest) t)
]

-- `redactDSN`
unfoldable pub redact_dsn : Text → Text
unfolding redact_from match_here
redact_dsn = redact_from 0
