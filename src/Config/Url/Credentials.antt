-- ===== src/Config/Url/Credentials.antt =====
-- The user and the password in the URL of `buildDatabaseURL`, read back by an independent reader.
use fx_rates.Prelude.{
  All-map, ℕ, ◌+◌, ◌-◌, ◌*◌, ◌/◌, ◌%◌, ◌<◌, ◌≡◌, refl, ap, false, true, Text, codes, [], ◌∷◌, ◌++◌,
  All, All-append, Option, none, some, arith, append_assoc, leb, ◌==◌, Bool-cases, inl, inr,
  if◌then◌else◌,
}
use fx_rates.Errors.{ok}
use fx_rates.Strings.{cut_at}
use fx_rates.Config.{Config}
use fx_rates.Config.Url.{
  hex_digit, keeps_user, escape_byte, escape, is_blank, url_text, build_database_url, ssl_mode_of,
}

-- What a reader of percent-encoded bytes has read of an escape.
pub data Pending : Type 0 where
  nothing percent : Pending
  half : ℕ → Pending

abbrev hex_value : ℕ → ℕ
hex_value c = if leb c 57 then c - 48 else c - 55

unescape_from : Pending → Text → Text
unescape_from p [] = []
unescape_from nothing (c ∷ t) = elim (c == b'%') [
  | true ↦ unescape_from percent t
  | false ↦ c ∷ unescape_from nothing t
]
unescape_from percent (c ∷ t) = unescape_from (half (hex_value c)) t
unescape_from (half h) (c ∷ t) = (16 * h + hex_value c) ∷ unescape_from nothing t

abbrev unescape : Text → Text
unescape = unescape_from nothing

hex_value-hex_digit : (n : ℕ) → n < 16 → hex_value (hex_digit n) ≡ n
hex_value-hex_digit n h = ground arith

abbrev pub IsByte : ℕ → Type 0
IsByte c = c < 256

keeps_user_not_percent : (c : ℕ) → keeps_user c ≡ true → (c == b'%') ≡ false
keeps_user_not_percent c h = ground arith

unescape-escape_byte :
    (c : ℕ) (t : Text) → IsByte c → unescape (escape_byte keeps_user c ++ t) ≡ c ∷ unescape t
unfolding unescape_from
unescape-escape_byte c t h = elim (Bool-cases (keeps_user c)) [
  | inl keeps ↦ rw (keeps, keeps_user_not_percent c keeps, unescape_from) refl
  | inr escapes ↦
      rw
        (
          escapes,
          hex_value-hex_digit (c / 16) (omega arith),
          hex_value-hex_digit (c % 16) (omega arith),
        )
        (ap (λ d. d ∷ unescape t) (omega arith))
]

unescape-escape : (s : Text) → All IsByte s → unescape (escape keeps_user s) ≡ s
unfolding escape unescape_from
unescape-escape [] h = refl
unescape-escape (c ∷ s) h =
    rw (unescape-escape_byte c (escape keeps_user s) h.0, unescape-escape s h.1) refl

-- The bytes that an escaped user or password is made of: no separator and no white space.
abbrev pub IsPart : ℕ → Type 0
IsPart c = ((c == b':') ≡ false) × ((c == b'/') ≡ false) × ((c == b'@') ≡ false) × (32 < c)

hex_digit-IsPart : (n : ℕ) → n < 16 → IsPart (hex_digit n)
hex_digit-IsPart n h = ground arith

keeps_user-IsPart : (c : ℕ) → keeps_user c ≡ true → IsPart c
keeps_user-IsPart c h = ground arith

escape_byte-IsPart : (c : ℕ) → IsByte c → All IsPart (escape_byte keeps_user c)
escape_byte-IsPart c h = elim (Bool-cases (keeps_user c)) [
  | inl keeps ↦ rw keeps (keeps_user-IsPart c keeps, tt)
  | inr escapes ↦
      let high = hex_digit-IsPart (c / 16) (omega arith) in
      let low = hex_digit-IsPart (c % 16) (omega arith) in
      rw escapes (ground arith, (high, (low, tt)))
]

pub escape-IsPart : (s : Text) → All IsByte s → All IsPart (escape keeps_user s)
unfolding escape
escape-IsPart [] h = tt
escape-IsPart (c ∷ s) h =
    All-append IsPart (escape_byte keeps_user c) (escape keeps_user s) (escape_byte-IsPart c h.0)
      (escape-IsPart s h.1)

cut_at_first :
    (b : ℕ) (s t : Text) → All (λ c. (c == b) ≡ false) s → cut_at b (s ++ b ∷ t) ≡ some (s, t)
cut_at_first b [] t h = ground arith
cut_at_first b (c ∷ s) t h = rw (h.0, cut_at_first b s t h.1) refl

-- The user and the password of a URL `postgres://user:password@…`.
abbrev decoded : Option (Text × Text) → Option (Text × Text)
decoded none = none
decoded (some (user, password)) = some (unescape user, unescape password)

abbrev split_user : Option (Text × Text) → Option (Text × Text)
split_user none = none
split_user (some (info, host)) = decoded (cut_at b':' info)

abbrev strip : Text → Text → Option Text
strip [] t = some t
strip (c ∷ p) [] = none
strip (c ∷ p) (d ∷ t) = if c == d then strip p t else none

abbrev after_scheme : Option Text → Option (Text × Text)
after_scheme none = none
after_scheme (some t) = split_user (cut_at b'@' t)

pub read_credentials : Text → Option (Text × Text)
unfolding unescape_from
read_credentials url = after_scheme (strip (codes "postgres://") url)

read_parts :
    (user password t : Text)
    → All IsByte user
    → All IsByte password
    → after_scheme
        (some (escape keeps_user user ++ (b':' ∷ (escape keeps_user password ++ (b'@' ∷ t)))))
      ≡ some (user, password)
read_parts user password t u p =
    let eu = escape keeps_user user in
    let ep = escape keeps_user password in
    let hu = escape-IsPart user u in
    let hp = escape-IsPart password p in
    let no_at =
      All-append (λ c. (c == b'@') ≡ false) eu (b':' ∷ ep) (All-map IsPart _ (λ c h. h.2) eu hu)
        (refl, All-map IsPart _ (λ c h. h.2) ep hp) in
    let at : cut_at b'@' ((eu ++ (b':' ∷ ep)) ++ (b'@' ∷ t)) ≡ some (eu ++ (b':' ∷ ep), t) =
      cut_at_first b'@' (eu ++ (b':' ∷ ep)) t no_at in
    rw (← append_assoc eu (b':' ∷ ep) (b'@' ∷ t), at)
      (rw
        (
          cut_at_first b':' eu ep (All-map IsPart _ (λ c h. h.0) eu hu),
          unescape-escape user u,
          unescape-escape password p,
        )
        refl)

pub build_database_url_ok :
    (cfg : Config) (url : Text)
    → build_database_url cfg ≡ ok url
    → (url_text cfg (ssl_mode_of cfg.db_ssl_mode) ≡ url)
      × (is_blank cfg.db_user ≡ false)
      × (is_blank cfg.db_password ≡ false)
unfolding build_database_url
build_database_url_ok cfg url h = ground arith

-- The URL built of the parts gives back the very user and password, of any bytes.
pub read_credentials-build_database_url :
    (cfg : Config) (url : Text)
    → All IsByte cfg.db_user
    → All IsByte cfg.db_password
    → build_database_url cfg ≡ ok url
    → read_credentials url ≡ some (cfg.db_user, cfg.db_password)
unfolding read_credentials url_text
read_credentials-build_database_url cfg url u p h =
    rw (← (build_database_url_ok cfg url h).0) (read_parts cfg.db_user cfg.db_password _ u p)
