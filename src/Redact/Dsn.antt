-- ===== src/Redact/Dsn.antt =====
-- `redactDSN` of a text with a built database URL in it.
use fx_rates.Prelude.{
  text_eq, Bool-cases, inl, inr, ◌∙◌, ◌/◌, ◌%◌, All-map, ◌-◌, ap, append_assoc, All-append,
  length-append, codes, ◌+◌, ℕ, ◌<◌, ◌≡◌, refl, false, true, Bool, Text, [], ◌∷◌, ◌++◌, All, length,
  none, some, arith, ◌==◌,
}
use fx_rates.Errors.{ok}
use fx_rates.Config.{Config}
use fx_rates.Strings.{trim_space}
use mathlib.Core.Path.{subst}
use fx_rates.Config.Url.{
  hex_digit, keeps_user, keeps_host, path_of, escape, escape_query, url_text, build_database_url,
  ssl_mode_of, is_blank,
}
use fx_rates.Config.Url.Credentials.{IsByte, IsPart, escape-IsPart, build_database_url_ok}
use fx_rates.Redact.{
  match_fold, scheme_then, after_class, class_then, in_user, in_password, match_here, match_user,
  match_password, after_password, redact_from, redact_dsn,
}

after_class-All :
    (p : ℕ → Bool) (s : Text) (b : ℕ) (t : Text)
    → All (λ c. p c ≡ true) s
    → p b ≡ false
    → after_class p (s ++ (b ∷ t)) ≡ b ∷ t
unfolding after_class
after_class-All p [] b t h stop = rw stop refl
after_class-All p (c ∷ s) b t h stop = rw h.0 (after_class-All p s b t h.1 stop)

class_then-All :
    (p : ℕ → Bool) (b c : ℕ) (s t : Text)
    → All (λ c. p c ≡ true) (c ∷ s)
    → p b ≡ false
    → class_then p b ((c ∷ s) ++ (b ∷ t)) ≡ some t
class_then-All p b c s t h stop = rw (h.0, after_class-All p s b t h.1 stop) (ground arith)

-- No byte is a slash.
abbrev pub NoSlash : Text → Type 0
NoSlash = All (λ c. (c == b'/') ≡ false)

match_fold-NoSlash :
    (l l' xs ys : Text)
    → length l < length xs
    → NoSlash xs
    → match_fold (l ++ (b'/' ∷ l')) (xs ++ ys) ≡ none
unfolding match_fold
match_fold-NoSlash l l' [] ys short h = absurd (omega arith)
match_fold-NoSlash [] l' (x ∷ xs) ys short h = ground arith
match_fold-NoSlash (c ∷ l) l' (x ∷ xs) ys short h = ground (arith, match_fold-NoSlash l l' xs ys)

scheme_then-NoSlash :
    (scheme xs ys : Text)
    → length scheme + 1 < length xs
    → NoSlash xs
    → scheme_then scheme (xs ++ ys) ≡ none
scheme_then-NoSlash scheme xs ys short h =
    let shorter : length (scheme ++ codes ":") < length xs =
      rw (length-append scheme (codes ":")) short in
    rw (← append_assoc scheme (codes ":") (codes "//"))
      (rw (match_fold-NoSlash (scheme ++ codes ":") (codes "/") xs ys shorter h) refl)

-- The URL up to its first slash.
abbrev postgres_colon : Text
postgres_colon = codes "postgres:"

match_here-NoSlash :
    (xs t : Text)
    → 9 < length xs
    → NoSlash xs
    → scheme_then (codes "postgresql") (xs ++ t) ≡ none
    → match_here (xs ++ t) ≡ none
unfolding match_here
match_here-NoSlash xs t long h sql =
    rw
      (
        sql,
        scheme_then-NoSlash (codes "postgres") xs t long h,
        scheme_then-NoSlash (codes "pgx5") xs t (omega arith) h,
        scheme_then-NoSlash (codes "pgx") xs t (omega arith) h,
      )
      refl

long : (n : ℕ) (s : Text) → n < length s + 9 → n < length (s ++ postgres_colon)
long n s h = omega (arith, length-append s postgres_colon)

NoSlash-colon : (s : Text) → NoSlash s → NoSlash (s ++ postgres_colon)
NoSlash-colon s h = All-append (λ c. (c == b'/') ≡ false) s postgres_colon h (ground arith)

-- The two places where the bytes of `postgresql://` could reach past that slash.
not_postgresql-one :
    (c : ℕ) (t : Text) → scheme_then (codes "postgresql") (c ∷ postgres_colon ++ t) ≡ none
unfolding match_fold
not_postgresql-one c t = ground arith

not_postgresql-two :
    (c d : ℕ) (t : Text) → scheme_then (codes "postgresql") (c ∷ d ∷ postgres_colon ++ t) ≡ none
unfolding match_fold
not_postgresql-two c d t = ground arith

not_postgresql :
    (c : ℕ) (s t : Text)
    → NoSlash (c ∷ s)
    → scheme_then (codes "postgresql") (((c ∷ s) ++ postgres_colon) ++ t) ≡ none
not_postgresql c [] t h = not_postgresql-one c t
not_postgresql c (d ∷ []) t h = not_postgresql-two c d t
not_postgresql c (d ∷ e ∷ s) t h =
    scheme_then-NoSlash (codes "postgresql") ((c ∷ d ∷ e ∷ s) ++ postgres_colon) t
      (long 11 (c ∷ d ∷ e ∷ s) (omega arith)) (NoSlash-colon (c ∷ d ∷ e ∷ s) h)

-- No match begins before the URL.
match_here_before :
    (c : ℕ) (s t : Text) → NoSlash (c ∷ s) → match_here ((c ∷ s) ++ (postgres_colon ++ t)) ≡ none
match_here_before c s t h = rw (← append_assoc (c ∷ s) postgres_colon t) (
    match_here-NoSlash ((c ∷ s) ++ postgres_colon) t (long 9 (c ∷ s) (omega arith))
      (NoSlash-colon (c ∷ s) h) (not_postgresql c s t h))

redact_from_before :
    (p t : Text)
    → NoSlash p
    → redact_from 0 (p ++ (postgres_colon ++ t)) ≡ p ++ redact_from 0 (postgres_colon ++ t)
unfolding redact_from
redact_from_before [] t h = refl
redact_from_before (c ∷ p) t h =
    rw (match_here_before c p t h, redact_from) (ap (λ r. c ∷ r) (redact_from_before p t h.1))

redact_from_skip : (q rest : Text) → redact_from (length q) (q ++ rest) ≡ redact_from 0 rest
unfolding redact_from
redact_from_skip [] rest = refl
redact_from_skip (c ∷ q) rest = redact_from_skip q rest

redact_from_rest :
    (s q rest : Text) → s ≡ q ++ rest → redact_from (length s - length rest) s ≡ redact_from 0 rest
redact_from_rest s q rest e =
    let n : length (q ++ rest) - length rest ≡ length q = omega (arith, length-append q rest) in
    rw (e, n) (redact_from_skip q rest)

-- A URL of the scheme with escaped credentials.
abbrev dsn : Text → Text → Text → Text
dsn user password t = codes "postgres://" ++ (user ++ (b':' ∷ (password ++ (b'@' ∷ t))))

-- Text after the URL stands after what follows the credentials.
dsn-append : (user password s t : Text) → dsn user password s ++ t ≡ dsn user password (s ++ t)
dsn-append user password s t = simp append_assoc

part-in_user : (c : ℕ) → IsPart c → in_user c ≡ true
part-in_user c h = ground arith

part-in_password : (c : ℕ) → IsPart c → in_password c ≡ true
part-in_password c h = ground arith

match_user-parts :
    (scheme : Text) (c d : ℕ) (user password t : Text)
    → All IsPart (c ∷ user)
    → All IsPart (d ∷ password)
    → match_user (some (scheme, (c ∷ user) ++ (b':' ∷ ((d ∷ password) ++ (b'@' ∷ t)))))
      ≡ some (scheme, t)
match_user-parts scheme c d user password t u p =
    let until_colon =
      class_then-All in_user b':' c user ((d ∷ password) ++ (b'@' ∷ t))
        (All-map IsPart _ part-in_user (c ∷ user) u) refl in
    let until_at =
      class_then-All in_password b'@' d password t
        (All-map IsPart _ part-in_password (d ∷ password) p) refl in
    ap (match_password scheme) until_colon ∙ ap (after_password scheme) until_at

match_here-dsn :
    (c d : ℕ) (user password t : Text)
    → All IsPart (c ∷ user)
    → All IsPart (d ∷ password)
    → match_here (dsn (c ∷ user) (d ∷ password) t) ≡ some (codes "postgres", t)
unfolding match_here match_fold
match_here-dsn = match_user-parts (codes "postgres")

redact_from-match :
    (c : ℕ) (t scheme rest : Text)
    → match_here (c ∷ t) ≡ some (scheme, rest)
    → redact_from 0 (c ∷ t)
      ≡ scheme ++ (codes "://***:***@" ++ redact_from (length t - length rest) t)
unfolding redact_from
redact_from-match c t scheme rest h = rw (h, redact_from) refl

redact_from-dsn :
    (c d : ℕ) (user password t : Text)
    → All IsPart (c ∷ user)
    → All IsPart (d ∷ password)
    → redact_from 0 (dsn (c ∷ user) (d ∷ password) t)
      ≡ codes "postgres://***:***@" ++ redact_from 0 t
redact_from-dsn c d user password t u p =
    let q = codes "ostgres://" ++ ((c ∷ user) ++ (b':' ∷ ((d ∷ password) ++ (b'@' ∷ [])))) in
    let split : codes "ostgres://" ++ ((c ∷ user) ++ (b':' ∷ ((d ∷ password) ++ (b'@' ∷ t))))
        ≡ q ++ t =
      simp append_assoc in
    redact_from-match b'p' _ (codes "postgres") t (match_here-dsn c d user password t u p)
    ∙ ap (λ r. codes "postgres://***:***@" ++ r) (redact_from_rest _ q t split)

-- What stands after the credentials.
abbrev pub after_credentials : Config → Text
after_credentials cfg =
    escape keeps_host (cfg.db_host ++ (b':' ∷ cfg.db_port))
    ++ (path_of cfg.db_name ++ (codes "?sslmode=" ++ escape_query (ssl_mode_of cfg.db_ssl_mode)))

escape-cons : (s : Text) → is_blank s ≡ false → (c : ℕ) × (t : Text) × (escape keeps_user s ≡ c ∷ t)
unfolding escape trim_space text_eq
escape-cons [] h = absurd (cc)
escape-cons (c ∷ s) h = elim (Bool-cases (keeps_user c)) [
  | inl keeps ↦ (c, escape keeps_user s, rw keeps refl)
  | inr escapes ↦
      (b'%', hex_digit (c / 16) ∷ hex_digit (c % 16) ∷ escape keeps_user s, rw escapes refl)
]

redact_from-escaped :
    (user password t : Text)
    → All IsByte user
    → All IsByte password
    → is_blank user ≡ false
    → is_blank password ≡ false
    → redact_from 0 (dsn (escape keeps_user user) (escape keeps_user password) t)
      ≡ codes "postgres://***:***@" ++ redact_from 0 t
redact_from-escaped user password t u w user_there password_there =
    let (c, s, e) = escape-cons user user_there in
    let (d, r, f) = escape-cons password password_there in
    rw (e, f)
      (redact_from-dsn c d s r t (subst (All IsPart) e (escape-IsPart user u))
        (subst (All IsPart) f (escape-IsPart password w)))

-- An error text with the built URL in it, after any text without a slash and before any text, is
-- redacted to the same text with `***:***` in place of the user and the password; what stands after
-- them, the rest of the URL and of the text, is redacted on its own.
pub redact_dsn-build_database_url :
    (cfg : Config) (url p t : Text)
    → All IsByte cfg.db_user
    → All IsByte cfg.db_password
    → build_database_url cfg ≡ ok url
    → NoSlash p
    → redact_dsn (p ++ (url ++ t))
      ≡ p ++ (codes "postgres://***:***@" ++ redact_dsn (after_credentials cfg ++ t))
unfolding redact_dsn url_text
redact_dsn-build_database_url cfg url p t u w h plain =
    let (e, user_there, password_there) = build_database_url_ok cfg url h in
    let user = escape keeps_user cfg.db_user in
    let password = escape keeps_user cfg.db_password in
    let tail = after_credentials cfg ++ t in
    rw (← e, dsn-append user password (after_credentials cfg) t)
      (redact_from_before p _ plain
        ∙ ap (λ r. p ++ r)
            (redact_from-escaped cfg.db_user cfg.db_password tail u w user_there password_there))
