-- ===== src/Config/Url.antt =====
-- `buildDatabaseURL` and `Load`: the database URL from its parts, by the escapes of `net/url`.
pub mod Credentials
use fx_rates.Prelude.{
  ℕ, ◌+◌, ◌/◌, ◌%◌, Bool, ◌&&◌, ◌||◌, Text, codes, List, [], ◌∷◌, ◌++◌, exists, leb, ltb, ◌==◌,
  text_eq, if◌then◌else◌,
}
use fx_rates.Errors.{Error, Result, ok, err, other}
use fx_rates.Strings.{trim_space}
use fx_rates.Config.{Config, with_url}

abbrev pub hex_digit : ℕ → ℕ
hex_digit n = if ltb n 10 then 48 + n else 55 + n

-- Letters, digits and `-_.~`.
abbrev pub is_unreserved : ℕ → Bool
is_unreserved c =
    (leb 97 c && leb c 122)
    || (leb 65 c && leb c 90)
    || (leb 48 c && leb c 57)
    || (c == b'-')
    || (c == b'_')
    || (c == b'.')
    || (c == b'~')

abbrev pub is_one_of : Text → ℕ → Bool
is_one_of set c = exists (λ d. c == d) set

-- What each part of a URL leaves as it is beside the unreserved bytes.
abbrev pub keeps_user : ℕ → Bool
keeps_user c = is_unreserved c || is_one_of (codes "$&+,;=") c

abbrev pub keeps_path : ℕ → Bool
keeps_path c = is_unreserved c || is_one_of (codes "$&+,/:;=@") c

abbrev pub keeps_host : ℕ → Bool
keeps_host c = is_unreserved c || is_one_of (b'"' ∷ codes "!$&'()*+,;=:[]<>") c

abbrev pub escape_byte : (ℕ → Bool) → ℕ → Text
escape_byte keeps c =
    if keeps c then c ∷ [] else b'%' ∷ hex_digit (c / 16) ∷ hex_digit (c % 16) ∷ []

-- `url.escape` of all parts but the query.
unfoldable pub escape : (ℕ → Bool) → Text → Text
escape keeps [] = []
escape keeps (c ∷ t) = escape_byte keeps c ++ escape keeps t

-- `url.QueryEscape`, which writes a space as a plus.
unfoldable pub escape_query : Text → Text
escape_query [] = []
escape_query (c ∷ t) =
    (if c == 32 then b'+' ∷ [] else escape_byte is_unreserved c) ++ escape_query t

-- The path of the URL, which starts with a slash after a host.
abbrev pub path_of : Text → Text
path_of [] = []
path_of (c ∷ t) =
    if c == b'/'
    then escape keeps_path (c ∷ t)
    else if text_eq (c ∷ t) (codes "*")
    then codes "/*"
    else b'/' ∷ escape keeps_path (c ∷ t)

-- `(&url.URL{…}).String()`
unfoldable pub url_text : Config → Text → Text
unfolding escape escape_query
url_text cfg ssl_mode =
    codes "postgres://"
    ++ (escape keeps_user cfg.db_user
        ++ (b':'
            ∷ (escape keeps_user cfg.db_password
                ++ (b'@'
                    ∷ (escape keeps_host (cfg.db_host ++ (b':' ∷ cfg.db_port))
                        ++ (path_of cfg.db_name
                            ++ (codes "?sslmode=" ++ escape_query ssl_mode)))))))

abbrev pub is_blank : Text → Bool
is_blank t = text_eq (trim_space t) []

abbrev pub ssl_mode_of : Text → Text
ssl_mode_of t = let mode = trim_space t in if text_eq mode [] then codes "require" else mode

-- `buildDatabaseURL`
unfoldable pub build_database_url : Config → Result Text
unfolding url_text
build_database_url cfg =
    if is_blank cfg.db_user
      || is_blank cfg.db_password
      || is_blank cfg.db_name
      || is_blank cfg.db_host
      || is_blank cfg.db_port
    then err (
        other (
          codes
            "DATABASE_URL is required, or set DB_USER, DB_PASSWORD, DB_NAME, DB_HOST, and DB_PORT"))
    else ok (url_text cfg (ssl_mode_of cfg.db_ssl_mode))

abbrev pub url_of : Config → Result Text
url_of cfg = if is_blank cfg.database_url then build_database_url cfg else ok cfg.database_url

-- `Load`, of what `envconfig.Process` gives.
unfoldable pub load : Result Config → Result Config
unfolding build_database_url
load (err e) = err e
load (ok cfg) = with_url cfg (url_of cfg)
