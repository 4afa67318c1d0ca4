-- ===== src/Config/DotEnv.antt =====
-- internal/config/dotenv.go over the process environment and a file system.
pub mod Precedence
use fx_rates.Prelude.{
  ℕ, ◌*◌, Bool, true, false, ◌||◌, Text, codes, List, [], ◌∷◌, ◌++◌, Option, none, some, exists,
  ◌==◌, text_eq, if◌then◌else◌,
}
use fx_rates.Errors.{Error, Result, ok, err, other}
use fx_rates.Scanner.{Scanned, line, too_long, scan}
use fx_rates.Strings.{trim_by, trim_space, cut_at}
use fx_rates.Config.{Config}
use fx_rates.Config.Url.{load}

-- The process environment; the first entry of a variable counts.
abbrev pub Env : Type 0
Env = List (Text × Text)

-- `os.LookupEnv`
abbrev pub lookup_env : Text → Env → Option Text
lookup_env key [] = none
lookup_env key ((k, v) ∷ env) =
    let rest = lookup_env key env in if text_eq k key then some v else rest

abbrev pub has_nul : Text → Bool
has_nul = exists (λ c. c == 0)

-- What a line assigns: it is trimmed, and neither empty nor a comment; its name is not empty, and the
-- quotes round its value are dropped.
abbrev named : Text → Text → Option (Text × Text)
named key value =
    if text_eq key []
    then none
    else some (key, trim_by (λ c. (c == b'"') || (c == 39)) (trim_space value))

abbrev assigned : Option (Text × Text) → Option (Text × Text)
assigned none = none
assigned (some (key, value)) = named (trim_space key) value

abbrev pub parse_trimmed : Text → Option (Text × Text)
parse_trimmed [] = none
parse_trimmed (c ∷ t) = if c == b'#' then none else assigned (cut_at b'=' (c ∷ t))

unfoldable pub parse_line : Text → Option (Text × Text)
unfolding trim_by
parse_line l = parse_trimmed (trim_space l)

-- `os.Setenv`, whose error is ignored: a NUL byte is refused.
abbrev pub set_env : Text → Text → Env → Env
set_env key value env = if has_nul key || has_nul value then env else (key, value) ∷ env

abbrev set_if_absent : Text → Text → Option Text → Env → Env
set_if_absent key value none env = set_env key value env
set_if_absent key value (some v) env = env

-- One round of the loop of `LoadDotEnv`.
abbrev pub apply_line : Option (Text × Text) → Env → Env
apply_line none env = env
apply_line (some (key, value)) env = set_if_absent key value (lookup_env key env) env

-- The loop, and whether a line was too long for the scanner.
unfoldable pub load_lines : List Scanned → Env → Env × Bool
unfolding parse_line
load_lines [] env = (env, false)
load_lines (too_long ∷ lines) env = (env, true)
load_lines (line l ∷ lines) env = load_lines lines (apply_line (parse_line l) env)

-- What `os.Open` and reading give: no such file, another error, or bytes and the error that ends
-- them, if it is not EOF.
pub data Opened : Type 0 where
  not_found : Opened
  refused : Error → Opened
  opened : Text → Option Error → Opened

-- `bufio.MaxScanTokenSize`
abbrev pub max_token_size : ℕ
max_token_size = 64 * 1024

abbrev scan_error : Bool → Option Error → Option Error
scan_error true failure = some (other (codes "bufio.Scanner: token too long"))
scan_error false failure = failure

-- `LoadDotEnv`
unfoldable pub load_dotenv : Opened → Env → Option Error × Env
unfolding load_lines scan
load_dotenv not_found env = (none, env)
load_dotenv (refused e) env = (some e, env)
load_dotenv (opened bytes failure) env =
    let (env', long) = load_lines (scan max_token_size bytes) env in (scan_error long failure, env')

abbrev pub env_path : Text → Text
env_path path = if text_eq (trim_space path) [] then codes ".env" else path

-- `Bootstrap`; `process` is `envconfig.Process`.
module _ (process : Env → Result Config) where
  abbrev pub after_base : Option Error × Env → Result Config × Env
  after_base (some e, env) = (err e, env)
  after_base (none, env) = (load (process env), env)

  abbrev pub after_local : Opened → Option Error × Env → Result Config × Env
  after_local base (some e, env) = (err e, env)
  after_local base (none, env) = after_base (load_dotenv base env)

  unfoldable pub bootstrap : (Text → Opened) → Text → Env → Result Config × Env
  unfolding load_dotenv
  bootstrap files path env =
      after_local (files (env_path path))
        (load_dotenv (files (env_path path ++ codes ".local")) env)
