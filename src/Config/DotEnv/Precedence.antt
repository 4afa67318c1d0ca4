-- ===== src/Config/DotEnv/Precedence.antt =====
-- The value of a variable after `LoadDotEnv` and after `Bootstrap`.
use fx_rates.Prelude.{
  ◌≡◌, refl, sym, ap, ◌∙◌, ◌||◌, Text, codes, List, [], ◌∷◌, ◌++◌, Option, none, some, arith,
  text_eq, text_eq_iff, Bool-cases, inl, inr, if◌then◌else◌,
}
use fx_rates.Errors.{Error, Result}
use fx_rates.Scanner.{Scanned, line, too_long, scan}
use fx_rates.Config.{Config}
use fx_rates.Config.Url.{load}
use fx_rates.Config.DotEnv.{
  Env, lookup_env, has_nul, parse_line, apply_line, load_lines, Opened, not_found, refused, opened,
  max_token_size, load_dotenv, env_path, after_base, after_local, bootstrap,
}

abbrev pub or_else : Option Text → Option Text → Option Text
or_else none q = q
or_else (some v) q = some v

abbrev prepend : Option (Text × Text) → Env → Env
prepend none rest = rest
prepend (some (key, value)) rest =
    if has_nul key || has_nul value then rest else (key, value) ∷ rest

-- What the lines of a file assign, in order, but for those with a NUL byte.
abbrev pub assignments : List Scanned → Env
assignments [] = []
assignments (too_long ∷ lines) = []
assignments (line l ∷ lines) = prepend (parse_line l) (assignments lines)

abbrev pub file_assignments : Opened → Env
file_assignments not_found = []
file_assignments (refused e) = []
file_assignments (opened bytes failure) = assignments (scan max_token_size bytes)

or_else_assoc : (p q r : Option Text) → or_else (or_else p q) r ≡ or_else p (or_else q r)
or_else_assoc none q r = refl
or_else_assoc (some v) q r = refl

or_else-none : (p : Option Text) → or_else p none ≡ p
or_else-none none = refl
or_else-none (some v) = refl

lookup_env-apply_line :
    (key : Text) (o : Option (Text × Text)) (env rest : Env)
    → or_else (lookup_env key (apply_line o env)) (lookup_env key rest)
      ≡ or_else (lookup_env key env) (lookup_env key (prepend o rest))
lookup_env-apply_line key none env rest = refl
lookup_env-apply_line key (some (k, v)) env rest = elim (Bool-cases (text_eq k key)) [
  | inl same ↦
      let e : lookup_env k env ≡ lookup_env key env =
        ap (λ t. lookup_env t env) ((text_eq_iff k key).0 same) in
      ground (arith, e)
  | inr other ↦ ground arith
]

lookup_env-load_lines :
    (key : Text) (lines : List Scanned) (env : Env)
    → lookup_env key (load_lines lines env).0
      ≡ or_else (lookup_env key env) (lookup_env key (assignments lines))
unfolding load_lines
lookup_env-load_lines key [] env = sym (or_else-none (lookup_env key env))
lookup_env-load_lines key (too_long ∷ lines) env = sym (or_else-none (lookup_env key env))
lookup_env-load_lines key (line l ∷ lines) env =
    lookup_env-load_lines key lines (apply_line (parse_line l) env)
    ∙ lookup_env-apply_line key (parse_line l) env (assignments lines)

-- After a file has been loaded a variable has the value that it had, or else the one that the file
-- assigns to it first; so it is too where the file ends in an error.
pub load_dotenv_lem :
    (file : Opened) (env : Env) (key : Text)
    → lookup_env key (load_dotenv file env).1
      ≡ or_else (lookup_env key env) (lookup_env key (file_assignments file))
unfolding load_dotenv
load_dotenv_lem not_found env key = sym (or_else-none (lookup_env key env))
load_dotenv_lem (refused e) env key = sym (or_else-none (lookup_env key env))
load_dotenv_lem (opened bytes failure) env key =
    lookup_env-load_lines key (scan max_token_size bytes) env

abbrev pub local_file : (Text → Opened) → Text → Opened
local_file files path = files (env_path path ++ codes ".local")

module _ (process : Env → Result Config) where
  after_base-loaded :
      (r : Option Error × Env) → r.0 ≡ none → after_base process r ≡ (load (process r.1), r.1)
  after_base-loaded (none, env) h = refl
  after_base-loaded (some e, env) h = cc

  after_local-loaded :
      (base : Opened) (r : Option Error × Env)
      → r.0 ≡ none
      → after_local process base r ≡ after_base process (load_dotenv base r.1)
  after_local-loaded base (none, env) h = refl
  after_local-loaded base (some e, env) h = cc

-- Where both files are read without an error, a variable has the value of the process environment,
-- or else of `<path>.local`, or else of `<path>`, and the configuration is that of the variables.
pub bootstrap_precedence :
    (process : Env → Result Config) (files : Text → Opened) (path : Text) (env : Env) (key : Text)
    → let local = load_dotenv (local_file files path) env in
      local.0 ≡ none
      → (load_dotenv (files (env_path path)) local.1).0 ≡ none
      → let (cfg, env') = bootstrap process files path env in
        (cfg ≡ load (process env'))
        × (lookup_env key env'
            ≡ or_else (lookup_env key env) (
                or_else
                  (lookup_env key (file_assignments (local_file files path)))
                  (lookup_env key (file_assignments (files (env_path path))))))
unfolding bootstrap
bootstrap_precedence process files path env key local_read base_read =
    let base = files (env_path path) in
    let local = load_dotenv (local_file files path) env in
    let e =
      after_local-loaded process base local local_read
      ∙ after_base-loaded process (load_dotenv base local.1) base_read in
    rw e (
      refl,
      load_dotenv_lem base local.1 key
          ∙ ap (λ p. or_else p (lookup_env key (file_assignments base)))
              (load_dotenv_lem (local_file files path) env key)
          ∙ or_else_assoc (lookup_env key env) _ _,
    )
