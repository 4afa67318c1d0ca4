-- ===== src/Seed.antt =====
-- internal/db/seed.go: the providers of the embedded files put into the table. Reading and decoding
-- a file is a parameter.
pub mod Examples
pub mod Sound
use fx_rates.Prelude.{
  ℕ, ◌-◌, ◌%◌, ◌^◌, Bool, true, false, not, ◌||◌, Text, codes, List, [], ◌∷◌, ◌++◌, Option, none,
  some, text_eq, if◌then◌else◌,
}
use fx_rates.Clock.{Time}
use fx_rates.Clock.Civil.{parse_date}
use fx_rates.Number.{ℤ, pos, negsuc, to_int32}
use fx_rates.Errors.{Error, Result, ok, err, other, wrapped}
use fx_rates.Database.{Db, Provider}
use fx_rates.Database.Dates.{Date, null_date, time_to_date}
use fx_rates.Database.Providers
use fx_rates.World.{World, Oracles, Action, ◌>>=◌, ◌>>◌, pure, raise, statement, query}

-- `providerSeed`
pub record ProviderSeed : Type 0 where
  pub key : Text
  pub name : Text
  pub country_code : Option Text
  pub rate_type : Option Text
  pub pivot_currency : Option Text
  pub data_url : Option Text
  pub terms_url : Option Text
  pub publish_time : Option ℤ
  pub publish_days : Option Text
  pub coverage_start : Option Text

-- An entry of the embedded directory; `decoded` is what reading and decoding it gives.
pub record SeedFile : Type 0 where
  pub name : Text
  pub is_dir : Bool
  pub decoded : Result ProviderSeed

-- `path.Ext`: from the last dot after the last slash on.
abbrev ext_from : Text → Text → Text
ext_from ext [] = ext
ext_from ext (c ∷ t) =
    ext_from
      (if text_eq (c ∷ []) (codes ".")
        then c ∷ t
        else if text_eq (c ∷ []) (codes "/")
        then []
        else ext)
      t

abbrev int32_of : ℤ → ℤ
int32_of (pos n) = to_int32 n
int32_of (negsuc n) = to_int32 (2 ^ 32 - 1 - n % 2 ^ 32)

-- `intPtrToInt32Ptr`
abbrev pub int_ptr_to_int32_ptr : Option ℤ → Option ℤ
int_ptr_to_int32_ptr none = none
int_ptr_to_int32_ptr (some v) = some (int32_of v)

abbrev date_or_error : Option Time → Result Date
date_or_error none = err (other (codes "parsing time"))
date_or_error (some t) = ok (time_to_date t)

-- `parseCoverageStart`
unfoldable pub parse_coverage_start : Option Text → Result Date
parse_coverage_start none = ok null_date
parse_coverage_start (some []) = ok null_date
parse_coverage_start (some (c ∷ t)) = date_or_error (parse_date (c ∷ t))

-- The row of a seed with its parsed date.
abbrev pub seed_row : ProviderSeed → Date → Provider
seed_row p start = record {
  key = p.key;
  name = p.name;
  country_code = p.country_code;
  rate_type = p.rate_type;
  pivot_currency = p.pivot_currency;
  data_url = p.data_url;
  terms_url = p.terms_url;
  publish_time = int_ptr_to_int32_ptr p.publish_time;
  publish_days = p.publish_days;
  coverage_start = start;
}

module _ {F : Type 0} (o : Oracles F) where
  abbrev pub upsert_row : Provider → Action F (Unit {0})
  upsert_row row =
      statement o (λ d. (ok tt, record d { providers = Providers.upsert_provider row d.providers }))

  -- The error of a failed upsert names the provider.
  abbrev pub naming_provider : Text → Result (Unit {0}) × World F → Result (Unit {0}) × World F
  naming_provider key (ok u, w) = (ok u, w)
  naming_provider key (err e, w) =
      (err (wrapped (codes "upsert provider " ++ (key ++ codes ": ")) e), w)

  abbrev pub seed_dated : ProviderSeed → Result Date → Action F (Unit {0})
  seed_dated p (err e) w =
      (err (wrapped (codes "parse coverage_start for " ++ (p.key ++ codes ": ")) e), w)
  seed_dated p (ok start) w = naming_provider p.key (upsert_row (seed_row p start) w)

  abbrev pub seed_decoded : Result ProviderSeed → Action F (Unit {0})
  seed_decoded (err e) w = (err e, w)
  seed_decoded (ok p) w = seed_dated p (parse_coverage_start p.coverage_start) w

  -- One round of the loop.
  abbrev pub seed_file : SeedFile → Action F (Unit {0})
  seed_file f w =
      if f.is_dir || not (text_eq (ext_from [] f.name) (codes ".json"))
      then (ok tt, w)
      else seed_decoded f.decoded w

  unfoldable pub seed_files : List SeedFile → Action F (Unit {0})
  seed_files [] = pure tt
  seed_files (f ∷ files) = seed_file f >> seed_files files

  abbrev pub wrapping : {A : Type 0} → Text → Action F A → Action F A
  wrapping prefix m w =
      let (r, w') = m w in (elim r [ ok a ↦ ok a | err e ↦ err (wrapped prefix e) ], w')

  abbrev pub delete_stale : Action F (List Text)
  delete_stale =
      statement o (λ d. let (stale, d') = Providers.delete_stale_providers d in (ok stale, d'))

  abbrev pub read_keys : Action F (List Text)
  read_keys = query o (λ d. Providers.list_provider_keys d.providers)

  abbrev pub read_count : Action F ℕ
  read_count = query o (λ d. Providers.count_providers d.providers)

  -- The reads at the end, which only feed a log line.
  abbrev pub read_back : Action F (Unit {0})
  read_back = do
    keys ← wrapping (codes "load provider keys: ") read_keys
    count ← wrapping (codes "count providers: ") read_count
    pure tt

  -- `seedProviders`
  unfoldable pub seed_providers : List SeedFile → Action F (Unit {0})
  unfolding seed_files
  seed_providers files = do
    stale ← wrapping (codes "delete stale providers: ") delete_stale
    seed_files files
    read_back

  -- `Seed`
  unfoldable pub seed : List SeedFile → Action F (Unit {0})
  unfolding seed_providers
  seed files = wrapping (codes "seed providers: ") (seed_providers files)
