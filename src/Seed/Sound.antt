-- ===== src/Seed/Sound.antt =====
-- What seeding leaves alone, and the upsert of a provider as a map update.
use fx_rates.Prelude.{
  codes, ◌≡◌, refl, sym, ◌∙◌, ap, Text, List, [], ◌∷◌, Option, none, some, text_eq, text_eq_iff,
  if◌then◌else◌, false, Bool-cases, inl, inr, arith,
}
use fx_rates.Errors.{Result, ok, err}
use fx_rates.Database.{Rate, Provider, Currency, SyncRun}
use fx_rates.Database.Dates.{Date}
use fx_rates.Database.Providers.{delete_stale_providers, upsert_provider}
use fx_rates.World.{World, Oracles, Metric}
use fx_rates.World.Frame.{Keeps, Keeps-bind, Keeps-statement, Keeps-query}
use fx_rates.Seed.{
  wrapping, Action, delete_stale, read_keys, read_count, read_back, ProviderSeed, SeedFile,
  parse_coverage_start, naming_provider, seed_dated, seed_decoded, seed_file, seed_files,
  seed_providers, seed,
}

-- The row of a key.
abbrev pub get_provider : Text → List Provider → Option Provider
get_provider key [] = none
get_provider key (p ∷ ps) = if text_eq p.key key then some p else get_provider key ps

-- After an upsert the row of its key is the new one, and the other keys have the rows they had.
pub upsert_provider_lem :
    (p : Provider) (ps : List Provider) (key : Text)
    → get_provider key (upsert_provider p ps)
      ≡ (if text_eq p.key key then some p else get_provider key ps)
unfolding upsert_provider
upsert_provider_lem p [] key = refl
upsert_provider_lem p (q ∷ ps) key = elim (Bool-cases (text_eq p.key q.key)) [
  | inl same ↦
      let e : p.key ≡ q.key = (text_eq_iff p.key q.key).0 same in
      rw same (ground (arith, ap (λ k. text_eq k key) e))
  | inr other ↦ rw other (elim (Bool-cases (text_eq q.key key)) [
    | inl here ↦
        let e : q.key ≡ key = (text_eq_iff q.key key).0 here in
        let o : text_eq p.key key ≡ false = ap (λ k. text_eq p.key k) (sym e) ∙ other in
        rw (here, o) refl
    | inr elsewhere ↦ rw elsewhere (upsert_provider_lem p ps key)
  ])
]

-- The rates, the currencies, the audit rows and the metrics.
abbrev pub Untouched : Type 0 → Type 0
Untouched F = List (Rate F) × List Currency × List SyncRun × List Metric

module _ {F : Type 0} where
  abbrev pub untouched_view : World F → Untouched F
  untouched_view w = (w.db.rates, w.db.currencies, w.db.runs, w.metrics)

  module _ (o : Oracles F) where
    naming_provider-keeps :
        (key : Text) (r : Result (Unit {0}) × World F)
        → untouched_view (naming_provider o key r).1 ≡ untouched_view r.1
    naming_provider-keeps key (ok u, w) = refl
    naming_provider-keeps key (err e, w) = refl

    seed_dated-Keeps :
        (p : ProviderSeed) (d : Result Date) → Keeps untouched_view (seed_dated o p d)
    seed_dated-Keeps p (err e) w = refl
    seed_dated-Keeps p (ok start) w =
        naming_provider-keeps p.key _ ∙ Keeps-statement untouched_view o _ (λ v. refl) (λ v. refl) w

    seed_decoded-Keeps : (d : Result ProviderSeed) → Keeps untouched_view (seed_decoded o d)
    seed_decoded-Keeps (err e) w = refl
    seed_decoded-Keeps (ok p) w = seed_dated-Keeps p (parse_coverage_start p.coverage_start) w

    seed_file-Keeps : (f : SeedFile) → Keeps untouched_view (seed_file o f)
    seed_file-Keeps f w = ground (arith, seed_decoded-Keeps f.decoded w)

    seed_files-Keeps : (files : List SeedFile) → Keeps untouched_view (seed_files o files)
    unfolding seed_files
    seed_files-Keeps [] w = refl
    seed_files-Keeps (f ∷ files) w =
        Keeps-bind untouched_view (seed_file o f) (λ _. seed_files o files) (seed_file-Keeps f)
          (λ _. seed_files-Keeps files) w

    delete_stale-Keeps : Keeps untouched_view (delete_stale o)
    unfolding delete_stale_providers
    delete_stale-Keeps = Keeps-statement untouched_view o _ (λ v. refl) (λ v. refl)

    wrapping-Keeps :
        {A : Type 0} (prefix : Text) (m : Action F A)
        → Keeps untouched_view m
        → Keeps untouched_view (wrapping o prefix m)
    wrapping-Keeps prefix m h w = h w

    read_keys-Keeps : Keeps untouched_view (read_keys o)
    read_keys-Keeps = Keeps-query untouched_view o _ (λ v. refl)

    read_count-Keeps : Keeps untouched_view (read_count o)
    read_count-Keeps = Keeps-query untouched_view o _ (λ v. refl)

    read_back-Keeps : Keeps untouched_view (read_back o)
    read_back-Keeps =
        Keeps-bind untouched_view (wrapping o (codes "load provider keys: ") (read_keys o)) _
          (wrapping-Keeps (codes "load provider keys: ") (read_keys o) read_keys-Keeps)
          (λ keys.
            Keeps-bind untouched_view (wrapping o (codes "count providers: ") (read_count o)) _
              (wrapping-Keeps (codes "count providers: ") (read_count o) read_count-Keeps)
              (λ n v. refl))

    seed_providers-Keeps : (files : List SeedFile) → Keeps untouched_view (seed_providers o files)
    unfolding seed_providers
    seed_providers-Keeps files =
        Keeps-bind untouched_view (wrapping o (codes "delete stale providers: ") (delete_stale o)) _
          (wrapping-Keeps (codes "delete stale providers: ") (delete_stale o) delete_stale-Keeps)
          (λ stale.
            Keeps-bind untouched_view (seed_files o files) (λ _. read_back o)
              (seed_files-Keeps files) (λ _. read_back-Keeps))

    -- Whatever fails, seeding changes no rate, currency, audit row or metric.
    pub seed-Keeps : (files : List SeedFile) → Keeps untouched_view (seed o files)
    unfolding seed
    seed-Keeps files =
        wrapping-Keeps (codes "seed providers: ") (seed_providers o files)
          (seed_providers-Keeps files)
