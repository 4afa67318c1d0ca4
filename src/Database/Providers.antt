-- ===== src/Database/Providers.antt =====
-- The statements on `providers`: ListProviders, ListProviderKeys, CountProviders,
-- DeleteStaleProviders and UpsertProvider.
use fx_rates.Prelude.{
  ℕ, Bool, ◌||◌, Text, List, [], ◌∷◌, codes, exists, map, length, text_eq, if◌then◌else◌,
}
use fx_rates.Sorting.{sort_by, sort}
use fx_rates.Database.{Db, Provider, CurrencyCoverage}

-- `key IN ('ECB', 'CURAPI')`
unfoldable pub is_known : Text → Bool
is_known key = text_eq key (codes "ECB") || text_eq key (codes "CURAPI")

-- `SELECT … FROM providers ORDER BY key`
unfoldable pub list_providers : List Provider → List Provider
list_providers = sort_by (λ p. p.key)

-- `SELECT key FROM providers ORDER BY key`
unfoldable pub list_provider_keys : List Provider → List Text
list_provider_keys providers = sort (map (λ p. p.key) providers)

-- `SELECT COUNT(*) FROM providers`
unfoldable pub count_providers : List Provider → ℕ
count_providers = length

abbrev pub known_providers : List Provider → List Provider
known_providers [] = []
known_providers (p ∷ ps) =
    let rest = known_providers ps in if is_known p.key then p ∷ rest else rest

abbrev pub stale_keys : List Provider → List Text
stale_keys [] = []
stale_keys (p ∷ ps) = let rest = stale_keys ps in if is_known p.key then rest else p.key ∷ rest

-- `ON DELETE CASCADE`: a coverage goes with its provider.
abbrev pub known_coverages : List Text → List CurrencyCoverage → List CurrencyCoverage
known_coverages stale [] = []
known_coverages stale (c ∷ cs) =
    let rest = known_coverages stale cs in
    if exists (text_eq c.provider_key) stale then rest else c ∷ rest

-- `DELETE FROM providers WHERE key NOT IN ('ECB', 'CURAPI') RETURNING key`
unfoldable pub delete_stale_providers : {F : Type 0} → Db F → List Text × Db F
delete_stale_providers d =
    let stale = stale_keys d.providers in
    (
      stale,
      record d {
        providers = known_providers d.providers;
        coverages = known_coverages stale d.coverages;
      },
    )

-- `INSERT INTO providers … ON CONFLICT (key) DO UPDATE SET …`
unfoldable pub upsert_provider : Provider → List Provider → List Provider
upsert_provider p [] = p ∷ []
upsert_provider p (q ∷ ps) = if text_eq p.key q.key then p ∷ ps else q ∷ upsert_provider p ps
