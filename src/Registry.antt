-- ===== src/Registry.antt =====
-- internal/registry/registry.go: the adapters by their keys. An adapter is the model of its type.
use fx_rates.Prelude.{Text, codes, List, [], ◌∷◌}

-- The implementations of `provider.Adapter`.
pub data AdapterImpl : Type 0 where
  ecb : AdapterImpl

-- `Entry`
pub record Entry : Type 0 where
  pub key : Text
  pub adapter : AdapterImpl

-- `All()`
unfoldable pub all : List Entry
all = record { key = codes "ECB"; adapter = ecb } ∷ []
