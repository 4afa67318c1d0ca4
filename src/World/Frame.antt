-- ===== src/World/Frame.antt =====
-- What an action leaves alone: a view of the world that it keeps, whatever fails.
use fx_rates.Prelude.{◌≡◌, refl, ◌∙◌, Option, none, some}
use fx_rates.Errors.{Error, Result, ok, err}
use fx_rates.Database.{Db}
use fx_rates.World.{
  World, Oracles, Action, continue, ◌>>=◌, next_tick, run_statement, statement, query,
}

module _ {F X : Type 0} (view : World F → X) where
  abbrev pub Keeps : {A : Type 0} → Action F A → Type 0
  Keeps m = (w : World F) → view (m w).1 ≡ view w

  Keeps-continue :
      {A B : Type 0} (r : Result A) (f : A → Action F B)
      → ((a : A) → Keeps (f a))
      → Keeps (continue r f)
  Keeps-continue (ok a) f h w = h a w
  Keeps-continue (err e) f h w = refl

  pub Keeps-bind :
      {A B : Type 0} (m : Action F A) (f : A → Action F B)
      → Keeps m
      → ((a : A) → Keeps (f a))
      → Keeps (m >>= f)
  Keeps-bind m f hm hf w = Keeps-continue (m w).0 f hf (m w).1 ∙ hm w

  module _ (o : Oracles F) where
    -- The view does not read the clock, and what the statement does to the tables keeps it.
    pub Keeps-statement :
        {A : Type 0} (f : Db F → Result A × Db F)
        → ((w : World F) → view (next_tick w) ≡ view w)
        → ((w : World F) → view (record w { db = (f w.db).1 }) ≡ view w)
        → Keeps (statement o f)
    unfolding statement
    Keeps-statement f ht hf w = go (o.fault w.tick)
      where
        go : (e : Option Error) → view (run_statement o e f (next_tick w)).1 ≡ view w
        go (some e) = ht w
        go none = hf (next_tick w) ∙ ht w

    pub Keeps-query :
        {A : Type 0} (f : Db F → A)
        → ((w : World F) → view (next_tick w) ≡ view w)
        → Keeps (query o f)
    unfolding query
    Keeps-query f ht = Keeps-statement (λ d. (ok (f d), d)) ht (λ w. refl)
