-- ===== src/Scheduler/Backfill/Sound.antt =====
-- `BackfillProvider` on every path: what its result says and what it has done to the rates.
use fx_rates.Prelude.{
  ◌∙◌, ◌+◌, ◌≤◌, ◌≡◌, ◌≢◌, refl, sym, Bool, Text, List, [], Option, none, some, arith, append-nil,
  Bool-cases, inl, inr,
}
use fx_rates.Clock.{Time, truncate_day}
use fx_rates.Number.{ℤ}
use fx_rates.Float64.{Float64}
use fx_rates.Errors.{Error}
use fx_rates.Database.{Rate}
use fx_rates.Database.Rates.Upsert.{KeysUnique}
use fx_rates.Provider.Fetch.{Outcome, returned, out_of_fuel}
use fx_rates.Provider.Fetch.Total.{fetch_each-total}
use fx_rates.Provider.Fetch.Invariant.{IsInvariant, fetch_each-keeps}
use fx_rates.World.{World, Oracles, Progress, no_progress, next_tick}
use fx_rates.Scheduler.{BackfillResult, Status}
use fx_rates.Scheduler.Start.{
  clone_time_ptr, LePtr, LePtr-refl, max_time_ptr-is_lub, get_start_date, is_up_to_date, start_from,
  adjust_start_for_mode,
}
use fx_rates.Scheduler.Batch.{process_batch}
use fx_rates.Scheduler.Batch.Sound.{IsSound, Grown, process_batch-IsSound}
use fx_rates.Scheduler.Backfill.{
  classify_fetch_error, finalize_success, initial_result, finish, world_surroundings, world_adapter,
  world_observer, fetch_and_store, backfill_provider,
}

module _ {F : Type 0} ⦃fl : Float64 F⦄ (o : Oracles F) (key : Text) (base : List (Rate F)) where
  IsSound-IsInvariant :
      (range : ℤ)
      → IsInvariant
          (world_surroundings o)
          (world_adapter o range)
          (world_observer o)
          (process_batch o key)
          (IsSound key base)
  IsSound-IsInvariant range = record {
    keeps_fetch = λ from upto w h. record { grown = h.grown; accounted = h.accounted };
    keeps_observe = λ e w h. record { grown = h.grown; accounted = h.accounted };
    keeps_backoff = λ n w h. record { grown = h.grown; accounted = h.accounted };
    keeps_fn = λ records w h. process_batch-IsSound o key base records w h;
  }

  pub fetch_and_store-IsSound :
      (range : ℤ) (start : Time) (w : World F)
      → IsSound key base w
      → IsSound key base (fetch_and_store o range key start w).1
  unfolding fetch_and_store
  fetch_and_store-IsSound range start =
      fetch_each-keeps (world_surroundings o) (world_adapter o range) (world_observer o)
        (process_batch o key) (IsSound key base) (IsSound-IsInvariant range) start

-- The statuses in which `BackfillProvider` may end.
abbrev pub IsTerminal : Option Status → Type 0
IsTerminal none = ⊥
IsTerminal (some Status.interrupted) = ⊥
IsTerminal _ = Unit

-- What the result of a provider run promises of the rates before and after it.
pub record IsFaithful {F : Type 0} ⦃fl : Float64 F⦄ (key : Text) (last_synced : Option Time)
    (before after : List (Rate F)) (r : BackfillResult) : Type 0 where
  pub grown : Grown key before after r.inserted
  pub accounted : r.inserted + r.skipped ≤ r.fetched
  pub named : r.provider ≡ key
  pub terminal : IsTerminal r.status
  pub before_eq : r.last_synced_before ≡ last_synced
  pub after_ge : LePtr last_synced r.last_synced_after

clone_time_ptr_lem : (p : Option Time) → clone_time_ptr p ≡ p
clone_time_ptr_lem none = refl
clone_time_ptr_lem (some t) = refl

-- The counts and the identity of a result are those of the progress and of the initial result.
abbrev Closes : BackfillResult → Progress → BackfillResult → Type 0
Closes r p f =
    (f.fetched ≡ p.fetched)
    × (f.inserted ≡ p.inserted)
    × (f.skipped ≡ p.skipped)
    × (f.provider ≡ r.provider)
    × (f.last_synced_before ≡ r.last_synced_before)
    × LePtr r.last_synced_after f.last_synced_after
    × IsTerminal f.status

finalize_success-Closes : (r : BackfillResult) (p : Progress) → Closes r p (finalize_success r p)
unfolding finalize_success
finalize_success-Closes r p = ground (
  arith,
  LePtr-refl r.last_synced_after,
  max_time_ptr-is_lub r.last_synced_after p.max_seen_date none,
)

classify_fetch_error-Closes :
    (e : Error) (r : BackfillResult) (p : Progress) → Closes r p (classify_fetch_error e r p)
unfolding classify_fetch_error
classify_fetch_error-Closes e r p = ground (arith, LePtr-refl r.last_synced_after)

module _ {F : Type 0} ⦃fl : Float64 F⦄ (key : Text) (last_synced : Option Time)
    (base : List (Rate F)) where
  Closes-IsFaithful :
      (rates : List (Rate F)) (p : Progress) (f : BackfillResult)
      → Grown key base rates p.inserted
      → p.inserted + p.skipped ≤ p.fetched
      → Closes (initial_result key last_synced) p f
      → IsFaithful key last_synced base rates f
  Closes-IsFaithful rates p f grown accounted (ef, ei, es, ep, eb, la, term) = record {
    grown = rw ei grown;
    accounted = omega arith;
    named = ep;
    terminal = term;
    before_eq = eb ∙ clone_time_ptr_lem last_synced;
    after_ge = rw (clone_time_ptr_lem last_synced) at la;
  }

  finish-IsFaithful :
      (r : Outcome × World F)
      → r.0 ≢ out_of_fuel
      → IsSound key base r.1
      → let (result, w) = finish (initial_result key last_synced) r in
        IsFaithful key last_synced base w.db.rates result
  finish-IsFaithful (returned none, w) total h =
      Closes-IsFaithful w.db.rates w.progress _ h.grown h.accounted
        (finalize_success-Closes _ w.progress)
  finish-IsFaithful (returned (some e), w) total h =
      Closes-IsFaithful w.db.rates w.progress _ h.grown h.accounted
        (classify_fetch_error-Closes e _ w.progress)
  finish-IsFaithful (out_of_fuel, w) total h = absurd (total refl)

module _ {F : Type 0} ⦃fl : Float64 F⦄ (o : Oracles F) (key : Text)
    (last_synced : Option Time) where
  pub fetch_and_store-total :
      (range : ℤ) (start : Time) (w : World F)
      → (fetch_and_store o range key start w).0 ≢ out_of_fuel
  unfolding fetch_and_store
  fetch_and_store-total range start w =
      fetch_each-total (world_surroundings o) (world_adapter o range) (world_observer o)
        (process_batch o key) start w

  -- From rates that keep the primary key, a provider run ends in a terminal status on every path,
  -- whatever fails: the rates keep the key and have only grown, by as many rows as the result counts
  -- as inserted, each fit to be stored; it counts no more rows than it fetched; and its last-synced
  -- date has not moved back.
  pub backfill_provider-IsFaithful :
      (range : ℤ) (coverage_start : Option Time) (daily_sync : Bool) (lookback : ℤ) (w : World F)
      → KeysUnique w.db.rates
      → let (result, w') =
          backfill_provider o key range coverage_start last_synced daily_sync lookback w in
        IsFaithful key last_synced w.db.rates w'.db.rates result
  unfolding backfill_provider
  backfill_provider-IsFaithful range coverage_start daily_sync lookback w unique =
      let after = get_start_date coverage_start last_synced in
      let today = truncate_day (o.now w.tick) in
      let start = (adjust_start_for_mode (start_from after) today daily_sync lookback).0 in
      let w' = record (next_tick w) { progress = no_progress } in
      let nothing : Grown key w.db.rates w.db.rates 0 =
        (unique, [], sym (append-nil w.db.rates), refl, tt) in
      let clean : IsSound key w.db.rates w' = record { grown = nothing; accounted = omega arith } in
      elim (Bool-cases (is_up_to_date after today)) [
        | inl current ↦ rw current (record {
          grown = nothing;
          accounted = omega arith;
          named = refl;
          terminal = tt;
          before_eq = clone_time_ptr_lem last_synced;
          after_ge = rw (clone_time_ptr_lem last_synced) (LePtr-refl last_synced);
        })
        | inr behind ↦ rw behind (
            finish-IsFaithful key last_synced w.db.rates (fetch_and_store o range key start w')
              (fetch_and_store-total range start w')
              (fetch_and_store-IsSound o key w.db.rates range start w' clean))
      ]
