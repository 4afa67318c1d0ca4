-- ===== src/Scheduler/Backfill/Coverage.antt =====
-- The windows of days that `BackfillProvider` asks for.
use fx_rates.Prelude.{
  ◌<◌, ℕ, ◌+◌, ◌≤◌, ◌≡◌, ◌≢◌, refl, ap, ◌∙◌, Bool, true, false, ◌||◌, Text, List, [], ◌∷◌, ◌++◌,
  Option, none, some, arith, Bool-cases, inl, inr, All, All-map, append-nil,
}
use fx_rates.Clock.{zero_time, Time, day, is_zero, before, truncate_day}
use fx_rates.Number.{ℤ}
use fx_rates.Float64.{Float64}
use fx_rates.Errors.{Result, ok, err}
use fx_rates.Provider.{Record}
use fx_rates.Provider.Fetch.{Outcome, returned, out_of_fuel}
use fx_rates.Provider.Fetch.Answers.{Answer, ask, records_of, Covers, Follows}
use fx_rates.Provider.Fetch.Windows.{
  Progress, Progress-returned, Progress-Follows, IsLogged, fetch_each_covers,
}
use fx_rates.World.{World, Oracles, no_progress, next_tick}
use fx_rates.Scheduler.{BackfillResult, Status}
use fx_rates.Scheduler.Start.{get_start_date, is_up_to_date, start_from, adjust_start_for_mode}
use fx_rates.Scheduler.Batch.{process_batch}
use fx_rates.Scheduler.Batch.Events.{book, process_batch-book}
use fx_rates.Scheduler.Backfill.{
  answered, classify_fetch_error, finalize_success, initial_result, finish, world_surroundings,
  world_adapter, world_observer, fetch_and_store, backfill_provider,
}

-- Where the context wins the wait of a backoff, it has an error from then on.
pub record IsContext {F : Type 0} (o : Oracles F) : Type 0 where
  pub done_has_error : (n : ℕ) → o.ctx_wins n ≡ true → o.ctx_err (n + 1) ≢ none

ask-answered :
    {F : Type 0} (from upto : Time) (r : Result (List (Record F))) (requests : List Answer)
    (given : ℕ)
    → (requests ++ answered from upto r, given) ≡ ask from upto r (requests, given)
ask-answered from upto (ok records) requests given = refl
ask-answered from upto (err e) requests given = ap (λ ws. (ws, given)) (append-nil requests)

module _ {F : Type 0} ⦃fl : Float64 F⦄ (o : Oracles F) where
  world-IsLogged :
      (range : ℤ) (key : Text)
      → IsContext o
      → IsLogged
          (world_surroundings o)
          (world_adapter o range)
          (world_observer o)
          (process_batch o key)
          (book o)
  world-IsLogged range key c = record {
    log-fetch = λ from upto w.
        ask-answered from upto (o.upstream w.tick from upto) w.requests w.progress.fetched;
    log-observe = λ e w. refl;
    log-backoff = λ n w. refl;
    log-fn = λ records w. process_batch-book o key records w;
    done_has_error = λ n w. c.done_has_error w.tick;
  }

  -- The progress of the fetch of a provider that is behind.
  fetch_and_store-Progress :
      (range : ℤ) (key : Text) (start : Time) (w : World F)
      → (c : IsContext o) → (is_zero start || before start (truncate_day (o.now w.tick))) ≡ true
      → Progress
          (world_surroundings o)
          (world_adapter o range)
          (world_observer o)
          (process_batch o key)
          (book o)
          (world-IsLogged range key c)
          (truncate_day (o.now w.tick))
          start
          (book o w)
          (fetch_and_store o range key start w)
  unfolding fetch_and_store
  fetch_and_store-Progress range key start w c behind =
      fetch_each_covers (world_surroundings o) (world_adapter o range) (world_observer o)
        (process_batch o key) (book o) (world-IsLogged range key c) start w behind

  fetch_and_store-Follows :
      (range : ℤ) (key : Text) (start : Time) (w : World F)
      → IsContext o
      → (is_zero start || before start (truncate_day (o.now w.tick))) ≡ true
      → w.requests ≡ []
      → let w' = (fetch_and_store o range key start w).1 in
        Follows range (truncate_day (o.now w.tick)) start w'.requests
  fetch_and_store-Follows range key start w c behind fresh =
      let today = truncate_day (o.now w.tick) in
      let (ws, e, follows) =
        Progress-Follows (world_surroundings o) (world_adapter o range) (world_observer o)
          (process_batch o key) (book o) (world-IsLogged range key c) today start (book o w) _
          (fetch_and_store-Progress range key start w c behind) in
      rw (ap (λ b. b.0) e ∙ ap (λ rs. rs ++ ws) fresh) follows

  fetch_and_store-Covers :
      (range : ℤ) (key : Text) (start : Time) (w : World F)
      → IsContext o
      → (is_zero start || before start (truncate_day (o.now w.tick))) ≡ true
      → w.requests ≡ []
      → w.progress ≡ no_progress
      → let (r, w') = fetch_and_store o range key start w in
        r ≡ returned none
        → Covers range (truncate_day (o.now w.tick)) start w'.requests
          × (w'.progress.fetched ≡ records_of w'.requests)
  fetch_and_store-Covers range key start w c behind fresh none_yet ended =
      let today = truncate_day (o.now w.tick) in
      let (ws, e, covers) =
        Progress-returned (world_surroundings o) (world_adapter o range) (world_observer o)
          (process_batch o key) (book o) (world-IsLogged range key c) today start (book o w) _
          (fetch_and_store-Progress range key start w c behind) ended in
      let asked = ap (λ b. b.0) e ∙ ap (λ rs. rs ++ ws) fresh in
      let counted = ap (λ b. b.1) e ∙ ap (λ p. p.fetched + records_of ws) none_yet in
      (rw asked covers, rw asked (omega (arith, counted)))

Follows-from :
    (range : ℤ) (today cursor : Time) (ws : List Answer)
    → Follows range today cursor ws
    → All (λ w. cursor ≤ w.0) ws
Follows-from range today cursor [] f = tt
Follows-from range today cursor (w ∷ []) (e, o) = (ground arith, tt)
Follows-from range today cursor (w ∷ v ∷ ws) (e, h, f) =
    let le : cursor ≤ w.1 = ground arith in
    (
      ground arith,
      All-map (λ x. w.1 ≤ x.0) (λ x. cursor ≤ x.0) (λ x q. omega arith) (v ∷ ws)
          (Follows-from range today w.1 (v ∷ ws) f),
    )

-- In windows that follow one another from a cursor, every window starts after it.
Follows-after :
    (range : ℤ) (today cursor : Time) (ws : List Answer)
    → is_zero cursor ≡ false
    → Follows range today cursor ws
    → All (λ w. cursor + day ≤ w.0) ws
Follows-after range today cursor [] z f = tt
Follows-after range today cursor (w ∷ []) z (e, o) = (ground arith, tt)
Follows-after range today cursor (w ∷ v ∷ ws) z (e, h, f) =
    let le : cursor + day ≤ w.1 = ground arith in
    (
      ground arith,
      All-map (λ x. w.1 ≤ x.0) (λ x. cursor + day ≤ x.0) (λ x q. omega arith) (v ∷ ws)
          (Follows-from range today w.1 (v ∷ ws) f),
    )

-- Only a fetch that returned nil ends in success.
finish-success :
    {F : Type 0} (result : BackfillResult) (r : Outcome × World F)
    → result.status ≡ none
    → (finish result r).0.status ≡ some Status.success
    → r.0 ≡ returned none
unfolding classify_fetch_error
finish-success result (returned none, w) n h = refl
finish-success result (returned (some e), w) n h = ground arith
finish-success result (out_of_fuel, w) n h = cc

finish-world :
    {F : Type 0} (result : BackfillResult) (r : Outcome × World F) → (finish result r).1 ≡ r.1
finish-world result (returned none, w) = refl
finish-world result (returned (some e), w) = refl
finish-world result (out_of_fuel, w) = refl

finish-fetched :
    {F : Type 0} (result : BackfillResult) (r : Outcome × World F)
    → r.0 ≡ returned none
    → (finish result r).0.fetched ≡ r.1.progress.fetched
unfolding finalize_success
finish-fetched result (returned none, w) h = ground arith
finish-fetched result (returned (some e), w) h = cc
finish-fetched result (out_of_fuel, w) h = cc

module _ {F : Type 0} ⦃fl : Float64 F⦄ (o : Oracles F) where
  -- A provider run that ends in success has been answered requests for windows that follow one
  -- another without gap or overlap, from the day after its start to a last one with an open end, and
  -- it reports as many fetched rows as they were answered with. The windows before the last end
  -- before today and are no longer than the adapter's range; the last is open where the range
  -- reaches today, there is no range or it begins no later than the zero time. The start is the last
  -- synced date or else the coverage start, or the floor of a daily_sync; it lies before today, and
  -- a context that is done has an error.
  pub backfill_provider-Covers :
      (key : Text) (range : ℤ) (coverage_start last_synced : Option Time) (daily_sync : Bool)
      (lookback : ℤ) (w : World F)
      → IsContext o
      → w.requests ≡ []
      → let today = truncate_day (o.now w.tick) in
        let later = truncate_day (o.now (w.tick + 1)) in
        let start =
          (adjust_start_for_mode
            (start_from (get_start_date coverage_start last_synced))
            today
            daily_sync
            lookback).0 in
        (is_zero start || before start later) ≡ true
        → let (result, w') =
            backfill_provider o key range coverage_start last_synced daily_sync lookback w in
          result.status ≡ some Status.success
          → Covers range later start w'.requests × (result.fetched ≡ records_of w'.requests)
  unfolding backfill_provider
  backfill_provider-Covers key range coverage_start last_synced daily_sync lookback w c fresh behind
        h =
      let after = get_start_date coverage_start last_synced in
      let today = truncate_day (o.now w.tick) in
      let start = (adjust_start_for_mode (start_from after) today daily_sync lookback).0 in
      let w' = record (next_tick w) { progress = no_progress } in
      elim (Bool-cases (is_up_to_date after today)) [
        | inl current ↦
            let h' = rw current at h in
            let never : some Status.up_to_date ≡ some Status.success = h' in cc
        | inr late ↦
            let h' = rw late at h in
            let result = initial_result key last_synced in
            let r = fetch_and_store o range key start w' in
            let ended = finish-success result r refl h' in
            let (covers, counted) =
              fetch_and_store-Covers o range key start w' c behind fresh refl ended in
            rw (late, finish-world result r, finish-fetched result r ended) (covers, counted)
      ]

  -- A full run from an empty table is never answered a request that could hold the coverage start:
  -- where the clock is past that day, every request that is answered, however the run ends, begins
  -- at least a day after it.
  pub full_run_misses_coverage_start :
      (key : Text) (range : ℤ) (coverage_start : Time) (lookback : ℤ) (w : World F)
      → IsContext o
      → w.requests ≡ []
      → coverage_start ≢ zero_time
      → coverage_start < truncate_day (o.now (w.tick + 1))
      → let w' = (backfill_provider o key range (some coverage_start) none false lookback w).1 in
        All (λ request. coverage_start + day ≤ request.0) w'.requests
  unfolding backfill_provider get_start_date start_from adjust_start_for_mode
  full_run_misses_coverage_start key range coverage_start lookback w c fresh dated past =
      let today = truncate_day (o.now w.tick) in
      let w' = record (next_tick w) { progress = no_progress } in
      elim (Bool-cases (is_up_to_date (some coverage_start) today)) [
        | inl current ↦ rw (current, fresh) tt
        | inr late ↦
            let r = fetch_and_store o range key coverage_start w' in
            rw (late, finish-world (initial_result key none) r)
              (Follows-after range _ coverage_start _ (ground arith)
                (fetch_and_store-Follows o range key coverage_start w' c (ground arith) fresh))
      ]
