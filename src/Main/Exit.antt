-- ===== src/Main/Exit.antt =====
-- The exit code against the way the provider ended.
use fx_rates.Prelude.{◌≡◌, ◌≢◌, ◌↔◌, ◌+◌, Bool, false, Text, Option, none, some, arith}
use fx_rates.Clock.{Time}
use fx_rates.Errors.{Error}
use fx_rates.World.{World, Oracles}
use fx_rates.Scheduler.{Options, BackfillResult, Status}
use fx_rates.Scheduler.Backfill.Sound.{IsTerminal}
use fx_rates.Scheduler.Entry.{after_backfill}
use fx_rates.Scheduler.Entry.Exit.{after_backfill-exit}
use fx_rates.Main.{resolve_exit_code}

resolve_exit_code-zero :
    (signalled : Bool) (e : Option Error)
    → (resolve_exit_code signalled e ≡ 0) ↔ ((signalled ≡ false) × (e ≡ none))
unfolding resolve_exit_code
resolve_exit_code-zero signalled e = ground arith

-- A run whose provider has ended exits with 0 exactly where no signal has come, the context is alive
-- after the audit row and the provider did not end in `error`; so it does for an `unavailable` one.
pub exit_code-zero :
    {F : Type 0} (o : Oracles F) (opts : Options) (key : Text) (started : Time)
    (result : BackfillResult) (w : World F) (signalled : Bool)
    → IsTerminal result.status
    → (resolve_exit_code signalled (after_backfill o opts key started (result, w)).0 ≡ 0) ↔ (
        (signalled ≡ false) × (o.ctx_err (w.tick + 1) ≡ none) × (result.status ≢ some Status.error))
exit_code-zero o opts key started result w signalled h =
    let run_err = (after_backfill o opts key started (result, w)).0 in
    let (only, enough) = (after_backfill-exit o opts key started result w h).0 in
    let (zero_only, zero_enough) = resolve_exit_code-zero signalled run_err in
    (
      λ z. let (quiet, nil) = zero_only z in let (alive, fine) = only nil in (quiet, alive, fine),
      λ (quiet, alive, fine). zero_enough (quiet, enough (alive, fine)),
    )
