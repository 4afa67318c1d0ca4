-- ===== src/Database/Runs.antt =====
-- RecordSyncRun and GetLatestSyncRun.
use fx_rates.Prelude.{
  ◌+◌, Text, List, [], ◌∷◌, ◌++◌, Option, none, some, length, ltb, text_eq, if◌then◌else◌,
}
use fx_rates.Database.{SyncRun}

-- `INSERT INTO sync_runs (…) VALUES (…)`; `id` is the next number of the sequence.
unfoldable pub record_sync_run : SyncRun → List SyncRun → List SyncRun
record_sync_run r runs = runs ++ record r { id = length runs + 1 } ∷ []

abbrev later_run : SyncRun → Option SyncRun → SyncRun
later_run r none = r
later_run r (some q) = if ltb r.finished_at q.finished_at then q else r

-- `SELECT … WHERE provider = $1 ORDER BY finished_at DESC LIMIT 1`
unfoldable pub get_latest_sync_run : Text → List SyncRun → Option SyncRun
get_latest_sync_run key [] = none
get_latest_sync_run key (r ∷ runs) =
    let best = get_latest_sync_run key runs in
    if text_eq r.provider key then some (later_run r best) else best
