-- ===== src/Provider.antt =====
-- internal/provider/adapter.go: the records, the adapter interface and the errors worth a retry.
pub mod Fetch
use fx_rates.Prelude.{ℕ, Bool, true, false, ◌&&◌, ◌||◌, Text, List, Option, some, leb, ltb, ◌==◌}
use fx_rates.Clock.{Time}
use fx_rates.Number.{ℤ}
use fx_rates.Errors.{
  Error, canceled, deadline_exceeded, econnreset, epipe, eof, unavailable, http_status, net,
  wrapped, other, root, Result,
}

-- `provider` is filled in by the scheduler after the fetch.
pub record Record (F : Type 0) : Type 0 where
  pub date : Time
  pub base : Text
  pub quote : Text
  pub rate : F
  pub provider : Text

-- `S` is the state of everything that an adapter reads.
pub record Adapter (F S : Type 0) : Type 0 where
  pub fetch : Time → Time → S → Result (List (Record F)) × S
  pub backfill_range : ℤ

pub data Stage : Type 0 where
  fetching fetched failed retrying processed : Stage

pub record FetchEvent : Type 0 where
  pub stage : Stage
  pub fetch_after : Time
  pub upto : Time
  pub retry : ℕ
  pub last_error : Text

-- 429, and 500 to 599.
abbrev pub is_transient_status : ℕ → Bool
is_transient_status status = (status == 429) || (leb 500 status && ltb status 600)

abbrev is_transient_root : Error → Bool
is_transient_root econnreset = true
is_transient_root epipe = true
is_transient_root eof = true
is_transient_root (http_status status body) = is_transient_status status
-- `context.DeadlineExceeded` is a `net.Error` that reports a timeout.
is_transient_root deadline_exceeded = true
is_transient_root (net timeout msg) = timeout
is_transient_root canceled = false
is_transient_root (unavailable msg) = false
is_transient_root (wrapped prefix e) = false
is_transient_root (other msg) = false

-- `IsTransient`; every chain of errors that the program makes ends in one root.
unfoldable pub is_transient : Error → Bool
unfolding root
is_transient e = is_transient_root (root e)
