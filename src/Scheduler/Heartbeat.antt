-- ===== src/Scheduler/Heartbeat.antt =====
-- The log lines on the running provider: `formatRunningProvider`, `truncateLogValue`, one tick of
-- `emitHeartbeat` and `logCancellation`. The map of running providers has at most one entry.
use fx_rates.Prelude.{
  length-take_le, length-append, ◌<◌, ◌≤◌, arith, ℕ, ◌+◌, ◌-◌, ◌*◌, ◌/◌, ◌%◌, ◌^◌, Bool, true,
  false, ◌||◌, Text, codes, List, [], ◌∷◌, ◌++◌, Option, none, some, length, take, leb, ltb,
  text_eq, if◌then◌else◌,
}
use fx_rates.Clock.{Time, is_zero}
use fx_rates.Clock.Civil.{format_date}
use fx_rates.Number.{decimal}
use fx_rates.Errors.{Error, deadline_exceeded, root}
use fx_rates.Sorting.{sort}
use fx_rates.Strings.{trim_space}
use fx_rates.World.{RunningProvider}

-- `d.Round(time.Second).String()` of a duration that is not negative.
abbrev rounded_seconds : ℕ → ℕ
rounded_seconds d = (d + 5 * 10 ^ 8) / 10 ^ 9

abbrev seconds_text : ℕ → Text
seconds_text s = decimal s ++ codes "s"

abbrev minutes_text : ℕ → Text
minutes_text s = decimal (s / 60) ++ (b'm' ∷ seconds_text (s % 60))

unfoldable pub duration_text : ℕ → Text
unfolding decimal
duration_text d =
    let s = rounded_seconds d in
    if ltb s 60
    then seconds_text s
    else if ltb s 3600
    then minutes_text s
    else decimal (s / 3600) ++ (b'h' ∷ minutes_text (s % 3600))

-- `truncateLogValue`
unfoldable pub truncate_log_value : Text → ℕ → Text
unfolding trim_space
truncate_log_value value max =
    let trimmed = trim_space value in
    if leb (length trimmed) max || leb max 3 then trimmed else take (max - 3) trimmed ++ codes "..."

abbrev stage_part : RunningProvider → List Text
stage_part state = if text_eq state.stage [] then [] else (codes "stage=" ++ state.stage) ∷ []

abbrev window_end : RunningProvider → Text
window_end state =
    if is_zero state.upto then codes "..today" else codes ".." ++ format_date state.upto

abbrev window_part : RunningProvider → List Text
window_part state =
    if is_zero state.fetch_after
    then []
    else (codes "window=" ++ (format_date state.fetch_after ++ window_end state)) ∷ []

abbrev retry_part : RunningProvider → List Text
retry_part state = if ltb 0 state.retry then (codes "retry=" ++ decimal state.retry) ∷ [] else []

abbrev error_part : RunningProvider → List Text
error_part state =
    if text_eq state.last_error []
    then []
    else (codes "last_error=" ++ truncate_log_value state.last_error 80) ∷ []

abbrev idle_part : RunningProvider → Time → List Text
idle_part state now =
    if is_zero state.last_activity
    then []
    else (codes "idle=" ++ duration_text (now - state.last_activity)) ∷ []

-- `strings.Join(parts, ", ")`
abbrev join_comma : List Text → Text
join_comma [] = []
join_comma (t ∷ []) = t
join_comma (t ∷ u ∷ parts) = t ++ (codes ", " ++ join_comma (u ∷ parts))

-- `formatRunningProvider`, at a time not before those of the state and less than 292 years after
-- them, where `Sub` is exact.
unfoldable pub format_running_provider : Text → RunningProvider → Time → Text
unfolding duration_text truncate_log_value format_date decimal
format_running_provider key state now =
    key
    ++ (b'('
        ∷ (join_comma (
              duration_text (now - state.started_at)
              ∷ (stage_part state
                  ++ (window_part state
                      ++ (retry_part state ++ (error_part state ++ idle_part state now)))))
            ++ codes ")"))

abbrev running_lines : Text → Option RunningProvider → Time → List Text
running_lines key none now = []
running_lines key (some state) now = format_running_provider key state now ∷ []

-- A log line: its message, `completed`, `total` and the running providers.
abbrev pub LogLine : Type 0
LogLine = Text × ℕ × ℕ × List Text

-- What one tick of `emitHeartbeat` logs.
unfoldable pub heartbeat_line : Text → Option RunningProvider → ℕ → Time → LogLine
unfolding format_running_provider sort
heartbeat_line key running completed now =
    (codes "backfill: heartbeat", completed, 1, sort (running_lines key running now))

abbrev is_deadline : Option Error → Bool
is_deadline none = false
is_deadline (some e) = elim (root e) [ deadline_exceeded ↦ true | _ ↦ false ]

-- `logCancellation`
unfoldable pub cancellation_line : Text → Option RunningProvider → ℕ → Option Error → Time → LogLine
unfolding format_running_provider sort root
cancellation_line key running completed ctx_err now = (
  if is_deadline ctx_err then codes "backfill: timed out" else codes "backfill: cancelled",
  completed,
  1,
  sort (running_lines key running now),
)

-- A value cut to more than three bytes is no longer than that.
length-truncate_log_value_le :
    (value : Text) (max : ℕ) → 3 < max → length (truncate_log_value value max) ≤ max
unfolding truncate_log_value
length-truncate_log_value_le value max h = ground (
  arith,
  length-append (take (max - 3) (trim_space value)) (codes "..."),
  length-take_le (max - 3) (trim_space value),
)
