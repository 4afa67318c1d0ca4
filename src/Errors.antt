-- ===== src/Errors.antt =====
-- Go's `error` values, as the program makes, wraps and inspects them, and results that may be one.
use fx_rates.Prelude.{ℕ, Bool, Text, codes, [], ◌++◌, text_eq, if◌then◌else◌}
use fx_rates.Number.{decimal}

pub data Error : Type 0 where
  -- `context.Canceled`, `context.DeadlineExceeded`
  canceled deadline_exceeded : Error
  -- `syscall.ECONNRESET`, `syscall.EPIPE`, `io.EOF`
  econnreset epipe eof : Error
  -- `&provider.Unavailable{Msg}`
  unavailable : Text → Error
  -- `&provider.HTTPStatusError{StatusCode, Body}`
  http_status : ℕ → Text → Error
  -- any other `net.Error`, by its `Timeout()` and its message
  net : Bool → Text → Error
  -- `fmt.Errorf("<prefix>%w", err)`
  wrapped : Text → Error → Error
  -- any other error, by its message
  other : Text → Error

-- `(*HTTPStatusError).Error`
unfoldable pub http_status_message : ℕ → Text → Text
http_status_message status body =
    if text_eq body []
    then codes "upstream returned http " ++ decimal status
    else codes "upstream returned http " ++ (decimal status ++ (codes ": " ++ body))

-- `err.Error()`; `(*Unavailable).Error` is its message.
unfoldable pub message : Error → Text
message canceled = codes "context canceled"
message deadline_exceeded = codes "context deadline exceeded"
message econnreset = codes "connection reset by peer"
message epipe = codes "broken pipe"
message eof = codes "EOF"
message (unavailable msg) = msg
message (http_status status body) = http_status_message status body
message (net timeout msg) = msg
message (wrapped prefix e) = prefix ++ message e
message (other msg) = msg

-- What `errors.Is` and `errors.As` find in the chain of wrapped errors.
unfoldable pub root : Error → Error
root (wrapped prefix e) = root e
root canceled = canceled
root deadline_exceeded = deadline_exceeded
root econnreset = econnreset
root epipe = epipe
root eof = eof
root (unavailable msg) = unavailable msg
root (http_status status body) = http_status status body
root (net timeout msg) = net timeout msg
root (other msg) = other msg

pub data Result {ℓ} (A : Type ℓ) : Type ℓ where
  ok : A → Result A
  err : Error → Result A
