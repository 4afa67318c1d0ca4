-- ===== src/Provider/Fetch/Answers.antt =====
-- The windows of `FetchEachObserved`: what its rounds may ask the adapter for.
use fx_rates.Prelude.{
  ◌⊎◌, length, if◌then◌else◌, ==_iff, inl, Bool-cases, inr, ℕ, zero, suc, ◌+◌, ◌*◌, ◌≤◌, ◌<◌, ◌≡◌,
  true, false, List, [], ◌∷◌, ◌++◌, arith,
}
use fx_rates.Clock.{Time, day, zero_time, is_zero}
use fx_rates.Number.{ℤ, pos, negsuc}
use fx_rates.Errors.{Result, ok, err}
use fx_rates.Provider.{Record}
use fx_rates.Provider.Fetch.{fetch_start, fetch_upto}

-- A request that the adapter has answered: the first day, the last one, where the zero time stands
-- for today, and the number of records of the answer.
abbrev pub Answer : Type 0
Answer = Time × Time × ℕ

-- The requests that were answered, and the number of records that `fn` was called with.
abbrev pub Book : Type 0
Book = List Answer × ℕ

abbrev pub records_of : List Answer → ℕ
records_of [] = 0
records_of ((from, upto, n) ∷ ws) = n + records_of ws

-- After an answer of `n` records for a window.
abbrev pub answer : Time → Time → ℕ → Book → Book
answer from upto n (ws, given) = (ws ++ (from, upto, n) ∷ [], given)

-- After a request: one that ends in an error is not booked.
abbrev pub ask : {F : Type 0} → Time → Time → Result (List (Record F)) → Book → Book
ask from upto (ok records) b = answer from upto (length records) b
ask from upto (err e) b = b

-- After a call of `fn`.
abbrev pub hand : ℕ → Book → Book
hand n (ws, given) = (ws, given + n)

-- At most `range` days from the first to the last.
abbrev pub WithinRange : ℤ → Time → Time → Type 0
WithinRange (pos n) from upto = upto + day ≤ from + n * day
WithinRange (negsuc n) from upto = ⊥

-- The day after one that is there; after none, from the beginning.
abbrev pub day_after : Time → Time
day_after cursor = if is_zero cursor then zero_time else cursor + day

pub fetch_start_lem : (cursor : Time) → fetch_start cursor ≡ day_after cursor
unfolding fetch_start
fetch_start_lem cursor = ground (arith, ==_iff cursor zero_time)

-- An end is left open for an adapter without a range, for a window that begins no later than the
-- zero time, and where the range reaches today.
abbrev pub MayBeOpen : ℤ → Time → Time → Type 0
MayBeOpen (negsuc n) today from = Unit
MayBeOpen (pos zero) today from = Unit
MayBeOpen (pos (suc n)) today from = zero_time < from → today ≤ from + n * day

-- A window with an end, which lies before today, and no longer than the range.
abbrev pub IsClosed : ℤ → Time → Time → Time → Type 0
IsClosed range today from upto = (from ≤ upto) × (upto < today) × WithinRange range from upto

-- A window with an open end, where that is allowed.
abbrev pub IsOpen : ℤ → Time → Time → Time → Type 0
IsOpen range today from upto = (upto ≡ zero_time) × MayBeOpen range today from

-- Each begins on the day after the one before it ends, and all but the last have an end.
abbrev pub Follows : ℤ → Time → Time → List Answer → Type 0
Follows range today cursor [] = Unit
Follows range today cursor ((from, upto, n) ∷ []) =
    (from ≡ day_after cursor) × (IsOpen range today from upto ⊎ IsClosed range today from upto)
Follows range today cursor ((from, upto, n) ∷ w ∷ ws) =
    (from ≡ day_after cursor) × IsClosed range today from upto × Follows range today upto (w ∷ ws)

-- They follow one another to a last one with an open end.
abbrev pub Covers : ℤ → Time → Time → List Answer → Type 0
Covers range today cursor [] = ⊥
Covers range today cursor ((from, upto, n) ∷ []) =
    (from ≡ day_after cursor) × IsOpen range today from upto
Covers range today cursor ((from, upto, n) ∷ w ∷ ws) =
    (from ≡ day_after cursor) × IsClosed range today from upto × Covers range today upto (w ∷ ws)

pub Covers-Follows :
    (range : ℤ) (today cursor : Time) (ws : List Answer)
    → Covers range today cursor ws
    → Follows range today cursor ws
Covers-Follows range today cursor [] c = tt
Covers-Follows range today cursor (w ∷ []) (e, o) = (e, inl o)
Covers-Follows range today cursor (w ∷ v ∷ ws) (e, h, c) =
    (e, h, Covers-Follows range today w.1 (v ∷ ws) c)

pub fetch_upto_lem :
    (range : ℤ) (today cursor : Time)
    → is_zero (fetch_upto range today (fetch_start cursor)) ≡ false
    → let from = fetch_start cursor in
      let upto = fetch_upto range today from in
      (cursor + day ≤ from) × (from ≤ upto) × (upto < today) × WithinRange range from upto
unfolding fetch_upto fetch_start
fetch_upto_lem (negsuc n) today cursor h = ground arith
fetch_upto_lem (pos zero) today cursor h = ground arith
fetch_upto_lem (pos (suc n)) today cursor h = ground arith

-- Only a window that may be left open has no end.
pub fetch_upto-MayBeOpen :
    (range : ℤ) (today from : Time)
    → is_zero (fetch_upto range today from) ≡ true
    → (fetch_upto range today from ≡ zero_time) × MayBeOpen range today from
unfolding fetch_upto zero_time
fetch_upto-MayBeOpen (negsuc n) today from h = ground arith
fetch_upto-MayBeOpen (pos zero) today from h = ground arith
fetch_upto-MayBeOpen (pos (suc n)) today from h = ground arith

pub fetch_upto-window :
    (range : ℤ) (today cursor : Time)
    → let from = fetch_start cursor in
      let upto = fetch_upto range today from in
      IsOpen range today from upto ⊎ IsClosed range today from upto
fetch_upto-window range today cursor =
    elim (Bool-cases (is_zero (fetch_upto range today (fetch_start cursor)))) [
      | inl open_end ↦ inl (fetch_upto-MayBeOpen range today (fetch_start cursor) open_end)
      | inr closed ↦
          let facts = fetch_upto_lem range today cursor closed in inr (facts.1, facts.2, facts.3)
    ]
