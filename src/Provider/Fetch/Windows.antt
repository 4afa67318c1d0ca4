-- ===== src/Provider/Fetch/Windows.antt =====
-- The windows that `FetchEachObserved` asks the adapter for, and the records that it hands on.
use fx_rates.Prelude.{
  length, ◌&&◌, not, ◌||◌, inl, Bool-cases, inr, ap, Option-cases, sym, ℕ, zero, suc, ◌+◌, ◌*◌, ◌≤◌,
  ◌<◌, ◌≡◌, ◌≢◌, refl, true, false, List, [], ◌∷◌, ◌++◌, Option, none, some, arith, append_assoc,
  append-nil, ◌∙◌,
}
use fx_rates.Clock.{before, truncate_day, Time, day, is_zero}
use fx_rates.Errors.{Error, Result, ok, err, message}
use fx_rates.Provider.{fetching, Record, Adapter, FetchEvent, failed, retrying, fetched, processed}
use fx_rates.Provider.Fetch.{
  rounds_fuel, fetch_each_observed, rounds, fetch_window, after_fetch, after_delivery, Surroundings,
  event, Fetched, got, stopped, no_fuel, max_retries, on_fetch_error, on_fetch, fetch_retrying,
  Outcome, returned, out_of_fuel, fetch_start, fetch_upto, deliver,
}
use fx_rates.Provider.Fetch.Answers.{
  Answer, Book, records_of, answer, ask, hand, fetch_start_lem, IsClosed, Follows, Covers,
  Covers-Follows, fetch_upto_lem, fetch_upto-MayBeOpen, fetch_upto-window,
}

-- The environment books each request of the adapter that is answered, with the dates of the request,
-- and each call of `fn`; nothing else changes the book, and a context that is done has an error.
pub record IsLogged {F S : Type 0} (u : Surroundings S) (a : Adapter F S)
    (observe : FetchEvent → S → S) (fn : List (Record F) → S → Option Error × S) (log : S → Book)
    : Type 0 where
  pub log-fetch :
      (from upto : Time) (s : S)
      → log (a.fetch from upto s).1 ≡ ask from upto (a.fetch from upto s).0 (log s)
  pub log-observe : (e : FetchEvent) (s : S) → log (observe e s) ≡ log s
  pub log-backoff : (n : ℕ) (s : S) → log (u.backoff n s).1 ≡ log s
  pub log-fn :
      (records : List (Record F)) (s : S) → log (fn records s).1 ≡ hand (length records) (log s)
  pub done_has_error :
      (n : ℕ) (s : S) → (u.backoff n s).0 ≡ true → u.ctx_err (u.backoff n s).1 ≢ none

module _ {F S : Type 0} (u : Surroundings S) (a : Adapter F S) (observe : FetchEvent → S → S)
    (fn : List (Record F) → S → Option Error × S) (log : S → Book)
    (l : IsLogged u a observe fn log) where
  -- The retries book one answer where they end with records, and nothing where they end in an error.
  abbrev IsQuiet : Time → Time → Book → Fetched F × S → Type 0
  IsQuiet from upto base (got records n, s) = log s ≡ answer from upto (length records) base
  IsQuiet from upto base (stopped none, s) = ⊥
  IsQuiet from upto base (stopped (some e), s) = log s ≡ base
  IsQuiet from upto base (no_fuel, s) = ⊥

  on_fetch-IsQuiet :
      (again : ℕ → S → Fetched F × S) (from upto : Time) (base : Book) (retries : ℕ)
      → ((s : S)
          → retries + 1 ≤ max_retries
          → log s ≡ base
          → IsQuiet from upto base (again (retries + 1) s))
      → (r : Result (List (Record F)) × S) → log r.1 ≡ ask from upto r.0 base
      → IsQuiet from upto base (on_fetch u a observe again from upto retries r)
  unfolding on_fetch on_fetch_error
  on_fetch-IsQuiet again from upto base retries next (ok records, s) k =
      l.log-observe (event fetched from upto retries []) s ∙ k
  on_fetch-IsQuiet again from upto base retries next (err e, s) k =
      let waiting = observe (event retrying from upto (retries + 1) (message e)) s in
      let woken = (u.backoff (retries + 1) waiting).1 in
      ground (
        arith,
        next woken,
        l.log-observe (event failed from upto retries (message e)) s,
        l.log-observe (event failed from upto (retries + 1) (message e)) s,
        l.log-observe (event retrying from upto (retries + 1) (message e)) s,
        l.log-backoff (retries + 1) waiting,
        l.done_has_error (retries + 1) waiting,
      )

  fetch_retrying-IsQuiet :
      (fuel : ℕ) (from upto : Time) (base : Book) (retries : ℕ) (s : S)
      → max_retries < fuel + retries
      → retries ≤ max_retries
      → log s ≡ base
      → IsQuiet from upto base (fetch_retrying u a observe fuel from upto retries s)
  unfolding fetch_retrying
  fetch_retrying-IsQuiet zero from upto base retries s f h k = absurd (omega arith)
  fetch_retrying-IsQuiet (suc fuel) from upto base retries s f h k =
      on_fetch-IsQuiet (fetch_retrying u a observe fuel from upto) from upto base retries
        (λ s' h' k'.
          fetch_retrying-IsQuiet fuel from upto base (retries + 1) s' (omega arith) h' k')
        (a.fetch from upto s)
        (l.log-fetch from upto s ∙ ap (ask from upto (a.fetch from upto s).0) k)

  -- The answers since the book was `base`, with all of their records handed to `fn`.
  abbrev pub Booked : Book → List Answer → S → Type 0
  Booked base ws s = log s ≡ (base.0 ++ ws, base.1 + records_of ws)

  -- What the loop has asked for since the book was `base` and the cursor was `cursor`.
  abbrev pub Progress : Time → Time → Book → Outcome × S → Type 0
  Progress today cursor base (returned none, s) =
      (ws : List Answer) × Booked base ws s × Covers a.backfill_range today cursor ws
  Progress today cursor base (returned (some e), s) =
      (ws : List Answer) × Booked base ws s × Follows a.backfill_range today cursor ws
  Progress today cursor base (out_of_fuel, s) = ⊥

  -- The book after a window that was answered and delivered.
  abbrev after_window : Time → Time → ℕ → Book → Book
  after_window from upto n base = hand n (answer from upto n base)

  Booked-cons :
      (from upto : Time) (n : ℕ) (base : Book) (ws : List Answer) (s : S)
      → Booked (after_window from upto n base) ws s
      → Booked base ((from, upto, n) ∷ ws) s
  Booked-cons from upto n (asked, given) ws s h =
      h
      ∙ ap (λ xs. (xs, given + n + records_of ws)) (append_assoc asked ((from, upto, n) ∷ []) ws)
      ∙ ap (λ k. (asked ++ (from, upto, n) ∷ ws, k)) (omega arith)

  Booked-nil : (base : Book) (s : S) → log s ≡ base → Booked base [] s
  Booked-nil (asked, given) s h =
      h ∙ ap (λ xs. (xs, given)) (sym (append-nil asked)) ∙ ap (λ k. (asked ++ [], k)) (omega arith)

  Booked-one :
      (from upto : Time) (n : ℕ) (base : Book) (s : S)
      → log s ≡ after_window from upto n base
      → Booked base ((from, upto, n) ∷ []) s
  Booked-one from upto n base s h =
      Booked-cons from upto n base [] s (Booked-nil (after_window from upto n base) s h)

  -- A round for a window with an end is followed by the rest of the loop.
  Progress-cons :
      (today cursor upto : Time) (n : ℕ) (base : Book) (r : Outcome × S)
      → IsClosed a.backfill_range today (fetch_start cursor) upto
      → Progress today upto (after_window (fetch_start cursor) upto n base) r
      → Progress today cursor base r
  Progress-cons today cursor upto n base (returned none, s) h ([], e, c) = absurd c
  Progress-cons today cursor upto n base (returned none, s) h (w ∷ ws, e, c) = (
    (fetch_start cursor, upto, n) ∷ w ∷ ws,
    Booked-cons (fetch_start cursor) upto n base (w ∷ ws) s e,
    (fetch_start_lem cursor, h, c),
  )
  Progress-cons today cursor upto n base (returned (some x), s) h ([], e, c) = (
    (fetch_start cursor, upto, n) ∷ [],
    Booked-cons (fetch_start cursor) upto n base [] s e,
    (fetch_start_lem cursor, inr h),
  )
  Progress-cons today cursor upto n base (returned (some x), s) h (w ∷ ws, e, c) = (
    (fetch_start cursor, upto, n) ∷ w ∷ ws,
    Booked-cons (fetch_start cursor) upto n base (w ∷ ws) s e,
    (fetch_start_lem cursor, h, c),
  )
  Progress-cons today cursor upto n base (out_of_fuel, s) h p = p

  -- `fn` is called with the records unless there are none.
  log-deliver :
      (records : List (Record F)) (s : S)
      → log (deliver u a observe fn records s).1 ≡ hand (length records) (log s)
  unfolding deliver
  log-deliver [] s = ap (λ k. ((log s).0, k)) (omega arith)
  log-deliver (r ∷ records) s = l.log-fn (r ∷ records) s

  module _ (again : Time → S → Outcome × S) (today cursor : Time) (base : Book) where
    abbrev from : Time
    from = fetch_start cursor

    abbrev upto : Time
    upto = fetch_upto a.backfill_range today from

    module _
        (next : is_zero upto ≡ false
          → (n : ℕ) (s : S) → log s ≡ after_window from upto n base
          → Progress today upto (after_window from upto n base) (again upto s)) where
      after_delivery-Progress :
          (retries n : ℕ) (r : Option Error × S)
          → log r.1 ≡ after_window from upto n base
          → Progress today cursor base
              (after_delivery u a observe fn again today from upto retries r)
      unfolding after_delivery
      after_delivery-Progress retries n (some e, s) k = (
        (from, upto, n) ∷ [],
        Booked-one from upto n base s k,
        (fetch_start_lem cursor, fetch_upto-window a.backfill_range today cursor),
      )
      after_delivery-Progress retries n (none, s) k =
          let s' = observe (event processed from upto retries []) s in
          let logged : log s' ≡ after_window from upto n base = l.log-observe _ s ∙ k in
          elim (Bool-cases (is_zero upto)) [
            | inl open_end ↦
                let open_facts = fetch_upto-MayBeOpen a.backfill_range today from open_end in
                rw open_end (
                  (from, upto, n) ∷ [],
                  Booked-one from upto n base s' logged,
                  (fetch_start_lem cursor, open_facts),
                )
            | inr closed ↦
                let facts = fetch_upto_lem a.backfill_range today cursor closed in
                let inside : before upto today ≡ true = ground arith in
                rw (closed, inside)
                  (Progress-cons today cursor upto n base (again upto s')
                    (facts.1, facts.2, facts.3) (next closed n s' logged))
          ]

      after_fetch-Progress :
          (r : Fetched F × S)
          → IsQuiet from upto base r
          → Progress today cursor base (after_fetch u a observe fn again today from upto r)
      unfolding after_fetch
      after_fetch-Progress (got records n, s) k =
          after_delivery-Progress n (length records) (deliver u a observe fn records s)
            (log-deliver records s ∙ ap (hand (length records)) k)
      after_fetch-Progress (stopped none, s) k = absurd k
      after_fetch-Progress (stopped (some e), s) k = ([], Booked-nil base s k, tt)
      after_fetch-Progress (no_fuel, s) k = absurd k

      fetch_window-Progress :
          (s : S)
          → log s ≡ base
          → Progress today cursor base (fetch_window u a observe fn again today from upto s)
      unfolding fetch_window
      fetch_window-Progress s k = after_fetch-Progress _ (
          fetch_retrying-IsQuiet (suc max_retries) from upto base 0 _ (omega arith) (omega arith)
            (l.log-observe (event fetching from upto 0 []) s ∙ k))

  -- The fuel is enough where each round moves the cursor by a day or more.
  rounds-Progress :
      (fuel : ℕ) (today cursor : Time) (base : Book) (s : S)
      → today < cursor + fuel * day
      → 0 < fuel
      → log s ≡ base
      → Progress today cursor base (rounds u a observe fn fuel today cursor s)
  unfolding rounds
  rounds-Progress zero today cursor base s f h k = absurd (omega arith)
  rounds-Progress (suc fuel) today cursor base s f h k = elim (Option-cases (u.ctx_err s)) [
    | inr (e, done) ↦ rw (done, rounds) ([], Booked-nil base s k, tt)
    | inl alive ↦
        rw (alive, rounds)
          (fetch_window-Progress (rounds u a observe fn fuel today) today cursor base
            (λ closed n s' k'.
              let facts = fetch_upto_lem a.backfill_range today cursor closed in
              rounds-Progress fuel today _ _ s' (omega arith) (omega arith) k')
            s k)
  ]

  -- With an environment that books the answered requests and the calls of `fn`, and an instant
  -- before today (or none) to start after, the loop returns. On every path the answered requests
  -- ask for windows that follow one another without gap or overlap from the day after the start,
  -- and as many records as they were answered with were handed to `fn`. Each window ends before
  -- today and is no longer than the adapter's range, but for a last one whose end is open; that is
  -- only where its range reaches today, where there is no range or where it begins no later than
  -- the zero time. A `return nil` means that such a window was the last.
  pub fetch_each_covers :
      (start : Time) (s : S)
      → let today = truncate_day (u.now s) in
        (is_zero start || before start today) ≡ true
        → Progress today start (log s) (fetch_each_observed u a observe fn start s)
  unfolding fetch_each_observed
  fetch_each_covers start s h =
      let today = truncate_day (u.now s) in
      let goes : (not (is_zero start) && not (before start today)) ≡ false = ground arith in
      rw goes (
        rounds-Progress (rounds_fuel today start) today start (log s) s (omega arith) (omega arith)
          refl)

  pub Progress-Follows :
      (today cursor : Time) (base : Book) (r : Outcome × S)
      → Progress today cursor base r
      → (ws : List Answer) × Booked base ws r.1 × Follows a.backfill_range today cursor ws
  Progress-Follows today cursor base (returned none, s) (ws, b, c) =
      (ws, b, Covers-Follows a.backfill_range today cursor ws c)
  Progress-Follows today cursor base (returned (some x), s) p = p
  Progress-Follows today cursor base (out_of_fuel, s) p = absurd p

  -- What the progress says of a loop that returned nil.
  pub Progress-returned :
      (today cursor : Time) (base : Book) (r : Outcome × S)
      → Progress today cursor base r
      → r.0 ≡ returned none
      → (ws : List Answer) × Booked base ws r.1 × Covers a.backfill_range today cursor ws
  Progress-returned today cursor base (returned none, s) p e = p
  Progress-returned today cursor base (returned (some x), s) p e = cc
  Progress-returned today cursor base (out_of_fuel, s) p e = absurd p
