-- ===== src/Ecb/Sound.antt =====
-- `parseECBStream` and `Fetch` of the adapter, and the scheduler's tests on their records.
use fx_rates.Prelude.{
  ◌&&◌, if◌then◌else◌, if_cases, text_eq, All-map, ℕ, ◌+◌, ◌≤◌, ◌≡◌, refl, sym, ap, ◌∙◌, Bool, true,
  false, not, Text, codes, List, [], ◌∷◌, Option, none, some, All, length, arith, take, zero, suc,
  Bool-cases, inl, inr, leb, ◌==◌,
}
use fx_rates.Float64.{Float64}
use fx_rates.Clock.{Time}
use fx_rates.Clock.Civil.{parse_date}
use fx_rates.Provider.{Record}
use fx_rates.Scheduler.{is_excluded}
use fx_rates.Scheduler.Batch.{is_valid_record, rate_row, row_fits}
use fx_rates.Scanner.{Scanned, line, too_long, scan}
use fx_rates.Ecb.{
  max_int, is_usable_rate, dated_record, rated_record, parse_row, parse_lines, row_record,
  keep_record, parse_stream, Body, max_line_bytes, field,
}

module _ {F : Type 0} ⦃fl : Float64 F⦄ where
  -- A rate of the euro in a currency code of three bytes, above zero and finite.
  abbrev pub IsObservation : Record F → Type 0
  IsObservation r =
      (r.base ≡ codes "EUR")
      × (length r.quote ≡ 3)
      × (is_usable_rate r.rate ≡ true)
      × (r.provider ≡ [])

  -- There is no record, or it is an observation.
  abbrev MayObserve : Option (Record F) → Type 0
  MayObserve none = Unit
  MayObserve (some r) = IsObservation r

  dated_record-MayObserve :
      (quote : Text) (rate : F) (d : Option Time)
      → length quote ≡ 3
      → is_usable_rate rate ≡ true
      → MayObserve (dated_record quote rate d)
  dated_record-MayObserve quote rate none n u = tt
  dated_record-MayObserve quote rate (some d) n u = (refl, n, u, refl)

  rated_record-MayObserve :
      (quote date : Text) (rate : Option F)
      → length quote ≡ 3
      → MayObserve (rated_record quote date rate)
  rated_record-MayObserve quote date none n = tt
  rated_record-MayObserve quote date (some rate) n =
      if_cases MayObserve (is_usable_rate rate) _ _
        (λ u. dated_record-MayObserve quote rate (parse_date date) n u) (λ u. tt)

  keep_record-IsObservation :
      (o : Option (Record F)) (parsed : List (Record F) × Bool)
      → MayObserve o
      → All IsObservation parsed.0
      → All IsObservation (keep_record o parsed).0
  keep_record-IsObservation none parsed h k = k
  keep_record-IsObservation (some r) parsed h k = (h, k)

  IsObservation-accepted :
      (key : Text) (r : Record F)
      → length key ≤ 10
      → IsObservation r
      → (is_valid_record r ≡ not (is_excluded r.quote))
        × (row_fits (rate_row (record r { provider = key })) ≡ true)
  unfolding is_valid_record is_excluded text_eq
  IsObservation-accepted key r k (base, n, usable, p) = ground arith

module _ (F : Type 0) ⦃fl : Float64 F⦄ where
  parse_row-MayObserve : (headers row : List Text) → MayObserve (parse_row F headers row)
  unfolding parse_row
  parse_row-MayObserve headers row =
      let quote = field headers row (codes "CURRENCY") in
      let value = field headers row (codes "OBS_VALUE") in
      let rated = rated_record quote (field headers row (codes "TIME_PERIOD")) (fl.parse value) in
      let valued = if text_eq value [] then none else rated in
      let quoted = if not (length quote == 3) then none else valued in
      let daily = not (text_eq (field headers row (codes "FREQ")) (codes "D")) in
      let may : Option (Record F) → Type 0 = λ o. MayObserve o in
      if_cases may daily none quoted (λ q. tt)
        (λ q.
          if_cases may (not (length quote == 3)) none valued (λ w. tt)
            (λ n.
              if_cases may (text_eq value []) none rated (λ v. tt)
                (λ v. rated_record-MayObserve quote _ (fl.parse value) (ground arith))))

  row_record-MayObserve :
      (headers : List Text) (row : Option (List Text)) → MayObserve (row_record F headers row)
  row_record-MayObserve headers none = tt
  row_record-MayObserve headers (some row) = parse_row-MayObserve headers row

  parse_lines-IsObservation :
      (read_csv : Text → Option (List Text)) (headers : Option (List Text)) (lines : List Scanned)
      → All IsObservation (parse_lines F read_csv headers lines).0
  unfolding parse_lines
  parse_lines-IsObservation read_csv headers [] = tt
  parse_lines-IsObservation read_csv none (too_long ∷ lines) = tt
  parse_lines-IsObservation read_csv (some headers) (too_long ∷ lines) = tt
  parse_lines-IsObservation read_csv none (line l ∷ lines) =
      parse_lines-IsObservation read_csv (read_csv l) lines
  parse_lines-IsObservation read_csv (some headers) (line l ∷ lines) =
      keep_record-IsObservation (row_record F headers (read_csv l)) _
        (row_record-MayObserve headers (read_csv l))
        (parse_lines-IsObservation read_csv (some headers) lines)

take_all : (n : ℕ) (t : Text) → length t ≤ n → take n t ≡ t
take_all zero [] h = refl
take_all zero (c ∷ t) h = absurd (omega arith)
take_all (suc n) [] h = refl
take_all (suc n) (c ∷ t) h = ap (λ l. c ∷ l) (take_all n t (omega arith))

module _ (F : Type 0) ⦃fl : Float64 F⦄ (read_csv : Text → Option (List Text)) where
  -- Every record of a response is a rate of the euro in a currency code of three bytes, above zero and
  -- finite; and where there is no error, the body was no longer than the cap and ended without an
  -- error of its own, no line was too long, and the records are those of all its lines.
  pub parse_stream-IsObservation :
      (cap : ℕ) (body : Body)
      → let (records, e) = parse_stream F read_csv cap body in
        All IsObservation records
        × (e ≡ none
            → (length body.bytes ≤ cap)
              × (body.failure ≡ none)
              × (parse_lines F read_csv none (scan max_line_bytes body.bytes) ≡ (records, false)))
  unfolding parse_stream
  parse_stream-IsObservation cap body =
      let read = if cap == max_int then [] else take (cap + 1) body.bytes in
      let parsed = parse_lines F read_csv none (scan max_line_bytes read) in
      let fit = parse_lines-IsObservation F read_csv none (scan max_line_bytes read) in
      elim (Bool-cases parsed.1) [
        | inl long ↦ rw long (fit, λ e. cc)
        | inr short ↦
            rw short (elim (Bool-cases (not (cap == max_int) && leb (length body.bytes) cap)) [
              | inr over ↦ rw over (tt, λ e. cc)
              | inl whole ↦
                  let all : read ≡ body.bytes = ground (arith, take_all (cap + 1) body.bytes) in
                  rw whole (
                    fit,
                    λ e. (
                      ground arith,
                      e,
                      ap (λ t. parse_lines F read_csv none (scan max_line_bytes t)) (sym all)
                          ∙ ap (λ b. (parsed.0, b)) short,
                    ),
                  )
            ])
      ]

  -- The scheduler's filter keeps every record of a response but those of an excluded currency, and
  -- each fits the columns that it is copied to, under any provider key of at most ten bytes.
  pub parse_stream-accepted :
      (cap : ℕ) (body : Body) (key : Text)
      → length key ≤ 10
      → All
          (λ r.
            (is_valid_record r ≡ not (is_excluded r.quote))
            × (row_fits (rate_row (record r { provider = key })) ≡ true))
          (parse_stream F read_csv cap body).0
  parse_stream-accepted cap body key h =
      All-map IsObservation _ (λ r q. IsObservation-accepted key r h q) _
        (parse_stream-IsObservation cap body).0
