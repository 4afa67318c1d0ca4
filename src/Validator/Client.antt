-- ===== src/Validator/Client.antt =====
-- `ReferenceClient`: its symbols, its cache and the requests behind it.
use fx_rates.Prelude.{
  ℕ, ◌+◌, not, ◌||◌, Text, codes, List, [], ◌∷◌, ◌++◌, Option, none, some, exists, length, ◌==◌,
  text_eq, if◌then◌else◌,
}
use fx_rates.Clock.{Time, sub_days}
use fx_rates.Clock.Civil.{format_date}
use fx_rates.Number.{decimal}
use fx_rates.Float64.{Float64}
use fx_rates.Errors.{Error, Result, ok, err, other}
use fx_rates.Sorting.{sort, text_lt}
use fx_rates.Strings.{trim_space, to_upper}
use fx_rates.Validator.{Snapshot, euro, cross_rate}

-- One entry of `frankfurterResponse`.
pub record Item (F : Type 0) : Type 0 where
  pub date : Text
  pub base : Text
  pub quote : Text
  pub rate : F

-- What a request meets: no response, a status other than 200, a body that is not decoded, or data.
pub data Answer (F : Type 0) : Type 0 where
  no_response : Error → Answer F
  bad_status : ℕ → Answer F
  undecoded : Error → Answer F
  data_of : List (Item F) → Answer F

-- `ReferenceClient`, and how many requests it has made.
pub record Client (F : Type 0) : Type 0 where
  pub symbols : List Text
  pub cache : List (Text × Snapshot F)
  pub requests : ℕ

-- What the service answers to the n-th request for the days `from` to `to` and the symbols.
abbrev pub Service : Type 0 → Type 0
Service F = ℕ → Text → Text → List Text → Answer F

abbrev add_symbol : List Text → Text → List Text
add_symbol uniq symbol =
    if not (length symbol == 3) || text_eq symbol euro || exists (text_eq symbol) uniq
    then uniq
    else symbol ∷ uniq

abbrev unique_symbols : List Text → List Text → List Text
unique_symbols uniq [] = uniq
unique_symbols uniq (s ∷ symbols) =
    unique_symbols (add_symbol uniq (to_upper (trim_space s))) symbols

-- `NewReferenceClient`
unfoldable pub new_client : {F : Type 0} → List Text → Client F
new_client symbols = record { symbols = sort (unique_symbols [] symbols); cache = []; requests = 0 }

abbrev pub get_cached : {F : Type 0} → Text → List (Text × Snapshot F) → Option (Snapshot F)
get_cached key [] = none
get_cached key ((k, s) ∷ cache) = if text_eq k key then some s else get_cached key cache

module _ {F : Type 0} where
  -- One round of the loop over the data.
  abbrev pub add_item : Text → Snapshot F → Item F → Snapshot F
  add_item key s item =
      if not (text_eq item.base euro) || text_lt key item.date
      then s
      else let newer = text_eq s.effective_date [] || text_lt s.effective_date item.date in
        if newer
        then record { effective_date = item.date; rates = (to_upper item.quote, item.rate) ∷ [] }
        else if text_eq item.date s.effective_date
        then record s { rates = (to_upper item.quote, item.rate) ∷ s.rates }
        else s

  unfoldable pub snapshot_from : Text → Snapshot F → List (Item F) → Snapshot F
  snapshot_from key s [] = s
  snapshot_from key s (item ∷ items) = snapshot_from key (add_item key s item) items

  abbrev pub store : Text → Snapshot F → Client F → Result (Snapshot F) × Client F
  store key s c = (ok s, record c { cache = (key, s) ∷ c.cache })

  abbrev pub on_answer : Text → Client F → Answer F → Result (Snapshot F) × Client F
  on_answer key c (no_response e) = (err e, c)
  on_answer key c (bad_status n) =
      (err (other (codes "reference API returned status " ++ decimal n)), c)
  on_answer key c (undecoded e) = (err e, c)
  on_answer key c (data_of items) =
      store key (snapshot_from key (record { effective_date = []; rates = [] }) items) c

  abbrev pub on_miss : Service F → Time → Client F → Result (Snapshot F) × Client F
  on_miss service date c =
      let key = format_date date in
      let asked = record c { requests = c.requests + 1 } in
      let answer = service c.requests (format_date (sub_days date 7)) key c.symbols in
      if length c.symbols == 0
      then store key (record { effective_date = key; rates = [] }) c
      else on_answer key asked answer

  -- `snapshotForDate`
  unfoldable pub snapshot_for_date : Service F → Time → Client F → Result (Snapshot F) × Client F
  snapshot_for_date service date c = elim (get_cached (format_date date) c.cache) [
    | some s ↦ (ok s, c)
    | none ↦ on_miss service date c
  ]

-- What `LookupRate` returns: the rate, the date it is of and a note.
pub record Found (F : Type 0) : Type 0 where
  pub rate : Option F
  pub effective_date : Text
  pub note : Text

module _ {F : Type 0} ⦃fl : Float64 F⦄ where
  abbrev from_cross : Text → Option F → Found F
  from_cross effective none = record {
    rate = none;
    effective_date = effective;
    note = codes "pair unsupported by ECB reference set";
  }
  from_cross effective (some rate) = record {
    rate = some rate;
    effective_date = effective;
    note = codes "reference source: Frankfurter v2 providers=ECB";
  }

  abbrev from_snapshot : Text → Text → Snapshot F → Found F
  from_snapshot base quote s =
      if text_eq s.effective_date []
      then record {
        rate = none;
        effective_date = [];
        note = codes "no ECB reference found in lookback window";
      }
      else from_cross s.effective_date (cross_rate s.rates base quote)

  abbrev on_snapshot : Text → Text → Result (Snapshot F) × Client F → Result (Found F) × Client F
  on_snapshot base quote (err e, c) = (err e, c)
  on_snapshot base quote (ok s, c) = (ok (from_snapshot base quote s), c)

  -- `LookupRate`
  unfoldable pub lookup_rate :
      Service F → Time → Text → Text → Client F → Result (Found F) × Client F
  lookup_rate service date base_code quote_code c =
      let base = to_upper (trim_space base_code) in
      let quote = to_upper (trim_space quote_code) in
      if not (length base == 3) || not (length quote == 3)
      then (
        ok (record { rate = none; effective_date = []; note = codes "invalid currency code" }),
        c,
      )
      else if text_eq base quote
      then (ok (record { rate = some fl.one; effective_date = format_date date; note = [] }), c)
      else on_snapshot base quote (snapshot_for_date service date c)
