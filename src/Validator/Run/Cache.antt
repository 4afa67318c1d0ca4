-- ===== src/Validator/Run/Cache.antt =====
-- `snapshotForDate` and the cache of the reference client.
use fx_rates.Prelude.{
  ap, ◌≡◌, refl, Option-cases, inl, inr, Text, some, text_eq_refl, length, Bool-cases, ◌==◌,
}
use fx_rates.Clock.{Time}
use fx_rates.Clock.Civil.{format_date}
use fx_rates.Errors.{Result, ok, err}
use fx_rates.Validator.{Snapshot}
use fx_rates.Validator.Client.{
  Client, Service, Answer, no_response, bad_status, undecoded, data_of, get_cached, on_answer,
  on_miss, snapshot_for_date,
}

module _ {F : Type 0} where
  -- A snapshot that has been returned is in the cache, and an error leaves the cache alone.
  abbrev Caches : Text → Client F → Result (Snapshot F) × Client F → Type 0
  Caches key c (ok s, c') = get_cached key c'.cache ≡ some s
  Caches key c (err e, c') = c'.cache ≡ c.cache

  on_answer-Caches : (key : Text) (c : Client F) (a : Answer F) → Caches key c (on_answer key c a)
  on_answer-Caches key c (no_response e) = refl
  on_answer-Caches key c (bad_status n) = refl
  on_answer-Caches key c (undecoded e) = refl
  on_answer-Caches key c (data_of items) = rw (text_eq_refl key) refl

  on_miss-Caches :
      (service : Service F) (date : Time) (c : Client F)
      → Caches (format_date date) c (on_miss service date c)
  on_miss-Caches service date c = elim (Bool-cases (length c.symbols == 0)) [
    | inl nothing ↦ rw (nothing, text_eq_refl (format_date date)) refl
    | inr asked ↦ rw asked (on_answer-Caches (format_date date) _ _)
  ]

  snapshot-Caches :
      (service : Service F) (date : Time) (c : Client F)
      → Caches (format_date date) c (snapshot_for_date service date c)
  unfolding snapshot_for_date
  snapshot-Caches service date c = elim (Option-cases (get_cached (format_date date) c.cache)) [
    | inl missed ↦ rw (missed, snapshot_for_date) (on_miss-Caches service date c)
    | inr (s, hit) ↦ rw (hit, snapshot_for_date) hit
  ]

  cached_is_returned :
      (service : Service F) (date : Time) (r : Result (Snapshot F) × Client F) (c : Client F)
      (s : Snapshot F)
      → Caches (format_date date) c r
      → r.0 ≡ ok s
      → snapshot_for_date service date r.1 ≡ (ok s, r.1)
  unfolding snapshot_for_date
  cached_is_returned service date (ok q, c') c s h e =
      rw (h, snapshot_for_date) (ap (λ x. (x, c')) e)
  cached_is_returned service date (err x, c') c s h e = cc

  -- A date that has been answered gives the same snapshot again with no request, whatever the service
  -- would say then: the client stays as it is.
  pub snapshot_for_date_again :
      (service later : Service F) (date : Time) (c : Client F) (s : Snapshot F)
      → let (r, c') = snapshot_for_date service date c in
        r ≡ ok s → snapshot_for_date later date c' ≡ (ok s, c')
  snapshot_for_date_again service later date c s =
      cached_is_returned later date (snapshot_for_date service date c) c s
        (snapshot-Caches service date c)
