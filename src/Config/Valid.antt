-- ===== src/Config/Valid.antt =====
-- The configurations that `Load` returns.
use fx_rates.Prelude.{
  true, ◌≡◌, refl, ◌⊎◌, inl, inr, false, Text, codes, [], arith, text_eq, text_eq_iff,
}
use fx_rates.Errors.{Result, ok, err}
use fx_rates.Strings.{trim_space, to_lower}
use fx_rates.Config.{checked_mode, checked_level, Config, is_known_mode, is_known_level, with_url}
use fx_rates.Config.Url.{is_blank, build_database_url, load, url_of, url_text, ssl_mode_of}

abbrev settled : Text → Text
settled t = to_lower (trim_space t)

module _ (t : Text) where
  is_word : (w : Text) → text_eq t w ≡ true → t ≡ w
  is_word w h = (text_eq_iff t w).0 h

  abbrev IsMode : Type 0
  IsMode = (t ≡ []) ⊎ (t ≡ codes "full") ⊎ (t ≡ codes "daily_sync")

  abbrev IsLevel : Type 0
  IsLevel =
      (t ≡ [])
      ⊎ (t ≡ codes "debug")
      ⊎ (t ≡ codes "info")
      ⊎ (t ≡ codes "warn")
      ⊎ (t ≡ codes "warning")
      ⊎ (t ≡ codes "error")

  known_mode-IsMode : is_known_mode t ≡ true → IsMode
  known_mode-IsMode h =
      ground (arith, is_word [], is_word (codes "full"), is_word (codes "daily_sync"))

  known_level-IsLevel : is_known_level t ≡ true → IsLevel
  known_level-IsLevel h = ground (
    arith,
    is_word [],
    is_word (codes "debug"),
    is_word (codes "info"),
    is_word (codes "warn"),
    is_word (codes "warning"),
    is_word (codes "error"),
  )

settled_mode : (t : Text) → IsMode t → (settled t ≡ t) × (is_known_mode t ≡ true)
unfolding trim_space to_lower text_eq
settled_mode t (inl e) = rw e (refl, refl)
settled_mode t (inr (inl e)) = rw e (refl, refl)
settled_mode t (inr (inr e)) = rw e (refl, refl)

settled_level : (t : Text) → IsLevel t → (settled t ≡ t) × (is_known_level t ≡ true)
unfolding trim_space to_lower text_eq
settled_level t (inl e) = rw e (refl, refl)
settled_level t (inr (inl e)) = rw e (refl, refl)
settled_level t (inr (inr (inl e))) = rw e (refl, refl)
settled_level t (inr (inr (inr (inl e)))) = rw e (refl, refl)
settled_level t (inr (inr (inr (inr (inl e))))) = rw e (refl, refl)
settled_level t (inr (inr (inr (inr (inr e))))) = rw e (refl, refl)

-- A URL that is not blank, one of the modes and one of the levels, as they are written.
abbrev pub IsConfig : Config → Type 0
IsConfig cfg = (is_blank cfg.database_url ≡ false) × IsMode cfg.sync_mode × IsLevel cfg.log_level

url_text_nonblank : (cfg : Config) (mode : Text) → is_blank (url_text cfg mode) ≡ false
unfolding url_text trim_space text_eq
url_text_nonblank cfg mode = refl

url_of_nonblank : (cfg : Config) (url : Text) → url_of cfg ≡ ok url → is_blank url ≡ false
unfolding build_database_url
url_of_nonblank cfg url h = ground (arith, url_text_nonblank cfg (ssl_mode_of cfg.db_ssl_mode))

checked_level_ok :
    (cfg cfg' : Config)
    → checked_level cfg ≡ ok cfg'
    → (cfg ≡ cfg') × (is_known_level cfg.log_level ≡ true)
checked_level_ok cfg cfg' h = ground arith

abbrev with_level : Config → Config
with_level cfg = record cfg { log_level = settled cfg.log_level }

checked_mode_ok :
    (cfg cfg' : Config)
    → checked_mode cfg ≡ ok cfg'
    → (with_level cfg ≡ cfg')
      × (is_known_mode cfg.sync_mode ≡ true)
      × (is_known_level (settled cfg.log_level) ≡ true)
checked_mode_ok cfg cfg' h = ground (arith, checked_level_ok (with_level cfg) cfg')

with_url-IsConfig :
    (cfg cfg' : Config) (r : Result Text)
    → ((url : Text) → r ≡ ok url → is_blank url ≡ false)
    → with_url cfg r ≡ ok cfg'
    → IsConfig cfg'
with_url-IsConfig cfg cfg' (err e) f h = cc
with_url-IsConfig cfg cfg' (ok url) f h =
    let (e, mode, level) =
      checked_mode_ok (record cfg { database_url = url; sync_mode = settled cfg.sync_mode }) cfg'
        h in
    rw (← e) (f url refl, known_mode-IsMode _ mode, known_level-IsLevel _ level)

-- A configuration in that form is what `Load` makes of itself.
load-IsConfig : (cfg : Config) → IsConfig cfg → load (ok cfg) ≡ ok cfg
unfolding load
load-IsConfig cfg (url, mode, level) =
    let m = settled_mode cfg.sync_mode mode in
    let l = settled_level cfg.log_level level in rw (url, m.0, m.1, l.0, l.1) refl

-- A configuration that `Load` returns has a URL that is not blank, a mode that is empty, `full` or
-- `daily_sync`, and a level that is empty or one of the five words, in lower case and trimmed; and
-- `Load` of its values returns it again.
pub load_settled :
    (r : Result Config) (cfg : Config) → load r ≡ ok cfg → IsConfig cfg × (load (ok cfg) ≡ ok cfg)
unfolding load
load_settled (err e) cfg h = cc
load_settled (ok given) cfg h =
    let valid = with_url-IsConfig given cfg (url_of given) (url_of_nonblank given) h in
    (valid, load-IsConfig cfg valid)
