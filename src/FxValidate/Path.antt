-- ===== src/FxValidate/Path.antt =====
-- `outputWriter` of cmd/fx-validate/main.go: `filepath.Clean` on Unix and the check of its segments.
pub mod Climb
use fx_rates.Prelude.{
  ◌≡◌, refl, ℕ, Bool, false, ◌||◌, Text, codes, List, [], ◌∷◌, ◌++◌, Option, none, some, exists,
  text_eq, ◌==◌, if◌then◌else◌,
}
use fx_rates.Errors.{Result, ok, err, other}
use fx_rates.Strings.{quoted, trim_space}

abbrev pub add_to_first : ℕ → List Text → List Text
add_to_first c [] = (c ∷ []) ∷ []
add_to_first c (s ∷ segs) = (c ∷ s) ∷ segs

-- `strings.Split` at slashes.
unfoldable pub split_slash : Text → List Text
split_slash [] = [] ∷ []
split_slash (c ∷ t) =
    let rest = split_slash t in if c == b'/' then [] ∷ rest else add_to_first c rest

abbrev pub is_dots : Text → Bool
is_dots s = text_eq s (codes "..")

-- What `..` does to the segments kept so far, the last of them first.
abbrev pub step_back : Bool → List Text → List Text
step_back rooted [] = if rooted then [] else codes ".." ∷ []
step_back rooted (s ∷ kept) = if is_dots s then codes ".." ∷ s ∷ kept else kept

abbrev pub keep_segment : Bool → Text → List Text → List Text
keep_segment rooted s kept =
    if text_eq s [] || text_eq s (codes ".")
    then kept
    else if is_dots s
    then step_back rooted kept
    else s ∷ kept

unfoldable pub clean_segments : Bool → List Text → List Text → List Text
clean_segments rooted kept [] = kept
clean_segments rooted kept (s ∷ segs) = clean_segments rooted (keep_segment rooted s kept) segs

-- The segments, the last of them first, before what is already joined.
abbrev pub join_slash : List Text → Text → Text
join_slash [] out = out
join_slash (s ∷ []) out = s ++ out
join_slash (s ∷ r ∷ kept) out = join_slash (r ∷ kept) (b'/' ∷ (s ++ out))

abbrev pub is_rooted : Text → Bool
is_rooted [] = false
is_rooted (c ∷ t) = c == b'/'

abbrev pub dot_if_empty : Text → Text
dot_if_empty [] = codes "."
dot_if_empty (c ∷ t) = c ∷ t

-- `filepath.Clean`
unfoldable pub clean_path : Text → Text
unfolding clean_segments split_slash
clean_path p =
    let rooted = is_rooted p in
    let joined = join_slash (clean_segments rooted [] (split_slash p)) [] in
    if rooted then b'/' ∷ joined else dot_if_empty joined

-- `outputWriter` up to `os.Create`: the standard output, or the file to create.
unfoldable pub output_path : Text → Result (Option Text)
unfolding clean_path quoted
output_path path =
    if text_eq (trim_space path) []
    then ok none
    else if exists is_dots (split_slash (clean_path (trim_space path)))
    then err (
        other (
          codes "invalid -output path "
          ++ (quoted path ++ codes ": must not contain '..' segments")))
    else ok (some (clean_path (trim_space path)))

abbrev climb : Text
climb = codes " out/../../rates.csv "

climbing_is_refused :
    output_path climb
    ≡ err (
        other (
          codes "invalid -output path "
          ++ (quoted climb ++ codes ": must not contain '..' segments")))
unfolding output_path trim_space text_eq
climbing_is_refused = refl

cleaned : output_path (codes "./out//a/../rates.csv") ≡ ok (some (codes "out/rates.csv"))
unfolding output_path trim_space text_eq
cleaned = refl

rooted_climb : output_path (codes "/../etc/rates.csv") ≡ ok (some (codes "/etc/rates.csv"))
unfolding output_path trim_space text_eq
rooted_climb = refl
