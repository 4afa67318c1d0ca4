-- ===== src/FxValidate/Path/Climb.antt =====
-- The paths that `outputWriter` refuses, against a walk along the segments.
use fx_rates.Prelude.{
  if◌then◌else◌, not, ◌&&◌, ◌↔◌, append-nil, All, ◌∙◌, ap, inl, inr, Bool-cases, ◌==◌, ◌++◌, ℕ,
  zero, suc, ◌≡◌, refl, Bool, true, false, ◌||◌, Text, codes, List, [], ◌∷◌, Option, none, some,
  exists, length, text_eq, arith,
}
use fx_rates.Strings.{trim_space}
use fx_rates.Errors.{Error, ok, err}
use fx_rates.FxValidate.Path.{
  join_slash, is_rooted, dot_if_empty, clean_path, output_path, split_slash, is_dots, keep_segment,
  clean_segments, add_to_first,
}

-- Where a segment leads from a directory of this depth below the start; none is above the start.
abbrev next_depth : ℕ → Text → Option ℕ
next_depth depth s =
    if text_eq s [] || text_eq s (codes ".")
    then some depth
    else if is_dots s
    then elim depth [ zero ↦ none | suc d ↦ some d ]
    else some (suc depth)

-- Whether a walk along the segments steps above the start.
pub climbs : ℕ → List Text → Bool
climbs depth [] = false
climbs depth (s ∷ segs) = elim (next_depth depth s) [ none ↦ true | some d ↦ climbs d segs ]

dots_stay :
    (kept segs : List Text)
    → exists is_dots kept ≡ true
    → exists is_dots (clean_segments false kept segs) ≡ true
unfolding clean_segments
dots_stay kept [] h = h
dots_stay kept (s ∷ segs) h = dots_stay (keep_segment false s kept) segs (still kept h)
  where
    still :
        (k : List Text) → exists is_dots k ≡ true → exists is_dots (keep_segment false s k) ≡ true
    still [] h = cc
    still (t ∷ k) h = ground arith

rooted_no_dots :
    (kept segs : List Text)
    → exists is_dots kept ≡ false
    → exists is_dots (clean_segments true kept segs) ≡ false
unfolding clean_segments
rooted_no_dots kept [] h = h
rooted_no_dots kept (s ∷ segs) h = rooted_no_dots (keep_segment true s kept) segs (still kept h)
  where
    still :
        (k : List Text) → exists is_dots k ≡ false → exists is_dots (keep_segment true s k) ≡ false
    still [] h = ground arith
    still (t ∷ k) h = ground arith

-- The kept segments are the way down from the start, or hold a `..`.
abbrev Kept : Option ℕ → List Text → Type 0
Kept none kept = exists is_dots kept ≡ true
Kept (some d) kept = (exists is_dots kept ≡ false) × (length kept ≡ d)

dots_are_dots : is_dots (codes "..") ≡ true
unfolding text_eq
dots_are_dots = refl

keep_segment-Kept :
    (s : Text) (kept : List Text)
    → exists is_dots kept ≡ false
    → Kept (next_depth (length kept) s) (keep_segment false s kept)
keep_segment-Kept s [] h = elim (Bool-cases (text_eq s [] || text_eq s (codes "."))) [
  | inl stays ↦ rw stays (refl, refl)
  | inr moves ↦ rw moves (elim (Bool-cases (is_dots s)) [
    | inl up ↦ rw up (ground (arith, dots_are_dots))
    | inr down ↦ rw down (ground arith)
  ])
]
keep_segment-Kept s (t ∷ kept) h = elim (Bool-cases (text_eq s [] || text_eq s (codes "."))) [
  | inl stays ↦ rw stays (h, refl)
  | inr moves ↦ rw moves (elim (Bool-cases (is_dots s)) [
    | inl up ↦ rw up (ground (arith, dots_are_dots))
    | inr down ↦ rw down (ground arith)
  ])
]

relative_dots :
    (kept segs : List Text)
    → exists is_dots kept ≡ false
    → exists is_dots (clean_segments false kept segs) ≡ climbs (length kept) segs
unfolding clean_segments climbs
relative_dots kept [] h = h
relative_dots kept (s ∷ segs) h =
    go (λ k clear. relative_dots k segs clear) (next_depth (length kept) s)
      (keep_segment false s kept) (keep_segment-Kept s kept h)
  where
    go :
        ((k : List Text)
          → exists is_dots k ≡ false
          → exists is_dots (clean_segments false k segs) ≡ climbs (length k) segs)
        → (o : Option ℕ) (k : List Text) → Kept o k
        → exists is_dots (clean_segments false k segs)
          ≡ elim o [ none ↦ true | some d ↦ climbs d segs ]
    go rest none k up = dots_stay k segs up
    go rest (some d) k (clear, e) = rest k clear ∙ ap (λ n. climbs n segs) e

abbrev IsSegment : Text → Type 0
IsSegment = All (λ c. (c == b'/') ≡ false)

add_to_first-IsSegment :
    (c : ℕ) (segs : List Text)
    → (c == b'/') ≡ false
    → All IsSegment segs
    → All IsSegment (add_to_first c segs)
add_to_first-IsSegment c [] h k = ((h, tt), tt)
add_to_first-IsSegment c (s ∷ segs) h k = ((h, k.0), k.1)

split_slash-IsSegment : (t : Text) → All IsSegment (split_slash t)
unfolding split_slash
split_slash-IsSegment [] = (tt, tt)
split_slash-IsSegment (c ∷ t) = elim (Bool-cases (c == b'/')) [
  | inl slash ↦ rw slash (tt, split_slash-IsSegment t)
  | inr byte ↦ rw byte (add_to_first-IsSegment c (split_slash t) byte (split_slash-IsSegment t))
]

clean_segments-IsSegment :
    (rooted : Bool) (kept segs : List Text)
    → All IsSegment kept
    → All IsSegment segs
    → All IsSegment (clean_segments rooted kept segs)
unfolding clean_segments
clean_segments-IsSegment rooted kept [] h k = h
clean_segments-IsSegment rooted kept (s ∷ segs) h k =
    clean_segments-IsSegment rooted (keep_segment rooted s kept) segs (kept_too kept h) k.1
  where
    kept_too : (l : List Text) → All IsSegment l → All IsSegment (keep_segment rooted s l)
    kept_too [] h = ground (arith, k.0)
    kept_too (t ∷ l) h = ground (arith, k.0)

-- Whether a segment of the text is `..`.
abbrev has_dots : Text → Bool
has_dots t = exists is_dots (split_slash t)

split_slash-segment : (s : Text) → IsSegment s → split_slash s ≡ s ∷ []
unfolding split_slash
split_slash-segment [] h = refl
split_slash-segment (c ∷ s) h = rw (h.0, split_slash-segment s h.1) refl

split_slash-append : (s t : Text) → IsSegment s → split_slash (s ++ (b'/' ∷ t)) ≡ s ∷ split_slash t
unfolding split_slash
split_slash-append [] t h = refl
split_slash-append (c ∷ s) t h = rw (h.0, split_slash-append s t h.1) refl

-- What is joined already is empty or starts with a slash.
abbrev after_slash : Option Text → Text
after_slash none = []
after_slash (some t) = b'/' ∷ t

abbrev dots_after : Option Text → Bool
dots_after none = false
dots_after (some t) = has_dots t

has_dots-segment :
    (s : Text) (out : Option Text)
    → IsSegment s
    → has_dots (s ++ after_slash out) ≡ (is_dots s || dots_after out)
has_dots-segment s none h = rw (append-nil s, split_slash-segment s h) refl
has_dots-segment s (some t) h = rw (split_slash-append s t h) refl

has_dots-join_slash :
    (s : Text) (kept : List Text) (out : Option Text)
    → All IsSegment (s ∷ kept)
    → has_dots (join_slash (s ∷ kept) (after_slash out))
      ≡ (exists is_dots (s ∷ kept) || dots_after out)
has_dots-join_slash s [] out h = has_dots-segment s out h.0 ∙ ground arith
has_dots-join_slash s (r ∷ kept) out h =
    has_dots-join_slash r kept (some (s ++ after_slash out)) h.1
    ∙ ap (λ b. exists is_dots (r ∷ kept) || b) (has_dots-segment s out h.0)
    ∙ ground arith

has_dots-dot_if_empty : (t : Text) → has_dots (dot_if_empty t) ≡ has_dots t
unfolding split_slash text_eq
has_dots-dot_if_empty [] = refl
has_dots-dot_if_empty (c ∷ t) = refl

has_dots-joined :
    (kept : List Text) → All IsSegment kept → has_dots (join_slash kept []) ≡ exists is_dots kept
unfolding split_slash text_eq
has_dots-joined [] h = refl
has_dots-joined (s ∷ kept) h = has_dots-join_slash s kept none h ∙ ground arith

has_dots-rooted : (t : Text) → has_dots (b'/' ∷ t) ≡ has_dots t
unfolding split_slash text_eq
has_dots-rooted t = refl

has_dots-cleaned :
    (rooted : Bool) (p : Text)
    → let joined = join_slash (clean_segments rooted [] (split_slash p)) [] in
      has_dots (if rooted then b'/' ∷ joined else dot_if_empty joined)
      ≡ (not rooted && climbs 0 (split_slash p))
has_dots-cleaned true p =
    let kept = clean_segments true [] (split_slash p) in
    has_dots-rooted (join_slash kept [])
    ∙ has_dots-joined kept
        (clean_segments-IsSegment true [] (split_slash p) tt (split_slash-IsSegment p))
    ∙ rooted_no_dots [] (split_slash p) refl
has_dots-cleaned false p =
    let kept = clean_segments false [] (split_slash p) in
    has_dots-dot_if_empty (join_slash kept [])
    ∙ has_dots-joined kept
        (clean_segments-IsSegment false [] (split_slash p) tt (split_slash-IsSegment p))
    ∙ relative_dots [] (split_slash p) refl

has_dots-clean_path :
    (p : Text) → has_dots (clean_path p) ≡ (not (is_rooted p) && climbs 0 (split_slash p))
unfolding clean_path
has_dots-clean_path p = has_dots-cleaned (is_rooted p) p

refused_iff :
    (blank dots : Bool) (target : Option Text) (e : Error)
    → ((x : Error) × ((if blank then ok none else if dots then err e else ok target) ≡ err x))
      ↔ ((blank ≡ false) × (dots ≡ true))
refused_iff true dots target e = (λ (x, h). cc, λ (h, k). cc)
refused_iff false true target e = (λ (x, h). (refl, refl), λ h. (e, refl))
refused_iff false false target e = (λ (x, h). cc, λ (h, k). cc)

-- `-output` is refused exactly where it is not blank, does not start at the root, and a walk along
-- its segments, white space trimmed, steps above the directory that it starts in.
pub output_path-climbs :
    (path : Text)
    → let p = trim_space path in
      ((e : Error) × (output_path path ≡ err e))
      ↔ ((text_eq p [] ≡ false) × (is_rooted p ≡ false) × (climbs 0 (split_slash p) ≡ true))
unfolding output_path
output_path-climbs path =
    let p = trim_space path in
    let (refused, back) =
      refused_iff (text_eq p []) (has_dots (clean_path p)) (some (clean_path p)) _ in
    let dots = has_dots-clean_path p in
    (
      λ r.
          let (there, climbing) = refused r in
          (there, ground (arith, dots, climbing), ground (arith, dots, climbing)),
      λ (there, relative, climbing). back (there, ground (arith, dots)),
    )
