-- ===== src/FxValidate/Csv/RoundTrip.antt =====
-- An independent reader of comma-separated records (RFC 4180), and what the writer wrote.
use fx_rates.Prelude.{
  append-nil, ◌≢◌, exists, map, Bool-cases, inl, inr, append_assoc, arith, false, All, ◌≡◌, refl,
  ap, ◌∙◌, Bool, true, ◌||◌, ℕ, Text, List, [], ◌∷◌, ◌++◌, ◌==◌, if◌then◌else◌,
}
use fx_rates.Float64.{Float64}
use fx_rates.Validator.{Comparison}
use fx_rates.FxValidate.Csv.{
  is_special, write_record, write_records, header, row_of, csv_text, needs_quotes, doubled,
  write_field, write_rest,
}

-- Where the reader is: at the start of a field, inside one without quotes, inside one with quotes, or
-- after a quote in one.
data State : Type 0 where
  at_start bare quoted after_quote : State

-- What is read from a place on: the rest of the field, the rest of its record, the other records.
abbrev Read : Type 0
Read = Text × List Text × List (List Text)

abbrev put : ℕ → Read → Read
put c (f, fields, records) = (c ∷ f, fields, records)

abbrev end_field : Read → Read
end_field (f, fields, records) = ([], f ∷ fields, records)

-- After the end of a line there is a record, unless the text ends there.
abbrev end_record : Text → Read → Read
end_record [] r = ([], [], [])
end_record (c ∷ t) (f, fields, records) = ([], [], (f ∷ fields) ∷ records)

-- What a byte does outside quotes.
abbrev plain : ℕ → Text → Read → Read → Read
plain c t in_field next =
    if c == b',' then end_field next else if c == 10 then end_record t next else put c in_field

read : State → Text → Read
read s [] = ([], [], [])
read at_start (c ∷ t) = elim (c == 34) [
  | true ↦ read quoted t
  | false ↦ elim ((c == b',') || (c == 10)) [
    | true ↦ plain c t ([], [], []) (read at_start t)
    | false ↦ put c (read bare t)
  ]
]
read bare (c ∷ t) = elim ((c == b',') || (c == 10)) [
  | true ↦ plain c t ([], [], []) (read at_start t)
  | false ↦ put c (read bare t)
]
read quoted (c ∷ t) = elim (c == 34) [ true ↦ read after_quote t | false ↦ put c (read quoted t) ]
read after_quote (c ∷ t) = elim (c == 34) [
  | true ↦ put 34 (read quoted t)
  | false ↦ plain c t ([], [], []) (read at_start t)
]

pub read_csv : Text → List (List Text)
unfolding read
read_csv [] = []
read_csv (c ∷ t) = let (f, fields, records) = read at_start (c ∷ t) in (f ∷ fields) ∷ records

abbrev puts : Text → Read → Read
puts [] r = r
puts (c ∷ t) r = put c (puts t r)

puts_lem :
    (f f' : Text) (fields : List Text) (records : List (List Text))
    → puts f (f', fields, records) ≡ (f ++ f', fields, records)
puts_lem [] f' fields records = refl
puts_lem (c ∷ f) f' fields records = ap (put c) (puts_lem f f' fields records)

end_record-read_csv : (t : Text) → end_record t (read at_start t) ≡ ([], [], read_csv t)
unfolding read_csv
end_record-read_csv [] = refl
end_record-read_csv (c ∷ t) = refl

-- What follows a field reads the same from each place where a field can end.
abbrev Continues : Text → Read → Type 0
Continues k r = (read at_start k ≡ r) × (read bare k ≡ r) × (read after_quote k ≡ r)

read-quoted_byte :
    (c : ℕ) (t : Text) → (c == 34) ≡ false → read quoted (c ∷ t) ≡ put c (read quoted t)
unfolding read
read-quoted_byte c t h = rw (h, read) refl

read-quoted_quote : (t : Text) → read quoted (34 ∷ 34 ∷ t) ≡ put 34 (read quoted t)
unfolding read
read-quoted_quote t = refl

read-quoted_end : (t : Text) → read quoted (34 ∷ t) ≡ read after_quote t
unfolding read
read-quoted_end t = refl

read-doubled :
    (f k : Text) (r : Read)
    → read after_quote k ≡ r
    → read quoted (doubled f ++ (34 ∷ k)) ≡ puts f r
unfolding doubled
read-doubled [] k r h = read-quoted_end k ∙ h
read-doubled (c ∷ f) k r h = elim (Bool-cases (c == 34)) [
  | inl same ↦
      let e : c ≡ 34 = ground arith in
      rw e (read-quoted_quote (doubled f ++ (34 ∷ k)) ∙ ap (put 34) (read-doubled f k r h))
  | inr other ↦
      rw (other, doubled)
        (read-quoted_byte c (doubled f ++ (34 ∷ k)) other ∙ ap (put c) (read-doubled f k r h))
]

-- No byte ends a field.
abbrev is_end : ℕ → Bool
is_end c = (c == b',') || (c == 10)

abbrev IsBare : Text → Type 0
IsBare = All (λ c. is_end c ≡ false)

read-bare : (f k : Text) (r : Read) → IsBare f → read bare k ≡ r → read bare (f ++ k) ≡ puts f r
unfolding read
read-bare [] k r b h = h
read-bare (c ∷ f) k r b h = rw (b.0, read) (ap (put c) (read-bare f k r b.1 h))

harmless-IsBare : (f : Text) → exists is_special f ≡ false → IsBare f
harmless-IsBare [] h = tt
harmless-IsBare (c ∷ f) h = ground (arith, harmless-IsBare f)

read-unquoted :
    (f k : Text) (r : Read)
    → needs_quotes f ≡ false
    → Continues k r
    → read at_start (f ++ k) ≡ puts f r
unfolding read
read-unquoted [] k r n h = h.0
read-unquoted (c ∷ f) k r n h =
    let plain : exists is_special (c ∷ f) ≡ false = ground arith in
    let no_quote : (c == 34) ≡ false = ground arith in
    let bare_ = harmless-IsBare (c ∷ f) plain in
    rw (no_quote, bare_.0, read) (ap (put c) (read-bare f k r bare_.1 h.1))

read-write_field :
    (f k : Text) (r : Read) → Continues k r → read at_start (write_field f ++ k) ≡ puts f r
unfolding read
read-write_field f k r h = elim (Bool-cases (needs_quotes f)) [
  | inl quotes ↦ rw (quotes, append_assoc) (read-doubled f k r h.2)
  | inr none_needed ↦ rw none_needed (read-unquoted f k r none_needed h)
]

field-then :
    (f : Text) (fields : List Text) (t : Text)
    → Continues (write_rest fields ++ t) ([], fields, read_csv t)
    → read at_start (write_field f ++ (write_rest fields ++ t)) ≡ (f, fields, read_csv t)
field-then f fields t h =
    read-write_field f (write_rest fields ++ t) ([], fields, read_csv t) h
    ∙ puts_lem f [] fields (read_csv t)
    ∙ ap (λ g. (g, fields, read_csv t)) (append-nil f)

read-write_rest :
    (fields : List Text) (t : Text) → Continues (write_rest fields ++ t) ([], fields, read_csv t)
unfolding read
read-write_rest [] t = (end_record-read_csv t, end_record-read_csv t, end_record-read_csv t)
read-write_rest (f ∷ fields) t =
    let e = ap end_field (
      ap (read at_start) (append_assoc (write_field f) (write_rest fields) t)
      ∙ field-then f fields t (read-write_rest fields t)) in
    (e, e, e)

read_csv-read :
    (t : Text) (f : Text) (fields : List Text) (records : List (List Text))
    → t ≢ []
    → read at_start t ≡ (f, fields, records)
    → read_csv t ≡ (f ∷ fields) ∷ records
unfolding read_csv
read_csv-read [] f fields records n h = absurd (n refl)
read_csv-read (c ∷ t) f fields records n h = ap (λ (g, gs, rs). (g ∷ gs) ∷ rs) h

append-nonempty : (s t : Text) → t ≢ [] → s ++ t ≢ []
append-nonempty [] t h = h
append-nonempty (c ∷ s) t h = λ e. cc

write_rest-nonempty : (fields : List Text) (t : Text) → write_rest fields ++ t ≢ []
write_rest-nonempty [] t = λ e. cc
write_rest-nonempty (f ∷ fields) t = λ e. cc

read_csv-write_record :
    (f : Text) (fields : List Text) (t : Text)
    → read_csv (write_record (f ∷ fields) ++ t) ≡ (f ∷ fields) ∷ read_csv t
unfolding write_record
read_csv-write_record f fields t = rw append_assoc (
    read_csv-read _ f fields (read_csv t)
      (append-nonempty (write_field f) _ (write_rest-nonempty fields t))
      (field-then f fields t (read-write_rest fields t)))

-- A record has a field.
abbrev IsRecord : List Text → Type 0
IsRecord [] = ⊥
IsRecord (f ∷ fields) = Unit

read_csv-write_records :
    (records : List (List Text)) → All IsRecord records → read_csv (write_records records) ≡ records
unfolding write_records read_csv
read_csv-write_records [] h = refl
read_csv-write_records ([] ∷ records) h = absurd h.0
read_csv-write_records ((f ∷ fields) ∷ records) h =
    read_csv-write_record f fields (write_records records)
    ∙ ap (λ rs. (f ∷ fields) ∷ rs) (read_csv-write_records records h.1)

module _ {F : Type 0} ⦃fl : Float64 F⦄ where
  rows-IsRecord : (results : List (Comparison F)) → All IsRecord (map row_of results)
  rows-IsRecord [] = tt
  rows-IsRecord (r ∷ results) = (tt, rows-IsRecord results)

  -- The written text, read as comma-separated records, is the header and one row for each result with
  -- its fields as they were, whatever commas, quotes and line breaks they hold.
  pub read_csv-csv_text :
      (results : List (Comparison F)) → read_csv (csv_text results) ≡ header ∷ map row_of results
  unfolding csv_text
  read_csv-csv_text results =
      read_csv-write_records (header ∷ map row_of results) (tt, rows-IsRecord results)
