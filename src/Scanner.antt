-- ===== src/Scanner.antt =====
-- `bufio.Scanner` with `bufio.ScanLines`, over the bytes that the reader gives.
use fx_rates.Prelude.{ℕ, true, false, Text, List, [], ◌∷◌, ◌++◌, length, leb, ◌==◌, if◌then◌else◌}

-- A line without its carriage return, as `bufio.ScanLines` gives it.
abbrev drop_cr : Text → Text
drop_cr [] = []
drop_cr (c ∷ []) = if c == 13 then [] else c ∷ []
drop_cr (c ∷ d ∷ t) = c ∷ drop_cr (d ∷ t)

-- What the scanner finds: a line, or one that does not fit in its buffer.
pub data Scanned : Type 0 where
  line : Text → Scanned
  too_long : Scanned

-- A line of the scanner; its buffer holds `max` bytes, the newline among them.
abbrev scanned : ℕ → Text → Scanned
scanned max l = if leb max (length l) then too_long else line (drop_cr l)

abbrev last_line : ℕ → Text → List Scanned
last_line max [] = []
last_line max (c ∷ l) = scanned max (c ∷ l) ∷ []

-- The lines of a text, of which the last may want its newline; `l` is what the line has so far.
scan_from : ℕ → Text → Text → List Scanned
scan_from max l [] = last_line max l
scan_from max l (c ∷ t) = elim (c == 10) [
  | true ↦ scanned max l ∷ scan_from max [] t
  | false ↦ scan_from max (l ++ c ∷ []) t
]

unfoldable pub scan : ℕ → Text → List Scanned
unfolding scan_from
scan max = scan_from max []
