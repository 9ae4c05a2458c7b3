-- ===== src/Bundle/Reading.antt =====
-- What a reader finds in `summary.csv` (src/ccreport/bundle.py): the cells that were written.
use ccreport.Prelude.{ℕ, ◌≡◌, ◌⊎◌, Bool, false, List, [], ◌∷◌, ◌++◌, any, ◌==◌, All}
use ccreport.Prelude.Texts.{Text}
use ccreport.Bundle.Manifest.{Manifest}
use ccreport.Bundle.Summary.{Parsed}

-- what stands before the rest of a field
abbrev prefixed : Text → Parsed → Parsed
prefixed s (field, fields, rows) = (s ++ field, fields, rows)

-- A row of one field or more.
abbrev pub IsRow : List Text → Type 0
IsRow [] = ⊥
IsRow (field ∷ fields) = Unit

-- A carriage return stands in the text.
abbrev pub has_return : Text → Bool
has_return s = any (λ c. c == b'\r') s

-- No cell of the row has a carriage return.
abbrev pub HasNoReturn : List Text → Type 0
HasNoReturn fields = All (λ field. has_return field ≡ false) fields

-- A comma or the end of a line.
abbrev IsDelimiter : ℕ → Type 0
IsDelimiter d = (d ≡ b',') ⊎ (d ≡ b'\n')
