-- ===== src/Bundle/Summary.antt =====
-- `summary.csv` of a bundle (src/ccreport/bundle.py): the writer, and a reader of comma-separated
-- text with quoted fields to read it back.
use ccreport.Prelude.{ℕ, Bool, ◌||◌, ◌&&◌, List, [], ◌∷◌, ◌++◌, map, if◌then◌else◌, ◌==◌}
use ccreport.Prelude.Texts.{Text, codes, text_eq}
use ccreport.Connectors.{or_empty}
use ccreport.Storage.{is_empty}
use ccreport.Bundle.Manifest.{Manifest, ManifestItem, short_date}

-- `"; ".join(texts)`
unfoldable pub join_files : List Text → Text
join_files [] = []
join_files (s ∷ []) = s
join_files (s ∷ t ∷ texts) = s ++ codes "; " ++ join_files (t ∷ texts)

-- each quote twice
unfoldable pub doubled : Text → Text
doubled [] = []
doubled (c ∷ s) = let rest = doubled s in if c == b'"' then c ∷ c ∷ rest else c ∷ rest

-- a character that has a meaning to the writer, whose line terminator is a line feed
abbrev pub is_special : ℕ → Bool
is_special c = (c == b',') || (c == b'"') || (c == b'\n')

abbrev pub summary_header : List Text
summary_header =
    codes "date"
    ∷ codes "vendor"
    ∷ codes "amount"
    ∷ codes "currency"
    ∷ codes "justification"
    ∷ codes "filename"
    ∷ []

abbrev pub summary_row : ManifestItem → List Text
summary_row item =
    short_date item.date
    ∷ or_empty item.vendor
    ∷ or_empty item.amount
    ∷ or_empty item.currency
    ∷ or_empty item.justification
    ∷ join_files (map (λ a. a.file) item.artifacts)
    ∷ []

-- The rows that the writer is given.
abbrev pub summary_rows : Manifest → List (List Text)
summary_rows manifest = summary_header ∷ map summary_row manifest.items

-- Python's `csv.writer` with `lineterminator="\n"`. Which fields it puts in quotes is the argument.
module _ (puts_in_quotes : Text → Bool) where
  unfoldable pub write_field : Text → Text
  write_field field = if puts_in_quotes field then b'"' ∷ (doubled field ++ codes "\"") else field

  unfoldable pub write_row : List Text → Text
  write_row [] = codes "\n"
  write_row (field ∷ []) = write_field field ++ codes "\n"
  write_row (field ∷ next ∷ fields) = write_field field ++ (b',' ∷ write_row (next ∷ fields))

  unfoldable pub write_rows : List (List Text) → Text
  write_rows [] = []
  write_rows (row ∷ rows) = write_row row ++ write_rows rows

  unfoldable pub build_summary_csv : Manifest → Text
  build_summary_csv manifest = write_rows (summary_rows manifest)

-- Where a reader stands: before a field, in a plain field, in quotes, behind a quote in quotes, behind
-- a carriage return that ended a row.
pub data Mode : Type 0 where
  before plain quoted closing returned : Mode

pub data Action : Type 0 where
  push skip end_field end_row : Action

-- a line feed or a carriage return, which end a row outside of quotes
abbrev pub is_line_end : ℕ → Bool
is_line_end c = (c == b'\n') || (c == b'\r')

-- what a character means outside of quotes
abbrev pub plain_action : ℕ → Action
plain_action c = if c == b',' then end_field else (if is_line_end c then end_row else push)

abbrev pub action : Mode → ℕ → Action
action before c = if c == b'"' then skip else plain_action c
action plain c = plain_action c
action quoted c = if c == b'"' then skip else push
action closing c = if c == b'"' then push else plain_action c
action returned c = if (c == b'"') || (c == b'\n') then skip else plain_action c

abbrev pub plain_mode : ℕ → Mode
plain_mode c =
    if c == b'\r' then returned else (if (c == b',') || (c == b'\n') then before else plain)

abbrev pub next_mode : Mode → ℕ → Mode
next_mode before c = if c == b'"' then quoted else plain_mode c
next_mode plain c = plain_mode c
next_mode quoted c = if c == b'"' then closing else quoted
next_mode closing c = if c == b'"' then quoted else plain_mode c
next_mode returned c = if c == b'"' then quoted else plain_mode c

-- The rest of the field, the fields behind it in its row, and the rows behind that.
abbrev pub Parsed : Type 0
Parsed = Text × List Text × List (List Text)

-- nothing but the end of the line that `c` ends comes behind it
abbrev pub is_over : ℕ → Text → Bool
is_over c s = is_empty s || ((c == b'\r') && text_eq s (codes "\n"))

abbrev pub act : Action → ℕ → Text → Parsed → Parsed
act push c s (field, fields, rows) = (c ∷ field, fields, rows)
act skip c s parsed = parsed
act end_field c s (field, fields, rows) = ([], field ∷ fields, rows)
act end_row c s (field, fields, rows) =
    ([], [], if is_over c s then [] else (field ∷ fields) ∷ rows)

unfoldable pub read_from : Mode → Text → Parsed
read_from mode [] = ([], [], [])
read_from mode (c ∷ s) = act (action mode c) c s (read_from (next_mode mode c) s)

unfoldable pub read_rows : Text → List (List Text)
read_rows [] = []
read_rows (c ∷ s) = let (field, fields, rows) = read_from before (c ∷ s) in (field ∷ fields) ∷ rows
