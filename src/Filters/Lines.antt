-- ===== src/Filters/Lines.antt =====
-- Vendors that a file of plain lines names (`_vendors_from_lines` of src/ccreport/filters.py).
use ccreport.Prelude.{ℕ, ◌||◌, Option, none, some, List, [], ◌∷◌, if◌then◌else◌, ◌==◌}
use ccreport.Prelude.Texts.{Text, codes, lower, strip, starts_with, Text-discrete}
use ccreport.OrderedDict.{assign}
use ccreport.Storage.{is_empty}
use ccreport.Filters.Senders.{title_domain}
use ccreport.Filters.Vendors.{VendorMap}

-- `line.partition(sep)`: what stands before the first such character, and behind it if there is one
unfoldable pub partition_at : ℕ → Text → Text × Option Text
partition_at sep [] = ([], none)
partition_at sep (c ∷ s) =
    let (key, value) = partition_at sep s in if c == sep then ([], some s) else (c ∷ key, value)

-- the parts of a line, split at `=` or else at a comma
unfoldable pub key_and_value : Text → Text × Option Text
key_and_value line =
    let (key, value) = partition_at b'=' line in
    elim value [ some text ↦ (key, some text) | none ↦ partition_at b',' line ]

-- one line: its key and its name, unless it is blank, a comment, or has no key
unfoldable pub vendor_of_line : Text → Option (Text × Text)
vendor_of_line raw =
    let line = strip raw in
    if is_empty line || starts_with line (codes "#")
    then none
    else (let (front, value) = key_and_value line in
        let key = lower (strip front) in
        if is_empty key
        then none
        else (let name : Text = elim value [ none ↦ [] | some text ↦ strip text ] in
            some (key, if is_empty name then title_domain key else name)))

unfoldable pub vendors_from_lines : VendorMap → List Text → VendorMap
vendors_from_lines vendors [] = vendors
vendors_from_lines vendors (line ∷ lines) = elim (vendor_of_line line) [
  | none ↦ vendors_from_lines vendors lines
  | some (key, name) ↦ vendors_from_lines (assign Text-discrete key name vendors) lines
]
