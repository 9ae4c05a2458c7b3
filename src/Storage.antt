-- ===== src/Storage.antt =====
-- src/ccreport/storage.py: names and paths of stored artifacts. Paths are split as `PurePosixPath`
-- does it (Python before 3.14). The Unicode normal form NFKD is an argument.
pub mod Safe
mod Tests
use ccreport.Prelude.{
  ℕ, zero, suc, ◌-◌, Bool, true, false, not, ◌&&◌, ◌||◌, List, [], ◌∷◌, ◌++◌, map, if◌then◌else◌,
  ltb, leb, ◌==◌, length, keep, any, Option, none, some,
}
use ccreport.Prelude.Texts.{Text, codes, text_eq, strip}
use ccreport.Errors.{Result, ok, err, storage_error}

abbrev pub take : ℕ → Text → Text
take zero s = []
take (suc n) [] = []
take (suc n) (c ∷ s) = c ∷ take n s

abbrev pub reverse_onto : Text → Text → Text
reverse_onto acc [] = acc
reverse_onto acc (c ∷ s) = reverse_onto (c ∷ acc) s

-- a character that `_SAFE_CHARS` does not match
unfoldable pub is_safe : ℕ → Bool
is_safe c =
    (leb b'A' c && leb c b'Z')
    || (leb b'a' c && leb c b'z')
    || (leb b'0' c && leb c b'9')
    || (c == b'.')
    || (c == b'_')
    || (c == b'-')

-- `_SAFE_CHARS.sub("-", s)`: one dash for each longest run; the flag says whether a run is open
unfoldable pub dash_runs : Bool → Text → Text
dash_runs in_run [] = []
dash_runs in_run (c ∷ s) =
    let safe_rest = dash_runs false s in
    let run_rest = dash_runs true s in
    if is_safe c then c ∷ safe_rest else (if in_run then run_rest else b'-' ∷ run_rest)

abbrev pub is_dash_or_dot : ℕ → Bool
is_dash_or_dot c = (c == b'-') || (c == b'.')

-- `s.lstrip("-.")`
unfoldable pub lstrip_dashes : Text → Text
lstrip_dashes [] = []
lstrip_dashes (c ∷ s) = let rest = lstrip_dashes s in if is_dash_or_dot c then rest else c ∷ s

unfoldable pub push_unless_dash : ℕ → Text → Text
push_unless_dash c [] = if is_dash_or_dot c then [] else c ∷ []
push_unless_dash c (d ∷ t) = c ∷ d ∷ t

unfoldable pub rstrip_dashes : Text → Text
rstrip_dashes [] = []
rstrip_dashes (c ∷ s) = push_unless_dash c (rstrip_dashes s)

-- the text before the first slash, and what stands behind each slash
unfoldable pub push_char : ℕ → List Text → List Text
push_char c [] = (c ∷ []) ∷ []
push_char c (part ∷ parts) = (c ∷ part) ∷ parts

unfoldable pub split_slash : Text → List Text
split_slash [] = [] ∷ []
split_slash (c ∷ s) = let rest = split_slash s in if c == b'/' then [] ∷ rest else push_char c rest

-- the parts of a relative path: no empty part and no `.`
unfoldable pub path_parts : Text → List Text
path_parts s = keep (λ part. not (text_eq part [] || text_eq part (codes "."))) (split_slash s)

unfoldable pub last_part : List Text → Text
last_part [] = []
last_part (part ∷ []) = part
last_part (part ∷ next ∷ parts) = last_part (next ∷ parts)

-- `PurePosixPath(s).name`
unfoldable pub path_name : Text → Text
path_name s = last_part (path_parts s)

-- the text from its last dot on, if it has a dot
unfoldable pub from_last_dot : Text → Option Text
from_last_dot [] = none
from_last_dot (c ∷ s) = elim (from_last_dot s) [
  | some suffix ↦ some suffix
  | none ↦ if c == b'.' then some (c ∷ s) else none
]

-- `PurePosixPath(s).suffix`: the last dot must stand neither first nor last in the name
unfoldable pub suffix_of_name : Text → Text
suffix_of_name name = elim (from_last_dot name) [
  | none ↦ []
  | some suffix ↦ if ltb (length suffix) (length name) && ltb 1 (length suffix) then suffix else []
]

unfoldable pub path_suffix : Text → Text
path_suffix s = suffix_of_name (path_name s)

unfoldable pub slash_of_backslash : ℕ → ℕ
slash_of_backslash c = if c == b'\\' then b'/' else c

abbrev pub is_empty : Text → Bool
is_empty [] = true
is_empty (c ∷ s) = false

abbrev pub max_stem : ℕ
max_stem = 64

-- the last steps of `safe_filename`, for a name and its suffix
unfoldable pub safe_of_parts : Text → Text → Text
safe_of_parts stem suffix =
    let clean_stem = take max_stem (rstrip_dashes (lstrip_dashes (dash_runs false stem))) in
    (if is_empty clean_stem then codes "attachment" else clean_stem) ++ keep is_safe suffix

module _ (nfkd : Text → Text) where
  unfoldable pub safe_filename : Text → Text
  safe_filename raw =
      let printable = keep (λ c. not (c == 0)) (strip (nfkd raw)) in
      let name = path_name (map slash_of_backslash printable) in
      let suffix = take 16 (path_suffix name) in
      safe_of_parts (take (length name - length suffix) name) suffix

  -- the ids of the report and of the artifact as texts
  unfoldable pub artifact_path : Text → Text → Text → Text
  artifact_path report_id artifact_id filename =
      codes "reports/"
      ++ report_id
      ++ codes "/"
      ++ artifact_id
      ++ codes "/"
      ++ safe_filename filename

-- `PurePosixPath(path).is_absolute()`
unfoldable pub is_absolute : Text → Bool
is_absolute [] = false
is_absolute (c ∷ s) = c == b'/'

unfoldable pub validate : Text → Result (List Text)
validate path =
    if is_absolute path
      || any (λ part. text_eq part (codes "..") || text_eq part []) (path_parts path)
    then err storage_error
    else ok (path_parts path)
