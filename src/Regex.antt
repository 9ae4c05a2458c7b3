-- ===== src/Regex.antt =====
-- Regular expressions as Python's `re` matches them: leftmost, greedy, with backtracking. A match is
-- the list of all ways to match, the preferred one first.
use ccreport.Prelude.{
  ℕ, zero, suc, ◌-◌, Bool, false, not, ◌&&◌, ◌||◌, Option, none, some, List, [], ◌∷◌, ◌++◌, map,
  if◌then◌else◌, ltb, leb, ◌==◌, length, keep, is_some,
}
use ccreport.Prelude.Texts.{Text, lower_code, is_space}
use ccreport.Storage.{take}

-- Zero-width tests look at the character before and at the text behind.
pub data Regex : Type 0 where
  empty : Regex
  one : (ℕ → Bool) → Regex
  at : (Option ℕ → Text → Bool) → Regex
  seq alt : Regex → Regex → Regex
  star : Regex → Regex
  group : ℕ → Regex → Regex

-- The character before, the text behind, and what the groups have matched, the latest first.
pub record Cursor : Type 0 where
  pub before : Option ℕ
  pub rest : Text
  pub groups : List (ℕ × Text)

abbrev pub concat_map : {A B : Type 0} → (A → List B) → List A → List B
concat_map f [] = []
concat_map f (a ∷ xs) = f a ++ concat_map f xs

-- what is between two cursors on one text
abbrev pub between : Text → Text → Text
between s t = take (length s - length t) s

-- Repetitions that go forward, the longest first; a turn for each character that is left is enough.
unfoldable pub repeat : (Cursor → List Cursor) → ℕ → Cursor → List Cursor
repeat step zero cursor = cursor ∷ []
repeat step (suc fuel) cursor =
    concat_map (repeat step fuel)
      (keep (λ next. ltb (length next.rest) (length cursor.rest)) (step cursor))
    ++ cursor ∷ []

unfoldable pub run_one : (ℕ → Bool) → Option ℕ → Text → List (ℕ × Text) → List Cursor
run_one p before [] groups = []
run_one p before (c ∷ s) groups =
    if p c then record { before = some c; rest = s; groups = groups } ∷ [] else []

-- The group matched what is between this text and the cursor.
abbrev pub capture : ℕ → Text → Cursor → Cursor
capture name start end = record end { groups = (name, between start end.rest) ∷ end.groups }

unfoldable pub run : Regex → Cursor → List Cursor
run empty cursor = cursor ∷ []
run (one p) cursor = run_one p cursor.before cursor.rest cursor.groups
run (at test) cursor = if test cursor.before cursor.rest then cursor ∷ [] else []
run (seq first second) cursor = concat_map (run second) (run first cursor)
run (alt first second) cursor = run first cursor ++ run second cursor
run (star body) cursor = repeat (run body) (length cursor.rest) cursor
run (group name body) cursor = map (capture name cursor.rest) (run body cursor)

-- What matched, the text behind it, and the groups.
pub record Match : Type 0 where
  pub matched : Text
  pub after : Text
  pub groups : List (ℕ × Text)

unfoldable pub first_match : Text → List Cursor → Option Match
first_match s [] = none
first_match s (end ∷ ends) =
    some (record { matched = between s end.rest; after = end.rest; groups = end.groups })

-- `re.match` at a place with this character before it
unfoldable pub match_here : Regex → Option ℕ → Text → Option Match
match_here r before s = first_match s (run r (record { before = before; rest = s; groups = [] }))

-- `re.search`, from a place with this character before it
unfoldable pub search_from : Regex → Option ℕ → Text → Bool
search_from r before [] = is_some (match_here r before [])
search_from r before (c ∷ s) = is_some (match_here r before (c ∷ s)) || search_from r (some c) s

abbrev pub search : Regex → Text → Bool
search r s = search_from r none s

-- `re.finditer`, for a pattern that matches at least one character: the matches do not overlap. The
-- number says how many characters of the last match are still to be passed.
unfoldable pub matches_from : Regex → ℕ → Option ℕ → Text → List Match
matches_from r passing before [] = []
matches_from r (suc passing) before (c ∷ s) = matches_from r passing (some c) s
matches_from r zero before (c ∷ s) = elim (match_here r before (c ∷ s)) [
  | none ↦ matches_from r 0 (some c) s
  | some m ↦ m ∷ matches_from r (length s - length m.after) (some c) s
]

abbrev pub find_matches : Regex → Text → List Match
find_matches r s = matches_from r 0 none s

-- `re.sub` with a plain replacement, for such a pattern
unfoldable pub substitute_from : Regex → Text → ℕ → Option ℕ → Text → Text
substitute_from r by passing before [] = []
substitute_from r by (suc passing) before (c ∷ s) = substitute_from r by passing (some c) s
substitute_from r by zero before (c ∷ s) = elim (match_here r before (c ∷ s)) [
  | none ↦ c ∷ substitute_from r by 0 (some c) s
  | some m ↦ by ++ substitute_from r by (length s - length m.after) (some c) s
]

abbrev pub substitute : Regex → Text → Text → Text
substitute r by s = substitute_from r by 0 none s

-- `m.group(name)`
unfoldable pub group_of : ℕ → List (ℕ × Text) → Option Text
group_of name [] = none
group_of name ((n, text) ∷ groups) =
    let rest = group_of name groups in if n == name then some text else rest

-- `r?`
abbrev pub optional : Regex → Regex
optional r = alt r empty

-- `r+`
abbrev pub plus : Regex → Regex
plus r = seq r (star r)

-- one of the characters
abbrev pub char : ℕ → Regex
char c = one (λ d. d == c)

-- the same, whatever the case
abbrev pub caseless : ℕ → Regex
caseless c = one (λ d. lower_code d == lower_code c)

-- a literal text
abbrev pub literal : Text → Regex
literal [] = empty
literal (c ∷ s) = seq (char c) (literal s)

abbrev pub word : Text → Regex
word [] = empty
word (c ∷ s) = seq (caseless c) (word s)

-- `(a|b|…)`
abbrev pub one_of : Regex → List Regex → Regex
one_of r [] = r
one_of r (t ∷ rs) = alt r (one_of t rs)

-- one after the other
abbrev pub all_of : List Regex → Regex
all_of [] = empty
all_of (r ∷ []) = r
all_of (r ∷ t ∷ rs) = seq r (all_of (t ∷ rs))

abbrev pub is_digit_code : ℕ → Bool
is_digit_code c = leb b'0' c && leb c b'9'

-- `\w`
unfoldable pub is_word : ℕ → Bool
is_word c =
    (leb b'A' c && leb c b'Z') || (leb b'a' c && leb c b'z') || is_digit_code c || (c == b'_')

abbrev pub holds : (ℕ → Bool) → Option ℕ → Bool
holds p none = false
holds p (some c) = p c

abbrev pub head_of : Text → Option ℕ
head_of [] = none
head_of (c ∷ s) = some c

-- `(?<!…)` and `(?!…)` for one character
abbrev pub not_behind : (ℕ → Bool) → Regex
not_behind p = at (λ before rest. not (holds p before))

abbrev pub not_ahead : (ℕ → Bool) → Regex
not_ahead p = at (λ before rest. not (holds p (head_of rest)))

-- `\b`
abbrev pub word_edge : Regex
word_edge = at (λ before rest.
    if holds is_word before
    then not (holds is_word (head_of rest))
    else holds is_word (head_of rest))

-- `\s*`
abbrev pub spaces : Regex
spaces = star (one is_space)
