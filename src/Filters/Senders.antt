-- ===== src/Filters/Senders.antt =====
-- Names of senders and their domains in src/ccreport/filters.py, and `parse_address` of
-- src/ccreport/connectors/base.py.
use ccreport.Prelude.{
  ℕ, ◌-◌, Bool, false, not, ◌&&◌, ◌||◌, Option, none, some, List, [], ◌∷◌, ◌++◌, map, if◌then◌else◌,
  leb, ◌==◌, length, any,
}
use ccreport.Prelude.Texts.{
  Text, codes, contains, text_eq, lower, lower_code, upper_code, strip, is_space, Text-discrete,
}
use ccreport.OrderedDict.{lookup}
use ccreport.Regex.{
  Regex, one, seq, at, optional, plus, char, word, one_of, all_of, word_edge, find_matches, group,
  group_of, substitute, match_here, Match,
}
use ccreport.Connectors.{or_empty}
use ccreport.Storage.{take, is_empty}

-- `\s+via\s+.+$`: the end is that of the text, or the line break before it
abbrev pub via_re : Regex
via_re = all_of (
    plus (one is_space)
    ∷ word (codes "via")
    ∷ plus (one is_space)
    ∷ plus (one (λ c. not (c == b'\n')))
    ∷ at (λ before rest. text_eq rest [] || text_eq rest (codes "\n"))
    ∷ [])

abbrev pub noise_word_re : Regex
noise_word_re = all_of (
    word_edge
    ∷ one_of (word (codes "via")) (
        all_of (word (codes "no") ∷ optional (char b'-') ∷ word (codes "reply") ∷ [])
        ∷ word (codes "billing")
        ∷ all_of (word (codes "receipt") ∷ optional (word (codes "s")) ∷ [])
        ∷ word (codes "team")
        ∷ [])
    ∷ word_edge
    ∷ [])

-- a bar, a dash of any length, an underscore or a colon
abbrev pub is_divider : ℕ → Bool
is_divider c =
    (c == b'|') || (c == b'-') || (c == 0x2013) || (c == 0x2014) || (c == b'_') || (c == b':')

abbrev pub strip_front : (ℕ → Bool) → Text → Text
strip_front p [] = []
strip_front p (c ∷ s) = let rest = strip_front p s in if p c then rest else c ∷ s

abbrev pub push_unless : (ℕ → Bool) → ℕ → Text → Text
push_unless p c [] = if p c then [] else c ∷ []
push_unless p c (d ∷ t) = c ∷ d ∷ t

abbrev pub strip_back : (ℕ → Bool) → Text → Text
strip_back p [] = []
strip_back p (c ∷ s) = push_unless p c (strip_back p s)

-- `s.strip(chars)`
abbrev pub strip_of : (ℕ → Bool) → Text → Text
strip_of p s = strip_back p (strip_front p s)

unfoldable pub cleaned : Text → Text
cleaned name =
    let sender = substitute via_re [] name in
    let quiet = substitute noise_word_re [] sender in
    let undivided = substitute (plus (one is_divider)) (codes " ") quiet in
    strip_of (λ c. (c == b' ') || (c == b'\'') || (c == b'"'))
      (substitute (plus (one is_space)) (codes " ") undivided)

-- names of departments, which say nothing
abbrev pub idle_names : List Text
idle_names = codes "support" ∷ codes "hello" ∷ codes "info" ∷ []

unfoldable pub clean_sender_name : Option Text → Option Text
clean_sender_name none = none
clean_sender_name (some []) = none
clean_sender_name (some (c ∷ s)) =
    let name = cleaned (c ∷ s) in
    if is_empty name || contains (lower name) idle_names then none else some name

abbrev pub non_empty_text : Text → Option Text
non_empty_text s = if is_empty s then none else some s

-- `<([^>]+)>`
abbrev pub address_re : Regex
address_re = all_of (char b'<' ∷ group 0 (plus (one (λ c. not (c == b'>')))) ∷ char b'>' ∷ [])

abbrev pub has_at : Text → Bool
has_at s = any (λ c. c == b'@') s

abbrev pub without_quotes : Text → Text
without_quotes s = strip (strip_of (λ c. c == b'"') (strip s))

-- the branches of `parse_address` for the first match, if there is one
abbrev pub parsed_address : Text → List Match → Option Text × Option Text
parsed_address raw [] =
    if has_at raw
    then (none, some (lower (strip_of (λ c. (c == b'<') || (c == b'>')) (strip raw))))
    else (non_empty_text raw, none)
parsed_address raw (m ∷ ms) = (
  non_empty_text (without_quotes (take (length raw - length m.matched - length m.after) raw)),
  some (lower (strip (or_empty (group_of 0 m.groups)))),
)

unfoldable pub parse_address : Option Text → Option Text × Option Text
parse_address none = (none, none)
parse_address (some []) = (none, none)
parse_address (some (c ∷ s)) =
    let raw = strip (c ∷ s) in parsed_address raw (find_matches address_re raw)

unfoldable pub push_to_first : ℕ → List Text → List Text
push_to_first c [] = (c ∷ []) ∷ []
push_to_first c (part ∷ parts) = (c ∷ part) ∷ parts

-- `s.split(sep)`
unfoldable pub split_on : ℕ → Text → List Text
split_on sep [] = [] ∷ []
split_on sep (c ∷ s) =
    let rest = split_on sep s in if c == sep then [] ∷ rest else push_to_first c rest

unfoldable pub last_of : List Text → Text
last_of [] = []
last_of (part ∷ []) = part
last_of (part ∷ next ∷ parts) = last_of (next ∷ parts)

abbrev pub first_of : List Text → Text
first_of [] = []
first_of (part ∷ parts) = part

-- `^(email|mail|e|mailer|notifications|t)\.`
abbrev pub mail_subdomain_re : Regex
mail_subdomain_re =
    seq
      (one_of (word (codes "email")) (
        word (codes "mail")
        ∷ word (codes "e")
        ∷ word (codes "mailer")
        ∷ word (codes "notifications")
        ∷ word (codes "t")
        ∷ []))
      (char b'.')

abbrev pub without_subdomain : Text → Text
without_subdomain domain = elim (match_here mail_subdomain_re none domain) [
  | none ↦ domain
  | some m ↦ m.after
]

-- second-level names under which domains are registered
abbrev pub second_levels : List Text
second_levels = codes "co" ∷ codes "com" ∷ codes "org" ∷ codes "ac" ∷ []

-- the last two parts, or the last three
unfoldable pub registrable : List Text → Text
registrable [] = []
registrable (a ∷ []) = a
registrable (a ∷ b ∷ []) = a ++ b'.' ∷ b
registrable (a ∷ b ∷ c ∷ []) =
    if contains b second_levels then a ++ b'.' ∷ (b ++ b'.' ∷ c) else b ++ b'.' ∷ c
registrable (a ∷ b ∷ c ∷ d ∷ parts) = registrable (b ∷ c ∷ d ∷ parts)

-- `parsed or address`
abbrev pub or_raw : Option Text → Option Text → Option Text
or_raw none raw = raw
or_raw (some []) raw = raw
or_raw (some (c ∷ s)) raw = some (c ∷ s)

unfoldable pub domain_of : Text → Option Text
domain_of address =
    if has_at address
    then non_empty_text (
        registrable (
          split_on b'.' (
            without_subdomain (
              strip_of (λ c. (c == b' ') || (c == b'>'))
                (lower (last_of (split_on b'@' address)))))))
    else none

unfoldable pub registrable_domain : Option Text → Option Text
registrable_domain address = elim (or_raw ((parse_address address).1) address) [
  | none ↦ none
  | some text ↦ domain_of text
]

-- `s.title()`; the flag says whether a letter stands before
unfoldable pub title_from : Bool → Text → Text
title_from in_word [] = []
title_from in_word (c ∷ s) =
    (if in_word then lower_code c else upper_code c)
    ∷ title_from ((leb b'a' (lower_code c)) && (leb (lower_code c) b'z')) s

abbrev pub special_titles : List (Text × Text)
special_titles =
    (codes "github", codes "GitHub")
    ∷ (codes "openai", codes "OpenAI")
    ∷ (codes "jstor", codes "JSTOR")
    ∷ (codes "ieee", codes "IEEE")
    ∷ []

unfoldable pub title_domain : Text → Text
title_domain domain =
    let first = first_of (split_on b'.' (last_of (split_on b'@' domain))) in
    let base = strip (map (λ c. if (c == b'-') || (c == b'_') then b' ' else c) first) in
    elim (lookup Text-discrete (lower base) special_titles) [
      | none ↦ title_from false base
      | some title ↦ title
    ]
