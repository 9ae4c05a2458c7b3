-- ===== src/Bundle/Safe.antt =====
-- The paths of the entries hold no separator but the one after `receipts` (src/ccreport/bundle.py).
use mathlib.Core.Path.{subst}
use ccreport.Prelude.{
  ℕ, zero, suc, ◌+◌, ◌≡◌, refl, sym, Bool, true, false, some, List, [], ◌∷◌, ◌++◌, arith,
  Bool-cases, Option-cases, inl, inr, All, All-keep, keep-All, if◌then◌else◌, ◌==◌, length,
}
use ccreport.Prelude.Texts.{Text, codes}
use ccreport.Storage.{
  is_safe, safe_filename, path_suffix, suffix_of_name, from_last_dot, path_name, path_parts,
  last_part, split_slash, push_char,
}
use ccreport.Storage.Safe.{IsSafe, append-IsSafe, safe_filename-IsStorable}
use ccreport.Period.{decimal, zero_padded}
use ccreport.Connectors.{or_empty}
use ccreport.Reports.Model.{ReportItem}
use ccreport.Bundle.Slugs.{
  dash_safe, or_default-IsSafe, decimal-IsSafe, zero_padded-IsSafe, slugify-IsSafe,
}
use ccreport.Bundle.Names.{entry_name_lem}
use ccreport.Bundle.{
  or_default, slugify, candidate, BundleServices, entry_stem, entry_suffix, entry_name,
}

push_char-IsSafe :
    (c : ℕ) (parts : List Text)
    → is_safe c ≡ true
    → All IsSafe parts
    → All IsSafe (push_char c parts)
unfolding push_char
push_char-IsSafe c [] h k = ((h, tt), tt)
push_char-IsSafe c (part ∷ parts) h k = ((h, k.0), k.1)

split_slash-IsSafe : (s : Text) → IsSafe s → All IsSafe (split_slash s)
unfolding split_slash
split_slash-IsSafe [] h = (tt, tt)
split_slash-IsSafe (c ∷ s) h = elim (Bool-cases (c == b'/')) [
  | inl hit ↦ rw hit (tt, split_slash-IsSafe s h.1)
  | inr miss ↦ rw miss (push_char-IsSafe c (split_slash s) h.0 (split_slash-IsSafe s h.1))
]

last_part-IsSafe : (parts : List Text) → All IsSafe parts → IsSafe (last_part parts)
unfolding last_part
last_part-IsSafe [] h = tt
last_part-IsSafe (part ∷ []) h = h.0
last_part-IsSafe (part ∷ next ∷ parts) h = last_part-IsSafe (next ∷ parts) h.1

from_last_dot-IsSafe :
    (s : Text) {suffix : Text} → IsSafe s → from_last_dot s ≡ some suffix → IsSafe suffix
unfolding from_last_dot
from_last_dot-IsSafe [] h e = cc
from_last_dot-IsSafe (c ∷ s) {suffix} h e = elim (Option-cases (from_last_dot s)) [
  | inl absent ↦ elim (Bool-cases (c == b'.')) [
    | inl dot ↦ let same : c ∷ s ≡ suffix = ground (arith, e, absent, dot) in subst IsSafe same h
    | inr other ↦ absurd (ground (arith, e, absent, other))
  ]
  | inr (rest, there) ↦
      let same : rest ≡ suffix = ground (arith, e, there) in
      subst IsSafe same (from_last_dot-IsSafe s {suffix = rest} h.1 there)
]

if_IsSafe : (b : Bool) (s : Text) → IsSafe s → IsSafe (if b then s else [])
if_IsSafe true s h = h
if_IsSafe false s h = tt

suffix_of_name-IsSafe : (name : Text) → IsSafe name → IsSafe (suffix_of_name name)
unfolding suffix_of_name
suffix_of_name-IsSafe name h = elim (Option-cases (from_last_dot name)) [
  | inl absent ↦ rw (absent, suffix_of_name) tt
  | inr (suffix, there) ↦
      let safe = from_last_dot-IsSafe name {suffix = suffix} h there in
      rw (there, suffix_of_name) (if_IsSafe _ suffix safe)
]

path_suffix-IsSafe : (s : Text) → IsSafe s → IsSafe (path_suffix s)
unfolding path_suffix path_name path_parts
path_suffix-IsSafe s h =
    suffix_of_name-IsSafe _
      (last_part-IsSafe _ (All-keep IsSafe _ (split_slash s) (split_slash-IsSafe s h)))

receipt-IsSafe : IsSafe (codes "receipt")
unfolding is_safe
receipt-IsSafe = keep-All is_safe (codes "receipt")

pdf-IsSafe : IsSafe (codes ".pdf")
unfolding is_safe
pdf-IsSafe = keep-All is_safe (codes ".pdf")

-- The path lies in `receipts`, under a safe name.
abbrev pub IsReceiptPath : Text → Type 0
IsReceiptPath path = (name : Text) × (path ≡ codes "receipts/" ++ name) × IsSafe name

module _ (services : BundleServices) (index : ℕ) (item : ReportItem) (original : Text) where
  entry_suffix-IsSafe : IsSafe (entry_suffix services original)
  entry_suffix-IsSafe =
      let name = safe_filename services.nfkd original in
      or_default-IsSafe (path_suffix name) (codes ".pdf")
        (path_suffix-IsSafe name ((safe_filename-IsStorable services.nfkd original).safe))
        pdf-IsSafe

  -- the stem of an entry's name without its directory
  abbrev stem_name : Text
  stem_name =
      zero_padded 3 index
      ++ b'-'
        ∷ slugify
            (or_default (or_empty item.vendor_hint)
              (or_default (or_empty item.message_subject) (codes "receipt")))
            (codes "receipt")

  stem_name-IsSafe : IsSafe stem_name
  stem_name-IsSafe =
      append-IsSafe (zero_padded 3 index) _ (zero_padded-IsSafe 3 index)
        (dash_safe, slugify-IsSafe _ (codes "receipt") receipt-IsSafe)

  candidate-IsReceiptPath :
      (j : ℕ) → IsReceiptPath (candidate (entry_stem index item) (entry_suffix services original) j)
  unfolding candidate
  candidate-IsReceiptPath zero = (
    stem_name ++ entry_suffix services original,
    refl,
    append-IsSafe stem_name (entry_suffix services original) stem_name-IsSafe entry_suffix-IsSafe,
  )
  candidate-IsReceiptPath (suc j) =
      let tail = b'-' ∷ (decimal (j + 2) ++ entry_suffix services original) in
      (
        stem_name ++ tail,
        refl,
        append-IsSafe stem_name tail stem_name-IsSafe (
          dash_safe,
          append-IsSafe (decimal (j + 2)) (entry_suffix services original) (decimal-IsSafe (j + 2))
              entry_suffix-IsSafe,
        ),
      )

  -- Whatever the mail says of vendor, subject and file name, the path of an entry is `receipts/` and a
  -- name of letters, digits, dots, underscores and dashes, so it has no other slash.
  pub entry_name-IsReceiptPath :
      (taken : List Text) → IsReceiptPath (entry_name services index item original taken)
  entry_name-IsReceiptPath taken =
      let (j, _, e, _, _) =
        (entry_name_lem services index item original taken (length taken) (omega arith)).1 in
      subst IsReceiptPath (sym e) (candidate-IsReceiptPath j)
