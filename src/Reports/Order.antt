-- ===== src/Reports/Order.antt =====
-- Lists of items whose positions ascend: they are sorted already, and numbering them anew numbers
-- them from 1.
use ccreport.Prelude.{
  ℕ, suc, ◌+◌, ◌≤◌, ◌≡◌, refl, Bool, List, [], ◌∷◌, ◌++◌, arith, keep, length, Bool-cases, lt→ltb,
  zero, inl, inr, some, get_elem?,
}
use ccreport.Reports.Model.{ReportItem, item_le, insert_item, sorted_items, max_position}
use ccreport.Reports.Lifecycle.{renumber}

-- The positions are n, n + 1, and so on.
abbrev pub Numbered : ℕ → List ReportItem → Type 0
Numbered n [] = Unit
Numbered n (i ∷ items) = (i.position ≡ n) × Numbered (n + 1) items

-- The positions ascend, from n or more.
abbrev pub Ascending : ℕ → List ReportItem → Type 0
Ascending n [] = Unit
Ascending n (i ∷ items) = (n ≤ i.position) × Ascending (i.position + 1) items

pub Ascending-of_le :
    (m n : ℕ) (items : List ReportItem) → m ≤ n → Ascending n items → Ascending m items
Ascending-of_le m n [] le h = tt
Ascending-of_le m n (i ∷ items) le h = (omega (arith, le, h.0), h.1)

pub Ascending-keep :
    (n : ℕ) (p : ReportItem → Bool) (items : List ReportItem)
    → Ascending n items
    → Ascending n (keep p items)
Ascending-keep n p [] h = tt
Ascending-keep n p (i ∷ items) h =
    let rest = Ascending-keep (i.position + 1) p items h.1 in
    elim (Bool-cases (p i)) [
      | inl hit ↦ rw hit (h.0, rest)
      | inr miss ↦
          rw miss (Ascending-of_le n (i.position + 1) (keep p items) (omega (arith, h.0)) rest)
    ]

pub Numbered-Ascending : (n : ℕ) (items : List ReportItem) → Numbered n items → Ascending n items
Numbered-Ascending n [] h = tt
Numbered-Ascending n (i ∷ items) h = (
  omega (arith, h.0),
  Ascending-of_le (i.position + 1) (n + 1) items (omega (arith, h.0))
      (Numbered-Ascending (n + 1) items h.1),
)

insert_item_first :
    (i : ReportItem) (items : List ReportItem)
    → Ascending (i.position + 1) items
    → insert_item i items ≡ i ∷ items
unfolding insert_item item_le
insert_item_first i [] h = refl
insert_item_first i (j ∷ items) h = rw (lt→ltb i.position j.position (omega (arith, h.0)))

pub sorted_items-Ascending :
    (n : ℕ) (items : List ReportItem) → Ascending n items → sorted_items items ≡ items
unfolding sorted_items
sorted_items-Ascending n [] h = refl
sorted_items-Ascending n (i ∷ items) h =
    rw (sorted_items-Ascending (i.position + 1) items h.1) (insert_item_first i items h.1)

pub sorted_items-Numbered :
    (n : ℕ) (items : List ReportItem) → Numbered n items → sorted_items items ≡ items
sorted_items-Numbered n items h = sorted_items-Ascending n items (Numbered-Ascending n items h)

pub renumber-Numbered : (n : ℕ) (items : List ReportItem) → Numbered n (renumber n items)
unfolding renumber
renumber-Numbered n [] = tt
renumber-Numbered n (i ∷ items) = (refl, renumber-Numbered (n + 1) items)

pub Numbered-append_one :
    (n : ℕ) (items : List ReportItem) (i : ReportItem)
    → Numbered n items
    → i.position ≡ n + length items
    → Numbered n (items ++ i ∷ [])
Numbered-append_one n [] i h e = (omega (arith, e), tt)
Numbered-append_one n (j ∷ items) i h e =
    (h.0, Numbered-append_one (n + 1) items i h.1 (omega (arith, e)))

-- The greatest of positions that are numbered from 1 is their number.
max_position-Numbered_from :
    (n : ℕ) (i : ReportItem) (items : List ReportItem)
    → Numbered n (i ∷ items)
    → max_position (i ∷ items) ≡ n + length items
unfolding max_position
max_position-Numbered_from n i [] h = ground arith
max_position-Numbered_from n i (j ∷ items) h =
    ground (arith, max_position-Numbered_from (n + 1) j items h.1)

pub max_position-Numbered :
    (items : List ReportItem) → Numbered 1 items → max_position items ≡ length items
max_position-Numbered [] h = unfold max_position in refl
max_position-Numbered (i ∷ items) h = omega (arith, max_position-Numbered_from 1 i items h)

-- The item at a place carries its number.
pub get_elem?-Numbered :
    (n k : ℕ) (items : List ReportItem) {i : ReportItem}
    → Numbered n items
    → get_elem? items k ≡ some i
    → i.position ≡ n + k
get_elem?-Numbered n k [] h e = cc
get_elem?-Numbered n zero (j ∷ items) {i} h e = ground (arith, h.0)
get_elem?-Numbered n (suc k) (j ∷ items) {i} h e =
    omega (arith, get_elem?-Numbered (n + 1) k items {i = i} h.1 e)
