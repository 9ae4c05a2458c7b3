-- ===== src/Reports/Lookup.antt =====
-- Finding an item of a report by its position or by its id (`get_item` of
-- src/ccreport/reports.py).
use mathlib.Core.Path.{subst}
use mathlib.Core.Logic.{◌↔◌}
use ccreport.Prelude.Int.{ℤ, pos, negsuc}
use ccreport.Prelude.{
  ℕ, zero, suc, ◌≡◌, ◌≢◌, refl, ap, Bool, List, [], ◌∷◌, arith, ◌==◌, Bool-cases, inl, inr, Option,
  none, some, get_elem?, find, find-some, All,
}
use ccreport.Prelude.Distinct.{Distinct}
use ccreport.Errors.{Result, ok, err, item_not_found}
use ccreport.Reports.Model.{ReportItem, Report}
use ccreport.Reports.Lifecycle.{Reference, index, item_id, get_item, item_at}
use ccreport.Reports.Order.{Numbered, sorted_items-Numbered, get_elem?-Numbered}
use ccreport.Reports.Drafts.{IsValid}

-- The item stands at some place of the list.
abbrev pub In : ReportItem → List ReportItem → Type 0
In i items = (k : ℕ) × (get_elem? items k ≡ some i)

-- The reference is the item's position or its id.
abbrev pub RefersTo : Reference → ReportItem → Type 0
RefersTo (index n) i = n ≡ pos i.position
RefersTo (item_id id) i = id ≡ i.id

find-In :
    (p : ReportItem → Bool) (items : List ReportItem) {i : ReportItem}
    → find p items ≡ some i
    → In i items
find-In p [] h = cc
find-In p (j ∷ items) {i} h = elim (Bool-cases (p j)) [
  | inl hit ↦ (0, ground arith)
  | inr miss ↦ let rest = find-In p items {i = i} (ground arith) in (suc rest.0, rest.1)
]

pub In_All {κ} :
    (P : ReportItem → Type κ) (items : List ReportItem) (k : ℕ) {i : ReportItem}
    → All P items
    → get_elem? items k ≡ some i
    → P i
In_All P [] k h e = cc
In_All P (j ∷ items) zero h e = subst P (ground arith) h.0
In_All P (j ∷ items) (suc k) h e = In_All P items k h.1 e

-- Where ids are distinct, searching for an item's id finds the item.
find_id :
    (items : List ReportItem) (k : ℕ) {i : ReportItem}
    → Distinct (λ j. j.id) items
    → get_elem? items k ≡ some i
    → find (λ j. j.id == i.id) items ≡ some i
find_id [] k h e = cc
find_id (j ∷ items) zero {i} h e = ground arith
find_id (j ∷ items) (suc k) {i} h e =
    let differs = In_All (λ y. y.id ≢ j.id) items k {i = i} h.0 e in
    ground (arith, find_id items k {i = i} h.1 e)

-- `none` where nothing is found, as an exception
abbrev raised_unless_found : Option ReportItem → Result ReportItem
raised_unless_found none = err item_not_found
raised_unless_found (some i) = ok i

raised_unless_found_iff :
    (o : Option ReportItem) (i : ReportItem) → (raised_unless_found o ≡ ok i) ↔ (o ≡ some i)
raised_unless_found_iff none i = ((λ e. absurd (ground arith)), λ f. absurd (ground arith))
raised_unless_found_iff (some j) i = ((λ e. cc), λ f. cc)

item_at_place :
    (items : List ReportItem) (n : ℕ)
    → item_at items (pos (suc n)) ≡ raised_unless_found (get_elem? items n)
unfolding item_at
item_at_place items n = refl

item_at_iff :
    (items : List ReportItem) (n : ℤ) (i : ReportItem)
    → Numbered 1 items
    → (item_at items n ≡ ok i) ↔ (In i items × (n ≡ pos i.position))
item_at_iff items (negsuc n) i h =
    unfold item_at in ((λ e. absurd (ground arith)), λ f. absurd (ground arith))
item_at_iff items (pos zero) i h =
    unfold item_at in
    (
      (λ e. absurd (ground arith)),
      λ f. absurd (ground (arith, get_elem?-Numbered 1 f.0.0 items {i = i} h f.0.1)),
    )
item_at_iff items (pos (suc n)) i h =
    let iff = raised_unless_found_iff (get_elem? items n) i in
    rw (item_at_place items n) (
      λ e.
          let there = iff.0 e in
          ((n, there), ap pos (omega (arith, get_elem?-Numbered 1 n items {i = i} h there))),
      λ f.
          let place = get_elem?-Numbered 1 f.0.0 items {i = i} h f.0.1 in
          let same : suc n ≡ i.position = ground arith in
          let n_is : f.0.0 ≡ n = omega (arith, place, same) in
          iff.1 (subst (λ k. get_elem? items k ≡ some i) n_is f.0.1),
    )

find_id_iff :
    (items : List ReportItem) (id : ℕ) (i : ReportItem)
    → Distinct (λ j. j.id) items
    → (find (λ j. j.id == id) items ≡ some i) ↔ (In i items × (id ≡ i.id))
find_id_iff items id i h = (
  λ e. (
    find-In (λ j. j.id == id) items {i = i} e,
    let hit = find-some (λ j. j.id == id) items {x = i} e in ground arith,
  ),
  λ f. rw f.1 (find_id items f.0.0 {i = i} h f.0.1),
)

get_item_by_id :
    (r : Report) (id : ℕ)
    → Numbered 1 r.items
    → get_item r (item_id id) ≡ raised_unless_found (find (λ j. j.id == id) r.items)
unfolding get_item
get_item_by_id r id h =
    ap (λ items. raised_unless_found (find (λ j. j.id == id) items))
      (sorted_items-Numbered 1 r.items h)

-- In a report with sound items, asking for a number gives an item exactly when the item is in the
-- report at that position; asking for an id, exactly when it is in the report and has that id.
pub get_item_iff :
    (r : Report) (next : ℕ) (reference : Reference) (i : ReportItem)
    → IsValid r.items next
    → (get_item r reference ≡ ok i) ↔ (In i r.items × RefersTo reference i)
unfolding get_item
get_item_iff r next (index n) i h =
    rw (sorted_items-Numbered 1 r.items h.numbered) (item_at_iff r.items n i h.numbered)
get_item_iff r next (item_id id) i h =
    let iff = raised_unless_found_iff (find (λ j. j.id == id) r.items) i in
    let found = find_id_iff r.items id i h.ids in
    rw (get_item_by_id r id h.numbered) (λ e. found.0 (iff.0 e), λ f. iff.1 (found.1 f))
