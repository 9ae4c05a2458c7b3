-- ===== src/Bundle/Grouped.antt =====
-- Grouping the entries of a bundle by their item, and sorting the items (src/ccreport/bundle.py).
use mathlib.Core.List.{append-nil}
use native.Mathlib.Decide.{ℕ_discrete}
use ccreport.Prelude.{
  ℕ, ◌≡◌, ◌≢◌, refl, sym, ap, ◌∙◌, Bool, true, false, List, [], ◌∷◌, ◌++◌, arith, keep, ◌==◌,
  ==_iff, All, if◌then◌else◌, Bool-cases, inl, inr,
}
use ccreport.Prelude.Distinct.{Distinct}
use ccreport.OrderedDict.{assign, lookup-assign}
use ccreport.Reports.Model.{ReportItem, item_le, insert_item, sorted_items}
use ccreport.Bundle.Manifest.{ByItem, entries_or_none, group_by_item}
use ccreport.Bundle.{BundleEntry}

abbrev pub of_item : ℕ → BundleEntry → Bool
of_item id e = e.item.id == id

append-assoc_one :
    (xs : List BundleEntry) (e : BundleEntry) (ys : List BundleEntry)
    → (xs ++ e ∷ []) ++ ys ≡ xs ++ e ∷ ys
append-assoc_one [] e ys = refl
append-assoc_one (x ∷ xs) e ys = ap (◌∷◌ x) (append-assoc_one xs e ys)

entries-assign :
    (j id : ℕ) (es : List BundleEntry) (d : ByItem)
    → entries_or_none (assign ℕ_discrete j es d) id ≡ (if j == id then es else entries_or_none d id)
entries-assign j id es d = ground (arith, lookup-assign ℕ_discrete j id es d)

-- Grouping gives each item its entries in their order.
pub group_by_item_lem :
    (entries : List BundleEntry) (d : ByItem) (id : ℕ)
    → entries_or_none (group_by_item d entries) id
      ≡ entries_or_none d id ++ keep (of_item id) entries
unfolding group_by_item
group_by_item_lem [] d id = sym (append-nil (entries_or_none d id))
group_by_item_lem (e ∷ entries) d id =
    let mine = entries_or_none d e.item.id in
    let rest = group_by_item_lem entries (assign ℕ_discrete e.item.id (mine ++ e ∷ []) d) id in
    let assigned = entries-assign e.item.id id (mine ++ e ∷ []) d in
    let kept = keep (of_item id) entries in
    elim (Bool-cases (e.item.id == id)) [
      | inl hit ↦
          let same : e.item.id ≡ id = (==_iff e.item.id id).0 hit in
          let now : entries_or_none (assign ℕ_discrete e.item.id (mine ++ e ∷ []) d) id
              ≡ mine ++ e ∷ [] =
            cc (assigned, hit) in
          let here : mine ≡ entries_or_none d id = ap (entries_or_none d) same in
          rw hit (
            rest
            ∙ ap (λ es. es ++ kept) now
            ∙ append-assoc_one mine e kept
            ∙ ap (λ es. es ++ e ∷ kept) here)
      | inr miss ↦
          let now : entries_or_none (assign ℕ_discrete e.item.id (mine ++ e ∷ []) d) id
              ≡ entries_or_none d id =
            cc (assigned, miss) in
          rw miss (rest ∙ ap (λ es. es ++ kept) now)
    ]

pub All-append :
    (P : BundleEntry → Type 0) (xs ys : List BundleEntry) → All P xs → All P ys → All P (xs ++ ys)
All-append P [] ys h k = k
All-append P (x ∷ xs) ys h k = (h.0, All-append P xs ys h.1 k)

pub keep-append :
    (p : BundleEntry → Bool) (xs ys : List BundleEntry) → keep p (xs ++ ys) ≡ keep p xs ++ keep p ys
keep-append p [] ys = refl
keep-append p (x ∷ xs) ys = ground (arith, keep-append p xs ys)

pub keep_all :
    (p : BundleEntry → Bool) (xs : List BundleEntry) → All (λ x. p x ≡ true) xs → keep p xs ≡ xs
keep_all p [] h = refl
keep_all p (x ∷ xs) h = rw (h.0, keep_all p xs h.1) refl

pub keep_nothing :
    (p : BundleEntry → Bool) (xs : List BundleEntry) → All (λ x. p x ≡ false) xs → keep p xs ≡ []
keep_nothing p [] h = refl
keep_nothing p (x ∷ xs) h = rw h.0 (keep_nothing p xs h.1)

All-insert_item :
    (P : ReportItem → Type 0) (x : ReportItem) (xs : List ReportItem)
    → P x
    → All P xs
    → All P (insert_item x xs)
unfolding insert_item
All-insert_item P x [] p h = (p, tt)
All-insert_item P x (y ∷ xs) p h = ground (arith, All-insert_item P x xs p h.1)

pub All-sorted_items :
    (P : ReportItem → Type 0) (xs : List ReportItem) → All P xs → All P (sorted_items xs)
unfolding sorted_items
All-sorted_items P [] h = tt
All-sorted_items P (x ∷ xs) h =
    All-insert_item P x (sorted_items xs) h.0 (All-sorted_items P xs h.1)

Distinct-insert_item :
    (x : ReportItem) (xs : List ReportItem)
    → All (λ y. y.id ≢ x.id) xs
    → Distinct (λ i. i.id) xs
    → Distinct (λ i. i.id) (insert_item x xs)
unfolding insert_item
Distinct-insert_item x [] apart h = (tt, tt)
Distinct-insert_item x (y ∷ xs) apart h =
    let rest = Distinct-insert_item x xs apart.1 h.1 in
    let others : All (λ z. z.id ≢ y.id) (insert_item x xs) =
      All-insert_item _ x xs (λ e. apart.0 (sym e)) h.0 in
    elim (Bool-cases (item_le x y)) [
      | inl first ↦ rw first (apart, h)
      | inr later ↦ rw later (others, rest)
    ]

pub Distinct-sorted_items :
    (xs : List ReportItem) → Distinct (λ i. i.id) xs → Distinct (λ i. i.id) (sorted_items xs)
unfolding sorted_items
Distinct-sorted_items [] h = tt
Distinct-sorted_items (x ∷ xs) h =
    Distinct-insert_item x (sorted_items xs) (All-sorted_items _ xs h.0)
      (Distinct-sorted_items xs h.1)
