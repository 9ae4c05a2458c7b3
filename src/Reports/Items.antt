-- ===== src/Reports/Items.antt =====
-- What one call does to the items of a draft (src/ccreport/reports.py).
use mathlib.Core.Path.{subst}
use ccreport.Prelude.{
  find-append_one, ℕ, zero, suc, ◌+◌, ◌≡◌, ◌≢◌, refl, ap, ◌∙◌, true, not, List, [], ◌∷◌, arith,
  ◌==◌, keep, length, inl, inr, Option-cases, none, some, get_elem?, map, All, ==_iff,
}
use ccreport.Prelude.Distinct.{Distinct}
use ccreport.Prelude.Texts.{Text}
use ccreport.Errors.{ok}
use ccreport.Connectors.{MessageHeader}
use ccreport.Reports.Model.{ReportItem, Report, MailAccount, World}
use ccreport.Reports.Lifecycle.{
  is_draft, new_item, existing_item, add_item, Reference, get_item, renumber, remove_item,
}
use ccreport.Reports.Order.{Numbered, renumber-Numbered}
use ccreport.Reports.Drafts.{IsSound}
use ccreport.Reports.Lookup.{In_All, get_item_iff}
use ccreport.Reports.Edits.{require_draft_ok, kept_items, add_item_lem, with_item, selected}

existing_item-selected :
    (upn : Text) (w : World) (account : MailAccount) (header : MessageHeader) (now : ℕ)
    → existing_item w.report header.id ≡ none
    → (let i = selected w (length w.report.items) account header now in
        existing_item (with_item upn w i).report header.id ≡ some i)
unfolding existing_item selected new_item
existing_item-selected upn w account header now missing =
    find-append_one (λ i. i.provider_message_id == header.id) w.report.items _ missing
      (ground arith)

-- Selecting a message that is in the draft returns its item, from any account and at any time.
add_item_there :
    (upn : Text) (w : World) (account : MailAccount) (header : MessageHeader) (now : ℕ)
    (i : ReportItem)
    → is_draft w.report ≡ true
    → existing_item w.report header.id ≡ some i
    → add_item upn w account header now ≡ ok (i, w)
unfolding add_item
add_item_there upn w account header now i unlocked found =
    rw (require_draft_ok w.report unlocked, found) refl

-- In a sound world with a draft, selecting a message succeeds, and selecting the same message
-- again, from any account and at any time, returns the item that the first selection returned and
-- changes nothing.
pub add_item_again :
    (upn : Text) (w : World) (account other : MailAccount) (header : MessageHeader) (now later : ℕ)
    → IsSound w
    → is_draft w.report ≡ true
    → (w' : World) × (i : ReportItem) × (add_item upn w account header now ≡ ok (i, w'))
      × (add_item upn w' other header later ≡ ok (i, w'))
add_item_again upn w account other header now later h unlocked =
    elim (Option-cases (existing_item w.report header.id)) [
      | inr (i, found) ↦ (
        w,
        i,
        add_item_there upn w account header now i unlocked found,
        add_item_there upn w other header later i unlocked found,
      )
      | inl missing ↦
          let i = selected w (length w.report.items) account header now in
          (
            with_item upn w i,
            i,
            rw (add_item_lem upn w account header now h unlocked, missing) refl,
            add_item_there upn (with_item upn w i) other header later i unlocked
                (existing_item-selected upn w account header now missing),
          )
    ]

keep_absent_id :
    (items : List ReportItem) (id : ℕ)
    → All (λ j. j.id ≢ id) items
    → keep (λ j. not (j.id == id)) items ≡ items
keep_absent_id [] id h = refl
keep_absent_id (j ∷ items) id h = ground (arith, keep_absent_id items id h.1)

-- Where ids are distinct, removing an item's id removes that one item.
length-keep_id :
    (items : List ReportItem) (k : ℕ) {i : ReportItem}
    → Distinct (λ j. j.id) items
    → get_elem? items k ≡ some i
    → length (keep (λ j. not (j.id == i.id)) items) + 1 ≡ length items
length-keep_id [] k h e = cc
length-keep_id (j ∷ items) zero {i} h e =
    let same : j ≡ i = ground arith in
    let others = subst (λ x. All (λ y. y.id ≢ x.id) items) same h.0 in
    let hit : (j.id == i.id) ≡ true = (==_iff j.id i.id).1 (ap (λ x. x.id) same) in
    rw (hit, keep_absent_id items i.id others) (omega arith)
length-keep_id (j ∷ items) (suc k) {i} h e =
    let differs = In_All (λ y. y.id ≢ j.id) items k {i = i} h.0 e in
    ground (arith, length-keep_id items k {i = i} h.1 e)

pub length-renumber : (n : ℕ) (items : List ReportItem) → length (renumber n items) ≡ length items
unfolding renumber
length-renumber n [] = refl
length-renumber n (i ∷ items) = omega (arith, length-renumber (n + 1) items)

-- an item without its position
abbrev pub unplaced : ReportItem → ReportItem
unplaced i = record i { position = 0 }

unplaced-renumber :
    (n : ℕ) (items : List ReportItem) → map unplaced (renumber n items) ≡ map unplaced items
unfolding renumber
unplaced-renumber n [] = refl
unplaced-renumber n (i ∷ items) = ap (◌∷◌ (unplaced i)) (unplaced-renumber (n + 1) items)

-- a report without its items
abbrev pub but_items : Report → Report
but_items report = record report { items = [] }

-- In a sound world with a draft, removing an item that the reference finds takes exactly that item
-- out and its artifacts' rows with it: one item less, the others in their order, numbered from 1 and
-- changed in nothing but their positions; the rows of other artifacts, every file and the other columns
-- of the report stay as they were.
pub remove_item_lem :
    (upn : Text) (w : World) (reference : Reference) (i : ReportItem)
    → IsSound w
    → is_draft w.report ≡ true
    → get_item w.report reference ≡ ok i
    → (w' : World) × (remove_item upn w reference ≡ ok (i.id, w'))
      × (length w'.report.items + 1 ≡ length w.report.items)
      × Numbered 1 w'.report.items
      × (map unplaced w'.report.items
          ≡ map unplaced (keep (λ j. not (j.id == i.id)) w.report.items))
      × (but_items w'.report ≡ but_items w.report)
      × (w'.artifacts ≡ keep (λ a. not (a.item_id == i.id)) w.artifacts)
      × (w'.blobs ≡ w.blobs)
unfolding remove_item
remove_item_lem upn w reference i h unlocked found =
    let place = (get_item_iff w.report w.next_id reference i h).0 found in
    let remaining = keep (λ j. not (j.id == i.id)) w.report.items in
    rw (require_draft_ok w.report unlocked, found, kept_items w (λ j. not (j.id == i.id)) h)
      (
        _,
        refl,
        ap (λ n. n + 1) (length-renumber 1 remaining)
            ∙ length-keep_id w.report.items place.0.0 {i = i} h.ids place.0.1,
        renumber-Numbered 1 remaining,
        unplaced-renumber 1 remaining,
        refl,
        refl,
        refl,
      )
