-- ===== src/Reports/Justify.antt =====
-- What `justify_item` (src/ccreport/reports.py) changes.
use mathlib.Core.Path.{subst}
use ccreport.Prelude.{
  ℕ, zero, suc, ◌≡◌, ◌≢◌, refl, ap, ◌∙◌, true, false, List, [], ◌∷◌, arith, if◌then◌else◌, ◌==◌,
  some, get_elem?, ==_iff, map, none, Bool-cases, inl, inr,
}
use ccreport.Prelude.Int.{pos}
use ccreport.Prelude.Texts.{Text, strip}
use ccreport.Errors.{ok}
use ccreport.Reports.Model.{ReportItem, World}
use ccreport.Reports.Lifecycle.{
  is_draft, Reference, index, item_id, get_item, update_item, is_blank, justify_item,
}
use ccreport.Reports.Drafts.{IsSound, update_item-IsValid}
use ccreport.Reports.Lookup.{RefersTo, get_item_iff}
use ccreport.Reports.Edits.{require_draft_ok}
use ccreport.Reports.Items.{but_items}

get_elem?-update_item :
    (id : ℕ) (change : ReportItem → ReportItem) (items : List ReportItem) (k : ℕ) {i : ReportItem}
    → get_elem? items k ≡ some i
    → get_elem? (update_item id change items) k ≡ some (if i.id == id then change i else i)
unfolding update_item
get_elem?-update_item id change [] k h = cc
get_elem?-update_item id change (j ∷ items) zero {i} h =
    let same : j ≡ i = cc in
    subst
      (λ x. some (if j.id == id then change j else j) ≡ some (if x.id == id then change x else x))
      same refl
get_elem?-update_item id change (j ∷ items) (suc k) {i} h =
    get_elem?-update_item id change items k {i = i} h

RefersTo-same :
    (reference : Reference) (i j : ReportItem)
    → i.position ≡ j.position
    → i.id ≡ j.id
    → RefersTo reference i
    → RefersTo reference j
RefersTo-same (index n) i j p d h = h ∙ ap pos p
RefersTo-same (item_id id) i j p d h = h ∙ d

different : (a b : ℕ) → a ≢ b → (a == b) ≡ false
different a b h = ground arith

-- an item without its justification
abbrev pub but_text : ReportItem → ReportItem
but_text i = record i { justification = none }

but_text-update_item :
    (id : ℕ) (text : Text) (items : List ReportItem)
    → map but_text (update_item id (λ i. record i { justification = some text }) items)
      ≡ map but_text items
unfolding update_item
but_text-update_item id text [] = refl
but_text-update_item id text (i ∷ items) = elim (Bool-cases (i.id == id)) [
  | inl hit ↦ rw hit (ap (◌∷◌ (but_text i)) (but_text-update_item id text items))
  | inr miss ↦ rw miss (ap (◌∷◌ (but_text i)) (but_text-update_item id text items))
]

-- In a sound world with a draft, justifying an item that the reference finds with a text that is
-- not blank gives that item the text without the space around it, so the same reference finds the item
-- with its new text. Every other item stays at its place as it was, and nothing changes in any column
-- of an item but the text, in any other column of the report, in the artifacts or the files.
pub justify_item_lem :
    (upn : Text) (w : World) (reference : Reference) (text : Text) (i : ReportItem)
    → IsSound w
    → is_draft w.report ≡ true
    → is_blank (strip text) ≡ false
    → get_item w.report reference ≡ ok i
    → (w' : World) × (i' : ReportItem) × (justify_item upn w reference text ≡ ok (i', w'))
      × (i'.justification ≡ some (strip text))
      × (get_item w'.report reference ≡ ok i')
      × ((k : ℕ) (j : ReportItem)
          → get_elem? w.report.items k ≡ some j
          → j.id ≢ i.id
          → get_elem? w'.report.items k ≡ some j)
      × (map but_text w'.report.items ≡ map but_text w.report.items)
      × (but_items w'.report ≡ but_items w.report)
      × (w'.artifacts ≡ w.artifacts)
      × (w'.blobs ≡ w.blobs)
unfolding justify_item
justify_item_lem upn w reference text i h unlocked solid found =
    let change : ReportItem → ReportItem = λ j. record j { justification = some (strip text) } in
    let items = update_item i.id change w.report.items in
    let place = (get_item_iff w.report w.next_id reference i h).0 found in
    let there : get_elem? items place.0.0 ≡ some (change i) =
      get_elem?-update_item i.id change w.report.items place.0.0 {i = i} place.0.1
      ∙ ap (λ b. some (if b then change i else i)) ((==_iff i.id i.id).1 refl) in
    let sound = update_item-IsValid i.id w.next_id change w.report.items (λ j. refl) h in
    rw (require_draft_ok w.report unlocked, solid, found)
      (
        _,
        _,
        refl,
        refl,
        (get_item_iff (record (w.report) { items = items }) w.next_id reference (change i) sound).1
            ((place.0.0, there), RefersTo-same reference i (change i) refl refl place.1),
        λ k j at differs.
            get_elem?-update_item i.id change w.report.items k {i = j} at
            ∙ ap (λ b. some (if b then change j else j)) (different j.id i.id differs),
        but_text-update_item i.id (strip text) w.report.items,
        refl,
        refl,
        refl,
      )
