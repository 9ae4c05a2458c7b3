-- ===== src/Reports/Edits.antt =====
-- One change of a draft after the other (src/ccreport/reports.py): what every such call returns.
use ccreport.Prelude.{
  ℕ, ◌+◌, ◌<◌, ◌≡◌, ◌≢◌, refl, ap, ◌∙◌, Bool, true, false, not, List, [], ◌∷◌, ◌++◌, arith, ◌==◌,
  keep, length, Bool-cases, inl, inr, Option-cases, none, some, find-none, All, All-map,
  All-append_one,
}
use ccreport.Prelude.Distinct.{Distinct-append_one}
use ccreport.Prelude.Texts.{Text, strip}
use ccreport.Errors.{Result, Result-cases, ok, err, report_state_error}
use ccreport.Audit.{Subject, audit}
use ccreport.Connectors.{MessageHeader}
use ccreport.Reports.Model.{ReportItem, Report, MailAccount, World, sorted_items, max_position}
use ccreport.Reports.Lifecycle.{
  is_draft, require_draft, append_item, new_item, existing_item, add_item, Reference, get_item,
  is_blank, justify_item, remove_item,
}
use ccreport.Reports.Order.{
  Ascending-keep, Numbered-Ascending, sorted_items-Ascending, sorted_items-Numbered,
  Numbered-append_one, max_position-Numbered,
}
use ccreport.Reports.Drafts.{IsValid, IsSound, update_item-IsValid, renumber-keep}

-- The world after a call: a call that raises leaves it as it was.
abbrev pub after {ℓ} : {A : Type ℓ} → World → Result (A × World) → World
after w (err raised) = w
after w (ok (value, next)) = next

pub require_draft_ok : (r : Report) → is_draft r ≡ true → require_draft r ≡ ok tt
unfolding require_draft
require_draft_ok r h = rw h

pub require_draft_err : (r : Report) → is_draft r ≡ false → require_draft r ≡ err report_state_error
unfolding require_draft
require_draft_err r h = rw h

pub IsValid-append_one :
    (items : List ReportItem) (next : ℕ) (i : ReportItem)
    → IsValid items next
    → i.position ≡ 1 + length items
    → i.id ≡ next
    → All (λ j. j.provider_message_id ≢ i.provider_message_id) items
    → IsValid (items ++ i ∷ []) (next + 1)
IsValid-append_one items next i h place id new = record {
  numbered = Numbered-append_one 1 items i h.numbered place;
  messages = Distinct-append_one (λ j. j.provider_message_id) items i h.messages new;
  ids =
      Distinct-append_one (λ j. j.id) items i h.ids
        (All-map (λ j. j.id < next) (λ j. j.id ≢ i.id) (λ j lt. ground arith) items h.fresh);
  fresh =
      All-append_one (λ j. j.id < next + 1) items i
        (All-map (λ j. j.id < next) (λ j. j.id < next + 1) (λ j lt. omega arith) items h.fresh)
        (omega (arith, id));
}

-- the item that `add_item` makes when the report has `n` items
unfoldable pub selected : World → ℕ → MailAccount → MessageHeader → ℕ → ReportItem
selected w n account header now = new_item w.next_id now (n + 1) account header

pub IsValid-selected :
    (w : World) (account : MailAccount) (header : MessageHeader) (now : ℕ)
    → IsSound w
    → existing_item w.report header.id ≡ none
    → IsValid
        (w.report.items ++ selected w (length w.report.items) account header now ∷ [])
        (w.next_id + 1)
unfolding existing_item new_item selected
IsValid-selected w account header now h missing =
    IsValid-append_one w.report.items w.next_id _ h (omega arith) refl (
      All-map _ _ (λ j differs. ground arith) w.report.items
        (find-none (λ i. i.provider_message_id == header.id) w.report.items missing))

-- `session.refresh` finds the new item behind the others, where it was put.
pub append_item_lem :
    (w : World) (account : MailAccount) (header : MessageHeader) (now : ℕ)
    → IsSound w
    → existing_item w.report header.id ≡ none
    → append_item w (new_item w.next_id now (1 + max_position w.report.items) account header)
      ≡ record w {
        report = record (w.report) {
          items = w.report.items ++ selected w (length w.report.items) account header now ∷ [];
        };
        next_id = w.next_id + 1;
      }
unfolding append_item selected
append_item_lem w account header now h missing =
    let place : 1 + max_position w.report.items ≡ length w.report.items + 1 =
      omega (arith, max_position-Numbered w.report.items h.numbered) in
    rw (place, sorted_items-Numbered 1 _ (IsValid-selected w account header now h missing).numbered)
      refl

-- the draft with one more item behind the others
abbrev pub with_item : Text → World → ReportItem → World
with_item upn w item = record w {
  report = record (w.report) { items = w.report.items ++ item ∷ [] };
  log = audit (some upn) "report.add_item" (Subject.report_item item.id) w.log;
  next_id = w.next_id + 1;
}

-- In a sound world with a draft, selecting a message that is not in the report puts one item
-- behind the others, with the number that comes next as its position, and changes no other item
-- and no file; selecting one that is in it returns its item and changes nothing.
pub add_item_lem :
    (upn : Text) (w : World) (account : MailAccount) (header : MessageHeader) (now : ℕ)
    → IsSound w
    → is_draft w.report ≡ true
    → add_item upn w account header now ≡ elim (existing_item w.report header.id) [
      | some existing ↦ ok (existing, w)
      | none ↦
          let item = selected w (length w.report.items) account header now in
          ok (item, with_item upn w item)
    ]
unfolding add_item
add_item_lem upn w account header now h unlocked =
    rw (require_draft_ok w.report unlocked)
      (elim (Option-cases (existing_item w.report header.id)) [
        | inr (i, found) ↦ rw found refl
        | inl missing ↦
            let place : 1 + max_position w.report.items ≡ length w.report.items + 1 =
              omega (arith, max_position-Numbered w.report.items h.numbered) in
            rw (missing, append_item_lem w account header now h missing)
              (rw place (unfold selected in refl))
      ])

pub select-IsSound :
    (upn : Text) (w : World) (account : MailAccount) (header : MessageHeader) (now : ℕ)
    → IsSound w
    → is_draft w.report ≡ true
    → IsSound (after w (add_item upn w account header now))
select-IsSound upn w account header now h unlocked =
    rw (add_item_lem upn w account header now h unlocked)
      (elim (Option-cases (existing_item w.report header.id)) [
        | inr (i, found) ↦ rw found h
        | inl missing ↦ rw missing (IsValid-selected w account header now h missing)
      ])

pub justify-IsSound :
    (upn : Text) (w : World) (reference : Reference) (text : Text)
    → IsSound w
    → is_draft w.report ≡ true
    → IsSound (after w (justify_item upn w reference text))
unfolding justify_item
justify-IsSound upn w reference text h unlocked =
    rw (require_draft_ok w.report unlocked) (elim (Bool-cases (is_blank (strip text))) [
      | inl blank ↦ rw blank h
      | inr solid ↦ rw solid (elim (Result-cases (get_item w.report reference)) [
        | inl (raised, e) ↦ rw e h
        | inr (i, e) ↦ rw e (update_item-IsValid i.id w.next_id _ w.report.items (λ j. refl) h)
      ])
    ])

pub kept_items :
    (w : World) (p : ReportItem → Bool)
    → IsSound w
    → sorted_items (sorted_items (keep p w.report.items)) ≡ keep p w.report.items
kept_items w p h =
    let still =
      sorted_items-Ascending 1 (keep p w.report.items)
        (Ascending-keep 1 p w.report.items (Numbered-Ascending 1 w.report.items h.numbered)) in
    ap sorted_items still ∙ still

pub remove-IsSound :
    (upn : Text) (w : World) (reference : Reference)
    → IsSound w
    → is_draft w.report ≡ true
    → IsSound (after w (remove_item upn w reference))
unfolding remove_item
remove-IsSound upn w reference h unlocked =
    rw (require_draft_ok w.report unlocked) (elim (Result-cases (get_item w.report reference)) [
      | inl (raised, e) ↦ rw e h
      | inr (i, e) ↦
          rw (e, kept_items w (λ j. not (j.id == i.id)) h)
            (renumber-keep (λ j. not (j.id == i.id)) w.report.items w.next_id h)
    ])
