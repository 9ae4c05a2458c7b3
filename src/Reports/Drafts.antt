-- ===== src/Reports/Drafts.antt =====
-- What the functions that change a draft keep true (src/ccreport/reports.py).
use ccreport.Prelude.{
  ℕ, ◌+◌, ◌<◌, ◌≡◌, refl, sym, ap, ◌∙◌, Bool, List, [], ◌∷◌, arith, ◌==◌, keep, Bool-cases, inl,
  inr, map, All, All-keep,
}
use ccreport.Prelude.Distinct.{Distinct, Distinct-keep, Distinct-of_keys}
use ccreport.Reports.Model.{ReportItem, World}
use ccreport.Reports.Lifecycle.{update_item, renumber}
use ccreport.Reports.Order.{Numbered, renumber-Numbered}

-- The items of a report are numbered from 1 in their order, no two come from the same message or
-- have the same id, and the id that is given next is new.
pub record IsValid (items : List ReportItem) (next_id : ℕ) : Type 0 where
  pub numbered : Numbered 1 items
  pub messages : Distinct (λ i. i.provider_message_id) items
  pub ids : Distinct (λ i. i.id) items
  pub fresh : All (λ i. i.id < next_id) items

abbrev pub IsSound : World → Type 0
IsSound w = IsValid w.report.items w.next_id

-- A change of items that keeps position, message and id keeps the invariant.
abbrev pub identity : ReportItem → ℕ × ℕ × ℕ
identity i = (i.position, i.provider_message_id, i.id)

update_item_key :
    (key : ReportItem → ℕ) (id : ℕ) (change : ReportItem → ReportItem) (items : List ReportItem)
    → ((i : ReportItem) → key (change i) ≡ key i)
    → map key items ≡ map key (update_item id change items)
unfolding update_item
update_item_key key id change [] h = refl
update_item_key key id change (i ∷ items) h =
    let rest = update_item_key key id change items h in
    elim (Bool-cases (i.id == id)) [
      | inl hit ↦ rw (hit, h i) (ap (◌∷◌ (key i)) rest)
      | inr miss ↦ rw miss (ap (◌∷◌ (key i)) rest)
    ]

Numbered-of_positions :
    (n : ℕ) (xs ys : List ReportItem)
    → map (λ i. i.position) xs ≡ map (λ i. i.position) ys
    → Numbered n xs
    → Numbered n ys
Numbered-of_positions n [] [] e h = tt
Numbered-of_positions n [] (y ∷ ys) e h = cc
Numbered-of_positions n (x ∷ xs) [] e h = cc
Numbered-of_positions n (x ∷ xs) (y ∷ ys) e h =
    let same : x.position ≡ y.position = cc in
    let rest : map (λ i. i.position) xs ≡ map (λ i. i.position) ys = cc in
    (sym same ∙ h.0, Numbered-of_positions (n + 1) xs ys rest h.1)

fresh_of_ids :
    (bound : ℕ) (xs ys : List ReportItem)
    → map (λ i. i.id) xs ≡ map (λ i. i.id) ys
    → All (λ i. i.id < bound) xs
    → All (λ i. i.id < bound) ys
fresh_of_ids bound [] [] e h = tt
fresh_of_ids bound [] (y ∷ ys) e h = cc
fresh_of_ids bound (x ∷ xs) [] e h = cc
fresh_of_ids bound (x ∷ xs) (y ∷ ys) e h =
    let same : x.id ≡ y.id = cc in
    let rest : map (λ i. i.id) xs ≡ map (λ i. i.id) ys = cc in
    (omega (arith, h.0, same), fresh_of_ids bound xs ys rest h.1)

pub update_item-IsValid :
    (id next : ℕ) (change : ReportItem → ReportItem) (items : List ReportItem)
    → ((i : ReportItem) → identity (change i) ≡ identity i)
    → IsValid items next
    → IsValid (update_item id change items) next
update_item-IsValid id next change items h valid =
    let positions = update_item_key (λ i. i.position) id change items λ i. ap (λ t. t.0) (h i) in
    let messages =
      update_item_key (λ i. i.provider_message_id) id change items λ i. ap (λ t. t.1) (h i) in
    let ids = update_item_key (λ i. i.id) id change items λ i. ap (λ t. t.2) (h i) in
    record {
      numbered = Numbered-of_positions 1 items _ positions valid.numbered;
      messages = Distinct-of_keys (λ i. i.provider_message_id) items _ messages valid.messages;
      ids = Distinct-of_keys (λ i. i.id) items _ ids valid.ids;
      fresh = fresh_of_ids next items _ ids valid.fresh;
    }

renumber_key :
    (key : ReportItem → ℕ) (n : ℕ) (items : List ReportItem)
    → ((i : ReportItem) (p : ℕ) → key (record i { position = p }) ≡ key i)
    → map key items ≡ map key (renumber n items)
unfolding renumber
renumber_key key n [] h = refl
renumber_key key n (i ∷ items) h = rw (h i n) (ap (◌∷◌ (key i)) (renumber_key key (n + 1) items h))

-- Removing items and numbering the rest anew keeps the invariant.
pub renumber-keep :
    (p : ReportItem → Bool) (items : List ReportItem) (next : ℕ)
    → IsValid items next
    → IsValid (renumber 1 (keep p items)) next
renumber-keep p items next valid =
    let rest = keep p items in
    record {
      numbered = renumber-Numbered 1 rest;
      messages =
          Distinct-of_keys (λ i. i.provider_message_id) rest _
            (renumber_key (λ i. i.provider_message_id) 1 rest λ i p. refl)
            (Distinct-keep (λ i. i.provider_message_id) p items valid.messages);
      ids =
          Distinct-of_keys (λ i. i.id) rest _ (renumber_key (λ i. i.id) 1 rest λ i p. refl)
            (Distinct-keep (λ i. i.id) p items valid.ids);
      fresh =
          fresh_of_ids next rest _ (renumber_key (λ i. i.id) 1 rest λ i p. refl)
            (All-keep (λ i. i.id < next) p items valid.fresh);
    }
