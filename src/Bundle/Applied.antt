-- ===== src/Bundle/Applied.antt =====
-- The file for `ccworks report apply-json` against the entries of the bundle
-- (src/ccreport/bundle.py).
use mathlib.Core.Path.{subst}
use mathlib.Core.List.{map-append, append-nil}
use ccreport.Prelude.{
  ℕ, ◌+◌, ◌≡◌, ◌≢◌, refl, sym, ap, ◌∙◌, true, false, List, [], ◌∷◌, ◌++◌, arith, map, keep, ==_iff,
  All, All-map, Option,
}
use ccreport.Prelude.Distinct.{Distinct}
use ccreport.Prelude.Texts.{Text}
use ccreport.OrderedDict.{lookup}
use ccreport.Errors.{ok}
use ccreport.Reports.Model.{ReportItem, Report, sorted_items}
use ccreport.Bundle.Grouped.{
  of_item, group_by_item_lem, All-append, keep-append, keep_all, keep_nothing,
  Distinct-sorted_items,
}
use ccreport.Bundle.Collected.{Wanted, wanted_of, wanted, EntriesOf, Collects, collect_entries_lem}
use ccreport.Bundle.Manifest.{
  ByItem, entries_or_none, group_by_item, manifest_artifact, manifest_item, manifest_items,
  build_manifest, map_some, ApplyReceipt, apply_receipt, receipts_of, build_apply_json, non_empty,
  short_date,
}
use ccreport.Bundle.{
  StoredArtifact, BundleEntry, BundleServices, collect_entries, format_amount, sorted_artifacts,
  artifacts_of,
}

module _ (services : BundleServices) where
  -- The entries of two lists of wanted files are those of the first and those of the second.
  split :
      (ws vs : List Wanted) (es : List BundleEntry)
      → EntriesOf services (ws ++ vs) es
      → (xs : List BundleEntry) × (ys : List BundleEntry) × (es ≡ xs ++ ys)
        × EntriesOf services ws xs
        × EntriesOf services vs ys
  split [] vs es h = ([], es, refl, tt, h)
  split (w ∷ ws) vs [] h = absurd h
  split (w ∷ ws) vs (e ∷ es) h =
      let (xs, ys, same, first, second) = split ws vs es h.1 in
      (e ∷ xs, ys, ap (◌∷◌ e) same, (h.0, first), second)

  all_of_item :
      (index : ℕ) (item : ReportItem) (rows : List StoredArtifact) (xs : List BundleEntry)
      → EntriesOf services (wanted_of index item rows) xs
      → All (λ e. e.item ≡ item) xs
  all_of_item index item [] [] h = tt
  all_of_item index item [] (x ∷ xs) h = absurd h
  all_of_item index item (row ∷ rows) [] h = absurd h
  all_of_item index item (row ∷ rows) (x ∷ xs) h = (h.0.0, all_of_item index item rows xs h.1)

  -- What all items have in common, the entries' items have.
  all_of_items :
      (P : ReportItem → Type 0) (rows : List StoredArtifact) (index : ℕ) (items : List ReportItem)
      (es : List BundleEntry)
      → All P items
      → EntriesOf services (wanted rows index items) es
      → All (λ e. P e.item) es
  all_of_items P rows index [] [] p h = tt
  all_of_items P rows index [] (e ∷ es) p h = absurd h
  all_of_items P rows index (item ∷ items) es p h =
      let mine = sorted_artifacts (artifacts_of rows item) in
      let (xs, ys, same, first, second) =
        split (wanted_of index item mine) (wanted rows (index + 1) items) es h in
      let here : All (λ e. P e.item) xs =
        All-map (λ e. e.item ≡ item) (λ e. P e.item) (λ e q. subst P (sym q) p.0) xs
          (all_of_item index item mine xs first) in
      let there = all_of_items P rows (index + 1) items ys p.1 second in
      subst (All (λ e. P e.item)) (sym same) (All-append (λ e. P e.item) xs ys here there)

module _ (services : BundleServices) (isoformat : ℕ → Text) where
  -- What the file for `apply-json` should say of an entry of an item.
  abbrev pub receipt_of : ReportItem → BundleEntry → ApplyReceipt
  receipt_of item e = record {
    file = e.path;
    vendor = item.vendor_hint;
    amount = format_amount item.amount_hint_cents item.currency_hint;
    currency = item.currency_hint;
    date = non_empty (short_date (map_some isoformat item.message_date));
    justification = item.justification;
    sha256 = e.sha256;
  }

  abbrev pub receipt_for : BundleEntry → ApplyReceipt
  receipt_for e = receipt_of e.item e

  -- Each item finds its own entries.
  abbrev Grouped : ByItem → List BundleEntry → ReportItem → Type 0
  Grouped by_item es item = entries_or_none by_item item.id ≡ keep (of_item item.id) es

  receipts_of_item :
      (by_item : ByItem) (position : ℕ) (item : ReportItem) (xs : List BundleEntry)
      → All (λ e. e.item ≡ item) xs
      → map
          (apply_receipt (manifest_item isoformat by_item position item))
          (map manifest_artifact xs)
        ≡ map receipt_for xs
  receipts_of_item by_item position item [] h = refl
  receipts_of_item by_item position item (e ∷ xs) h =
      ap (◌∷◌ (receipt_of item e)) (receipts_of_item by_item position item xs h.1)
      ∙ ap (λ i. receipt_of i e ∷ map receipt_for xs) (sym h.0)

  hits :
      (item : ReportItem) (xs : List BundleEntry)
      → All (λ e. e.item ≡ item) xs
      → All (λ e. of_item item.id e ≡ true) xs
  hits item xs h = All-map _ _ (λ e same. (==_iff e.item.id item.id).1 (ap (λ i. i.id) same)) xs h

  misses :
      (id : ℕ) (xs : List BundleEntry)
      → All (λ e. e.item.id ≢ id) xs
      → All (λ e. of_item id e ≡ false) xs
  misses id xs h = All-map _ _ (λ e apart. ground (arith, apart)) xs h

  -- The items behind an item find their entries behind those of that item.
  regrouped :
      (by_item : ByItem) (item : ReportItem) (xs ys : List BundleEntry) (items : List ReportItem)
      → All (λ e. e.item ≡ item) xs
      → All (λ i. i.id ≢ item.id) items
      → All (Grouped by_item (xs ++ ys)) items
      → All (Grouped by_item ys) items
  regrouped by_item item xs ys [] h apart g = tt
  regrouped by_item item xs ys (i ∷ items) h apart g =
      let none_here : All (λ e. of_item i.id e ≡ false) xs =
        misses i.id xs
          (All-map _ _ (λ e same clash. apart.0 (sym clash ∙ ap (λ j. j.id) same)) xs h) in
      let skipped : keep (of_item i.id) (xs ++ ys) ≡ keep (of_item i.id) ys =
        keep-append (of_item i.id) xs ys
        ∙ ap (λ zs. zs ++ keep (of_item i.id) ys) (keep_nothing (of_item i.id) xs none_here) in
      (g.0 ∙ skipped, regrouped by_item item xs ys items h apart.1 g.1)

  receipts_of_items :
      (by_item : ByItem) (rows : List StoredArtifact) (index position : ℕ) (items : List ReportItem)
      (es : List BundleEntry)
      → Distinct (λ i. i.id) items
      → EntriesOf services (wanted rows index items) es
      → All (Grouped by_item es) items
      → receipts_of (manifest_items isoformat by_item position items) ≡ map receipt_for es
  unfolding receipts_of manifest_items
  receipts_of_items by_item rows index position [] [] d h g = refl
  receipts_of_items by_item rows index position [] (e ∷ es) d h g = absurd h
  receipts_of_items by_item rows index position (item ∷ items) es d h g =
      let mine = sorted_artifacts (artifacts_of rows item) in
      let (xs, ys, same, first, second) =
        split services (wanted_of index item mine) (wanted rows (index + 1) items) es h in
      let of_mine = all_of_item services index item mine xs first in
      let others : All (λ e. e.item.id ≢ item.id) ys =
        all_of_items services (λ i. i.id ≢ item.id) rows (index + 1) items ys d.0 second in
      let g' : All (Grouped by_item (xs ++ ys)) (item ∷ items) =
        subst (λ zs. All (Grouped by_item zs) (item ∷ items)) same g in
      let own : entries_or_none by_item item.id ≡ xs =
        g'.0
        ∙ keep-append (of_item item.id) xs ys
        ∙ ap (λ zs. zs ++ keep (of_item item.id) ys)
            (keep_all (of_item item.id) xs (hits item xs of_mine))
        ∙ ap (λ zs. xs ++ zs) (keep_nothing (of_item item.id) ys (misses item.id ys others))
        ∙ append-nil xs in
      let rest =
        receipts_of_items by_item rows (index + 1) (position + 1) items ys d.1 second
          (regrouped by_item item xs ys items of_mine d.0 g'.1) in
      rw (own, rest, same)
        (ap (λ zs. zs ++ map receipt_for ys) (receipts_of_item by_item position item xs of_mine)
          ∙ sym (map-append receipt_for xs ys))

  all-Grouped :
      (es : List BundleEntry) (items : List ReportItem)
      → All (Grouped (group_by_item [] es) es) items
  unfolding lookup
  all-Grouped es [] = tt
  all-Grouped es (item ∷ items) = (group_by_item_lem es [] item.id, all-Grouped es items)

  -- If no two items of the report have the same id and the entries are what `collect_entries` returned
  -- for it, then the file for `apply-json` has one receipt for each entry, in the entries' order, and
  -- each says the path and hash of its entry and the vendor, amount, currency, date and justification of
  -- the item that the entry belongs to.
  pub apply_json_lem :
      (report : Report) (rows : List StoredArtifact) (upn : Text) (display_name : Option Text)
      (generated_at : ℕ) (entries : List BundleEntry)
      → Distinct (λ i. i.id) report.items
      → collect_entries services report rows ≡ ok entries
      → (build_apply_json
          (build_manifest isoformat report upn display_name entries generated_at)).receipts
        ≡ map receipt_for entries
  unfolding build_apply_json build_manifest
  apply_json_lem report rows upn display_name generated_at entries d collected =
      let items = sorted_items report.items in
      let facts : Collects services (wanted rows 1 items) [] (ok entries) =
        subst (Collects services (wanted rows 1 items) []) collected
          (collect_entries_lem services report rows) in
      receipts_of_items (group_by_item [] entries) rows 1 1 items entries
        (Distinct-sorted_items report.items d) facts.0 (all-Grouped entries items)
