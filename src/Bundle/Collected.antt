-- ===== src/Bundle/Collected.antt =====
-- What is read out of storage for a bundle (`collect_entries` of src/ccreport/bundle.py).
use mathlib.Core.Path.{subst}
use ccreport.Prelude.{ℕ, ◌+◌, ◌≡◌, refl, ◌⊎◌, inl, inr, false, List, [], ◌∷◌, ◌++◌, map}
use ccreport.Prelude.Texts.{Text, contains}
use ccreport.Errors.{Error, Result, ok, err, Result-cases}
use ccreport.Render.{Content}
use ccreport.Reports.Model.{ReportItem, Report, sorted_items}
use ccreport.Bundle.Names.{entry_name_free}
use ccreport.Bundle.Safe.{IsReceiptPath, entry_name-IsReceiptPath}
use ccreport.Bundle.{
  StoredArtifact, BundleEntry, BundleServices, entry_name, new_entry, sorted_artifacts,
  artifacts_of, collect_item, collect_items, collect_entries,
}

-- The file of an artifact, to stand in the bundle under the number of its item.
abbrev pub Wanted : Type 0
Wanted = ℕ × ReportItem × StoredArtifact

abbrev pub wanted_of : ℕ → ReportItem → List StoredArtifact → List Wanted
wanted_of index item rows = map (λ row. (index, item, row)) rows

-- All files that a report wants, item after item, numbered from `index` on.
abbrev pub wanted : List StoredArtifact → ℕ → List ReportItem → List Wanted
wanted rows index [] = []
wanted rows index (item ∷ items) =
    wanted_of index item (sorted_artifacts (artifacts_of rows item))
    ++ wanted rows (index + 1) items

-- Each path differs from the names that are taken and from all paths before it.
abbrev pub Apart : List Text → List BundleEntry → Type 0
Apart taken [] = Unit
Apart taken (e ∷ entries) = (contains e.path taken ≡ false) × Apart (e.path ∷ taken) entries

-- what is taken after these entries
abbrev taken_after : List Text → List BundleEntry → List Text
taken_after taken [] = taken
taken_after taken (e ∷ entries) = taken_after (e.path ∷ taken) entries

Apart-append :
    (taken : List Text) (xs ys : List BundleEntry)
    → Apart taken xs
    → Apart (taken_after taken xs) ys
    → Apart taken (xs ++ ys)
Apart-append taken [] ys h k = k
Apart-append taken (x ∷ xs) ys h k = (h.0, Apart-append (x.path ∷ taken) xs ys h.1 k)

module _ (services : BundleServices) where
  -- The entry holds the stored file of the artifact, under the item's number.
  abbrev pub IsEntryOf : Wanted → BundleEntry → Type 0
  IsEntryOf (index, item, row) e =
      (e.item ≡ item)
      × (e.index ≡ index)
      × (services.read row.artifact.blob_path ≡ ok e.content)
      × (e.sha256 ≡ services.sha256_hex e.content)
      × (e.original_filename ≡ row.artifact.filename)
      × (e.content_type ≡ row.artifact.content_type)
      × IsReceiptPath e.path

  -- One entry for each file that is wanted, in the same order.
  abbrev pub EntriesOf : List Wanted → List BundleEntry → Type 0
  EntriesOf [] [] = Unit
  EntriesOf [] (e ∷ entries) = ⊥
  EntriesOf (w ∷ ws) [] = ⊥
  EntriesOf (w ∷ ws) (e ∷ entries) = IsEntryOf w e × EntriesOf ws entries

  -- Some file cannot be read, and this is what the first such file raises.
  abbrev pub Unreadable : List Wanted → Error → Type 0
  Unreadable [] e = ⊥
  Unreadable ((index, item, row) ∷ ws) e =
      (services.read row.artifact.blob_path ≡ err e)
      ⊎ (((content : Content) × (services.read row.artifact.blob_path ≡ ok content))
          × Unreadable ws e)

  abbrev pub Collects : List Wanted → List Text → Result (List BundleEntry) → Type 0
  Collects ws taken (err e) = Unreadable ws e
  Collects ws taken (ok entries) = EntriesOf ws entries × Apart taken entries

  abbrev CollectsItem : List Wanted → List Text → Result (List BundleEntry × List Text) → Type 0
  CollectsItem ws taken (err e) = Unreadable ws e
  CollectsItem ws taken (ok (entries, taken')) =
      EntriesOf ws entries × Apart taken entries × (taken' ≡ taken_after taken entries)

  EntriesOf-append :
      (ws vs : List Wanted) (xs ys : List BundleEntry)
      → EntriesOf ws xs
      → EntriesOf vs ys
      → EntriesOf (ws ++ vs) (xs ++ ys)
  EntriesOf-append [] vs [] ys h k = k
  EntriesOf-append [] vs (x ∷ xs) ys h k = absurd h
  EntriesOf-append (w ∷ ws) vs [] ys h k = absurd h
  EntriesOf-append (w ∷ ws) vs (x ∷ xs) ys h k = (h.0, EntriesOf-append ws vs xs ys h.1 k)

  Unreadable-first : (ws vs : List Wanted) (e : Error) → Unreadable ws e → Unreadable (ws ++ vs) e
  Unreadable-first [] vs e h = absurd h
  Unreadable-first (w ∷ ws) vs e (inl now) = inl now
  Unreadable-first (w ∷ ws) vs e (inr (read, later)) = inr (read, Unreadable-first ws vs e later)

  Unreadable-later :
      (ws vs : List Wanted) (xs : List BundleEntry) (e : Error)
      → EntriesOf ws xs
      → Unreadable vs e
      → Unreadable (ws ++ vs) e
  Unreadable-later [] vs [] e h k = k
  Unreadable-later [] vs (x ∷ xs) e h k = absurd h
  Unreadable-later (w ∷ ws) vs [] e h k = absurd h
  Unreadable-later (w ∷ ws) vs (x ∷ xs) e h k =
      inr ((x.content, h.0.2), Unreadable-later ws vs xs e h.1 k)

  collect_item_lem :
      (index : ℕ) (item : ReportItem) (rows : List StoredArtifact) (taken : List Text)
      → CollectsItem (wanted_of index item rows) taken (collect_item services index item rows taken)
  unfolding collect_item new_entry
  collect_item_lem index item [] taken = (tt, tt, refl)
  collect_item_lem index item (row ∷ rows) taken =
      elim (Result-cases (services.read row.artifact.blob_path)) [
        | inl (e, raised) ↦ rw raised (inl raised)
        | inr (content, read) ↦
            let name = entry_name services index item row.artifact.filename taken in
            let safe = entry_name-IsReceiptPath services index item row.artifact.filename taken in
            let later = collect_item_lem index item rows (name ∷ taken) in
            elim (Result-cases (collect_item services index item rows (name ∷ taken))) [
              | inl (e, raised) ↦
                  rw (read, raised) (inr ((content, read), subst (CollectsItem _ _) raised later))
              | inr ((entries, taken'), collected) ↦
                  let facts = subst (CollectsItem _ _) collected later in
                  rw (read, collected)
                    (
                      ((refl, refl, read, refl, refl, refl, safe), facts.0),
                      (entry_name_free services index item row.artifact.filename taken, facts.1),
                      facts.2,
                    )
            ]
      ]

  collect_items_lem :
      (rows : List StoredArtifact) (index : ℕ) (items : List ReportItem) (taken : List Text)
      → Collects (wanted rows index items) taken (collect_items services rows index items taken)
  unfolding collect_items
  collect_items_lem rows index [] taken = (tt, tt)
  collect_items_lem rows index (item ∷ items) taken =
      let mine = sorted_artifacts (artifacts_of rows item) in
      let now = collect_item_lem index item mine taken in
      elim (Result-cases (collect_item services index item mine taken)) [
        | inl (e, raised) ↦ rw raised (
            Unreadable-first (wanted_of index item mine) (wanted rows (index + 1) items) e
              (subst (CollectsItem _ _) raised now))
        | inr ((first, taken'), collected) ↦
            let facts : CollectsItem (wanted_of index item mine) taken (ok (first, taken')) =
              subst (CollectsItem _ _) collected now in
            let later = collect_items_lem rows (index + 1) items taken' in
            elim (Result-cases (collect_items services rows (index + 1) items taken')) [
              | inl (e, raised) ↦
                  rw (collected, raised)
                    (Unreadable-later (wanted_of index item mine) (wanted rows (index + 1) items)
                      first e facts.0 (subst (Collects _ _) raised later))
              | inr (rest, returned) ↦
                  let facts' : Collects (wanted rows (index + 1) items) taken' (ok rest) =
                    subst (Collects _ _) returned later in
                  rw (collected, returned)
                    (
                      EntriesOf-append (wanted_of index item mine) (wanted rows (index + 1) items)
                          first rest facts.0 facts'.0,
                      Apart-append taken first rest facts.1
                          (subst (λ t. Apart t rest) facts.2 facts'.1),
                    )
            ]
      ]

  -- `collect_entries` either raises what reading the first unreadable file raises, or returns one entry
  -- for each artifact, item after item in the report's order and in the order of their creation, with
  -- the content that the store returned and its hash. No entry has the path of one before it, and whatever
  -- the mail says of vendor, subject and file name, each path is `receipts/` and a name of letters,
  -- digits, dots, underscores and dashes, so it has no other slash.
  pub collect_entries_lem :
      (report : Report) (rows : List StoredArtifact)
      → Collects
          (wanted rows 1 (sorted_items report.items))
          []
          (collect_entries services report rows)
  unfolding collect_entries
  collect_entries_lem report rows = collect_items_lem rows 1 (sorted_items report.items) []
