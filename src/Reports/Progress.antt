-- ===== src/Reports/Progress.antt =====
-- What every step of a submission keeps (src/ccreport/reports.py): files that are stored stay stored,
-- and of the report only the kind of the items' artifacts changes.
use mathlib.Core.Path.{subst}
use mathlib.Core.Logic.{if_pos, if_neg}
use ccreport.Prelude.{
  ℕ, zero, suc, ◌+◌, ◌≤◌, ◌<◌, ◌≡◌, ◌≢◌, refl, ap, ◌∙◌, List, [], ◌∷◌, ◌++◌, arith, length,
  get_elem?, map, some, ◌==◌, Bool-cases, inl, inr,
}
use ccreport.OrderedDict.{lookup, assign, lookup-assign}
use ccreport.Errors.{Error, Result, ok, err, Result-cases}
use ccreport.Render.{Content}
use ccreport.Reports.Model.{
  ArtifactKind, message_pdf, ReportItem, Report, BlobPath, Artifact, World,
}
use ccreport.Reports.Lifecycle.{update_item}
use ccreport.Reports.Submission.Steps.{Step, ask, return, BlobPath-discrete, ◌>>=◌}

-- The artifact has its row, and a file of the size that the row says lies at its path.
pub record Stored (w : World) (a : Artifact) : Type 0 where
  pub row : (k : ℕ) × (get_elem? w.artifacts k ≡ some a)
  pub old : a.blob_path.artifact_id < w.next_id
  pub file :
      (content : Content) × (lookup BlobPath-discrete a.blob_path w.blobs ≡ some content)
      × (length content ≡ a.size_bytes)

-- an item without the kind of its artifacts
abbrev pub but_kind : ReportItem → ReportItem
but_kind i = record i { artifact_kind = message_pdf }

-- a report without the kinds of its items' artifacts
abbrev pub but_kinds : Report → Report
but_kinds report = record report { items = map but_kind report.items }

-- Of the report only kinds of artifact changed; rows of artifacts stay at their places, and files with
-- ids that were used up before stay as they were, byte for byte.
pub record Grows (w w' : World) : Type 0 where
  pub report : but_kinds w'.report ≡ but_kinds w.report
  pub next : w.next_id ≤ w'.next_id
  pub rows :
      (k : ℕ) (a : Artifact) → get_elem? w.artifacts k ≡ some a → get_elem? w'.artifacts k ≡ some a
  pub files :
      (path : BlobPath)
      → path.artifact_id < w.next_id
      → lookup BlobPath-discrete path w'.blobs ≡ lookup BlobPath-discrete path w.blobs

-- What is stored stays stored.
pub Grows-Stored : (w w' : World) (a : Artifact) → Grows w w' → Stored w a → Stored w' a
Grows-Stored w w' a g s = record {
  row = (s.row.0, g.rows s.row.0 a s.row.1);
  old = omega (arith, s.old, g.next);
  file = (s.file.0, g.files a.blob_path s.old ∙ s.file.1, s.file.2);
}

pub Grows-refl : (w : World) → Grows w w
Grows-refl w = record {
  report = refl;
  next = omega arith;
  rows = λ k a at. at;
  files = λ path old. refl;
}

pub Grows-trans : (u v w : World) → Grows u v → Grows v w → Grows u w
Grows-trans u v w g h = record {
  report = h.report ∙ g.report;
  next = omega (arith, g.next, h.next);
  rows = λ k a at. h.rows k a (g.rows k a at);
  files = λ path old. h.files path (omega (arith, old, g.next)) ∙ g.files path old;
}

-- From this world the step keeps what is stored, and what it returns has the property.
abbrev pub Ensures : {A : Type 0} → Step A → World → (World → A → Type 0) → Type 0
Ensures {A} m w P = Grows w (m w).0 × ((a : A) → (m w).1 ≡ ok a → P (m w).0 a)

-- A step and what follows it.
pub Ensures-bind :
    {A B : Type 0} (m : Step A) (f : A → Step B) (w : World) (P : World → A → Type 0)
    (Q : World → B → Type 0)
    → Ensures m w P
    → ((a : A) → Grows w (m w).0 → P (m w).0 a → Ensures (f a) (m w).0 Q)
    → Ensures (m >>= f) w Q
unfolding ◌>>=◌
Ensures-bind m f w P Q h k = elim (Result-cases ((m w).1)) [
  | inl (e, raised) ↦ rw (raised, ◌>>=◌) (h.0, λ b bad. absurd (ground arith))
  | inr (a, returned) ↦
      let next = k a h.0 (h.1 a returned) in
      rw (returned, ◌>>=◌) (Grows-trans w (m w).0 (f a (m w).0).0 h.0 next.0, next.1)
]

pub Ensures-return :
    {A : Type 0} (a : A) (w : World) (P : World → A → Type 0) → P w a → Ensures (return a) w P
Ensures-return a w P h = (Grows-refl w, λ b e. let same : a ≡ b = cc in subst (P w) same h)

-- A question, and what follows its answer.
pub Ensures-ask :
    {A B : Type 0} (r : Result A) (f : A → Step B) (w : World) (Q : World → B → Type 0)
    → ((a : A) → r ≡ ok a → Ensures (f a) w Q)
    → Ensures (ask r >>= f) w Q
unfolding ◌>>=◌
Ensures-ask r f w Q k = elim (Result-cases r) [
  | inl (e, raised) ↦ rw (raised, ◌>>=◌) (Grows-refl w, λ b bad. absurd (ground arith))
  | inr (a, returned) ↦ rw (returned, ◌>>=◌) (k a returned)
]

pub Ensures-raise :
    {A : Type 0} (e : Error) (w : World) (P : World → A → Type 0) → Ensures (ask (err e)) w P
Ensures-raise e w P = (Grows-refl w, λ a bad. absurd (ground arith))

but_kind-update_item :
    (id : ℕ) (kind : ArtifactKind) (items : List ReportItem)
    → map but_kind (update_item id (λ i. record i { artifact_kind = kind }) items)
      ≡ map but_kind items
unfolding update_item
but_kind-update_item id kind [] = refl
but_kind-update_item id kind (i ∷ items) = elim (Bool-cases (i.id == id)) [
  | inl hit ↦ rw hit (ap (◌∷◌ (but_kind i)) (but_kind-update_item id kind items))
  | inr miss ↦ rw miss (ap (◌∷◌ (but_kind i)) (but_kind-update_item id kind items))
]

-- Setting an item's artifact kind changes nothing else.
pub set_kind_Grows :
    (w : World) (id : ℕ) (kind : ArtifactKind)
    → Grows w (record w {
      report = record (w.report) {
        items = update_item id (λ i. record i { artifact_kind = kind }) w.report.items;
      };
    })
set_kind_Grows w id kind = record {
  report =
      ap (λ items. record (w.report) { items = items })
        (but_kind-update_item id kind w.report.items);
  next = omega arith;
  rows = λ k a at. at;
  files = λ path old. refl;
}

get_elem?-append :
    (xs ys : List Artifact) (k : ℕ) {a : Artifact}
    → get_elem? xs k ≡ some a
    → get_elem? (xs ++ ys) k ≡ some a
get_elem?-append [] ys k h = cc
get_elem?-append (x ∷ xs) ys zero h = h
get_elem?-append (x ∷ xs) ys (suc k) {a} h = get_elem?-append xs ys k {a = a} h

pub get_elem?_last :
    (xs : List Artifact) (a : Artifact) → get_elem? (xs ++ a ∷ []) (length xs) ≡ some a
get_elem?_last [] a = refl
get_elem?_last (x ∷ xs) a = get_elem?_last xs a

-- A new row with the next id leaves what is stored as it is.
pub new_row_Grows :
    (w : World) (a : Artifact)
    → Grows w (record w { artifacts = w.artifacts ++ a ∷ []; next_id = w.next_id + 1 })
new_row_Grows w a = record {
  report = refl;
  next = omega arith;
  rows = λ k b at. get_elem?-append w.artifacts (a ∷ []) k {a = b} at;
  files = λ path old. refl;
}

-- So does a file at the path of that row.
pub new_file_Grows :
    (w : World) (a : Artifact) (content : Content)
    → a.blob_path.artifact_id ≡ w.next_id
    → Grows w (record w {
      artifacts = w.artifacts ++ a ∷ [];
      next_id = w.next_id + 1;
      blobs = assign BlobPath-discrete a.blob_path content w.blobs;
    })
new_file_Grows w a content new = record {
  report = refl;
  next = omega arith;
  rows = λ k b at. get_elem?-append w.artifacts (a ∷ []) k {a = b} at;
  files = λ path old.
      let apart : a.blob_path ≢ path =
        λ e. absurd (omega (arith, old, new, ap (λ p. p.artifact_id) e)) in
      lookup-assign BlobPath-discrete a.blob_path path content w.blobs
      ∙ if_neg (BlobPath-discrete a.blob_path path) apart _ _;
}

pub new_file_Stored :
    (w : World) (a : Artifact) (content : Content)
    → a.blob_path.artifact_id ≡ w.next_id
    → length content ≡ a.size_bytes
    → Stored
        (record w {
          artifacts = w.artifacts ++ a ∷ [];
          next_id = w.next_id + 1;
          blobs = assign BlobPath-discrete a.blob_path content w.blobs;
        })
        a
new_file_Stored w a content new size = record {
  row = (length w.artifacts, get_elem?_last w.artifacts a);
  old = omega (arith, new);
  file = (
    content,
    lookup-assign BlobPath-discrete a.blob_path a.blob_path content w.blobs
        ∙ if_pos (BlobPath-discrete a.blob_path a.blob_path) refl _ _,
    size,
  );
}
