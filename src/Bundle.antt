-- ===== src/Bundle.antt =====
-- src/ccreport/bundle.py: the file that an administrator receives. Here are the amounts and names in
-- it and the reading of the stored files; Bundle.Manifest has the documents in it.
pub mod Amounts
pub mod Names
pub mod Collected
pub mod Manifest
pub mod Summary
pub mod Reading
pub mod Grouped
pub mod Applied
pub mod Slugs
pub mod Safe
pub mod Totals
pub mod Export
mod Tests
use ccreport.Prelude.{
  ℕ, zero, suc, ◌+◌, ◌/◌, ◌%◌, Bool, true, false, not, ◌&&◌, ◌||◌, Option, none, some, List, [],
  ◌∷◌, ◌++◌, map, if◌then◌else◌, ltb, leb, ◌==◌, length, keep,
}
use ccreport.Prelude.Int.{ℤ, pos, pos_part, neg_part, ltb_ℤ}
use ccreport.Prelude.Texts.{Text, codes, contains, text_eq, strip, lower, upper}
use ccreport.Errors.{Result, ok, err, ◌>>=◌}
use ccreport.Connectors.{or_empty}
use ccreport.Period.{decimal, zero_padded}
use ccreport.Render.{Content}
use ccreport.Storage.{take, path_suffix, safe_filename, is_empty}
use ccreport.Reports.Model.{ReportItem, Report, BlobPath, Artifact, Kind, sorted_items}

-- `abs(n)`
abbrev pub abs_ℤ : ℤ → ℕ
abs_ℤ n = pos_part n + neg_part n

abbrev pub zero_minor : List Text
zero_minor = codes "JPY" ∷ []

abbrev pub sign_of : ℤ → Text
sign_of cents = if ltb_ℤ cents (pos 0) then codes "-" else []

unfoldable pub print_cents : ℤ → Option Text → Text
print_cents cents currency =
    if contains (upper (or_empty currency)) zero_minor
    then sign_of cents ++ decimal (abs_ℤ cents)
    else sign_of cents
      ++ decimal (abs_ℤ cents / 100)
      ++ codes "."
      ++ zero_padded 2 (abs_ℤ cents % 100)

unfoldable pub format_amount : Option ℤ → Option Text → Option Text
format_amount none currency = none
format_amount (some cents) currency = some (print_cents cents currency)

-- a character that `_SLUG_RE` does not match
unfoldable pub is_slug_char : ℕ → Bool
is_slug_char c = (leb b'a' c && leb c b'z') || (leb b'0' c && leb c b'9')

-- `_SLUG_RE.sub("-", s)`: one dash for each longest run; the flag says whether a run is open
unfoldable pub slug_runs : Bool → Text → Text
slug_runs in_run [] = []
slug_runs in_run (c ∷ s) =
    let kept_rest = slug_runs false s in
    let run_rest = slug_runs true s in
    if is_slug_char c then c ∷ kept_rest else (if in_run then run_rest else b'-' ∷ run_rest)

-- `s.lstrip("-")`
unfoldable pub lstrip_dash : Text → Text
lstrip_dash [] = []
lstrip_dash (c ∷ s) = let rest = lstrip_dash s in if c == b'-' then rest else c ∷ s

unfoldable pub push_unless_last_dash : ℕ → Text → Text
push_unless_last_dash c [] = if c == b'-' then [] else c ∷ []
push_unless_last_dash c (d ∷ t) = c ∷ d ∷ t

unfoldable pub rstrip_dash : Text → Text
rstrip_dash [] = []
rstrip_dash (c ∷ s) = push_unless_last_dash c (rstrip_dash s)

-- `s.strip("-")`
abbrev pub strip_dash : Text → Text
strip_dash s = rstrip_dash (lstrip_dash s)

-- `s or default`
abbrev pub or_default : Text → Text → Text
or_default s default = if is_empty s then default else s

abbrev pub max_slug : ℕ
max_slug = 40

unfoldable pub slugify : Text → Text → Text
slugify value default =
    or_default (strip_dash (take max_slug (strip_dash (slug_runs false (lower (strip value))))))
      default

-- `s.split("@", 1)[0]`
unfoldable pub before_at : Text → Text
before_at [] = []
before_at (c ∷ s) = let rest = before_at s in if c == b'@' then [] else c ∷ rest

unfoldable pub bundle_filename : Text → Text → Text
bundle_filename upn period =
    codes "ccreport-"
    ++ slugify (before_at (or_default upn (codes "user"))) (codes "user")
    ++ codes "-"
    ++ period
    ++ codes ".zip"

-- A row of `artifacts` with the columns that only the bundle reads.
pub record StoredArtifact : Type 0 where
  pub artifact : Artifact
  pub created_at : ℕ
  pub renderer : Option Text

pub record BundleEntry : Type 0 where
  pub item : ReportItem
  pub index : ℕ
  pub path : Text
  pub content : Content
  pub content_type : Text
  pub sha256 : Text
  pub kind : Kind
  pub renderer : Option Text
  pub original_filename : Text

-- The names that `_entry_name` tries, one after the other: the plain one, then those with a number
-- from 2 on.
unfoldable pub candidate : Text → Text → ℕ → Text
candidate base suffix zero = base ++ suffix
candidate base suffix (suc n) = base ++ (b'-' ∷ (decimal (n + 2) ++ suffix))

-- `while candidate in taken`: at most `fuel` names are passed over
unfoldable pub unused_name : (ℕ → Text) → List Text → ℕ → ℕ → Text
unused_name candidates taken zero n = candidates n
unused_name candidates taken (suc fuel) n =
    let rest = unused_name candidates taken fuel (n + 1) in
    if contains (candidates n) taken then rest else candidates n

abbrev pub entry_stem : ℕ → ReportItem → Text
entry_stem index item =
    codes "receipts/"
    ++ zero_padded 3 index
    ++ b'-'
      ∷ slugify
          (or_default (or_empty item.vendor_hint)
            (or_default (or_empty item.message_subject) (codes "receipt")))
          (codes "receipt")

-- The library's normal form NFKD, `hashlib.sha256(content).hexdigest()`, and `store.get`.
pub record BundleServices : Type 0 where
  pub nfkd : Text → Text
  pub sha256_hex : Content → Text
  pub read : BlobPath → Result Content

unfoldable pub insert_artifact : StoredArtifact → List StoredArtifact → List StoredArtifact
insert_artifact a [] = a ∷ []
insert_artifact a (b ∷ rows) =
    let rest = insert_artifact a rows in
    if leb a.created_at b.created_at then a ∷ b ∷ rows else b ∷ rest

-- `sorted(item.artifacts, key=lambda a: a.created_at)`
unfoldable pub sorted_artifacts : List StoredArtifact → List StoredArtifact
sorted_artifacts [] = []
sorted_artifacts (a ∷ rows) = insert_artifact a (sorted_artifacts rows)

-- `item.artifacts`, out of the rows of the whole report
abbrev pub artifacts_of : List StoredArtifact → ReportItem → List StoredArtifact
artifacts_of rows item = keep (λ a. a.artifact.item_id == item.id) rows

module _ (services : BundleServices) where
  abbrev pub entry_suffix : Text → Text
  entry_suffix original =
      or_default (path_suffix (safe_filename services.nfkd original)) (codes ".pdf")

  -- `_entry_name`: the loop ends within one turn for each name in `taken`
  unfoldable pub entry_name : ℕ → ReportItem → Text → List Text → Text
  entry_name index item original taken =
      unused_name (candidate (entry_stem index item) (entry_suffix original)) taken (length taken) 0

  unfoldable pub new_entry : ℕ → ReportItem → StoredArtifact → Content → List Text → BundleEntry
  new_entry index item row content taken = record {
    item = item;
    index = index;
    path = entry_name index item row.artifact.filename taken;
    content = content;
    content_type = row.artifact.content_type;
    sha256 = services.sha256_hex content;
    kind = row.artifact.kind;
    renderer = row.renderer;
    original_filename = row.artifact.filename;
  }

  -- the inner loop: the entries of one item, and what is taken after them
  unfoldable pub collect_item :
      ℕ → ReportItem → List StoredArtifact → List Text → Result (List BundleEntry × List Text)
  collect_item index item [] taken = ok ([], taken)
  collect_item index item (row ∷ rows) taken = do
    content ← services.read row.artifact.blob_path
    let entry = new_entry index item row content taken
    (entries, taken') ← collect_item index item rows (entry.path ∷ taken)
    ok (entry ∷ entries, taken')

  -- the outer loop, from the number `index` on
  unfoldable pub collect_items :
      List StoredArtifact → ℕ → List ReportItem → List Text → Result (List BundleEntry)
  collect_items rows index [] taken = ok []
  collect_items rows index (item ∷ items) taken = do
    (first, taken') ← collect_item index item (sorted_artifacts (artifacts_of rows item)) taken
    rest ← collect_items rows (index + 1) items taken'
    ok (first ++ rest)

  unfoldable pub collect_entries : Report → List StoredArtifact → Result (List BundleEntry)
  collect_entries report rows = collect_items rows 1 (sorted_items report.items) []
