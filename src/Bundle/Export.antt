-- ===== src/Bundle/Export.antt =====
-- Assembling and exporting a bundle: `build_bundle` of src/ccreport/bundle.py and `export_bundle` of
-- src/ccreport/reports.py. The archive is the list of its members; `zipfile` packs it.
use ccreport.Prelude.{ℕ, Bool, Option, none, some, List, [], ◌∷◌, ◌++◌, map}
use ccreport.Prelude.Texts.{Text, codes}
use ccreport.Errors.{Result, ok, ◌>>=◌}
use ccreport.Audit.{AuditLog, Subject, audit}
use ccreport.Render.{Content}
use ccreport.Period.{format_period}
use ccreport.Reports.Model.{Report}
use ccreport.Bundle.Manifest.{Manifest, ApplyJson, build_manifest, build_apply_json}
use ccreport.Bundle.Summary.{build_summary_csv}
use ccreport.Bundle.{StoredArtifact, BundleServices, collect_entries, bundle_filename}

-- `json.dumps`, the page template, the encoding of text, the printed form of a point of time, which
-- fields a `csv.writer` puts in quotes, and `zipfile`.
pub record Printers : Type 0 where
  pub manifest_json : Manifest → Content
  pub apply_json : ApplyJson → Content
  pub index_html : Manifest → Content
  pub encode : Text → Content
  pub isoformat : ℕ → Text
  pub puts_in_quotes : Text → Bool
  pub zip : List (Text × Content) → Content

module _ (services : BundleServices) (printers : Printers) where
  abbrev pub fixed_members : Manifest → List (Text × Content)
  fixed_members manifest =
      (codes "manifest.json", printers.manifest_json manifest)
      ∷ (codes "summary.csv", printers.encode (build_summary_csv printers.puts_in_quotes manifest))
      ∷ (codes "index.html", printers.index_html manifest)
      ∷ (codes "ccworks-apply.json", printers.apply_json (build_apply_json manifest))
      ∷ []

  -- the members of the archive in the order in which they are written
  unfoldable pub bundle_members :
      Report → List StoredArtifact → Text → Option Text → ℕ → Result (List (Text × Content))
  bundle_members report rows upn display_name generated_at = do
    entries ← collect_entries services report rows
    ok (
        fixed_members
          (build_manifest printers.isoformat report upn display_name entries generated_at)
        ++ map (λ e. (e.path, e.content)) entries)

  unfoldable pub build_bundle :
      Report → List StoredArtifact → Text → Option Text → ℕ → Result Content
  build_bundle report rows upn display_name generated_at = do
    members ← bundle_members report rows upn display_name generated_at
    ok (printers.zip members)

  -- The owner, the person who exports, and the audit log.
  unfoldable pub export_bundle :
      Report
      → List StoredArtifact
      → Text
      → Option Text
      → Option Text
      → ℕ
      → List AuditLog
      → Result (Text × Content × List AuditLog)
  export_bundle report rows owner display_name actor now log = do
    content ← build_bundle report rows owner display_name now
    ok (
      bundle_filename owner (format_period report.period_year report.period_month),
      content,
      audit (some (elim actor [ none ↦ owner | some upn ↦ upn ])) "report.export"
          (Subject.report report.id) log,
    )
