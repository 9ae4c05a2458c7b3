-- ===== src/Reports/Produced.antt =====
-- What `materialize_item` (src/ccreport/reports.py) has stored when it returns.
use mathlib.Core.Path.{subst}
use ccreport.Prelude.{◌≡◌, refl, List, [], ◌∷◌, ◌++◌, arith, Bool-cases, inl, inr, All, All-map}
use ccreport.Prelude.Texts.{Text}
use ccreport.Errors.{Result-cases, is_value_error}
use ccreport.Connectors.{MailConnector, AttachmentRef, receipt_media_refs}
use ccreport.Render.{Content, normalize_attachment}
use ccreport.Reports.Model.{
  Kind, ArtifactKind, attachment, message_pdf, ReportItem, Artifact, World,
}
use ccreport.Reports.Submission.Steps.{Step, Services, return, ◌>>◌}
use ccreport.Reports.Submission.Materialize.{
  store_artifact, new_artifact, set_artifact_kind, materialize_ref, materialize_refs,
  materialize_message, materialize_item,
}
use ccreport.Reports.Progress.{
  Stored, Grows, Grows-Stored, Ensures, Ensures-ask, Ensures-bind, Ensures-return, Ensures-raise,
  set_kind_Grows, new_row_Grows, new_file_Grows, new_file_Stored,
}

-- The artifact is stored, for this item.
abbrev pub StoredFor : ReportItem → World → Artifact → Type 0
StoredFor item w a = Stored w a × (a.item_id ≡ item.id)

abbrev pub AllStored : ReportItem → World → List Artifact → Type 0
AllStored item w artifacts = All (StoredFor item w) artifacts

-- Something is stored for the item.
abbrev pub SomeStored : ReportItem → World → Type 0
SomeStored item w = (a : Artifact) × StoredFor item w a

pub AllStored-Grows :
    (item : ReportItem) (v w : World) (artifacts : List Artifact)
    → Grows v w
    → AllStored item v artifacts
    → AllStored item w artifacts
AllStored-Grows item v w artifacts g h =
    All-map _ _ (λ a s. (Grows-Stored v w a g s.0, s.1)) artifacts h

AllStored-append :
    (item : ReportItem) (w : World) (xs ys : List Artifact)
    → AllStored item w xs
    → AllStored item w ys
    → AllStored item w (xs ++ ys)
AllStored-append item w [] ys h k = k
AllStored-append item w (x ∷ xs) ys h k = (h.0, AllStored-append item w xs ys h.1 k)

module _ (services : Services) (item : ReportItem) where
  pub store_artifact_lem :
      (content : Content) (filename content_type : Text) (kind : Kind) (w : World)
      → Ensures (store_artifact services item content filename content_type kind) w (StoredFor item)
  unfolding store_artifact new_artifact
  store_artifact_lem content filename content_type kind w =
      let a = new_artifact services w item content filename content_type kind in
      elim (Result-cases (services.put a.blob_path content)) [
        | inl (e, raised) ↦
            rw (raised, store_artifact) (new_row_Grows w a, λ b bad. absurd (ground arith))
        | inr (done, wrote) ↦
            rw (wrote, store_artifact)
              (
                new_file_Grows w a content refl,
                λ b returned.
                    let same : a ≡ b = cc in
                    subst (StoredFor item _) same (new_file_Stored w a content refl refl, refl),
              )
      ]

  pub materialize_ref_lem :
      (connector : MailConnector) (ref : AttachmentRef) (w : World)
      → Ensures (materialize_ref services item connector ref) w (AllStored item)
  unfolding materialize_ref
  materialize_ref_lem connector ref w =
      Ensures-ask (connector.fetch_attachment item.provider_message_id ref.id) _ w (AllStored item)
        λ downloaded fetched.
          elim (Result-cases
            (normalize_attachment services.max_attachment_mb services.convert_image downloaded)) [
              | inl (e, raised) ↦ rw raised (elim (Bool-cases (is_value_error e)) [
                | inl skipped ↦ rw skipped (Ensures-return [] w (AllStored item) tt)
                | inr other ↦ rw other (Ensures-raise e w (AllStored item))
              ])
              | inr ((content, filename, content_type), converted) ↦ rw converted (
                  Ensures-bind _ _ w (StoredFor item) (AllStored item)
                    (store_artifact_lem content filename content_type _ w)
                    λ a g s. Ensures-return (a ∷ []) _ (AllStored item) (s, tt))
            ]

  pub materialize_refs_lem :
      (connector : MailConnector) (refs : List AttachmentRef) (w : World)
      → Ensures (materialize_refs services item connector refs) w (AllStored item)
  unfolding materialize_refs
  materialize_refs_lem connector [] w = Ensures-return [] w (AllStored item) tt
  materialize_refs_lem connector (ref ∷ refs) w =
      Ensures-bind (materialize_ref services item connector ref) _ w (AllStored item)
        (AllStored item) (materialize_ref_lem connector ref w)
        λ first g s.
          let v = (materialize_ref services item connector ref w).0 in
          Ensures-bind (materialize_refs services item connector refs) _ v (AllStored item)
            (AllStored item) (materialize_refs_lem connector refs v)
            λ rest g' s'.
              let u = (materialize_refs services item connector refs v).0 in
              Ensures-return (first ++ rest) u (AllStored item)
                (AllStored-append item u first rest (AllStored-Grows item v u first g' s) s')

  -- Something was produced, and all of it is stored for the item.
  abbrev pub Produced : World → List Artifact → Type 0
  Produced w [] = ⊥
  Produced w (a ∷ artifacts) = AllStored item w (a ∷ artifacts)

  set_artifact_kind_then :
      {A : Type 0} (kind : ArtifactKind) (m : Step A) (w : World) (Q : World → A → Type 0)
      → ((v : World) → Grows w v → Ensures m v Q)
      → Ensures (set_artifact_kind item.id kind >> m) w Q
  unfolding set_artifact_kind
  set_artifact_kind_then kind m w Q k =
      Ensures-bind (set_artifact_kind item.id kind) (λ done. m) w (λ v done. Unit) Q
        (set_kind_Grows w item.id kind, λ done e. tt) λ done g s. k _ g

  materialize_message_lem :
      (connector : MailConnector) (w : World)
      → Ensures (materialize_message services item connector) w Produced
  unfolding materialize_message
  materialize_message_lem connector w =
      Ensures-ask (connector.fetch_body item.provider_message_id) _ w Produced λ body fetched.
        Ensures-ask _ _ w Produced λ content rendered.
          set_artifact_kind_then message_pdf _ w Produced λ v g.
            Ensures-bind _ _ v (StoredFor item) Produced (store_artifact_lem content _ _ _ v)
              λ a g' s. Ensures-return (a ∷ []) _ Produced (s, tt)

  -- the choice between the attachments and the message
  chosen :
      (connector : MailConnector) (produced : List Artifact) (v : World)
      → AllStored item v produced
      → Ensures
          (elim produced [
            | [] ↦ materialize_message services item connector
            | artifact ∷ artifacts ↦
                set_artifact_kind item.id attachment >> return (artifact ∷ artifacts)
          ])
          v
          Produced
  chosen connector [] v s = materialize_message_lem connector v
  chosen connector (a ∷ artifacts) v s = set_artifact_kind_then attachment _ v Produced λ u g.
      Ensures-return (a ∷ artifacts) u Produced (AllStored-Grows item v u (a ∷ artifacts) g s)

  -- Whatever the mailbox, the converter, the renderer and the store answer: if `materialize_item`
  -- returns, it returns at least one artifact, and each of them is a row of this item whose file lies
  -- at its path with the size that the row says. Returning or raising, it leaves the rows of artifacts
  -- that were there at their places, and every file under an id that was used up before byte for byte as
  -- it was; of the report it changes only the kinds of its items' artifacts.
  pub materialize_item_lem :
      (connector : MailConnector) (w : World)
      → Ensures (materialize_item services item connector) w Produced
  unfolding materialize_item
  materialize_item_lem connector w =
      Ensures-ask (connector.attachment_refs item.provider_message_id) _ w Produced λ refs listed.
        Ensures-bind (materialize_refs services item connector (receipt_media_refs refs)) _ w
          (AllStored item) Produced (materialize_refs_lem connector (receipt_media_refs refs) w)
          λ produced g s. chosen connector produced _ s
