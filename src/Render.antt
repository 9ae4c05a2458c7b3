-- ===== src/Render.antt =====
-- `normalize_attachment` of src/ccreport/render.py. Converting an image (Pillow) and making a PDF of
-- a message (WeasyPrint, Playwright) are arguments.
use ccreport.Prelude.{ℕ, ◌*◌, Bool, ◌||◌, List, [], ◌∷◌, if◌then◌else◌, ltb, length, none, some}
use ccreport.Prelude.Texts.{Text, codes, text_eq, lower}
use ccreport.Errors.{Result, ok, err, value_error}
use ccreport.Connectors.{Attachment, or_empty}
use ccreport.Storage.{path_suffix}

abbrev pub Content : Type 0
Content = List ℕ

abbrev or_attachment : Text → Text
or_attachment [] = codes "attachment"
or_attachment (c ∷ s) = c ∷ s

-- a file: its content, its name and its content type
abbrev pub File : Type 0
File = Content × Text × Text

unfoldable pub is_too_large : ℕ → Attachment → Bool
is_too_large max_attachment_mb attachment =
    let limit = max_attachment_mb * 1024 * 1024 in
    let size = length attachment.content in
    let declared : ℕ = elim (attachment.ref.size_bytes) [ none ↦ size | some n ↦ n ] in
    ltb limit declared || ltb limit size

-- `_convert_image`: content, name and the suffix of the format that it converts to
module _ (max_attachment_mb : ℕ) (convert_image : Content → Text → Text → Result File) where
  unfoldable pub convert_by_type : Content → Text → Text → Text → Result File
  convert_by_type content filename ctype suffix =
      if text_eq ctype (codes "application/pdf") || text_eq suffix (codes ".pdf")
      then ok (content, filename, codes "application/pdf")
      else (if text_eq ctype (codes "image/jpeg") || text_eq ctype (codes "image/png")
          then ok (content, filename, ctype)
          else (if text_eq suffix (codes ".jpg") || text_eq suffix (codes ".jpeg")
              then ok (content, filename, codes "image/jpeg")
              else (if text_eq suffix (codes ".png")
                  then ok (content, filename, codes "image/png")
                  else (if text_eq ctype (codes "image/heic")
                        || text_eq ctype (codes "image/heif")
                        || text_eq suffix (codes ".heic")
                        || text_eq suffix (codes ".heif")
                      then convert_image content filename (codes ".jpg")
                      else (if text_eq ctype (codes "image/tiff")
                            || text_eq suffix (codes ".tif")
                            || text_eq suffix (codes ".tiff")
                          then convert_image content filename (codes ".pdf")
                          else err value_error)))))

  unfoldable pub normalize_attachment : Attachment → Result File
  normalize_attachment attachment =
      let ref = attachment.ref in
      let filename = or_attachment ref.filename in
      if is_too_large max_attachment_mb attachment
      then err value_error
      else convert_by_type attachment.content filename (lower (or_empty ref.content_type))
          (lower (path_suffix filename))
