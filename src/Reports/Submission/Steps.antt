-- ===== src/Reports/Submission/Steps.antt =====
-- Steps of a submission and the services that they call. A step may raise after it changed the
-- world, so it returns both (src/ccreport/reports.py).
use native.Mathlib.Decide.{ℕ_discrete}
use ccreport.Prelude.{ℕ, Bool, Option}
use ccreport.Prelude.Texts.{Text}
use ccreport.Errors.{Result, ok, err}
use ccreport.Connectors.{MessageHeader, MessageBody, MailConnector}
use ccreport.Render.{Content, File}
use ccreport.Reports.Model.{MailAccount, BlobPath, World}

unfoldable pub BlobPath-discrete : Discrete BlobPath
BlobPath-discrete = hlevel ℕ_discrete

-- A step of the submission: it changes the world and returns or raises.
abbrev pub Step : Type 0 → Type 0
Step A = World → World × Result A

infixl 5 ◌>>=◌ ◌>>◌
unfoldable pub ◌>>=◌ : {A B : Type 0} → Step A → (A → Step B) → Step B
◌>>=◌ first next w = let (w', r) = first w in elim r [ err e ↦ (w', err e) | ok a ↦ next a w' ]

abbrev pub ◌>>◌ : {A B : Type 0} → Step A → Step B → Step B
first >> second = first >>= λ a. second

abbrev pub return : {A : Type 0} → A → Step A
return a w = (w, ok a)

-- a call that asks somebody else and leaves the world alone
abbrev pub ask : {A : Type 0} → Result A → Step A
ask r w = (w, r)

-- The services that a submission calls: the artifact store, whose calls may raise, and the
-- libraries behind rendering. `convert_image` and `render_message` are `_convert_image` and
-- `render_message_to_pdf` of src/ccreport/render.py.
pub record Services : Type 0 where
  pub put : BlobPath → Content → Result (Unit {0})
  pub delete_blob : BlobPath → Result Bool
  pub nfkd : Text → Text
  pub max_attachment_mb : ℕ
  pub convert_image : Content → Text → Text → Result File
  pub render_message : MessageBody → MessageHeader → Option Text → Result Content
  pub open_connector : MailAccount → Result MailConnector
