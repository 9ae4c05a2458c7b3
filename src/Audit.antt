-- ===== src/Audit.antt =====
-- The audit log: `audit` of src/ccreport/auth/allowlist.py, which the other components call. A row
-- is appended and never changed; its time, its id and its free-form detail are not modelled.
use Prim.Native.String.{String}
use ccreport.Prelude.{ℕ, Option, none, some, List, [], ◌∷◌, ◌++◌}
use ccreport.Prelude.Texts.{Text, normalised}

-- `subject_type` and `subject_id` together
pub data Subject : Type 0 where
  principal : Text → Subject
  report report_item mail_account : ℕ → Subject

pub record AuditLog : Type 0 where
  pub actor_upn : Option Text
  pub action : String
  pub subject : Subject

-- `(actor or "").strip().lower() or None`
unfoldable pub recorded_actor : Option Text → Option Text
recorded_actor none = none
recorded_actor (some actor) = elim (normalised actor) [ [] ↦ none | c ∷ s ↦ some (c ∷ s) ]

unfoldable pub audit : Option Text → String → Subject → List AuditLog → List AuditLog
audit actor action subject log =
    log ++ record { actor_upn = recorded_actor actor; action = action; subject = subject } ∷ []
