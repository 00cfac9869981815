-- ===== src/Verification.antt =====
-- src/verification/verification.service.ts: the log of an account's verification. A step keeps its
-- actor, none being the system, and its name; the free text of a step is left out.
use fann_api.Prelude.{
  ℕ, Bool, Option, none, some, List, [], ◌∷◌, ◌++◌, ◌==◌, map, Text, head?, rows, update,
  if◌then◌else◌, Env,
}
use fann_api.Consent.{
  ConsentContext, ConsentRecord, ConsentDocument, Consents, list_for_user, newest_first,
}

pub data VerificationResult : Type 0 where
  pending passed failed manually_approved : VerificationResult

pub data StepName : Type 0 where
  account_created approval rejection : StepName
  named : Text → StepName

pub record AuditStep : Type 0 where
  pub at : ℕ
  pub actor : Option ℕ
  pub step : StepName

-- what the snapshot copies of a consent
pub record ConsentCopy : Type 0 where
  pub document : ConsentDocument
  pub version : ℕ
  pub granted : Bool
  pub accepted_at : ℕ
  pub ip_address : Option Text

pub record VerificationRecord : Type 0 where
  pub id : ℕ
  pub user_id : ℕ
  pub result : VerificationResult
  pub ip_address : Option Text
  pub user_agent : Option Text
  pub consent_snapshot : List ConsentCopy
  pub audit_log : List AuditStep
  pub completed_at : Option ℕ
  pub reviewed_by : Option ℕ
  pub created_at : ℕ

abbrev pub copy_consent : ConsentRecord → ConsentCopy
copy_consent c = record {
  document = c.document;
  version = c.version;
  granted = c.granted;
  accepted_at = c.accepted_at;
  ip_address = c.ip_address;
}

unfoldable pub open_for_signup :
    Env → (user : ℕ) → ConsentContext → Consents → List VerificationRecord → List VerificationRecord
unfolding list_for_user
open_for_signup env user context consents t =
    let r : VerificationRecord = record {
      id = env.new_id 2;
      user_id = user;
      result = pending;
      ip_address = context.ip_address;
      user_agent = context.user_agent;
      consent_snapshot = map copy_consent (list_for_user user consents);
      audit_log = record { at = env.node_now; actor = none; step = account_created } ∷ [];
      completed_at = none;
      reviewed_by = none;
      created_at = env.now;
    } in
    t ++ r ∷ []

abbrev pub record_of : ℕ → VerificationRecord → Bool
record_of user r = r.user_id == user

-- `latestFor`
unfoldable pub latest_for : ℕ → List VerificationRecord → Option VerificationRecord
latest_for user t =
    head? (newest_first (λ (r : VerificationRecord). r.created_at) (rows (record_of user) t))

abbrev pub with_step : AuditStep → VerificationRecord → VerificationRecord
with_step s r = record r { audit_log = r.audit_log ++ s ∷ [] }

-- an update of the latest record of a user, if there is one
update_latest :
    ℕ
    → (VerificationRecord → VerificationRecord)
    → List VerificationRecord
    → List VerificationRecord
update_latest user f t = elim (latest_for user t) [
  | none ↦ t
  | some r ↦ update (λ (o : VerificationRecord). o.id == r.id) f t
]

abbrev pub settled : Env → (admin : ℕ) → (approved : Bool) → VerificationRecord → VerificationRecord
settled env admin approved r =
    let s : AuditStep = record {
      at = env.node_now;
      actor = some admin;
      step = if approved then approval else rejection;
    } in
    record r {
      result = if approved then manually_approved else failed;
      completed_at = some (env.now);
      reviewed_by = some admin;
      audit_log = r.audit_log ++ s ∷ [];
    }

unfoldable pub record_admin_decision :
    Env → (user admin : ℕ) → (approved : Bool) → List VerificationRecord → List VerificationRecord
unfolding update_latest
record_admin_decision env user admin approved t = update_latest user (settled env admin approved) t

unfoldable pub append_step :
    Env → (user : ℕ) → (actor : Option ℕ) → Text → List VerificationRecord → List VerificationRecord
unfolding update_latest
append_step env user actor name t =
    update_latest user (with_step (record { at = env.node_now; actor = actor; step = named name }))
      t
