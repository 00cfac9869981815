-- ===== src/Identity.antt =====
-- src/verification/identity-documents.service.ts. A user id in a storage key is its text, which `id_text` gives;
-- the outcome of a call of the object storage is an argument.
pub mod Decisions
pub mod Review
pub mod Retention
mod Tests
use fann_api.Prelude.{
  ℕ, ◌+◌, ◌*◌, Bool, true, false, ◌&&◌, ◌||◌, not, Option, none, some, List, [], ◌∷◌, ◌++◌, ◌==◌,
  ltb, Text, text_eq, is_some, holds, first, rows, update, any, if◌then◌else◌, day_ms, Env, Action,
  Result, ok, err, bad_request, not_found, pure, raise, raise_if, require, gets, modify,
  transaction, ◌>>=◌, ◌>>◌,
}
use fann_api.Subscriptions.Access.{UserRole, artist, admin, role_eq}
use fann_api.Users.{UserStatus, active, pending_review, suspended, banned}
use fann_api.Verification.{VerificationRecord, record_admin_decision}

pub data IdDocumentKind : Type 0 where
  id_document selfie trade_licence : IdDocumentKind

pub data DocumentStatus : Type 0 where
  pending approved rejected : DocumentStatus

pub record IdDocument : Type 0 where
  pub id : ℕ
  pub user_id : ℕ
  pub kind : IdDocumentKind
  pub s3_key : Option Text
  pub status : DocumentStatus
  pub rejection_reason : Option Text
  pub reviewed_by : Option ℕ
  pub reviewed_at : Option ℕ
  pub uploaded_at : ℕ
  pub purged_at : Option ℕ

pub record User : Type 0 where
  pub id : ℕ
  pub role : UserRole
  pub status : UserStatus
  pub deleted_at : Option ℕ

pub record ArtistProfile : Type 0 where
  pub user_id : ℕ
  pub is_verified : Bool
  -- one of its categories has the slug 'venue'
  pub is_venue : Bool

pub data AuditAction : Type 0 where
  user_approved user_suspended user_banned id_doc_approved id_doc_rejected : AuditAction

pub record Audit : Type 0 where
  pub admin_id : ℕ
  pub action : AuditAction
  pub target_id : ℕ
  pub note : Option Text

pub data NoticeType : Type 0 where
  account_approved account_suspended account_banned id_verified id_rejected : NoticeType

pub record Notification : Type 0 where
  pub user_id : ℕ
  pub type : NoticeType

pub record Db : Type 0 where
  pub users : List User
  pub profiles : List ArtistProfile
  pub documents : List IdDocument
  pub verifications : List VerificationRecord
  pub audit_log : List Audit
  pub notifications : List Notification

abbrev pub kind_eq : IdDocumentKind → IdDocumentKind → Bool
kind_eq id_document id_document = true
kind_eq selfie selfie = true
kind_eq trade_licence trade_licence = true
kind_eq _ _ = false

abbrev pub status_eq : DocumentStatus → DocumentStatus → Bool
status_eq pending pending = true
status_eq approved approved = true
status_eq rejected rejected = true
status_eq _ _ = false

-- REQUIRED_KINDS and VENUE_REQUIRED_KINDS
abbrev pub required_kinds : Bool → List IdDocumentKind
required_kinds false = id_document ∷ selfie ∷ []
required_kinds true = trade_licence ∷ []

abbrev pub is_venue_of : ℕ → ArtistProfile → Bool
is_venue_of user p = (p.user_id == user) && p.is_venue

abbrev pub required_kinds_for : ℕ → Db → List IdDocumentKind
required_kinds_for user db = required_kinds (any (is_venue_of user) db.profiles)

abbrev pub is_approved : ℕ → IdDocumentKind → IdDocument → Bool
is_approved user kind d = (d.user_id == user) && kind_eq d.kind kind && status_eq d.status approved

abbrev every : {A : Type 0} → (A → Bool) → List A → Bool
every p [] = true
every p (x ∷ xs) = p x && every p xs

unfoldable pub has_complete_verification : ℕ → Db → Bool
has_complete_verification user db =
    every (λ k. any (is_approved user k) db.documents) (required_kinds_for user db)

abbrev starts_with : Text → Text → Bool
starts_with [] t = true
starts_with (c ∷ p) [] = false
starts_with (c ∷ p) (d ∷ t) = (c == d) && starts_with p t

-- 'identity/' and '/'
abbrev owner_prefix : Text → Text
owner_prefix id = 105 ∷ 100 ∷ 101 ∷ 110 ∷ 116 ∷ 105 ∷ 116 ∷ 121 ∷ 47 ∷ id ++ 47 ∷ []

abbrev pub is_slot : ℕ → IdDocumentKind → IdDocument → Bool
is_slot user kind d = (d.user_id == user) && kind_eq d.kind kind

-- the columns that `.merge(...)` takes over
abbrev pub resubmitted : Env → Text → IdDocument → IdDocument
resubmitted env key d = record d {
  s3_key = some key;
  status = pending;
  rejection_reason = none;
  reviewed_by = none;
  reviewed_at = none;
  uploaded_at = env.now;
}

abbrev pub new_document : Env → ℕ → IdDocumentKind → Text → IdDocument
new_document env user kind key = record {
  id = env.new_id 0;
  user_id = user;
  kind = kind;
  s3_key = some key;
  status = pending;
  rejection_reason = none;
  reviewed_by = none;
  reviewed_at = none;
  uploaded_at = env.now;
  purged_at = none;
}

-- the INSERT with its `onConflict(['user_id', 'kind'])`
unfoldable pub upsert : Env → ℕ → IdDocumentKind → Text → List IdDocument → List IdDocument
upsert env user kind key t =
    if any (is_slot user kind) t
    then update (is_slot user kind) (resubmitted env key) t
    else t ++ new_document env user kind key ∷ []

unfoldable pub confirm :
    (id_text : ℕ → Text) → Env → (user : ℕ) → IdDocumentKind → (key : Text) → Action Db (Unit {0})
unfolding upsert
confirm id_text env user kind key =
    raise_if (not (starts_with (owner_prefix (id_text user)) key)) bad_request
    >> modify (λ db. record db { documents = upsert env user kind key db.documents })
