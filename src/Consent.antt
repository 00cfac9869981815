-- ===== src/Consent.antt =====
-- src/consent/consent.service.ts and consent.constants.ts: the append-only record of consents. A
-- version is its date, by its digits; rows of the same instant come in the order of insertion.
pub mod Sorting
pub mod Standing
pub mod Unsubscribe
mod Tests
use fann_api.Prelude.{
  ℕ, Bool, true, false, ◌&&◌, not, Option, none, some, List, [], ◌∷◌, ◌++◌, ◌==◌, map, Text, leb,
  holds, head?, first, rows, if◌then◌else◌, Env, Action, pure, raise_if, modify, bad_request, ◌>>=◌,
  ◌>>◌,
}

pub data ConsentDocument : Type 0 where
  terms privacy marketing : ConsentDocument

abbrev pub document_eq : ConsentDocument → ConsentDocument → Bool
document_eq terms terms = true
document_eq privacy privacy = true
document_eq marketing marketing = true
document_eq _ _ = false

-- CONSENT_VERSIONS
abbrev pub consent_version : ConsentDocument → ℕ
consent_version terms = 20260811
consent_version privacy = 20260811
consent_version marketing = 20260908

-- MANDATORY_DOCUMENTS
abbrev pub mandatory_documents : List ConsentDocument
mandatory_documents = terms ∷ privacy ∷ []

abbrev pub is_mandatory : ConsentDocument → Bool
is_mandatory terms = true
is_mandatory privacy = true
is_mandatory marketing = false

pub record ConsentContext : Type 0 where
  pub ip_address : Option Text
  pub user_agent : Option Text
  pub contact_email : Option Text

pub record ConsentRecord : Type 0 where
  pub user_id : ℕ
  pub document : ConsentDocument
  pub version : ℕ
  pub accepted_at : ℕ
  pub ip_address : Option Text
  pub user_agent : Option Text
  pub granted : Bool
  pub contact_email : Option Text

-- the table user_consents
abbrev pub Consents : Type 0
Consents = List ConsentRecord

abbrev pub consent_row : Env → ℕ → ConsentContext → Bool → ConsentDocument → ConsentRecord
consent_row env user context granted document = record {
  user_id = user;
  document = document;
  version = consent_version document;
  accepted_at = env.now;
  ip_address = context.ip_address;
  user_agent = context.user_agent;
  granted = granted;
  contact_email = context.contact_email;
}

-- `record`; without documents it inserts no row
unfoldable pub record_consents :
    Env → ℕ → List ConsentDocument → ConsentContext → Consents → Consents
record_consents env user documents context t =
    t ++ map (consent_row env user context true) documents

unfoldable pub set_consent :
    Env → ℕ → ConsentDocument → Bool → ConsentContext → Action Consents (Unit {0})
set_consent env user document granted context =
    raise_if (is_mandatory document) bad_request
    >> modify (λ t. t ++ consent_row env user context granted document ∷ [])

-- `ORDER BY key DESC`, stable
module _ {A : Type 0} (key : A → ℕ) where
  abbrev pub place_newest : A → List A → List A
  place_newest x [] = x ∷ []
  place_newest x (y ∷ ys) = if leb (key y) (key x) then x ∷ y ∷ ys else y ∷ place_newest x ys

  abbrev pub newest_first : List A → List A
  newest_first [] = []
  newest_first (x ∷ xs) = place_newest x (newest_first xs)

abbrev pub is_of : ℕ → ConsentRecord → Bool
is_of user r = r.user_id == user

abbrev pub is_about : ConsentDocument → ConsentRecord → Bool
is_about document r = document_eq r.document document

unfoldable pub list_for_user : ℕ → Consents → List ConsentRecord
list_for_user user t = newest_first (λ (r : ConsentRecord). r.accepted_at) (rows (is_of user) t)

-- the entry of a document in what `latestForUser` returns
unfoldable pub latest_for_user : ℕ → Consents → ConsentDocument → Option ConsentRecord
unfolding list_for_user
latest_for_user user t document = first (is_about document) (list_for_user user t)

unfoldable pub is_outdated : ℕ → Consents → ConsentDocument → Bool
unfolding latest_for_user
is_outdated user t document = not (
    holds (λ (r : ConsentRecord). r.version == consent_version document)
      (latest_for_user user t document))

unfoldable pub outdated_documents : ℕ → Consents → List ConsentDocument
unfolding is_outdated
outdated_documents user t = rows (is_outdated user t) mandatory_documents

unfoldable pub is_granted : ℕ → ConsentDocument → Consents → Bool
is_granted user document t =
    holds (λ (r : ConsentRecord). r.granted)
      (head? (
        newest_first (λ (r : ConsentRecord). r.accepted_at)
          (rows (λ r. is_of user r && is_about document r) t)))
