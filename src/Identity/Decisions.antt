-- ===== src/Identity/Decisions.antt =====
-- The handlers of src/admin/admin.service.ts that decide on a document or an account.
use fann_api.Prelude.{
  ℕ, Bool, true, false, ◌&&◌, not, Option, some, [], ◌∷◌, ◌++◌, ◌==◌, Text, is_missing, first,
  update, any, if◌then◌else◌, Env, Action, bad_request, not_found, raise_if, require, gets, modify,
  ◌>>=◌, ◌>>◌,
}
use fann_api.Subscriptions.Access.{artist, admin, role_eq}
use fann_api.Users.{UserStatus, active, suspended, banned}
use fann_api.Verification.{record_admin_decision}
use fann_api.Identity.{
  IdDocument, pending, approved, rejected, User, ArtistProfile, Db, Audit, AuditAction,
  user_approved, user_suspended, user_banned, id_doc_approved, id_doc_rejected, Notification,
  NoticeType, account_approved, account_suspended, account_banned, id_verified, id_rejected,
  status_eq, is_approved, is_venue_of, required_kinds, every, has_complete_verification,
}

abbrev write_audit : Audit → Action Db (Unit {0})
write_audit a = modify (λ db. record db { audit_log = db.audit_log ++ a ∷ [] })

abbrev notify : Notification → Action Db (Unit {0})
notify n = modify (λ db. record db { notifications = db.notifications ++ n ∷ [] })

-- the decisions of `UpdateUserStatusDto`
pub data StatusChange : Type 0 where
  to_active to_suspended to_banned : StatusChange

abbrev status_of : StatusChange → UserStatus
status_of to_active = active
status_of to_suspended = suspended
status_of to_banned = banned

abbrev action_of : StatusChange → AuditAction
action_of to_active = user_approved
action_of to_suspended = user_suspended
action_of to_banned = user_banned

abbrev notice_of : StatusChange → NoticeType
notice_of to_active = account_approved
notice_of to_suspended = account_suspended
notice_of to_banned = account_banned

abbrev activates : StatusChange → Bool
activates to_active = true
activates to_suspended = false
activates to_banned = false

abbrev is_active : User → Bool
is_active u = elim (u.status) [ active ↦ true | _ ↦ false ]

abbrev pub set_status : UserStatus → User → User
set_status s u = record u { status = s }

unfoldable pub update_user_status :
    Env → (admin_id user : ℕ) → StatusChange → (note : Option Text) → Action Db (Unit {0})
unfolding has_complete_verification record_admin_decision
update_user_status env admin_id user change note =
    gets (λ db. first (λ (u : User). u.id == user) db.users) >>= λ found.
    require found not_found >>= λ u.
    raise_if (role_eq u.role admin) bad_request
    >> gets (has_complete_verification user)
    >>= λ complete.
        raise_if (activates change && role_eq u.role artist && not (is_active u) && not complete)
          bad_request
        >> modify (λ db. record db {
          users = update (λ (o : User). o.id == user) (set_status (status_of change)) db.users;
        })
        >> write_audit (record {
          admin_id = admin_id;
          action = action_of change;
          target_id = user;
          note = note;
        })
        >> modify (λ db. record db {
          verifications =
              record_admin_decision env user admin_id (activates change) db.verifications;
        })
        >> notify (record { user_id = user; type = notice_of change })

-- `hasRequiredApproved`, inside the transaction of the review
unfoldable pub has_required_approved : ℕ → Db → Bool
has_required_approved user db =
    every (λ k. any (is_approved user k) db.documents)
      (required_kinds (any (is_venue_of user) db.profiles))

pub data Decision : Type 0 where
  approves rejects : Decision

abbrev pub is_approval : Decision → Bool
is_approval approves = true
is_approval rejects = false

abbrev pub decided : Env → (admin_id : ℕ) → Decision → Option Text → IdDocument → IdDocument
decided env admin_id d reason doc = record doc {
  status = if is_approval d then approved else rejected;
  rejection_reason = reason;
  reviewed_by = some admin_id;
  reviewed_at = some (env.now);
}

abbrev pub set_verified : Bool → ArtistProfile → ArtistProfile
set_verified v p = record p { is_verified = v }

-- the transaction: the document, then the flag from what is then approved
unfoldable pub decide_document :
    Env → (admin_id : ℕ) → Decision → (reason : Option Text) → IdDocument → Db → Db
unfolding has_required_approved
decide_document env admin_id d reason doc db =
    let db' : Db = record db {
      documents =
          update (λ (o : IdDocument). o.id == doc.id) (decided env admin_id d reason) db.documents;
    } in
    let verified = is_approval d && has_required_approved doc.user_id db' in
    record db' {
      profiles =
          update (λ (p : ArtistProfile). p.user_id == doc.user_id) (set_verified verified)
            db'.profiles;
    }

unfoldable pub review_document :
    Env → (admin_id doc_id : ℕ) → Decision → (reason : Option Text) → Action Db (Unit {0})
unfolding decide_document
review_document env admin_id doc_id d reason =
    gets (λ db. first (λ (o : IdDocument). o.id == doc_id) db.documents) >>= λ found.
    require found not_found >>= λ doc.
    raise_if (not (status_eq doc.status pending)) bad_request
    >> raise_if (not (is_approval d) && is_missing reason) bad_request
    >> modify (decide_document env admin_id d reason doc)
    >> write_audit (record {
      admin_id = admin_id;
      action = if is_approval d then id_doc_approved else id_doc_rejected;
      target_id = doc.user_id;
      note = reason;
    })
    >> notify (record {
      user_id = doc.user_id;
      type = if is_approval d then id_verified else id_rejected;
    })
