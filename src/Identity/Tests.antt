-- ===== src/Identity/Tests.antt =====
-- Runs, and instances of the theorems.
use fann_api.Prelude.{
  ℕ, ◌+◌, ◌≡◌, refl, inl, true, false, ◌&&◌, none, some, [], ◌∷◌, Env, ok, err, bad_request, count,
  update, arith,
}
use fann_api.Subscriptions.Access.{artist}
use fann_api.Users.{pending_review}
use fann_api.Identity.{
  IdDocument, id_document, selfie, trade_licence, pending, approved, Db, has_complete_verification,
}
use fann_api.Identity.Decisions.{
  approves, rejects, to_active, update_user_status, review_document, decide_document,
  has_required_approved,
}
use fann_api.Identity.Review.{Agrees, review_document-Agrees}
use fann_api.Identity.Retention.{
  is_due, is_deleted, purge, prune_expired_documents, prune_expired_documents_lem,
}

abbrev at : ℕ → Env
at n = record { now = n; node_now = n; new_id = λ i. n + i }

abbrev scan : IdDocument
scan = record {
  id = 1;
  user_id = 5;
  kind = id_document;
  s3_key = some (7 ∷ []);
  status = approved;
  rejection_reason = none;
  reviewed_by = some 9;
  reviewed_at = some 100;
  uploaded_at = 50;
  purged_at = none;
}

abbrev photo : IdDocument
photo = record scan {
  id = 2;
  kind = selfie;
  s3_key = some (8 ∷ []);
  status = pending;
  reviewed_by = none;
  reviewed_at = none;
}

abbrev office : Db
office = record {
  users = record { id = 5; role = artist; status = pending_review; deleted_at = none } ∷ [];
  profiles = record { user_id = 5; is_verified = false; is_venue = false } ∷ [];
  documents = scan ∷ photo ∷ [];
  verifications = [];
  audit_log = [];
  notifications = [];
}

abbrev reviewed : Db
reviewed = (review_document (at 200) 9 2 approves none office).1

-- the gate, before and after the second approval
too_early : (update_user_status (at 150) 9 5 to_active none office).0 ≡ err bad_request
unfolding update_user_status has_complete_verification
too_early = refl

goes_live : (update_user_status (at 250) 9 5 to_active none reviewed).0 ≡ ok tt
unfolding update_user_status has_complete_verification review_document decide_document
    has_required_approved
goes_live = refl

review_document-Agrees_example : Agrees 5 reviewed
unfolding review_document
review_document-Agrees_example =
    review_document-Agrees (at 200) 9 approves none photo office refl refl (inl refl) (omega arith)

-- A venue whose licence is approved loses the flag when a selfie that nobody asked for is rejected.
abbrev venue : Db
venue = record office {
  profiles = record { user_id = 5; is_verified = true; is_venue = true } ∷ [];
  documents = record scan { kind = trade_licence } ∷ photo ∷ [];
}

flag_lost :
    let db' = (review_document (at 200) 9 2 rejects (some (110 ∷ [])) venue).1 in
    (db'.profiles ≡ record { user_id = 5; is_verified = false; is_venue = true } ∷ [])
    × (has_complete_verification 5 db' ≡ true)
unfolding review_document decide_document has_required_approved has_complete_verification
flag_lost = (refl, refl)

-- an empty reason is none
no_reason_given : (review_document (at 200) 9 2 rejects (some []) venue).0 ≡ err bad_request
unfolding review_document
no_reason_given = refl

abbrev much_later : Env
much_later = at 9_000_000_000

prune_expired_documents_lem_example :
    let due =
      λ (d : IdDocument). is_due much_later.now office.users d && is_deleted (λ k. true) d in
    let (db', (purged, failed)) = prune_expired_documents (λ k. true) much_later office in
    (db' ≡ record office { documents = update due (purge much_later) office.documents })
    × (purged ≡ count due office.documents)
    × (purged + failed ≡ count (is_due much_later.now office.users) office.documents)
prune_expired_documents_lem_example =
    prune_expired_documents_lem (λ k. true) much_later office (λ i. ground arith)

one_purged : (prune_expired_documents (λ k. true) much_later office).1.0 ≡ 1
unfolding prune_expired_documents
one_purged = refl
