-- ===== src/Consent/Tests.antt =====
-- Runs, and instances of the theorems.
use fann_api.Prelude.{
  ℕ, ◌≡◌, refl, ◌↔◌, ◌⊎◌, true, false, none, some, [], ◌∷◌, Text, Env, ok, err, bad_request, length,
  ◌+◌, arith, any, rows, not,
}
use fann_api.Consent.{
  terms, privacy, marketing, ConsentContext, Consents, consent_row, record_consents, set_consent,
  is_mandatory, is_granted, outdated_documents, document_eq,
}
use fann_api.Consent.Standing.{outdated_documents-record_consents, set_consent_lem}
use fann_api.Consent.Unsubscribe.{
  create_unsubscribe_token, read_unsubscribe_token, read-create_unsubscribe_token, secret_from,
  split_last,
}

abbrev at : ℕ → Env
at n = record { now = n; node_now = n; new_id = λ i. i }

abbrev nowhere : ConsentContext
nowhere = record { ip_address = none; user_agent = none; contact_email = none }

-- user 1 agreed to everything at 10, of the terms to an older version
abbrev history : Consents
history =
    record (consent_row (at 10) 1 nowhere true terms) { version = 20250101 }
    ∷ consent_row (at 10) 1 nowhere true privacy
    ∷ consent_row (at 10) 1 nowhere true marketing
    ∷ []

asked_again : outdated_documents 1 history ≡ terms ∷ []
unfolding outdated_documents
asked_again = refl

-- the privacy policy alone is accepted, and the terms are still asked for
outdated_documents-record_consents_example :
    outdated_documents 1 (record_consents (at 20) 1 (privacy ∷ []) nowhere history)
    ≡ rows (λ d. not (any (λ x. document_eq x d) (privacy ∷ []))) (outdated_documents 1 history)
outdated_documents-record_consents_example =
    outdated_documents-record_consents (at 20) 1 nowhere history
      (ground arith, (ground arith, (ground arith, tt))) (privacy ∷ [])

set_consent_lem_example :
    let (r, t') = set_consent (at 20) 1 marketing false nowhere history in
    ((is_mandatory marketing ≡ true) × (r ≡ err bad_request) × (t' ≡ history))
    ⊎ ((is_mandatory marketing ≡ false)
        × (r ≡ ok tt)
        × (is_granted 1 marketing t' ≡ false)
        × (is_granted 2 marketing t' ≡ is_granted 2 marketing history))
set_consent_lem_example =
    set_consent_lem (at 20) 1 nowhere history (ground arith, (ground arith, (ground arith, tt)))
      marketing false 2 marketing refl

-- a signature of one character, from the length of the message
abbrev toy_hmac : Text → Text → Text
toy_hmac secret message = (length message + 64) ∷ []

-- "u.7"
abbrev someone : Text
someone = 117 ∷ 46 ∷ 55 ∷ []

abbrev link : Text
link = create_unsubscribe_token toy_hmac [] someone

read_back : read_unsubscribe_token toy_hmac [] (117 ∷ 46 ∷ 55 ∷ 46 ∷ 89 ∷ []) ≡ some someone
unfolding read_unsubscribe_token split_last
read_back = refl

no_secret : secret_from (some []) none ≡ none
unfolding secret_from
no_secret = refl

read-create_unsubscribe_token_example :
    (read_unsubscribe_token toy_hmac [] link ≡ some someone)
    ↔ (link ≡ create_unsubscribe_token toy_hmac [] someone)
read-create_unsubscribe_token_example =
    read-create_unsubscribe_token toy_hmac [] (λ m. ground arith) (λ m. refl) someone link refl
