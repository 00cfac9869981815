-- ===== src/Payments/Webhooks/Guards.antt =====
-- The guards before a payment is settled, in the order of the handler.
use fann_api.Prelude.{
  ◌≡◌, true, false, none, some, List, ◌⊎◌, inl, inr, arith, Env, ok, Option-cases, Bool-cases, Text,
  first,
}
use fann_api.Billing.{Payment, Db}
use fann_api.Payments.Providers.{PaymentProvider, ParsedWebhook, by_code}
use fann_api.Payments.Webhooks.{
  WebhookOutcome, webhook_confirmed, is_referenced, is_confirmed, settle, process, on_event,
  record_event, new_event, recorded_unknown_provider, bad_signature, unparseable, payment_not_found,
  already_confirmed,
}

module _ (env : Env) (providers : List PaymentProvider) (code body headers : Text) (db : Db) where
  -- The state in which the payment is matched: the event's row is all that was written.
  unfoldable pub matched_db : ParsedWebhook → Payment → Db
  matched_db parsed payment =
      let id = env.new_id 0 in
      on_event (λ e. record e { payment_id = some payment.id }) id
        (on_event
          (λ e. record e {
            provider_ref = some parsed.provider_ref;
            event_type = parsed.event_type;
          })
          id
          (on_event (λ e. record e { signature_ok = true }) id
            (record_event (new_event env code body headers) db)))

  module _ (provider : PaymentProvider) (parsed : ParsedWebhook) (payment : Payment)
      (known : by_code providers code ≡ some provider)
      (genuine : provider.verify_signature body headers ≡ true)
      (readable : provider.parse_webhook body ≡ some parsed)
      (referenced : first (is_referenced code parsed.provider_ref) db.payments ≡ some payment)
      (open_before : is_confirmed payment ≡ false) where
    pub reaches_settle :
        process env providers code body headers db
        ≡ settle env (env.new_id 0) payment parsed (matched_db parsed payment)
    unfolding process matched_db
    reaches_settle = ground arith

  -- The guards before that, each with its outcome.
  pub data Stop : Type 0 where
    no_provider : by_code providers code ≡ none → Stop
    forged :
        (p : PaymentProvider)
        → by_code providers code ≡ some p
        → p.verify_signature body headers ≡ false
        → Stop
    garbled :
        (p : PaymentProvider)
        → by_code providers code ≡ some p
        → p.verify_signature body headers ≡ true
        → p.parse_webhook body ≡ none
        → Stop
    unmatched :
        (p : PaymentProvider) (parsed : ParsedWebhook)
        → by_code providers code ≡ some p
        → p.verify_signature body headers ≡ true
        → p.parse_webhook body ≡ some parsed
        → first (is_referenced code parsed.provider_ref) db.payments ≡ none
        → Stop
    replayed :
        (p : PaymentProvider) (parsed : ParsedWebhook) (payment : Payment)
        → by_code providers code ≡ some p
        → p.verify_signature body headers ≡ true
        → p.parse_webhook body ≡ some parsed
        → first (is_referenced code parsed.provider_ref) db.payments ≡ some payment
        → is_confirmed payment ≡ true
        → Stop

  abbrev pub outcome_of : Stop → WebhookOutcome
  outcome_of (no_provider a) = recorded_unknown_provider
  outcome_of (forged p a b) = bad_signature
  outcome_of (garbled p a b c) = unparseable
  outcome_of (unmatched p q a b c d) = payment_not_found
  outcome_of (replayed p q r a b c d e) = already_confirmed

  -- Each early return has its own outcome, and the log of events is all that it writes. So it is
  -- with a replay: once the payment is confirmed, a retry changes nothing else.
  pub stops :
      (s : Stop)
      → let (r, db') = process env providers code body headers db in
        (r ≡ ok (outcome_of s)) × (db' ≡ record db { events = db'.events })
  unfolding process
  stops (no_provider a) = ground arith
  stops (forged p a b) = ground arith
  stops (garbled p a b c) = ground arith
  stops (unmatched p q a b c d) = ground arith
  stops (replayed p q r a b c d e) = ground arith

  -- A webhook that passes all guards.
  pub record Reached : Type 0 where
    pub provider : PaymentProvider
    pub parsed : ParsedWebhook
    pub payment : Payment
    pub known : by_code providers code ≡ some provider
    pub genuine : provider.verify_signature body headers ≡ true
    pub readable : provider.parse_webhook body ≡ some parsed
    pub referenced : first (is_referenced code parsed.provider_ref) db.payments ≡ some payment
    pub open_before : is_confirmed payment ≡ false

  pub stops_or_reaches : Stop ⊎ Reached
  stops_or_reaches = elim (Option-cases (by_code providers code)) [
    | inl a ↦ inl (no_provider a)
    | inr (p, a) ↦ elim (Bool-cases (p.verify_signature body headers)) [
      | inr b ↦ inl (forged p a b)
      | inl b ↦ elim (Option-cases (p.parse_webhook body)) [
        | inl c ↦ inl (garbled p a b c)
        | inr (q, c) ↦ elim (Option-cases (first (is_referenced code q.provider_ref) db.payments)) [
          | inl d ↦ inl (unmatched p q a b c d)
          | inr (r, d) ↦ elim (Bool-cases (is_confirmed r)) [
            | inl e ↦ inl (replayed p q r a b c d e)
            | inr e ↦ inr (record {
              provider = p;
              parsed = q;
              payment = r;
              known = a;
              genuine = b;
              readable = c;
              referenced = d;
              open_before = e;
            })
          ]
        ]
      ]
    ]
  ]

  pub stop-ne-confirmed : (s : Stop) → outcome_of s ≡ webhook_confirmed → ⊥
  stop-ne-confirmed (no_provider a) e = cc
  stop-ne-confirmed (forged p a b) e = cc
  stop-ne-confirmed (garbled p a b c) e = cc
  stop-ne-confirmed (unmatched p q a b c d) e = cc
  stop-ne-confirmed (replayed p q r a b c d e) h = cc
