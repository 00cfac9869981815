-- ===== src/Payments/Providers.antt =====
-- src/payments/providers/payment-provider.interface.ts, the manual provider and
-- src/payments/payment-provider.registry.ts. What a hosted provider does with its own secrets and
-- its own payload format is a field of the record.
use fann_api.Prelude.{
  Bool, false, Option, none, List, [], ◌∷◌, Text, text_eq, first, rows, is_some, get_or, JsNumber,
}

pub data ProviderStatus : Type 0 where
  paid failed expired unknown : ProviderStatus

pub record ParsedWebhook : Type 0 where
  pub provider_ref : Text
  pub status : ProviderStatus
  pub amount : JsNumber
  pub currency : Option Text
  pub event_type : Option Text

-- `parse_webhook` gives none where the source throws. `get_status` is there for the providers that
-- can be polled, and then gives none where it throws.
pub record PaymentProvider : Type 0 where
  pub code : Text
  pub verify_signature : Text → Text → Bool
  pub parse_webhook : Text → Option ParsedWebhook
  pub get_status : Option (Text → Option ProviderStatus)

-- "manual"
abbrev pub manual_code : Text
manual_code = 109 ∷ 97 ∷ 110 ∷ 117 ∷ 97 ∷ 108 ∷ []

-- `ManualProvider`: no webhook is ever genuine
abbrev pub manual_provider : PaymentProvider
manual_provider = record {
  code = manual_code;
  verify_signature = λ body headers. false;
  parse_webhook = λ body. none;
  get_status = none;
}

-- the providers by code
abbrev pub by_code : List PaymentProvider → Text → Option PaymentProvider
by_code providers code = first (λ p. text_eq p.code code) providers

abbrev pub has : List PaymentProvider → Text → Bool
has providers code = is_some (by_code providers code)

-- `active()`: the configured provider, or the manual one where the code is unknown
pub active : (manual : PaymentProvider) → List PaymentProvider → Option Text → PaymentProvider
active manual others configured =
    get_or (by_code (manual ∷ others) (get_or configured manual_code)) manual

abbrev pub pollable : List PaymentProvider → List PaymentProvider
pollable providers = rows (λ p. is_some p.get_status) providers
