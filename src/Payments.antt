-- ===== src/Payments.antt =====
-- src/payments: the providers, the webhook, and the admin's decision on a payment.
pub mod Providers
pub mod Webhooks
pub mod Review
pub mod Reconcile
mod Tests
