-- ===== src/Subscriptions.antt =====
-- src/subscriptions/subscriptions.service.ts and src/common/subscription.util.ts. The children
-- hold the parts of the service and what is proved of them.
pub mod Access
pub mod Mint
pub mod Activate
pub mod Expire
pub mod Reminders
pub mod Purchase
mod Tests
