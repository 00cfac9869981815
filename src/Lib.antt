-- ===== src/Lib.antt =====
-- Models of the services of the FANN API (NestJS over Postgres and Redis): what users may buy and
-- when it runs, how payments are settled, and how bookings and rate limits behave under races.
--
-- The parts and their files:
--   * Prelude: Boolean tests (Tests), a database table as the list of its rows with the queries
--     that the services run on it (Table, with lemmas in Counts), the request handler as a
--     state-passing function with HTTP exceptions as values (Handlers), fractions, clocks and
--     new ids (Number), and JavaScript's arithmetic on nonnegative numbers (Doubles).
--   * Vat: src/common/vat.ts (resolveVatRate, vatBreakdown).
--   * Throttle: src/redis/redis-throttler.storage.ts (increment and its Lua script).
--   * Billing: the rows of subscriptions, plans, payments and webhook events that the next two
--     parts share, with the partial unique index one_active_sub_per_user of migration 018.
--   * Subscriptions: src/subscriptions/subscriptions.service.ts. Purchase has listPlans, getMine,
--     createPaymentIntent, getMyPayment and reportTransfer; Mint has mintForPayment and
--     mintDatedPlan; Activate has activate; Expire has expireAndPromote; Reminders has
--     findDueRenewalReminders and the loop of src/scheduler/scheduler.service.ts that sends them.
--     Access has src/common/subscription.util.ts and src/common/subscription.guard.ts.
--   * Payments: Webhooks has src/payments/webhooks.service.ts (process); Providers the interface,
--     the manual provider and src/payments/payment-provider.registry.ts; Review the method
--     reviewPayment of src/admin/admin.service.ts; Reconcile the method doPaymentReconciliation of
--     src/scheduler/scheduler.service.ts.
--   * Bookings: src/bookings/bookings.service.ts (create, respond, cancel, markCompletedBatch).
--   * Messaging: src/messaging/messaging.service.ts (createConversation, respondToRequest,
--     sendMessage and markRead in Sends), with the cap on requests and, in Races, the cap on messages
--     under sends that interleave.
--   * Reviews: src/reviews/reviews.service.ts (submit, unlockExpiredReviews, adminRemove).
--   * Redis: src/redis/redis.service.ts, the keys of each prefix as a function. Users:
--     src/users/users.service.ts. Consent: src/consent/consent.service.ts and
--     src/consent/unsubscribe-token.ts. Verification: src/verification/verification.service.ts.
--   * Auth: src/auth/auth.service.ts over the four of them. Passwords, Emails, Phones and Oauth
--     have its operations; Sessions relates the refresh keys to the answers of the API.
--   * Artists: src/artists/artist-visibility.ts, with the price bounds of search in
--     src/artists/artists.service.ts.
--   * Identity: src/verification/identity-documents.service.ts; Decisions has updateUserStatus and
--     reviewDocument of src/admin/admin.service.ts.
--   * Scheduler: cronLockKey and buildMaintenanceNotifications of src/scheduler/scheduler.service.ts.
-- Payments and Purchase meet in the table of payments; webhooks and admins both grant through
-- mintForPayment; the gates and activate read access through getActiveSubscription.
--
-- How the code is read. An id is a number and the ids of new rows are given (Env.new_id), as are
-- the two clocks, the database's and the process's; a time is in milliseconds and a day is 24
-- hours (UTC). An amount of money in a row is its number of cents, as the columns keep two
-- decimals; the arithmetic on it in src/common/vat.ts is that of doubles, each operation rounded to
-- the nearest (Prelude/Doubles). `.first()` without an order takes the oldest row. A
-- statement that would break the unique index writes nothing and throws. A throw keeps what was
-- written before it, except in a transaction, which runs as a whole. Where requests race, the check
-- and the conditional write of a request are two functions, and a theorem runs the writes of many
-- requests in any order. The Redis commands do what their manual says; a payment provider's
-- signature, body format, intents and polling are parameters, as are JavaScript's Number on the
-- text of the tax rate, bcrypt, SHA-256, HMAC and JWT. A string that is only compared (a token, a
-- hash, a code) is a number; an address is a text, by its character codes. No definition
-- needs fuel: each recursion is on a list or on a quantity.
--
-- Not modelled: the other services (planners, media, analytics, support and the rest of artists, of
-- admin and of the scheduler), the validation of request bodies, emails, log lines,
-- the text of notifications, the column provider_payload, and joined reads that only project
-- columns.
pub mod Prelude
pub mod Vat
pub mod Throttle
pub mod Billing
pub mod Subscriptions
pub mod Payments
pub mod Bookings
pub mod Messaging
pub mod Reviews
pub mod Redis
pub mod Users
pub mod Consent
pub mod Verification
pub mod Auth
pub mod Artists
pub mod Identity
pub mod Scheduler
