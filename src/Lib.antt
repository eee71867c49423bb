-- ===== src/Lib.antt =====
-- NovaSupport: a verification library for the backend's services and routes.
--
-- The backend (backend/src) is an Express service over PostgreSQL (Prisma) that records payments
-- on the Stellar network. A body passes the sanitizing middleware before its route sees it. The
-- routes (app.ts) call the services: a payment is verified at Horizon, behind a circuit breaker that
-- the replicas share through the database; an indexer reads the contract's events into the same table
-- of payments; payments award badges and are announced by webhooks, which are retried; timers run
-- jobs that the replicas claim from each other. The authentication middlewares stand before the
-- routes.
--
-- Base: tests on numbers and texts, lists, and JavaScript's `Map`.
-- CircuitBreaker: backend/src/services/circuit-breaker.ts and the storage that app.ts gives it. A
--   call is cut at its awaits into phases; `advance` is one resumption, `run` any interleaving of
--   calls, `execute` one call alone. CircuitBreaker.Types is the state of a breaker and of a call,
--   CircuitBreaker.PrismaStorage the row in the database, CircuitBreaker.Replicas two breakers over
--   one row.
-- VerifyTransaction: backend/src/services/verify-transaction.ts. `verify_attempts` is the loop of
--   the attempts, `validate_payment_details` the loop over pages of operations, `Cache` the cache;
--   VerifyTransaction.Types is its data.
-- Webhook: backend/src/services/webhook.ts, one request and the retry policy. Webhook.Delivery:
--   webhook-processor.ts and the job of webhook-queue.ts on the rows of deliveries;
--   Webhook.Delivery.Attempts interleaves the pollers of one row.
--   Webhook.Payload is the canonical JSON of a payload and its signature.
-- Profiles: POST and PATCH of /profiles, verify-email, resend-verification-email and the accepted
--   assets of app.ts. A route that changes a profile is a plan, made from the rows that it reads, and
--   its execution (`plan_patch`, `plan_verify`, `plan_resend`, `execute`); Profiles.Verified runs
--   histories of whole requests, Profiles.Races a plan on rows that have changed since. Profiles.Accounts
--   is the rows and their unique columns, Profiles.Schemas the zod schemas, Profiles.Create the creation
--   and the assets.
-- StellarClient: frontend/src/lib/stellar.ts: the errors of the network, the loop of withStellarRetry
--   and the check of an address; StellarClient.Amounts is calculateDestinationMinimum on the decimals of
--   StellarClient.Decimal.
-- Scheduler: backend/src/services/scheduler-claim.ts and the jobs that badge-awarder.ts,
--   weekly-digest.ts and ip-retention-purge.ts run under a claim.
-- EventIndexer: backend/src/services/event-indexer.ts. `poll_once` is one page, `ingest` the upserts
--   of its events, `resolve_orphans` the second pass, `tick` the pace.
-- BadgeAwarder: backend/src/services/badge-awarder.ts. `check_and_award_badges` is the transaction
--   on one profile, `sweep_badges` the pages of profiles.
-- DripScheduler: backend/src/services/drip-scheduler.ts. `process_support` is one due support,
--   `next_run_at` the loop to its next date, `add_months` the calendar.
-- LeaderboardCache: backend/src/services/profile-leaderboard-cache.ts on one replica, with Redis and
--   the map that stands in for it.
-- UsernameValidator: backend/src/utils/username-validator.ts, on lists of UTF-16 units; the regular
--   expressions are written out as matchers.
-- Store: the tables of backend/prisma/schema.prisma that the routes share, as records with lists of
--   rows, and the checks that they have in common: Store.Owner (isProfileOwner, resolveProfileOwner),
--   Store.Amount and Store.Fields (amounts and lengths of the schemas); Store.Rows has the lemmas on
--   rows found, updated and deleted by a unique column.
-- SupportTransactions: POST /support-transactions of app.ts. SupportTransactions.Guards is its checks
--   (`guard` has them in order), `record_support` the database transaction, `post_support` the route; SupportTransactions.Payments
--   puts it together with VerifyTransaction, SupportTransactions.Indexed with EventIndexer, and
--   SupportTransactions.Funding runs histories of requests against an abstract fund.
-- Milestones, WebhookRoutes, Subscriptions: the routes of app.ts that create, change and delete
--   milestones, webhooks and recurring support (`post_…`, `patch_…`, `delete_…`), each with a module
--   Effects that says what a call can do to the tables. Milestones.Calls runs histories of them and of
--   payments; WebhookRoutes takes the URL validator. The PATCH of a milestone and of recurring support
--   reads and then updates without a transaction: `patch_milestone_at` and `patch_recurring_at` see
--   other tables at each await, `patch_milestone` and `patch_recurring` are the request alone, and the
--   modules Races say what an overlapping request does.
-- UrlValidator: backend/src/utils/url-validator.ts; UrlValidator.Patterns is its regular expressions.
-- Sanitizer: backend/src/middleware/sanitize.ts. Sanitizer.Strings is sanitizeString as a pipeline of
--   steps, Sanitizer.Urls normalizeUrl, Sanitizer.Handles the handles and emails; `sanitize_object` is
--   the walk over a body, `sanitize_body` and `sanitize_query` the two middlewares.
-- Auth: requireAuth and optionalAuth of backend/src/auth.ts, POST /auth/logout of app.ts and the
--   purge of revoked tokens of ip-retention-purge.ts. Auth.Challenge: POST /auth/challenge and POST
--   /auth/verify of app.ts on the tables of challenges and users; a verify request is cut at its awaits
--   of the database, and `serve_all` interleaves any number of them. Drawing a challenge, signing a
--   token and the check of a signature are arguments; the cookie is left out.
--
-- Times are milliseconds as natural numbers. The clock, random numbers, the answers of Horizon,
-- of the RPC server and of webhooks, and whether a statement of the database fails are arguments.
-- A statement of the database is a function on the rows that it names, with the unique keys of
-- prisma/schema.prisma; a statement is atomic, and so is a database transaction, whatever its isolation.
-- Where requests are interleaved (CircuitBreaker, Auth.Challenge, Webhook.Delivery.Attempts,
-- DripScheduler, Profiles.Races, Milestones.Races, Subscriptions.Races), what lies between two awaits is
-- one step. Elsewhere a request is one step: a history runs whole requests one after the other, and says
-- nothing of requests that overlap.
-- Numbers that the code reads as JavaScript numbers stay below 2 ^ 53. parseFloat and toFixed
-- are the fields of VerifyTransaction.Types.JsNumber, jsonwebtoken is `verify` in Auth with the laws
-- Auth.Sessions.Jwt.
-- Amounts are Decimal(18, 7), so natural numbers of ten-millionths. The Stellar SDK's check of a key,
-- `new URL`, the resolver, sanitize-html, toLowerCase, Unicode's normal form, node's reading of
-- addresses, the date a month later and the comparison of amounts as doubles are arguments.
-- A route answers with a status and a code; how its database call ends, when no constraint decides
-- it, is the argument `Outcome`.
-- Fuel: `validate_payment_details` takes one unit for each page of operations, `sweep_pages` one for
-- each page of profiles, `slice_chunks` one for each chunk, `advance_past` one for each interval
-- that is skipped: as many units as there are of these are enough. Every other loop is a recursion on
-- the list or the number that it counts down.
--
-- Not modelled: the other routes of app.ts (badges, reports, analytics, the leaderboard, feeds, exports,
-- uploads, and the GET routes, which change nothing), the rest of the frontend and the contract in
-- Rust; the emails, webhooks and badges that follow a recorded payment; log lines with the paths that
-- label a violation, metrics and traces, which no state depends on; timers, whose firing is the order
-- of the steps.
pub mod Auth
pub mod BadgeAwarder
pub mod Base
pub mod CircuitBreaker
pub mod DripScheduler
pub mod EventIndexer
pub mod LeaderboardCache
pub mod Milestones
pub mod Profiles
pub mod Sanitizer
pub mod Scheduler
pub mod StellarClient
pub mod Store
pub mod Subscriptions
pub mod SupportTransactions
pub mod UrlValidator
pub mod UsernameValidator
pub mod VerifyTransaction
pub mod Webhook
pub mod WebhookRoutes
