-- ===== src/Lib.antt =====
-- ArcID is an identity server: it authenticates people, keeps their sessions, and issues OAuth 2
-- and OpenID Connect tokens to clients. Each request runs a flow (src/modules/*/flows), a function
-- of an input and a context, which FlowExecutor (src/core/flows/flow-executor.ts) runs in a database
-- transaction; flows call services (src/modules/*/services), which read and write the tables of
-- prisma/schema.prisma through the Prisma client, and small libraries (src/lib), some of which keep
-- state in Redis. A worker (src/jobs/webhook-worker.ts) delivers events from a table.
--
-- Which file models which part:
-- - Db: the tables that the modelled flows use (Db/Rows, with the columns they use), and the Prisma
--   client (Db/Prisma).
-- - Flow: src/core/errors/api-error.ts (Flow/Errors), flows as functions of the state with their
--   errors as values (Flow/Monad), what they take from outside (Flow/World), FlowExecutor.run
--   (Flow/Executor), and the properties that a flow keeps on every path (Flow/Keeps).
-- - Token: src/modules/oauth/services/token.service.ts: the lifetimes (Token/Ttl) and
--   TokenService.issue (Token/Issue).
-- - Refresh: src/modules/oauth/flows/token-refresh.flow.ts: triggerKillChain and
--   blocklistLiveAccessTokens (Refresh/KillChain), tokenRefreshFlow.execute (Refresh/Rotate), and
--   what happens to a token that comes again (Refresh/Spent, Refresh/Replay), with the route of
--   src/modules/oauth/routes/tokens.route.ts.
-- - Exchange: the authorization_code grant of src/modules/oauth/flows/token-exchange.flow.ts, with
--   src/modules/oauth/services/pkce.service.ts.
-- - Session: src/modules/auth/services/session.service.ts, and
--   src/modules/auth/repositories/session.repository.ts (Session/Repository).
-- - Login: src/modules/auth/flows/login.flow.ts, and src/modules/auth/flows/mfa-verify.flow.ts
--   (Login/Verify).
-- - LoginAttempt: src/lib/security/login-attempt.ts, over the Redis commands of
--   LoginAttempt/Commands.
-- - Blocklist: src/lib/security/jti-blocklist.ts, over the same commands.
-- - Guard: src/api/plugins/auth-guard.plugin.ts and src/lib/security/rbac.ts: `requireUser`, the checks
--   that follow it (Guard/Checks), when the strongest lets a request through (Guard/Levels) and what
--   is refused (Guard/Refused).
-- - Revocation: src/modules/oauth/flows/token-revoke.flow.ts and revoke-token-by-id.flow.ts.
-- - Logout: src/modules/auth/flows/logout.flow.ts.
-- - Switch: src/modules/auth/flows/switch-context.flow.ts, and the context that switch-context.route.ts
--   gives it.
-- - Authorize: src/modules/oauth/flows/authorize.flow.ts, with consent.service.ts and
--   client.repository.ts of the same module: what an issued code rests on (Authorize/Laws), that the
--   exchange takes it (Authorize/Redeemed), and consents (Authorize/Consented).
-- - Challenge: src/lib/challenge-store.ts, and a map of pending challenges beside it
--   (Challenge/Pending).
-- - Passkey: src/modules/auth/services/passkey.service.ts, and the flows passkey-authenticate and
--   passkey-register (Passkey/Register).
-- - StepUp: src/modules/auth/services/step-up.service.ts and routes/step-up.route.ts, whose elevation
--   the guard reads (StepUp/Laws), and whose passkey it takes (StepUp/Owner).
-- - ApiKey: src/modules/api-key, whose keys the guard reads.
-- - Recovery: src/modules/auth/services/mfa.service.ts and flows/mfa-setup.flow.ts, with the functions
--   on texts that they use (Recovery/Text).
-- - UrlSafety: src/lib/url-safety.ts: the address ranges (UrlSafety/Ranges) and the guarded fetch
--   (UrlSafety/Fetched).
-- - PasswordRules: src/lib/security/password-rules.ts.
-- - Cleanup: src/jobs/token-cleanup.job.ts.
-- - TenantIsolation: src/core/db/tenant-isolation.ts. Membership:
--   src/modules/tenant/services/membership.service.ts, over it, and src/config/plan-caps.ts.
-- - System: token requests and logins in any sequence, as their routes run them: with the executor's
--   transaction, but for login (src/modules/auth/routes/login.route.ts); what a property of the
--   database must survive for all of them to keep it (System/Invariant).
-- - EmailToken: src/modules/auth/services/email-token.service.ts, and any sequence of its calls
--   (EmailToken/Calls).
-- - Webhook: src/jobs/webhook-worker.ts.
-- - Multibase: src/lib/multibase.ts.
-- - StatusList: the bit list of src/modules/credentials/services/status-list.service.ts.
-- - Base: lists, options and Boolean tests that all share. Samples and Tests: a small database, and
--   the theorems applied to it.
--
-- Names are those of the source in snake case: SessionService.create is Session.create,
-- triggerKillChain is trigger_kill_chain. A flow's `execute` is split where it branches; each piece
-- says which steps of the source it is.
--
-- Conventions. The state of a flow is a record: the database, the calls it started without waiting
-- for them, the number of random values drawn, and the Redis store. A throw is the result `err`
-- with the state at that point, so that what a transaction takes back is explicit. Identifiers,
-- tokens, hashes and addresses are opaque numbers, times are milliseconds, and one run of a flow
-- sees one time, but for the step-up route, which answers from a second reading of the clock. A call
-- that is not awaited is recorded as started: nothing says whether or when it is carried out. The texts of errors are kept without the values they quote.
--
-- Parameters. The Prisma client and Redis are records of the queries and commands that the source
-- makes; `IsDocumented` says of each what its documentation says (order, limit, rows changed, a
-- repeated unique column, a transaction that rolls back), `documented` keeps to it, and the theorems
-- hold for every client that does. Password hashing, TOTP, the digest of PKCE, the signer, random
-- values, zlib, WebAuthn, JWT verification, SHA-256, name resolution and `fetch`, the webhook request
-- and its jitter are functions of the world or arguments. The challenge store has Redis commands of
-- its own, with what their documentation says.
--
-- Fuel. Multibase.push_carry runs on fuel: its carry, which every step divides by 58, and
-- Multibase.Value proves that to be enough. The guarded fetch and the clean-up count the hops and
-- retries that the source allows. All other loops follow a list.
--
-- Not modelled: HTTP routes, presenters and schemas, audit logging beyond its call, mail, storage,
-- the web application and the SDK; and, so far, the registration, password-reset, magic-link and
-- tenant flows, social and enterprise sign-in, credentials, and the allocation of status list entries.
pub mod Base
pub mod Db
pub mod Flow
pub mod Guard
pub mod Revocation
pub mod Logout
pub mod Challenge
pub mod Passkey
pub mod StepUp
pub mod Authorize
pub mod ApiKey
pub mod Recovery
pub mod UrlSafety
pub mod PasswordRules
pub mod Cleanup
pub mod TenantIsolation
pub mod Membership
pub mod Token
pub mod Refresh
pub mod Session
pub mod LoginAttempt
pub mod Login
pub mod Exchange
pub mod EmailToken
pub mod Multibase
pub mod Webhook
pub mod Samples
pub mod Tests
pub mod Switch
pub mod System
pub mod StatusList
pub mod Blocklist
