-- ===== src/Tests.antt =====
-- The theorems that have hypotheses, applied where those hold.
mod Tokens
mod Accounts
mod Workers
mod Guards
mod Grants
mod Services
mod Switches
