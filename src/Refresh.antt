-- ===== src/Refresh.antt =====
-- src/modules/oauth/flows/token-refresh.flow.ts: rotation of refresh tokens, and the kill chain.
pub mod KillChain
pub mod Rotate
pub mod Spent
pub mod Replay
