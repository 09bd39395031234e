-- ===== src/Token.antt =====
-- src/modules/oauth/services/token.service.ts: lifetimes, and `TokenService.issue`.
pub mod Ttl
pub mod Issue
