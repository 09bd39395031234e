-- ===== src/Tests/Switches.antt =====
-- A change of context.
use arc_id.Base.{◌≡◌, refl, false, none, some, [], ◌∷◌}
use arc_id.Db.{UserStatus, Membership, AccessToken}
use arc_id.Db.Prisma.{documented, documented-IsDocumented}
use arc_id.Flow.Executor.{resolved, with_tx, caught, run}
use arc_id.Flow.Monad.{State, Result, ok, state_of}
use arc_id.Refresh.KillChain.{block_one, block_each}
use arc_id.Token.Issue.{
  TokenBundle, identity_found, identity_for_id_token, id_draft, id_signed, prepare, commit, issue,
}
use arc_id.Switch.{
  revoke_current, block_old, switch_session, switch_context, route_ctx, switch_context_route,
}
use arc_id.Switch.Laws.{Switched, switch_context_route-Switched}
use arc_id.Samples.{world, state, session, outcome_or}

abbrev member : Membership
member = record {
  id = 99;
  identity_id = 1;
  tenant_id = 2;
  role_id = 98;
  status = UserStatus.active;
}

abbrev old_access : AccessToken
old_access = record {
  id = 21;
  token = 22;
  jti = some 23;
  client_id = 50;
  identity_id = 1;
  session_id = some 20;
  scopes = [];
  issued_at = 1000;
  expires_at = 9000;
  revoked = false;
}

-- The session is bound to the refresh token 30.
abbrev before : State
before = record (state false) {
  db = record (state false).db {
    memberships = member ∷ [];
    sessions = record session { refresh_token_id = some 30 } ∷ [];
    access_tokens = old_access ∷ [];
  };
}

abbrev switched : Result TokenBundle
switched = switch_context_route documented world 2 1 (some 1) before

abbrev no_bundle : TokenBundle
no_bundle = record {
  access_token = 0;
  refresh_token = 0;
  id_token = none;
  expires_in = 0;
  auth_level = none;
}

switched-ok : switched ≡ ok (outcome_or no_bundle switched) (state_of switched)
unfolding switch_context_route run with_tx caught switch_context switch_session revoke_current
    block_old block_each block_one issue prepare identity_for_id_token identity_found id_draft
    id_signed commit
switched-ok = refl

switch_context_route-Switched_example :
    Switched world 2 none
      (resolved world (route_ctx documented 1 (some 1) before.db))
      before.db
      (outcome_or no_bundle switched)
      (state_of switched).db
switch_context_route-Switched_example =
    switch_context_route-Switched documented documented-IsDocumented world 2 1 (some 1) before
      switched-ok
