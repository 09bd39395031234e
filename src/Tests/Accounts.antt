-- ===== src/Tests/Accounts.antt =====
-- Logins, sessions, failure counters and e-mail tokens.
use arc_id.Base.{ℕ, ◌≤◌, ◌≡◌, refl, true, false, none, some, [], ◌∷◌, count, get_or, arith}
use arc_id.Db.{aal1, TokenType, Session, EmailToken}
use arc_id.Db.Prisma.{documented, documented-IsDocumented}
use arc_id.Flow.Monad.{Result, ok, state_of}
use arc_id.LoginAttempt.Commands as Redis
use arc_id.LoginAttempt.Commands.{fail_key, entry, value_of, Store}
use arc_id.LoginAttempt.{
  lockout_ttl_seconds, status_of, positive, check_lockout, record_failure, record_with, lock_by,
  lock_for, is_shorter, clear_attempts, failed_login,
}
use arc_id.LoginAttempt.Lockout.{next_count, record_failure-locks, clear_attempts-Clears}
use arc_id.LoginAttempt.Gate.{failed_logins, failed_logins-bound}
use arc_id.Login.{
  LoginInput, LoginOutput, account_of, find_for_auth, policy_for, requires_by_policy, ttl_by_policy,
  cap_by_policy, finish_pending, finish, login_session, login_password, login_account, login_found,
  login,
}
use arc_id.Login.Laws.{Admitted, login-Admitted}
use arc_id.Login.Stuck.{Stuck, login-Stuck}
use arc_id.Session.{
  CreateSessionInput, invalidate_found, evict, enforce_cap, create_with, create, update_session,
}
use arc_id.Session.Cap.{Capped, create-Capped}
use arc_id.Session.Repository.{
  revoke_all_for_identity, revoke_sessions, settle_batch, record_jtis, block_all,
}
use arc_id.Session.Repository.Revoked.{AllRevoked, were_valid, revoke_all_for_identity-AllRevoked}
use arc_id.EmailToken.{issue_token, add_token, consume, is_outstanding}
use arc_id.EmailToken.Single.{Redeems, consume-Redeems, issue_token-single}
use arc_id.Samples.{world, ctx, state, session, email_token, outcome_or}

abbrev credentials : LoginInput
credentials = record { email = 11; password = 77 }

abbrev no_login : LoginOutput
no_login = record {
  identity_id = 0;
  session_id = 0;
  requires_mfa = false;
  mfa_enrollment_required = false;
  mfa_types = [];
  tokens = none;
}

abbrev logged_in : Result LoginOutput
logged_in = login documented world credentials ctx (state false)

logged_in-ok : logged_in ≡ ok (outcome_or no_login logged_in) (state_of logged_in)
unfolding login check_lockout status_of positive find_for_auth account_of login_found login_account
    login_password login_session policy_for requires_by_policy ttl_by_policy cap_by_policy create
    create_with enforce_cap evict invalidate_found finish finish_pending update_session
logged_in-ok = refl

login-Admitted_example :
    Admitted documented world credentials ctx
      (state false)
      (outcome_or no_login logged_in)
      (state_of logged_in)
login-Admitted_example = login-Admitted documented world credentials ctx (state false) logged_in-ok

needs_factor : (outcome_or no_login logged_in).requires_mfa ≡ true
unfolding login check_lockout status_of positive find_for_auth account_of login_found login_account
    login_password login_session policy_for requires_by_policy ttl_by_policy cap_by_policy create
    create_with enforce_cap evict invalidate_found finish finish_pending update_session
needs_factor = refl

login-Stuck_example : Stuck documented (outcome_or no_login logged_in) (state_of logged_in)
login-Stuck_example =
    login-Stuck documented documented-IsDocumented world credentials ctx (state false) logged_in-ok
      needs_factor

abbrev session_input : CreateSessionInput
session_input = record {
  identity_id = 1;
  local_account_id = none;
  auth_level = some aal1;
  session_ttl_minutes = none;
  max_sessions_per_user = some 1;
}

abbrev created : Result Session
created = create documented world session_input (state false)

created-ok : created ≡ ok (outcome_or session created) (state_of created)
unfolding create create_with enforce_cap evict invalidate_found
created-ok = refl

create-Capped_example : Capped 1 world session_input (outcome_or session created) (state_of created)
create-Capped_example =
    create-Capped documented documented-IsDocumented world session_input 1 (state false)
      (omega arith) refl created-ok

-- Four failures at time 0.
abbrev four_failures : Store
four_failures = failed_logins (some Redis.documented) 11 (0 ∷ 0 ∷ 0 ∷ 0 ∷ []) []

fifth : lockout_ttl_seconds (next_count 1000 11 four_failures) ≡ some 900
unfolding lockout_ttl_seconds check_lockout status_of positive record_failure record_with lock_by
    lock_for is_shorter failed_login
fifth = refl

record_failure-locks_example :
    (check_lockout
      (some Redis.documented)
      800000
      11
      (record_failure (some Redis.documented) 1000 11 four_failures)).locked
    ≡ true
record_failure-locks_example =
    record_failure-locks Redis.documented Redis.documented-IsDocumented 1000 800000 11 900
      four_failures fifth (omega arith) (omega arith)

clear_attempts-Clears_example :
    ((check_lockout
        (some Redis.documented)
        10
        11
        (clear_attempts (some Redis.documented) 11 four_failures)).locked
      ≡ false)
    × (next_count 10 11 (clear_attempts (some Redis.documented) 11 four_failures) ≡ 1)
clear_attempts-Clears_example =
    clear_attempts-Clears Redis.documented Redis.documented-IsDocumented 10 11 four_failures

failed_logins-bound_example :
    get_or
      (value_of (
        entry
          (fail_key 11)
          (failed_logins (some Redis.documented) 11 (0 ∷ 1 ∷ 2 ∷ 3 ∷ 4 ∷ 5 ∷ 6 ∷ []) [])))
      0
    ≤ 5
failed_logins-bound_example =
    failed_logins-bound Redis.documented Redis.documented-IsDocumented 11
      (0 ∷ 1 ∷ 2 ∷ 3 ∷ 4 ∷ 5 ∷ 6 ∷ [])

abbrev redeemed : Result EmailToken
redeemed = consume documented world 71 TokenType.magic_link (state false)

redeemed-ok : redeemed ≡ ok (outcome_or email_token redeemed) (state_of redeemed)
unfolding consume
redeemed-ok = refl

consume-Redeems_example :
    Redeems documented world 71 TokenType.magic_link
      (state false)
      (outcome_or email_token redeemed)
      (state_of redeemed)
consume-Redeems_example =
    consume-Redeems documented documented-IsDocumented world 71 TokenType.magic_link (state false)
      (omega arith) redeemed-ok

abbrev replaced : Result ℕ
replaced = issue_token documented world 1 TokenType.magic_link 1 none (state false)

replaced-ok : replaced ≡ ok (outcome_or 0 replaced) (state_of replaced)
unfolding issue_token add_token
replaced-ok = refl

issue_token-single_example :
    count (is_outstanding 1 TokenType.magic_link none) (state_of replaced).db.email_tokens ≡ 1
issue_token-single_example =
    issue_token-single documented documented-IsDocumented world 1 TokenType.magic_link 1 none
      (state false) replaced-ok

abbrev signed_out : Result (Unit {0})
signed_out = revoke_all_for_identity documented world 1 (state false)

signed_out-ok : signed_out ≡ ok tt (state_of signed_out)
unfolding revoke_all_for_identity revoke_sessions settle_batch record_jtis block_all
signed_out-ok = refl

revoke_all_for_identity-AllRevoked_example :
    AllRevoked 1 (were_valid 1 (state false).db) (state_of signed_out).db
revoke_all_for_identity-AllRevoked_example =
    revoke_all_for_identity-AllRevoked documented documented-IsDocumented world 1 (state false) refl
      signed_out-ok
