-- ===== src/Tests/Services.antt =====
-- Outbound calls, password rules, recovery codes, the clean-up and memberships.
use arc_id.Base.{
  ℕ, zero, suc, ◌*◌, ◌%◌, List, all, All, ◌+◌, ◌-◌, ◌≤◌, ◌≡◌, ◌↔◌, refl, true, false, none, some,
  [], ◌∷◌, any, count, ◌==◌, arith,
}
use arc_id.Db.{UserStatus, PasswordRules, TenantPolicy, Role, free, Membership}
use arc_id.Db.Prisma.{documented, documented-IsDocumented}
use arc_id.Flow.Executor.{with_tx}
use arc_id.Flow.Monad.{State, Result, ok, state_of}
use arc_id.Flow.World.{World}
use arc_id.UrlSafety.{Web, https, is_private_ipv4, fetch_with_ssrf_guard}
use arc_id.UrlSafety.Fetched.{Guarded, fetch_with_ssrf_guard-Guarded}
use arc_id.UrlSafety.Ranges.{address, in_block, is_private_ipv4-in_block}
use arc_id.PasswordRules.{
  enforce_system_password_rules, Satisfies, system_rules, enforce_system_password_rules-Satisfies,
}
use arc_id.Recovery.{
  Texts, is_match, generate_recovery_codes, normal, use_code, consume_recovery_code,
}
use arc_id.Recovery.Laws.{Presented, present_all, generate_recovery_codes-consume}
use arc_id.Recovery.Text.{is_base64url, to_upper_case, trim, trim_start, trim_end}
use arc_id.Cleanup.{Attempts, run_token_cleanup}
use arc_id.Cleanup.Kept.{Kept, run_token_cleanup-Kept}
use arc_id.TenantIsolation.{isolation_error, extract_tenant_id}
use arc_id.Membership.{over_cap, checked, add_row, add_with_role, add_found, add}
use arc_id.Membership.Capped.{Added, add-Added}
use arc_id.Membership.Calls.{
  Call, add_member, remove_member, served_all, Appended, served_all-Appended,
}
use arc_id.Samples.{world, state, outcome_or}

-- "a.b", which resolves to 8.8.8.8 and redirects once.
abbrev web : ℕ → Web
web n = record {
  parse = λ url. some (record { protocol = https; hostname = b'a' ∷ b'.' ∷ b'b' ∷ [] });
  resolve4 = λ host. (b'8' ∷ b'.' ∷ b'8' ∷ b'.' ∷ b'8' ∷ b'.' ∷ b'8' ∷ []) ∷ [];
  resolve6 = λ host. [];
  fetch = λ url. some (record { status = 302 - n; location = some 5 });
  redirected = λ url location. some location;
}

fetch_with_ssrf_guard-Guarded_example : Guarded web 6 (fetch_with_ssrf_guard web 5 4)
fetch_with_ssrf_guard-Guarded_example = fetch_with_ssrf_guard-Guarded web 5 4

-- 172.31.x.
is_private_ipv4-in_block_example : is_private_ipv4 (address 172 31 (b'x' ∷ [])) ≡ in_block 172 31
is_private_ipv4-in_block_example =
    is_private_ipv4-in_block 172 31 (b'x' ∷ []) (omega arith) (omega arith)

abbrev rules : PasswordRules
rules = record {
  min_length = some 4;
  require_uppercase = true;
  require_lowercase = false;
  require_number = true;
  require_symbol = false;
}

abbrev policy : TenantPolicy
policy = record {
  password_rules = some (some rules);
  tenant_id = 1;
  require_mfa = false;
  session_ttl_minutes = 60;
  max_sessions_per_user = 5;
  allow_passkeys = true;
}

abbrev ruled : State
ruled = record (state false) { db = record (state false).db { policies = policy ∷ [] } }

-- "Abc1".
enforce_system_password_rules-Satisfies_example :
    (enforce_system_password_rules documented world (b'A' ∷ b'b' ∷ b'c' ∷ b'1' ∷ []) ruled
      ≡ ok tt ruled)
    ↔ Satisfies (system_rules documented world ruled.db) (b'A' ∷ b'b' ∷ b'c' ∷ b'1' ∷ [])
enforce_system_password_rules-Satisfies_example =
    enforce_system_password_rules-Satisfies documented documented-IsDocumented world
      (b'A' ∷ b'b' ∷ b'c' ∷ b'1' ∷ []) ruled

abbrev digest : List ℕ → ℕ
digest [] = 0
digest (c ∷ cs) = c + 256 * digest cs

abbrev texts : Texts
texts = record { sha256 = digest; upper_other = λ c. c ∷ [] }

-- A letter and a digit.
abbrev lettered : World
lettered = record world { random_text = λ n. b'a' ∷ (n % 10 + 48) ∷ [] }

lettered-base64url : (n : ℕ) → all is_base64url (lettered.random_text n) ≡ true
lettered-base64url n = ground arith

abbrev made : List (List ℕ) × State
made = generate_recovery_codes documented texts lettered 1 3 (state false)

-- " a2", which in its normal form is the second of the codes.
abbrev given : List ℕ
given = b' ' ∷ b'a' ∷ b'2' ∷ []

abbrev others : List Presented
others = record { world = world; identity_id = 1; code = b'A' ∷ b'0' ∷ [] } ∷ []

one_match : count (is_match 1 (digest (normal texts given))) made.1.db.recovery_codes ≤ 1
unfolding generate_recovery_codes to_upper_case trim trim_start trim_end
one_match = omega arith

generate_recovery_codes-consume_example :
    All (λ c. (consume_recovery_code documented texts world 1 c made.1).0 ≡ true) made.0
    × ((consume_recovery_code documented texts world 1 given made.1).0
        ≡ any (λ c. digest c == digest (normal texts given)) made.0)
    × ((consume_recovery_code documented texts world 1 given (
          present_all documented texts others
            (consume_recovery_code documented texts world 1 given made.1).1)).0
        ≡ false)
generate_recovery_codes-consume_example =
    generate_recovery_codes-consume documented documented-IsDocumented texts lettered world world 1
      3 given others (state false) made.1 lettered-base64url one_match

given-consumed : (consume_recovery_code documented texts world 1 given made.1).0 ≡ true
unfolding generate_recovery_codes consume_recovery_code use_code to_upper_case trim trim_start
    trim_end
given-consumed = refl

-- The first attempt finds no connection.
abbrev attempts : Attempts
attempts = record {
  start = λ n. elim n [ zero ↦ some "P2028" | suc m ↦ none ];
  acquired = λ n. true;
}

run_token_cleanup-Kept_example :
    Kept world
      (state false).db
      (state_of (run_token_cleanup documented world attempts (state false))).db
run_token_cleanup-Kept_example =
    run_token_cleanup-Kept documented documented-IsDocumented world attempts (state false)

abbrev member : Role
member = record { id = 98; tenant_id = 2; name = "member"; actions = [] }

abbrev tenanted : State
tenanted = record (state false) { db = record (state false).db { roles = member ∷ [] } }

abbrev added : Result Membership
added = add documented world 2 1 "member" free tenanted

abbrev no_member : Membership
no_member = record {
  id = 0;
  identity_id = 0;
  tenant_id = 0;
  role_id = 0;
  status = UserStatus.pending;
}

added-ok : added ≡ ok (outcome_or no_member added) (state_of added)
unfolding add with_tx add_found over_cap add_with_role add_row checked isolation_error
    extract_tenant_id
added-ok = refl

add-Added_example :
    Added 2 1 "member" free tenanted.db (outcome_or no_member added) (state_of added).db
add-Added_example =
    add-Added documented documented-IsDocumented world 2 1 "member" free tenanted added-ok

abbrev calls : List Call
calls = add_member world 2 1 "member" free ∷ remove_member 2 1 ∷ []

served_all-Appended_example : Appended tenanted.db (served_all documented calls tenanted).db
served_all-Appended_example = served_all-Appended documented documented-IsDocumented calls tenanted
