-- ===== src/Tests/Tokens.antt =====
-- Refresh tokens, authorization codes and lifetimes.
use arc_id.Base.{◌*◌, ◌≡◌, refl, true, false, none, some, [], ◌∷◌, arith}
use arc_id.Db.Prisma.{documented, documented-IsDocumented}
use arc_id.Flow.Executor.{run, with_tx, caught}
use arc_id.Flow.Monad.{Result, ok, state_of}
use arc_id.Samples.{world, ctx, state, outcome_or}
use arc_id.Token.Issue.{
  TokenBundle, identity_found, identity_for_id_token, id_draft, id_signed, prepare, write_id,
  commit, issue,
}
use arc_id.Token.Ttl.{
  parse_ttl_to_minutes, parse_ttl_to_days, parse_ttl-spelled, text, spelled, decimal,
}
use arc_id.Refresh.Rotate.{
  resolve_token, check_usable, check_status, scopes_for, scopes_now, swap_revoked, level_of,
  issue_child, rotate_for, rotate, rotate_checked, token_refresh,
}
use arc_id.Refresh.Rotate.Laws.{Rotated}
use arc_id.Refresh.Replay.{
  Refuses, Forgets, refresh_route, token_refresh-Refuses, refresh_route-Forgets,
  refresh_route-Rotated,
}
use arc_id.Exchange.{
  ExchangeInput, verify_pkce, redirect_allowed, secret_error, pkce_error, state_matches, throw_some,
  check_request, issue_for_code, find_code, client_of, exchange_with, exchange_found,
  token_exchange,
}
use arc_id.Exchange.Laws.{Exchanged, token_exchange-Exchanged}
use arc_id.System.Spent.{RefusedForever, refresh_route-at_most_once}
use arc_id.Exchange.Once.{Refused, token_exchange-once}

abbrev no_bundle : TokenBundle
no_bundle = record {
  access_token = 0;
  refresh_token = 0;
  id_token = none;
  expires_in = 0;
  auth_level = none;
}

abbrev refreshed : Result TokenBundle
refreshed = refresh_route documented world 7 ctx (state false)

refreshed-ok : refreshed ≡ ok (outcome_or no_bundle refreshed) (state_of refreshed)
unfolding run with_tx caught token_refresh resolve_token check_usable check_status scopes_for
    scopes_now swap_revoked level_of issue_child rotate_for rotate rotate_checked issue prepare
    commit write_id identity_found identity_for_id_token id_draft id_signed parse_ttl_to_minutes
    parse_ttl_to_days
refreshed-ok = refl

refresh_route-Rotated_example :
    Rotated world 7 (state false) (outcome_or no_bundle refreshed) (state_of refreshed)
refresh_route-Rotated_example =
    refresh_route-Rotated documented documented-IsDocumented world 7 ctx (state false) refreshed-ok

refresh_route-at_most_once_example : RefusedForever documented 7 (state_of refreshed)
refresh_route-at_most_once_example =
    refresh_route-at_most_once documented documented-IsDocumented world 7 ctx (state false)
      refreshed-ok

token_refresh-Refuses_example : Refuses documented world 7 ctx (state true)
token_refresh-Refuses_example =
    token_refresh-Refuses documented documented-IsDocumented world 7 ctx (state true) refl

refresh_route-Forgets_example : Forgets documented world 7 ctx (state true)
refresh_route-Forgets_example =
    refresh_route-Forgets documented documented-IsDocumented world 7 ctx (state true) refl

abbrev request : ExchangeInput
request = record {
  code = 41;
  redirect_uri = some 8;
  client_id = 50;
  client_secret = none;
  code_verifier = some 60;
  state = none;
}

abbrev exchanged : Result TokenBundle
exchanged = token_exchange documented world request ctx (state false)

exchanged-ok : exchanged ≡ ok (outcome_or no_bundle exchanged) (state_of exchanged)
unfolding token_exchange find_code client_of exchange_with exchange_found check_request verify_pkce
    redirect_allowed secret_error pkce_error state_matches throw_some issue_for_code level_of issue
    prepare commit write_id identity_found identity_for_id_token id_draft id_signed
    parse_ttl_to_minutes parse_ttl_to_days
exchanged-ok = refl

token_exchange-Exchanged_example :
    Exchanged documented world request ctx
      (state false)
      (outcome_or no_bundle exchanged)
      (state_of exchanged)
token_exchange-Exchanged_example =
    token_exchange-Exchanged documented documented-IsDocumented world request ctx (state false)
      exchanged-ok

token_exchange-once_example : Refused documented 41 (state_of exchanged)
token_exchange-once_example =
    token_exchange-once documented documented-IsDocumented world request ctx (state false)
      (omega arith) exchanged-ok

-- "90m", "90h" and "90d".
parse_ttl-spelled_example :
    (parse_ttl_to_minutes (text (spelled (9 ∷ 0 ∷ []) b'm')) ≡ decimal 9 (0 ∷ []))
    × (parse_ttl_to_minutes (text (spelled (9 ∷ 0 ∷ []) b'h')) ≡ decimal 9 (0 ∷ []) * 60)
    × (parse_ttl_to_minutes (text (spelled (9 ∷ 0 ∷ []) b'd')) ≡ decimal 9 (0 ∷ []) * 1440)
    × (parse_ttl_to_days (text (spelled (9 ∷ 0 ∷ []) b'd')) ≡ decimal 9 (0 ∷ []))
parse_ttl-spelled_example = parse_ttl-spelled 9 (0 ∷ []) (omega arith) (omega arith, tt)
