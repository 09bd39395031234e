-- ===== src/Tests/Workers.antt =====
-- Webhook claims, base58btc texts, status lists and blocked tokens.
use arc_id.Base.{
  ℕ, ◌+◌, ◌*◌, ◌^◌, ◌≡◌, true, refl, false, ◌&&◌, not, none, some, List, [], ◌∷◌, is_some, any, leb,
  if◌then◌else◌, arith,
}
use arc_id.Db.Prisma.{documented, documented-IsDocumented}
use arc_id.Webhook.{WebhookEvent, Worker, claim_batch, settled, is_due, is_final}
use arc_id.Webhook.Lease.{Disjoint, claim_batch-Disjoint, settled-is_due}
use arc_id.StatusList.{Zlib, encode_list, check_bits}
use arc_id.StatusList.Codec.{sets, encode_list-check_bits}
use arc_id.LoginAttempt.Commands as Redis
use arc_id.Blocklist.{block, is_jti_blocked}
use arc_id.Blocklist.Blocked.{block-Blocks}
use arc_id.Multibase.{base58btc_encode, leading_zeros}
use arc_id.Multibase.Value.{value58, value256, leading_ones}
use arc_id.Multibase.Reading.{base58btc_encode-reads}

-- A worker whose requests all fail, without jitter.
abbrev worker : ℕ → Worker
worker id = record { id = id; send = λ e. some 500; with_jitter = λ n. n }

abbrev event : ℕ → WebhookEvent
event id = record {
  id = id;
  created_at = id;
  attempts = 0;
  max_attempts = 5;
  next_retry_at = some 0;
  delivered_at = none;
  processing_by = none;
  processing_at = none;
  last_error = none;
}

abbrev events : List WebhookEvent
events = event 1 ∷ event 2 ∷ []

claim_batch-Disjoint_example :
    Disjoint
      (claim_batch documented (worker 1) 100000 (λ e. false) events).1
      (claim_batch documented
        (worker 2)
        150000
        (λ e. false)
        (claim_batch documented (worker 1) 100000 (λ e. false) events).0).1
claim_batch-Disjoint_example =
    claim_batch-Disjoint documented documented-IsDocumented (worker 1) (worker 2) 100000 150000
      (λ e. false) (λ e. false) events (omega arith)

settled-is_due_example : is_due 300000 (settled (worker 1) 100000 (event 1) (event 1)) ≡ (
    if is_some ((worker 1).send (event 1)) && not (is_final (event 1))
    then leb (100000 + (worker 1).with_jitter (4 ^ ((event 1).attempts + 1) * 30000)) 300000
    else false)
settled-is_due_example = settled-is_due (worker 1) 100000 300000 (event 1) refl

base58btc_encode-reads_example :
    (value58 0 (base58btc_encode (0 ∷ 237 ∷ 1 ∷ [])) ≡ value256 0 (0 ∷ 237 ∷ 1 ∷ []))
    × (leading_ones (base58btc_encode (0 ∷ 237 ∷ 1 ∷ [])) ≡ leading_zeros (0 ∷ 237 ∷ 1 ∷ []))
base58btc_encode-reads_example =
    base58btc_encode-reads (0 ∷ 237 ∷ 1 ∷ []) (omega arith, (omega arith, (omega arith, tt)))

-- A compression that changes nothing.
abbrev plain : Zlib
plain = record { deflate = λ x. x; inflate = λ x. x }

encode_list-check_bits_example :
    check_bits plain (encode_list plain (record { index = 9; value = 1 } ∷ []) 16) 9
    ≡ (if any (sets 9) (record { index = 9; value = 1 } ∷ []) then 1 else 0)
encode_list-check_bits_example =
    encode_list-check_bits plain (λ bytes. refl) (record { index = 9; value = 1 } ∷ []) 16 9
      (omega arith)

block-Blocks_example :
    (is_jti_blocked
      (some Redis.documented)
      9000
      4
      (block (some Redis.documented) 0 4 10 (record { store = []; mem = [] }))).0
    ≡ true
block-Blocks_example =
    block-Blocks (some Redis.documented) Redis.documented-IsDocumented 0 9000 4 10
      (record { store = []; mem = [] }) (omega arith) (omega arith)
