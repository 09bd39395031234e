-- ===== src/Webhook.antt =====
-- src/jobs/webhook-worker.ts: claims, deliveries and retries over the rows of WebhookEvent. Sending
-- (signature, request and its guard against private addresses) and the jitter's random factor are
-- parameters.
pub mod Lease
use arc_id.Base.{
  ℕ, ◌+◌, ◌-◌, ◌*◌, ◌^◌, ◌≡◌, Bool, true, false, ◌&&◌, ◌||◌, not, Option, none, some, List, [], ◌∷◌,
  ltb, leb, ◌==◌, opt_eq, any, map, length, min, is_some, if◌then◌else◌,
}
use arc_id.Db.Prisma.{Prisma}

pub record WebhookEvent : Type 0 where
  pub id : ℕ
  pub created_at : ℕ
  pub attempts : ℕ
  pub max_attempts : ℕ
  pub next_retry_at : Option ℕ
  pub delivered_at : Option ℕ
  pub processing_by : Option ℕ
  pub processing_at : Option ℕ
  pub last_error : Option ℕ

-- `WORKER_ID`, the request with its outcome (an error's message), and `withJitter`.
pub record Worker : Type 0 where
  pub id : ℕ
  pub send : WebhookEvent → Option ℕ
  pub with_jitter : ℕ → ℕ

abbrev pub batch : ℕ
batch = 20

abbrev pub lease_ttl_ms : ℕ
lease_ttl_ms = 90000

abbrev pub base_poll_ms : ℕ
base_poll_ms = 5000

abbrev pub max_idle_poll_ms : ℕ
max_idle_poll_ms = 30000

-- SQL's comparisons, which NULL never satisfies.
abbrev pub at_most : Option ℕ → ℕ → Bool
at_most none t = false
at_most (some a) t = leb a t

abbrev pub before : Option ℕ → ℕ → Bool
before none t = false
before (some a) t = ltb a t

-- The inner SELECT's WHERE.
abbrev pub is_due : ℕ → WebhookEvent → Bool
is_due now e =
    not (is_some e.delivered_at)
    && ltb e.attempts e.max_attempts
    && at_most e.next_retry_at now
    && (not (is_some e.processing_by) || before e.processing_at (now - lease_ttl_ms))

abbrev pub leased : Worker → ℕ → WebhookEvent → WebhookEvent
leased w now e = record e { processing_by = some w.id; processing_at = some now }

-- `claimBatch`: the oldest due rows that no other transaction holds (SKIP LOCKED), with the lease
-- written in the same statement.
unfoldable pub claim_batch :
    Prisma → Worker → ℕ → (WebhookEvent → Bool) → List WebhookEvent → List WebhookEvent × List ℕ
claim_batch q w now locked rows =
    let chosen =
      q.find_oldest WebhookEvent (λ e. e.created_at) (λ e. is_due now e && not (locked e)) batch
        rows in
    (
      (q.update_many WebhookEvent (λ e. any (λ c. c.id == e.id) chosen) (leased w now) rows).0,
      map (λ c. c.id) chosen,
    )

abbrev pub released : WebhookEvent → WebhookEvent
released e = record e { processing_by = none; processing_at = none }

abbrev pub delivered : ℕ → WebhookEvent → WebhookEvent
delivered now e = record (released e) { delivered_at = some now; last_error = none }

abbrev pub is_final : WebhookEvent → Bool
is_final event = leb event.max_attempts (event.attempts + 1)

-- `Math.pow(4, nextAttempt) * 30_000`.
unfoldable pub backoff : ℕ → ℕ
backoff next_attempt = 4 ^ next_attempt * 30000

-- What a failure writes, by the event as it was fetched.
unfoldable pub retry_at : Worker → ℕ → WebhookEvent → Option ℕ
unfolding backoff
retry_at w now event =
    if is_final event then none else some (now + w.with_jitter (backoff (event.attempts + 1)))

abbrev pub failed : Worker → ℕ → WebhookEvent → ℕ → WebhookEvent → WebhookEvent
failed w now event error e = record (released e) {
  attempts = event.attempts + 1;
  last_error = some error;
  next_retry_at = retry_at w now event;
}

-- One event of the batch: `deliver`, and `releaseLease` by its outcome.
unfoldable pub settled : Worker → ℕ → WebhookEvent → WebhookEvent → WebhookEvent
settled w now event e = elim (w.send event) [
  | none ↦ delivered now e
  | some error ↦ failed w now event error e
]

unfoldable pub deliver_each :
    Prisma → Worker → ℕ → List WebhookEvent → List WebhookEvent → List WebhookEvent
unfolding settled
deliver_each q w now [] rows = rows
deliver_each q w now (event ∷ events) rows =
    deliver_each q w now events
      (q.update_many WebhookEvent (λ e. e.id == event.id) (settled w now event) rows).0

-- `deliverBatch`, with how many events it processed. The events are of different rows, so their
-- order, which `Promise.allSettled` leaves open, is that of the list.
unfoldable pub deliver_batch :
    Prisma → Worker → ℕ → (WebhookEvent → Bool) → List WebhookEvent → List WebhookEvent × ℕ
unfolding claim_batch deliver_each
deliver_batch q w now locked rows =
    let (claimed, ids) = claim_batch q w now locked rows in
    let events =
      q.find_many WebhookEvent
        (λ e. any (λ id. id == e.id) ids && opt_eq e.processing_by (some w.id)) claimed in
    elim ids [ [] ↦ (rows, 0) | _ ∷ _ ↦ (deliver_each q w now events claimed, length events) ]

-- The poll loop's delay after a batch.
unfoldable pub next_delay : ℕ → ℕ → ℕ
next_delay current processed =
    if ltb 0 processed then base_poll_ms else min (current + 5000) max_idle_poll_ms
