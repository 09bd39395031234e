-- ===== src/Webhook/Lease.antt =====
-- Leases keep claims apart, and a failure decides when its event is due again.
use arc_id.Base.{
  ℕ, suc, zero, ◌+◌, ◌*◌, ◌^◌, ◌≤◌, ◌≡◌, refl, Bool, true, false, ◌&&◌, ◌||◌, not, none, some, List,
  [], ◌∷◌, leb, ◌==◌, any, map, All, select, modify, is_some, if◌then◌else◌, arith, Bool-cases,
  Option-cases, inl, inr, ap, ◌∙◌,
}
use arc_id.Db.Prisma.{Prisma, IsDocumented, documented, by_documentation, sort, insert, take}
use arc_id.Webhook.{
  WebhookEvent, Worker, is_due, leased, claim_batch, settled, failed, is_final, retry_at, backoff,
  delivered,
}

module _ {ℓ κ} {A : Type ℓ} (P : A → Type κ) where
  All-insert : (key : A → ℕ) (x : A) (xs : List A) → P x → All P xs → All P (insert key x xs)
  All-insert key x [] p h = (p, tt)
  All-insert key x (y ∷ ys) p h = elim (Bool-cases (leb (key x) (key y))) [
    | inl e ↦ rw (e) (p, h)
    | inr e ↦ rw (e) (h.0, All-insert key x ys p h.1)
  ]

  All-sort : (key : A → ℕ) (xs : List A) → All P xs → All P (sort key xs)
  All-sort key [] h = tt
  All-sort key (x ∷ xs) h = All-insert key x (sort key xs) h.0 (All-sort key xs h.1)

  All-take : (n : ℕ) (xs : List A) → All P xs → All P (take n xs)
  All-take zero xs h = tt
  All-take (suc n) [] h = tt
  All-take (suc n) (x ∷ xs) h = (h.0, All-take n xs h.1)

abbrev claims : Worker → ℕ → (WebhookEvent → Bool) → List WebhookEvent → List WebhookEvent
claims w now locked rows =
    take 20 (sort (λ e. e.created_at) (select (λ e. is_due now e && not (locked e)) rows))

abbrev NotOf : List WebhookEvent → WebhookEvent → Type 0
NotOf chosen e = any (λ c. c.id == e.id) chosen ≡ false

leased-not_due :
    (w : Worker) (now t : ℕ) (e : WebhookEvent)
    → t ≤ now + 90000
    → is_due t (leased w now e) ≡ false
leased-not_due w now t e h = ground arith

All-select_cons :
    (P : WebhookEvent → Type 0) (p : WebhookEvent → Bool) (e : WebhookEvent)
    (es : List WebhookEvent)
    → (p e ≡ true → P e)
    → All P (select p es)
    → All P (select p (e ∷ es))
All-select_cons P p e es k h = elim (Bool-cases (p e)) [
  | inl x ↦ rw (x) (k x, h)
  | inr x ↦ rw (x) h
]

-- A row that is due while the leases of `chosen` last is none of them.
due-apart :
    (w : Worker) (now t : ℕ) (locked : WebhookEvent → Bool) (chosen rows : List WebhookEvent)
    → t ≤ now + 90000
    → All (NotOf chosen) (
        select
          (λ e. is_due t e && not (locked e))
          (modify (λ e. any (λ c. c.id == e.id) chosen) (leased w now) rows))
due-apart w now t locked chosen [] h = tt
due-apart w now t locked chosen (e ∷ es) h =
    let rest = due-apart w now t locked chosen es h in
    let others = modify (λ e. any (λ c. c.id == e.id) chosen) (leased w now) es in
    elim (Bool-cases (any (λ c. c.id == e.id) chosen)) [
      | inl k ↦ rw (k) (
          All-select_cons (NotOf chosen) (λ e. is_due t e && not (locked e)) (leased w now e) others
            (λ x. absurd (ground (arith, leased-not_due w now t e h))) rest)
      | inr k ↦ rw (k) (
          All-select_cons (NotOf chosen) (λ e. is_due t e && not (locked e)) e others (λ x. k) rest)
    ]

-- No identifier of the list is one of the chosen rows'.
abbrev pub Disjoint : List ℕ → List ℕ → Type 0
Disjoint earlier later = All (λ id. any (λ c. c == id) earlier ≡ false) later

any-map :
    (id : ℕ) (chosen : List WebhookEvent)
    → any (λ c. c == id) (map (λ e. e.id) chosen) ≡ any (λ c. c.id == id) chosen
any-map id [] = refl
any-map id (c ∷ cs) = ap (λ b. (c.id == id) || b) (any-map id cs)

ids-Disjoint :
    (chosen later : List WebhookEvent)
    → All (NotOf chosen) later
    → Disjoint (map (λ e. e.id) chosen) (map (λ e. e.id) later)
ids-Disjoint chosen [] h = tt
ids-Disjoint chosen (e ∷ es) h = (any-map e.id chosen ∙ h.0, ids-Disjoint chosen es h.1)

documented-Disjoint :
    (w v : Worker) (now t : ℕ) (locked held : WebhookEvent → Bool) (rows : List WebhookEvent)
    → t ≤ now + 90000
    → let first = claim_batch documented w now locked rows in
      Disjoint first.1 (claim_batch documented v t held first.0).1
unfolding claim_batch
documented-Disjoint w v now t locked held rows h =
    let chosen = claims w now locked rows in
    ids-Disjoint chosen _ (
      All-take (NotOf chosen) 20 _
        (All-sort (NotOf chosen) (λ e. e.created_at) _ (due-apart w now t held chosen rows h)))

-- A claim that follows another within the lease of 90 seconds, by whatever worker, takes no event
-- that the first one took.
pub claim_batch-Disjoint :
    (q : Prisma)
    → IsDocumented q
    → (w v : Worker) (now t : ℕ) (locked held : WebhookEvent → Bool) (rows : List WebhookEvent)
    → t ≤ now + 90000
    → let first = claim_batch q w now locked rows in
      Disjoint first.1 (claim_batch q v t held first.0).1
claim_batch-Disjoint q d w v now t locked held rows h =
    by_documentation
      (λ p.
        let first = claim_batch p w now locked rows in
        Disjoint first.1 (claim_batch p v t held first.0).1)
      d (documented-Disjoint w v now t locked held rows h)

settled-sent :
    (w : Worker) (now : ℕ) (e : WebhookEvent)
    → w.send e ≡ none
    → settled w now e e ≡ delivered now e
unfolding settled
settled-sent w now e k = ground arith

settled-failed :
    (w : Worker) (now error : ℕ) (e : WebhookEvent)
    → w.send e ≡ some error
    → settled w now e e ≡ failed w now e error e
unfolding settled
settled-failed w now error e k = rw (settled, k) refl

-- An event of a batch, not delivered before, is never due again once it is sent. After a failure
-- that uses up its attempts it is never due again either, and after an earlier one it is due exactly
-- from the end of the back-off, jittered from 4 ^ (attempts + 1) times thirty seconds.
pub settled-is_due :
    (w : Worker) (now t : ℕ) (e : WebhookEvent)
    → e.delivered_at ≡ none
    → is_due t (settled w now e e) ≡ (
        if is_some (w.send e) && not (is_final e)
        then leb (now + w.with_jitter (4 ^ (e.attempts + 1) * 30000)) t
        else false)
unfolding retry_at backoff
settled-is_due w now t e h = elim (Option-cases (w.send e)) [
  | inl k ↦ rw (settled-sent w now e k, k) refl
  | inr (error, k) ↦ elim (Bool-cases (is_final e)) [
    | inl f ↦ rw (settled-failed w now error e k, k, f) (ground arith)
    | inr f ↦ rw (settled-failed w now error e k, k, f) (ground arith)
  ]
]
