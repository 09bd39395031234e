-- ===== src/Challenge/Pending.antt =====
-- What the store does: it keeps for each ceremony and identity at most one pending challenge, which
-- the last call set and the first redemption takes, within its lifetime; but it reads back nothing
-- from a client that deserialises.
use arc_id.Base.{
  ℕ, ◌≡◌, refl, Bool, true, false, Option, none, some, List, [], ◌∷◌, ltb, leb, find, if◌then◌else◌,
  arith, ==_self, ap,
}
use arc_id.Db.Prisma.{discard}
use arc_id.Challenge.{
  CeremonyType, StoredChallenge, ChallengeEntry, ChallengeKey, key_eq, ceremony_eq, Raw, json,
  RedisValue, MemValue, Challenges, ChallengeRedis, documented, IsDocumented, by_documentation,
  entry_of, stored_in, store_challenge, parsed, unexpired, taken, consume_challenge,
}

abbrev pub Pending : Type 0
Pending = ChallengeKey → Option ChallengeEntry

-- Where the challenges are: in memory, or in a Redis whose client does or does not deserialise.
pub data Backend : Type 0 where
  memory raw_redis automatic_redis : Backend

-- Redis ends a lifetime at its last millisecond, the memory behind it.
abbrev in_time : Backend → ℕ → ℕ → Bool
in_time Backend.memory now expires_at = leb now expires_at
in_time Backend.raw_redis now expires_at = ltb now expires_at
in_time Backend.automatic_redis now expires_at = false

abbrev redeemed : Backend → ℕ → Option ChallengeEntry → Option StoredChallenge
redeemed b now none = none
redeemed b now (some e) = if in_time b now e.expires_at then some e.stored else none

pub data Request : Type 0 where
  issue : ℕ → ChallengeKey → StoredChallenge → Request
  redeem : ℕ → ChallengeKey → Request

pub data Reply : Type 0 where
  issued : Option StoredChallenge → Reply
  answered : Option (Option StoredChallenge) → Reply

abbrev promised : Backend → Request → Pending → Reply × Pending
promised b (issue now k c) p =
    (issued (some c), λ l. if key_eq k l then some (entry_of now k c) else p l)
promised b (redeem now k) p =
    (answered (some (redeemed b now (p k))), λ l. if key_eq k l then none else p l)

abbrev pub promised_all : Backend → List Request → Pending → List Reply
promised_all b [] p = []
promised_all b (r ∷ rs) p = (promised b r p).0 ∷ promised_all b rs (promised b r p).1

abbrev served : Option ChallengeRedis → Request → Challenges → Reply × Challenges
served o (issue now k c) s = let (reply, left) = store_challenge o now k c s in (issued reply, left)
served o (redeem now k) s =
    let (reply, left) = consume_challenge o now k s in (answered reply, left)

abbrev pub served_all : Option ChallengeRedis → List Request → Challenges → List Reply
served_all o [] s = []
served_all o (r ∷ rs) s = (served o r s).0 ∷ served_all o rs (served o r s).1

-- What Redis holds under a key, and what it should.
abbrev held : Option RedisValue → Option (Raw × ℕ)
held none = none
held (some v) = some (v.raw, v.expires_at)

abbrev expected : Option ChallengeEntry → Option (Raw × ℕ)
expected none = none
expected (some e) = some (json e, e.expires_at)

abbrev entry_in : Option MemValue → Option ChallengeEntry
entry_in none = none
entry_in (some v) = some v.entry

abbrev Refines : Backend → Challenges → Pending → Type 0
Refines Backend.memory s p = (l : ChallengeKey) → entry_in (find (λ v. key_eq v.key l) s.mem) ≡ p l
Refines _ s p = (l : ChallengeKey) → held (find (λ v. key_eq v.key l) s.store) ≡ expected (p l)

ceremony_eq_trans :
    (a b c : CeremonyType) → ceremony_eq a b ≡ true → ceremony_eq a c ≡ ceremony_eq b c
ceremony_eq_trans a b c e = ground arith

ceremony_eq_self : (a : CeremonyType) → ceremony_eq a a ≡ true
ceremony_eq_self a = ground arith

key_eq_trans : (a b c : ChallengeKey) → key_eq a b ≡ true → key_eq a c ≡ key_eq b c
key_eq_trans a b c e = ground (arith, ceremony_eq_trans a.ceremony b.ceremony c.ceremony)

pub key_eq_self : (k : ChallengeKey) → key_eq k k ≡ true
key_eq_self k = ground (arith, ceremony_eq_self k.ceremony, ==_self k.identity_id)

-- A key that was removed is not found, and every other as before.
pub find-discard :
    {A : Type 0} (key : A → ChallengeKey) (k l : ChallengeKey) (xs : List A)
    → find (λ v. key_eq (key v) l) (discard (λ v. key_eq (key v) k) xs)
      ≡ (if key_eq k l then none else find (λ v. key_eq (key v) l) xs)
find-discard key k l [] = ground arith
find-discard key k l (x ∷ xs) = ground (arith, find-discard key k l xs, key_eq_trans (key x) k l)

-- One request answers alike and keeps the two in step.
Step : Backend → Option ChallengeRedis → Request → Challenges → Pending → Type 0
Step b o r s p =
    ((served o r s).0 ≡ (promised b r p).0) × Refines b (served o r s).1 (promised b r p).1

mem-Step :
    (r : Request) (s : Challenges) (p : Pending)
    → Refines Backend.memory s p
    → Step Backend.memory none r s p
unfolding Step store_challenge consume_challenge unexpired
mem-Step (issue now k c) s p h =
    (refl, λ l. ground (arith, h l, find-discard (λ (v : MemValue). v.key) k l s.mem))
mem-Step (redeem now k) s p h = (
  ground (arith, h k),
  λ l. ground (arith, h l, find-discard (λ (v : MemValue). v.key) k l s.mem),
)

-- By whether the client deserialises.
abbrev redis_backend : Bool → Backend
redis_backend true = Backend.automatic_redis
redis_backend false = Backend.raw_redis

raw-Step :
    (r : Request) (s : Challenges) (p : Pending)
    → Refines Backend.raw_redis s p
    → Step Backend.raw_redis (some (documented false)) r s p
unfolding Step store_challenge consume_challenge stored_in taken parsed
raw-Step (issue now k c) s p h =
    (refl, λ l. ground (arith, h l, find-discard (λ (v : RedisValue). v.key) k l s.store))
raw-Step (redeem now k) s p h = (
  ground (arith, h k),
  λ l. ground (arith, h l, find-discard (λ (v : RedisValue). v.key) k l s.store),
)

automatic-Step :
    (r : Request) (s : Challenges) (p : Pending)
    → Refines Backend.automatic_redis s p
    → Step Backend.automatic_redis (some (documented true)) r s p
unfolding Step store_challenge consume_challenge stored_in taken parsed
automatic-Step (issue now k c) s p h =
    (refl, λ l. ground (arith, h l, find-discard (λ (v : RedisValue). v.key) k l s.store))
automatic-Step (redeem now k) s p h = (
  ground (arith, h k),
  λ l. ground (arith, h l, find-discard (λ (v : RedisValue). v.key) k l s.store),
)

all_steps :
    (b : Backend) (o : Option ChallengeRedis)
    → ((r : Request) (s : Challenges) (p : Pending) → Refines b s p → Step b o r s p)
    → (rs : List Request) (s : Challenges) (p : Pending) → Refines b s p
    → served_all o rs s ≡ promised_all b rs p
unfolding Step
all_steps b o step [] s p h = refl
all_steps b o step (r ∷ rs) s p h =
    let (same, next) = step r s p h in
    rw (same) (
      ap (λ xs. (promised b r p).0 ∷ xs)
        (all_steps b o step rs (served o r s).1 (promised b r p).1 next))

abbrev pub no_challenges : Challenges
no_challenges = record { store = []; mem = [] }

-- A Redis that keeps to its documentation, or none.
abbrev pub IsUsable : Bool → Option ChallengeRedis → Type 0
IsUsable automatic none = Unit {0}
IsUsable automatic (some r) = IsDocumented automatic r

abbrev pub backend_of : Bool → Option ChallengeRedis → Backend
backend_of automatic none = Backend.memory
backend_of automatic (some r) = redis_backend automatic

redis-all :
    (automatic : Bool) (rs : List Request)
    → served_all (some (documented automatic)) rs no_challenges
      ≡ promised_all (redis_backend automatic) rs (λ k. none)
redis-all true rs = all_steps Backend.automatic_redis _ automatic-Step rs no_challenges _ λ l. refl
redis-all false rs = all_steps Backend.raw_redis _ raw-Step rs no_challenges _ λ l. refl

-- Every sequence of calls, from an empty store, is answered as by a map of pending challenges. In the
-- memory of the process, and in a Redis whose client is documented to answer the stored text, a
-- challenge is given once, to its own ceremony and identity, if it is the last one set and within its
-- lifetime. With a client that is documented to deserialise what it answers, which the store's is,
-- every challenge is stored and none is ever given back.
pub served_all-promised :
    (automatic : Bool) (o : Option ChallengeRedis)
    → IsUsable automatic o
    → (rs : List Request)
    → served_all o rs no_challenges ≡ promised_all (backend_of automatic o) rs (λ k. none)
served_all-promised automatic none d rs =
    all_steps Backend.memory none mem-Step rs no_challenges _ λ l. refl
served_all-promised automatic (some r) d rs =
    by_documentation
      (λ r.
        served_all (some r) rs no_challenges
        ≡ promised_all (redis_backend automatic) rs (λ k. none))
      d (redis-all automatic rs)
