-- ===== src/Challenge.antt =====
-- src/lib/challenge-store.ts: WebAuthn challenges, in Redis or in the memory of the process. The
-- Redis client, @upstash/redis, is a parameter, as in LoginAttempt. A value under a key is the entry's
-- JSON text, or is not readable. By its documentation the client reads the JSON of what a command
-- answers (`automaticDeserialization`) unless it is made with that switched off; the store makes it
-- without the option.
pub mod Pending
use arc_id.Base.{
  ℕ, ◌+◌, ◌*◌, ◌≡◌, refl, Bool, true, false, ◌&&◌, Option, none, some, List, [], ◌∷◌, ltb, ◌==◌,
  find, if◌then◌else◌, subst, sym,
}
use arc_id.Db.Prisma.{discard}

pub data CeremonyType : Type 0 where
  registration authentication : CeremonyType

pub record StoredChallenge : Type 0 where
  pub challenge_id : ℕ
  pub challenge : ℕ

pub record ChallengeEntry : Type 0 where
  pub stored : StoredChallenge
  pub expires_at : ℕ

-- `TTL_SEC`.
abbrev pub ttl_sec : CeremonyType → ℕ
ttl_sec CeremonyType.registration = 120
ttl_sec CeremonyType.authentication = 90

-- `challengeKey`: the ceremony and the identity.
pub record ChallengeKey : Type 0 where
  pub ceremony : CeremonyType
  pub identity_id : ℕ

abbrev pub ceremony_eq : CeremonyType → CeremonyType → Bool
ceremony_eq CeremonyType.registration CeremonyType.registration = true
ceremony_eq CeremonyType.authentication CeremonyType.authentication = true
ceremony_eq CeremonyType.registration CeremonyType.authentication = false
ceremony_eq CeremonyType.authentication CeremonyType.registration = false

abbrev pub key_eq : ChallengeKey → ChallengeKey → Bool
key_eq k l = ceremony_eq k.ceremony l.ceremony && k.identity_id == l.identity_id

pub data Raw : Type 0 where
  json : ChallengeEntry → Raw
  unreadable : Raw

pub record RedisValue : Type 0 where
  pub key : ChallengeKey
  pub raw : Raw
  pub expires_at : ℕ

pub record MemValue : Type 0 where
  pub key : ChallengeKey
  pub entry : ChallengeEntry

pub record Challenges : Type 0 where
  pub store : List RedisValue
  pub mem : List MemValue

-- What the client answers for a value: the text, or the object that its JSON stands for.
pub data Answer : Type 0 where
  text : Raw → Answer
  object : ChallengeEntry → Answer

-- The two commands, by the time. A command that rejects answers `none`.
pub record ChallengeRedis : Type 0 where
  pub set_ex : ℕ → ChallengeKey → Raw → ℕ → List RedisValue → Option (List RedisValue)
  pub getdel : ℕ → ChallengeKey → List RedisValue → Option (Option Answer × List RedisValue)

abbrev pub raw_if_live : ℕ → Option RedisValue → Option Raw
raw_if_live now none = none
raw_if_live now (some v) = if ltb now v.expires_at then some v.raw else none

abbrev pub deserialized : Bool → Option Raw → Option Answer
deserialized automatic none = none
deserialized true (some (json e)) = some (object e)
deserialized true (some unreadable) = some (text unreadable)
deserialized false (some raw) = some (text raw)

-- The client, with the deserialisation or without.
abbrev pub documented : Bool → ChallengeRedis
documented automatic = record {
  set_ex = λ now k raw secs store. some (
      record { key = k; raw = raw; expires_at = now + secs * 1000 }
      ∷ discard (λ v. key_eq v.key k) store);
  getdel = λ now k store. some (
    deserialized automatic (raw_if_live now (find (λ v. key_eq v.key k) store)),
    discard (λ v. key_eq v.key k) store,
  );
}

pub record IsDocumented (automatic : Bool) (r : ChallengeRedis) : Type 0 where
  pub set_ex_lem :
      (now : ℕ) (k : ChallengeKey) (raw : Raw) (secs : ℕ) (store : List RedisValue)
      → r.set_ex now k raw secs store ≡ (documented automatic).set_ex now k raw secs store
  pub getdel_lem :
      (now : ℕ) (k : ChallengeKey) (store : List RedisValue)
      → r.getdel now k store ≡ (documented automatic).getdel now k store

pub documented-IsDocumented : (automatic : Bool) → IsDocumented automatic (documented automatic)
documented-IsDocumented automatic = record {
  set_ex_lem = λ now k raw secs store. refl;
  getdel_lem = λ now k store. refl;
}

pub by_documentation {ℓ} :
    (P : ChallengeRedis → Type ℓ) {automatic : Bool} {r : ChallengeRedis}
    → IsDocumented automatic r
    → P (documented automatic)
    → P r
by_documentation P {automatic} {r} d h = subst P (sym same) h
  where
    same : r ≡ documented automatic
    same i = record {
      set_ex = λ now k raw secs store. d.set_ex_lem now k raw secs store i;
      getdel = λ now k store. d.getdel_lem now k store i;
    }

abbrev pub entry_of : ℕ → ChallengeKey → StoredChallenge → ChallengeEntry
entry_of now k c = record { stored = c; expires_at = now + ttl_sec k.ceremony * 1000 }

abbrev pub mem_set : ChallengeKey → ChallengeEntry → Challenges → Challenges
mem_set k e s = record s {
  mem = record { key = k; entry = e } ∷ discard (λ v. key_eq v.key k) s.mem;
}

-- What a call leaves: its answer, or `none` where the Redis client rejects, which nothing catches.
unfoldable pub stored_in :
    StoredChallenge → Option (List RedisValue) → Challenges → Option StoredChallenge × Challenges
stored_in c none s = (none, s)
stored_in c (some store) s = (some c, record s { store = store })

-- `storeChallenge`, with the random identifier in `c`.
unfoldable pub store_challenge :
    Option ChallengeRedis
    → ℕ
    → ChallengeKey
    → StoredChallenge
    → Challenges
    → Option StoredChallenge × Challenges
unfolding stored_in
store_challenge none now k c s = (some c, mem_set k (entry_of now k c) s)
store_challenge (some r) now k c s =
    stored_in c (r.set_ex now k (json (entry_of now k c)) (ttl_sec k.ceremony) s.store) s

-- `JSON.parse` and its catch. An object is made a text first, "[object Object]", which does not parse.
unfoldable pub parsed : Option Answer → Option StoredChallenge
parsed none = none
parsed (some (text (json e))) = some e.stored
parsed (some (text unreadable)) = none
parsed (some (object e)) = none

-- `!entry`, then `entry.expiresAt < Date.now()`.
unfoldable pub unexpired : ℕ → Option MemValue → Option StoredChallenge
unexpired now none = none
unexpired now (some v) = if ltb v.entry.expires_at now then none else some v.entry.stored

unfoldable pub taken :
    Option (Option Answer × List RedisValue)
    → Challenges
    → Option (Option StoredChallenge) × Challenges
unfolding parsed
taken none s = (none, s)
taken (some (raw, store)) s = (some (parsed raw), record s { store = store })

-- `consumeChallenge`.
unfoldable pub consume_challenge :
    Option ChallengeRedis
    → ℕ
    → ChallengeKey
    → Challenges
    → Option (Option StoredChallenge) × Challenges
unfolding unexpired taken
consume_challenge none now k s = (
  some (unexpired now (find (λ v. key_eq v.key k) s.mem)),
  record s { mem = discard (λ v. key_eq v.key k) s.mem },
)
consume_challenge (some r) now k s = taken (r.getdel now k s.store) s
