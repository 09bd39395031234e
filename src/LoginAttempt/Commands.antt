-- ===== src/LoginAttempt/Commands.antt =====
-- The Redis client, a package that the source only calls: the commands it uses, and what their
-- documentation says of them. A command that rejects answers `none`.
use arc_id.Base.{
  ℕ, ◌+◌, ◌-◌, ◌*◌, ◌/◌, ◌≡◌, refl, sym, subst, Bool, true, false, Option, none, some, List, ◌∷◌,
  ltb, ◌==◌, find, get_or, if◌then◌else◌,
}
use arc_id.Db.Prisma.{discard}

pub data Key : Type 0 where
  fail_key lock_key jti_key : ℕ → Key

abbrev pub key_eq : Key → Key → Bool
key_eq (fail_key a) (fail_key b) = a == b
key_eq (lock_key a) (lock_key b) = a == b
key_eq (jti_key a) (jti_key b) = a == b
key_eq _ _ = false

pub record Entry : Type 0 where
  pub key : Key
  pub value : ℕ
  pub expires_at : Option ℕ

abbrev pub Store : Type 0
Store = List Entry

-- `ttl` answers `none` for the negative numbers of a missing key or one without an end.
pub record Redis : Type 0 where
  pub get : ℕ → Key → Store → Option (Option ℕ)
  pub ttl : ℕ → Key → Store → Option (Option ℕ)
  pub incr : ℕ → Key → Store → Option (Store × ℕ)
  pub expire : ℕ → Key → ℕ → Store → Option Store
  pub set_ex : ℕ → Key → ℕ → ℕ → Store → Option Store
  pub del : Key → Store → Option Store

abbrev pub is_live : ℕ → Option ℕ → Bool
is_live now none = true
is_live now (some t) = ltb now t

abbrev pub entry : Key → Store → Option Entry
entry k store = find (λ e. key_eq e.key k) store

abbrev pub alive : ℕ → Option Entry → Option Entry
alive now none = none
alive now (some e) = if is_live now e.expires_at then some e else none

abbrev pub lookup : ℕ → Key → Store → Option Entry
lookup now k store = alive now (entry k store)

abbrev pub put : Entry → Store → Store
put e store = e ∷ discard (λ x. key_eq x.key e.key) store

abbrev pub value_of : Option Entry → Option ℕ
value_of none = none
value_of (some e) = some e.value

-- The rest of a lifetime in whole seconds.
abbrev pub remaining : ℕ → Option Entry → Option ℕ
remaining now none = none
remaining now (some e) = elim e.expires_at [ none ↦ none | some t ↦ some ((t - now) / 1000) ]

abbrev pub end_of : Option Entry → Option ℕ
end_of none = none
end_of (some e) = e.expires_at

abbrev pub counted : Key → Option Entry → Entry
counted k old = record { key = k; value = get_or (value_of old) 0 + 1; expires_at = end_of old }

abbrev pub prolonged : ℕ → ℕ → Option Entry → Store → Store
prolonged now secs none store = store
prolonged now secs (some e) store = put (record e { expires_at = some (now + secs * 1000) }) store

abbrev pub documented : Redis
documented = record {
  get = λ now k store. some (value_of (lookup now k store));
  ttl = λ now k store. some (remaining now (lookup now k store));
  incr = λ now k store.
      some (put (counted k (lookup now k store)) store, (counted k (lookup now k store)).value);
  expire = λ now k secs store. some (prolonged now secs (lookup now k store) store);
  set_ex = λ now k v secs store.
      some (put (record { key = k; value = v; expires_at = some (now + secs * 1000) }) store);
  del = λ k store. some (discard (λ x. key_eq x.key k) store);
}

pub record IsDocumented (r : Redis) : Type 0 where
  pub get_lem : (now : ℕ) (k : Key) (store : Store) → r.get now k store ≡ documented.get now k store
  pub ttl_lem : (now : ℕ) (k : Key) (store : Store) → r.ttl now k store ≡ documented.ttl now k store
  pub incr_lem :
      (now : ℕ) (k : Key) (store : Store) → r.incr now k store ≡ documented.incr now k store
  pub expire_lem :
      (now : ℕ) (k : Key) (secs : ℕ) (store : Store)
      → r.expire now k secs store ≡ documented.expire now k secs store
  pub set_ex_lem :
      (now : ℕ) (k : Key) (v secs : ℕ) (store : Store)
      → r.set_ex now k v secs store ≡ documented.set_ex now k v secs store
  pub del_lem : (k : Key) (store : Store) → r.del k store ≡ documented.del k store

pub documented-IsDocumented : IsDocumented documented
documented-IsDocumented = record {
  get_lem = λ now k store. refl;
  ttl_lem = λ now k store. refl;
  incr_lem = λ now k store. refl;
  expire_lem = λ now k secs store. refl;
  set_ex_lem = λ now k v secs store. refl;
  del_lem = λ k store. refl;
}

pub by_documentation {ℓ} : (P : Redis → Type ℓ) {r : Redis} → IsDocumented r → P documented → P r
by_documentation P {r} d h = subst P (sym same) h
  where
    same : r ≡ documented
    same i = record {
      get = λ now k store. d.get_lem now k store i;
      ttl = λ now k store. d.ttl_lem now k store i;
      incr = λ now k store. d.incr_lem now k store i;
      expire = λ now k secs store. d.expire_lem now k secs store i;
      set_ex = λ now k v secs store. d.set_ex_lem now k v secs store i;
      del = λ k store. d.del_lem k store i;
    }
