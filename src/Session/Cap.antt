-- ===== src/Session/Cap.antt =====
-- The cap on an identity's sessions: what eviction leaves.
use arc_id.Base.{
  ℕ, zero, suc, ◌+◌, ◌-◌, ◌≤◌, ◌≡◌, refl, Bool, true, false, ◌&&◌, some, List, [], ◌∷◌, ◌++◌, ltb,
  ◌==◌, any, count, select, modify, length, count-append, arith, ==_self, ap, subst, sym,
  Bool-cases, inl, inr,
}
use arc_id.Db.{Session}
use arc_id.Db.Prisma.{Prisma, IsDocumented, documented, by_documentation, sort, insert, take}
use arc_id.Flow.Monad.{State, ok}
use arc_id.Flow.World.{World}
use arc_id.Session.{
  CreateSessionInput, is_active, invalidate_found, evict, enforce_cap, new_session, create_with,
  create,
}

module _ {ℓ} {A : Type ℓ} where
  count-select : (p r : A → Bool) (xs : List A) → count r (select p xs) ≡ count (λ x. p x && r x) xs
  count-select p r [] = refl
  count-select p r (x ∷ xs) = ground (arith, count-select p r xs)

  count-insert :
      (key : A → ℕ) (r : A → Bool) (x : A) (xs : List A)
      → count r (insert key x xs) ≡ count r (x ∷ xs)
  count-insert key r x [] = refl
  count-insert key r x (y ∷ ys) = ground (arith, count-insert key r x ys)

  count-sort : (key : A → ℕ) (r : A → Bool) (xs : List A) → count r (sort key xs) ≡ count r xs
  count-sort key r [] = refl
  count-sort key r (x ∷ xs) = omega (arith, count-insert key r x (sort key xs), count-sort key r xs)

  count-take : (r : A → Bool) (n : ℕ) (xs : List A) → count r (take n xs) ≤ count r xs
  count-take r zero xs = omega arith
  count-take r (suc n) [] = omega arith
  count-take r (suc n) (x ∷ xs) = omega (arith, count-take r n xs)

  length-take : (n : ℕ) (xs : List A) → n ≤ length xs → length (take n xs) ≡ n
  length-take zero xs h = refl
  length-take (suc n) [] h = ground arith
  length-take (suc n) (x ∷ xs) h = omega (arith, length-take n xs (omega (arith, h)))

  -- The matching rows that a change does not reach are the ones left.
  count-modify :
      (p r : A → Bool) (f : A → A) (xs : List A)
      → ((x : A) → p (f x) ≡ false)
      → count p (modify r f xs) + count (λ x. p x && r x) xs ≡ count p xs
  count-modify p r f [] h = refl
  count-modify p r f (x ∷ xs) h = ground (arith, h x, count-modify p r f xs h)

  length-count : (xs : List A) → count (λ x. true) xs ≡ length xs
  length-count [] = refl
  length-count (x ∷ xs) = omega (arith, length-count xs)

abbrev by_id : List Session → Session → Bool
by_id xs s = any (λ x. x.id == s.id) xs

count-by_id :
    (xs ys : List Session)
    → ((s : Session) → by_id ys s ≡ true → by_id xs s ≡ true)
    → count (by_id xs) ys ≡ length ys
count-by_id xs [] h = refl
count-by_id xs (y ∷ ys) h =
    ground
      (arith, h y (ground (arith, ==_self y.id)), count-by_id xs ys (λ s k. h s (ground arith)))

count-by_id_self : (xs : List Session) → count (by_id xs) xs ≡ length xs
count-by_id_self xs = count-by_id xs xs (λ s h. h)

length-select : (p : Session → Bool) (xs : List Session) → length (select p xs) ≡ count p xs
length-select p [] = refl
length-select p (x ∷ xs) = ground (arith, length-select p xs)

module _ (now i : ℕ) (rows : List Session) where
  abbrev p : Session → Bool
  p = is_active now i

  abbrev ranked : List Session
  ranked = sort (λ x. x.created_at) (select p rows)

  length-ranked : length ranked ≡ count p rows
  length-ranked = omega (
    arith,
    length-count ranked,
    count-sort (λ x. x.created_at) (λ x. true) (select p rows),
    length-count (select p rows),
    length-select p rows,
  )

  -- Invalidating the first `n` in order of age takes `n` from the active ones.
  invalidate-count :
      (n : ℕ)
      → n ≤ count p rows
      → count p (modify (by_id (take n ranked)) (λ s. record s { valid = false }) rows) + n
        ≤ count p rows
  invalidate-count n h =
      let xs = take n ranked in
      omega (
        arith,
        h,
        count-modify p (by_id xs) (λ s. record s { valid = false }) rows (λ s. ground arith),
        count-select p (by_id xs) rows,
        count-sort (λ x. x.created_at) (by_id xs) (select p rows),
        count-take (by_id xs) n ranked,
        count-by_id_self xs,
        length-take n ranked (omega (arith, h, length-ranked)),
      )

  invalidate_found-modify :
      (xs : List Session)
      → invalidate_found documented xs rows
        ≡ modify (by_id xs) (λ s. record s { valid = false }) rows
  unfolding invalidate_found
  invalidate_found-modify [] = sym_nil rows
    where
      sym_nil : (ys : List Session) → ys ≡ modify (by_id []) (λ s. record s { valid = false }) ys
      sym_nil [] = refl
      sym_nil (y ∷ ys) = ap (λ zs. y ∷ zs) (sym_nil ys)
  invalidate_found-modify (x ∷ xs) = refl

  leave-count :
      (cap : ℕ)
      → 1 ≤ cap
      → cap ≤ count p rows
      → count p (
            modify
              (by_id (take (count p rows - cap + 1) ranked))
              (λ s. record s { valid = false })
              rows)
          + 1
        ≤ cap
  leave-count cap h k =
      omega (arith, h, k, invalidate-count (count p rows - cap + 1) (omega (arith, h, k)))

  evict-count : (cap : ℕ) → 1 ≤ cap → count p (evict documented now i cap rows) + 1 ≤ cap
  unfolding evict
  evict-count cap h = elim (Bool-cases (ltb (count p rows) cap)) [
    | inl e ↦ ground arith
    | inr e ↦
        rw (e, invalidate_found-modify (take (count p rows - cap + 1) ranked))
          (leave-count cap h (ground arith))
  ]

enforce_cap-count :
    (now i cap : ℕ) (rows : List Session)
    → 1 ≤ cap
    → count (is_active now i) (enforce_cap documented now i (some cap) rows) + 1 ≤ cap
unfolding enforce_cap
enforce_cap-count now i cap rows h = ground (arith, evict-count now i rows cap h)

-- What a creation under a cap leaves: the new session last, with the caller's lifetime and
-- level, behind the sessions that were kept, and no more active ones than the cap.
abbrev pub Capped : ℕ → World → CreateSessionInput → Session → State → Type 0
Capped cap w input row u =
    (kept : List Session) × (token : ℕ) × (row ≡ new_session w input token)
    × (u.db.sessions ≡ kept ++ row ∷ [])
    × (count (is_active w.now input.identity_id) u.db.sessions ≤ cap)

create_with-Capped :
    (w : World) (input : CreateSessionInput) (token cap : ℕ) (s : State) {row : Session} {u : State}
    → 1 ≤ cap
    → input.max_sessions_per_user ≡ some cap
    → create_with documented w input token s ≡ ok row u
    → Capped cap w input row u
unfolding create_with
create_with-Capped w input token cap s {row} {u} h m e =
    let kept =
      enforce_cap documented w.now input.identity_id input.max_sessions_per_user s.db.sessions in
    let few =
      subst
        (λ o.
          count (is_active w.now input.identity_id)
              (enforce_cap documented w.now input.identity_id o s.db.sessions)
            + 1
          ≤ cap)
        (sym m) (enforce_cap-count w.now input.identity_id cap s.db.sessions h) in
    (
      kept,
      token,
      ground arith,
      ground arith,
      ground (
        arith,
        few,
        count-append (is_active w.now input.identity_id) kept (new_session w input token ∷ []),
      ),
    )

-- With a cap of at least one session, a creation that succeeds leaves at most that many active
-- sessions of the identity, however many there were before; the new session is among them, behind
-- the kept ones, with the lifetime and level that the caller asked for.
pub create-Capped :
    (q : Prisma)
    → IsDocumented q
    → (w : World) (input : CreateSessionInput) (cap : ℕ) (s : State) {row : Session} {u : State}
    → 1 ≤ cap
    → input.max_sessions_per_user ≡ some cap
    → create q w input s ≡ ok row u
    → Capped cap w input row u
unfolding create
create-Capped q d w input cap s {row} {u} h m =
    by_documentation (λ p. create p w input s ≡ ok row u → Capped cap w input row u) d
      (λ e. create_with-Capped w input _ cap _ h m e)
