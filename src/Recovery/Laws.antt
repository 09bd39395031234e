-- ===== src/Recovery/Laws.antt =====
-- Which recovery codes are accepted, and how often.
use arc_id.Base.{
  ℕ, zero, suc, ◌+◌, ◌≤◌, ◌≡◌, refl, true, false, Option, none, some, List, [], ◌∷◌, ◌++◌, ◌==◌,
  find, all, any, All, All-imp, modify, count, is_some, arith, Option-cases, Bool-cases, inl, inr,
  ==_self, ◌∙◌, ap,
}
use arc_id.Db.{RecoveryCode}
use arc_id.Db.Prisma.{Prisma, IsDocumented, documented, by_documentation}
use arc_id.Flow.Monad.{State}
use arc_id.Flow.World.{World}
use arc_id.Recovery.{
  is_unused, used_now, Texts, recovery_code, new_codes, new_rows, generate_recovery_codes, is_match,
  use_code, normal, consume_recovery_code,
}
use arc_id.Recovery.Text.{
  is_base64url, to_upper_case, to_upper_case-capital, take-capital, normal-same,
}

use_code-is_some :
    (w : World) (o : Option RecoveryCode) (s : State) → (use_code documented w o s).0 ≡ is_some o
unfolding use_code
use_code-is_some w none s = refl
use_code-is_some w (some c) s = refl

-- Of the rows that were marked used none matches.
find-kept :
    (w : World) (n h : ℕ) (cs ys : List RecoveryCode)
    → find (is_match n h) (modify (is_unused n) (used_now w) cs ++ ys) ≡ find (is_match n h) ys
find-kept w n h [] ys = refl
find-kept w n h (c ∷ cs) ys = ground (arith, find-kept w n h cs ys)

find-new :
    (x : Texts) (w : World) (n h k drawn : ℕ)
    → is_some (find (is_match n h) (new_rows x w n k drawn))
      ≡ any (λ c. x.sha256 c == h) (new_codes x w k drawn)
find-new x w n h zero drawn = refl
find-new x w n h (suc k) drawn = ground (arith, find-new x w n h k (drawn + 2), ==_self n)

generated :
    (x : Texts) (w v : World) (n k : ℕ) (code : List ℕ) (s : State)
    → (consume_recovery_code documented x v n code
        (generate_recovery_codes documented x w n k s).1).0
      ≡ any
          (λ c. x.sha256 c == x.sha256 (normal x code))
          (generate_recovery_codes documented x w n k s).0
unfolding consume_recovery_code generate_recovery_codes
generated x w v n k code s =
    use_code-is_some v _ _
    ∙ ap is_some (find-kept w n (x.sha256 (normal x code)) s.db.recovery_codes _)
    ∙ find-new x w n (x.sha256 (normal x code)) k s.drawn

-- A new code is its own normal form.
new_codes-normal :
    (x : Texts) (w : World) (k drawn : ℕ)
    → ((i : ℕ) → all is_base64url (w.random_text i) ≡ true)
    → All (λ c. normal x c ≡ c) (new_codes x w k drawn)
new_codes-normal x w zero drawn h = tt
new_codes-normal x w (suc k) drawn h = (
  normal-same x.upper_other (recovery_code x w drawn) (
      take-capital 32 (to_upper_case x.upper_other (w.random_text drawn))
        (to_upper_case-capital x.upper_other (w.random_text drawn) (h drawn))),
  new_codes-normal x w k (drawn + 2) h,
)

-- A list whose codes are in normal form has the hash of each of them.
each_hashed :
    (x : Texts) (cs : List (List ℕ))
    → All (λ c. normal x c ≡ c) cs
    → All (λ c. any (λ d. x.sha256 d == x.sha256 (normal x c)) cs ≡ true) cs
each_hashed x [] h = tt
each_hashed x (c ∷ cs) h = (
  rw (h.0) (ground (arith, ==_self (x.sha256 c))),
  All-imp cs (λ d k. ground (arith, k)) (each_hashed x cs h.1),
)

each_accepted :
    (x : Texts) (w v : World) (n k : ℕ) (s : State)
    → ((i : ℕ) → all is_base64url (w.random_text i) ≡ true)
    → All
        (λ c.
          (consume_recovery_code documented x v n c
            (generate_recovery_codes documented x w n k s).1).0
          ≡ true)
        (generate_recovery_codes documented x w n k s).0
unfolding generate_recovery_codes
each_accepted x w v n k s h =
    All-imp (new_codes x w k s.drawn) (λ c m. generated x w v n k c s ∙ m)
      (each_hashed x _ (new_codes-normal x w k s.drawn h))

none_matches :
    (n h : ℕ) (cs : List RecoveryCode) → count (is_match n h) cs ≡ 0 → find (is_match n h) cs ≡ none
none_matches n h [] e = refl
none_matches n h (c ∷ cs) e = ground (arith, none_matches n h cs)

unmatched :
    (n h : ℕ) (cs : List RecoveryCode) → find (is_match n h) cs ≡ none → count (is_match n h) cs ≡ 0
unmatched n h [] e = refl
unmatched n h (c ∷ cs) e = ground (arith, unmatched n h cs)

marked :
    (w : World) (n h id : ℕ) (cs : List RecoveryCode)
    → count (is_match n h) cs ≡ 0
    → count (is_match n h) (modify (λ x. x.id == id) (used_now w) cs) ≡ 0
marked w n h id [] e = refl
marked w n h id (c ∷ cs) e = ground (arith, marked w n h id cs)

one_marked :
    (w : World) (n h : ℕ) (cs : List RecoveryCode) (c : RecoveryCode)
    → count (is_match n h) cs ≤ 1
    → find (is_match n h) cs ≡ some c
    → count (is_match n h) (modify (λ x. x.id == c.id) (used_now w) cs) ≡ 0
one_marked w n h [] c e f = refl
one_marked w n h (x ∷ xs) c e f = elim (Bool-cases (is_match n h x)) [
  | inl k ↦ ground (arith, marked w n h c.id xs, ==_self c.id)
  | inr k ↦ ground (arith, one_marked w n h xs c)
]

consume-rows :
    (x : Texts) (w : World) (n h m : ℕ) (code : List ℕ) (s : State)
    → count (is_match n h) s.db.recovery_codes ≡ 0
    → count (is_match n h) (consume_recovery_code documented x w m code s).1.db.recovery_codes ≡ 0
unfolding consume_recovery_code use_code
consume-rows x w n h m code s e =
    elim (Option-cases (find (is_match m (x.sha256 (normal x code))) s.db.recovery_codes)) [
      | inl k ↦ rw (k) e
      | inr (c, k) ↦ rw (k) (marked w n h c.id s.db.recovery_codes e)
    ]

-- The presentation of a code, at some time and for some identity.
pub record Presented : Type 0 where
  pub world : World
  pub identity_id : ℕ
  pub code : List ℕ

abbrev pub present_all : Prisma → Texts → List Presented → State → State
present_all q x [] s = s
present_all q x (p ∷ ps) s =
    present_all q x ps (consume_recovery_code q x p.world p.identity_id p.code s).1

present_all-rows :
    (x : Texts) (n h : ℕ) (ps : List Presented) (s : State)
    → count (is_match n h) s.db.recovery_codes ≡ 0
    → count (is_match n h) (present_all documented x ps s).db.recovery_codes ≡ 0
present_all-rows x n h [] s e = e
present_all-rows x n h (p ∷ ps) s e =
    present_all-rows x n h ps (consume_recovery_code documented x p.world p.identity_id p.code s).1
      (consume-rows x p.world n h p.identity_id p.code s e)

consumed-rows :
    (x : Texts) (w : World) (n : ℕ) (code : List ℕ) (s : State)
    → count (is_match n (x.sha256 (normal x code))) s.db.recovery_codes ≤ 1
    → count
        (is_match n (x.sha256 (normal x code)))
        (consume_recovery_code documented x w n code s).1.db.recovery_codes
      ≡ 0
unfolding consume_recovery_code use_code
consumed-rows x w n code s h =
    let hash : ℕ = x.sha256 (normal x code) in
    elim (Option-cases (find (is_match n hash) s.db.recovery_codes)) [
      | inl k ↦ rw (k) (unmatched n hash s.db.recovery_codes k)
      | inr (c, k) ↦ rw (k) (one_marked w n hash s.db.recovery_codes c h k)
    ]

refused :
    (x : Texts) (w : World) (n : ℕ) (code : List ℕ) (s : State)
    → count (is_match n (x.sha256 (normal x code))) s.db.recovery_codes ≡ 0
    → (consume_recovery_code documented x w n code s).0 ≡ false
unfolding consume_recovery_code use_code
refused x w n code s e = rw (none_matches n (x.sha256 (normal x code)) s.db.recovery_codes e) refl

consumed :
    (x : Texts) (w later : World) (n : ℕ) (code : List ℕ) (ps : List Presented) (s : State)
    → count (is_match n (x.sha256 (normal x code))) s.db.recovery_codes ≤ 1
    → (consume_recovery_code documented x later n code
        (present_all documented x ps (consume_recovery_code documented x w n code s).1)).0
      ≡ false
consumed x w later n code ps s h =
    refused x later n code _ (present_all-rows x n _ ps _ (consumed-rows x w n code s h))

-- After new recovery codes were made for an identity, each of them is accepted as it was answered,
-- where the random texts are base64url; and a code is accepted exactly if, trimmed and in capitals,
-- it hashes as one of them, so every older code is refused. And where no two unused rows of the
-- identity hold its hash, a code that was presented, accepted or not, is refused from then on,
-- whatever codes are presented in between, for whatever identities.
pub generate_recovery_codes-consume :
    (q : Prisma)
    → IsDocumented q
    → (x : Texts) (w v later : World) (n k : ℕ) (code : List ℕ) (ps : List Presented) (s t : State)
    → ((i : ℕ) → all is_base64url (w.random_text i) ≡ true)
    → count (is_match n (x.sha256 (normal x code))) t.db.recovery_codes ≤ 1
    → All
        (λ c. (consume_recovery_code q x v n c (generate_recovery_codes q x w n k s).1).0 ≡ true)
        (generate_recovery_codes q x w n k s).0
      × ((consume_recovery_code q x v n code (generate_recovery_codes q x w n k s).1).0
          ≡ any
              (λ c. x.sha256 c == x.sha256 (normal x code))
              (generate_recovery_codes q x w n k s).0)
      × ((consume_recovery_code q x later n code
            (present_all q x ps (consume_recovery_code q x v n code t).1)).0
          ≡ false)
generate_recovery_codes-consume q d x w v later n k code ps s t random h =
    by_documentation
      (λ q.
        All
          (λ c. (consume_recovery_code q x v n c (generate_recovery_codes q x w n k s).1).0 ≡ true)
          (generate_recovery_codes q x w n k s).0
        × ((consume_recovery_code q x v n code (generate_recovery_codes q x w n k s).1).0
            ≡ any (λ c. x.sha256 c == x.sha256 (normal x code))
                (generate_recovery_codes q x w n k s).0)
        × ((consume_recovery_code q x later n code
              (present_all q x ps (consume_recovery_code q x v n code t).1)).0
            ≡ false))
      d
      (
        each_accepted x w v n k s random,
        generated x w v n k code s,
        consumed x v later n code ps t h,
      )
