-- ===== src/StepUp/Laws.antt =====
-- What a step-up leads to.
use arc_id.Base.{
  ℕ, ◌+◌, ◌≤◌, ◌<◌, ◌≡◌, refl, true, false, Option, none, some, List, [], ◌∷◌, ◌==◌, find, modify,
  count, arith, Bool-cases, inl, inr, subst, sym, ◌∙◌, find_sound, ltb,
}
use arc_id.Db.{aal2, Session}
use arc_id.Db.Prisma.{Prisma, IsDocumented, documented, documented-IsDocumented, by_documentation}
use arc_id.Challenge.{Challenges, ChallengeRedis}
use arc_id.Flow.Monad.{State, ok, ◌>>◌, start, pure, audit, >>=-eq-ok}
use arc_id.Flow.World.{World}
use arc_id.Guard.{Payload, Jwt, Server}
use arc_id.Guard.Checks.{require_elevated}
use arc_id.Guard.Refused.{admits, Bears}
use arc_id.Guard.Levels.{Unlisted, require_elevated-MayElevate}
use arc_id.Passkey.{WebAuthn}
use arc_id.StepUp.{
  StepUpInput, verify_credential, may_be_elevated, elevate_live, step_up, step_up_found,
  step_up_route,
}
use arc_id.StepUp.Kept.{sessions_after, verify_credential-sessions}

abbrev elevated_row : World → Session → Session
elevated_row w x = record x { auth_level = some aal2; elevated_at = some w.now }

none_named :
    (w : World) (i : StepUpInput) (xs : List Session) (x : Session)
    → count (λ y. y.id == i.session_id) xs ≡ 0
    → find (may_be_elevated w i) xs ≡ some x
    → (false ≡ true)
none_named w i [] x c f = ground arith
none_named w i (y ∷ ys) x c f = ground (arith, none_named w i ys x)

-- Where identifiers are unique, the session that was live is found elevated.
found_elevated :
    (w : World) (i : StepUpInput) (xs : List Session) (x : Session)
    → count (λ y. y.id == i.session_id) xs ≤ 1
    → find (may_be_elevated w i) xs ≡ some x
    → find (λ y. y.id == i.session_id) (modify (may_be_elevated w i) (elevated_row w) xs)
      ≡ some (elevated_row w x)
found_elevated w i [] x c f = absurd (ground arith)
found_elevated w i (y ∷ ys) x c f = elim (Bool-cases (may_be_elevated w i y)) [
  | inl k ↦ ground arith
  | inr k ↦ ground (arith, found_elevated w i ys x, none_named w i ys x)
]

elevate_live-ok :
    (w : World) (i : StepUpInput) (s : State) {u : State}
    → elevate_live documented w i s ≡ ok tt u
    → u.db.sessions ≡ modify (may_be_elevated w i) (elevated_row w) s.db.sessions
unfolding elevate_live
elevate_live-ok w i s e = ground arith

step_up-sessions :
    (w : World) (r : Option ChallengeRedis) (wa : WebAuthn) (i : StepUpInput) (cs : Challenges)
    (s : State) {u : State}
    → (step_up documented w r wa i cs s).0 ≡ ok tt u
    → u.db.sessions ≡ modify (may_be_elevated w i) (elevated_row w) s.db.sessions
unfolding step_up
step_up-sessions w r wa i cs s {u} e =
    let checked = verify_credential documented w r wa i.identity_id i.method cs s in
    let (_, t, e₁, k) = >>=-eq-ok (λ _. checked.0) (λ _. elevate_live documented w i) {s = s} e in
    let kept = verify_credential-sessions w r wa i.identity_id i.method cs s in
    let same : t.db.sessions ≡ s.db.sessions =
      subst (λ res. sessions_after res ≡ s.db.sessions) e₁ kept in
    subst (λ rows. u.db.sessions ≡ modify (may_be_elevated w i) (elevated_row w) rows) same
      (elevate_live-ok w i t k)

step_up_found-sessions :
    (w : World) (delay : ℕ) (r : Option ChallengeRedis) (wa : WebAuthn) (i : StepUpInput)
    (o : Option Session) (cs : Challenges) (s : State) {until : ℕ} {u : State}
    → (step_up_found documented w delay r wa i o cs s).0 ≡ ok until u
    → (x : Session) × (o ≡ some x)
      × (until ≡ w.now + delay + 900000)
      × (u.db.sessions ≡ modify (may_be_elevated w i) (elevated_row w) s.db.sessions)
unfolding step_up_found
step_up_found-sessions w delay r wa i none cs s e = absurd (ground arith)
step_up_found-sessions w delay r wa i (some x) cs s {until} {u} e =
    let (_, t, e₁, k) =
      >>=-eq-ok (λ _. (step_up documented w r wa i cs s).0)
        (λ _.
          start (audit "SESSION_ELEVATED" (some i.identity_id)) >> pure (w.now + delay + 900000))
        {s = s} e in
    let same : u.db.sessions ≡ t.db.sessions = ground arith in
    (x, refl, ground arith, same ∙ step_up-sessions w r wa i cs s e₁)

live_valid :
    (w : World) (i : StepUpInput) (xs : List Session) (x : Session)
    → find (may_be_elevated w i) xs ≡ some x
    → x.valid ≡ true
live_valid w i xs x f = ground (arith, find_sound (may_be_elevated w i) xs x f)

elevated-admits :
    (w v : World) (i : StepUpInput) (x : Session) (rows : List Session) (jwt : Jwt)
    (header : List ℕ) (p : Payload) (subject : ℕ) (sv : Server)
    → count (λ y. y.id == i.session_id) rows ≤ 1
    → find (may_be_elevated w i) rows ≡ some x
    → sv.db.sessions ≡ modify (may_be_elevated w i) (elevated_row w) rows
    → v.now < w.now + 900000
    → v.now ≤ x.expires_at
    → Bears jwt header p
    → p.sub ≡ some subject
    → p.sid ≡ some i.session_id
    → Unlisted v p.jti sv
    → admits (require_elevated documented v jwt header sv) ≡ true
elevated-admits w v i x rows jwt header p subject sv c f e before lasts bears named bound unlisted =
    (require_elevated-MayElevate documented documented-IsDocumented v jwt header sv).1 (record {
      payload = p;
      bears = bears;
      subject = subject;
      named = named;
      unlisted = unlisted;
      session_id = i.session_id;
      bound = bound;
      session = elevated_row w x;
      found = rw (e) (found_elevated w i rows x c f);
      elevated = record {
        valid = live_valid w i rows x f;
        unexpired = lasts;
        level = refl;
        elevated_at = w.now;
        elevated = refl;
        recent = ground (arith, before);
      };
    })

-- A request of the session that the guard lets through comes within the window.
admitted_recent :
    (w v : World) (i : StepUpInput) (x : Session) (rows : List Session) (jwt : Jwt)
    (header : List ℕ) (p : Payload) (sv : Server)
    → count (λ y. y.id == i.session_id) rows ≤ 1
    → find (may_be_elevated w i) rows ≡ some x
    → sv.db.sessions ≡ modify (may_be_elevated w i) (elevated_row w) rows
    → Bears jwt header p
    → p.sid ≡ some i.session_id
    → admits (require_elevated documented v jwt header sv) ≡ true
    → v.now < w.now + 900000
admitted_recent w v i x rows jwt header p sv c f e bears bound h =
    let m = (require_elevated-MayElevate documented documented-IsDocumented v jwt header sv).0 h in
    let sid : m.session_id ≡ i.session_id = cc (bound, m.bound, bears.verified, m.bears.verified) in
    let there : find (λ y. y.id == i.session_id) sv.db.sessions ≡ some (elevated_row w x) =
      rw (e) (found_elevated w i rows x c f) in
    let here : find (λ y. y.id == i.session_id) sv.db.sessions ≡ some m.session =
      subst (λ n. find (λ y. y.id == n) sv.db.sessions ≡ some m.session) sid m.found in
    let same : some (elevated_row w x) ≡ some m.session = sym there ∙ here in
    let at : m.elevated.elevated_at ≡ w.now = ground (arith, same, m.elevated.elevated) in
    ground (arith, m.elevated.recent, at)

-- A step-up that the route accepts takes effect, and ends, where session identifiers are unique: while
-- the session lasts, a request that bears a token of the session which names an identity and is on
-- no revocation list passes the guard of the most privileged routes exactly as long as its time is
-- before the one that the route answered, less the delay between the update of the session and the
-- route's second reading of the clock.
pub step_up_route-require_elevated :
    (q : Prisma)
    → IsDocumented q
    → (w v : World) (delay : ℕ) (r : Option ChallengeRedis) (wa : WebAuthn) (i : StepUpInput)
      (cs : Challenges) (s : State) (x : Session) (jwt : Jwt) (header : List ℕ) (p : Payload)
      (subject : ℕ) (sv : Server) {until : ℕ} {u : State}
    → count (λ y. y.id == i.session_id) s.db.sessions ≤ 1
    → find (may_be_elevated w i) s.db.sessions ≡ some x
    → (step_up_route q w delay r wa i cs s).0 ≡ ok until u
    → sv.db.sessions ≡ u.db.sessions
    → v.now ≤ x.expires_at
    → Bears jwt header p
    → p.sub ≡ some subject
    → p.sid ≡ some i.session_id
    → Unlisted v p.jti sv
    → admits (require_elevated q v jwt header sv) ≡ ltb (v.now + delay) until
unfolding step_up_route
step_up_route-require_elevated q d w v delay r wa i cs s x jwt header p subject sv {until} {u} c f e
      same lasts bears named bound unlisted =
    by_documentation
      (λ q.
        (step_up_route q w delay r wa i cs s).0 ≡ ok until u
        → admits (require_elevated q v jwt header sv) ≡ ltb (v.now + delay) until)
      d
      (λ e.
        let (y, g, end, rows) = step_up_found-sessions w delay r wa i _ cs s {u = u} e in
        elim (Bool-cases (ltb (v.now + delay) until)) [
          | inl k ↦ rw (k) (
              elevated-admits w v i x s.db.sessions jwt header p subject sv c f (same ∙ rows)
                (ground (arith, end)) lasts bears named bound unlisted)
          | inr k ↦ elim (Bool-cases (admits (require_elevated documented v jwt header sv))) [
            | inr h ↦ rw (k) h
            | inl h ↦
                let recent =
                  admitted_recent w v i x s.db.sessions jwt header p sv c f (same ∙ rows) bears
                    bound h in
                absurd (ground (arith, end, recent))
          ]
        ])
      e
