-- ===== src/Token/Issue/Keeps.antt =====
-- What `TokenService.issue` leaves alone: its preparation writes nothing, and its writes add rows
-- and bind the session.
use arc_id.Base.{
  ◌≡◌, refl, Bool, true, false, Option, none, some, List, [], ◌∷◌, ◌++◌, subst, sym, arith,
}
use arc_id.Db.{Identity, AccessToken, RefreshToken, IdToken, Db}
use arc_id.Db.Prisma.{documented}
use arc_id.Flow.Monad.{State, Result, written, state_of}
use arc_id.Flow.World.{World}
use arc_id.Flow.Keeps.{Keeps, Keeps-bind, Keeps-then, Keeps-pure, Keeps-writes}
use arc_id.Token.Issue.{
  IssueTokensParams, Drafts, identity_found, identity_for_id_token, prepare, commit, write_id,
  create_access_token, create_refresh_token, issue,
}

identity_found-state :
    (b : Bool) (o : Option Identity) (s : State) → state_of (identity_found b o s) ≡ s
unfolding identity_found
identity_found-state false o s = refl
identity_found-state true none s = refl
identity_found-state true (some i) s = refl

identity_for_id_token-state :
    (p : IssueTokensParams) (s : State) → state_of (identity_for_id_token documented p s) ≡ s
unfolding identity_for_id_token
identity_for_id_token-state p s = identity_found-state _ _ s

pub prepare-db :
    (w : World) (p : IssueTokensParams) (s : State)
    → (state_of (prepare documented w p s)).db ≡ s.db
unfolding prepare
prepare-db w p s = ground (arith, identity_for_id_token-state p s)

pub prepare-Keeps :
    {I : Db → Type 0} (w : World) (p : IssueTokensParams) → Keeps I (prepare documented w p)
prepare-Keeps {I} w p = record { keeps = λ s h. subst I (sym (prepare-db w p s)) h }

-- The rows of refresh tokens grow at the end, and nothing else of them changes.
module _ (I : List RefreshToken → Type 0)
    (grows : (ts us : List RefreshToken) → I ts → I (ts ++ us)) where
  abbrev J : Db → Type 0
  J db = I db.refresh_tokens

  abbrev rows_after : {A : Type 0} → Result A → List RefreshToken
  rows_after r = (state_of r).db.refresh_tokens

  write_id-rows :
      (o : Option IdToken) (s : State) → rows_after (write_id documented o s) ≡ s.db.refresh_tokens
  unfolding write_id
  write_id-rows none s = refl
  write_id-rows (some r) s = ground arith

  write_id-Keeps : (o : Option IdToken) → Keeps J (write_id documented o)
  write_id-Keeps o = record { keeps = λ s h. subst I (sym (write_id-rows o s)) h }

  create_access_token-rows :
      (r : AccessToken) (s : State)
      → rows_after (written (create_access_token documented r s.db) s) ≡ s.db.refresh_tokens
  create_access_token-rows r s = ground arith

  create_access_token-Keeps :
      (r : AccessToken) → Keeps J (λ s. written (create_access_token documented r s.db) s)
  create_access_token-Keeps r = record {
    keeps = λ s h. subst I (sym (create_access_token-rows r s)) h;
  }

  create_refresh_token-Keeps :
      (r : RefreshToken) → Keeps J (λ s. written (create_refresh_token documented r s.db) s)
  create_refresh_token-Keeps r = record {
    keeps = λ s h. ground (arith, grows s.db.refresh_tokens (r ∷ []) h);
  }

  commit-Keeps : (p : IssueTokensParams) (d : Drafts) → Keeps J (commit documented p d)
  unfolding commit
  commit-Keeps p d = Keeps-then (create_access_token-Keeps d.access) (
      Keeps-then (create_refresh_token-Keeps d.refresh)
        (Keeps-then (Keeps-writes _ (λ db h. h)) (write_id-Keeps d.id)))

  pub issue-Keeps : (w : World) (p : IssueTokensParams) → Keeps J (issue documented w p)
  unfolding issue
  issue-Keeps w p = Keeps-bind (prepare-Keeps w p) λ d. Keeps-then (commit-Keeps p d) (Keeps-pure _)
