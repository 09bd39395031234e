-- ===== src/Cleanup.antt =====
-- src/jobs/token-cleanup.job.ts. PostgreSQL's advisory lock and the start of a transaction are
-- parameters, by the attempt.
pub mod Kept
use arc_id.Base.{
  ℕ, zero, suc, ◌+◌, ◌*◌, ◌≡◌, Bool, true, false, ◌&&◌, ◌||◌, not, String, Option, none, some, ltb,
  if◌then◌else◌,
}
use text.Mathlib.Text.{◌==◌ as str_eq}
use arc_id.Db.{AccessToken, RefreshToken, RevokedJti, Session, Db}
use arc_id.Db.Prisma.{Prisma}
use arc_id.Flow.Errors.{prisma}
use arc_id.Flow.Monad.{Flow, State, Result, ok, err}
use arc_id.Flow.World.{World}

-- `start` is the code of the error with which an attempt's transaction fails to start, if it does.
pub record Attempts : Type 0 where
  pub start : ℕ → Option String
  pub acquired : ℕ → Bool

pub record Breakdown : Type 0 where
  pub access_tokens : ℕ
  pub refresh_tokens : ℕ
  pub revoked_jtis : ℕ
  pub expired_sessions : ℕ

pub data TokenCleanupResult : Type 0 where
  skipped : TokenCleanupResult
  cleaned : ℕ → Breakdown → TokenCleanupResult

abbrev pub retain_ms : ℕ
retain_ms = 7 * 86400000

-- `{ lt: cutoff }`, with the cutoff seven days before now.
abbrev pub before_cutoff : World → ℕ → Bool
before_cutoff w t = ltb (t + retain_ms) w.now

abbrev pub old_access : World → AccessToken → Bool
old_access w t = before_cutoff w t.expires_at || (t.revoked && before_cutoff w t.issued_at)

abbrev pub old_refresh : World → RefreshToken → Bool
old_refresh w t = before_cutoff w t.expires_at || (t.revoked && before_cutoff w t.issued_at)

abbrev pub old_jti : World → RevokedJti → Bool
old_jti w r = ltb r.expires_at w.now

abbrev pub old_session : World → Session → Bool
old_session w x = before_cutoff w x.expires_at && (not x.valid || ltb x.expires_at w.now)

-- The four deletions.
unfoldable pub purge : Prisma → World → Db → Db × Breakdown
purge q w db =
    let access = q.delete_many AccessToken (old_access w) db.access_tokens in
    let refresh = q.delete_many RefreshToken (old_refresh w) db.refresh_tokens in
    let jtis = q.delete_many RevokedJti (old_jti w) db.revoked_jtis in
    let sessions = q.delete_many Session (old_session w) db.sessions in
    (
      record db {
        access_tokens = access.0;
        refresh_tokens = refresh.0;
        revoked_jtis = jtis.0;
        sessions = sessions.0;
      },
      record {
        access_tokens = access.1;
        refresh_tokens = refresh.1;
        revoked_jtis = jtis.1;
        expired_sessions = sessions.1;
      },
    )

abbrev pub total : Breakdown → ℕ
total b = b.access_tokens + b.refresh_tokens + b.revoked_jtis + b.expired_sessions

unfoldable pub clean_if : Prisma → World → Bool → Flow TokenCleanupResult
unfolding purge
clean_if q w false s = ok skipped (record s { db = q.settle Db true s.db s.db })
clean_if q w true s =
    let done = purge q w s.db in
    ok (cleaned (total done.1) done.1) (record s { db = q.settle Db true s.db done.0 })

-- One attempt: only P2028 goes on to the next.
unfoldable pub attempt :
    Prisma → World → Bool → Flow TokenCleanupResult → Option String → Flow TokenCleanupResult
unfolding clean_if
attempt q w acquired again none s = clean_if q w acquired s
attempt q w acquired again (some code) s =
    if str_eq code "P2028" then again s else err (prisma code) s

-- The loop from attempt `n` on, with `left` attempts after it; after the last every error is thrown.
unfoldable pub clean_from : Prisma → World → Attempts → ℕ → ℕ → Flow TokenCleanupResult
unfolding attempt
clean_from q w a zero n s = attempt q w (a.acquired n) (λ s. err (prisma "P2028") s) (a.start n) s
clean_from q w a (suc left) n s =
    attempt q w (a.acquired n) (clean_from q w a left (suc n)) (a.start n) s

-- `runTokenCleanup`, with `MAX_RETRIES` three.
unfoldable pub run_token_cleanup : Prisma → World → Attempts → Flow TokenCleanupResult
unfolding clean_from
run_token_cleanup q w a s = clean_from q w a 3 0 s
