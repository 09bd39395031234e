-- ===== src/UrlSafety/Fetched.antt =====
-- What the guarded fetch has called.
use arc_id.Base.{ℕ, zero, suc, ◌≤◌, ◌≡◌, refl, Option, none, some, length, All, arith, String}
use arc_id.UrlSafety.{
  Web, Response, Fetch, answer, failed, Trace, check_url_safety, redirect_of, followed,
  redirected_or, responded, hop, fetch_from, fetch_with_ssrf_guard,
}

abbrev pub Checked : (ℕ → Web) → ℕ × ℕ → Type 0
Checked web (n, url) = check_url_safety (web n) url ≡ none

-- An outcome is no redirect.
abbrev pub IsFinal : Fetch → Type 0
IsFinal (answer r) = redirect_of r ≡ none
IsFinal (failed reason) = Unit {0}

pub record Guarded (web : ℕ → Web) (most : ℕ) (run : Fetch × Trace) : Type 0 where
  pub checked : All (Checked web) run.1
  pub bounded : length run.1 ≤ most
  pub final : IsFinal run.0

module _ (web : ℕ → Web) (left n url : ℕ) (k : ℕ → Fetch × Trace)
    (rest : (next : ℕ) → Guarded web left (k next)) where
  followed-Guarded :
      (o : Option ℕ)
      → check_url_safety (web n) url ≡ none
      → Guarded web (suc left) (followed n url k o)
  unfolding followed
  followed-Guarded none c = record { checked = (c, tt); bounded = ground arith; final = tt }
  followed-Guarded (some next) c =
      let later = rest next in
      record {
        checked = (c, later.checked);
        bounded = ground (arith, later.bounded);
        final = later.final;
      }

  redirected_or-Guarded :
      (r : Response) (o : Option ℕ)
      → redirect_of r ≡ o
      → check_url_safety (web n) url ≡ none
      → Guarded web (suc left) (redirected_or (web n) n url k r o)
  unfolding redirected_or
  redirected_or-Guarded r none e c = record { checked = (c, tt); bounded = ground arith; final = e }
  redirected_or-Guarded r (some l) e c = followed-Guarded _ c

  responded-Guarded :
      (o : Option Response)
      → check_url_safety (web n) url ≡ none
      → Guarded web (suc left) (responded (web n) n url k o)
  unfolding responded
  responded-Guarded none c = record { checked = (c, tt); bounded = ground arith; final = tt }
  responded-Guarded (some r) c = redirected_or-Guarded r _ refl c

  hop-Guarded :
      (o : Option String)
      → check_url_safety (web n) url ≡ o
      → Guarded web (suc left) (hop (web n) n url k o)
  unfolding hop
  hop-Guarded (some reason) e = record { checked = tt; bounded = ground arith; final = tt }
  hop-Guarded none e = responded-Guarded ((web n).fetch url) e

from-Guarded : (web : ℕ → Web) (left n url : ℕ) → Guarded web left (fetch_from web left n url)
unfolding fetch_from
from-Guarded web zero n url = record { checked = tt; bounded = ground arith; final = tt }
from-Guarded web (suc left) n url =
    hop-Guarded web left n url (fetch_from web left (suc n)) (from-Guarded web left (suc n)) _ refl

-- The guarded fetch makes at most one call more than the redirects it may follow; every URL that it
-- called had passed the check at that very hop, as the names resolved then; and a response that it
-- hands over is not a redirect.
pub fetch_with_ssrf_guard-Guarded :
    (web : ℕ → Web) (max_redirects url : ℕ)
    → Guarded web (suc max_redirects) (fetch_with_ssrf_guard web max_redirects url)
unfolding fetch_with_ssrf_guard
fetch_with_ssrf_guard-Guarded web max_redirects url = from-Guarded web (suc max_redirects) 0 url
