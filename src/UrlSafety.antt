-- ===== src/UrlSafety.antt =====
-- src/lib/url-safety.ts: which URLs the server may call. A text is the list of its character codes, a
-- URL an opaque number. Parsing, name resolution and `fetch` are parameters, at each hop anew.
pub mod Ranges
pub mod Fetched
use arc_id.Base.{
  ℕ, zero, suc, ◌≡◌, Bool, true, false, ◌&&◌, ◌||◌, not, String, Option, none, some, List, [], ◌∷◌,
  ◌++◌, map, ltb, leb, ◌==◌, any, if◌then◌else◌,
}

-- A pattern anchored at the start: one test for each character.
abbrev pub Pattern : Type 0
Pattern = List (ℕ → Bool)

unfoldable pub starts : Pattern → List ℕ → Bool
starts [] cs = true
starts (p ∷ ps) [] = false
starts (p ∷ ps) (c ∷ cs) = p c && starts ps cs

-- The characters themselves, a range of characters, and a letter in either case.
abbrev pub literal : List ℕ → Pattern
literal cs = map (λ c x. x == c) cs

abbrev pub range : ℕ → ℕ → ℕ → Bool
range a b x = leb a x && leb x b

abbrev pub letter : ℕ → ℕ → ℕ → Bool
letter lower upper x = x == lower || x == upper

abbrev pub digit : ℕ → Bool
digit = range b'0' b'9'

abbrev dot : ℕ → Bool
dot x = x == b'.'

-- `PRIVATE_IPV4_PATTERNS`, each alternative of a group as a pattern of its own.
abbrev pub private_ipv4_patterns : List Pattern
private_ipv4_patterns =
    literal (b'1' ∷ b'2' ∷ b'7' ∷ b'.' ∷ [])
    ∷ literal (b'1' ∷ b'0' ∷ b'.' ∷ [])
    ∷ (literal (b'1' ∷ b'7' ∷ b'2' ∷ b'.' ∷ b'1' ∷ []) ++ range b'6' b'9' ∷ dot ∷ [])
    ∷ (literal (b'1' ∷ b'7' ∷ b'2' ∷ b'.' ∷ b'2' ∷ []) ++ digit ∷ dot ∷ [])
    ∷ (literal (b'1' ∷ b'7' ∷ b'2' ∷ b'.' ∷ b'3' ∷ []) ++ range b'0' b'1' ∷ dot ∷ [])
    ∷ literal (b'1' ∷ b'9' ∷ b'2' ∷ b'.' ∷ b'1' ∷ b'6' ∷ b'8' ∷ b'.' ∷ [])
    ∷ literal (b'1' ∷ b'6' ∷ b'9' ∷ b'.' ∷ b'2' ∷ b'5' ∷ b'4' ∷ b'.' ∷ [])
    ∷ (literal (b'1' ∷ b'0' ∷ b'0' ∷ b'.' ∷ b'6' ∷ []) ++ range b'4' b'9' ∷ dot ∷ [])
    ∷ (literal (b'1' ∷ b'0' ∷ b'0' ∷ b'.' ∷ []) ++ range b'7' b'9' ∷ digit ∷ dot ∷ [])
    ∷ (literal (b'1' ∷ b'0' ∷ b'0' ∷ b'.' ∷ b'1' ∷ []) ++ range b'0' b'1' ∷ digit ∷ dot ∷ [])
    ∷ (literal (b'1' ∷ b'0' ∷ b'0' ∷ b'.' ∷ b'1' ∷ b'2' ∷ []) ++ range b'0' b'7' ∷ dot ∷ [])
    ∷ literal (b'0' ∷ b'.' ∷ [])
    ∷ literal (b'2' ∷ b'5' ∷ b'5' ∷ b'.' ∷ [])
    ∷ []

unfoldable pub is_private_ipv4 : List ℕ → Bool
unfolding starts
is_private_ipv4 ip = any (λ p. starts p ip) private_ipv4_patterns

-- Brackets off, at both ends.
unfoldable pub without_last_bracket : List ℕ → List ℕ
without_last_bracket [] = []
without_last_bracket (c ∷ []) = if c == b']' then [] else c ∷ []
without_last_bracket (c ∷ d ∷ cs) = c ∷ without_last_bracket (d ∷ cs)

unfoldable pub without_brackets : List ℕ → List ℕ
unfolding without_last_bracket
without_brackets [] = []
without_brackets (c ∷ cs) =
    if c == b'[' then without_last_bracket cs else without_last_bracket (c ∷ cs)

abbrev pub private_ipv6_patterns : List Pattern
private_ipv6_patterns =
    (letter b'f' b'F' ∷ letter b'c' b'C' ∷ [])
    ∷ (letter b'f' b'F' ∷ letter b'd' b'D' ∷ [])
    ∷ (letter b'f' b'F' ∷ letter b'e' b'E' ∷ literal (b'8' ∷ b'0' ∷ []))
    ∷ []

unfoldable pub same_text : List ℕ → List ℕ → Bool
same_text [] [] = true
same_text (a ∷ xs) (b ∷ ys) = a == b && same_text xs ys
same_text [] (b ∷ ys) = false
same_text (a ∷ xs) [] = false

abbrev pub loopback : List ℕ
loopback = b':' ∷ b':' ∷ b'1' ∷ []

unfoldable pub is_private_ipv6 : List ℕ → Bool
unfolding without_brackets same_text starts
is_private_ipv6 ip =
    same_text loopback (without_brackets ip)
    || any (λ p. starts p (without_brackets ip)) private_ipv6_patterns

unfoldable pub is_private_ip : List ℕ → Bool
unfolding is_private_ipv4 is_private_ipv6
is_private_ip ip = is_private_ipv4 ip || is_private_ipv6 ip

-- /^\d{1,3}(\.\d{1,3}){3}$/: groups still to come after this one, and the digits of this one.
unfoldable pub dotted : ℕ → ℕ → List ℕ → Bool
dotted groups digits [] = groups == 0 && ltb 0 digits
dotted groups digits (c ∷ cs) =
    let in_group = dotted groups (suc digits) cs in
    let in_next : Bool = elim groups [ zero ↦ false | suc g ↦ dotted g 0 cs ] in
    if digit c then ltb digits 3 && in_group else c == b'.' && ltb 0 digits && in_next

unfoldable pub is_ip_literal : List ℕ → Bool
unfolding dotted without_brackets
is_ip_literal hostname =
    dotted 3 0 (without_brackets hostname) || any (λ c. c == b':') (without_brackets hostname)

pub data Protocol : Type 0 where
  http https : Protocol
  other_protocol : Protocol

-- `new URL(raw)`, with the host name in lower case.
pub record Url : Type 0 where
  pub protocol : Protocol
  pub hostname : List ℕ

pub record Response : Type 0 where
  pub status : ℕ
  pub location : Option ℕ

-- `redirected` is `new URL(location, currentUrl).toString()`. A call that throws answers `none`.
pub record Web : Type 0 where
  pub parse : ℕ → Option Url
  pub resolve4 : List ℕ → List (List ℕ)
  pub resolve6 : List ℕ → List (List ℕ)
  pub fetch : ℕ → Option Response
  pub redirected : ℕ → ℕ → Option ℕ

abbrev pub blocked_hostnames : List (List ℕ)
blocked_hostnames =
    (b'l' ∷ b'o' ∷ b'c' ∷ b'a' ∷ b'l' ∷ b'h' ∷ b'o' ∷ b's' ∷ b't' ∷ [])
    ∷ (b'm' ∷ b'e' ∷ b't' ∷ b'a' ∷ b'd' ∷ b'a' ∷ b't' ∷ b'a' ∷ b'.' ∷ b'g' ∷ b'o' ∷ b'o' ∷ b'g'
        ∷ b'l' ∷ b'e' ∷ b'.' ∷ b'i' ∷ b'n' ∷ b't' ∷ b'e' ∷ b'r' ∷ b'n' ∷ b'a' ∷ b'l' ∷ [])
    ∷ (b'1' ∷ b'6' ∷ b'9' ∷ b'.' ∷ b'2' ∷ b'5' ∷ b'4' ∷ b'.' ∷ b'1' ∷ b'6' ∷ b'9' ∷ b'.' ∷ b'2'
        ∷ b'5' ∷ b'4' ∷ [])
    ∷ (b'f' ∷ b'd' ∷ b'0' ∷ b'0' ∷ b':' ∷ b':' ∷ b'e' ∷ b'c' ∷ b'2' ∷ [])
    ∷ (b'[' ∷ b':' ∷ b':' ∷ b'1' ∷ b']' ∷ [])
    ∷ []

-- The addresses of a name: there must be some, and none of them private.
unfoldable pub resolved_reason : List (List ℕ) → Option String
unfolding is_private_ip
resolved_reason [] = some "URL hostname could not be resolved"
resolved_reason (ip ∷ ips) =
    if any is_private_ip (ip ∷ ips)
    then some "URL hostname resolves to a private/blocked IP"
    else none

unfoldable pub host_reason : Web → List ℕ → Option String
unfolding same_text is_private_ip is_ip_literal resolved_reason
host_reason web hostname =
    if any (λ h. same_text h hostname) blocked_hostnames
    then some "URL points to a blocked host"
    else (if is_private_ip hostname
        then some "URL points to a private IP range"
        else (if is_ip_literal hostname
            then none
            else resolved_reason (web.resolve4 hostname ++ web.resolve6 hostname)))

-- `checkUrlSafety`: the reason against a URL, `none` where it is safe.
unfoldable pub check_url_safety : Web → ℕ → Option String
unfolding host_reason
check_url_safety web raw = elim (web.parse raw) [
  | none ↦ some "Invalid URL"
  | some url ↦ elim url.protocol [
    | other_protocol ↦ some "URL must use http or https"
    | _ ↦ host_reason web url.hostname
  ]
]

pub data Fetch : Type 0 where
  answer : Response → Fetch
  failed : String → Fetch

-- What happened: the outcome, and the URLs that were fetched, each with its hop.
abbrev pub Trace : Type 0
Trace = List (ℕ × ℕ)

-- The status and the header that say that a response redirects.
unfoldable pub redirect_of : Response → Option ℕ
redirect_of r = elim r.location [
  | none ↦ none
  | some l ↦ if leb 300 r.status && ltb r.status 400 then some l else none
]

-- One hop, with the rest of the loop as `k`.
unfoldable pub followed : ℕ → ℕ → (ℕ → Fetch × Trace) → Option ℕ → Fetch × Trace
followed n url k none = (failed "Invalid URL", (n, url) ∷ [])
followed n url k (some next) = ((k next).0, (n, url) ∷ (k next).1)

unfoldable pub redirected_or :
    Web → ℕ → ℕ → (ℕ → Fetch × Trace) → Response → Option ℕ → Fetch × Trace
unfolding followed
redirected_or web n url k r none = (answer r, (n, url) ∷ [])
redirected_or web n url k r (some l) = followed n url k (web.redirected url l)

unfoldable pub responded : Web → ℕ → ℕ → (ℕ → Fetch × Trace) → Option Response → Fetch × Trace
unfolding redirected_or redirect_of
responded web n url k none = (failed "fetch failed", (n, url) ∷ [])
responded web n url k (some r) = redirected_or web n url k r (redirect_of r)

unfoldable pub hop : Web → ℕ → ℕ → (ℕ → Fetch × Trace) → Option String → Fetch × Trace
unfolding responded
hop web n url k (some reason) = (failed reason, [])
hop web n url k none = responded web n url k (web.fetch url)

-- The loop of `fetchWithSsrfGuard` from hop `n` on, with `left` hops to go.
unfoldable pub fetch_from : (ℕ → Web) → ℕ → ℕ → ℕ → Fetch × Trace
unfolding check_url_safety hop
fetch_from web zero n url = (failed "Too many redirects fetching URL", [])
fetch_from web (suc left) n url =
    hop (web n) n url (fetch_from web left (suc n)) (check_url_safety (web n) url)

-- `fetchWithSsrfGuard`: the hops 0 to `maxRedirects`.
unfoldable pub fetch_with_ssrf_guard : (ℕ → Web) → ℕ → ℕ → Fetch × Trace
unfolding fetch_from
fetch_with_ssrf_guard web max_redirects url = fetch_from web (suc max_redirects) 0 url
