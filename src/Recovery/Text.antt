-- ===== src/Recovery/Text.antt =====
-- `trim`, `toUpperCase` and `slice` as src/modules/auth/services/mfa.service.ts uses them. A text is
-- the list of its code points.
use arc_id.Base.{
  ℕ, ◌-◌, ◌≡◌, refl, Bool, true, ◌&&◌, ◌||◌, List, [], ◌∷◌, ◌++◌, ltb, leb, ◌==◌, all, suc, zero,
  if◌then◌else◌, arith,
}
use arc_id.Db.Prisma.{take}

-- White space and line ends.
abbrev pub is_space : ℕ → Bool
is_space c =
    (leb 9 c && leb c 13)
    || c == 32
    || c == 160
    || c == 5760
    || (leb 8192 c && leb c 8202)
    || c == 8232
    || c == 8233
    || c == 8239
    || c == 8287
    || c == 12288
    || c == 65279

unfoldable pub trim_start : List ℕ → List ℕ
trim_start [] = []
trim_start (c ∷ cs) = if is_space c then trim_start cs else c ∷ cs

abbrev cons_unless_blank : ℕ → List ℕ → List ℕ
cons_unless_blank c [] = if is_space c then [] else c ∷ []
cons_unless_blank c (d ∷ ds) = c ∷ d ∷ ds

unfoldable pub trim_end : List ℕ → List ℕ
trim_end [] = []
trim_end (c ∷ cs) = cons_unless_blank c (trim_end cs)

unfoldable pub trim : List ℕ → List ℕ
unfolding trim_start trim_end
trim text = trim_end (trim_start text)

-- The letters outside ASCII, of which one may become several, are the parameter's.
abbrev pub upper_char : (ℕ → List ℕ) → ℕ → List ℕ
upper_char upper_other c =
    if ltb c 128 then (if leb 97 c && leb c 122 then (c - 32) ∷ [] else c ∷ []) else upper_other c

unfoldable pub to_upper_case : (ℕ → List ℕ) → List ℕ → List ℕ
to_upper_case upper_other [] = []
to_upper_case upper_other (c ∷ cs) = upper_char upper_other c ++ to_upper_case upper_other cs

-- The alphabet of `base64url`, and its capital part.
abbrev pub is_base64url : ℕ → Bool
is_base64url c =
    (leb 48 c && leb c 57)
    || (leb 65 c && leb c 90)
    || (leb 97 c && leb c 122)
    || c == 45
    || c == 95

abbrev pub is_capital : ℕ → Bool
is_capital c = (leb 48 c && leb c 57) || (leb 65 c && leb c 90) || c == 45 || c == 95

pub to_upper_case-capital :
    (other : ℕ → List ℕ) (text : List ℕ)
    → all is_base64url text ≡ true
    → all is_capital (to_upper_case other text) ≡ true
unfolding to_upper_case
to_upper_case-capital other [] h = refl
to_upper_case-capital other (c ∷ cs) h = ground (arith, to_upper_case-capital other cs)

pub take-capital :
    (n : ℕ) (text : List ℕ) → all is_capital text ≡ true → all is_capital (take n text) ≡ true
take-capital zero text h = refl
take-capital (suc n) [] h = refl
take-capital (suc n) (c ∷ cs) h = ground (arith, take-capital n cs)

to_upper_case-same :
    (other : ℕ → List ℕ) (text : List ℕ)
    → all is_capital text ≡ true
    → to_upper_case other text ≡ text
unfolding to_upper_case
to_upper_case-same other [] h = refl
to_upper_case-same other (c ∷ cs) h = ground (arith, to_upper_case-same other cs)

trim_start-same : (text : List ℕ) → all is_capital text ≡ true → trim_start text ≡ text
unfolding trim_start
trim_start-same [] h = refl
trim_start-same (c ∷ cs) h = ground arith

kept : (c : ℕ) (cs : List ℕ) → is_capital c ≡ true → cons_unless_blank c cs ≡ c ∷ cs
kept c [] h = ground arith
kept c (d ∷ ds) h = refl

trim_end-same : (text : List ℕ) → all is_capital text ≡ true → trim_end text ≡ text
unfolding trim_end
trim_end-same [] h = refl
trim_end-same (c ∷ cs) h = rw (trim_end-same cs (ground arith)) (kept c cs (ground arith))

-- A text of capitals is its own normal form.
pub normal-same :
    (other : ℕ → List ℕ) (text : List ℕ)
    → all is_capital text ≡ true
    → to_upper_case other (trim text) ≡ text
unfolding trim
normal-same other text h =
    rw (trim_start-same text h, trim_end-same text h) (to_upper_case-same other text h)
