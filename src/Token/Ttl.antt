-- ===== src/Token/Ttl.antt =====
-- `parseTtlToMinutes` and `parseTtlToDays`: a lifetime is a number of minutes, or a text that
-- /^(\d+)([smhd])$/ reads. A text is the list of its character codes.
use arc_id.Base.{
  ℕ, ◌+◌, ◌-◌, ◌*◌, ◌/◌, ◌≤◌, ◌≡◌, refl, Bool, true, false, ◌&&◌, Option, none, some, List, [], ◌∷◌,
  leb, ◌==◌, if◌then◌else◌, arith,
}

pub data Ttl : Type 0 where
  minutes : ℕ → Ttl
  text : List ℕ → Ttl

is_digit : ℕ → Bool
is_digit c = leb b'0' c && leb c b'9'

-- Digits, at least one, then one unit letter and the end. The accumulator is `parseInt`'s value.
scan_from : Bool → ℕ → List ℕ → Option (ℕ × ℕ)
unfolding is_digit
scan_from seen acc [] = none
scan_from seen acc (c ∷ rest) =
    let longer = scan_from true (acc * 10 + (c - b'0')) rest in
    if is_digit c
    then longer
    else (elim rest [ [] ↦ if seen then some (acc, c) else none | _ ∷ _ ↦ none ])

in_minutes : ℕ × ℕ → ℕ
in_minutes (value, unit) =
    if unit == b's'
    then (value + 59) / 60
    else (if unit == b'm'
        then value
        else (if unit == b'h' then value * 60 else (if unit == b'd' then value * 60 * 24 else 15)))

unfoldable pub parse_ttl_to_minutes : Ttl → ℕ
unfolding scan_from in_minutes
parse_ttl_to_minutes (minutes n) = n
parse_ttl_to_minutes (text cs) = elim (scan_from false 0 cs) [ none ↦ 15 | some m ↦ in_minutes m ]

unfoldable pub parse_ttl_to_days : Ttl → ℕ
unfolding parse_ttl_to_minutes
parse_ttl_to_days t = (parse_ttl_to_minutes t + 1439) / 1440

-- The value that a run of digits writes, after `acc`.
abbrev pub decimal : ℕ → List ℕ → ℕ
decimal acc [] = acc
decimal acc (d ∷ ds) = decimal (acc * 10 + d) ds

-- Digits as characters, with a unit behind them.
abbrev pub spelled : List ℕ → ℕ → List ℕ
spelled [] unit = unit ∷ []
spelled (d ∷ ds) unit = (b'0' + d) ∷ spelled ds unit

abbrev pub AreDigits : List ℕ → Type 0
AreDigits [] = Unit {0}
AreDigits (d ∷ ds) = (d ≤ 9) × AreDigits ds

scan_from-spelled :
    (acc : ℕ) (ds : List ℕ) (unit : ℕ)
    → AreDigits ds
    → is_digit unit ≡ false
    → scan_from true acc (spelled ds unit) ≡ some (decimal acc ds, unit)
unfolding scan_from
scan_from-spelled acc [] unit h u = ground arith
scan_from-spelled acc (d ∷ ds) unit h u =
    ground (arith, scan_from-spelled (acc * 10 + d) ds unit h.1 u)

-- A lifetime of one or more digits and the unit "m" is read as that number of minutes, with "h" as
-- sixty times it, and with "d" as 1440 times it; in days, what is read is rounded up.
pub parse_ttl-spelled :
    (d : ℕ) (ds : List ℕ)
    → d ≤ 9
    → AreDigits ds
    → (parse_ttl_to_minutes (text (spelled (d ∷ ds) b'm')) ≡ decimal d ds)
      × (parse_ttl_to_minutes (text (spelled (d ∷ ds) b'h')) ≡ decimal d ds * 60)
      × (parse_ttl_to_minutes (text (spelled (d ∷ ds) b'd')) ≡ decimal d ds * 1440)
      × (parse_ttl_to_days (text (spelled (d ∷ ds) b'd')) ≡ decimal d ds)
unfolding parse_ttl_to_days
parse_ttl-spelled d ds small h = (
  ground (arith, scan_from-spelled d ds b'm' h refl),
  ground (arith, scan_from-spelled d ds b'h' h refl),
  ground (arith, scan_from-spelled d ds b'd' h refl),
  ground (arith, scan_from-spelled d ds b'd' h refl),
)
