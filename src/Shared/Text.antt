-- ===== src/Shared/Text.antt =====
-- The parts of Go's strings and strconv that the services use. A text is read as its bytes.
use Prim.Native.Char.{code}
use exbanka_4_backend.Shared.Tests.{
  ℕ, ◌+◌, ◌-◌, ◌*◌, Bool, ◌&&◌, Option, none, some, List, [], ◌∷◌, String, leb, ◌==◌, if◌then◌else◌,
}
use exbanka_4_backend.Shared.Int.{ℤ, pos, sub_ℕ}

-- The code points of a text: its bytes, if it is ASCII.
abbrev pub codes : String → List ℕ
codes String.[] = []
codes (String.◌∷◌ c s) = code c ∷ codes s

abbrev pub is_digit : ℕ → Bool
is_digit c = leb b'0' c && leb c b'9'

-- A run of digits to its value, from the left.
unfoldable pub parse_digits : ℕ → List ℕ → Option ℕ
parse_digits n [] = some n
parse_digits n (c ∷ cs) = if is_digit c then parse_digits (n * 10 + (c - b'0')) cs else none

-- At least one digit, and a magnitude in range.
unfoldable pub parse_magnitude : ℕ → List ℕ → Option ℕ
parse_magnitude bound [] = none
parse_magnitude bound (c ∷ cs) = elim (parse_digits 0 (c ∷ cs)) [
  | none ↦ none
  | some n ↦ if leb n bound then some n else none
]

abbrev negated : Option ℕ → Option ℤ
negated none = none
negated (some n) = some (sub_ℕ 0 n)

abbrev positive : Option ℕ → Option ℤ
positive none = none
positive (some n) = some (pos n)

-- strconv.ParseInt(s, 10, 64)
unfoldable pub parse_int : List ℕ → Option ℤ
unfolding parse_digits parse_magnitude
parse_int [] = none
parse_int (c ∷ cs) =
    if c == b'-'
    then negated (parse_magnitude 9223372036854775808 cs)
    else if c == b'+'
    then positive (parse_magnitude 9223372036854775807 cs)
    else positive (parse_magnitude 9223372036854775807 (c ∷ cs))
