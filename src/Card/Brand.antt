-- ===== src/Card/Brand.antt =====
-- services/card-service/utils/card_type.go and card_number.go: the brand of a card number, and the
-- numbers that the bank makes. A number is read as its bytes.
use Prim.Native.Nat.{compare, Ordering}
use exbanka_4_backend.Shared.Tests.{
  ℕ, ◌≡◌, refl, arith, zero, suc, ◌+◌, ◌*◌, ◌/◌, ◌%◌, Bool, true, false, ◌&&◌, ◌||◌, Option, none,
  some, List, [], ◌∷◌, ◌++◌, String, str_eq, ◌==◌, if◌then◌else◌,
}
use exbanka_4_backend.Shared.Lists.{length, take}
use exbanka_4_backend.Shared.Int.{ℤ, pos, leb_ℤ}
use exbanka_4_backend.Shared.Text.{codes, parse_int}
use exbanka_4_backend.Card.Luhn.{check_digit}

-- Go's `==` and `<=` on strings, byte by byte.
unfoldable pub bytes_eq : List ℕ → List ℕ → Bool
bytes_eq [] [] = true
bytes_eq [] (d ∷ ds) = false
bytes_eq (c ∷ cs) [] = false
bytes_eq (c ∷ cs) (d ∷ ds) = (c == d) && bytes_eq cs ds

pub bytes_eq→eq : (cs ds : List ℕ) → bytes_eq cs ds ≡ true → cs ≡ ds
unfolding bytes_eq
bytes_eq→eq [] [] h = refl
bytes_eq→eq [] (d ∷ ds) h = cc
bytes_eq→eq (c ∷ cs) [] h = cc
bytes_eq→eq (c ∷ cs) (d ∷ ds) h = ground (arith, bytes_eq→eq cs ds)

pub bytes_eq_self : (cs : List ℕ) → bytes_eq cs cs ≡ true
unfolding bytes_eq
bytes_eq_self [] = refl
bytes_eq_self (c ∷ cs) = ground (arith, bytes_eq_self cs)

unfoldable pub bytes_le : List ℕ → List ℕ → Bool
bytes_le [] ds = true
bytes_le (c ∷ cs) [] = false
bytes_le (c ∷ cs) (d ∷ ds) =
    let rest = bytes_le cs ds in
    elim (compare c d) [ Ordering.lt ↦ true | Ordering.eq ↦ rest | Ordering.gt ↦ false ]

abbrev in_range : Option ℤ → Bool
in_range none = false
in_range (some n) = leb_ℤ (pos 2221) n && leb_ℤ n (pos 2720)

first_is : List ℕ → ℕ → Bool
first_is [] d = false
first_is (c ∷ cs) d = c == d

-- The part for 16 digits: `cardNumber[0]` is in range there.
detect_sixteen : List ℕ → String
unfolding bytes_eq bytes_le first_is parse_int
detect_sixteen number =
    if bytes_eq (take 4 number) (codes "9891")
    then "DINACARD"
    else if bytes_le (codes "51") (take 2 number) && bytes_le (take 2 number) (codes "55")
    then "MASTERCARD"
    else if in_range (parse_int (take 4 number))
    then "MASTERCARD"
    else if first_is number b'4'
    then "VISA"
    else ""

-- DetectCardName. The tests `len(cardNumber) >= 2` and `>= 4` hold where they stand.
unfoldable pub detect_card_name : List ℕ → String
unfolding detect_sixteen bytes_eq
detect_card_name number =
    let prefix2 = take 2 number in
    if (length number == 15) && (bytes_eq prefix2 (codes "34") || bytes_eq prefix2 (codes "37"))
    then "AMERICAN_EXPRESS"
    else if length number == 16
    then detect_sixteen number
    else ""

-- `miiByBrand`, with its default.
unfoldable pub mii : String → List ℕ
mii name =
    if str_eq name "VISA"
    then codes "4"
    else if str_eq name "MASTERCARD"
    then codes "5"
    else if str_eq name "DINACARD"
    then codes "9"
    else if str_eq name "AMERICAN_EXPRESS"
    then codes "3"
    else codes "4"

-- `pow10`
unfoldable pub pow10 : ℕ → ℕ
pow10 zero = 1
pow10 (suc n) = pow10 n * 10

-- `%0*d` at a number of at most `n` digits.
unfoldable pub zero_padded : ℕ → ℕ → List ℕ
zero_padded zero r = []
zero_padded (suc n) r = zero_padded n (r / 10) ++ (b'0' + r % 10) ∷ []

abbrev pub segment_len : String → ℕ
segment_len name = if str_eq name "AMERICAN_EXPRESS" then 8 else 9

-- GenerateCardNumber, where `draw` is the value of `rand.Intn`, reduced to its range.
unfoldable pub generate_card_number : String → List ℕ → ℕ → List ℕ
generate_card_number name iin_code draw =
    let n = segment_len name in
    let partial = mii name ++ (iin_code ++ zero_padded n (draw % pow10 n)) in
    partial ++ check_digit partial

-- `bankIIN` of services/card-service/handlers/grpc_server.go
abbrev pub bank_iin : List ℕ
bank_iin = codes "26500"
