-- ===== src/Card/Number.antt =====
-- Properties of the numbers that GenerateCardNumber of services/card-service/utils/card_number.go
-- makes.
use exbanka_4_backend.Shared.Tests.{
  ℕ, zero, suc, ◌+◌, ◌/◌, ◌%◌, ◌≡◌, refl, true, List, [], ◌∷◌, ◌++◌, String, str_eq, arith,
  if◌then◌else◌,
}
use exbanka_4_backend.Shared.Lists.{length, length-append}
use exbanka_4_backend.Card.Luhn.{validate, check_digit, validate-check_digit}
use exbanka_4_backend.Card.Brand.{
  generate_card_number, detect_card_name, zero_padded, pow10, mii, bank_iin, segment_len,
}

length-zero_padded : (n r : ℕ) → length (zero_padded n r) ≡ n
unfolding zero_padded
length-zero_padded zero r = refl
length-zero_padded (suc n) r = omega (
  arith,
  length-append (zero_padded n (r / 10)) ((b'0' + r % 10) ∷ []),
  length-zero_padded n (r / 10),
)

-- Every number made passes the Luhn check, for every brand, issuer code and draw.
pub generate_card_number-validate :
    (name : String) (iin : List ℕ) (draw : ℕ) → validate (generate_card_number name iin draw) ≡ true
unfolding generate_card_number
generate_card_number-validate name iin draw = validate-check_digit _

length-tail : (n r : ℕ) (l : List ℕ) → length (zero_padded n r ++ check_digit l) ≡ n + 1
unfolding check_digit
length-tail n r l =
    omega (arith, length-append (zero_padded n r) (check_digit l), length-zero_padded n r)

length-mii : (name : String) → length (mii name) ≡ 1
unfolding mii
length-mii name = ground arith

-- With an issuer code of five digits, as the bank's, a number has 15 digits for American Express and
-- 16 for every other brand.
pub length-generate_card_number :
    (name : String) (iin : List ℕ) (draw : ℕ)
    → length iin ≡ 5
    → length (generate_card_number name iin draw)
      ≡ (if str_eq name "AMERICAN_EXPRESS" then 15 else 16)
unfolding generate_card_number check_digit
length-generate_card_number name iin draw five =
    let n = segment_len name in
    let digits = zero_padded n (draw % pow10 n) in
    let partial = mii name ++ (iin ++ digits) in
    ground (
      arith,
      length-append partial (check_digit partial),
      length-append (mii name) (iin ++ digits),
      length-append iin digits,
      length-mii name,
      length-zero_padded n (draw % pow10 n),
      five,
    )

detect_visa :
    (rest : List ℕ)
    → length rest ≡ 10
    → detect_card_name (52 ∷ 50 ∷ 54 ∷ 53 ∷ 48 ∷ 48 ∷ rest) ≡ "VISA"
unfolding detect_card_name
detect_visa rest h = ground (arith, h)

detect_mastercard :
    (rest : List ℕ)
    → length rest ≡ 10
    → detect_card_name (53 ∷ 50 ∷ 54 ∷ 53 ∷ 48 ∷ 48 ∷ rest) ≡ "MASTERCARD"
unfolding detect_card_name
detect_mastercard rest h = ground (arith, h)

detect_dinacard :
    (rest : List ℕ) → length rest ≡ 10 → detect_card_name (57 ∷ 50 ∷ 54 ∷ 53 ∷ 48 ∷ 48 ∷ rest) ≡ ""
unfolding detect_card_name
detect_dinacard rest h = ground (arith, h)

detect_american_express :
    (rest : List ℕ) → length rest ≡ 9 → detect_card_name (51 ∷ 50 ∷ 54 ∷ 53 ∷ 48 ∷ 48 ∷ rest) ≡ ""
unfolding detect_card_name
detect_american_express rest h = ground (arith, h)

-- Under the bank's issuer code, a number made for VISA or MASTERCARD is recognised as such, and a
-- number made for DINACARD or AMERICAN_EXPRESS is recognised as no brand at all.
pub detect_generated :
    (draw : ℕ)
    → (detect_card_name (generate_card_number "VISA" bank_iin draw) ≡ "VISA")
      × (detect_card_name (generate_card_number "MASTERCARD" bank_iin draw) ≡ "MASTERCARD")
      × (detect_card_name (generate_card_number "DINACARD" bank_iin draw) ≡ "")
      × (detect_card_name (generate_card_number "AMERICAN_EXPRESS" bank_iin draw) ≡ "")
unfolding generate_card_number mii
detect_generated draw = (
  detect_visa _ (length-tail 9 (draw % pow10 9) _),
  detect_mastercard _ (length-tail 9 (draw % pow10 9) _),
  detect_dinacard _ (length-tail 9 (draw % pow10 9) _),
  detect_american_express _ (length-tail 8 (draw % pow10 8) _),
)
