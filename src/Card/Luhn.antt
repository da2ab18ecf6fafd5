-- ===== src/Card/Luhn.antt =====
-- services/card-service/utils/luhn.go: the Luhn check of a card number, read as its bytes.
use mathlib.Core.List.{reverse-append, append_assoc}
use exbanka_4_backend.Shared.Tests.{
  ℕ, ◌+◌, ◌-◌, ◌*◌, ◌%◌, ◌≤◌, ◌≡◌, ◌≢◌, ◌∙◌, ap, Bool, true, false, not, List, [], ◌∷◌, ◌++◌,
  reverse, arith, ltb, ◌==◌, if◌then◌else◌, Bool-cases, inl, inr,
}

-- `int(cardNumber[i] - '0')`, where the bytes are subtracted modulo 256.
abbrev digit : ℕ → ℕ
digit c = (c + 208) % 256

abbrev doubled : ℕ → ℕ
doubled d = if ltb 9 (d * 2) then d * 2 - 9 else d * 2

abbrev term : Bool → ℕ → ℕ
term double c = if double then doubled (digit c) else digit c

-- The loop, over the bytes from the right.
luhn_sum : Bool → ℕ → List ℕ → ℕ
luhn_sum double sum [] = sum
luhn_sum double sum (c ∷ cs) = luhn_sum (not double) (sum + term double c) cs

-- ValidateCardNumber
unfoldable pub validate : List ℕ → Bool
unfolding luhn_sum
validate number = luhn_sum false 0 (reverse number) % 10 == 0

-- GenerateCheckDigit, as the byte of `%d`, which is one digit here.
unfoldable pub check_digit : List ℕ → List ℕ
unfolding luhn_sum
check_digit partial = (b'0' + (10 - luhn_sum true 0 (reverse partial) % 10) % 10) ∷ []

luhn_sum_from :
    (double : Bool) (sum : ℕ) (cs : List ℕ) → luhn_sum double sum cs ≡ sum + luhn_sum double 0 cs
unfolding luhn_sum
luhn_sum_from double sum [] = omega arith
luhn_sum_from double sum (c ∷ cs) = omega (
  arith,
  luhn_sum_from (not double) (sum + term double c) cs,
  luhn_sum_from (not double) (0 + term double c) cs,
)

-- A number closed by its check digit passes the check, whatever bytes it is made of.
pub validate-check_digit : (partial : List ℕ) → validate (partial ++ check_digit partial) ≡ true
unfolding validate check_digit luhn_sum
validate-check_digit partial = rw (reverse-append partial (check_digit partial)) (
    ground (
      arith,
      luhn_sum_from true (0 + digit (b'0' + (10 - luhn_sum true 0 (reverse partial) % 10) % 10))
          (reverse partial),
    ))

-- Whether the next digit is doubled, after some were read.
parity : Bool → List ℕ → Bool
parity double [] = double
parity double (c ∷ cs) = parity (not double) cs

luhn_sum-append :
    (double : Bool) (sum : ℕ) (xs ys : List ℕ)
    → luhn_sum double sum (xs ++ ys) ≡ luhn_sum double sum xs + luhn_sum (parity double xs) 0 ys
unfolding luhn_sum parity
luhn_sum-append double sum [] ys = luhn_sum_from double sum ys
luhn_sum-append double sum (c ∷ xs) ys = luhn_sum-append (not double) (sum + term double c) xs ys

abbrev pub IsDigit : ℕ → Type 0
IsDigit c = (b'0' ≤ c) × (c ≤ b'9')

term_injective :
    (double : Bool) (c d k : ℕ)
    → IsDigit c
    → IsDigit d
    → (k + term double c) % 10 ≡ 0
    → (k + term double d) % 10 ≡ 0
    → c ≡ d
term_injective true c d k hc hd p q = ground arith
term_injective false c d k hc hd p q = ground arith

reverse_around : (xs ys : List ℕ) (c : ℕ) → reverse (xs ++ c ∷ ys) ≡ reverse ys ++ c ∷ reverse xs
reverse_around xs ys c =
    reverse-append xs (c ∷ ys)
    ∙ ap (λ l. l ++ reverse xs) (reverse-append (c ∷ []) ys)
    ∙ append_assoc (reverse ys) (c ∷ []) (reverse xs)

-- The sum around one byte.
sum_around :
    (xs ys : List ℕ)
    → (k : ℕ) × (b : Bool) × ((c : ℕ) → luhn_sum false 0 (reverse (xs ++ c ∷ ys)) ≡ k + term b c)
unfolding luhn_sum
sum_around xs ys =
    let b = parity false (reverse ys) in
    (
      luhn_sum false 0 (reverse ys) + luhn_sum (not b) 0 (reverse xs),
      b,
      λ c.
          rw (reverse_around xs ys c, luhn_sum-append false 0 (reverse ys) (c ∷ reverse xs))
            (omega (arith, luhn_sum_from (not b) (0 + term b c) (reverse xs))),
    )

-- The check finds every change of one digit: of two numbers that differ in one digit, at most one
-- passes.
pub validate_one_change :
    (xs ys : List ℕ) (c d : ℕ)
    → IsDigit c
    → IsDigit d
    → c ≢ d
    → validate (xs ++ c ∷ ys) ≡ true
    → validate (xs ++ d ∷ ys) ≡ false
unfolding validate
validate_one_change xs ys c d hc hd ne good =
    let (k, b, sum) = sum_around xs ys in
    elim (Bool-cases (luhn_sum false 0 (reverse (xs ++ d ∷ ys)) % 10 == 0)) [
      | inr bad ↦ bad
      | inl also ↦
          absurd (ne (term_injective b c d k hc hd (rest (sum c) good) (rest (sum d) also)))
    ]
  where
    rest : {n m : ℕ} → n ≡ m → (n % 10 == 0) ≡ true → m % 10 ≡ 0
    rest e h = ground arith
