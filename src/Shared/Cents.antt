-- ===== src/Shared/Cents.antt =====
-- Columns of type NUMERIC(20, 2) (services/account-service/db/schema.sql and others): what a
-- statement stores in one is rounded to cents, a half away from 0. Amounts are in millionths, a
-- column is in cents.
use exbanka_4_backend.Shared.Tests.{
  ℕ, suc, refl, ◌+◌, ◌*◌, ◌/◌, ◌%◌, ◌≡◌, Bool, false, ◌==◌, arith, leb, ◌≢◌, ◌-◌, ◌≤◌, Bool-cases,
  inl, inr, sym, ap, ◌∙◌,
}
use exbanka_4_backend.Shared.Int.{
  ℤ, pos, negsuc, pos_part, neg_part, sub_ℕ, ◌+ℤ◌, ◌-ℤ◌, ltb_ℤ, +ℤ_parts, -ℤ_parts, eq_of_parts,
}

-- The amount that a column holds.
unfoldable pub of_cents : ℤ → ℤ
of_cents (pos c) = pos (c * 10000)
of_cents (negsuc c) = negsuc (c * 10000 + 9999)

unfoldable pub round : ℕ → ℕ
round n = (n + 5000) / 10000

-- What a column holds of an amount.
unfoldable pub to_cents : ℤ → ℤ
to_cents (pos n) = pos (round n)
to_cents (negsuc n) = sub_ℕ 0 (round (suc n))

-- What a column makes of an amount.
abbrev pub in_cents : ℤ → ℤ
in_cents x = of_cents (to_cents x)

-- Half a cent is the amount that is rounded in one direction when it is added and in the other when
-- it is taken off.
abbrev pub is_half_cent : ℤ → Bool
is_half_cent (pos n) = n % 10000 == 5000
is_half_cent (negsuc n) = suc n % 10000 == 5000

round_none : round 0 ≡ 0
unfolding round
round_none = refl

round_sum : (a x : ℕ) → round (a * 10000 + x) ≡ a + round x
unfolding round
round_sum a x = omega arith

round_under :
    (a x : ℕ) → (x % 10000 == 5000) ≡ false → x ≤ a * 10000 → round (a * 10000 - x) + round x ≡ a
unfolding round
round_under a x h le =
    let no : x % 10000 ≢ 5000 = λ e. absurd (ground (arith, h, e)) in omega (arith, no, le)

round_over : (a x : ℕ) → a * 10000 ≤ x → round (x - a * 10000) + a ≡ round x
unfolding round
round_over a x le = omega (arith, le)

to_cents-pos_part : (x : ℤ) → pos_part (to_cents x) ≡ round (pos_part x)
unfolding to_cents
to_cents-pos_part (pos n) = refl
to_cents-pos_part (negsuc n) = ground (arith, round_none)

to_cents-neg_part : (x : ℤ) → neg_part (to_cents x) ≡ round (neg_part x)
unfolding to_cents
to_cents-neg_part (pos n) = sym round_none
to_cents-neg_part (negsuc n) = ground arith

-- A whole number of cents less an amount.
round_less :
    (a x : ℕ)
    → (x % 10000 == 5000) ≡ false
    → round (a * 10000 - x) + round x ≡ round (x - a * 10000) + a
round_less a x h = elim (Bool-cases (leb x (a * 10000))) [
  | inl e ↦
      let le : x ≤ a * 10000 = ground (arith, e) in
      let none : x - a * 10000 ≡ 0 = omega (arith, le) in
      rw (none, round_none) (omega (arith, round_under a x h le))
  | inr e ↦
      let le : a * 10000 ≤ x = ground (arith, e) in
      let none : a * 10000 - x ≡ 0 = omega (arith, le) in
      rw (none, round_none) (omega (arith, round_over a x le))
]

-- Rounding by the parts of an amount.
to_cents-parts :
    (z c : ℤ) (p n : ℕ)
    → pos_part z ≡ p
    → neg_part z ≡ n
    → round p + neg_part c ≡ round n + pos_part c
    → to_cents z ≡ c
to_cents-parts z c p n is_p is_n h =
    let more : pos_part (to_cents z) ≡ round p = to_cents-pos_part z ∙ ap round is_p in
    let less : neg_part (to_cents z) ≡ round n = to_cents-neg_part z ∙ ap round is_n in
    eq_of_parts _ _ (omega (arith, more, less, h))

cents_sum :
    (b x : ℤ) (p n : ℕ)
    → pos_part (of_cents b +ℤ x) ≡ p
    → neg_part (of_cents b +ℤ x) ≡ n
    → round p + neg_part b + round (neg_part x) ≡ round n + pos_part b + round (pos_part x)
    → to_cents (of_cents b +ℤ x) ≡ b +ℤ to_cents x
cents_sum b x p n is_p is_n h =
    to_cents-parts _ _ p n is_p is_n
      (omega (arith, h, +ℤ_parts b (to_cents x), to_cents-pos_part x, to_cents-neg_part x))

cents_difference :
    (b x : ℤ) (p n : ℕ)
    → pos_part (of_cents b -ℤ x) ≡ p
    → neg_part (of_cents b -ℤ x) ≡ n
    → round p + neg_part b + round (pos_part x) ≡ round n + pos_part b + round (neg_part x)
    → to_cents (of_cents b -ℤ x) ≡ b -ℤ to_cents x
cents_difference b x p n is_p is_n h =
    to_cents-parts _ _ p n is_p is_n
      (omega (arith, h, -ℤ_parts b (to_cents x), to_cents-pos_part x, to_cents-neg_part x))

-- An amount that is not half a cent moves what a column holds by its own rounding.
pub to_cents-add : (b x : ℤ) → is_half_cent x ≡ false → to_cents (of_cents b +ℤ x) ≡ b +ℤ to_cents x
unfolding of_cents ◌+ℤ◌
to_cents-add (pos b) (pos x) h =
    cents_sum (pos b) (pos x) (b * 10000 + x) 0 (ground arith) (ground arith)
      (omega (arith, round_sum b x, round_none))
to_cents-add (pos b) (negsuc x) h =
    cents_sum (pos b) (negsuc x) (b * 10000 - suc x) (suc x - b * 10000) (ground arith)
      (ground arith) (omega (arith, round_less b (suc x) h, round_none))
to_cents-add (negsuc b) (pos x) h =
    cents_sum (negsuc b) (pos x) (x - suc b * 10000) (suc b * 10000 - x) (ground arith)
      (ground arith) (omega (arith, round_less (suc b) x h, round_none))
to_cents-add (negsuc b) (negsuc x) h =
    cents_sum (negsuc b) (negsuc x) 0 (suc b * 10000 + suc x) (ground arith) (ground arith)
      (omega (arith, round_sum (suc b) (suc x), round_none))

pub to_cents-sub : (b x : ℤ) → is_half_cent x ≡ false → to_cents (of_cents b -ℤ x) ≡ b -ℤ to_cents x
unfolding of_cents ◌-ℤ◌
to_cents-sub (pos b) (pos x) h =
    cents_difference (pos b) (pos x) (b * 10000 - x) (x - b * 10000) (ground arith) (ground arith)
      (omega (arith, round_less b x h, round_none))
to_cents-sub (pos b) (negsuc x) h =
    cents_difference (pos b) (negsuc x) (b * 10000 + suc x) 0 (ground arith) (ground arith)
      (omega (arith, round_sum b (suc x), round_none))
to_cents-sub (negsuc b) (pos x) h =
    cents_difference (negsuc b) (pos x) 0 (suc b * 10000 + x) (ground arith) (ground arith)
      (omega (arith, round_sum (suc b) x, round_none))
to_cents-sub (negsuc b) (negsuc x) h =
    cents_difference (negsuc b) (negsuc x) (suc x - suc b * 10000) (suc b * 10000 - suc x)
      (ground arith) (ground arith) (omega (arith, round_less (suc b) (suc x) h, round_none))

-- Rounding keeps the sign.
pub to_cents_nonneg : (z : ℤ) → ltb_ℤ z (pos 0) ≡ false → ltb_ℤ (to_cents z) (pos 0) ≡ false
to_cents_nonneg z h =
    let none : neg_part z ≡ 0 = ground (arith, h) in
    let small : neg_part (to_cents z) ≡ 0 = to_cents-neg_part z ∙ ap round none ∙ round_none in
    ground (arith, small)

pub of_cents_nonneg : (c : ℤ) → ltb_ℤ (of_cents c) (pos 0) ≡ ltb_ℤ c (pos 0)
unfolding of_cents
of_cents_nonneg (pos c) = ground arith
of_cents_nonneg (negsuc c) = ground arith
