-- ===== src/Shared/Float.antt =====
-- The operations of float64 whose result is not an exact decimal. A component that multiplies,
-- divides or rounds takes them as a parameter. Amounts, prices and rates are counted in millionths,
-- the finest scale of the database's columns.
use exbanka_4_backend.Shared.Tests.{ℕ, ◌*◌}
use exbanka_4_backend.Shared.Int.{ℤ, pos, ◌≤ℤ◌}

-- The conversion `float64(n)` of a count.
abbrev pub of_int : ℕ → ℤ
of_int n = pos (n * 1000000)

pub record Float : Type 0 where
  pub mul : ℤ → ℤ → ℤ
  pub div : ℤ → ℤ → ℤ
  -- math.Pow at a whole exponent, and math.Round(x * 100) / 100.
  pub pow : ℤ → ℕ → ℤ
  pub round_cents : ℤ → ℤ

-- IEEE 754: a product of two numbers that are not negative is not negative.
abbrev pub MulNonneg : Float → Type 0
MulNonneg fl = (a b : ℤ) → pos 0 ≤ℤ a → pos 0 ≤ℤ b → pos 0 ≤ℤ fl.mul a b
