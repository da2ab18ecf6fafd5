-- ===== src/Loan/Tiers.antt =====
-- The interest rates of services/loan-service/handlers/rates.go.
use exbanka_4_backend.Shared.Tests.{Bool, true, false, String, arith}
use exbanka_4_backend.Shared.Int.{ℤ, pos, ◌+ℤ◌, ◌≤ℤ◌, int_laws}
use exbanka_4_backend.Loan.Rates.{lookup_rate_tier, first_tier, bank_margin, effective_annual_rate}

-- A larger loan never has a higher base rate.
pub lookup_rate_tier_antitone :
    (a b : ℤ) (fixed : Bool) → a ≤ℤ b → lookup_rate_tier b fixed ≤ℤ lookup_rate_tier a fixed
unfolding lookup_rate_tier first_tier
lookup_rate_tier_antitone a b true h = ground (arith, h)
lookup_rate_tier_antitone a b false h = ground (arith, h)

lookup_rate_tier_bounds :
    (a : ℤ) (fixed : Bool)
    → (pos 4750000 ≤ℤ lookup_rate_tier a fixed) × (lookup_rate_tier a fixed ≤ℤ pos 6250000)
unfolding lookup_rate_tier first_tier
lookup_rate_tier_bounds a true = ground arith
lookup_rate_tier_bounds a false = ground arith

bank_margin_bounds : (t : String) → (pos 0 ≤ℤ bank_margin t) × (bank_margin t ≤ℤ pos 1750000)
unfolding bank_margin
bank_margin_bounds t = ground arith

-- The rate of a loan is its spread and at least 4.75, at most 8 percent, whatever its type, its
-- amount and its kind of rate are.
effective_annual_rate_bounds :
    (t : String) (a : ℤ) (fixed : Bool) (spread : ℤ)
    → (pos 4750000 +ℤ spread ≤ℤ effective_annual_rate t a fixed spread)
      × (effective_annual_rate t a fixed spread ≤ℤ pos 8000000 +ℤ spread)
unfolding effective_annual_rate
effective_annual_rate_bounds t a fixed spread = (
  omega (int_laws, (lookup_rate_tier_bounds a fixed).0, (bank_margin_bounds t).0),
  omega (int_laws, (lookup_rate_tier_bounds a fixed).1, (bank_margin_bounds t).1),
)
