-- ===== src/Loan/Rates.antt =====
-- services/loan-service/handlers/rates.go: the tiers of the interest rate, the bank's margin, the
-- monthly installment and the periods that may be chosen.
use exbanka_4_backend.Shared.Tests.{
  ℕ, Bool, true, ◌||◌, Option, none, some, List, [], ◌∷◌, String, str_eq, ◌==◌, if◌then◌else◌,
}
use exbanka_4_backend.Shared.Int.{ℤ, pos, ◌+ℤ◌, ◌-ℤ◌, leb_ℤ, eqb_ℤ}
use exbanka_4_backend.Shared.Float.{Float, of_int}

-- No bound stands for math.MaxFloat64.
pub record RateTier : Type 0 where
  pub max_rsd : Option ℤ
  pub fixed_rate : ℤ
  pub base_rate : ℤ

abbrev tier : ℕ → ℕ → RateTier
tier max_rsd rate = record {
  max_rsd = some (of_int max_rsd);
  fixed_rate = pos rate;
  base_rate = pos rate;
}

abbrev pub last_tier : RateTier
last_tier = record { max_rsd = none; fixed_rate = pos 4750000; base_rate = pos 4750000 }

abbrev pub rate_tiers : List RateTier
rate_tiers =
    tier 500000 6250000
    ∷ tier 1000000 6000000
    ∷ tier 2000000 5750000
    ∷ tier 5000000 5500000
    ∷ tier 10000000 5250000
    ∷ tier 20000000 5000000
    ∷ last_tier
    ∷ []

-- bankMargin, 0 for a type that it does not have.
unfoldable pub bank_margin : String → ℤ
bank_margin loan_type =
    if str_eq loan_type "CASH"
    then pos 1750000
    else if str_eq loan_type "HOUSING"
    then pos 1500000
    else if str_eq loan_type "AUTO"
    then pos 1250000
    else if str_eq loan_type "REFINANCING"
    then pos 1000000
    else if str_eq loan_type "STUDENT"
    then pos 750000
    else pos 0

abbrev rate_of : Bool → RateTier → ℤ
rate_of fixed t = if fixed then t.fixed_rate else t.base_rate

abbrev within : ℤ → Option ℤ → Bool
within amount none = true
within amount (some m) = leb_ℤ amount m

-- The loop over the tiers, and what comes after it.
unfoldable pub first_tier : ℤ → List RateTier → RateTier
first_tier amount_rsd [] = last_tier
first_tier amount_rsd (t ∷ ts) = if within amount_rsd t.max_rsd then t else first_tier amount_rsd ts

-- lookupRateTier
unfoldable pub lookup_rate_tier : ℤ → Bool → ℤ
lookup_rate_tier amount_rsd fixed = rate_of fixed (first_tier amount_rsd rate_tiers)

-- effectiveAnnualRate
unfoldable pub effective_annual_rate : String → ℤ → Bool → ℤ → ℤ
effective_annual_rate loan_type amount_rsd fixed spread =
    lookup_rate_tier amount_rsd fixed +ℤ bank_margin loan_type +ℤ spread

-- From the monthly rate and its factor.
abbrev annuity : Float → ℤ → ℤ → ℤ → ℤ
annuity fl principal r factor =
    fl.round_cents (fl.div (fl.mul principal (fl.mul r factor)) (factor -ℤ of_int 1))

abbrev at_rate : Float → ℤ → ℤ → ℕ → ℤ
at_rate fl principal r periods = annuity fl principal r (fl.pow (of_int 1 +ℤ r) periods)

-- monthlyInstallment
unfoldable pub monthly_installment : Float → ℤ → ℤ → ℕ → ℤ
monthly_installment fl principal rate periods =
    if eqb_ℤ rate (pos 0)
    then fl.div principal (of_int periods)
    else at_rate fl principal (fl.div (fl.div rate (of_int 100)) (of_int 12)) periods

-- validRepaymentPeriods, and the lookup of a period in it.
unfoldable pub valid_repayment_period : String → ℕ → Bool
valid_repayment_period loan_type n =
    if str_eq loan_type "HOUSING"
    then (n == 60) || ((n == 120) || ((n == 180) || ((n == 240) || ((n == 300) || (n == 360)))))
    else (n == 12)
      || ((n == 24) || ((n == 36) || ((n == 48) || ((n == 60) || ((n == 72) || (n == 84))))))
