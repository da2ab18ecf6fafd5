-- ===== src/Loan/Tests.antt =====
-- A loan of 1,000,000 RSD over 12 months.
use exbanka_4_backend.Shared.Tests.{
  ℕ, ◌≡◌, refl, true, false, none, some, List, [], ◌∷◌, ◌*◌, ◌/◌, ◌+◌, arith, String,
}
use exbanka_4_backend.Shared.Int.{ℤ, pos, ◌≤ℤ◌, pos_part}
use exbanka_4_backend.Shared.Table.{find_where, count_where}
use exbanka_4_backend.Shared.Float.{Float}
use exbanka_4_backend.Shared.Account.{Account, Currency}
use exbanka_4_backend.Shared.Database.{Outages, err, internal}
use exbanka_4_backend.Shared.Ensures.{Ensures}
use exbanka_4_backend.Loan.State.{Loan, Store, Calendar}
use exbanka_4_backend.Loan.Rates.{lookup_rate_tier}
use exbanka_4_backend.Loan.Application.{approve_loan}
use exbanka_4_backend.Loan.Collection.{Due}
use exbanka_4_backend.Loan.Lifecycle.{Call, approve, collect, IsClean, run_calls, run_calls-IsClean}
use exbanka_4_backend.Loan.Tiers.{lookup_rate_tier_antitone}
use exbanka_4_backend.Loan.Approved.{
  IsScheduled, no_transaction, paid_out, approve_loan-IsScheduled, approve_loan_lost,
}

abbrev float : Float
float = record {
  mul = λ a b. pos (pos_part a * pos_part b / 1000000);
  div = λ a b. a;
  pow = λ a n. a;
  round_cents = λ a. a;
}

-- Months of 30 days.
abbrev calendar : Calendar
calendar = record { add_months = λ d n. d + 30 * n; next_month = λ d. d + 30 }

abbrev account : ℕ → String → String → ℤ → Account
account i number kind balance = record {
  id = i;
  account_number = number;
  owner_id = i;
  currency_id = 1;
  account_type = kind;
  status = "ACTIVE";
  balance = balance;
  available_balance = balance;
  daily_limit = none;
  monthly_limit = none;
  daily_spent = pos 0;
  monthly_spent = pos 0;
}

abbrev client : Account
client = account 1 "333000112345678911" "STANDARD" (pos 0)

abbrev bank : Account
bank = account 2 "333000100000000110" "BANK" (pos 900000000)

abbrev rsd : Currency
rsd = record { id = 1; code = "RSD" }

abbrev loan : Loan
loan = record {
  id = 5;
  loan_number = 1000000000007;
  account_number = "333000112345678911";
  client_id = 1;
  loan_type = "CASH";
  interest_rate_type = "FIXED";
  amount = pos 1000000000000;
  currency = "RSD";
  repayment_period = 12;
  nominal_rate = pos 6000000;
  effective_rate = pos 7750000;
  agreed_date = 100;
  maturity_date = 460;
  next_installment_amount = some (pos 86000000000);
  next_installment_date = some 130;
  remaining_debt = some (pos 1000000000000);
  status = "PENDING";
}

abbrev store : Store
store = record {
  loans = loan ∷ [];
  installments = [];
  next_loan = 6;
  next_installment = 1;
  accounts = client ∷ bank ∷ [];
  currencies = rsd ∷ [];
  rates = [];
}

lookup_rate_tier_antitone_example :
    lookup_rate_tier (pos 3000000000000) true ≤ℤ lookup_rate_tier (pos 400000000000) true
lookup_rate_tier_antitone_example =
    lookup_rate_tier_antitone (pos 400000000000) (pos 3000000000000) true (omega arith)

abbrev due : Due
due = record {
  loan_id = 5;
  account_number = "333000112345678911";
  amount = pos 86000000000;
  currency = "RSD";
  remaining_debt = pos 1000000000000;
}

approve_loan-IsScheduled_example :
    Ensures (IsScheduled loan store) (approve_loan float calendar 5) store
approve_loan-IsScheduled_example =
    approve_loan-IsScheduled float calendar 5 loan store (unfold find_where in refl)

approve_loan_lost_example :
    let (r, s1, _) = approve_loan float calendar 5 store no_transaction in
    let (r', s2, _) = approve_loan float calendar 5 s1 no_transaction in
    (r ≡ err internal)
    × (s1 ≡ record store { accounts = paid_out bank loan store.accounts })
    × (r' ≡ err internal)
    × (s2 ≡ record store { accounts = paid_out bank loan (paid_out bank loan store.accounts) })
approve_loan_lost_example =
    approve_loan_lost float calendar 5 loan rsd bank store (unfold find_where in refl) refl
      (unfold find_where in refl) (unfold find_where in refl)

-- An approval, and then a month's collection whose third statement fails.
abbrev calls : List (Call × Outages)
calls = (approve 5, []) ∷ (collect 130 11232000 0, false ∷ false ∷ true ∷ []) ∷ []

run_calls-IsClean_example : IsClean (run_calls float calendar calls store)
run_calls-IsClean_example =
    run_calls-IsClean float calendar calls store (unfold count_where in refl)
