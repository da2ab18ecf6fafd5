-- ===== src/Loan/State.antt =====
-- The rows of services/loan-service/db/schema.sql, of account_db, and of exchange_db with the rates
-- of today. Amounts are in millionths and rates in millionths of a percent. What an application says
-- of its client's job and purpose is left out, and so are the notifications.
use exbanka_4_backend.Shared.Tests.{ℕ, Bool, ◌&&◌, ◌||◌, Option, List, String, str_eq, ◌==◌}
use exbanka_4_backend.Shared.Int.{ℤ}
use exbanka_4_backend.Shared.Account.{Account, Currency}

pub record Loan : Type 0 where
  pub id : ℕ
  pub loan_number : ℕ
  pub account_number : String
  pub client_id : ℕ
  pub loan_type : String
  pub interest_rate_type : String
  pub amount : ℤ
  pub currency : String
  pub repayment_period : ℕ
  pub nominal_rate : ℤ
  pub effective_rate : ℤ
  pub agreed_date : ℕ
  pub maturity_date : ℕ
  pub next_installment_amount : Option ℤ
  pub next_installment_date : Option ℕ
  pub remaining_debt : Option ℤ
  pub status : String

pub record Installment : Type 0 where
  pub id : ℕ
  pub loan_id : ℕ
  pub installment_amount : ℤ
  pub interest_rate : ℤ
  pub currency : String
  pub expected_due_date : ℕ
  pub actual_due_date : Option ℕ
  pub status : String
  pub retry_count : ℕ
  pub last_retry_at : Option ℕ

pub record MiddleRate : Type 0 where
  pub currency_code : String
  pub middle_rate : ℤ

pub record Store : Type 0 where
  pub loans : List Loan
  pub installments : List Installment
  pub next_loan : ℕ
  pub next_installment : ℕ
  pub accounts : List Account
  pub currencies : List Currency
  pub rates : List MiddleRate

-- Dates are days. Go's AddDate by months, and Postgres' INTERVAL '1 month'.
pub record Calendar : Type 0 where
  pub add_months : ℕ → ℕ → ℕ
  pub next_month : ℕ → ℕ

abbrev pub loan_has_id : ℕ → Loan → Bool
loan_has_id i l = l.id == i

abbrev pub installment_has_id : ℕ → Installment → Bool
installment_has_id i x = x.id == i

-- `status IN ('UNPAID', 'LATE')`
abbrev pub is_open : Installment → Bool
is_open x = str_eq x.status "UNPAID" || str_eq x.status "LATE"

abbrev pub is_bank_in : ℕ → Account → Bool
is_bank_in currency a = str_eq a.account_type "BANK" && (a.currency_id == currency)
