-- ===== src/Loan/Application.antt =====
-- The handlers of services/loan-service/handlers/grpc_server.go that write: SubmitLoanApplication,
-- ApproveLoan and RejectLoan. The random number and the day are arguments. A loan is answered as its
-- id, its number and its monthly installment.
use exbanka_4_backend.Shared.Tests.{
  ℕ, zero, suc, ◌+◌, Bool, not, ◌&&◌, ◌||◌, Option, none, some, [], ◌∷◌, ◌++◌, String, str_eq, ◌==◌,
  if◌then◌else◌,
}
use exbanka_4_backend.Shared.Int.{ℤ, pos, leb_ℤ}
use exbanka_4_backend.Shared.Table.{find_where, update_where, count_where}
use exbanka_4_backend.Shared.Float.{Float}
use exbanka_4_backend.Shared.Account.{
  Account, has_number, credit, debit, currency_has_id, currency_has_code,
}
use exbanka_4_backend.Shared.Database.{
  Action, ⊤, internal, not_found, invalid_argument, failed_precondition, pure, exec, attempt,
  update, select_row, insert_returning, or_throw, throw_if, transaction, ◌>>=◌, ◌>>◌,
}
use exbanka_4_backend.Loan.State.{Loan, MiddleRate, Store, Calendar, loan_has_id, is_bank_in}
use exbanka_4_backend.Loan.Rates.{
  lookup_rate_tier, effective_annual_rate, monthly_installment, valid_repayment_period,
}

pub record Application : Type 0 where
  pub client_id : ℕ
  pub account_number : String
  pub loan_type : String
  pub interest_rate_type : String
  pub amount : ℤ
  pub currency : String
  pub repayment_period : ℕ

abbrev is_loan_type : String → Bool
is_loan_type t =
    str_eq t "CASH"
    || (str_eq t "HOUSING" || (str_eq t "AUTO" || (str_eq t "REFINANCING" || str_eq t "STUDENT")))

abbrev is_rate_type : String → Bool
is_rate_type t = str_eq t "FIXED" || str_eq t "VARIABLE"

-- The checks that read nothing.
unfoldable pub check_application : Application → Action Store ⊤
check_application req = do
  throw_if (not (is_loan_type req.loan_type)) invalid_argument
  throw_if (not (is_rate_type req.interest_rate_type)) invalid_argument
  throw_if (leb_ℤ req.amount (pos 0)) invalid_argument
  throw_if (req.repayment_period == 0) invalid_argument
  throw_if (not (valid_repayment_period req.loan_type req.repayment_period)) invalid_argument

unfoldable pub check_currency : Application → Action Store ⊤
check_currency req = do
  a ← select_row (λ s. find_where (has_number req.account_number) s.accounts) not_found
  c ← select_row (λ s. find_where (currency_has_id a.currency_id) s.currencies) internal
  throw_if (not (str_eq c.code req.currency)) invalid_argument

abbrev has_code : String → MiddleRate → Bool
has_code c r = str_eq r.currency_code c

-- toRSD
unfoldable pub to_rsd : Float → ℤ → String → Action Store ℤ
to_rsd fl amount currency = if str_eq currency "RSD" then pure amount else do
  r ← select_row (λ s. find_where (has_code currency) s.rates) internal
  pure (fl.mul amount r.middle_rate)

-- generateLoanNumber, from the draw below 8,999,999,999,999.
unfoldable pub generate_loan_number : ℕ → ℕ
generate_loan_number draw = 1000000000000 + draw

unfoldable pub new_loan : Float → Calendar → ℕ → Application → ℤ → ℕ → ℕ → Loan
new_loan fl cal today req amount_rsd number id =
    let fixed = str_eq req.interest_rate_type "FIXED" in
    let rate = effective_annual_rate req.loan_type amount_rsd fixed (pos 0) in
    record {
      id = id;
      loan_number = number;
      account_number = req.account_number;
      client_id = req.client_id;
      loan_type = req.loan_type;
      interest_rate_type = req.interest_rate_type;
      amount = req.amount;
      currency = req.currency;
      repayment_period = req.repayment_period;
      nominal_rate = lookup_rate_tier amount_rsd fixed;
      effective_rate = rate;
      agreed_date = today;
      maturity_date = cal.add_months today req.repayment_period;
      next_installment_amount = some (monthly_installment fl req.amount rate req.repayment_period);
      next_installment_date = some (cal.add_months today 1);
      remaining_debt = some req.amount;
      status = "PENDING";
    }

abbrev has_loan_number : ℕ → Loan → Bool
has_loan_number n l = l.loan_number == n

-- The INSERT; loan_number is UNIQUE.
unfoldable pub insert_loan : (ℕ → Loan) → Store → Option (ℕ × Store)
insert_loan made s =
    if count_where (has_loan_number (made s.next_loan).loan_number) s.loans == 0
    then some (
      s.next_loan,
      record s { loans = s.loans ++ (made s.next_loan ∷ []); next_loan = suc s.next_loan },
    )
    else none

abbrev or_raw : ℤ → Option ℤ → ℤ
or_raw raw none = raw
or_raw raw (some x) = x

unfoldable pub store_loan : Float → Calendar → ℕ → Option ℕ → Application → ℤ → Action Store (ℕ × ℕ)
store_loan fl cal today draw req amount_rsd = do
  n ← or_throw draw internal
  id ←
      insert_returning (insert_loan (new_loan fl cal today req amount_rsd (generate_loan_number n)))
  pure (id, generate_loan_number n)

-- SubmitLoanApplication
unfoldable pub submit_loan_application :
    Float → Calendar → ℕ → Option ℕ → Application → Action Store (ℕ × ℕ)
submit_loan_application fl cal today draw req = do
  check_application req
  check_currency req
  rsd ← attempt (to_rsd fl req.amount req.currency)
  store_loan fl cal today draw req (or_raw req.amount rsd)

unfoldable pub debit_bank : String → ℤ → Store → Store
debit_bank number amount s = record s {
  accounts = update_where (has_number number) (debit amount) s.accounts;
}

unfoldable pub credit_client : String → ℤ → Store → Store
credit_client number amount s = record s {
  accounts = update_where (has_number number) (credit amount) s.accounts;
}

-- The bank's account for a currency.
unfoldable pub bank_account : String → Action Store Account
bank_account currency = do
  c ← select_row (λ s. find_where (currency_has_code currency) s.currencies) internal
  select_row (λ s. find_where (is_bank_in c.id) s.accounts) internal

unfoldable pub add_installment : Loan → ℤ → ℕ → Store → Store
add_installment l amount due s = record s {
  installments =
      s.installments
      ++ ((record {
        id = s.next_installment;
        loan_id = l.id;
        installment_amount = amount;
        interest_rate = l.effective_rate;
        currency = l.currency;
        expected_due_date = due;
        actual_due_date = none;
        status = "UNPAID";
        retry_count = 0;
        last_retry_at = none;
      })
          ∷ []);
  next_installment = suc s.next_installment;
}

-- The loop from `i` on, for `n` installments.
unfoldable pub create_installments : Calendar → Loan → ℤ → ℕ → ℕ → Action Store ⊤
create_installments cal l amount i zero = pure tt
create_installments cal l amount i (suc n) = do
  update (add_installment l amount (cal.add_months l.agreed_date i))
  create_installments cal l amount (suc i) n

abbrev pub as_approved : ℕ → ℤ → Loan → Loan
as_approved date amount l = record l {
  status = "APPROVED";
  next_installment_date = some date;
  next_installment_amount = some amount;
  remaining_debt = some l.amount;
}

unfoldable pub mark_approved : ℕ → ℕ → ℤ → Store → Store
mark_approved i date amount s = record s {
  loans = update_where (loan_has_id i) (as_approved date amount) s.loans;
}

unfoldable pub make_schedule : Calendar → Loan → ℤ → Action Store ⊤
make_schedule cal l amount = do
  create_installments cal l amount 1 l.repayment_period
  update (mark_approved l.id (cal.add_months l.agreed_date 1) amount)

-- ApproveLoan
unfoldable pub approve_loan : Float → Calendar → ℕ → Action Store ⊤
approve_loan fl cal i = do
  l ← select_row (λ s. find_where (loan_has_id i) s.loans) not_found
  throw_if (not (str_eq l.status "PENDING")) failed_precondition
  bank ← bank_account l.currency
  update (debit_bank bank.account_number l.amount)
  update (credit_client l.account_number l.amount)
  transaction
      (make_schedule cal l (monthly_installment fl l.amount l.effective_rate l.repayment_period))

abbrev pub is_pending_loan : ℕ → Loan → Bool
is_pending_loan i l = (l.id == i) && str_eq l.status "PENDING"

abbrev pub as_rejected : Loan → Loan
as_rejected l = record l { status = "REJECTED" }

unfoldable pub mark_rejected : ℕ → Store → ℕ × Store
mark_rejected i s = (
  count_where (is_pending_loan i) s.loans,
  record s { loans = update_where (is_pending_loan i) as_rejected s.loans },
)

-- RejectLoan
unfoldable pub reject_loan : ℕ → Action Store ⊤
reject_loan i = do rows ← exec (mark_rejected i); throw_if (rows == 0) not_found
