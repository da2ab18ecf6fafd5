-- ===== src/Loan/Collection.antt =====
-- services/loan-service/handlers/cron.go: the collection of installments and the monthly change of
-- the variable rates. The day, the time and the random spreads are arguments. A row whose
-- installment or debt is NULL is skipped where it is read. An error that the code logs and returns
-- from is `internal` here.
use exbanka_4_backend.Shared.Tests.{
  ℕ, suc, ◌+◌, ◌-◌, Bool, true, false, ◌&&◌, ◌||◌, Option, none, some, List, [], ◌∷◌, String,
  str_eq, ◌==◌, ltb, leb, if◌then◌else◌,
}
use exbanka_4_backend.Shared.Int.{ℤ, pos, ◌+ℤ◌, ◌-ℤ◌, leb_ℤ, ltb_ℤ, eqb_ℤ}
use exbanka_4_backend.Shared.Table.{update_where, count_where}
use exbanka_4_backend.Shared.Float.{Float}
use exbanka_4_backend.Shared.Account.{available_of, Account, has_number, debit}
use exbanka_4_backend.Shared.Database.{
  Action, ⊤, internal, pure, query, exec, attempt, select_row, ◌>>=◌, ◌>>◌,
}
use exbanka_4_backend.Shared.Sparse.{try_update}
use exbanka_4_backend.Loan.State.{
  Loan, Installment, Store, Calendar, loan_has_id, installment_has_id, is_open,
}
use exbanka_4_backend.Loan.Rates.{effective_annual_rate, monthly_installment}
use exbanka_4_backend.Loan.Application.{bank_account, credit_client}

-- What the query for the loans that are due returns of a loan.
pub record Due : Type 0 where
  pub loan_id : ℕ
  pub account_number : String
  pub amount : ℤ
  pub currency : String
  pub remaining_debt : ℤ

abbrev is_open_of : ℕ → Installment → Bool
is_open_of loan x = (x.loan_id == loan) && is_open x

abbrev earlier : Installment → Option Installment → Option Installment
earlier x none = some x
earlier x (some y) = if ltb y.expected_due_date x.expected_due_date then some y else some x

-- `… ORDER BY expected_due_date ASC LIMIT 1`
unfoldable pub first_due : ℕ → List Installment → Option Installment
first_due loan [] = none
first_due loan (x ∷ t) =
    let rest = first_due loan t in if is_open_of loan x then earlier x rest else rest

-- The guarded debit, and its rows affected.
abbrev pub can_pay : String → ℤ → Account → Bool
can_pay number amount a = has_number number a && leb_ℤ amount (available_of a)

unfoldable pub debit_client : String → ℤ → Store → ℕ × Store
debit_client number amount s = (
  count_where (can_pay number amount) s.accounts,
  record s { accounts = update_where (can_pay number amount) (debit amount) s.accounts },
)

abbrev as_paid : ℕ → Installment → Installment
as_paid today x = record x { status = "PAID"; actual_due_date = some today }

unfoldable pub mark_paid : ℕ → ℕ → Store → Store
mark_paid i today s = record s {
  installments = update_where (installment_has_id i) (as_paid today) s.installments;
}

abbrev next_date : Calendar → Option ℕ → Option ℕ
next_date cal none = none
next_date cal (some d) = some (cal.next_month d)

-- The loan is paid off when nothing remains.
abbrev pub as_advanced : Calendar → ℤ → Loan → Loan
as_advanced cal remaining l = record l {
  remaining_debt = some remaining;
  next_installment_date = next_date cal l.next_installment_date;
  status = if eqb_ℤ remaining (pos 0) then "PAID_OFF" else "APPROVED";
}

unfoldable pub advance : Calendar → ℕ → ℤ → Store → Store
advance cal i remaining s = record s {
  loans = update_where (loan_has_id i) (as_advanced cal remaining) s.loans;
}

abbrev pub new_remaining : Float → ℤ → ℤ → ℤ
new_remaining fl debt amount =
    let left = fl.round_cents (debt -ℤ amount) in if ltb_ℤ left (pos 0) then pos 0 else left

unfoldable pub collected : Float → Calendar → ℕ → Due → Installment → Account → Action Store ⊤
collected fl cal today due x bank = do
  try_update (credit_client bank.account_number due.amount)
  try_update (mark_paid x.id today)
  try_update (advance cal due.loan_id (new_remaining fl due.remaining_debt due.amount))

abbrev pub as_late : ℕ → ℕ → Installment → Installment
as_late retry now x = record x { status = "LATE"; retry_count = retry; last_retry_at = some now }

unfoldable pub mark_late : ℕ → ℕ → ℕ → Store → Store
mark_late i retry now s = record s {
  installments = update_where (installment_has_id i) (as_late retry now) s.installments;
}

abbrev pub in_delay : ℤ → Loan → Loan
in_delay penalty l = record l { status = "IN_DELAY"; effective_rate = l.effective_rate +ℤ penalty }

unfoldable pub set_in_delay : ℕ → ℤ → Store → Store
set_in_delay i penalty s = record s {
  loans = update_where (loan_has_id i) (in_delay penalty) s.loans;
}

-- From the fifth retry on.
abbrev pub penalty_rate : ℕ → ℤ
penalty_rate retry = if leb 5 retry then pos 50000 else pos 0

unfoldable pub missed : ℕ → Due → Installment → Action Store ⊤
missed now due x = do
  try_update (mark_late x.id (suc x.retry_count) now)
  try_update (set_in_delay due.loan_id (penalty_rate (suc x.retry_count)))

unfoldable pub collect_from :
    Float → Calendar → ℕ → ℕ → Due → Installment → Account → Action Store ⊤
collect_from fl cal today now due x bank = do
  rows ← exec (debit_client due.account_number due.amount)
  if ltb 0 rows then collected fl cal today due x bank else missed now due x

-- processInstallment
unfoldable pub process_installment : Float → Calendar → ℕ → ℕ → Due → Action Store ⊤
process_installment fl cal today now due = do
  x ← select_row (λ s. first_due due.loan_id s.installments) internal
  bank ← bank_account due.currency
  collect_from fl cal today now due x bank

-- `EXISTS (… last_retry_at IS NULL OR last_retry_at < NOW() - INTERVAL '72 hours')`
abbrev retry_is_over : ℕ → Option ℕ → Bool
retry_is_over now none = true
retry_is_over now (some t) = ltb (t + 259200) now

abbrev may_retry : ℕ → ℕ → Installment → Bool
may_retry now loan x = is_open_of loan x && retry_is_over now x.last_retry_at

abbrev date_is : ℕ → Option ℕ → Bool
date_is today none = false
date_is today (some d) = d == today

-- The conditions of the two queries; a loan id above 0 forces that loan.
unfoldable pub is_due : ℕ → ℕ → ℕ → List Installment → Loan → Bool
is_due forced today now installments l =
    if ltb 0 forced
    then (l.id == forced) && (str_eq l.status "APPROVED" || str_eq l.status "IN_DELAY")
    else (str_eq l.status "APPROVED" && date_is today l.next_installment_date)
      || (str_eq l.status "IN_DELAY" && ltb 0 (count_where (may_retry now l.id) installments))

abbrev due_of : Loan → Option ℤ → Option ℤ → List Due → List Due
due_of l none debt rest = rest
due_of l (some amount) none rest = rest
due_of l (some amount) (some debt) rest =
    (record {
      loan_id = l.id;
      account_number = l.account_number;
      amount = amount;
      currency = l.currency;
      remaining_debt = debt;
    })
    ∷ rest

unfoldable pub due_loans : (Loan → Bool) → List Loan → List Due
due_loans p [] = []
due_loans p (l ∷ t) =
    let rest = due_loans p t in
    if p l then due_of l l.next_installment_amount l.remaining_debt rest else rest

-- The loop over the loans that are due: one that fails does not stop the others.
unfoldable pub process_all : Float → Calendar → ℕ → ℕ → List Due → Action Store ⊤
process_all fl cal today now [] = pure tt
process_all fl cal today now (d ∷ ds) = do
  attempt (process_installment fl cal today now d)
  process_all fl cal today now ds

-- collectInstallments
unfoldable pub collect_installments : Float → Calendar → ℕ → ℕ → ℕ → Action Store ⊤
collect_installments fl cal today now forced = do
  due ← query (λ s. due_loans (is_due forced today now s.installments) s.loans)
  process_all fl cal today now due

abbrev is_paid_of : ℕ → Installment → Bool
is_paid_of loan x = (x.loan_id == loan) && str_eq x.status "PAID"

-- paidInstallmentCount
unfoldable pub paid_installment_count : ℕ → Action Store ℕ
paid_installment_count loan = query (λ s. count_where (is_paid_of loan) s.installments)

abbrev count_or_0 : Option ℕ → ℕ
count_or_0 none = 0
count_or_0 (some n) = n

abbrev pub at_least : ℤ → ℤ
at_least rate = if ltb_ℤ rate (pos 10000) then pos 10000 else rate

abbrev pub with_rate : ℤ → ℤ → Loan → Loan
with_rate rate amount l = record l { effective_rate = rate; next_installment_amount = some amount }

unfoldable pub set_rate : ℕ → ℤ → ℤ → Store → Store
set_rate i rate amount s = record s {
  loans = update_where (loan_has_id i) (with_rate rate amount) s.loans;
}

abbrev new_rate : Loan → ℤ → ℤ
new_rate l spread = at_least (effective_annual_rate l.loan_type l.amount false spread)

abbrev pub reprice : Float → Loan → ℤ → ℕ → Option ℤ → Action Store ⊤
reprice fl l rate remaining none = pure tt
reprice fl l rate remaining (some debt) =
    try_update (set_rate l.id rate (monthly_installment fl debt rate remaining))

unfoldable pub update_rate : Float → Loan → ℤ → Action Store ⊤
update_rate fl l spread = do
  paid ← attempt (paid_installment_count l.id)
  if leb l.repayment_period (count_or_0 paid)
      then pure tt
      else reprice fl l (new_rate l spread) (l.repayment_period - count_or_0 paid) l.remaining_debt

-- The loop over the loans with a variable rate, each with the spread that is drawn for it.
unfoldable pub update_rates : Float → List Loan → List ℤ → Action Store ⊤
update_rates fl [] spreads = pure tt
update_rates fl (l ∷ ls) [] = pure tt
update_rates fl (l ∷ ls) (x ∷ xs) = do update_rate fl l x; update_rates fl ls xs

abbrev has_debt : Option ℤ → Bool
has_debt none = false
has_debt (some x) = true

abbrev is_variable : Loan → Bool
is_variable l =
    str_eq l.interest_rate_type "VARIABLE"
    && (str_eq l.status "APPROVED" && has_debt l.remaining_debt)

unfoldable pub select_where : {A : Type 0} → (A → Bool) → List A → List A
select_where p [] = []
select_where p (x ∷ t) = if p x then x ∷ select_where p t else select_where p t

-- updateVariableRates
unfoldable pub update_variable_rates : Float → List ℤ → Action Store ⊤
update_variable_rates fl spreads = do
  loans ← query (λ s. select_where is_variable s.loans)
  update_rates fl loans spreads
