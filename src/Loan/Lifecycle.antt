-- ===== src/Loan/Lifecycle.antt =====
-- The loans under the calls and the timed jobs of services/loan-service, one after the other.
use exbanka_4_backend.Shared.Tests.{
  ℕ, zero, suc, ◌≡◌, refl, Bool, true, false, not, ◌&&◌, Option, none, some, List, [], ◌∷◌, str_eq,
  String, arith, if◌then◌else◌,
}
use exbanka_4_backend.Shared.Int.{ℤ, pos, eqb_ℤ}
use exbanka_4_backend.Shared.Table.{count_where, count_where-update_where_keep, count_where-append}
use exbanka_4_backend.Shared.Float.{Float}
use exbanka_4_backend.Shared.Account.{Account}
use exbanka_4_backend.Shared.Database.{Action, Outages, Result, transaction}
use exbanka_4_backend.Shared.Ensures.{
  Ensures, Ensures-then, Ensures-tried, ensures_rules, Ensures-transaction, Ensures-select,
  Ensures-throw_if, Ensures-exec, Ensures-query,
}
use exbanka_4_backend.Shared.Dropped.{Ensures-try_update, Ensures-tried_update}
use exbanka_4_backend.Loan.State.{Loan, Installment, Store, Calendar, loan_has_id}
use exbanka_4_backend.Loan.Application.{
  Application, check_application, check_currency, to_rsd, new_loan, insert_loan, store_loan,
  submit_loan_application, debit_bank, credit_client, bank_account, add_installment,
  create_installments, as_approved, mark_approved, make_schedule, approve_loan, is_pending_loan,
  as_rejected, mark_rejected, reject_loan,
}
use exbanka_4_backend.Loan.Rates.{monthly_installment}
use exbanka_4_backend.Loan.Collection.{
  Due, debit_client, mark_paid, as_advanced, advance, collected, mark_late, in_delay, set_in_delay,
  missed, collect_from, process_installment, process_all, collect_installments, with_rate, set_rate,
  reprice, update_rate, update_rates, update_variable_rates, paid_installment_count,
}

abbrev is_zero : Option ℤ → Bool
is_zero none = false
is_zero (some x) = eqb_ℤ x (pos 0)

-- A loan that counts as paid off and still has a debt.
abbrev pub owes_after_all : Loan → Bool
owes_after_all l = str_eq l.status "PAID_OFF" && not (is_zero l.remaining_debt)

abbrev pub IsClean : Store → Type 0
IsClean s = count_where owes_after_all s.loans ≡ 0

paid_off_clean :
    (b : Bool) → (str_eq (if b then "PAID_OFF" else "APPROVED") "PAID_OFF" && not b) ≡ false
paid_off_clean true = refl
paid_off_clean false = refl

advance-IsClean :
    (cal : Calendar) (i : ℕ) (x : ℤ) (s : Store) → IsClean s → IsClean (advance cal i x s)
unfolding advance
advance-IsClean cal i x s h =
    count_where-update_where_keep (loan_has_id i) owes_after_all (as_advanced cal x) s.loans
      (λ l fits clean. paid_off_clean (eqb_ℤ x (pos 0))) h

set_in_delay-IsClean : (i : ℕ) (x : ℤ) (s : Store) → IsClean s → IsClean (set_in_delay i x s)
unfolding set_in_delay
set_in_delay-IsClean i x s h =
    count_where-update_where_keep (loan_has_id i) owes_after_all (in_delay x) s.loans
      (λ l fits clean. refl) h

set_rate-IsClean : (i : ℕ) (x y : ℤ) (s : Store) → IsClean s → IsClean (set_rate i x y s)
unfolding set_rate
set_rate-IsClean i x y s h =
    count_where-update_where_keep (loan_has_id i) owes_after_all (with_rate x y) s.loans
      (λ l fits clean. clean) h

mark_approved-IsClean :
    (i date : ℕ) (x : ℤ) (s : Store) → IsClean s → IsClean (mark_approved i date x s)
unfolding mark_approved
mark_approved-IsClean i date x s h =
    count_where-update_where_keep (loan_has_id i) owes_after_all (as_approved date x) s.loans
      (λ l fits clean. refl) h

mark_rejected-IsClean : (i : ℕ) (s : Store) → IsClean s → IsClean (mark_rejected i s).1
unfolding mark_rejected
mark_rejected-IsClean i s h =
    count_where-update_where_keep (is_pending_loan i) owes_after_all as_rejected s.loans
      (λ l fits clean. refl) h

insert_loan-IsClean :
    (fl : Float) (cal : Calendar) (today n : ℕ) (req : Application) (x : ℤ) (s s' : Store) (i : ℕ)
    → IsClean s
    → insert_loan (new_loan fl cal today req x n) s ≡ some (i, s')
    → IsClean s'
unfolding insert_loan new_loan count_where
insert_loan-IsClean fl cal today n req x s s' i h e = ground (
  arith,
  e,
  h,
  count_where-append owes_after_all s.loans (new_loan fl cal today req x n s.next_loan ∷ []),
)

-- The statements on the other tables.
module _ (s : Store) (h : IsClean s) where
  mark_paid-IsClean : (i today : ℕ) → IsClean (mark_paid i today s)
  unfolding mark_paid
  mark_paid-IsClean i today = h

  mark_late-IsClean : (i r now : ℕ) → IsClean (mark_late i r now s)
  unfolding mark_late
  mark_late-IsClean i r now = h

  debit_client-IsClean : (n : String) (x : ℤ) → IsClean (debit_client n x s).1
  unfolding debit_client
  debit_client-IsClean n x = h

  credit_client-IsClean : (n : String) (x : ℤ) → IsClean (credit_client n x s)
  unfolding credit_client
  credit_client-IsClean n x = h

  debit_bank-IsClean : (n : String) (x : ℤ) → IsClean (debit_bank n x s)
  unfolding debit_bank
  debit_bank-IsClean n x = h

  add_installment-IsClean : (l : Loan) (x : ℤ) (due : ℕ) → IsClean (add_installment l x due s)
  unfolding add_installment
  add_installment-IsClean l x due = h

ruleset clean_statements = (
  advance-IsClean, set_in_delay-IsClean, set_rate-IsClean, mark_approved-IsClean,
  mark_rejected-IsClean, mark_paid-IsClean, mark_late-IsClean, debit_client-IsClean,
  credit_client-IsClean, debit_bank-IsClean, add_installment-IsClean,
)

abbrev Clean : {A : Type 0} → Action Store A → Store → Type 0
Clean m s = Ensures (λ _. IsClean) m s

module _ (s : Store) (h : IsClean s) where
  bank_account-Clean : (c : String) → Clean (bank_account c) s
  unfolding bank_account
  bank_account-Clean c = search (ensures_rules, h) depth 8

  check_application-Clean : (req : Application) → Clean (check_application req) s
  unfolding check_application
  check_application-Clean req = search (ensures_rules, h) depth 12

  check_currency-Clean : (req : Application) → Clean (check_currency req) s
  unfolding check_currency
  check_currency-Clean req = search (ensures_rules, h) depth 12

  to_rsd-Clean : (fl : Float) (x : ℤ) (c : String) → Clean (to_rsd fl x c) s
  unfolding to_rsd
  to_rsd-Clean fl x c = search (ensures_rules, h) depth 8

  store_loan-Clean :
      (fl : Float) (cal : Calendar) (today : ℕ) (draw : Option ℕ) (req : Application) (x : ℤ)
      → Clean (store_loan fl cal today draw req x) s
  unfolding store_loan
  store_loan-Clean fl cal today draw req x =
      search (ensures_rules, Ensures-then, insert_loan-IsClean, h) depth 10

module _ (s : Store) (h : IsClean s) where
  submit-Clean :
      (fl : Float) (cal : Calendar) (today : ℕ) (draw : Option ℕ) (req : Application)
      → Clean (submit_loan_application fl cal today draw req) s
  unfolding submit_loan_application
  submit-Clean fl cal today draw req =
      search
        (
          Ensures-then, Ensures-tried, check_application-Clean, check_currency-Clean, to_rsd-Clean,
          store_loan-Clean, h,
        )
        depth 10

  reject-Clean : (i : ℕ) → Clean (reject_loan i) s
  unfolding reject_loan
  reject-Clean i = search (ensures_rules, clean_statements, h) depth 8

create_installments-Clean :
    (cal : Calendar) (l : Loan) (x : ℤ) (i n : ℕ) (s : Store)
    → IsClean s
    → Clean (create_installments cal l x i n) s
unfolding create_installments
create_installments-Clean cal l x i zero s h = search (ensures_rules, h) depth 4
create_installments-Clean cal l x i (suc n) s h = Ensures-exec _ _ h (
    create_installments-Clean cal l x (suc i) n _
      (add_installment-IsClean s h l x (cal.add_months l.agreed_date i)))

module _ (s : Store) (h : IsClean s) where
  make_schedule-Clean : (cal : Calendar) (l : Loan) (x : ℤ) → Clean (make_schedule cal l x) s
  unfolding make_schedule
  make_schedule-Clean cal l x =
      search (ensures_rules, Ensures-then, create_installments-Clean, clean_statements, h) depth 10

module _ (s : Store) (h : IsClean s) where
  approve-Clean : (fl : Float) (cal : Calendar) (i : ℕ) → Clean (approve_loan fl cal i) s
  unfolding approve_loan
  approve-Clean fl cal i =
      Ensures-select _ _ _ h (λ e. h)
        (λ l found.
          Ensures-throw_if _ _ _ (λ e. h)
            (λ e.
              Ensures-then (bank_account l.currency) _ (bank_account-Clean s h l.currency)
                (λ bank s1 h1. Ensures-exec _ _ h1 (
                  Ensures-exec _ _ (debit_bank-IsClean s1 h1 bank.account_number l.amount) (
                    scheduled bank l _ (
                      credit_client-IsClean _
                        (debit_bank-IsClean s1 h1 bank.account_number l.amount) l.account_number
                        l.amount))))))
    where
      scheduled :
          (bank : Account) (l : Loan) (s2 : Store)
          → IsClean s2
          → Clean
              (transaction (
                make_schedule cal l
                  (monthly_installment fl l.amount l.effective_rate l.repayment_period)))
              s2
      scheduled bank l s2 h2 =
          Ensures-transaction (λ _. IsClean) _ (make_schedule-Clean s2 h2 cal l _) (λ c. h2)
            (λ a s' k. k)

  collected-Clean :
      (fl : Float) (cal : Calendar) (today : ℕ) (due : Due) (x : Installment) (bank : Account)
      → Clean (collected fl cal today due x bank) s
  unfolding collected
  collected-Clean fl cal today due x bank =
      search (Ensures-try_update, Ensures-tried_update, clean_statements, h) depth 8

  missed-Clean : (now : ℕ) (due : Due) (x : Installment) → Clean (missed now due x) s
  unfolding missed
  missed-Clean now due x =
      search (Ensures-try_update, Ensures-tried_update, clean_statements, h) depth 8

module _ (s : Store) (h : IsClean s) where
  collect_from-Clean :
      (fl : Float) (cal : Calendar) (today now : ℕ) (due : Due) (x : Installment) (bank : Account)
      → Clean (collect_from fl cal today now due x bank) s
  unfolding collect_from
  collect_from-Clean fl cal today now due x bank =
      search (ensures_rules, clean_statements, collected-Clean, missed-Clean, h) depth 8

module _ (s : Store) (h : IsClean s) where
  process_installment-Clean :
      (fl : Float) (cal : Calendar) (today now : ℕ) (due : Due)
      → Clean (process_installment fl cal today now due) s
  unfolding process_installment
  process_installment-Clean fl cal today now due =
      search (ensures_rules, Ensures-then, bank_account-Clean, collect_from-Clean, h) depth 10

process_all-Clean :
    (fl : Float) (cal : Calendar) (today now : ℕ) (ds : List Due) (s : Store)
    → IsClean s
    → Clean (process_all fl cal today now ds) s
unfolding process_all
process_all-Clean fl cal today now [] s h = search (ensures_rules, h) depth 4
process_all-Clean fl cal today now (d ∷ ds) s h =
    Ensures-tried _ _ (process_installment-Clean s h fl cal today now d)
      (λ x s'. process_all-Clean fl cal today now ds s')

collect-Clean :
    (fl : Float) (cal : Calendar) (today now forced : ℕ) (s : Store)
    → IsClean s
    → Clean (collect_installments fl cal today now forced) s
unfolding collect_installments
collect-Clean fl cal today now forced s h =
    Ensures-query _ _ h (process_all-Clean fl cal today now _ s h)

module _ (s : Store) (h : IsClean s) where
  paid_installment_count-Clean : (i : ℕ) → Clean (paid_installment_count i) s
  unfolding paid_installment_count
  paid_installment_count-Clean i = search (ensures_rules, h) depth 4

  reprice-Clean :
      (fl : Float) (l : Loan) (x : ℤ) (n : ℕ) (debt : Option ℤ) → Clean (reprice fl l x n debt) s
  reprice-Clean fl l x n none = search (ensures_rules, h) depth 4
  reprice-Clean fl l x n (some debt) = search (Ensures-tried_update, clean_statements, h) depth 6

update_rate-Clean :
    (fl : Float) (l : Loan) (x : ℤ) (s : Store) → IsClean s → Clean (update_rate fl l x) s
unfolding update_rate
update_rate-Clean fl l x s h =
    search (ensures_rules, Ensures-tried, paid_installment_count-Clean, reprice-Clean, h) depth 8

update_rates-Clean :
    (fl : Float) (ls : List Loan) (xs : List ℤ) (s : Store)
    → IsClean s
    → Clean (update_rates fl ls xs) s
unfolding update_rates
update_rates-Clean fl [] xs s h = search (ensures_rules, h) depth 4
update_rates-Clean fl (l ∷ ls) [] s h = search (ensures_rules, h) depth 4
update_rates-Clean fl (l ∷ ls) (x ∷ xs) s h =
    Ensures-then (update_rate fl l x) _ (update_rate-Clean fl l x s h)
      (λ _ s'. update_rates-Clean fl ls xs s')

update_variable_rates-Clean :
    (fl : Float) (xs : List ℤ) (s : Store) → IsClean s → Clean (update_variable_rates fl xs) s
unfolding update_variable_rates
update_variable_rates-Clean fl xs s h = Ensures-query _ _ h (update_rates-Clean fl _ xs s h)

-- The calls and the timed jobs, with what the clock and the random numbers give them.
pub data Call : Type 0 where
  submit : ℕ → Option ℕ → Application → Call
  approve reject : ℕ → Call
  -- The day, the time, and the loan that is forced.
  collect : ℕ → ℕ → ℕ → Call
  change_rates : List ℤ → Call

abbrev ended : {A : Type 0} → Result A × Store × Outages → Store
ended x = x.1

unfoldable pub step : Float → Calendar → Call → Outages → Store → Store
step fl cal (submit today draw req) o s = ended (submit_loan_application fl cal today draw req s o)
step fl cal (approve i) o s = ended (approve_loan fl cal i s o)
step fl cal (reject i) o s = ended (reject_loan i s o)
step fl cal (collect today now forced) o s =
    ended (collect_installments fl cal today now forced s o)
step fl cal (change_rates xs) o s = ended (update_variable_rates fl xs s o)

unfoldable pub run_calls : Float → Calendar → List (Call × Outages) → Store → Store
run_calls fl cal [] s = s
run_calls fl cal ((c, o) ∷ cs) s = run_calls fl cal cs (step fl cal c o s)

step-IsClean :
    (fl : Float) (cal : Calendar) (c : Call) (o : Outages) (s : Store)
    → IsClean s
    → IsClean (step fl cal c o s)
unfolding step
step-IsClean fl cal (submit today draw req) o s h = (submit-Clean s h fl cal today draw req).at o
step-IsClean fl cal (approve i) o s h = (approve-Clean s h fl cal i).at o
step-IsClean fl cal (reject i) o s h = (reject-Clean s h i).at o
step-IsClean fl cal (collect today now forced) o s h =
    (collect-Clean fl cal today now forced s h).at o
step-IsClean fl cal (change_rates xs) o s h = (update_variable_rates-Clean fl xs s h).at o

-- A loan that is PAID_OFF has a remaining debt of 0 on its row: if this holds of all loans, it still does after any
-- applications, approvals, rejections, collections and changes of the rates, in whatever order, with
-- whatever arguments, and whichever of their statements fail.
pub run_calls-IsClean :
    (fl : Float) (cal : Calendar) (cs : List (Call × Outages)) (s : Store)
    → IsClean s
    → IsClean (run_calls fl cal cs s)
unfolding run_calls
run_calls-IsClean fl cal [] s h = h
run_calls-IsClean fl cal ((c, o) ∷ cs) s h =
    run_calls-IsClean fl cal cs (step fl cal c o s) (step-IsClean fl cal c o s h)
