-- ===== src/Loan/Approved.antt =====
-- ApproveLoan of services/loan-service/handlers/grpc_server.go: the schedule of a loan, and what a
-- failure leaves.
use exbanka_4_backend.Shared.Tests.{
  ℕ, zero, suc, ◌+◌, ◌≡◌, refl, Bool, true, false, ◌&&◌, some, List, [], ◌∷◌, str_eq, ◌==◌, arith,
  ==_iff, String, ◌∙◌, ap, if◌then◌else◌,
}
use mathlib.Core.Option
use exbanka_4_backend.Shared.Int.{ℤ}
use exbanka_4_backend.Shared.Table.{
  find_where, update_where, count_where, count_where-append, find_where-update_where,
}
use exbanka_4_backend.Shared.Float.{Float}
use exbanka_4_backend.Shared.Account.{
  Account, Currency, has_number, credit, debit, currency_has_code,
}
use exbanka_4_backend.Shared.Database.{
  Outages, Result, ok, err, internal, ⊤, transaction, update, fails, later, db, ◌>>◌,
}
use exbanka_4_backend.Shared.Ensures.{
  Ensures, Ensures-select, Ensures-selected, Ensures-throw_if, Ensures-exec, Ensures-bind,
  Ensures-pure, Ensures-last, Ensures-transaction,
}
use exbanka_4_backend.Shared.Dropped.{Ensures-weaken}
use exbanka_4_backend.Loan.State.{Loan, Installment, Store, Calendar, loan_has_id, is_bank_in}
use exbanka_4_backend.Loan.Application.{
  bank_account, debit_bank, credit_client, add_installment, create_installments, mark_approved,
  make_schedule, approve_loan,
}

abbrev pub is_unpaid_of : ℕ → Installment → Bool
is_unpaid_of i x = (x.loan_id == i) && str_eq x.status "UNPAID"

-- The accounts after the payout, from the bank's account to the client's.
abbrev pub paid_out : Account → Loan → List Account → List Account
paid_out bank l t =
    update_where (has_number l.account_number) (credit l.amount)
      (update_where (has_number bank.account_number) (debit l.amount) t)

-- The bank's account in a currency.
abbrev pub IsBankAccount : String → Store → Account → Type 0
IsBankAccount currency s bank =
    (c : Currency) × (find_where (currency_has_code currency) s.currencies ≡ some c)
    × (find_where (is_bank_in c.id) s.accounts ≡ some bank)

-- After an answer, the loan is paid out and has as many more unpaid installments as its period; an
-- error leaves the loans and the installments as they were.
abbrev pub IsScheduled : Loan → Store → Result ⊤ → Store → Type 0
IsScheduled l s (ok _) s' =
    (count_where (is_unpaid_of l.id) s'.installments
      ≡ count_where (is_unpaid_of l.id) s.installments + l.repayment_period)
    × ((c : Currency) × (bank : Account) × (find_where (currency_has_code l.currency) s.currencies
          ≡ some c)
        × (find_where (is_bank_in c.id) s.accounts ≡ some bank)
        × (s'.accounts ≡ paid_out bank l s.accounts))
IsScheduled l s (err c) s' = (s'.loans ≡ s.loans) × (s'.installments ≡ s.installments)

-- `n` more unpaid installments, and no change of the accounts.
abbrev Added : ℕ → ℕ → Store → Result ⊤ → Store → Type 0
Added i n s (ok _) s' =
    (count_where (is_unpaid_of i) s'.installments ≡ count_where (is_unpaid_of i) s.installments + n)
    × (s'.accounts ≡ s.accounts)
Added i n s (err c) s' = ⊤

add_installment-Added :
    (l : Loan) (x : ℤ) (due : ℕ) (s : Store) → Added l.id 1 s (ok tt) (add_installment l x due s)
unfolding add_installment count_where
add_installment-Added l x due s = (
  count_where-append (is_unpaid_of l.id) s.installments _
      ∙ rw ((==_iff l.id l.id).1 refl) (omega arith),
  refl,
)

create_installments-Added :
    (cal : Calendar) (l : Loan) (x : ℤ) (i n : ℕ) (s : Store)
    → Ensures (Added l.id n s) (create_installments cal l x i n) s
unfolding create_installments
create_installments-Added cal l x i zero s = Ensures-pure tt (omega arith, refl)
create_installments-Added cal l x i (suc n) s =
    let s1 = add_installment l x (cal.add_months l.agreed_date i) s in
    Ensures-exec _ _ tt (
      Ensures-weaken (create_installments cal l x (suc i) n)
        (one_more s1 (add_installment-Added l x (cal.add_months l.agreed_date i) s))
        (create_installments-Added cal l x (suc i) n s1))
  where
    one_more :
        (s1 : Store)
        → Added l.id 1 s (ok tt) s1
        → (r : Result ⊤) (s' : Store) → Added l.id n s1 r s'
        → Added l.id (suc n) s r s'
    one_more s1 (count, same) (ok _) s' (count', same') =
        (omega (arith, count, count'), same' ∙ same)
    one_more s1 h (err c) s' k = tt

make_schedule-Added :
    (cal : Calendar) (l : Loan) (x : ℤ) (s : Store)
    → Ensures (Added l.id l.repayment_period s) (make_schedule cal l x) s
unfolding make_schedule mark_approved
make_schedule-Added cal l x s =
    Ensures-bind (Added l.id l.repayment_period s)
      (create_installments cal l x 1 l.repayment_period) _
      (create_installments-Added cal l x 1 l.repayment_period s) (λ c s' h. tt)
      (λ _ s' h. Ensures-last _ tt h)

abbrev pub Found : String → Store → Result Account → Store → Type 0
Found currency s (ok bank) s' = (s' ≡ s) × IsBankAccount currency s bank
Found currency s (err c) s' = s' ≡ s

pub bank_account-Found : (c : String) (s : Store) → Ensures (Found c s) (bank_account c) s
unfolding bank_account
bank_account-Found c s =
    Ensures-select _ _ _ refl (λ e. refl)
      (λ b found. Ensures-selected _ _ refl (λ e. refl) (λ a e. (refl, (b, found, e))))

approve_found :
    (cal : Calendar) (l : Loan) (x : ℤ) (bank : Account) (s : Store)
    → IsBankAccount l.currency s bank
    → Ensures
        (IsScheduled l s)
        (do
          update (debit_bank bank.account_number l.amount)
          update (credit_client l.account_number l.amount)
          transaction (make_schedule cal l x))
        s
unfolding debit_bank credit_client
approve_found cal l x bank s (c, cur, at_bank) =
    let s2 : Store = record s { accounts = paid_out bank l s.accounts } in
    Ensures-exec _ _ (refl, refl)
      (Ensures-exec _ _ (refl, refl)
        (Ensures-transaction (Added l.id l.repayment_period s2) (make_schedule cal l x)
          (make_schedule-Added cal l x s2) (λ c. (refl, refl))
          (λ _ s' (count, same). (count, (c, bank, cur, at_bank, same)))))

-- An approval that answers OK has paid the loan out, from the bank's account in the currency of the
-- loan to the client's, and given the loan as many more unpaid installments as its repayment period; one that answers an
-- error has changed neither loans nor installments. That is in every run, whichever statements fail.
pub approve_loan-IsScheduled :
    (fl : Float) (cal : Calendar) (i : ℕ) (l : Loan) (s : Store)
    → find_where (loan_has_id i) s.loans ≡ some l
    → Ensures (IsScheduled l s) (approve_loan fl cal i) s
unfolding approve_loan
approve_loan-IsScheduled fl cal i l s found =
    Ensures-select _ _ _ (refl, refl) (λ e. (refl, refl))
      (λ l' found'. rw (same_loan l' found') (
        Ensures-throw_if _ _ _ (λ e. (refl, refl))
          (λ e.
            Ensures-bind (Found l.currency s) (bank_account l.currency) _
              (bank_account-Found l.currency s) (λ c s' k. rw k (refl, refl))
              (λ bank s' (k, is_bank). rw k (approve_found cal l _ bank s is_bank)))))
  where
    same_loan : (l' : Loan) → find_where (loan_has_id i) s.loans ≡ some l' → l' ≡ l
    same_loan l' e = cc

-- The BeginTx of an approval fails.
abbrev pub no_transaction : Outages
no_transaction = false ∷ false ∷ false ∷ false ∷ false ∷ true ∷ []

approval_lost :
    (fl : Float) (cal : Calendar) (i : ℕ) (l : Loan) (c : Currency) (bank : Account) (s : Store)
    → find_where (loan_has_id i) s.loans ≡ some l
    → str_eq l.status "PENDING" ≡ true
    → find_where (currency_has_code l.currency) s.currencies ≡ some c
    → find_where (is_bank_in c.id) s.accounts ≡ some bank
    → approve_loan fl cal i s no_transaction
      ≡ (err internal, record s { accounts = paid_out bank l s.accounts }, [])
unfolding approve_loan bank_account debit_bank credit_client db fails later
approval_lost fl cal i l c bank s found pending cur at_bank =
    ground (arith, found, pending, cur, at_bank)

abbrev debited : Account → Loan → Account
debited bank l = if has_number bank.account_number bank then debit l.amount bank else bank

-- The bank's account is still found after the payout, under its number.
still_bank :
    (currency : ℕ) (bank : Account) (l : Loan) (t : List Account)
    → find_where (is_bank_in currency) t ≡ some bank
    → (bank' : Account) × (find_where (is_bank_in currency) (paid_out bank l t) ≡ some bank')
      × (bank'.account_number ≡ bank.account_number)
still_bank currency bank l t found = (
  _,
  find_where-update_where (is_bank_in currency) (has_number l.account_number) (credit l.amount) _
        (λ a. refl)
      ∙ ap (Option.map (λ a. if has_number l.account_number a then credit l.amount a else a)) (
          find_where-update_where (is_bank_in currency) (has_number bank.account_number)
            (debit l.amount) t (λ a. refl)
          ∙ ap (Option.map (λ a. if has_number bank.account_number a then debit l.amount a else a))
              found),
  kept (has_number l.account_number (debited bank l)) (credit l.amount) (debited bank l) (λ a. refl)
      ∙ kept (has_number bank.account_number bank) (debit l.amount) bank (λ a. refl),
)
  where
    kept :
        (b : Bool) (f : Account → Account) (a : Account)
        → ((x : Account) → (f x).account_number ≡ x.account_number)
        → (if b then f a else a).account_number ≡ a.account_number
    kept true f a same = same a
    kept false f a same = refl

-- If the transaction of an approval cannot be begun, the call answers an error although the loan is
-- paid out, and the loan stays PENDING without installments; a second approval, whose transaction
-- cannot be begun either, pays it out again.
pub approve_loan_lost :
    (fl : Float) (cal : Calendar) (i : ℕ) (l : Loan) (c : Currency) (bank : Account) (s : Store)
    → find_where (loan_has_id i) s.loans ≡ some l
    → str_eq l.status "PENDING" ≡ true
    → find_where (currency_has_code l.currency) s.currencies ≡ some c
    → find_where (is_bank_in c.id) s.accounts ≡ some bank
    → let (r, s1, _) = approve_loan fl cal i s no_transaction in
      let (r', s2, _) = approve_loan fl cal i s1 no_transaction in
      (r ≡ err internal)
      × (s1 ≡ record s { accounts = paid_out bank l s.accounts })
      × (r' ≡ err internal)
      × (s2 ≡ record s { accounts = paid_out bank l (paid_out bank l s.accounts) })
approve_loan_lost fl cal i l c bank s found pending cur at_bank =
    let first = approval_lost fl cal i l c bank s found pending cur at_bank in
    let (bank', found', same) = still_bank c.id bank l s.accounts at_bank in
    let second =
      approval_lost fl cal i l c bank' (record s { accounts = paid_out bank l s.accounts }) found
        pending cur found' in
    let one : (approve_loan fl cal i s no_transaction).1
        ≡ record s { accounts = paid_out bank l s.accounts } =
      ap (λ x. x.1) first in
    (
      ap (λ x. x.0) first,
      one,
      rw one (ap (λ x. x.0) second),
      rw one (rw same at (ap (λ x. x.1) second)),
    )
