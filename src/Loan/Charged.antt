-- ===== src/Loan/Charged.antt =====
-- processInstallment of services/loan-service/handlers/cron.go: installments and accounts.
use exbanka_4_backend.Shared.Tests.{◌≤◌, ◌≡◌, Bool, str_eq, ◌<◌, ◌⊎◌}
use exbanka_4_backend.Shared.Table.{update_where, count_where}
use exbanka_4_backend.Shared.Float.{Float}
use exbanka_4_backend.Shared.Account.{Account, has_number, credit, debit}
use exbanka_4_backend.Shared.Database.{◌>>◌}
use exbanka_4_backend.Shared.Ensures.{Ensures}
use exbanka_4_backend.Loan.State.{Installment, Store}
use exbanka_4_backend.Loan.Approved.{IsBankAccount}
use exbanka_4_backend.Loan.Collection.{Due, can_pay}

abbrev pub is_paid : Installment → Bool
is_paid x = str_eq x.status "PAID"

-- The client's account could pay and has paid, and the bank's account in the currency of the loan
-- has received the amount or not.
abbrev pub IsPaid : Due → Store → Store → Type 0
IsPaid due s s' =
    (0 < count_where (can_pay due.account_number due.amount) s.accounts)
    × ((s'.accounts
          ≡ update_where (can_pay due.account_number due.amount) (debit due.amount) s.accounts)
        ⊎ ((bank : Account) × IsBankAccount due.currency s bank
            × (s'.accounts
                ≡ update_where (has_number bank.account_number) (credit due.amount) (
                    update_where (can_pay due.account_number due.amount) (debit due.amount)
                      s.accounts))))

-- Either the account has paid, or no account has changed and no installment that was open counts as
-- paid.
abbrev pub IsCharged : Due → Store → Store → Type 0
IsCharged due s s' =
    ((s'.accounts ≡ s.accounts)
      × (count_where is_paid s'.installments ≤ count_where is_paid s.installments))
    ⊎ IsPaid due s s'
