-- ===== src/Order/Settlement.antt =====
-- settleAccountAndCommission of services/order-service/execution/scheduler.go. The call that has
-- exchange-service seed today's rates comes before, and its error is ignored there: `rates` is what
-- it leaves. Every error is an error of the same kind here, as its text is only logged.
use exbanka_4_backend.Shared.Tests.{ℕ, Bool, not, ◌&&◌, String, str_eq, ◌==◌, if◌then◌else◌}
use exbanka_4_backend.Shared.Int.{ℤ, pos, ◌+ℤ◌, ◌-ℤ◌, -ℤ◌, leb_ℤ}
use exbanka_4_backend.Shared.Table.{find_where, update_where, count_where}
use exbanka_4_backend.Shared.Float.{Float, of_int}
use exbanka_4_backend.Shared.Account.{
  available_of, Account, has_id, credit, currency_has_id, currency_has_code,
}
use exbanka_4_backend.Shared.Database.{
  Action, ⊤, internal, failed_precondition, pure, exec, select_row, update, throw_if, ◌>>=◌, ◌>>◌,
}
use exbanka_4_backend.Order.State.{Order, Rate, Store, has_code}

-- getRate
unfoldable pub get_rate : String → (Rate → ℤ) → Action Store ℤ
get_rate code side =
    if str_eq code "RSD"
    then pure (of_int 1)
    else do r ← select_row (λ s. find_where (has_code code) s.rates) internal; pure (side r)

abbrev buying : Rate → ℤ
buying r = r.buying_rate

abbrev selling : Rate → ℤ
selling r = r.selling_rate

-- The rate to RSD, and one step.
unfoldable pub direct_rate : String → (Rate → ℤ) → Action Store (ℤ × ℕ)
direct_rate currency side = do r ← get_rate currency side; pure (r, 1)

unfoldable pub inverse_rate : Float → String → (Rate → ℤ) → Action Store (ℤ × ℕ)
inverse_rate fl account side = do r ← get_rate account side; pure (fl.div (of_int 1) r, 1)

unfoldable pub cross_rate : Float → String → String → (Rate → ℤ) → (Rate → ℤ) → Action Store (ℤ × ℕ)
cross_rate fl account currency given taken = do
  a ← get_rate currency given
  b ← get_rate account taken
  pure (fl.div a b, 2)

-- The switch on the currencies; a SELL reads the rates of the other side.
unfoldable pub rate_between :
    Float → String → String → (Rate → ℤ) → (Rate → ℤ) → Action Store (ℤ × ℕ)
rate_between fl account currency given taken =
    if str_eq account "RSD"
    then direct_rate currency given
    else if str_eq currency "RSD"
    then inverse_rate fl account taken
    else cross_rate fl account currency given taken

abbrev exchange_commission : Float → String → ℤ → ℕ → ℤ
exchange_commission fl user_type converted steps =
    if str_eq user_type "CLIENT" then fl.mul (fl.mul converted (pos 5000)) (of_int steps) else pos 0

-- The total and the commission in the account's currency, from the rate and its steps.
abbrev converted_amounts : Float → Order → ℤ → ℤ → ℤ × ℕ → ℤ × ℤ
converted_amounts fl o total commission (rate, steps) =
    let converted = fl.mul total rate in
    (converted, fl.mul commission rate +ℤ exchange_commission fl o.user_type converted steps)

unfoldable pub convert : Float → Order → ℤ → ℤ → String → String → Action Store (ℤ × ℤ)
convert fl o total commission account currency = do
  rate ←
      if str_eq o.direction "BUY"
      then rate_between fl account currency selling buying
      else rate_between fl account currency buying selling
  pure (converted_amounts fl o total commission rate)

unfoldable pub amounts : Float → Order → ℤ → ℤ → String → String → Action Store (ℤ × ℤ)
amounts fl o total commission account currency =
    if not (str_eq account currency)
    then convert fl o total commission account currency
    else pure (total, commission)

-- `WHERE id = $2 AND available_balance >= $3`
abbrev pub can_pay : ℕ → ℤ → Account → Bool
can_pay i amount a = (a.id == i) && leb_ℤ amount (available_of a)

-- The guarded debit, and its rows affected.
unfoldable pub debit_account : ℕ → ℤ → Store → ℕ × Store
debit_account i delta s = (
  count_where (can_pay i (-ℤ◌ delta)) s.accounts,
  record s { accounts = update_where (can_pay i (-ℤ◌ delta)) (credit delta) s.accounts },
)

unfoldable pub credit_account : ℕ → ℤ → Store → Store
credit_account i amount s = record s {
  accounts = update_where (has_id i) (credit amount) s.accounts;
}

unfoldable pub settle_buy : ℕ → ℤ → ℤ → Action Store ⊤
settle_buy account total commission = do
  rows ← exec (debit_account account (-ℤ◌ (total +ℤ commission)))
  throw_if (rows == 0) failed_precondition

unfoldable pub settle_order : Order → ℤ → ℤ → Action Store ⊤
settle_order o total commission =
    if str_eq o.direction "BUY"
    then settle_buy o.account_id total commission
    else update (credit_account o.account_id (total -ℤ commission))

abbrev pub is_bank_account : ℕ → Account → Bool
is_bank_account currency a =
    str_eq a.account_type "BANK" && ((a.owner_id == 0) && (a.currency_id == currency))

unfoldable pub credit_bank : String → ℤ → Action Store ⊤
credit_bank code commission = do
  c ← select_row (λ s. find_where (currency_has_code code) s.currencies) internal
  bank ← select_row (λ s. find_where (is_bank_account c.id) s.accounts) internal
  update (credit_account bank.id commission)

-- Steps 3 and 4, in the account's currency.
unfoldable pub transfer : Order → String → ℤ × ℤ → Action Store ℤ
transfer o account_currency (total, commission) = do
  settle_order o total commission
  if leb_ℤ commission (pos 0) then pure tt else credit_bank account_currency commission
  pure total

-- settleAccountAndCommission: the total in the account's currency.
unfoldable pub settle : Float → Order → ℤ → ℤ → String → Action Store ℤ
settle fl o total commission currency = do
  a ← select_row (λ s. find_where (has_id o.account_id) s.accounts) internal
  c ← select_row (λ s. find_where (currency_has_id a.currency_id) s.currencies) internal
  xs ← amounts fl o total commission c.code currency
  transfer o c.code xs
