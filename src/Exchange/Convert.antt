-- ===== src/Exchange/Convert.antt =====
-- ConvertAmount of services/exchange-service/handlers/grpc_server.go. `cache` is what
-- loadCachedRates returns.
use exbanka_4_backend.Shared.Tests.{
  ℕ, ◌+◌, ◌==◌, ◌&&◌, not, Bool, Option, none, some, List, ◌∷◌, String, str_eq, if◌then◌else◌,
}
use exbanka_4_backend.Shared.Int.{ℤ, pos, ◌-ℤ◌, leb_ℤ, ltb_ℤ}
use exbanka_4_backend.Shared.Float.{Float, of_int}
use exbanka_4_backend.Shared.Cents.{in_cents}
use exbanka_4_backend.Shared.Table.{find_where, update_where}
use exbanka_4_backend.Shared.Account.{
  available_of, Account, Currency, has_number, currency_has_id, credit, debit,
}
use exbanka_4_backend.Shared.Database.{
  Action, ⊤, invalid_argument, not_found, permission_denied, failed_precondition, internal, pure,
  exec, select_row, update, or_throw, throw_if, row_cases, attempt, transaction, ◌>>=◌, ◌>>◌,
}
use exbanka_4_backend.Exchange.Rates.{
  Rate, Exchange, Store, commission, is_rate_of, ensure_today_rates,
}

pub record Request : Type 0 where
  pub client_id : ℕ
  pub from_account : String
  pub to_account : String
  pub amount : ℤ

-- `getRate`: a row that is missing and a statement that fails are answered alike.
unfoldable pub read_rate : String → (Rate → ℤ) → Action Store ℤ
read_rate code side = do
  found ← attempt (select_row (λ s. find_where (is_rate_of code) s.rates) not_found)
  r ← or_throw found not_found
  pure (side r)

abbrev cached_rate : String → Option (List Rate) → Option Rate
cached_rate code none = none
cached_rate code (some rates) = find_where (is_rate_of code) rates

unfoldable pub get_rate : Option (List Rate) → String → (Rate → ℤ) → Action Store ℤ
get_rate cache code side =
    if str_eq code "RSD"
    then pure (of_int 1)
    else row_cases (cached_rate code cache) (read_rate code side) (λ r. pure (side r))

-- What is left of an amount after the commission of a step.
abbrev after_commission : Float → ℤ → ℤ
after_commission fl x = fl.mul x (of_int 1 -ℤ commission)

-- The amount that the destination gets, before it is rounded, and the rate.
unfoldable pub from_rsd : Float → Option (List Rate) → ℤ → String → Action Store (ℤ × ℤ)
from_rsd fl cache amount to = do
  selling ← get_rate cache to (λ r. r.selling_rate)
  pure (after_commission fl (fl.div amount selling), selling)

unfoldable pub into_rsd : Float → Option (List Rate) → ℤ → String → Action Store (ℤ × ℤ)
into_rsd fl cache amount from = do
  buying ← get_rate cache from (λ r. r.buying_rate)
  pure (after_commission fl (fl.mul amount buying), buying)

unfoldable pub through_rsd : Float → Option (List Rate) → ℤ → String → String → Action Store (ℤ × ℤ)
through_rsd fl cache amount from to = do
  buying ← get_rate cache from (λ r. r.buying_rate)
  selling ← get_rate cache to (λ r. r.selling_rate)
  let rsd = after_commission fl (fl.mul amount buying)
  pure (after_commission fl (fl.div rsd selling), fl.div buying selling)

unfoldable pub conversion : Float → Option (List Rate) → ℤ → String → String → Action Store (ℤ × ℤ)
conversion fl cache amount from to =
    if str_eq from "RSD"
    then from_rsd fl cache amount to
    else if str_eq to "RSD"
    then into_rsd fl cache amount from
    else through_rsd fl cache amount from to

abbrev pub is_bank_in : ℕ → Account → Bool
is_bank_in currency a =
    (a.owner_id == 0) && str_eq a.account_type "BANK" && (a.currency_id == currency)

unfoldable pub bank_account : ℕ → Action Store Account
bank_account currency = select_row (λ s. find_where (is_bank_in currency) s.accounts) internal

-- The four updates, on the rows of accounts.
abbrev pub exchanged : Request → ℤ → String → String → List Account → List Account
exchanged req to_amount bank_from bank_to t =
    update_where (has_number req.to_account) (credit to_amount) (
      update_where (has_number bank_to) (debit to_amount) (
        update_where (has_number bank_from) (credit req.amount)
          (update_where (has_number req.from_account) (debit req.amount) t)))

unfoldable pub debit_number : String → ℤ → Store → Store
debit_number n x s = record s { accounts = update_where (has_number n) (debit x) s.accounts }

unfoldable pub credit_number : String → ℤ → Store → Store
credit_number n x s = record s { accounts = update_where (has_number n) (credit x) s.accounts }

unfoldable pub move_money : Request → ℤ → String → String → Action Store ⊤
move_money req to_amount bank_from bank_to = do
  update (debit_number req.from_account req.amount)
  update (credit_number bank_from req.amount)
  update (debit_number bank_to to_amount)
  update (credit_number req.to_account to_amount)

unfoldable pub new_exchange : Float → Request → String → String → ℤ → ℤ → ℕ → Exchange
new_exchange fl req from to to_amount rate i = record {
  id = i;
  client_id = req.client_id;
  from_account = req.from_account;
  to_account = req.to_account;
  from_currency = from;
  to_currency = to;
  from_amount = req.amount;
  to_amount = to_amount;
  rate = rate;
  commission = fl.round_cents (fl.mul req.amount commission);
}

-- What the columns hold of it.
abbrev as_stored : Exchange → Exchange
as_stored e = record e {
  from_amount = in_cents e.from_amount;
  to_amount = in_cents e.to_amount;
  commission = in_cents e.commission;
}

unfoldable pub insert_exchange : (ℕ → Exchange) → Store → ℕ × Store
insert_exchange e s = (
  s.next_id,
  record s { exchanges = as_stored (e s.next_id) ∷ s.exchanges; next_id = s.next_id + 1 },
)

abbrev id_or_zero : Option ℕ → ℕ
id_or_zero none = 0
id_or_zero (some i) = i

-- The response has the values of the row that records the exchange, not rounded to its columns,
-- with 0 for the id of a row that could not be recorded.
unfoldable pub exchange_at :
    Float → Request → Account → Account → String → String → ℤ × ℤ → Action Store Exchange
exchange_at fl req a b from to q = do
  let to_amount = fl.round_cents q.0
  throw_if (ltb_ℤ (available_of a) req.amount) failed_precondition
  bank_from ← bank_account a.currency_id
  bank_to ← bank_account b.currency_id
  transaction (move_money req to_amount bank_from.account_number bank_to.account_number)
  recorded ← attempt (exec (insert_exchange (new_exchange fl req from to to_amount q.1)))
  pure (new_exchange fl req from to to_amount q.1 (id_or_zero recorded))

abbrev currency_of : ℕ → Store → Option Currency
currency_of i s = find_where (currency_has_id i) s.currencies

unfoldable pub convert_between :
    Float
    → Option (List (String × ℤ))
    → Option (List Rate)
    → Request
    → Account
    → Account
    → Action Store Exchange
convert_between fl feed cache req a b = do
  from ← select_row (currency_of a.currency_id) internal
  to ← select_row (currency_of b.currency_id) internal
  throw_if (str_eq from.code to.code) invalid_argument
  ensured ← attempt (ensure_today_rates fl feed)
  q ← conversion fl cache req.amount from.code to.code
  exchange_at fl req a b from.code to.code q

-- ConvertAmount
unfoldable pub convert_amount :
    Float → Option (List (String × ℤ)) → Option (List Rate) → Request → Action Store Exchange
convert_amount fl feed cache req = do
  throw_if (leb_ℤ req.amount (pos 0)) invalid_argument
  throw_if (str_eq req.from_account req.to_account) invalid_argument
  a ← select_row (λ s. find_where (has_number req.from_account) s.accounts) not_found
  throw_if (not (a.owner_id == req.client_id)) permission_denied
  b ← select_row (λ s. find_where (has_number req.to_account) s.accounts) not_found
  convert_between fl feed cache req a b
