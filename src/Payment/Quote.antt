-- ===== src/Payment/Quote.antt =====
-- The rows and messages of CreatePayment (services/payment-service/handlers/grpc_server.go,
-- services/payment-service/db/schema.sql), and its quote: the rates, the final amount and the fee, and
-- the bank's own accounts that the payment goes through.
use exbanka_4_backend.Shared.Tests.{
  ℕ, ◌==◌, Bool, ◌&&◌, Option, none, some, List, String, str_eq, if◌then◌else◌,
}
use exbanka_4_backend.Shared.Int.{ℤ, pos}
use exbanka_4_backend.Shared.Table.{find_where}
use exbanka_4_backend.Shared.Float.{Float, of_int}
use exbanka_4_backend.Shared.Account.{Account, Currency, currency_has_id}
use exbanka_4_backend.Shared.Database.{Action, internal, pure, query, select_row, row_cases, ◌>>=◌}

-- A row of `payments`; `status` is always COMPLETED.
pub record Payment : Type 0 where
  pub id : ℕ
  pub order_number : String
  pub from_account : String
  pub to_account : String
  pub initial_amount : ℤ
  pub final_amount : ℤ
  pub fee : ℤ
  pub recipient_id : Option ℕ

pub record Recipient : Type 0 where
  pub id : ℕ
  pub client_id : ℕ
  pub account_number : String

-- A row of `daily_exchange_rates` of today.
pub record Rate : Type 0 where
  pub currency_code : String
  pub buying_rate : ℤ
  pub selling_rate : ℤ

-- payment_db, account_db and exchange_db; `base_rates` are the rows of `exchange_rates` to RSD.
pub record Store : Type 0 where
  pub payments : List Payment
  pub next_id : ℕ
  pub recipients : List Recipient
  pub accounts : List Account
  pub currencies : List Currency
  pub rates : List Rate
  pub base_rates : List (String × ℤ)

pub record Request : Type 0 where
  pub client_id : ℕ
  pub from_account : String
  pub recipient_account : String
  pub amount : ℤ

-- Where the money goes: to an account of another bank, to an account in the same currency, or to
-- one in another currency.
pub data Route : Type 0 where
  external : Route
  direct exchanged : Account → Route

-- `toAccountID != 0`; an error of the lookup is ignored, and leaves 0.
abbrev pub existing : Option (Option Account) → Option Account
existing none = none
existing (some none) = none
existing (some (some t)) = if t.id == 0 then none else some t

abbrev pub route_to : Account → Option Account → Route
route_to a none = external
route_to a (some t) = if t.currency_id == a.currency_id then direct t else exchanged t

abbrev pub has_code : String → Rate → Bool
has_code c r = str_eq r.currency_code c

abbrev pub has_base_code : String → String × ℤ → Bool
has_base_code c (d, x) = str_eq d c

unfoldable pub base_rate : String → Action Store ℤ
base_rate code = do
  row ← select_row (λ s. find_where (has_base_code code) s.base_rates) internal
  pure row.1

unfoldable pub daily_rate : String → (Rate → ℤ) → Action Store ℤ
daily_rate code side = do
  row ← query (λ s. find_where (has_code code) s.rates)
  row_cases row (base_rate code) (λ r. pure (side r))

-- getRate
unfoldable pub get_rate : String → (Rate → ℤ) → Action Store ℤ
get_rate code side = if str_eq code "RSD" then pure (of_int 1) else daily_rate code side

abbrev pub buying : Rate → ℤ
buying r = r.buying_rate

abbrev pub selling : Rate → ℤ
selling r = r.selling_rate

-- `1 - commission`, and `commission`.
abbrev pub kept_part : ℤ
kept_part = pos 995000

abbrev pub commission : ℤ
commission = pos 5000

unfoldable pub from_rsd : Float → ℤ → String → Action Store ℤ
from_rsd fl amount to = do
  to_selling ← get_rate to selling
  pure (fl.mul (fl.div amount to_selling) kept_part)

unfoldable pub to_rsd : Float → ℤ → String → Action Store ℤ
to_rsd fl amount from = do
  from_buying ← get_rate from buying
  pure (fl.mul (fl.mul amount from_buying) kept_part)

unfoldable pub through_rsd : Float → ℤ → String → String → Action Store ℤ
through_rsd fl amount from to = do
  from_buying ← get_rate from buying
  to_selling ← get_rate to selling
  let rsd_amount = fl.mul (fl.mul amount from_buying) kept_part
  pure (fl.mul (fl.div rsd_amount to_selling) kept_part)

unfoldable pub converted : Float → ℤ → String → String → Action Store ℤ
converted fl amount from to =
    if str_eq from "RSD"
    then from_rsd fl amount to
    else if str_eq to "RSD"
    then to_rsd fl amount from
    else through_rsd fl amount from to

unfoldable pub exchange_quote : Float → ℤ → Account → Account → Action Store (ℤ × ℤ)
exchange_quote fl amount a t = do
  from ← select_row (λ s. find_where (currency_has_id a.currency_id) s.currencies) internal
  to ← select_row (λ s. find_where (currency_has_id t.currency_id) s.currencies) internal
  final_amount ← converted fl amount from.code to.code
  pure (fl.round_cents final_amount, fl.round_cents (fl.mul amount commission))

-- The final amount and the fee.
unfoldable pub quote : Float → ℤ → Account → Route → Action Store (ℤ × ℤ)
quote fl amount a external = pure (amount, pos 0)
quote fl amount a (direct t) = pure (amount, pos 0)
quote fl amount a (exchanged t) = exchange_quote fl amount a t

abbrev pub is_bank_of : ℕ → Account → Bool
is_bank_of currency a =
    (a.owner_id == 0) && (str_eq a.account_type "BANK" && (a.currency_id == currency))

unfoldable pub bank_account : ℕ → Action Store Account
bank_account currency = select_row (λ s. find_where (is_bank_of currency) s.accounts) internal

unfoldable pub both_banks : Account → Account → Action Store (String × String)
both_banks a t = do
  bank_from ← bank_account a.currency_id
  bank_to ← bank_account t.currency_id
  pure (bank_from.account_number, bank_to.account_number)

unfoldable pub one_bank : Account → Action Store (String × String)
one_bank a = do bank_from ← bank_account a.currency_id; pure (bank_from.account_number, "")

-- The numbers of the bank's own accounts that the payment goes through.
unfoldable pub banks : Account → Route → Action Store (String × String)
banks a external = one_bank a
banks a (direct t) = pure ("", "")
banks a (exchanged t) = both_banks a t
