-- ===== src/Otc/State.antt =====
-- The rows that services/otc-service reads and writes when a contract is exercised:
-- `otc_contracts`, `otc_saga_log` and `otc_saga` (services/otc-service/db/schema.sql),
-- `portfolio_entry` and `tax_record` of portfolio_db, `accounts` of account_db, `listing` of
-- securities_db, and `daily_exchange_rates` of exchange_db with the rates of today. Prices and
-- amounts of money are in millionths; the columns of a saga's errors and times are left out.
use exbanka_4_backend.Shared.Tests.{
  ℕ, Bool, ◌&&◌, List, String, str_eq, ◌==◌, Option, none, some, if◌then◌else◌,
}
use exbanka_4_backend.Shared.Int.{ℤ}
use exbanka_4_backend.Shared.Account.{Account}

-- A contract is for a positive number of shares.
pub record Contract : Type 0 where
  pub id : ℕ
  pub seller_id : ℕ
  pub seller_type : String
  pub buyer_id : ℕ
  pub buyer_type : String
  pub ticker : String
  pub amount : ℕ
  pub strike_price : ℤ
  pub premium : ℤ
  pub currency : String
  pub settlement_date : ℕ
  pub status : String

pub record SagaLog : Type 0 where
  pub contract_id : ℕ
  pub step : ℕ
  pub status : String

pub record Saga : Type 0 where
  pub id : ℕ
  pub contract_id : ℕ
  pub status : String
  pub current_step : ℕ

-- A row of `portfolio_entry`, under its UNIQUE(user_id, user_type, listing_id).
pub record Entry : Type 0 where
  pub user_id : ℕ
  pub user_type : String
  pub listing_id : ℕ
  pub amount : ℤ
  pub buy_price : ℤ
  pub public_amount : ℤ
  pub account_id : ℕ
  pub reserved_amount : ℤ

pub record Listing : Type 0 where
  pub id : ℕ
  pub ticker : String
  pub price : ℤ

pub record MiddleRate : Type 0 where
  pub currency_code : String
  pub middle_rate : ℤ

pub record TaxRecord : Type 0 where
  pub user_id : ℕ
  pub user_type : String
  pub amount_rsd : ℤ
  pub month : ℕ
  pub year : ℕ

pub record Store : Type 0 where
  pub contracts : List Contract
  pub saga_log : List SagaLog
  pub sagas : List Saga
  pub next_saga : ℕ
  pub entries : List Entry
  pub accounts : List Account
  pub listings : List Listing
  pub rates : List MiddleRate
  pub taxes : List TaxRecord

-- The columns of the key of a portfolio entry.
pub record Key : Type 0 where
  pub user_id : ℕ
  pub user_type : String
  pub listing_id : ℕ

abbrev pub has_key : Key → Entry → Bool
has_key k e =
    (e.user_id == k.user_id) && (str_eq e.user_type k.user_type && (e.listing_id == k.listing_id))

abbrev pub contract_has_id : ℕ → Contract → Bool
contract_has_id i c = c.id == i

abbrev pub is_saga_of : ℕ → Saga → Bool
is_saga_of contract g = g.contract_id == contract

abbrev pub has_ticker : String → Listing → Bool
has_ticker t l = str_eq l.ticker t

abbrev pub listing_has_id : ℕ → Listing → Bool
listing_has_id i l = l.id == i

abbrev pub rate_has_code : String → MiddleRate → Bool
rate_has_code c r = str_eq r.currency_code c

-- currencyIDMap
unfoldable pub currency_id_map : String → Option ℕ
currency_id_map c =
    if str_eq c "RSD"
    then some 1
    else if str_eq c "EUR"
    then some 2
    else if str_eq c "CHF"
    then some 3
    else if str_eq c "USD"
    then some 4
    else if str_eq c "GBP"
    then some 5
    else if str_eq c "JPY"
    then some 6
    else if str_eq c "CAD"
    then some 7
    else if str_eq c "AUD"
    then some 8
    else none

-- currencyCodeMap, with Go's empty text for a missing key.
unfoldable pub currency_code_map : ℕ → String
currency_code_map i =
    if i == 1
    then "RSD"
    else if i == 2
    then "EUR"
    else if i == 3
    then "CHF"
    else if i == 4
    then "USD"
    else if i == 5
    then "GBP"
    else if i == 6
    then "JPY"
    else if i == 7
    then "CAD"
    else if i == 8
    then "AUD"
    else ""

-- portfolioUserID: employees share the bank's portfolio and accounts, under user 0.
unfoldable pub portfolio_user_id : ℕ → String → ℕ
portfolio_user_id user_id user_type = if str_eq user_type "EMPLOYEE" then 0 else user_id
