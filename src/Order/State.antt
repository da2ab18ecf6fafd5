-- ===== src/Order/State.antt =====
-- The state of services/order-service: the rows of `orders` and `order_portions`
-- (services/order-service/db/schema.sql), of `actuary_info` in employee_db, of account_db, and of
-- exchange_db with the rates of today. Prices and amounts are in millionths.
use exbanka_4_backend.Shared.Tests.{ℕ, Bool, Option, List, String, str_eq, ◌==◌}
use exbanka_4_backend.Shared.Int.{ℤ}
use exbanka_4_backend.Shared.Account.{Account, Currency}

pub record Order : Type 0 where
  pub id : ℕ
  pub user_id : ℕ
  pub user_type : String
  pub asset_id : ℕ
  pub order_type : String
  pub quantity : ℕ
  pub contract_size : ℕ
  pub price_per_unit : ℤ
  pub limit_value : Option ℤ
  pub stop_value : Option ℤ
  pub direction : String
  pub status : String
  pub approved_by : Option ℕ
  pub is_done : Bool
  pub remaining_portions : ℕ
  pub after_hours : Bool
  pub is_aon : Bool
  pub is_margin : Bool
  pub account_id : ℕ
  pub fund_id : ℕ
  pub commission_paid : ℤ

pub record Portion : Type 0 where
  pub order_id : ℕ
  pub quantity : ℕ
  pub price : ℤ

pub record Actuary : Type 0 where
  pub employee_id : ℕ
  pub limit_amount : ℤ
  pub used_limit : ℤ
  pub need_approval : Bool

-- A row of `daily_exchange_rates` of today.
pub record Rate : Type 0 where
  pub currency_code : String
  pub buying_rate : ℤ
  pub selling_rate : ℤ

pub record Store : Type 0 where
  pub orders : List Order
  pub portions : List Portion
  pub actuaries : List Actuary
  pub accounts : List Account
  pub currencies : List Currency
  pub rates : List Rate

abbrev pub order_has_id : ℕ → Order → Bool
order_has_id i o = o.id == i

abbrev pub has_employee : ℕ → Actuary → Bool
has_employee i a = a.employee_id == i

abbrev pub has_code : String → Rate → Bool
has_code c r = str_eq r.currency_code c
