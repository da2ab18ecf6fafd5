-- ===== src/Order/Tests.antt =====
-- Orders at one account of 5000 USD with the bank's own account beside it.
use exbanka_4_backend.Shared.Tests.{
  ◌≤◌, ◌≡◌, ◌⊎◌, ◌*◌, ◌/◌, ◌↔◌, refl, arith, true, false, none, some, List, [], ◌∷◌, str_eq, ◌||◌,
  if◌then◌else◌,
}
use exbanka_4_backend.Shared.Int.{ℤ, pos, ◌+ℤ◌, -ℤ◌, ◌≤ℤ◌, ◌<ℤ◌, pos_part}
use exbanka_4_backend.Shared.Cents.{of_cents}
use exbanka_4_backend.Shared.Table.{find_where, update_where, count_where}
use exbanka_4_backend.Shared.Float.{Float, MulNonneg}
use exbanka_4_backend.Shared.Account.{Account, Currency, credit}
use exbanka_4_backend.Shared.Database.{Outages, err, internal}
use exbanka_4_backend.Shared.Ensures.{Ensures}
use exbanka_4_backend.Order.State.{Order, Actuary, Store, has_employee}
use exbanka_4_backend.Order.Pricing.{
  calculate_price, calculate_commission, fill_interval, needs_approval,
}
use exbanka_4_backend.Order.Limits.{
  calculate_price_market, calculate_price_limit, calculate_commission_bounds, fill_interval_bound,
  needs_approval_iff,
}
use exbanka_4_backend.Order.Approval.{use_limit, order_total}
use exbanka_4_backend.Order.Decisions.{
  Decision, approve, decline, run_decisions, run_decisions_once,
}
use exbanka_4_backend.Order.Settlement.{settle, can_pay}
use exbanka_4_backend.Order.Funds.{NoOverdraft, settle-NoOverdraft, settle_lost}
use exbanka_4_backend.Order.Execution.{Tick, execute_loop}
use exbanka_4_backend.Order.Within.{filled}
use exbanka_4_backend.Order.Fills.{execute_loop-filled}

-- A float that multiplies by nothing but the naturals.
abbrev product : ℤ → ℤ → ℤ
product a b = pos (pos_part a * pos_part b / 1000000)

abbrev float : Float
float = record { mul = product; div = λ a b. a; pow = λ a n. a; round_cents = λ a. a }

float-MulNonneg : MulNonneg float
float-MulNonneg a b ha hb = omega arith

calculate_price_market_example : pos 101 ≡ (if str_eq "BUY" "BUY" then pos 101 else pos 99)
calculate_price_market_example =
    calculate_price_market "LIMIT" "BUY" (pos 101) (pos 99) (pos 105) (pos 0) (pos 101)
      (unfold calculate_price in refl)

calculate_price_limit_example :
    (if str_eq "SELL" "BUY" then pos 99 else pos 95)
    ≤ℤ (if str_eq "SELL" "BUY" then pos 95 else pos 99)
calculate_price_limit_example =
    calculate_price_limit "STOP_LIMIT" "SELL" (pos 101) (pos 99) (pos 95) (pos 100) (pos 99) refl
      (unfold calculate_price in refl)

calculate_commission_bounds_example :
    (pos 0 ≤ℤ calculate_commission float "MARKET" (pos 100000000))
    × (calculate_commission float "MARKET" (pos 100000000) ≤ℤ (
        if str_eq "MARKET" "MARKET" || str_eq "MARKET" "STOP" then pos 7000000 else pos 12000000))
calculate_commission_bounds_example =
    calculate_commission_bounds float "MARKET" (pos 100000000) float-MulNonneg (omega arith)

fill_interval_bound_example : fill_interval (pos 5000) 10 true 77 ≤ (if true then 3240 else 1440)
fill_interval_bound_example = fill_interval_bound (pos 5000) 10 true 77

needs_approval_iff_example :
    (needs_approval false (pos 60) (pos 100) (pos 30) "BUY" ≡ false)
    ↔ ((pos 60 <ℤ pos 100) × (pos 60 +ℤ pos 30 ≤ℤ pos 100))
needs_approval_iff_example = needs_approval_iff (pos 60) (pos 100) (pos 30)

abbrev buyer : Account
buyer = record {
  id = 1;
  account_number = "265000111";
  owner_id = 7;
  currency_id = 4;
  account_type = "personal";
  status = "ACTIVE";
  balance = pos 500000;
  available_balance = pos 500000;
  daily_limit = none;
  monthly_limit = none;
  daily_spent = pos 0;
  monthly_spent = pos 0;
}

abbrev bank : Account
bank = record buyer { id = 2; account_number = "BANK-USD-001"; owner_id = 0; account_type = "BANK" }

abbrev dollar : Currency
dollar = record { id = 4; code = "USD" }

abbrev order : Order
order = record {
  id = 9;
  user_id = 3;
  user_type = "EMPLOYEE";
  asset_id = 1;
  order_type = "MARKET";
  quantity = 4;
  contract_size = 1;
  price_per_unit = pos 100000000;
  limit_value = none;
  stop_value = none;
  direction = "BUY";
  status = "PENDING";
  approved_by = none;
  is_done = false;
  remaining_portions = 4;
  after_hours = false;
  is_aon = false;
  is_margin = false;
  account_id = 1;
  fund_id = 0;
  commission_paid = pos 0;
}

abbrev declined : Order
declined = record order { id = 10; status = "DECLINED" }

abbrev agent : Actuary
agent = record {
  employee_id = 3;
  limit_amount = pos 100000000000;
  used_limit = pos 0;
  need_approval = true;
}

abbrev store : Store
store = record {
  orders = order ∷ declined ∷ [];
  portions = [];
  actuaries = agent ∷ [];
  accounts = buyer ∷ bank ∷ [];
  currencies = dollar ∷ [];
  rates = [];
}

-- An approval that breaks off, a second one, and a decline.
abbrev decisions : List (Decision × Outages)
decisions = (approve 1, false ∷ true ∷ []) ∷ (approve 1, []) ∷ (decline 2, []) ∷ []

run_decisions_once_example :
    let s' = run_decisions float 9 decisions store in
    (s'.actuaries ≡ agent ∷ [])
    ⊎ (s'.actuaries
        ≡ update_where (has_employee 3) (use_limit (order_total float order)) (agent ∷ []))
run_decisions_once_example =
    run_decisions_once float 9 decisions store order (unfold find_where in refl)

settle-NoOverdraft_example :
    Ensures (λ _. NoOverdraft) (settle float order (pos 400000000) (pos 7000000) "USD") store
settle-NoOverdraft_example =
    settle-NoOverdraft float order (pos 400000000) (pos 7000000) "USD" store refl
      (unfold count_where in refl)

settle_lost_example :
    let (r, s', _) =
      settle float order
        (pos 400000000)
        (pos 7000000)
        "USD"
        store
        (false ∷ false ∷ false ∷ true ∷ []) in
    (r ≡ err internal)
    × (s'.accounts
        ≡ update_where
            (can_pay 1 (pos 400000000 +ℤ pos 7000000))
            (credit (-ℤ◌ (pos 400000000 +ℤ pos 7000000)))
            (buyer ∷ bank ∷ []))
settle_lost_example =
    settle_lost float order (pos 400000000) (pos 7000000) buyer dollar store refl
      (unfold find_where in refl) (unfold find_where in refl) refl (unfold ◌+ℤ◌ of_cents in refl)

-- A price that is missing, a fill, and a fill whose portion is not stored.
abbrev ticks : List Tick
ticks =
    record { listing = none; draw = 0 }
    ∷ record { listing = some (record { ask = pos 100000000; bid = pos 99000000 }); draw = 2 }
    ∷ record { listing = some (record { ask = pos 101000000; bid = pos 99000000 }); draw = 5 }
    ∷ []

execute_loop-filled_example :
    filled 9 (execute_loop float order "USD" ticks 4 store []).1.portions ≤ 4
execute_loop-filled_example = execute_loop-filled float order "USD" ticks store [] (omega arith)
