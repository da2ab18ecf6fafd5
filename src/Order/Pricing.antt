-- ===== src/Order/Pricing.antt =====
-- services/order-service/execution/executor.go, and the pure part of approval/approval.go.
use exbanka_4_backend.Shared.Tests.{
  ℕ, ◌+◌, ◌/◌, ◌%◌, Bool, true, false, not, ◌&&◌, ◌||◌, Option, none, some, String, str_eq, ◌==◌,
  if◌then◌else◌,
}
use exbanka_4_backend.Shared.Int.{ℤ, pos, pos_part, ◌-ℤ◌, leb_ℤ, ltb_ℤ, min_ℤ, max_ℤ}
use exbanka_4_backend.Shared.Float.{Float, of_int}

-- The price per unit, and whether the order can execute now.
abbrev pub Price : Type 0
Price = ℤ × Bool

abbrev wait : Price
wait = (pos 0, false)

abbrev is_buy : String → Bool
is_buy direction = str_eq direction "BUY"

limit_price : String → ℤ → ℤ → ℤ → Price
limit_price direction ask bid limit =
    if is_buy direction
    then (if leb_ℤ ask limit then (min_ℤ limit ask, true) else wait)
    else if leb_ℤ limit bid
    then (max_ℤ limit bid, true)
    else wait

stop_price : String → ℤ → ℤ → ℤ → Price
stop_price direction ask bid stop =
    if is_buy direction
    then (if ltb_ℤ stop ask then (ask, true) else wait)
    else if ltb_ℤ bid stop
    then (bid, true)
    else wait

stop_limit_price : String → ℤ → ℤ → ℤ → ℤ → Price
stop_limit_price direction ask bid limit stop =
    if is_buy direction
    then (if leb_ℤ stop ask && leb_ℤ ask limit then (ask, true) else wait)
    else if ltb_ℤ bid stop && leb_ℤ limit bid
    then (bid, true)
    else wait

-- CalculatePrice
unfoldable pub calculate_price : String → String → ℤ → ℤ → ℤ → ℤ → Price
unfolding limit_price stop_price stop_limit_price
calculate_price order_type direction ask bid limit stop =
    if str_eq order_type "MARKET"
    then (if is_buy direction then ask else bid, true)
    else if str_eq order_type "LIMIT"
    then limit_price direction ask bid limit
    else if str_eq order_type "STOP"
    then stop_price direction ask bid stop
    else if str_eq order_type "STOP_LIMIT"
    then stop_limit_price direction ask bid limit stop
    else wait

-- CalculateCommission: 14 % up to 7, or 24 % up to 12.
unfoldable pub calculate_commission : Float → String → ℤ → ℤ
calculate_commission fl order_type total =
    if str_eq order_type "MARKET" || str_eq order_type "STOP"
    then min_ℤ (fl.mul (pos 140000) total) (pos 7000000)
    else if str_eq order_type "LIMIT" || str_eq order_type "STOP_LIMIT"
    then min_ℤ (fl.mul (pos 240000) total) (pos 12000000)
    else pos 0

-- ApproximatePrice
unfoldable pub approximate_price : Float → ℕ → ℤ → ℕ → ℤ
approximate_price fl contract_size price quantity =
    fl.mul (fl.mul (of_int contract_size) price) (of_int quantity)

abbrev at_least_one : ℕ → ℕ
at_least_one n = if n == 0 then 1 else n

-- FillInterval, in seconds, where `draw` is the random number, reduced to its range.
unfoldable pub fill_interval : ℤ → ℕ → Bool → ℕ → ℕ
fill_interval volume remaining after_hours draw =
    if leb_ℤ volume (pos 0) || (remaining == 0)
    then 5
    else let fills_per_day = at_least_one (pos_part volume / remaining) in
      let max_seconds = at_least_one (1440 / fills_per_day) in
      draw % (max_seconds + 1) + (if after_hours then 1800 else 0)

-- ValidateMargin
unfoldable pub validate_margin : ℤ → ℤ → ℤ → Bool
validate_margin initial_margin_cost loan_amount account_balance =
    ltb_ℤ initial_margin_cost loan_amount || ltb_ℤ initial_margin_cost account_balance

-- DetermineAONFillQty: none is (0, false).
unfoldable pub determine_aon_fill_qty : Bool → ℕ → ℕ → Option ℕ
determine_aon_fill_qty is_aon remaining total =
    if not is_aon then some remaining else if remaining == total then some remaining else none

-- NeedsApproval
unfoldable pub needs_approval : Bool → ℤ → ℤ → ℤ → String → Bool
needs_approval need_approval_flag used_limit limit_amount order_total direction =
    if need_approval_flag
    then true
    else if not (is_buy direction)
    then false
    else if leb_ℤ limit_amount used_limit
    then true
    else ltb_ℤ (limit_amount -ℤ used_limit) order_total

-- DetermineInitialStatus
unfoldable pub determine_initial_status : String → Bool → Bool → String
determine_initial_status user_type is_actuary need_approval =
    if str_eq user_type "CLIENT"
    then "APPROVED"
    else if not is_actuary
    then "APPROVED"
    else if not need_approval
    then "APPROVED"
    else "PENDING"
