-- ===== src/Order/Limits.antt =====
-- Properties of the prices, commissions, intervals and approvals of
-- services/order-service/execution/executor.go and approval/approval.go.
use exbanka_4_backend.Shared.Tests.{
  ℕ, ◌≤◌, ◌≡◌, Bool, true, false, ◌||◌, ◌↔◌, String, str_eq, if◌then◌else◌, arith, str_eq→eq,
  Bool-cases, inl, inr,
}
use exbanka_4_backend.Shared.Int.{ℤ, pos, ◌+ℤ◌, ◌≤ℤ◌, ◌<ℤ◌, -ℤ_parts, +ℤ_parts}
use exbanka_4_backend.Shared.Float.{Float, MulNonneg}
use exbanka_4_backend.Order.Pricing.{
  calculate_price, calculate_commission, fill_interval, needs_approval,
}

-- An order that can execute pays exactly the market's price, the ask for a BUY and the bid for any
-- other direction, whatever its type.
pub calculate_price_market :
    (order_type direction : String) (ask bid limit stop price : ℤ)
    → calculate_price order_type direction ask bid limit stop ≡ (price, true)
    → price ≡ (if str_eq direction "BUY" then ask else bid)
unfolding calculate_price
calculate_price_market order_type direction ask bid limit stop price h = ground arith

limit_kept :
    (direction : String) (ask bid limit stop price : ℤ)
    → calculate_price "LIMIT" direction ask bid limit stop ≡ (price, true)
    → (if str_eq direction "BUY" then price else limit)
      ≤ℤ (if str_eq direction "BUY" then limit else price)
unfolding calculate_price
limit_kept direction ask bid limit stop price h = elim (Bool-cases (str_eq direction "BUY")) [
  | inl e ↦ rw e (ground (arith, rw e at h))
  | inr e ↦ rw e (ground (arith, rw e at h))
]

stop_limit_kept :
    (direction : String) (ask bid limit stop price : ℤ)
    → calculate_price "STOP_LIMIT" direction ask bid limit stop ≡ (price, true)
    → (if str_eq direction "BUY" then price else limit)
      ≤ℤ (if str_eq direction "BUY" then limit else price)
unfolding calculate_price
stop_limit_kept direction ask bid limit stop price h = elim (Bool-cases (str_eq direction "BUY")) [
  | inl e ↦ rw e (ground (arith, rw e at h))
  | inr e ↦ rw e (ground (arith, rw e at h))
]

-- A LIMIT or STOP_LIMIT order that can execute never pays more than its limit for a BUY, and never
-- gets less than its limit otherwise.
pub calculate_price_limit :
    (order_type direction : String) (ask bid limit stop price : ℤ)
    → (str_eq order_type "LIMIT" || str_eq order_type "STOP_LIMIT") ≡ true
    → calculate_price order_type direction ask bid limit stop ≡ (price, true)
    → (if str_eq direction "BUY" then price else limit)
      ≤ℤ (if str_eq direction "BUY" then limit else price)
calculate_price_limit order_type direction ask bid limit stop price k h =
    elim (Bool-cases (str_eq order_type "LIMIT")) [
      | inl e ↦ limit_kept direction ask bid limit stop price (rw (str_eq→eq _ _ e) at h)
      | inr e ↦
          stop_limit_kept direction ask bid limit stop price
            (rw (str_eq→eq order_type "STOP_LIMIT" (rw e at k)) at h)
    ]

-- A commission is never negative and never above 12, for a MARKET or a STOP order never above 7,
-- where the total is not negative and products of numbers that are not negative are not negative.
pub calculate_commission_bounds :
    (fl : Float) (order_type : String) (total : ℤ)
    → MulNonneg fl
    → pos 0 ≤ℤ total
    → (pos 0 ≤ℤ calculate_commission fl order_type total)
      × (calculate_commission fl order_type total ≤ℤ (
          if str_eq order_type "MARKET" || str_eq order_type "STOP"
          then pos 7000000
          else pos 12000000))
unfolding calculate_commission
calculate_commission_bounds fl order_type total keeps h =
    let small = keeps (pos 140000) total (omega arith) h in
    let large = keeps (pos 240000) total (omega arith) h in
    (ground (arith, small, large), ground (arith, small, large))

-- The next fill is at most 24 minutes away, and at most 54 minutes after hours.
pub fill_interval_bound :
    (volume : ℤ) (remaining : ℕ) (after_hours : Bool) (draw : ℕ)
    → fill_interval volume remaining after_hours draw ≤ (if after_hours then 3240 else 1440)
unfolding fill_interval
fill_interval_bound volume remaining after_hours draw = ground arith

-- A BUY order of an agent without the approval flag goes without approval exactly when the agent
-- has some limit left and the order's total, on top of what was used, stays within the limit.
pub needs_approval_iff :
    (used limit total : ℤ)
    → (needs_approval false used limit total "BUY" ≡ false)
      ↔ ((used <ℤ limit) × (used +ℤ total ≤ℤ limit))
unfolding needs_approval
needs_approval_iff used limit total =
    let d = -ℤ_parts limit used in
    let s = +ℤ_parts used total in
    (λ h. (ground (arith, d, s), ground (arith, d, s)), λ h. ground (arith, d, s))
