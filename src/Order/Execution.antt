-- ===== src/Order/Execution.antt =====
-- executeOrder of services/order-service/execution/scheduler.go, from its loop on: the partial fills
-- of one order. A tick is one round of the loop: the listing that securities-service answers, or
-- none for its error, and the random number. When the ticks are used up, the loop is still running.
-- The waiting, the updates of portfolios and funds by other services, whose errors are only logged,
-- and the notifications are left out.
use exbanka_4_backend.Shared.Tests.{
  ℕ, ◌+◌, ◌-◌, ◌%◌, ◌==◌, true, not, ◌||◌, Option, none, some, List, [], ◌∷◌, String, if◌then◌else◌,
}
use exbanka_4_backend.Shared.Int.{ℤ, pos, ◌+ℤ◌, leb_ℤ, eqb_ℤ}
use exbanka_4_backend.Shared.Table.{update_where}
use exbanka_4_backend.Shared.Float.{Float, of_int}
use exbanka_4_backend.Shared.Database.{
  Action, ⊤, unanswered, pure, throw, update, row_cases, attempt, ◌>>=◌, ◌>>◌,
}
use exbanka_4_backend.Order.State.{Order, Store, order_has_id}
use exbanka_4_backend.Order.Pricing.{calculate_price, calculate_commission, determine_aon_fill_qty}
use exbanka_4_backend.Order.Approval.{update_order_status}
use exbanka_4_backend.Order.Settlement.{settle}

pub record Listing : Type 0 where
  pub ask : ℤ
  pub bid : ℤ

pub record Tick : Type 0 where
  pub listing : Option Listing
  pub draw : ℕ

-- A pointer's value, or 0.
abbrev value_of : Option ℤ → ℤ
value_of none = pos 0
value_of (some x) = x

-- The quantity of the fill: all of it for an AON order, else at random from 1 to what is left.
unfoldable pub fill_qty : Order → ℕ → ℕ → Option ℕ
fill_qty o remaining draw =
    if o.is_aon
    then determine_aon_fill_qty o.is_aon remaining o.quantity
    else some (draw % remaining + 1)

-- InsertPortion
unfoldable pub insert_portion : ℕ → ℕ → ℤ → Store → Store
insert_portion i qty price s = record s {
  portions = record { order_id = i; quantity = qty; price = price } ∷ s.portions;
}

abbrev with_remaining : ℕ → Order → Order
with_remaining n o = record o { remaining_portions = n }

-- UpdateRemainingPortions
unfoldable pub update_remaining_portions : ℕ → ℕ → Store → Store
update_remaining_portions i n s = record s {
  orders = update_where (order_has_id i) (with_remaining n) s.orders;
}

abbrev done : Order → Order
done o = record o { is_done = true }

-- SetOrderDone
unfoldable pub set_order_done : ℕ → Store → Store
set_order_done i s = record s { orders = update_where (order_has_id i) done s.orders }

abbrev with_commission : ℤ → Order → Order
with_commission x o = record o { commission_paid = o.commission_paid +ℤ x }

-- AddCommissionPaid
unfoldable pub add_commission_paid : ℕ → ℤ → Store → Store
add_commission_paid i x s = record s {
  orders = update_where (order_has_id i) (with_commission x) s.orders;
}

-- The settlement has failed.
unfoldable pub decline : Order → Action Store ⊤
decline o = do attempt (update (update_order_status o.id "DECLINED" none)); pure tt

unfoldable pub finish : Order → Action Store ⊤
finish o = do attempt (update (set_order_done o.id)); pure tt

-- The end of a round, after the portion is stored; `rest` is the loop with what is left.
unfoldable pub count_down : Order → ℕ → (ℕ → Action Store ⊤) → Action Store ⊤
count_down o left rest = do
  attempt (update (update_remaining_portions o.id left))
  if left == 0 then finish o else rest left

unfoldable pub record_portion : Order → ℕ → ℕ → ℤ → (ℕ → Action Store ⊤) → Action Store ⊤
record_portion o remaining qty price rest = do
  stored ← attempt (update (insert_portion o.id qty price))
  row_cases stored (rest remaining) (λ _. count_down o (remaining - qty) rest)

-- `if commission > 0`
unfoldable pub record_commission : Order → ℤ → Action Store ⊤
record_commission o commission =
    if leb_ℤ commission (pos 0) then pure tt else update (add_commission_paid o.id commission)

unfoldable pub record_fill : Order → ℕ → ℕ → ℤ → ℤ → (ℕ → Action Store ⊤) → Action Store ⊤
record_fill o remaining qty price commission rest = do
  attempt (record_commission o commission)
  record_portion o remaining qty price rest

unfoldable pub fill : Float → Order → String → ℕ → ℤ → (ℕ → Action Store ⊤) → ℕ → Action Store ⊤
fill fl o currency remaining price rest qty = do
  let total = fl.mul (fl.mul (of_int qty) (of_int o.contract_size)) price
  let commission = calculate_commission fl o.order_type total
  settled ← attempt (settle fl o total commission currency)
  row_cases settled (decline o) (λ _. record_fill o remaining qty price commission rest)

-- A round of the loop with fresh prices.
unfoldable pub round :
    Float → Order → String → ℕ → ℕ → (ℕ → Action Store ⊤) → Listing → Action Store ⊤
round fl o currency remaining draw rest l =
    let (price, can_execute) =
      calculate_price o.order_type o.direction l.ask l.bid (value_of o.limit_value)
        (value_of o.stop_value) in
    if not can_execute || eqb_ℤ price (pos 0)
    then rest remaining
    else row_cases (fill_qty o remaining draw) (rest remaining)
        (fill fl o currency remaining price rest)

-- The loop `for remaining > 0`.
unfoldable pub execute_loop : Float → Order → String → List Tick → ℕ → Action Store ⊤
execute_loop fl o currency [] remaining = if remaining == 0 then pure tt else throw unanswered
execute_loop fl o currency (t ∷ ts) remaining =
    let rest = execute_loop fl o currency ts in
    if remaining == 0
    then pure tt
    else row_cases t.listing (rest remaining) (round fl o currency remaining t.draw rest)
