-- ===== src/Order/Approval.antt =====
-- ApproveOrder and DeclineOrder of services/order-service/approval/service.go, and the cancelling of
-- an order in handlers/grpc_server.go, with the statements of repository/order_repo.go that they
-- send. The audit log and the notifications are left out.
use exbanka_4_backend.Shared.Tests.{
  ℕ, Bool, true, false, not, ◌&&◌, ◌||◌, Option, none, some, String, str_eq, ltb, ◌==◌,
  if◌then◌else◌,
}
use exbanka_4_backend.Shared.Int.{ℤ, ◌+ℤ◌}
use exbanka_4_backend.Shared.Table.{find_where, update_where, count_where}
use exbanka_4_backend.Shared.Float.{Float}
use exbanka_4_backend.Shared.Database.{
  Action, ⊤, not_found, permission_denied, failed_precondition, pure, query, select_row, update,
  throw_if, attempt, ◌>>=◌, ◌>>◌,
}
use exbanka_4_backend.Order.State.{Order, Actuary, Store, order_has_id, has_employee}
use exbanka_4_backend.Order.Pricing.{approximate_price}

-- GetOrderByID, with the code that the handlers give for sql.ErrNoRows.
unfoldable pub get_order_by_id : ℕ → Action Store Order
get_order_by_id i = select_row (λ s. find_where (order_has_id i) s.orders) not_found

abbrev pub with_decision : String → Option ℕ → Order → Order
with_decision st by o = record o { status = st; approved_by = by }

-- UpdateOrderStatus
unfoldable pub update_order_status : ℕ → String → Option ℕ → Store → Store
update_order_status i st by s = record s {
  orders = update_where (order_has_id i) (with_decision st by) s.orders;
}

-- The answer that is left when IsActuary fails.
abbrev pub exists_of : Option Bool → Bool
exists_of none = false
exists_of (some b) = b

-- IsActuary, before its error is dropped.
unfoldable pub is_actuary : ℕ → Action Store Bool
is_actuary employee = query (λ s. ltb 0 (count_where (has_employee employee) s.actuaries))

abbrev pub use_limit : ℤ → Actuary → Actuary
use_limit x a = record a { used_limit = a.used_limit +ℤ x }

-- DeductActuaryUsedLimit
unfoldable pub deduct_used_limit : ℕ → ℤ → Store → Store
deduct_used_limit employee x s = record s {
  actuaries = update_where (has_employee employee) (use_limit x) s.actuaries;
}

abbrev pub order_total : Float → Order → ℤ
order_total fl o = approximate_price fl o.contract_size o.price_per_unit o.quantity

-- The deduction for an actuary's BUY order, whose failure is ignored.
unfoldable pub deduct_total : Float → Order → Action Store ⊤
deduct_total fl o = do attempt (update (deduct_used_limit o.user_id (order_total fl o))); pure tt

unfoldable pub deduct_if : Float → Order → Option Bool → Action Store ⊤
deduct_if fl o actuary = if exists_of actuary then deduct_total fl o else pure tt

unfoldable pub deduct : Float → Order → Action Store ⊤
deduct fl o = do actuary ← attempt (is_actuary o.user_id); deduct_if fl o actuary

-- ApproveOrder
unfoldable pub approve_order : Float → ℕ → ℕ → Action Store ⊤
approve_order fl i supervisor = do
  o ← get_order_by_id i
  throw_if (not (str_eq o.status "PENDING")) failed_precondition
  update (update_order_status i "APPROVED" (some supervisor))
  if str_eq o.user_type "EMPLOYEE" && str_eq o.direction "BUY" then deduct fl o else pure tt

-- DeclineOrder; the supervisor 0 is nobody.
unfoldable pub decline_order : ℕ → ℕ → Action Store ⊤
decline_order i supervisor = do
  o ← get_order_by_id i
  throw_if (not (str_eq o.status "PENDING")) failed_precondition
  update (update_order_status i "DECLINED" (if supervisor == 0 then none else some supervisor))

abbrev pub with_nothing_left : Order → Order
with_nothing_left o = record o { is_done = true; remaining_portions = 0 }

-- CancelOrder of the repository
unfoldable pub mark_cancelled : ℕ → Store → Store
mark_cancelled i s = record s { orders = update_where (order_has_id i) with_nothing_left s.orders }

-- cancelOrderChecked
unfoldable pub cancel_order : ℕ → ℕ → Action Store ⊤
cancel_order i user = do
  o ← get_order_by_id i
  throw_if (o.is_done || (o.remaining_portions == 0)) failed_precondition
  throw_if (not (o.user_id == user)) permission_denied
  update (mark_cancelled i)
