-- ===== src/Payment/Create.antt =====
-- CreatePayment of services/payment-service/handlers/grpc_server.go, after the dashes are taken off
-- the account numbers. `outgoing` is the protocol with a partner bank, for the account numbers that
-- belong to one. The order number and the time come from outside. Notifications are left out.
use exbanka_4_backend.Shared.Tests.{
  ℕ, ◌+◌, ◌==◌, Bool, false, not, ◌&&◌, Option, none, some, ◌∷◌, String, str_eq, if◌then◌else◌, ltb,
}
use exbanka_4_backend.Shared.Int.{ℤ, ◌+ℤ◌, ltb_ℤ}
use exbanka_4_backend.Shared.Cents.{of_cents, in_cents}
use exbanka_4_backend.Shared.Table.{find_where, update_where, count_where}
use exbanka_4_backend.Shared.Float.{Float}
use exbanka_4_backend.Shared.Account.{
  available_of, add_cents, Account, has_number, has_id, credit, debit,
}
use exbanka_4_backend.Shared.Database.{
  Action, ⊤, not_found, permission_denied, failed_precondition, internal, query, select_row, update,
  insert_returning, throw_if, row_cases, attempt, transaction, ◌>>=◌, ◌>>◌,
}
use exbanka_4_backend.Payment.Quote.{
  Payment, Recipient, Store, Request, Route, existing, route_to, quote, banks, external, direct,
  exchanged,
}

-- `limit.Valid && spent + amount > limit`, with the columns in cents.
abbrev pub exceeds : Option ℤ → ℤ → ℤ → Bool
exceeds none spent amount = false
exceeds (some limit) spent amount = ltb_ℤ (of_cents limit) (of_cents spent +ℤ amount)

abbrev pub spend : ℤ → Account → Account
spend x a = record (debit x a) {
  daily_spent = add_cents a.daily_spent x;
  monthly_spent = add_cents a.monthly_spent x;
}

unfoldable pub debit_source : ℕ → ℤ → Store → Store
debit_source i x s = record s { accounts = update_where (has_id i) (spend x) s.accounts }

unfoldable pub credit_id : ℕ → ℤ → Store → Store
credit_id i x s = record s { accounts = update_where (has_id i) (credit x) s.accounts }

unfoldable pub credit_number : String → ℤ → Store → Store
credit_number n x s = record s { accounts = update_where (has_number n) (credit x) s.accounts }

unfoldable pub debit_number : String → ℤ → Store → Store
debit_number n x s = record s { accounts = update_where (has_number n) (debit x) s.accounts }

unfoldable pub pay_out : ℤ → ℤ → String × String → Route → Action Store ⊤
pay_out amount final_amount (bank_from, bank_to) external = update (credit_number bank_from amount)
pay_out amount final_amount (bank_from, bank_to) (direct t) = update (credit_id t.id amount)
pay_out amount final_amount (bank_from, bank_to) (exchanged t) = do
  update (credit_number bank_from amount)
  update (debit_number bank_to final_amount)
  update (credit_id t.id final_amount)

-- The statements of the transaction, with the source row read again under a lock.
unfoldable pub move_money : ℕ → ℤ → ℤ → String × String → Route → Action Store ⊤
move_money i amount final_amount bank route = do
  b ← select_row (λ s. find_where (has_id i) s.accounts) internal
  throw_if (ltb_ℤ (available_of b) amount) failed_precondition
  throw_if (exceeds b.daily_limit b.daily_spent amount) failed_precondition
  throw_if (exceeds b.monthly_limit b.monthly_spent amount) failed_precondition
  update (debit_source i amount)
  pay_out amount final_amount bank route

abbrev is_recipient : ℕ → String → Recipient → Bool
is_recipient client account r = (r.client_id == client) && str_eq r.account_number account

abbrev id_of : Option Recipient → Option ℕ
id_of none = none
id_of (some r) = some r.id

unfoldable pub new_payment : Request → String → ℤ → ℤ → Store → Payment
new_payment req order_number final_amount fee s = record {
  id = s.next_id;
  order_number = order_number;
  from_account = req.from_account;
  to_account = req.recipient_account;
  initial_amount = req.amount;
  final_amount = final_amount;
  fee = fee;
  recipient_id = id_of (find_where (is_recipient req.client_id req.recipient_account) s.recipients);
}

-- What the columns hold of it.
abbrev pub as_stored : Payment → Payment
as_stored p = record p {
  initial_amount = in_cents p.initial_amount;
  final_amount = in_cents p.final_amount;
  fee = in_cents p.fee;
}

abbrev pub has_order_number : String → Payment → Bool
has_order_number n p = str_eq p.order_number n

-- The INSERT, which UNIQUE (order_number) may refuse.
unfoldable pub insert_payment : Request → String → ℤ → ℤ → Store → Option (Payment × Store)
insert_payment req n final_amount fee s =
    let p = new_payment req n final_amount fee s in
    if ltb 0 (count_where (has_order_number n) s.payments)
    then none
    else some (p, record s { payments = as_stored p ∷ s.payments; next_id = s.next_id + 1 })

unfoldable pub pay_route : Float → Request → String → Account → Route → Action Store Payment
pay_route fl req order_number a route = do
  q ← quote fl req.amount a route
  bank ← banks a route
  transaction (move_money a.id req.amount q.0 bank route)
  insert_returning (insert_payment req order_number q.0 q.1)

unfoldable pub pay_here : Float → Request → String → Action Store Payment
pay_here fl req order_number = do
  a ← select_row (λ s. find_where (has_number req.from_account) s.accounts) not_found
  throw_if (not (a.owner_id == req.client_id)) permission_denied
  to ← attempt (query (λ s. find_where (has_number req.recipient_account) s.accounts))
  pay_route fl req order_number a (route_to a (existing to))

-- CreatePayment
unfoldable pub create_payment :
    (String → Option (Request → Action Store Payment))
    → Float
    → Request
    → String
    → Action Store Payment
create_payment outgoing fl req order_number =
    row_cases (outgoing req.recipient_account) (pay_here fl req order_number) (λ send. send req)
