-- ===== src/Otc/Compensation.antt =====
-- What ExerciseContract of services/otc-service/handlers/grpc_server.go has read before its first
-- step, its two closures that write the saga's rows, its four compensations, and the exit of a step
-- that failed. The test hooks that inject faults are off, so the loop around a compensation runs once.
use exbanka_4_backend.Shared.Tests.{ℕ, String, ◌==◌, if◌then◌else◌}
use exbanka_4_backend.Shared.Int.{ℤ, pos}
use exbanka_4_backend.Shared.Float.{Float, of_int}
use exbanka_4_backend.Shared.Database.{Code, Action, ⊤, pure, throw, ◌>>◌}
use exbanka_4_backend.Shared.Sparse.{try_update, retry_exec}
use exbanka_4_backend.Otc.State.{Contract, Store, Key, portfolio_user_id}
use exbanka_4_backend.Otc.Statements.{
  add_log, update_saga, release_funds, release_shares, refund_buyer, debit_seller, delete_used_up,
  upsert_seller, deduct_buyer,
}

-- What the handler has read before its first step, with the saga's id.
pub record Deal : Type 0 where
  pub contract : Contract
  pub listing : ℕ
  pub currency : ℕ
  pub buyer_account : ℕ
  pub to_pay : ℤ
  pub saga : ℕ

-- The account that the seller is paid to, and the amount in its currency.
pub record Payee : Type 0 where
  pub account : ℕ
  pub to_receive : ℤ

abbrev pub shares : Deal → ℤ
shares d = pos d.contract.amount

abbrev pub seller_owner : Contract → ℕ
seller_owner c = portfolio_user_id c.seller_id c.seller_type

abbrev pub buyer_owner : Contract → ℕ
buyer_owner c = portfolio_user_id c.buyer_id c.buyer_type

abbrev pub seller_key : Deal → Key
seller_key d = record {
  user_id = seller_owner d.contract;
  user_type = d.contract.seller_type;
  listing_id = d.listing;
}

abbrev pub buyer_key : Deal → Key
buyer_key d = record {
  user_id = buyer_owner d.contract;
  user_type = d.contract.buyer_type;
  listing_id = d.listing;
}

abbrev pub total_cost : Float → Contract → ℤ
total_cost fl c = fl.mul c.strike_price (of_int c.amount)

unfoldable pub saga_log : Deal → ℕ → String → Action Store ⊤
saga_log d step status = try_update (add_log d.contract.id step status)

unfoldable pub saga_status : Deal → String → ℕ → Action Store ⊤
saga_status d status step =
    if d.saga == 0 then pure tt else try_update (update_saga d.saga status step)

unfoldable pub comp1 : Deal → Action Store ⊤
comp1 d = do retry_exec (release_funds d.buyer_account d.to_pay); saga_log d 1 "COMPENSATED"

unfoldable pub comp2 : Deal → Action Store ⊤
comp2 d = do retry_exec (release_shares (seller_key d) (shares d)); saga_log d 2 "COMPENSATED"

unfoldable pub comp3 : Deal → Payee → Action Store ⊤
comp3 d p = do
  retry_exec (refund_buyer d.buyer_account d.to_pay)
  retry_exec (debit_seller p.account p.to_receive)
  saga_log d 3 "COMPENSATED"

unfoldable pub comp4 : Deal → Payee → Action Store ⊤
comp4 d p = do
  retry_exec (upsert_seller (seller_key d) (shares d) p.account)
  retry_exec (deduct_buyer (buyer_key d) (shares d))
  try_update (delete_used_up (buyer_key d))
  saga_log d 4 "COMPENSATED"

-- The compensations of the steps that were done before the one that failed.
unfoldable pub undo2 : Deal → Action Store ⊤
undo2 d = do comp2 d; comp1 d

unfoldable pub undo3 : Deal → Payee → Action Store ⊤
undo3 d p = do comp3 d p; undo2 d

unfoldable pub undo4 : Deal → Payee → Action Store ⊤
undo4 d p = do comp4 d p; undo3 d p

unfoldable pub compensate : Deal → ℕ → Action Store ⊤ → Code → Action Store ℕ
compensate d step undo code = do
  saga_status d "Compensating" step
  undo
  saga_status d "Compensated" step
  throw code

-- The exit of a step that failed.
unfoldable pub fail_step : Deal → ℕ → Action Store ⊤ → Code → Action Store ℕ
fail_step d step undo code = do saga_log d step "FAILED"; compensate d step undo code
