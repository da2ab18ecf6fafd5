-- ===== src/Otc/Recovery.antt =====
-- recoverSaga of services/otc-service/handlers/saga_recovery.go, which is run at a start of the
-- service for every saga that is Running or Compensating. It has no answer: where it logs an error and
-- returns, the model answers `internal`.
use exbanka_4_backend.Shared.Tests.{
  ℕ, Bool, true, ◌&&◌, String, str_eq, ◌==◌, ltb, leb, List, [], ◌∷◌, if◌then◌else◌,
}
use exbanka_4_backend.Shared.Int.{ℤ, ◌+ℤ◌}
use exbanka_4_backend.Shared.Table.{find_where, update_where}
use exbanka_4_backend.Shared.Float.{Float}
use exbanka_4_backend.Shared.Database.{
  Action, ⊤, internal, pure, query, select_row, or_throw, ◌>>=◌, ◌>>◌,
}
use exbanka_4_backend.Shared.Sparse.{try_update, retry_exec}
use exbanka_4_backend.Otc.State.{
  SagaLog, Saga, Entry, Store, Key, has_key, contract_has_id, currency_id_map,
}
use exbanka_4_backend.Otc.Money.{
  find_account, get_account_currency_id, listing_id_for_ticker, convert_amount,
}
use exbanka_4_backend.Otc.Statements.{
  saga_has_id, release_funds, release_shares, refund_buyer, debit_seller, deduct_buyer,
}
use exbanka_4_backend.Otc.Compensation.{
  Deal, Payee, shares, seller_owner, buyer_owner, seller_key, buyer_key, total_cost, saga_log,
}

abbrev is_unfinished : ℕ → Saga → Bool
is_unfinished i g =
    saga_has_id i g && (if str_eq g.status "Running" then true else str_eq g.status "Compensating")

abbrev as_status : String → Saga → Saga
as_status status g = record g { status = status }

unfoldable pub mark_compensating : ℕ → Store → Store
mark_compensating i s = record s {
  sagas = update_where (is_unfinished i) (as_status "Compensating") s.sagas;
}

unfoldable pub mark_compensated : ℕ → Store → Store
mark_compensated i s = record s {
  sagas = update_where (saga_has_id i) (as_status "Compensated") s.sagas;
}

abbrev is_success : ℕ → SagaLog → Bool
is_success contract l = (l.contract_id == contract) && str_eq l.status "SUCCESS"

-- The highest step that the log has a SUCCESS for, 0 if there is none.
unfoldable pub highest_success : ℕ → List SagaLog → ℕ
highest_success contract [] = 0
highest_success contract (l ∷ t) =
    let rest = highest_success contract t in
    if is_success contract l then (if ltb rest l.step then l.step else rest) else rest

abbrev restore_public : ℤ → Entry → Entry
restore_public n e = record e {
  amount = e.amount +ℤ n;
  reserved_amount = e.reserved_amount +ℤ n;
  public_amount = e.public_amount +ℤ n;
}

unfoldable pub restore_seller_public : Key → ℤ → Store → Store
restore_seller_public k n s = record s {
  entries = update_where (has_key k) (restore_public n) s.entries;
}

unfoldable pub recover4 : Deal → Action Store ⊤
recover4 d = do
  retry_exec (restore_seller_public (seller_key d) (shares d))
  retry_exec (deduct_buyer (buyer_key d) (shares d))
  saga_log d 4 "COMPENSATED"

unfoldable pub recover3 : Deal → Payee → Action Store ⊤
recover3 d p = do
  retry_exec (refund_buyer d.buyer_account d.to_pay)
  retry_exec (debit_seller p.account p.to_receive)
  saga_log d 3 "COMPENSATED"

unfoldable pub recover2 : Deal → Action Store ⊤
recover2 d = do retry_exec (release_shares (seller_key d) (shares d)); saga_log d 2 "COMPENSATED"

unfoldable pub recover1 : Deal → Action Store ⊤
recover1 d = do retry_exec (release_funds d.buyer_account d.to_pay); saga_log d 1 "COMPENSATED"

unfoldable pub recover_if : Bool → Action Store ⊤ → Action Store ⊤
recover_if b m = if b then m else pure tt

unfoldable pub recover_steps : ℕ → Deal → Payee → Action Store ⊤
recover_steps highest d p = do
  recover_if (leb 4 highest) (recover4 d)
  recover_if (leb 3 highest) (recover3 d p)
  recover_if (leb 2 highest) (recover2 d)
  recover_if (leb 1 highest) (recover1 d)
  try_update (mark_compensated d.saga)

-- What the compensations need is read again.
unfoldable pub recover_from : Float → ℕ → ℕ → ℕ → Action Store ⊤
recover_from fl saga contract highest = do
  c ← select_row (λ s. find_where (contract_has_id contract) s.contracts) internal
  currency ← or_throw (currency_id_map c.currency) internal
  buyer_account ← find_account (buyer_owner c) currency
  buyer_currency ← get_account_currency_id buyer_account
  to_pay ← convert_amount fl (total_cost fl c) currency buyer_currency
  seller_account ← find_account (seller_owner c) currency
  listing ← listing_id_for_ticker c.ticker
  recover_steps highest
      (record {
        contract = c;
        listing = listing;
        currency = currency;
        buyer_account = buyer_account;
        to_pay = to_pay;
        saga = saga;
      })
      (record { account = seller_account; to_receive = total_cost fl c })

unfoldable pub recover_found : Float → ℕ → ℕ → ℕ → Action Store ⊤
recover_found fl saga contract highest =
    if highest == 0
    then try_update (mark_compensated saga)
    else recover_from fl saga contract highest

-- recoverSaga
unfoldable pub recover_saga : Float → ℕ → ℕ → Action Store ⊤
recover_saga fl saga contract = do
  try_update (mark_compensating saga)
  highest ← query (λ s. highest_success contract s.saga_log)
  recover_found fl saga contract highest
