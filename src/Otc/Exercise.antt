-- ===== src/Otc/Exercise.antt =====
-- ExerciseContract of services/otc-service/handlers/grpc_server.go, where the test hooks that
-- inject faults are off: the five steps of the saga, and the compensations that an error runs. The
-- transaction on otc_db holds the contract's row, and its one UPDATE is seen once Commit has run.
-- The exercise of a contract whose seller is at a partner bank (exerciseCrossBank) is a parameter.
-- The answer is the saga's id, 0 if it has none.
use exbanka_4_backend.Shared.Tests.{
  ℕ, ◌+◌, Bool, ◌&&◌, not, String, str_eq, ◌==◌, ltb, Option, none, some, if◌then◌else◌,
}
use exbanka_4_backend.Shared.Int.{ℤ, pos, ◌-ℤ◌, ltb_ℤ}
use exbanka_4_backend.Shared.Table.{find_where}
use exbanka_4_backend.Shared.Float.{Float, of_int}
use exbanka_4_backend.Shared.Database.{
  Action, ⊤, internal, not_found, permission_denied, invalid_argument, pure, query, exec, attempt,
  update, select_row, insert_returning, or_throw, row_cases, throw_if, ◌>>=◌, ◌>>◌,
}
use exbanka_4_backend.Shared.Sparse.{try_update, retry_exec}
use exbanka_4_backend.Otc.State.{
  Contract, Listing, Store, has_key, contract_has_id, is_saga_of, has_ticker, listing_has_id,
  currency_id_map,
}
use exbanka_4_backend.Otc.Money.{
  is_active_of, find_account, get_account_currency_id, listing_id_for_ticker, convert_amount,
  record_otc_tax,
}
use exbanka_4_backend.Otc.Statements.{
  insert_saga, mark_exercised, reserve_funds, reserve_shares, debit_buyer, refund_buyer,
  credit_seller, deduct_seller, delete_used_up, upsert_buyer, restore_seller,
}
use exbanka_4_backend.Otc.Compensation.{
  Deal, Payee, shares, seller_owner, buyer_owner, seller_key, buyer_key, total_cost, saga_log,
  saga_status, comp1, undo2, undo3, undo4, compensate, fail_step,
}

pub record Request : Type 0 where
  pub contract_id : ℕ
  pub caller_id : ℕ
  pub caller_type : String
  pub buyer_account_id : ℕ

-- time.Now(), with its month and year.
pub record Clock : Type 0 where
  pub now : ℕ
  pub month : ℕ
  pub year : ℕ

abbrev pub profit : Float → Contract → Listing → ℤ
profit fl c l = fl.mul (l.price -ℤ c.strike_price) (of_int c.amount) -ℤ c.premium

unfoldable pub tax_on_price : Float → Clock → Contract → Listing → Action Store ⊤
tax_on_price fl clock c l =
    if ltb_ℤ (pos 0) (profit fl c l)
    then record_otc_tax fl c.buyer_id c.buyer_type (profit fl c l) c.currency clock.month clock.year
    else pure tt

-- The profit of the buyer is taxed, if the listing's price can be read.
unfoldable pub tax_profit : Float → Clock → Contract → (Listing → Bool) → Action Store ⊤
tax_profit fl clock c p = if str_eq c.buyer_type "EMPLOYEE" then pure tt else do
  l ← attempt (select_row (λ s. find_where p s.listings) internal)
  row_cases l (pure tt) (tax_on_price fl clock c)

unfoldable pub completed : Float → Clock → Deal → Action Store ℕ
completed fl clock d = do
  saga_log d 5 "SUCCESS"
  saga_status d "Completed" 5
  tax_profit fl clock d.contract (listing_has_id d.listing)
  pure d.saga

-- The UPDATE in the transaction, and Commit.
unfoldable pub commit_exercised : Deal → Action Store ⊤
commit_exercised d = do query (λ s. tt); update (mark_exercised d.contract.id)

unfoldable pub mark_and_commit : Float → Clock → Deal → Payee → Action Store ℕ
mark_and_commit fl clock d p = do
  done ← attempt (commit_exercised d)
  row_cases done (fail_step d 5 (undo4 d p) internal) (λ _. completed fl clock d)

-- Step 5: verify the buyer's holding, and mark the contract.
unfoldable pub step5 : Float → Clock → Deal → Payee → Action Store ℕ
step5 fl clock d p = do
  holding ← attempt (select_row (λ s. find_where (has_key (buyer_key d)) s.entries) internal)
  row_cases holding (fail_step d 5 (undo4 d p) internal) (λ e.
      if ltb_ℤ e.amount (shares d)
      then fail_step d 5 (undo4 d p) internal
      else mark_and_commit fl clock d p)

unfoldable pub fail_upsert : Deal → Payee → Action Store ℕ
fail_upsert d p = do
  saga_log d 4 "FAILED"
  retry_exec (restore_seller (seller_key d) (shares d))
  compensate d 4 (undo3 d p) internal

unfoldable pub step4_done : Float → Clock → Deal → Payee → Action Store ℕ
step4_done fl clock d p = do saga_log d 4 "SUCCESS"; saga_status d "Running" 4; step5 fl clock d p

unfoldable pub give_shares : Float → Clock → Deal → Payee → Action Store ℕ
give_shares fl clock d p = do
  try_update (delete_used_up (seller_key d))
  upserted ←
      attempt
        (update (upsert_buyer (buyer_key d) (shares d) d.contract.strike_price d.buyer_account))
  row_cases upserted (fail_upsert d p) (λ _. step4_done fl clock d p)

-- Step 4: transfer ownership.
unfoldable pub step4 : Float → Clock → Deal → Payee → Action Store ℕ
step4 fl clock d p = do
  deducted ← attempt (update (deduct_seller (seller_key d) (shares d)))
  row_cases deducted (fail_step d 4 (undo3 d p) internal) (λ _. give_shares fl clock d p)

unfoldable pub step3_done : Float → Clock → Deal → Payee → Action Store ℕ
step3_done fl clock d p = do saga_log d 3 "SUCCESS"; saga_status d "Running" 3; step4 fl clock d p

unfoldable pub fail_credit : Deal → Action Store ℕ
fail_credit d = do
  retry_exec (refund_buyer d.buyer_account d.to_pay)
  fail_step d 3 (undo2 d) internal

unfoldable pub pay_seller : Float → Clock → Deal → Payee → Action Store ℕ
pay_seller fl clock d p = do
  credited ← attempt (update (credit_seller p.account p.to_receive))
  row_cases credited (fail_credit d) (λ _. step3_done fl clock d p)

unfoldable pub transfer_funds : Float → Clock → Deal → Payee → Action Store ℕ
transfer_funds fl clock d p = do
  debited ← attempt (update (debit_buyer d.buyer_account d.to_pay))
  row_cases debited (fail_step d 3 (undo2 d) internal) (λ _. pay_seller fl clock d p)

-- The seller's account in the contract's currency, or else any active account, with a conversion.
unfoldable pub other_payee : Float → Deal → Action Store Payee
other_payee fl d = do
  a ← select_row (λ s. find_where (is_active_of (seller_owner d.contract)) s.accounts) internal
  y ← convert_amount fl (total_cost fl d.contract) d.currency a.currency_id
  pure (record { account = a.id; to_receive = y })

unfoldable pub find_payee : Float → Deal → Action Store Payee
find_payee fl d = do
  own ← attempt (find_account (seller_owner d.contract) d.currency)
  row_cases own (other_payee fl d)
      (λ i. pure (record { account = i; to_receive = total_cost fl d.contract }))

-- Step 3: transfer funds.
unfoldable pub step3 : Float → Clock → Deal → Action Store ℕ
step3 fl clock d = do
  payee ← attempt (find_payee fl d)
  row_cases payee (fail_step d 3 (undo2 d) internal) (transfer_funds fl clock d)

unfoldable pub step2_done : Float → Clock → Deal → Action Store ℕ
step2_done fl clock d = do saga_log d 2 "SUCCESS"; saga_status d "Running" 2; step3 fl clock d

-- Step 2: reserve the seller's securities.
unfoldable pub step2 : Float → Clock → Deal → Action Store ℕ
step2 fl clock d = do
  rows ← attempt (exec (reserve_shares (seller_key d) (shares d)))
  row_cases rows (fail_step d 2 (comp1 d) internal)
      (λ n. if n == 0 then fail_step d 2 (comp1 d) invalid_argument else step2_done fl clock d)

unfoldable pub step1_done : Float → Clock → Deal → Action Store ℕ
step1_done fl clock d = do saga_log d 1 "SUCCESS"; saga_status d "Running" 1; step2 fl clock d

-- Step 1: reserve the buyer's funds.
unfoldable pub step1 : Float → Clock → Deal → Action Store ℕ
step1 fl clock d = do
  rows ← attempt (exec (reserve_funds d.buyer_account d.to_pay))
  row_cases rows (fail_step d 1 (pure tt) internal)
      (λ n. if n == 0 then fail_step d 1 (pure tt) invalid_argument else step1_done fl clock d)

unfoldable pub buyer_account_of : Request → Contract → ℕ → Action Store ℕ
buyer_account_of req c currency =
    if req.buyer_account_id == 0
    then find_account (buyer_owner c) currency
    else pure req.buyer_account_id

abbrev pub saga_id : Option ℕ → ℕ
saga_id none = 0
saga_id (some i) = i

-- From the contract's row to the first step.
unfoldable pub run_saga : Float → Clock → Request → Contract → Action Store ℕ
run_saga fl clock req c = do
  listing ← listing_id_for_ticker c.ticker
  currency ← or_throw (currency_id_map c.currency) invalid_argument
  account ← buyer_account_of req c currency
  account_currency ← get_account_currency_id account
  to_pay ← convert_amount fl (total_cost fl c) currency account_currency
  saga ← attempt (insert_returning (insert_saga c.id))
  step1 fl clock (record {
    contract = c;
    listing = listing;
    currency = currency;
    buyer_account = account;
    to_pay = to_pay;
    saga = saga_id saga;
  })

unfoldable pub cross_bank_exercise :
    (Request → Contract → Action Store ℕ) → Float → Clock → Request → Contract → Action Store ℕ
cross_bank_exercise cross_bank fl clock req c = do
  reply ← cross_bank req c
  tax_profit fl clock c (has_ticker c.ticker)
  pure reply

abbrev pub is_buyer : Request → Contract → Bool
is_buyer req c = (req.caller_id == c.buyer_id) && str_eq req.caller_type c.buyer_type

unfoldable pub exercise_active :
    (Request → Contract → Action Store ℕ) → Float → Clock → Request → Action Store ℕ
exercise_active cross_bank fl clock req = do
  query (λ s. tt)
  c ← select_row (λ s. find_where (contract_has_id req.contract_id) s.contracts) not_found
  throw_if (not (is_buyer req c)) permission_denied
  throw_if (not (str_eq c.status "ACTIVE")) invalid_argument
  throw_if (ltb (c.settlement_date + 86400) clock.now) invalid_argument
  if str_eq c.seller_type "INTERBANK"
      then cross_bank_exercise cross_bank fl clock req c
      else run_saga fl clock req c

-- ExerciseContract
unfoldable pub exercise :
    (Request → Contract → Action Store ℕ) → Float → Clock → Request → Action Store ℕ
exercise cross_bank fl clock req = do
  saga ← attempt (select_row (λ s. find_where (is_saga_of req.contract_id) s.sagas) internal)
  row_cases saga (exercise_active cross_bank fl clock req) (λ g.
      if str_eq g.status "Completed" then pure g.id else exercise_active cross_bank fl clock req)
