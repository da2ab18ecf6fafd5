-- ===== src/Otc/Stages.antt =====
-- How far the saga of services/otc-service has got, as what its statements make of the accounts and
-- of the portfolios. A predicate on these that every statement of the saga carries from one stage
-- to the next, and every compensation back, describes all runs of ExerciseContract.
use exbanka_4_backend.Shared.Tests.{◌≡◌, true, false, ◌==◌, List}
use exbanka_4_backend.Shared.Account.{Account}
use exbanka_4_backend.Otc.State.{Entry, MiddleRate, Store}
use exbanka_4_backend.Otc.Statements.{
  reserve_funds, release_funds, reserve_shares, release_shares, debit_buyer, refund_buyer,
  credit_seller, debit_seller, deduct_seller, delete_used_up, upsert_buyer, restore_seller,
  upsert_seller, deduct_buyer,
}
use exbanka_4_backend.Otc.Compensation.{Deal, Payee, shares, seller_key, buyer_key}

pub data Stage : Type 0 where
  -- Forward: nothing done, funds reserved, shares reserved, buyer debited, seller paid, shares
  -- taken from the seller, shares given to the buyer.
  untouched reserved held debited : Stage
  paid deducted moved : Payee → Stage
  -- Back: shares returned to the seller, taken from the buyer, money returned to the buyer.
  returned emptied refunded : Payee → Stage

pub record Stages : Type 1 where
  pub Fits : Deal → Type 0
  -- What is known of the account that the seller is paid to.
  pub Owed : Deal → Payee → Type 0
  pub At : Deal → Stage → List Account → List Entry → List MiddleRate → Type 0
  -- Before the deal is known, and after the saga has run.
  pub Start : List Account → List Entry → List MiddleRate → Type 0
  pub Settled : List Account → List Entry → Type 0
  -- What an error leaves.
  pub Restored : List Account → List Entry → Type 0
  pub from_start :
      (d : Deal) (s : Store)
      → Fits d
      → Start s.accounts s.entries s.rates
      → At d untouched s.accounts s.entries s.rates
  pub unchanged : (s : Store) → Start s.accounts s.entries s.rates → Restored s.accounts s.entries
  pub to_start :
      (d : Deal) (s : Store)
      → At d untouched s.accounts s.entries s.rates
      → Restored s.accounts s.entries
  pub settles :
      (d : Deal) (p : Payee) (s : Store)
      → At d (moved p) s.accounts s.entries s.rates
      → Settled s.accounts s.entries
  pub on_reserve_funds :
      (d : Deal) (s : Store)
      → At d untouched s.accounts s.entries s.rates
      → let (n, s') = reserve_funds d.buyer_account d.to_pay s in
        (n == 0) ≡ false → At d reserved s'.accounts s'.entries s'.rates
  pub on_no_funds :
      (d : Deal) (s : Store)
      → At d untouched s.accounts s.entries s.rates
      → let (n, s') = reserve_funds d.buyer_account d.to_pay s in
        (n == 0) ≡ true → At d untouched s'.accounts s'.entries s'.rates
  pub on_release_funds :
      (d : Deal) (s : Store)
      → At d reserved s.accounts s.entries s.rates
      → let s' = release_funds d.buyer_account d.to_pay s in
        At d untouched s'.accounts s'.entries s'.rates
  pub on_reserve_shares :
      (d : Deal) (s : Store)
      → At d reserved s.accounts s.entries s.rates
      → let (n, s') = reserve_shares (seller_key d) (shares d) s in
        (n == 0) ≡ false → At d held s'.accounts s'.entries s'.rates
  pub on_no_shares :
      (d : Deal) (s : Store)
      → At d reserved s.accounts s.entries s.rates
      → let (n, s') = reserve_shares (seller_key d) (shares d) s in
        (n == 0) ≡ true → At d reserved s'.accounts s'.entries s'.rates
  pub on_release_shares :
      (d : Deal) (s : Store)
      → At d held s.accounts s.entries s.rates
      → let s' = release_shares (seller_key d) (shares d) s in
        At d reserved s'.accounts s'.entries s'.rates
  pub on_debit_buyer :
      (d : Deal) (s : Store)
      → At d held s.accounts s.entries s.rates
      → let s' = debit_buyer d.buyer_account d.to_pay s in
        At d debited s'.accounts s'.entries s'.rates
  pub on_refund_debited :
      (d : Deal) (s : Store)
      → At d debited s.accounts s.entries s.rates
      → let s' = refund_buyer d.buyer_account d.to_pay s in
        At d held s'.accounts s'.entries s'.rates
  pub on_credit_seller :
      (d : Deal) (p : Payee) (s : Store)
      → Owed d p
      → At d debited s.accounts s.entries s.rates
      → let s' = credit_seller p.account p.to_receive s in
        At d (paid p) s'.accounts s'.entries s'.rates
  pub on_refund_paid :
      (d : Deal) (p : Payee) (s : Store)
      → At d (paid p) s.accounts s.entries s.rates
      → let s' = refund_buyer d.buyer_account d.to_pay s in
        At d (refunded p) s'.accounts s'.entries s'.rates
  pub on_debit_seller :
      (d : Deal) (p : Payee) (s : Store)
      → At d (refunded p) s.accounts s.entries s.rates
      → let s' = debit_seller p.account p.to_receive s in At d held s'.accounts s'.entries s'.rates
  pub on_deduct_seller :
      (d : Deal) (p : Payee) (s : Store)
      → At d (paid p) s.accounts s.entries s.rates
      → let s' = deduct_seller (seller_key d) (shares d) s in
        At d (deducted p) s'.accounts s'.entries s'.rates
  pub on_delete_seller :
      (d : Deal) (p : Payee) (s : Store)
      → At d (deducted p) s.accounts s.entries s.rates
      → let s' = delete_used_up (seller_key d) s in
        At d (deducted p) s'.accounts s'.entries s'.rates
  pub on_restore_seller :
      (d : Deal) (p : Payee) (s : Store)
      → At d (deducted p) s.accounts s.entries s.rates
      → let s' = restore_seller (seller_key d) (shares d) s in
        At d (paid p) s'.accounts s'.entries s'.rates
  pub on_upsert_buyer :
      (d : Deal) (p : Payee) (s : Store)
      → At d (deducted p) s.accounts s.entries s.rates
      → let s' = upsert_buyer (buyer_key d) (shares d) d.contract.strike_price d.buyer_account s in
        At d (moved p) s'.accounts s'.entries s'.rates
  pub on_upsert_seller :
      (d : Deal) (p : Payee) (s : Store)
      → At d (moved p) s.accounts s.entries s.rates
      → let s' = upsert_seller (seller_key d) (shares d) p.account s in
        At d (returned p) s'.accounts s'.entries s'.rates
  pub on_deduct_buyer :
      (d : Deal) (p : Payee) (s : Store)
      → At d (returned p) s.accounts s.entries s.rates
      → let s' = deduct_buyer (buyer_key d) (shares d) s in
        At d (emptied p) s'.accounts s'.entries s'.rates
  pub on_delete_buyer :
      (d : Deal) (p : Payee) (s : Store)
      → At d (emptied p) s.accounts s.entries s.rates
      → let s' = delete_used_up (buyer_key d) s in At d (paid p) s'.accounts s'.entries s'.rates
  -- The DELETE has failed.
  pub on_kept_buyer :
      (d : Deal) (p : Payee) (s : Store)
      → At d (emptied p) s.accounts s.entries s.rates
      → At d (paid p) s.accounts s.entries s.rates
