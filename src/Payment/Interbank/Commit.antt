-- ===== src/Payment/Interbank/Commit.antt =====
-- CommitInterbankPayment and RollbackInterbankPayment of
-- services/payment-service/handlers/interbank.go.
use exbanka_4_backend.Shared.Tests.{ℕ, Bool, ◌&&◌, String, ◌==◌, if◌then◌else◌}
use exbanka_4_backend.Shared.Int.{ℤ}
use exbanka_4_backend.Shared.Table.{find_where, update_where, count_where}
use exbanka_4_backend.Shared.Account.{has_number, credit}
use exbanka_4_backend.Shared.Database.{
  Action, ⊤, not_found, failed_precondition, pure, query, exec, update, or_throw, row_cases,
  throw_if, ◌>>=◌, ◌>>◌,
}
use exbanka_4_backend.Payment.Interbank.State.{
  TxStatus, committed, rolled_back, Tx, Store, has_tx, is_pending, is_committed, is_rolled_back,
}

abbrev pub is_claimable : ℕ → Tx → Bool
is_claimable i t = (t.id == i) && is_pending t.status

abbrev pub with_status : TxStatus → Tx → Tx
with_status st t = record t { status = st }

-- `UPDATE … SET status = 'COMMITTED' WHERE id = $1 AND status = 'PENDING'`, and its rows affected.
unfoldable pub claim : ℕ → Store → ℕ × Store
claim i s = (
  count_where (is_claimable i) s.txs,
  record s { txs = update_where (is_claimable i) (with_status committed) s.txs },
)

unfoldable pub credit_receiver : String → ℤ → Store → Store
credit_receiver to amount s = record s {
  accounts = update_where (has_number to) (credit amount) s.accounts;
}

-- CommitInterbankPayment
unfoldable pub commit : ℕ → String → Action Store ⊤
commit routing i = do
  row ← query (λ s. find_where (has_tx routing i) s.txs)
  t ← or_throw row not_found
  throw_if (is_rolled_back t.status) failed_precondition
  rows ← exec (claim t.id)
  if rows == 0 then pure tt else update (credit_receiver t.to_account t.amount)

abbrev pub tx_has_id : ℕ → Tx → Bool
tx_has_id i t = t.id == i

unfoldable pub mark_rolled_back : ℕ → Store → Store
mark_rolled_back i s = record s { txs = update_where (tx_has_id i) (with_status rolled_back) s.txs }

-- The rollback of a row that was read as `t`.
unfoldable pub rollback_row : Tx → Action Store ⊤
rollback_row t =
    if is_rolled_back t.status
    then pure tt
    else do throw_if (is_committed t.status) failed_precondition; update (mark_rolled_back t.id)

-- RollbackInterbankPayment
unfoldable pub rollback : ℕ → String → Action Store ⊤
rollback routing i = do
  row ← query (λ s. find_where (has_tx routing i) s.txs)
  row_cases row (pure tt) rollback_row
