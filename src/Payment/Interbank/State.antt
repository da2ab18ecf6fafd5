-- ===== src/Payment/Interbank/State.antt =====
-- The state of services/payment-service/handlers/interbank.go: the rows of
-- `interbank_transactions` (services/payment-service/db/schema.sql) and the messages.
use exbanka_4_backend.Shared.Tests.{ℕ, Bool, true, false, ◌&&◌, Option, List, String, str_eq, ◌==◌}
use exbanka_4_backend.Shared.Int.{ℤ}
use exbanka_4_backend.Shared.Account.{Account, Currency}

pub data TxStatus : Type 0 where
  pending committed rolled_back : TxStatus

pub data Vote : Type 0 where
  yes_vote no_vote : Vote

-- A row of `interbank_transactions`.
pub record Tx : Type 0 where
  pub id : ℕ
  pub tx_routing_number : ℕ
  pub tx_id : String
  pub idem_routing_number : ℕ
  pub idem_key : String
  pub status : TxStatus
  pub to_account : String
  pub amount : ℤ
  pub currency : String
  pub cached_vote : Vote

pub record Posting : Type 0 where
  pub account_type : String
  pub account_num : String
  pub amount : ℤ
  pub asset_type : String
  pub currency : String

pub record Request : Type 0 where
  pub tx_routing : ℕ
  pub tx_id : String
  pub idem_routing : ℕ
  pub idem_key : String
  pub postings : List Posting

-- The prefix of the reason in a NO vote.
pub data Reason : Type 0 where
  unbalanced_tx no_credit_posting no_such_account unacceptable_asset : Reason

pub record Response : Type 0 where
  pub vote : Vote
  pub reason : Option Reason

-- payment_db, account_db and exchange_db.
pub record Store : Type 0 where
  pub txs : List Tx
  pub next_id : ℕ
  pub accounts : List Account
  pub currencies : List Currency

abbrev pub has_idem : ℕ → String → Tx → Bool
has_idem routing key t = (t.idem_routing_number == routing) && str_eq t.idem_key key

abbrev pub has_tx : ℕ → String → Tx → Bool
has_tx routing i t = (t.tx_routing_number == routing) && str_eq t.tx_id i

abbrev pub is_pending : TxStatus → Bool
is_pending pending = true
is_pending _ = false

abbrev pub is_committed : TxStatus → Bool
is_committed committed = true
is_committed _ = false

abbrev pub is_rolled_back : TxStatus → Bool
is_rolled_back rolled_back = true
is_rolled_back _ = false
