-- ===== src/Payment/Interbank/Prepare.antt =====
-- PrepareInterbankPayment of services/payment-service/handlers/interbank.go.
use exbanka_4_backend.Shared.Tests.{
  ◌+◌, Bool, false, not, ◌&&◌, ◌||◌, Option, none, some, List, [], ◌∷◌, String, str_eq,
  if◌then◌else◌,
}
use exbanka_4_backend.Shared.Int.{ℤ, pos, negsuc, ◌+ℤ◌, ltb_ℤ, eqb_ℤ}
use exbanka_4_backend.Shared.Cents.{in_cents}
use exbanka_4_backend.Shared.Table.{find_where}
use exbanka_4_backend.Shared.Text.{codes, parse_int}
use exbanka_4_backend.Shared.Account.{Account, has_number, currency_has_id, first_by_id}
use exbanka_4_backend.Shared.Database.{
  Action, internal, pure, query, insert, or_throw, row_cases, ◌>>=◌, ◌>>◌,
}
use exbanka_4_backend.Payment.Interbank.State.{
  pending, Vote, yes_vote, no_vote, Tx, Posting, Request, Reason, unbalanced_tx, no_credit_posting,
  no_such_account, unacceptable_asset, Response, Store, has_idem, has_tx,
}

-- `totals[p.Currency] += p.Amount`
unfoldable pub add_total : String → ℤ → List (String × ℤ) → List (String × ℤ)
add_total c x [] = (c, x) ∷ []
add_total c x ((d, y) ∷ m) = if str_eq d c then (d, y +ℤ x) ∷ m else (d, y) ∷ add_total c x m

-- The loop that sums the monetary postings by currency.
unfoldable pub add_totals : List (String × ℤ) → List Posting → List (String × ℤ)
add_totals m [] = m
add_totals m (p ∷ ps) =
    add_totals (if str_eq p.account_type "OPTION" then m else add_total p.currency p.amount m) ps

-- `sum > 0.001 || sum < -0.001`, in millionths.
abbrev pub is_off : ℤ → Bool
is_off sum = ltb_ℤ (pos 1000) sum || ltb_ℤ sum (negsuc 999)

unfoldable pub any_off : List (String × ℤ) → Bool
any_off [] = false
any_off ((c, sum) ∷ m) = is_off sum || any_off m

unfoldable pub is_unbalanced : List Posting → Bool
is_unbalanced ps = any_off (add_totals [] ps)

-- The first positive MONAS posting.
unfoldable pub credit_posting : List Posting → Option Posting
credit_posting [] = none
credit_posting (p ∷ ps) =
    if ltb_ℤ (pos 0) p.amount && str_eq p.asset_type "MONAS" then some p else credit_posting ps

-- The row that is written, with the amount as its column holds it.
unfoldable pub new_tx : Request → String → ℤ → String → Vote → Store → Tx
new_tx req to amount currency vote s = record {
  id = s.next_id;
  tx_routing_number = req.tx_routing;
  tx_id = req.tx_id;
  idem_routing_number = req.idem_routing;
  idem_key = req.idem_key;
  status = pending;
  to_account = to;
  amount = in_cents amount;
  currency = currency;
  cached_vote = vote;
}

-- A new row, or no store where a UNIQUE constraint refuses it. A conflict on the idempotence key
-- does nothing; one on the transaction's own key is an error.
unfoldable pub insert_tx : Request → String → ℤ → String → Vote → Store → Option Store
insert_tx req to amount currency vote s =
    elim (find_where (has_idem req.idem_routing req.idem_key) s.txs) [
      | some _ ↦ some s
      | none ↦ elim (find_where (has_tx req.tx_routing req.tx_id) s.txs) [
        | some _ ↦ none
        | none ↦ some (record s {
          txs = new_tx req to amount currency vote s ∷ s.txs;
          next_id = s.next_id + 1;
        })
      ]
    ]

-- `insertInterbankTx`, and the vote that the handler then returns.
unfoldable pub store_vote :
    Request → String → ℤ → String → Vote → Option Reason → Action Store Response
store_vote req to amount currency vote reason = do
  insert (insert_tx req to amount currency vote)
  pure (record { vote = vote; reason = reason })

abbrev pub refuse : Request → String → ℤ → String → Reason → Action Store Response
refuse req to amount currency reason = store_vote req to amount currency no_vote (some reason)

-- The checks on the receiver's account, from the row that was read.
unfoldable pub check_account : Request → Posting → String → Option Account → Action Store Response
check_account req p resolved none = refuse req resolved p.amount p.currency no_such_account
check_account req p resolved (some a) =
    if not (str_eq a.status "ACTIVE")
    then refuse req resolved p.amount p.currency no_such_account
    else do
      row ← query (λ s. find_where (currency_has_id a.currency_id) s.currencies)
      c ← or_throw row internal
      if not (str_eq c.code p.currency)
          then refuse req resolved p.amount p.currency unacceptable_asset
          else store_vote req resolved p.amount p.currency yes_vote none

abbrev pub owned_active : ℤ → Account → Bool
owned_active owner a = eqb_ℤ (pos a.owner_id) owner && str_eq a.status "ACTIVE"

-- A PERSON posting is resolved by its owner, any other by the account's number.
abbrev pub number_of : Option Account → String
number_of none = ""
number_of (some a) = a.account_number

unfoldable pub check_person : Request → Posting → ℤ → Action Store Response
check_person req p owner = do
  row ← query (λ s. first_by_id (owned_active owner) s.accounts)
  check_account req p (number_of row) row

unfoldable pub check_number : Request → Posting → Action Store Response
check_number req p = do
  row ← query (λ s. find_where (has_number p.account_num) s.accounts)
  check_account req p p.account_num row

unfoldable pub check_receiver : Request → Posting → Action Store Response
check_receiver req p =
    if str_eq p.account_type "PERSON"
    then row_cases (parse_int (codes p.account_num)) (refuse req "" (pos 0) "" no_such_account)
        (check_person req p)
    else check_number req p

-- The handler after the idempotence check has found nothing.
unfoldable pub decide_vote : Request → Action Store Response
decide_vote req =
    if is_unbalanced req.postings
    then refuse req "" (pos 0) "" unbalanced_tx
    else row_cases (credit_posting req.postings) (refuse req "" (pos 0) "" no_credit_posting)
        (check_receiver req)

abbrev pub cached : Tx → Response
cached t = record { vote = t.cached_vote; reason = none }

-- PrepareInterbankPayment
unfoldable pub prepare : Request → Action Store Response
prepare req = do
  row ← query (λ s. find_where (has_idem req.idem_routing req.idem_key) s.txs)
  row_cases row (decide_vote req) (λ t. pure (cached t))
