-- ===== src/Payment/Interbank/Tests.antt =====
-- The interbank protocol at one transfer of 250 RSD to an account of the bank.
use exbanka_4_backend.Shared.Tests.{
  ◌≡◌, ◌↔◌, String, refl, ◌⊎◌, true, false, none, some, List, [], ◌∷◌,
}
use exbanka_4_backend.Shared.Int.{pos, negsuc, ◌+ℤ◌}
use exbanka_4_backend.Shared.Cents.{of_cents, to_cents, round}
use exbanka_4_backend.Shared.Table.{find_where, update_where}
use exbanka_4_backend.Shared.Account.{Account, Currency, has_number, credit}
use exbanka_4_backend.Shared.Database.{
  Outages, ok, err, internal, failed_precondition, db, fails, later,
}
use exbanka_4_backend.Shared.Ensures.{Ensures}
use exbanka_4_backend.Payment.Interbank.State.{
  pending, committed, yes_vote, no_vote, no_such_account, Tx, Posting, Request, Store, has_tx,
}
use exbanka_4_backend.Payment.Interbank.Prepare.{
  prepare, decide_vote, check_receiver, check_number, check_account, store_vote, insert_tx, new_tx,
  is_unbalanced, is_off, any_off, add_totals, add_total, credit_posting,
}
use exbanka_4_backend.Payment.Interbank.Commit.{commit, rollback, with_status}
use exbanka_4_backend.Payment.Interbank.Votes.{
  find_idem, IsStored, prepare-IsStored, prepare-prepare,
}
use exbanka_4_backend.Payment.Interbank.Postings.{is_unbalanced_iff, monetary_sum}
use exbanka_4_backend.Payment.Interbank.Settlement.{
  Call, commit_call, rollback_call, run_calls, run_calls_at_most_once, commit_pending,
  rollback-commit,
}
use exbanka_4_backend.Payment.Interbank.Faults.{commit_lost, prepare-commit_refused}

abbrev receiver : Account
receiver = record {
  id = 1;
  account_number = "265000111";
  owner_id = 7;
  currency_id = 1;
  account_type = "personal";
  status = "ACTIVE";
  balance = pos 100000;
  available_balance = pos 100000;
  daily_limit = none;
  monthly_limit = none;
  daily_spent = pos 0;
  monthly_spent = pos 0;
}

abbrev closed_receiver : Account
closed_receiver = record receiver { status = "INACTIVE" }

abbrev dinar : Currency
dinar = record { id = 1; code = "RSD" }

abbrev debited : Posting
debited = record {
  account_type = "ACCOUNT";
  account_num = "444000222";
  amount = negsuc 249999999;
  asset_type = "MONAS";
  currency = "RSD";
}

abbrev credited : Posting
credited = record {
  account_type = "ACCOUNT";
  account_num = "265000111";
  amount = pos 250000000;
  asset_type = "MONAS";
  currency = "RSD";
}

abbrev transfer : Request
transfer = record {
  tx_routing = 444;
  tx_id = "t1";
  idem_routing = 444;
  idem_key = "k1";
  postings = debited ∷ credited ∷ [];
}

abbrev before : Store
before = record { txs = []; next_id = 1; accounts = receiver ∷ []; currencies = dinar ∷ [] }

abbrev closed : Store
closed = record before { accounts = closed_receiver ∷ [] }

abbrev row : Tx
row = record {
  id = 1;
  tx_routing_number = 444;
  tx_id = "t1";
  idem_routing_number = 444;
  idem_key = "k1";
  status = pending;
  to_account = "265000111";
  amount = pos 250000000;
  currency = "RSD";
  cached_vote = yes_vote;
}

abbrev prepared : Store
prepared = record before { txs = row ∷ []; next_id = 2 }

fresh : (s : Store) → s.txs ≡ [] → find_idem transfer s ≡ none
unfolding find_where
fresh s e = rw e refl

transfer-prepare :
    prepare transfer before [] ≡ (ok (record { vote = yes_vote; reason = none }), prepared, [])
unfolding prepare decide_vote check_receiver check_number check_account store_vote insert_tx new_tx
    is_unbalanced any_off add_totals add_total ◌+ℤ◌ credit_posting find_where db fails later
    of_cents to_cents round
transfer-prepare = refl

row_found : find_where (has_tx 444 "t1") prepared.txs ≡ some row
unfolding find_where
row_found = refl

transfer_balanced : is_unbalanced transfer.postings ≡ false
unfolding is_unbalanced any_off add_totals add_total ◌+ℤ◌
transfer_balanced = refl

prepare-IsStored_example : Ensures (IsStored transfer before) (prepare transfer) before
prepare-IsStored_example = prepare-IsStored transfer before

prepare-prepare_example :
    let s' = (prepare transfer before []).1 in
    prepare transfer s' (false ∷ true ∷ [])
    ≡ (ok (record { vote = yes_vote; reason = none }), s', later (false ∷ true ∷ []))
prepare-prepare_example =
    prepare-prepare transfer transfer before [] (false ∷ true ∷ [])
      (record { vote = yes_vote; reason = none }) (rw transfer-prepare refl) refl refl
      (unfold fails in refl)

is_unbalanced_iff_example :
    (is_unbalanced transfer.postings ≡ false)
    ↔ ((c : String) → is_off (monetary_sum c transfer.postings) ≡ false)
is_unbalanced_iff_example = is_unbalanced_iff transfer.postings

-- Two commits, the first one broken off before its credit, and a rollback.
abbrev calls : List (Call × Outages)
calls = (commit_call, false ∷ false ∷ true ∷ []) ∷ (rollback_call, []) ∷ (commit_call, []) ∷ []

run_calls_at_most_once_example :
    let s' = run_calls 444 "t1" calls prepared in
    (s'.accounts ≡ receiver ∷ [])
    ⊎ (s'.accounts ≡ update_where (has_number "265000111") (credit (pos 250000000)) (receiver ∷ []))
run_calls_at_most_once_example = run_calls_at_most_once 444 "t1" calls prepared row row_found

commit_pending_example :
    let (r, s', _) = commit 444 "t1" prepared [] in
    (r ≡ ok tt)
    × (find_where (has_tx 444 "t1") s'.txs ≡ some (with_status committed row))
    × (s'.accounts ≡ update_where (has_number "265000111") (credit (pos 250000000)) (receiver ∷ []))
commit_pending_example = commit_pending 444 "t1" prepared row row_found refl

rollback-commit_example :
    let (r, s', _) = rollback 444 "t1" prepared [] in
    (r ≡ ok tt)
    × (s'.accounts ≡ receiver ∷ [])
    × (commit 444 "t1" s' [] ≡ (err failed_precondition, s', later []))
rollback-commit_example =
    rollback-commit 444 "t1" prepared row [] row_found refl (unfold fails in refl)

commit_lost_example :
    let (r, s', _) = commit 444 "t1" prepared (false ∷ false ∷ true ∷ []) in
    (r ≡ err internal)
    × (find_where (has_tx 444 "t1") s'.txs ≡ some (with_status committed row))
    × (s'.accounts ≡ receiver ∷ [])
    × (commit 444 "t1" s' [] ≡ (ok tt, s', []))
commit_lost_example = commit_lost 444 "t1" prepared row row_found refl

prepare-commit_refused_example :
    let (r, s', _) = prepare transfer closed [] in
    let (r', s'', _) = commit 444 "t1" s' [] in
    (r ≡ ok (record { vote = no_vote; reason = some no_such_account }))
    × (r' ≡ ok tt)
    × (s''.accounts
        ≡ update_where (has_number "265000111") (credit (pos 250000000)) (closed_receiver ∷ []))
unfolding of_cents to_cents round
prepare-commit_refused_example =
    prepare-commit_refused transfer closed credited closed_receiver (fresh closed refl)
      (unfold find_where in refl) transfer_balanced (unfold credit_posting in refl) refl
      (unfold find_where in refl) refl
