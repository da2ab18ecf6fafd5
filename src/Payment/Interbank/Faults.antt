-- ===== src/Payment/Interbank/Faults.antt =====
-- What the second phase of services/payment-service/handlers/interbank.go does when a credit
-- fails, and with a transaction that was refused.
use exbanka_4_backend.Shared.Tests.{
  ℕ, ◌+◌, ◌≡◌, refl, str_eq_self, true, false, none, some, [], ◌∷◌, String, str_eq, arith,
}
use exbanka_4_backend.Shared.Cents.{in_cents}
use exbanka_4_backend.Shared.Table.{
  find_where, update_where, update_where_none, count_where, find_where-update_where,
}
use exbanka_4_backend.Shared.Account.{Account, has_number, credit}
use exbanka_4_backend.Shared.Database.{ok, err, internal, db, fails, later}
use exbanka_4_backend.Payment.Interbank.State.{
  pending, committed, no_vote, no_such_account, Tx, Posting, Request, Store, has_tx,
}
use exbanka_4_backend.Payment.Interbank.Prepare.{
  prepare, decide_vote, check_receiver, check_number, check_account, store_vote, insert_tx, new_tx,
  is_unbalanced, credit_posting,
}
use exbanka_4_backend.Payment.Interbank.Commit.{commit, claim, is_claimable, with_status}
use exbanka_4_backend.Payment.Interbank.Votes.{find_idem}
use exbanka_4_backend.Payment.Interbank.Settlement.{commit_pending, pending_claimable, claim-none}

-- A committed row without a claimable one: a commit answers OK and changes nothing.
commit_again :
    (routing : ℕ) (i : String) (s : Store) (t : Tx)
    → find_where (has_tx routing i) s.txs ≡ some t
    → t.status ≡ committed
    → count_where (is_claimable t.id) s.txs ≡ 0
    → commit routing i s [] ≡ (ok tt, s, [])
unfolding commit claim db fails later
commit_again routing i s t found st none_left =
    let same = update_where_none (is_claimable t.id) (with_status committed) s.txs none_left in
    ground (arith, found, st, none_left, same)

lost_credit :
    (routing : ℕ) (i : String) (s : Store) (t : Tx)
    → find_where (has_tx routing i) s.txs ≡ some t
    → t.status ≡ pending
    → commit routing i s (false ∷ false ∷ true ∷ []) ≡ (err internal, (claim t.id s).1, [])
unfolding commit claim db fails later
lost_credit routing i s t found st =
    ground (arith, found, st, pending_claimable t s.txs (has_tx routing i) found st)

claimed_row :
    (routing : ℕ) (i : String) (s : Store) (t : Tx)
    → find_where (has_tx routing i) s.txs ≡ some t
    → t.status ≡ pending
    → find_where (has_tx routing i) (claim t.id s).1.txs ≡ some (with_status committed t)
unfolding claim
claimed_row routing i s t found st = ground (
  arith,
  found,
  st,
  find_where-update_where (has_tx routing i) (is_claimable t.id) (with_status committed) s.txs
      (λ x. refl),
)

claim-accounts : (k : ℕ) (s : Store) → (claim k s).1.accounts ≡ s.accounts
unfolding claim
claim-accounts k s = refl

-- If the statement that credits the receiver fails, the call fails with the row committed and no
-- account changed, and from then on a commit that meets no failure answers OK and changes nothing:
-- the money is never credited.
pub commit_lost :
    (routing : ℕ) (i : String) (s : Store) (t : Tx)
    → find_where (has_tx routing i) s.txs ≡ some t
    → t.status ≡ pending
    → let (r, s', _) = commit routing i s (false ∷ false ∷ true ∷ []) in
      (r ≡ err internal)
      × (find_where (has_tx routing i) s'.txs ≡ some (with_status committed t))
      × (s'.accounts ≡ s.accounts)
      × (commit routing i s' [] ≡ (ok tt, s', []))
commit_lost routing i s t found st = rw (lost_credit routing i s t found st) (
  refl,
  claimed_row routing i s t found st,
  claim-accounts t.id s,
  commit_again routing i (claim t.id s).1 (with_status committed t)
      (claimed_row routing i s t found st) refl
      (claim-none s.accounts routing i t.id "" t.amount s),
)

abbrev stored : Request → Posting → Store → Store
stored req p s = record s {
  txs = new_tx req p.account_num p.amount p.currency no_vote s ∷ s.txs;
  next_id = s.next_id + 1;
}

refused_state :
    (req : Request) (s : Store) (p : Posting) (a : Account)
    → find_idem req s ≡ none
    → find_where (has_tx req.tx_routing req.tx_id) s.txs ≡ none
    → is_unbalanced req.postings ≡ false
    → credit_posting req.postings ≡ some p
    → str_eq p.account_type "PERSON" ≡ false
    → find_where (has_number p.account_num) s.accounts ≡ some a
    → str_eq a.status "ACTIVE" ≡ false
    → prepare req s []
      ≡ (ok (record { vote = no_vote; reason = some no_such_account }), stored req p s, [])
unfolding prepare decide_vote check_receiver check_number check_account store_vote insert_tx db
    fails later
refused_state req s p a fresh new even found number row inactive =
    ground (arith, fresh, new, even, found, number, row, inactive)

stored_row :
    (req : Request) (p : Posting) (s : Store)
    → find_where (has_tx req.tx_routing req.tx_id) (stored req p s).txs
      ≡ some (new_tx req p.account_num p.amount p.currency no_vote s)
unfolding find_where new_tx
stored_row req p s = ground (arith, str_eq_self req.tx_id)

-- A transaction that the bank refused because the receiver's account is not active stays pending,
-- and a commit of it answers OK and credits that account.
pub prepare-commit_refused :
    (req : Request) (s : Store) (p : Posting) (a : Account)
    → find_idem req s ≡ none
    → find_where (has_tx req.tx_routing req.tx_id) s.txs ≡ none
    → is_unbalanced req.postings ≡ false
    → credit_posting req.postings ≡ some p
    → str_eq p.account_type "PERSON" ≡ false
    → find_where (has_number p.account_num) s.accounts ≡ some a
    → str_eq a.status "ACTIVE" ≡ false
    → let (r, s', _) = prepare req s [] in
      let (r', s'', _) = commit req.tx_routing req.tx_id s' [] in
      (r ≡ ok (record { vote = no_vote; reason = some no_such_account }))
      × (r' ≡ ok tt)
      × (s''.accounts
          ≡ update_where (has_number p.account_num) (credit (in_cents p.amount)) s.accounts)
prepare-commit_refused req s p a fresh new even found number row inactive =
    rw (refused_state req s p a fresh new even found number row inactive)
      (let done = commit_refused in (refl, done.0, done.1))
  where
    commit_refused :
        let (r', s'', _) = commit req.tx_routing req.tx_id (stored req p s) [] in
        (r' ≡ ok tt)
        × (s''.accounts
            ≡ update_where (has_number p.account_num) (credit (in_cents p.amount)) s.accounts)
    commit_refused =
        let done =
          commit_pending req.tx_routing req.tx_id (stored req p s)
            (new_tx req p.account_num p.amount p.currency no_vote s) (stored_row req p s)
            (unfold new_tx in refl) in
        (done.0, unfold new_tx in done.2)
