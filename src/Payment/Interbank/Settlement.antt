-- ===== src/Payment/Interbank/Settlement.antt =====
-- The second phase of services/payment-service/handlers/interbank.go: sequences of commits and
-- rollbacks of one transaction, with statements that fail.
use exbanka_4_backend.Shared.Tests.{
  ℕ, ◌≡◌, refl, Bool, false, some, List, [], ◌∷◌, String, arith, ◌==◌, if◌then◌else◌, ◌⊎◌, inl, inr,
  Bool-cases, ap,
}
use exbanka_4_backend.Shared.Int.{ℤ}
use exbanka_4_backend.Shared.Table.{
  find_where, update_where, count_where, find_where-update_where, count_where-update_where_none,
  count_where_pos,
}
use exbanka_4_backend.Shared.Account.{Account, has_number, credit}
use exbanka_4_backend.Shared.Database.{
  Outages, ok, err, failed_precondition, ⊤, Action, db, fails, later,
}
use exbanka_4_backend.Shared.Ensures.{Ensures, ensures_rules}
use exbanka_4_backend.Payment.Interbank.State.{
  TxStatus, pending, committed, rolled_back, Tx, Store, has_tx,
}
use exbanka_4_backend.Payment.Interbank.Commit.{
  commit, rollback, rollback_row, claim, credit_receiver, mark_rolled_back, is_claimable, tx_has_id,
  with_status,
}

pub data Call : Type 0 where
  commit_call rollback_call : Call

unfoldable pub run_call : ℕ → String → Call → Action Store ⊤
run_call routing i commit_call = commit routing i
run_call routing i rollback_call = rollback routing i

-- Calls for one transaction, one after the other, each with the statements of it that fail.
unfoldable pub run_calls : ℕ → String → List (Call × Outages) → Store → Store
run_calls routing i [] s = s
run_calls routing i ((c, o) ∷ cs) s = run_calls routing i cs (run_call routing i c s o).1

-- The row of a transaction: its id, its account and its amount.
abbrev pub HasRow : ℕ → String → ℕ → String → ℤ → Store → Type 0
HasRow routing i k to amount s =
    (t : Tx) × (find_where (has_tx routing i) s.txs ≡ some t)
    × (t.id ≡ k)
    × (t.to_account ≡ to)
    × (t.amount ≡ amount)

-- From the accounts at the start: nothing is credited yet, or the amount once and for all.
abbrev pub AtMostOnce : List Account → ℕ → String → ℤ → Store → Type 0
AtMostOnce start k to amount s =
    (s.accounts ≡ start)
    ⊎ ((s.accounts ≡ update_where (has_number to) (credit amount) start)
        × (count_where (is_claimable k) s.txs ≡ 0))

module _ (start : List Account) (routing : ℕ) (i : String) (k : ℕ) (to : String) (amount : ℤ) where
  abbrev IsOnce : Store → Type 0
  IsOnce s = HasRow routing i k to amount s × AtMostOnce start k to amount s

  with_status-HasRow :
      (q : Tx → Bool) (st : TxStatus) (s : Store)
      → HasRow routing i k to amount s
      → HasRow routing i k to amount (record s { txs = update_where q (with_status st) s.txs })
  with_status-HasRow q st s (t, found, hk, ht, ha) = (
    if q t then with_status st t else t,
    rw (find_where-update_where (has_tx routing i) q (with_status st) s.txs (λ x. refl), found)
        refl,
    elim (Bool-cases (q t)) [ inl e ↦ rw e hk | inr e ↦ rw e hk ],
    elim (Bool-cases (q t)) [ inl e ↦ rw e ht | inr e ↦ rw e ht ],
    elim (Bool-cases (q t)) [ inl e ↦ rw e ha | inr e ↦ rw e ha ],
  )

  pub claim-none : (s : Store) → count_where (is_claimable k) (claim k s).1.txs ≡ 0
  unfolding claim
  claim-none s =
      count_where-update_where_none (is_claimable k) (is_claimable k) (with_status committed) s.txs
        (λ x e. e) (λ x. ground arith)

  mark_rolled_back-none : (s : Store) → count_where (is_claimable k) (mark_rolled_back k s).txs ≡ 0
  unfolding mark_rolled_back
  mark_rolled_back-none s =
      count_where-update_where_none (is_claimable k) (tx_has_id k) (with_status rolled_back) s.txs
        (λ x e. ground arith) (λ x. ground arith)

  claim-IsOnce : (s : Store) → IsOnce s → IsOnce (claim k s).1
  unfolding claim
  claim-IsOnce s (row, once) = (
    with_status-HasRow (is_claimable k) committed s row,
    elim once [ inl same ↦ inl same | inr (done, _) ↦ inr (done, unfold claim in claim-none s) ],
  )

  credit_receiver-IsOnce :
      (s : Store)
      → IsOnce s
      → ((claim k s).0 == 0) ≡ false
      → IsOnce (credit_receiver to amount (claim k s).1)
  unfolding claim credit_receiver
  credit_receiver-IsOnce s (row, once) some_claimed = (
    with_status-HasRow (is_claimable k) committed s row,
    elim once [
      | inl same ↦ inr (ap (update_where (has_number to) (credit amount)) same, claim-none s)
      | inr (_, none_left) ↦ absurd (cc (rw none_left at some_claimed))
    ],
  )

  mark_rolled_back-IsOnce : (s : Store) → IsOnce s → IsOnce (mark_rolled_back k s)
  unfolding mark_rolled_back
  mark_rolled_back-IsOnce s (row, once) = (
    with_status-HasRow (tx_has_id k) rolled_back s row,
    elim once [
      | inl same ↦ inl same
      | inr (done, _) ↦ inr (done, unfold mark_rolled_back in mark_rolled_back-none s)
    ],
  )

  -- The row that a call reads is the transaction's.
  row_fields :
      (s : Store) (t : Tx)
      → HasRow routing i k to amount s
      → find_where (has_tx routing i) s.txs ≡ some t
      → (t.id ≡ k) × (t.to_account ≡ to) × (t.amount ≡ amount)
  row_fields s t (u, found, hk, ht, ha) e = ground (arith, found, e)

  commit-IsOnce : (s : Store) → IsOnce s → Ensures (λ _ s'. IsOnce s') (commit routing i) s
  unfolding commit
  commit-IsOnce s h = search (ensures_rules, read, credited, h) depth 12
    where
      read : (t : Tx) → find_where (has_tx routing i) s.txs ≡ some t → IsOnce (claim t.id s).1
      read t e = rw ((row_fields s t h.0 e).0) (claim-IsOnce s h)

      credited :
          (t : Tx)
          → find_where (has_tx routing i) s.txs ≡ some t
          → ((claim t.id s).0 == 0) ≡ false
          → IsOnce (credit_receiver t.to_account t.amount (claim t.id s).1)
      credited t e =
          let (hk, ht, ha) = row_fields s t h.0 e in rw (hk, ht, ha) (credit_receiver-IsOnce s h)

  rollback-IsOnce : (s : Store) → IsOnce s → Ensures (λ _ s'. IsOnce s') (rollback routing i) s
  unfolding rollback rollback_row
  rollback-IsOnce s h = search (ensures_rules, marked, h) depth 12
    where
      marked :
          (t : Tx) → find_where (has_tx routing i) s.txs ≡ some t → IsOnce (mark_rolled_back t.id s)
      marked t e = rw ((row_fields s t h.0 e).0) (mark_rolled_back-IsOnce s h)

  run_calls-IsOnce :
      (calls : List (Call × Outages)) (s : Store) → IsOnce s → IsOnce (run_calls routing i calls s)
  unfolding run_calls run_call
  run_calls-IsOnce [] s h = h
  run_calls-IsOnce ((commit_call, o) ∷ cs) s h =
      run_calls-IsOnce cs (commit routing i s o).1 ((commit-IsOnce s h).at o)
  run_calls-IsOnce ((rollback_call, o) ∷ cs) s h =
      run_calls-IsOnce cs (rollback routing i s o).1 ((rollback-IsOnce s h).at o)

-- However many commits and rollbacks of a transaction arrive, in whatever order, and whichever of
-- their statements fail, all accounts end as they were or with the receiver credited the
-- transaction's amount exactly once.
pub run_calls_at_most_once :
    (routing : ℕ) (i : String) (calls : List (Call × Outages)) (s : Store) (t : Tx)
    → find_where (has_tx routing i) s.txs ≡ some t
    → let s' = run_calls routing i calls s in
      (s'.accounts ≡ s.accounts)
      ⊎ (s'.accounts ≡ update_where (has_number t.to_account) (credit t.amount) s.accounts)
run_calls_at_most_once routing i calls s t found =
    elim (run_calls-IsOnce s.accounts routing i t.id t.to_account t.amount calls s
      ((t, found, refl, refl, refl), inl refl)).1 [ inl same ↦ inl same | inr (once, _) ↦ inr once ]

pub pending_claimable :
    (t : Tx) (txs : List Tx) (p : Tx → Bool)
    → find_where p txs ≡ some t
    → t.status ≡ pending
    → (count_where (is_claimable t.id) txs == 0) ≡ false
pending_claimable t txs p found st =
    ground (arith, count_where_pos p (is_claimable t.id) txs found (ground arith))

-- A commit of a pending row whose statements all run answers OK, leaves the row committed, and
-- credits the row's amount to the account with the row's number and to no other.
pub commit_pending :
    (routing : ℕ) (i : String) (s : Store) (t : Tx)
    → find_where (has_tx routing i) s.txs ≡ some t
    → t.status ≡ pending
    → let (r, s', _) = commit routing i s [] in
      (r ≡ ok tt)
      × (find_where (has_tx routing i) s'.txs ≡ some (with_status committed t))
      × (s'.accounts ≡ update_where (has_number t.to_account) (credit t.amount) s.accounts)
unfolding commit claim credit_receiver db fails later
commit_pending routing i s t found st = ground (
  arith,
  found,
  st,
  pending_claimable t s.txs (has_tx routing i) found st,
  find_where-update_where (has_tx routing i) (is_claimable t.id) (with_status committed) s.txs
      (λ x. refl),
)

refuse_rolled_back :
    (routing : ℕ) (i : String) (s : Store) (o : Outages) (t : Tx)
    → find_where (has_tx routing i) s.txs ≡ some t
    → t.status ≡ rolled_back
    → fails o ≡ false
    → commit routing i s o ≡ (err failed_precondition, s, later o)
unfolding commit db
refuse_rolled_back routing i s o t found st up = ground (arith, found, st)

-- A rollback of a pending row whose statements all run answers OK and moves no money, and any
-- commit after it whose first statement runs is refused and changes nothing.
pub rollback-commit :
    (routing : ℕ) (i : String) (s : Store) (t : Tx) (o : Outages)
    → find_where (has_tx routing i) s.txs ≡ some t
    → t.status ≡ pending
    → fails o ≡ false
    → let (r, s', _) = rollback routing i s [] in
      (r ≡ ok tt)
      × (s'.accounts ≡ s.accounts)
      × (commit routing i s' o ≡ (err failed_precondition, s', later o))
unfolding rollback rollback_row mark_rolled_back db fails later
rollback-commit routing i s t o found st up =
    let marked =
      find_where-update_where (has_tx routing i) (tx_has_id t.id) (with_status rolled_back) s.txs
        (λ x. refl) in
    (
      ground (arith, found, st),
      ground (arith, found, st),
      refuse_rolled_back routing i (rollback routing i s []).1 o (with_status rolled_back t)
          (ground (arith, found, st, marked)) refl up,
    )
