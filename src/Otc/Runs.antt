-- ===== src/Otc/Runs.antt =====
-- Every run of ExerciseContract of services/otc-service/handlers/grpc_server.go in which no three
-- statements in a row fail, by the stages of Otc/Stages.
use exbanka_4_backend.Shared.Tests.{ℕ, String}
use exbanka_4_backend.Shared.Int.{ltb_ℤ}
use exbanka_4_backend.Shared.Table.{find_where}
use exbanka_4_backend.Shared.Float.{Float}
use exbanka_4_backend.Shared.Database.{internal, invalid_argument, Action, query, ◌>>◌}
use exbanka_4_backend.Shared.Sparse.{
  Survives, Survives-next, Survives-bind, Survives-pure, Survives-if, Survives-exec, try_update,
  retry_exec, Survives-read,
}
use exbanka_4_backend.Shared.Branches.{
  try_update-Reached, retry_exec-Reached, Survives-exec_cases, Survives-select_cases,
  Survives-got_cases, Survives-call_cases,
}
use exbanka_4_backend.Otc.State.{Store, has_key, listing_has_id}
use exbanka_4_backend.Otc.Statements.{
  refund_buyer, mark_exercised, reserve_funds, reserve_shares, debit_buyer, credit_seller,
  deduct_seller, delete_used_up, upsert_buyer,
}
use exbanka_4_backend.Otc.Compensation.{
  Deal, Payee, saga_log, saga_status, seller_key, buyer_key, shares,
}
use exbanka_4_backend.Otc.Exercise.{
  Clock, completed, commit_exercised, mark_and_commit, step5, fail_upsert, step4_done, give_shares,
  step4, step3_done, fail_credit, pay_seller, transfer_funds, find_payee, step3, step2_done, step2,
  step1_done, step1, tax_profit,
}
use exbanka_4_backend.Otc.Reads.{tax_profit-Reached}
use exbanka_4_backend.Otc.Parties.{IsPayee, find_payee-Got}
use exbanka_4_backend.Otc.Stages.{
  Stage, Stages, untouched, reserved, held, debited, paid, deducted, moved,
}
use exbanka_4_backend.Otc.Undo.{
  Outcome, Here, saga_log-Reached, saga_status-Reached, fail1-Outcome, fail2-Outcome, fail3-Outcome,
  fail4-Outcome, fail5-Outcome, fail_upsert-Outcome,
}

module _ (L : Stages) (fl : Float) (clock : Clock) (d : Deal)
    (owes : (p : Payee) (s : Store)
      → L.At d held s.accounts s.entries s.rates
      → IsPayee fl d s.accounts s.rates p
      → L.Owed d p) where
  -- The two statements that report a step, and the rest of the handler.
  reported :
      (st : Stage) (n : ℕ) (status : String) (k : Action Store ℕ) (s : Store)
      → ((s' : Store) → Here L d st s' → Survives (Outcome L) k s')
      → Here L d st s
      → Survives (Outcome L) (do saga_log d n "SUCCESS"; saga_status d status n; k) s
  reported st n status k s rest h =
      Survives-next (Here L d st) (saga_log d n "SUCCESS") _
        (saga_log-Reached L d st n "SUCCESS" s h)
        (λ _ s1 h1.
          Survives-next (Here L d st) (saga_status d status n) _
            (saga_status-Reached L d st n status s1 h1) (λ _ s2. rest s2))

  completed-Outcome :
      (p : Payee) (s : Store) → Here L d (moved p) s → Survives (Outcome L) (completed fl clock d) s
  unfolding completed
  completed-Outcome p s = reported (moved p) 5 "Completed" _ s (λ s' h.
      Survives-next (Here L d (moved p)) (tax_profit fl clock d.contract (listing_has_id d.listing))
        _
        (tax_profit-Reached (L.At d (moved p)) fl clock d.contract (listing_has_id d.listing) s' h)
        (λ _ s'' h''. Survives-pure d.saga (L.settles d p s'' h'')))

  commit_exercised-Here :
      (st : Stage) (s : Store)
      → Here L d st s
      → Survives (λ _ s'. Here L d st s') (commit_exercised d) s
  unfolding commit_exercised mark_exercised
  commit_exercised-Here st s h =
      Survives-bind (λ _ s'. Here L d st s') (query (λ s'. tt)) _ (Survives-read (λ s'. tt) h h)
        (λ c s' h'. h') (λ _ s' h'. Survives-exec _ h' h')

  mark_and_commit-Outcome :
      (p : Payee) (s : Store)
      → Here L d (moved p) s
      → Survives (Outcome L) (mark_and_commit fl clock d p) s
  unfolding mark_and_commit
  mark_and_commit-Outcome p s h =
      Survives-call_cases _ (Here L d (moved p)) (commit_exercised d) (λ _. completed fl clock d)
        (commit_exercised-Here (moved p) s h) (λ s'. fail5-Outcome L d p 5 internal s')
        (λ _ s'. completed-Outcome p s')

  step5-Outcome :
      (p : Payee) (s : Store) → Here L d (moved p) s → Survives (Outcome L) (step5 fl clock d p) s
  unfolding step5
  step5-Outcome p s h =
      Survives-select_cases _ (λ s'. find_where (has_key (buyer_key d)) s'.entries) internal _
        (fail5-Outcome L d p 5 internal s h)
        (λ e found.
          Survives-if (ltb_ℤ e.amount (shares d)) _ _ (λ _. fail5-Outcome L d p 5 internal s h)
            (λ _. mark_and_commit-Outcome p s h))

  give_shares-Outcome :
      (p : Payee) (s : Store)
      → Here L d (deducted p) s
      → Survives (Outcome L) (give_shares fl clock d p) s
  unfolding give_shares step4_done
  give_shares-Outcome p s h =
      Survives-next (Here L d (deducted p)) (try_update (delete_used_up (seller_key d))) _
        (try_update-Reached (Here L d (deducted p)) (delete_used_up (seller_key d)) h
          (L.on_delete_seller d p s h))
        (λ _ s1 h1.
          Survives-exec_cases (fail_upsert d p)
            (λ s'. (
              tt,
              upsert_buyer (buyer_key d) (shares d) d.contract.strike_price d.buyer_account s',
            ))
            _ (fail_upsert-Outcome L d p s1 h1)
            (reported (moved p) 4 "Running" _ _ (λ s2. step5-Outcome p s2)
              (L.on_upsert_buyer d p s1 h1)))

  step4-Outcome :
      (p : Payee) (s : Store) → Here L d (paid p) s → Survives (Outcome L) (step4 fl clock d p) s
  unfolding step4
  step4-Outcome p s h =
      Survives-exec_cases _ (λ s'. (tt, deduct_seller (seller_key d) (shares d) s')) _
        (fail4-Outcome L d p 4 internal s h) (give_shares-Outcome p _ (L.on_deduct_seller d p s h))

  fail_credit-Outcome : (s : Store) → Here L d debited s → Survives (Outcome L) (fail_credit d) s
  unfolding fail_credit
  fail_credit-Outcome s h =
      Survives-next (Here L d held) (retry_exec (refund_buyer d.buyer_account d.to_pay)) _
        (retry_exec-Reached (Here L d held) (refund_buyer d.buyer_account d.to_pay)
          (L.on_refund_debited d s h))
        (λ _ s'. fail3-Outcome L d 3 internal s')

  pay_seller-Outcome :
      (p : Payee) (s : Store)
      → L.Owed d p
      → Here L d debited s
      → Survives (Outcome L) (pay_seller fl clock d p) s
  unfolding pay_seller step3_done
  pay_seller-Outcome p s due h =
      Survives-exec_cases _ (λ s'. (tt, credit_seller p.account p.to_receive s')) _
        (fail_credit-Outcome s h)
        (reported (paid p) 3 "Running" _ _ (λ s'. step4-Outcome p s')
          (L.on_credit_seller d p s due h))

  step3-Outcome : (s : Store) → Here L d held s → Survives (Outcome L) (step3 fl clock d) s
  unfolding step3 transfer_funds
  step3-Outcome s h =
      Survives-got_cases (IsPayee fl d s.accounts s.rates) _ (find_payee fl d) _
        (find_payee-Got s fl d) (fail3-Outcome L d 3 internal s h)
        (λ p is_p.
          Survives-exec_cases _ (λ s'. (tt, debit_buyer d.buyer_account d.to_pay s')) _
            (fail3-Outcome L d 3 internal s h)
            (pay_seller-Outcome p _ (owes p s h is_p) (L.on_debit_buyer d s h)))

  step2-Outcome : (s : Store) → Here L d reserved s → Survives (Outcome L) (step2 fl clock d) s
  unfolding step2 step2_done
  step2-Outcome s h =
      Survives-exec_cases _ (reserve_shares (seller_key d) (shares d)) _
        (fail2-Outcome L d 2 internal s h)
        (Survives-if _ _ _ (λ e. fail2-Outcome L d 2 invalid_argument _ (L.on_no_shares d s h e))
          (λ e.
            reported held 2 "Running" _ _ (λ s'. step3-Outcome s') (L.on_reserve_shares d s h e)))

  pub step1-Outcome : (s : Store) → Here L d untouched s → Survives (Outcome L) (step1 fl clock d) s
  unfolding step1 step1_done
  step1-Outcome s h =
      Survives-exec_cases _ (reserve_funds d.buyer_account d.to_pay) _
        (fail1-Outcome L d 1 internal s h)
        (Survives-if _ _ _ (λ e. fail1-Outcome L d 1 invalid_argument _ (L.on_no_funds d s h e))
          (λ e.
            reported reserved 1 "Running" _ _ (λ s'. step2-Outcome s')
              (L.on_reserve_funds d s h e)))
