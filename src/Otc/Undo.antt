-- ===== src/Otc/Undo.antt =====
-- The compensations of ExerciseContract of services/otc-service/handlers/grpc_server.go, in runs in
-- which no three statements in a row fail, by the stages of Otc/Stages.
use exbanka_4_backend.Shared.Tests.{ℕ, String, ◌==◌, Bool-cases, inl, inr}
use exbanka_4_backend.Shared.Database.{Code, Result, ok, err, internal, Action, ⊤, pure, ◌>>◌}
use exbanka_4_backend.Shared.Sparse.{
  Survives, Reached, Survives-next, Survives-pure, Survives-throw, retry_exec, try_update,
}
use exbanka_4_backend.Shared.Branches.{try_update-Reached, retry_exec-Reached}
use exbanka_4_backend.Otc.State.{Store}
use exbanka_4_backend.Otc.Statements.{
  add_log, update_saga, release_funds, release_shares, refund_buyer, debit_seller, restore_seller,
  upsert_seller, deduct_buyer, delete_used_up,
}
use exbanka_4_backend.Otc.Compensation.{
  Deal, Payee, saga_log, saga_status, comp1, comp2, comp3, comp4, undo2, undo3, undo4, compensate,
  fail_step, seller_key, buyer_key, shares,
}
use exbanka_4_backend.Otc.Exercise.{fail_upsert}
use exbanka_4_backend.Otc.Stages.{
  Stage, Stages, untouched, reserved, held, paid, deducted, moved, returned, emptied, refunded,
}

-- The answer and the state of a run: settled, or as at the start.
abbrev pub Outcome : Stages → Result ℕ → Store → Type 0
Outcome L (ok i) s = L.Settled s.accounts s.entries
Outcome L (err c) s = L.Restored s.accounts s.entries

module _ (L : Stages) (d : Deal) where
  abbrev pub Here : Stage → Store → Type 0
  Here st s = L.At d st s.accounts s.entries s.rates

  pub saga_log-Reached :
      (st : Stage) (n : ℕ) (status : String) (s : Store)
      → Here st s
      → Survives (Reached (Here st)) (saga_log d n status) s
  unfolding saga_log add_log
  saga_log-Reached st n status s h =
      try_update-Reached (Here st) (add_log d.contract.id n status) h h

  pub saga_status-Reached :
      (st : Stage) (n : ℕ) (status : String) (s : Store)
      → Here st s
      → Survives (Reached (Here st)) (saga_status d status n) s
  unfolding saga_status update_saga
  saga_status-Reached st n status s h = elim (Bool-cases (d.saga == 0)) [
    | inl e ↦ rw e (Survives-pure tt h)
    | inr e ↦ rw e (try_update-Reached (Here st) (update_saga d.saga status n) h h)
  ]

  pub comp1-Reached :
      (s : Store) → Here reserved s → Survives (Reached (Here untouched)) (comp1 d) s
  unfolding comp1
  comp1-Reached s h =
      Survives-next (Here untouched) (retry_exec (release_funds d.buyer_account d.to_pay))
        (λ _. saga_log d 1 "COMPENSATED")
        (retry_exec-Reached (Here untouched) (release_funds d.buyer_account d.to_pay)
          (L.on_release_funds d s h))
        (λ _ s'. saga_log-Reached untouched 1 "COMPENSATED" s')

  undo2-Reached : (s : Store) → Here held s → Survives (Reached (Here untouched)) (undo2 d) s
  unfolding undo2 comp2
  undo2-Reached s h =
      Survives-next (Here reserved) (comp2 d) (λ _. comp1 d)
        (Survives-next (Here reserved) (retry_exec (release_shares (seller_key d) (shares d)))
          (λ _. saga_log d 2 "COMPENSATED")
          (retry_exec-Reached (Here reserved) (release_shares (seller_key d) (shares d))
            (L.on_release_shares d s h))
          (λ _ s'. saga_log-Reached reserved 2 "COMPENSATED" s'))
        (λ _ s'. comp1-Reached s')

  module _ (p : Payee) where
    pub comp3-Reached : (s : Store) → Here (paid p) s → Survives (Reached (Here held)) (comp3 d p) s
    unfolding comp3
    comp3-Reached s h =
        Survives-next (Here (refunded p)) (retry_exec (refund_buyer d.buyer_account d.to_pay)) _
          (retry_exec-Reached (Here (refunded p)) (refund_buyer d.buyer_account d.to_pay)
            (L.on_refund_paid d p s h))
          (λ _ s' h'.
            Survives-next (Here held) (retry_exec (debit_seller p.account p.to_receive)) _
              (retry_exec-Reached (Here held) (debit_seller p.account p.to_receive)
                (L.on_debit_seller d p s' h'))
              (λ _ s''. saga_log-Reached held 3 "COMPENSATED" s''))

    undo3-Reached :
        (s : Store) → Here (paid p) s → Survives (Reached (Here untouched)) (undo3 d p) s
    unfolding undo3
    undo3-Reached s h =
        Survives-next (Here held) (comp3 d p) (λ _. undo2 d) (comp3-Reached s h)
          (λ _ s'. undo2-Reached s')

    emptied-Reached :
        (s : Store)
        → Here (emptied p) s
        → Survives
            (Reached (Here (paid p)))
            (do try_update (delete_used_up (buyer_key d)); saga_log d 4 "COMPENSATED")
            s
    emptied-Reached s h =
        Survives-next (Here (paid p)) (try_update (delete_used_up (buyer_key d))) _
          (try_update-Reached (Here (paid p)) (delete_used_up (buyer_key d))
            (L.on_kept_buyer d p s h) (L.on_delete_buyer d p s h))
          (λ _ s'. saga_log-Reached (paid p) 4 "COMPENSATED" s')

    comp4-Reached :
        (s : Store) → Here (moved p) s → Survives (Reached (Here (paid p))) (comp4 d p) s
    unfolding comp4
    comp4-Reached s h =
        Survives-next (Here (returned p))
          (retry_exec (upsert_seller (seller_key d) (shares d) p.account)) _
          (retry_exec-Reached (Here (returned p))
            (upsert_seller (seller_key d) (shares d) p.account) (L.on_upsert_seller d p s h))
          (λ _ s' h'.
            Survives-next (Here (emptied p)) (retry_exec (deduct_buyer (buyer_key d) (shares d))) _
              (retry_exec-Reached (Here (emptied p)) (deduct_buyer (buyer_key d) (shares d))
                (L.on_deduct_buyer d p s' h'))
              (λ _ s''. emptied-Reached s''))

    undo4-Reached :
        (s : Store) → Here (moved p) s → Survives (Reached (Here untouched)) (undo4 d p) s
    unfolding undo4
    undo4-Reached s h =
        Survives-next (Here (paid p)) (comp4 d p) (λ _. undo3 d p) (comp4-Reached s h)
          (λ _ s'. undo3-Reached s')

  -- The exit of a step, with compensations that lead back to the start.
  module _ (st : Stage) (undo : Action Store ⊤)
      (undone : (s : Store) → Here st s → Survives (Reached (Here untouched)) undo s) where
    compensate-Outcome :
        (n : ℕ) (c : Code) (s : Store) → Here st s → Survives (Outcome L) (compensate d n undo c) s
    unfolding compensate
    compensate-Outcome n c s h =
        Survives-next (Here st) (saga_status d "Compensating" n) _
          (saga_status-Reached st n "Compensating" s h)
          (λ _ s1 h1. Survives-next (Here untouched) undo _ (undone s1 h1) (λ _ s2 h2.
            Survives-next (Here untouched) (saga_status d "Compensated" n) _
              (saga_status-Reached untouched n "Compensated" s2 h2)
              (λ _ s3 h3. Survives-throw c (L.to_start d s3 h3))))

    fail_step-Outcome :
        (n : ℕ) (c : Code) (s : Store) → Here st s → Survives (Outcome L) (fail_step d n undo c) s
    unfolding fail_step
    fail_step-Outcome n c s h =
        Survives-next (Here st) (saga_log d n "FAILED") _ (saga_log-Reached st n "FAILED" s h)
          (λ _ s'. compensate-Outcome n c s')

  pub fail1-Outcome :
      (n : ℕ) (c : Code) (s : Store)
      → Here untouched s
      → Survives (Outcome L) (fail_step d n (pure tt) c) s
  fail1-Outcome n c s = fail_step-Outcome untouched (pure tt) (λ s'. Survives-pure tt) n c s

  pub fail2-Outcome :
      (n : ℕ) (c : Code) (s : Store)
      → Here reserved s
      → Survives (Outcome L) (fail_step d n (comp1 d) c) s
  fail2-Outcome n c s = fail_step-Outcome reserved (comp1 d) (λ s'. comp1-Reached s') n c s

  pub fail3-Outcome :
      (n : ℕ) (c : Code) (s : Store)
      → Here held s
      → Survives (Outcome L) (fail_step d n (undo2 d) c) s
  fail3-Outcome n c s = fail_step-Outcome held (undo2 d) (λ s'. undo2-Reached s') n c s

  module _ (p : Payee) where
    pub fail4-Outcome :
        (n : ℕ) (c : Code) (s : Store)
        → Here (paid p) s
        → Survives (Outcome L) (fail_step d n (undo3 d p) c) s
    fail4-Outcome n c s = fail_step-Outcome (paid p) (undo3 d p) (λ s'. undo3-Reached p s') n c s

    pub fail5-Outcome :
        (n : ℕ) (c : Code) (s : Store)
        → Here (moved p) s
        → Survives (Outcome L) (fail_step d n (undo4 d p) c) s
    fail5-Outcome n c s = fail_step-Outcome (moved p) (undo4 d p) (λ s'. undo4-Reached p s') n c s

    -- The seller's shares are put back before the compensations.
    pub fail_upsert-Outcome :
        (s : Store) → Here (deducted p) s → Survives (Outcome L) (fail_upsert d p) s
    unfolding fail_upsert
    fail_upsert-Outcome s h =
        Survives-next (Here (deducted p)) (saga_log d 4 "FAILED") _
          (saga_log-Reached (deducted p) 4 "FAILED" s h)
          (λ _ s1 h1.
            Survives-next (Here (paid p)) (retry_exec (restore_seller (seller_key d) (shares d))) _
              (retry_exec-Reached (Here (paid p)) (restore_seller (seller_key d) (shares d))
                (L.on_restore_seller d p s1 h1))
              (λ _ s2.
                compensate-Outcome (paid p) (undo3 d p) (λ s'. undo3-Reached p s') 4 internal s2))
