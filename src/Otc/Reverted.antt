-- ===== src/Otc/Reverted.antt =====
-- What the compensations of recoverSaga of services/otc-service/handlers/saga_recovery.go make of the
-- accounts.
use exbanka_4_backend.Shared.Tests.{
  ℕ, ◌≤◌, ◌≡◌, refl, ◌∙◌, true, false, leb, Bool, List, if◌then◌else◌, arith,
}
use exbanka_4_backend.Shared.Cents.{is_half_cent}
use exbanka_4_backend.Shared.Table.{count_where}
use exbanka_4_backend.Shared.Database.{Action, ⊤}
use exbanka_4_backend.Shared.Account.{Account, has_id}
use exbanka_4_backend.Shared.Sparse.{Survives, Reached, Survives-next, Survives-pure, retry_exec}
use exbanka_4_backend.Shared.Branches.{try_update-Reached, retry_exec-Reached, Reached-weaken}
use exbanka_4_backend.Otc.State.{Store}
use exbanka_4_backend.Otc.Statements.{add_log, deduct_buyer, release_shares}
use exbanka_4_backend.Otc.Compensation.{
  Deal, Payee, shares, seller_key, buyer_key, saga_log, comp1, comp3,
}
use exbanka_4_backend.Otc.Recovery.{
  mark_compensated, restore_seller_public, recover1, recover2, recover3, recover4, recover_if,
  recover_steps,
}
use exbanka_4_backend.Otc.Undo.{comp1-Reached, comp3-Reached}
use exbanka_4_backend.Otc.Balances.{Terms, held_accounts, paid_accounts, balances}

-- The accounts at the start, after the steps up to `n` of a saga.
abbrev pub interrupted : ℕ → Deal → Payee → List Account → List Account
interrupted n d p start =
    if leb 3 n then paid_accounts d p start else if leb 1 n then held_accounts d start else start

abbrev on_hold : ℕ → Deal → List Account → List Account
on_hold n d start = if leb 1 n then held_accounts d start else start

pub if_true : {A : Type 0} (x y : A) (b : Bool) → b ≡ true → (if b then x else y) ≡ x
if_true x y true e = refl
if_true x y false e = absurd (cc e)

pub if_false : {A : Type 0} (x y : A) (b : Bool) → b ≡ false → (if b then x else y) ≡ y
if_false x y false e = refl
if_false x y true e = absurd (cc e)

recover_if-Reached :
    (J : Store → Type 0) (b : Bool) (m : Action Store ⊤) (s : Store)
    → (b ≡ true → Survives (Reached J) m s)
    → (b ≡ false → J s)
    → Survives (Reached J) (recover_if b m) s
unfolding recover_if
recover_if-Reached J true m s h k = h refl
recover_if-Reached J false m s h k = Survives-pure tt (k refl)

-- Amounts that are no half cents.
unfoldable whole : Terms
whole = record {
  Known = λ d. is_half_cent d.to_pay ≡ false;
  Paying = λ d p. is_half_cent p.to_receive ≡ false;
  Rated = λ r. ⊤;
  pays = λ d h. h;
  gets = λ d p h k. k;
}

module _ (start : List Account) (unique : (i : ℕ) → count_where (has_id i) start ≤ 1) (n : ℕ)
    (d : Deal) (p : Payee) (pays : is_half_cent d.to_pay ≡ false)
    (gets : is_half_cent p.to_receive ≡ false) where
  abbrev Accounts : List Account → Store → Type 0
  Accounts t s = s.accounts ≡ t

  recover4-Reached :
      (t : List Account) (s : Store) → Accounts t s → Survives (Reached (Accounts t)) (recover4 d) s
  unfolding recover4 restore_seller_public deduct_buyer saga_log add_log
  recover4-Reached t s h =
      Survives-next (Accounts t) (retry_exec (restore_seller_public (seller_key d) (shares d))) _
        (retry_exec-Reached (Accounts t) (restore_seller_public (seller_key d) (shares d)) h)
        (λ _ s1 h1.
          Survives-next (Accounts t) (retry_exec (deduct_buyer (buyer_key d) (shares d))) _
            (retry_exec-Reached (Accounts t) (deduct_buyer (buyer_key d) (shares d)) h1)
            (λ _ s2 h2.
              try_update-Reached (Accounts t) (add_log d.contract.id 4 "COMPENSATED") h2 h2))

  recover2-Reached :
      (t : List Account) (s : Store) → Accounts t s → Survives (Reached (Accounts t)) (recover2 d) s
  unfolding recover2 release_shares saga_log add_log
  recover2-Reached t s h =
      Survives-next (Accounts t) (retry_exec (release_shares (seller_key d) (shares d))) _
        (retry_exec-Reached (Accounts t) (release_shares (seller_key d) (shares d)) h)
        (λ _ s1 h1. try_update-Reached (Accounts t) (add_log d.contract.id 2 "COMPENSATED") h1 h1)

  three_is_held : leb 3 n ≡ true → leb 1 n ≡ true
  three_is_held e = ground (arith, e)

  recover3-Reached :
      (s : Store)
      → Accounts (interrupted n d p start) s
      → Survives (Reached (Accounts (on_hold n d start))) (recover_if (leb 3 n) (recover3 d p)) s
  unfolding recover3 balances whole comp3
  recover3-Reached s h =
      recover_if-Reached (Accounts (on_hold n d start)) (leb 3 n) (recover3 d p) s
        (λ e. rw (if_true _ _ (leb 1 n) (three_is_held e)) (
          Reached-weaken (recover3 d p) s (λ s' (_, _, _, h'). h')
            (comp3-Reached (balances whole start unique) d p s
              (pays, gets, tt, h ∙ if_true _ _ (leb 3 n) e))))
        (λ e. h ∙ if_false _ _ (leb 3 n) e)

  recover1-Reached :
      (s : Store)
      → Accounts (on_hold n d start) s
      → Survives (Reached (Accounts start)) (recover_if (leb 1 n) (recover1 d)) s
  unfolding recover1 balances whole comp1
  recover1-Reached s h =
      recover_if-Reached (Accounts start) (leb 1 n) (recover1 d) s
        (λ e.
          Reached-weaken (recover1 d) s (λ s' (_, _, _, h'). h')
            (comp1-Reached (balances whole start unique) d s
              (pays, tt, tt, h ∙ if_true _ _ (leb 1 n) e)))
        (λ e. h ∙ if_false _ _ (leb 1 n) e)

  pub recover_steps-Reached :
      (s : Store)
      → Accounts (interrupted n d p start) s
      → Survives (Reached (Accounts start)) (recover_steps n d p) s
  unfolding recover_steps mark_compensated
  recover_steps-Reached s h =
      Survives-next (Accounts (interrupted n d p start)) (recover_if (leb 4 n) (recover4 d)) _
        (recover_if-Reached (Accounts (interrupted n d p start)) (leb 4 n) (recover4 d) s
          (λ _. recover4-Reached (interrupted n d p start) s h) (λ _. h))
        (λ _ s1 h1.
          Survives-next (Accounts (on_hold n d start)) (recover_if (leb 3 n) (recover3 d p)) _
            (recover3-Reached s1 h1)
            (λ _ s2 h2.
              Survives-next (Accounts (on_hold n d start)) (recover_if (leb 2 n) (recover2 d)) _
                (recover_if-Reached (Accounts (on_hold n d start)) (leb 2 n) (recover2 d) s2
                  (λ _. recover2-Reached (on_hold n d start) s2 h2) (λ _. h2))
                (λ _ s3 h3.
                  Survives-next (Accounts start) (recover_if (leb 1 n) (recover1 d)) _
                    (recover1-Reached s3 h3)
                    (λ _ s4 h4.
                      try_update-Reached (Accounts start) (mark_compensated d.saga) h4 h4))))
