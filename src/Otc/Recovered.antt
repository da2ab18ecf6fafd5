-- ===== src/Otc/Recovered.antt =====
-- The accounts after recoverSaga of services/otc-service/handlers/saga_recovery.go, for a saga that
-- was interrupted.
use exbanka_4_backend.Shared.Tests.{
  ℕ, ◌≤◌, ◌≡◌, refl, ◌∙◌, true, false, ◌==◌, leb, List, some, arith, ==_iff,
}
use exbanka_4_backend.Shared.Int.{ℤ}
use exbanka_4_backend.Shared.Cents.{is_half_cent}
use exbanka_4_backend.Shared.Table.{find_where, count_where}
use exbanka_4_backend.Shared.Float.{Float}
use exbanka_4_backend.Shared.Database.{
  Action, Outages, Result, ok, err, internal, Code, ⊤, pure, query, db, ◌>>=◌,
}
use exbanka_4_backend.Shared.Account.{Account, has_id}
use exbanka_4_backend.Shared.Sparse.{
  IsSparse, Survives, Reached, Survives-next, Survives-bind, Survives-or_throw, Survives-pure,
  Survives-if, Survives-read, try_update,
}
use exbanka_4_backend.Shared.Branches.{Survives-reads, Survives-row, Tail, try_update-Reached}
use exbanka_4_backend.Otc.State.{Contract, Store, contract_has_id, currency_id_map}
use exbanka_4_backend.Otc.Money.{
  is_active_in, find_account, get_account_currency_id, listing_id_for_ticker, convert_amount,
}
use exbanka_4_backend.Otc.Compensation.{Deal, Payee, seller_owner, buyer_owner, total_cost}
use exbanka_4_backend.Otc.Recovery.{
  mark_compensating, mark_compensated, highest_success, recover_steps, recover_from, recover_found,
  recover_saga,
}
use exbanka_4_backend.Otc.Reads.{listing_id_for_ticker-Reads}
use exbanka_4_backend.Otc.Reverted.{interrupted, if_true, if_false, recover_steps-Reached}

-- What a recovery leaves of the accounts: if it gets through, those of the start, and otherwise
-- those that it found.
abbrev pub IsRecovered : List Account → List Account → Result ⊤ → Store → Type 0
IsRecovered start found (ok _) s = s.accounts ≡ start
IsRecovered start found (err c) s = s.accounts ≡ found

-- The lookups of a recovery find the accounts of the deal, both in the contract's currency.
abbrev pub FindsAccounts : ℕ → Deal → Payee → Store → Type 0
FindsAccounts contract d p s =
    (find_where (contract_has_id contract) s.contracts ≡ some d.contract)
    × (currency_id_map d.contract.currency ≡ some d.currency)
    × ((a : Account)
        → find_where (is_active_in (buyer_owner d.contract) d.currency) s.accounts ≡ some a
        → a.id ≡ d.buyer_account)
    × ((a : Account)
        → find_where (has_id d.buyer_account) s.accounts ≡ some a
        → a.currency_id ≡ d.currency)
    × ((a : Account)
        → find_where (is_active_in (seller_owner d.contract) d.currency) s.accounts ≡ some a
        → a.id ≡ p.account)

module _ {A : Type 0} {P : Result A → Store → Type 0} {s : Store} where
  find_account_row :
      (owner currency : ℕ) (k : ℕ → Action Store A)
      → ((c : Code) → P (err c) s)
      → ((a : Account)
          → find_where (is_active_in owner currency) s.accounts ≡ some a
          → Survives P (k a.id) s)
      → Survives P (find_account owner currency >>= k) s
  unfolding find_account
  find_account_row owner currency k down up =
      Survives-bind (Tail P k) (find_account owner currency) k
        (Survives-row _ internal _ down (λ a e. Survives-pure a.id (up a e))) (λ c s' h. h)
        (λ i s' h. h)

  account_currency_row :
      (i : ℕ) (k : ℕ → Action Store A)
      → ((c : Code) → P (err c) s)
      → ((a : Account) → find_where (has_id i) s.accounts ≡ some a → Survives P (k a.currency_id) s)
      → Survives P (get_account_currency_id i >>= k) s
  unfolding get_account_currency_id
  account_currency_row i k down up =
      Survives-bind (Tail P k) (get_account_currency_id i) k
        (Survives-row _ internal _ down (λ a e. Survives-pure a.currency_id (up a e))) (λ c s' h. h)
        (λ j s' h. h)

Survives-given :
    {A B : Type 0} {P : Result A → Store → Type 0} {s : Store} (b : B) (k : B → Action Store A)
    → Survives P (k b) s
    → Survives P (pure b >>= k) s
unfolding db
Survives-given b k h = h

convert_same : (fl : Float) (x : ℤ) (i : ℕ) → convert_amount fl x i i ≡ pure x
unfolding convert_amount
convert_same fl x i = if_true _ _ (i == i) ((==_iff i i).1 refl)

Reached-Recovered :
    (start found : List Account) (m : Action Store ⊤) (s : Store)
    → Survives (Reached (λ s'. s'.accounts ≡ start)) m s
    → Survives (IsRecovered start found) m s
Reached-Recovered start found m s h = record {
  at = λ o sparse. after (m s o).0 (m s o).1 (m s o).2 (h.at o sparse);
}
  where
    after :
        (r : Result ⊤) (s' : Store) (o : Outages)
        → Reached (λ s'. s'.accounts ≡ start) r s' × IsSparse o
        → IsRecovered start found r s' × IsSparse o
    after (ok a) s' o h = h
    after (err c) s' o h = absurd (h.0)

module _ (fl : Float) (saga contract n : ℕ) (d : Deal) (p : Payee) (start : List Account)
    (unique : (i : ℕ) → count_where (has_id i) start ≤ 1)
    (pays : d.to_pay ≡ total_cost fl d.contract) (gets : p.to_receive ≡ total_cost fl d.contract)
    (whole : is_half_cent (total_cost fl d.contract) ≡ false) where
  abbrev Recovered : Result ⊤ → Store → Type 0
  Recovered = IsRecovered start (interrupted n d p start)

  rest :
      (s : Store)
      → s.accounts ≡ interrupted n d p start
      → ((a : Account)
          → find_where (is_active_in (seller_owner d.contract) d.currency) s.accounts ≡ some a
          → a.id ≡ p.account)
      → Survives Recovered
          (do
            seller_account ← find_account (seller_owner d.contract) d.currency
            listing ← listing_id_for_ticker d.contract.ticker
            recover_steps n
                (record {
                  contract = d.contract;
                  listing = listing;
                  currency = d.currency;
                  buyer_account = d.buyer_account;
                  to_pay = total_cost fl d.contract;
                  saga = saga;
                })
                (record { account = seller_account; to_receive = total_cost fl d.contract }))
          s
  rest s h seller =
      find_account_row (seller_owner d.contract) d.currency _ (λ _. h)
        (λ a is_a. rw (seller a is_a) (
          Survives-reads _ _ (listing_id_for_ticker-Reads d.contract.ticker) (λ _. h)
            (λ listing.
              Reached-Recovered start (interrupted n d p start) _ s
                (recover_steps-Reached start unique n _ _ whole whole s (rw (pays, gets) at h)))))

  recover_from-Recovered :
      (s : Store)
      → FindsAccounts contract d p s
      → s.accounts ≡ interrupted n d p start
      → Survives Recovered (recover_from fl saga contract n) s
  unfolding recover_from
  recover_from-Recovered s (row, cur, buyer, in_currency, seller) h =
      Survives-row _ internal _ (λ _. h)
        (λ c found. rw (is_contract c found) (
          Survives-or_throw _ internal _ (λ _. h)
            (λ currency is_cur. rw (is_currency currency is_cur) (
              find_account_row (buyer_owner d.contract) d.currency _ (λ _. h)
                (λ a is_a. rw (buyer a is_a) (
                  account_currency_row d.buyer_account _ (λ _. h)
                    (λ b is_b. rw (in_currency b is_b) (
                      rw (convert_same fl (total_cost fl d.contract) d.currency)
                        (Survives-given (total_cost fl d.contract) _ (rest s h seller))))))))))
    where
      is_contract :
          (c : Contract)
          → find_where (contract_has_id contract) s.contracts ≡ some c
          → c ≡ d.contract
      is_contract c found = cc

      is_currency : (i : ℕ) → currency_id_map d.contract.currency ≡ some i → i ≡ d.currency
      is_currency i e = cc

  recover_found-Recovered :
      (s : Store)
      → FindsAccounts contract d p s
      → s.accounts ≡ interrupted n d p start
      → Survives Recovered (recover_found fl saga contract n) s
  unfolding recover_found mark_compensated
  recover_found-Recovered s finds h =
      Survives-if (n == 0) _ _
        (λ e. Reached-Recovered start (interrupted n d p start) _ s (
          try_update-Reached (λ s'. s'.accounts ≡ start) (mark_compensated saga) (nothing e)
            (nothing e)))
        (λ _. recover_from-Recovered s finds h)
    where
      nothing : (n == 0) ≡ true → s.accounts ≡ start
      nothing e =
          h
          ∙ if_false _ _ (leb 3 n) (ground (arith, e))
          ∙ if_false _ _ (leb 1 n) (ground (arith, e))

  -- What the first statement of a recovery keeps.
  abbrev Interrupted : Store → Type 0
  Interrupted s =
      FindsAccounts contract d p s
      × (highest_success contract s.saga_log ≡ n)
      × (s.accounts ≡ interrupted n d p start)

  recover_saga-Recovered :
      (s : Store) → Interrupted s → Survives Recovered (recover_saga fl saga contract) s
  unfolding recover_saga mark_compensating
  recover_saga-Recovered s h =
      Survives-next Interrupted (try_update (mark_compensating saga)) _
        (try_update-Reached Interrupted (mark_compensating saga) h h)
        (λ _ s1 (finds, highest, same).
          Survives-bind (Tail Recovered (recover_found fl saga contract))
            (query (λ s'. highest_success contract s'.saga_log)) _
            (Survives-read (λ s'. highest_success contract s'.saga_log) same
              (rw highest (recover_found-Recovered s1 finds same)))
            (λ c s' h'. h') (λ i s' h'. h'))

-- A recovery of an interrupted saga, in which no three statements in a row fail, and which gets
-- through, leaves every account as it was before the saga began; where it does not get through, it
-- leaves the accounts as it found them. That is where account ids are unique, the accounts are those
-- of the start after the first `n` steps, the price is no half cent, the log has SUCCESS for no step above `n` and for `n`, both
-- accounts of the deal are in the contract's currency, and the lookups by owner find these two.
pub recover_saga-IsRecovered :
    (fl : Float) (saga contract n : ℕ) (d : Deal) (p : Payee) (start : List Account) (s : Store)
    (o : Outages)
    → ((i : ℕ) → count_where (has_id i) start ≤ 1)
    → d.to_pay ≡ total_cost fl d.contract
    → p.to_receive ≡ total_cost fl d.contract
    → is_half_cent (total_cost fl d.contract) ≡ false
    → FindsAccounts contract d p s
    → highest_success contract s.saga_log ≡ n
    → s.accounts ≡ interrupted n d p start
    → IsSparse o
    → let (r, s', _) = recover_saga fl saga contract s o in
      IsRecovered start (interrupted n d p start) r s'
recover_saga-IsRecovered fl saga contract n d p start s o unique pays gets whole finds highest h
      sparse =
    ((recover_saga-Recovered fl saga contract n d p start unique pays gets whole s
        (finds, highest, h)).at
      o sparse).0
