-- ===== src/Otc/Balances.antt =====
-- The accounts under ExerciseContract of services/otc-service/handlers/grpc_server.go.
use exbanka_4_backend.Shared.Tests.{ℕ, ◌≤◌, ◌≡◌, refl, false, some, ap, ◌∙◌, ◌&&◌, List, ==_iff}
use exbanka_4_backend.Shared.Int.{ℤ}
use exbanka_4_backend.Shared.Cents.{is_half_cent}
use exbanka_4_backend.Shared.Table.{
  find_where, count_where, update_where, update_where_undo, update_where_swap, update_where_guard,
  update_where_none,
}
use exbanka_4_backend.Shared.Float.{Float}
use exbanka_4_backend.Shared.Database.{Action, Outages, Result, ok, err, ⊤}
use exbanka_4_backend.Shared.Sparse.{IsSparse}
use exbanka_4_backend.Shared.Account.{Account, has_id, credit, debit}
use exbanka_4_backend.Otc.State.{Contract, Entry, MiddleRate, Store, contract_has_id}
use exbanka_4_backend.Otc.Statements.{
  hold, release, pay, unpay, has_funds, reserve_funds, release_funds, reserve_shares,
  release_shares, debit_buyer, refund_buyer, credit_seller, debit_seller, deduct_seller,
  delete_used_up, upsert_buyer, restore_seller, upsert_seller, deduct_buyer,
}
use exbanka_4_backend.Otc.Columns.{release-hold, unpay-pay, debit-credit, unpay-credit}
use exbanka_4_backend.Otc.Compensation.{Deal, Payee}
use exbanka_4_backend.Otc.Exercise.{Request, Clock, exercise}
use exbanka_4_backend.Otc.Parties.{IsDeal, IsPayee}
use exbanka_4_backend.Otc.Stages.{
  Stage, Stages, untouched, reserved, held, debited, paid, deducted, moved, returned, emptied,
  refunded,
}
use exbanka_4_backend.Otc.Undo.{Outcome}
use exbanka_4_backend.Otc.Whole.{IsOpen, exercise-Outcome}

-- What a completed exercise makes of the accounts: the buyer's pays, the seller's gets.
abbrev pub settled_accounts : ℕ → ℤ → ℕ → ℤ → List Account → List Account
settled_accounts buyer x seller y t =
    update_where (has_id seller) (credit y)
      (update_where (has_id buyer) (pay x) (update_where (has_id buyer) (hold x) t))

abbrev pub held_accounts : Deal → List Account → List Account
held_accounts d t = update_where (has_id d.buyer_account) (hold d.to_pay) t

abbrev pub paid_accounts : Deal → Payee → List Account → List Account
paid_accounts d p t = settled_accounts d.buyer_account d.to_pay p.account p.to_receive t

module _ (start : List Account) where
  abbrev pub accounts_at : Deal → Stage → List Account
  accounts_at d untouched = start
  accounts_at d reserved = held_accounts d start
  accounts_at d held = held_accounts d start
  accounts_at d debited =
      update_where (has_id d.buyer_account) (pay d.to_pay) (held_accounts d start)
  accounts_at d (paid p) = paid_accounts d p start
  accounts_at d (deducted p) = paid_accounts d p start
  accounts_at d (moved p) = paid_accounts d p start
  accounts_at d (returned p) = paid_accounts d p start
  accounts_at d (emptied p) = paid_accounts d p start
  accounts_at d (refunded p) =
      update_where (has_id p.account) (credit p.to_receive) (held_accounts d start)

  pub refunded_lem :
      (d : Deal) (p : Payee)
      → is_half_cent d.to_pay ≡ false
      → is_half_cent p.to_receive ≡ false
      → update_where (has_id d.buyer_account) (unpay d.to_pay) (paid_accounts d p start)
        ≡ accounts_at d (refunded p)
  refunded_lem d p h k =
      rw
        (update_where_swap (has_id d.buyer_account) (has_id p.account) (unpay d.to_pay)
          (credit p.to_receive)
          (update_where (has_id d.buyer_account) (pay d.to_pay) (held_accounts d start)) (λ a. refl)
          (λ a. refl) (unpay-credit d.to_pay h p.to_receive k))
        (ap (update_where (has_id p.account) (credit p.to_receive)) (
          update_where_undo (has_id d.buyer_account) (pay d.to_pay) (unpay d.to_pay)
            (held_accounts d start) (λ a. refl) (unpay-pay d.to_pay h)))

-- What is known of the deal, of the seller's account and of the rates while the saga runs. Neither
-- of the amounts is a half cent.
pub record Terms : Type 1 where
  pub Known : Deal → Type 0
  pub Paying : Deal → Payee → Type 0
  pub Rated : List MiddleRate → Type 0
  pub pays : (d : Deal) → Known d → is_half_cent d.to_pay ≡ false
  pub gets : (d : Deal) (p : Payee) → Known d → Paying d p → is_half_cent p.to_receive ≡ false

module _ (T : Terms) (start : List Account) where
  abbrev Payable : Deal → Stage → Type 0
  Payable d untouched = ⊤
  Payable d reserved = ⊤
  Payable d held = ⊤
  Payable d debited = ⊤
  Payable d (paid p) = T.Paying d p
  Payable d (deducted p) = T.Paying d p
  Payable d (moved p) = T.Paying d p
  Payable d (returned p) = T.Paying d p
  Payable d (emptied p) = T.Paying d p
  Payable d (refunded p) = T.Paying d p

  abbrev pub Paid : List Account → List Entry → Type 0
  Paid a e = (d : Deal) × (p : Payee) × T.Known d × T.Paying d p × (a ≡ paid_accounts d p start)

  abbrev pub AccountsAt : Deal → Stage → List Account → List Entry → List MiddleRate → Type 0
  AccountsAt d st a e r = T.Known d × Payable d st × T.Rated r × (a ≡ accounts_at start d st)

  -- The stages of the accounts, whatever the portfolios are.
  unfoldable pub balances : ((i : ℕ) → count_where (has_id i) start ≤ 1) → Stages
  unfolding reserve_funds release_funds reserve_shares release_shares debit_buyer refund_buyer
      credit_seller debit_seller deduct_seller delete_used_up upsert_buyer restore_seller
      upsert_seller deduct_buyer
  balances unique = record {
    Fits = T.Known;
    Owed = T.Paying;
    At = AccountsAt;
    Start = λ a e r. T.Rated r × (a ≡ start);
    Settled = Paid;
    Restored = λ a e. a ≡ start;
    unchanged = λ s (r, h). h;
    from_start = λ d s fits (r, h). (fits, tt, r, h);
    to_start = λ d s (k, o, r, h). h;
    settles = λ d p s (k, o, r, h). (d, p, k, o, h);
    on_reserve_funds = λ d s (k, o, r, h) some_row. (
      k,
      tt,
      r,
      rw h (
          update_where_guard (has_id d.buyer_account) (has_funds d.to_pay) (hold d.to_pay) start
            (unique d.buyer_account) (rw h at some_row)),
    );
    on_no_funds = λ d s (k, o, r, h) no_row. (
      k,
      tt,
      r,
      update_where_none (λ a. has_id d.buyer_account a && has_funds d.to_pay a) (hold d.to_pay)
            s.accounts ((==_iff _ 0).0 no_row)
          ∙ h,
    );
    on_release_funds = λ d s (k, o, r, h). (
      k,
      tt,
      r,
      rw h (
          update_where_undo (has_id d.buyer_account) (hold d.to_pay) (release d.to_pay) start
            (λ a. refl) (release-hold d.to_pay (T.pays d k))),
    );
    on_reserve_shares = λ d s h e. h;
    on_no_shares = λ d s h e. h;
    on_release_shares = λ d s h. h;
    on_debit_buyer =
        λ d s (k, o, r, h). (k, tt, r, ap (update_where (has_id d.buyer_account) (pay d.to_pay)) h);
    on_refund_debited = λ d s (k, o, r, h). (
      k,
      tt,
      r,
      rw h (
          update_where_undo (has_id d.buyer_account) (pay d.to_pay) (unpay d.to_pay)
            (held_accounts d start) (λ a. refl) (unpay-pay d.to_pay (T.pays d k))),
    );
    on_credit_seller = λ d p s due (k, o, r, h).
        (k, due, r, ap (update_where (has_id p.account) (credit p.to_receive)) h);
    on_refund_paid = λ d p s (k, o, r, h).
        (k, o, r, rw h (refunded_lem start d p (T.pays d k) (T.gets d p k o)));
    on_debit_seller = λ d p s (k, o, r, h). (
      k,
      tt,
      r,
      rw h (
          update_where_undo (has_id p.account) (credit p.to_receive) (debit p.to_receive)
            (held_accounts d start) (λ a. refl) (debit-credit p.to_receive (T.gets d p k o))),
    );
    on_deduct_seller = λ d p s h. h;
    on_delete_seller = λ d p s h. h;
    on_restore_seller = λ d p s h. h;
    on_upsert_buyer = λ d p s h. h;
    on_upsert_seller = λ d p s h. h;
    on_deduct_buyer = λ d p s h. h;
    on_delete_buyer = λ d p s h. h;
    on_kept_buyer = λ d p s h. h;
  }

module _ (fl : Float) (req : Request) (s : Store) where
  -- The deal of the request for the contract that it names.
  abbrev pub IsAgreed : Deal → Type 0
  IsAgreed d =
      (c : Contract) × (find_where (contract_has_id req.contract_id) s.contracts ≡ some c)
      × IsDeal fl req c s d

  -- The seller's account, as it is looked up once the buyer's funds are on hold.
  abbrev pub IsSeller : Deal → Payee → Type 0
  IsSeller d p = IsPayee fl d (held_accounts d s.accounts) s.rates p

  -- The amounts of a deal are no half cents.
  abbrev pub IsWhole : Deal → Type 0
  IsWhole d =
      (is_half_cent d.to_pay ≡ false)
      × ((p : Payee) → IsSeller d p → is_half_cent p.to_receive ≡ false)

  unfoldable terms : Terms
  terms = record {
    Known = λ d. IsAgreed d × IsWhole d;
    Paying = IsSeller;
    Rated = λ r. r ≡ s.rates;
    pays = λ d (agreed, (pays, gets)). pays;
    gets = λ d p (agreed, (pays, gets)) is_seller. gets p is_seller;
  }

  -- An answer must come with the price paid by the buyer's account to the seller's, an error with all
  -- accounts as they were.
  abbrev pub IsAllOrNothing : Result ℕ → Store → Type 0
  IsAllOrNothing (ok i) s' =
      (d : Deal) × (p : Payee) × IsAgreed d
      × IsSeller d p
      × (s'.accounts ≡ paid_accounts d p s.accounts)
  IsAllOrNothing (err c) s' = s'.accounts ≡ s.accounts

-- The exercise of a contract within the bank is all or nothing on the accounts, in every run in
-- which no three statements in a row fail: where the account ids are unique, the contract's saga is
-- not completed yet, and neither of the two amounts is a half cent, an error leaves every account
-- exactly as it was; an answer has taken the price, converted into the currency of the buyer's
-- account, from that account, and paid the price, converted if the seller has no account in the
-- contract's currency, to the seller's account.
pub exercise-IsAllOrNothing :
    (cross_bank : Request → Contract → Action Store ℕ) (fl : Float) (clock : Clock) (req : Request)
    (s : Store) (o : Outages)
    → ((i : ℕ) → count_where (has_id i) s.accounts ≤ 1)
    → IsOpen req s
    → ((d : Deal) → IsAgreed fl req s d → IsWhole fl req s d)
    → IsSparse o
    → let (r, s', _) = exercise cross_bank fl clock req s o in IsAllOrNothing fl req s r s'
unfolding balances terms
exercise-IsAllOrNothing cross_bank fl clock req s o unique is_open whole sparse =
    let run =
      exercise-Outcome (balances (terms fl req s) s.accounts unique) cross_bank fl clock req
        (λ d p s' (k, o, rates, h) is_p. rw (h, rates) at is_p) s is_open
        (λ c found d is_deal. ((c, found, is_deal), whole d (c, found, is_deal))) (refl, refl) in
    all (exercise cross_bank fl clock req s o).0 (exercise cross_bank fl clock req s o).1
      ((run.at o sparse).0)
  where
    all :
        (r : Result ℕ) (s' : Store)
        → Outcome (balances (terms fl req s) s.accounts unique) r s'
        → IsAllOrNothing fl req s r s'
    all (ok i) s' (d, p, (agreed, _), is_seller, h) = (d, p, agreed, is_seller, h)
    all (err c) s' h = h
