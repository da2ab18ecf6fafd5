-- ===== src/Order/Funds.antt =====
-- The accounts in a settlement of services/order-service/execution/scheduler.go, in every run and
-- after a failure.
use exbanka_4_backend.Shared.Tests.{
  ℕ, ◌≡◌, refl, Bool, true, false, some, [], ◌∷◌, String, str_eq, arith, if◌then◌else◌, ◌==◌,
  str_eq_self,
}
use exbanka_4_backend.Shared.Int.{ℤ, pos, ◌+ℤ◌, -ℤ◌, ltb_ℤ, leb_ℤ, +ℤ_parts}
use exbanka_4_backend.Shared.Cents.{to_cents_nonneg, of_cents_nonneg}
use exbanka_4_backend.Shared.Table.{
  find_where, update_where, count_where, count_where-update_where_keep, count_where_pos,
  find_where_fits,
}
use exbanka_4_backend.Shared.Float.{Float}
use exbanka_4_backend.Shared.Account.{
  available_of, Account, Currency, has_id, credit, currency_has_id,
}
use exbanka_4_backend.Shared.Database.{err, internal, pure, fails, later, db}
use exbanka_4_backend.Shared.Ensures.{Ensures, Ensures-then, ensures_rules}
use exbanka_4_backend.Order.State.{Order, Rate, Store}
use exbanka_4_backend.Order.Settlement.{
  get_rate, direct_rate, inverse_rate, cross_rate, rate_between, convert, amounts, can_pay,
  debit_account, credit_account, settle_buy, settle_order, credit_bank, transfer, settle,
}

abbrev pub is_overdrawn : Account → Bool
is_overdrawn a = ltb_ℤ a.available_balance (pos 0)

-- No account's available balance is below zero.
abbrev pub NoOverdraft : Store → Type 0
NoOverdraft s = count_where is_overdrawn s.accounts ≡ 0

debit_account-NoOverdraft :
    (i : ℕ) (x : ℤ) (s : Store) → NoOverdraft s → NoOverdraft (debit_account i (-ℤ◌ x) s).1
unfolding debit_account
debit_account-NoOverdraft i x s h =
    count_where-update_where_keep (can_pay i (-ℤ◌ (-ℤ◌ x))) is_overdrawn (credit (-ℤ◌ x)) s.accounts
      (λ a pays out.
        to_cents_nonneg (available_of a +ℤ (-ℤ◌ x))
          (ground (arith, pays, +ℤ_parts (available_of a) (-ℤ◌ x))))
      h

credit_account-NoOverdraft :
    (i : ℕ) (x : ℤ) (s : Store)
    → leb_ℤ x (pos 0) ≡ false
    → NoOverdraft s
    → NoOverdraft (credit_account i x s)
unfolding credit_account
credit_account-NoOverdraft i x s up h =
    count_where-update_where_keep (has_id i) is_overdrawn (credit x) s.accounts
      (λ a fits out.
        to_cents_nonneg (available_of a +ℤ x)
          (ground (arith, +ℤ_parts (available_of a) x, of_cents_nonneg a.available_balance)))
      h

module _ (s : Store) (h : NoOverdraft s) where
  get_rate-NoOverdraft :
      (c : String) (side : Rate → ℤ) → Ensures (λ _. NoOverdraft) (get_rate c side) s
  unfolding get_rate
  get_rate-NoOverdraft c side = search (ensures_rules, h) depth 8

module _ (fl : Float) (s : Store) (h : NoOverdraft s) where
  rate_between-NoOverdraft :
      (a c : String) (given taken : Rate → ℤ)
      → Ensures (λ _. NoOverdraft) (rate_between fl a c given taken) s
  unfolding rate_between direct_rate inverse_rate cross_rate
  rate_between-NoOverdraft a c given taken =
      search (ensures_rules, Ensures-then, get_rate-NoOverdraft, h) depth 12

  amounts-NoOverdraft :
      (o : Order) (x y : ℤ) (a c : String) → Ensures (λ _. NoOverdraft) (amounts fl o x y a c) s
  unfolding amounts convert
  amounts-NoOverdraft o x y a c =
      search (ensures_rules, Ensures-then, rate_between-NoOverdraft, h) depth 12

module _ (s : Store) (h : NoOverdraft s) where
  settle_order-NoOverdraft :
      (o : Order) (x y : ℤ)
      → str_eq o.direction "BUY" ≡ true
      → Ensures (λ _. NoOverdraft) (settle_order o x y) s
  unfolding settle_order settle_buy
  settle_order-NoOverdraft o x y buys =
      rw buys (search (ensures_rules, debit_account-NoOverdraft, h) depth 8)

  credit_bank-NoOverdraft :
      (c : String) (y : ℤ)
      → leb_ℤ y (pos 0) ≡ false
      → Ensures (λ _. NoOverdraft) (credit_bank c y) s
  unfolding credit_bank
  credit_bank-NoOverdraft c y up = search (ensures_rules, credit_account-NoOverdraft, h, up) depth 8

  bank_part-NoOverdraft :
      (c : String) (y : ℤ)
      → Ensures (λ _. NoOverdraft) (if leb_ℤ y (pos 0) then pure tt else credit_bank c y) s
  bank_part-NoOverdraft c y = search (ensures_rules, credit_bank-NoOverdraft, h) depth 8

module _ (s : Store) (h : NoOverdraft s) (o : Order) (buys : str_eq o.direction "BUY" ≡ true) where
  transfer-NoOverdraft : (c : String) (xs : ℤ × ℤ) → Ensures (λ _. NoOverdraft) (transfer o c xs) s
  unfolding transfer
  transfer-NoOverdraft c (x, y) =
      search (ensures_rules, Ensures-then, settle_order-NoOverdraft, bank_part-NoOverdraft, h, buys)
        depth 12

-- The settlement of a BUY never overdraws an account: in every run, whichever statements fail and
-- whatever the amounts and rates are, if no available balance was negative, none is afterwards.
pub settle-NoOverdraft :
    (fl : Float) (o : Order) (total commission : ℤ) (currency : String) (s : Store)
    → str_eq o.direction "BUY" ≡ true
    → NoOverdraft s
    → Ensures (λ _. NoOverdraft) (settle fl o total commission currency) s
unfolding settle
settle-NoOverdraft fl o total commission currency s buys h =
    search (ensures_rules, Ensures-then, amounts-NoOverdraft, transfer-NoOverdraft, h, buys) depth
      12

negated_twice : (x : ℤ) → -ℤ◌ (-ℤ◌ x) ≡ x
negated_twice x = ground arith

abbrev paid : ℕ → ℤ → Store → Store
paid i x s = record s { accounts = update_where (can_pay i x) (credit (-ℤ◌ x)) s.accounts }

debit_rows :
    (i : ℕ) (x : ℤ) (s : Store)
    → debit_account i (-ℤ◌ x) s ≡ (count_where (can_pay i x) s.accounts, paid i x s)
unfolding debit_account
debit_rows i x s = rw (negated_twice x) refl

paid_rows :
    (i : ℕ) (x : ℤ) (s : Store) (a : Account)
    → find_where (has_id i) s.accounts ≡ some a
    → leb_ℤ x (available_of a) ≡ true
    → (count_where (can_pay i x) s.accounts == 0) ≡ false
paid_rows i x s a row pays = ground (
  arith,
  count_where_pos (has_id i) (can_pay i x) s.accounts row
      (rw (find_where_fits (has_id i) s.accounts row, pays) refl),
)

-- If the statement that looks up the bank's currency fails, the settlement of a BUY in the account's
-- own currency, for which there is a commission and money enough, fails, although the account has
-- paid the total and the commission.
pub settle_lost :
    (fl : Float) (o : Order) (total commission : ℤ) (a : Account) (c : Currency) (s : Store)
    → str_eq o.direction "BUY" ≡ true
    → find_where (has_id o.account_id) s.accounts ≡ some a
    → find_where (currency_has_id a.currency_id) s.currencies ≡ some c
    → leb_ℤ commission (pos 0) ≡ false
    → leb_ℤ (total +ℤ commission) (available_of a) ≡ true
    → let (r, s', _) = settle fl o total commission c.code s (false ∷ false ∷ false ∷ true ∷ []) in
      (r ≡ err internal)
      × (s'.accounts
          ≡ update_where
              (can_pay o.account_id (total +ℤ commission))
              (credit (-ℤ◌ (total +ℤ commission)))
              s.accounts)
unfolding settle amounts transfer settle_order settle_buy credit_bank db fails later
settle_lost fl o total commission a c s buys row code up pays = ground (
  arith,
  buys,
  row,
  code,
  up,
  str_eq_self c.code,
  debit_rows o.account_id (total +ℤ commission) s,
  paid_rows o.account_id (total +ℤ commission) s a row pays,
)
