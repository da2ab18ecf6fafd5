-- ===== src/Order/Within.antt =====
-- The portions of an order in a settlement of services/order-service/execution/scheduler.go.
use exbanka_4_backend.Shared.Tests.{ℕ, ◌+◌, ◌≤◌, ◌==◌, List, [], ◌∷◌, String, if◌then◌else◌}
use exbanka_4_backend.Shared.Int.{ℤ}
use exbanka_4_backend.Shared.Float.{Float}
use exbanka_4_backend.Shared.Ensures.{Ensures, Ensures-then, ensures_rules}
use exbanka_4_backend.Order.State.{Order, Portion, Rate, Store}
use exbanka_4_backend.Order.Settlement.{
  get_rate, direct_rate, inverse_rate, cross_rate, rate_between, convert, amounts, debit_account,
  credit_account, settle_buy, settle_order, credit_bank, transfer, settle,
}
use exbanka_4_backend.Order.Execution.{add_commission_paid, record_commission}

-- The quantity that the stored portions of an order add up to.
abbrev pub filled : ℕ → List Portion → ℕ
filled i [] = 0
filled i (p ∷ ps) = (if p.order_id == i then p.quantity else 0) + filled i ps

module _ (i n r : ℕ) where
  -- What is filled and what is left make up at most `n`.
  abbrev pub IsWithin : Store → Type 0
  IsWithin s = filled i s.portions + r ≤ n

  debit_account-IsWithin :
      (k : ℕ) (x : ℤ) (s : Store) → IsWithin s → IsWithin (debit_account k x s).1
  unfolding debit_account
  debit_account-IsWithin k x s h = h

  credit_account-IsWithin :
      (k : ℕ) (x : ℤ) (s : Store) → IsWithin s → IsWithin (credit_account k x s)
  unfolding credit_account
  credit_account-IsWithin k x s h = h

  get_rate-IsWithin :
      (c : String) (side : Rate → ℤ) (s : Store)
      → IsWithin s
      → Ensures (λ _. IsWithin) (get_rate c side) s
  unfolding get_rate
  get_rate-IsWithin c side s h = search (ensures_rules, h) depth 8

  amounts-IsWithin :
      (fl : Float) (o : Order) (x y : ℤ) (a c : String) (s : Store)
      → IsWithin s
      → Ensures (λ _. IsWithin) (amounts fl o x y a c) s
  unfolding amounts convert rate_between direct_rate inverse_rate cross_rate
  amounts-IsWithin fl o x y a c s h =
      search (ensures_rules, Ensures-then, get_rate-IsWithin, h) depth 16

  settle_order-IsWithin :
      (o : Order) (x y : ℤ) (s : Store)
      → IsWithin s
      → Ensures (λ _. IsWithin) (settle_order o x y) s
  unfolding settle_order settle_buy
  settle_order-IsWithin o x y s h =
      search (ensures_rules, debit_account-IsWithin, credit_account-IsWithin, h) depth 8

  credit_bank-IsWithin :
      (c : String) (y : ℤ) (s : Store) → IsWithin s → Ensures (λ _. IsWithin) (credit_bank c y) s
  unfolding credit_bank
  credit_bank-IsWithin c y s h = search (ensures_rules, credit_account-IsWithin, h) depth 8

  transfer-IsWithin :
      (o : Order) (c : String) (xs : ℤ × ℤ) (s : Store)
      → IsWithin s
      → Ensures (λ _. IsWithin) (transfer o c xs) s
  unfolding transfer
  transfer-IsWithin o c (x, y) s h =
      search (ensures_rules, Ensures-then, settle_order-IsWithin, credit_bank-IsWithin, h) depth 12

  pub settle-IsWithin :
      (fl : Float) (o : Order) (total commission : ℤ) (currency : String) (s : Store)
      → IsWithin s
      → Ensures (λ _. IsWithin) (settle fl o total commission currency) s
  unfolding settle
  settle-IsWithin fl o total commission currency s h =
      search (ensures_rules, Ensures-then, amounts-IsWithin, transfer-IsWithin, h) depth 12

  add_commission_paid-IsWithin :
      (k : ℕ) (x : ℤ) (s : Store) → IsWithin s → IsWithin (add_commission_paid k x s)
  unfolding add_commission_paid
  add_commission_paid-IsWithin k x s h = h

  pub record_commission-IsWithin :
      (o : Order) (x : ℤ) (s : Store)
      → IsWithin s
      → Ensures (λ _. IsWithin) (record_commission o x) s
  unfolding record_commission
  record_commission-IsWithin o x s h =
      search (ensures_rules, add_commission_paid-IsWithin, h) depth 8
