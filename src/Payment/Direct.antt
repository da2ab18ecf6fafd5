-- ===== src/Payment/Direct.antt =====
-- CreatePayment (services/payment-service/handlers/grpc_server.go) between two accounts of the
-- bank in the same currency.
use exbanka_4_backend.Shared.Tests.{
  ℕ, ◌≡◌, refl, true, false, Option, none, some, List, [], ◌∷◌, String, ◌==◌, arith, ◌∙◌,
}
use exbanka_4_backend.Shared.Int.{ℤ, pos, ◌+ℤ◌, ◌-ℤ◌, -ℤ◌, ltb_ℤ, -ℤ_parts, +ℤ_parts, eq_of_parts}
use exbanka_4_backend.Shared.Cents.{to_cents, is_half_cent, to_cents-add, to_cents-sub}
use exbanka_4_backend.Shared.Table.{find_where, update_where, count_where}
use exbanka_4_backend.Shared.Float.{Float}
use exbanka_4_backend.Shared.Account.{
  available_of, Account, has_number, has_id, credit, total_balance, total_balance-update_where,
  count_where-update_where,
}
use exbanka_4_backend.Shared.Database.{Action, ok, err, internal, db, fails, later}
use exbanka_4_backend.Payment.Quote.{Payment, Request, Store, quote, banks}
use exbanka_4_backend.Payment.Create.{
  exceeds, spend, debit_source, credit_id, pay_out, move_money, new_payment, insert_payment,
  has_order_number, pay_route, pay_here, create_payment,
}

-- The money goes from the account `i` to the account `j`.
abbrev pub moved : ℕ → ℕ → ℤ → List Account → List Account
moved i j x t = update_where (has_id j) (credit x) (update_where (has_id i) (spend x) t)

-- What lets a payment in one currency through.
pub record IsPayable (req : Request) (a b t : Account) (s : Store) : Type 0 where
  pub source : find_where (has_number req.from_account) s.accounts ≡ some a
  pub owned : (a.owner_id == req.client_id) ≡ true
  pub target : find_where (has_number req.recipient_account) s.accounts ≡ some t
  pub real : (t.id == 0) ≡ false
  pub same : (t.currency_id == a.currency_id) ≡ true
  pub locked : find_where (has_id a.id) s.accounts ≡ some b
  pub funds : ltb_ℤ (available_of b) req.amount ≡ false
  pub daily : exceeds b.daily_limit b.daily_spent req.amount ≡ false
  pub monthly : exceeds b.monthly_limit b.monthly_spent req.amount ≡ false

spend_moves :
    (x : ℤ) (a : Account)
    → is_half_cent x ≡ false
    → (spend x a).balance ≡ a.balance +ℤ (-ℤ◌ (to_cents x))
spend_moves x a h = to_cents-sub a.balance x h ∙ negated a.balance (to_cents x)
  where
    negated : (b c : ℤ) → b -ℤ c ≡ b +ℤ (-ℤ◌ c)
    negated b c = eq_of_parts _ _ (ground (arith, -ℤ_parts b c, +ℤ_parts b (-ℤ◌ c)))

taken_and_given : (m x : ℤ) → m +ℤ (-ℤ◌ x) +ℤ x ≡ m
taken_and_given m x =
    eq_of_parts _ _ (ground (arith, +ℤ_parts m (-ℤ◌ x), +ℤ_parts (m +ℤ (-ℤ◌ x)) x))

-- Where both ids belong to one account each, the money that moves stays the same in total.
total_balance-moved :
    (i j : ℕ) (x : ℤ) (t : List Account)
    → count_where (has_id i) t ≡ 1
    → count_where (has_id j) t ≡ 1
    → is_half_cent x ≡ false
    → total_balance (moved i j x t) ≡ total_balance t
total_balance-moved i j x t one_i one_j h =
    let out =
      total_balance-update_where (has_id i) (spend x) (-ℤ◌ (to_cents x)) t (λ a. spend_moves x a h)
        one_i in
    let still : count_where (has_id j) (update_where (has_id i) (spend x) t) ≡ 1 =
      rw (count_where-update_where (has_id j) (has_id i) (spend x) t (λ a. refl)) one_j in
    let back =
      total_balance-update_where (has_id j) (credit x) (to_cents x)
        (update_where (has_id i) (spend x) t) (λ a. to_cents-add a.balance x h) still in
    rw back (rw out (taken_and_given (total_balance t) (to_cents x)))

module _ (outgoing : String → Option (Request → Action Store Payment)) (fl : Float) (req : Request)
    (n : String) (s : Store) (a b t : Account) (here : outgoing req.recipient_account ≡ none)
    (h : IsPayable req a b t s) where
  -- A payment in one currency whose statements all run, under an order number that is new, takes the
  -- amount from the source account, counts it against its limits, gives it to the receiver, and
  -- answers the amount without a fee.
  create_payment_direct :
      count_where (has_order_number n) s.payments ≡ 0
      → let (r, s', _) = create_payment outgoing fl req n s [] in
        (r ≡ ok (new_payment req n req.amount (pos 0) s))
        × (s'.accounts ≡ moved a.id t.id req.amount s.accounts)
  unfolding create_payment pay_here pay_route quote banks move_money pay_out debit_source credit_id
      insert_payment new_payment db fails later
  create_payment_direct new = (
    ground (
      arith, here, h.source, h.owned, h.target, h.real, h.same, h.locked, h.funds, h.daily,
      h.monthly, new,
    ),
    ground (
      arith, here, h.source, h.owned, h.target, h.real, h.same, h.locked, h.funds, h.daily,
      h.monthly, new,
    ),
  )

  -- If the statement that stores the payment fails, a payment in one currency answers an error
  -- although the money has moved, and no payment is stored.
  pub create_payment_lost :
      let (r, s', _) =
        create_payment outgoing fl req n s
          (false ∷ false ∷ false ∷ false ∷ false ∷ false ∷ false ∷ true ∷ []) in
      (r ≡ err internal)
      × (s'.accounts ≡ moved a.id t.id req.amount s.accounts)
      × (s'.payments ≡ s.payments)
  unfolding create_payment pay_here pay_route quote banks move_money pay_out debit_source credit_id
      insert_payment new_payment db fails later
  create_payment_lost = (
    ground (
      arith, here, h.source, h.owned, h.target, h.real, h.same, h.locked, h.funds, h.daily,
      h.monthly,
    ),
    ground (
      arith, here, h.source, h.owned, h.target, h.real, h.same, h.locked, h.funds, h.daily,
      h.monthly,
    ),
    ground (
      arith, here, h.source, h.owned, h.target, h.real, h.same, h.locked, h.funds, h.daily,
      h.monthly,
    ),
  )

  -- A payment in one currency whose statements all run, under an order number that is new, leaves the
  -- balances of all accounts together as they were, where the ids of the two accounts belong to one
  -- account each, and the amount has no half cent, which the columns would round up twice.
  pub create_payment-total_balance :
      count_where (has_order_number n) s.payments ≡ 0
      → count_where (has_id a.id) s.accounts ≡ 1
      → count_where (has_id t.id) s.accounts ≡ 1
      → is_half_cent req.amount ≡ false
      → total_balance (create_payment outgoing fl req n s []).1.accounts ≡ total_balance s.accounts
  create_payment-total_balance new one_a one_t whole =
      rw (create_payment_direct new).1
        (total_balance-moved a.id t.id req.amount s.accounts one_a one_t whole)
