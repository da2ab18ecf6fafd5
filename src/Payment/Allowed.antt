-- ===== src/Payment/Allowed.antt =====
-- The conditions under which CreatePayment (services/payment-service/handlers/grpc_server.go)
-- moves money.
use exbanka_4_backend.Shared.Tests.{
  ℕ, ◌≡◌, refl, ◌⊎◌, inl, inr, true, false, not, Option, none, some, List, String, ◌==◌, arith,
}
use exbanka_4_backend.Shared.Int.{ℤ, ltb_ℤ}
use exbanka_4_backend.Shared.Table.{find_where}
use exbanka_4_backend.Shared.Float.{Float}
use exbanka_4_backend.Shared.Account.{available_of, Account, has_number, has_id}
use exbanka_4_backend.Shared.Database.{
  Action, Outages, Result, ok, err, ⊤, query, insert_returning, transaction, row_cases,
}
use exbanka_4_backend.Shared.Ensures.{
  Ensures, Ensures-then, Ensures-transaction, Ensures-bind, Ensures-attempt, Ensures-select,
  Ensures-throw_if, Ensures-insert_returning, ensures_rules,
}
use exbanka_4_backend.Payment.Quote.{
  Payment, Request, Rate, Store, Route, external, direct, exchanged, base_rate, daily_rate,
  get_rate, from_rsd, to_rsd, through_rsd, converted, exchange_quote, quote, bank_account,
  both_banks, one_bank, banks,
}
use exbanka_4_backend.Payment.Create.{
  exceeds, move_money, insert_payment, pay_route, pay_here, create_payment,
}

-- The source account is the caller's, and the amount is within its available balance and its limits.
abbrev pub IsAllowed : Request → List Account → Type 0
IsAllowed req accounts =
    (a : Account) × (b : Account) × (find_where (has_number req.from_account) accounts ≡ some a)
    × ((a.owner_id == req.client_id) ≡ true)
    × (find_where (has_id a.id) accounts ≡ some b)
    × (ltb_ℤ (available_of b) req.amount ≡ false)
    × (exceeds b.daily_limit b.daily_spent req.amount ≡ false)
    × (exceeds b.monthly_limit b.monthly_spent req.amount ≡ false)

module _ (req : Request) (s : Store) where
  abbrev IsSame : Store → Type 0
  IsSame s' = s'.accounts ≡ s.accounts

  abbrev IsJustified : Store → Type 0
  IsJustified s' = IsSame s' ⊎ IsAllowed req s.accounts

  base_rate-IsSame : (c : String) (s' : Store) → IsSame s' → Ensures (λ _. IsSame) (base_rate c) s'
  unfolding base_rate
  base_rate-IsSame c s' h = search (ensures_rules, h) depth 6

  get_rate-IsSame :
      (c : String) (side : Rate → ℤ) (s' : Store)
      → IsSame s'
      → Ensures (λ _. IsSame) (get_rate c side) s'
  unfolding get_rate daily_rate
  get_rate-IsSame c side s' h = search (ensures_rules, base_rate-IsSame, h) depth 8

  converted-IsSame :
      (fl : Float) (x : ℤ) (from to : String) (s' : Store)
      → IsSame s'
      → Ensures (λ _. IsSame) (converted fl x from to) s'
  unfolding converted from_rsd to_rsd through_rsd
  converted-IsSame fl x from to s' h =
      search (ensures_rules, Ensures-then, get_rate-IsSame, h) depth 12

  quote-IsSame :
      (fl : Float) (x : ℤ) (a : Account) (r : Route) (s' : Store)
      → IsSame s'
      → Ensures (λ _. IsSame) (quote fl x a r) s'
  unfolding quote exchange_quote
  quote-IsSame fl x a external s' h = search (ensures_rules, h) depth 6
  quote-IsSame fl x a (direct t) s' h = search (ensures_rules, h) depth 6
  quote-IsSame fl x a (exchanged t) s' h =
      search (ensures_rules, Ensures-then, converted-IsSame, h) depth 10

  bank_account-IsSame : (k : ℕ) (s' : Store) → IsSame s' → Ensures (λ _. IsSame) (bank_account k) s'
  unfolding bank_account
  bank_account-IsSame k s' h = search (ensures_rules, h) depth 6

  banks-IsSame :
      (a : Account) (r : Route) (s' : Store) → IsSame s' → Ensures (λ _. IsSame) (banks a r) s'
  unfolding banks both_banks one_bank
  banks-IsSame a external s' h =
      search (ensures_rules, Ensures-then, bank_account-IsSame, h) depth 8
  banks-IsSame a (direct t) s' h = search (ensures_rules, h) depth 6
  banks-IsSame a (exchanged t) s' h =
      search (ensures_rules, Ensures-then, bank_account-IsSame, h) depth 8

  -- An answer of the transaction's statements needs the checks on the row that they read.
  abbrev IsChecked : ℕ → Result ⊤ → Store → Type 0
  IsChecked i (err c) s' = ⊤
  IsChecked i (ok t) s' =
      (b : Account) × (find_where (has_id i) s.accounts ≡ some b)
      × (ltb_ℤ (available_of b) req.amount ≡ false)
      × (exceeds b.daily_limit b.daily_spent req.amount ≡ false)
      × (exceeds b.monthly_limit b.monthly_spent req.amount ≡ false)

  any_pay_out :
      {A : Type 0} (P : Result A → Store → Type 0) (m : Action Store A) (s' : Store)
      → ((r : Result A) (s'' : Store) → P r s'')
      → Ensures P m s'
  any_pay_out P m s' all = record { at = λ o. all (m s' o).0 (m s' o).1 }

  checked :
      (i : ℕ) (b : Account) (r : Result ⊤) (s' : Store)
      → find_where (has_id i) s.accounts ≡ some b
      → ltb_ℤ (available_of b) req.amount ≡ false
      → exceeds b.daily_limit b.daily_spent req.amount ≡ false
      → exceeds b.monthly_limit b.monthly_spent req.amount ≡ false
      → IsChecked i r s'
  checked i b (err c) s' e f g h = tt
  checked i b (ok t) s' e f g h = (b, e, f, g, h)

  move_money-IsChecked :
      (i : ℕ) (final : ℤ) (bank : String × String) (r : Route) (s' : Store)
      → IsSame s'
      → Ensures (IsChecked i) (move_money i req.amount final bank r) s'
  unfolding move_money
  move_money-IsChecked i final bank r s' same =
      Ensures-select _ _ _ tt (λ _. tt)
        (λ b found.
          let row : find_where (has_id i) s.accounts ≡ some b = rw same at found in
          Ensures-throw_if _ _ _ (λ _. tt)
            (λ f.
              Ensures-throw_if _ _ _ (λ _. tt)
                (λ g.
                  Ensures-throw_if _ _ _ (λ _. tt)
                    (λ h. any_pay_out _ _ s' (λ r' s''. checked i b r' s'' row f g h)))))

  insert_payment-IsJustified :
      (n : String) (x y : ℤ) (s' : Store) (p : Payment) (s'' : Store)
      → IsJustified s'
      → insert_payment req n x y s' ≡ some (p, s'')
      → IsJustified s''
  unfolding insert_payment
  insert_payment-IsJustified n x y s' p s'' (inl same) e = inl (ground (arith, same, e))
  insert_payment-IsJustified n x y s' p s'' (inr allowed) e = inr allowed

  persist-IsJustified :
      (n : String) (x y : ℤ) (s' : Store)
      → IsJustified s'
      → Ensures (λ _. IsJustified) (insert_returning (insert_payment req n x y)) s'
  persist-IsJustified n x y s' h =
      Ensures-insert_returning _ h (λ p s'' e. insert_payment-IsJustified n x y s' p s'' h e)

  module _ (a : Account) (row : find_where (has_number req.from_account) s.accounts ≡ some a)
      (owned : not (a.owner_id == req.client_id) ≡ false) where
    is_owner : (a.owner_id == req.client_id) ≡ true
    is_owner = ground (arith, owned)

    transaction-IsJustified :
        (final : ℤ) (bank : String × String) (r : Route) (s' : Store)
        → IsSame s'
        → Ensures (λ _. IsJustified) (transaction (move_money a.id req.amount final bank r)) s'
    transaction-IsJustified final bank r s' same =
        Ensures-transaction (IsChecked a.id) _ (move_money-IsChecked a.id final bank r s' same)
          (λ c. inl same) (λ t s'' (b, found, f, g, h). inr (a, b, row, is_owner, found, f, g, h))

    pay_route-IsJustified :
        (fl : Float) (n : String) (r : Route) (s' : Store)
        → IsSame s'
        → Ensures (λ _. IsJustified) (pay_route fl req n a r) s'
    unfolding pay_route
    pay_route-IsJustified fl n r s' same =
        Ensures-bind (λ _. IsSame) _ _ (quote-IsSame fl req.amount a r s' same) (λ c s1 k. inl k)
          (λ q s1 k.
            Ensures-bind (λ _. IsSame) _ _ (banks-IsSame a r s1 k) (λ c s2 l. inl l)
              (λ bank s2 l.
                Ensures-bind (λ _. IsJustified) _ _ (transaction-IsJustified q.0 bank r s2 l)
                  (λ c s3 m. m) (λ t s3 m. persist-IsJustified n q.0 q.1 s3 m)))

  recipient-IsSame :
      (n : String)
      → Ensures (λ _. IsSame) (query (λ (t : Store). find_where (has_number n) t.accounts)) s
  recipient-IsSame n = search ensures_rules depth 6

  pay_here-IsJustified :
      (fl : Float) (n : String) → Ensures (λ _. IsJustified) (pay_here fl req n) s
  unfolding pay_here
  pay_here-IsJustified fl n =
      Ensures-select _ _ _ (inl refl) (λ _. inl refl)
        (λ a row.
          Ensures-throw_if _ _ _ (λ _. inl refl)
            (λ owned.
              Ensures-attempt IsSame _ _ (recipient-IsSame req.recipient_account)
                (λ x s' same. pay_route-IsJustified a row owned fl n _ s' same)))

-- A payment that does not go to a partner bank moves money only if the source account belongs to
-- the caller and the amount is within the account's available balance, its daily limit and its
-- monthly limit: otherwise, whichever statements fail, all accounts stay as they were.
pub create_payment-IsAllowed :
    (outgoing : String → Option (Request → Action Store Payment)) (fl : Float) (req : Request)
    (n : String) (s : Store) (o : Outages)
    → outgoing req.recipient_account ≡ none
    → ((create_payment outgoing fl req n s o).1.accounts ≡ s.accounts) ⊎ IsAllowed req s.accounts
unfolding create_payment row_cases
create_payment-IsAllowed outgoing fl req n s o here =
    rw here ((pay_here-IsJustified req s fl n).at o)
