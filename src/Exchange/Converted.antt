-- ===== src/Exchange/Converted.antt =====
-- What ConvertAmount of services/exchange-service/handlers/grpc_server.go does to the accounts, in
-- every run.
use exbanka_4_backend.Shared.Tests.{
  ◌≡◌, refl, ◌==◌, Bool, true, false, not, Option, none, some, List, [], ◌∷◌, String, ap, arith,
}
use exbanka_4_backend.Shared.Int.{ℤ, ltb_ℤ}
use exbanka_4_backend.Shared.Float.{Float}
use exbanka_4_backend.Shared.Table.{find_where}
use exbanka_4_backend.Shared.Account.{available_of, Account, has_number}
use exbanka_4_backend.Shared.Database.{Result, ok, err, ⊤, Outages}
use exbanka_4_backend.Shared.Ensures.{
  Ensures, Ensures-bind, Ensures-then, Ensures-transaction, Ensures-attempt, Ensures-select,
  Ensures-throw_if, Ensures-pure, ensures_rules,
}
use exbanka_4_backend.Exchange.Rates.{
  Rate, Exchange, Store, insert_rate, store_rate, store_rates, fetch_and_store_rates,
  ensure_today_rates, raw_rate,
}
use exbanka_4_backend.Exchange.Convert.{
  Request, is_bank_in, read_rate, get_rate, from_rsd, into_rsd, through_rsd, conversion,
  bank_account, exchanged, new_exchange, debit_number, credit_number, move_money, insert_exchange,
  exchange_at, convert_between, convert_amount,
}

negated : (b : Bool) → not b ≡ false → b ≡ true
negated true h = refl
negated false h = ground (arith, h)

module _ (start : List Account) where
  abbrev IsSame : Store → Type 0
  IsSame s = s.accounts ≡ start

  insert_rate-IsSame : (r : Rate) (s : Store) → IsSame s → IsSame (insert_rate r s)
  unfolding insert_rate
  insert_rate-IsSame r s h = ground (arith, h)

  store_rate-IsSame :
      (fl : Float) (code : String) (raw : Option (String × ℤ)) (s : Store)
      → IsSame s
      → Ensures (λ _. IsSame) (store_rate fl code raw) s
  unfolding store_rate
  store_rate-IsSame fl code none s h = search (ensures_rules, h) depth 6
  store_rate-IsSame fl code (some raw) s h = search (ensures_rules, insert_rate-IsSame, h) depth 6

  store_rates-IsSame :
      (fl : Float) (raw : List (String × ℤ)) (codes : List String) (s : Store)
      → IsSame s
      → Ensures (λ _. IsSame) (store_rates fl raw codes) s
  unfolding store_rates
  store_rates-IsSame fl raw [] s h = search (ensures_rules, h) depth 6
  store_rates-IsSame fl raw (code ∷ codes) s h =
      Ensures-then _ _ (store_rate-IsSame fl code (raw_rate code raw) s h)
        (λ t s' h'. store_rates-IsSame fl raw codes s' h')

  ensure_today_rates-IsSame :
      (fl : Float) (feed : Option (List (String × ℤ))) (s : Store)
      → IsSame s
      → Ensures (λ _. IsSame) (ensure_today_rates fl feed) s
  unfolding ensure_today_rates fetch_and_store_rates
  ensure_today_rates-IsSame fl feed s h = search (ensures_rules, store_rates-IsSame, h) depth 8

  read_rate-IsSame :
      (code : String) (side : Rate → ℤ) (s : Store)
      → IsSame s
      → Ensures (λ _. IsSame) (read_rate code side) s
  unfolding read_rate
  read_rate-IsSame code side s h =
      Ensures-attempt IsSame _ _ (search (ensures_rules, h) depth 6)
        (λ x s' h'. search (ensures_rules, h') depth 6)

  get_rate-IsSame :
      (cache : Option (List Rate)) (code : String) (side : Rate → ℤ) (s : Store)
      → IsSame s
      → Ensures (λ _. IsSame) (get_rate cache code side) s
  unfolding get_rate
  get_rate-IsSame cache code side s h = search (ensures_rules, read_rate-IsSame, h) depth 6

  conversion-IsSame :
      (fl : Float) (cache : Option (List Rate)) (x : ℤ) (from to : String) (s : Store)
      → IsSame s
      → Ensures (λ _. IsSame) (conversion fl cache x from to) s
  unfolding conversion from_rsd into_rsd through_rsd
  conversion-IsSame fl cache x from to s h =
      search (ensures_rules, Ensures-then, get_rate-IsSame, h) depth 10

  -- The updates reach the accounts as they were.
  abbrev IsMoved : Request → ℤ → String → String → Result ⊤ → Store → Type 0
  IsMoved req x from to (err c) s = ⊤
  IsMoved req x from to (ok t) s = s.accounts ≡ exchanged req x from to start

  move_money-IsMoved :
      (req : Request) (x : ℤ) (from to : String) (s : Store)
      → IsSame s
      → Ensures (IsMoved req x from to) (move_money req x from to) s
  unfolding move_money debit_number credit_number
  move_money-IsMoved req x from to s h =
      search (ensures_rules, ap (exchanged req x from to) h) depth 12

  -- A transaction that is rolled back leaves the accounts as they were.
  abbrev IsSettled : Request → ℤ → String → String → Result ⊤ → Store → Type 0
  IsSettled req x from to (err c) s = s.accounts ≡ start
  IsSettled req x from to (ok t) s = s.accounts ≡ exchanged req x from to start

-- A call that fails must leave the accounts as they were. One that answers must have debited a
-- sufficient source account of the client, and the bank's account in the currency of the
-- destination, and have credited the bank's account in the currency of the source, and the
-- destination.
abbrev pub IsConverted : Request → List Account → Result Exchange → Store → Type 0
IsConverted req t (err c) s = s.accounts ≡ t
IsConverted req t (ok r) s =
    (a : Account) × (b : Account) × (f : Account) × (g : Account) × (find_where
        (has_number req.from_account) t
      ≡ some a)
    × (find_where (has_number req.to_account) t ≡ some b)
    × ((a.owner_id == req.client_id) ≡ true)
    × (ltb_ℤ (available_of a) req.amount ≡ false)
    × (find_where (is_bank_in a.currency_id) t ≡ some f)
    × (find_where (is_bank_in b.currency_id) t ≡ some g)
    × (s.accounts ≡ exchanged req r.to_amount f.account_number g.account_number t)

module _ (fl : Float) (req : Request) (start : List Account) (a b : Account)
    (from_row : find_where (has_number req.from_account) start ≡ some a)
    (to_row : find_where (has_number req.to_account) start ≡ some b)
    (own : (a.owner_id == req.client_id) ≡ true) where
  exchange_at-IsConverted :
      (from to : String) (q : ℤ × ℤ) (s : Store)
      → s.accounts ≡ start
      → Ensures (IsConverted req start) (exchange_at fl req a b from to q) s
  unfolding exchange_at bank_account insert_exchange new_exchange
  exchange_at-IsConverted from to q s h =
      Ensures-throw_if _ _ _ (λ _. h)
        (λ enough.
          Ensures-select _ _ _ h (λ _. h)
            (λ f ef.
              Ensures-select _ _ _ h (λ _. h)
                (λ g eg.
                  Ensures-bind
                    (IsSettled start req (fl.round_cents q.0) f.account_number g.account_number) _ _
                    (Ensures-transaction
                      (IsMoved start req (fl.round_cents q.0) f.account_number g.account_number) _
                      (move_money-IsMoved start req (fl.round_cents q.0) f.account_number
                        g.account_number s h)
                      (λ c. h) (λ t s' m. m))
                    (λ c s' m. m)
                    (λ t s' m.
                      Ensures-attempt
                        (λ s'.
                          s'.accounts
                          ≡ exchanged req (fl.round_cents q.0) f.account_number g.account_number
                              start)
                        _ _ (search (ensures_rules, m) depth 6)
                        (λ x s'' n. Ensures-pure _ (
                          a,
                          b,
                          f,
                          g,
                          from_row,
                          to_row,
                          own,
                          enough,
                          rw h at ef,
                          rw h at eg,
                          n,
                        ))))))

  convert_between-IsConverted :
      (feed : Option (List (String × ℤ))) (cache : Option (List Rate)) (s : Store)
      → s.accounts ≡ start
      → Ensures (IsConverted req start) (convert_between fl feed cache req a b) s
  unfolding convert_between
  convert_between-IsConverted feed cache s h =
      Ensures-select _ _ _ h (λ _. h)
        (λ from _.
          Ensures-select _ _ _ h (λ _. h)
            (λ to _.
              Ensures-throw_if _ _ _ (λ _. h)
                (λ _.
                  Ensures-attempt (IsSame start) _ _ (ensure_today_rates-IsSame start fl feed s h)
                    (λ x s' h'.
                      Ensures-bind (λ _. IsSame start) _ _
                        (conversion-IsSame start fl cache req.amount from.code to.code s' h')
                        (λ c s'' i. i)
                        (λ q s'' i. exchange_at-IsConverted from.code to.code q s'' i)))))

-- In every run, whatever the rates are and whichever statements fail, an error of ConvertAmount
-- leaves the accounts as they were, and an answer has made the four updates of the exchange
-- together: the amount goes from the client's source account, whose available balance was enough,
-- to the bank's account in that currency, and the converted amount goes from the bank's account in
-- the currency of the destination to the destination. Every update rounds the balances to cents.
pub convert_amount-IsConverted :
    (fl : Float) (feed : Option (List (String × ℤ))) (cache : Option (List Rate)) (req : Request)
    (s : Store) (o : Outages)
    → IsConverted req s.accounts
        (convert_amount fl feed cache req s o).0
        (convert_amount fl feed cache req s o).1
unfolding convert_amount
convert_amount-IsConverted fl feed cache req s o =
    (Ensures-throw_if _ _ _ (λ _. refl)
        (λ _.
          Ensures-throw_if _ _ _ (λ _. refl)
            (λ _.
              Ensures-select _ _ _ refl (λ _. refl)
                (λ a ea.
                  Ensures-throw_if _ _ _ (λ _. refl)
                    (λ own.
                      Ensures-select _ _ _ refl (λ _. refl)
                        (λ b eb.
                          convert_between-IsConverted fl req s.accounts a b ea eb (negated _ own)
                            feed cache s refl)))))).at
      o
