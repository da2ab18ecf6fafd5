-- ===== src/Payment/Tests.antt =====
-- A payment of 250 RSD between two accounts of the bank.
use exbanka_4_backend.Shared.Tests.{
  ◌≡◌, ◌⊎◌, refl, true, false, Option, none, some, [], ◌∷◌, String,
}
use exbanka_4_backend.Shared.Int.{pos, ◌+ℤ◌}
use exbanka_4_backend.Shared.Cents.{of_cents}
use exbanka_4_backend.Shared.Table.{find_where, count_where}
use exbanka_4_backend.Shared.Float.{Float}
use exbanka_4_backend.Shared.Account.{Account, total_balance}
use exbanka_4_backend.Shared.Database.{Action, err, internal}
use exbanka_4_backend.Payment.Quote.{Payment, Request, Store}
use exbanka_4_backend.Payment.Create.{create_payment}
use exbanka_4_backend.Payment.Allowed.{IsAllowed, create_payment-IsAllowed}
use exbanka_4_backend.Payment.Direct.{
  moved, IsPayable, create_payment_lost, create_payment-total_balance,
}

abbrev payer : Account
payer = record {
  id = 1;
  account_number = "265000111";
  owner_id = 7;
  currency_id = 1;
  account_type = "personal";
  status = "ACTIVE";
  balance = pos 100000;
  available_balance = pos 100000;
  daily_limit = some (pos 50000);
  monthly_limit = none;
  daily_spent = pos 0;
  monthly_spent = pos 0;
}

abbrev payee : Account
payee = record payer { id = 2; account_number = "265000222"; owner_id = 8 }

abbrev store : Store
store = record {
  payments = [];
  next_id = 1;
  recipients = [];
  accounts = payer ∷ payee ∷ [];
  currencies = record { id = 1; code = "RSD" } ∷ [];
  rates = [];
  base_rates = [];
}

abbrev request : Request
request = record {
  client_id = 7;
  from_account = "265000111";
  recipient_account = "265000222";
  amount = pos 250000000;
}

abbrev excessive : Request
excessive = record request { amount = pos 750000000 }

abbrev float : Float
float = record { mul = λ a b. a; div = λ a b. a; pow = λ a n. a; round_cents = λ a. a }

-- No partner bank is known.
abbrev outgoing : String → Option (Request → Action Store Payment)
outgoing _ = none

create_payment-IsAllowed_example :
    ((create_payment outgoing float excessive "ORD-1" store []).1.accounts ≡ payer ∷ payee ∷ [])
    ⊎ IsAllowed excessive (payer ∷ payee ∷ [])
create_payment-IsAllowed_example =
    create_payment-IsAllowed outgoing float excessive "ORD-1" store [] refl

payable : IsPayable request payer payer payee store
unfolding find_where ◌+ℤ◌ of_cents
payable = record {
  source = refl;
  owned = refl;
  target = refl;
  real = refl;
  same = refl;
  locked = refl;
  funds = refl;
  daily = refl;
  monthly = refl;
}

create_payment_lost_example :
    let (r, s', _) =
      create_payment outgoing float request "ORD-1" store
        (false ∷ false ∷ false ∷ false ∷ false ∷ false ∷ false ∷ true ∷ []) in
    (r ≡ err internal)
    × (s'.accounts ≡ moved 1 2 (pos 250000000) (payer ∷ payee ∷ []))
    × (s'.payments ≡ [])
create_payment_lost_example =
    create_payment_lost outgoing float request "ORD-1" store payer payer payee refl payable

create_payment-total_balance_example :
    total_balance (create_payment outgoing float request "ORD-1" store []).1.accounts
    ≡ total_balance (payer ∷ payee ∷ [])
create_payment-total_balance_example =
    create_payment-total_balance outgoing float request "ORD-1" store payer payer payee refl payable
      (unfold count_where in refl) (unfold count_where in refl) (unfold count_where in refl) refl
