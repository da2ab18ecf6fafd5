-- ===== src/Otc/Tests.antt =====
-- A contract for 3 shares at 100 USD, between two clients with an account in USD each.
use exbanka_4_backend.Shared.Tests.{
  ℕ, ◌≤◌, ◌≡◌, refl, true, false, none, some, List, [], ◌∷◌, ◌*◌, ◌/◌, arith, str_eq, ◌==◌, inl,
  inr, ◌&&◌,
}
use exbanka_4_backend.Shared.Int.{ℤ, pos, pos_part}
use exbanka_4_backend.Shared.Cents.{is_half_cent}
use exbanka_4_backend.Shared.Table.{find_where, count_where, update_where}
use exbanka_4_backend.Shared.Float.{Float}
use exbanka_4_backend.Shared.Account.{Account, has_id}
use exbanka_4_backend.Shared.Database.{Action, Outages, internal, throw, fails, later}
use exbanka_4_backend.Shared.Sparse.{IsSparse}
use exbanka_4_backend.Otc.State.{
  Contract, Entry, Store, has_key, contract_has_id, portfolio_user_id, currency_id_map, MiddleRate,
}
use exbanka_4_backend.Otc.Compensation.{Deal, Payee, seller_key, buyer_key}
use exbanka_4_backend.Otc.Exercise.{Request, Clock, exercise}
use exbanka_4_backend.Otc.Recovery.{highest_success, recover_saga}
use exbanka_4_backend.Otc.Whole.{IsOpen}
use exbanka_4_backend.Otc.Balances.{
  held_accounts, IsAgreed, IsWhole, IsAllOrNothing, exercise-IsAllOrNothing,
}
use exbanka_4_backend.Otc.Portfolios.{IsFitDeal}
use exbanka_4_backend.Otc.Parties.{IsConversion, IsPayee, IsDeal}
use exbanka_4_backend.Otc.Restored.{IsRestored, exercise-IsRestored}
use exbanka_4_backend.Otc.Reverted.{interrupted}
use exbanka_4_backend.Otc.Recovered.{IsRecovered, FindsAccounts, recover_saga-IsRecovered}
use exbanka_4_backend.Otc.Refused.{IsRefused, exercise-IsRefused}

-- Whole cents.
abbrev cents : ℕ → ℤ
cents n = pos (n / 10000 * 10000)

abbrev float : Float
float = record {
  mul = λ a b. cents (pos_part a * pos_part b / 1000000);
  div = λ a b. cents (pos_part a);
  pow = λ a n. a;
  round_cents = λ a. a;
}

abbrev account : ℕ → ℕ → ℤ → Account
account i owner balance = record {
  id = i;
  account_number = "333000112345678911";
  owner_id = owner;
  currency_id = 4;
  account_type = "FX";
  status = "ACTIVE";
  balance = balance;
  available_balance = balance;
  daily_limit = none;
  monthly_limit = none;
  daily_spent = pos 0;
  monthly_spent = pos 0;
}

abbrev accounts : List Account
accounts = account 10 1 (pos 100000) ∷ account 20 2 (pos 0) ∷ []

abbrev contract : Contract
contract = record {
  id = 7;
  seller_id = 2;
  seller_type = "CLIENT";
  buyer_id = 1;
  buyer_type = "CLIENT";
  ticker = "AAPL";
  amount = 3;
  strike_price = pos 100000000;
  premium = pos 0;
  currency = "USD";
  settlement_date = 5000000;
  status = "ACTIVE";
}

abbrev seller_entry : Entry
seller_entry = record {
  user_id = 2;
  user_type = "CLIENT";
  listing_id = 5;
  amount = pos 10;
  buy_price = pos 90000000;
  public_amount = pos 3;
  account_id = 20;
  reserved_amount = pos 0;
}

abbrev store : Store
store = record {
  contracts = contract ∷ [];
  saga_log = [];
  sagas = [];
  next_saga = 1;
  entries = seller_entry ∷ [];
  accounts = accounts;
  listings = (record { id = 5; ticker = "AAPL"; price = pos 120000000 }) ∷ [];
  rates = [];
  taxes = [];
}

abbrev req : Request
req = record { contract_id = 7; caller_id = 1; caller_type = "CLIENT"; buyer_account_id = 10 }

abbrev clock : Clock
clock = record { now = 5000000; month = 6; year = 2026 }

abbrev no_partner : Request → Contract → Action Store ℕ
no_partner r c = throw internal

-- The statement that credits the seller fails, and then the first attempt to give the buyer's money
-- back.
abbrev outages : Outages
outages =
    false ∷ false ∷ false ∷ false ∷ false ∷ false ∷ false ∷ false ∷ false ∷ false ∷ false ∷ false
    ∷ false ∷ false ∷ true ∷ true ∷ []

outages-IsSparse : IsSparse outages
unfolding fails later
outages-IsSparse = (
  refl,
  (
    refl,
    (
      refl,
      (
        refl,
        (
          refl,
          (
            refl,
            (refl, (refl, (refl, (refl, (refl, (refl, (refl, (refl, (refl, (refl, tt)))))))))),
          ),
        ),
      ),
    ),
  ),
)

unique : (i : ℕ) → count_where (has_id i) accounts ≤ 1
unfolding count_where
unique i = ground arith

the_contract :
    (c : Contract) → find_where (contract_has_id 7) (contract ∷ []) ≡ some c → c ≡ contract
unfolding find_where
the_contract c found = cc

is_open : IsOpen req store
unfolding find_where
is_open = (λ c found. rw (the_contract c found) refl, λ g found. cc)

whole : (n : ℕ) → is_half_cent (cents n) ≡ false
whole n = ground arith

whole_conversion :
    (rates : List MiddleRate) (n from to : ℕ) (y : ℤ)
    → IsConversion float rates (cents n) from to y
    → is_half_cent y ≡ false
whole_conversion rates n from to y (inl (_, same)) = rw same (whole n)
whole_conversion rates n from to y (inr (r, q, _, _, same)) = rw same (whole _)

whole_payee :
    (d : Deal) (accounts : List Account) (rates : List MiddleRate) (p : Payee)
    → IsPayee float d accounts rates p
    → is_half_cent p.to_receive ≡ false
whole_payee d accounts rates p (inl (a, _, _, same)) = rw same (whole _)
whole_payee d accounts rates p (inr (a, _, _, conversion)) =
    whole_conversion rates _ d.currency a.currency_id p.to_receive conversion

agreed-IsWhole : (d : Deal) → IsAgreed float req store d → IsWhole float req store d
agreed-IsWhole d (c, found, (is_c, listed, cur, payer, (a, is_a, conversion))) = (
  whole_conversion store.rates _ d.currency a.currency_id d.to_pay conversion,
  whole_payee d (held_accounts d store.accounts) store.rates,
)

exercise-IsAllOrNothing_example :
    IsAllOrNothing float req store
      (exercise no_partner float clock req store outages).0
      (exercise no_partner float clock req store outages).1
exercise-IsAllOrNothing_example =
    exercise-IsAllOrNothing no_partner float clock req store outages unique is_open agreed-IsWhole
      outages-IsSparse

apart :
    (d : Deal)
    → d.contract ≡ contract
    → (z : Entry) → has_key (buyer_key d) z ≡ true
    → has_key (seller_key d) z ≡ false
unfolding portfolio_user_id
apart d e z h = rw e (ground (arith, rw e at h))

fits :
    (c : Contract)
    → find_where (contract_has_id 7) (contract ∷ []) ≡ some c
    → (d : Deal) → IsDeal float req c store d
    → IsFitDeal (seller_entry ∷ []) d
unfolding find_where count_where portfolio_user_id
fits c found d (e, _, _, _, _) =
    let k : d.contract ≡ contract = cc in
    (
      unfold portfolio_user_id in apart d k,
      ground arith,
      (record { of_seller = λ h. rw k (ground arith); of_buyer = λ h. ground (arith) }, tt),
    )

exercise-IsRestored_example :
    IsRestored
      (seller_entry ∷ [])
      (exercise no_partner float clock req store outages).0
      (exercise no_partner float clock req store outages).1
exercise-IsRestored_example =
    exercise-IsRestored no_partner float clock req store outages is_open fits outages-IsSparse

exercise-IsRefused_example :
    let stranger : Request = record {
      contract_id = 7;
      caller_id = 3;
      caller_type = "CLIENT";
      buyer_account_id = 10;
    } in
    let (r, s', _) = exercise no_partner float clock stranger store [] in IsRefused store r s'
exercise-IsRefused_example =
    exercise-IsRefused no_partner float clock
      (record { contract_id = 7; caller_id = 3; caller_type = "CLIENT"; buyer_account_id = 10 })
      store [] (is_open.1) (λ c found. inl (barred c found))
  where
    barred :
        (c : Contract)
        → find_where (contract_has_id 7) (contract ∷ []) ≡ some c
        → ((3 == c.buyer_id) && str_eq "CLIENT" c.buyer_type) ≡ false
    barred c found = rw (the_contract c found) refl

abbrev deal : Deal
deal = record {
  contract = contract;
  listing = 5;
  currency = 4;
  buyer_account = 10;
  to_pay = pos 300000000;
  saga = 1;
}

abbrev payee : Payee
payee = record { account = 20; to_receive = pos 300000000 }

-- The service has stopped after the third step.
abbrev stopped : Store
stopped = record store {
  accounts = interrupted 3 deal payee accounts;
  saga_log =
      (record { contract_id = 7; step = 1; status = "SUCCESS" })
      ∷ (record { contract_id = 7; step = 2; status = "SUCCESS" })
      ∷ (record { contract_id = 7; step = 3; status = "SUCCESS" })
      ∷ [];
}

finds : FindsAccounts 7 deal payee stopped
unfolding find_where currency_id_map portfolio_user_id update_where
finds = (
  refl,
  refl,
  λ a found. ground (arith, found),
  λ a found. ground (arith, found),
  λ a found. ground (arith, found),
)

recover_saga-IsRecovered_example :
    let (r, s', _) = recover_saga float 1 7 stopped [] in
    IsRecovered accounts (interrupted 3 deal payee accounts) r s'
recover_saga-IsRecovered_example =
    recover_saga-IsRecovered float 1 7 3 deal payee accounts stopped [] unique refl refl refl finds
      (unfold highest_success in refl) refl tt
