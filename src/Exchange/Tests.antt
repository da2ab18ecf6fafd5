-- ===== src/Exchange/Tests.antt =====
-- An exchange of 1000 RSD into euros, with the fallback rates.
use exbanka_4_backend.Shared.Tests.{ℕ, ◌*◌, ◌/◌, none, [], ◌∷◌, String}
use exbanka_4_backend.Shared.Int.{pos, pos_part}
use exbanka_4_backend.Shared.Float.{Float, of_int}
use exbanka_4_backend.Shared.Account.{Account}
use exbanka_4_backend.Exchange.Rates.{Store}
use exbanka_4_backend.Exchange.Convert.{Request, convert_amount}
use exbanka_4_backend.Exchange.Converted.{IsConverted, convert_amount-IsConverted}

abbrev float : Float
float = record {
  mul = λ a b. pos (pos_part a * pos_part b / 1000000);
  div = λ a b. pos (pos_part a * 1000000 / pos_part b);
  pow = λ a n. a;
  round_cents = λ a. pos (pos_part a / 10000 * 10000);
}

abbrev account : ℕ → String → ℕ → ℕ → String → Account
account i number owner currency type = record {
  id = i;
  account_number = number;
  owner_id = owner;
  currency_id = currency;
  account_type = type;
  status = "ACTIVE";
  balance = pos 500000;
  available_balance = pos 500000;
  daily_limit = none;
  monthly_limit = none;
  daily_spent = pos 0;
  monthly_spent = pos 0;
}

abbrev store : Store
store = record {
  accounts =
      account 1 "dinars" 7 1 "personal"
      ∷ account 2 "euros" 7 2 "personal"
      ∷ account 3 "bank dinars" 0 1 "BANK"
      ∷ account 4 "bank euros" 0 2 "BANK"
      ∷ [];
  currencies = record { id = 1; code = "RSD" } ∷ record { id = 2; code = "EUR" } ∷ [];
  rates = [];
  exchanges = [];
  next_id = 1;
}

abbrev request : Request
request = record {
  client_id = 7;
  from_account = "dinars";
  to_account = "euros";
  amount = of_int 1000;
}

convert_amount-IsConverted_example :
    IsConverted request store.accounts
      (convert_amount float none none request store []).0
      (convert_amount float none none request store []).1
convert_amount-IsConverted_example = convert_amount-IsConverted float none none request store []
