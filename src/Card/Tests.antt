-- ===== src/Card/Tests.antt =====
-- The card service at one account and one card.
use exbanka_4_backend.Shared.Tests.{
  ◌≡◌, refl, true, false, none, some, arith, List, [], ◌∷◌, ◌++◌, if◌then◌else◌, str_eq,
}
use exbanka_4_backend.Shared.Lists.{length}
use exbanka_4_backend.Shared.Text.{codes}
use exbanka_4_backend.Shared.Int.{pos}
use exbanka_4_backend.Shared.Table.{find_where, count_where}
use exbanka_4_backend.Shared.Account.{Account}
use exbanka_4_backend.Shared.Database.{Outages}
use exbanka_4_backend.Card.Luhn.{validate, check_digit, validate-check_digit, validate_one_change}
use exbanka_4_backend.Card.Brand.{
  bytes_eq, detect_card_name, generate_card_number, bank_iin, mii, zero_padded, pow10,
}
use exbanka_4_backend.Card.Number.{
  generate_card_number-validate, length-generate_card_number, detect_generated,
}
use exbanka_4_backend.Card.State.{Card, deactivated, Store, CreateRequest, Env, has_card_number}
use exbanka_4_backend.Card.Deactivated.{IsDeactivated}
use exbanka_4_backend.Card.Creation.{create_card}
use exbanka_4_backend.Card.Drawn.{is_answered, is_number_taken, create_card_answered}
use exbanka_4_backend.Card.Terminal.{
  Call, unblock, block, update_limit, create, run_calls, run_calls-IsDeactivated,
}

validate-check_digit_example :
    validate (codes "7992739871" ++ check_digit (codes "7992739871")) ≡ true
validate-check_digit_example = validate-check_digit (codes "7992739871")

known_number : validate (codes "79927398713") ≡ true
unfolding validate
known_number = refl

validate_one_change_example : validate (codes "7992739" ++ 57 ∷ codes "713") ≡ false
validate_one_change_example =
    validate_one_change (codes "7992739") (codes "713") 56 57 (omega arith, omega arith)
      (omega arith, omega arith) (omega arith) known_number

generate_card_number-validate_example :
    validate (generate_card_number "DINACARD" bank_iin 123456789) ≡ true
generate_card_number-validate_example = generate_card_number-validate "DINACARD" bank_iin 123456789

length-generate_card_number_example :
    length (generate_card_number "AMERICAN_EXPRESS" bank_iin 7)
    ≡ (if str_eq "AMERICAN_EXPRESS" "AMERICAN_EXPRESS" then 15 else 16)
length-generate_card_number_example = length-generate_card_number "AMERICAN_EXPRESS" bank_iin 7 refl

detect_generated_example :
    (detect_card_name (generate_card_number "VISA" bank_iin 42) ≡ "VISA")
    × (detect_card_name (generate_card_number "MASTERCARD" bank_iin 42) ≡ "MASTERCARD")
    × (detect_card_name (generate_card_number "DINACARD" bank_iin 42) ≡ "")
    × (detect_card_name (generate_card_number "AMERICAN_EXPRESS" bank_iin 42) ≡ "")
detect_generated_example = detect_generated 42

abbrev account : Account
account = record {
  id = 1;
  account_number = "265000111";
  owner_id = 7;
  currency_id = 1;
  account_type = "personal";
  status = "ACTIVE";
  balance = pos 0;
  available_balance = pos 0;
  daily_limit = none;
  monthly_limit = none;
  daily_spent = pos 0;
  monthly_spent = pos 0;
}

abbrev card : Card
card = record {
  id = 1;
  card_number = codes "4265000000000013";
  card_type = "DEBIT";
  card_name = "VISA";
  expiry_date = 20300101;
  account_number = "265000111";
  cvv = "hash";
  card_limit = none;
  status = deactivated;
  authorized_person_id = none;
}

abbrev store : Store
store = record {
  cards = card ∷ [];
  next_card_id = 2;
  persons = [];
  next_person_id = 1;
  requests = [];
  accounts = account ∷ [];
}

abbrev env : Env
env = record {
  draws = 1 ∷ 2 ∷ [];
  cvv_hash = some "hash2";
  now = 1000;
  expiry_date = 20300101;
  is_date = λ _. true;
}

abbrev request : CreateRequest
request = record {
  account_number = "265000111";
  card_name = "VISA";
  caller_client_id = 7;
  for_self = true;
  authorized_person = none;
}

-- Attempts to bring the card back, with another card made in between.
abbrev calls : List (Call × Outages)
calls =
    (unblock (codes "4265000000000013"), [])
    ∷ (create env request, false ∷ true ∷ [])
    ∷ (create env request, [])
    ∷ (block (codes "4265000000000013") "CLIENT" 7, [])
    ∷ (update_limit (codes "4265000000000013") (pos 5), [])
    ∷ []

card_found : find_where (has_card_number (codes "4265000000000013")) store.cards ≡ some card
unfolding find_where bytes_eq
card_found = refl

run_calls-IsDeactivated_example : IsDeactivated (codes "4265000000000013") (run_calls calls store)
run_calls-IsDeactivated_example =
    run_calls-IsDeactivated (codes "4265000000000013") calls store (card, card_found, refl)

-- A store whose card has the number of the first draw.
abbrev drawn_store : Store
drawn_store = record store {
  cards = record card { card_number = generate_card_number "VISA" bank_iin 1 } ∷ [];
}

one_is_taken : is_number_taken request drawn_store 1 ≡ true
unfolding count_where bytes_eq generate_card_number mii zero_padded pow10 check_digit
one_is_taken = refl

two_is_free : is_number_taken request drawn_store 2 ≡ false
unfolding count_where bytes_eq generate_card_number mii zero_padded pow10 check_digit
two_is_free = refl

create_card_answered_example :
    is_answered (create_card env request drawn_store (false ∷ false ∷ false ∷ true ∷ [])).0 ≡ true
create_card_answered_example =
    create_card_answered env request drawn_store (1 ∷ []) 2 [] refl two_is_free
      (false ∷ false ∷ false ∷ true ∷ [])
