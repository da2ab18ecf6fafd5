-- ===== src/Card/State.antt =====
-- The state of services/card-service/handlers: card_db (services/card-service/db/schema.sql), the
-- accounts that it reads, and the messages. Card numbers are read as their bytes, times are
-- seconds, and texts that are only passed on are texts.
use exbanka_4_backend.Shared.Tests.{
  ℕ, Bool, true, false, not, ◌&&◌, Option, none, some, List, String, str_eq,
}
use exbanka_4_backend.Shared.Int.{ℤ}
use exbanka_4_backend.Shared.Account.{Account}
use exbanka_4_backend.Card.Brand.{bytes_eq}

pub data CardStatus : Type 0 where
  active blocked deactivated : CardStatus

-- A row of `cards`.
pub record Card : Type 0 where
  pub id : ℕ
  pub card_number : List ℕ
  pub card_type : String
  pub card_name : String
  pub expiry_date : ℕ
  pub account_number : String
  pub cvv : String
  pub card_limit : Option ℤ
  pub status : CardStatus
  pub authorized_person_id : Option ℕ

pub record AuthorizedPerson : Type 0 where
  pub first_name : String
  pub last_name : String
  pub date_of_birth : String
  pub gender : String
  pub email : String
  pub phone_number : String
  pub address : String

-- A row of `card_requests`; `authorized_person_data` is the JSON text's value.
pub record CardRequest : Type 0 where
  pub request_token : String
  pub account_number : String
  pub card_name : String
  pub caller_client_id : ℕ
  pub for_self : Bool
  pub authorized_person_data : Option AuthorizedPerson
  pub confirmation_code : String
  pub expires_at : ℕ
  pub used : Bool

pub record Store : Type 0 where
  pub cards : List Card
  pub next_card_id : ℕ
  -- A row of `authorized_persons`: its id, its account, and the rest.
  pub persons : List (ℕ × (String × AuthorizedPerson))
  pub next_person_id : ℕ
  pub requests : List CardRequest
  pub accounts : List Account

-- pb.CreateCardRequest, and pb.InitiateCardRequestRequest, which has the same fields.
pub record CreateRequest : Type 0 where
  pub account_number : String
  pub card_name : String
  pub caller_client_id : ℕ
  pub for_self : Bool
  pub authorized_person : Option AuthorizedPerson

-- What a call draws from outside: random numbers, the bcrypt hash of the CVV (none is its error),
-- the clock, and whether time.Parse takes a date of birth.
pub record Env : Type 0 where
  pub draws : List ℕ
  pub cvv_hash : Option String
  pub now : ℕ
  pub expiry_date : ℕ
  pub is_date : String → Bool

abbrev pub is_active : CardStatus → Bool
is_active active = true
is_active _ = false

abbrev pub is_blocked : CardStatus → Bool
is_blocked blocked = true
is_blocked _ = false

abbrev pub is_deactivated : CardStatus → Bool
is_deactivated deactivated = true
is_deactivated _ = false

abbrev pub has_card_number : List ℕ → Card → Bool
has_card_number n c = bytes_eq c.card_number n

abbrev pub is_null : Option ℕ → Bool
is_null none = true
is_null (some i) = false

-- The rows that countAllCards and countOwnerCards count.
abbrev pub is_live_of : String → Card → Bool
is_live_of account c = str_eq c.account_number account && not (is_deactivated c.status)

abbrev pub is_live_owner_of : String → Card → Bool
is_live_owner_of account c =
    str_eq c.account_number account
    && (is_null c.authorized_person_id && not (is_deactivated c.status))

abbrev pub has_token : String → CardRequest → Bool
has_token token r = str_eq r.request_token token
