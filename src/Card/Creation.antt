-- ===== src/Card/Creation.antt =====
-- CreateCard, InitiateCardRequest and ConfirmCardRequest of
-- services/card-service/handlers/grpc_server.go, with utils/limits.go and handlers/limits.go.
use exbanka_4_backend.Shared.Tests.{
  ℕ, ◌+◌, Bool, true, false, not, ◌&&◌, ◌||◌, Option, none, some, List, [], ◌∷◌, String, str_eq,
  ltb, leb, if◌then◌else◌,
}
use exbanka_4_backend.Shared.Table.{find_where, update_where, count_where}
use exbanka_4_backend.Shared.Account.{Account, has_number}
use exbanka_4_backend.Shared.Database.{
  Action, ⊤, invalid_argument, not_found, permission_denied, failed_precondition,
  resource_exhausted, internal, unanswered, pure, throw, query, exec, insert_returning, select_row,
  update, or_throw, throw_if, ◌>>=◌, ◌>>◌,
}
use exbanka_4_backend.Card.Brand.{generate_card_number, bank_iin}
use exbanka_4_backend.Card.State.{
  active, Card, AuthorizedPerson, CardRequest, Store, CreateRequest, Env, has_card_number,
  is_live_of, is_live_owner_of, has_token,
}

-- CheckCardLimit: whether it returns an error.
unfoldable pub exceeds_limit : String → Bool → ℕ → Bool
exceeds_limit account_type for_self existing =
    if str_eq account_type "PERSONAL"
    then leb 2 existing
    else if str_eq account_type "BUSINESS"
    then for_self && leb 1 existing
    else false

abbrev pub type_of : String → List Account → Option String
type_of account t = elim (find_where (has_number account) t) [
  | none ↦ none
  | some a ↦ some a.account_type
]

-- getAccountType
unfoldable pub get_account_type : String → Action Store String
get_account_type account = select_row (λ s. type_of account s.accounts) not_found

-- countAllCards and countOwnerCards
unfoldable pub count_all_cards : String → Action Store ℕ
count_all_cards account = query (λ s. count_where (is_live_of account) s.cards)

unfoldable pub count_owner_cards : String → Action Store ℕ
count_owner_cards account = query (λ s. count_where (is_live_owner_of account) s.cards)

unfoldable pub check_personal : String → Action Store ⊤
check_personal account = do
  existing ← count_all_cards account
  throw_if (exceeds_limit "PERSONAL" true existing) resource_exhausted
  pure tt

unfoldable pub check_owner : String → Action Store ⊤
check_owner account = do
  existing ← count_owner_cards account
  throw_if (exceeds_limit "BUSINESS" true existing) resource_exhausted
  pure tt

-- The switch on the account's type, the same in CreateCard and InitiateCardRequest.
unfoldable pub check_limit : String → CreateRequest → Action Store ⊤
check_limit account_type req =
    if str_eq account_type "personal"
    then check_personal req.account_number
    else if str_eq account_type "business"
    then (if req.for_self
        then check_owner req.account_number
        else throw_if (exceeds_limit "BUSINESS" false 0) resource_exhausted)
    else pure tt

unfoldable pub insert_person : String → AuthorizedPerson → Store → ℕ × Store
insert_person account p s = (
  s.next_person_id,
  record s {
    persons = (s.next_person_id, (account, p)) ∷ s.persons;
    next_person_id = s.next_person_id + 1;
  },
)

unfoldable pub add_person : Env → String → Option AuthorizedPerson → Action Store (Option ℕ)
add_person env account none = throw invalid_argument
add_person env account (some p) = do
  throw_if (not (env.is_date p.date_of_birth)) invalid_argument
  i ← exec (insert_person account p)
  pure (some i)

-- The authorized person of a card that is not for the owner.
unfoldable pub person_of : Env → CreateRequest → Action Store (Option ℕ)
person_of env req =
    if not req.for_self then add_person env req.account_number req.authorized_person else pure none

abbrev pub is_taken : List ℕ → Store → Bool
is_taken number s = ltb 0 (count_where (has_card_number number) s.cards)

-- The loop that draws numbers until one is new.
unfoldable pub fresh_number : String → List ℕ → Action Store (List ℕ)
fresh_number name [] = throw unanswered
fresh_number name (d ∷ ds) = do
  let number = generate_card_number name bank_iin d
  exists ← query (is_taken number)
  if exists then fresh_number name ds else pure number

unfoldable pub new_card : Env → CreateRequest → List ℕ → String → Option ℕ → Store → Card
new_card env req number hash person s = record {
  id = s.next_card_id;
  card_number = number;
  card_type = "DEBIT";
  card_name = req.card_name;
  expiry_date = env.expiry_date;
  account_number = req.account_number;
  cvv = hash;
  card_limit = none;
  status = active;
  authorized_person_id = person;
}

-- The INSERT into `cards`, which UNIQUE (card_number) may refuse.
unfoldable pub place_card : Card → Store → Option (Card × Store)
place_card c s =
    if is_taken c.card_number s
    then none
    else some (c, record s { cards = c ∷ s.cards; next_card_id = s.next_card_id + 1 })

unfoldable pub store_card : Env → CreateRequest → Option ℕ → List ℕ → String → Action Store Card
store_card env req person number hash =
    insert_returning (λ s. place_card (new_card env req number hash person s) s)

-- Steps 4 to 6 of CreateCard, once the limit is checked and the authorized person stored.
unfoldable pub issue_card : Env → CreateRequest → Option ℕ → Action Store Card
issue_card env req person = do
  number ← fresh_number req.card_name env.draws
  hash ← or_throw env.cvv_hash internal
  store_card env req person number hash

-- CreateCard
unfoldable pub create_card : Env → CreateRequest → Action Store Card
create_card env req = do
  throw_if (str_eq req.account_number "" || str_eq req.card_name "") invalid_argument
  account_type ← get_account_type req.account_number
  check_limit account_type req
  person ← person_of env req
  issue_card env req person

-- What InitiateCardRequest stores: the authorized person is kept only for a card that is not for
-- the owner. The token, the code and the clock come from outside; no code is an error of the random source.
unfoldable pub new_request : CreateRequest → String → String → ℕ → CardRequest
new_request req token code expires_at = record {
  request_token = token;
  account_number = req.account_number;
  card_name = req.card_name;
  caller_client_id = req.caller_client_id;
  for_self = req.for_self;
  authorized_person_data = if req.for_self then none else req.authorized_person;
  confirmation_code = code;
  expires_at = expires_at;
  used = false;
}

unfoldable pub insert_request : CardRequest → Store → Option ((String × String) × Store)
insert_request r s =
    if ltb 0 (count_where (has_token r.request_token) s.requests)
    then none
    else some ((r.request_token, r.confirmation_code), record s { requests = r ∷ s.requests })

-- InitiateCardRequest; a code lasts 15 minutes.
unfoldable pub initiate_card_request :
    CreateRequest → String → Option String → ℕ → Action Store (String × String)
initiate_card_request req token drawn now = do
  throw_if (str_eq req.account_number "" || str_eq req.card_name "") invalid_argument
  account_type ← get_account_type req.account_number
  check_limit account_type req
  code ← or_throw drawn internal
  insert_returning (insert_request (new_request req token code (now + 900)))

abbrev pub mark_used : CardRequest → CardRequest
mark_used r = record r { used = true }

unfoldable pub set_used : String → Store → Store
set_used token s = record s { requests = update_where (has_token token) mark_used s.requests }

abbrev pub create_request : CardRequest → CreateRequest
create_request r = record {
  account_number = r.account_number;
  card_name = r.card_name;
  caller_client_id = r.caller_client_id;
  for_self = r.for_self;
  authorized_person = if r.for_self then none else r.authorized_person_data;
}

-- ConfirmCardRequest
unfoldable pub confirm_card_request : Env → String → String → Action Store Card
confirm_card_request env token code = do
  throw_if (str_eq token "" || str_eq code "") invalid_argument
  r ← select_row (λ s. find_where (has_token token) s.requests) not_found
  throw_if r.used failed_precondition
  throw_if (ltb r.expires_at env.now) failed_precondition
  throw_if (not (str_eq code r.confirmation_code)) permission_denied
  update (set_used token)
  create_card env (create_request r)
