-- ===== src/Card/Lifecycle.antt =====
-- BlockCard, UnblockCard, DeactivateCard and UpdateCardLimit of
-- services/card-service/handlers/grpc_server.go, and the helpers that they read with. The
-- notifications that are sent in the background are left out.
use exbanka_4_backend.Shared.Tests.{
  ℕ, not, Option, none, some, List, String, str_eq, ◌==◌, if◌then◌else◌,
}
use exbanka_4_backend.Shared.Lists.{length, take, drop}
use exbanka_4_backend.Shared.Tests.{ltb, ◌-◌, ◌++◌}
use exbanka_4_backend.Shared.Text.{codes}
use exbanka_4_backend.Shared.Int.{ℤ}
use exbanka_4_backend.Shared.Table.{find_where, update_where}
use exbanka_4_backend.Shared.Account.{Account, has_number}
use exbanka_4_backend.Shared.Database.{
  Action, ⊤, not_found, permission_denied, failed_precondition, pure, select_row, update, throw_if,
  attempt, ◌>>=◌, ◌>>◌,
}
use exbanka_4_backend.Card.State.{
  CardStatus, active, blocked, deactivated, Card, Store, is_active, is_blocked, is_deactivated,
  has_card_number,
}

-- fetchCardStatusAndAccount, as the row that it reads.
unfoldable pub fetch_card : List ℕ → Action Store Card
fetch_card number = select_row (λ s. find_where (has_card_number number) s.cards) not_found

abbrev pub owner_of : String → List Account → Option ℕ
owner_of account t = elim (find_where (has_number account) t) [
  | none ↦ none
  | some a ↦ some a.owner_id
]

-- getAccountOwnerID
unfoldable pub get_account_owner_id : String → Action Store ℕ
get_account_owner_id account = select_row (λ s. owner_of account s.accounts) not_found

abbrev pub with_status : CardStatus → Card → Card
with_status st c = record c { status = st }

unfoldable pub set_status : List ℕ → CardStatus → Store → Store
set_status number st s = record s {
  cards = update_where (has_card_number number) (with_status st) s.cards;
}

-- The part of BlockCard after the check of the owner.
unfoldable pub block_fetched : List ℕ → Card → Action Store ⊤
block_fetched number c = do
  throw_if (not (is_active c.status)) failed_precondition
  update (set_status number blocked)
  attempt (get_account_owner_id c.account_number)
  pure tt

-- The part for a client, who must own the card's account.
unfoldable pub block_owned : List ℕ → ℕ → Card → Action Store ⊤
block_owned number caller_client_id c = do
  owner ← get_account_owner_id c.account_number
  throw_if (not (owner == caller_client_id)) permission_denied
  block_fetched number c

-- BlockCard
unfoldable pub block_card : List ℕ → String → ℕ → Action Store ⊤
block_card number caller_role caller_client_id = do
  c ← fetch_card number
  if str_eq caller_role "CLIENT"
      then block_owned number caller_client_id c
      else block_fetched number c

-- UnblockCard
unfoldable pub unblock_card : List ℕ → Action Store ⊤
unblock_card number = do
  c ← fetch_card number
  throw_if (is_deactivated c.status) failed_precondition
  throw_if (not (is_blocked c.status)) failed_precondition
  update (set_status number active)

-- DeactivateCard
unfoldable pub deactivate_card : List ℕ → Action Store ⊤
deactivate_card number = do
  c ← fetch_card number
  throw_if (is_deactivated c.status) failed_precondition
  update (set_status number deactivated)

abbrev pub with_limit : ℤ → Card → Card
with_limit x c = record c { card_limit = some x }

unfoldable pub set_limit : List ℕ → ℤ → Store → Store
set_limit number x s = record s {
  cards = update_where (has_card_number number) (with_limit x) s.cards;
}

-- UpdateCardLimit
unfoldable pub update_card_limit : List ℕ → ℤ → Action Store ⊤
update_card_limit number new_limit = do
  c ← fetch_card number
  throw_if (is_deactivated c.status) failed_precondition
  update (set_limit number new_limit)

-- maskCardNumber
unfoldable pub mask_card_number : List ℕ → List ℕ
mask_card_number n =
    if ltb (length n) 8 then n else take 4 n ++ (codes "********" ++ drop (length n - 4) n)
