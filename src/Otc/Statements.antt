-- ===== src/Otc/Statements.antt =====
-- The statements by which ExerciseContract of services/otc-service/handlers/grpc_server.go changes
-- the saga's rows, the accounts and the portfolios, forward and back.
use exbanka_4_backend.Shared.Tests.{
  ℕ, suc, Bool, ◌&&◌, String, ◌==◌, Option, none, some, List, [], ◌∷◌, ◌++◌, if◌then◌else◌,
}
use exbanka_4_backend.Shared.Int.{ℤ, pos, ◌+ℤ◌, ◌-ℤ◌, leb_ℤ, min_ℤ, max_ℤ}
use exbanka_4_backend.Shared.Table.{update_where, count_where, delete_where}
use exbanka_4_backend.Shared.Account.{
  available_of, balance_of, add_cents, sub_cents, Account, has_id, credit, debit,
}
use exbanka_4_backend.Otc.State.{Saga, Entry, Store, Key, has_key, contract_has_id, is_saga_of}

-- `INSERT INTO otc_saga … RETURNING id`; contract_id is UNIQUE.
unfoldable pub insert_saga : ℕ → Store → Option (ℕ × Store)
insert_saga contract s =
    if count_where (is_saga_of contract) s.sagas == 0
    then some (
      s.next_saga,
      record s {
        sagas =
            s.sagas
            ++ ((record {
              id = s.next_saga;
              contract_id = contract;
              status = "Running";
              current_step = 0;
            })
                ∷ []);
        next_saga = suc s.next_saga;
      },
    )
    else none

-- sagaLog
unfoldable pub add_log : ℕ → ℕ → String → Store → Store
add_log contract step status s = record s {
  saga_log = s.saga_log ++ ((record { contract_id = contract; step = step; status = status }) ∷ []);
}

abbrev pub saga_has_id : ℕ → Saga → Bool
saga_has_id i g = g.id == i

abbrev with_saga_status : String → ℕ → Saga → Saga
with_saga_status status step g = record g { status = status; current_step = step }

-- sagaStatus
unfoldable pub update_saga : ℕ → String → ℕ → Store → Store
update_saga i status step s = record s {
  sagas = update_where (saga_has_id i) (with_saga_status status step) s.sagas;
}

unfoldable pub mark_exercised : ℕ → Store → Store
mark_exercised i s = record s {
  contracts = update_where (contract_has_id i) (λ c. record c { status = "EXERCISED" }) s.contracts;
}

-- Step 1 and its compensation.
abbrev pub has_funds : ℤ → Account → Bool
has_funds x a = leb_ℤ x (available_of a) && leb_ℤ x (balance_of a)

abbrev pub hold : ℤ → Account → Account
hold x a = record a { available_balance = sub_cents a.available_balance x }

abbrev pub release : ℤ → Account → Account
release x a = record a { available_balance = add_cents a.available_balance x }

unfoldable pub reserve_funds : ℕ → ℤ → Store → ℕ × Store
reserve_funds i x s = (
  count_where (λ a. has_id i a && has_funds x a) s.accounts,
  record s { accounts = update_where (λ a. has_id i a && has_funds x a) (hold x) s.accounts },
)

unfoldable pub release_funds : ℕ → ℤ → Store → Store
release_funds i x s = record s { accounts = update_where (has_id i) (release x) s.accounts }

-- Step 2 and its compensation.
abbrev pub has_free : ℤ → Entry → Bool
has_free n e = leb_ℤ n (e.amount -ℤ e.reserved_amount)

abbrev pub reserve : ℤ → Entry → Entry
reserve n e = record e { reserved_amount = e.reserved_amount +ℤ n }

abbrev pub unreserve : ℤ → Entry → Entry
unreserve n e = record e { reserved_amount = max_ℤ (pos 0) (e.reserved_amount -ℤ n) }

unfoldable pub reserve_shares : Key → ℤ → Store → ℕ × Store
reserve_shares k n s = (
  count_where (λ e. has_key k e && has_free n e) s.entries,
  record s { entries = update_where (λ e. has_key k e && has_free n e) (reserve n) s.entries },
)

unfoldable pub release_shares : Key → ℤ → Store → Store
release_shares k n s = record s { entries = update_where (has_key k) (unreserve n) s.entries }

-- Step 3 and its compensation.
abbrev pub pay : ℤ → Account → Account
pay x a = record a { balance = sub_cents a.balance x }

abbrev pub unpay : ℤ → Account → Account
unpay x a = record a { balance = add_cents a.balance x }

unfoldable pub debit_buyer : ℕ → ℤ → Store → Store
debit_buyer i x s = record s { accounts = update_where (has_id i) (pay x) s.accounts }

unfoldable pub refund_buyer : ℕ → ℤ → Store → Store
refund_buyer i x s = record s { accounts = update_where (has_id i) (unpay x) s.accounts }

unfoldable pub credit_seller : ℕ → ℤ → Store → Store
credit_seller i y s = record s { accounts = update_where (has_id i) (credit y) s.accounts }

unfoldable pub debit_seller : ℕ → ℤ → Store → Store
debit_seller i y s = record s { accounts = update_where (has_id i) (debit y) s.accounts }

-- Step 4: the seller's shares, an entry that is used up, the buyer's shares.
abbrev pub deduct : ℤ → Entry → Entry
deduct n e = record e {
  amount = e.amount -ℤ n;
  reserved_amount = max_ℤ (pos 0) (e.reserved_amount -ℤ n);
  public_amount = max_ℤ (pos 0) (min_ℤ e.public_amount (e.amount -ℤ n));
}

unfoldable pub deduct_seller : Key → ℤ → Store → Store
deduct_seller k n s = record s { entries = update_where (has_key k) (deduct n) s.entries }

abbrev pub is_used_up : Key → Entry → Bool
is_used_up k e = has_key k e && leb_ℤ e.amount (pos 0)

unfoldable pub delete_used_up : Key → Store → Store
delete_used_up k s = record s { entries = delete_where (is_used_up k) s.entries }

-- `INSERT … ON CONFLICT (user_id, user_type, listing_id) DO UPDATE SET f`
unfoldable pub upsert : Key → Entry → (Entry → Entry) → List Entry → List Entry
upsert k new f t =
    if count_where (has_key k) t == 0 then t ++ (new ∷ []) else update_where (has_key k) f t

abbrev pub new_entry : Key → ℤ → ℤ → ℕ → ℤ → Entry
new_entry k amount buy_price account reserved = record {
  user_id = k.user_id;
  user_type = k.user_type;
  listing_id = k.listing_id;
  amount = amount;
  buy_price = buy_price;
  public_amount = pos 0;
  account_id = account;
  reserved_amount = reserved;
}

abbrev pub add_amount : ℤ → Entry → Entry
add_amount n e = record e { amount = e.amount +ℤ n }

unfoldable pub upsert_buyer : Key → ℤ → ℤ → ℕ → Store → Store
upsert_buyer k n price account s = record s {
  entries = upsert k (new_entry k n price account (pos 0)) (add_amount n) s.entries;
}

abbrev pub give_back : ℤ → Entry → Entry
give_back n e = record e { amount = e.amount +ℤ n; reserved_amount = e.reserved_amount +ℤ n }

-- What is sent when the buyer's entry could not be written.
unfoldable pub restore_seller : Key → ℤ → Store → Store
restore_seller k n s = record s { entries = update_where (has_key k) (give_back n) s.entries }

-- The compensation of step 4.
unfoldable pub upsert_seller : Key → ℤ → ℕ → Store → Store
upsert_seller k n account s = record s {
  entries = upsert k (new_entry k n (pos 0) account n) (give_back n) s.entries;
}

abbrev pub take_amount : ℤ → Entry → Entry
take_amount n e = record e { amount = e.amount -ℤ n }

unfoldable pub deduct_buyer : Key → ℤ → Store → Store
deduct_buyer k n s = record s { entries = update_where (has_key k) (take_amount n) s.entries }
