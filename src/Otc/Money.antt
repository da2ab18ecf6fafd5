-- ===== src/Otc/Money.antt =====
-- The helpers of services/otc-service/handlers/grpc_server.go that read accounts, listings and rates:
-- findAccount, getAccountCurrencyID, listingIDForTicker, convertAmount and recordOtcTax. A SELECT
-- with LIMIT 1 and no ORDER BY takes the first row of the table.
use exbanka_4_backend.Shared.Tests.{
  ℕ, Bool, ◌&&◌, String, str_eq, ◌==◌, [], ◌∷◌, ◌++◌, if◌then◌else◌,
}
use exbanka_4_backend.Shared.Int.{ℤ, pos, eqb_ℤ}
use exbanka_4_backend.Shared.Table.{find_where}
use exbanka_4_backend.Shared.Float.{Float, of_int}
use exbanka_4_backend.Shared.Account.{Account, has_id}
use exbanka_4_backend.Shared.Database.{
  Action, ⊤, internal, pure, attempt, select_row, row_cases, ◌>>=◌,
}
use exbanka_4_backend.Shared.Sparse.{try_update}
use exbanka_4_backend.Otc.State.{
  TaxRecord, Store, has_ticker, rate_has_code, currency_id_map, currency_code_map,
}

abbrev pub is_active_of : ℕ → Account → Bool
is_active_of owner a = (a.owner_id == owner) && str_eq a.status "ACTIVE"

abbrev pub is_active_in : ℕ → ℕ → Account → Bool
is_active_in owner currency a = is_active_of owner a && (a.currency_id == currency)

-- findAccount
unfoldable pub find_account : ℕ → ℕ → Action Store ℕ
find_account owner currency = do
  a ← select_row (λ s. find_where (is_active_in owner currency) s.accounts) internal
  pure a.id

-- getAccountCurrencyID
unfoldable pub get_account_currency_id : ℕ → Action Store ℕ
get_account_currency_id account = do
  a ← select_row (λ s. find_where (has_id account) s.accounts) internal
  pure a.currency_id

-- listingIDForTicker
unfoldable pub listing_id_for_ticker : String → Action Store ℕ
listing_id_for_ticker ticker = do
  l ← select_row (λ s. find_where (has_ticker ticker) s.listings) internal
  pure l.id

unfoldable pub get_rate : String → Action Store ℤ
get_rate code = if str_eq code "RSD" then pure (of_int 1) else do
  r ← select_row (λ s. find_where (rate_has_code code) s.rates) internal
  pure r.middle_rate

unfoldable pub convert_between : Float → ℤ → String → String → Action Store ℤ
convert_between fl amount from to = do
  from_rate ← get_rate from
  to_rate ← get_rate to
  pure (fl.div (fl.mul amount from_rate) to_rate)

-- convertAmount
unfoldable pub convert_amount : Float → ℤ → ℕ → ℕ → Action Store ℤ
convert_amount fl amount from to =
    if from == to
    then pure amount
    else convert_between fl amount (currency_code_map from) (currency_code_map to)

unfoldable pub add_tax : TaxRecord → Store → Store
add_tax t s = record s { taxes = s.taxes ++ (t ∷ []) }

-- 15 percent of the amount in RSD, unless that is 0.
unfoldable pub insert_tax : Float → ℕ → String → ℕ → ℕ → ℤ → Action Store ⊤
insert_tax fl user_id user_type month year amount_rsd =
    if eqb_ℤ (fl.mul amount_rsd (pos 150000)) (pos 0)
    then pure tt
    else try_update (
        add_tax (record {
          user_id = user_id;
          user_type = user_type;
          amount_rsd = fl.mul amount_rsd (pos 150000);
          month = month;
          year = year;
        }))

unfoldable pub tax_from : Float → ℕ → String → ℤ → ℕ → ℕ → ℕ → Action Store ⊤
tax_from fl user_id user_type taxable month year from = do
  amount_rsd ← attempt (convert_amount fl taxable from 1)
  row_cases amount_rsd (pure tt) (insert_tax fl user_id user_type month year)

-- recordOtcTax
unfoldable pub record_otc_tax : Float → ℕ → String → ℤ → String → ℕ → ℕ → Action Store ⊤
record_otc_tax fl user_id user_type taxable currency month year =
    if str_eq user_type "EMPLOYEE"
    then pure tt
    else row_cases (currency_id_map currency) (pure tt)
        (tax_from fl user_id user_type taxable month year)
