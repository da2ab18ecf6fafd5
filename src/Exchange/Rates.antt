-- ===== src/Exchange/Rates.antt =====
-- ensureTodayRates and fetchAndStoreRates of services/exchange-service/handlers/grpc_server.go. The
-- table of rates is the part of today; `feed` is what fetchRatesFromAPI returns. A rate is in
-- millionths, which are the digits that the table keeps.
use exbanka_4_backend.Shared.Tests.{
  ℕ, ltb, Bool, Option, none, some, List, [], ◌∷◌, String, str_eq, if◌then◌else◌,
}
use exbanka_4_backend.Shared.Lists.{length}
use exbanka_4_backend.Shared.Int.{ℤ, pos, ◌+ℤ◌, ◌-ℤ◌, eqb_ℤ}
use exbanka_4_backend.Shared.Float.{Float, of_int}
use exbanka_4_backend.Shared.Table.{find_where}
use exbanka_4_backend.Shared.Account.{Account, Currency}
use exbanka_4_backend.Shared.Database.{Action, ⊤, pure, query, update, ◌>>=◌, ◌>>◌}

pub record Rate : Type 0 where
  pub currency_code : String
  pub buying_rate : ℤ
  pub selling_rate : ℤ
  pub middle_rate : ℤ

pub record Exchange : Type 0 where
  pub id : ℕ
  pub client_id : ℕ
  pub from_account : String
  pub to_account : String
  pub from_currency : String
  pub to_currency : String
  pub from_amount : ℤ
  pub to_amount : ℤ
  pub rate : ℤ
  pub commission : ℤ

pub record Store : Type 0 where
  pub accounts : List Account
  pub currencies : List Currency
  pub rates : List Rate
  pub exchanges : List Exchange
  pub next_id : ℕ

-- `spread / 2`, a constant of Go, and `commission`
abbrev half_spread : ℤ
half_spread = pos 10000

abbrev pub commission : ℤ
commission = pos 5000

abbrev pub fallback_rates : List (String × ℤ)
fallback_rates =
    ("EUR", pos 8547)
    ∷ ("CHF", pos 8621)
    ∷ ("USD", pos 9259)
    ∷ ("GBP", pos 7353)
    ∷ ("JPY", pos 1380000)
    ∷ ("CAD", pos 12500)
    ∷ ("AUD", pos 14286)
    ∷ []

abbrev pub is_rate_of : String → Rate → Bool
is_rate_of code r = str_eq r.currency_code code

abbrev has_code : String → String × ℤ → Bool
has_code code r = str_eq r.0 code

-- The rate of the service, or the fallback rate where that is missing or 0.
unfoldable pub raw_rate : String → List (String × ℤ) → Option (String × ℤ)
raw_rate code rates = elim (find_where (has_code code) rates) [
  | none ↦ find_where (has_code code) fallback_rates
  | some r ↦ if eqb_ℤ r.1 (pos 0) then find_where (has_code code) fallback_rates else some r
]

unfoldable pub new_rate : Float → String → ℤ → Rate
new_rate fl code raw =
    let middle = fl.div (of_int 1) raw in
    record {
      currency_code = code;
      buying_rate = fl.mul middle (of_int 1 -ℤ half_spread);
      selling_rate = fl.mul middle (of_int 1 +ℤ half_spread);
      middle_rate = middle;
    }

-- `INSERT … ON CONFLICT (currency_code, date) DO NOTHING`
unfoldable pub insert_rate : Rate → Store → Store
insert_rate r s = elim (find_where (is_rate_of r.currency_code) s.rates) [
  | none ↦ record s { rates = r ∷ s.rates }
  | some old ↦ s
]

unfoldable pub store_rate : Float → String → Option (String × ℤ) → Action Store ⊤
store_rate fl code none = pure tt
store_rate fl code (some raw) = update (insert_rate (new_rate fl code raw.1))

unfoldable pub store_rates : Float → List (String × ℤ) → List String → Action Store ⊤
store_rates fl raw [] = pure tt
store_rates fl raw (code ∷ codes) = do
  store_rate fl code (raw_rate code raw)
  store_rates fl raw codes

abbrev pub foreign_codes : List String
foreign_codes = "EUR" ∷ "CHF" ∷ "USD" ∷ "GBP" ∷ "JPY" ∷ "CAD" ∷ "AUD" ∷ []

abbrev pub rates_or_fallback : Option (List (String × ℤ)) → List (String × ℤ)
rates_or_fallback none = fallback_rates
rates_or_fallback (some rates) = rates

-- fetchAndStoreRates
unfoldable pub fetch_and_store_rates : Float → Option (List (String × ℤ)) → Action Store ⊤
fetch_and_store_rates fl feed = store_rates fl (rates_or_fallback feed) foreign_codes

-- ensureTodayRates
unfoldable pub ensure_today_rates : Float → Option (List (String × ℤ)) → Action Store ⊤
ensure_today_rates fl feed = do
  count ← query (λ s. length s.rates)
  if ltb 0 count then pure tt else fetch_and_store_rates fl feed
