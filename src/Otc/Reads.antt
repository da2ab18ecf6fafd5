-- ===== src/Otc/Reads.antt =====
-- What ExerciseContract of services/otc-service/handlers/grpc_server.go only reads, and its tax
-- record, which touches neither accounts nor portfolios.
use exbanka_4_backend.Shared.Tests.{ℕ, String, List, Bool}
use exbanka_4_backend.Shared.Int.{ℤ}
use exbanka_4_backend.Shared.Float.{Float}
use exbanka_4_backend.Shared.Database.{pure}
use exbanka_4_backend.Shared.Account.{Account}
use exbanka_4_backend.Shared.Sparse.{Survives, Reached, Survives-pure, try_update}
use exbanka_4_backend.Shared.Branches.{
  Reads, reads_rules, Survives-read_cases, survives_rules, try_update-Reached,
}
use exbanka_4_backend.Otc.State.{MiddleRate, Contract, Listing, Store, Entry, TaxRecord}
use exbanka_4_backend.Otc.Money.{
  find_account, get_account_currency_id, listing_id_for_ticker, get_rate, convert_between,
  convert_amount, insert_tax, tax_from, record_otc_tax, add_tax,
}
use exbanka_4_backend.Otc.Compensation.{Deal}
use exbanka_4_backend.Otc.Exercise.{
  Request, Clock, buyer_account_of, other_payee, find_payee, tax_on_price, tax_profit,
}

pub convert_amount-Reads : (fl : Float) (x : ℤ) (from to : ℕ) → Reads (convert_amount fl x from to)
unfolding convert_amount convert_between get_rate
convert_amount-Reads fl x from to = search (reads_rules) depth 12

pub find_account-Reads : (owner currency : ℕ) → Reads (find_account owner currency)
unfolding find_account
find_account-Reads owner currency = search (reads_rules) depth 6

pub get_account_currency_id-Reads : (i : ℕ) → Reads (get_account_currency_id i)
unfolding get_account_currency_id
get_account_currency_id-Reads i = search (reads_rules) depth 6

pub listing_id_for_ticker-Reads : (t : String) → Reads (listing_id_for_ticker t)
unfolding listing_id_for_ticker
listing_id_for_ticker-Reads t = search (reads_rules) depth 6

pub buyer_account_of-Reads :
    (req : Request) (c : Contract) (currency : ℕ) → Reads (buyer_account_of req c currency)
unfolding buyer_account_of
buyer_account_of-Reads req c currency = search (reads_rules, find_account-Reads) depth 6

pub find_payee-Reads : (fl : Float) (d : Deal) → Reads (find_payee fl d)
unfolding find_payee other_payee
find_payee-Reads fl d = search (reads_rules, find_account-Reads, convert_amount-Reads) depth 10

-- A predicate on the accounts, the portfolios and the rates.
module _ (I : List Account → List Entry → List MiddleRate → Type 0) where
  abbrev Held : Store → Type 0
  Held s = I s.accounts s.entries s.rates

  add_tax-Reached :
      (t : TaxRecord) (s : Store) → Held s → Survives (Reached Held) (try_update (add_tax t)) s
  unfolding add_tax
  add_tax-Reached t s h = try_update-Reached Held (add_tax t) h h

  insert_tax-Reached :
      (fl : Float) (i : ℕ) (t : String) (month year : ℕ) (x : ℤ) (s : Store)
      → Held s
      → Survives (Reached Held) (insert_tax fl i t month year x) s
  unfolding insert_tax
  insert_tax-Reached fl i t month year x s h = search (survives_rules, add_tax-Reached, h) depth 6

  tax_from-Reached :
      (fl : Float) (i : ℕ) (t : String) (x : ℤ) (month year from : ℕ) (s : Store)
      → Held s
      → Survives (Reached Held) (tax_from fl i t x month year from) s
  unfolding tax_from
  tax_from-Reached fl i t x month year from s h =
      Survives-read_cases (pure tt) (convert_amount fl x from 1) (insert_tax fl i t month year)
        ((convert_amount-Reads fl x from 1).at s) (Survives-pure tt h)
        (λ y. insert_tax-Reached fl i t month year y s h)

  record_otc_tax-Reached :
      (fl : Float) (i : ℕ) (t : String) (x : ℤ) (currency : String) (month year : ℕ) (s : Store)
      → Held s
      → Survives (Reached Held) (record_otc_tax fl i t x currency month year) s
  unfolding record_otc_tax
  record_otc_tax-Reached fl i t x currency month year s h =
      search (survives_rules, tax_from-Reached, h) depth 6

  tax_on_price-Reached :
      (fl : Float) (clock : Clock) (c : Contract) (l : Listing) (s : Store)
      → Held s
      → Survives (Reached Held) (tax_on_price fl clock c l) s
  unfolding tax_on_price
  tax_on_price-Reached fl clock c l s h = search (survives_rules, record_otc_tax-Reached, h) depth 6

  pub tax_profit-Reached :
      (fl : Float) (clock : Clock) (c : Contract) (p : Listing → Bool) (s : Store)
      → Held s
      → Survives (Reached Held) (tax_profit fl clock c p) s
  unfolding tax_profit
  tax_profit-Reached fl clock c p s h = search (survives_rules, tax_on_price-Reached, h) depth 6
