-- ===== src/Otc/Parties.antt =====
-- What ExerciseContract of services/otc-service/handlers/grpc_server.go exercises: the shares, the
-- accounts and the amounts that its lookups find.
use exbanka_4_backend.Shared.Tests.{
  ℕ, ◌≡◌, refl, true, false, ◌==◌, str_eq, some, List, String, ◌⊎◌, inl, inr,
}
use exbanka_4_backend.Shared.Int.{ℤ}
use exbanka_4_backend.Shared.Table.{find_where}
use exbanka_4_backend.Shared.Float.{Float, of_int}
use exbanka_4_backend.Shared.Account.{Account, has_id}
use exbanka_4_backend.Shared.Database.{internal}
use exbanka_4_backend.Shared.Sparse.{Survives, Survives-pure, Survives-if}
use exbanka_4_backend.Shared.Branches.{Got, Survives-got, Survives-got_cases, Survives-row}
use exbanka_4_backend.Otc.State.{
  Contract, Listing, MiddleRate, Store, has_ticker, rate_has_code, currency_id_map,
  currency_code_map,
}
use exbanka_4_backend.Otc.Money.{
  is_active_of, is_active_in, find_account, get_account_currency_id, listing_id_for_ticker,
  get_rate, convert_between, convert_amount,
}
use exbanka_4_backend.Otc.Compensation.{Deal, Payee, seller_owner, buyer_owner, total_cost}
use exbanka_4_backend.Otc.Exercise.{Request, buyer_account_of, find_payee, other_payee}

-- The middle rate of a currency.
abbrev pub IsRate : List MiddleRate → String → ℤ → Type 0
IsRate rates code r =
    ((str_eq code "RSD" ≡ true) × (r ≡ of_int 1))
    ⊎ ((m : MiddleRate) × (find_where (rate_has_code code) rates ≡ some m) × (r ≡ m.middle_rate))

-- An amount in one currency, in another: by the two rates, if the currencies differ.
abbrev pub IsConversion : Float → List MiddleRate → ℤ → ℕ → ℕ → ℤ → Type 0
IsConversion fl rates x from to y =
    (((from == to) ≡ true) × (y ≡ x))
    ⊎ ((r : ℤ) × (q : ℤ) × IsRate rates (currency_code_map from) r
        × IsRate rates (currency_code_map to) q
        × (y ≡ fl.div (fl.mul x r) q))

-- The seller's account in the contract's currency is paid the price, or another active account of
-- the seller the converted price.
abbrev pub IsPayee : Float → Deal → List Account → List MiddleRate → Payee → Type 0
IsPayee fl d accounts rates p =
    ((a : Account) × (find_where (is_active_in (seller_owner d.contract) d.currency) accounts
        ≡ some a)
      × (p.account ≡ a.id)
      × (p.to_receive ≡ total_cost fl d.contract))
    ⊎ ((a : Account) × (find_where (is_active_of (seller_owner d.contract)) accounts ≡ some a)
        × (p.account ≡ a.id)
        × IsConversion fl rates (total_cost fl d.contract) d.currency a.currency_id p.to_receive)

-- The buyer's account: that of the request, or else its first one in the contract's currency.
abbrev pub IsPayer : Request → Contract → ℕ → List Account → ℕ → Type 0
IsPayer req c currency accounts i =
    (((req.buyer_account_id == 0) ≡ false) × (i ≡ req.buyer_account_id))
    ⊎ ((a : Account) × (find_where (is_active_in (buyer_owner c) currency) accounts ≡ some a)
        × (i ≡ a.id))

abbrev pub IsListed : Contract → Store → ℕ → Type 0
IsListed c s i = (l : Listing) × (find_where (has_ticker c.ticker) s.listings ≡ some l) × (i ≡ l.id)

-- The deal of a request for a contract.
abbrev pub IsDeal : Float → Request → Contract → Store → Deal → Type 0
IsDeal fl req c s d =
    (d.contract ≡ c)
    × IsListed c s d.listing
    × (currency_id_map c.currency ≡ some d.currency)
    × IsPayer req c d.currency s.accounts d.buyer_account
    × ((a : Account) × (find_where (has_id d.buyer_account) s.accounts ≡ some a)
        × IsConversion fl s.rates (total_cost fl c) d.currency a.currency_id d.to_pay)

module _ (s : Store) where
  pub listing_id_for_ticker-Got :
      (c : Contract) → Survives (Got (IsListed c s) s) (listing_id_for_ticker c.ticker) s
  unfolding listing_id_for_ticker
  listing_id_for_ticker-Got c =
      Survives-row _ internal _ (λ _. refl) (λ l found. Survives-pure l.id (refl, (l, found, refl)))

  pub find_account-Got :
      (owner currency : ℕ)
      → Survives
          (Got
            (λ i.
              (a : Account) × (find_where (is_active_in owner currency) s.accounts ≡ some a)
              × (i ≡ a.id))
            s)
          (find_account owner currency)
          s
  unfolding find_account
  find_account-Got owner currency =
      Survives-row _ internal _ (λ _. refl) (λ a found. Survives-pure a.id (refl, (a, found, refl)))

  pub get_account_currency_id-Got :
      (i : ℕ)
      → Survives
          (Got
            (λ c. (a : Account) × (find_where (has_id i) s.accounts ≡ some a) × (c ≡ a.currency_id))
            s)
          (get_account_currency_id i)
          s
  unfolding get_account_currency_id
  get_account_currency_id-Got i =
      Survives-row _ internal _ (λ _. refl)
        (λ a found. Survives-pure a.currency_id (refl, (a, found, refl)))

  get_rate-Got : (code : String) → Survives (Got (IsRate s.rates code) s) (get_rate code) s
  unfolding get_rate
  get_rate-Got code =
      Survives-if (str_eq code "RSD") _ _ (λ e. Survives-pure _ (refl, inl (e, refl)))
        (λ e.
          Survives-row _ internal _ (λ _. refl)
            (λ m found. Survives-pure _ (refl, inr (m, found, refl))))

  pub convert_amount-Got :
      (fl : Float) (x : ℤ) (from to : ℕ)
      → Survives (Got (IsConversion fl s.rates x from to) s) (convert_amount fl x from to) s
  unfolding convert_amount convert_between
  convert_amount-Got fl x from to =
      Survives-if (from == to) _ _ (λ e. Survives-pure _ (refl, inl (e, refl)))
        (λ e.
          Survives-got (IsRate s.rates (currency_code_map from)) _ _
            (get_rate-Got (currency_code_map from)) (λ c. refl)
            (λ r is_r.
              Survives-got (IsRate s.rates (currency_code_map to)) _ _
                (get_rate-Got (currency_code_map to)) (λ c. refl)
                (λ q is_q. Survives-pure _ (refl, inr (r, q, is_r, is_q, refl)))))

  pub buyer_account_of-Got :
      (req : Request) (c : Contract) (currency : ℕ)
      → Survives (Got (IsPayer req c currency s.accounts) s) (buyer_account_of req c currency) s
  unfolding buyer_account_of find_account
  buyer_account_of-Got req c currency =
      Survives-if (req.buyer_account_id == 0) _ _
        (λ e.
          Survives-row _ internal _ (λ _. refl)
            (λ a found. Survives-pure a.id (refl, inr (a, found, refl))))
        (λ e. Survives-pure _ (refl, inl (e, refl)))

  pub find_payee-Got :
      (fl : Float) (d : Deal)
      → Survives (Got (IsPayee fl d s.accounts s.rates) s) (find_payee fl d) s
  unfolding find_payee other_payee
  find_payee-Got fl d =
      Survives-got_cases
        (λ i.
          (a : Account) × (find_where (is_active_in (seller_owner d.contract) d.currency) s.accounts
            ≡ some a)
          × (i ≡ a.id))
        _ _ _ (find_account-Got (seller_owner d.contract) d.currency)
        (Survives-row _ internal _ (λ _. refl)
          (λ a found.
            Survives-got
              (IsConversion fl s.rates (total_cost fl d.contract) d.currency a.currency_id) _ _
              (convert_amount-Got fl (total_cost fl d.contract) d.currency a.currency_id)
              (λ c. refl) (λ y is_y. Survives-pure _ (refl, inr (a, found, refl, is_y)))))
        (λ i (a, found, e). Survives-pure _ (refl, inl (a, found, e, refl)))
