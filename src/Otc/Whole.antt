-- ===== src/Otc/Whole.antt =====
-- ExerciseContract of services/otc-service/handlers/grpc_server.go, as a whole, by the stages of Otc/Stages.
use exbanka_4_backend.Shared.Tests.{
  ℕ, ◌≡◌, refl, false, str_eq, ltb, ◌+◌, not, if◌then◌else◌, some, arith,
}
use exbanka_4_backend.Shared.Int.{ℤ}
use exbanka_4_backend.Shared.Table.{find_where}
use exbanka_4_backend.Shared.Float.{Float}
use exbanka_4_backend.Shared.Account.{Account, has_id}
use exbanka_4_backend.Shared.Database.{
  internal, invalid_argument, Action, query, insert_returning, attempt, throw_if, ◌>>=◌, ◌>>◌,
  not_found, permission_denied,
}
use exbanka_4_backend.Shared.Sparse.{
  Survives, Survives-bind, Survives-attempt, Survives-insert_returning, Survives-read,
  Survives-throw_if, Survives-or_throw,
}
use exbanka_4_backend.Shared.Branches.{Survives-select_cases, Survives-got, Survives-row}
use exbanka_4_backend.Otc.State.{
  Contract, Saga, Store, contract_has_id, is_saga_of, currency_id_map,
}
use exbanka_4_backend.Otc.Statements.{insert_saga}
use exbanka_4_backend.Otc.Compensation.{Deal, Payee, total_cost}
use exbanka_4_backend.Otc.Exercise.{
  Request, Clock, step1, run_saga, exercise_active, exercise, saga_id, is_buyer,
  cross_bank_exercise,
}
use exbanka_4_backend.Otc.Parties.{
  IsDeal, IsPayee, IsListed, IsPayer, IsConversion, listing_id_for_ticker-Got, buyer_account_of-Got,
  get_account_currency_id-Got, convert_amount-Got,
}
use exbanka_4_backend.Otc.Stages.{Stages, held}
use exbanka_4_backend.Otc.Runs.{step1-Outcome}
use exbanka_4_backend.Otc.Undo.{Outcome}

-- A contract within the bank, whose saga, if there is one, is not completed.
abbrev pub IsOpen : Request → Store → Type 0
IsOpen req s =
    ((c : Contract)
      → find_where (contract_has_id req.contract_id) s.contracts ≡ some c
      → str_eq c.seller_type "INTERBANK" ≡ false)
    × ((g : Saga)
        → find_where (is_saga_of req.contract_id) s.sagas ≡ some g
        → str_eq g.status "Completed" ≡ false)

abbrev IsCurrencyOf : Store → ℕ → ℕ → Type 0
IsCurrencyOf s account i =
    (a : Account) × (find_where (has_id account) s.accounts ≡ some a) × (i ≡ a.currency_id)

abbrev deal_of : Contract → ℕ → ℕ → ℕ → ℤ → ℕ → Deal
deal_of c listing currency account to_pay i = record {
  contract = c;
  listing = listing;
  currency = currency;
  buyer_account = account;
  to_pay = to_pay;
  saga = i;
}

module _ (L : Stages) (cross_bank : Request → Contract → Action Store ℕ) (fl : Float)
    (clock : Clock) (req : Request)
    (owes : (d : Deal) (p : Payee) (s : Store)
      → L.At d held s.accounts s.entries s.rates
      → IsPayee fl d s.accounts s.rates p
      → L.Owed d p) where
  insert_saga-Start :
      (i : ℕ) (s : Store)
      → L.Start s.accounts s.entries s.rates
      → Survives
          (λ _ s'. L.Start s'.accounts s'.entries s'.rates)
          (insert_returning (insert_saga i))
          s
  unfolding insert_saga
  insert_saga-Start i s h =
      Survives-insert_returning (insert_saga i) h (λ a s' e. ground (arith, e, h))

  run_saga-Outcome :
      (c : Contract) (s : Store)
      → ((d : Deal) → IsDeal fl req c s d → L.Fits d)
      → L.Start s.accounts s.entries s.rates
      → Survives (Outcome L) (run_saga fl clock req c) s
  unfolding run_saga
  run_saga-Outcome c s fits h =
      Survives-got (IsListed c s) _ _ (listing_id_for_ticker-Got s c) (λ _. L.unchanged s h)
        (λ listing listed.
          Survives-or_throw (currency_id_map c.currency) invalid_argument _ (λ _. L.unchanged s h)
            (λ currency found.
              Survives-got (IsPayer req c currency s.accounts) _ _
                (buyer_account_of-Got s req c currency) (λ _. L.unchanged s h)
                (λ account payer.
                  Survives-got (IsCurrencyOf s account) _ _ (get_account_currency_id-Got s account)
                    (λ _. L.unchanged s h)
                    (λ account_currency (a, is_a, same).
                      Survives-got
                        (IsConversion fl s.rates (total_cost fl c) currency account_currency) _ _
                        (convert_amount-Got s fl (total_cost fl c) currency account_currency)
                        (λ _. L.unchanged s h)
                        (λ to_pay converted. begun listing currency account to_pay (λ i.
                          fits _ (refl, listed, found, payer, (a, is_a, rw same at converted))))))))
    where
      begun :
          (listing currency account : ℕ) (to_pay : ℤ)
          → ((i : ℕ) → L.Fits (deal_of c listing currency account to_pay i))
          → Survives
              (Outcome L)
              (do
                saga ← attempt (insert_returning (insert_saga c.id))
                step1 fl clock (deal_of c listing currency account to_pay (saga_id saga)))
              s
      begun listing currency account to_pay fit =
          Survives-attempt (λ _ s'. L.Start s'.accounts s'.entries s'.rates)
            (insert_returning (insert_saga c.id)) _ (insert_saga-Start c.id s h)
            (λ _ s' h'. step1-Outcome L fl clock _ (owes _) s' (L.from_start _ s' (fit _) h'))
            (λ i s' h'. step1-Outcome L fl clock _ (owes _) s' (L.from_start _ s' (fit _) h'))

  exercise_active-Outcome :
      (s : Store)
      → IsOpen req s
      → ((c : Contract)
          → find_where (contract_has_id req.contract_id) s.contracts ≡ some c
          → (d : Deal) → IsDeal fl req c s d
          → L.Fits d)
      → L.Start s.accounts s.entries s.rates
      → Survives (Outcome L) (exercise_active cross_bank fl clock req) s
  unfolding exercise_active
  exercise_active-Outcome s (within, unfinished) fits h =
      Survives-bind (λ _ s'. s' ≡ s) (query (λ s'. tt)) _ (Survives-read (λ s'. tt) refl refl)
        (λ c s' e. rw e (L.unchanged s h))
        (λ _ s' e.
          rw e (Survives-row _ not_found _ (λ _. L.unchanged s h) (λ c found. guarded c found)))
    where
      guarded :
          (c : Contract)
          → find_where (contract_has_id req.contract_id) s.contracts ≡ some c
          → Survives
              (Outcome L)
              (do
                throw_if (not (is_buyer req c)) permission_denied
                throw_if (not (str_eq c.status "ACTIVE")) invalid_argument
                throw_if (ltb (c.settlement_date + 86400) clock.now) invalid_argument
                if str_eq c.seller_type "INTERBANK"
                    then cross_bank_exercise cross_bank fl clock req c
                    else run_saga fl clock req c)
              s
      guarded c found =
          Survives-throw_if _ _ _ (λ _. L.unchanged s h)
            (λ _.
              Survives-throw_if _ _ _ (λ _. L.unchanged s h)
                (λ _.
                  Survives-throw_if _ _ _ (λ _. L.unchanged s h)
                    (λ _. rw (within c found) (run_saga-Outcome c s (fits c found) h))))

  pub exercise-Outcome :
      (s : Store)
      → IsOpen req s
      → ((c : Contract)
          → find_where (contract_has_id req.contract_id) s.contracts ≡ some c
          → (d : Deal) → IsDeal fl req c s d
          → L.Fits d)
      → L.Start s.accounts s.entries s.rates
      → Survives (Outcome L) (exercise cross_bank fl clock req) s
  unfolding exercise
  exercise-Outcome s is_open fits h =
      Survives-select_cases _ _ internal _ (exercise_active-Outcome s is_open fits h)
        (λ g found. rw (is_open.1 g found) (exercise_active-Outcome s is_open fits h))
