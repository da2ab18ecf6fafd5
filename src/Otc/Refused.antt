-- ===== src/Otc/Refused.antt =====
-- The checks of ExerciseContract of services/otc-service/handlers/grpc_server.go before its first step.
use exbanka_4_backend.Shared.Tests.{
  ℕ, ◌+◌, ◌≡◌, refl, true, false, not, ltb, Option, some, str_eq, ◌⊎◌, inl, inr,
}
use exbanka_4_backend.Shared.Table.{find_where}
use exbanka_4_backend.Shared.Float.{Float}
use exbanka_4_backend.Shared.Database.{
  Action, Outages, Result, ok, err, internal, not_found, permission_denied, invalid_argument,
}
use exbanka_4_backend.Shared.Ensures.{
  Ensures, Ensures-try, Ensures-found, Ensures-select, Ensures-selected, Ensures-query,
  Ensures-throw_if,
}
use exbanka_4_backend.Otc.State.{Contract, Saga, Store, contract_has_id, is_saga_of}
use exbanka_4_backend.Otc.Exercise.{Request, Clock, is_buyer, exercise_active, exercise}

-- Neither an answer nor a change.
abbrev pub IsRefused : Store → Result ℕ → Store → Type 0
IsRefused s (ok i) s' = ⊥
IsRefused s (err c) s' = s' ≡ s

-- The caller is not the contract's buyer, or the contract is not active, or it is too late.
abbrev pub IsBarred : Clock → Request → Contract → Type 0
IsBarred clock req c =
    (is_buyer req c ≡ false)
    ⊎ ((str_eq c.status "ACTIVE" ≡ false) ⊎ (ltb (c.settlement_date + 86400) clock.now ≡ true))

module _ (cross_bank : Request → Contract → Action Store ℕ) (fl : Float) (clock : Clock)
    (req : Request) (s : Store) where
  active-IsRefused :
      ((c : Contract)
        → find_where (contract_has_id req.contract_id) s.contracts ≡ some c
        → IsBarred clock req c)
      → Ensures (IsRefused s) (exercise_active cross_bank fl clock req) s
  unfolding exercise_active
  active-IsRefused barred =
      Ensures-query (λ s'. tt) _ refl
        (Ensures-select _ not_found _ refl (λ e. refl)
          (λ c found.
            Ensures-throw_if (not (is_buyer req c)) permission_denied _ (λ e. refl)
              (λ is_buyer.
                Ensures-throw_if (not (str_eq c.status "ACTIVE")) invalid_argument _ (λ e. refl)
                  (λ is_active.
                    Ensures-throw_if (ltb (c.settlement_date + 86400) clock.now) invalid_argument _
                      (λ e. refl)
                      (λ is_early. elim (barred c found) [
                        | inl e ↦ absurd (cc (rw e at is_buyer))
                        | inr (inl e) ↦ absurd (cc (rw e at is_active))
                        | inr (inr e) ↦ absurd (cc (e, is_early))
                      ])))))

  -- What the lookup of the saga says.
  abbrev SagaRead : Option Saga → Store → Type 0
  SagaRead x s' =
      (s' ≡ s)
      × ((g : Saga) → x ≡ some g → find_where (is_saga_of req.contract_id) s.sagas ≡ some g)

  exercise-Ensures :
      ((g : Saga)
        → find_where (is_saga_of req.contract_id) s.sagas ≡ some g
        → str_eq g.status "Completed" ≡ false)
      → ((c : Contract)
          → find_where (contract_has_id req.contract_id) s.contracts ≡ some c
          → IsBarred clock req c)
      → Ensures (IsRefused s) (exercise cross_bank fl clock req) s
  unfolding exercise
  exercise-Ensures unfinished barred =
      Ensures-try SagaRead _ _
        (Ensures-selected _ internal (refl, λ g e. cc) (λ e. (refl, λ g k. cc))
          (λ g e. (refl, λ h k. cc)))
        (λ x s' (same, read). rw same (
          Ensures-found x _ _ (λ e. active-IsRefused barred)
            (λ g e. rw (unfinished g (read g e)) (active-IsRefused barred))))

-- Nobody but the buyer exercises a contract, and not once it is over: if the caller is not the
-- contract's buyer, or the contract is not ACTIVE, or its settlement date is more than a day past, the
-- call answers an error and changes nothing, whichever statements fail, unless the contract's saga is
-- already completed.
pub exercise-IsRefused :
    (cross_bank : Request → Contract → Action Store ℕ) (fl : Float) (clock : Clock) (req : Request)
    (s : Store) (o : Outages)
    → ((g : Saga)
        → find_where (is_saga_of req.contract_id) s.sagas ≡ some g
        → str_eq g.status "Completed" ≡ false)
    → ((c : Contract)
        → find_where (contract_has_id req.contract_id) s.contracts ≡ some c
        → IsBarred clock req c)
    → let (r, s', _) = exercise cross_bank fl clock req s o in IsRefused s r s'
exercise-IsRefused cross_bank fl clock req s o unfinished barred =
    (exercise-Ensures cross_bank fl clock req s unfinished barred).at o
