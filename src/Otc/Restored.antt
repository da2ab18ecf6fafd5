-- ===== src/Otc/Restored.antt =====
-- The shares of every portfolio after a run of ExerciseContract of
-- services/otc-service/handlers/grpc_server.go.
use exbanka_4_backend.Shared.Tests.{ℕ, ◌≡◌, refl, List, some}
use exbanka_4_backend.Shared.Table.{find_where}
use exbanka_4_backend.Shared.Float.{Float}
use exbanka_4_backend.Shared.Database.{Action, Outages, Result, ok, err, ⊤}
use exbanka_4_backend.Shared.Sparse.{IsSparse}
use exbanka_4_backend.Otc.State.{Contract, Entry, Store, contract_has_id}
use exbanka_4_backend.Otc.Compensation.{Deal}
use exbanka_4_backend.Otc.Exercise.{Request, Clock, exercise}
use exbanka_4_backend.Otc.Parties.{IsDeal}
use exbanka_4_backend.Otc.Undo.{Outcome}
use exbanka_4_backend.Otc.Whole.{IsOpen, exercise-Outcome}
use exbanka_4_backend.Otc.Portfolios.{IsFitDeal, SameShares, holdings}

-- What an error leaves of the portfolios.
abbrev pub IsRestored : List Entry → Result ℕ → Store → Type 0
IsRestored start (ok i) s = ⊤
IsRestored start (err c) s = SameShares start s.entries

-- An exercise of a contract within the bank that answers an error leaves every portfolio with the
-- shares that it had, of which as many are reserved, and at most one row without shares more, in
-- every run in which no three statements in a row fail: where the contract's saga is not completed
-- yet, and the seller has at most one row for the listing of the contract's ticker, has more shares
-- of it than the contract is for, reserves no negative number, and does not share its portfolio
-- with the buyer, whose row for that listing, if there is one, has some shares.
pub exercise-IsRestored :
    (cross_bank : Request → Contract → Action Store ℕ) (fl : Float) (clock : Clock) (req : Request)
    (s : Store) (o : Outages)
    → IsOpen req s
    → ((c : Contract)
        → find_where (contract_has_id req.contract_id) s.contracts ≡ some c
        → (d : Deal) → IsDeal fl req c s d
        → IsFitDeal s.entries d)
    → IsSparse o
    → let (r, s', _) = exercise cross_bank fl clock req s o in IsRestored s.entries r s'
unfolding holdings
exercise-IsRestored cross_bank fl clock req s o is_open fits sparse =
    let run =
      exercise-Outcome (holdings s.entries) cross_bank fl clock req (λ d p s' h is_p. tt) s is_open
        fits refl in
    at_end (exercise cross_bank fl clock req s o).0 (exercise cross_bank fl clock req s o).1
      ((run.at o sparse).0)
  where
    at_end :
        (r : Result ℕ) (s' : Store) → Outcome (holdings s.entries) r s' → IsRestored s.entries r s'
    at_end (ok i) s' h = tt
    at_end (err c) s' h = h
