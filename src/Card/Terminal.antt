-- ===== src/Card/Terminal.antt =====
-- Sequences of the calls of services/card-service/handlers/grpc_server.go that write, each with
-- its own failing statements.
use exbanka_4_backend.Shared.Tests.{ℕ, Option, List, [], ◌∷◌, String}
use exbanka_4_backend.Shared.Int.{ℤ}
use exbanka_4_backend.Shared.Database.{Outages}
use exbanka_4_backend.Card.State.{Store, CreateRequest, Env}
use exbanka_4_backend.Card.Lifecycle.{block_card, unblock_card, deactivate_card, update_card_limit}
use exbanka_4_backend.Card.Creation.{create_card, initiate_card_request, confirm_card_request}
use exbanka_4_backend.Card.Deactivated.{
  IsDeactivated, block_card-Kept, unblock_card-Kept, deactivate_card-Kept, update_card_limit-Kept,
  create_card-Kept, initiate_card_request-Kept, confirm_card_request-Kept,
}

-- The calls of card-service that write.
pub data Call : Type 0 where
  block : List ℕ → String → ℕ → Call
  unblock deactivate : List ℕ → Call
  update_limit : List ℕ → ℤ → Call
  create : Env → CreateRequest → Call
  initiate : CreateRequest → String → Option String → ℕ → Call
  confirm : Env → String → String → Call

-- The store after a call whose statements fail as the outages say.
unfoldable pub step : Call → Outages → Store → Store
step (block m role caller) o s = (block_card m role caller s o).1
step (unblock m) o s = (unblock_card m s o).1
step (deactivate m) o s = (deactivate_card m s o).1
step (update_limit m x) o s = (update_card_limit m x s o).1
step (create env req) o s = (create_card env req s o).1
step (initiate req token code now) o s = (initiate_card_request req token code now s o).1
step (confirm env token code) o s = (confirm_card_request env token code s o).1

unfoldable pub run_calls : List (Call × Outages) → Store → Store
run_calls [] s = s
run_calls ((c, o) ∷ cs) s = run_calls cs (step c o s)

module _ (n : List ℕ) where
  step-IsDeactivated :
      (c : Call) (o : Outages) (s : Store) → IsDeactivated n s → IsDeactivated n (step c o s)
  unfolding step
  step-IsDeactivated (block m role caller) o s h = (block_card-Kept n m s h role caller).at o
  step-IsDeactivated (unblock m) o s h = (unblock_card-Kept n m s h).at o
  step-IsDeactivated (deactivate m) o s h = (deactivate_card-Kept n m s h).at o
  step-IsDeactivated (update_limit m x) o s h = (update_card_limit-Kept n m s h x).at o
  step-IsDeactivated (create env req) o s h = (create_card-Kept n env req s h).at o
  step-IsDeactivated (initiate req token code now) o s h =
      (initiate_card_request-Kept n s h req token code now).at o
  step-IsDeactivated (confirm env token code) o s h =
      (confirm_card_request-Kept n s h env token code).at o

  -- A card that is deactivated stays deactivated under its number, whatever calls of the
  -- card service follow, in whatever order, with whatever arguments, and whichever of their
  -- statements fail.
  pub run_calls-IsDeactivated :
      (cs : List (Call × Outages)) (s : Store)
      → IsDeactivated n s
      → IsDeactivated n (run_calls cs s)
  unfolding run_calls
  run_calls-IsDeactivated [] s h = h
  run_calls-IsDeactivated ((c, o) ∷ cs) s h =
      run_calls-IsDeactivated cs (step c o s) (step-IsDeactivated c o s h)
