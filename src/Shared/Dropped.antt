-- ===== src/Shared/Dropped.antt =====
-- Postconditions of handlers that drop the error of a statement, in every run.
use exbanka_4_backend.Shared.Tests.{Bool, true, false}
use exbanka_4_backend.Shared.Database.{Result, ok, Action, Outages, ⊤, fails, later, ◌>>◌, db}
use exbanka_4_backend.Shared.Ensures.{Ensures}
use exbanka_4_backend.Shared.Sparse.{try_update, reply_tried}

module _ {S : Type 0} {s : S} where
  pub Ensures-try_update :
      {A : Type 0} {P : Result A → S → Type 0} (f : S → S) (k : Action S A)
      → Ensures P k s
      → Ensures P k (f s)
      → Ensures P (try_update f >> k) s
  unfolding db try_update
  Ensures-try_update {A} {P} f k down up = record { at = λ o. after (fails o) (later o) }
    where
      after :
          (b : Bool) (o : Outages)
          → let r = (◌>>◌ (λ _ (_ : Outages). reply_tried b s (f s) o) k s o) in P r.0 r.1
      after true o = down.at o
      after false o = up.at o

  pub Ensures-tried_update :
      {P : Result ⊤ → S → Type 0} (f : S → S)
      → P (ok tt) s
      → P (ok tt) (f s)
      → Ensures P (try_update f) s
  unfolding try_update
  Ensures-tried_update {P} f down up = record { at = λ o. after (fails o) (later o) }
    where
      after : (b : Bool) (o : Outages) → P (reply_tried b s (f s) o).0 (reply_tried b s (f s) o).1
      after true o = down
      after false o = up

-- A weaker postcondition.
pub Ensures-weaken :
    {S A : Type 0} {P Q : Result A → S → Type 0} {s : S} (m : Action S A)
    → ((r : Result A) (s' : S) → Q r s' → P r s')
    → Ensures Q m s
    → Ensures P m s
Ensures-weaken {s} m weaker h = record { at = λ o. weaker (m s o).0 (m s o).1 (h.at o) }
