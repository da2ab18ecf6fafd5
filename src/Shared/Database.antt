-- ===== src/Shared/Database.antt =====
-- A gRPC handler as a state-passing function. The state `S` is what the handler's databases hold.
-- Every statement may fail on its own (a lost connection, a timeout): a list of outages says which
-- statements fail, in the order in which they are sent. A failed statement changes no row, and the
-- statements before it stay applied.
use exbanka_4_backend.Shared.Tests.{
  Bool, true, false, Option, none, some, List, [], ◌∷◌, if◌then◌else◌,
}

-- The codes of google.golang.org/grpc/codes that the handlers return.
pub data Code : Type 0 where
  invalid_argument not_found permission_denied failed_precondition : Code
  resource_exhausted internal : Code
  -- No code of gRPC: the call has not returned within the random draws that it was given.
  unanswered : Code

pub data Result {ℓ} (A : Type ℓ) : Type ℓ where
  ok : A → Result A
  err : Code → Result A

abbrev pub ⊤ : Type 0
⊤ = Unit

abbrev pub Outages : Type 0
Outages = List Bool

abbrev pub Action : Type 0 → Type 0 → Type 0
Action S A = S → Outages → Result A × S × Outages

-- Whether the next statement fails, and the outages after it.
unfoldable pub fails : Outages → Bool
fails [] = false
fails (b ∷ o) = b

unfoldable pub later : Outages → Outages
later [] = []
later (b ∷ o) = o

module _ {S A : Type 0} where
  unfoldable pub pure : A → Action S A
  pure a s o = (ok a, s, o)

  unfoldable pub throw : Code → Action S A
  throw c s o = (err c, s, o)

  -- A statement that fails or not, with its result and the states before and after it.
  abbrev pub reply : Bool → A → S → S → Outages → Result A × S × Outages
  reply true a s s' o = (err internal, s, o)
  reply false a s s' o = (ok a, s', o)

  -- A SELECT: reads the state.
  unfoldable pub query : (S → A) → Action S A
  query f s o = reply (fails o) (f s) s s (later o)

  -- A statement that writes, and returns what `RETURNING` or `RowsAffected` reports.
  unfoldable pub exec : (S → A × S) → Action S A
  exec f s o = reply (fails o) (f s).0 s (f s).1 (later o)

  -- An INSERT … RETURNING that a UNIQUE constraint may refuse.
  abbrev pub reply_inserted : Bool → Option (A × S) → S → Outages → Result A × S × Outages
  reply_inserted true x s o = (err internal, s, o)
  reply_inserted false none s o = (err internal, s, o)
  reply_inserted false (some (a, s')) s o = (ok a, s', o)

  unfoldable pub insert_returning : (S → Option (A × S)) → Action S A
  insert_returning f s o = reply_inserted (fails o) (f s) s (later o)

  -- `QueryRow`, with the code that is returned for `sql.ErrNoRows`.
  abbrev pub reply_found : Bool → Option A → Code → S → Outages → Result A × S × Outages
  reply_found true x c s o = (err internal, s, o)
  reply_found false none c s o = (err c, s, o)
  reply_found false (some a) c s o = (ok a, s, o)

  unfoldable pub select_row : (S → Option A) → Code → Action S A
  select_row f c s o = reply_found (fails o) (f s) c s (later o)

  -- A row that must be there, as after `sql.ErrNoRows`.
  unfoldable pub or_throw : Option A → Code → Action S A
  or_throw none c = throw c
  or_throw (some a) c = pure a

  -- A branch on a row that was not or was found: `if err == sql.ErrNoRows { m } else { k row }`.
  unfoldable pub row_cases : {B : Type 0} → Option B → Action S A → (B → Action S A) → Action S A
  row_cases none m k = m
  row_cases (some b) m k = k b

  -- The handler goes on whether or not the call fails.
  unfoldable pub attempt : Action S A → Action S (Option A)
  attempt m s o =
      let (r, s', o') = m s o in (elim r [ ok a ↦ ok (some a) | err c ↦ ok none ], s', o')

infixl 5 ◌>>=◌ ◌>>◌
unfoldable pub ◌>>=◌ : {S A B : Type 0} → Action S A → (A → Action S B) → Action S B
◌>>=◌ m f s o = let (r, s', o') = m s o in elim r [ ok a ↦ f a s' o' | err c ↦ (err c, s', o') ]

abbrev pub ◌>>◌ : {S A B : Type 0} → Action S A → Action S B → Action S B
m >> k = m >>= λ _. k

module _ {S : Type 0} where
  -- A statement that the database may refuse, as for a UNIQUE constraint.
  abbrev pub reply_row : Bool → Option S → S → Outages → Result ⊤ × S × Outages
  reply_row true x s o = (err internal, s, o)
  reply_row false none s o = (err internal, s, o)
  reply_row false (some s') s o = (ok tt, s', o)

  unfoldable pub insert : (S → Option S) → Action S ⊤
  insert f s o = reply_row (fails o) (f s) s (later o)

  abbrev pub update : (S → S) → Action S ⊤
  update f = exec (λ s. (tt, f s))

  unfoldable pub throw_if : Bool → Code → Action S ⊤
  throw_if b c s o = (elim b [ true ↦ err c | false ↦ ok tt ], s, o)

-- What a transaction that was begun leaves: an error rolls it back, and its commit may fail.
abbrev pub settled_tx : {S A : Type 0} → S → Result A × S × Outages → Result A × S × Outages
settled_tx s (err c, s', o) = (err c, s, o)
settled_tx s (ok a, s', o) = reply (fails o) a s s' (later o)

-- BeginTx, the statements of the transaction, and Commit or the deferred Rollback.
unfoldable pub transaction : {S A : Type 0} → Action S A → Action S A
transaction m s o = if fails o then (err internal, s, later o) else settled_tx s (m s (later o))

-- The handlers' statements, opened together.
unfoldable pub db : ⊤
unfolding pure throw query exec insert_returning select_row insert or_throw throw_if row_cases
    attempt transaction ◌>>=◌
db = tt
