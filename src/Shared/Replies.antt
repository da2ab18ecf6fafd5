-- ===== src/Shared/Replies.antt =====
-- The postcondition of a handler, and what it says of the answer of one statement and of the rest.
use exbanka_4_backend.Shared.Tests.{
  ◌≡◌, refl, Bool, true, false, Option, none, some, [], if◌then◌else◌,
}
use exbanka_4_backend.Shared.Database.{
  Code, Result, ok, err, internal, Action, Outages, ⊤, fails, later, reply_found, reply_inserted,
  attempt, reply, reply_row, settled_tx, ◌>>=◌, db,
}

-- In every run of `m` from `s` the answer and the state left satisfy `P`.
pub record Ensures {S A : Type 0} (P : Result A → S → Type 0) (m : Action S A) (s : S)
    : Type 0 where
  pub at : (o : Outages) → P (m s o).0 (m s o).1

module _ {S A : Type 0} (P : Result A → S → Type 0) (s : S) where
  -- The rest of a handler after a statement.
  pub after_reply :
      {B : Type 0} (b : Bool) (a : B) (s' : S) (k : B → Action S A) (o : Outages)
      → P (err internal) s
      → Ensures P (k a) s'
      → let r = ◌>>=◌ (λ _ (_ : Outages). reply b a s s' o) k s o in P r.0 r.1
  unfolding db
  after_reply true a s' k o down up = down
  after_reply false a s' k o down up = up.at o

  pub last_reply :
      (b : Bool) (a : A) (s' : S) (o : Outages)
      → P (err internal) s
      → P (ok a) s'
      → P (reply b a s s' o).0 (reply b a s s' o).1
  unfolding db
  last_reply true a s' o down up = down
  last_reply false a s' o down up = up

  pub after_reply_row :
      (b : Bool) (x : Option S) (k : ⊤ → Action S A) (o : Outages)
      → P (err internal) s
      → ((s' : S) → x ≡ some s' → Ensures P (k tt) s')
      → let r = ◌>>=◌ (λ _ (_ : Outages). reply_row b x s o) k s o in P r.0 r.1
  unfolding db
  after_reply_row true x k o down up = down
  after_reply_row false none k o down up = down
  after_reply_row false (some s') k o down up = (up s' refl).at o

  pub after_select :
      {B : Type 0} (b : Bool) (x : Option B) (c : Code) (k : B → Action S A) (o : Outages)
      → P (err internal) s
      → (x ≡ none → P (err c) s)
      → ((a : B) → x ≡ some a → Ensures P (k a) s)
      → let r = ◌>>=◌ (λ _ (_ : Outages). reply_found b x c s o) k s o in P r.0 r.1
  unfolding db
  after_select true x c k o down h l = down
  after_select false none c k o down h l = h refl
  after_select false (some a) c k o down h l = (l a refl).at o

  pub last_selected :
      (b : Bool) (x : Option A) (c : Code) (o : Outages)
      → P (err internal) s
      → (x ≡ none → P (err c) s)
      → ((a : A) → x ≡ some a → P (ok a) s)
      → P (reply_found b x c s o).0 (reply_found b x c s o).1
  last_selected true x c o down h l = down
  last_selected false none c o down h l = h refl
  last_selected false (some a) c o down h l = l a refl

  pub last_inserted :
      (b : Bool) (x : Option (A × S)) (o : Outages)
      → P (err internal) s
      → ((a : A) (s' : S) → x ≡ some (a, s') → P (ok a) s')
      → P (reply_inserted b x s o).0 (reply_inserted b x s o).1
  last_inserted true x o down l = down
  last_inserted false none o down l = down
  last_inserted false (some (a, s')) o down l = l a s' refl

  pub after_bind :
      {B : Type 0} (Q : Result B → S → Type 0) (m : Result B × S × Outages) (k : B → Action S A)
      → Q m.0 m.1
      → ((c : Code) (s' : S) → Q (err c) s' → P (err c) s')
      → ((b : B) (s' : S) → Q (ok b) s' → Ensures P (k b) s')
      → let r = ◌>>=◌ (λ _ (_ : Outages). m) k s [] in P r.0 r.1
  unfolding db
  after_bind Q (err c, s', o) k h e l = e c s' h
  after_bind Q (ok b, s', o) k h e l = (l b s' h).at o

  pub after_attempt :
      {B : Type 0} (Q : S → Type 0) (m : Result B × S × Outages) (k : Option B → Action S A)
      → Q m.1
      → ((x : Option B) (s' : S) → Q s' → Ensures P (k x) s')
      → let r = ◌>>=◌ (attempt (λ _ (_ : Outages). m)) k s [] in P r.0 r.1
  unfolding db
  after_attempt Q (err c, s', o) k h l = (l none s' h).at o
  after_attempt Q (ok b, s', o) k h l = (l (some b) s' h).at o

abbrev pub answer_of : {A : Type 0} → Result A → Option A
answer_of (ok a) = some a
answer_of (err c) = none

pub after_try :
    {S A B : Type 0} (P : Result A → S → Type 0) (Q : Option B → S → Type 0)
    (m : Result B × S × Outages) (k : Option B → Action S A)
    → Q (answer_of m.0) m.1
    → ((x : Option B) (s' : S) → Q x s' → Ensures P (k x) s')
    → (s : S) → let r = ◌>>=◌ (attempt (λ _ (_ : Outages). m)) k s [] in P r.0 r.1
unfolding db
after_try P Q (err c, s', o) k h l s = (l none s' h).at o
after_try P Q (ok b, s', o) k h l s = (l (some b) s' h).at o

pub after_transaction :
    {S A : Type 0} (P Q : Result A → S → Type 0) (s : S) (b : Bool) (m : Result A × S × Outages)
    (o : Outages)
    → P (err internal) s
    → ((c : Code) → P (err c) s)
    → Q m.0 m.1
    → ((a : A) (s' : S) → Q (ok a) s' → P (ok a) s')
    → let r = (if b then (err internal, s, o) else settled_tx s m) in P r.0 r.1
after_transaction P Q s true m o down e h l = down
after_transaction P Q s false (err c, s', o') o down e h l = e c
after_transaction P Q s false (ok a, s', o') o down e h l =
    last_reply P s (fails o') a s' (later o') down (l a s' h)
