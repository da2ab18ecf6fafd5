-- ===== src/Shared/Ensures.antt =====
-- Postconditions of handlers: what holds of the answer and of the state that is left, in every run
-- from a state, whichever statements fail. One rule for each way to build a handler.
use exbanka_4_backend.Shared.Tests.{◌≡◌, refl, Bool, true, false, Option, none, some, if◌then◌else◌}
use exbanka_4_backend.Shared.Database.{
  Code, Result, ok, err, internal, Action, ⊤, fails, later, pure, throw, query, exec, select_row,
  insert_returning, attempt, insert, or_throw, throw_if, row_cases, transaction, ◌>>=◌, db,
}
pub use exbanka_4_backend.Shared.Replies.{Ensures, answer_of}
use exbanka_4_backend.Shared.Replies.{
  after_reply, last_reply, after_reply_row, after_select, last_selected, last_inserted, after_bind,
  after_attempt, after_try, after_transaction,
}

module _ {S A : Type 0} {P : Result A → S → Type 0} {s : S} where
  -- A call of another action, by what that ensures.
  pub Ensures-bind :
      {B : Type 0} (Q : Result B → S → Type 0) (m : Action S B) (k : B → Action S A)
      → Ensures Q m s
      → ((c : Code) (s' : S) → Q (err c) s' → P (err c) s')
      → ((b : B) (s' : S) → Q (ok b) s' → Ensures P (k b) s')
      → Ensures P (m >>= k) s
  unfolding db
  Ensures-bind Q m k h e l = record { at = λ o. after_bind P s Q (m s o) k (h.at o) e l }

  -- A call whose failure is ignored.
  pub Ensures-attempt :
      {B : Type 0} (Q : S → Type 0) (m : Action S B) (k : Option B → Action S A)
      → Ensures (λ _. Q) m s
      → ((x : Option B) (s' : S) → Q s' → Ensures P (k x) s')
      → Ensures P (attempt m >>= k) s
  unfolding db
  Ensures-attempt Q m k h l = record { at = λ o. after_attempt P s Q (m s o) k (h.at o) l }

  pub Ensures-insert_returning :
      (f : S → Option (A × S))
      → P (err internal) s
      → ((a : A) (s' : S) → f s ≡ some (a, s') → P (ok a) s')
      → Ensures P (insert_returning f) s
  unfolding db
  Ensures-insert_returning f down l = record {
    at = λ o. last_inserted P s (fails o) (f s) (later o) down l;
  }

  pub Ensures-select :
      {B : Type 0} (f : S → Option B) (c : Code) (k : B → Action S A)
      → P (err internal) s
      → (f s ≡ none → P (err c) s)
      → ((b : B) → f s ≡ some b → Ensures P (k b) s)
      → Ensures P (select_row f c >>= k) s
  unfolding db
  Ensures-select f c k down h l = record {
    at = λ o. after_select P s (fails o) (f s) c k (later o) down h l;
  }

  pub Ensures-pure : (a : A) → P (ok a) s → Ensures P (pure a) s
  unfolding db
  Ensures-pure a h = record { at = λ o. h }

  pub Ensures-throw : (c : Code) → P (err c) s → Ensures P (throw c) s
  unfolding db
  Ensures-throw c h = record { at = λ o. h }

  pub Ensures-if :
      (b : Bool) (m n : Action S A)
      → (b ≡ true → Ensures P m s)
      → (b ≡ false → Ensures P n s)
      → Ensures P (if b then m else n) s
  Ensures-if true m n h k = h refl
  Ensures-if false m n h k = k refl

  -- A branch on a row that was or was not found.
  pub Ensures-found :
      {B : Type 0} (x : Option B) (m : Action S A) (k : B → Action S A)
      → (x ≡ none → Ensures P m s)
      → ((b : B) → x ≡ some b → Ensures P (k b) s)
      → Ensures P (row_cases x m k) s
  unfolding db
  Ensures-found none m k h l = h refl
  Ensures-found (some b) m k h l = l b refl

  pub Ensures-query :
      {B : Type 0} (f : S → B) (k : B → Action S A)
      → P (err internal) s
      → Ensures P (k (f s)) s
      → Ensures P (query f >>= k) s
  unfolding db
  Ensures-query f k down up = record {
    at = λ o. after_reply P s (fails o) (f s) s k (later o) down up;
  }

  pub Ensures-exec :
      {B : Type 0} (f : S → B × S) (k : B → Action S A)
      → P (err internal) s
      → Ensures P (k (f s).0) (f s).1
      → Ensures P (exec f >>= k) s
  unfolding db
  Ensures-exec f k down up = record {
    at = λ o. after_reply P s (fails o) (f s).0 (f s).1 k (later o) down up;
  }

  -- The last statement of a handler.
  pub Ensures-last :
      (f : S → A × S) → P (err internal) s → P (ok (f s).0) (f s).1 → Ensures P (exec f) s
  unfolding db
  Ensures-last f down up = record {
    at = λ o. last_reply P s (fails o) (f s).0 (f s).1 (later o) down up;
  }

  pub Ensures-insert :
      (f : S → Option S) (k : ⊤ → Action S A)
      → P (err internal) s
      → ((s' : S) → f s ≡ some s' → Ensures P (k tt) s')
      → Ensures P (insert f >>= k) s
  unfolding db
  Ensures-insert f k down up = record {
    at = λ o. after_reply_row P s (fails o) (f s) k (later o) down up;
  }

  pub Ensures-or_throw :
      {B : Type 0} (x : Option B) (c : Code) (k : B → Action S A)
      → (x ≡ none → P (err c) s)
      → ((b : B) → x ≡ some b → Ensures P (k b) s)
      → Ensures P (or_throw x c >>= k) s
  unfolding db
  Ensures-or_throw none c k h l = Ensures-throw c (h refl)
  Ensures-or_throw (some b) c k h l = record { at = λ o. (l b refl).at o }

  pub Ensures-throw_if :
      (b : Bool) (c : Code) (k : ⊤ → Action S A)
      → (b ≡ true → P (err c) s)
      → (b ≡ false → Ensures P (k tt) s)
      → Ensures P (throw_if b c >>= k) s
  unfolding db
  Ensures-throw_if true c k h l = Ensures-throw c (h refl)
  Ensures-throw_if false c k h l = record { at = λ o. (l refl).at o }

-- A call whose failure is looked at, by what holds if it fails and if it does not.
pub Ensures-try :
    {S A B : Type 0} {P : Result A → S → Type 0} {s : S} (Q : Option B → S → Type 0)
    (m : Action S B) (k : Option B → Action S A)
    → Ensures (λ r. Q (answer_of r)) m s
    → ((x : Option B) (s' : S) → Q x s' → Ensures P (k x) s')
    → Ensures P (attempt m >>= k) s
unfolding db
Ensures-try {P} {s} Q m k h l = record { at = λ o. after_try P Q (m s o) k (h.at o) l s }

-- A transaction, by what its statements ensure; an error leaves the state that it began with.
pub Ensures-transaction :
    {S A : Type 0} {P : Result A → S → Type 0} {s : S} (Q : Result A → S → Type 0) (m : Action S A)
    → Ensures Q m s
    → ((c : Code) → P (err c) s)
    → ((a : A) (s' : S) → Q (ok a) s' → P (ok a) s')
    → Ensures P (transaction m) s
unfolding db
Ensures-transaction {P} {s} Q m h e l = record {
  at = λ o.
      after_transaction P Q s (fails o) (m s (later o)) (later o) (e internal) e (h.at (later o)) l;
}

-- An invariant goes through a sequence of calls, whatever they answer.
module _ {S A B : Type 0} {I : S → Type 0} {s : S} where
  pub Ensures-then :
      (m : Action S B) (k : B → Action S A)
      → Ensures (λ _. I) m s
      → ((b : B) (s' : S) → I s' → Ensures (λ _. I) (k b) s')
      → Ensures (λ _. I) (m >>= k) s
  Ensures-then m k h l = Ensures-bind (λ _. I) m k h (λ c s' i. i) l

  pub Ensures-tried :
      (m : Action S B) (k : Option B → Action S A)
      → Ensures (λ _. I) m s
      → ((b : Option B) (s' : S) → I s' → Ensures (λ _. I) (k b) s')
      → Ensures (λ _. I) (attempt m >>= k) s
  Ensures-tried m k h l = Ensures-attempt I m k h l

module _ {S A : Type 0} {P : Result A → S → Type 0} {s : S} where
  -- A read, or a check, at the end of an action.
  pub Ensures-read : (f : S → A) → P (err internal) s → P (ok (f s)) s → Ensures P (query f) s
  unfolding db
  Ensures-read f down up = record { at = λ o. last_reply P s (fails o) (f s) s (later o) down up }

  pub Ensures-selected :
      (f : S → Option A) (c : Code)
      → P (err internal) s
      → (f s ≡ none → P (err c) s)
      → ((a : A) → f s ≡ some a → P (ok a) s)
      → Ensures P (select_row f c) s
  unfolding db
  Ensures-selected f c down h l = record {
    at = λ o. last_selected P s (fails o) (f s) c (later o) down h l;
  }

module _ {S : Type 0} {P : Result ⊤ → S → Type 0} {s : S} where
  pub Ensures-thrown :
      (b : Bool) (c : Code)
      → (b ≡ true → P (err c) s)
      → (b ≡ false → P (ok tt) s)
      → Ensures P (throw_if b c) s
  unfolding db
  Ensures-thrown true c h l = record { at = λ o. h refl }
  Ensures-thrown false c h l = record { at = λ o. l refl }

pub ruleset ensures_rules = (
  Ensures-pure, Ensures-throw, Ensures-if, Ensures-found, Ensures-query, Ensures-exec, Ensures-last,
  Ensures-insert, Ensures-or_throw, Ensures-throw_if, Ensures-select, Ensures-insert_returning,
  Ensures-read, Ensures-selected, Ensures-thrown,
)
