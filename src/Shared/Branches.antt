-- ===== src/Shared/Branches.antt =====
-- Rules for handlers that go on after a failure, on top of Shared/Sparse: branches on whether a call
-- fails, statements that are tried three times, actions that only read.
use exbanka_4_backend.Shared.Tests.{
  ◌≡◌, refl, Bool, true, false, Option, some, [], ◌∷◌, if◌then◌else◌,
}
use exbanka_4_backend.Shared.Database.{
  Code, Result, ok, err, Action, Outages, fails, later, pure, exec, attempt, select_row, ◌>>=◌,
  row_cases, db,
}
use exbanka_4_backend.Shared.Sparse.{
  Survives, reply_tried, try_update, retry_exec, IsSparse, later-IsSparse, Reached, Survives-bind,
  Survives-attempt, Survives-pure, Survives-throw, Survives-if, Survives-found, Survives-throw_if,
  Survives-exec, Survives-select,
}

-- What the rest of an action needs of the answer of its first call.
abbrev pub Tail :
    {S A B : Type 0} → (Result A → S → Type 0) → (B → Action S A) → Result B → S → Type 0
Tail P k (ok b) s = Survives P (k b) s
Tail P k (err c) s = P (err c) s

pub Survives-row :
    {S A B : Type 0} {P : Result A → S → Type 0} {s : S} (f : S → Option B) (c : Code)
    (k : B → Action S A)
    → ((d : Code) → P (err d) s)
    → ((b : B) → f s ≡ some b → Survives P (k b) s)
    → Survives P (select_row f c >>= k) s
Survives-row {P} f c k down up =
    Survives-bind (Tail P k) (select_row f c) k (Survives-select f c down up) (λ d s' h. h)
      (λ b s' h. h)

-- A branch on whether a call fails.
abbrev pub branch : {S A B : Type 0} → Action S A → Action S B → (B → Action S A) → Action S A
branch m n k = attempt n >>= λ x. row_cases x m k

abbrev Branch :
    {S A B : Type 0}
    → (Result A → S → Type 0)
    → Action S A
    → (B → Action S A)
    → Result B
    → S
    → Type 0
Branch P m k (ok b) s = Survives P (k b) s
Branch P m k (err c) s = Survives P m s

module _ {S A B : Type 0} {P : Result A → S → Type 0} {s : S} (m : Action S A) where
  pub Survives-exec_cases :
      (f : S → B × S) (k : B → Action S A)
      → Survives P m s
      → Survives P (k (f s).0) (f s).1
      → Survives P (branch m (exec f) k) s
  unfolding db
  Survives-exec_cases f k down up =
      Survives-attempt (Branch P m k) (exec f) (λ x. row_cases x m k) (Survives-exec f down up)
        (λ c s' h. h) (λ b s' h. h)

  pub Survives-select_cases :
      (f : S → Option B) (c : Code) (k : B → Action S A)
      → Survives P m s
      → ((b : B) → f s ≡ some b → Survives P (k b) s)
      → Survives P (branch m (select_row f c) k) s
  unfolding db
  Survives-select_cases f c k down up =
      Survives-attempt (Branch P m k) (select_row f c) (λ x. row_cases x m k)
        (Survives-select f c (λ d. down) up) (λ c s' h. h) (λ b s' h. h)

  pub Survives-call_cases :
      (I : S → Type 0) (n : Action S B) (k : B → Action S A)
      → Survives (λ _. I) n s
      → ((s' : S) → I s' → Survives P m s')
      → ((b : B) (s' : S) → I s' → Survives P (k b) s')
      → Survives P (branch m n k) s
  unfolding db
  Survives-call_cases I n k h down up =
      Survives-attempt (λ _. I) n (λ x. row_cases x m k) h (λ c. down) up

  -- A call that only reads.
  pub Survives-read_cases :
      (n : Action S B) (k : B → Action S A)
      → Survives (λ _ s'. s' ≡ s) n s
      → Survives P m s
      → ((b : B) → Survives P (k b) s)
      → Survives P (branch m n k) s
  Survives-read_cases n k reads down up =
      Survives-call_cases (λ s'. s' ≡ s) n k reads (λ s' h. rw h down) (λ b s' h. rw h (up b))

-- What an action that only reads answers from a state.
abbrev pub Got : {S B : Type 0} → (B → Type 0) → S → Result B → S → Type 0
Got Q s (ok b) s' = (s' ≡ s) × Q b
Got Q s (err c) s' = s' ≡ s

module _ {S A B : Type 0} {P : Result A → S → Type 0} {s : S} (Q : B → Type 0) where
  pub Survives-got :
      (n : Action S B) (k : B → Action S A)
      → Survives (Got Q s) n s
      → ((c : Code) → P (err c) s)
      → ((b : B) → Q b → Survives P (k b) s)
      → Survives P (n >>= k) s
  Survives-got n k h down up =
      Survives-bind (Got Q s) n k h (λ c s' e. rw e (down c)) (λ b s' (e, q). rw e (up b q))

  pub Survives-got_cases :
      (m : Action S A) (n : Action S B) (k : B → Action S A)
      → Survives (Got Q s) n s
      → Survives P m s
      → ((b : B) → Q b → Survives P (k b) s)
      → Survives P (branch m n k) s
  unfolding db
  Survives-got_cases m n k h down up =
      Survives-attempt (Got Q s) n (λ x. row_cases x m k) h (λ c s' e. rw e down)
        (λ b s' (e, q). rw e (up b q))

module _ {S : Type 0} {s : S} (I : S → Type 0) (f : S → S) where
  pub try_update-Reached : I s → I (f s) → Survives (Reached I) (try_update f) s
  unfolding try_update
  try_update-Reached down up = record {
    at = λ o sparse. after (later o) (fails o) (later-IsSparse o sparse);
  }
    where
      after :
          (o : Outages) (b : Bool)
          → IsSparse o
          → let r = reply_tried b s (f s) o in Reached I r.0 r.1 × IsSparse r.2
      after o true sparse = (down, sparse)
      after o false sparse = (up, sparse)

  -- One of the three attempts gets through.
  pub retry_exec-Reached : I (f s) → Survives (Reached I) (retry_exec f) s
  unfolding retry_exec fails later
  retry_exec-Reached up = record { at = after }
    where
      after :
          (o : Outages) → IsSparse o → let r = retry_exec f s o in Reached I r.0 r.1 × IsSparse r.2
      after [] sparse = (up, sparse)
      after (false ∷ o) sparse = (up, sparse.1)
      after (true ∷ []) sparse = (up, tt)
      after (true ∷ false ∷ o) sparse = (up, sparse.1.1)
      after (true ∷ true ∷ []) sparse = (up, tt)
      after (true ∷ true ∷ false ∷ o) sparse = (up, sparse.1.1.1)
      after (true ∷ true ∷ true ∷ o) sparse = absurd (cc (sparse.0))

pub Reached-weaken :
    {S A : Type 0} {I J : S → Type 0} (m : Action S A) (s : S)
    → ((s' : S) → I s' → J s')
    → Survives (Reached I) m s
    → Survives (Reached J) m s
Reached-weaken {S} {A} {I} {J} m s w h = record {
  at = λ o sparse. after (m s o).0 (m s o).1 (m s o).2 (h.at o sparse);
}
  where
    after :
        (r : Result A) (s' : S) (o : Outages)
        → Reached I r s' × IsSparse o
        → Reached J r s' × IsSparse o
    after (ok a) s' o (h', sparse) = (w s' h', sparse)
    after (err c) s' o h' = absurd (h'.0)

-- An action that only reads.
pub record Reads {S A : Type 0} (m : Action S A) : Type 0 where
  pub at : (s : S) → Survives (λ _ s'. s' ≡ s) m s

module _ {S A : Type 0} where
  pub Reads-bind :
      {B : Type 0} (m : Action S B) (k : B → Action S A)
      → Reads m
      → ((b : B) → Reads (k b))
      → Reads (m >>= k)
  Reads-bind m k h l = record {
    at = λ s.
        Survives-bind (λ _ s'. s' ≡ s) m k (h.at s) (λ c s' e. e) (λ b s' e. rw e ((l b).at s));
  }

  pub Reads-branch :
      {B : Type 0} (m : Action S A) (n : Action S B) (k : B → Action S A)
      → Reads n
      → Reads m
      → ((b : B) → Reads (k b))
      → Reads (branch m n k)
  Reads-branch m n k h g l = record {
    at = λ s. Survives-read_cases m n k (h.at s) (g.at s) (λ b. (l b).at s);
  }

  pub Reads-pure : (a : A) → Reads (pure {S = S} a)
  Reads-pure a = record { at = λ s. Survives-pure a refl }

  pub Reads-select : (f : S → Option A) (c : Code) → Reads (select_row f c)
  Reads-select f c = record { at = λ s. Survives-select f c (λ d. refl) (λ a e. refl) }

  pub Reads-if : (b : Bool) (m n : Action S A) → Reads m → Reads n → Reads (if b then m else n)
  Reads-if true m n h k = h
  Reads-if false m n h k = k

-- A read at the start of an action.
pub Survives-reads :
    {S A B : Type 0} {P : Result A → S → Type 0} {s : S} (m : Action S B) (k : B → Action S A)
    → Reads m
    → ((c : Code) → P (err c) s)
    → ((b : B) → Survives P (k b) s)
    → Survives P (m >>= k) s
Survives-reads {s} m k h down up =
    Survives-bind (λ _ s'. s' ≡ s) m k (h.at s) (λ c s' e. rw e (down c)) (λ b s' e. rw e (up b))

pub ruleset reads_rules = (Reads-bind, Reads-branch, Reads-pure, Reads-select, Reads-if)

pub ruleset survives_rules = (
  Survives-pure, Survives-throw, Survives-if, Survives-found, Survives-throw_if,
  Survives-exec_cases, Survives-select_cases,
)
