-- ===== src/Shared/Sparse.antt =====
-- Statements whose error is dropped, and statements that are tried three times. What holds of a
-- handler in every run in which no three statements in a row fail.
use exbanka_4_backend.Shared.Tests.{
  ◌≡◌, refl, Bool, true, false, Option, none, some, [], ◌∷◌, if◌then◌else◌, ◌&&◌,
}
use exbanka_4_backend.Shared.Database.{
  Code, Result, ok, err, internal, Action, Outages, ⊤, fails, later, pure, throw, exec, attempt,
  select_row, reply, reply_found, reply_inserted, insert_returning, ◌>>=◌, row_cases, throw_if,
  or_throw, query, db,
}

abbrev pub reply_tried : {S : Type 0} → Bool → S → S → Outages → Result ⊤ × S × Outages
reply_tried true s s' o = (ok tt, s, o)
reply_tried false s s' o = (ok tt, s', o)

-- `_, _ = db.Exec(…)`: the handler goes on whether or not the statement fails.
unfoldable pub try_update : {S : Type 0} → (S → S) → Action S ⊤
try_update f s o = reply_tried (fails o) s (f s) (later o)

-- Up to three attempts of a statement; when all of them fail, the caller does not learn of it.
unfoldable pub retry_exec : {S : Type 0} → (S → S) → Action S ⊤
retry_exec f s o = elim (fails o) [
  | false ↦ (ok tt, f s, later o)
  | true ↦ elim (fails (later o)) [
    | false ↦ (ok tt, f s, later (later o))
    | true ↦ elim (fails (later (later o))) [
      | false ↦ (ok tt, f s, later (later (later o)))
      | true ↦ (ok tt, s, later (later (later o)))
    ]
  ]
]

-- No three statements in a row fail.
abbrev pub IsSparse : Outages → Type 0
IsSparse [] = ⊤
IsSparse (b ∷ o) = ((b && (fails o && fails (later o))) ≡ false) × IsSparse o

-- In every run of `m` from `s` with sparse outages the answer and the state left satisfy `P`.
pub record Survives {S A : Type 0} (P : Result A → S → Type 0) (m : Action S A) (s : S)
    : Type 0 where
  pub at : (o : Outages) → IsSparse o → P (m s o).0 (m s o).1 × IsSparse (m s o).2

pub later-IsSparse : (o : Outages) → IsSparse o → IsSparse (later o)
unfolding later
later-IsSparse [] h = tt
later-IsSparse (b ∷ o) h = h.1

-- What an action does not fail to reach.
abbrev pub Reached : {S A : Type 0} → (S → Type 0) → Result A → S → Type 0
Reached I (ok a) s = I s
Reached I (err c) s = ⊥

module _ {S A : Type 0} {P : Result A → S → Type 0} {s : S} where
  pub Survives-bind :
      {B : Type 0} (Q : Result B → S → Type 0) (m : Action S B) (k : B → Action S A)
      → Survives Q m s
      → ((c : Code) (s' : S) → Q (err c) s' → P (err c) s')
      → ((b : B) (s' : S) → Q (ok b) s' → Survives P (k b) s')
      → Survives P (m >>= k) s
  unfolding db
  Survives-bind {B} Q m k h e l = record { at = λ o sparse. after (m s o) (h.at o sparse) }
    where
      after :
          (r : Result B × S × Outages)
          → Q r.0 r.1 × IsSparse r.2
          → let x = ◌>>=◌ (λ _ (_ : Outages). r) k s [] in P x.0 x.1 × IsSparse x.2
      after (err c, s', o) (q, sparse) = (e c s' q, sparse)
      after (ok b, s', o) (q, sparse) = (l b s' q).at o sparse

  -- A call that does not fail.
  pub Survives-next :
      {B : Type 0} (I : S → Type 0) (m : Action S B) (k : B → Action S A)
      → Survives (Reached I) m s
      → ((b : B) (s' : S) → I s' → Survives P (k b) s')
      → Survives P (m >>= k) s
  Survives-next I m k h l = Survives-bind (Reached I) m k h (λ c s' q. absurd q) l

  -- A call whose failure is looked at.
  pub Survives-attempt :
      {B : Type 0} (Q : Result B → S → Type 0) (m : Action S B) (k : Option B → Action S A)
      → Survives Q m s
      → ((c : Code) (s' : S) → Q (err c) s' → Survives P (k none) s')
      → ((b : B) (s' : S) → Q (ok b) s' → Survives P (k (some b)) s')
      → Survives P (attempt m >>= k) s
  unfolding db
  Survives-attempt {B} Q m k h e l = record { at = λ o sparse. after (m s o) (h.at o sparse) }
    where
      after :
          (r : Result B × S × Outages)
          → Q r.0 r.1 × IsSparse r.2
          → let x = ◌>>=◌ (attempt (λ _ (_ : Outages). r)) k s [] in P x.0 x.1 × IsSparse x.2
      after (err c, s', o) (q, sparse) = (e c s' q).at o sparse
      after (ok b, s', o) (q, sparse) = (l b s' q).at o sparse

  pub Survives-pure : (a : A) → P (ok a) s → Survives P (pure a) s
  unfolding db
  Survives-pure a h = record { at = λ o sparse. (h, sparse) }

  pub Survives-throw : (c : Code) → P (err c) s → Survives P (throw c) s
  unfolding db
  Survives-throw c h = record { at = λ o sparse. (h, sparse) }

  pub Survives-if :
      (b : Bool) (m n : Action S A)
      → (b ≡ true → Survives P m s)
      → (b ≡ false → Survives P n s)
      → Survives P (if b then m else n) s
  Survives-if true m n h k = h refl
  Survives-if false m n h k = k refl

  pub Survives-found :
      {B : Type 0} (x : Option B) (m : Action S A) (k : B → Action S A)
      → (x ≡ none → Survives P m s)
      → ((b : B) → x ≡ some b → Survives P (k b) s)
      → Survives P (row_cases x m k) s
  unfolding db
  Survives-found none m k h l = h refl
  Survives-found (some b) m k h l = l b refl

  pub Survives-throw_if :
      (b : Bool) (c : Code) (k : ⊤ → Action S A)
      → (b ≡ true → P (err c) s)
      → (b ≡ false → Survives P (k tt) s)
      → Survives P (throw_if b c >>= k) s
  unfolding db
  Survives-throw_if true c k h l = Survives-throw c (h refl)
  Survives-throw_if false c k h l = record { at = λ o. (l refl).at o }

  pub Survives-or_throw :
      {B : Type 0} (x : Option B) (c : Code) (k : B → Action S A)
      → (x ≡ none → P (err c) s)
      → ((b : B) → x ≡ some b → Survives P (k b) s)
      → Survives P (or_throw x c >>= k) s
  unfolding db
  Survives-or_throw none c k h l = Survives-throw c (h refl)
  Survives-or_throw (some b) c k h l = record { at = λ o. (l b refl).at o }

  -- A statement on its own.
  pub Survives-exec :
      (f : S → A × S) → P (err internal) s → P (ok (f s).0) (f s).1 → Survives P (exec f) s
  unfolding db
  Survives-exec f down up = record {
    at = λ o sparse. after (later o) (fails o) (later-IsSparse o sparse);
  }
    where
      after :
          (o : Outages) (b : Bool)
          → IsSparse o
          → let r = reply b (f s).0 s (f s).1 o in P r.0 r.1 × IsSparse r.2
      after o true sparse = (down, sparse)
      after o false sparse = (up, sparse)

  pub Survives-read : (f : S → A) → P (err internal) s → P (ok (f s)) s → Survives P (query f) s
  unfolding db
  Survives-read f = Survives-exec (λ s'. (f s', s'))

  pub Survives-select :
      (f : S → Option A) (c : Code)
      → ((d : Code) → P (err d) s)
      → ((a : A) → f s ≡ some a → P (ok a) s)
      → Survives P (select_row f c) s
  unfolding db
  Survives-select f c down up = record {
    at = λ o sparse. after (later o) (fails o) (f s) up (later-IsSparse o sparse);
  }
    where
      after :
          (o : Outages) (b : Bool) (x : Option A)
          → ((a : A) → x ≡ some a → P (ok a) s)
          → IsSparse o
          → let r = reply_found b x c s o in P r.0 r.1 × IsSparse r.2
      after o true x up sparse = (down internal, sparse)
      after o false none up sparse = (down c, sparse)
      after o false (some a) up sparse = (up a refl, sparse)

  pub Survives-insert_returning :
      (f : S → Option (A × S))
      → P (err internal) s
      → ((a : A) (s' : S) → f s ≡ some (a, s') → P (ok a) s')
      → Survives P (insert_returning f) s
  unfolding db
  Survives-insert_returning f down up = record {
    at = λ o sparse. after (later o) (fails o) (f s) up (later-IsSparse o sparse);
  }
    where
      after :
          (o : Outages) (b : Bool) (x : Option (A × S))
          → ((a : A) (s' : S) → x ≡ some (a, s') → P (ok a) s')
          → IsSparse o
          → let r = reply_inserted b x s o in P r.0 r.1 × IsSparse r.2
      after o true x up sparse = (down, sparse)
      after o false none up sparse = (down, sparse)
      after o false (some (a, s')) up sparse = (up a s' refl, sparse)
