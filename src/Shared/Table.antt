-- ===== src/Shared/Table.antt =====
-- A database table as the list of its rows, with the statements that the services run on it.
use exbanka_4_backend.Shared.Tests.{
  ℕ, ◌+◌, ◌≤◌, ◌<◌, ◌≡◌, refl, Bool, true, false, Option, none, some, List, [], ◌∷◌, arith,
  if◌then◌else◌, Bool-cases, inl, inr, ◌&&◌, ◌==◌, ◌++◌,
}
use exbanka_4_backend.Shared.Int.{ℤ, pos, ◌+ℤ◌}
use mathlib.Core.Option

module _ {ℓ} {A : Type ℓ} where
  -- `SELECT … WHERE p` read by `QueryRow`: the first row that fits.
  unfoldable pub find_where : (A → Bool) → List A → Option A
  find_where p [] = none
  find_where p (x ∷ t) = if p x then some x else find_where p t

  -- `UPDATE … SET f WHERE p`.
  unfoldable pub update_where : (A → Bool) → (A → A) → List A → List A
  update_where p f [] = []
  update_where p f (x ∷ t) = (if p x then f x else x) ∷ update_where p f t

  -- `DELETE FROM … WHERE p`.
  unfoldable pub delete_where : (A → Bool) → List A → List A
  delete_where p [] = []
  delete_where p (x ∷ t) = if p x then delete_where p t else x ∷ delete_where p t

  -- `SELECT COUNT(*) … WHERE p`, and the rows that an update affects.
  unfoldable pub count_where : (A → Bool) → List A → ℕ
  count_where p [] = 0
  count_where p (x ∷ t) = (if p x then 1 else 0) + count_where p t

  -- What `p` finds after an update that keeps `p`.
  pub find_where-update_where :
      (p q : A → Bool) (f : A → A) (t : List A)
      → ((x : A) → p (f x) ≡ p x)
      → find_where p (update_where q f t)
        ≡ Option.map (λ x. if q x then f x else x) (find_where p t)
  unfolding find_where update_where
  find_where-update_where p q f [] keep = refl
  find_where-update_where p q f (x ∷ t) keep = elim (Bool-cases (q x)) [
    | inl e ↦ elim (Bool-cases (p x)) [
      | inl fits ↦ rw e (rw (keep x) (rw fits (rw e refl)))
      | inr other ↦ rw e (rw (keep x) (rw other (find_where-update_where p q f t keep)))
    ]
    | inr e ↦ elim (Bool-cases (p x)) [
      | inl fits ↦ rw e (rw fits (rw e refl))
      | inr other ↦ rw e (rw other (find_where-update_where p q f t keep))
    ]
  ]

  -- An update that reaches all rows that fit `q`, and ends it, leaves none.
  pub count_where-update_where_none :
      (q r : A → Bool) (f : A → A) (t : List A)
      → ((x : A) → r x ≡ false → q x ≡ false)
      → ((x : A) → q (f x) ≡ false)
      → count_where q (update_where r f t) ≡ 0
  unfolding count_where update_where
  count_where-update_where_none q r f [] reaches ends = refl
  count_where-update_where_none q r f (x ∷ t) reaches ends = elim (Bool-cases (r x)) [
    | inl e ↦ rw e (rw (ends x) (rw (count_where-update_where_none q r f t reaches ends) refl))
    | inr e ↦ rw e (rw (reaches x e) (rw (count_where-update_where_none q r f t reaches ends) refl))
  ]

  -- A row that fits both is counted.
  pub count_where_pos :
      (p q : A → Bool) {x : A} (t : List A)
      → find_where p t ≡ some x
      → q x ≡ true
      → 0 < count_where q t
  unfolding find_where count_where
  count_where_pos p q [] h k = cc
  count_where_pos p q {x} (y ∷ t) h k = elim (Bool-cases (p y)) [
    | inl e ↦ ground (arith, e)
    | inr e ↦ omega (arith, count_where_pos p q t (rw e at h) k)
  ]

  -- No row fits: nothing is updated.
  pub update_where_none :
      (p : A → Bool) (f : A → A) (t : List A) → count_where p t ≡ 0 → update_where p f t ≡ t
  unfolding update_where count_where
  update_where_none p f [] h = refl
  update_where_none p f (x ∷ t) h = elim (Bool-cases (p x)) [
    | inl e ↦ absurd (omega (arith, rw e at h))
    | inr e ↦ rw e (rw (update_where_none p f t (omega (arith, rw e at h))))
  ]

  count_le :
      (q : A → Bool) (y x : A) (t : List A)
      → (q y ≡ true → q x ≡ true)
      → (if q y then 1 else 0) + count_where q t ≤ (if q x then 1 else 0) + count_where q t
  count_le q y x t keep = ground (arith, keep)

  -- An update of a single row that does not bring it into `q` counts no more rows.
  pub count_where-update_where_le :
      (p q : A → Bool) (f : A → A) {x : A} (t : List A)
      → count_where p t ≤ 1
      → find_where p t ≡ some x
      → (q (f x) ≡ true → q x ≡ true)
      → count_where q (update_where p f t) ≤ count_where q t
  unfolding count_where find_where update_where
  count_where-update_where_le p q f [] single found keep = omega arith
  count_where-update_where_le p q f {x} (y ∷ t) single found keep = elim (Bool-cases (p y)) [
    | inl e ↦
        let is_y : y ≡ x = cc (rw e at found) in
        rw e (
          rw (update_where_none p f t (omega (arith, rw e at single)))
            (rw is_y (count_le q (f x) x t keep)))
    | inr e ↦ rw e (
        omega (
          arith,
          count_where-update_where_le p q f t (omega (arith, rw e at single)) (rw e at found) keep,
        ))
  ]

  -- An update under which no row that it changes comes into `q` leaves no row in `q` if there was none.
  pub count_where-update_where_keep :
      (p q : A → Bool) (f : A → A) (t : List A)
      → ((x : A) → p x ≡ true → q x ≡ false → q (f x) ≡ false)
      → count_where q t ≡ 0
      → count_where q (update_where p f t) ≡ 0
  unfolding count_where update_where
  count_where-update_where_keep p q f [] keep h = refl
  count_where-update_where_keep p q f (x ∷ t) keep h = elim (Bool-cases (q x)) [
    | inl e ↦ absurd (omega (arith, rw e at h))
    | inr out ↦
        let rest = count_where-update_where_keep p q f t keep (omega (arith, rw out at h)) in
        elim (Bool-cases (p x)) [
          | inl e ↦ rw e (rw (keep x e out) (omega (arith, rest)))
          | inr e ↦ rw e (rw out (omega (arith, rest)))
        ]
  ]

  -- What is found fits.
  pub find_where_fits : (p : A → Bool) {x : A} (t : List A) → find_where p t ≡ some x → p x ≡ true
  unfolding find_where
  find_where_fits p [] h = cc
  find_where_fits p (y ∷ t) h = elim (Bool-cases (p y)) [
    | inl e ↦ ground (arith, e)
    | inr e ↦ find_where_fits p t (rw e at h)
  ]

  -- The sum of a column.
  abbrev pub sum_by : (A → ℤ) → List A → ℤ
  sum_by m [] = pos 0
  sum_by m (x ∷ t) = m x +ℤ sum_by m t

module _ {ℓ} {A : Type ℓ} (p : A → Bool) where
  -- An update that undoes another.
  pub update_where_undo :
      (f g : A → A) (t : List A)
      → ((x : A) → p (f x) ≡ p x)
      → ((x : A) → g (f x) ≡ x)
      → update_where p g (update_where p f t) ≡ t
  unfolding update_where
  update_where_undo f g [] keep back = refl
  update_where_undo f g (x ∷ t) keep back = elim (Bool-cases (p x)) [
    | inl e ↦ rw e (rw (keep x) (rw e (rw (back x, update_where_undo f g t keep back))))
    | inr e ↦ rw e (rw e (rw (update_where_undo f g t keep back)))
  ]

  -- Updates that do not see each other can be swapped.
  pub update_where_swap :
      (q : A → Bool) (f g : A → A) (t : List A)
      → ((x : A) → p (g x) ≡ p x)
      → ((x : A) → q (f x) ≡ q x)
      → ((x : A) → f (g x) ≡ g (f x))
      → update_where p f (update_where q g t) ≡ update_where q g (update_where p f t)
  unfolding update_where
  update_where_swap q f g [] kp kq swap = refl
  update_where_swap q f g (x ∷ t) kp kq swap =
      let rest = update_where_swap q f g t kp kq swap in
      elim (Bool-cases (p x)) [
        | inl e ↦ elim (Bool-cases (q x)) [
          | inl d ↦ rw (e, d) (rw (kp x, kq x) (rw (e, d) (rw (swap x, rest))))
          | inr d ↦ rw (e, d) (rw (kq x, e) (rw d (rw rest)))
        ]
        | inr e ↦ elim (Bool-cases (q x)) [
          | inl d ↦ rw (e, d) (rw (kp x) (rw e (rw rest)))
          | inr d ↦ rw (e, d) (rw e (rw rest))
        ]
      ]

  pub count_where_and :
      (g : A → Bool) (t : List A) → count_where p t ≡ 0 → count_where (λ x. p x && g x) t ≡ 0
  unfolding count_where
  count_where_and g [] h = refl
  count_where_and g (x ∷ t) h = elim (Bool-cases (p x)) [
    | inl e ↦ absurd (omega (arith, rw e at h))
    | inr e ↦ rw e (omega (arith, count_where_and g t (omega (arith, rw e at h))))
  ]

  -- A guard that the only row of a key passes can be left out.
  pub update_where_guard :
      (g : A → Bool) (f : A → A) (t : List A)
      → count_where p t ≤ 1
      → (count_where (λ x. p x && g x) t == 0) ≡ false
      → update_where (λ x. p x && g x) f t ≡ update_where p f t
  unfolding update_where count_where
  update_where_guard g f [] single some_row = refl
  update_where_guard g f (x ∷ t) single some_row = elim (Bool-cases (p x)) [
    | inl e ↦
        let alone : count_where p t ≡ 0 = omega (arith, rw e at single) in
        let guarded = count_where_and g t alone in
        elim (Bool-cases (g x)) [
          | inl d ↦
              rw (e, d)
                (rw (update_where_none (λ y. p y && g y) f t guarded, update_where_none p f t alone)
                  refl)
          | inr d ↦ absurd (ground (arith, e, d, guarded, some_row))
        ]
    | inr e ↦ rw e (
        rw (
          update_where_guard g f t (omega (arith, rw e at single))
            (ground (arith, rw e at some_row))))
  ]

-- The rows that fit, of two tables in a row.
pub count_where-append {ℓ} :
    {A : Type ℓ} (p : A → Bool) (xs ys : List A)
    → count_where p (xs ++ ys) ≡ count_where p xs + count_where p ys
unfolding count_where
count_where-append p [] ys = omega arith
count_where-append p (x ∷ xs) ys = omega (arith, count_where-append p xs ys)
