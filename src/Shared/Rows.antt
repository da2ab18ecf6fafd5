-- ===== src/Shared/Rows.antt =====
-- Two versions of a table, row by row, with what follows after the rows of the first.
use exbanka_4_backend.Shared.Tests.{
  ◌≡◌, refl, Bool, false, List, [], ◌∷◌, ◌++◌, if◌then◌else◌, Bool-cases, inl, inr, arith,
}
use exbanka_4_backend.Shared.Table.{update_where, count_where, delete_where}

module _ {A : Type 0} where
  abbrev pub Rows : (A → A → Type 0) → (List A → Type 0) → List A → List A → Type 0
  Rows R T [] ys = T ys
  Rows R T (x ∷ xs) [] = ⊥
  Rows R T (x ∷ xs) (y ∷ ys) = R x y × Rows R T xs ys

  -- A statement, by what it does to a row and to what follows.
  pub Rows-update_where :
      (R R' : A → A → Type 0) (T T' : List A → Type 0) (p : A → Bool) (f : A → A) (xs ys : List A)
      → ((x y : A) → R x y → R' x (if p y then f y else y))
      → ((zs : List A) → T zs → T' (update_where p f zs))
      → Rows R T xs ys
      → Rows R' T' xs (update_where p f ys)
  unfolding update_where
  Rows-update_where R R' T T' p f [] ys row rest h = rest ys h
  Rows-update_where R R' T T' p f (x ∷ xs) [] row rest h = absurd h
  Rows-update_where R R' T T' p f (x ∷ xs) (y ∷ ys) row rest (h, hs) =
      (row x y h, Rows-update_where R R' T T' p f xs ys row rest hs)

  -- A DELETE that reaches no row.
  pub Rows-delete_where :
      (R : A → A → Type 0) (T T' : List A → Type 0) (p : A → Bool) (xs ys : List A)
      → ((x y : A) → R x y → p y ≡ false)
      → ((zs : List A) → T zs → T' (delete_where p zs))
      → Rows R T xs ys
      → Rows R T' xs (delete_where p ys)
  unfolding delete_where
  Rows-delete_where R T T' p [] ys row rest h = rest ys h
  Rows-delete_where R T T' p (x ∷ xs) [] row rest h = absurd h
  Rows-delete_where R T T' p (x ∷ xs) (y ∷ ys) row rest (h, hs) =
      rw (row x y h) (h, Rows-delete_where R T T' p xs ys row rest hs)

  -- An INSERT, which comes when no row fits `p`.
  pub Rows-append :
      (R R' : A → A → Type 0) (T T' : List A → Type 0) (p : A → Bool) (z : A) (xs ys : List A)
      → ((x y : A) → R x y → p y ≡ false → R' x y)
      → ((zs : List A) → T zs → count_where p zs ≡ 0 → T' (zs ++ (z ∷ [])))
      → count_where p ys ≡ 0
      → Rows R T xs ys
      → Rows R' T' xs (ys ++ (z ∷ []))
  unfolding count_where
  Rows-append R R' T T' p z [] ys row rest none_fits h = rest ys h none_fits
  Rows-append R R' T T' p z (x ∷ xs) [] row rest none_fits h = absurd h
  Rows-append R R' T T' p z (x ∷ xs) (y ∷ ys) row rest none_fits (h, hs) = elim (Bool-cases (p y)) [
    | inl e ↦ absurd (omega (arith, rw e at none_fits))
    | inr e ↦ (
      row x y h e,
      Rows-append R R' T T' p z xs ys row rest (omega (arith, rw e at none_fits)) hs,
    )
  ]

  -- A count by what the statements keep.
  pub Rows-count :
      (R : A → A → Type 0) (T : List A → Type 0) (p : A → Bool) (xs ys : List A)
      → ((x y : A) → R x y → p y ≡ p x)
      → ((zs : List A) → T zs → count_where p zs ≡ 0)
      → Rows R T xs ys
      → count_where p ys ≡ count_where p xs
  unfolding count_where
  Rows-count R T p [] ys row rest h = rest ys h
  Rows-count R T p (x ∷ xs) [] row rest h = absurd h
  Rows-count R T p (x ∷ xs) (y ∷ ys) row rest (h, hs) =
      rw (row x y h, Rows-count R T p xs ys row rest hs) refl

  abbrev pub AllRows : (A → Type 0) → List A → Type 0
  AllRows G [] = Unit
  AllRows G (x ∷ xs) = G x × AllRows G xs

  -- A table and itself.
  pub Rows-self :
      (G : A → Type 0) (R : A → A → Type 0) (T : List A → Type 0) (xs : List A)
      → ((x : A) → G x → R x x)
      → T []
      → AllRows G xs
      → Rows R T xs xs
  Rows-self G R T [] row rest h = rest
  Rows-self G R T (x ∷ xs) row rest (g, h) = (row x g, Rows-self G R T xs row rest h)

  pub Rows-refl :
      (R : A → A → Type 0) (T : List A → Type 0) (xs : List A)
      → ((x : A) → R x x)
      → T []
      → Rows R T xs xs
  Rows-refl R T [] row rest = rest
  Rows-refl R T (x ∷ xs) row rest = (row x, Rows-refl R T xs row rest)

  pub Rows-weaken :
      (R R' : A → A → Type 0) (T T' : List A → Type 0) (xs ys : List A)
      → ((x y : A) → R x y → R' x y)
      → ((zs : List A) → T zs → T' zs)
      → Rows R T xs ys
      → Rows R' T' xs ys
  Rows-weaken R R' T T' [] ys row rest h = rest ys h
  Rows-weaken R R' T T' (x ∷ xs) [] row rest h = absurd h
  Rows-weaken R R' T T' (x ∷ xs) (y ∷ ys) row rest (h, hs) =
      (row x y h, Rows-weaken R R' T T' xs ys row rest hs)
