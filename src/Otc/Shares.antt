-- ===== src/Otc/Shares.antt =====
-- The portfolios under ExerciseContract of services/otc-service/handlers/grpc_server.go: what the
-- statements make of a row of `portfolio_entry`, and of a row that the buyer did not have before.
use exbanka_4_backend.Shared.Tests.{
  ◌≡◌, refl, true, false, List, [], ◌∷◌, ◌++◌, if◌then◌else◌, Bool-cases, ◌⊎◌, inl, inr, arith, ap,
  sym, ◌∙◌,
}
use exbanka_4_backend.Shared.Int.{ℤ, pos, ◌+ℤ◌, ◌-ℤ◌, -ℤ◌, ◌≤ℤ◌, ◌<ℤ◌, int_laws, leb_ℤ}
use exbanka_4_backend.Shared.Table.{update_where, count_where, delete_where}
use exbanka_4_backend.Otc.State.{Entry, Key, has_key}
use exbanka_4_backend.Otc.Statements.{is_used_up}

-- The columns of the key are the same.
abbrev pub SameKey : Entry → Entry → Type 0
SameKey x y = (k : Key) → has_key k y ≡ has_key k x

-- The seller keeps some shares and reserves no negative number, the buyer has some, if it has a
-- row, and they do not share a portfolio.
pub record IsFit (seller buyer : Key) (n : ℤ) (x : Entry) : Type 0 where
  pub of_seller :
      has_key seller x ≡ true
      → (pos 0 ≤ℤ x.reserved_amount) × (n <ℤ x.amount) × (has_key buyer x ≡ false)
  pub of_buyer : has_key buyer x ≡ true → pos 0 <ℤ x.amount

not_used_up : (w : ℤ) → pos 0 <ℤ w → leb_ℤ w (pos 0) ≡ false
not_used_up w h = ground (arith, h)

module _ (seller buyer : Key) (n : ℤ) where
  abbrev part : Key → Entry → ℤ → ℤ
  part k x v = if has_key k x then v else pos 0

  -- A row and what has become of it: `a` shares more for the seller, `c` more of them reserved, and
  -- `b` shares more for the buyer.
  abbrev pub Moved : ℤ → ℤ → ℤ → Entry → Entry → Type 0
  Moved a b c x y =
      SameKey x y
      × (y.amount ≡ x.amount +ℤ part seller x a +ℤ part buyer x b)
      × (y.reserved_amount ≡ x.reserved_amount +ℤ part seller x c)
      × IsFit seller buyer n x

  -- No row more, or the buyer's with `b` shares.
  abbrev pub Added : ℤ → List Entry → Type 0
  Added b zs =
      (zs ≡ [])
      ⊎ ((z : Entry) × (zs ≡ z ∷ [])
          × (has_key buyer z ≡ true)
          × (z.amount ≡ b)
          × (z.reserved_amount ≡ pos 0))

  -- A statement on the seller's row.
  pub seller_step :
      (a b c a' c' : ℤ) (f : Entry → Entry) (x y : Entry)
      → ((e : Entry) → SameKey e (f e))
      → ((x y : Entry)
          → pos 0 ≤ℤ x.reserved_amount
          → y.amount ≡ x.amount +ℤ a +ℤ pos 0
          → y.reserved_amount ≡ x.reserved_amount +ℤ c
          → ((f y).amount ≡ x.amount +ℤ a' +ℤ pos 0)
            × ((f y).reserved_amount ≡ x.reserved_amount +ℤ c'))
      → Moved a b c x y
      → Moved a' b c' x (if has_key seller y then f y else y)
  seller_step a b c a' c' f x y keeps moves (same, amount, reserved, fit) =
      elim (Bool-cases (has_key seller x)) [
        | inl e ↦
            let (low, enough, apart) = fit.of_seller e in
            let (amount', reserved') = moves x y low (rw (e, apart) at amount) (rw e at reserved) in
            rw (same seller) (rw e (λ k. keeps y k ∙ same k, rw apart amount', reserved', fit))
        | inr e ↦ rw (same seller) (rw e (same, rw e at amount, rw e at reserved, fit))
      ]

  -- A statement on the buyer's row.
  pub buyer_step :
      (a b c b' : ℤ) (f : Entry → Entry) (x y : Entry)
      → ((e : Entry) → SameKey e (f e))
      → ((x y : Entry)
          → y.amount ≡ x.amount +ℤ pos 0 +ℤ b
          → ((f y).amount ≡ x.amount +ℤ pos 0 +ℤ b') × ((f y).reserved_amount ≡ y.reserved_amount))
      → Moved a b c x y
      → Moved a b' c x (if has_key buyer y then f y else y)
  buyer_step a b c b' f x y keeps moves (same, amount, reserved, fit) =
      elim (Bool-cases (has_key buyer x)) [
        | inl e ↦ elim (Bool-cases (has_key seller x)) [
          | inl d ↦ absurd (cc ((fit.of_seller d).2, e))
          | inr d ↦
              let (amount', reserved') = moves x y (rw (e, d) at amount) in
              rw (same buyer)
                (rw e (λ k. keeps y k ∙ same k, rw d amount', reserved' ∙ reserved, fit))
        ]
        | inr e ↦ rw (same buyer) (rw e (same, rw e at amount, reserved, fit))
      ]

  -- The same statements on the row that was added.
  pub seller-Added :
      (b : ℤ) (f : Entry → Entry) (zs : List Entry)
      → ((z : Entry) → has_key buyer z ≡ true → has_key seller z ≡ false)
      → Added b zs
      → Added b (update_where (has_key seller) f zs)
  unfolding update_where
  seller-Added b f zs apart h = elim h [
    | inl e ↦ inl (ap (update_where (has_key seller) f) e)
    | inr (z, e, key, amount, reserved) ↦
        inr (z, rw e (rw (apart z key) refl), key, amount, reserved)
  ]

  pub buyer-Added :
      (b b' : ℤ) (f : Entry → Entry) (zs : List Entry)
      → ((e : Entry) → SameKey e (f e))
      → ((z : Entry)
          → z.amount ≡ b
          → ((f z).amount ≡ b') × ((f z).reserved_amount ≡ z.reserved_amount))
      → Added b zs
      → Added b' (update_where (has_key buyer) f zs)
  unfolding update_where
  buyer-Added b b' f zs keeps moves h = elim h [
    | inl e ↦ inl (ap (update_where (has_key buyer) f) e)
    | inr (z, e, key, amount, reserved) ↦
        let (amount', reserved') = moves z amount in
        inr (f z, rw e (rw key refl), keeps z buyer ∙ key, amount', reserved' ∙ reserved)
  ]

  -- An INSERT of the buyer's row.
  pub inserted_step :
      (a b c b' : ℤ) (x y : Entry) → Moved a b c x y → has_key buyer y ≡ false → Moved a b' c x y
  inserted_step a b c b' x y (same, amount, reserved, fit) other =
      let e : has_key buyer x ≡ false = sym (same buyer) ∙ other in
      (same, rw e (rw e at amount), reserved, fit)

  pub inserted-Added :
      (b b' : ℤ) (new : Entry) (zs : List Entry)
      → has_key buyer new ≡ true
      → new.amount ≡ b'
      → new.reserved_amount ≡ pos 0
      → Added b zs
      → count_where (has_key buyer) zs ≡ 0
      → Added b' (zs ++ (new ∷ []))
  unfolding count_where
  inserted-Added b b' new zs key amount reserved h none_there = elim h [
    | inl e ↦ inr (new, rw e refl, key, amount, reserved)
    | inr (z, e, key', _, _) ↦ absurd (omega (arith, rw (e, key') at none_there))
  ]

  -- The DELETE of a row that is used up: the seller's is not, and the buyer's is, if it was added.
  pub seller_kept :
      (x y : Entry) → Moved (pos 0 -ℤ n) (pos 0) (pos 0) x y → is_used_up seller y ≡ false
  seller_kept x y (same, amount, reserved, fit) = elim (Bool-cases (has_key seller x)) [
    | inl e ↦
        let (low, enough, apart) = fit.of_seller e in
        rw (same seller)
          (rw e (not_used_up y.amount (left x.amount y.amount n enough (rw (e, apart) at amount))))
    | inr e ↦ rw (same seller) (rw e refl)
  ]
    where
      left : (v w m : ℤ) → m <ℤ v → w ≡ v +ℤ (pos 0 -ℤ m) +ℤ pos 0 → pos 0 <ℤ w
      left v w m enough e = rw e (omega (int_laws, enough))

  pub buyer_kept : (c : ℤ) (x y : Entry) → Moved (pos 0) (pos 0) c x y → is_used_up buyer y ≡ false
  buyer_kept c x y (same, amount, reserved, fit) = elim (Bool-cases (has_key buyer x)) [
    | inl e ↦ elim (Bool-cases (has_key seller x)) [
      | inl d ↦ absurd (cc ((fit.of_seller d).2, e))
      | inr d ↦ rw (same buyer) (
          rw e
            (not_used_up y.amount (left x.amount y.amount (fit.of_buyer e) (rw (e, d) at amount))))
    ]
    | inr e ↦ rw (same buyer) (rw e refl)
  ]
    where
      left : (v w : ℤ) → pos 0 <ℤ v → w ≡ v +ℤ pos 0 +ℤ pos 0 → pos 0 <ℤ w
      left v w enough e = rw e (omega (int_laws, enough))

  pub deleted_seller :
      (b : ℤ) (zs : List Entry)
      → ((z : Entry) → has_key buyer z ≡ true → has_key seller z ≡ false)
      → Added b zs
      → Added b (delete_where (is_used_up seller) zs)
  unfolding delete_where
  deleted_seller b zs apart h = elim h [
    | inl e ↦ inl (ap (delete_where (is_used_up seller)) e)
    | inr (z, e, key, amount, reserved) ↦
        inr (z, rw e (rw (apart z key) refl), key, amount, reserved)
  ]

  pub deleted_buyer :
      (zs : List Entry) → Added (pos 0) zs → Added (pos 0) (delete_where (is_used_up buyer) zs)
  unfolding delete_where
  deleted_buyer zs h = elim h [
    | inl e ↦ inl (ap (delete_where (is_used_up buyer)) e)
    | inr (z, e, key, amount, reserved) ↦ inl (rw e (rw key (rw amount refl)))
  ]

  -- The row that was added is not the seller's.
  pub none-Added :
      (b : ℤ) (zs : List Entry)
      → ((z : Entry) → has_key buyer z ≡ true → has_key seller z ≡ false)
      → Added b zs
      → count_where (has_key seller) zs ≡ 0
  unfolding count_where
  none-Added b zs apart h = elim h [
    | inl e ↦ rw e refl
    | inr (z, e, key, _, _) ↦ rw e (rw (apart z key) refl)
  ]
