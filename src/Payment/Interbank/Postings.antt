-- ===== src/Payment/Interbank/Postings.antt =====
-- The balance check of PrepareInterbankPayment (services/payment-service/handlers/interbank.go)
-- against an independent sum by currency.
use exbanka_4_backend.Shared.Tests.{
  ◌≡◌, ◌↔◌, ◌∙◌, refl, Bool, true, false, List, [], ◌∷◌, String, str_eq, str_eq_iff, str_eq_self,
  arith, if◌then◌else◌, Bool-cases, inl, inr,
}
use exbanka_4_backend.Shared.Int.{ℤ, pos, ◌+ℤ◌, int_laws}
use exbanka_4_backend.Payment.Interbank.State.{Posting}
use exbanka_4_backend.Payment.Interbank.Prepare.{
  add_total, add_totals, is_off, any_off, is_unbalanced,
}

-- The sum of the monetary postings in one currency.
unfoldable pub monetary_sum : String → List Posting → ℤ
monetary_sum c [] = pos 0
monetary_sum c (p ∷ ps) =
    let rest = monetary_sum c ps in
    if str_eq p.account_type "OPTION"
    then rest
    else if str_eq p.currency c
    then p.amount +ℤ rest
    else rest

total_of : String → List (String × ℤ) → ℤ
total_of c [] = pos 0
total_of c ((d, y) ∷ m) = if str_eq d c then y else total_of c m

total_of-add_total :
    (c d : String) (x : ℤ) (m : List (String × ℤ))
    → total_of c (add_total d x m) ≡ (if str_eq d c then total_of c m +ℤ x else total_of c m)
unfolding total_of add_total
total_of-add_total c d x [] = elim (Bool-cases (str_eq d c)) [
  | inl e ↦ rw e (omega int_laws)
  | inr e ↦ rw e refl
]
total_of-add_total c d x ((e, y) ∷ m) =
    ground (arith, str_eq_iff e d, str_eq_iff e c, str_eq_iff d c, total_of-add_total c d x m)

total_of-add_totals :
    (c : String) (m : List (String × ℤ)) (ps : List Posting)
    → total_of c (add_totals m ps) ≡ total_of c m +ℤ monetary_sum c ps
unfolding add_totals monetary_sum
total_of-add_totals c m [] = omega int_laws
total_of-add_totals c m (p ∷ ps) = elim (Bool-cases (str_eq p.account_type "OPTION")) [
  | inl e ↦ rw e (total_of-add_totals c m ps)
  | inr e ↦ rw e (
      rw
        (
          total_of-add_totals c (add_total p.currency p.amount m) ps,
          total_of-add_total c p.currency p.amount m,
        )
        (elim (Bool-cases (str_eq p.currency c)) [
          | inl k ↦ rw k (omega int_laws)
          | inr k ↦ rw k refl
        ]))
]

any_off-total_of :
    (c : String) (m : List (String × ℤ)) → any_off m ≡ false → is_off (total_of c m) ≡ false
unfolding any_off total_of
any_off-total_of c [] h = refl
any_off-total_of c ((d, y) ∷ m) h = ground (arith, any_off-total_of c m)

-- Whether a currency has an entry.
has_key : String → List (String × ℤ) → Bool
has_key c [] = false
has_key c ((d, y) ∷ m) = if str_eq d c then true else has_key c m

abbrev IsDistinct : List (String × ℤ) → Type 0
IsDistinct [] = Unit
IsDistinct ((d, y) ∷ m) = (has_key d m ≡ false) × IsDistinct m

has_key-add_total :
    (c d : String) (x : ℤ) (m : List (String × ℤ))
    → has_key c (add_total d x m) ≡ (if str_eq d c then true else has_key c m)
unfolding has_key add_total
has_key-add_total c d x [] = refl
has_key-add_total c d x ((e, y) ∷ m) =
    ground (arith, str_eq_iff e d, str_eq_iff e c, str_eq_iff d c, has_key-add_total c d x m)

add_total-IsDistinct :
    (d : String) (x : ℤ) (m : List (String × ℤ)) → IsDistinct m → IsDistinct (add_total d x m)
unfolding add_total has_key
add_total-IsDistinct d x [] h = (refl, tt)
add_total-IsDistinct d x ((e, y) ∷ m) h = elim (Bool-cases (str_eq e d)) [
  | inl k ↦ rw k h
  | inr k ↦ rw k (
    ground (arith, has_key-add_total e d x m, str_eq_iff e d, str_eq_iff d e, h.0),
    add_total-IsDistinct d x m h.1,
  )
]

add_totals-IsDistinct :
    (m : List (String × ℤ)) (ps : List Posting) → IsDistinct m → IsDistinct (add_totals m ps)
unfolding add_totals
add_totals-IsDistinct m [] h = h
add_totals-IsDistinct m (p ∷ ps) h = elim (Bool-cases (str_eq p.account_type "OPTION")) [
  | inl e ↦ rw e (add_totals-IsDistinct m ps h)
  | inr e ↦ rw e (
      add_totals-IsDistinct (add_total p.currency p.amount m) ps
        (add_total-IsDistinct p.currency p.amount m h))
]

total_of_no_key : (c : String) (m : List (String × ℤ)) → has_key c m ≡ false → total_of c m ≡ pos 0
unfolding has_key total_of
total_of_no_key c [] h = refl
total_of_no_key c ((d, y) ∷ m) h = ground (arith, total_of_no_key c m)

total_of-tail :
    (c d : String) (y : ℤ) (m : List (String × ℤ))
    → has_key d m ≡ false
    → is_off (total_of c ((d, y) ∷ m)) ≡ false
    → is_off (total_of c m) ≡ false
unfolding total_of
total_of-tail c d y m h k = elim (Bool-cases (str_eq d c)) [
  | inl e ↦ rw (← (str_eq_iff d c).0 e) (rw (total_of_no_key d m h) refl)
  | inr e ↦ rw e at k
]

total_of_head :
    (d : String) (y : ℤ) (m : List (String × ℤ))
    → is_off (total_of d ((d, y) ∷ m)) ≡ false
    → is_off y ≡ false
unfolding total_of
total_of_head d y m h = rw (str_eq_self d) at h

total_of-any_off :
    (m : List (String × ℤ))
    → IsDistinct m
    → ((c : String) → is_off (total_of c m) ≡ false)
    → any_off m ≡ false
unfolding any_off
total_of-any_off [] h all = refl
total_of-any_off ((d, y) ∷ m) h all =
    rw (total_of_head d y m (all d))
      (total_of-any_off m h.1 (λ c. total_of-tail c d y m h.0 (all c)))

-- The check passes exactly when the monetary postings of every currency, summed on their own, are
-- zero up to a thousandth.
pub is_unbalanced_iff :
    (ps : List Posting)
    → (is_unbalanced ps ≡ false) ↔ ((c : String) → is_off (monetary_sum c ps) ≡ false)
unfolding is_unbalanced
is_unbalanced_iff ps = (
  λ h c. rw (sum_lem c) at (any_off-total_of c (add_totals [] ps) h),
  λ all.
      total_of-any_off (add_totals [] ps) (add_totals-IsDistinct [] ps tt)
        (λ c. rw (sum_lem c) (all c)),
)
  where
    sum_lem : (c : String) → total_of c (add_totals [] ps) ≡ monetary_sum c ps
    sum_lem c = total_of-add_totals c [] ps ∙ unfold total_of in omega int_laws
