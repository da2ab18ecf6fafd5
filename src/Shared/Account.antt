-- ===== src/Shared/Account.antt =====
-- account_db (services/account-service/db/schema.sql): the rows of `accounts` that the other
-- services read and write, and `currencies` of exchange_db.
use exbanka_4_backend.Shared.Tests.{
  ℕ, ◌<◌, ◌≡◌, refl, Bool, true, Option, none, some, ltb, String, str_eq, ◌==◌, List, [], ◌∷◌,
  arith, inl, inr, Bool-cases, Option-cases, if◌then◌else◌,
}
use exbanka_4_backend.Shared.Int.{ℤ, ◌+ℤ◌, ◌-ℤ◌, int_laws}
use exbanka_4_backend.Shared.Cents.{of_cents, to_cents}
use exbanka_4_backend.Shared.Table.{update_where, update_where_none, count_where, sum_by}

-- Money is in cents here, as the columns hold it.
pub record Account : Type 0 where
  pub id : ℕ
  pub account_number : String
  pub owner_id : ℕ
  pub currency_id : ℕ
  pub account_type : String
  pub status : String
  pub balance : ℤ
  pub available_balance : ℤ
  pub daily_limit : Option ℤ
  pub monthly_limit : Option ℤ
  pub daily_spent : ℤ
  pub monthly_spent : ℤ

pub record Currency : Type 0 where
  pub id : ℕ
  pub code : String

abbrev pub has_number : String → Account → Bool
has_number n a = str_eq a.account_number n

abbrev pub has_id : ℕ → Account → Bool
has_id i a = a.id == i

abbrev pub currency_has_id : ℕ → Currency → Bool
currency_has_id i c = c.id == i

abbrev pub currency_has_code : String → Currency → Bool
currency_has_code k c = str_eq c.code k

-- A column that holds cents, after an amount is added or taken off.
abbrev pub add_cents : ℤ → ℤ → ℤ
add_cents c x = to_cents (of_cents c +ℤ x)

abbrev pub sub_cents : ℤ → ℤ → ℤ
sub_cents c x = to_cents (of_cents c -ℤ x)

-- `SET balance = balance + $1, available_balance = available_balance + $1`
abbrev pub credit : ℤ → Account → Account
credit x a = record a {
  balance = add_cents a.balance x;
  available_balance = add_cents a.available_balance x;
}

-- `SET balance = balance - $1, available_balance = available_balance - $1`
abbrev pub debit : ℤ → Account → Account
debit x a = record a {
  balance = sub_cents a.balance x;
  available_balance = sub_cents a.available_balance x;
}

-- The columns as amounts.
abbrev pub balance_of : Account → ℤ
balance_of a = of_cents a.balance

abbrev pub available_of : Account → ℤ
available_of a = of_cents a.available_balance

-- `… WHERE p ORDER BY id LIMIT 1`
abbrev smaller_id : Account → Option Account → Option Account
smaller_id a none = some a
smaller_id a (some b) = if ltb b.id a.id then some b else some a

unfoldable pub first_by_id : (Account → Bool) → List Account → Option Account
first_by_id p [] = none
first_by_id p (a ∷ t) = let rest = first_by_id p t in if p a then smaller_id a rest else rest

-- What is found fits.
pub first_by_id_fits :
    (p : Account → Bool) (a : Account) (t : List Account) → first_by_id p t ≡ some a → p a ≡ true
unfolding first_by_id
first_by_id_fits p a [] h = cc
first_by_id_fits p a (x ∷ t) h = elim (Bool-cases (p x)) [
  | inl e ↦ elim (Option-cases (first_by_id p t)) [
    | inl n ↦ ground (arith, e, n)
    | inr (b, found) ↦ ground (arith, e, found, first_by_id_fits p b t found)
  ]
  | inr e ↦ first_by_id_fits p a t (rw e at h)
]

-- The row is one of the table's.
pub first_by_id_pos :
    (p q : Account → Bool) (a : Account) (t : List Account)
    → first_by_id p t ≡ some a
    → q a ≡ true
    → 0 < count_where q t
unfolding first_by_id count_where
first_by_id_pos p q a [] h k = cc
first_by_id_pos p q a (x ∷ t) h k = elim (Bool-cases (p x)) [
  | inl e ↦ elim (Option-cases (first_by_id p t)) [
    | inl n ↦ ground (arith, e, n)
    | inr (b, found) ↦ ground (arith, e, found, first_by_id_pos p q b t found)
  ]
  | inr e ↦ omega (arith, first_by_id_pos p q a t (rw e at h) k)
]

-- The balances of all accounts together, in cents.
abbrev pub total_balance : List Account → ℤ
total_balance = sum_by (λ a. a.balance)

module _ (p : Account → Bool) where
  -- One row fits: the total moves by what the row moves.
  pub total_balance-update_where :
      (f : Account → Account) (d : ℤ) (t : List Account)
      → ((a : Account) → (f a).balance ≡ a.balance +ℤ d)
      → count_where p t ≡ 1
      → total_balance (update_where p f t) ≡ total_balance t +ℤ d
  unfolding update_where count_where
  total_balance-update_where f d [] moves h = absurd (omega arith)
  total_balance-update_where f d (x ∷ t) moves h = elim (Bool-cases (p x)) [
    | inl e ↦
        rw e (rw (update_where_none p f t (omega (arith, rw e at h)), moves x) (omega int_laws))
    | inr e ↦
        rw e
          (rw (total_balance-update_where f d t moves (omega (arith, rw e at h))) (omega int_laws))
  ]

  -- An update that keeps a column keeps the rows that are counted by it.
  pub count_where-update_where :
      (q : Account → Bool) (f : Account → Account) (t : List Account)
      → ((a : Account) → p (f a) ≡ p a)
      → count_where p (update_where q f t) ≡ count_where p t
  unfolding update_where count_where
  count_where-update_where q f [] keep = refl
  count_where-update_where q f (x ∷ t) keep = elim (Bool-cases (q x)) [
    | inl e ↦ rw e (rw (keep x, count_where-update_where q f t keep) refl)
    | inr e ↦ rw e (rw (count_where-update_where q f t keep) refl)
  ]
