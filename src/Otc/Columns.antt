-- ===== src/Otc/Columns.antt =====
-- The columns of an account that the statements of services/otc-service/handlers/grpc_server.go move,
-- and move back.
use exbanka_4_backend.Shared.Tests.{◌≡◌, refl, false, sym, ap, ◌∙◌}
use exbanka_4_backend.Shared.Int.{ℤ, ◌+ℤ◌, int_laws}
use exbanka_4_backend.Shared.Cents.{to_cents, is_half_cent, to_cents-add, to_cents-sub}
use exbanka_4_backend.Shared.Account.{Account, credit, debit, add_cents, sub_cents}
use exbanka_4_backend.Otc.Statements.{hold, release, pay, unpay}

undone : (b x : ℤ) → is_half_cent x ≡ false → add_cents (sub_cents b x) x ≡ b
undone b x h = rw (to_cents-add (sub_cents b x) x h, to_cents-sub b x h) (omega int_laws)

redone : (b x : ℤ) → is_half_cent x ≡ false → sub_cents (add_cents b x) x ≡ b
redone b x h = rw (to_cents-sub (add_cents b x) x h, to_cents-add b x h) (omega int_laws)

swapped :
    (b x y : ℤ)
    → is_half_cent x ≡ false
    → is_half_cent y ≡ false
    → add_cents (add_cents b y) x ≡ add_cents (add_cents b x) y
swapped b x y h k =
    to_cents-add (add_cents b y) x h
    ∙ ap (λ c. c +ℤ to_cents x) (to_cents-add b y k)
    ∙ swap b (to_cents x) (to_cents y)
    ∙ sym (ap (λ c. c +ℤ to_cents y) (to_cents-add b x h))
    ∙ sym (to_cents-add (add_cents b x) y k)
  where
    swap : (b c d : ℤ) → b +ℤ d +ℤ c ≡ b +ℤ c +ℤ d
    swap b c d = omega int_laws

-- Amounts that are no half cents can be taken back from the columns that they have moved.
module _ (x : ℤ) (h : is_half_cent x ≡ false) where
  pub release-hold : (a : Account) → release x (hold x a) ≡ a
  release-hold a = rw (undone a.available_balance x h) refl

  pub unpay-pay : (a : Account) → unpay x (pay x a) ≡ a
  unpay-pay a = rw (undone a.balance x h) refl

  pub debit-credit : (a : Account) → debit x (credit x a) ≡ a
  debit-credit a = rw (redone a.balance x h, redone a.available_balance x h) refl

  pub unpay-credit :
      (y : ℤ) → is_half_cent y ≡ false → (a : Account) → unpay x (credit y a) ≡ credit y (unpay x a)
  unpay-credit y k a = rw (swapped a.balance x y h k) refl
