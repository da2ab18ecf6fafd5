-- ===== src/Payment/Interbank/Acceptance.antt =====
-- What a YES vote of PrepareInterbankPayment (services/payment-service/handlers/interbank.go)
-- stands for.
use exbanka_4_backend.Shared.Tests.{◌≡◌, Bool, false, Option, none, some, String, str_eq, ◌<◌, ◌&&◌}
use exbanka_4_backend.Shared.Int.{ℤ, pos, ◌<ℤ◌}
use exbanka_4_backend.Shared.Cents.{in_cents}
use exbanka_4_backend.Shared.Table.{find_where, count_where}
use exbanka_4_backend.Shared.Account.{Account, Currency, has_number, currency_has_id}
use exbanka_4_backend.Shared.Database.{Result, ok, err}
use exbanka_4_backend.Shared.Ensures.{Ensures}
use exbanka_4_backend.Payment.Interbank.State.{
  yes_vote, pending, Tx, Posting, Request, Response, Store,
}
use exbanka_4_backend.Payment.Interbank.Prepare.{is_unbalanced, credit_posting}
use exbanka_4_backend.Payment.Interbank.Votes.{find_idem}

abbrev is_code : String → Option Currency → Bool
is_code code none = false
is_code code (some c) = str_eq c.code code

-- An active account with this number, in this currency.
abbrev pub can_take : Store → String → String → Account → Bool
can_take s number code a =
    has_number number a
    && (str_eq a.status "ACTIVE"
        && is_code code (find_where (currency_has_id a.currency_id) s.currencies))

-- What a YES answer given from `s` must leave in the store: a pending row with the amount of the
-- credit posting for an account that can take it, under a request whose postings balance.
abbrev IsAccepted : Request → Store → Result Response → Store → Type 0
IsAccepted req s (ok v) s' =
    v.vote ≡ yes_vote
    → (t : Tx) × (find_idem req s' ≡ some t)
      × (t.status ≡ pending)
      × (t.cached_vote ≡ yes_vote)
      × ((p : Posting) × (credit_posting req.postings ≡ some p)
          × (pos 0 <ℤ p.amount)
          × (t.amount ≡ in_cents p.amount))
      × (0 < count_where (can_take s t.to_account t.currency) s.accounts)
      × (is_unbalanced req.postings ≡ false)
IsAccepted req s (err c) s' = Unit

module _ (req : Request) (s : Store) (fresh : find_idem req s ≡ none) where
  -- It is the amount of the credit posting.
  abbrev IsCredited : ℤ → Type 0
  IsCredited amount =
      (p : Posting) × (credit_posting req.postings ≡ some p)
      × (pos 0 <ℤ p.amount)
      × (amount ≡ p.amount)
