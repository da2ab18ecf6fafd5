-- ===== src/Payment/Interbank/Votes.antt =====
-- The votes of PrepareInterbankPayment (services/payment-service/handlers/interbank.go) and the
-- rows that hold them.
use exbanka_4_backend.Shared.Tests.{
  ◌≡◌, refl, false, Option, none, some, String, arith, Option-cases, inl, inr, str_eq_self,
}
use mathlib.Core.Option
use exbanka_4_backend.Shared.Int.{ℤ}
use exbanka_4_backend.Shared.Table.{find_where}
use exbanka_4_backend.Shared.Account.{Account}
use exbanka_4_backend.Shared.Database.{Outages, Result, ok, err, fails, later, db}
use exbanka_4_backend.Shared.Ensures.{Ensures, ensures_rules, Ensures-pure, Ensures-insert}
use exbanka_4_backend.Payment.Interbank.State.{
  Vote, Tx, Posting, Request, Reason, Response, Store, has_idem,
}
use exbanka_4_backend.Payment.Interbank.Prepare.{
  insert_tx, new_tx, store_vote, check_account, check_receiver, check_person, check_number,
  decide_vote, prepare, cached,
}

abbrev pub find_idem : Request → Store → Option Tx
find_idem req s = find_where (has_idem req.idem_routing req.idem_key) s.txs

-- What a call from `s` has done, by its answer: an error leaves the store alone, and an answer is
-- the vote that the row of its key holds. Accounts and currencies stay as they are.
abbrev pub IsStored : Request → Store → Result Response → Store → Type 0
IsStored req s (ok v) s' =
    (Option.map (λ t. t.cached_vote) (find_idem req s') ≡ some v.vote)
    × (s'.accounts ≡ s.accounts)
    × (s'.currencies ≡ s.currencies)
IsStored req s (err c) s' = s' ≡ s

module _ (req : Request) (s : Store) where
  insert_tx-IsStored :
      (to : String) (amount : ℤ) (currency : String) (vote : Vote) (reason : Option Reason)
      (s' : Store)
      → find_idem req s ≡ none
      → insert_tx req to amount currency vote s ≡ some s'
      → IsStored req s (ok (record { vote = vote; reason = reason })) s'
  unfolding insert_tx new_tx find_where
  insert_tx-IsStored to amount currency vote reason s' h e =
      ground (arith, str_eq_self req.idem_key)

  module _ (fresh : find_idem req s ≡ none) where
    store_vote-IsStored :
        (to : String) (amount : ℤ) (currency : String) (vote : Vote) (reason : Option Reason)
        → Ensures (IsStored req s) (store_vote req to amount currency vote reason) s
    unfolding store_vote
    store_vote-IsStored to amount currency vote reason =
        Ensures-insert _ _ refl
          (λ s' e. Ensures-pure _ (insert_tx-IsStored to amount currency vote reason s' fresh e))

    check_account-IsStored :
        (p : Posting) (resolved : String) (row : Option Account)
        → Ensures (IsStored req s) (check_account req p resolved row) s
    unfolding check_account
    check_account-IsStored p resolved none = store_vote-IsStored _ _ _ _ _
    check_account-IsStored p resolved (some a) =
        search (ensures_rules, store_vote-IsStored) depth 12

    check_receiver-IsStored : (p : Posting) → Ensures (IsStored req s) (check_receiver req p) s
    unfolding check_receiver check_person check_number
    check_receiver-IsStored p =
        search (ensures_rules, store_vote-IsStored, check_account-IsStored) depth 12

    decide_vote-IsStored : Ensures (IsStored req s) (decide_vote req) s
    unfolding decide_vote
    decide_vote-IsStored =
        search (ensures_rules, store_vote-IsStored, check_receiver-IsStored) depth 12

cached-IsStored :
    (req : Request) (s : Store) (t : Tx)
    → find_idem req s ≡ some t
    → IsStored req s (ok (cached t)) s
cached-IsStored req s t found = (rw found refl, refl, refl)

-- In every run of a prepare request, whichever statements fail: an error leaves the store as it
-- was; an answer is the vote that the request's row then holds, and no account or currency has
-- changed.
pub prepare-IsStored : (req : Request) (s : Store) → Ensures (IsStored req s) (prepare req) s
unfolding prepare
prepare-IsStored req s =
    search (ensures_rules, decide_vote-IsStored req s, cached-IsStored req s) depth 12

answer_again :
    (again : Request) (s : Store) (o : Outages) (v : Vote)
    → Option.map (λ t. t.cached_vote) (find_idem again s) ≡ some v
    → fails o ≡ false
    → prepare again s o ≡ (ok (record { vote = v; reason = none }), s, later o)
unfolding prepare db
answer_again again s o v stored up = elim (Option-cases (find_idem again s)) [
  | inl missing ↦ cc (rw missing at stored)
  | inr (t, found) ↦ ground (arith, found, stored)
]

IsStored-vote :
    (req : Request) (s : Store) (r : Result Response) (v : Response) (s' : Store)
    → r ≡ ok v
    → IsStored req s r s'
    → Option.map (λ t. t.cached_vote) (find_idem req s') ≡ some v.vote
IsStored-vote req s r v s' e h = (rw e at h).0

-- A request is answered once: after a prepare request was answered, every later request with its
-- idempotence key, whatever it holds, gets the same vote and changes nothing, unless its own first
-- statement fails.
pub prepare-prepare :
    (req again : Request) (s : Store) (o o' : Outages) (v : Response)
    → (prepare req s o).0 ≡ ok v
    → again.idem_routing ≡ req.idem_routing
    → again.idem_key ≡ req.idem_key
    → fails o' ≡ false
    → let s' = (prepare req s o).1 in
      prepare again s' o' ≡ (ok (record { vote = v.vote; reason = none }), s', later o')
prepare-prepare req again s o o' v answered routing key up =
    answer_again again (prepare req s o).1 o' v.vote
      (rw (routing, key) (IsStored-vote req s _ v _ answered ((prepare-IsStored req s).at o))) up
