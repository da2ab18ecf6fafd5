-- ===== src/Card/Deactivated.antt =====
-- The status of a card through the calls of services/card-service/handlers/grpc_server.go: one
-- lemma for each call, on a card that is deactivated.
use exbanka_4_backend.Shared.Tests.{
  ℕ, ◌≡◌, refl, true, false, not, Option, none, some, List, [], ◌∷◌, String, arith, Bool-cases, inl,
  inr,
}
use exbanka_4_backend.Shared.Int.{ℤ}
use exbanka_4_backend.Shared.Table.{
  find_where, update_where, find_where-update_where, find_where_fits, count_where_pos,
}
use exbanka_4_backend.Shared.Database.{Result, insert_returning}
use exbanka_4_backend.Shared.Ensures.{
  Ensures, Ensures-pure, Ensures-throw_if, Ensures-exec, Ensures-insert_returning, Ensures-tried,
  Ensures-then, ensures_rules,
}
use exbanka_4_backend.Card.Brand.{bytes_eq, bytes_eq→eq}
use exbanka_4_backend.Card.State.{
  CardStatus, blocked, deactivated, Card, AuthorizedPerson, CardRequest, Store, CreateRequest, Env,
  is_active, is_deactivated, has_card_number,
}
use exbanka_4_backend.Card.Lifecycle.{
  fetch_card, get_account_owner_id, set_status, set_limit, with_status, with_limit, block_fetched,
  block_owned, block_card, unblock_card, deactivate_card, update_card_limit,
}
use exbanka_4_backend.Card.Creation.{
  get_account_type, count_all_cards, count_owner_cards, check_personal, check_owner, check_limit,
  insert_person, add_person, person_of, is_taken, fresh_number, place_card, store_card, issue_card,
  create_card, insert_request, initiate_card_request, set_used, confirm_card_request,
}

-- The card with this number is there and deactivated.
abbrev pub IsDeactivated : List ℕ → Store → Type 0
IsDeactivated n s =
    (c : Card) × (find_where (has_card_number n) s.cards ≡ some c) × (c.status ≡ deactivated)

module _ (n : List ℕ) where
  -- The card that a call finds under a number that the deactivated card has is that card.
  same_card :
      (m : List ℕ) (s : Store) (c d : Card)
      → find_where (has_card_number n) s.cards ≡ some c
      → c.status ≡ deactivated
      → has_card_number m c ≡ true
      → find_where (has_card_number m) s.cards ≡ some d
      → d.status ≡ deactivated
  same_card m s c d found st fits got =
      let n_is : c.card_number ≡ n =
        bytes_eq→eq _ _ (find_where_fits (has_card_number n) s.cards found) in
      let m_is : c.card_number ≡ m = bytes_eq→eq _ _ fits in
      let same : find_where (has_card_number n) s.cards ≡ some d = rw (← n_is, m_is) got in cc

  update-IsDeactivated :
      (m : List ℕ) (f : Card → Card) (s : Store) (d : Card)
      → ((c : Card) → has_card_number n (f c) ≡ has_card_number n c)
      → find_where (has_card_number m) s.cards ≡ some d
      → (d.status ≡ deactivated → ⊥)
      → IsDeactivated n s
      → IsDeactivated n (record s { cards = update_where (has_card_number m) f s.cards })
  update-IsDeactivated m f s d keeps got live (c, found, st) =
      elim (Bool-cases (has_card_number m c)) [
        | inl fits ↦ absurd (live (same_card m s c d found st fits got))
        | inr other ↦ (
          c,
          rw
              (
                find_where-update_where (has_card_number n) (has_card_number m) f s.cards keeps,
                found,
              )
              (rw other refl),
          st,
        )
      ]

  not_taken :
      (m : List ℕ) (s : Store) (k : Card)
      → find_where (has_card_number n) s.cards ≡ some k
      → is_taken m s ≡ false
      → bytes_eq m n ≡ false
  not_taken m s k found free = elim (Bool-cases (bytes_eq m n)) [
    | inr other ↦ other
    | inl same ↦
        let m_is : m ≡ n = bytes_eq→eq m n same in
        let taken =
          count_where_pos (has_card_number n) (has_card_number n) s.cards found
            (find_where_fits (has_card_number n) s.cards found) in
        ground (arith, rw m_is at free, taken)
  ]

  place_card-IsDeactivated :
      (c : Card) (s : Store) (d : Card) (s' : Store)
      → place_card c s ≡ some (d, s')
      → IsDeactivated n s
      → IsDeactivated n s'
  unfolding place_card find_where
  place_card-IsDeactivated c s d s' e (k, found, st) =
      elim (Bool-cases (is_taken c.card_number s)) [
        | inl taken ↦ absurd (cc (rw taken at e))
        | inr free ↦ (k, ground (arith, e, free, found, not_taken c.card_number s k found free), st)
      ]

  abbrev Kept : {A : Type 0} → Result A → Store → Type 0
  Kept _ s = IsDeactivated n s

  not_active : (st : CardStatus) → not (is_active st) ≡ false → st ≡ deactivated → ⊥
  not_active st a d = ground arith

  not_deactivated : (st : CardStatus) → is_deactivated st ≡ false → st ≡ deactivated → ⊥
  not_deactivated st a d = ground arith

  set_status-Kept :
      (m : List ℕ) (st : CardStatus) (s : Store) (d : Card)
      → find_where (has_card_number m) s.cards ≡ some d
      → (d.status ≡ deactivated → ⊥)
      → IsDeactivated n s
      → IsDeactivated n (set_status m st s)
  unfolding set_status
  set_status-Kept m st s d got live h =
      update-IsDeactivated m (with_status st) s d (λ c. refl) got live h

  set_limit-Kept :
      (m : List ℕ) (x : ℤ) (s : Store) (d : Card)
      → find_where (has_card_number m) s.cards ≡ some d
      → (d.status ≡ deactivated → ⊥)
      → IsDeactivated n s
      → IsDeactivated n (set_limit m x s)
  unfolding set_limit
  set_limit-Kept m x s d got live h =
      update-IsDeactivated m (with_limit x) s d (λ c. refl) got live h

  module _ (m : List ℕ) (s : Store) (h : IsDeactivated n s) where
    owner-Kept : (a : String) → Ensures (λ _. IsDeactivated n) (get_account_owner_id a) s
    unfolding get_account_owner_id
    owner-Kept a = search (ensures_rules, h) depth 5

  module _ (m : List ℕ) (s : Store) (c : Card) (h : IsDeactivated n s)
      (got : find_where (has_card_number m) s.cards ≡ some c) where
    block_fetched-Kept : Ensures (λ _. IsDeactivated n) (block_fetched m c) s
    unfolding block_fetched
    block_fetched-Kept =
        Ensures-throw_if _ _ _ (λ _. h)
          (λ a.
            let still = set_status-Kept m blocked s c got (not_active c.status a) h in
            Ensures-exec _ _ h (search (Ensures-tried, Ensures-pure, owner-Kept, still) depth 8))

    block_owned-Kept : (caller : ℕ) → Ensures (λ _. IsDeactivated n) (block_owned m caller c) s
    unfolding block_owned get_account_owner_id
    block_owned-Kept caller = search (ensures_rules, block_fetched-Kept, h) depth 12

  module _ (m : List ℕ) (s : Store) (h : IsDeactivated n s) where
    pub block_card-Kept :
        (role : String) (caller : ℕ) → Ensures (λ _. IsDeactivated n) (block_card m role caller) s
    unfolding block_card fetch_card
    block_card-Kept role caller =
        search (ensures_rules, block_fetched-Kept, block_owned-Kept, h) depth 12

    pub unblock_card-Kept : Ensures (λ _. IsDeactivated n) (unblock_card m) s
    unfolding unblock_card fetch_card
    unblock_card-Kept = search (ensures_rules, set_status-Kept, not_deactivated, h) depth 12

    pub deactivate_card-Kept : Ensures (λ _. IsDeactivated n) (deactivate_card m) s
    unfolding deactivate_card fetch_card
    deactivate_card-Kept = search (ensures_rules, set_status-Kept, not_deactivated, h) depth 12

    pub update_card_limit-Kept : (x : ℤ) → Ensures (λ _. IsDeactivated n) (update_card_limit m x) s
    unfolding update_card_limit fetch_card
    update_card_limit-Kept x = search (ensures_rules, set_limit-Kept, not_deactivated, h) depth 12

  module _ (req : CreateRequest) (s : Store) (h : IsDeactivated n s) where
    check_limit-Kept : (t : String) → Ensures (λ _. IsDeactivated n) (check_limit t req) s
    unfolding check_limit check_personal check_owner count_all_cards count_owner_cards
    check_limit-Kept t = search (ensures_rules, h) depth 12

  module _ (env : Env) (req : CreateRequest) (s : Store) (h : IsDeactivated n s) where
    insert_person-Kept :
        (a : String) (p : AuthorizedPerson) → IsDeactivated n (insert_person a p s).1
    unfolding insert_person
    insert_person-Kept a p = h

    add_person-Kept :
        (a : String) (p : Option AuthorizedPerson)
        → Ensures (λ _. IsDeactivated n) (add_person env a p) s
    unfolding add_person
    add_person-Kept a none = search (ensures_rules, h) depth 12
    add_person-Kept a (some p) = search (ensures_rules, insert_person-Kept, h) depth 12

    person_of-Kept : Ensures (λ _. IsDeactivated n) (person_of env req) s
    unfolding person_of
    person_of-Kept = search (ensures_rules, add_person-Kept, h) depth 12

    fresh_number-Kept :
        (name : String) (ds : List ℕ) → Ensures (λ _. IsDeactivated n) (fresh_number name ds) s
    unfolding fresh_number
    fresh_number-Kept name [] = search (ensures_rules, h) depth 12
    fresh_number-Kept name (d ∷ ds) =
        let ih = fresh_number-Kept name ds in search (ensures_rules, ih, h) depth 12

    store_card-Kept :
        (p : Option ℕ) (m : List ℕ) (hash : String)
        → Ensures (λ _. IsDeactivated n) (store_card env req p m hash) s
    unfolding store_card
    store_card-Kept p m hash = search (ensures_rules, place_card-IsDeactivated, h) depth 12

  module _ (env : Env) (req : CreateRequest) where
    issue_card-Kept :
        (p : Option ℕ) (s : Store)
        → IsDeactivated n s
        → Ensures (λ _. IsDeactivated n) (issue_card env req p) s
    unfolding issue_card
    issue_card-Kept p s h =
        search (ensures_rules, Ensures-then, fresh_number-Kept, store_card-Kept, h) depth 12

    pub create_card-Kept :
        (s : Store) → IsDeactivated n s → Ensures (λ _. IsDeactivated n) (create_card env req) s
    unfolding create_card get_account_type
    create_card-Kept s h =
        search (ensures_rules, Ensures-then, check_limit-Kept, person_of-Kept, issue_card-Kept, h)
          depth 12

  module _ (s : Store) (h : IsDeactivated n s) where
    insert_request-Kept :
        (r : CardRequest) (x : String × String) (s' : Store)
        → insert_request r s ≡ some (x, s')
        → IsDeactivated n s'
    unfolding insert_request
    insert_request-Kept r x s' e = ground (arith, e, h)

    set_used-Kept : (token : String) → IsDeactivated n (set_used token s)
    unfolding set_used
    set_used-Kept token = h

  module _ (s : Store) (h : IsDeactivated n s) where
    request-Kept :
        (r : CardRequest) → Ensures (λ _. IsDeactivated n) (insert_returning (insert_request r)) s
    request-Kept r = Ensures-insert_returning (insert_request r) h (insert_request-Kept s h r)

  module _ (s : Store) (h : IsDeactivated n s) where
    pub initiate_card_request-Kept :
        (req : CreateRequest) (token : String) (code : Option String) (now : ℕ)
        → Ensures (λ _. IsDeactivated n) (initiate_card_request req token code now) s
    unfolding initiate_card_request get_account_type
    initiate_card_request-Kept req token code now =
        search (ensures_rules, Ensures-then, check_limit-Kept, request-Kept, h) depth 12

    pub confirm_card_request-Kept :
        (env : Env) (token code : String)
        → Ensures (λ _. IsDeactivated n) (confirm_card_request env token code) s
    unfolding confirm_card_request
    confirm_card_request-Kept env token code =
        search (ensures_rules, create_card-Kept, set_used-Kept, h) depth 12
