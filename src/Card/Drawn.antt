-- ===== src/Card/Drawn.antt =====
-- The loop of CreateCard of services/card-service/handlers/grpc_server.go that draws card numbers
-- until one is new.
use exbanka_4_backend.Shared.Tests.{
  ℕ, ◌≡◌, refl, Bool, true, false, Option, none, some, List, [], ◌∷◌, ◌++◌, String, arith, ap, ◌∙◌,
  ltb,
}
use exbanka_4_backend.Shared.Database.{Code, Result, ok, err, Outages, pure}
use exbanka_4_backend.Shared.Database.{
  invalid_argument, not_found, permission_denied, failed_precondition, resource_exhausted, internal,
  unanswered,
}
use exbanka_4_backend.Shared.Ensures.{
  Ensures, Ensures-bind, Ensures-query, Ensures-if, Ensures-pure, Ensures-throw_if, Ensures-select,
  ensures_rules,
}
use exbanka_4_backend.Shared.Table.{count_where}
use exbanka_4_backend.Card.Brand.{generate_card_number, bank_iin}
use exbanka_4_backend.Card.State.{Store, CreateRequest, Env, AuthorizedPerson, has_card_number}
use exbanka_4_backend.Card.Creation.{
  get_account_type, count_all_cards, count_owner_cards, check_personal, check_owner, check_limit,
  insert_person, add_person, person_of, is_taken, fresh_number, store_card, issue_card, create_card,
}

abbrev is_code : Code → Bool
is_code c = elim c [
  | invalid_argument ↦ true
  | not_found ↦ true
  | permission_denied ↦ true
  | failed_precondition ↦ true
  | resource_exhausted ↦ true
  | internal ↦ true
  | unanswered ↦ false
]

-- Whether the call has returned, with a value or a code.
abbrev pub is_answered : {A : Type 0} → Result A → Bool
is_answered r = elim r [ ok a ↦ true | err c ↦ is_code c ]

-- A call that returns and leaves the cards as they are.
abbrev Asks : {A : Type 0} → Store → Result A → Store → Type 0
Asks s r s' = (is_answered r ≡ true) × (s'.cards ≡ s.cards)

-- Whether a card has the number that a draw gives.
abbrev pub is_number_taken : CreateRequest → Store → ℕ → Bool
is_number_taken req s d = is_taken (generate_card_number req.card_name bank_iin d) s

module _ (req : CreateRequest) (s : Store) where
  check_limit-Asks : (t : String) → Ensures (Asks s) (check_limit t req) s
  unfolding check_limit check_personal check_owner count_all_cards count_owner_cards
  check_limit-Asks t = search (ensures_rules) depth 12

module _ (env : Env) (s : Store) where
  insert_person-cards :
      (a : String) (p : AuthorizedPerson) → (insert_person a p s).1.cards ≡ s.cards
  unfolding insert_person
  insert_person-cards a p = refl

  add_person-Asks :
      (a : String) (p : Option AuthorizedPerson) → Ensures (Asks s) (add_person env a p) s
  unfolding add_person
  add_person-Asks a none = search (ensures_rules) depth 12
  add_person-Asks a (some p) = search (ensures_rules, insert_person-cards) depth 12

  person_of-Asks : (req : CreateRequest) → Ensures (Asks s) (person_of env req) s
  unfolding person_of
  person_of-Asks req = search (ensures_rules, add_person-Asks) depth 12

module _ (name : String) (s : Store) (d : ℕ) (after : List ℕ)
    (h : is_taken (generate_card_number name bank_iin d) s ≡ false) where
  fresh_number-Asks :
      (before : List ℕ) → Ensures (Asks s) (fresh_number name (before ++ d ∷ after)) s
  unfolding fresh_number
  fresh_number-Asks [] =
      Ensures-query _ _ (refl, refl)
        (Ensures-if (is_taken (generate_card_number name bank_iin d) s) (fresh_number name after)
          (pure (generate_card_number name bank_iin d)) (λ t. ground (arith, h, t))
          (λ f. Ensures-pure _ (refl, refl)))
  fresh_number-Asks (c ∷ before) =
      let ih = fresh_number-Asks before in search (ensures_rules, ih) depth 12

module _ (env : Env) (req : CreateRequest) where
  store_card_answered :
      (p : Option ℕ) (number : List ℕ) (hash : String) (s : Store)
      → Ensures (λ r _. is_answered r ≡ true) (store_card env req p number hash) s
  unfolding store_card
  store_card_answered p number hash s = search (ensures_rules) depth 12

module _ (env : Env) (req : CreateRequest) (s : Store) (before : List ℕ) (d : ℕ) (after : List ℕ)
    (drawn : env.draws ≡ before ++ d ∷ after) (free : is_number_taken req s d ≡ false) where
  issue_card_answered :
      (p : Option ℕ) (s' : Store)
      → s'.cards ≡ s.cards
      → Ensures (λ r _. is_answered r ≡ true) (issue_card env req p) s'
  unfolding issue_card
  issue_card_answered p s' e =
      let free' : is_number_taken req s' d ≡ false =
        ap
          (λ cards.
            ltb 0
              (count_where (has_card_number (generate_card_number req.card_name bank_iin d)) cards))
          e
        ∙ free in
      let number : Ensures (Asks s') (fresh_number req.card_name env.draws) s' =
        rw drawn (fresh_number-Asks req.card_name s' d after free' before) in
      Ensures-bind (Asks s') _ _ number (λ c t i. i.0)
        (λ n t i. search (ensures_rules, store_card_answered) depth 12)

  create_card-Ensures : Ensures (λ r _. is_answered r ≡ true) (create_card env req) s
  unfolding create_card get_account_type
  create_card-Ensures =
      Ensures-throw_if _ _ _ (λ _. refl)
        (λ _.
          Ensures-select _ _ _ refl (λ _. refl)
            (λ t _.
              Ensures-bind (Asks s) _ _ (check_limit-Asks req s t) (λ c x i. i.0)
                (λ u x i.
                  Ensures-bind (Asks x) _ _ (person_of-Asks env x req) (λ c y j. j.0)
                    (λ p y j. issue_card_answered p y (j.1 ∙ i.1)))))

  -- Where one of the draws gives a number that belongs to no card, CreateCard returns, with a value
  -- or with a code of gRPC, whichever of its statements fail.
  pub create_card_answered : (o : Outages) → is_answered (create_card env req s o).0 ≡ true
  create_card_answered o = create_card-Ensures.at o
