-- ===== src/Order/Decisions.antt =====
-- Sequences of approvals and declines of one order (services/order-service/approval/service.go),
-- with statements that fail.
use exbanka_4_backend.Shared.Tests.{
  ℕ, ◌≡◌, refl, Bool, false, not, Option, some, List, [], ◌∷◌, String, str_eq, arith, ◌⊎◌, inl, inr,
}
use exbanka_4_backend.Shared.Table.{
  find_where, update_where, find_where-update_where, find_where_fits,
}
use exbanka_4_backend.Shared.Float.{Float}
use exbanka_4_backend.Shared.Database.{Action, Outages, ⊤, update}
use exbanka_4_backend.Shared.Ensures.{
  Ensures, Ensures-tried, Ensures-last, Ensures-attempt, ensures_rules,
}
use exbanka_4_backend.Order.State.{Order, Actuary, Store, order_has_id, has_employee}
use exbanka_4_backend.Order.Approval.{
  get_order_by_id, with_decision, update_order_status, is_actuary, use_limit, deduct_used_limit,
  order_total, deduct_if, deduct_total, deduct, approve_order, decline_order,
}

pub data Decision : Type 0 where
  approve decline : ℕ → Decision

unfoldable pub decide : Float → ℕ → Decision → Action Store ⊤
decide fl i (approve supervisor) = approve_order fl i supervisor
decide fl i (decline supervisor) = decline_order i supervisor

-- The store after decisions on an order, each with the statements of it that fail.
unfoldable pub run_decisions : Float → ℕ → List (Decision × Outages) → Store → Store
run_decisions fl i [] s = s
run_decisions fl i ((d, o) ∷ ds) s = run_decisions fl i ds (decide fl i d s o).1

module _ (fl : Float) (i : ℕ) (start : List Actuary) (o : Order) where
  abbrev used : List Actuary
  used = update_where (has_employee o.user_id) (use_limit (order_total fl o)) start

  -- The order but for its decision, and the limits before or after it was counted.
  abbrev IsOnce : Store → Type 0
  IsOnce s =
      (st : String) × (by : Option ℕ) × (find_where (order_has_id i) s.orders
        ≡ some (with_decision st by o))
      × ((s.actuaries ≡ start) ⊎ ((s.actuaries ≡ used) × (str_eq st "PENDING" ≡ false)))

  abbrev IsFresh : Store → Type 0
  IsFresh s =
      (st : String) × (by : Option ℕ) × (find_where (order_has_id i) s.orders
        ≡ some (with_decision st by o))
      × (s.actuaries ≡ start)
      × (str_eq st "PENDING" ≡ false)

  IsFresh-IsOnce : (s : Store) → IsFresh s → IsOnce s
  IsFresh-IsOnce s (st, by, found, same, decided) = (st, by, found, inl same)

  update_order_status-IsFresh :
      (st : String) (by : Option ℕ) (s : Store) (t : Order)
      → str_eq st "PENDING" ≡ false
      → IsOnce s
      → find_where (order_has_id i) s.orders ≡ some t
      → not (str_eq t.status "PENDING") ≡ false
      → IsFresh (update_order_status i st by s)
  unfolding update_order_status
  update_order_status-IsFresh st by s t decided (st0, by0, found, inl same) got waits = (
    st,
    by,
    rw
        (
          find_where-update_where (order_has_id i) (order_has_id i) (with_decision st by) s.orders
              (λ x. refl),
          found,
        )
        (rw (find_where_fits (order_has_id i) s.orders found) refl),
    same,
    decided,
  )
  update_order_status-IsFresh st by s t decided (st0, by0, found, inr (spent, closed)) got waits =
      let same_row : with_decision st0 by0 o ≡ t = cc in
      let is_waiting : not (str_eq st0 "PENDING") ≡ false = rw (← same_row) at waits in
      absurd (ground (arith, is_waiting, closed))

  deduct_used_limit-IsOnce :
      (s : Store) → IsFresh s → IsOnce (deduct_used_limit o.user_id (order_total fl o) s)
  unfolding deduct_used_limit
  deduct_used_limit-IsOnce s (st, by, found, same, decided) =
      (st, by, found, inr (rw same refl, decided))

  same_user :
      (s : Store) (t : Order)
      → IsOnce s
      → find_where (order_has_id i) s.orders ≡ some t
      → t.user_id ≡ o.user_id
  same_user s t (st, by, found, _) got =
      let same_row : with_decision st by o ≡ t = cc in rw (← same_row) refl

  same_total :
      (s : Store) (t : Order)
      → IsOnce s
      → find_where (order_has_id i) s.orders ≡ some t
      → order_total fl t ≡ order_total fl o
  same_total s t (st, by, found, _) got =
      let same_row : with_decision st by o ≡ t = cc in rw (← same_row) refl

  module _ (t : Order) (user : t.user_id ≡ o.user_id)
      (total : order_total fl t ≡ order_total fl o) where
    spend-IsOnce :
        (s : Store)
        → IsFresh s
        → Ensures (λ _. IsOnce) (update (deduct_used_limit t.user_id (order_total fl t))) s
    spend-IsOnce s h =
        rw (user, total) (Ensures-last _ (IsFresh-IsOnce s h) (deduct_used_limit-IsOnce s h))

    deduct_total-IsOnce : (s : Store) → IsFresh s → Ensures (λ _. IsOnce) (deduct_total fl t) s
    unfolding deduct_total
    deduct_total-IsOnce s h =
        search (ensures_rules, Ensures-tried, Ensures-last, Ensures-attempt, spend-IsOnce, h) depth
          8

    deduct_if-IsOnce :
        (a : Option Bool) (s : Store) → IsFresh s → Ensures (λ _. IsOnce) (deduct_if fl t a) s
    unfolding deduct_if
    deduct_if-IsOnce a s h = search (ensures_rules, deduct_total-IsOnce, IsFresh-IsOnce, h) depth 8

    is_actuary-IsFresh : (n : ℕ) (s : Store) → IsFresh s → Ensures (λ _. IsFresh) (is_actuary n) s
    unfolding is_actuary
    is_actuary-IsFresh n s h = search (ensures_rules, h) depth 6

    deduct-IsOnce : (s : Store) → IsFresh s → Ensures (λ _. IsOnce) (deduct fl t) s
    unfolding deduct
    deduct-IsOnce s h =
        Ensures-attempt IsFresh _ _ (is_actuary-IsFresh t.user_id s h)
          (λ a s' k. deduct_if-IsOnce a s' k)

  approve_order-IsOnce :
      (by : ℕ) (s : Store) → IsOnce s → Ensures (λ _. IsOnce) (approve_order fl i by) s
  unfolding approve_order get_order_by_id
  approve_order-IsOnce by s h =
      search
        (
          ensures_rules, update_order_status-IsFresh, IsFresh-IsOnce, same_user, same_total,
          deduct-IsOnce, h,
        )
        depth 14

  decline_order-IsOnce :
      (by : ℕ) (s : Store) → IsOnce s → Ensures (λ _. IsOnce) (decline_order i by) s
  unfolding decline_order get_order_by_id
  decline_order-IsOnce by s h =
      search (ensures_rules, update_order_status-IsFresh, IsFresh-IsOnce, h) depth 12

  run_decisions-IsOnce :
      (ds : List (Decision × Outages)) (s : Store) → IsOnce s → IsOnce (run_decisions fl i ds s)
  unfolding run_decisions decide
  run_decisions-IsOnce [] s h = h
  run_decisions-IsOnce ((approve by, out) ∷ ds) s h =
      run_decisions-IsOnce ds (approve_order fl i by s out).1 ((approve_order-IsOnce by s h).at out)
  run_decisions-IsOnce ((decline by, out) ∷ ds) s h =
      run_decisions-IsOnce ds (decline_order i by s out).1 ((decline_order-IsOnce by s h).at out)

-- However often supervisors approve and decline an order, in whatever order, and whichever
-- statements fail, the order's total is counted against its user's limit at most once, and against
-- no other limit.
pub run_decisions_once :
    (fl : Float) (i : ℕ) (ds : List (Decision × Outages)) (s : Store) (o : Order)
    → find_where (order_has_id i) s.orders ≡ some o
    → let s' = run_decisions fl i ds s in
      (s'.actuaries ≡ s.actuaries)
      ⊎ (s'.actuaries
          ≡ update_where (has_employee o.user_id) (use_limit (order_total fl o)) s.actuaries)
run_decisions_once fl i ds s o found =
    let (st, by, kept, counted) =
      run_decisions-IsOnce fl i s.actuaries o ds s (o.status, o.approved_by, found, inl refl) in
    elim counted [ inl same ↦ inl same | inr (once, _) ↦ inr once ]
