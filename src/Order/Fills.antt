-- ===== src/Order/Fills.antt =====
-- The quantities that the loop of executeOrder (services/order-service/execution/scheduler.go)
-- stores.
use exbanka_4_backend.Shared.Tests.{
  ℕ, ◌+◌, ◌-◌, ◌≤◌, ◌≡◌, ◌==◌, false, Option, none, some, List, [], ◌∷◌, String, arith,
}
use exbanka_4_backend.Shared.Int.{ℤ}
use exbanka_4_backend.Shared.Float.{Float}
use exbanka_4_backend.Shared.Database.{Action, Outages, ⊤, update, row_cases}
use exbanka_4_backend.Shared.Ensures.{
  Ensures, answer_of, Ensures-try, Ensures-last, Ensures-attempt, Ensures-tried, ensures_rules,
}
use exbanka_4_backend.Order.State.{Order, Store}
use exbanka_4_backend.Order.Pricing.{determine_aon_fill_qty}
use exbanka_4_backend.Order.Approval.{update_order_status}
use exbanka_4_backend.Order.Execution.{
  Listing, Tick, fill_qty, insert_portion, update_remaining_portions, set_order_done, decline,
  finish, count_down, record_portion, record_fill, fill, round, execute_loop,
}
use exbanka_4_backend.Order.Within.{filled, IsWithin, settle-IsWithin, record_commission-IsWithin}

module _ (n : ℕ) (o : Order) where
  abbrev AtMost : Store → Type 0
  AtMost s = filled o.id s.portions ≤ n

  AtMost-of : (r : ℕ) (s : Store) → IsWithin o.id n r s → AtMost s
  AtMost-of r s h = omega (arith, h)

  update_order_status-AtMost :
      (st : String) (by : Option ℕ) (s : Store)
      → AtMost s
      → Ensures (λ _. AtMost) (update (update_order_status o.id st by)) s
  unfolding update_order_status
  update_order_status-AtMost st by s h = search (ensures_rules, h) depth 8

  decline-AtMost : (s : Store) → AtMost s → Ensures (λ _. AtMost) (decline o) s
  unfolding decline
  decline-AtMost s h = search (ensures_rules, Ensures-tried, update_order_status-AtMost, h) depth 8

  set_order_done-AtMost :
      (s : Store) → AtMost s → Ensures (λ _. AtMost) (update (set_order_done o.id)) s
  unfolding set_order_done
  set_order_done-AtMost s h = search (ensures_rules, h) depth 8

  finish-AtMost : (s : Store) → AtMost s → Ensures (λ _. AtMost) (finish o) s
  unfolding finish
  finish-AtMost s h = search (ensures_rules, Ensures-tried, set_order_done-AtMost, h) depth 8

  update_remaining-IsWithin :
      (r left : ℕ) (s : Store)
      → IsWithin o.id n r s
      → Ensures (λ _. IsWithin o.id n r) (update (update_remaining_portions o.id left)) s
  unfolding update_remaining_portions
  update_remaining-IsWithin r left s h = search (ensures_rules, h) depth 8

  -- What is left after the attempt to store a portion: the same if it failed.
  abbrev IsStored : ℕ → ℕ → Option ⊤ → Store → Type 0
  IsStored r qty none s = IsWithin o.id n r s
  IsStored r qty (some t) s = IsWithin o.id n (r - qty) s

  insert_portion-IsStored :
      (r qty : ℕ) (price : ℤ) (s : Store)
      → qty ≤ r
      → IsWithin o.id n r s
      → Ensures (λ a. IsStored r qty (answer_of a)) (update (insert_portion o.id qty price)) s
  unfolding insert_portion
  insert_portion-IsStored r qty price s small h = Ensures-last _ h (ground (arith, small, h))

  module _ (rest : ℕ → Action Store ⊤)
      (keeps : (r : ℕ) (s : Store) → IsWithin o.id n r s → Ensures (λ _. AtMost) (rest r) s) where
    count_down-AtMost :
        (left : ℕ) (s : Store)
        → IsWithin o.id n left s
        → Ensures (λ _. AtMost) (count_down o left rest) s
    unfolding count_down
    count_down-AtMost left s h =
        Ensures-attempt (IsWithin o.id n left) _ _ (update_remaining-IsWithin left left s h)
          (λ x s' k. search (ensures_rules, finish-AtMost, AtMost-of left, keeps, k) depth 8)

    stored-AtMost :
        (r qty : ℕ) (x : Option ⊤) (s : Store)
        → IsStored r qty x s
        → Ensures (λ _. AtMost) (row_cases x (rest r) (λ _. count_down o (r - qty) rest)) s
    unfolding row_cases
    stored-AtMost r qty none s h = keeps r s h
    stored-AtMost r qty (some t) s h = count_down-AtMost (r - qty) s h

    record_portion-AtMost :
        (r qty : ℕ) (price : ℤ) (s : Store)
        → qty ≤ r
        → IsWithin o.id n r s
        → Ensures (λ _. AtMost) (record_portion o r qty price rest) s
    unfolding record_portion
    record_portion-AtMost r qty price s small h =
        Ensures-try (IsStored r qty) _ _ (insert_portion-IsStored r qty price s small h)
          (λ x s' k. stored-AtMost r qty x s' k)

    record_fill-AtMost :
        (r qty : ℕ) (price commission : ℤ) (s : Store)
        → qty ≤ r
        → IsWithin o.id n r s
        → Ensures (λ _. AtMost) (record_fill o r qty price commission rest) s
    unfolding record_fill
    record_fill-AtMost r qty price commission s small h =
        Ensures-attempt (IsWithin o.id n r) _ _
          (record_commission-IsWithin o.id n r o commission s h)
          (λ x s' k. record_portion-AtMost r qty price s' small k)

    fill-AtMost :
        (fl : Float) (currency : String) (r : ℕ) (price : ℤ) (qty : ℕ) (s : Store)
        → qty ≤ r
        → IsWithin o.id n r s
        → Ensures (λ _. AtMost) (fill fl o currency r price rest qty) s
    unfolding fill
    fill-AtMost fl currency r price qty s small h =
        Ensures-attempt (IsWithin o.id n r) _ _ (settle-IsWithin o.id n r fl o _ _ currency s h)
          (λ x s' k.
            search (ensures_rules, decline-AtMost, AtMost-of r, record_fill-AtMost, small, k) depth
              8)

    fill_qty_le : (r draw qty : ℕ) → (r == 0) ≡ false → fill_qty o r draw ≡ some qty → qty ≤ r
    unfolding fill_qty determine_aon_fill_qty
    fill_qty_le r draw qty some_left e = ground (arith, some_left, e)

    round-AtMost :
        (fl : Float) (currency : String) (r draw : ℕ) (l : Listing) (s : Store)
        → (r == 0) ≡ false
        → IsWithin o.id n r s
        → Ensures (λ _. AtMost) (round fl o currency r draw rest l) s
    unfolding round
    round-AtMost fl currency r draw l s some_left h =
        search (ensures_rules, keeps, fill-AtMost, fill_qty_le, some_left, h) depth 8

  execute_loop-AtMost :
      (fl : Float) (currency : String) (ts : List Tick) (r : ℕ) (s : Store)
      → IsWithin o.id n r s
      → Ensures (λ _. AtMost) (execute_loop fl o currency ts r) s
  unfolding execute_loop
  execute_loop-AtMost fl currency [] r s h = search (ensures_rules, AtMost-of r, h) depth 8
  execute_loop-AtMost fl currency (t ∷ ts) r s h =
      let keeps = execute_loop-AtMost fl currency ts in
      search (ensures_rules, AtMost-of r, round-AtMost, keeps, h) depth 8

-- The portions that the loop stores for an order, together with those stored before, never add up
-- to more than the order's quantity, if what is left at the start is within it: in every run,
-- whatever the prices and draws are, whichever statements fail, and however long it has run.
pub execute_loop-filled :
    (fl : Float) (o : Order) (currency : String) (ts : List Tick) (s : Store) (out : Outages)
    → filled o.id s.portions + o.remaining_portions ≤ o.quantity
    → filled o.id (execute_loop fl o currency ts o.remaining_portions s out).1.portions ≤ o.quantity
execute_loop-filled fl o currency ts s out h =
    (execute_loop-AtMost o.quantity o fl currency ts o.remaining_portions s h).at out
