-- ===== src/Otc/Holdings.antt =====
-- The portfolios under ExerciseContract of services/otc-service/handlers/grpc_server.go, from the
-- first step to the last and back.
use exbanka_4_backend.Shared.Tests.{
  ◌≡◌, refl, true, false, ◌==◌, List, arith, ==_iff, Bool-cases, inl, inr,
}
use exbanka_4_backend.Shared.Int.{ℤ, pos, ◌+ℤ◌, ◌-ℤ◌, ◌≤ℤ◌, int_laws, max_ℤ}
use exbanka_4_backend.Shared.Table.{count_where, update_where, delete_where}
use exbanka_4_backend.Shared.Rows.{
  Rows, Rows-update_where, Rows-delete_where, Rows-append, Rows-count,
}
use exbanka_4_backend.Otc.State.{Entry, Key, has_key}
use exbanka_4_backend.Otc.Statements.{
  reserve, unreserve, deduct, add_amount, give_back, take_amount, is_used_up, upsert,
}
use exbanka_4_backend.Otc.Shares.{
  SameKey, Moved, Added, seller_step, buyer_step, seller-Added, buyer-Added, inserted_step,
  inserted-Added, seller_kept, buyer_kept, deleted_seller, deleted_buyer, none-Added,
}

module _ (seller buyer : Key) (n : ℤ) (start : List Entry)
    (apart : (z : Entry) → has_key buyer z ≡ true → has_key seller z ≡ false) where
  -- The portfolios now, against those at the start.
  abbrev pub Now : ℤ → ℤ → ℤ → List Entry → Type 0
  Now a b c e = Rows (Moved seller buyer n a b c) (Added seller buyer n b) start e

  seller_update :
      (a b c a' c' : ℤ) (f : Entry → Entry) (e : List Entry)
      → ((x : Entry) → SameKey x (f x))
      → ((x y : Entry)
          → pos 0 ≤ℤ x.reserved_amount
          → y.amount ≡ x.amount +ℤ a +ℤ pos 0
          → y.reserved_amount ≡ x.reserved_amount +ℤ c
          → ((f y).amount ≡ x.amount +ℤ a' +ℤ pos 0)
            × ((f y).reserved_amount ≡ x.reserved_amount +ℤ c'))
      → Now a b c e
      → Now a' b c' (update_where (has_key seller) f e)
  seller_update a b c a' c' f e keeps moves =
      Rows-update_where (Moved seller buyer n a b c) (Moved seller buyer n a' b c')
        (Added seller buyer n b) (Added seller buyer n b) (has_key seller) f start e
        (λ x y. seller_step seller buyer n a b c a' c' f x y keeps moves)
        (λ zs. seller-Added seller buyer n b f zs apart)

  buyer_update :
      (a b c b' : ℤ) (f : Entry → Entry) (e : List Entry)
      → ((x : Entry) → SameKey x (f x))
      → ((x y : Entry)
          → y.amount ≡ x.amount +ℤ pos 0 +ℤ b
          → ((f y).amount ≡ x.amount +ℤ pos 0 +ℤ b') × ((f y).reserved_amount ≡ y.reserved_amount))
      → ((z : Entry)
          → z.amount ≡ b
          → ((f z).amount ≡ b') × ((f z).reserved_amount ≡ z.reserved_amount))
      → Now a b c e
      → Now a b' c (update_where (has_key buyer) f e)
  buyer_update a b c b' f e keeps moves added =
      Rows-update_where (Moved seller buyer n a b c) (Moved seller buyer n a b' c)
        (Added seller buyer n b) (Added seller buyer n b') (has_key buyer) f start e
        (λ x y. buyer_step seller buyer n a b c b' f x y keeps moves)
        (λ zs. buyer-Added seller buyer n b b' f zs keeps added)

  pub sellers :
      (a b c : ℤ) (e : List Entry)
      → Now a b c e
      → count_where (has_key seller) e ≡ count_where (has_key seller) start
  sellers a b c e =
      Rows-count (Moved seller buyer n a b c) (Added seller buyer n b) (has_key seller) start e
        (λ x y h. h.0 seller) (λ zs. none-Added seller buyer n b zs apart)

  released : (v : ℤ) → pos 0 ≤ℤ v → max_ℤ (pos 0) (v +ℤ n -ℤ n) ≡ v +ℤ pos 0
  released v low = rw (same v) (rw (plus v) (above v low))
    where
      same : (v : ℤ) → v +ℤ n -ℤ n ≡ v
      same v = omega int_laws

      plus : (v : ℤ) → v +ℤ pos 0 ≡ v
      plus v = omega int_laws

      above : (v : ℤ) → pos 0 ≤ℤ v → max_ℤ (pos 0) v ≡ v
      above v low = ground (arith, low)

  pub on_unreserve :
      (e : List Entry)
      → Now (pos 0) (pos 0) n e
      → Now (pos 0) (pos 0) (pos 0) (update_where (has_key seller) (unreserve n) e)
  on_unreserve e =
      seller_update (pos 0) (pos 0) n (pos 0) (pos 0) (unreserve n) e (λ x k. refl)
        (λ x y low amount reserved. (amount, rw reserved (released x.reserved_amount low)))

  pub on_reserve :
      (e : List Entry)
      → Now (pos 0) (pos 0) (pos 0) e
      → Now (pos 0) (pos 0) n (update_where (has_key seller) (reserve n) e)
  on_reserve e =
      seller_update (pos 0) (pos 0) (pos 0) (pos 0) n (reserve n) e (λ x k. refl)
        (λ x y low amount reserved. (amount, rw reserved (omega int_laws)))

  pub on_deduct :
      (e : List Entry)
      → Now (pos 0) (pos 0) n e
      → Now (pos 0 -ℤ n) (pos 0) (pos 0) (update_where (has_key seller) (deduct n) e)
  on_deduct e =
      seller_update (pos 0) (pos 0) n (pos 0 -ℤ n) (pos 0) (deduct n) e (λ x k. refl)
        (λ x y low amount reserved.
          (rw amount (omega int_laws), rw reserved (released x.reserved_amount low)))

  -- The seller's shares come back, reserved.
  pub on_give_back :
      (b : ℤ) (e : List Entry)
      → Now (pos 0 -ℤ n) b (pos 0) e
      → Now (pos 0) b n (update_where (has_key seller) (give_back n) e)
  on_give_back b e =
      seller_update (pos 0 -ℤ n) b (pos 0) (pos 0) n (give_back n) e (λ x k. refl)
        (λ x y low amount reserved. (rw amount (omega int_laws), rw reserved (omega int_laws)))

  pub on_take :
      (e : List Entry)
      → Now (pos 0) n n e
      → Now (pos 0) (pos 0) n (update_where (has_key buyer) (take_amount n) e)
  on_take e =
      buyer_update (pos 0) n n (pos 0) (take_amount n) e (λ x k. refl)
        (λ x y amount. (rw amount (omega int_laws), refl))
        (λ z amount. (rw amount (omega int_laws), refl))

  pub on_delete_of_seller :
      (e : List Entry)
      → Now (pos 0 -ℤ n) (pos 0) (pos 0) e
      → Now (pos 0 -ℤ n) (pos 0) (pos 0) (delete_where (is_used_up seller) e)
  on_delete_of_seller e =
      Rows-delete_where (Moved seller buyer n (pos 0 -ℤ n) (pos 0) (pos 0))
        (Added seller buyer n (pos 0)) (Added seller buyer n (pos 0)) (is_used_up seller) start e
        (λ x y. seller_kept seller buyer n x y)
        (λ zs. deleted_seller seller buyer n (pos 0) zs apart)

  pub on_delete_of_buyer :
      (e : List Entry)
      → Now (pos 0) (pos 0) n e
      → Now (pos 0) (pos 0) n (delete_where (is_used_up buyer) e)
  on_delete_of_buyer e =
      Rows-delete_where (Moved seller buyer n (pos 0) (pos 0) n) (Added seller buyer n (pos 0))
        (Added seller buyer n (pos 0)) (is_used_up buyer) start e
        (λ x y. buyer_kept seller buyer n n x y) (λ zs. deleted_buyer seller buyer n zs)

  -- The buyer's row is updated, or inserted.
  pub on_upsert_of_buyer :
      (new : Entry) (e : List Entry)
      → has_key buyer new ≡ true
      → new.amount ≡ n
      → new.reserved_amount ≡ pos 0
      → Now (pos 0 -ℤ n) (pos 0) (pos 0) e
      → Now (pos 0 -ℤ n) n (pos 0) (upsert buyer new (add_amount n) e)
  unfolding upsert
  on_upsert_of_buyer new e key amount none_reserved h =
      elim (Bool-cases (count_where (has_key buyer) e == 0)) [
        | inl none_there ↦ rw none_there (
            Rows-append (Moved seller buyer n (pos 0 -ℤ n) (pos 0) (pos 0))
              (Moved seller buyer n (pos 0 -ℤ n) n (pos 0)) (Added seller buyer n (pos 0))
              (Added seller buyer n n) (has_key buyer) new start e
              (λ x y. inserted_step seller buyer n (pos 0 -ℤ n) (pos 0) (pos 0) n x y)
              (λ zs. inserted-Added seller buyer n (pos 0) n new zs key amount none_reserved)
              ((==_iff _ 0).0 none_there) h)
        | inr some_there ↦ rw some_there (
            buyer_update (pos 0 -ℤ n) (pos 0) (pos 0) n (add_amount n) e (λ x k. refl)
              (λ x y amount. (rw amount (omega int_laws), refl))
              (λ z amount. (rw amount (omega int_laws), refl)) h)
      ]

  -- The seller's row is there, so the upsert updates it.
  pub on_upsert_of_seller :
      (new : Entry) (e : List Entry)
      → (count_where (has_key seller) start == 0) ≡ false
      → Now (pos 0 -ℤ n) n (pos 0) e
      → Now (pos 0) n n (upsert seller new (give_back n) e)
  unfolding upsert
  on_upsert_of_seller new e there h =
      rw (sellers (pos 0 -ℤ n) n (pos 0) e h, there) (on_give_back n e h)
