-- ===== src/Otc/Portfolios.antt =====
-- The portfolios at every stage of ExerciseContract of services/otc-service/handlers/grpc_server.go.
use exbanka_4_backend.Shared.Tests.{
  ℕ, ◌≤◌, ◌≡◌, refl, Bool, true, false, ◌==◌, ◌&&◌, List, [], ◌∷◌, arith, ==_iff, ◌∙◌, Bool-cases,
  inl, inr, ◌⊎◌, str_eq_self, sym, if◌then◌else◌,
}
use exbanka_4_backend.Shared.Int.{ℤ, pos, ◌+ℤ◌, ◌-ℤ◌, int_laws}
use exbanka_4_backend.Shared.Table.{
  count_where, count_where_and, update_where, update_where_guard, update_where_none,
}
use exbanka_4_backend.Shared.Rows.{Rows, AllRows, Rows-self, Rows-refl, Rows-weaken}
use exbanka_4_backend.Shared.Database.{⊤}
use exbanka_4_backend.Otc.State.{Entry, Key, has_key}
use exbanka_4_backend.Otc.Statements.{
  has_free, reserve, new_entry, reserve_funds, release_funds, reserve_shares, release_shares,
  debit_buyer, refund_buyer, credit_seller, debit_seller, deduct_seller, delete_used_up,
  upsert_buyer, restore_seller, upsert_seller, deduct_buyer,
}
use exbanka_4_backend.Otc.Compensation.{Deal, seller_key, buyer_key, shares}
use exbanka_4_backend.Otc.Shares.{SameKey, IsFit, Moved, Added}
use exbanka_4_backend.Otc.Holdings.{
  sellers, on_unreserve, on_reserve, on_deduct, on_give_back, on_take, on_delete_of_seller,
  on_delete_of_buyer, on_upsert_of_buyer, on_upsert_of_seller,
}
use exbanka_4_backend.Otc.Stages.{
  Stage, Stages, untouched, reserved, held, debited, paid, deducted, moved, returned, emptied,
  refunded,
}

-- The seller's and the buyer's portfolio are not one, and the seller has at most one row.
abbrev IsApart : Deal → Type 0
IsApart d = (z : Entry) → has_key (buyer_key d) z ≡ true → has_key (seller_key d) z ≡ false

abbrev pub IsFitDeal : List Entry → Deal → Type 0
IsFitDeal start d =
    IsApart d
    × (count_where (has_key (seller_key d)) start ≤ 1)
    × AllRows (IsFit (seller_key d) (buyer_key d) (shares d)) start

-- The same shares, of which as many reserved.
abbrev SameRow : Entry → Entry → Type 0
SameRow x y = SameKey x y × (y.amount ≡ x.amount) × (y.reserved_amount ≡ x.reserved_amount)

abbrev AtMostEmpty : List Entry → Type 0
AtMostEmpty zs =
    (zs ≡ []) ⊎ ((z : Entry) × (zs ≡ z ∷ []) × (z.amount ≡ pos 0) × (z.reserved_amount ≡ pos 0))

-- Row by row the same shares, and at most a row without shares more.
abbrev pub SameShares : List Entry → List Entry → Type 0
SameShares = Rows SameRow AtMostEmpty

idle : (b : Bool) (v : ℤ) → v +ℤ (if b then pos 0 else pos 0) ≡ v
idle true v = omega int_laws
idle false v = omega int_laws

idle2 : (b c : Bool) (v : ℤ) → v +ℤ (if b then pos 0 else pos 0) +ℤ (if c then pos 0 else pos 0) ≡ v
idle2 b c v = idle c (v +ℤ (if b then pos 0 else pos 0)) ∙ idle b v

module _ (start : List Entry) where
  abbrev NowAt : Deal → ℤ → ℤ → ℤ → List Entry → Type 0
  NowAt d a b c e =
      IsApart d
      × (count_where (has_key (seller_key d)) start ≤ 1)
      × Rows (Moved (seller_key d) (buyer_key d) (shares d) a b c)
          (Added (seller_key d) (buyer_key d) (shares d) b) start e

  -- From the second step on, the seller has a row.
  abbrev HasRow : Deal → Type 0
  HasRow d = (count_where (has_key (seller_key d)) start == 0) ≡ false

  abbrev EntriesAt : Deal → Stage → List Entry → Type 0
  EntriesAt d untouched e = NowAt d (pos 0) (pos 0) (pos 0) e
  EntriesAt d reserved e = NowAt d (pos 0) (pos 0) (pos 0) e
  EntriesAt d held e = HasRow d × NowAt d (pos 0) (pos 0) (shares d) e
  EntriesAt d debited e = HasRow d × NowAt d (pos 0) (pos 0) (shares d) e
  EntriesAt d (paid p) e = HasRow d × NowAt d (pos 0) (pos 0) (shares d) e
  EntriesAt d (refunded p) e = HasRow d × NowAt d (pos 0) (pos 0) (shares d) e
  EntriesAt d (emptied p) e = HasRow d × NowAt d (pos 0) (pos 0) (shares d) e
  EntriesAt d (deducted p) e = HasRow d × NowAt d (pos 0 -ℤ shares d) (pos 0) (pos 0) e
  EntriesAt d (moved p) e = HasRow d × NowAt d (pos 0 -ℤ shares d) (shares d) (pos 0) e
  EntriesAt d (returned p) e = HasRow d × NowAt d (pos 0) (shares d) (shares d) e

  pub begun : (d : Deal) → IsFitDeal start d → EntriesAt d untouched start
  begun d (apart, one, fit) = (
    apart,
    one,
    Rows-self (IsFit (seller_key d) (buyer_key d) (shares d)) _ _ start
        (λ x g. (λ k. refl, sym (idle2 _ _ x.amount), sym (idle _ x.reserved_amount), g)) (inl refl)
        fit,
  )

  pub restored : (d : Deal) (e : List Entry) → EntriesAt d untouched e → SameShares start e
  restored d e (apart, one, h) =
      Rows-weaken _ SameRow _ AtMostEmpty start e
        (λ x y (same, amount, none_reserved, fit).
          (same, amount ∙ idle2 _ _ x.amount, none_reserved ∙ idle _ x.reserved_amount))
        (λ zs k. elim k [
          | inl n ↦ inl n
          | inr (z, one_row, key, amount, none_reserved) ↦ inr (z, one_row, amount, none_reserved)
        ])
        h

  module _ (d : Deal) where
    abbrev guarded : Entry → Bool
    guarded e = has_key (seller_key d) e && has_free (shares d) e

    pub reserve_held :
        (e : List Entry)
        → EntriesAt d untouched e
        → (count_where guarded e == 0) ≡ false
        → EntriesAt d held (update_where guarded (reserve (shares d)) e)
    reserve_held e (apart, one, h) some_row =
        let same =
          sellers (seller_key d) (buyer_key d) (shares d) start apart (pos 0) (pos 0) (pos 0) e h in
        (
          elim (Bool-cases (count_where (has_key (seller_key d)) start == 0)) [
            | inl n ↦
                let no_row =
                  count_where_and (has_key (seller_key d)) (has_free (shares d)) e
                    (same ∙ (==_iff _ 0).0 n) in
                absurd (ground (arith, no_row, some_row))
            | inr n ↦ n
          ],
          (
            apart,
            one,
            rw
                (update_where_guard (has_key (seller_key d)) (has_free (shares d))
                  (reserve (shares d)) e (rw same one) some_row)
                (on_reserve (seller_key d) (buyer_key d) (shares d) start apart e h),
          ),
        )

    pub no_rows :
        (e : List Entry)
        → EntriesAt d untouched e
        → (count_where guarded e == 0) ≡ true
        → EntriesAt d untouched (update_where guarded (reserve (shares d)) e)
    no_rows e h none_there =
        rw (update_where_none guarded (reserve (shares d)) e ((==_iff _ 0).0 none_there)) h

    -- The key of a new row is the key that it was made for.
    pub new_entry-has_key :
        (k : Key) (n price : ℤ) (account : ℕ) (m : ℤ)
        → has_key k (new_entry k n price account m) ≡ true
    new_entry-has_key k n price account m =
        rw ((==_iff k.user_id _).1 refl, str_eq_self k.user_type, (==_iff k.listing_id _).1 refl)
          refl

  -- A step that keeps what the stages have in common.
  pub step :
      (d : Deal) (P Q : Type 0)
      → (IsApart d → HasRow d → P → Q)
      → HasRow d × (IsApart d × (count_where (has_key (seller_key d)) start ≤ 1) × P)
      → HasRow d × (IsApart d × (count_where (has_key (seller_key d)) start ≤ 1) × Q)
  step d P Q f (row, (apart, one, h)) = (row, (apart, one, f apart row h))

  -- The stages of the portfolios, whatever the accounts are.
  unfoldable pub holdings : Stages
  unfolding reserve_funds release_funds reserve_shares release_shares debit_buyer refund_buyer
      credit_seller debit_seller deduct_seller delete_used_up upsert_buyer restore_seller
      upsert_seller deduct_buyer
  holdings = record {
    Fits = IsFitDeal start;
    Owed = λ d p. ⊤;
    At = λ d st a e r. EntriesAt d st e;
    Start = λ a e r. e ≡ start;
    Settled = λ a e. ⊤;
    Restored = λ a e. SameShares start e;
    from_start = λ d s fits h. rw h (begun d fits);
    unchanged =
        λ s h. rw h (Rows-refl SameRow AtMostEmpty start (λ x. (λ k. refl, refl, refl)) (inl refl));
    to_start = λ d s h. restored d s.entries h;
    settles = λ d p s h. tt;
    on_reserve_funds = λ d s h e. h;
    on_no_funds = λ d s h e. h;
    on_release_funds = λ d s h. h;
    on_reserve_shares = λ d s h e. reserve_held d s.entries h e;
    on_no_shares = λ d s h e. no_rows d s.entries h e;
    on_release_shares = λ d s (row, (apart, one, h)).
        (apart, one, on_unreserve (seller_key d) (buyer_key d) (shares d) start apart s.entries h);
    on_debit_buyer = λ d s h. h;
    on_refund_debited = λ d s h. h;
    on_credit_seller = λ d p s due h. h;
    on_refund_paid = λ d p s h. h;
    on_debit_seller = λ d p s h. h;
    on_deduct_seller = λ d p s.
        step d _ _
          (λ apart row. on_deduct (seller_key d) (buyer_key d) (shares d) start apart s.entries);
    on_delete_seller = λ d p s. step d _ _ (λ apart row.
        on_delete_of_seller (seller_key d) (buyer_key d) (shares d) start apart s.entries);
    on_restore_seller = λ d p s. step d _ _ (λ apart row.
        on_give_back (seller_key d) (buyer_key d) (shares d) start apart (pos 0) s.entries);
    on_upsert_buyer = λ d p s. step d _ _ (λ apart row.
        on_upsert_of_buyer (seller_key d) (buyer_key d) (shares d) start apart
          (new_entry (buyer_key d) (shares d) d.contract.strike_price d.buyer_account (pos 0))
          s.entries
          (new_entry-has_key d (buyer_key d) (shares d) d.contract.strike_price d.buyer_account
            (pos 0))
          refl refl);
    on_upsert_seller = λ d p s. step d _ _ (λ apart row.
        on_upsert_of_seller (seller_key d) (buyer_key d) (shares d) start apart
          (new_entry (seller_key d) (shares d) (pos 0) p.account (shares d)) s.entries row);
    on_deduct_buyer = λ d p s.
        step d _ _
          (λ apart row. on_take (seller_key d) (buyer_key d) (shares d) start apart s.entries);
    on_delete_buyer = λ d p s. step d _ _ (λ apart row.
        on_delete_of_buyer (seller_key d) (buyer_key d) (shares d) start apart s.entries);
    on_kept_buyer = λ d p s h. h;
  }
