-- ===== src/BidPool/Sync.antt =====
-- A bid that is up to date with its pool.
use nami_contracts.Base.{
  ℕ, ◌<◌, ◌≡◌, refl, sym, ap, subst, ◌⊎◌, inl, inr, true, false, ◌||◌, Option, none, some, arith,
  ltb, ◌==◌, Bool-cases, ok, or_panic, >>=-eq-ok, ok-injective, or_panic-eq-ok,
}
use nami_contracts.Numeric.{Numeric, IsNumeric, wide_limit}
use nami_contracts.DecimalScaled.{
  DecimalScaled, one, zero_scaled, is_zero, same_scaled, equalise, sub_equalised, sub_for, sub,
  mul_uint_for, mul_uint, div_for, div, normalize,
}
use nami_contracts.DecimalScaled.Exact.{one_times, floor_zero}
use nami_contracts.BidPool.{
  Pool, Bid, reference_of, filled_share, bid_filled_amount, remaining_share, remaining_of_epoch,
  bid_remaining_amount, sync_bid,
}

-- What a bid that is up to date can be filled up to: the sum of its own, which stands in for a
-- snapshot that is missing, or the sum of the pool, which is the snapshot of its epoch.
abbrev pub IsCurrent : Pool → Option DecimalScaled → Type 0
IsCurrent p again = (again ≡ none) ⊎ (again ≡ some p.sum)

module _ ⦃cw : Numeric⦄ (laws : IsNumeric cw) where
  open cw use {u256_add, u256_sub, u256_div, u256_pow}
  open laws use {u256_add_lem, u256_sub_lem, u256_div_lem, u256_pow_lem}

  sub_self : (x : DecimalScaled) → sub x x ≡ ok zero_scaled
  unfolding sub sub_for equalise sub_equalised normalize
  sub_self x =
      let same_scale : (x.scale == x.scale) ≡ true = ground arith in
      let not_less : ltb x.scale x.scale ≡ false = ground arith in
      let nothing : u256_sub x.value x.value ≡ some 0 =
        ground (arith, u256_sub_lem x.value x.value) in
      rw (not_less, same_scale, nothing) refl

  mul_uint_zero : (n : ℕ) → mul_uint zero_scaled n ≡ ok zero_scaled
  unfolding mul_uint mul_uint_for
  mul_uint_zero n = refl

  div_zero : (y : DecimalScaled) → div zero_scaled y ≡ ok zero_scaled
  unfolding div div_for
  div_zero y = refl

  div_self : (x : DecimalScaled) → is_zero x ≡ false → div x x ≡ ok one
  unfolding div div_for
  div_self x e =
      let same_value : same_scaled x x ≡ true = ground arith in rw (e, same_value, div_for) refl

  -- A bid with the pool's snapshots.
  abbrev up_to_date : Pool → ℕ → ℕ → Bid
  up_to_date p amount filled = record {
    amount = amount;
    filled = filled;
    product_snapshot = p.product;
    sum_snapshot = p.sum;
    epoch_snapshot = p.epoch;
  }

  filled_share_again :
      (p : Pool) (amount filled : ℕ) → filled_share (up_to_date p amount filled) p.sum ≡ ok 0
  unfolding filled_share
  filled_share_again p amount filled =
      rw (sub_self p.sum, mul_uint_zero amount, div_zero p.product, floor_zero laws) refl

  reference_again :
      (p : Pool) (amount filled : ℕ) (again : Option DecimalScaled)
      → IsCurrent p again
      → reference_of (up_to_date p amount filled) again ≡ p.sum
  reference_again p amount filled again (inl e) = rw e refl
  reference_again p amount filled again (inr e) = rw e refl

  filled_again :
      (p : Pool) (amount filled : ℕ) (again : Option DecimalScaled)
      → IsCurrent p again
      → bid_filled_amount (up_to_date p amount filled) again ≡ ok 0
  unfolding bid_filled_amount
  filled_again p amount filled again current =
      elim (Bool-cases (is_zero p.product || amount == 0)) [
        | inl z ↦ rw z refl
        | inr nz ↦
            rw (nz, reference_again p amount filled again current)
              (filled_share_again p amount filled)
      ]

  remaining_share_again :
      (p : Pool) (amount filled : ℕ)
      → is_zero p.product ≡ false
      → 0 < amount
      → amount < wide_limit
      → remaining_share p (up_to_date p amount filled) ≡ ok amount
  unfolding remaining_share
  remaining_share_again p amount filled e pos l =
      let (d, run, floor) = one_times laws amount pos l in
      rw (div_self p.product e, run, floor) refl

  remaining_again :
      (p : Pool) (amount filled : ℕ)
      → amount < wide_limit
      → bid_remaining_amount p (up_to_date p amount filled) ≡ ok amount
  unfolding bid_remaining_amount remaining_of_epoch
  remaining_again p amount filled l = elim (Bool-cases (is_zero p.product)) [
    | inl z ↦ rw z refl
    | inr nz ↦ elim (Bool-cases (amount == 0)) [
      | inl none_left ↦ let nothing : amount ≡ 0 = ground arith in rw (nz, nothing) refl
      | inr some_left ↦
          let same_epoch : u256_sub p.epoch p.epoch ≡ some 0 =
            ground (arith, u256_sub_lem p.epoch p.epoch) in
          rw (nz, some_left, same_epoch) (remaining_share_again p amount filled nz (ground arith) l)
    ]
  ]

  sync_again :
      (p : Pool) (amount filled : ℕ) (again : Option DecimalScaled)
      → IsCurrent p again
      → amount < wide_limit
      → filled < wide_limit
      → sync_bid p (up_to_date p amount filled) again ≡ ok (up_to_date p amount filled)
  unfolding sync_bid
  sync_again p amount filled again current l h =
      let kept : u256_add filled 0 ≡ some filled = ground (arith, u256_add_lem filled 0) in
      rw (filled_again p amount filled again current, kept, remaining_again p amount filled l) refl

  again_of :
      (p : Pool) (synced : Bid) (amount filled : ℕ) (again : Option DecimalScaled)
      → IsCurrent p again
      → up_to_date p amount filled ≡ synced
      → filled < wide_limit
      → synced.amount < wide_limit
      → sync_bid p synced again ≡ ok synced
  again_of p synced amount filled again current e h l =
      subst (λ (q : Bid). sync_bid p q again ≡ ok q) e
        (sync_again p amount filled again current
          (subst (λ (n : ℕ). n < wide_limit) (sym (ap (λ (q : Bid). q.amount) e)) l) h)

  -- A bid that has been brought up to date with its pool, and whose amount fits its type, is left as
  -- it is where it is brought up to date again: neither is it filled twice nor does it shrink twice,
  -- whether the snapshot for it is the pool's sum or is missing.
  pub sync_twice :
      (p : Pool) (b synced : Bid) (sum_snapshot again : Option DecimalScaled)
      → sync_bid p b sum_snapshot ≡ ok synced
      → synced.amount < wide_limit
      → IsCurrent p again
      → sync_bid p synced again ≡ ok synced
  unfolding sync_bid
  sync_twice p b synced sum_snapshot again e l current =
      let (share, e1, r1) = >>=-eq-ok (bid_filled_amount b sum_snapshot) _ e in
      let (filled, e2, r2) = >>=-eq-ok (or_panic (u256_add b.filled share)) _ r1 in
      let (amount, e3, r3) = >>=-eq-ok (bid_remaining_amount p b) _ r2 in
      let same_bid : up_to_date p amount filled ≡ synced = ok-injective r3 in
      let fits : filled < wide_limit =
        ground (arith, or_panic-eq-ok _ e2, u256_add_lem b.filled share) in
      again_of p synced amount filled again current same_bid fits l
