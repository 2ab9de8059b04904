-- ===== src/Resource/Prefix/Chop.antt =====
-- `chop_into_prefixes` cuts a range of addresses into prefixes, unless it ends at the highest
-- address.
use Prim.Native.Nat.{bit_and}
use native.Mathlib.Nat.{pow-suc}
use rpki_net.Prelude.{
  ℕ, zero, suc, ◌+◌, ◌-◌, ◌*◌, ◌/◌, ◌^◌, ◌≤◌, ◌<◌, ◌≡◌, refl, true, List, [], ◌∷◌, arith, All, leb,
  ◌==◌, Bool-cases, inl, inr, subst, sym,
}
use rpki_net.Prelude.Bits.{two_pow_pos, bit_and-zero}
use rpki_net.Result.{ok, err, Returns, Returns-bind, Returns-ok, overflow_error, must_be_prefix}
use rpki_net.Resource.Range.{
  Family, Range, bits, datum-Fits, datum-overflow, Fits, Fits-le, covers, within,
}
use rpki_net.Resource.Sorted.{IsDisjoint}
use rpki_net.Resource.Prefix.{
  prefixlen, make_prefix, block_top, fit_block, chop_loop, chop_fuel, chop_into_prefixes,
}
use rpki_net.Resource.Prefix.Block.{IsPrefixOf, prefixlen-cases}
use rpki_net.Resource.Prefix.Make.{
  IsIp, Fits-bits, aligned_number, make_prefix_block, prefixlen_iff,
}

pow_le_cancel : (a b : ℕ) → 2 ^ a ≤ 2 ^ b → a ≤ b
pow_le_cancel zero b h = omega arith
pow_le_cancel (suc a) zero h = absurd (omega (arith, pow-suc 2 a, two_pow_pos a))
pow_le_cancel (suc a) (suc b) h =
    omega (arith, pow_le_cancel a b (omega (arith, pow-suc 2 a, pow-suc 2 b)))

-- The block that the inner loop ends with.
record FitsBlock (lo hi : ℕ) (r : ℕ × ℕ) : Type 0 where
  number : ℕ
  aligned : lo ≡ number * 2 ^ r.0
  top : r.1 ≡ lo + (2 ^ r.0 - 1)
  inside : r.1 ≤ hi

module _ (f : Family) (lo hi : ℕ) (h : Fits f hi) where
  block_top-ok : (w : ℕ) → lo + (2 ^ w - 1) ≤ hi → block_top f lo hi w ≡ ok (lo + (2 ^ w - 1))
  unfolding block_top
  block_top-ok w k =
      let below : leb (lo + (2 ^ w - 1)) hi ≡ true = ground arith in
      rw (datum-Fits f (lo + (2 ^ w - 1)) (Fits-le f (lo + (2 ^ w - 1)) hi k h), below) refl

  fit_block-FitsBlock :
      (w : ℕ) → lo + (2 ^ w - 1) ≤ hi → Returns (fit_block f lo hi w) (FitsBlock lo hi)
  unfolding fit_block
  fit_block-FitsBlock zero k =
      rw (block_top-ok zero k, bit_and-zero lo)
        (record { number = lo; aligned = omega arith; top = refl; inside = omega arith })
  fit_block-FitsBlock (suc w) k = elim (Bool-cases (bit_and lo (2 ^ suc w - 1) == 0)) [
    | inl e ↦
        rw (block_top-ok (suc w) k, e)
          (record {
            number = lo / 2 ^ suc w;
            aligned = aligned_number (suc w) lo (ground arith);
            top = refl;
            inside = k;
          })
    | inr e ↦ rw (block_top-ok (suc w) k, e) (fit_block-FitsBlock w (omega (arith, pow-suc 2 w)))
  ]

-- `out` cuts the range from `lo` to `hi` into prefixes.
pub record IsChopOf (f : Family) (lo hi : ℕ) (out : List Range) : Type 0 where
  pub prefixes : All (λ r. (len : ℕ) × IsPrefixOf f len r) out
  pub disjoint : IsDisjoint lo out
  pub same : (x : ℕ) → covers x out ≡ within x (record { min = lo; max = hi })

-- What the code relies on: the logarithm is not overestimated.
abbrev pub IsLog : (ℕ → ℕ) → Type 0
IsLog int_log = (n : ℕ) → 0 < n → 2 ^ int_log n ≤ n

module _ (int_log : ℕ → ℕ) (is_log : IsLog int_log) (f : Family) (i : IsIp f) where
  -- One round of the outer loop, up to the increment.
  module _ (lo hi : ℕ) (o : lo ≤ hi) (h : Fits f hi) where
    fits_log : lo + (2 ^ int_log (hi - lo + 1) - 1) ≤ hi
    fits_log = omega (arith, is_log (hi - lo + 1), two_pow_pos (int_log (hi - lo + 1)))

    module _ (r : ℕ × ℕ) (k : FitsBlock lo hi r) where
      width-le-bits : r.0 ≤ bits f
      width-le-bits =
          pow_le_cancel r.0 (bits f) (omega (arith, k.top, k.inside, Fits-bits f hi i h))

      this_prefix : make_prefix f lo (bits f - r.0) ≡ ok (record { min = lo; max = r.1 })
      this_prefix =
          subst (λ t. make_prefix f lo (bits f - r.0) ≡ ok (record { min = lo; max = t }))
            (sym k.top)
            (make_prefix_block f k.number r.0 (bits f - r.0) lo k.aligned
              (omega (arith, width-le-bits))
              (Fits-le f (lo + (2 ^ r.0 - 1)) hi (omega (arith, k.top, k.inside)) h))

      this-IsPrefixOf : IsPrefixOf f (bits f - r.0) (record { min = lo; max = r.1 })
      this-IsPrefixOf = record {
        width = r.0;
        number = k.number;
        length = omega (arith, width-le-bits);
        from = k.aligned;
        to = omega (arith, k.top, k.aligned);
      }

  -- A range that ends below the highest address is cut.
  chop_loop-IsChopOf :
      (fuel lo hi : ℕ)
      → hi + 1 < fuel + lo
      → lo ≤ hi + 1
      → Fits f (hi + 1)
      → Returns (chop_loop int_log f fuel lo hi) (IsChopOf f lo hi)
  unfolding chop_loop
  chop_loop-IsChopOf zero lo hi n o h = absurd (omega arith)
  chop_loop-IsChopOf (suc fuel) lo hi n o h = elim (Bool-cases (leb lo hi)) [
    | inr done ↦
        rw (done, chop_loop) (record { prefixes = tt; disjoint = tt; same = λ x. ground arith })
    | inl more ↦
        let le : lo ≤ hi = ground arith in
        let fit : Fits f hi = Fits-le f hi (hi + 1) (omega arith) h in
        let (r, er, k) =
          Returns-ok (FitsBlock lo hi) (fit_block f lo hi (int_log (hi - lo + 1)))
            (fit_block-FitsBlock f lo hi fit (int_log (hi - lo + 1)) (fits_log lo hi le fit)) in
        rw
          (
            more,
            datum-Fits f (hi - lo + 1) (Fits-le f (hi - lo + 1) (hi + 1) (omega arith) h),
            er,
            this_prefix lo hi le fit r k,
            datum-Fits f (r.1 + 1) (Fits-le f (r.1 + 1) (hi + 1) (omega (arith, k.inside)) h),
            chop_loop,
          )
          (Returns-bind (IsChopOf f (r.1 + 1) hi) (IsChopOf f lo hi)
            (chop_loop int_log f fuel (r.1 + 1) hi) _
            (chop_loop-IsChopOf fuel (r.1 + 1) hi (omega (arith, k.top)) (omega (arith, k.inside))
              h)
            (λ out c. record {
              prefixes = ((bits f - r.0, this-IsPrefixOf lo hi le fit r k), c.prefixes);
              disjoint = (omega arith, omega (arith, k.top), c.disjoint);
              same = λ x. ground (arith, c.same x, k.top, k.inside);
            }))
  ]

  -- A range that ends at the highest address overflows at its last prefix, or before.
  chop_loop-top :
      (fuel lo hi : ℕ)
      → hi + 1 < fuel + lo
      → lo ≤ hi
      → Fits f hi
      → ¬ Fits f (hi + 1)
      → chop_loop int_log f fuel lo hi ≡ err overflow_error
  unfolding chop_loop
  chop_loop-top zero lo hi n o h top = absurd (omega arith)
  chop_loop-top (suc fuel) zero hi n o h top =
      let more : leb 0 hi ≡ true = ground arith in
      let size : hi - 0 + 1 ≡ hi + 1 = omega arith in
      rw (more, size, datum-overflow f (hi + 1) top, chop_loop) refl
  chop_loop-top (suc fuel) (suc lo) hi n o h top =
      let more : leb (suc lo) hi ≡ true = ground arith in
      let (r, er, k) =
        Returns-ok (FitsBlock (suc lo) hi) (fit_block f (suc lo) hi (int_log (hi - suc lo + 1))) (
          fit_block-FitsBlock f (suc lo) hi h (int_log (hi - suc lo + 1))
            (fits_log (suc lo) hi o h)) in
      elim (Bool-cases (leb hi r.1)) [
        | inl last ↦
            let IsAt-end : r.1 ≡ hi = ground (arith, k.inside) in
            rw
              (
                more,
                datum-Fits f (hi - suc lo + 1) (Fits-le f (hi - suc lo + 1) hi (omega arith) h),
                er,
                this_prefix (suc lo) hi o h r k,
                IsAt-end,
                datum-overflow f (hi + 1) top,
                chop_loop,
              )
              refl
        | inr before ↦
            rw
              (
                more,
                datum-Fits f (hi - suc lo + 1) (Fits-le f (hi - suc lo + 1) hi (omega arith) h),
                er,
                this_prefix (suc lo) hi o h r k,
                datum-Fits f (r.1 + 1) (Fits-le f (r.1 + 1) hi (ground arith) h),
                chop_loop-top fuel (r.1 + 1) hi (omega (arith, k.top)) (ground arith) h top,
                chop_loop,
              )
              refl
      ]

  module _ (r : Range) (o : r.min ≤ r.max) (h : Fits f r.max) where
    prefix-IsChopOf : (len : ℕ) → IsPrefixOf f len r → IsChopOf f r.min r.max (r ∷ [])
    prefix-IsChopOf len p = record {
      prefixes = ((len, p), tt);
      disjoint = (omega arith, o, tt);
      same = λ x. ground arith;
    }

    -- A range of addresses that ends below the highest one is cut into disjoint prefixes in
    -- ascending order that hold just its addresses, if the logarithm is not overestimated.
    pub chop_into_prefixes-IsChopOf :
        Fits f (r.max + 1) → Returns (chop_into_prefixes int_log f r) (IsChopOf f r.min r.max)
    unfolding chop_into_prefixes
    chop_into_prefixes-IsChopOf next =
        elim (prefixlen-cases f r (omega (arith, Fits-bits f r.max i h)) (Fits-bits f r.max i h)) [
          | inl (len, e) ↦
              rw (e, chop_into_prefixes) (prefix-IsChopOf len ((prefixlen_iff f r len i o h).0 e))
          | inr e ↦
              rw (e, chop_into_prefixes)
                (chop_loop-IsChopOf (chop_fuel r) r.min r.max (omega arith) (omega arith) next)
        ]

    -- A range of addresses that ends at the highest one and is no prefix makes the cutting raise
    -- OverflowError, if the logarithm is not overestimated.
    pub chop_into_prefixes-top :
        ¬ Fits f (r.max + 1)
        → prefixlen f r ≡ err must_be_prefix
        → chop_into_prefixes int_log f r ≡ err overflow_error
    unfolding chop_into_prefixes
    chop_into_prefixes-top top e =
        rw (e, chop_into_prefixes) (chop_loop-top (chop_fuel r) r.min r.max (omega arith) o h top)
