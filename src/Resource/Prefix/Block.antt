-- ===== src/Resource/Prefix/Block.antt =====
-- The ranges that are prefixes: aligned blocks of a power of two of addresses.
use Prim.Native.Nat.{bit_and, bit_xor}
use rpki_net.Prelude.{
  ℕ, zero, suc, ◌+◌, ◌-◌, ◌*◌, ◌/◌, ◌^◌, ◌≤◌, ◌<◌, ◌≡◌, refl, true, false, arith, ◌==◌, Bool-cases,
  ◌⊎◌, inl, inr, ap, subst, sym, ◌∙◌,
}
use rpki_net.Prelude.Bits.{
  bit_and-one, bit_and_low, bit_xor_low, bit_xor-lt, block_of_bits, two_pow_pos, mask_halves,
  block_halves,
}
use rpki_net.Result.{
  ok, err, Returns, Returns-map, Returns-ok, guard, must_be_prefix, >>=-eq-ok, ok-injective,
}
use rpki_net.Resource.Range.{Family, Range, bits}
use rpki_net.Resource.Prefix.{strip_ones, prefixlen}
use native.Mathlib.Nat.{pow-suc}

-- The range is the aligned block of the addresses that begin with the same `len` bits.
pub record IsPrefixOf (f : Family) (len : ℕ) (r : Range) : Type 0 where
  pub width : ℕ
  pub number : ℕ
  pub length : len + width ≡ bits f
  pub from : r.min ≡ number * 2 ^ width
  pub to : r.max ≡ number * 2 ^ width + (2 ^ width - 1)

strip_ones_mask :
    (k fuel total : ℕ)
    → k < fuel
    → k ≤ total
    → strip_ones fuel total (2 ^ k - 1) ≡ ok (total - k, 0)
unfolding strip_ones
strip_ones_mask k zero total h g = absurd (omega arith)
strip_ones_mask zero (suc fuel) total h g = ap (λ (n : ℕ). ok (n, 0)) (omega arith)
strip_ones_mask (suc k) (suc fuel) total h g =
    let odd : (bit_and (2 ^ suc k - 1) 1 == 0) ≡ false =
      ground (arith, bit_and-one (2 ^ suc k - 1), mask_halves k) in
    let half : (2 ^ suc k - 1) / 2 ≡ 2 ^ k - 1 = omega (arith, mask_halves k) in
    let less : total - suc k ≡ total - 1 - k = omega arith in
    rw (odd, half, less, strip_ones)
      (strip_ones_mask k fuel (total - 1) (omega arith) (omega arith))

-- What the loop leaves of `total` and `mask`.
Stripped : ℕ → ℕ → ℕ × ℕ → Type 0
Stripped total mask r = (k : ℕ) × (r.0 + k ≡ total) × (mask ≡ r.1 * 2 ^ k + (2 ^ k - 1))

-- The loop ends, and gives back the ones that it stripped.
strip_ones-Stripped :
    (n fuel total mask : ℕ)
    → mask < 2 ^ n
    → n < fuel
    → n ≤ total
    → Returns (strip_ones fuel total mask) (Stripped total mask)
unfolding strip_ones Stripped
strip_ones-Stripped n zero total mask h f g = absurd (omega arith)
strip_ones-Stripped zero (suc fuel) total mask h f g =
    let even : (bit_and mask 1 == 0) ≡ true = ground (arith, bit_and-one mask) in
    rw (even, strip_ones) (0, omega arith, omega arith)
strip_ones-Stripped (suc n) (suc fuel) total mask h f g = elim (Bool-cases (bit_and mask 1 == 0)) [
  | inl even ↦ rw (even, strip_ones) (0, omega arith, omega arith)
  | inr odd ↦
      rw (odd, strip_ones)
        (Returns-map (Stripped (total - 1) (mask / 2)) (Stripped total mask)
          (strip_ones fuel (total - 1) (mask / 2))
          (strip_ones-Stripped n fuel (total - 1) (mask / 2) (omega (arith, pow-suc 2 n))
            (omega arith) (omega arith))
          (λ r k. (
            suc k.0,
            omega (arith, k.1),
            ground (arith, bit_and-one mask, k.2, mask_halves k.0, block_halves k.0 r.1 0),
          )))
]

module _ (f : Family) where
  block :
      (r : Range) (len mask : ℕ)
      → mask ≡ bit_xor r.min r.max
      → (res : ℕ × ℕ) → res.1 ≡ 0
      → res.0 ≡ len
      → bit_and r.min mask ≡ 0
      → Stripped (bits f) mask res
      → IsPrefixOf f len r
  unfolding Stripped
  block r len mask em res z el aligned (k, total, ones) =
      let m : mask ≡ 2 ^ k - 1 = omega (arith, ap (λ t. t * 2 ^ k) z) in
      let (q, from, to) =
        block_of_bits k r.min r.max (sym em ∙ m) (subst (λ t. bit_and r.min t ≡ 0) m aligned) in
      record { width = k; number = q; length = omega arith; from = from; to = to }

  -- An aligned block is found to be a prefix.
  pub prefixlen-IsPrefixOf : (r : Range) (len : ℕ) → IsPrefixOf f len r → prefixlen f r ≡ ok len
  unfolding prefixlen
  prefixlen-IsPrefixOf r len p =
      let mask : bit_xor r.min r.max ≡ 2 ^ p.width - 1 =
        rw (p.from, p.to) (bit_xor_low p.width p.number) in
      let aligned : bit_and r.min (2 ^ p.width - 1) ≡ 0 = rw p.from (
        subst (λ n. bit_and n (2 ^ p.width - 1) ≡ 0) (omega arith)
          (bit_and_low p.width p.number 0 (two_pow_pos p.width))) in
      rw
        (
          mask,
          aligned,
          strip_ones_mask p.width (suc (bits f)) (bits f) (omega (arith, p.length))
              (omega (arith, p.length)),
        )
        (ap ok (omega (arith, p.length)))

  -- Only an aligned block is.
  pub prefixlen_sound :
      (r : Range) (len : ℕ)
      → r.min < 2 ^ bits f
      → r.max < 2 ^ bits f
      → prefixlen f r ≡ ok len
      → IsPrefixOf f len r
  unfolding prefixlen
  prefixlen_sound r len lo hi e =
      let mask : ℕ = bit_xor r.min r.max in
      let (_, aligned, e1) = >>=-eq-ok (guard (bit_and r.min mask == 0) must_be_prefix) _ e in
      let (res, er, k) =
        Returns-ok (Stripped (bits f) mask) (strip_ones (suc (bits f)) (bits f) mask) (
          strip_ones-Stripped (bits f) (suc (bits f)) (bits f) mask
            (bit_xor-lt (bits f) r.min r.max lo hi) (omega arith) (omega arith)) in
      let (_, empty, e2) = >>=-eq-ok (guard (res.1 == 0) must_be_prefix) _ (rw er at e1) in
      block r len mask refl res (ground arith) (ok-injective e2) (ground arith) k

  -- There is no other exception.
  pub prefixlen-cases :
      (r : Range)
      → r.min < 2 ^ bits f
      → r.max < 2 ^ bits f
      → ((len : ℕ) × (prefixlen f r ≡ ok len)) ⊎ (prefixlen f r ≡ err must_be_prefix)
  unfolding prefixlen
  prefixlen-cases r lo hi =
      let mask : ℕ = bit_xor r.min r.max in
      let (res, er, k) =
        Returns-ok (Stripped (bits f) mask) (strip_ones (suc (bits f)) (bits f) mask) (
          strip_ones-Stripped (bits f) (suc (bits f)) (bits f) mask
            (bit_xor-lt (bits f) r.min r.max lo hi) (omega arith) (omega arith)) in
      elim (Bool-cases (bit_and r.min mask == 0)) [
        | inr e ↦ inr (rw e refl)
        | inl e ↦ elim (Bool-cases (res.1 == 0)) [
          | inl g ↦ inl (res.0, rw (e, er, g) refl)
          | inr g ↦ inr (rw (e, er, g) refl)
        ]
      ]
