-- ===== src/Resource/Prefix/Make.antt =====
-- `make_prefix` makes the aligned blocks, and `prefixlen` recognises them.
use Prim.Native.Nat.{bit_and, bit_or}
use native.Mathlib.Nat.{div-add-mod', mod-lt}
use rpki_net.Prelude.{
  ℕ, ◌+◌, ◌-◌, ◌*◌, ◌/◌, ◌%◌, ◌^◌, ◌≤◌, ◌<◌, ◌≡◌, ◌↔◌, refl, true, arith, leb, ◌==◌, ap, subst, sym,
  ◌∙◌,
}
use rpki_net.Prelude.Bits.{bit_and_low, bit_or_low, two_pow_pos}
use rpki_net.Result.{Result, ok, guard, assertion_error, >>=-eq-ok}
use rpki_net.Resource.Range.{
  Family, asn, ipv4, ipv6, Range, bits, datum, datum-Fits, datum_sound, Fits, make_range-ok,
  make_range_sound,
}
use rpki_net.Resource.Prefix.{prefixlen, make_prefix}
use rpki_net.Resource.Prefix.Block.{IsPrefixOf, prefixlen-IsPrefixOf, prefixlen_sound}

-- The classes of addresses.
abbrev pub IsIp : Family → Type 0
IsIp asn = ⊥
IsIp ipv4 = Unit
IsIp ipv6 = Unit

pub Fits-bits : (f : Family) (n : ℕ) → IsIp f → Fits f n → n < 2 ^ bits f
Fits-bits asn n i h = absurd i
Fits-bits ipv4 n i h = omega arith
Fits-bits ipv6 n i h = omega arith

pub bits-Fits : (f : Family) (n : ℕ) → IsIp f → n < 2 ^ bits f → Fits f n
bits-Fits asn n i h = absurd i
bits-Fits ipv4 n i h = omega arith
bits-Fits ipv6 n i h = omega arith

pub aligned_number : (w p : ℕ) → bit_and p (2 ^ w - 1) ≡ 0 → p ≡ (p / 2 ^ w) * 2 ^ w
aligned_number w p e =
    let split : p / 2 ^ w * 2 ^ w + p % 2 ^ w ≡ p = div-add-mod' p (2 ^ w) in
    let low : bit_and p (2 ^ w - 1) ≡ p % 2 ^ w =
      subst (λ t. bit_and t (2 ^ w - 1) ≡ p % 2 ^ w) split
        (bit_and_low w (p / 2 ^ w) (p % 2 ^ w) (mod-lt p (two_pow_pos w))) in
    omega (arith, split, low)

module _ (f : Family) (q w len prefix : ℕ) (e : prefix ≡ q * 2 ^ w) (l : len + w ≡ bits f) where
  prefix_aligned : bit_and prefix (2 ^ w - 1) ≡ 0
  prefix_aligned =
      rw e
        (subst (λ n. bit_and n (2 ^ w - 1) ≡ 0) (omega arith) (bit_and_low w q 0 (two_pow_pos w)))

  pub prefix_top : bit_or prefix (2 ^ w - 1) ≡ prefix + (2 ^ w - 1)
  prefix_top = rw e (bit_or_low w q)

  pub make_prefix_block :
      Fits f (prefix + (2 ^ w - 1))
      → make_prefix f prefix len ≡ ok (record { min = prefix; max = prefix + (2 ^ w - 1) })
  unfolding make_prefix
  make_prefix_block h =
      let width : bits f - len ≡ w = omega arith in
      let short : leb len (bits f) ≡ true = ground arith in
      rw
        (
          short,
          width,
          prefix_aligned,
          prefix_top,
          datum-Fits f (prefix + (2 ^ w - 1)) h,
          make_range-ok prefix (prefix + (2 ^ w - 1)) (omega arith),
        )
        refl

module _ (f : Family) where
  make_prefix-IsPrefixOf :
      (r : Range) (len : ℕ) → IsPrefixOf f len r → Fits f r.max → make_prefix f r.min len ≡ ok r
  make_prefix-IsPrefixOf r len p h =
      let to : r.max ≡ r.min + (2 ^ p.width - 1) = omega (arith, p.from, p.to) in
      make_prefix_block f p.number p.width len r.min p.from p.length (subst (Fits f) to h)
      ∙ ap {B = Result Range} (λ m. ok (record { min = r.min; max = m })) (sym to)

  make_prefix_sound :
      (prefix len : ℕ) (r : Range)
      → make_prefix f prefix len ≡ ok r
      → (r.min ≡ prefix) × IsPrefixOf f len r
  unfolding make_prefix
  make_prefix_sound prefix len r e =
      let mask : ℕ = 2 ^ (bits f - len) - 1 in
      let (_, short, e1) = >>=-eq-ok (guard (leb len (bits f)) assertion_error) _ e in
      let (_, aligned, e2) = >>=-eq-ok (guard (bit_and prefix mask == 0) assertion_error) _ e1 in
      let (top, et, e3) = >>=-eq-ok (datum f (bit_or prefix mask)) _ e2 in
      let ends = make_range_sound prefix top r e3 in
      let w : ℕ = bits f - len in
      let number : prefix ≡ prefix / 2 ^ w * 2 ^ w = aligned_number w prefix (ground arith) in
      let l : len + w ≡ bits f = ground arith in
      let to = prefix_top f (prefix / 2 ^ w) w len prefix number l in
      (
        ends.0,
        record {
          width = w;
          number = prefix / 2 ^ w;
          length = l;
          from = omega (arith, ends.0, number);
          to = omega (arith, ends.1, datum_sound f (bit_or prefix mask) top et, to, number);
        },
      )

  module _ (prefix len : ℕ) where
    -- `make_prefix` returns a range only if it is the aligned block of the addresses that begin
    -- with the `len` bits of the prefix, and then `prefixlen` gives the length back.
    pub prefixlen-make_prefix :
        (r : Range)
        → make_prefix f prefix len ≡ ok r
        → (r.min ≡ prefix) × IsPrefixOf f len r × (prefixlen f r ≡ ok len)
    prefixlen-make_prefix r e =
        let (m, p) = make_prefix_sound prefix len r e in (m, p, prefixlen-IsPrefixOf f r len p)

  module _ (r : Range) (len : ℕ) (i : IsIp f) (o : r.min ≤ r.max) (h : Fits f r.max) where
    -- For a range of addresses `prefixlen` returns a length exactly if the range is the aligned
    -- block of the addresses that begin with that many bits.
    pub prefixlen_iff : (prefixlen f r ≡ ok len) ↔ IsPrefixOf f len r
    prefixlen_iff = (
      prefixlen_sound f r len (omega (arith, o, Fits-bits f r.max i h)) (Fits-bits f r.max i h),
      prefixlen-IsPrefixOf f r len,
    )

    -- If `prefixlen` returns a length for a range of addresses, `make_prefix` gives the range back.
    pub make_prefix-prefixlen : prefixlen f r ≡ ok len → make_prefix f r.min len ≡ ok r
    make_prefix-prefixlen e = make_prefix-IsPrefixOf r len (prefixlen_iff.0 e) h
