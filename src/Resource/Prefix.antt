-- ===== src/Resource/Prefix.antt =====
-- `resource_range_ip`: ranges of addresses that are prefixes, and ranges cut into prefixes.
pub mod Block
pub mod Make
pub mod Chop
use Prim.Native.Nat.{bit_and, bit_or, bit_xor}
use rpki_net.Prelude.{
  ℕ, zero, suc, ◌+◌, ◌-◌, ◌/◌, ◌^◌, Bool, true, false, List, [], ◌∷◌, ltb, leb, ◌==◌, if◌then◌else◌,
}
use rpki_net.Result.{
  Result, ok, err, Error, assertion_error, must_be_prefix, overflow_error, out_of_fuel, guard,
  ◌>>=◌, ◌>>◌,
}
use rpki_net.Resource.Range.{Family, Range, bits, datum, make_range}

-- The loop of `prefixlen`; it returns `prefixlen` and `mask`.
unfoldable pub strip_ones : ℕ → ℕ → ℕ → Result (ℕ × ℕ)
strip_ones zero prefixlen mask = err out_of_fuel
strip_ones (suc fuel) prefixlen mask = elim (bit_and mask 1 == 0) [
  | true ↦ ok (prefixlen, mask)
  | false ↦ strip_ones fuel (prefixlen - 1) (mask / 2)
]

-- `prefixlen`. A mask has no more ones than an address has bits.
unfoldable pub prefixlen : Family → Range → Result ℕ
prefixlen f r = do
  let mask = bit_xor r.min r.max
  guard (bit_and r.min mask == 0) must_be_prefix
  (len, mask') ← strip_ones (suc (bits f)) (bits f) mask
  guard (mask' == 0) must_be_prefix
  ok len

-- `can_be_prefix`
unfoldable pub can_be_prefix : Family → Range → Result Bool
can_be_prefix f r = elim (prefixlen f r) [
  | ok _ ↦ ok true
  | err must_be_prefix ↦ ok false
  | err e ↦ err e
]

-- `make_prefix`
unfoldable pub make_prefix : Family → ℕ → ℕ → Result Range
make_prefix f prefix len = do
  guard (leb len (bits f)) assertion_error
  let mask = 2 ^ (bits f - len) - 1
  guard (bit_and prefix mask == 0) assertion_error
  top ← datum f (bit_or prefix mask)
  make_range prefix top

-- `range_min + mask`, and the assertion on it.
unfoldable pub block_top : Family → ℕ → ℕ → ℕ → Result ℕ
unfolding datum
block_top f range_min range_max width = do
  top ← datum f (range_min + (2 ^ width - 1))
  guard (leb top range_max) assertion_error
  ok top

-- The inner loop of `chop_into_prefixes`: the width of the block that it ends with, and
-- `range_min + mask`.
unfoldable pub fit_block : Family → ℕ → ℕ → ℕ → Result (ℕ × ℕ)
fit_block f range_min range_max zero = do
  top ← block_top f range_min range_max zero
  guard (bit_and range_min (2 ^ zero - 1) == 0) assertion_error
  ok (zero, top)
fit_block f range_min range_max (suc width) = do
  top ← block_top f range_min range_max (suc width)
  elim (bit_and range_min (2 ^ suc width - 1) == 0) [
    | true ↦ ok (suc width, top)
    | false ↦ fit_block f range_min range_max width
  ]

-- A round takes an address at least, and the last one only tests.
abbrev pub chop_fuel : Range → ℕ
chop_fuel r = suc (suc (r.max - r.min))

-- `int_log n` stands for `int(math.log(n, 2))`, a computation in floating point.
module _ (int_log : ℕ → ℕ) where
  -- The outer loop of `chop_into_prefixes`; what it appends stands before what the later rounds
  -- append.
  unfoldable pub chop_loop : Family → ℕ → ℕ → ℕ → Result (List Range)
  chop_loop f zero range_min range_max = err out_of_fuel
  chop_loop f (suc fuel) range_min range_max = elim (leb range_min range_max) [
    | false ↦ ok []
    | true ↦ do
      size ← datum f (range_max - range_min + 1)
      (width, top) ← fit_block f range_min range_max (int_log size)
      block ← make_prefix f range_min (bits f - width)
      after ← datum f (top + 1)
      rest ← chop_loop f fuel after range_max
      ok (block ∷ rest)
  ]

  -- What `chop_into_prefixes` appends to `result`.
  unfoldable pub chop_into_prefixes : Family → Range → Result (List Range)
  chop_into_prefixes f r = elim (prefixlen f r) [
    | ok _ ↦ ok (r ∷ [])
    | err must_be_prefix ↦ chop_loop f (chop_fuel r) r.min r.max
    | err e ↦ err e
  ]
