-- ===== src/Resource/AddressExamples.antt =====
-- The theorems on ranges of addresses, ROA prefixes and bags at concrete inputs, and runs of the
-- operations.
use rpki_net.Prelude.{
  ℕ, zero, suc, ◌/◌, ◌^◌, ◌≤◌, ◌<◌, ◌≡◌, ◌↔◌, refl, true, false, ◌&&◌, ◌||◌, not, List, [], ◌∷◌,
  none, ltb, Bool-cases, inl, inr, arith,
}
use rpki_net.Result.{ok, err, must_be_prefix, overflow_error, Returns, ◌>>=◌}
use rpki_net.Resource.Range.{asn, ipv4, ipv6, Range, datum, make_range}
use rpki_net.Resource.Set.{ResourceSet}
use rpki_net.Resource.Set.Construct.{set_of}
use rpki_net.Resource.Set.Valid.{IsSetWith}
use rpki_net.Resource.Prefix.{
  strip_ones, prefixlen, make_prefix, block_top, fit_block, chop_loop, chop_into_prefixes,
}
use rpki_net.Resource.Prefix.Block.{IsPrefixOf}
use rpki_net.Resource.Prefix.Make.{prefixlen-make_prefix, prefixlen_iff, make_prefix-prefixlen}
use rpki_net.Resource.Prefix.Chop.{
  IsLog, IsChopOf, chop_into_prefixes-IsChopOf, chop_into_prefixes-top,
}
use rpki_net.Resource.Roa.{RoaPrefix, make_roa_set, to_resource_set, to_roa_prefix_set}
use rpki_net.Resource.Roa.Sort.{roa_covers}
use rpki_net.Resource.Roa.Union.{to_resource_set-IsSetWith}
use rpki_net.Resource.Roa.Back.{to_resource_set-to_roa_prefix_set}
use rpki_net.Resource.Bag.{
  Bag, bag_eq, bag_intersection, bag_difference, bag_symmetric_difference, oversized, undersized,
}
use rpki_net.Resource.Bag.Equal.{SameNumbers, bag_eq_iff}
use rpki_net.Resource.Bag.Laws.{IsBag, IsBagWith, BagWithin, bag_operations, oversized_iff}

abbrev range : ℕ → ℕ → Range
range lo hi = record { min = lo; max = hi }

-- 10.0.0.0/8
abbrev ten : Range
ten = range 167772160 184549375

program : Unit {0}
unfolding datum make_range strip_ones prefixlen make_prefix block_top fit_block chop_loop
    chop_into_prefixes
program = tt

ten_runs : make_prefix ipv4 167772160 8 ≡ ok ten
unfolding program
ten_runs = refl

prefixlen-make_prefix_example :
    (ten.min ≡ 167772160) × IsPrefixOf ipv4 8 ten × (prefixlen ipv4 ten ≡ ok 8)
prefixlen-make_prefix_example = prefixlen-make_prefix ipv4 167772160 8 ten ten_runs

prefixlen_iff_example : (prefixlen ipv4 ten ≡ ok 8) ↔ IsPrefixOf ipv4 8 ten
prefixlen_iff_example = prefixlen_iff ipv4 ten 8 tt (omega arith) (omega arith)

prefixlen_runs : prefixlen ipv4 ten ≡ ok 8
unfolding program
prefixlen_runs = refl

make_prefix-prefixlen_example : make_prefix ipv4 167772160 8 ≡ ok ten
make_prefix-prefixlen_example =
    make_prefix-prefixlen ipv4 ten 8 tt (omega arith) (omega arith) prefixlen_runs

-- The exact logarithm.
floor_log : ℕ → ℕ → ℕ
floor_log zero n = 0
floor_log (suc fuel) n = elim (ltb n 2) [ true ↦ 0 | false ↦ suc (floor_log fuel (n / 2)) ]

floor_log_le : (fuel n : ℕ) → 0 < n → 2 ^ floor_log fuel n ≤ n
unfolding floor_log
floor_log_le zero n h = omega arith
floor_log_le (suc fuel) n h = elim (Bool-cases (ltb n 2)) [
  | inl e ↦ rw (e, floor_log) (omega arith)
  | inr e ↦
      let more : 1 < n = ground arith in
      let half : 0 < n / 2 = omega arith in
      rw (e, floor_log) (omega (arith, floor_log_le fuel (n / 2) half))
]

abbrev int_log : ℕ → ℕ
int_log n = floor_log 128 n

int_log-IsLog : IsLog int_log
int_log-IsLog n h = floor_log_le 128 n h

chop_into_prefixes_runs :
    chop_into_prefixes int_log ipv4 (range 3 12)
    ≡ ok (range 3 3 ∷ range 4 7 ∷ range 8 11 ∷ range 12 12 ∷ [])
unfolding program floor_log
chop_into_prefixes_runs = refl

chop_into_prefixes-IsChopOf_example :
    Returns (chop_into_prefixes int_log ipv4 (range 3 12)) (IsChopOf ipv4 3 12)
chop_into_prefixes-IsChopOf_example =
    chop_into_prefixes-IsChopOf int_log int_log-IsLog ipv4 tt (range 3 12) (omega arith)
      (omega arith) (omega arith)

top_no_prefix : prefixlen ipv4 (range 1 4294967295) ≡ err must_be_prefix
unfolding program
top_no_prefix = refl

chop_into_prefixes-top_example :
    chop_into_prefixes int_log ipv4 (range 1 4294967295) ≡ err overflow_error
chop_into_prefixes-top_example =
    chop_into_prefixes-top int_log int_log-IsLog ipv4 tt (range 1 4294967295) (omega arith)
      (omega arith) (λ h. absurd (omega arith)) top_no_prefix

abbrev roa : ℕ → ℕ → RoaPrefix
roa prefix len = record { prefix = prefix; prefixlen = len; max_prefixlen = len }

-- Two overlapping prefixes and one beside them.
abbrev roas : List RoaPrefix
roas = roa 8 30 ∷ roa 8 29 ∷ roa 16 28 ∷ []

to_resource_set-IsSetWith_example :
    Returns
      (to_resource_set (make_roa_set ipv4 roas))
      (IsSetWith ipv4 (λ x. roa_covers ipv4 x roas))
to_resource_set-IsSetWith_example = to_resource_set-IsSetWith ipv4 roas (
  record { width = 2; number = 2; length = omega arith; aligned = omega arith; fits = omega arith },
  (
    record {
      width = 3;
      number = 1;
      length = omega arith;
      aligned = omega arith;
      fits = omega arith;
    },
    (
      record {
        width = 4;
        number = 1;
        length = omega arith;
        aligned = omega arith;
        fits = omega arith;
      },
      tt,
    ),
  ),
)

abbrev addresses : ResourceSet
addresses = set_of ipv4 (range 3 12 ∷ range 20 20 ∷ [])

to_resource_set-to_roa_prefix_set_example :
    Returns
      (do ps ← to_roa_prefix_set int_log addresses; to_resource_set ps)
      (λ u. (u.family ≡ ipv4) × (u.ranges ≡ range 3 12 ∷ range 20 20 ∷ []))
to_resource_set-to_roa_prefix_set_example =
    to_resource_set-to_roa_prefix_set int_log int_log-IsLog addresses
      (record { explicit = refl; canonical = omega arith; fits = omega arith }) tt
      ((omega arith, omega arith), ((omega arith, omega arith), tt))

abbrev bag : List Range → Bag
bag rs = record {
  asn_set = set_of asn rs;
  v4_set = set_of ipv4 [];
  v6_set = set_of ipv6 [];
  valid_until = none;
}

abbrev small : Bag
small = bag (range 2 3 ∷ [])

abbrev large : Bag
large = bag (range 1 5 ∷ [])

small-IsBag : IsBag small
small-IsBag = record {
  asn_family = refl;
  v4_family = refl;
  v6_family = refl;
  asn_valid = record { explicit = refl; canonical = omega arith; fits = omega arith };
  v4_valid = record { explicit = refl; canonical = tt; fits = tt };
  v6_valid = record { explicit = refl; canonical = tt; fits = tt };
}

large-IsBag : IsBag large
large-IsBag = record {
  asn_family = refl;
  v4_family = refl;
  v6_family = refl;
  asn_valid = record { explicit = refl; canonical = omega arith; fits = omega arith };
  v4_valid = record { explicit = refl; canonical = tt; fits = tt };
  v6_valid = record { explicit = refl; canonical = tt; fits = tt };
}

bag_operations_example :
    Returns (bag_intersection small large) (IsBagWith (λ p q. p && q) small large)
    × Returns (bag_difference small large) (IsBagWith (λ p q. p && not q) small large)
    × Returns
        (bag_symmetric_difference small large)
        (IsBagWith (λ p q. (p && not q) || (q && not p)) small large)
bag_operations_example = bag_operations small large small-IsBag large-IsBag

oversized_iff_example :
    Returns (oversized small large) (λ u. (u.1 ≡ false) ↔ BagWithin small large)
    × Returns (undersized small large) (λ u. (u.1 ≡ false) ↔ BagWithin large small)
oversized_iff_example = oversized_iff small large small-IsBag large-IsBag

bag_eq_iff_example : Returns (bag_eq small large) (λ e. (e ≡ true) ↔ (
    SameNumbers small.asn_set large.asn_set
    × (SameNumbers small.v4_set large.v4_set
        × (SameNumbers small.v6_set large.v6_set × (small.valid_until ≡ large.valid_until)))))
bag_eq_iff_example = bag_eq_iff small large small-IsBag large-IsBag
