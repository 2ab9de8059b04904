-- ===== src/Resource/Roa/Back.antt =====
-- `to_roa_prefix_set`, and the way back.
use rpki_net.Prelude.{
  ℕ, ◌+◌, ◌-◌, ◌^◌, ◌≡◌, refl, ap, ◌∙◌, ◌&&◌, ◌||◌, List, [], ◌∷◌, ◌++◌, arith, All, leb,
}
use rpki_net.Result.{Returns, Returns-bind, Returns-map, Returns-ok, ◌>>=◌}
use rpki_net.Resource.Range.{Family, Range, IsRange, Fits, Fits-le, bits, covers, within}
use rpki_net.Resource.Sorted.{covers-depth}
use rpki_net.Resource.Unique.{IsCanonical-unique}
use rpki_net.Resource.Set.{ResourceSet}
use rpki_net.Resource.Set.Overlap.{HasNext}
use rpki_net.Resource.Set.Valid.{IsValid, IsSetWith, All-IsRange}
use rpki_net.Resource.Prefix.{chop_into_prefixes}
use rpki_net.Resource.Prefix.Block.{IsPrefixOf, prefixlen-IsPrefixOf}
use rpki_net.Resource.Prefix.Make.{IsIp, prefix_top}
use rpki_net.Resource.Prefix.Chop.{IsLog, IsChopOf, chop_into_prefixes-IsChopOf}
use rpki_net.Resource.Roa.{
  RoaPrefix, make_roa_prefix, make_roa_set, roa_min, roa_max, chop_all, as_prefixes,
  to_roa_prefix_set, to_resource_set,
}
use rpki_net.Resource.Roa.Sort.{roa_covers}
use rpki_net.Resource.Roa.Union.{IsRoaPrefix, to_resource_set-IsSetWith}

-- A range that is a prefix, of values of the datum type.
abbrev IsBlock : Family → Range → Type 0
IsBlock f r = ((len : ℕ) × IsPrefixOf f len r) × Fits f r.max

All-append : (P : Range → Type 0) (xs ys : List Range) → All P xs → All P ys → All P (xs ++ ys)
All-append P [] ys h k = k
All-append P (x ∷ xs) ys h k = (h.0, All-append P xs ys h.1 k)

covers-append : (x : ℕ) (rs ts : List Range) → covers x (rs ++ ts) ≡ (covers x rs || covers x ts)
covers-append x [] ts = refl
covers-append x (r ∷ rs) ts = ground (arith, covers-append x rs ts)

All-IsBlock :
    (f : Family) (out : List Range)
    → All (λ r. (len : ℕ) × IsPrefixOf f len r) out
    → All (IsRange f) out
    → All (IsBlock f) out
All-IsBlock f [] p r = tt
All-IsBlock f (b ∷ out) p r = ((p.0, r.0.1), All-IsBlock f out p.1 r.1)

chopped-IsBlock :
    (f : Family) (lo hi : ℕ) (out : List Range)
    → Fits f hi
    → IsChopOf f lo hi out
    → All (IsBlock f) out
chopped-IsBlock f lo hi out h c = All-IsBlock f out c.prefixes (
    All-IsRange f lo out c.disjoint
      (λ x p. Fits-le f x hi (ground (arith, c.same x, covers-depth x out)) h))

-- Blocks that hold the numbers of the ranges.
record AreBlocksOf (f : Family) (rs out : List Range) : Type 0 where
  blocks : All (IsBlock f) out
  same : (x : ℕ) → covers x out ≡ covers x rs

-- Prefixes that cover the numbers of the ranges.
record ArePrefixesOf (f : Family) (rs : List Range) (ps : List RoaPrefix) : Type 0 where
  prefixes : All (IsRoaPrefix f) ps
  same : (x : ℕ) → roa_covers f x ps ≡ covers x rs

module _ (int_log : ℕ → ℕ) (is_log : IsLog int_log) (f : Family) (i : IsIp f) where
  chop_all-AreBlocksOf :
      (rs : List Range) → All (HasNext f) rs → Returns (chop_all int_log f rs) (AreBlocksOf f rs)
  unfolding chop_all
  chop_all-AreBlocksOf [] hs = record { blocks = tt; same = λ x. refl }
  chop_all-AreBlocksOf (r ∷ rs) hs =
      let fit : Fits f r.max = Fits-le f r.max (r.max + 1) (omega arith) hs.0.1 in
      Returns-bind (IsChopOf f r.min r.max) _ (chop_into_prefixes int_log f r) _
        (chop_into_prefixes-IsChopOf int_log is_log f i r hs.0.0 fit hs.0.1)
        (λ out c.
          Returns-bind (AreBlocksOf f rs) _ (chop_all int_log f rs) _ (chop_all-AreBlocksOf rs hs.1)
            (λ rest k. record {
              blocks =
                  All-append (IsBlock f) out rest (chopped-IsBlock f r.min r.max out fit c)
                    k.blocks;
              same = λ x. ground (arith, covers-append x out rest, c.same x, k.same x);
            }))

as_prefix : ℕ → ℕ → RoaPrefix
as_prefix prefix len = record { prefix = prefix; prefixlen = len; max_prefixlen = len }

module _ (f : Family) (r : Range) (len : ℕ) (p : IsPrefixOf f len r) (h : Fits f r.max) where
  as_prefix-IsRoaPrefix : IsRoaPrefix f (as_prefix r.min len)
  unfolding as_prefix
  as_prefix-IsRoaPrefix = record {
    width = p.width;
    number = p.number;
    length = p.length;
    aligned = p.from;
    fits = Fits-le f (r.min + (2 ^ p.width - 1)) r.max (omega (arith, p.from, p.to)) h;
  }

  roa_max-as_prefix : roa_max f (as_prefix r.min len) ≡ r.max
  unfolding as_prefix roa_max
  roa_max-as_prefix =
      let width : bits f - len ≡ p.width = omega (arith, p.length) in
      let to : r.min + (2 ^ p.width - 1) ≡ r.max = omega (arith, p.from, p.to) in
      rw width (prefix_top f p.number p.width len r.min p.from p.length ∙ to)

  within-as_prefix :
      (x : ℕ)
      → (leb (roa_min (as_prefix r.min len)) x && leb x (roa_max f (as_prefix r.min len)))
        ≡ within x r
  unfolding as_prefix roa_min
  within-as_prefix x = ap (λ t. leb r.min x && leb x t) roa_max-as_prefix

module _ (f : Family) where
  as_prefixes-ArePrefixesOf :
      (rs : List Range) → All (IsBlock f) rs → Returns (as_prefixes f rs) (ArePrefixesOf f rs)
  unfolding as_prefixes make_roa_prefix as_prefix
  as_prefixes-ArePrefixesOf [] hs = record { prefixes = tt; same = λ x. refl }
  as_prefixes-ArePrefixesOf (r ∷ rs) hs =
      let ((len, p), h) = hs.0 in
      rw (prefixlen-IsPrefixOf f r len p) (
        Returns-bind (ArePrefixesOf f rs) _ (as_prefixes f rs) _ (as_prefixes-ArePrefixesOf rs hs.1)
          (λ ps k. record {
            prefixes = (as_prefix-IsRoaPrefix f r len p h, k.prefixes);
            same = λ x. ground (arith, within-as_prefix f r len p h x, k.same x);
          }))

module _ (int_log : ℕ → ℕ) (is_log : IsLog int_log) (s : ResourceSet) (v : IsValid s)
    (i : IsIp s.family) (next : All (HasNext s.family) s.ranges) where
  -- A well-formed set of addresses of which no range ends at the highest one is cut into prefixes,
  -- and `to_resource_set` makes the same ranges of them, if the logarithm is not overestimated.
  pub to_resource_set-to_roa_prefix_set :
      Returns
        (do ps ← to_roa_prefix_set int_log s; to_resource_set ps)
        (λ u. (u.family ≡ s.family) × (u.ranges ≡ s.ranges))
  unfolding to_roa_prefix_set
  to_resource_set-to_roa_prefix_set =
      let (out, eo, blocks) =
        Returns-ok (AreBlocksOf s.family s.ranges) (chop_all int_log s.family s.ranges)
          (chop_all-AreBlocksOf int_log is_log s.family i s.ranges next) in
      let (ps, ep, k) =
        Returns-ok (ArePrefixesOf s.family out) (as_prefixes s.family out)
          (as_prefixes-ArePrefixesOf s.family out blocks.blocks) in
      rw (eo, ep)
        (Returns-map (IsSetWith s.family (λ x. roa_covers s.family x ps)) _
          (to_resource_set (make_roa_set s.family ps))
          (to_resource_set-IsSetWith s.family ps k.prefixes)
          (λ u z. (
            z.family,
            IsCanonical-unique u.ranges s.ranges z.valid.canonical v.canonical
                (λ x. z.same x ∙ k.same x ∙ blocks.same x),
          )))
