-- ===== src/Resource/Set/Overlap.antt =====
-- `canonize` with `allow_overlap`: ranges that overlap or touch are merged.
use rpki_net.Prelude.{
  ℕ, ◌+◌, ◌≤◌, ◌≡◌, refl, List, [], ◌∷◌, arith, All, leb, if◌then◌else◌, inl, inr, max, Bool-cases,
  true, some, none,
}
use rpki_net.Result.{ok}
use rpki_net.Resource.Range.{Family, asn, ipv4, ipv6, Range, covers, Fits, datum-Fits}
use rpki_net.Resource.Sorted.{
  IsAscending, IsAscending-le, IsCanonical, IsCanonical-le, IsCanonical→IsDisjoint, covers-depth,
}
use rpki_net.Resource.Set.{sort, join_ranges, join_loop, join_all, canonize_ranges}
use rpki_net.Resource.Set.Sort.{depth-sort, All-sort, sort-IsAscending}
use rpki_net.Resource.Set.Canonize.{check_overlap-IsDisjoint}

-- Ranges whose upper ends can be incremented.
abbrev pub HasNext : Family → Range → Type 0
HasNext f r = (r.min ≤ r.max) × Fits f (r.max + 1)

pub record MergedOf (lb : ℕ) (rs out : List Range) : Type 0 where
  pub canonical : IsCanonical lb out
  pub same : (x : ℕ) → covers x out ≡ covers x rs

Fits-max : (f : Family) (a b : ℕ) → Fits f (a + 1) → Fits f (b + 1) → Fits f (max a b + 1)
Fits-max asn a b h k = tt
Fits-max ipv4 a b h k = omega arith
Fits-max ipv6 a b h k = omega arith

module _ (f : Family) where
  join_ranges-overlap :
      (cur next : Range)
      → cur.min ≤ cur.max
      → Fits f (cur.max + 1)
      → join_ranges f true cur next ≡ (
          if leb next.min (cur.max + 1)
          then ok (some (record { min = cur.min; max = max cur.max next.max }))
          else ok none)
  unfolding join_ranges
  join_ranges-overlap cur next o h = rw (datum-Fits f (cur.max + 1) h) (ground arith)

  join_loop-MergedOf :
      (cur : Range) (rest : List Range)
      → HasNext f cur
      → IsAscending cur.min rest
      → All (HasNext f) rest
      → (out : List Range) × (join_loop f true cur rest ≡ ok out)
        × MergedOf cur.min (cur ∷ rest) out
  unfolding join_loop
  join_loop-MergedOf cur [] h a hs =
      (cur ∷ [], refl, record { canonical = omega arith; same = λ x. refl })
  join_loop-MergedOf cur (next ∷ rest) h a hs = elim (Bool-cases (leb next.min (cur.max + 1))) [
    | inl e ↦
        let r : Range = record { min = cur.min; max = max cur.max next.max } in
        let (out, eo, c) =
          join_loop-MergedOf r rest (omega (arith, h.0), Fits-max f cur.max next.max h.1 hs.0.1)
            (IsAscending-le next.min cur.min rest a.0 a.2) hs.1 in
        (
          out,
          rw (join_ranges-overlap cur next h.0 h.1, e) eo,
          record { canonical = c.canonical; same = λ x. ground (arith, c.same x) },
        )
    | inr e ↦
        let (out, eo, c) = join_loop-MergedOf next rest hs.0 a.2 hs.1 in
        (
          cur ∷ out,
          rw (join_ranges-overlap cur next h.0 h.1, e, eo) refl,
          record {
            canonical = (
              omega arith,
              h.0,
              IsCanonical-le next.min (cur.max + 2) out (ground arith) c.canonical,
            );
            same = λ x. ground (arith, c.same x);
          },
        )
  ]

  join_all-MergedOf :
      (rs : List Range)
      → IsAscending 0 rs
      → All (HasNext f) rs
      → (out : List Range) × (join_all f true rs ≡ ok out) × MergedOf 0 rs out
  unfolding join_all
  join_all-MergedOf [] a hs = ([], refl, record { canonical = tt; same = λ x. refl })
  join_all-MergedOf (r ∷ rs) a hs =
      let (out, e, c) = join_loop-MergedOf r rs hs.0 a.2 hs.1 in
      (
        out,
        e,
        record { canonical = IsCanonical-le r.min 0 out (omega arith) c.canonical; same = c.same },
      )

All-HasNext-min : (f : Family) (rs : List Range) → All (HasNext f) rs → All (λ r. r.min ≤ r.max) rs
All-HasNext-min f [] hs = tt
All-HasNext-min f (r ∷ rs) hs = (hs.0.0, All-HasNext-min f rs hs.1)

module _ (f : Family) where
  pub canonize_ranges-MergedOf :
      (rs : List Range)
      → All (HasNext f) rs
      → (out : List Range) × (canonize_ranges f true rs ≡ ok out) × MergedOf 0 rs out
  unfolding canonize_ranges
  canonize_ranges-MergedOf rs hs =
      let a = sort-IsAscending rs (All-HasNext-min f rs hs) in
      let (out, e, c) = join_all-MergedOf f (sort rs) a (All-sort (HasNext f) rs hs) in
      (
        out,
        rw (e, check_overlap-IsDisjoint 0 out (IsCanonical→IsDisjoint 0 out c.canonical)) refl,
        record {
          canonical = c.canonical;
          same = λ x.
              ground
                (arith, c.same x, depth-sort x rs, covers-depth x rs, covers-depth x (sort rs));
        },
      )
