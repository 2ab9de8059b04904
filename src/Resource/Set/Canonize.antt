-- ===== src/Resource/Set/Canonize.antt =====
-- `canonize` without `allow_overlap`: exactly the sets without overlaps pass it, and come out in
-- canonical form.
use rpki_net.Prelude.{
  ℕ, ◌+◌, ◌≤◌, ◌<◌, ◌≡◌, refl, List, [], ◌∷◌, arith, All, ◌==◌, if◌then◌else◌, inl, inr, ◌⊎◌, ◌∙◌,
  Bool-cases, false, Option, some, none,
}
use rpki_net.Result.{ok, >>=-eq-ok, ok-injective}
use rpki_net.Resource.Range.{Family, Range, depth, IsRange, datum-Fits, datum-cases, Fits-le}
use rpki_net.Resource.Sorted.{
  IsAscending, IsAscending-le, IsDisjoint, IsCanonical, IsCanonical-le, IsAscending→IsDisjoint,
  IsCanonical→IsDisjoint, depth-IsDisjoint,
}
use rpki_net.Resource.Set.{sort, join_ranges, join_loop, join_all, check_overlap, canonize_ranges}
use rpki_net.Resource.Set.Sort.{depth-sort, All-sort, sort-IsAscending}

-- What `canonize` makes of the ranges.
pub record CanonicalOf (lb : ℕ) (rs out : List Range) : Type 0 where
  pub canonical : IsCanonical lb out
  pub same : (x : ℕ) → depth x out ≡ depth x rs

module _ (f : Family) where
  join_ranges-apart :
      (cur next : Range)
      → cur.min ≤ cur.max
      → cur.max < next.min
      → IsRange f next
      → join_ranges f false cur next ≡ (
          if cur.max + 1 == next.min
          then ok (some (record { min = cur.min; max = next.max }))
          else ok none)
  unfolding join_ranges
  join_ranges-apart cur next o h n =
      rw (datum-Fits f (cur.max + 1) (Fits-le f (cur.max + 1) next.max (omega arith) n.1))
        (ground arith)

  join_loop-CanonicalOf :
      (cur : Range) (rest : List Range)
      → cur.min ≤ cur.max
      → IsDisjoint (cur.max + 1) rest
      → All (IsRange f) rest
      → (out : List Range) × (join_loop f false cur rest ≡ ok out)
        × CanonicalOf cur.min (cur ∷ rest) out
  unfolding join_loop
  join_loop-CanonicalOf cur [] o d rs =
      (cur ∷ [], refl, record { canonical = omega arith; same = λ x. refl })
  join_loop-CanonicalOf cur (next ∷ rest) o d rs = elim (Bool-cases (cur.max + 1 == next.min)) [
    | inl e ↦
        let r : Range = record { min = cur.min; max = next.max } in
        let ih = join_loop-CanonicalOf r rest (omega arith) d.2 rs.1 in
        (
          ih.0,
          rw (join_ranges-apart cur next o (omega arith) rs.0, e) ih.1,
          record { canonical = ih.2.canonical; same = λ x. ground (arith, ih.2.same x) },
        )
    | inr e ↦
        let ih = join_loop-CanonicalOf next rest d.1 d.2 rs.1 in
        (
          cur ∷ ih.0,
          rw (join_ranges-apart cur next o (omega arith) rs.0, e, ih.1) refl,
          record {
            canonical = (
              omega arith,
              o,
              IsCanonical-le next.min (cur.max + 2) ih.0 (ground arith) ih.2.canonical,
            );
            same = λ x. ground (arith, ih.2.same x);
          },
        )
  ]

pub check_overlap-IsDisjoint :
    (lb : ℕ) (rs : List Range) → IsDisjoint lb rs → check_overlap rs ≡ ok tt
unfolding check_overlap
check_overlap-IsDisjoint lb [] d = refl
check_overlap-IsDisjoint lb (a ∷ []) d = refl
check_overlap-IsDisjoint lb (a ∷ b ∷ rest) d =
    ground (arith, check_overlap-IsDisjoint (a.max + 1) (b ∷ rest))

pub All-min-le-max :
    (f : Family) (rs : List Range) → All (IsRange f) rs → All (λ r. r.min ≤ r.max) rs
All-min-le-max f [] hs = tt
All-min-le-max f (r ∷ rs) hs = (hs.0.0, All-min-le-max f rs hs.1)

module _ (f : Family) where
  join_all-CanonicalOf :
      (rs : List Range)
      → IsDisjoint 0 rs
      → All (IsRange f) rs
      → (out : List Range) × (join_all f false rs ≡ ok out) × CanonicalOf 0 rs out
  unfolding join_all
  join_all-CanonicalOf [] d hs = ([], refl, record { canonical = tt; same = λ x. refl })
  join_all-CanonicalOf (r ∷ rs) d hs =
      let (out, e, c) = join_loop-CanonicalOf f r rs d.1 d.2 hs.1 in
      (
        out,
        e,
        record { canonical = IsCanonical-le r.min 0 out (omega arith) c.canonical; same = c.same },
      )

  -- A set without overlaps passes.
  pub canonize_ranges-CanonicalOf :
      (rs : List Range)
      → All (IsRange f) rs
      → ((x : ℕ) → depth x rs ≤ 1)
      → (out : List Range) × (canonize_ranges f false rs ≡ ok out) × CanonicalOf 0 rs out
  unfolding canonize_ranges
  canonize_ranges-CanonicalOf rs hs d =
      let a = sort-IsAscending rs (All-min-le-max f rs hs) in
      let dis = IsAscending→IsDisjoint 0 (sort rs) a (λ x. omega (arith, depth-sort x rs, d x)) in
      let (out, e, c) = join_all-CanonicalOf (sort rs) dis (All-sort (IsRange f) rs hs) in
      (
        out,
        rw (e, check_overlap-IsDisjoint 0 out (IsCanonical→IsDisjoint 0 out c.canonical)) refl,
        record { canonical = c.canonical; same = λ x. c.same x ∙ depth-sort x rs },
      )

  join_ranges-ok :
      (cur next : Range) (j : Option Range)
      → join_ranges f false cur next ≡ ok j
      → (j ≡ none)
        ⊎ ((j ≡ some (record { min = cur.min; max = next.max })) × (cur.max + 1 ≡ next.min))
  unfolding join_ranges
  join_ranges-ok cur next j e = ground (arith, datum-cases f (cur.max + 1))

  join_loop_sound :
      (cur : Range) (rest : List Range) (out : List Range)
      → join_loop f false cur rest ≡ ok out
      → cur.min ≤ cur.max
      → IsAscending cur.min rest
      → IsAscending cur.min out × ((x : ℕ) → depth x out ≡ depth x (cur ∷ rest))
  unfolding join_loop
  join_loop_sound cur [] out e o a = rw (← ok-injective e) ((omega arith, o, tt), λ x. refl)
  join_loop_sound cur (next ∷ rest) out e o a =
      let (j, ej, er) = >>=-eq-ok (join_ranges f false cur next) _ e in
      elim (join_ranges-ok cur next j ej) [
        | inl apart ↦
            let (done, ed, eo) = >>=-eq-ok (join_loop f false next rest) _ (rw apart at er) in
            let ih = join_loop_sound next rest done ed a.1 a.2 in
            rw (← ok-injective eo) (
              (omega arith, o, IsAscending-le next.min cur.min done a.0 ih.0),
              λ x. ground (arith, ih.1 x),
            )
        | inr (touch, adjacent) ↦
            let r : Range = record { min = cur.min; max = next.max } in
            let ih =
              join_loop_sound r rest out (rw touch at er) (omega arith)
                (IsAscending-le next.min cur.min rest a.0 a.2) in
            (ih.0, λ x. ground (arith, ih.1 x))
      ]

  check_overlap_sound :
      (lb : ℕ) (rs : List Range) → check_overlap rs ≡ ok tt → IsAscending lb rs → IsDisjoint lb rs
  unfolding check_overlap
  check_overlap_sound lb [] e a = tt
  check_overlap_sound lb (r ∷ []) e a = a
  check_overlap_sound lb (r ∷ s ∷ rest) e a =
      let ih = check_overlap_sound r.min (s ∷ rest) (ground arith) a.2 in
      (a.0, a.1, (ground arith, ih.1, ih.2))

  join_all_sound :
      (rs : List Range) (out : List Range)
      → join_all f false rs ≡ ok out
      → IsAscending 0 rs
      → IsAscending 0 out × ((x : ℕ) → depth x out ≡ depth x rs)
  unfolding join_all
  join_all_sound [] out e a = rw (← ok-injective e) (tt, λ x. refl)
  join_all_sound (r ∷ rs) out e a =
      let ih = join_loop_sound r rs out e a.1 a.2 in
      (IsAscending-le r.min 0 out (omega arith) ih.0, ih.1)

  -- Only a set without overlaps passes.
  pub canonize_ranges_sound :
      (rs : List Range) (out : List Range)
      → All (IsRange f) rs
      → canonize_ranges f false rs ≡ ok out
      → (x : ℕ) → depth x rs ≤ 1
  unfolding canonize_ranges
  canonize_ranges_sound rs out hs e x =
      let (j, ej, er) = >>=-eq-ok (join_all f false (sort rs)) _ e in
      let (u, eu, eo) = >>=-eq-ok (check_overlap j) _ er in
      let (a, same) =
        join_all_sound (sort rs) j ej (sort-IsAscending rs (All-min-le-max f rs hs)) in
      let d = check_overlap_sound 0 j eu a in
      omega (arith, depth-IsDisjoint x 0 j d, same x, depth-sort x rs)
