-- ===== src/Resource/Union/Loop.antt =====
-- The loop of `union` on lists of which no range reaches past the end of a range of the other list
-- that an earlier range overlaps too.
use rpki_net.Prelude.{
  ℕ, zero, suc, ◌+◌, ◌≤◌, ◌<◌, ◌≡◌, refl, true, false, ◌||◌, List, [], ◌∷◌, arith, All-map, length,
  ltb, leb, min, max, Bool-cases, inl, inr, sym,
}
use rpki_net.Result.{ok, Returns, Returns-bind}
use rpki_net.Resource.Range.{Range, covers, make_range-ok}
use rpki_net.Resource.Sorted.{IsDisjoint}
use rpki_net.Resource.Union.{swallow, union_loop, union_fuel, prepend}
use rpki_net.Resource.Union.Swallow.{
  IsClean, IsClean-tail, Swallowed, swallow-beyond, swallow-clean,
}

-- A disjoint list of the numbers of both lists.
pub record IsUnionOf (lb : ℕ) (s t out : List Range) : Type 0 where
  pub disjoint : IsDisjoint lb out
  pub same : (x : ℕ) → covers x out ≡ (covers x s || covers x t)

abbrev Ends : ℕ → Type 0
Ends fuel =
    (lb : ℕ) (s t : List Range)
    → length s + length t < fuel
    → IsDisjoint lb s
    → IsDisjoint lb t
    → IsClean s t
    → IsClean t s
    → Returns (union_loop fuel s t) (IsUnionOf lb s t)

-- The range that the overlapping heads make.
abbrev hull : Range → Range → Range
hull a b = record { min = min a.min b.min; max = max a.max b.max }

module _ (fuel lb : ℕ) (a b : Range) (s t : List Range) (ih : Ends fuel) where
  overlap_step :
      (s' t' : List Range)
      → swallow (hull a b).min (hull a b).max s ≡ ok s'
      → swallow (hull a b).min (hull a b).max t ≡ ok t'
      → Swallowed (hull a b).min (hull a b).max s s'
      → Swallowed (hull a b).min (hull a b).max t t'
      → length s + length t < fuel
      → ltb a.max b.min ≡ false
      → ltb b.max a.min ≡ false
      → lb ≤ a.min
      → a.min ≤ a.max
      → lb ≤ b.min
      → b.min ≤ b.max
      → IsClean s t
      → IsClean t s
      → Returns (union_loop (suc fuel) (a ∷ s) (b ∷ t)) (IsUnionOf lb (a ∷ s) (b ∷ t))
  unfolding union_loop
  overlap_step s' t' es et ws wt l n1 n2 la oa lb' ob cs ct =
      rw
        (
          n1,
          n2,
          make_range-ok (min a.min b.min) (max a.max b.max) (omega arith),
          es,
          et,
          union_loop,
        )
        (Returns-bind (IsUnionOf ((hull a b).max + 1) s' t') (IsUnionOf lb (a ∷ s) (b ∷ t))
          (union_loop fuel s' t') (prepend (hull a b))
          (ih ((hull a b).max + 1) s' t' (omega (arith, ws.shorter, wt.shorter)) ws.disjoint
            wt.disjoint (clean s t s' t' ws wt cs) (clean t s t' s' wt ws ct))
          (λ out k. record {
            disjoint = (omega arith, omega arith, k.disjoint);
            same = λ x. ground (arith, k.same x, ws.same x, wt.same x);
          }))
    where
      clean :
          (u v u' v' : List Range)
          → Swallowed (hull a b).min (hull a b).max u u'
          → Swallowed (hull a b).min (hull a b).max v v'
          → IsClean u v
          → IsClean u' v'
      clean u v u' v' wu wv h = All-map u' wv.clean_at (wu.clean_in v h)

module _ (fuel : ℕ) (ih : Ends fuel) where
  -- Heads that overlap.
  overlapping :
      (lb : ℕ) (a b : Range) (s t : List Range)
      → length s + length t < fuel
      → ltb a.max b.min ≡ false
      → ltb b.max a.min ≡ false
      → IsDisjoint lb (a ∷ s)
      → IsDisjoint lb (b ∷ t)
      → IsClean (a ∷ s) (b ∷ t)
      → IsClean (b ∷ t) (a ∷ s)
      → Returns (union_loop (suc fuel) (a ∷ s) (b ∷ t)) (IsUnionOf lb (a ∷ s) (b ∷ t))
  overlapping lb a b s t l n1 n2 ds dt cs ct = elim (Bool-cases (leb b.max a.max)) [
    | inl wide ↦
        let e : (hull a b).max ≡ a.max = ground arith in
        let (s', es, ws) = swallow-beyond (hull a b).min (hull a b).max s (rw e ds.2) in
        let (t', et, wt) =
          swallow-clean (hull a b).min (hull a b).max a b t (sym e) (omega arith) dt.1
            (ground arith) (omega arith) dt.2 cs.0 in
        overlap_step fuel lb a b s t ih s' t' es et ws wt l n1 n2 ds.0 ds.1 dt.0 dt.1
          (IsClean-tail s b t cs.1) (IsClean-tail t a s ct.1)
    | inr narrow ↦
        let e : (hull a b).max ≡ b.max = ground arith in
        let (t', et, wt) = swallow-beyond (hull a b).min (hull a b).max t (rw e dt.2) in
        let (s', es, ws) =
          swallow-clean (hull a b).min (hull a b).max b a s (sym e) (omega arith) ds.1
            (ground arith) (omega arith) ds.2 ct.0 in
        overlap_step fuel lb a b s t ih s' t' es et ws wt l n1 n2 ds.0 ds.1 dt.0 dt.1
          (IsClean-tail s b t cs.1) (IsClean-tail t a s ct.1)
  ]

  one_list1 :
      (lb : ℕ) (a : Range) (s : List Range)
      → length s < fuel
      → IsDisjoint lb (a ∷ s)
      → Returns (union_loop (suc fuel) (a ∷ s) []) (IsUnionOf lb (a ∷ s) [])
  unfolding union_loop
  one_list1 lb a s l d =
      Returns-bind (IsUnionOf (a.max + 1) s []) (IsUnionOf lb (a ∷ s) []) (union_loop fuel s [])
        (prepend a) (ih (a.max + 1) s [] (omega arith) d.2 tt (All-all s) tt)
        (λ out k. record {
          disjoint = (d.0, d.1, k.disjoint);
          same = λ x. ground (arith, k.same x);
        })
    where
      All-all : (u : List Range) → IsClean u []
      All-all = elim [ [] ↦ tt | a ∷ (u → h) ↦ (tt, h) ]

  one_list2 :
      (lb : ℕ) (b : Range) (t : List Range)
      → length t < fuel
      → IsDisjoint lb (b ∷ t)
      → Returns (union_loop (suc fuel) [] (b ∷ t)) (IsUnionOf lb [] (b ∷ t))
  unfolding union_loop
  one_list2 lb b t l d =
      Returns-bind (IsUnionOf (b.max + 1) [] t) (IsUnionOf lb [] (b ∷ t)) (union_loop fuel [] t)
        (prepend b) (ih (b.max + 1) [] t (omega arith) tt d.2 tt (All-all t))
        (λ out k. record {
          disjoint = (d.0, d.1, k.disjoint);
          same = λ x. ground (arith, k.same x);
        })
    where
      All-all : (u : List Range) → IsClean u []
      All-all = elim [ [] ↦ tt | a ∷ (u → h) ↦ (tt, h) ]

  module _ (lb : ℕ) (a b : Range) (s t : List Range) (l : length s + length t + 1 < fuel)
      (ds : IsDisjoint lb (a ∷ s)) (dt : IsDisjoint lb (b ∷ t)) (cs : IsClean (a ∷ s) (b ∷ t))
      (ct : IsClean (b ∷ t) (a ∷ s)) where
    before :
        ltb a.max b.min ≡ true
        → Returns (union_loop (suc fuel) (a ∷ s) (b ∷ t)) (IsUnionOf lb (a ∷ s) (b ∷ t))
    unfolding union_loop
    before e =
        rw (e, union_loop)
          (Returns-bind (IsUnionOf (a.max + 1) s (b ∷ t)) (IsUnionOf lb (a ∷ s) (b ∷ t))
            (union_loop fuel s (b ∷ t)) (prepend a)
            (ih (a.max + 1) s (b ∷ t) (omega arith) ds.2 (ground arith, dt.1, dt.2) cs.1
              (IsClean-tail (b ∷ t) a s ct))
            (λ out k. record {
              disjoint = (ds.0, ds.1, k.disjoint);
              same = λ x. ground (arith, k.same x);
            }))

    after :
        ltb a.max b.min ≡ false
        → ltb b.max a.min ≡ true
        → Returns (union_loop (suc fuel) (a ∷ s) (b ∷ t)) (IsUnionOf lb (a ∷ s) (b ∷ t))
    unfolding union_loop
    after n e =
        rw (n, e, union_loop)
          (Returns-bind (IsUnionOf (b.max + 1) (a ∷ s) t) (IsUnionOf lb (a ∷ s) (b ∷ t))
            (union_loop fuel (a ∷ s) t) (prepend b)
            (ih (b.max + 1) (a ∷ s) t (omega arith) (ground arith, ds.1, ds.2) dt.2
              (IsClean-tail (a ∷ s) b t cs) ct.1)
            (λ out k. record {
              disjoint = (dt.0, dt.1, k.disjoint);
              same = λ x. ground (arith, k.same x);
            }))

union_loop-Ends : (fuel : ℕ) → Ends fuel
union_loop-Ends zero lb s t l ds dt cs ct = absurd (omega arith)
union_loop-Ends (suc fuel) lb [] [] l ds dt cs ct =
    unfold union_loop in record { disjoint = tt; same = λ x. refl }
union_loop-Ends (suc fuel) lb (a ∷ s) [] l ds dt cs ct =
    one_list1 fuel (union_loop-Ends fuel) lb a s (omega arith) ds
union_loop-Ends (suc fuel) lb [] (b ∷ t) l ds dt cs ct =
    one_list2 fuel (union_loop-Ends fuel) lb b t (omega arith) dt
union_loop-Ends (suc fuel) lb (a ∷ s) (b ∷ t) l ds dt cs ct = elim (Bool-cases (ltb a.max b.min)) [
  | inl e ↦ before fuel (union_loop-Ends fuel) lb a b s t (omega arith) ds dt cs ct e
  | inr n ↦ elim (Bool-cases (ltb b.max a.min)) [
    | inl e ↦ after fuel (union_loop-Ends fuel) lb a b s t (omega arith) ds dt cs ct n e
    | inr m ↦ overlapping fuel (union_loop-Ends fuel) lb a b s t (omega arith) n m ds dt cs ct
  ]
]

pub union_loop-IsUnionOf :
    (s t : List Range)
    → IsDisjoint 0 s
    → IsDisjoint 0 t
    → IsClean s t
    → IsClean t s
    → Returns (union_loop (union_fuel s t) s t) (IsUnionOf 0 s t)
union_loop-IsUnionOf s t ds dt cs ct =
    union_loop-Ends (union_fuel s t) 0 s t (omega arith) ds dt cs ct
