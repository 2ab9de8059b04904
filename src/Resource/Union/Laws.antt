-- ===== src/Resource/Union/Laws.antt =====
-- `union` and `symmetric_difference` on well-formed sets, and the sets for which `union` raises.
use rpki_net.Prelude.{
  ℕ, ◌+◌, ◌≤◌, ◌≡◌, sym, ◌∙◌, true, false, ◌&&◌, ◌||◌, not, List, [], ◌∷◌, arith, All, subst,
  Bool-cases, inl, inr,
}
use rpki_net.Result.{ok, Returns, Returns-map, Returns-bind, Returns-ok}
use rpki_net.Resource.Range.{Range, IsRange, Fits, depth, covers, within}
use rpki_net.Resource.Sorted.{IsDisjoint, IsCanonical→IsDisjoint, depth-IsDisjoint, covers-depth}
use rpki_net.Resource.Set.{ResourceSet, make_set}
use rpki_net.Resource.Set.Valid.{
  IsValid, IsSetWith, IsSetWith-same, depth-Fits, make_set-IsCanonical, make_set-IsSetWith,
}
use rpki_net.Resource.Comm.{comm}
use rpki_net.Resource.Comm.Laws.{IsComm, comm-IsComm}
use rpki_net.Resource.Union.{union, union_loop, union_fuel, symmetric_difference}
use rpki_net.Resource.Union.Swallow.{IsClean, IsCleanAt}
use rpki_net.Resource.Union.Loop.{IsUnionOf, union_loop-IsUnionOf}

module _ (s o : ResourceSet) (same_class : s.family ≡ o.family) (vs : IsValid s)
    (vo : IsValid o) where
  fits_o : All (IsRange s.family) o.ranges
  fits_o = subst (λ f. All (IsRange f) o.ranges) (sym same_class) vo.fits

  Fits-union : (x : ℕ) → (covers x s.ranges || covers x o.ranges) ≡ true → Fits s.family x
  Fits-union x h = elim (Bool-cases (covers x s.ranges)) [
    | inl e ↦ depth-Fits s.family s.ranges x vs.fits (ground (arith, covers-depth x s.ranges))
    | inr e ↦ depth-Fits s.family o.ranges x fits_o (ground (arith, covers-depth x o.ranges))
  ]

  pub union-make_set :
      {out : List Range}
      → union_loop (union_fuel s.ranges o.ranges) s.ranges o.ranges ≡ ok out
      → union s o ≡ make_set s.family out false
  unfolding union
  union-make_set e = rw (
    vs.explicit,
    make_set-IsCanonical s.family s.ranges vs.canonical vs.fits,
    make_set-IsCanonical o.family o.ranges vo.canonical vo.fits,
    e,
  )

  -- `union` of two well-formed sets of one class, such that no range of one set reaches past the
  -- end of a range of the other that its predecessor overlaps too, returns a well-formed set that
  -- holds the numbers of both.
  pub union-IsSetWith :
      IsClean s.ranges o.ranges
      → IsClean o.ranges s.ranges
      → Returns (union s o) (IsSetWith s.family (λ x. covers x s.ranges || covers x o.ranges))
  union-IsSetWith cs co =
      let (out, e, k) =
        Returns-ok (IsUnionOf 0 s.ranges o.ranges)
          (union_loop (union_fuel s.ranges o.ranges) s.ranges o.ranges)
          (union_loop-IsUnionOf s.ranges o.ranges (IsCanonical→IsDisjoint 0 s.ranges vs.canonical)
            (IsCanonical→IsDisjoint 0 o.ranges vo.canonical) cs co) in
      rw (union-make_set e) (
        Returns-map _ _ (make_set s.family out false)
          (make_set-IsSetWith s.family out k.disjoint
            (λ x p. Fits-union x (ground (arith, k.same x, covers-depth x out))))
          (λ r. IsSetWith-same s.family _ _ k.same))

IsCleanAt-apart :
    (lb : ℕ) (r : Range) (t : List Range)
    → IsDisjoint lb t
    → ((x : ℕ) → within x r ≡ true → depth x t ≡ 0)
    → IsCleanAt r t
IsCleanAt-apart lb r [] d h = tt
IsCleanAt-apart lb r (b ∷ []) d h = tt
IsCleanAt-apart lb r (b ∷ c ∷ t) d h = (
  λ k. ground (arith, h c.min),
  IsCleanAt-apart (b.max + 1) r (c ∷ t) d.2 (λ x e. ground (arith, h x e)),
)

IsClean-apart :
    (lb : ℕ) (s t : List Range)
    → IsDisjoint lb t
    → ((x : ℕ) → depth x s + depth x t ≤ 1)
    → IsClean s t
IsClean-apart lb [] t d h = tt
IsClean-apart lb (r ∷ s) t d h = (
  IsCleanAt-apart lb r t d (λ x e. ground (arith, h x)),
  IsClean-apart lb s t d (λ x. ground (arith, h x)),
)

module _ (s o : ResourceSet) (same_class : s.family ≡ o.family) (vs : IsValid s)
    (vo : IsValid o) where
  -- `symmetric_difference` of two well-formed sets of one class returns a well-formed set that
  -- holds the numbers of just one of them.
  pub symmetric_difference-IsSetWith : Returns (symmetric_difference s o) (
      IsSetWith s.family (λ x.
        (covers x s.ranges && not (covers x o.ranges))
        || (covers x o.ranges && not (covers x s.ranges))))
  unfolding symmetric_difference
  symmetric_difference-IsSetWith =
      Returns-bind (IsComm s o) _ (comm s o) (λ c. union c.only1 c.only2)
        (comm-IsComm s o same_class vs vo)
        (λ c k.
          let d1 = IsCanonical→IsDisjoint 0 c.only1.ranges k.only1.valid.canonical in
          let d2 = IsCanonical→IsDisjoint 0 c.only2.ranges k.only2.valid.canonical in
          let apart : (x : ℕ) → depth x c.only1.ranges + depth x c.only2.ranges ≤ 1 = λ x. ground (
            arith,
            k.only1.same x,
            k.only2.same x,
            covers-depth x c.only1.ranges,
            covers-depth x c.only2.ranges,
            depth-IsDisjoint x 0 c.only1.ranges d1,
            depth-IsDisjoint x 0 c.only2.ranges d2,
          ) in
          Returns-map _ _ (union c.only1 c.only2)
            (union-IsSetWith c.only1 c.only2 (k.only1.family ∙ sym k.only2.family) k.only1.valid
              k.only2.valid (IsClean-apart 0 c.only1.ranges c.only2.ranges d2 apart)
              (IsClean-apart 0 c.only2.ranges c.only1.ranges d1 (λ x. omega (arith, apart x))))
            (λ u w. record {
              family = w.family ∙ k.only1.family;
              valid = w.valid;
              same = λ x. ground (arith, w.same x, k.only1.same x, k.only2.same x);
            }))
