-- ===== src/Resource/Union/Straddle.antt =====
-- Sets for which `union` raises although their union exists.
use rpki_net.Prelude.{
  ℕ, zero, suc, ◌+◌, ◌≤◌, ◌<◌, ◌≡◌, ◌≢◌, refl, false, List, [], ◌∷◌, arith, ltb, min, max, length,
  sym, ◌∙◌,
}
use rpki_net.Result.{ok}
use rpki_net.Resource.Range.{Family, Range, Fits-le, depth, make_range-ok}
use rpki_net.Resource.Set.{ResourceSet}
use rpki_net.Resource.Set.Valid.{IsValid}
use rpki_net.Resource.Set.Construct.{set_of, make_set-exact}
use rpki_net.Resource.Union.{union, union_loop, union_fuel, swallow}
use rpki_net.Resource.Union.Laws.{union-make_set}

-- One list is returned as it is.
union_loop-one : (fuel : ℕ) (t : List Range) → length t < fuel → union_loop fuel [] t ≡ ok t
unfolding union_loop
union_loop-one zero t h = absurd (omega arith)
union_loop-one (suc fuel) [] h = refl
union_loop-one (suc fuel) (b ∷ t) h = rw (union_loop-one fuel t (omega arith)) refl

module _ (f : Family) (r b c : Range) (t : List Range) (valid_r : IsValid (set_of f (r ∷ [])))
    (valid_o : IsValid (set_of f (b ∷ c ∷ t))) (into : r.min ≤ b.max) (from : c.min ≤ r.max)
    (past : r.max < c.max) where
  abbrev merged : Range
  merged = record { min = min r.min b.min; max = max r.max b.max }

  test1 : ltb r.max b.min ≡ false
  test1 = ground (arith, valid_o.canonical.2.0)

  test2 : ltb b.max r.min ≡ false
  test2 = ground arith

  keeps : swallow (min r.min b.min) (max r.max b.max) (c ∷ t) ≡ ok (c ∷ t)
  unfolding swallow
  keeps = ground (arith, valid_o.canonical.2.0)

  loop-straddle :
      union_loop (union_fuel (r ∷ []) (b ∷ c ∷ t)) (r ∷ []) (b ∷ c ∷ t) ≡ ok (merged ∷ c ∷ t)
  unfolding union_loop swallow
  loop-straddle =
      rw
        (
          test1,
          test2,
          make_range-ok (min r.min b.min) (max r.max b.max) (omega arith),
          keeps,
          union_loop-one (1 + suc (suc (length t))) (c ∷ t) (omega arith),
          union_loop,
        )
        refl

  -- Let a set hold a single range, and another well-formed set of the class begin with two ranges
  -- that both overlap it, the second of which reaches past its end. Then `union` raises.
  pub union-straddle : (u : ResourceSet) → union (set_of f (r ∷ [])) (set_of f (b ∷ c ∷ t)) ≢ ok u
  union-straddle u e =
      let overlap : depth c.min (merged ∷ c ∷ t) ≤ 1 =
        (make_set-exact f (merged ∷ c ∷ t) (
          (
            omega arith,
            Fits-le f (max r.max b.max) c.max (omega (arith, valid_o.canonical.2.0))
                valid_o.fits.1.0.1,
          ),
          valid_o.fits.1,
        )).1
          u
          (sym (
              union-make_set (set_of f (r ∷ [])) (set_of f (b ∷ c ∷ t)) refl valid_r valid_o
                loop-straddle)
            ∙ e)
          c.min in
      ground (arith, overlap, valid_o.canonical.2.1)
