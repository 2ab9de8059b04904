-- ===== src/Resource/Unique.antt =====
-- A canonical list is determined by the numbers that it holds.
use rpki_net.Prelude.{ℕ, ◌+◌, ◌<◌, ◌≡◌, refl, List, [], ◌∷◌, arith, ap₂}
use rpki_net.Resource.Range.{Range, depth, covers}
use rpki_net.Resource.Sorted.{
  IsCanonical, IsCanonical→IsDisjoint, IsDisjoint→IsAscending, depth-below, depth-IsDisjoint,
  covers-depth,
}

pub depth-below_canonical :
    (x lb : ℕ) (rs : List Range) → IsCanonical lb rs → x < lb → depth x rs ≡ 0
depth-below_canonical x lb rs c h =
    depth-below x lb rs (IsDisjoint→IsAscending lb rs (IsCanonical→IsDisjoint lb rs c)) h

module _ (lb : ℕ) (r s : Range) (a b : List Range) (ca : IsCanonical lb (r ∷ a))
    (cb : IsCanonical lb (s ∷ b)) (same : (x : ℕ) → depth x (r ∷ a) ≡ depth x (s ∷ b)) where
  same-min : r.min ≡ s.min
  same-min = ground (
    arith,
    same r.min,
    same s.min,
    depth-below_canonical r.min (s.max + 2) b cb.2,
    depth-below_canonical s.min (r.max + 2) a ca.2,
  )

  same-max : r.max ≡ s.max
  same-max = ground (
    arith,
    same-min,
    same (r.max + 1),
    same (s.max + 1),
    depth-below_canonical (r.max + 1) (r.max + 2) a ca.2,
    depth-below_canonical (s.max + 1) (s.max + 2) b cb.2,
  )

  same-rest : (x : ℕ) → depth x a ≡ depth x b
  same-rest x = ground (
    arith,
    same x,
    same-min,
    same-max,
    depth-below_canonical x (r.max + 2) a ca.2,
    depth-below_canonical x (s.max + 2) b cb.2,
  )

pub depth-IsCanonical-unique :
    (lb : ℕ) (a b : List Range)
    → IsCanonical lb a
    → IsCanonical lb b
    → ((x : ℕ) → depth x a ≡ depth x b)
    → a ≡ b
depth-IsCanonical-unique lb [] [] ca cb same = refl
depth-IsCanonical-unique lb [] (s ∷ b) ca cb same = absurd (ground (arith, same s.min))
depth-IsCanonical-unique lb (r ∷ a) [] ca cb same = absurd (ground (arith, same r.min))
depth-IsCanonical-unique lb (r ∷ a) (s ∷ b) ca cb same =
    let em = same-min lb r s a b ca cb same in
    let ex = same-max lb r s a b ca cb same in
    let cb' : IsCanonical (r.max + 2) b = rw ex cb.2 in
    ap₂ {C = List Range} ◌∷◌ (λ i. record { min = em i; max = ex i })
      (depth-IsCanonical-unique (r.max + 2) a b ca.2 cb' (same-rest lb r s a b ca cb same))

-- Two canonical lists that hold the same numbers are equal.
pub IsCanonical-unique :
    (a b : List Range)
    → IsCanonical 0 a
    → IsCanonical 0 b
    → ((x : ℕ) → covers x a ≡ covers x b)
    → a ≡ b
IsCanonical-unique a b ca cb same = depth-IsCanonical-unique 0 a b ca cb (λ x. ground (
  arith,
  same x,
  covers-depth x a,
  covers-depth x b,
  depth-IsDisjoint x 0 a (IsCanonical→IsDisjoint 0 a ca),
  depth-IsDisjoint x 0 b (IsCanonical→IsDisjoint 0 b cb),
))
