-- ===== src/Resource/Set/Valid.antt =====
-- Well-formed sets, and sets that hold given numbers.
use rpki_net.Prelude.{
  ℕ, ◌+◌, ◌<◌, ◌≡◌, sym, Bool-cases, inl, inr, ◌∙◌, Bool, false, List, [], ◌∷◌, arith, All, subst,
}
use rpki_net.Result.{ok, Returns, Returns-map}
use rpki_net.Resource.Range.{Family, Range, IsRange, Fits, Fits-le, depth, covers, within}
use rpki_net.Resource.Sorted.{
  IsDisjoint, IsCanonical, IsCanonical→IsDisjoint, depth-IsDisjoint, covers-depth,
}
use rpki_net.Resource.Unique.{depth-IsCanonical-unique}
use rpki_net.Resource.Set.{ResourceSet, canonize_ranges, make_set}
use rpki_net.Resource.Set.Canonize.{canonize_ranges-CanonicalOf}
use rpki_net.Resource.Set.Construct.{IsSetOf, set_of, make_set-IsSetOf, make_set-canonize_ranges}

-- A set that is not inherited, in canonical form, of values of its datum type.
pub record IsValid (s : ResourceSet) : Type 0 where
  pub explicit : s.inherit ≡ false
  pub canonical : IsCanonical 0 s.ranges
  pub fits : All (IsRange s.family) s.ranges

-- A well-formed set of the family that holds just the numbers that pass the test.
pub record IsSetWith (f : Family) (test : ℕ → Bool) (s : ResourceSet) : Type 0 where
  pub family : s.family ≡ f
  pub valid : IsValid s
  pub same : (x : ℕ) → covers x s.ranges ≡ test x

pub IsSetWith-same :
    (f : Family) (g h : ℕ → Bool) {s : ResourceSet}
    → ((x : ℕ) → g x ≡ h x)
    → IsSetWith f g s
    → IsSetWith f h s
IsSetWith-same f g h e k = record { family = k.family; valid = k.valid; same = λ x. k.same x ∙ e x }

pub depth-Fits :
    (f : Family) (rs : List Range) (x : ℕ) → All (IsRange f) rs → 0 < depth x rs → Fits f x
depth-Fits f [] x hs h = absurd (omega arith)
depth-Fits f (r ∷ rs) x hs h = elim (Bool-cases (within x r)) [
  | inl e ↦ Fits-le f x r.max (ground arith) hs.0.1
  | inr e ↦ depth-Fits f rs x hs.1 (ground arith)
]

pub All-IsRange :
    (f : Family) (lb : ℕ) (rs : List Range)
    → IsDisjoint lb rs
    → ((x : ℕ) → 0 < depth x rs → Fits f x)
    → All (IsRange f) rs
All-IsRange f lb [] d h = tt
All-IsRange f lb (r ∷ rs) d h =
    ((d.1, h r.max (ground arith)), All-IsRange f (r.max + 1) rs d.2 (λ x p. h x (ground arith)))

-- A canonical list is kept as it is.
pub canonize_ranges-IsCanonical :
    (f : Family) (rs : List Range)
    → IsCanonical 0 rs
    → All (IsRange f) rs
    → canonize_ranges f false rs ≡ ok rs
canonize_ranges-IsCanonical f rs c hs =
    let (out, e, k) =
      canonize_ranges-CanonicalOf f rs hs
        (λ x. depth-IsDisjoint x 0 rs (IsCanonical→IsDisjoint 0 rs c)) in
    rw (depth-IsCanonical-unique 0 out rs k.canonical c k.same) at e

pub make_set-IsCanonical :
    (f : Family) (rs : List Range)
    → IsCanonical 0 rs
    → All (IsRange f) rs
    → make_set f rs false ≡ ok (set_of f rs)
make_set-IsCanonical f rs c hs =
    make_set-canonize_ranges f rs false (canonize_ranges-IsCanonical f rs c hs)

-- A disjoint list that holds values of the datum type goes through it with its numbers.
pub make_set-IsSetWith :
    (f : Family) (rs : List Range)
    → IsDisjoint 0 rs
    → ((x : ℕ) → 0 < depth x rs → Fits f x)
    → Returns (make_set f rs false) (IsSetWith f (λ x. covers x rs))
make_set-IsSetWith f rs d h =
    Returns-map (IsSetOf f rs) _ (make_set f rs false)
      (make_set-IsSetOf f rs (All-IsRange f 0 rs d h) (λ x. depth-IsDisjoint x 0 rs d))
      λ s k. record {
        family = k.family;
        valid = record {
          explicit = k.explicit;
          canonical = k.canonical;
          fits =
              All-IsRange s.family 0 s.ranges (IsCanonical→IsDisjoint 0 s.ranges k.canonical)
                (λ x p.
                  subst (λ g. Fits g x) (sym k.family)
                    (h x (ground (arith, k.same x, covers-depth x rs, covers-depth x s.ranges))));
        };
        same = k.same;
      }
