-- ===== src/Resource/Set/Construct.antt =====
-- The constructor of a set from a list of ranges, `make_set`, as its callers see it.
use rpki_net.Prelude.{ℕ, ◌≤◌, ◌≡◌, refl, List, arith, All, Bool, true, false}
use rpki_net.Result.{ok, Returns, >>=-eq-ok}
use rpki_net.Resource.Range.{Family, Range, depth, covers, IsRange}
use rpki_net.Resource.Sorted.{IsCanonical, covers-depth}
use rpki_net.Resource.Set.{ResourceSet, canonize, canonize_ranges, make_set}
use rpki_net.Resource.Set.Canonize.{canonize_ranges-CanonicalOf, canonize_ranges_sound}
use rpki_net.Resource.Set.Overlap.{HasNext, canonize_ranges-MergedOf}

-- A canonical set of the family with the numbers of `rs`.
pub record IsSetOf (f : Family) (rs : List Range) (s : ResourceSet) : Type 0 where
  pub family : s.family ≡ f
  pub explicit : s.inherit ≡ false
  pub marked : s.canonical ≡ true
  pub canonical : IsCanonical 0 s.ranges
  pub same : (x : ℕ) → covers x s.ranges ≡ covers x rs

-- The set that a canonical list makes.
abbrev pub set_of : Family → List Range → ResourceSet
set_of f rs = record { family = f; inherit = false; canonical = true; ranges = rs }

module _ (f : Family) (rs : List Range) where
  pub make_set-canonize_ranges :
      (allow_overlap : Bool) {out : List Range}
      → canonize_ranges f allow_overlap rs ≡ ok out
      → make_set f rs allow_overlap ≡ ok (set_of f out)
  unfolding make_set canonize
  make_set-canonize_ranges allow_overlap e = rw e refl

  pub make_set-IsSetOf :
      All (IsRange f) rs → ((x : ℕ) → depth x rs ≤ 1) → Returns (make_set f rs false) (IsSetOf f rs)
  make_set-IsSetOf hs d =
      let (out, e, c) = canonize_ranges-CanonicalOf f rs hs d in
      rw (make_set-canonize_ranges false e) (record {
        family = refl;
        explicit = refl;
        marked = refl;
        canonical = c.canonical;
        same = λ x. ground (arith, c.same x, covers-depth x out, covers-depth x rs);
      })

  -- Without `allow_overlap` the constructor returns exactly for ranges of which no two share a
  -- number, and gives a canonical set that holds the numbers of the ranges.
  pub make_set-exact :
      All (IsRange f) rs
      → (((x : ℕ) → depth x rs ≤ 1) → Returns (make_set f rs false) (IsSetOf f rs))
        × ((s : ResourceSet) → make_set f rs false ≡ ok s → (x : ℕ) → depth x rs ≤ 1)
  unfolding make_set canonize
  make_set-exact hs = (
    make_set-IsSetOf hs,
    λ s e x.
        let (out, eo, _) = >>=-eq-ok (canonize_ranges f false rs) _ e in
        canonize_ranges_sound f rs out hs eo x,
  )

  -- With `allow_overlap` the constructor returns for any ranges that end below the highest address,
  -- and gives a canonical set that holds the numbers of the ranges.
  pub make_set-merges : All (HasNext f) rs → Returns (make_set f rs true) (IsSetOf f rs)
  make_set-merges hs =
      let (out, e, c) = canonize_ranges-MergedOf f rs hs in
      rw (make_set-canonize_ranges true e) (record {
        family = refl;
        explicit = refl;
        marked = refl;
        canonical = c.canonical;
        same = c.same;
      })
