-- ===== src/Resource/Roa/Union.antt =====
-- `to_resource_set` unites overlapping prefixes without running into the fault of `union`, since
-- the constructor sorts the prefixes.
use rpki_net.Prelude.{
  ℕ, ◌+◌, ◌-◌, ◌*◌, ◌^◌, ◌≤◌, ◌<◌, ◌≡◌, refl, sym, ap, ◌∙◌, true, ◌&&◌, ◌||◌, List, [], ◌∷◌, arith,
  All, leb, Bool-cases, inl, inr,
}
use rpki_net.Result.{ok, Returns, Returns-bind, Returns-map}
use rpki_net.Resource.Range.{Family, Range, Fits, bits, covers, within}
use rpki_net.Resource.Sorted.{IsCanonical}
use rpki_net.Resource.Set.{ResourceSet}
use rpki_net.Resource.Set.Valid.{IsValid, IsSetWith, make_set-IsCanonical}
use rpki_net.Resource.Set.Construct.{set_of}
use rpki_net.Resource.Query.Search.{not_covered}
use rpki_net.Resource.Union.{union}
use rpki_net.Resource.Union.Swallow.{IsClean, IsCleanAt}
use rpki_net.Resource.Union.Laws.{union-IsSetWith}
use rpki_net.Resource.Prefix.Make.{make_prefix_block, prefix_top}
use rpki_net.Resource.Roa.{
  RoaPrefix, make_roa_set, roa_min, roa_max, to_resource_range, single, unite_prefixes,
  to_resource_set, sort_prefixes,
}
use rpki_net.Resource.Roa.Sort.{
  roa_covers, AscendingFrom, roa_covers-sort_prefixes, sort_prefixes-AscendingFrom,
  All-sort_prefixes,
}

-- A prefix in canonical form, its bits beyond the length being zeros.
pub record IsRoaPrefix (f : Family) (p : RoaPrefix) : Type 0 where
  pub width : ℕ
  pub number : ℕ
  pub length : p.prefixlen + width ≡ bits f
  pub aligned : p.prefix ≡ number * 2 ^ width
  pub fits : Fits f (p.prefix + (2 ^ width - 1))

-- No range of the list begins past `m`.
abbrev BeginsBy : ℕ → List Range → Type 0
BeginsBy m rs = (x : ℕ) → m ≤ x → covers (x + 1) rs ≡ true → covers x rs ≡ true

BeginsBy-tail :
    (lb m : ℕ) (b : Range) (t : List Range)
    → IsCanonical lb (b ∷ t)
    → BeginsBy m (b ∷ t)
    → BeginsBy m t
BeginsBy-tail lb m b t c h x l e = elim (Bool-cases (leb (b.max + 2) (x + 1))) [
  | inl past ↦ ground (arith, h x l)
  | inr before ↦ cc (not_covered (x + 1) (b.max + 2) t c.2 (ground arith))
]

IsCleanAt-BeginsBy :
    (lb : ℕ) (r : Range) (t : List Range) → IsCanonical lb t → BeginsBy r.min t → IsCleanAt r t
IsCleanAt-BeginsBy lb r [] c h = tt
IsCleanAt-BeginsBy lb r (b ∷ []) c h = tt
IsCleanAt-BeginsBy lb r (b ∷ d ∷ t) c h = (
  λ k. clash k,
  IsCleanAt-BeginsBy (b.max + 2) r (d ∷ t) c.2 (BeginsBy-tail lb r.min b (d ∷ t) c h),
)
  where
    clash : (r.min ≤ b.max) × (d.min ≤ r.max) × (r.max < d.max) → ⊥
    clash k =
        let e : d.min - 1 + 1 ≡ d.min = omega arith in
        ground (
          arith,
          h (d.min - 1),
          e,
          ap (λ x. covers x (d ∷ t)) e,
          not_covered (d.min - 1) (d.max + 2) t c.2.2,
        )

IsClean-single : (s : List Range) (b : Range) → IsClean s (b ∷ [])
IsClean-single [] b = tt
IsClean-single (r ∷ s) b = (tt, IsClean-single s b)

module _ (f : Family) (p : RoaPrefix) (v : IsRoaPrefix f p) where
  abbrev block : Range
  block = record { min = p.prefix; max = p.prefix + (2 ^ v.width - 1) }

  pub to_resource_range-IsRoaPrefix : to_resource_range f p ≡ ok block
  unfolding to_resource_range
  to_resource_range-IsRoaPrefix =
      make_prefix_block f v.number v.width p.prefixlen p.prefix v.aligned v.length v.fits

  roa_max-block : roa_max f p ≡ block.max
  unfolding roa_max
  roa_max-block =
      let width : bits f - p.prefixlen ≡ v.width = omega (arith, v.length) in
      rw width (prefix_top f v.number v.width p.prefixlen p.prefix v.aligned v.length)

  single-IsValid : IsValid (single f block)
  single-IsValid = record {
    explicit = refl;
    canonical = omega arith;
    fits = ((omega arith, v.fits), tt);
  }

  within-block : (x : ℕ) → within x block ≡ (leb (roa_min p) x && leb x (roa_max f p))
  unfolding roa_min
  within-block x = ap (λ t. leb p.prefix x && leb x t) (sym roa_max-block)

unite_prefixes-IsSetWith :
    (f : Family) (r : ResourceSet) (ps : List RoaPrefix) (m : ℕ)
    → r.family ≡ f
    → IsValid r
    → BeginsBy m r.ranges
    → AscendingFrom m ps
    → All (IsRoaPrefix f) ps
    → Returns (unite_prefixes f r ps) (IsSetWith f (λ x. covers x r.ranges || roa_covers f x ps))
unfolding unite_prefixes
unite_prefixes-IsSetWith f r [] m fam v b a hs = record {
  family = fam;
  valid = v;
  same = λ x. ground arith;
}
unite_prefixes-IsSetWith f r (p ∷ ps) m fam v b a hs =
    let rng = block f p hs.0 in
    let later : BeginsBy p.prefix r.ranges = λ x l e. b x (omega (arith, a.0)) e in
    rw (to_resource_range-IsRoaPrefix f p hs.0) (
      Returns-bind (IsSetWith r.family (λ x. covers x r.ranges || covers x (rng ∷ []))) _
        (union r (single f rng)) _
        (union-IsSetWith r (single f rng) fam v (single-IsValid f p hs.0)
          (IsClean-single r.ranges rng) (IsCleanAt-BeginsBy 0 rng r.ranges v.canonical later, tt))
        (λ u k.
          Returns-map (IsSetWith f (λ x. covers x u.ranges || roa_covers f x ps)) _
            (unite_prefixes f u ps)
            (unite_prefixes-IsSetWith f u ps p.prefix (k.family ∙ fam) k.valid
              (λ x l e. ground (arith, k.same x, k.same (x + 1), later x l)) a.1 hs.1)
            (λ w z. record {
              family = z.family;
              valid = z.valid;
              same = λ x. ground (arith, z.same x, k.same x, within-block f p hs.0 x);
            })))

module _ (f : Family) (ps : List RoaPrefix) (hs : All (IsRoaPrefix f) ps) where
  -- For any prefixes in canonical form, overlapping or not, `to_resource_set` of the set that the
  -- constructor makes of them returns a well-formed set of just the addresses that they cover.
  pub to_resource_set-IsSetWith :
      Returns (to_resource_set (make_roa_set f ps)) (IsSetWith f (λ x. roa_covers f x ps))
  unfolding to_resource_set make_roa_set
  to_resource_set-IsSetWith = rw (make_set-IsCanonical f [] tt tt) (
      Returns-map (IsSetWith f (λ x. roa_covers f x (sort_prefixes ps))) _
        (unite_prefixes f (set_of f []) (sort_prefixes ps))
        (unite_prefixes-IsSetWith f (set_of f []) (sort_prefixes ps) 0 refl
          (record { explicit = refl; canonical = tt; fits = tt }) (λ x l e. cc)
          (sort_prefixes-AscendingFrom ps) (All-sort_prefixes (IsRoaPrefix f) ps hs))
        (λ w z. record {
          family = z.family;
          valid = z.valid;
          same = λ x. z.same x ∙ roa_covers-sort_prefixes f x ps;
        }))
