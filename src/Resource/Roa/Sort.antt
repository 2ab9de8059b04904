-- ===== src/Resource/Roa/Sort.antt =====
-- Prefixes in ascending order, and the addresses that they cover.
use rpki_net.Prelude.{
  ℕ, ◌≤◌, ◌≡◌, refl, Bool, false, ◌&&◌, ◌||◌, List, [], ◌∷◌, arith, All, leb, Bool-cases, inl, inr,
}
use rpki_net.Resource.Range.{Family}
use rpki_net.Resource.Roa.{RoaPrefix, roa_min, roa_max, roa_prefix_le, insert_prefix, sort_prefixes}

-- The address `x` lies between `min()` and `max()` of one of the prefixes.
abbrev pub roa_covers : Family → ℕ → List RoaPrefix → Bool
roa_covers f x [] = false
roa_covers f x (p ∷ ps) = (leb (roa_min p) x && leb x (roa_max f p)) || roa_covers f x ps

abbrev pub AscendingFrom : ℕ → List RoaPrefix → Type 0
AscendingFrom m [] = Unit
AscendingFrom m (p ∷ ps) = (m ≤ p.prefix) × AscendingFrom p.prefix ps

roa_covers-insert_prefix :
    (f : Family) (x : ℕ) (p : RoaPrefix) (ps : List RoaPrefix)
    → roa_covers f x (insert_prefix p ps) ≡ roa_covers f x (p ∷ ps)
unfolding insert_prefix
roa_covers-insert_prefix f x p [] = refl
roa_covers-insert_prefix f x p (q ∷ ps) = ground (arith, roa_covers-insert_prefix f x p ps)

pub roa_covers-sort_prefixes :
    (f : Family) (x : ℕ) (ps : List RoaPrefix)
    → roa_covers f x (sort_prefixes ps) ≡ roa_covers f x ps
unfolding sort_prefixes
roa_covers-sort_prefixes f x [] = refl
roa_covers-sort_prefixes f x (p ∷ ps) =
    ground
      (arith, roa_covers-insert_prefix f x p (sort_prefixes ps), roa_covers-sort_prefixes f x ps)

insert_prefix-AscendingFrom :
    (m : ℕ) (p : RoaPrefix) (ps : List RoaPrefix)
    → m ≤ p.prefix
    → AscendingFrom m ps
    → AscendingFrom m (insert_prefix p ps)
unfolding insert_prefix roa_prefix_le
insert_prefix-AscendingFrom m p [] h a = (h, tt)
insert_prefix-AscendingFrom m p (q ∷ ps) h a =
    ground (arith, insert_prefix-AscendingFrom q.prefix p ps)

pub sort_prefixes-AscendingFrom : (ps : List RoaPrefix) → AscendingFrom 0 (sort_prefixes ps)
unfolding sort_prefixes
sort_prefixes-AscendingFrom [] = tt
sort_prefixes-AscendingFrom (p ∷ ps) =
    insert_prefix-AscendingFrom 0 p (sort_prefixes ps) (omega arith)
      (sort_prefixes-AscendingFrom ps)

module _ (P : RoaPrefix → Type 0) where
  All-insert_prefix :
      (p : RoaPrefix) (ps : List RoaPrefix) → P p → All P ps → All P (insert_prefix p ps)
  unfolding insert_prefix
  All-insert_prefix p [] h hs = (h, tt)
  All-insert_prefix p (q ∷ ps) h hs = elim (Bool-cases (roa_prefix_le p q)) [
    | inl e ↦ rw e (h, hs)
    | inr e ↦ rw e (hs.0, All-insert_prefix p ps h hs.1)
  ]

  pub All-sort_prefixes : (ps : List RoaPrefix) → All P ps → All P (sort_prefixes ps)
  unfolding sort_prefixes
  All-sort_prefixes [] hs = tt
  All-sort_prefixes (p ∷ ps) hs =
      All-insert_prefix p (sort_prefixes ps) hs.0 (All-sort_prefixes ps hs.1)
