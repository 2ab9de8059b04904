-- ===== src/Resource/Union/Swallow.antt =====
-- The inner loops of `union`, and the lists for which they leave no overlap.
use rpki_net.Prelude.{
  ℕ, ◌+◌, ◌≤◌, ◌<◌, ◌≡◌, refl, ◌||◌, List, [], ◌∷◌, arith, All, length, leb, Bool-cases, inl, inr,
}
use rpki_net.Result.{ok}
use rpki_net.Resource.Range.{Range, covers, within}
use rpki_net.Resource.Sorted.{IsDisjoint}
use rpki_net.Resource.Union.{swallow}

-- No range of the list reaches past the end of `r` with the range before it reaching into `r`.
abbrev pub IsCleanAt : Range → List Range → Type 0
IsCleanAt r [] = Unit
IsCleanAt r (b ∷ []) = Unit
IsCleanAt r (b ∷ c ∷ t) =
    ¬ ((r.min ≤ b.max) × (c.min ≤ r.max) × (r.max < c.max)) × IsCleanAt r (c ∷ t)

abbrev pub IsClean : List Range → List Range → Type 0
IsClean s t = All (λ r. IsCleanAt r t) s

pub IsCleanAt-tail : (r b : Range) (t : List Range) → IsCleanAt r (b ∷ t) → IsCleanAt r t
IsCleanAt-tail r b [] h = tt
IsCleanAt-tail r b (c ∷ t) h = h.1

pub IsClean-tail : (s : List Range) (b : Range) (t : List Range) → IsClean s (b ∷ t) → IsClean s t
IsClean-tail [] b t h = tt
IsClean-tail (r ∷ s) b t h = (IsCleanAt-tail r b t h.0, IsClean-tail s b t h.1)

-- What is left of `t` once the ranges below `hi` are dropped.
pub record Swallowed (lo hi : ℕ) (t t' : List Range) : Type 0 where
  pub disjoint : IsDisjoint (hi + 1) t'
  pub shorter : length t' ≤ length t
  pub same :
      (x : ℕ)
      → (within x (record { min = lo; max = hi }) || covers x t)
        ≡ (within x (record { min = lo; max = hi }) || covers x t')
  pub clean_at : (r : Range) → IsCleanAt r t → IsCleanAt r t'
  pub clean_in : (s : List Range) → IsClean t s → IsClean t' s

module _ (lo hi : ℕ) where
  -- Nothing is dropped of a list that begins past `hi`.
  pub swallow-beyond :
      (t : List Range)
      → IsDisjoint (hi + 1) t
      → (t' : List Range) × (swallow lo hi t ≡ ok t') × Swallowed lo hi t t'
  unfolding swallow
  swallow-beyond [] d = (
    [],
    refl,
    record {
      disjoint = tt;
      shorter = omega arith;
      same = λ x. refl;
      clean_at = λ r h. h;
      clean_in = λ s h. h;
    },
  )
  swallow-beyond (b ∷ t) d = (
    b ∷ t,
    ground arith,
    record {
      disjoint = d;
      shorter = omega arith;
      same = λ x. refl;
      clean_at = λ r h. h;
      clean_in = λ s h. h;
    },
  )

  -- `c` overlaps the range `r` that ends at `hi`, and `t` follows `c`.
  pub swallow-clean :
      (r c : Range) (t : List Range)
      → r.max ≡ hi
      → lo ≤ c.min
      → c.min ≤ c.max
      → r.min ≤ c.max
      → c.max ≤ hi
      → IsDisjoint (c.max + 1) t
      → IsCleanAt r (c ∷ t)
      → (t' : List Range) × (swallow lo hi t ≡ ok t') × Swallowed lo hi t t'
  unfolding swallow
  swallow-clean r c [] e l o m h d k = swallow-beyond [] tt
  swallow-clean r c (b ∷ t) e l o m h d k = elim (Bool-cases (leb b.max hi)) [
    | inl below ↦
        let (t', et, w) =
          swallow-clean r b t e (omega arith) d.1 (omega arith) (ground arith) d.2 k.1 in
        (
          t',
          rw (below) (ground (arith, et)),
          record {
            disjoint = w.disjoint;
            shorter = omega (arith, w.shorter);
            same = λ x. ground (arith, w.same x);
            clean_at = λ q g. w.clean_at q (IsCleanAt-tail q b t g);
            clean_in = λ s g. w.clean_in s g.1;
          },
        )
    | inr beyond ↦ swallow-beyond (b ∷ t) (ground (arith, k.0), d.1, d.2)
  ]
