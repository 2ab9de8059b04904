-- ===== src/Resource/Set/Sort.antt =====
-- Sorting keeps the ranges and puts them in ascending order.
use rpki_net.Prelude.{ℕ, ◌≤◌, ◌≡◌, refl, List, [], ◌∷◌, arith, All, inl, inr, Bool-cases}
use rpki_net.Resource.Range.{Range, range_le, depth}
use rpki_net.Resource.Sorted.{IsAscending}
use rpki_net.Resource.Set.{insert_range, sort}

depth-insert_range :
    (x : ℕ) (r : Range) (rs : List Range) → depth x (insert_range r rs) ≡ depth x (r ∷ rs)
unfolding insert_range
depth-insert_range x r [] = refl
depth-insert_range x r (s ∷ rs) = ground (arith, depth-insert_range x r rs)

pub depth-sort : (x : ℕ) (rs : List Range) → depth x (sort rs) ≡ depth x rs
unfolding sort
depth-sort x [] = refl
depth-sort x (r ∷ rs) = ground (arith, depth-insert_range x r (sort rs), depth-sort x rs)

module _ (P : Range → Type 0) where
  All-insert_range : (r : Range) (rs : List Range) → P r → All P rs → All P (insert_range r rs)
  unfolding insert_range
  All-insert_range r [] h hs = (h, tt)
  All-insert_range r (s ∷ rs) h hs = elim (Bool-cases (range_le r s)) [
    | inl e ↦ rw e (h, hs)
    | inr e ↦ rw e (hs.0, All-insert_range r rs h hs.1)
  ]

  pub All-sort : (rs : List Range) → All P rs → All P (sort rs)
  unfolding sort
  All-sort [] hs = tt
  All-sort (r ∷ rs) hs = All-insert_range r (sort rs) hs.0 (All-sort rs hs.1)

insert_range-IsAscending :
    (lb : ℕ) (r : Range) (rs : List Range)
    → lb ≤ r.min
    → r.min ≤ r.max
    → IsAscending lb rs
    → IsAscending lb (insert_range r rs)
unfolding insert_range range_le
insert_range-IsAscending lb r [] h o a = (h, o, tt)
insert_range-IsAscending lb r (s ∷ rs) h o a = ground (arith, insert_range-IsAscending s.min r rs)

pub sort-IsAscending : (rs : List Range) → All (λ r. r.min ≤ r.max) rs → IsAscending 0 (sort rs)
unfolding sort
sort-IsAscending [] hs = tt
sort-IsAscending (r ∷ rs) hs =
    insert_range-IsAscending 0 r (sort rs) (omega arith) hs.0 (sort-IsAscending rs hs.1)
