-- ===== src/Resource/Union.antt =====
-- `union` and `symmetric_difference`.
pub mod Swallow
pub mod Loop
pub mod Laws
pub mod Straddle
use rpki_net.Prelude.{
  ℕ, zero, suc, ◌+◌, Bool, true, false, not, List, [], ◌∷◌, ltb, leb, length, min, max,
  if◌then◌else◌,
}
use rpki_net.Result.{Result, ok, err, assertion_error, out_of_fuel, guard, ◌>>=◌, ◌>>◌}
use rpki_net.Resource.Range.{Family, Range, make_range}
use rpki_net.Resource.Set.{ResourceSet, make_set}
use rpki_net.Resource.Comm.{comm}

-- The inner loops of `union`: ranges that end within the merged range are dropped.
unfoldable pub swallow : ℕ → ℕ → List Range → Result (List Range)
swallow range_min range_max [] = ok []
swallow range_min range_max (r ∷ rs) =
    let rest = swallow range_min range_max rs in
    if leb r.max range_max
    then (do guard (leb range_min r.min) assertion_error; rest)
    else ok (r ∷ rs)

abbrev pub prepend : Range → List Range → Result (List Range)
prepend r rs = ok (r ∷ rs)

-- The loop of `union`; what it appends stands before what the later rounds append.
unfoldable pub union_loop : ℕ → List Range → List Range → Result (List Range)
unfolding make_range
union_loop zero set1 set2 = err out_of_fuel
union_loop (suc fuel) [] [] = ok []
union_loop (suc fuel) (a ∷ s) [] = do rest ← union_loop fuel s []; prepend a rest
union_loop (suc fuel) [] (b ∷ t) = do rest ← union_loop fuel [] t; prepend b rest
union_loop (suc fuel) (a ∷ s) (b ∷ t) = elim (ltb a.max b.min) [
  | true ↦ do rest ← union_loop fuel s (b ∷ t); prepend a rest
  | false ↦ elim (ltb b.max a.min) [
    | true ↦ do rest ← union_loop fuel (a ∷ s) t; prepend b rest
    | false ↦ do
      merged ← make_range (min a.min b.min) (max a.max b.max)
      s' ← swallow merged.min merged.max s
      t' ← swallow merged.min merged.max t
      rest ← union_loop fuel s' t'
      prepend merged rest
  ]
]

-- Each round takes a range off a list.
abbrev pub union_fuel : List Range → List Range → ℕ
union_fuel set1 set2 = suc (length set1 + length set2)

-- `union`. The two sets are of one class, which is its type assertion.
unfoldable pub union : ResourceSet → ResourceSet → Result ResourceSet
union self other = do
  guard (not self.inherit) assertion_error
  set1 ← make_set self.family self.ranges false
  set2 ← make_set other.family other.ranges false
  result ← union_loop (union_fuel set1.ranges set2.ranges) set1.ranges set2.ranges
  make_set self.family result false

unfoldable pub symmetric_difference : ResourceSet → ResourceSet → Result ResourceSet
symmetric_difference self other = do c ← comm self other; union c.only1 c.only2
