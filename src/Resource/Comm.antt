-- ===== src/Resource/Comm.antt =====
-- `_rsplit`, `_comm` and the set operations that stand on it.
pub mod Split
pub mod Step
pub mod Loop
pub mod Laws
use rpki_net.Prelude.{
  ℕ, zero, suc, ◌+◌, ◌-◌, ◌*◌, ◌≡◌, Bool, true, false, ◌&&◌, not, List, [], ◌∷◌, ltb, ◌==◌, length,
  if◌then◌else◌,
}
use rpki_net.Result.{Result, ok, err, assertion_error, out_of_fuel, guard, ◌>>=◌, ◌>>◌}
use rpki_net.Resource.Range.{Family, Range, datum, make_range}
use rpki_net.Resource.Set.{ResourceSet, make_set}

-- `_rsplit`: the range at the head of `rset` is cut in two at an end of `that`. Its callers pass
-- ranges of one class, which its type assertions check.
unfoldable pub rsplit : Family → List Range → Range → Result (List Range)
unfolding datum make_range
rsplit f [] that = err assertion_error
rsplit f (this ∷ rest) that =
    if ltb this.min that.min
    then (do
      low ← make_range this.min (that.min - 1)
      high ← make_range that.min this.max
      ok (low ∷ high ∷ rest))
    else (do
      guard (ltb that.max this.max) assertion_error
      low ← make_range this.min that.max
      after ← datum f (that.max + 1)
      high ← make_range after this.max
      ok (low ∷ high ∷ rest))

-- What the tests of one round of the loop of `_comm` choose, at the heads of `set1` and `set2`.
pub data Round : Type 0 where
  stop : Round
  take1 take2 : Round
  split1 split2 : Range → Round
  take_both : Round

unfoldable pub choose : List Range → List Range → Round
choose [] [] = stop
choose (a ∷ s) [] = take1
choose [] (b ∷ t) = take2
choose (a ∷ s) (b ∷ t) =
    if ltb a.max b.min
    then take1
    else if ltb b.max a.min
    then take2
    else if ltb a.min b.min
    then split1 b
    else if ltb b.min a.min
    then split2 a
    else if ltb a.max b.max
    then split2 a
    else if ltb b.max a.max
    then split1 b
    else take_both

-- The lists `only1`, `only2` and `both`, in the order in which the loop appends to them.
pub record Three : Type 0 where
  pub only1 : List Range
  pub only2 : List Range
  pub both : List Range

abbrev pub add1 : List Range → Three → Result Three
add1 [] t = err assertion_error
add1 (r ∷ _) t = ok (record t { only1 = r ∷ t.only1 })

abbrev pub add2 : List Range → Three → Result Three
add2 [] t = err assertion_error
add2 (r ∷ _) t = ok (record t { only2 = r ∷ t.only2 })

abbrev pub add_both : List Range → Three → Result Three
add_both [] t = err assertion_error
add_both (r ∷ _) t = ok (record t { both = r ∷ t.both })

abbrev pub tail : List Range → List Range
tail [] = []
tail (_ ∷ rs) = rs

-- The loop of `_comm`; what it appends stands before what the later rounds append.
unfoldable pub comm_loop : Family → ℕ → List Range → List Range → Result Three
comm_loop f zero set1 set2 = err out_of_fuel
comm_loop f (suc fuel) set1 set2 = elim (choose set1 set2) [
  | stop ↦ ok (record { only1 = []; only2 = []; both = [] })
  | take1 ↦ do t ← comm_loop f fuel (tail set1) set2; add1 set1 t
  | take2 ↦ do t ← comm_loop f fuel set1 (tail set2); add2 set2 t
  | split1 that ↦ do set1' ← rsplit f set1 that; comm_loop f fuel set1' set2
  | split2 that ↦ do set2' ← rsplit f set2 that; comm_loop f fuel set1 set2'
  | take_both ↦ do t ← comm_loop f fuel (tail set1) (tail set2); add_both set1 t
]

-- Four rounds are enough for each range (`comm_loop-IsCommOf`).
abbrev pub comm_fuel : List Range → List Range → ℕ
comm_fuel set1 set2 = suc (4 * (length set1 + length set2))

pub record Comm : Type 0 where
  pub only1 : ResourceSet
  pub only2 : ResourceSet
  pub both : ResourceSet

-- `_comm`. The two sets are of one class, which is its type assertion.
unfoldable pub comm : ResourceSet → ResourceSet → Result Comm
comm self other = do
  guard (not self.inherit) assertion_error
  set1 ← make_set self.family self.ranges false
  set2 ← make_set other.family other.ranges false
  t ← comm_loop self.family (comm_fuel set1.ranges set2.ranges) set1.ranges set2.ranges
  only1 ← make_set self.family t.only1 false
  only2 ← make_set self.family t.only2 false
  both ← make_set self.family t.both false
  ok (record { only1 = only1; only2 = only2; both = both })

unfoldable pub intersection : ResourceSet → ResourceSet → Result ResourceSet
intersection self other = do c ← comm self other; ok c.both

unfoldable pub difference : ResourceSet → ResourceSet → Result ResourceSet
difference self other = do c ← comm self other; ok c.only1
