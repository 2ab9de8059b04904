-- ===== src/Resource/Set.antt =====
-- `resource_set`: the constructor, `canonize`, and what has no loop of its own. A method that
-- raises gives no state: its callers drop the set, or let the exception through.
pub mod Sort
pub mod Canonize
pub mod Overlap
pub mod Construct
pub mod Top
pub mod Valid
use rpki_net.Prelude.{
  ℕ, ◌+◌, ◌≡◌, Bool, true, false, ◌&&◌, ◌||◌, not, List, [], ◌∷◌, Option, none, some, max, ltb, leb,
  ◌==◌, if◌then◌else◌,
}
use rpki_net.Result.{Result, ok, err, assertion_error, resource_overlap, guard, ◌>>=◌, ◌>>◌}
use rpki_net.Resource.Range.{Family, Range, datum, make_range, range_le}

pub record ResourceSet : Type 0 where
  pub family : Family
  pub inherit : Bool
  pub canonical : Bool
  pub ranges : List Range

abbrev pub is_empty : List Range → Bool
is_empty [] = true
is_empty (_ ∷ _) = false

-- `self.sort()`, by the ranges' `__cmp__`.
unfoldable pub insert_range : Range → List Range → List Range
insert_range r [] = r ∷ []
insert_range r (s ∷ rs) = if range_le r s then r ∷ s ∷ rs else s ∷ insert_range r rs

unfoldable pub sort : List Range → List Range
sort [] = []
sort (r ∷ rs) = insert_range r (sort rs)

-- One round of the first loop of `canonize`, at `self[i]` and `self[i+1]`: the range that replaces
-- both, or none if the loop goes on to `i + 1`.
unfoldable pub join_ranges : Family → Bool → Range → Range → Result (Option Range)
unfolding datum make_range
join_ranges f allow_overlap cur next = do
  after ← datum f (cur.max + 1)
  if allow_overlap && leb next.min after
      then (do joined ← make_range cur.min (max cur.max next.max); ok (some joined))
      else if after == next.min
      then (do joined ← make_range cur.min next.max; ok (some joined))
      else ok none

-- The first loop of `canonize`, with `self[i]` at the head.
unfoldable pub join_loop : Family → Bool → Range → List Range → Result (List Range)
join_loop f allow_overlap cur [] = ok (cur ∷ [])
join_loop f allow_overlap cur (next ∷ rest) = do
  joined ← join_ranges f allow_overlap cur next
  elim joined [
    | some r ↦ join_loop f allow_overlap r rest
    | none ↦ do done ← join_loop f allow_overlap next rest; ok (cur ∷ done)
  ]

unfoldable pub join_all : Family → Bool → List Range → Result (List Range)
join_all f allow_overlap [] = ok []
join_all f allow_overlap (r ∷ rs) = join_loop f allow_overlap r rs

-- The second loop of `canonize`.
unfoldable pub check_overlap : List Range → Result (Unit {0})
check_overlap [] = ok tt
check_overlap (a ∷ []) = ok tt
check_overlap (a ∷ b ∷ rest) = do guard (ltb a.max b.min) resource_overlap; check_overlap (b ∷ rest)

-- The body of `canonize`, for a set that is not marked canonical.
unfoldable pub canonize_ranges : Family → Bool → List Range → Result (List Range)
canonize_ranges f allow_overlap rs = do
  joined ← join_all f allow_overlap (sort rs)
  check_overlap joined
  ok joined

unfoldable pub canonize : Bool → ResourceSet → Result ResourceSet
canonize allow_overlap s = do
  guard (not s.inherit || is_empty s.ranges) assertion_error
  if s.canonical then ok s else (do
    rs ← canonize_ranges s.family allow_overlap s.ranges
    ok (record s { canonical = true; ranges = rs }))

-- `__init__` with a list, or another set, as `ini`: the inherit flag is not copied.
unfoldable pub make_set : Family → List Range → Bool → Result ResourceSet
make_set f ini allow_overlap =
    canonize allow_overlap (record { family = f; inherit = false; canonical = false; ranges = ini })

-- `__init__` with the inherit token.
unfoldable pub inherit_set : Family → ResourceSet
inherit_set f = record { family = f; inherit = true; canonical = true; ranges = [] }
