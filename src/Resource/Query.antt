-- ===== src/Resource/Query.antt =====
-- The tests on sets: `contains`, `issubset`, `issuperset`, `__eq__`, `__ne__`, `__nonzero__`.
pub mod Search
pub mod Laws
pub mod Classes
pub mod Equal
use rpki_net.Prelude.{
  ℕ, zero, suc, ◌+◌, ◌/◌, Bool, true, false, ◌&&◌, ◌||◌, not, List, [], ◌∷◌, Option, none, some,
  ltb, leb, ◌==◌, get_elem?, length, if◌then◌else◌,
}
use rpki_net.Result.{
  Error, Result, ok, err, assertion_error, type_error, index_error, out_of_fuel, guard, ◌>>=◌, ◌>>◌,
}
use rpki_net.Resource.Range.{Family, asn, ipv4, ipv6, Range}
use rpki_net.Resource.Set.{ResourceSet, canonize, is_empty}

-- The loop of `contains`.
unfoldable pub bisect : ℕ → List Range → ℕ → ℕ → ℕ → Result ℕ
bisect zero rs range_max lo hi = err out_of_fuel
bisect (suc fuel) rs range_max lo hi = elim (ltb lo hi) [
  | true ↦ elim (get_elem? rs ((lo + hi) / 2)) [
    | none ↦ err index_error
    | some r ↦ elim (ltb r.max range_max) [
      | true ↦ bisect fuel rs range_max ((lo + hi) / 2 + 1) hi
      | false ↦ bisect fuel rs range_max lo ((lo + hi) / 2)
    ]
  ]
  | false ↦ ok lo
]

-- The test on the range at `self[lo]`; none is `lo == len(self)`.
abbrev pub encloses : ℕ → ℕ → Option Range → Bool
encloses range_min range_max none = false
encloses range_min range_max (some r) = leb r.min range_min && leb range_max r.max

unfoldable pub search_ranges : List Range → ℕ → ℕ → Result Bool
search_ranges rs range_min range_max = do
  lo ← bisect (suc (length rs)) rs range_max 0 (length rs)
  ok (encloses range_min range_max (get_elem? rs lo))

-- `type(item) is type(self[0])`
unfoldable pub family_eq : Family → Family → Bool
family_eq asn asn = true
family_eq ipv4 ipv4 = true
family_eq ipv6 ipv6 = true
family_eq f g = false

-- What the comparison of a number of this class with a whole range raises: a long leaves it to the
-- range's `__cmp__`, which asserts that the classes are the same; an address makes a long of both.
unfoldable pub class_fault : Family → Error
class_fault asn = assertion_error
class_fault ipv4 = type_error
class_fault ipv6 = type_error

-- `contains`, for a range of the class `f`. It may bring `self` into canonical form, so the set comes
-- back with the answer. A range of another class than the set's is compared as if it were a number.
unfoldable pub contains_of : Family → ResourceSet → Range → Result (ResourceSet × Bool)
unfolding family_eq class_fault
contains_of f self item = do
  guard (not self.inherit) assertion_error
  self' ← canonize false self
  if is_empty self'.ranges then ok (self', false) else (do
    guard (family_eq f self'.family) (class_fault self'.family)
    found ← search_ranges self'.ranges item.min item.max
    ok (self', found))

-- `contains`, for a range of the set's own class, or for the range of a single number.
unfoldable pub contains : ResourceSet → Range → Result (ResourceSet × Bool)
unfolding contains_of
contains self item = contains_of self.family self item

-- The loop of `issubset` over the ranges of `self`, which are of the class `f`.
unfoldable pub all_contained : Family → List Range → ResourceSet → Result (ResourceSet × Bool)
all_contained f [] other = ok (other, true)
all_contained f (i ∷ rest) other = do
  (other', found) ← contains_of f other i
  elim found [ true ↦ all_contained f rest other' | false ↦ ok (other', false) ]

unfoldable pub issubset : ResourceSet → ResourceSet → Result (ResourceSet × Bool)
issubset self other = all_contained self.family self.ranges other

unfoldable pub issuperset : ResourceSet → ResourceSet → Result (ResourceSet × Bool)
issuperset self other = issubset other self

-- `resource_range.__cmp__`, as the test `a == b`, for ranges of the classes `f` and `g`.
unfoldable pub range_eq : Family → Family → Range → Range → Result Bool
unfolding family_eq
range_eq f g a b = do guard (family_eq f g) assertion_error; ok (a.min == b.min && a.max == b.max)

-- The loop of `list.__ne__` over two lists of the same length, up to the first two ranges that differ.
unfoldable pub some_differ : Family → Family → List Range → List Range → Result Bool
unfolding range_eq
some_differ f g (a ∷ s) (b ∷ t) = do
  let rest = some_differ f g s t
  equal ← range_eq f g a b
  if equal then rest else ok true
some_differ f g s t = ok false

-- `list.__ne__`, which compares no ranges where the lengths differ.
unfoldable pub ranges_ne : Family → Family → List Range → List Range → Result Bool
unfolding some_differ
ranges_ne f g s t = if length s == length t then some_differ f g s t else ok true

-- `__ne__` and `__eq__`
unfoldable pub set_ne : ResourceSet → ResourceSet → Result Bool
unfolding ranges_ne
set_ne self other =
    if self.inherit || other.inherit
    then ok true
    else ranges_ne self.family other.family self.ranges other.ranges

unfoldable pub set_eq : ResourceSet → ResourceSet → Result Bool
unfolding set_ne
set_eq self other = do differ ← set_ne self other; ok (not differ)

-- `__nonzero__`, as the truth value of what it returns.
unfoldable pub set_nonzero : ResourceSet → Bool
set_nonzero self = self.inherit || not (is_empty self.ranges)
