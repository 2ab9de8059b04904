-- ===== src/Resource/Roa.antt =====
-- `roa_prefix` and `roa_prefix_set`: the prefixes of a ROA, and the ways to and from resource sets.
pub mod Sort
pub mod Union
pub mod Back
use Prim.Native.Nat.{bit_or}
use rpki_net.Prelude.{
  ℕ, ◌+◌, ◌-◌, ◌^◌, Bool, true, false, ◌&&◌, ◌||◌, List, [], ◌∷◌, ◌++◌, Option, none, some, ltb,
  leb, ◌==◌, if◌then◌else◌,
}
use rpki_net.Result.{Result, ok, err, assertion_error, guard, ◌>>=◌, ◌>>◌}
use rpki_net.Resource.Range.{Family, Range, bits}
use rpki_net.Resource.Set.{ResourceSet, make_set}
use rpki_net.Resource.Union.{union}
use rpki_net.Resource.Prefix.{make_prefix, prefixlen, chop_into_prefixes}

pub record RoaPrefix : Type 0 where
  pub prefix : ℕ
  pub prefixlen : ℕ
  pub max_prefixlen : ℕ

-- `roa_prefix.__init__`; the last argument may be left out.
unfoldable pub make_roa_prefix : ℕ → ℕ → Option ℕ → Result RoaPrefix
make_roa_prefix prefix len none =
    ok (record { prefix = prefix; prefixlen = len; max_prefixlen = len })
make_roa_prefix prefix len (some max_len) = do
  guard (leb len max_len) assertion_error
  ok (record { prefix = prefix; prefixlen = len; max_prefixlen = max_len })

-- `roa_prefix.__cmp__`, as the test `a <= b`
unfoldable pub roa_prefix_le : RoaPrefix → RoaPrefix → Bool
roa_prefix_le a b =
    ltb a.prefix b.prefix
    || (a.prefix == b.prefix
        && (ltb a.prefixlen b.prefixlen
            || (a.prefixlen == b.prefixlen && leb a.max_prefixlen b.max_prefixlen)))

-- `to_resource_range`
unfoldable pub to_resource_range : Family → RoaPrefix → Result Range
to_resource_range f p = make_prefix f p.prefix p.prefixlen

-- `min` and `max`
unfoldable pub roa_min : RoaPrefix → ℕ
roa_min p = p.prefix

unfoldable pub roa_max : Family → RoaPrefix → ℕ
roa_max f p = bit_or p.prefix (2 ^ (bits f - p.prefixlen) - 1)

pub record RoaPrefixSet : Type 0 where
  pub family : Family
  pub prefixes : List RoaPrefix

-- `self.sort()`, by the prefixes' `__cmp__`.
unfoldable pub insert_prefix : RoaPrefix → List RoaPrefix → List RoaPrefix
insert_prefix p [] = p ∷ []
insert_prefix p (q ∷ ps) = if roa_prefix_le p q then p ∷ q ∷ ps else q ∷ insert_prefix p ps

unfoldable pub sort_prefixes : List RoaPrefix → List RoaPrefix
sort_prefixes [] = []
sort_prefixes (p ∷ ps) = insert_prefix p (sort_prefixes ps)

-- `roa_prefix_set.__init__` with a list.
unfoldable pub make_roa_set : Family → List RoaPrefix → RoaPrefixSet
make_roa_set f ps = record { family = f; prefixes = sort_prefixes ps }

-- The set `s` of `to_resource_set`, after `s[0] = r`.
abbrev pub single : Family → Range → ResourceSet
single f r = record { family = f; inherit = false; canonical = false; ranges = r ∷ [] }

-- The loop of `to_resource_set`.
unfoldable pub unite_prefixes : Family → ResourceSet → List RoaPrefix → Result ResourceSet
unite_prefixes f r [] = ok r
unite_prefixes f r (p ∷ ps) = do
  range ← to_resource_range f p
  r' ← union r (single f range)
  unite_prefixes f r' ps

unfoldable pub to_resource_set : RoaPrefixSet → Result ResourceSet
to_resource_set s = do r ← make_set s.family [] false; unite_prefixes s.family r s.prefixes

-- The comprehension of `to_roa_prefix_set`.
unfoldable pub as_prefixes : Family → List Range → Result (List RoaPrefix)
as_prefixes f [] = ok []
as_prefixes f (r ∷ rs) = do
  len ← prefixlen f r
  p ← make_roa_prefix r.min len none
  ps ← as_prefixes f rs
  ok (p ∷ ps)

-- `int_log n` stands for `int(math.log(n, 2))`.
module _ (int_log : ℕ → ℕ) where
  -- The loop of `to_roa_prefix_set`.
  unfoldable pub chop_all : Family → List Range → Result (List Range)
  chop_all f [] = ok []
  chop_all f (r ∷ rs) = do
    chopped ← chop_into_prefixes int_log f r
    rest ← chop_all f rs
    ok (chopped ++ rest)

  unfoldable pub to_roa_prefix_set : ResourceSet → Result RoaPrefixSet
  to_roa_prefix_set s = do
    prefix_ranges ← chop_all s.family s.ranges
    ps ← as_prefixes s.family prefix_ranges
    ok (make_roa_set s.family ps)
