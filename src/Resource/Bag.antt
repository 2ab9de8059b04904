-- ===== src/Resource/Bag.antt =====
-- `resource_bag`: a set of AS numbers and two of addresses, that travel together.
pub mod Laws
pub mod Equal
use rpki_net.Prelude.{ℕ, Bool, true, false, ◌&&◌, not, [], Option, none, some, if◌then◌else◌, ◌==◌}
use rpki_net.Result.{Result, ok, err, ◌>>=◌}
use rpki_net.Resource.Range.{Family, asn, ipv4, ipv6}
use rpki_net.Resource.Set.{ResourceSet, make_set, inherit_set}
use rpki_net.Resource.Comm.{intersection, difference}
use rpki_net.Resource.Union.{union, symmetric_difference}
use rpki_net.Resource.Query.{issubset, set_eq, set_nonzero}

-- `valid_until` is a time, of which the bag only copies and compares the value.
pub record Bag : Type 0 where
  pub asn_set : ResourceSet
  pub v4_set : ResourceSet
  pub v6_set : ResourceSet
  pub valid_until : Option ℕ

-- `s or resource_set_…()`
unfoldable pub or_empty : Family → Option ResourceSet → Result ResourceSet
or_empty f none = make_set f [] false
or_empty f (some s) = if set_nonzero s then ok s else make_set f [] false

-- `__init__` with sets.
unfoldable pub make_bag :
    Option ResourceSet → Option ResourceSet → Option ResourceSet → Option ℕ → Result Bag
make_bag a v4 v6 valid_until = do
  a' ← or_empty asn a
  v4' ← or_empty ipv4 v4
  v6' ← or_empty ipv6 v6
  ok (record { asn_set = a'; v4_set = v4'; v6_set = v6'; valid_until = valid_until })

-- `from_inheritance`
unfoldable pub from_inheritance : Bag
from_inheritance = record {
  asn_set = inherit_set asn;
  v4_set = inherit_set ipv4;
  v6_set = inherit_set ipv6;
  valid_until = none;
}

-- `empty`
unfoldable pub bag_empty : Bag → Bool
bag_empty b =
    not (set_nonzero b.asn_set) && not (set_nonzero b.v4_set) && not (set_nonzero b.v6_set)

unfoldable pub time_eq : Option ℕ → Option ℕ → Bool
time_eq none none = true
time_eq none (some t) = false
time_eq (some s) none = false
time_eq (some s) (some t) = s == t

-- `p and q`, where `q` is evaluated only if `p` holds.
unfoldable pub and_then : Result Bool → Result Bool → Result Bool
and_then p q = do holds ← p; if holds then q else ok false

-- `__eq__`
unfoldable pub bag_eq : Bag → Bag → Result Bool
unfolding time_eq and_then
bag_eq a b = and_then (set_eq a.asn_set b.asn_set) (
    and_then (set_eq a.v4_set b.v4_set)
      (and_then (set_eq a.v6_set b.v6_set) (ok (time_eq a.valid_until b.valid_until))))

-- `intersection`, `union`, `difference` and `symmetric_difference`, by the operation on the sets.
unfoldable pub bag_apply : (ResourceSet → ResourceSet → Result ResourceSet) → Bag → Bag → Result Bag
bag_apply op a b = do
  a' ← op a.asn_set b.asn_set
  v4' ← op a.v4_set b.v4_set
  v6' ← op a.v6_set b.v6_set
  make_bag (some a') (some v4') (some v6') a.valid_until

unfoldable pub bag_intersection : Bag → Bag → Result Bag
bag_intersection = bag_apply intersection

unfoldable pub bag_union : Bag → Bag → Result Bag
bag_union = bag_apply union

unfoldable pub bag_difference : Bag → Bag → Result Bag
bag_difference = bag_apply difference

unfoldable pub bag_symmetric_difference : Bag → Bag → Result Bag
bag_symmetric_difference = bag_apply symmetric_difference

-- The three tests of `oversized` and `undersized`, in their order: is `a` part of `b`? The sets of
-- `b` may be brought into canonical form, so it comes back with the answer.
unfoldable pub bag_within : Bag → Bag → Result (Bag × Bool)
bag_within a b = do
  (asn', x) ← issubset a.asn_set b.asn_set
  let b1 = record b { asn_set = asn' }
  elim x [
    | false ↦ ok (b1, false)
    | true ↦ do
      (v4', y) ← issubset a.v4_set b1.v4_set
      let b2 = record b1 { v4_set = v4' }
      elim y [
        | false ↦ ok (b2, false)
        | true ↦ do (v6', z) ← issubset a.v6_set b2.v6_set; ok (record b2 { v6_set = v6' }, z)
      ]
  ]

-- `self.oversized(other)`, with `other` as it is left.
unfoldable pub oversized : Bag → Bag → Result (Bag × Bool)
oversized self other = do (other', inside) ← bag_within self other; ok (other', not inside)

-- `self.undersized(other)`, with `self` as it is left.
unfoldable pub undersized : Bag → Bag → Result (Bag × Bool)
undersized self other = do (self', inside) ← bag_within other self; ok (self', not inside)
