-- ===== src/Resource/Bag/Equal.antt =====
-- `__eq__` of bags.
use rpki_net.Prelude.{
  ℕ, ◌≡◌, ◌↔◌, refl, ap, Bool, true, false, Option, none, some, arith, inl, sym, ◌∙◌,
}
use rpki_net.Result.{Result, ok, err, Returns}
use rpki_net.Resource.Range.{covers}
use rpki_net.Resource.Set.{ResourceSet}
use rpki_net.Resource.Bag.{Bag, bag_eq, and_then, time_eq}
use rpki_net.Resource.Bag.Laws.{IsBag}
use rpki_net.Resource.Query.{set_eq}
use rpki_net.Resource.Query.Equal.{set_eq_iff}

-- A test that returned, and decides `P`.
abbrev Decides : Type 0 → Result Bool → Type 0
Decides P m = Returns m (λ e. (e ≡ true) ↔ P)

and_then-Decides :
    (P Q : Type 0) (p q : Result Bool) → Decides P p → Decides Q q → Decides (P × Q) (and_then p q)
unfolding and_then
and_then-Decides P Q (err raised) q h k = absurd h
and_then-Decides P Q (ok false) q h k = ((λ e. absurd cc), λ r. h.1 r.0)
and_then-Decides P Q (ok true) (err raised) h k = absurd k
and_then-Decides P Q (ok true) (ok e) h k = ((λ x. (h.0 refl, k.0 x)), λ r. k.1 r.1)

or_zero : Option ℕ → ℕ
or_zero none = 0
or_zero (some n) = n

time_eq_iff : (s t : Option ℕ) → (time_eq s t ≡ true) ↔ (s ≡ t)
unfolding time_eq
time_eq_iff none none = ((λ e. refl), λ e. refl)
time_eq_iff none (some t) = ((λ e. absurd cc), λ e. absurd cc)
time_eq_iff (some s) none = ((λ e. absurd cc), λ e. absurd cc)
time_eq_iff (some s) (some t) =
    ((λ e. ap some (ground (arith, e))), λ e. ground (arith, ap or_zero e))

-- The sets hold the same numbers.
abbrev pub SameNumbers : ResourceSet → ResourceSet → Type 0
SameNumbers s o = (x : ℕ) → covers x s.ranges ≡ covers x o.ranges

-- For bags of well-formed sets `__eq__` returns, with true exactly if the bags hold the same AS
-- numbers and the same addresses, and have the same time or none both.
pub bag_eq_iff :
    (a b : Bag)
    → IsBag a
    → IsBag b
    → Returns (bag_eq a b) (λ e. (e ≡ true) ↔ (
        SameNumbers a.asn_set b.asn_set
        × (SameNumbers a.v4_set b.v4_set
            × (SameNumbers a.v6_set b.v6_set × (a.valid_until ≡ b.valid_until)))))
unfolding bag_eq
bag_eq_iff a b va vb =
    and_then-Decides _ _ (set_eq a.asn_set b.asn_set) _
      ((set_eq_iff a.asn_set b.asn_set va.asn_valid vb.asn_valid).0
        (inl (va.asn_family ∙ sym vb.asn_family)))
      (and_then-Decides _ _ (set_eq a.v4_set b.v4_set) _
        ((set_eq_iff a.v4_set b.v4_set va.v4_valid vb.v4_valid).0
          (inl (va.v4_family ∙ sym vb.v4_family)))
        (and_then-Decides _ _ (set_eq a.v6_set b.v6_set) _
          ((set_eq_iff a.v6_set b.v6_set va.v6_valid vb.v6_valid).0
            (inl (va.v6_family ∙ sym vb.v6_family)))
          (time_eq_iff a.valid_until b.valid_until)))
