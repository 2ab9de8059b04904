-- ===== src/Resource/Bag/Laws.antt =====
-- The operations on bags, field by field.
use rpki_net.Prelude.{
  ℕ, ◌≡◌, ◌↔◌, refl, sym, ◌∙◌, subst, Bool, true, false, ◌&&◌, ◌||◌, not, List, [], ◌∷◌, arith,
  some, Bool-cases, inl, inr,
}
use rpki_net.Result.{Result, ok, Returns, Returns-bind, Returns-map}
use rpki_net.Resource.Range.{Family, asn, ipv4, ipv6, Range, covers}
use rpki_net.Resource.Set.{ResourceSet, is_empty}
use rpki_net.Resource.Set.Valid.{IsValid, IsSetWith, make_set-IsCanonical}
use rpki_net.Resource.Query.{issubset, set_nonzero}
use rpki_net.Resource.Query.Laws.{Within, issubset-Within}
use rpki_net.Resource.Comm.{intersection, difference}
use rpki_net.Resource.Comm.Laws.{intersection-IsSetWith, difference-IsSetWith}
use rpki_net.Resource.Union.{symmetric_difference}
use rpki_net.Resource.Union.Laws.{symmetric_difference-IsSetWith}
use rpki_net.Resource.Bag.{
  Bag, or_empty, make_bag, bag_apply, bag_intersection, bag_difference, bag_symmetric_difference,
  bag_within, oversized, undersized,
}

-- A bag of well-formed sets of their classes.
pub record IsBag (b : Bag) : Type 0 where
  pub asn_family : b.asn_set.family ≡ asn
  pub v4_family : b.v4_set.family ≡ ipv4
  pub v6_family : b.v6_set.family ≡ ipv6
  pub asn_valid : IsValid b.asn_set
  pub v4_valid : IsValid b.v4_set
  pub v6_valid : IsValid b.v6_set

-- Every field of the bag holds just the numbers that the test makes of those of the same field in
-- `a` and `b`.
pub record IsBagWith (test : Bool → Bool → Bool) (a b c : Bag) : Type 0 where
  pub asn_with :
      IsSetWith asn (λ x. test (covers x a.asn_set.ranges) (covers x b.asn_set.ranges)) c.asn_set
  pub v4_with :
      IsSetWith ipv4 (λ x. test (covers x a.v4_set.ranges) (covers x b.v4_set.ranges)) c.v4_set
  pub v6_with :
      IsSetWith ipv6 (λ x. test (covers x a.v6_set.ranges) (covers x b.v6_set.ranges)) c.v6_set
  pub time : c.valid_until ≡ a.valid_until

covers-is_empty : (x : ℕ) (rs : List Range) → is_empty rs ≡ true → covers x rs ≡ false
covers-is_empty x [] e = refl
covers-is_empty x (r ∷ rs) e = cc

or_empty-IsSetWith :
    (f : Family) (test : ℕ → Bool) (s : ResourceSet)
    → IsSetWith f test s
    → Returns (or_empty f (some s)) (IsSetWith f test)
unfolding or_empty
or_empty-IsSetWith f test s k = elim (Bool-cases (set_nonzero s)) [
  | inl e ↦ rw e k
  | inr e ↦
      rw (e, make_set-IsCanonical f [] tt tt)
        (record {
          family = refl;
          valid = record { explicit = refl; canonical = tt; fits = tt };
          same =
              λ x. sym (covers-is_empty x s.ranges (unfold set_nonzero in ground arith)) ∙ k.same x;
        })
]

module _ (op : ResourceSet → ResourceSet → Result ResourceSet) (test : Bool → Bool → Bool)
    (sound : (s o : ResourceSet)
      → s.family ≡ o.family
      → IsValid s
      → IsValid o
      → Returns (op s o) (IsSetWith s.family (λ x. test (covers x s.ranges) (covers x o.ranges))))
    (a b : Bag) (va : IsBag a) (vb : IsBag b) where
  field_op :
      (f : Family) (s o : ResourceSet)
      → s.family ≡ f
      → o.family ≡ f
      → IsValid s
      → IsValid o
      → Returns (op s o) (IsSetWith f (λ x. test (covers x s.ranges) (covers x o.ranges)))
  field_op f s o es eo vs vo =
      subst
        (λ g. Returns (op s o) (IsSetWith g (λ x. test (covers x s.ranges) (covers x o.ranges)))) es
        (sound s o (es ∙ sym eo) vs vo)

  bag_apply-IsBagWith : Returns (bag_apply op a b) (IsBagWith test a b)
  unfolding bag_apply make_bag
  bag_apply-IsBagWith =
      Returns-bind _ _ (op a.asn_set b.asn_set) _
        (field_op asn _ _ va.asn_family vb.asn_family va.asn_valid vb.asn_valid)
        (λ x kx.
          Returns-bind _ _ (op a.v4_set b.v4_set) _
            (field_op ipv4 _ _ va.v4_family vb.v4_family va.v4_valid vb.v4_valid)
            (λ y ky.
              Returns-bind _ _ (op a.v6_set b.v6_set) _
                (field_op ipv6 _ _ va.v6_family vb.v6_family va.v6_valid vb.v6_valid)
                (λ z kz.
                  Returns-bind _ _ (or_empty asn (some x)) _ (or_empty-IsSetWith asn _ x kx)
                    (λ x' hx.
                      Returns-bind _ _ (or_empty ipv4 (some y)) _ (or_empty-IsSetWith ipv4 _ y ky)
                        (λ y' hy.
                          Returns-bind _ _ (or_empty ipv6 (some z)) _
                            (or_empty-IsSetWith ipv6 _ z kz)
                            (λ z' hz. record {
                              asn_with = hx;
                              v4_with = hy;
                              v6_with = hz;
                              time = refl;
                            }))))))

module _ (a b : Bag) (va : IsBag a) (vb : IsBag b) where
  -- For bags of well-formed sets, `intersection`, `difference` and `symmetric_difference` return
  -- bags of well-formed sets that hold, field by field, the numbers in both, those only in the
  -- first, and those in just one of them; the time is that of the first.
  pub bag_operations :
      Returns (bag_intersection a b) (IsBagWith (λ p q. p && q) a b)
      × Returns (bag_difference a b) (IsBagWith (λ p q. p && not q) a b)
      × Returns (bag_symmetric_difference a b) (IsBagWith (λ p q. (p && not q) || (q && not p)) a b)
  unfolding bag_intersection bag_difference bag_symmetric_difference
  bag_operations = (
    bag_apply-IsBagWith intersection _ intersection-IsSetWith a b va vb,
    bag_apply-IsBagWith difference _ difference-IsSetWith a b va vb,
    bag_apply-IsBagWith symmetric_difference _ symmetric_difference-IsSetWith a b va vb,
  )

-- Every number of `a` is in the same field of `b`.
abbrev pub BagWithin : Bag → Bag → Type 0
BagWithin a b =
    Within a.asn_set.ranges b.asn_set
    × Within a.v4_set.ranges b.v4_set
    × Within a.v6_set.ranges b.v6_set

-- A test that decides `P`, then, if it holds, a rest that decides `Q`.
test_and :
    (P Q R : Type 0) (found : Bool) (b : Bag) (more : Result (Bag × Bool))
    → (P → Q → R)
    → (R → P)
    → (R → Q)
    → (found ≡ true) ↔ P
    → Returns more (λ u. (u.1 ≡ true) ↔ Q)
    → Returns {A = Bag × Bool}
        (elim found [ false ↦ ok (b, false) | true ↦ more ])
        (λ u. (u.1 ≡ true) ↔ R)
test_and P Q R false b more join left right h k = (λ e. cc, λ r. h.1 (left r))
test_and P Q R true b more join left right h k =
    Returns-map _ _ more k (λ u g. (λ e. join (h.0 refl) (g.0 e), λ r. g.1 (right r)))

module _ (a b : Bag) (va : IsBag a) (vb : IsBag b) where
  bag_within_iff : Returns (bag_within a b) (λ u. (u.1 ≡ true) ↔ BagWithin a b)
  unfolding bag_within
  bag_within_iff =
      let A : Type 0 = Within a.asn_set.ranges b.asn_set in
      let B : Type 0 = Within a.v4_set.ranges b.v4_set in
      let C : Type 0 = Within a.v6_set.ranges b.v6_set in
      Returns-bind _ _ (issubset a.asn_set b.asn_set) _
        ((issubset-Within a.asn_set b.asn_set va.asn_valid vb.asn_valid).0
          (inl (va.asn_family ∙ sym vb.asn_family)))
        (λ x hx.
          test_and A (B × C) (BagWithin a b) x.1 _ _ (λ p q. (p, q.0, q.1)) (λ r. r.0)
            (λ r. (r.1, r.2)) hx
            (Returns-bind _ _ (issubset a.v4_set b.v4_set) _
              ((issubset-Within a.v4_set b.v4_set va.v4_valid vb.v4_valid).0
                (inl (va.v4_family ∙ sym vb.v4_family)))
              (λ y hy.
                test_and B C (B × C) y.1 _ _ (λ p q. (p, q)) (λ r. r.0) (λ r. r.1) hy
                  (Returns-bind _ _ (issubset a.v6_set b.v6_set) _
                    ((issubset-Within a.v6_set b.v6_set va.v6_valid vb.v6_valid).0
                      (inl (va.v6_family ∙ sym vb.v6_family)))
                    (λ z hz. hz)))))

-- For bags of well-formed sets, `oversized` returns, and is false exactly if every number of the
-- first is in the same set of the second; `undersized` returns, and is false exactly if every
-- number of the second is in the same set of the first.
pub oversized_iff :
    (a b : Bag)
    → IsBag a
    → IsBag b
    → Returns (oversized a b) (λ u. (u.1 ≡ false) ↔ BagWithin a b)
      × Returns (undersized a b) (λ u. (u.1 ≡ false) ↔ BagWithin b a)
unfolding oversized undersized
oversized_iff a b va vb = (
  Returns-bind _ _ (bag_within a b) _ (bag_within_iff a b va vb)
      (λ u h. (λ e. h.0 (ground arith), λ w. ground (arith, h.1 w))),
  Returns-bind _ _ (bag_within b a) _ (bag_within_iff b a vb va)
      (λ u h. (λ e. h.0 (ground arith), λ w. ground (arith, h.1 w))),
)
