-- ===== src/Resource/Query/Equal.antt =====
-- What the comparisons of sets decide, for well-formed sets.
use rpki_net.Prelude.{
  ℕ, ◌≡◌, ◌≢◌, ◌↔◌, ◌⊎◌, inl, inr, refl, sym, ap, Bool, true, false, not, List, [], ◌∷◌, arith,
  length, ◌==◌, ◌&&◌, if◌then◌else◌, Bool-cases,
}
use rpki_net.Result.{Result, ok, err, assertion_error, Returns, ◌>>=◌}
use rpki_net.Resource.Range.{Family, Range, covers}
use rpki_net.Resource.Unique.{IsCanonical-unique}
use rpki_net.Resource.Set.{ResourceSet}
use rpki_net.Resource.Set.Valid.{IsValid}
use rpki_net.Resource.Query.{set_eq, set_ne, ranges_ne, some_differ, range_eq}
use rpki_net.Resource.Query.Classes.{family_eq_refl, family_eq_differ}

-- A comparison that returned, with true just if the lists are not the same.
abbrev Differs : List Range → List Range → Result Bool → Type 0
Differs a b m = Returns m (λ e. (e ≡ false) ↔ (a ≡ b))

head_tail :
    (r q : Range) (a b : List Range) (e : Bool) (m : Result Bool)
    → e ≡ (r.min == q.min && r.max == q.max)
    → Differs a b m
    → Differs (r ∷ a) (q ∷ b) (if e then m else ok true)
head_tail r q a b true (ok n) h k =
    let same : r ≡ q = ground (arith, h) in (λ x. cc (same, k.0 x), λ x. k.1 cc)
head_tail r q a b true (err n) h k = absurd k
head_tail r q a b false m h k = ((λ x. absurd cc), λ x. absurd (ground (arith, h, x)))

some_differ-Differs :
    (f : Family) (a b : List Range) → length a ≡ length b → Differs a b (some_differ f f a b)
unfolding some_differ range_eq
some_differ-Differs f [] [] e = ((λ h. refl), λ h. refl)
some_differ-Differs f [] (r ∷ b) e = absurd (omega (arith, e))
some_differ-Differs f (r ∷ a) [] e = absurd (omega (arith, e))
some_differ-Differs f (r ∷ a) (q ∷ b) e = rw (family_eq_refl f) (
    head_tail r q a b (r.min == q.min && r.max == q.max) (some_differ f f a b) refl
      (some_differ-Differs f a b (omega (arith, e))))

some_differ-length :
    (f g : Family) (a b : List Range)
    → f ≢ g
    → a ≢ []
    → length a ≡ length b
    → some_differ f g a b ≡ err assertion_error
unfolding some_differ range_eq
some_differ-length f g [] b d n e = absurd (n refl)
some_differ-length f g (r ∷ a) [] d n e = absurd (omega (arith, e))
some_differ-length f g (r ∷ a) (q ∷ b) d n e = rw (family_eq_differ f g d) refl

-- Lists of one class, or such that no two ranges are compared.
abbrev Comparable : Family → Family → List Range → List Range → Type 0
Comparable f g a b = (f ≡ g) ⊎ ((a ≡ []) ⊎ (length a ≢ length b))

ranges_ne-Differs :
    (f g : Family) (a b : List Range) → Comparable f g a b → Differs a b (ranges_ne f g a b)
unfolding ranges_ne
ranges_ne-Differs f g a b k = elim (Bool-cases (length a == length b)) [
  | inl e ↦ rw e (elim k [
    | inl same ↦ rw (sym same) (some_differ-Differs f a b (ground (arith, e)))
    | inr (inl none) ↦ empty a b none (ground (arith, e))
    | inr (inr far) ↦ absurd (far (ground (arith, e)))
  ])
  | inr e ↦ rw e ((λ x. absurd cc), λ x. absurd (ground (arith, e, ap length x)))
]
  where
    empty : (a b : List Range) → a ≡ [] → length a ≡ length b → Differs a b (some_differ f g a b)
    empty [] [] n e = ((λ h. refl), λ h. refl)
    empty [] (r ∷ b) n e = absurd (omega (arith, e))
    empty (r ∷ a) b n e = absurd cc

ranges_ne-length :
    (f g : Family) (a b : List Range)
    → f ≢ g
    → a ≢ []
    → length a ≡ length b
    → ranges_ne f g a b ≡ err assertion_error
unfolding ranges_ne
ranges_ne-length f g a b d n e =
    let known : (length a == length b) ≡ true = ground (arith, e) in
    rw known (some_differ-length f g a b d n e)

-- `not`, of a comparison of lists that are the same just if `P` holds.
not-Differs :
    (P : Type 0) (a b : List Range) (m : Result Bool)
    → (a ≡ b → P)
    → (P → a ≡ b)
    → Differs a b m
    → Returns (do differ ← m; ok (not differ)) (λ e. (e ≡ true) ↔ P)
not-Differs P a b (err raised) to from k = k
not-Differs P a b (ok true) to from k = (λ x. absurd cc, λ p. absurd cc (k.1 (from p)))
not-Differs P a b (ok false) to from k = (λ x. to (k.0 refl), λ p. refl)

module _ (s o : ResourceSet) (vs : IsValid s) (vo : IsValid o) where
  -- For well-formed sets that are of one class, or of which the first is empty, or that have different
  -- numbers of ranges, `__eq__` returns, with true exactly if they hold the same numbers. For other
  -- sets, of different classes, it raises AssertionError.
  pub set_eq_iff :
      ((s.family ≡ o.family) ⊎ ((s.ranges ≡ []) ⊎ (length s.ranges ≢ length o.ranges))
        → Returns
            (set_eq s o)
            (λ e. (e ≡ true) ↔ ((x : ℕ) → covers x s.ranges ≡ covers x o.ranges)))
      × (s.family ≢ o.family
          → s.ranges ≢ []
          → length s.ranges ≡ length o.ranges
          → set_eq s o ≡ err assertion_error)
  unfolding set_eq set_ne
  set_eq_iff =
      let unique = IsCanonical-unique s.ranges o.ranges vs.canonical vo.canonical in
      (
        λ k.
            rw (vs.explicit, vo.explicit)
              (not-Differs _ s.ranges o.ranges (ranges_ne s.family o.family s.ranges o.ranges)
                (λ e x. ap (covers x) e) unique
                (ranges_ne-Differs s.family o.family s.ranges o.ranges k)),
        λ d n e.
            rw (vs.explicit, vo.explicit)
              (rw (ranges_ne-length s.family o.family s.ranges o.ranges d n e) refl),
      )
