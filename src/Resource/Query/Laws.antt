-- ===== src/Resource/Query/Laws.antt =====
-- What the tests on sets decide, for well-formed sets.
use rpki_net.Prelude.{
  ℕ, ◌+◌, ◌≤◌, ◌≡◌, ◌↔◌, refl, sym, ap, subst, Bool, true, false, List, [], ◌∷◌, arith, All,
  if◌then◌else◌, Bool-cases, inl, inr, ◌⊎◌, ◌≢◌, ◌∙◌,
}
use rpki_net.Result.{
  Error, ok, err, assertion_error, type_error, guard, ◌>>◌, Returns, Returns-bind, Returns-map,
  ◌>>=◌,
}
use rpki_net.Resource.Range.{Family, asn, ipv4, ipv6, Range, covers, within}
use rpki_net.Resource.Sorted.{IsCanonical}
use rpki_net.Resource.Set.{ResourceSet, canonize, is_empty}
use rpki_net.Resource.Set.Valid.{IsValid, canonize_ranges-IsCanonical}
use rpki_net.Resource.Query.{
  family_eq, class_fault, contains_of, contains, search_ranges, all_contained, issubset,
}
use rpki_net.Resource.Query.Classes.{family_eq_refl, family_eq_differ}
use rpki_net.Resource.Query.Search.{search_ranges_iff, HoldsAll}

-- A test on a set gave the right answer, and left the set as it was but for the canonical flag.
pub record Answers (s : ResourceSet) (P : Type 0) (r : ResourceSet × Bool) : Type 0 where
  pub answer : (r.1 ≡ true) ↔ P
  pub kept : r.0 ≡ record s { canonical = true }

is_empty→nil : (rs : List Range) → is_empty rs ≡ true → rs ≡ []
is_empty→nil [] e = refl
is_empty→nil (r ∷ rs) e = cc

canonize-IsValid :
    (s : ResourceSet) → IsValid s → canonize false s ≡ ok (record s { canonical = true })
unfolding canonize
canonize-IsValid s v = elim (Bool-cases s.canonical) [
  | inl e ↦ rw (v.explicit, e) refl
  | inr e ↦
      rw (v.explicit, e, canonize_ranges-IsCanonical s.family s.ranges v.canonical v.fits) refl
]

-- The end of `contains`, on the ranges of the canonical set `s'`.
Answers-search :
    (f : Family) (s s' : ResourceSet) (rs : List Range) {lo hi : ℕ}
    → (f ≡ s.family) ⊎ (rs ≡ [])
    → IsCanonical 0 rs
    → lo ≤ hi
    → s' ≡ record s { canonical = true }
    → Returns
        (if is_empty rs then ok (s', false) else (do
          guard (family_eq f s.family) (class_fault s.family)
          found ← search_ranges rs lo hi
          ok (s', found)))
        (Answers s (HoldsAll rs lo hi))
Answers-search f s s' [] {lo} k c o e = record {
  answer = ((λ h. cc), λ h. h lo (omega arith) o);
  kept = e;
}
Answers-search f s s' (r ∷ rs) {lo} {hi} (inr none) c o e = cc
Answers-search f s s' (r ∷ rs) {lo} {hi} (inl k) c o e =
    rw (k, family_eq_refl s.family)
      (Returns-bind _ _ (search_ranges (r ∷ rs) lo hi) _ (search_ranges_iff (r ∷ rs) lo hi c o)
        (λ found h. record { answer = h; kept = e }))

module _ (f : Family) (s : ResourceSet) (v : IsValid s) (item : Range)
    (o : item.min ≤ item.max) where
  contains_of-Answers :
      (f ≡ s.family) ⊎ (s.ranges ≡ [])
      → Returns (contains_of f s item) (Answers s (HoldsAll s.ranges item.min item.max))
  unfolding contains_of
  contains_of-Answers k =
      simp (v.explicit, canonize-IsValid s v)
        (Answers-search f s (record s { inherit = false; canonical = true }) s.ranges k v.canonical
          o (λ i. record s { inherit = sym v.explicit i; canonical = true }))

  -- A range of another class than the set's.
  contains_of_differ :
      f ≢ s.family → s.ranges ≢ [] → contains_of f s item ≡ err (class_fault s.family)
  unfolding contains_of
  contains_of_differ d n =
      simp (v.explicit, canonize-IsValid s v)
        (elim (Bool-cases (is_empty s.ranges)) [
          | inl e ↦ absurd (n (is_empty→nil s.ranges e))
          | inr e ↦ rw (e, family_eq_differ f s.family d) refl
        ])

module _ (s : ResourceSet) (v : IsValid s) (item : Range) (o : item.min ≤ item.max) where
  -- On a well-formed set `contains` returns, with true exactly if the set holds every number of
  -- the range, and leaves the set as it was but for its canonical flag.
  pub contains-Answers : Returns (contains s item) (Answers s (HoldsAll s.ranges item.min item.max))
  unfolding contains
  contains-Answers = contains_of-Answers s.family s v item o (inl refl)

abbrev pub Within : List Range → ResourceSet → Type 0
Within rs o = (x : ℕ) → covers x rs ≡ true → covers x o.ranges ≡ true

module _ (f : Family) (o : ResourceSet) (v : IsValid o) (i : Range) (rest : List Range) where
  -- The range at hand, then the others.
  contained-more :
      (found : Bool)
      → HoldsAll o.ranges i.min i.max
      → (found ≡ true) ↔ Within rest o
      → (found ≡ true) ↔ Within (i ∷ rest) o
  contained-more found all h = (
    λ e x c. elim (Bool-cases (within x i)) [
      | inl y ↦ all x (ground arith) (ground arith)
      | inr n ↦ h.0 e x (ground arith)
    ],
    λ w. h.1 (λ x c. w x (ground arith)),
  )

  contained-step :
      (r : ResourceSet × Bool)
      → Answers o (HoldsAll o.ranges i.min i.max) r
      → Returns
          (all_contained f rest (record o { canonical = true }))
          (λ u. (u.1 ≡ true) ↔ Within rest o)
      → Returns {A = ResourceSet × Bool}
          (elim r.1 [ true ↦ all_contained f rest r.0 | false ↦ ok (r.0, false) ])
          (λ u. (u.1 ≡ true) ↔ Within (i ∷ rest) o)
  contained-step (o', true) k ih =
      subst (λ q. Returns (all_contained f rest q) (λ u. (u.1 ≡ true) ↔ Within (i ∷ rest) o))
        (sym k.kept)
        (Returns-map _ _ (all_contained f rest (record o { canonical = true })) ih
          (λ u h. contained-more u.1 (k.answer.0 refl) h))
  contained-step (o', false) k ih = (λ e. cc, λ w. k.answer.1 (λ x l u. w x (ground arith)))

all_contained-Answers :
    (f : Family) (rs : List Range) (o : ResourceSet)
    → (f ≡ o.family) ⊎ ((rs ≡ []) ⊎ (o.ranges ≡ []))
    → IsValid o
    → All (λ r. r.min ≤ r.max) rs
    → Returns (all_contained f rs o) (λ u. (u.1 ≡ true) ↔ Within rs o)
unfolding all_contained
all_contained-Answers f [] o k v hs = (λ e x h. cc, λ h. refl)
all_contained-Answers f (i ∷ rest) o k v hs =
    let known : (f ≡ o.family) ⊎ (o.ranges ≡ []) = elim k [
      | inl same ↦ inl same
      | inr (inl none) ↦ absurd cc
      | inr (inr none) ↦ inr none
    ] in
    Returns-bind (Answers o (HoldsAll o.ranges i.min i.max)) _ (contains_of f o i) _
      (contains_of-Answers f o v i hs.0 known)
      (λ r h. contained-step f o v i rest r h (
        all_contained-Answers f rest (record o { canonical = true })
          (elim known [ inl same ↦ inl same | inr none ↦ inr (inr none) ])
          (record { explicit = v.explicit; canonical = v.canonical; fits = v.fits }) hs.1))

all_contained_differ :
    (f : Family) (rs : List Range) (o : ResourceSet)
    → IsValid o
    → All (λ r. r.min ≤ r.max) rs
    → f ≢ o.family
    → rs ≢ []
    → o.ranges ≢ []
    → all_contained f rs o ≡ err (class_fault o.family)
unfolding all_contained
all_contained_differ f [] o v hs d n m = absurd (n refl)
all_contained_differ f (i ∷ rest) o v hs d n m = rw (contains_of_differ f o v i hs.0 d m) refl

IsValid-ordered : (lb : ℕ) (rs : List Range) → IsCanonical lb rs → All (λ r. r.min ≤ r.max) rs
IsValid-ordered lb [] c = tt
IsValid-ordered lb (r ∷ rs) c = (c.1, IsValid-ordered (r.max + 2) rs c.2)

abbrev pub fault_of : Family → Error
fault_of asn = assertion_error
fault_of ipv4 = type_error
fault_of ipv6 = type_error

class_fault_lem : (g : Family) → class_fault g ≡ fault_of g
unfolding class_fault
class_fault_lem asn = refl
class_fault_lem ipv4 = refl
class_fault_lem ipv6 = refl

module _ (s o : ResourceSet) (vs : IsValid s) (vo : IsValid o) where
  -- For well-formed sets that are of one class, or of which one is empty, `issubset` returns, with
  -- true exactly if every number of the first set is one of the second. For sets of different classes
  -- that are not empty it raises: AssertionError if the second is a set of AS numbers, TypeError
  -- if it is a set of addresses.
  pub issubset-Within :
      ((s.family ≡ o.family) ⊎ ((s.ranges ≡ []) ⊎ (o.ranges ≡ []))
        → Returns (issubset s o) (λ u. (u.1 ≡ true) ↔ Within s.ranges o))
      × (s.family ≢ o.family
          → s.ranges ≢ []
          → o.ranges ≢ []
          → issubset s o ≡ err (fault_of o.family))
  unfolding issubset
  issubset-Within =
      let ordered = IsValid-ordered 0 s.ranges vs.canonical in
      (
        λ k. all_contained-Answers s.family s.ranges o k vo ordered,
        λ d n m.
            all_contained_differ s.family s.ranges o vo ordered d n m
            ∙ ap err (class_fault_lem o.family),
      )
