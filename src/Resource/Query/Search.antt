-- ===== src/Resource/Query/Search.antt =====
-- The binary search of `contains`, on a list in canonical form.
use rpki_net.Prelude.{
  ℕ, zero, suc, ◌+◌, ◌-◌, ◌/◌, ◌≤◌, ◌<◌, ◌≡◌, ◌↔◌, refl, true, false, List, [], ◌∷◌, arith, some,
  ltb, get_elem?, length, Bool-cases, inl, inr,
}
use rpki_net.Result.{Returns, Returns-bind}
use rpki_net.Resource.Range.{Range, covers}
use rpki_net.Resource.Sorted.{IsCanonical, covers-depth}
use rpki_net.Resource.Unique.{depth-below_canonical}
use rpki_net.Resource.Query.{bisect, encloses, search_ranges}

-- The upper end of the range at an index.
abbrev max_at : List Range → ℕ → ℕ
max_at [] i = 0
max_at (r ∷ rs) zero = r.max
max_at (r ∷ rs) (suc i) = max_at rs i

range_at :
    (rs : List Range) (i : ℕ)
    → i < length rs
    → (r : Range) × (get_elem? rs i ≡ some r) × (r.max ≡ max_at rs i)
range_at [] i h = absurd (omega arith)
range_at (r ∷ rs) zero h = (r, refl, refl)
range_at (r ∷ rs) (suc i) h = range_at rs i (omega arith)

le-max_at :
    (lb : ℕ) (rs : List Range) (i : ℕ) → IsCanonical lb rs → i < length rs → lb ≤ max_at rs i
le-max_at lb [] i c h = absurd (omega arith)
le-max_at lb (r ∷ rs) zero c h = omega arith
le-max_at lb (r ∷ rs) (suc i) c h = omega (arith, le-max_at (r.max + 2) rs i c.2 (omega arith))

max_at_mono :
    (lb : ℕ) (rs : List Range) (i j : ℕ)
    → IsCanonical lb rs
    → i ≤ j
    → j < length rs
    → max_at rs i ≤ max_at rs j
max_at_mono lb [] i j c h k = absurd (omega arith)
max_at_mono lb (r ∷ rs) zero zero c h k = omega arith
max_at_mono lb (r ∷ rs) zero (suc j) c h k =
    omega (arith, le-max_at (r.max + 2) rs j c.2 (omega arith))
max_at_mono lb (r ∷ rs) (suc i) zero c h k = absurd (omega arith)
max_at_mono lb (r ∷ rs) (suc i) (suc j) c h k =
    max_at_mono (r.max + 2) rs i j c.2 (omega arith) (omega arith)

-- The ranges before `p`, and no others, end below the key.
record Splits (rs : List Range) (key p : ℕ) : Type 0 where
  inside : p ≤ length rs
  below : (i : ℕ) → i < p → max_at rs i < key
  above : (i : ℕ) → p ≤ i → i < length rs → key ≤ max_at rs i

module _ (lb : ℕ) (rs : List Range) (key : ℕ) (c : IsCanonical lb rs) where
  bisect-Splits :
      (fuel lo hi : ℕ)
      → hi - lo < fuel
      → lo ≤ hi
      → hi ≤ length rs
      → ((i : ℕ) → i < lo → max_at rs i < key)
      → ((i : ℕ) → hi ≤ i → i < length rs → key ≤ max_at rs i)
      → Returns (bisect fuel rs key lo hi) (Splits rs key)
  unfolding bisect
  bisect-Splits zero lo hi f o h b a = absurd (omega arith)
  bisect-Splits (suc fuel) lo hi f o h b a = elim (Bool-cases (ltb lo hi)) [
    | inr done ↦
        rw (done, bisect)
          (record { inside = omega arith; below = b; above = λ i p q. a i (ground arith) q })
    | inl more ↦
        let mid : ℕ = (lo + hi) / 2 in
        let inside : mid < hi = ground arith in
        let (r, er, em) = range_at rs mid (omega arith) in
        elim (Bool-cases (ltb r.max key)) [
          | inl short ↦
              rw (more, er, short, bisect)
                (bisect-Splits fuel (mid + 1) hi (ground arith) (ground arith) h
                  (λ i p. ground (arith, max_at_mono lb rs i mid c)) a)
          | inr long ↦
              rw (more, er, long, bisect)
                (bisect-Splits fuel lo mid (ground arith) (ground arith) (omega arith) b
                  (λ i p q. ground (arith, max_at_mono lb rs mid i c)))
        ]
  ]

abbrev pub HoldsAll : List Range → ℕ → ℕ → Type 0
HoldsAll rs lo hi = (x : ℕ) → lo ≤ x → x ≤ hi → covers x rs ≡ true

pub not_covered : (x lb : ℕ) (rs : List Range) → IsCanonical lb rs → x < lb → covers x rs ≡ false
not_covered x lb rs c h = ground (arith, covers-depth x rs, depth-below_canonical x lb rs c h)

tail-Splits :
    (r : Range) (rs : List Range) (key p : ℕ) → Splits (r ∷ rs) key (suc p) → Splits rs key p
tail-Splits r rs key p s = record {
  inside = omega (arith, s.inside);
  below = λ i h. s.below (suc i) (omega arith);
  above = λ i h k. s.above (suc i) (omega arith) (omega arith);
}

encloses_iff :
    (lb : ℕ) (rs : List Range) (p lo hi : ℕ)
    → IsCanonical lb rs
    → lo ≤ hi
    → Splits rs hi p
    → (encloses lo hi (get_elem? rs p) ≡ true) ↔ HoldsAll rs lo hi
encloses_iff lb [] p lo hi c o s = (λ e. cc, λ h. h lo (omega arith) o)
encloses_iff lb (r ∷ rs) zero lo hi c o s = (
  λ e x l u. ground arith,
  λ h. ground (arith, h lo, s.above 0, not_covered lo (r.max + 2) rs c.2),
)
encloses_iff lb (r ∷ rs) (suc p) lo hi c o s =
    let (to, from) = encloses_iff (r.max + 2) rs p lo hi c.2 o (tail-Splits r rs hi p s) in
    (
      λ e x l u. ground (arith, to e x l u),
      λ h.
          let past : r.max < lo =
            ground (arith, h (r.max + 1), s.below 0, not_covered (r.max + 1) (r.max + 2) rs c.2) in
          from (λ x l u. ground (arith, h x l u)),
    )

pub search_ranges_iff :
    (rs : List Range) (lo hi : ℕ)
    → IsCanonical 0 rs
    → lo ≤ hi
    → Returns (search_ranges rs lo hi) (λ found. (found ≡ true) ↔ HoldsAll rs lo hi)
unfolding search_ranges
search_ranges_iff rs lo hi c o =
    Returns-bind (Splits rs hi) _ (bisect (suc (length rs)) rs hi 0 (length rs)) _
      (bisect-Splits 0 rs hi c (suc (length rs)) 0 (length rs) (omega arith) (omega arith)
        (omega arith) (λ i p. absurd (omega arith)) (λ i p q. absurd (omega arith)))
      (λ p s. encloses_iff 0 rs p lo hi c o s)
