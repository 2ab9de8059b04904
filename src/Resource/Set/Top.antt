-- ===== src/Resource/Set/Top.antt =====
-- The constructor of a set and ranges that end at the highest address: `canonize` adds one to the end
-- of every range but the last.
use mathlib.Core.List.{Memᴰ}
use mathlib.Core.List.Memᴰ.{head, tail, not-nil}
use rpki_net.Prelude.{
  ℕ, ◌+◌, ◌≤◌, ◌<◌, ◌≡◌, ◌⊎◌, refl, ap, Option, List, [], ◌∷◌, arith, All, leb, ◌==◌, inl, inr, max,
  Bool-cases, Bool, some, none, ◌&&◌,
}
use rpki_net.Result.{Result, ok, err, overflow_error, ◌>>=◌}
use rpki_net.Resource.Range.{
  Family, Range, IsRange, Fits, Fits-le, datum-cases, datum-overflow, make_range-ok, range_le,
}
use rpki_net.Resource.Sorted.{IsAscending, IsAscending-le}
use rpki_net.Resource.Set.{
  sort, insert_range, join_ranges, join_loop, join_all, canonize_ranges, canonize, make_set,
}
use rpki_net.Resource.Set.Sort.{sort-IsAscending}
use rpki_net.Resource.Set.Canonize.{All-min-le-max}

Memᴰ-insert_range : (a r : Range) (rs : List Range) → Memᴰ a (r ∷ rs) → Memᴰ a (insert_range r rs)
unfolding insert_range
Memᴰ-insert_range a r [] m = m
Memᴰ-insert_range a r (s ∷ rs) m = elim (Bool-cases (range_le r s)) [
  | inl e ↦ rw e m
  | inr e ↦ rw e (elim m [
    | head x ↦ tail (Memᴰ-insert_range a r rs (head x))
    | tail (head x) ↦ head x
    | tail (tail k) ↦ tail (Memᴰ-insert_range a r rs (tail k))
  ])
]

Memᴰ-sort : (a : Range) (rs : List Range) → Memᴰ a rs → Memᴰ a (sort rs)
unfolding sort
Memᴰ-sort a [] n = absurd (not-nil n)
Memᴰ-sort a (r ∷ rs) (head x) = Memᴰ-insert_range a r (sort rs) (head x)
Memᴰ-sort a (r ∷ rs) (tail k) = Memᴰ-insert_range a r (sort rs) (tail (Memᴰ-sort a rs k))

-- A range before the last one ends at the highest address.
abbrev TopEarly : Family → List Range → Type 0
TopEarly f [] = ⊥
TopEarly f (r ∷ []) = ⊥
TopEarly f (r ∷ q ∷ rs) = (¬ Fits f (r.max + 1)) ⊎ TopEarly f (q ∷ rs)

TopEarly-le :
    (f : Family) (r q : Range) (rs : List Range)
    → r.max ≤ q.max
    → TopEarly f (r ∷ rs)
    → TopEarly f (q ∷ rs)
TopEarly-le f r q [] h t = t
TopEarly-le f r q (s ∷ rs) h (inl top) =
    inl (λ k. top (Fits-le f (r.max + 1) (q.max + 1) (omega arith) k))
TopEarly-le f r q (s ∷ rs) h (inr t) = inr t

Memᴰ-min : (a : Range) (lb : ℕ) (rs : List Range) → IsAscending lb rs → Memᴰ a rs → lb ≤ a.min
Memᴰ-min a lb [] o n = absurd (not-nil n)
Memᴰ-min a lb (r ∷ rs) o (head x) = rw x o.0
Memᴰ-min a lb (r ∷ rs) o (tail k) = let h = Memᴰ-min a r.min rs o.2 k in omega (arith, o.0, h)

-- In ascending order, a range that begins below another one is not the last.
TopEarly-Memᴰ :
    (f : Family) (lb : ℕ) (rs : List Range) (a b : Range)
    → IsAscending lb rs
    → Memᴰ a rs
    → Memᴰ b rs
    → a.min < b.min
    → ¬ Fits f (a.max + 1)
    → TopEarly f rs
TopEarly-Memᴰ f lb [] a b o n m l h = absurd (not-nil n)
TopEarly-Memᴰ f lb (r ∷ rs) a b o (head x) (head y) l h =
    absurd (omega (arith, ap {B = ℕ} (λ q. q.min) x, ap {B = ℕ} (λ q. q.min) y, l))
TopEarly-Memᴰ f lb (r ∷ []) a b o (head x) (tail n) l h = absurd (not-nil n)
TopEarly-Memᴰ f lb (r ∷ q ∷ rs) a b o (head x) (tail n) l h =
    inl (λ k. h (rw (ap {B = ℕ} (λ q. q.max) x) k))
TopEarly-Memᴰ f lb (r ∷ rs) a b o (tail m) (head y) l h =
    let k = Memᴰ-min a r.min rs o.2 m in absurd (omega (arith, k, l, ap {B = ℕ} (λ q. q.min) y))
TopEarly-Memᴰ f lb (r ∷ []) a b o (tail n) (tail m) l h = absurd (not-nil n)
TopEarly-Memᴰ f lb (r ∷ q ∷ rs) a b o (tail m) (tail n) l h =
    inr (TopEarly-Memᴰ f r.min (q ∷ rs) a b o.2 m n l h)

module _ (f : Family) where
  join_ranges-top :
      (allow_overlap : Bool) (cur next : Range)
      → ¬ Fits f (cur.max + 1)
      → join_ranges f allow_overlap cur next ≡ err overflow_error
  unfolding join_ranges
  join_ranges-top allow_overlap cur next h = rw (datum-overflow f (cur.max + 1) h)

  -- One round of the loop, whatever it joins: the loop goes on with a range that ends at the highest
  -- address if `next` does.
  abbrev Goes : Range → Range → Result (Option Range) → Type 0
  Goes cur next (ok none) = Unit
  Goes cur next (ok (some r)) = (r.min ≡ cur.min) × (r.min ≤ r.max) × (next.max ≤ r.max)
  Goes cur next (err raised) = raised ≡ overflow_error

  join_ranges-Goes :
      (allow_overlap : Bool) (cur next : Range)
      → cur.min ≤ cur.max
      → cur.min ≤ next.min
      → next.min ≤ next.max
      → Goes cur next (join_ranges f allow_overlap cur next)
  unfolding join_ranges
  join_ranges-Goes allow_overlap cur next h l k = elim (datum-cases f (cur.max + 1)) [
    | inr e ↦ rw e refl
    | inl e ↦ rw e (elim (Bool-cases (allow_overlap && leb next.min (cur.max + 1))) [
      | inl b ↦
          rw (b, make_range-ok cur.min (max cur.max next.max) (omega arith))
            (refl, omega arith, omega arith)
      | inr b ↦ elim (Bool-cases (cur.max + 1 == next.min)) [
        | inl c ↦
            rw (b, c, make_range-ok cur.min next.max (omega arith)) (refl, omega arith, omega arith)
        | inr c ↦ rw (b, c) tt
      ]
    ])
  ]

  after-Goes :
      (allow_overlap : Bool) (cur next : Range) (rest : List Range) (m : Result (Option Range))
      → join_loop f allow_overlap next rest ≡ err overflow_error
      → ((r : Range)
          → r.min ≡ cur.min
          → r.min ≤ r.max
          → next.max ≤ r.max
          → join_loop f allow_overlap r rest ≡ err overflow_error)
      → Goes cur next m
      → (m >>= λ joined. elim joined [
        | some r ↦ join_loop f allow_overlap r rest
        | none ↦ do done ← join_loop f allow_overlap next rest; ok (cur ∷ done)
      ])
        ≡ err overflow_error
  after-Goes allow_overlap cur next rest (err raised) ih ih' g = ap err g
  after-Goes allow_overlap cur next rest (ok none) ih ih' g = rw ih refl
  after-Goes allow_overlap cur next rest (ok (some r)) ih ih' g = ih' r g.0 g.1 g.2

  join_loop-top :
      (allow_overlap : Bool) (cur : Range) (rest : List Range)
      → cur.min ≤ cur.max
      → IsAscending cur.min rest
      → TopEarly f (cur ∷ rest)
      → join_loop f allow_overlap cur rest ≡ err overflow_error
  unfolding join_loop
  join_loop-top allow_overlap cur [] h a t = absurd t
  join_loop-top allow_overlap cur (next ∷ rest) h a (inl top) =
      rw (join_ranges-top allow_overlap cur next top)
  join_loop-top allow_overlap cur (next ∷ rest) h a (inr t) =
      after-Goes allow_overlap cur next rest (join_ranges f allow_overlap cur next)
        (join_loop-top allow_overlap next rest a.1 a.2 t)
        (λ r e o m.
          join_loop-top allow_overlap r rest o
            (IsAscending-le next.min r.min rest (omega (arith, e, a.0)) a.2)
            (TopEarly-le f next r rest m t))
        (join_ranges-Goes allow_overlap cur next h a.0 a.1)

join_all-top :
    (f : Family) (allow_overlap : Bool) (rs : List Range)
    → IsAscending 0 rs
    → TopEarly f rs
    → join_all f allow_overlap rs ≡ err overflow_error
unfolding join_all
join_all-top f allow_overlap [] o t = absurd t
join_all-top f allow_overlap (r ∷ rs) o t = join_loop-top f allow_overlap r rs o.1 o.2 t

-- Where, in a list of ranges that the class can hold, a range that begins below another one ends at
-- the highest address, the constructor raises OverflowError, with or without `allow_overlap`,
-- wherever the two stand in the list and whatever else is in it.
pub make_set-top :
    (f : Family) (rs : List Range) (allow_overlap : Bool) (a b : Range)
    → All (IsRange f) rs
    → Memᴰ a rs
    → Memᴰ b rs
    → a.min < b.min
    → ¬ Fits f (a.max + 1)
    → make_set f rs allow_overlap ≡ err overflow_error
unfolding make_set canonize canonize_ranges
make_set-top f rs allow_overlap a b hs ha hb l h =
    let ordered = sort-IsAscending rs (All-min-le-max f rs hs) in
    let early =
      TopEarly-Memᴰ f 0 (sort rs) a b ordered (Memᴰ-sort a rs ha) (Memᴰ-sort b rs hb) l h in
    rw (join_all-top f allow_overlap (sort rs) ordered early)
