-- ===== src/Rtr/Compare.antt =====
-- `PDU.__cmp__`: PDUs are compared by their wire format, byte by byte.
use rpki_net.Prelude.{ℕ, ◌<◌, ◌≡◌, List, [], ◌∷◌, arith, ltb, refl, ◌⊎◌, inl, inr, if◌then◌else◌}

-- `cmp(a, b)` of strings of bytes.
pub data Order : Type 0 where
  less same more : Order

unfoldable pub compare_bytes : List ℕ → List ℕ → Order
compare_bytes [] [] = same
compare_bytes [] (b ∷ bs) = less
compare_bytes (a ∷ s) [] = more
compare_bytes (a ∷ s) (b ∷ t) =
    let rest = compare_bytes s t in if ltb a b then less else if ltb b a then more else rest

-- The order of the wire formats.
abbrev pub Before : List ℕ → List ℕ → Type 0
Before [] [] = ⊥
Before [] (b ∷ bs) = Unit {0}
Before (a ∷ s) [] = ⊥
Before (a ∷ s) (b ∷ t) = (a < b) ⊎ ((a ≡ b) × Before s t)

pub Before-trans : (a b c : List ℕ) → Before a b → Before b c → Before a c
Before-trans [] [] c h k = elim h [ ]
Before-trans [] (y ∷ b) [] h k = elim k [ ]
Before-trans (x ∷ a) [] c h k = elim h [ ]
Before-trans (x ∷ a) (y ∷ b) [] h k = elim k [ ]
Before-trans [] (y ∷ b) (z ∷ c) h k = tt
Before-trans (x ∷ a) (y ∷ b) (z ∷ c) (inl h) (inl k) = inl (omega arith)
Before-trans (x ∷ a) (y ∷ b) (z ∷ c) (inl h) (inr k) = inl (omega (arith, k.0))
Before-trans (x ∷ a) (y ∷ b) (z ∷ c) (inr h) (inl k) = inl (omega (arith, h.0))
Before-trans (x ∷ a) (y ∷ b) (z ∷ c) (inr h) (inr k) =
    inr (omega (arith, h.0, k.0), Before-trans a b c h.1 k.1)

pub Before-irrefl : (a : List ℕ) → ¬ Before a a
Before-irrefl [] h = elim h [ ]
Before-irrefl (x ∷ a) (inl h) = omega arith
Before-irrefl (x ∷ a) (inr h) = Before-irrefl a h.1

pub compare_bytes-less : (a b : List ℕ) → compare_bytes a b ≡ less → Before a b
unfolding compare_bytes
compare_bytes-less [] [] e = cc
compare_bytes-less [] (b ∷ bs) e = tt
compare_bytes-less (a ∷ s) [] e = cc
compare_bytes-less (a ∷ s) (b ∷ t) e = ground (arith, compare_bytes-less s t)

pub compare_bytes-more : (a b : List ℕ) → compare_bytes a b ≡ more → Before b a
unfolding compare_bytes
compare_bytes-more [] [] e = cc
compare_bytes-more [] (b ∷ bs) e = cc
compare_bytes-more (a ∷ s) [] e = tt
compare_bytes-more (a ∷ s) (b ∷ t) e = ground (arith, compare_bytes-more s t)

pub compare_bytes-same : (a b : List ℕ) → compare_bytes a b ≡ same → a ≡ b
unfolding compare_bytes
compare_bytes-same [] [] e = refl
compare_bytes-same [] (b ∷ bs) e = cc
compare_bytes-same (a ∷ s) [] e = cc
compare_bytes-same (a ∷ s) (b ∷ t) e = ground (arith, compare_bytes-same s t)

pub Order-cases : (o : Order) → (o ≡ less) ⊎ ((o ≡ same) ⊎ (o ≡ more))
Order-cases less = inl refl
Order-cases same = inr (inl refl)
Order-cases more = inr (inr refl)
