-- ===== src/Resource/Sorted.antt =====
-- Lists of ranges in ascending order, with and without gaps between neighbours, and how often
-- such a list holds a number.
use rpki_net.Prelude.{ℕ, ◌+◌, ◌≤◌, ◌<◌, ◌≡◌, refl, List, [], ◌∷◌, arith, ltb}
use rpki_net.Resource.Range.{Range, covers, depth}

-- Ascending by lower end, from `lb` on; overlaps are allowed.
abbrev pub IsAscending : ℕ → List Range → Type 0
IsAscending lb [] = Unit
IsAscending lb (r ∷ rs) = (lb ≤ r.min) × (r.min ≤ r.max) × IsAscending r.min rs

-- Ascending from `lb` on, and no two ranges overlap.
abbrev pub IsDisjoint : ℕ → List Range → Type 0
IsDisjoint lb [] = Unit
IsDisjoint lb (r ∷ rs) = (lb ≤ r.min) × (r.min ≤ r.max) × IsDisjoint (r.max + 1) rs

-- Ascending from `lb` on, and no two ranges overlap or touch: the canonical form.
abbrev pub IsCanonical : ℕ → List Range → Type 0
IsCanonical lb [] = Unit
IsCanonical lb (r ∷ rs) = (lb ≤ r.min) × (r.min ≤ r.max) × IsCanonical (r.max + 2) rs

pub IsAscending-le :
    (lb lb' : ℕ) (rs : List Range) → lb' ≤ lb → IsAscending lb rs → IsAscending lb' rs
IsAscending-le lb lb' [] h d = tt
IsAscending-le lb lb' (r ∷ rs) h d = (omega arith, d.1, d.2)

pub IsDisjoint-le : (lb lb' : ℕ) (rs : List Range) → lb' ≤ lb → IsDisjoint lb rs → IsDisjoint lb' rs
IsDisjoint-le lb lb' [] h d = tt
IsDisjoint-le lb lb' (r ∷ rs) h d = (omega arith, d.1, d.2)

pub IsCanonical-le :
    (lb lb' : ℕ) (rs : List Range) → lb' ≤ lb → IsCanonical lb rs → IsCanonical lb' rs
IsCanonical-le lb lb' [] h d = tt
IsCanonical-le lb lb' (r ∷ rs) h d = (omega arith, d.1, d.2)

pub IsCanonical→IsDisjoint : (lb : ℕ) (rs : List Range) → IsCanonical lb rs → IsDisjoint lb rs
IsCanonical→IsDisjoint lb [] c = tt
IsCanonical→IsDisjoint lb (r ∷ rs) c = (
  c.0,
  c.1,
  IsDisjoint-le (r.max + 2) (r.max + 1) rs (omega arith)
      (IsCanonical→IsDisjoint (r.max + 2) rs c.2),
)

pub IsDisjoint→IsAscending : (lb : ℕ) (rs : List Range) → IsDisjoint lb rs → IsAscending lb rs
IsDisjoint→IsAscending lb [] c = tt
IsDisjoint→IsAscending lb (r ∷ rs) c = (
  c.0,
  c.1,
  IsAscending-le (r.max + 1) r.min rs (omega arith) (IsDisjoint→IsAscending (r.max + 1) rs c.2),
)

-- Below its bound a list holds nothing.
pub depth-below : (x lb : ℕ) (rs : List Range) → IsAscending lb rs → x < lb → depth x rs ≡ 0
depth-below x lb [] d h = refl
depth-below x lb (r ∷ rs) d h = ground (arith, depth-below x r.min rs d.2)

pub depth-IsDisjoint : (x lb : ℕ) (rs : List Range) → IsDisjoint lb rs → depth x rs ≤ 1
depth-IsDisjoint x lb [] d = omega arith
depth-IsDisjoint x lb (r ∷ rs) d = ground (
  arith,
  depth-IsDisjoint x (r.max + 1) rs d.2,
  depth-below x (r.max + 1) rs (IsDisjoint→IsAscending (r.max + 1) rs d.2),
)

-- Without overlaps an ascending list is disjoint.
pub IsAscending→IsDisjoint :
    (lb : ℕ) (rs : List Range) → IsAscending lb rs → ((x : ℕ) → depth x rs ≤ 1) → IsDisjoint lb rs
IsAscending→IsDisjoint lb [] a h = tt
IsAscending→IsDisjoint lb (r ∷ []) a h = (a.0, a.1, tt)
IsAscending→IsDisjoint lb (r ∷ s ∷ rs) a h =
    let rest : IsDisjoint r.min (s ∷ rs) =
      IsAscending→IsDisjoint r.min (s ∷ rs) a.2 (λ x. ground (arith, h x)) in
    (a.0, a.1, (ground (arith, h s.min), rest.1, rest.2))

-- A list holds a number exactly if it holds it at least once.
pub covers-depth : (x : ℕ) (rs : List Range) → covers x rs ≡ ltb 0 (depth x rs)
covers-depth x [] = refl
covers-depth x (r ∷ rs) = ground (arith, covers-depth x rs)
