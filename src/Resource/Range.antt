-- ===== src/Resource/Range.antt =====
-- `resource_range` and its subclasses, and the arithmetic of the numbers that they hold.
use rpki_net.Prelude.{
  ℕ, ◌+◌, ◌^◌, ◌≤◌, ◌<◌, ◌≡◌, Bool, false, ◌&&◌, ◌||◌, List, [], ◌∷◌, arith, ltb, leb, refl, ◌⊎◌,
  inl, ◌==◌, if◌then◌else◌,
}
use rpki_net.Result.{Result, ok, err, assertion_error, overflow_error, guard, ◌>>◌}

-- The subclass: `resource_range_as` holds longs, the other two hold `rpki.POW.IPAddress`.
pub data Family : Type 0 where
  asn ipv4 ipv6 : Family

-- The number of bits of an address.
abbrev pub bits : Family → ℕ
bits asn = 0
bits ipv4 = 32
bits ipv6 = 128

-- A result `n` of arithmetic, as a value of the datum type: a long is unbounded, an address
-- must fit its bytes (`_PyLong_AsByteArray`).
unfoldable pub datum : Family → ℕ → Result ℕ
datum asn n = ok n
datum ipv4 n = if ltb n (2 ^ 32) then ok n else err overflow_error
datum ipv6 n = if ltb n (2 ^ 128) then ok n else err overflow_error

-- `n` is a value of the datum type.
abbrev pub Fits : Family → ℕ → Type 0
Fits asn n = Unit
Fits ipv4 n = n < 2 ^ 32
Fits ipv6 n = n < 2 ^ 128

pub record Range : Type 0 where
  pub min : ℕ
  pub max : ℕ

-- `resource_range.__init__`
unfoldable pub make_range : ℕ → ℕ → Result Range
make_range lo hi = do guard (leb lo hi) assertion_error; ok (record { min = lo; max = hi })

-- `resource_range.__cmp__`, as the test `a <= b`
unfoldable pub range_le : Range → Range → Bool
range_le a b = ltb a.min b.min || (a.min == b.min && leb a.max b.max)

-- The number `x` lies in the range.
abbrev pub within : ℕ → Range → Bool
within x r = leb r.min x && leb x r.max

-- The number `x` lies in one of the ranges.
abbrev pub covers : ℕ → List Range → Bool
covers x [] = false
covers x (r ∷ rs) = within x r || covers x rs

-- The number of ranges that hold `x`.
abbrev pub depth : ℕ → List Range → ℕ
depth x [] = 0
depth x (r ∷ rs) = if within x r then 1 + depth x rs else depth x rs

-- A range that the constructor accepts, of values of the datum type.
abbrev pub IsRange : Family → Range → Type 0
IsRange f r = (r.min ≤ r.max) × Fits f r.max

pub datum-Fits : (f : Family) (n : ℕ) → Fits f n → datum f n ≡ ok n
unfolding datum
datum-Fits asn n h = ground arith
datum-Fits ipv4 n h = ground arith
datum-Fits ipv6 n h = ground arith

pub Fits-le : (f : Family) (m n : ℕ) → m ≤ n → Fits f n → Fits f m
Fits-le asn m n h k = tt
Fits-le ipv4 m n h k = omega arith
Fits-le ipv6 m n h k = omega arith

pub make_range-ok : (lo hi : ℕ) → lo ≤ hi → make_range lo hi ≡ ok (record { min = lo; max = hi })
unfolding make_range
make_range-ok lo hi h = ground arith

-- Arithmetic gives the number itself or overflows.
pub datum-cases : (f : Family) (n : ℕ) → (datum f n ≡ ok n) ⊎ (datum f n ≡ err overflow_error)
unfolding datum
datum-cases asn n = inl refl
datum-cases ipv4 n = ground arith
datum-cases ipv6 n = ground arith

pub datum-overflow : (f : Family) (n : ℕ) → ¬ Fits f n → datum f n ≡ err overflow_error
unfolding datum
datum-overflow asn n h = absurd (h tt)
datum-overflow ipv4 n h = ground arith
datum-overflow ipv6 n h = ground arith

pub datum_sound : (f : Family) (n m : ℕ) → datum f n ≡ ok m → m ≡ n
datum_sound f n m e = ground (arith, datum-cases f n)

pub make_range_sound :
    (lo hi : ℕ) (r : Range) → make_range lo hi ≡ ok r → (r.min ≡ lo) × (r.max ≡ hi) × (lo ≤ hi)
unfolding make_range
make_range_sound lo hi r e = ground arith
