-- ===== src/Resource/Examples.antt =====
-- The theorems on sets at concrete inputs, and runs of the operations.
use rpki_net.Prelude.{
  ℕ, ◌≤◌, ◌≡◌, ◌≢◌, ◌↔◌, refl, true, false, ◌&&◌, ◌||◌, not, [], ◌∷◌, arith, ◌⊎◌, length,
}
use rpki_net.Result.{ok, err, assertion_error, type_error, overflow_error, Returns}
use rpki_net.Resource.Range.{asn, ipv4, Range, depth, covers, datum, make_range, range_le}
use rpki_net.Resource.Set.{
  ResourceSet, make_set, canonize, canonize_ranges, sort, insert_range, join_all, join_loop,
  join_ranges, check_overlap,
}
use rpki_net.Resource.Set.Construct.{set_of, IsSetOf, make_set-exact, make_set-merges}
use rpki_net.Resource.Set.Top.{make_set-top}
use mathlib.Core.List.Memᴰ.{head, tail}
use rpki_net.Resource.Set.Valid.{IsValid, IsSetWith}
use rpki_net.Resource.Comm.{comm, comm_loop, choose, rsplit}
use rpki_net.Resource.Comm.Laws.{IsComm, comm-IsComm}
use rpki_net.Resource.Union.{union, union_loop, swallow, symmetric_difference}
use rpki_net.Resource.Union.Laws.{union-IsSetWith, symmetric_difference-IsSetWith}
use rpki_net.Resource.Union.Straddle.{union-straddle}
use rpki_net.Resource.Query.{
  contains, contains_of, issubset, all_contained, family_eq, class_fault, set_eq, set_ne, ranges_ne,
  some_differ, range_eq,
}
use rpki_net.Resource.Query.Laws.{Answers, Within, fault_of, contains-Answers, issubset-Within}
use rpki_net.Resource.Query.Equal.{set_eq_iff}

abbrev range : ℕ → ℕ → Range
range lo hi = record { min = lo; max = hi }

-- 1-3, 10-20 and 2, 15-30
abbrev xs : ResourceSet
xs = set_of asn (range 1 3 ∷ range 10 20 ∷ [])

abbrev ys : ResourceSet
ys = set_of asn (range 2 2 ∷ range 15 30 ∷ [])

xs-IsValid : IsValid xs
xs-IsValid = record { explicit = refl; canonical = omega arith; fits = omega arith }

ys-IsValid : IsValid ys
ys-IsValid = record { explicit = refl; canonical = omega arith; fits = omega arith }

program : Unit {0}
unfolding datum make_range range_le insert_range sort join_ranges join_loop join_all check_overlap
    canonize_ranges canonize make_set rsplit choose comm_loop comm swallow union_loop union
program = tt

abbrev only_xs : ResourceSet
only_xs = set_of asn (range 1 1 ∷ range 3 3 ∷ range 10 14 ∷ [])

comm_runs :
    comm xs ys
    ≡ ok (record {
      only1 = only_xs;
      only2 = set_of asn (range 21 30 ∷ []);
      both = set_of asn (range 2 2 ∷ range 15 20 ∷ []);
    })
unfolding program
comm_runs = refl

union_runs : union xs ys ≡ ok (set_of asn (range 1 3 ∷ range 10 30 ∷ []))
unfolding program
union_runs = refl

make_set-exact_example :
    (((x : ℕ) → depth x (range 4 6 ∷ range 1 3 ∷ []) ≤ 1)
      → Returns
          (make_set asn (range 4 6 ∷ range 1 3 ∷ []) false)
          (IsSetOf asn (range 4 6 ∷ range 1 3 ∷ [])))
    × ((s : ResourceSet)
        → make_set asn (range 4 6 ∷ range 1 3 ∷ []) false ≡ ok s
        → (x : ℕ) → depth x (range 4 6 ∷ range 1 3 ∷ []) ≤ 1)
make_set-exact_example = make_set-exact asn (range 4 6 ∷ range 1 3 ∷ []) (omega arith)

make_set-merges_example :
    Returns
      (make_set asn (range 4 9 ∷ range 1 5 ∷ []) true)
      (IsSetOf asn (range 4 9 ∷ range 1 5 ∷ []))
make_set-merges_example = make_set-merges asn (range 4 9 ∷ range 1 5 ∷ []) (omega arith)

-- 5-9, 0.0.0.0/0 and 7-8: the range that ends at the highest address is given second.
make_set-top_example :
    make_set ipv4 (range 5 9 ∷ range 0 4294967295 ∷ range 7 8 ∷ []) true ≡ err overflow_error
make_set-top_example =
    make_set-top ipv4 (range 5 9 ∷ range 0 4294967295 ∷ range 7 8 ∷ []) true (range 0 4294967295)
      (range 7 8) (omega arith) (tail (head refl)) (tail (tail (head refl))) (omega arith)
      (λ h. absurd (omega arith))

comm-IsComm_example : Returns (comm xs ys) (IsComm xs ys)
comm-IsComm_example = comm-IsComm xs ys refl xs-IsValid ys-IsValid

union-IsSetWith_example :
    Returns (union xs ys) (IsSetWith asn (λ x. covers x xs.ranges || covers x ys.ranges))
union-IsSetWith_example =
    union-IsSetWith xs ys refl xs-IsValid ys-IsValid (omega arith) (omega arith)

symmetric_difference-IsSetWith_example : Returns (symmetric_difference xs ys) (
    IsSetWith asn (λ x.
      (covers x xs.ranges && not (covers x ys.ranges))
      || (covers x ys.ranges && not (covers x xs.ranges))))
symmetric_difference-IsSetWith_example =
    symmetric_difference-IsSetWith xs ys refl xs-IsValid ys-IsValid

union-straddle_example :
    union (set_of asn (range 3 10 ∷ [])) (set_of asn (range 1 5 ∷ range 8 20 ∷ []))
    ≢ ok (set_of asn (range 1 20 ∷ []))
union-straddle_example =
    union-straddle asn (range 3 10) (range 1 5) (range 8 20) []
      (record { explicit = refl; canonical = omega arith; fits = omega arith })
      (record { explicit = refl; canonical = omega arith; fits = omega arith }) (omega arith)
      (omega arith) (omega arith) (set_of asn (range 1 20 ∷ []))

contains-Answers_example :
    Returns
      (contains xs (range 12 15))
      (Answers xs ((x : ℕ) → 12 ≤ x → x ≤ 15 → covers x xs.ranges ≡ true))
contains-Answers_example = contains-Answers xs xs-IsValid (range 12 15) (omega arith)

issubset-Within_example :
    ((xs.family ≡ ys.family) ⊎ ((xs.ranges ≡ []) ⊎ (ys.ranges ≡ []))
      → Returns (issubset xs ys) (λ u. (u.1 ≡ true) ↔ Within xs.ranges ys))
    × (xs.family ≢ ys.family
        → xs.ranges ≢ []
        → ys.ranges ≢ []
        → issubset xs ys ≡ err (fault_of ys.family))
issubset-Within_example = issubset-Within xs ys xs-IsValid ys-IsValid

set_eq_iff_example :
    ((xs.family ≡ ys.family) ⊎ ((xs.ranges ≡ []) ⊎ (length xs.ranges ≢ length ys.ranges))
      → Returns
          (set_eq xs ys)
          (λ e. (e ≡ true) ↔ ((x : ℕ) → covers x xs.ranges ≡ covers x ys.ranges)))
    × (xs.family ≢ ys.family
        → xs.ranges ≢ []
        → length xs.ranges ≡ length ys.ranges
        → set_eq xs ys ≡ err assertion_error)
set_eq_iff_example = set_eq_iff xs ys xs-IsValid ys-IsValid

-- Sets of different classes with the same numbers.
abbrev addresses : ResourceSet
addresses = set_of ipv4 (range 1 3 ∷ range 10 20 ∷ [])

classes_run :
    (issubset xs addresses ≡ err type_error)
    × (issubset addresses xs ≡ err assertion_error)
    × (set_eq xs addresses ≡ err assertion_error)
unfolding issubset all_contained contains_of canonize family_eq class_fault set_eq set_ne ranges_ne
    some_differ range_eq
classes_run = (refl, refl, refl)
