-- ===== src/Rtr/Client/Tables.antt =====
-- The table of prefixes as a set of rows, and what the differences between two sets of PDUs make of
-- it.
use rpki_net.Prelude.{
  ℕ, ◌≡◌, ◌↔◌, refl, Bool, true, false, ◌&&◌, ◌||◌, not, List, [], ◌∷◌, All, arith, ◌==◌,
  Bool-cases, inl, inr, sym, ap, ◌∙◌, subst, if◌then◌else◌, All-map,
}
use rpki_net.Result.{Result, ok, Returns, Returns-map, integrity_error, guard, ◌>>=◌, ◌>>◌}
use rpki_net.Rtr.Compare.{
  compare_bytes, Order-cases, Before, Before-irrefl, Before-trans, compare_bytes-more,
  compare_bytes-same,
}
use rpki_net.Rtr.Generator.{Entry, changes}
use rpki_net.Rtr.Generator.Sorted.{Follows, IsStrict}
use rpki_net.Rtr.Client.{PrefixRow, prefix_row_eq, has_prefix, delete_prefix}

pub prefix_row_eq_iff : (a b : PrefixRow) → (prefix_row_eq a b ≡ true) ↔ (a ≡ b)
unfolding prefix_row_eq
prefix_row_eq_iff a b = ground arith

pub has_prefix-delete_prefix :
    (x row : PrefixRow) (rs : List PrefixRow)
    → has_prefix x (delete_prefix row rs) ≡ (has_prefix x rs && not (prefix_row_eq row x))
unfolding has_prefix delete_prefix
has_prefix-delete_prefix x row [] = refl
has_prefix-delete_prefix x row (r ∷ rs) = ground (
  arith,
  has_prefix-delete_prefix x row rs,
  prefix_row_eq_iff row x,
  prefix_row_eq_iff row r,
  prefix_row_eq_iff x r,
)

-- One change: INSERT, or DELETE.
abbrev pub apply_row : ℕ → PrefixRow → List PrefixRow → Result (List PrefixRow)
apply_row announce row rs =
    if not (announce == 0)
    then (do guard (not (has_prefix row rs)) integrity_error; ok (row ∷ rs))
    else ok (delete_prefix row rs)

module _ (row : Entry → PrefixRow) where
  unfoldable pub apply_rows : List (ℕ × Entry) → List PrefixRow → Result (List PrefixRow)
  apply_rows [] rs = ok rs
  apply_rows ((announce, e) ∷ es) rs = do rs' ← apply_row announce (row e) rs; apply_rows es rs'

  -- The rows of the entries.
  abbrev pub in_rows : PrefixRow → List Entry → Bool
  in_rows x [] = false
  in_rows x (e ∷ es) = prefix_row_eq (row e) x || in_rows x es

  -- The table holds the rows of `done` and those of the entries.
  abbrev pub Holds : List PrefixRow → (PrefixRow → Bool) → List Entry → Type 0
  Holds rs done es = (x : PrefixRow) → has_prefix x rs ≡ (done x || in_rows x es)

  abbrev Misses : (PrefixRow → Bool) → List Entry → Type 0
  Misses done es = All (λ e. done (row e) ≡ false) es

  abbrev with_row : Entry → (PrefixRow → Bool) → PrefixRow → Bool
  with_row e done x = prefix_row_eq (row e) x || done x

  module _ (P : Entry → Type 0)
      (agree : (a b : Entry) → P a → P b → (a.bytes ≡ b.bytes) ↔ (row a ≡ row b)) where
    Follows-row : (a b : Entry) → P a → P b → Follows a b → prefix_row_eq (row a) (row b) ≡ false
    Follows-row a b p q f = elim (Bool-cases (prefix_row_eq (row a) (row b))) [
      | inl e ↦
          let same : a.bytes ≡ b.bytes =
            (agree a b p q).1 ((prefix_row_eq_iff (row a) (row b)).0 e) in
          absurd (Before-irrefl b.bytes (subst (λ t. Before t b.bytes) same f))
      | inr e ↦ e
    ]

    not_in_rows :
        (a : Entry) (es : List Entry)
        → P a
        → All P es
        → All (Follows a) es
        → in_rows (row a) es ≡ false
    not_in_rows a [] p ps f = refl
    not_in_rows a (e ∷ es) p ps f = ground (
      arith,
      Follows-row a e p ps.0 f.0,
      not_in_rows a es p ps.1 f.1,
      prefix_row_eq_iff (row a) (row e),
      prefix_row_eq_iff (row e) (row a),
    )

    Misses-with_row :
        (a : Entry) (done : PrefixRow → Bool) (es : List Entry)
        → P a
        → All P es
        → All (Follows a) es
        → Misses done es
        → Misses (with_row a done) es
    Misses-with_row a done [] p ps f m = tt
    Misses-with_row a done (e ∷ es) p ps f m =
        (ground (arith, Follows-row a e p ps.0 f.0, m.0), Misses-with_row a done es p ps.1 f.1 m.1)

    -- A row is withdrawn.
    Holds-delete :
        (o : Entry) (old : List Entry) (done : PrefixRow → Bool) (rs : List PrefixRow)
        → P o
        → All P old
        → All (Follows o) old
        → done (row o) ≡ false
        → Holds rs done (o ∷ old)
        → Holds (delete_prefix (row o) rs) done old
    Holds-delete o old done rs p ps f m h x =
        has_prefix-delete_prefix x (row o) rs ∙ elim (Bool-cases (prefix_row_eq (row o) x)) [
          | inl e ↦
              let same : row o ≡ x = (prefix_row_eq_iff (row o) x).0 e in
              let missing : in_rows x old ≡ false =
                subst (λ t. in_rows t old ≡ false) same (not_in_rows o old p ps f) in
              let undone : done x ≡ false = subst (λ t. done t ≡ false) same m in
              ground (arith, missing, undone, e)
          | inr e ↦ ground (arith, h x, e)
        ]

    -- A row is announced.
    Holds-insert :
        (n : Entry) (es : List Entry) (done : PrefixRow → Bool) (rs : List PrefixRow)
        → Holds rs done es
        → Holds (row n ∷ rs) (with_row n done) es
    unfolding has_prefix
    Holds-insert n es done rs h x =
        ground (arith, h x, prefix_row_eq_iff (row n) x, prefix_row_eq_iff x (row n))

    apply_row-insert :
        (n : Entry) (es : List Entry) (done : PrefixRow → Bool) (rs : List PrefixRow)
        → P n
        → All P es
        → All (Follows n) es
        → done (row n) ≡ false
        → Holds rs done es
        → apply_row 1 (row n) rs ≡ ok (row n ∷ rs)
    apply_row-insert n es done rs p ps f m h =
        let missing : has_prefix (row n) rs ≡ false =
          ground (arith, h (row n), m, not_in_rows n es p ps f) in
        rw missing refl

    pub apply_rows-changes :
        (old new : List Entry)
        → IsStrict old
        → IsStrict new
        → All P old
        → All P new
        → (done : PrefixRow → Bool) (rs : List PrefixRow) → Misses done old
        → Misses done new
        → Holds rs done old
        → Returns (apply_rows (changes old new) rs) (λ rs'. Holds rs' done new)
    unfolding apply_rows changes
    apply_rows-changes [] [] so sn po pn done rs mo mn h = h
    apply_rows-changes [] (n ∷ new) so sn po pn done rs mo mn h =
        rw (apply_row-insert n [] done rs pn.0 tt tt mn.0 h) (
          Returns-map (λ rs'. Holds rs' (with_row n done) new) (λ rs'. Holds rs' done (n ∷ new))
            (apply_rows (changes [] new) (row n ∷ rs))
            (apply_rows-changes [] new tt sn.1 tt pn.1 (with_row n done) (row n ∷ rs) tt
              (Misses-with_row n done new pn.0 pn.1 sn.0 mn.1) (Holds-insert n [] done rs h))
            (λ rs' k x. ground (arith, k x)))
    apply_rows-changes (o ∷ old) [] so sn po pn done rs mo mn h =
        apply_rows-changes old [] so.1 tt po.1 tt done (delete_prefix (row o) rs) mo.1 tt
          (Holds-delete o old done rs po.0 po.1 so.0 mo.0 h)
    apply_rows-changes (o ∷ old) (n ∷ new) so sn po pn done rs mo mn h =
        elim (Order-cases (compare_bytes o.bytes n.bytes)) [
          | inl c ↦
              rw (c, changes)
                (apply_rows-changes old (n ∷ new) so.1 sn po.1 pn done (delete_prefix (row o) rs)
                  mo.1 mn (Holds-delete o old done rs po.0 po.1 so.0 mo.0 h))
          | inr (inl c) ↦
              let equal : o.bytes ≡ n.bytes = compare_bytes-same o.bytes n.bytes c in
              let rows : row o ≡ row n = (agree o n po.0 pn.0).0 equal in
              let ahead : All (Follows o) new =
                All-map new (λ y k. subst (λ t. Before t y.bytes) (sym equal) k) sn.0 in
              rw (c, changes)
                (Returns-map (λ rs'. Holds rs' (with_row o done) new)
                  (λ rs'. Holds rs' done (n ∷ new)) (apply_rows (changes old new) rs)
                  (apply_rows-changes old new so.1 sn.1 po.1 pn.1 (with_row o done) rs
                    (Misses-with_row o done old po.0 po.1 so.0 mo.1)
                    (Misses-with_row o done new po.0 pn.1 ahead mn.1) (λ x. ground (arith, h x)))
                  (λ rs' k x. ground (arith, k x, ap (λ t. prefix_row_eq t x) rows)))
          | inr (inr c) ↦
              let before : Follows n o = compare_bytes-more o.bytes n.bytes c in
              let all : All (Follows n) (o ∷ old) =
                (before, All-map old (λ y k. Before-trans n.bytes o.bytes y.bytes before k) so.0) in
              rw (c, changes)
                (rw (apply_row-insert n (o ∷ old) done rs pn.0 po all mn.0 h) (
                  Returns-map (λ rs'. Holds rs' (with_row n done) new)
                    (λ rs'. Holds rs' done (n ∷ new))
                    (apply_rows (changes (o ∷ old) new) (row n ∷ rs))
                    (apply_rows-changes (o ∷ old) new so sn.1 po pn.1 (with_row n done) (row n ∷ rs)
                      (Misses-with_row n done (o ∷ old) pn.0 po all mo)
                      (Misses-with_row n done new pn.0 pn.1 sn.0 mn.1)
                      (Holds-insert n (o ∷ old) done rs h))
                    (λ rs' k x. ground (arith, k x))))
        ]
