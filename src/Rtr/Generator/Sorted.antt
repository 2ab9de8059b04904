-- ===== src/Rtr/Generator/Sorted.antt =====
-- A finished set is strictly ascending in the order of the wire formats, and has lost none of them.
use rpki_net.Prelude.{
  ℕ, ◌≡◌, refl, Bool, false, ◌||◌, List, [], ◌∷◌, All, All-map, arith, sym, ◌∙◌, ◌⊎◌, inl, inr,
  subst,
}
use rpki_net.Rtr.Bytes.{bytes_eq}
use rpki_net.Rtr.Compare.{
  compare_bytes, Before, Before-trans, compare_bytes-less, compare_bytes-more, compare_bytes-same,
  Order-cases, Before-irrefl,
}
use rpki_net.Rtr.Generator.{
  Entry, insert_entry, sort_entries, drop_same, drop_duplicates, finish_set,
}

abbrev pub Follows : Entry → Entry → Type 0
Follows e x = Before e.bytes x.bytes

-- Not after.
abbrev NotAfter : Entry → Entry → Type 0
NotAfter e x = Before e.bytes x.bytes ⊎ (e.bytes ≡ x.bytes)

NotAfter-trans : (a b c : Entry) → NotAfter a b → NotAfter b c → NotAfter a c
NotAfter-trans a b c (inl h) (inl k) = inl (Before-trans a.bytes b.bytes c.bytes h k)
NotAfter-trans a b c (inl h) (inr k) = inl (subst (Before a.bytes) k h)
NotAfter-trans a b c (inr h) (inl k) = inl (subst (λ t. Before t c.bytes) (sym h) k)
NotAfter-trans a b c (inr h) (inr k) = inr (h ∙ k)

-- Strictly ascending.
abbrev pub IsStrict : List Entry → Type 0
IsStrict [] = Unit
IsStrict (e ∷ es) = All (Follows e) es × IsStrict es

abbrev IsWeak : List Entry → Type 0
IsWeak [] = Unit
IsWeak (e ∷ es) = All (NotAfter e) es × IsWeak es

-- The set has an entry with these bytes.
abbrev pub has_bytes : List ℕ → List Entry → Bool
has_bytes b [] = false
has_bytes b (e ∷ es) = bytes_eq b e.bytes || has_bytes b es

module _ (P : Entry → Type 0) where
  All-insert_entry : (e : Entry) (es : List Entry) → P e → All P es → All P (insert_entry e es)
  unfolding insert_entry
  All-insert_entry e [] p ps = (p, tt)
  All-insert_entry e (x ∷ xs) p ps = elim (Order-cases (compare_bytes e.bytes x.bytes)) [
    | inl c ↦ rw (c, insert_entry) (p, ps)
    | inr (inl c) ↦ rw (c, insert_entry) (p, ps)
    | inr (inr c) ↦ rw (c, insert_entry) (ps.0, All-insert_entry e xs p ps.1)
  ]

  All-sort_entries : (es : List Entry) → All P es → All P (sort_entries es)
  unfolding sort_entries
  All-sort_entries [] ps = tt
  All-sort_entries (e ∷ es) ps =
      All-insert_entry e (sort_entries es) ps.0 (All-sort_entries es ps.1)

  All-drop_same : (e : Entry) (es : List Entry) → P e → All P es → All P (drop_same e es)
  All-drop_same e [] p ps = (p, tt)
  All-drop_same e (x ∷ xs) p ps = elim (Order-cases (compare_bytes e.bytes x.bytes)) [
    | inl c ↦ rw (c, drop_same) (p, ps)
    | inr (inl c) ↦ rw (c, drop_same) (p, ps.1)
    | inr (inr c) ↦ rw (c, drop_same) (p, ps)
  ]

  All-drop_duplicates : (es : List Entry) → All P es → All P (drop_duplicates es)
  unfolding drop_duplicates
  All-drop_duplicates [] ps = tt
  All-drop_duplicates (e ∷ es) ps =
      All-drop_same e (drop_duplicates es) ps.0 (All-drop_duplicates es ps.1)

  pub All-finish_set : (es : List Entry) → All P es → All P (finish_set es)
  unfolding finish_set
  All-finish_set es ps = All-drop_duplicates (sort_entries es) (All-sort_entries es ps)

insert_entry-IsWeak : (e : Entry) (es : List Entry) → IsWeak es → IsWeak (insert_entry e es)
unfolding insert_entry
insert_entry-IsWeak e [] w = (tt, tt)
insert_entry-IsWeak e (x ∷ xs) w = elim (Order-cases (compare_bytes e.bytes x.bytes)) [
  | inl c ↦
      let h : NotAfter e x = inl (compare_bytes-less e.bytes x.bytes c) in
      rw (c, insert_entry) ((h, All-map xs (λ y k. NotAfter-trans e x y h k) w.0), w)
  | inr (inl c) ↦
      let h : NotAfter e x = inr (compare_bytes-same e.bytes x.bytes c) in
      rw (c, insert_entry) ((h, All-map xs (λ y k. NotAfter-trans e x y h k) w.0), w)
  | inr (inr c) ↦
      rw (c, insert_entry)
        (
          All-insert_entry (NotAfter x) e xs (inl (compare_bytes-more e.bytes x.bytes c)) w.0,
          insert_entry-IsWeak e xs w.1,
        )
]

sort_entries-IsWeak : (es : List Entry) → IsWeak (sort_entries es)
unfolding sort_entries
sort_entries-IsWeak [] = tt
sort_entries-IsWeak (e ∷ es) = insert_entry-IsWeak e (sort_entries es) (sort_entries-IsWeak es)

drop_same-IsStrict :
    (e : Entry) (es : List Entry) → All (NotAfter e) es → IsStrict es → IsStrict (drop_same e es)
drop_same-IsStrict e [] w s = (tt, tt)
drop_same-IsStrict e (x ∷ xs) w s = elim (Order-cases (compare_bytes e.bytes x.bytes)) [
  | inl c ↦
      let h : Follows e x = compare_bytes-less e.bytes x.bytes c in
      rw (c, drop_same) ((h, All-map xs (λ y k. Before-trans e.bytes x.bytes y.bytes h k) s.0), s)
  | inr (inl c) ↦
      let h : e.bytes ≡ x.bytes = compare_bytes-same e.bytes x.bytes c in
      rw (c, drop_same) (All-map xs (λ y k. subst (λ t. Before t y.bytes) (sym h) k) s.0, s.1)
  | inr (inr c) ↦
      let h : Before x.bytes e.bytes = compare_bytes-more e.bytes x.bytes c in
      absurd (NotAfter-not e x w.0 h)
]
  where
    NotAfter-not : (a b : Entry) → NotAfter a b → ¬ Before b.bytes a.bytes
    NotAfter-not a b (inl h) k = Before-irrefl a.bytes (Before-trans a.bytes b.bytes a.bytes h k)
    NotAfter-not a b (inr h) k = Before-irrefl b.bytes (subst (Before b.bytes) h k)

drop_duplicates-IsStrict : (es : List Entry) → IsWeak es → IsStrict (drop_duplicates es)
unfolding drop_duplicates
drop_duplicates-IsStrict [] w = tt
drop_duplicates-IsStrict (e ∷ es) w =
    drop_same-IsStrict e (drop_duplicates es) (All-drop_duplicates (NotAfter e) es w.0)
      (drop_duplicates-IsStrict es w.1)

module _ (b : List ℕ) where
  has_bytes-insert_entry :
      (e : Entry) (es : List Entry)
      → has_bytes b (insert_entry e es) ≡ (bytes_eq b e.bytes || has_bytes b es)
  unfolding insert_entry
  has_bytes-insert_entry e [] = refl
  has_bytes-insert_entry e (x ∷ xs) = elim (Order-cases (compare_bytes e.bytes x.bytes)) [
    | inl c ↦ rw (c, insert_entry) refl
    | inr (inl c) ↦ rw (c, insert_entry) refl
    | inr (inr c) ↦ rw (c, insert_entry) (ground (arith, has_bytes-insert_entry e xs))
  ]

  has_bytes-sort_entries : (es : List Entry) → has_bytes b (sort_entries es) ≡ has_bytes b es
  unfolding sort_entries
  has_bytes-sort_entries [] = refl
  has_bytes-sort_entries (e ∷ es) =
      ground (arith, has_bytes-insert_entry e (sort_entries es), has_bytes-sort_entries es)

  has_bytes-drop_same :
      (e : Entry) (es : List Entry)
      → has_bytes b (drop_same e es) ≡ (bytes_eq b e.bytes || has_bytes b es)
  has_bytes-drop_same e [] = refl
  has_bytes-drop_same e (x ∷ xs) = elim (Order-cases (compare_bytes e.bytes x.bytes)) [
    | inl c ↦ rw (c, drop_same) refl
    | inr (inl c) ↦
        let h : e.bytes ≡ x.bytes = compare_bytes-same e.bytes x.bytes c in
        rw (c, drop_same) (rw h (ground arith))
    | inr (inr c) ↦ rw (c, drop_same) refl
  ]

  has_bytes-drop_duplicates : (es : List Entry) → has_bytes b (drop_duplicates es) ≡ has_bytes b es
  unfolding drop_duplicates
  has_bytes-drop_duplicates [] = refl
  has_bytes-drop_duplicates (e ∷ es) =
      ground (arith, has_bytes-drop_same e (drop_duplicates es), has_bytes-drop_duplicates es)

-- What `parse_rcynic` ends with is strictly ascending in the order of the wire formats, so that
-- nothing is in it twice, and has the wire formats that were collected, no more and no fewer.
pub finish_set-IsStrict :
    (es : List Entry)
    → IsStrict (finish_set es) × ((b : List ℕ) → has_bytes b (finish_set es) ≡ has_bytes b es)
unfolding finish_set
finish_set-IsStrict es = (
  drop_duplicates-IsStrict (sort_entries es) (sort_entries-IsWeak es),
  λ b. has_bytes-drop_duplicates b (sort_entries es) ∙ has_bytes-sort_entries b es,
)
