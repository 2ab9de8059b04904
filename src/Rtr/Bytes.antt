-- ===== src/Rtr/Bytes.antt =====
-- What `struct.pack` and `struct.unpack` do in network order with the formats of pdus.py, a format
-- being the widths of its fields in bytes; a pad is a field that is packed as zero.
use rpki_net.Prelude.{
  ℕ, zero, suc, ◌+◌, ◌*◌, ◌/◌, ◌%◌, ◌^◌, ◌<◌, ◌≡◌, refl, ap, sym, ◌∙◌, Bool, true, false, ◌&&◌,
  List, [], ◌∷◌, ◌++◌, arith, Option, some, none, ltb, ◌==◌, length, length-append,
}
use mathlib.Core.List.{append_assoc, append-nil}
use native.Mathlib.Nat.{pow-suc}
use rpki_net.Result.{Result, ok, err, struct_error, guard, ◌>>=◌, ◌>>◌}

-- The `w` low bytes of `n`, highest first.
unfoldable pub to_bytes : ℕ → ℕ → List ℕ
to_bytes zero n = []
to_bytes (suc w) n = to_bytes w (n / 256) ++ (n % 256) ∷ []

-- `b[:n]` and `b[n:]`
unfoldable pub split_at : ℕ → List ℕ → List ℕ × List ℕ
split_at zero bs = ([], bs)
split_at (suc n) [] = ([], [])
split_at (suc n) (b ∷ bs) = let rest = split_at n bs in (b ∷ rest.0, rest.1)

-- The number that the first `w` bytes stand for, and the other bytes; none if there are fewer.
unfoldable pub take_field : ℕ → ℕ → List ℕ → Option (ℕ × List ℕ)
take_field zero acc bs = some (acc, bs)
take_field (suc w) acc [] = none
take_field (suc w) acc (b ∷ bs) = take_field w (acc * 256 + b) bs

unfoldable pub pack : List (ℕ × ℕ) → Result (List ℕ)
pack [] = ok []
pack ((w, n) ∷ fields) = do
  guard (ltb n (256 ^ w)) struct_error
  rest ← pack fields
  ok (to_bytes w n ++ rest)

-- The values of the fields of the given widths.
abbrev pub Values : List ℕ → Type 0
Values [] = Unit {0}
Values (w ∷ ws) = ℕ × Values ws

-- The fields take up all the bytes.
unfoldable pub unpack : (ws : List ℕ) → List ℕ → Result (Values ws)
unpack [] [] = ok tt
unpack [] (b ∷ bs) = err struct_error
unpack (w ∷ ws) bs = elim (take_field w 0 bs) [
  | none ↦ err struct_error
  | some (n, rest) ↦ do ns ← unpack ws rest; ok (n, ns)
]

-- `==` of strings of bytes.
unfoldable pub bytes_eq : List ℕ → List ℕ → Bool
bytes_eq [] [] = true
bytes_eq [] (b ∷ bs) = false
bytes_eq (a ∷ s) [] = false
bytes_eq (a ∷ s) (b ∷ bs) = a == b && bytes_eq s bs

pub bytes_eq-same : (bs : List ℕ) → bytes_eq bs bs ≡ true
unfolding bytes_eq
bytes_eq-same [] = refl
bytes_eq-same (b ∷ bs) = ground (arith, bytes_eq-same bs)

pub split_at-append : (n : ℕ) (xs ys : List ℕ) → length xs ≡ n → split_at n (xs ++ ys) ≡ (xs, ys)
unfolding split_at
split_at-append zero [] ys h = refl
split_at-append (suc n) [] ys h = absurd (omega arith)
split_at-append zero (x ∷ xs) ys h = absurd (omega arith)
split_at-append (suc n) (x ∷ xs) ys h =
    ap {B = List ℕ × List ℕ} (λ s. (x ∷ s.0, s.1)) (split_at-append n xs ys (omega arith))

abbrev pub Fields : List (ℕ × ℕ) → Type 0
Fields [] = Unit {0}
Fields ((w, n) ∷ fields) = (n < 256 ^ w) × Fields fields

abbrev pub widths : List (ℕ × ℕ) → List ℕ
widths [] = []
widths ((w, n) ∷ fields) = w ∷ widths fields

abbrev pub values : (fields : List (ℕ × ℕ)) → Values (widths fields)
values [] = tt
values ((w, n) ∷ fields) = (n, values fields)

-- The bytes of the fields, where `pack` returns.
abbrev pub encode : List (ℕ × ℕ) → List ℕ
encode [] = []
encode ((w, n) ∷ fields) = to_bytes w n ++ encode fields

abbrev pub sum : List ℕ → ℕ
sum [] = 0
sum (w ∷ ws) = w + sum ws

pub length-to_bytes : (w n : ℕ) → length (to_bytes w n) ≡ w
unfolding to_bytes
length-to_bytes zero n = refl
length-to_bytes (suc w) n =
    omega (arith, length-to_bytes w (n / 256), length-append (to_bytes w (n / 256)) (n % 256 ∷ []))

pub length-encode : (fields : List (ℕ × ℕ)) → length (encode fields) ≡ sum (widths fields)
length-encode [] = refl
length-encode ((w, n) ∷ fields) =
    omega (
      arith,
      length-encode fields,
      length-to_bytes w n,
      length-append (to_bytes w n) (encode fields),
    )

pub pack-Fields : (fields : List (ℕ × ℕ)) → Fields fields → pack fields ≡ ok (encode fields)
unfolding pack
pack-Fields [] h = refl
pack-Fields ((w, n) ∷ fields) h =
    let fits : ltb n (256 ^ w) ≡ true = ground (arith, h.0) in
    rw (fits, pack-Fields fields h.1) refl

some_pair : Option (ℕ × List ℕ) → ℕ × List ℕ
some_pair none = (0, [])
some_pair (some p) = p

take_field_snoc :
    (w acc v d : ℕ) (xs rest : List ℕ)
    → take_field w acc xs ≡ some (v, d ∷ rest)
    → take_field (suc w) acc xs ≡ some (v * 256 + d, rest)
unfolding take_field some_pair
take_field_snoc zero acc v d xs rest e =
    let number : acc ≡ v = ap (λ o. (some_pair o).0) e in
    let bytes : xs ≡ d ∷ rest = ap (λ o. (some_pair o).1) e in rw (bytes, number) refl
take_field_snoc (suc w) acc v d [] rest e = cc
take_field_snoc (suc w) acc v d (x ∷ xs) rest e = take_field_snoc w (acc * 256 + x) v d xs rest e

take_field-to_bytes :
    (w n acc : ℕ) (rest : List ℕ)
    → n < 256 ^ w
    → take_field w acc (to_bytes w n ++ rest) ≡ some (acc * 256 ^ w + n, rest)
unfolding take_field to_bytes
take_field-to_bytes zero n acc rest h =
    ap {B = Option (ℕ × List ℕ)} (λ k. some (k, rest)) (omega arith)
take_field-to_bytes (suc w) n acc rest h =
    let bound : n / 256 < 256 ^ w = omega (arith, h, pow-suc 256 w) in
    let scaled : acc * 256 ^ suc w ≡ acc * 256 ^ w * 256 = rw (pow-suc 256 w) (omega arith) in
    rw (append_assoc (to_bytes w (n / 256)) (n % 256 ∷ []) rest) (
      take_field_snoc w acc (acc * 256 ^ w + n / 256) (n % 256)
        (to_bytes w (n / 256) ++ n % 256 ∷ rest) rest
        (take_field-to_bytes w (n / 256) acc (n % 256 ∷ rest) bound)
      ∙ ap {B = Option (ℕ × List ℕ)} (λ k. some (k, rest)) (omega (arith, scaled)))

pub unpack-encode :
    (fields : List (ℕ × ℕ))
    → Fields fields
    → unpack (widths fields) (encode fields) ≡ ok (values fields)
unfolding unpack
unpack-encode [] h = refl
unpack-encode ((w, n) ∷ fields) h =
    let first : take_field w 0 (to_bytes w n ++ encode fields) ≡ some (n, encode fields) =
      take_field-to_bytes w n 0 (encode fields) h.0
      ∙ ap {B = Option (ℕ × List ℕ)} (λ k. some (k, encode fields)) (omega arith) in
    rw (first, unpack-encode fields h.1, unpack) refl

-- A number that takes up all the bytes.
pub take_field-whole : (w n : ℕ) → n < 256 ^ w → take_field w 0 (to_bytes w n) ≡ some (n, [])
take_field-whole w n h =
    ap (take_field w 0) (sym (append-nil (to_bytes w n)))
    ∙ take_field-to_bytes w n 0 [] h
    ∙ ap {B = Option (ℕ × List ℕ)} (λ k. some (k, [])) (omega arith)

pub split_at-join : (n : ℕ) (bs : List ℕ) → (split_at n bs).0 ++ (split_at n bs).1 ≡ bs
unfolding split_at
split_at-join zero bs = refl
split_at-join (suc n) [] = refl
split_at-join (suc n) (b ∷ bs) = ap {B = List ℕ} (λ t. b ∷ t) (split_at-join n bs)

pub split_at-join2 :
    (m n : ℕ) (bs : List ℕ)
    → bs ≡ (split_at m bs).0 ++ (split_at n (split_at m bs).1).0 ++ (split_at n (split_at m bs).1).1
split_at-join2 m n bs =
    let a = split_at m bs in
    let b = split_at n a.1 in
    sym (append_assoc a.0 b.0 b.1 ∙ ap (λ t. a.0 ++ t) (split_at-join n a.1) ∙ split_at-join m bs)

pub split_at-join3 :
    (m n k : ℕ) (bs : List ℕ)
    → let a = split_at m bs in
      let b = split_at n a.1 in let c = split_at k b.1 in bs ≡ a.0 ++ b.0 ++ c.0 ++ c.1
split_at-join3 m n k bs =
    let a = split_at m bs in
    let b = split_at n a.1 in
    let c = split_at k b.1 in
    split_at-join2 m n bs
    ∙ sym (append_assoc (a.0 ++ b.0) c.0 c.1 ∙ ap (λ t. a.0 ++ b.0 ++ t) (split_at-join k b.1))

pub bytes_eq_sound : (bs cs : List ℕ) → bytes_eq bs cs ≡ true → bs ≡ cs
unfolding bytes_eq
bytes_eq_sound [] [] e = refl
bytes_eq_sound [] (c ∷ cs) e = cc
bytes_eq_sound (b ∷ bs) [] e = cc
bytes_eq_sound (b ∷ bs) (c ∷ cs) e =
    let rest : bs ≡ cs = bytes_eq_sound bs cs (ground (arith, e)) in
    let head : b ≡ c = ground (arith, e) in cc
