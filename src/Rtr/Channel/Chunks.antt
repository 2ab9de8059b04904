-- ===== src/Rtr/Channel/Chunks.antt =====
-- The channel does not depend on how the bytes come in: in one piece or in several.
use rpki_net.Prelude.{
  ℕ, zero, suc, ◌+◌, ◌-◌, ltb→lt, ◌<◌, ◌≤◌, ◌≡◌, refl, true, false, List, [], ◌∷◌, ◌++◌, arith,
  Bool-cases, inl, inr, ap, sym, ◌∙◌, ltb, length, length-append,
}
use mathlib.Core.List.{append_assoc, append-nil}
use native.Mathlib.Numerals.{unary_clauses}
use rpki_net.Result.{Result, ok, err, ◌>>=◌, IfReturns, returned, raises, after_call}
use rpki_net.Rtr.Bytes.{split_at}
use rpki_net.Rtr.Pdu.{Pdu}
use rpki_net.Rtr.Reader.{ReadBuffer, put}
use rpki_net.Rtr.Channel.{Channel, reading, closing, receive, feed, found_terminator}
use rpki_net.Rtr.Channel.Waits.{Waits, found_terminator-Waits}

bind_assoc_on :
    {A B C : Type 0} (m : Result A) (f : A → Result C) (g : A → Result B) (h : B → Result C)
    → ((a : A) → m ≡ ok a → f a ≡ (g a >>= h))
    → (m >>= f) ≡ ((m >>= g) >>= h)
bind_assoc_on (ok a) f g h k = k a refl
bind_assoc_on (err e) f g h k = refl

pub bind_on :
    {A C : Type 0} (m : Result A) (f g : A → Result C)
    → ((a : A) → m ≡ ok a → f a ≡ g a)
    → (m >>= f) ≡ (m >>= g)
bind_on (ok a) f g k = k a refl
bind_on (err e) f g k = refl

split_at-shorter :
    (n : ℕ) (xs ys : List ℕ)
    → n ≤ length xs
    → split_at n (xs ++ ys) ≡ ((split_at n xs).0, (split_at n xs).1 ++ ys)
unfolding split_at
split_at-shorter zero xs ys h = refl
split_at-shorter (suc n) [] ys h = absurd (omega arith)
split_at-shorter (suc n) (x ∷ xs) ys h =
    ap {B = List ℕ × List ℕ} (λ u. (x ∷ u.0, u.1)) (split_at-shorter n xs ys (omega arith))

split_at-past :
    (n : ℕ) (xs ys : List ℕ)
    → length xs ≤ n
    → split_at n (xs ++ ys)
      ≡ (xs ++ (split_at (n - length xs) ys).0, (split_at (n - length xs) ys).1)
unfolding split_at
split_at-past n [] ys h = simp unary_clauses refl
split_at-past zero (x ∷ xs) ys h = absurd (omega arith)
split_at-past (suc n) (x ∷ xs) ys h =
    simp unary_clauses
      (ap {B = List ℕ × List ℕ} (λ u. (x ∷ u.0, u.1)) (split_at-past n xs ys (omega arith)))

pub length-split_at :
    (n : ℕ) (xs : List ℕ) → n ≤ length xs → length (split_at n xs).1 ≡ length xs - n
unfolding split_at
length-split_at zero xs h = simp unary_clauses refl
length-split_at (suc n) [] h = absurd (omega arith)
length-split_at (suc n) (x ∷ xs) h = omega (arith, length-split_at n xs (omega arith))

put-put : (xs ys : List ℕ) (r : ReadBuffer) → put ys (put xs r) ≡ put (xs ++ ys) r
unfolding put
put-put xs ys r = ap {B = ReadBuffer} (λ b. record r { buffer = b }) (append_assoc r.buffer xs ys)

module _ {S : Type 0} (deliver : Pdu → S → Result S) where
  -- One round of `receive`, of bytes that suffice.
  pub receive_full :
      (fuel : ℕ) (bs : List ℕ) (s : S) (r : ReadBuffer) (n : ℕ)
      → 0 < n
      → n ≤ length bs
      → receive deliver (suc fuel) bs (reading s r n) ≡ (
          found_terminator deliver s (put (split_at n bs).0 r)
          >>= receive deliver fuel (split_at n bs).1)
  unfolding receive
  receive_full fuel [] s r n w h = absurd (omega arith)
  receive_full fuel (b ∷ bs) s r n w h =
      let enough : ltb (length (b ∷ bs)) n ≡ false = ground (arith, h) in rw (enough, receive) refl

  -- Of bytes that do not.
  pub receive_part :
      (fuel : ℕ) (bs : List ℕ) (s : S) (r : ReadBuffer) (n : ℕ)
      → length bs < n
      → receive deliver (suc fuel) bs (reading s r n) ≡ ok (reading s (put bs r) (n - length bs))
  unfolding receive put
  receive_part fuel [] s r n h = rw (append-nil r.buffer) (simp unary_clauses refl)
  receive_part fuel (b ∷ bs) s r n h =
      let short : ltb (length (b ∷ bs)) n ≡ true = ground (arith, h) in rw (short, receive) refl

  receive_closing :
      (fuel : ℕ) (bs : List ℕ) (s : S) (version code : ℕ)
      → receive deliver (suc fuel) bs (closing s version code) ≡ ok (closing s version code)
  unfolding receive
  receive_closing fuel [] s version code = refl
  receive_closing fuel (b ∷ bs) s version code = refl

  -- Any fuel that exceeds the number of bytes gives the same.
  pub receive_fuel :
      (f g : ℕ) (bs : List ℕ) (c : Channel S)
      → length bs < f
      → length bs < g
      → Waits c
      → receive deliver f bs c ≡ receive deliver g bs c
  receive_fuel zero g bs c hf hg w = absurd (omega arith)
  receive_fuel (suc f) zero bs c hf hg w = absurd (omega arith)
  receive_fuel (suc f) (suc g) bs (closing s version code) hf hg w =
      receive_closing f bs s version code ∙ sym (receive_closing g bs s version code)
  receive_fuel (suc f) (suc g) bs (reading s r n) hf hg w = elim (Bool-cases (ltb (length bs) n)) [
    | inl h ↦
        let short : length bs < n = ground (arith, h) in
        receive_part f bs s r n short ∙ sym (receive_part g bs s r n short)
    | inr h ↦
        let enough : n ≤ length bs = ground (arith, h) in
        let rest = length-split_at n bs enough in
        receive_full f bs s r n w enough
        ∙ bind_on (found_terminator deliver s (put (split_at n bs).0 r)) _ _ (λ c e.
          receive_fuel f g (split_at n bs).1 c (omega (arith, rest)) (omega (arith, rest))
            ((found_terminator-Waits deliver s (put (split_at n bs).0 r)).result c e))
        ∙ sym (receive_full g bs s r n w enough)
  ]

  -- Neither the first bytes nor all of them suffice.
  part_part :
      (f g k : ℕ) (xs ys : List ℕ) (s : S) (r : ReadBuffer) (n : ℕ)
      → length xs + length ys < n
      → receive deliver (suc f) (xs ++ ys) (reading s r n)
        ≡ (receive deliver (suc g) xs (reading s r n) >>= receive deliver (suc k) ys)
  part_part f g k xs ys s r n h =
      let all : length (xs ++ ys) < n = omega (arith, h, length-append xs ys) in
      let first : length xs < n = omega (arith, h) in
      let left : n - length (xs ++ ys) ≡ n - length xs - length ys =
        omega (arith, length-append xs ys) in
      rw (receive_part g xs s r n first) (
        receive_part f (xs ++ ys) s r n all
        ∙ rw (left, put-put xs ys r) refl
        ∙ sym (receive_part k ys s (put xs r) (n - length xs) (omega (arith, h))))

  -- The first bytes do not suffice, all of them do.
  part_full :
      (f g k : ℕ) (xs ys : List ℕ) (s : S) (r : ReadBuffer) (n : ℕ)
      → length xs < n
      → n ≤ length xs + length ys
      → length (xs ++ ys) < suc f
      → length ys < suc k
      → receive deliver (suc f) (xs ++ ys) (reading s r n)
        ≡ (receive deliver (suc g) xs (reading s r n) >>= receive deliver (suc k) ys)
  part_full f g k xs ys s r n first enough hf hk =
      let size = length-append xs ys in
      let m : ℕ = n - length xs in
      let cut = split_at-past n xs ys (omega (arith, first)) in
      let rest = length-split_at m ys (omega (arith, first, enough)) in
      let buffer = put (xs ++ (split_at m ys).0) r in
      rw
        (
          receive_part g xs s r n first,
          receive_full f (xs ++ ys) s r n (omega (arith, first)) (omega (arith, enough, size)),
          receive_full k ys s (put xs r) m (omega (arith, first)) (omega (arith, enough)),
          cut,
          put-put xs (split_at m ys).0 r,
        )
        (bind_on (found_terminator deliver s buffer) (receive deliver f (split_at m ys).1)
          (receive deliver k (split_at m ys).1)
          (λ c e.
            receive_fuel f k (split_at m ys).1 c (omega (arith, rest, size, hf, first, enough))
              (omega (arith, rest, hk, first, enough))
              ((found_terminator-Waits deliver s buffer).result c e)))

  receive-Waits :
      (fuel : ℕ) (bs : List ℕ) (c : Channel S)
      → Waits c
      → IfReturns Waits (receive deliver fuel bs c)
  unfolding receive put
  receive-Waits zero bs c w = raises Waits _
  receive-Waits (suc fuel) [] c w = returned Waits c w
  receive-Waits (suc fuel) (b ∷ bs) (closing s version code) w =
      returned Waits (closing s version code) tt
  receive-Waits (suc fuel) (b ∷ bs) (reading s r n) w =
      elim (Bool-cases (ltb (length (b ∷ bs)) n)) [
        | inl h ↦
            let short : length (b ∷ bs) < n = omega (arith, ltb→lt _ _ h) in
            rw (receive_part fuel (b ∷ bs) s r n short) (
              returned Waits (reading s (put (b ∷ bs) r) (n - length (b ∷ bs)))
                (omega (arith, short)))
        | inr h ↦
            let enough : n ≤ length (b ∷ bs) = ground (arith, h) in
            rw (receive_full fuel (b ∷ bs) s r n w enough) (
              after_call Waits (found_terminator deliver s (put (split_at n (b ∷ bs)).0 r)) _
                (λ c e.
                  receive-Waits fuel (split_at n (b ∷ bs)).1 c (
                    (found_terminator-Waits deliver s (put (split_at n (b ∷ bs)).0 r)).result c e)))
      ]

  receive-append :
      (f g k : ℕ) (xs ys : List ℕ) (c : Channel S)
      → length (xs ++ ys) < f
      → length xs < g
      → length ys < k
      → Waits c
      → receive deliver f (xs ++ ys) c ≡ (receive deliver g xs c >>= receive deliver k ys)
  receive-append zero g k xs ys c hf hg hk w = absurd (omega arith)
  receive-append (suc f) zero k xs ys c hf hg hk w = absurd (omega arith)
  receive-append (suc f) (suc g) zero xs ys c hf hg hk w = absurd (omega arith)
  receive-append (suc f) (suc g) (suc k) xs ys (closing s version code) hf hg hk w =
      rw (receive_closing g xs s version code)
        (receive_closing f (xs ++ ys) s version code ∙ sym (receive_closing k ys s version code))
  receive-append (suc f) (suc g) (suc k) xs ys (reading s r n) hf hg hk w =
      let size = length-append xs ys in
      elim (Bool-cases (ltb (length (xs ++ ys)) n)) [
        | inl h ↦ part_part f g k xs ys s r n (ground (arith, h, size))
        | inr h ↦ elim (Bool-cases (ltb (length xs) n)) [
          | inl h' ↦
              part_full f g k xs ys s r n (omega (arith, ltb→lt _ _ h')) (ground (arith, h, size))
                hf hk
          | inr h' ↦
              let enough : n ≤ length xs = ground (arith, h') in
              let rest = length-split_at n xs enough in
              let buffer = put (split_at n xs).0 r in
              rw (receive_full g xs s r n w enough) (
                receive_full f (xs ++ ys) s r n w (omega (arith, enough, size))
                ∙ rw (split_at-shorter n xs ys enough) (
                    bind_assoc_on (found_terminator deliver s buffer)
                      (receive deliver f ((split_at n xs).1 ++ ys))
                      (receive deliver g (split_at n xs).1) (receive deliver (suc k) ys)
                      (λ c e.
                        receive-append f g (suc k) (split_at n xs).1 ys c
                          (omega
                            (arith, rest, size, hf, enough, w, length-append (split_at n xs).1 ys))
                          (omega (arith, rest, hg, enough, w)) hk
                          ((found_terminator-Waits deliver s buffer).result c e))))
        ]
      ]

  -- A channel that waits for a byte at least, which every call leaves it to do, makes of bytes that
  -- come in one piece just what it makes of them when they come in two: the same PDUs are delivered
  -- in the same order, the same exception comes out, and the channel is left the same.
  pub feed-append :
      (xs ys : List ℕ) (c : Channel S)
      → Waits c
      → (feed deliver (xs ++ ys) c ≡ (feed deliver xs c >>= feed deliver ys))
        × IfReturns Waits (feed deliver xs c)
  unfolding feed
  feed-append xs ys c w = (
    receive-append _ _ _ xs ys c (omega arith) (omega arith) (omega arith) w,
    receive-Waits _ xs c w,
  )
