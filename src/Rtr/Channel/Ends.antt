-- ===== src/Rtr/Channel/Ends.antt =====
-- Reading comes to an end: what is read takes bytes off the buffer, so that the rounds that the loops
-- are given are enough.
use rpki_net.Prelude.{
  ℕ, zero, suc, ◌+◌, ◌-◌, ◌*◌, ◌^◌, ◌<◌, ◌≤◌, ◌≡◌, ◌≢◌, refl, Bool, true, false, ◌&&◌, ◌||◌, List,
  [], ◌∷◌, arith, Option, none, some, ap, sym, ◌∙◌, ltb, leb, ◌==◌, length, length-append,
}
use rpki_net.Result.{
  Error, Result, ok, err, out_of_fuel, guard, ◌>>=◌, assertion_error, struct_error, unicode_error,
  pow_error, type_error, corrupt_data,
}
use rpki_net.Rtr.Bytes.{split_at, split_at-join, take_field, unpack, pack, Values, sum, bytes_eq}
use rpki_net.Rtr.Pdu.{
  Pdu, PduClass, Base, Content, with_serial, with_nonce, empty_pdu, with_timing, with_prefix,
  with_key, with_error, serial_content, nonce_content, empty_content, timing_content,
  prefix_content, key_content, error_content, to_counted_string, encode_utf8, is_ascii,
  address_byte_count, pdu_type, wire, to_pdu,
}
use rpki_net.Rtr.Reader.{
  ReadBuffer, get, same_wire, check_header, address_from_bytes, read_counted_string, read_body,
  retry,
}

-- The call was not cut off, and if it returned, `Q` holds of the result.
abbrev Ended {ℓ} : {A : Type ℓ} → (A → Type 0) → Result A → Type 0
Ended Q (ok a) = Q a
Ended Q (err e) = e ≢ out_of_fuel

pub record Settles {ℓ} {A : Type ℓ} (Q : A → Type 0) (m : Result A) : Type ℓ where
  pub ended : Ended Q m

pub settled {ℓ} : {A : Type ℓ} (Q : A → Type 0) (a : A) → Q a → Settles Q (ok a)
settled Q a q = record { ended = q }

pub failing {ℓ} : {A : Type ℓ} (Q : A → Type 0) (e : Error) → e ≢ out_of_fuel → Settles Q (err e)
failing Q e h = record { ended = h }

abbrev pub Any {ℓ} : {A : Type ℓ} → A → Type 0
Any a = Unit

-- The next step, with what the first one returned.
pub bind-Settles {ℓ κ} :
    {A : Type ℓ} {B : Type κ} (P : A → Type 0) (Q : B → Type 0) (m : Result A) (f : A → Result B)
    → Settles P m
    → ((a : A) → P a → Settles Q (f a))
    → Settles Q (m >>= f)
bind-Settles P Q (ok a) f p k = k a p.ended
bind-Settles P Q (err e) f p k = record { ended = p.ended }

guard-Settles : (b : Bool) (e : Error) → e ≢ out_of_fuel → Settles Any (guard b e)
guard-Settles true e h = settled Any tt tt
guard-Settles false e h = failing Any e h

-- A guard, and what follows it.
pub after_guard {ℓ} :
    {B : Type ℓ} (Q : B → Type 0) (b : Bool) (e : Error) (f : Unit {0} → Result B)
    → e ≢ out_of_fuel
    → Settles Q (f tt)
    → Settles Q (guard b e >>= f)
after_guard Q true e f h k = k
after_guard Q false e f h k = failing Q e h

abbrev rest_of : List ℕ → Option (ℕ × List ℕ) → List ℕ
rest_of d none = d
rest_of d (some (n, r)) = r

take_field-length :
    (w acc : ℕ) (bs : List ℕ) (n : ℕ) (rest : List ℕ)
    → take_field w acc bs ≡ some (n, rest)
    → length bs ≡ w + length rest
unfolding take_field
take_field-length zero acc bs n rest e =
    let same : length bs ≡ length rest = ap (λ o. length (rest_of bs o)) e in omega (arith, same)
take_field-length (suc w) acc [] n rest e = cc
take_field-length (suc w) acc (b ∷ bs) n rest e =
    omega (arith, take_field-length w (acc * 256 + b) bs n rest e)

pub unpack-Settles : (ws : List ℕ) (bs : List ℕ) → Settles (λ v. length bs ≡ sum ws) (unpack ws bs)
unfolding unpack
unpack-Settles [] [] = settled _ tt refl
unpack-Settles [] (b ∷ bs) = failing _ struct_error (λ e. cc)
unpack-Settles (w ∷ ws) bs = found (take_field w 0 bs) refl (λ rest. unpack-Settles ws rest)
  where
    found :
        (m : Option (ℕ × List ℕ))
        → take_field w 0 bs ≡ m
        → ((rest : List ℕ) → Settles (λ v. length rest ≡ sum ws) (unpack ws rest))
        → Settles
            (λ v. length bs ≡ sum (w ∷ ws))
            (elim m as (λ x. Result (Values (w ∷ ws))) [
              | none ↦ err struct_error
              | some (n, rest) ↦ unpack ws rest >>= λ ns. ok (n, ns)
            ])
    found none e ih = failing _ struct_error (λ e. cc)
    found (some (n, rest)) e ih =
        bind-Settles (λ v. length rest ≡ sum ws) _ (unpack ws rest) _ (ih rest)
          (λ ns h. settled _ (n, ns) (omega (arith, h, take_field-length w 0 bs n rest e)))

pack-Settles : (fields : List (ℕ × ℕ)) → Settles Any (pack fields)
unfolding pack
pack-Settles [] = settled Any [] tt
pack-Settles ((w, n) ∷ fields) =
    after_guard Any (ltb n (256 ^ w)) struct_error _ (λ e. cc)
      (bind-Settles Any Any (pack fields) _ (pack-Settles fields) (λ rest h. settled Any _ tt))

to_counted_string-Settles : (s : List ℕ) → Settles Any (to_counted_string s)
unfolding to_counted_string
to_counted_string-Settles s =
    bind-Settles Any Any (pack ((4, length s) ∷ [])) _ (pack-Settles _) (λ size h. settled Any _ tt)

encode_utf8-Settles : (s : List ℕ) → Settles Any (encode_utf8 s)
unfolding encode_utf8
encode_utf8-Settles s = after_guard Any (is_ascii s) unicode_error _ (λ e. cc) (settled Any s tt)

wire-Settles : (c : PduClass) (v : ℕ) (x : Content) → Settles Any (wire c v none x)
unfolding wire
wire-Settles c v (serial_content serial nonce) = pack-Settles _
wire-Settles c v (nonce_content nonce) = pack-Settles _
wire-Settles c v empty_content = pack-Settles _
wire-Settles c v (timing_content serial nonce refresh retry expire) = pack-Settles _
wire-Settles c v (prefix_content own prefix prefixlen max_prefixlen asnum) =
    bind-Settles Any Any (pack _) _ (pack-Settles _) (λ header h.
      bind-Settles Any Any (pack ((4, asnum) ∷ [])) _ (pack-Settles _)
        (λ number k. settled Any _ tt))
wire-Settles c v (key_content own ski asnum key) =
    bind-Settles Any Any (pack _) _ (pack-Settles _) (λ header h.
      bind-Settles Any Any (pack ((4, asnum) ∷ [])) _ (pack-Settles _)
        (λ number k. settled Any _ tt))
wire-Settles c v (error_content errno errpdu errmsg) =
    bind-Settles Any Any (pack _) _ (pack-Settles _) (λ header h.
      bind-Settles Any Any (to_counted_string errpdu) _ (to_counted_string-Settles errpdu)
        (λ first k.
          bind-Settles Any Any (encode_utf8 errmsg) _ (encode_utf8-Settles errmsg) (λ message l.
            bind-Settles Any Any (to_counted_string message) _ (to_counted_string-Settles message)
              (λ second m. settled Any _ tt))))

to_pdu-Settles : (p : Pdu) → Settles Any (to_pdu none p)
unfolding to_pdu
to_pdu-Settles p = wire-Settles p.class_of p.version p.content

-- Bytes have been taken off the buffer.
abbrev pub Shorter : ReadBuffer → ReadBuffer × Pdu → Type 0
Shorter r u = length u.0.buffer < length r.buffer

cut : (n : ℕ) (bs : List ℕ) → length (split_at n bs).0 + length (split_at n bs).1 ≡ length bs
cut n bs = sym (length-append (split_at n bs).0 (split_at n bs).1) ∙ ap length (split_at-join n bs)

address_from_bytes-Settles : (b : List ℕ) → Settles Any (address_from_bytes b)
unfolding address_from_bytes
address_from_bytes-Settles b =
    after_guard Any (length b == 4 || length b == 16) pow_error _ (λ e. cc)
      (found (take_field (length b) 0 b))
  where
    found :
        (m : Option (ℕ × List ℕ))
        → Settles Any (elim m as (λ x. Result ℕ) [ none ↦ err pow_error | some (n, rest) ↦ ok n ])
    found none = failing Any pow_error (λ e. cc)
    found (some (n, rest)) = settled Any n tt

module _ (Q : ReadBuffer × Pdu → Type 0) where
  unpacked :
      (ws bs : List ℕ) (f : Values ws → Result (ReadBuffer × Pdu))
      → ((v : Values ws) → length bs ≡ sum ws → Settles Q (f v))
      → Settles Q (unpack ws bs >>= f)
  unpacked ws bs f k =
      bind-Settles (λ v. length bs ≡ sum ws) Q (unpack ws bs) f (unpack-Settles ws bs) k

  checked :
      (c : PduClass) (v version t : ℕ) (m : Result (ReadBuffer × Pdu))
      → Settles Q m
      → Settles Q (check_header c v version t >>= λ x. m)
  unfolding check_header
  checked c v version t m h =
      after_guard Q (version == v && t == pdu_type c) assertion_error (λ x. m) (λ e. cc) h

  sized :
      (b : Bool) (m : Result (ReadBuffer × Pdu))
      → Settles Q m
      → Settles Q (guard b corrupt_data >>= λ x. m)
  sized b m h = after_guard Q b corrupt_data (λ x. m) (λ e. cc) h

-- No bytes have been added.
abbrev NotLonger : ReadBuffer → ℕ × List ℕ × ℕ × ReadBuffer → Type 0
NotLonger r u = length u.3.buffer ≤ length r.buffer

read_counted_string-Settles :
    (r : ReadBuffer) (remaining : ℕ) → Settles (NotLonger r) (read_counted_string r remaining)
unfolding read_counted_string get
read_counted_string-Settles r remaining =
    after_guard (NotLonger r) (leb 4 remaining) assertion_error _ (λ e. cc)
      (bind-Settles _ (NotLonger r) (unpack (4 ∷ []) (split_at 4 r.buffer).0) _
        (unpack-Settles (4 ∷ []) (split_at 4 r.buffer).0)
        (λ x h.
          after_guard (NotLonger r) (leb (4 + x.0) remaining) assertion_error _ (λ e. cc)
            (settled (NotLonger r) _
              (omega (arith, cut 4 r.buffer, cut (x.0) (split_at 4 r.buffer).1)))))

module _ (r : ReadBuffer) where
  same_wire-Settles :
      (b : List ℕ) (p : Pdu) (r' : ReadBuffer)
      → length r'.buffer < length r.buffer
      → Settles (Shorter r) (same_wire b p r')
  unfolding same_wire
  same_wire-Settles b p r' h =
      bind-Settles Any (Shorter r) (to_pdu none p) _ (to_pdu-Settles p) (λ again k.
        after_guard (Shorter r) (bytes_eq b again) assertion_error (λ x. ok (r', p)) (λ e. cc)
          (settled (Shorter r) (r', p) h))

  abbrev Q : ReadBuffer × Pdu → Type 0
  Q = Shorter r

  pub read_body-Settles : (b : Base) (c : PduClass) (v : ℕ) → Settles Q (read_body b c v r)
  unfolding read_body get
  read_body-Settles with_serial c v =
      unpacked Q (1 ∷ 1 ∷ 2 ∷ 4 ∷ 4 ∷ []) (split_at 12 r.buffer).0 _ (λ x h.
        checked Q c v x.0 x.1.0 _ (
          sized Q (x.1.1.1.0 == 12) _
            (same_wire-Settles _ _ _ (omega (arith, h, cut 12 r.buffer)))))
  read_body-Settles with_nonce c v =
      unpacked Q (1 ∷ 1 ∷ 2 ∷ 4 ∷ []) (split_at 8 r.buffer).0 _ (λ x h.
        checked Q c v x.0 x.1.0 _
          (sized Q (x.1.1.1.0 == 8) _ (same_wire-Settles _ _ _ (omega (arith, h, cut 8 r.buffer)))))
  read_body-Settles empty_pdu c v =
      unpacked Q (1 ∷ 1 ∷ 2 ∷ 4 ∷ []) (split_at 8 r.buffer).0 _ (λ x h. checked Q c v x.0 x.1.0 _ (
        after_guard Q (x.1.1.0 == 0) type_error _ (λ e. cc)
          (sized Q (x.1.1.1.0 == 8) _
            (same_wire-Settles _ _ _ (omega (arith, h, cut 8 r.buffer))))))
  read_body-Settles with_timing c v =
      unpacked Q (1 ∷ 1 ∷ 2 ∷ 4 ∷ 4 ∷ 4 ∷ 4 ∷ 4 ∷ []) (split_at 24 r.buffer).0 _ (λ x h.
        checked Q c v x.0 x.1.0 _ (
          sized Q (x.1.1.1.0 == 24) _
            (same_wire-Settles _ _ _ (omega (arith, h, cut 24 r.buffer)))))
  read_body-Settles with_prefix c v =
      let n = address_byte_count c in
      let r1 = (split_at 12 r.buffer).1 in
      let r2 = (split_at n r1).1 in
      unpacked Q (1 ∷ 1 ∷ 2 ∷ 4 ∷ 1 ∷ 1 ∷ 1 ∷ 1 ∷ []) (split_at 12 r.buffer).0 _ (λ x h.
        checked Q c v x.0 x.1.0 _ (
          sized Q
            (x.1.1.1.0
              == length (split_at 12 r.buffer).0
                + length (split_at n r1).0
                + length (split_at 4 r2).0)
            _
            (bind-Settles Any Q (address_from_bytes (split_at n r1).0) _
              (address_from_bytes-Settles (split_at n r1).0)
              (λ prefix y. unpacked Q (4 ∷ []) (split_at 4 r2).0 _ (λ a k.
                same_wire-Settles _ _ _ (omega (arith, h, cut 12 r.buffer, cut n r1, cut 4 r2)))))))
  read_body-Settles with_key c v =
      let all = (split_at 32 r.buffer).0 in
      let front = split_at 8 all in
      let back = split_at 20 front.1 in
      unpacked Q (1 ∷ 1 ∷ 1 ∷ 1 ∷ 4 ∷ []) front.0 _ (λ x h. unpacked Q (4 ∷ []) back.1 _ (λ a k.
        checked Q c v x.0 x.1.0 _ (
          sized Q (ltb 32 x.1.1.1.1.0) _ (
            same_wire-Settles _ _ _ (
              omega (
                arith,
                h,
                cut 8 all,
                cut 32 r.buffer,
                cut (x.1.1.1.1.0 - 32) (split_at 32 r.buffer).1,
              ))))))
  read_body-Settles with_error c v =
      let r0 : ReadBuffer = record r { buffer = (split_at 8 r.buffer).1 } in
      unpacked Q (1 ∷ 1 ∷ 2 ∷ 4 ∷ []) (split_at 8 r.buffer).0 _ (λ x h. checked Q c v x.0 x.1.0 _ (
        bind-Settles (NotLonger r0) Q (read_counted_string r0 (x.1.1.1.0 - 8)) _
          (read_counted_string-Settles r0 (x.1.1.1.0 - 8))
          (λ u k.
            bind-Settles (NotLonger u.3) Q (read_counted_string u.3 u.2) _
              (read_counted_string-Settles u.3 u.2)
              (λ w l. sized Q (x.1.1.1.0 == 8 + 4 * 2 + u.0 + w.0) _ (
                bind-Settles Any Q (to_counted_string u.1) _ (to_counted_string-Settles u.1)
                  (λ first a.
                    bind-Settles Any Q (encode_utf8 w.1) _ (encode_utf8-Settles w.1) (λ message b.
                      bind-Settles Any Q (to_counted_string message) _
                        (to_counted_string-Settles message)
                        (λ second d.
                          same_wire-Settles _ _ _ (omega (arith, h, k, l, cut 8 r.buffer))))))))))
