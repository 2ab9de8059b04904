-- ===== src/Rtr/Sound.antt =====
-- What `read_pdu` returns: the bytes that it took are what `to_pdu` generates for the PDU.
use rpki_net.Prelude.{
  ℕ, ◌+◌, ◌-◌, ltb, length, ◌≡◌, ◌≢◌, refl, List, [], ◌∷◌, ◌++◌, Option, some, none, Bool-cases,
  inl, inr, arith, ap, sym, ◌∙◌, ◌==◌, subst,
}
use rpki_net.Result.{
  ok, guard, assertion_error, corrupt_data, type_error, ◌>>=◌, >>=-eq-ok, IfReturns, after_step,
  ok-injective,
}
use rpki_net.Rtr.Bytes.{
  split_at, unpack, bytes_eq, split_at-join, split_at-join2, split_at-join3, bytes_eq_sound,
}
use rpki_net.Rtr.Pdu.{
  PduClass, Pdu, Base, with_serial, with_nonce, empty_pdu, with_timing, with_prefix, with_key,
  with_error, base, to_pdu, address_byte_count,
}
use rpki_net.Rtr.Reader.{
  ReadBuffer, read_body, got_pdu, ready, get, same_wire, check_header, address_from_bytes,
}

-- The PDU whose bytes have been taken from the buffer `r`, which leaves `r'`.
pub record IsTaken (v : ℕ) (r r' : ReadBuffer) (p : Pdu) : Type 0 where
  pub version : p.version ≡ v
  pub kept : r'.version ≡ r.version
  pub bytes : List ℕ
  pub made : to_pdu none p ≡ ok bytes
  pub taken : r.buffer ≡ bytes ++ r'.buffer

same_wire_sound :
    (v : ℕ) (r r1 : ReadBuffer) (b : List ℕ) (p : Pdu)
    → p.version ≡ v
    → r1.version ≡ r.version
    → r.buffer ≡ b ++ r1.buffer
    → IfReturns (λ u. IsTaken v r u.0 u.1) (same_wire b p r1)
unfolding same_wire
same_wire_sound v r r1 b p ev er eb = record {
  result = λ u e.
      let (again, made, e1) = >>=-eq-ok (to_pdu none p) _ e in
      let (_, same, e2) = >>=-eq-ok (guard (bytes_eq b again) assertion_error) _ e1 in
      let bytes : b ≡ again = bytes_eq_sound b again (ground (arith, same)) in
      subst (λ (w : ReadBuffer × Pdu). IsTaken v r w.0 w.1) (ok-injective e2)
        (record { version = ev; kept = er; bytes = again; made = made; taken = rw (sym bytes) eb });
}

read_body_sound :
    (k : Base) (c : PduClass) (v : ℕ) (r : ReadBuffer)
    → k ≢ with_error
    → IfReturns (λ u. IsTaken v r u.0 u.1) (read_body k c v r)
unfolding read_body get
read_body_sound with_serial c v r n =
    after_step _ (unpack (1 ∷ 1 ∷ 2 ∷ 4 ∷ 4 ∷ []) (split_at 12 r.buffer).0) _ (λ x.
      after_step _ (check_header c v x.0 x.1.0) _ (λ y.
        after_step _ (guard (x.1.1.1.0 == 12) corrupt_data) _
          (λ z. same_wire_sound v r _ _ _ refl refl (sym (split_at-join 12 r.buffer)))))
read_body_sound with_nonce c v r n =
    after_step _ (unpack (1 ∷ 1 ∷ 2 ∷ 4 ∷ []) (split_at 8 r.buffer).0) _ (λ x.
      after_step _ (check_header c v x.0 x.1.0) _ (λ y.
        after_step _ (guard (x.1.1.1.0 == 8) corrupt_data) _
          (λ z. same_wire_sound v r _ _ _ refl refl (sym (split_at-join 8 r.buffer)))))
read_body_sound empty_pdu c v r n =
    after_step _ (unpack (1 ∷ 1 ∷ 2 ∷ 4 ∷ []) (split_at 8 r.buffer).0) _ (λ x.
      after_step _ (check_header c v x.0 x.1.0) _ (λ y.
        after_step _ (guard (x.1.1.0 == 0) type_error) _ (λ z.
          after_step _ (guard (x.1.1.1.0 == 8) corrupt_data) _
            (λ z. same_wire_sound v r _ _ _ refl refl (sym (split_at-join 8 r.buffer))))))
read_body_sound with_timing c v r n =
    after_step _ (unpack (1 ∷ 1 ∷ 2 ∷ 4 ∷ 4 ∷ 4 ∷ 4 ∷ 4 ∷ []) (split_at 24 r.buffer).0) _ (λ x.
      after_step _ (check_header c v x.0 x.1.0) _ (λ y.
        after_step _ (guard (x.1.1.1.0 == 24) corrupt_data) _
          (λ z. same_wire_sound v r _ _ _ refl refl (sym (split_at-join 24 r.buffer)))))
read_body_sound with_prefix c v r n =
    let b1 = split_at 12 r.buffer in
    let b2 = split_at (address_byte_count c) b1.1 in
    let b3 = split_at 4 b2.1 in
    after_step _ (unpack (1 ∷ 1 ∷ 2 ∷ 4 ∷ 1 ∷ 1 ∷ 1 ∷ 1 ∷ []) b1.0) _ (λ x.
      after_step _ (check_header c v x.0 x.1.0) _ (λ y.
        after_step _ (guard (x.1.1.1.0 == length b1.0 + length b2.0 + length b3.0) corrupt_data) _
          (λ z. after_step _ (address_from_bytes b2.0) _ (λ prefix.
            after_step _ (unpack (4 ∷ []) b3.0) _ (λ asnum.
              same_wire_sound v r _ _ _ refl refl
                (split_at-join3 12 (address_byte_count c) 4 r.buffer))))))
read_body_sound with_key c v r n =
    let b = split_at 32 r.buffer in
    let front = split_at 8 b.0 in
    let back = split_at 20 front.1 in
    after_step _ (unpack (1 ∷ 1 ∷ 1 ∷ 1 ∷ 4 ∷ []) front.0) _ (λ x.
      after_step _ (unpack (4 ∷ []) back.1) _ (λ asnum.
        after_step _ (check_header c v x.0 x.1.0) _ (λ y.
          after_step _ (guard (ltb 32 x.1.1.1.1.0) corrupt_data) _ (λ z.
            same_wire_sound v r _ _ _ refl refl (split_at-join2 32 (x.1.1.1.1.0 - 32) r.buffer)))))
read_body_sound with_error c v r n = absurd (n refl)

pdu_or : Pdu → Option Pdu → Pdu
pdu_or d none = d
pdu_or d (some p) = p

some_injective : {p q : Pdu} → some p ≡ some q → p ≡ q
unfolding pdu_or
some_injective {p} e = ap (pdu_or p) e

-- Whatever PDU the `got_pdu` of a class other than the Error Report returns, the bytes that it took
-- off the buffer are just those that `to_pdu` generates for that PDU; the PDU has the version of the
-- object, and the version of the buffer stays as it is.
pub got_pdu_sound :
    (c : PduClass) (v : ℕ) (r r' : ReadBuffer) (p : Pdu)
    → base c ≢ with_error
    → got_pdu c v r ≡ ok (r', some p)
    → IsTaken v r r' p
unfolding got_pdu
got_pdu_sound c v r r' p n e = elim (Bool-cases (ready r)) [
  | inl now ↦
      let step : got_pdu c v r ≡ (read_body (base c) c v r >>= λ u. ok (u.0, some u.1)) =
        rw (now, got_pdu) refl in
      let (u, eu, e2) =
        >>=-eq-ok (read_body (base c) c v r) (λ u. ok (u.0, some u.1)) (sym step ∙ e) in
      let pair : (u.0, some u.1) ≡ (r', some p) = ok-injective e2 in
      let buffer : u.0 ≡ r' = ap (λ w. w.0) pair in
      let pdu : u.1 ≡ p = some_injective (ap (λ w. w.1) pair) in
      subst (λ q. IsTaken v r r' q) pdu
        (subst (λ b. IsTaken v r b u.1) buffer ((read_body_sound (base c) c v r n).result u eu))
  | inr wait ↦
      let step : got_pdu c v r ≡ ok (r, none) = rw (wait, got_pdu) refl in
      let pair : (r, none) ≡ (r', some p) = ok-injective (sym step ∙ e) in
      let none_some : none ≡ some p = ap (λ w. w.1) pair in cc
]
