-- ===== src/Rtr/Body.antt =====
-- The methods `got_pdu` of each parent class on the bytes that its `to_pdu` generates.
use rpki_net.Prelude.{
  ℕ, ◌+◌, ◌^◌, ◌<◌, ◌≡◌, refl, true, ◌||◌, List, [], ◌∷◌, ◌++◌, arith, ◌==◌, length, ◌∙◌,
}
use rpki_net.Result.{ok}
use rpki_net.Rtr.Bytes.{
  to_bytes, bytes_eq-same, split_at-append, Fields, encode, length-encode, pack-Fields,
  unpack-encode, take_field-whole, length-to_bytes,
}
use mathlib.Core.List.{append_assoc}
use rpki_net.Rtr.Pdu.{
  PduClass, with_serial, with_nonce, empty_pdu, with_timing, with_prefix, serial_content,
  nonce_content, empty_content, timing_content, prefix_content, pdu_type, address_byte_count,
  to_pdu, wire,
}
use rpki_net.Rtr.Reader.{ReadBuffer, address_from_bytes, get, check_header, same_wire, read_body}

pub eq_same : (n : ℕ) → (n == n) ≡ true
eq_same n = ground arith

module _ (c : PduClass) (v : ℕ) where
  pub check_header-same : check_header c v v (pdu_type c) ≡ ok tt
  unfolding check_header
  check_header-same = rw (eq_same v, eq_same (pdu_type c)) refl

  module _ (serial nonce : ℕ) where
    abbrev pub serial_fields : List (ℕ × ℕ)
    serial_fields = (1, v) ∷ (1, pdu_type c) ∷ (2, nonce) ∷ (4, 12) ∷ (4, serial) ∷ []

    pub read_body-serial :
        (r : ReadBuffer) (rest : List ℕ)
        → Fields serial_fields
        → r.buffer ≡ encode serial_fields ++ rest
        → read_body with_serial c v r
          ≡ ok (
            record r { buffer = rest },
            record { class_of = c; version = v; content = serial_content serial nonce },
          )
    unfolding read_body get same_wire to_pdu wire
    read_body-serial r rest h e =
        rw
          (
            e,
            split_at-append 12 (encode serial_fields) rest (length-encode serial_fields),
            unpack-encode serial_fields h,
            check_header-same,
            pack-Fields serial_fields h,
            bytes_eq-same (encode serial_fields),
          )
          refl

  module _ (nonce : ℕ) where
    abbrev pub nonce_fields : List (ℕ × ℕ)
    nonce_fields = (1, v) ∷ (1, pdu_type c) ∷ (2, nonce) ∷ (4, 8) ∷ []

    pub read_body-nonce :
        (r : ReadBuffer) (rest : List ℕ)
        → Fields nonce_fields
        → r.buffer ≡ encode nonce_fields ++ rest
        → read_body with_nonce c v r
          ≡ ok (
            record r { buffer = rest },
            record { class_of = c; version = v; content = nonce_content nonce },
          )
    unfolding read_body get same_wire to_pdu wire
    read_body-nonce r rest h e =
        rw
          (
            e,
            split_at-append 8 (encode nonce_fields) rest (length-encode nonce_fields),
            unpack-encode nonce_fields h,
            check_header-same,
            pack-Fields nonce_fields h,
            bytes_eq-same (encode nonce_fields),
          )
          refl

  module _ (serial nonce refresh retry expire : ℕ) where
    abbrev pub timing_fields : List (ℕ × ℕ)
    timing_fields =
        (1, v)
        ∷ (1, pdu_type c)
        ∷ (2, nonce)
        ∷ (4, 24)
        ∷ (4, serial)
        ∷ (4, refresh)
        ∷ (4, retry)
        ∷ (4, expire)
        ∷ []

    pub read_body-timing :
        (r : ReadBuffer) (rest : List ℕ)
        → Fields timing_fields
        → r.buffer ≡ encode timing_fields ++ rest
        → read_body with_timing c v r
          ≡ ok (
            record r { buffer = rest },
            record {
              class_of = c;
              version = v;
              content = timing_content serial nonce refresh retry expire;
            },
          )
    unfolding read_body get same_wire to_pdu wire
    read_body-timing r rest h e =
        rw
          (
            e,
            split_at-append 24 (encode timing_fields) rest (length-encode timing_fields),
            unpack-encode timing_fields h,
            check_header-same,
            pack-Fields timing_fields h,
            bytes_eq-same (encode timing_fields),
          )
          refl

  abbrev pub empty_fields : List (ℕ × ℕ)
  empty_fields = (1, v) ∷ (1, pdu_type c) ∷ (2, 0) ∷ (4, 8) ∷ []

  pub read_body-empty :
      (r : ReadBuffer) (rest : List ℕ)
      → Fields empty_fields
      → r.buffer ≡ encode empty_fields ++ rest
      → read_body empty_pdu c v r
        ≡ ok (
          record r { buffer = rest },
          record { class_of = c; version = v; content = empty_content },
        )
  unfolding read_body get same_wire to_pdu wire
  read_body-empty r rest h e =
      rw
        (
          e,
          split_at-append 8 (encode empty_fields) rest (length-encode empty_fields),
          unpack-encode empty_fields h,
          check_header-same,
          pack-Fields empty_fields h,
          bytes_eq-same (encode empty_fields),
        )
        refl

  module _ (announce prefix prefixlen max_prefixlen asnum : ℕ) where
    abbrev pub width : ℕ
    width = address_byte_count c

    abbrev pub prefix_fields : List (ℕ × ℕ)
    prefix_fields =
        (1, v)
        ∷ (1, pdu_type c)
        ∷ (2, 0)
        ∷ (4, 12 + width + 4)
        ∷ (1, announce)
        ∷ (1, prefixlen)
        ∷ (1, max_prefixlen)
        ∷ (1, 0)
        ∷ []

    abbrev pub asn_fields : List (ℕ × ℕ)
    asn_fields = (4, asnum) ∷ []

    abbrev pub prefix_bytes : List ℕ
    prefix_bytes = encode prefix_fields ++ to_bytes width prefix ++ encode asn_fields

    address_from_bytes-to_bytes :
        prefix < 256 ^ width
        → ((width == 4) || (width == 16)) ≡ true
        → address_from_bytes (to_bytes width prefix) ≡ ok prefix
    unfolding address_from_bytes
    address_from_bytes-to_bytes h w =
        rw (length-to_bytes width prefix, w, take_field-whole width prefix h) refl

    pub read_body-prefix :
        (r : ReadBuffer) (rest : List ℕ)
        → Fields prefix_fields
        → Fields asn_fields
        → prefix < 256 ^ width
        → ((width == 4) || (width == 16)) ≡ true
        → r.buffer ≡ prefix_bytes ++ rest
        → read_body with_prefix c v r
          ≡ ok (
            record r { buffer = rest },
            record {
              class_of = c;
              version = v;
              content = prefix_content announce prefix prefixlen max_prefixlen asnum;
            },
          )
    unfolding read_body get same_wire to_pdu wire
    read_body-prefix r rest h ha hp hw e =
        let split : r.buffer
            ≡ encode prefix_fields ++ (to_bytes width prefix ++ (encode asn_fields ++ rest)) =
          e
          ∙ append_assoc (encode prefix_fields ++ to_bytes width prefix) (encode asn_fields) rest
          ∙ append_assoc (encode prefix_fields) (to_bytes width prefix)
              (encode asn_fields ++ rest) in
        let size : (12 + width + 4
              == length (encode prefix_fields)
                + length (to_bytes width prefix)
                + length (encode asn_fields))
            ≡ true =
          rw (length-encode prefix_fields, length-encode asn_fields, length-to_bytes width prefix)
            (eq_same (12 + width + 4)) in
        rw
          (
            split,
            split_at-append 12 (encode prefix_fields)
                (to_bytes width prefix ++ (encode asn_fields ++ rest))
                (length-encode prefix_fields),
            split_at-append width (to_bytes width prefix) (encode asn_fields ++ rest)
                (length-to_bytes width prefix),
            split_at-append 4 (encode asn_fields) rest (length-encode asn_fields),
            unpack-encode prefix_fields h,
            check_header-same,
            size,
            address_from_bytes-to_bytes hp hw,
            unpack-encode asn_fields ha,
            pack-Fields prefix_fields h,
            pack-Fields asn_fields ha,
            bytes_eq-same prefix_bytes,
          )
          refl
