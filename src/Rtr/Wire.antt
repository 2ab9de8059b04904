-- ===== src/Rtr/Wire.antt =====
-- PDUs whose attributes are in range, and what makes their bytes readable.
use rpki_net.Prelude.{
  ℕ, ◌+◌, ◌*◌, ◌^◌, ◌<◌, ◌≡◌, true, List, [], ◌∷◌, ◌++◌, arith, some, none, length,
}
use rpki_net.Result.{ok}
use rpki_net.Rtr.Bytes.{Fields, encode}
use rpki_net.Rtr.Pdu.{
  PduClass, Pdu, Content, with_serial, with_nonce, empty_pdu, with_timing, with_prefix, with_key,
  with_error, is_ascii, serial_content, nonce_content, empty_content, timing_content,
  prefix_content, key_content, error_content, serial_notify, serial_query, reset_query,
  cache_response, end_of_data_v0, end_of_data_v1, cache_reset, ipv4_prefix, ipv6_prefix, router_key,
  error_report, base, pdu_type, pdu_class, address_byte_count, wire,
}
use rpki_net.Rtr.Reader.{ReadBuffer, read_body}

pub pdu_type-lt : (c : PduClass) → pdu_type c < 256 ^ 1
unfolding pdu_type
pdu_type-lt serial_notify = omega arith
pdu_type-lt serial_query = omega arith
pdu_type-lt reset_query = omega arith
pdu_type-lt cache_response = omega arith
pdu_type-lt end_of_data_v0 = omega arith
pdu_type-lt end_of_data_v1 = omega arith
pdu_type-lt cache_reset = omega arith
pdu_type-lt ipv4_prefix = omega arith
pdu_type-lt ipv6_prefix = omega arith
pdu_type-lt router_key = omega arith
pdu_type-lt error_report = omega arith

-- The attributes of a PDU are in range, and belong to its class. A key identifier has twenty bytes,
-- there is a key, and the text of an Error Report is ASCII.
abbrev pub FitsClass : PduClass → Content → Type 0
FitsClass c (serial_content serial nonce) =
    (base c ≡ with_serial) × (serial < 256 ^ 4) × (nonce < 256 ^ 2)
FitsClass c (nonce_content nonce) = (base c ≡ with_nonce) × (nonce < 256 ^ 2)
FitsClass c empty_content = base c ≡ empty_pdu
FitsClass c (timing_content serial nonce refresh wait expire) =
    (base c ≡ with_timing)
    × (serial < 256 ^ 4)
    × (nonce < 256 ^ 2)
    × (refresh < 256 ^ 4)
    × (wait < 256 ^ 4)
    × (expire < 256 ^ 4)
FitsClass c (prefix_content announce prefix prefixlen max_prefixlen asnum) =
    (base c ≡ with_prefix)
    × (announce < 256 ^ 1)
    × (prefix < 256 ^ address_byte_count c)
    × (prefixlen < 256 ^ 1)
    × (max_prefixlen < 256 ^ 1)
    × (asnum < 256 ^ 4)
FitsClass c (key_content announce ski asnum key) =
    (base c ≡ with_key)
    × (announce < 256 ^ 1)
    × (length ski ≡ 20)
    × (asnum < 256 ^ 4)
    × (0 < length key)
    × (32 + length key < 256 ^ 4)
FitsClass c (error_content errno errpdu errmsg) =
    (base c ≡ with_error)
    × (errno < 256 ^ 2)
    × (is_ascii errmsg ≡ true)
    × (8 + 4 * 2 + length errpdu + length errmsg < 256 ^ 4)

-- A PDU of a class that its version has, with attributes in range.
pub record IsFit (p : Pdu) : Type 0 where
  pub known : pdu_class p.version (pdu_type p.class_of) ≡ some p.class_of
  pub fits : FitsClass p.class_of p.content

abbrev pub header_fields : PduClass → ℕ → ℕ → ℕ → List (ℕ × ℕ)
header_fields c v x n = (1, v) ∷ (1, pdu_type c) ∷ (2, x) ∷ (4, n) ∷ []

-- What the reading relies on: the bytes begin with a header that tells their number, and `got_pdu`
-- gives the PDU back.
pub record IsWire (c : PduClass) (v : ℕ) (content : Content) (bs : List ℕ) : Type 0 where
  pub x : ℕ
  pub tail : List ℕ
  pub starts : bs ≡ encode (header_fields c v x (length bs)) ++ tail
  pub fits : Fields (header_fields c v x (length bs))
  pub made : wire c v none content ≡ ok bs
  pub back :
      (r : ReadBuffer) (rest : List ℕ)
      → r.buffer ≡ bs ++ rest
      → read_body (base c) c v r
        ≡ ok (record r { buffer = rest }, record { class_of = c; version = v; content = content })
