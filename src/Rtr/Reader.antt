-- ===== src/Rtr/Reader.antt =====
-- rpki/rtr/channels.py, `ReadBuffer`, and the reading half of rpki/rtr/pdus.py.
use rpki_net.Prelude.{
  ℕ, ◌+◌, ◌*◌, ◌-◌, Bool, true, false, List, [], ◌∷◌, ◌++◌, Option, some, none, ltb, leb, ◌==◌,
  ◌&&◌, ◌||◌, length,
}
use rpki_net.Result.{
  Result, ok, err, assertion_error, corrupt_data, pow_error, type_error, unsupported_pdu_type,
  unsupported_protocol_version, guard, ◌>>=◌, ◌>>◌,
}
use rpki_net.Rtr.Bytes.{split_at, take_field, unpack, bytes_eq}
use rpki_net.Rtr.Pdu.{
  PduClass, Pdu, Base, with_serial, with_nonce, empty_pdu, with_timing, with_prefix, with_key,
  with_error, serial_content, nonce_content, empty_content, timing_content, prefix_content,
  key_content, error_content, base, pdu_type, pdu_class, version_map, address_byte_count, to_pdu,
  to_counted_string, encode_utf8,
}

-- `got_header`, or `got_pdu` of a new object of a class and a version.
pub data Callback : Type 0 where
  header : Callback
  body : PduClass → ℕ → Callback

pub record ReadBuffer : Type 0 where
  pub buffer : List ℕ
  pub version : Option ℕ
  pub need : ℕ
  pub callback : Option Callback

-- `__init__`; the count, which is None there, is not read before `update` sets it.
unfoldable pub new_buffer : ReadBuffer
new_buffer = record { buffer = []; version = none; need = 0; callback = none }

unfoldable pub available : ReadBuffer → ℕ
available r = length r.buffer

unfoldable pub ready : ReadBuffer → Bool
ready r = leb r.need (available r)

unfoldable pub get : ℕ → ReadBuffer → List ℕ × ReadBuffer
get n r = let parts = split_at n r.buffer in (parts.0, record r { buffer = parts.1 })

unfoldable pub put : List ℕ → ReadBuffer → ReadBuffer
put b r = record r { buffer = r.buffer ++ b }

unfoldable pub check_version : ℕ → ReadBuffer → Result ReadBuffer
check_version version r = elim r.version [
  | some known ↦ do guard (version == known) corrupt_data; ok (record r { version = some version })
  | none ↦ elim (version_map version) [
    | none ↦ err unsupported_protocol_version
    | some classes ↦ ok (record r { version = some version })
  ]
]

-- What ends the methods `got_pdu`: the wire format has to come out again.
unfoldable pub same_wire : List ℕ → Pdu → ReadBuffer → Result (ReadBuffer × Pdu)
same_wire b p r = do again ← to_pdu none p; guard (bytes_eq b again) assertion_error; ok (r, p)

-- `assert version == self.version and pdu_type == self.pdu_type`
unfoldable pub check_header : PduClass → ℕ → ℕ → ℕ → Result (Unit {0})
check_header c self_version version t =
    guard (version == self_version && t == pdu_type c) assertion_error

-- `IPAddress.fromBytes`, of ext/POW.c
unfoldable pub address_from_bytes : List ℕ → Result ℕ
address_from_bytes b = do
  guard (length b == 4 || length b == 16) pow_error
  elim (take_field (length b) 0 b) [ none ↦ err pow_error | some (n, rest) ↦ ok n ]

-- `read_counted_string`
unfoldable pub read_counted_string : ReadBuffer → ℕ → Result (ℕ × List ℕ × ℕ × ReadBuffer)
read_counted_string r remaining = do
  guard (leb 4 remaining) assertion_error
  let first = get 4 r
  (n, done) ← unpack (4 ∷ []) first.0
  guard (leb (4 + n) remaining) assertion_error
  let second = get n first.1
  ok (n, second.0, remaining - 4 - n, second.1)

-- The methods `got_pdu` once the reader is ready; `v` is the version of the object.

-- `PDUWithSerial.got_pdu`
abbrev pub read_serial : PduClass → ℕ → ReadBuffer → Result (ReadBuffer × Pdu)
read_serial c v r = do
  let b = get 12 r
  (version, (t, (nonce, (size, (serial, done))))) ← unpack (1 ∷ 1 ∷ 2 ∷ 4 ∷ 4 ∷ []) b.0
  check_header c v version t
  guard (size == 12) corrupt_data
  same_wire b.0 (record { class_of = c; version = v; content = serial_content serial nonce }) b.1

-- `PDUWithNonce.got_pdu`
abbrev pub read_nonce : PduClass → ℕ → ReadBuffer → Result (ReadBuffer × Pdu)
read_nonce c v r = do
  let b = get 8 r
  (version, (t, (nonce, (size, done)))) ← unpack (1 ∷ 1 ∷ 2 ∷ 4 ∷ []) b.0
  check_header c v version t
  guard (size == 8) corrupt_data
  same_wire b.0 (record { class_of = c; version = v; content = nonce_content nonce }) b.1

-- `PDUEmpty.got_pdu`
abbrev pub read_empty : PduClass → ℕ → ReadBuffer → Result (ReadBuffer × Pdu)
read_empty c v r = do
  let b = get 8 r
  (version, (t, (nothing, (size, done)))) ← unpack (1 ∷ 1 ∷ 2 ∷ 4 ∷ []) b.0
  check_header c v version t
  guard (nothing == 0) type_error
  guard (size == 8) corrupt_data
  same_wire b.0 (record { class_of = c; version = v; content = empty_content }) b.1

-- `EndOfDataPDUv1.got_pdu`
abbrev pub read_timing : PduClass → ℕ → ReadBuffer → Result (ReadBuffer × Pdu)
read_timing c v r = do
  let b = get 24 r
  (version, (t, (nonce, (size, (serial, (refresh, (retry, (expire, done)))))))) ←
      unpack (1 ∷ 1 ∷ 2 ∷ 4 ∷ 4 ∷ 4 ∷ 4 ∷ 4 ∷ []) b.0
  check_header c v version t
  guard (size == 24) corrupt_data
  same_wire b.0
      (record {
        class_of = c;
        version = v;
        content = timing_content serial nonce refresh retry expire;
      })
      b.1

-- `PrefixPDU.got_pdu`
abbrev pub read_prefix : PduClass → ℕ → ReadBuffer → Result (ReadBuffer × Pdu)
read_prefix c v r = do
  let b1 = get 12 r
  let b2 = get (address_byte_count c) b1.1
  let b3 = get 4 b2.1
  (version, (t, (pad, (size, (announce, (prefixlen, (max_prefixlen, (pad', done)))))))) ←
      unpack (1 ∷ 1 ∷ 2 ∷ 4 ∷ 1 ∷ 1 ∷ 1 ∷ 1 ∷ []) b1.0
  check_header c v version t
  guard (size == length b1.0 + length b2.0 + length b3.0) corrupt_data
  prefix ← address_from_bytes b2.0
  (asnum, done') ← unpack (4 ∷ []) b3.0
  same_wire (b1.0 ++ b2.0 ++ b3.0)
      (record {
        class_of = c;
        version = v;
        content = prefix_content announce prefix prefixlen max_prefixlen asnum;
      })
      b3.1

-- `RouterKeyPDU.got_pdu`
abbrev pub read_key : PduClass → ℕ → ReadBuffer → Result (ReadBuffer × Pdu)
read_key c v r = do
  let b = get 32 r
  let front = split_at 8 b.0
  let back = split_at 20 front.1
  (version, (t, (announce, (pad, (size, done))))) ← unpack (1 ∷ 1 ∷ 1 ∷ 1 ∷ 4 ∷ []) front.0
  (asnum, done') ← unpack (4 ∷ []) back.1
  check_header c v version t
  guard (ltb 32 size) corrupt_data
  let key = get (size - 32) b.1
  same_wire (b.0 ++ key.0)
      (record { class_of = c; version = v; content = key_content announce back.0 asnum key.0 })
      key.1

-- `ErrorReportPDU.got_pdu`
abbrev pub read_error : PduClass → ℕ → ReadBuffer → Result (ReadBuffer × Pdu)
read_error c v r = do
  let b = get 8 r
  (version, (t, (errno, (size, done)))) ← unpack (1 ∷ 1 ∷ 2 ∷ 4 ∷ []) b.0
  check_header c v version t
  (pdulen, errpdu, remaining, r1) ← read_counted_string b.1 (size - 8)
  (errlen, errmsg, remaining', r2) ← read_counted_string r1 remaining
  guard (size == 8 + 4 * 2 + pdulen + errlen) corrupt_data
  first ← to_counted_string errpdu
  message ← encode_utf8 errmsg
  second ← to_counted_string message
  same_wire (b.0 ++ first ++ second)
      (record { class_of = c; version = v; content = error_content errno errpdu errmsg }) r2

unfoldable pub read_body : Base → PduClass → ℕ → ReadBuffer → Result (ReadBuffer × Pdu)
read_body with_serial c v r = read_serial c v r
read_body with_nonce c v r = read_nonce c v r
read_body empty_pdu c v r = read_empty c v r
read_body with_timing c v r = read_timing c v r
read_body with_prefix c v r = read_prefix c v r
read_body with_key c v r = read_key c v r
read_body with_error c v r = read_error c v r

-- The methods `got_pdu`.
unfoldable pub got_pdu : PduClass → ℕ → ReadBuffer → Result (ReadBuffer × Option Pdu)
got_pdu c v r = elim (ready r) [
  | false ↦ ok (r, none)
  | true ↦ do (r', p) ← read_body (base c) c v r; ok (r', some p)
]

-- `got_header`, with the call of `got_pdu` that `reader.update` ends with.
unfoldable pub got_header : ReadBuffer → Result (ReadBuffer × Option Pdu)
got_header r = elim (ready r) [
  | false ↦ ok (r, none)
  | true ↦ do
    guard (leb 8 (available r)) assertion_error
    (version, (t, (pad, (size, done)))) ← unpack (1 ∷ 1 ∷ 2 ∷ 4 ∷ []) (split_at 8 r.buffer).0
    r' ← check_version version r
    elim (pdu_class version t) [
      | none ↦ err unsupported_pdu_type
      | some c ↦ do
        guard (leb 8 size) corrupt_data
        got_pdu c version (record r' { need = size; callback = some (body c version) })
    ]
]

unfoldable pub retry : ReadBuffer → Result (ReadBuffer × Option Pdu)
retry r = elim r.callback [
  | none ↦ err type_error
  | some header ↦ got_header r
  | some (body c v) ↦ got_pdu c v r
]

unfoldable pub update : ℕ → Callback → ReadBuffer → Result (ReadBuffer × Option Pdu)
update need callback r = retry (record r { need = need; callback = some callback })

unfoldable pub read_pdu : ReadBuffer → Result (ReadBuffer × Option Pdu)
read_pdu r = update 8 header r
