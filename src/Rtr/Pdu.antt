-- ===== src/Rtr/Pdu.antt =====
-- rpki/rtr/pdus.py: the classes of PDUs, and the wire format that `to_pdu` generates. A PDU is a
-- value, of which the wire format is generated anew where the code may have it cached. A string is
-- the list of its bytes.
use rpki_net.Prelude.{
  ℕ, zero, suc, ◌+◌, ◌*◌, Bool, true, ◌&&◌, ◌||◌, List, [], ◌∷◌, ◌++◌, Option, some, none, ltb,
  ◌==◌, length, if◌then◌else◌,
}
use rpki_net.Result.{Result, ok, err, assertion_error, unicode_error, guard, ◌>>=◌, ◌>>◌}
use rpki_net.Rtr.Bytes.{to_bytes, split_at, pack}

pub data PduClass : Type 0 where
  serial_notify serial_query reset_query cache_response end_of_data_v0 : PduClass
  end_of_data_v1 cache_reset ipv4_prefix ipv6_prefix router_key error_report : PduClass

unfoldable pub pdu_type : PduClass → ℕ
pdu_type serial_notify = 0
pdu_type serial_query = 1
pdu_type reset_query = 2
pdu_type cache_response = 3
pdu_type ipv4_prefix = 4
pdu_type ipv6_prefix = 6
pdu_type end_of_data_v0 = 7
pdu_type end_of_data_v1 = 7
pdu_type cache_reset = 8
pdu_type router_key = 9
pdu_type error_report = 10

-- `PDU.version_map`, as the decorators fill it: the classes of a protocol version.
unfoldable pub version_map : ℕ → Option (List PduClass)
version_map zero = some (
    serial_notify ∷ serial_query ∷ reset_query ∷ cache_response ∷ end_of_data_v0 ∷ cache_reset
    ∷ ipv4_prefix ∷ ipv6_prefix ∷ error_report ∷ [])
version_map (suc zero) = some (
    serial_notify ∷ serial_query ∷ reset_query ∷ cache_response ∷ end_of_data_v1 ∷ cache_reset
    ∷ ipv4_prefix ∷ ipv6_prefix ∷ router_key ∷ error_report ∷ [])
version_map (suc (suc version)) = none

unfoldable pub find_class : ℕ → List PduClass → Option PduClass
find_class t [] = none
find_class t (c ∷ cs) = if pdu_type c == t then some c else find_class t cs

-- `cls.version_map[version][pdu_type]`
unfoldable pub pdu_class : ℕ → ℕ → Option PduClass
pdu_class version t = elim (version_map version) [ none ↦ none | some cs ↦ find_class t cs ]

-- The parent class that reads and writes the PDUs of a class.
pub data Base : Type 0 where
  with_serial with_nonce empty_pdu with_timing with_prefix with_key with_error : Base

unfoldable pub base : PduClass → Base
base serial_notify = with_serial
base serial_query = with_serial
base end_of_data_v0 = with_serial
base cache_response = with_nonce
base reset_query = empty_pdu
base cache_reset = empty_pdu
base end_of_data_v1 = with_timing
base ipv4_prefix = with_prefix
base ipv6_prefix = with_prefix
base router_key = with_key
base error_report = with_error

unfoldable pub address_byte_count : PduClass → ℕ
address_byte_count ipv4_prefix = 4
address_byte_count ipv6_prefix = 16
address_byte_count c = 0

-- The attributes of a PDU, by its parent class.
pub data Content : Type 0 where
  serial_content : (serial nonce : ℕ) → Content
  nonce_content : (nonce : ℕ) → Content
  empty_content : Content
  timing_content : (serial nonce refresh retry expire : ℕ) → Content
  prefix_content : (announce prefix prefixlen max_prefixlen asnum : ℕ) → Content
  key_content : (announce : ℕ) → (ski : List ℕ) → (asnum : ℕ) → (key : List ℕ) → Content
  error_content : (errno : ℕ) → (errpdu errmsg : List ℕ) → Content

pub record Pdu : Type 0 where
  pub class_of : PduClass
  pub version : ℕ
  pub content : Content

-- `assert announce is None`
abbrev pub no_announce : Option ℕ → Result (Unit {0})
no_announce none = ok tt
no_announce (some a) = err assertion_error

-- The announce flag that goes into the PDU.
abbrev pub announce_flag : Option ℕ → ℕ → Result ℕ
announce_flag none own = ok own
announce_flag (some a) own = do guard (a == 0 || a == 1) assertion_error; ok a

abbrev pub zeros : ℕ → List ℕ
zeros zero = []
zeros (suc n) = 0 ∷ zeros n

-- A field `20s` takes twenty bytes, with zeros at the end.
unfoldable pub pad_string : ℕ → List ℕ → List ℕ
pad_string n s = (split_at n (s ++ zeros n)).0

unfoldable pub to_counted_string : List ℕ → Result (List ℕ)
to_counted_string s = do size ← pack ((4, length s) ∷ []); ok (size ++ s)

abbrev pub is_ascii : List ℕ → Bool
is_ascii [] = true
is_ascii (b ∷ bs) = ltb b 128 && is_ascii bs

-- `s.encode("utf8")` of a string of bytes, which Python 2 decodes as ASCII first.
unfoldable pub encode_utf8 : List ℕ → Result (List ℕ)
encode_utf8 s = do guard (is_ascii s) unicode_error; ok s

-- `PDUWithSerial.to_pdu`
abbrev pub serial_to_pdu : PduClass → ℕ → Option ℕ → ℕ → ℕ → Result (List ℕ)
serial_to_pdu c version announce serial nonce = do
  no_announce announce
  pack ((1, version) ∷ (1, pdu_type c) ∷ (2, nonce) ∷ (4, 12) ∷ (4, serial) ∷ [])

-- `PDUWithNonce.to_pdu`
abbrev pub nonce_to_pdu : PduClass → ℕ → Option ℕ → ℕ → Result (List ℕ)
nonce_to_pdu c version announce nonce = do
  no_announce announce
  pack ((1, version) ∷ (1, pdu_type c) ∷ (2, nonce) ∷ (4, 8) ∷ [])

-- `PDUEmpty.to_pdu`
abbrev pub empty_to_pdu : PduClass → ℕ → Option ℕ → Result (List ℕ)
empty_to_pdu c version announce = do
  no_announce announce
  pack ((1, version) ∷ (1, pdu_type c) ∷ (2, 0) ∷ (4, 8) ∷ [])

-- `EndOfDataPDUv1.to_pdu`
abbrev pub timing_to_pdu : PduClass → ℕ → Option ℕ → ℕ → ℕ → ℕ → ℕ → ℕ → Result (List ℕ)
timing_to_pdu c version announce serial nonce refresh retry expire = do
  no_announce announce
  pack (
      (1, version)
      ∷ (1, pdu_type c)
      ∷ (2, nonce)
      ∷ (4, 24)
      ∷ (4, serial)
      ∷ (4, refresh)
      ∷ (4, retry)
      ∷ (4, expire)
      ∷ [])

-- `PrefixPDU.to_pdu`
abbrev pub prefix_to_pdu : PduClass → ℕ → Option ℕ → ℕ → ℕ → ℕ → ℕ → ℕ → Result (List ℕ)
prefix_to_pdu c version announce own prefix prefixlen max_prefixlen asnum = do
  flag ← announce_flag announce own
  let pdulen = 12 + address_byte_count c + 4
  header ← pack (
      (1, version)
      ∷ (1, pdu_type c)
      ∷ (2, 0)
      ∷ (4, pdulen)
      ∷ (1, flag)
      ∷ (1, prefixlen)
      ∷ (1, max_prefixlen)
      ∷ (1, 0)
      ∷ [])
  number ← pack ((4, asnum) ∷ [])
  ok (header ++ to_bytes (address_byte_count c) prefix ++ number)

-- `RouterKeyPDU.to_pdu`
abbrev pub key_to_pdu : PduClass → ℕ → Option ℕ → ℕ → List ℕ → ℕ → List ℕ → Result (List ℕ)
key_to_pdu c version announce own ski asnum key = do
  flag ← announce_flag announce own
  let pdulen = 32 + length key
  header ← pack ((1, version) ∷ (1, pdu_type c) ∷ (1, flag) ∷ (1, 0) ∷ (4, pdulen) ∷ [])
  number ← pack ((4, asnum) ∷ [])
  ok (header ++ pad_string 20 ski ++ number ++ key)

-- `ErrorReportPDU.to_pdu`
abbrev pub error_to_pdu : PduClass → ℕ → Option ℕ → ℕ → List ℕ → List ℕ → Result (List ℕ)
error_to_pdu c version announce errno errpdu errmsg = do
  no_announce announce
  let pdulen = 8 + 4 * 2 + length errpdu + length errmsg
  header ← pack ((1, version) ∷ (1, pdu_type c) ∷ (2, errno) ∷ (4, pdulen) ∷ [])
  first ← to_counted_string errpdu
  message ← encode_utf8 errmsg
  second ← to_counted_string message
  ok (header ++ first ++ second)

-- `to_pdu`, by class, version, `announce` and attributes.
unfoldable pub wire : PduClass → ℕ → Option ℕ → Content → Result (List ℕ)
wire c version announce (serial_content serial nonce) =
    serial_to_pdu c version announce serial nonce
wire c version announce (nonce_content nonce) = nonce_to_pdu c version announce nonce
wire c version announce empty_content = empty_to_pdu c version announce
wire c version announce (timing_content serial nonce refresh retry expire) =
    timing_to_pdu c version announce serial nonce refresh retry expire
wire c version announce (prefix_content own prefix prefixlen max_prefixlen asnum) =
    prefix_to_pdu c version announce own prefix prefixlen max_prefixlen asnum
wire c version announce (key_content own ski asnum key) =
    key_to_pdu c version announce own ski asnum key
wire c version announce (error_content errno errpdu errmsg) =
    error_to_pdu c version announce errno errpdu errmsg

unfoldable pub to_pdu : Option ℕ → Pdu → Result (List ℕ)
to_pdu announce p = wire p.class_of p.version announce p.content
