-- ===== src/Rtr/Check.antt =====
-- rpki/rtr/pdus.py: the methods `check`, the limits of the timing parameters, and the factory of End
-- of Data PDUs.
use rpki_net.Prelude.{
  ℕ, zero, suc, ◌+◌, ◌*◌, ◌/◌, ◌&&◌, ◌||◌, List, Option, none, some, leb, ◌==◌, length,
}
use rpki_net.Result.{
  Result, ok, err, value_error, corrupt_data, not_implemented, guard, ◌>>=◌, ◌>>◌,
}
use rpki_net.Rtr.Pdu.{
  PduClass, Pdu, end_of_data_v0, end_of_data_v1, serial_content, timing_content, prefix_content,
  key_content, address_byte_count, wire,
}

-- `PrefixPDU.check`, for an address of `bits` bits; the result is the wire format, which it leaves
-- in the PDU. Lengths are not negative.
unfoldable pub check_prefix : PduClass → ℕ → ℕ → ℕ → ℕ → ℕ → ℕ → ℕ → Result (List ℕ)
check_prefix c version bits announce prefix prefixlen max_prefixlen asnum = do
  guard (announce == 0 || announce == 1) corrupt_data
  guard (bits == address_byte_count c * 8) corrupt_data
  guard (leb prefixlen bits) corrupt_data
  guard (leb prefixlen max_prefixlen && leb max_prefixlen bits) corrupt_data
  pdu ← wire c version none (prefix_content announce prefix prefixlen max_prefixlen asnum)
  guard (length pdu == 12 + bits / 8 + 4) corrupt_data
  ok pdu

-- `RouterKeyPDU.check`, likewise.
unfoldable pub check_key : PduClass → ℕ → ℕ → List ℕ → ℕ → List ℕ → Result (List ℕ)
check_key c version announce ski asnum key = do
  guard (announce == 0 || announce == 1) corrupt_data
  guard (length ski == 20) corrupt_data
  pdu ← wire c version none (key_content announce ski asnum key)
  guard (length pdu == 32 + length key) corrupt_data
  ok pdu

-- A value between two limits, or ValueError.
abbrev pub limited : ℕ → ℕ → ℕ → Result ℕ
limited low high n = do guard (leb low n && leb n high) value_error; ok n

unfoldable pub valid_refresh : ℕ → Result ℕ
valid_refresh = limited 120 86400

unfoldable pub valid_retry : ℕ → Result ℕ
valid_retry = limited 120 7200

unfoldable pub valid_expire : ℕ → Result ℕ
valid_expire = limited 600 172800

abbrev pub default_refresh : ℕ
default_refresh = 3600

abbrev pub default_retry : ℕ
default_retry = 600

abbrev pub default_expire : ℕ
default_expire = 7200

abbrev pub or_default : ℕ → Option ℕ → ℕ
or_default d none = d
or_default d (some n) = n

-- `refresh`, `retry` and `expire`
pub record Timing : Type 0 where
  pub refresh : ℕ
  pub retry : ℕ
  pub expire : ℕ

-- `EndOfDataPDUv0.__init__`, for the timing parameters.
unfoldable pub make_timing : Option ℕ → Option ℕ → Option ℕ → Result Timing
make_timing refresh retry expire = do
  refresh' ← valid_refresh (or_default default_refresh refresh)
  retry' ← valid_retry (or_default default_retry retry)
  expire' ← valid_expire (or_default default_expire expire)
  ok (record { refresh = refresh'; retry = retry'; expire = expire' })

-- `EndOfDataPDU`
unfoldable pub make_end_of_data : ℕ → ℕ → ℕ → Option ℕ → Option ℕ → Option ℕ → Result Pdu
make_end_of_data zero serial nonce refresh retry expire = do
  timing ← make_timing refresh retry expire
  ok (record { class_of = end_of_data_v0; version = 0; content = serial_content serial nonce })
make_end_of_data (suc zero) serial nonce refresh retry expire = do
  timing ← make_timing refresh retry expire
  ok (record {
    class_of = end_of_data_v1;
    version = 1;
    content = timing_content serial nonce timing.refresh timing.retry timing.expire;
  })
make_end_of_data (suc (suc version)) serial nonce refresh retry expire = err not_implemented
