-- ===== src/Rtr/Examples.antt =====
-- The theorems on PDUs at concrete inputs, and runs of the reader.
use rpki_net.Prelude.{ℕ, ◌≡◌, ◌≢◌, refl, List, [], ◌∷◌, ◌++◌, none, some, arith}
use rpki_net.Result.{ok, err, Returns, type_error, unicode_error, unsupported_protocol_version}
use rpki_net.Rtr.Bytes.{to_bytes, split_at, take_field, pack, unpack, bytes_eq}
use rpki_net.Rtr.Pdu.{
  Pdu, with_error, ipv4_prefix, prefix_content, pdu_type, version_map, find_class, pdu_class, base,
  address_byte_count, to_counted_string, encode_utf8, wire, to_pdu,
}
use rpki_net.Rtr.Reader.{
  ReadBuffer, new_buffer, available, ready, get, put, check_version, same_wire, check_header,
  address_from_bytes, read_counted_string, read_body, got_pdu, got_header, retry, update, read_pdu,
}
use rpki_net.Rtr.Sound.{IsTaken, got_pdu_sound}
use rpki_net.Rtr.Wire.{IsFit}
use rpki_net.Rtr.RoundTrip.{after_pdu, read_pdu-to_pdu, retry-put}

program : Unit {0}
unfolding to_bytes split_at take_field pack unpack bytes_eq pdu_type version_map find_class
    pdu_class base address_byte_count to_counted_string encode_utf8 wire to_pdu new_buffer available
    ready get put check_version same_wire check_header address_from_bytes read_counted_string
    read_body got_pdu got_header retry update read_pdu
program = tt

-- 10.0.0.0/8-16 of AS 64496, announced
abbrev announced : Pdu
announced = record {
  class_of = ipv4_prefix;
  version = 1;
  content = prefix_content 1 167772160 8 16 64496;
}

abbrev announced_bytes : List ℕ
announced_bytes =
    1 ∷ 4 ∷ 0 ∷ 0 ∷ 0 ∷ 0 ∷ 0 ∷ 20 ∷ 1 ∷ 8 ∷ 16 ∷ 0 ∷ 10 ∷ 0 ∷ 0 ∷ 0 ∷ 0 ∷ 0 ∷ 251 ∷ 240 ∷ []

announced_runs : to_pdu none announced ≡ ok announced_bytes
unfolding program
announced_runs = refl

announced-IsFit : IsFit announced
unfolding program
announced-IsFit = record {
  known = refl;
  fits = (refl, omega arith, omega arith, omega arith, omega arith, omega arith);
}

read_pdu-to_pdu_example : Returns (to_pdu none announced) (λ bs.
    read_pdu (record { buffer = bs ++ 7 ∷ []; version = none; need = 0; callback = none })
    ≡ ok (after_pdu announced bs (7 ∷ []), some announced))
read_pdu-to_pdu_example =
    read_pdu-to_pdu announced (record { buffer = []; version = none; need = 0; callback = none })
      announced-IsFit tt (7 ∷ [])

abbrev first_part : List ℕ
first_part = 1 ∷ 4 ∷ 0 ∷ 0 ∷ 0 ∷ 0 ∷ 0 ∷ 20 ∷ 1 ∷ []

abbrev second_part : List ℕ
second_part = 8 ∷ 16 ∷ 0 ∷ 10 ∷ 0 ∷ 0 ∷ 0 ∷ 0 ∷ 0 ∷ 251 ∷ 240 ∷ 7 ∷ []

retry-put_example :
    (r : ReadBuffer) × (read_pdu
        (record { buffer = first_part; version = none; need = 0; callback = none })
      ≡ ok (r, none))
    × (r.buffer ≡ first_part)
    × (retry (put second_part r)
        ≡ ok (after_pdu announced announced_bytes (7 ∷ []), some announced))
retry-put_example =
    retry-put announced (record { buffer = []; version = none; need = 0; callback = none })
      announced-IsFit tt announced_bytes first_part second_part (7 ∷ []) announced_runs refl
      (omega arith)

-- A Reset Query whose zero field is not zero.
nonzero_runs : read_pdu (put (1 ∷ 2 ∷ 0 ∷ 1 ∷ 0 ∷ 0 ∷ 0 ∷ 8 ∷ []) new_buffer) ≡ err type_error
unfolding program
nonzero_runs = refl

-- An Error Report whose text is e acute in UTF-8.
accent_runs :
    read_pdu (
      put
        (1 ∷ 10 ∷ 0 ∷ 2 ∷ 0 ∷ 0 ∷ 0 ∷ 18 ∷ 0 ∷ 0 ∷ 0 ∷ 0 ∷ 0 ∷ 0 ∷ 0 ∷ 2 ∷ 195 ∷ 169 ∷ [])
        new_buffer)
    ≡ err unicode_error
unfolding program
accent_runs = refl

version_runs :
    read_pdu (put (2 ∷ 2 ∷ 0 ∷ 0 ∷ 0 ∷ 0 ∷ 0 ∷ 8 ∷ []) new_buffer)
    ≡ err unsupported_protocol_version
unfolding program
version_runs = refl

abbrev arrived : ReadBuffer
arrived = record {
  buffer = announced_bytes ++ 7 ∷ [];
  version = some 1;
  need = 20;
  callback = none;
}

abbrev left_over : ReadBuffer
left_over = record { buffer = 7 ∷ []; version = some 1; need = 20; callback = none }

got_pdu_runs : got_pdu ipv4_prefix 1 arrived ≡ ok (left_over, some announced)
unfolding program
got_pdu_runs = refl

ipv4_prefix-base : base ipv4_prefix ≢ with_error
unfolding program
ipv4_prefix-base e = cc

got_pdu_sound_example : IsTaken 1 arrived left_over announced
got_pdu_sound_example =
    got_pdu_sound ipv4_prefix 1 arrived left_over announced ipv4_prefix-base got_pdu_runs
