-- ===== src/Rtr/Written.antt =====
-- The bytes that `to_pdu` generates for a PDU whose attributes are in range.
use rpki_net.Prelude.{
  ℕ, ◌+◌, ◌*◌, ◌/◌, ◌%◌, ◌∙◌, ◌^◌, ◌<◌, ◌≡◌, refl, true, ◌||◌, List, [], ◌∷◌, ◌++◌, arith, ◌==◌,
  length, length-append, ap, sym,
}
use mathlib.Core.List.{append_assoc}
use rpki_net.Rtr.Bytes.{to_bytes, Fields, encode, length-encode, length-to_bytes, pack-Fields}
use rpki_net.Rtr.Pdu.{
  PduClass, Content, with_prefix, serial_content, nonce_content, empty_content, timing_content,
  prefix_content, key_content, error_content, serial_notify, serial_query, reset_query,
  cache_response, end_of_data_v0, end_of_data_v1, cache_reset, ipv4_prefix, ipv6_prefix, router_key,
  error_report, base, address_byte_count, wire,
}
use rpki_net.Rtr.Body.{
  serial_fields, nonce_fields, empty_fields, timing_fields, prefix_fields, asn_fields, prefix_bytes,
  read_body-serial, read_body-nonce, read_body-empty, read_body-timing, read_body-prefix,
}
use rpki_net.Rtr.LongBody.{
  key_fields, key_asn, key_bytes, error_fields, error_bytes, count, counted, wire-key,
  read_body-key, wire-error, read_body-error,
}
use rpki_net.Rtr.Wire.{FitsClass, IsWire, header_fields, pdu_type-lt}

prefix_width :
    (c : PduClass)
    → base c ≡ with_prefix
    → (12 + address_byte_count c + 4 < 256 ^ 4)
      × (((address_byte_count c == 4) || (address_byte_count c == 16)) ≡ true)
unfolding base address_byte_count
prefix_width serial_notify e = cc
prefix_width serial_query e = cc
prefix_width reset_query e = cc
prefix_width cache_response e = cc
prefix_width end_of_data_v0 e = cc
prefix_width end_of_data_v1 e = cc
prefix_width cache_reset e = cc
prefix_width ipv4_prefix e = (omega arith, refl)
prefix_width ipv6_prefix e = (omega arith, refl)
prefix_width router_key e = cc
prefix_width error_report e = cc

length-prefix_bytes :
    (c : PduClass) (v announce prefix prefixlen max_prefixlen asnum : ℕ)
    → length (prefix_bytes c v announce prefix prefixlen max_prefixlen asnum)
      ≡ 12 + address_byte_count c + 4
length-prefix_bytes c v announce prefix prefixlen max_prefixlen asnum =
    let front : List ℕ = encode (prefix_fields c v announce prefix prefixlen max_prefixlen asnum) in
    let middle : List ℕ = to_bytes (address_byte_count c) prefix in
    let last : List ℕ = encode (asn_fields c v announce prefix prefixlen max_prefixlen asnum) in
    omega (
      arith,
      length-append (front ++ middle) last,
      length-append front middle,
      length-to_bytes (address_byte_count c) prefix,
      length-encode (prefix_fields c v announce prefix prefixlen max_prefixlen asnum),
      length-encode (asn_fields c v announce prefix prefixlen max_prefixlen asnum),
    )

module _ (c : PduClass) (v announce : ℕ) (ski : List ℕ) (asnum : ℕ) (key : List ℕ) where
  length-key_bytes :
      length ski ≡ 20 → length (key_bytes c v announce ski asnum key) ≡ 32 + length key
  length-key_bytes h =
      let head : List ℕ = encode (key_fields c v announce ski asnum key) in
      let number : List ℕ = encode (key_asn c v announce ski asnum key) in
      omega (
        arith,
        length-append (head ++ ski ++ number) key,
        length-append (head ++ ski) number,
        length-append head ski,
        length-encode (key_fields c v announce ski asnum key),
        length-encode (key_asn c v announce ski asnum key),
      )

  -- The flag and the pad after it are the two bytes that the header skips.
  key_bytes-header :
      key_bytes c v announce ski asnum key
      ≡ encode (header_fields c v (announce * 256) (32 + length key))
        ++ (ski ++ encode ((4, asnum) ∷ []) ++ key)
  unfolding to_bytes
  key_bytes-header =
      let high : announce * 256 / 256 % 256 ≡ announce % 256 = omega arith in
      let low : announce * 256 % 256 ≡ 0 = omega arith in rw (high, low) refl

module _ (c : PduClass) (v errno : ℕ) (errpdu errmsg : List ℕ) where
  length-error_bytes :
      length (error_bytes c v errno errpdu errmsg) ≡ 8 + 4 * 2 + length errpdu + length errmsg
  length-error_bytes =
      let head : List ℕ = encode (error_fields c v errno errpdu errmsg) in
      let first : List ℕ = encode (count c v errno errpdu errmsg errpdu) in
      let second : List ℕ = encode (count c v errno errpdu errmsg errmsg) in
      omega (
        arith,
        length-append (head ++ (first ++ errpdu)) (second ++ errmsg),
        length-append head (first ++ errpdu),
        length-append first errpdu,
        length-append second errmsg,
        length-encode (error_fields c v errno errpdu errmsg),
        length-encode (count c v errno errpdu errmsg errpdu),
        length-encode (count c v errno errpdu errmsg errmsg),
      )

pub content-IsWire :
    (c : PduClass) (v : ℕ) (content : Content)
    → v < 2
    → FitsClass c content
    → (bs : List ℕ) × IsWire c v content bs
unfolding wire to_bytes
content-IsWire c v (serial_content serial nonce) l h =
    let fs : Fields (serial_fields c v serial nonce) = omega (arith, pdu_type-lt c, h.1, h.2) in
    (
      encode (serial_fields c v serial nonce),
      record {
        x = nonce;
        tail = encode ((4, serial) ∷ []);
        starts = refl;
        fits = omega (arith, pdu_type-lt c, h.2);
        made = pack-Fields (serial_fields c v serial nonce) fs;
        back = λ r rest e. rw h.0 (read_body-serial c v serial nonce r rest fs e);
      },
    )
content-IsWire c v (nonce_content nonce) l h =
    let fs : Fields (nonce_fields c v nonce) = omega (arith, pdu_type-lt c, h.1) in
    (
      encode (nonce_fields c v nonce),
      record {
        x = nonce;
        tail = [];
        starts = refl;
        fits = omega (arith, pdu_type-lt c, h.1);
        made = pack-Fields (nonce_fields c v nonce) fs;
        back = λ r rest e. rw h.0 (read_body-nonce c v nonce r rest fs e);
      },
    )
content-IsWire c v empty_content l h =
    let fs : Fields (empty_fields c v) = omega (arith, pdu_type-lt c) in
    (
      encode (empty_fields c v),
      record {
        x = 0;
        tail = [];
        starts = refl;
        fits = omega (arith, pdu_type-lt c);
        made = pack-Fields (empty_fields c v) fs;
        back = λ r rest e. rw h (read_body-empty c v r rest fs e);
      },
    )
content-IsWire c v (timing_content serial nonce refresh wait expire) l h =
    let fs : Fields (timing_fields c v serial nonce refresh wait expire) =
      omega (arith, pdu_type-lt c, h.1, h.2, h.3, h.4, h.5) in
    (
      encode (timing_fields c v serial nonce refresh wait expire),
      record {
        x = nonce;
        tail = encode ((4, serial) ∷ (4, refresh) ∷ (4, wait) ∷ (4, expire) ∷ []);
        starts = refl;
        fits = omega (arith, pdu_type-lt c, h.2);
        made = pack-Fields (timing_fields c v serial nonce refresh wait expire) fs;
        back =
            λ r rest e. rw h.0 (read_body-timing c v serial nonce refresh wait expire r rest fs e);
      },
    )
content-IsWire c v (prefix_content announce prefix prefixlen max_prefixlen asnum) l h =
    let width : ℕ = address_byte_count c in
    let small = prefix_width c h.0 in
    let fs : Fields (prefix_fields c v announce prefix prefixlen max_prefixlen asnum) =
      omega (arith, pdu_type-lt c, h.1, h.3, h.4, small.0) in
    let bs : List ℕ = prefix_bytes c v announce prefix prefixlen max_prefixlen asnum in
    let last : List ℕ =
      encode ((1, announce) ∷ (1, prefixlen) ∷ (1, max_prefixlen) ∷ (1, 0) ∷ [])
      ++ to_bytes width prefix
      ++ encode ((4, asnum) ∷ []) in
    let size : length bs ≡ 12 + width + 4 =
      length-prefix_bytes c v announce prefix prefixlen max_prefixlen asnum in
    (
      bs,
      record {
        x = 0;
        tail = last;
        starts = ap (λ n. encode (header_fields c v 0 n) ++ last) (sym size);
        fits = omega (arith, pdu_type-lt c, size, small.0);
        made =
            rw
              (
                pack-Fields (prefix_fields c v announce prefix prefixlen max_prefixlen asnum) fs,
                pack-Fields (asn_fields c v announce prefix prefixlen max_prefixlen asnum)
                    (h.5, tt),
              )
              refl;
        back = λ r rest e. rw h.0 (
            read_body-prefix c v announce prefix prefixlen max_prefixlen asnum r rest fs (h.5, tt)
              h.2 small.1 e);
      },
    )
content-IsWire c v (key_content announce ski asnum key) l h =
    let fs : Fields (key_fields c v announce ski asnum key) =
      omega (arith, pdu_type-lt c, h.1, h.5) in
    let bs : List ℕ = key_bytes c v announce ski asnum key in
    let last : List ℕ = ski ++ encode ((4, asnum) ∷ []) ++ key in
    let size : length bs ≡ 32 + length key = length-key_bytes c v announce ski asnum key h.2 in
    (
      bs,
      record {
        x = announce * 256;
        tail = last;
        starts =
            key_bytes-header c v announce ski asnum key
            ∙ ap (λ n. encode (header_fields c v (announce * 256) n) ++ last) (sym size);
        fits = omega (arith, pdu_type-lt c, h.1, size, h.5);
        made = wire-key c v announce ski asnum key fs (h.3, tt) h.2;
        back = λ r rest e.
            rw h.0 (read_body-key c v announce ski asnum key r rest fs (h.3, tt) h.2 h.4 e);
      },
    )
content-IsWire c v (error_content errno errpdu errmsg) l h =
    let fs : Fields (error_fields c v errno errpdu errmsg) =
      omega (arith, pdu_type-lt c, h.1, h.3) in
    let bs : List ℕ = error_bytes c v errno errpdu errmsg in
    let last : List ℕ =
      counted c v errno errpdu errmsg errpdu ++ counted c v errno errpdu errmsg errmsg in
    let size : length bs ≡ 8 + 4 * 2 + length errpdu + length errmsg =
      length-error_bytes c v errno errpdu errmsg in
    (
      bs,
      record {
        x = errno;
        tail = last;
        starts =
            append_assoc (encode (error_fields c v errno errpdu errmsg))
              (counted c v errno errpdu errmsg errpdu) (counted c v errno errpdu errmsg errmsg)
            ∙ ap (λ n. encode (header_fields c v errno n) ++ last) (sym size);
        fits = omega (arith, pdu_type-lt c, h.1, size, h.3);
        made = wire-error c v errno errpdu errmsg fs h.2;
        back = λ r rest e. rw h.0 (read_body-error c v errno errpdu errmsg r rest fs h.2 e);
      },
    )
