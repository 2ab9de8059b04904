-- ===== src/Rtr/LongBody.antt =====
-- `got_pdu` of Router Keys and Error Reports, on the bytes that their `to_pdu` generates.
use rpki_net.Prelude.{
  ℕ, ◌+◌, ◌-◌, ◌*◌, ◌<◌, ◌≡◌, refl, true, leb, ltb, List, [], ◌∷◌, ◌++◌, arith, none, length,
  length-append, sym, ◌∙◌,
}
use mathlib.Core.List.{append_assoc}
use rpki_net.Result.{ok}
use rpki_net.Rtr.Bytes.{
  bytes_eq-same, split_at-append, Fields, encode, length-encode, pack-Fields, unpack-encode,
}
use rpki_net.Rtr.Pdu.{
  PduClass, with_key, with_error, key_content, error_content, pdu_type, pad_string, zeros, is_ascii,
  encode_utf8, to_counted_string, to_pdu, wire,
}
use rpki_net.Rtr.Reader.{ReadBuffer, get, same_wire, read_body, read_counted_string}
use rpki_net.Rtr.Body.{eq_same, check_header-same}

module _ (c : PduClass) (v : ℕ) where
  module _ (announce : ℕ) (ski : List ℕ) (asnum : ℕ) (key : List ℕ) where
    abbrev pub key_fields : List (ℕ × ℕ)
    key_fields = (1, v) ∷ (1, pdu_type c) ∷ (1, announce) ∷ (1, 0) ∷ (4, 32 + length key) ∷ []

    abbrev pub key_asn : List (ℕ × ℕ)
    key_asn = (4, asnum) ∷ []

    abbrev pub key_bytes : List ℕ
    key_bytes = encode key_fields ++ ski ++ encode key_asn ++ key

    pad_string-full : length ski ≡ 20 → pad_string 20 ski ≡ ski
    unfolding pad_string
    pad_string-full h = rw (split_at-append 20 ski (zeros 20) h, pad_string) refl

    pub wire-key :
        Fields key_fields
        → Fields key_asn
        → length ski ≡ 20
        → wire c v none (key_content announce ski asnum key) ≡ ok key_bytes
    unfolding wire
    wire-key h ha hs =
        rw (pack-Fields key_fields h, pack-Fields key_asn ha, pad_string-full hs) refl

    pub read_body-key :
        (r : ReadBuffer) (rest : List ℕ)
        → Fields key_fields
        → Fields key_asn
        → length ski ≡ 20
        → 0 < length key
        → r.buffer ≡ key_bytes ++ rest
        → read_body with_key c v r
          ≡ ok (
            record r { buffer = rest },
            record { class_of = c; version = v; content = key_content announce ski asnum key },
          )
    unfolding read_body get same_wire to_pdu
    read_body-key r rest h ha hs hk e =
        let first : List ℕ = encode key_fields ++ ski ++ encode key_asn in
        let size : length first ≡ 32 = omega (
          arith,
          length-append (encode key_fields ++ ski) (encode key_asn),
          length-append (encode key_fields) ski,
          length-encode key_fields,
          length-encode key_asn,
          hs,
        ) in
        let split : r.buffer ≡ first ++ (key ++ rest) = e ∙ append_assoc first key rest in
        let more : ltb 32 (32 + length key) ≡ true = ground (arith, hk) in
        let left : 32 + length key - 32 ≡ length key = omega arith in
        rw
          (
            split,
            split_at-append 32 first (key ++ rest) size,
            append_assoc (encode key_fields) ski (encode key_asn),
            split_at-append 8 (encode key_fields) (ski ++ encode key_asn)
                (length-encode key_fields),
            split_at-append 20 ski (encode key_asn) hs,
            unpack-encode key_fields h,
            unpack-encode key_asn ha,
            check_header-same c v,
            more,
            left,
            split_at-append (length key) key rest refl,
            wire-key h ha hs,
          )
          (rw (sym (append_assoc (encode key_fields) ski (encode key_asn)), bytes_eq-same key_bytes)
            refl)

  module _ (errno : ℕ) (errpdu errmsg : List ℕ) where
    abbrev pub error_fields : List (ℕ × ℕ)
    error_fields =
        (1, v) ∷ (1, pdu_type c) ∷ (2, errno) ∷ (4, 8 + 4 * 2 + length errpdu + length errmsg) ∷ []

    abbrev pub count : List ℕ → List (ℕ × ℕ)
    count s = (4, length s) ∷ []

    abbrev pub counted : List ℕ → List ℕ
    counted s = encode (count s) ++ s

    abbrev pub error_bytes : List ℕ
    error_bytes = encode error_fields ++ counted errpdu ++ counted errmsg

    to_counted_string-counted :
        (s : List ℕ) → Fields (count s) → to_counted_string s ≡ ok (counted s)
    unfolding to_counted_string
    to_counted_string-counted s h = rw (pack-Fields (count s) h) refl

    encode_utf8-ascii : is_ascii errmsg ≡ true → encode_utf8 errmsg ≡ ok errmsg
    unfolding encode_utf8
    encode_utf8-ascii h = rw h refl

    read_counted_string-counted :
        (r : ReadBuffer) (s rest : List ℕ) (more : ℕ)
        → Fields (count s)
        → r.buffer ≡ counted s ++ rest
        → read_counted_string r (4 + length s + more)
          ≡ ok (length s, s, more, record r { buffer = rest })
    unfolding read_counted_string get
    read_counted_string-counted r s rest more h e =
        let split : r.buffer ≡ encode (count s) ++ (s ++ rest) =
          e ∙ append_assoc (encode (count s)) s rest in
        let four : leb 4 (4 + length s + more) ≡ true = ground arith in
        let all : leb (4 + length s) (4 + length s + more) ≡ true = ground arith in
        let left : 4 + length s + more - 4 - length s ≡ more = omega arith in
        rw
          (
            four,
            split,
            split_at-append 4 (encode (count s)) (s ++ rest) (length-encode (count s)),
            unpack-encode (count s) h,
            all,
            split_at-append (length s) s rest refl,
            left,
          )
          refl

    pub wire-error :
        Fields error_fields
        → is_ascii errmsg ≡ true
        → wire c v none (error_content errno errpdu errmsg) ≡ ok error_bytes
    unfolding wire
    wire-error h ha =
        let hp : Fields (count errpdu) = omega arith in
        let hm : Fields (count errmsg) = omega arith in
        rw
          (
            pack-Fields error_fields h,
            to_counted_string-counted errpdu hp,
            encode_utf8-ascii ha,
            to_counted_string-counted errmsg hm,
          )
          refl

    pub read_body-error :
        (r : ReadBuffer) (rest : List ℕ)
        → Fields error_fields
        → is_ascii errmsg ≡ true
        → r.buffer ≡ error_bytes ++ rest
        → read_body with_error c v r
          ≡ ok (
            record r { buffer = rest },
            record { class_of = c; version = v; content = error_content errno errpdu errmsg },
          )
    unfolding read_body get same_wire to_pdu
    read_body-error r rest h ha e =
        let hp : Fields (count errpdu) = omega arith in
        let hm : Fields (count errmsg) = omega arith in
        let split : r.buffer ≡ encode error_fields ++ (counted errpdu ++ (counted errmsg ++ rest)) =
          e
          ∙ append_assoc (encode error_fields ++ counted errpdu) (counted errmsg) rest
          ∙ append_assoc (encode error_fields) (counted errpdu) (counted errmsg ++ rest) in
        let left : 8 + 4 * 2 + length errpdu + length errmsg - 8
            ≡ 4 + length errpdu + (4 + length errmsg + 0) =
          omega arith in
        rw
          (
            split,
            split_at-append 8 (encode error_fields) (counted errpdu ++ (counted errmsg ++ rest))
                (length-encode error_fields),
            unpack-encode error_fields h,
            check_header-same c v,
            left,
            read_counted_string-counted
                (record r { buffer = counted errpdu ++ (counted errmsg ++ rest) }) errpdu
                (counted errmsg ++ rest) (4 + length errmsg + 0) hp refl,
            read_counted_string-counted (record r { buffer = counted errmsg ++ rest }) errmsg rest 0
                hm refl,
            eq_same (8 + 4 * 2 + length errpdu + length errmsg),
            to_counted_string-counted errpdu hp,
            encode_utf8-ascii ha,
            to_counted_string-counted errmsg hm,
            wire-error h ha,
            bytes_eq-same error_bytes,
          )
          refl
