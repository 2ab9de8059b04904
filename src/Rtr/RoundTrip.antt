-- ===== src/Rtr/RoundTrip.antt =====
-- What `to_pdu` generates is read back by `read_pdu`, at once or in two parts, for PDUs whose
-- attributes are in range.
use rpki_net.Prelude.{
  ℕ, zero, suc, ◌<◌, ◌≤◌, ◌≡◌, refl, true, false, leb, List, [], ◌∷◌, ◌++◌, arith, Option, some,
  none, length, length-append, ap, sym, ◌∙◌, inl, inr, subst, Bool-cases, ltb,
}
use mathlib.Core.List.{append_assoc, append-nil}
use rpki_net.Result.{ok, Returns, ok-injective}
use rpki_net.Rtr.Bytes.{split_at, split_at-append, encode, length-encode, unpack-encode}
use rpki_net.Rtr.Pdu.{PduClass, Pdu, Content, pdu_type, pdu_class, version_map, to_pdu, wire}
use rpki_net.Rtr.Reader.{
  ReadBuffer, header, body, got_pdu, got_header, read_pdu, update, retry, ready, available,
  check_version, put,
}
use rpki_net.Rtr.Body.{eq_same}
use rpki_net.Rtr.Wire.{IsFit, IsWire, header_fields}
use rpki_net.Rtr.Written.{content-IsWire}

split_at-longer :
    (n : ℕ) (xs ys : List ℕ) → n ≤ length xs → (split_at n (xs ++ ys)).0 ≡ (split_at n xs).0
unfolding split_at
split_at-longer zero xs ys h = refl
split_at-longer (suc n) [] ys h = absurd (omega arith)
split_at-longer (suc n) (x ∷ xs) ys h =
    ap {B = List ℕ} (λ t. x ∷ t) (split_at-longer n xs ys (omega arith))

known_version :
    (v : ℕ) (c : PduClass)
    → pdu_class v (pdu_type c) ≡ some c
    → (v < 2) × (cs : List PduClass) × (version_map v ≡ some cs)
unfolding pdu_class version_map
known_version zero c e = (omega arith, _, refl)
known_version (suc zero) c e = (omega arith, _, refl)
known_version (suc (suc v)) c e = cc

-- The version that the buffer has been set to, if any, is `v`.
abbrev pub Accepts : Option ℕ → ℕ → Type 0
Accepts none v = Unit {0}
Accepts (some known) v = known ≡ v

check_version-Accepts :
    (v : ℕ) (c : PduClass) (r : ReadBuffer) (seen : Option ℕ)
    → pdu_class v (pdu_type c) ≡ some c
    → r.version ≡ seen
    → Accepts seen v
    → check_version v r ≡ ok (record r { version = some v })
unfolding check_version
check_version-Accepts v c r none k e a =
    let (_, cs, known) = known_version v c k in rw (e, known, check_version) refl
check_version-Accepts v c r (some seen) k e a = rw (e, a, eq_same v, check_version) refl

module _ (c : PduClass) (v : ℕ) (content : Content) (bs : List ℕ) (w : IsWire c v content bs)
    (known : pdu_class v (pdu_type c) ≡ some c) where
  abbrev head_fields : List (ℕ × ℕ)
  head_fields = header_fields c v w.x (length bs)

  pub length-bs : 8 ≤ length bs
  length-bs = omega (
    arith,
    ap length w.starts,
    length-append (encode head_fields) w.tail,
    length-encode head_fields,
  )

  head-bytes : (rest : List ℕ) → (split_at 8 (bs ++ rest)).0 ≡ encode head_fields
  head-bytes rest =
      let split : bs ++ rest ≡ encode head_fields ++ (w.tail ++ rest) =
        ap (λ b. b ++ rest) w.starts ∙ append_assoc (encode head_fields) w.tail rest in
      rw
        (split, split_at-append 8 (encode head_fields) (w.tail ++ rest) (length-encode head_fields))
        refl

  -- What `got_header` leaves to `got_pdu`.
  abbrev pub waiting : ReadBuffer → ReadBuffer
  waiting r = record r { version = some v; need = length bs; callback = some (body c v) }

  -- A buffer that begins with the header.
  pub read_pdu-header :
      (r : ReadBuffer) (first second rest : List ℕ)
      → Accepts r.version v
      → first ++ second ≡ bs ++ rest
      → 8 ≤ length first
      → read_pdu (record r { buffer = first }) ≡ got_pdu c v (waiting (record r { buffer = first }))
  unfolding read_pdu update retry got_header ready available
  read_pdu-header r first second rest a e h =
      let enough : leb 8 (length first) ≡ true = ground (arith, h) in
      let long : leb 8 (length bs) ≡ true = ground (arith, length-bs) in
      let head : (split_at 8 first).0 ≡ encode head_fields =
        sym (split_at-longer 8 first second h) ∙ ap (λ b. (split_at 8 b).0) e ∙ head-bytes rest in
      rw
        (
          enough,
          head,
          unpack-encode head_fields w.fits,
          check_version-Accepts v c (record r { buffer = first; need = 8; callback = some header })
              r.version known refl a,
          known,
          long,
          got_header,
        )
        (rw enough refl)

  -- All the bytes have come.
  pub got_pdu-waiting :
      (r : ReadBuffer) (rest : List ℕ)
      → r.buffer ≡ bs ++ rest
      → got_pdu c v (waiting r)
        ≡ ok (
          record (waiting r) { buffer = rest },
          some (record { class_of = c; version = v; content = content }),
        )
  unfolding got_pdu ready available
  got_pdu-waiting r rest e =
      let enough : leb (length bs) (length r.buffer) ≡ true =
        ground (arith, ap length e, length-append bs rest) in
      rw (enough, w.back (waiting r) rest e, got_pdu) refl

  -- Some of them have not.
  pub got_pdu-short :
      (r : ReadBuffer)
      → length r.buffer < length bs
      → got_pdu c v (waiting r) ≡ ok (waiting r, none)
  unfolding got_pdu ready available
  got_pdu-short r h =
      let short : leb (length bs) (length r.buffer) ≡ false = ground (arith, h) in
      rw (short, got_pdu) refl

-- `read_pdu` with less than a header in the buffer.
pub read_pdu-short :
    (r : ReadBuffer)
    → length r.buffer < 8
    → read_pdu r ≡ ok (record r { need = 8; callback = some header }, none)
unfolding read_pdu update retry got_header ready available
read_pdu-short r h =
    let short : leb 8 (length r.buffer) ≡ false = ground (arith, h) in rw (short, got_header) refl

-- The buffer after the PDU, of the bytes `bs`, has been read.
abbrev pub after_pdu : Pdu → List ℕ → List ℕ → ReadBuffer
after_pdu p bs rest = record {
  buffer = rest;
  version = some p.version;
  need = length bs;
  callback = some (body p.class_of p.version);
}

module _ (p : Pdu) (bs : List ℕ) (w : IsWire p.class_of p.version p.content bs)
    (known : pdu_class p.version (pdu_type p.class_of) ≡ some p.class_of) (r : ReadBuffer)
    (rest : List ℕ) (a : Accepts r.version p.version) where
  -- All the bytes are in the buffer.
  pub read_pdu-bytes :
      (all : List ℕ)
      → all ≡ bs ++ rest
      → read_pdu (record r { buffer = all }) ≡ ok (after_pdu p bs rest, some p)
  read_pdu-bytes all e =
      let enough : 8 ≤ length all = omega (
        arith,
        length-bs p.class_of p.version p.content bs w known,
        ap length e,
        length-append bs rest,
      ) in
      read_pdu-header p.class_of p.version p.content bs w known r all [] rest a (append-nil all ∙ e)
        enough
      ∙ got_pdu-waiting p.class_of p.version p.content bs w known (record r { buffer = all }) rest e

  module _ (first second : List ℕ) (e : first ++ second ≡ bs ++ rest) where
    abbrev IsRetried : Type 0
    IsRetried =
        (r' : ReadBuffer) × (read_pdu (record r { buffer = first }) ≡ ok (r', none))
        × (r'.buffer ≡ first)
        × (retry (put second r') ≡ ok (after_pdu p bs rest, some p))

    no_header : length first < 8 → IsRetried
    unfolding read_pdu update retry put
    no_header h = (
      record r { buffer = first; need = 8; callback = some header },
      read_pdu-short (record r { buffer = first }) h,
      refl,
      read_pdu-bytes (first ++ second) e,
    )

    no_body : 8 ≤ length first → length first < length bs → IsRetried
    unfolding retry put
    no_body h8 h = (
      waiting p.class_of p.version p.content bs w known (record r { buffer = first }),
      read_pdu-header p.class_of p.version p.content bs w known r first second rest a e h8
          ∙ got_pdu-short p.class_of p.version p.content bs w known (record r { buffer = first }) h,
      refl,
      got_pdu-waiting p.class_of p.version p.content bs w known
          (record r { buffer = first ++ second }) rest e,
    )

pub fit-IsWire : (p : Pdu) → IsFit p → (bs : List ℕ) × IsWire p.class_of p.version p.content bs
fit-IsWire p f =
    content-IsWire p.class_of p.version p.content (known_version p.version p.class_of f.known).0
      f.fits

module _ (p : Pdu) (r : ReadBuffer) (f : IsFit p) (a : Accepts r.version p.version) where
  -- A PDU of any class whose attributes are in range is written, and reading the bytes, whatever
  -- follows them, with a buffer of no or of the same protocol version, gives the PDU back and leaves
  -- what follows.
  pub read_pdu-to_pdu :
      (rest : List ℕ)
      → Returns
          (to_pdu none p)
          (λ bs. read_pdu (record r { buffer = bs ++ rest }) ≡ ok (after_pdu p bs rest, some p))
  unfolding to_pdu
  read_pdu-to_pdu rest =
      let (bs, w) = fit-IsWire p f in
      rw w.made (read_pdu-bytes p bs w f.known r rest a (bs ++ rest) refl)

  -- If only a first part of the bytes of a PDU whose attributes are in range has
  -- come into a buffer of no or of the same protocol version, `read_pdu` returns None without taking
  -- anything, and when the others have been put into the buffer, `retry` returns the PDU and leaves
  -- what follows it.
  pub retry-put :
      (bs first second rest : List ℕ)
      → to_pdu none p ≡ ok bs
      → first ++ second ≡ bs ++ rest
      → length first < length bs
      → (r' : ReadBuffer) × (read_pdu (record r { buffer = first }) ≡ ok (r', none))
        × (r'.buffer ≡ first)
        × (retry (put second r') ≡ ok (after_pdu p bs rest, some p))
  unfolding to_pdu
  retry-put bs first second rest made e h =
      let (bytes, wire) = fit-IsWire p f in
      let w : IsWire p.class_of p.version p.content bs =
        subst (IsWire p.class_of p.version p.content) (ok-injective (sym wire.made ∙ made)) wire in
      elim (Bool-cases (ltb (length first) 8)) [
        | inl short ↦ no_header p bs w f.known r rest a first second e (ground (arith, short))
        | inr long ↦ no_body p bs w f.known r rest a first second e (ground (arith, long)) h
      ]
