-- ===== src/Rtr/Generator/Prefixes.antt =====
-- Entries that announce prefixes, the rows that a client makes of them, and the content of an
-- incremental file as PDUs.
use rpki_net.Prelude.{
  ℕ, ◌^◌, ◌<◌, ◌≡◌, ◌↔◌, refl, List, [], ◌∷◌, ◌++◌, arith, Option, none, some, ◌⊎◌, inl, inr, ap,
  sym, ◌∙◌, subst, All,
}
use rpki_net.Result.{Result, ok, Returns, ok-injective}
use rpki_net.Rtr.Pdu.{
  PduClass, Pdu, Content, serial_content, nonce_content, empty_content, timing_content,
  prefix_content, key_content, error_content, with_prefix, serial_notify, serial_query, reset_query,
  cache_response, end_of_data_v0, end_of_data_v1, cache_reset, ipv4_prefix, ipv6_prefix, router_key,
  error_report, base, address_byte_count, wire, to_pdu,
}
use rpki_net.Rtr.Reader.{ReadBuffer, new_buffer, read_pdu}
use rpki_net.Rtr.Wire.{IsFit}
use rpki_net.Rtr.RoundTrip.{read_pdu-to_pdu, after_pdu}
use rpki_net.Rtr.Generator.{Entry, changes, write_changes, save_axfr}
use rpki_net.Rtr.Client.{PrefixRow}
use rpki_net.Rtr.Channel.Stream.{write_all, FitAll}
use rpki_net.Rtr.Compare.{compare_bytes, Order-cases}

abbrev pub prefix_pdu : ℕ → PduClass → ℕ → ℕ → ℕ → ℕ → ℕ → Pdu
prefix_pdu version class_of announce prefix prefixlen max_prefixlen asnum = record {
  class_of = class_of;
  version = version;
  content = prefix_content announce prefix prefixlen max_prefixlen asnum;
}

-- An entry whose PDU announces a prefix, with the wire format of that PDU.
pub record IsPrefixEntry (version : ℕ) (e : Entry) : Type 0 where
  pub class_of : PduClass
  pub prefix : ℕ
  pub prefixlen : ℕ
  pub max_prefixlen : ℕ
  pub asnum : ℕ
  pub shape : e.pdu ≡ prefix_pdu version class_of 1 prefix prefixlen max_prefixlen asnum
  pub fit : IsFit (prefix_pdu version class_of 1 prefix prefixlen max_prefixlen asnum)
  pub wired : to_pdu none e.pdu ≡ ok e.bytes

abbrev no_row : PrefixRow
no_row = record { asnum = 0; address_bytes = 0; prefix = 0; prefixlen = 0; max_prefixlen = 0 }

-- The row that a client makes of a PDU.
abbrev content_row : PduClass → Content → PrefixRow
content_row c (serial_content serial nonce) = no_row
content_row c (nonce_content nonce) = no_row
content_row c empty_content = no_row
content_row c (timing_content serial nonce refresh retry expire) = no_row
content_row c (prefix_content announce prefix prefixlen max_prefixlen asnum) = record {
  asnum = asnum;
  address_bytes = address_byte_count c;
  prefix = prefix;
  prefixlen = prefixlen;
  max_prefixlen = max_prefixlen;
}
content_row c (key_content announce ski asnum key) = no_row
content_row c (error_content errno errpdu errmsg) = no_row

abbrev pub entry_row : Entry → PrefixRow
entry_row e = content_row (e.pdu.class_of) (e.pdu.content)

abbrev pdu_of : Pdu → ReadBuffer × Option Pdu → Pdu
pdu_of d (r, none) = d
pdu_of d (r, some p) = p

reads_back :
    (p : Pdu) (bs : List ℕ)
    → IsFit p
    → to_pdu none p ≡ ok bs
    → read_pdu (record new_buffer { buffer = bs ++ [] }) ≡ ok (after_pdu p bs [], some p)
unfolding new_buffer
reads_back p bs f e =
    subst
      (λ m.
        Returns m (λ bs.
          read_pdu (record new_buffer { buffer = bs ++ [] }) ≡ ok (after_pdu p bs [], some p)))
      e (read_pdu-to_pdu p new_buffer f tt [])

-- Different PDUs have different bytes.
to_pdu-injective :
    (p q : Pdu) (bs : List ℕ)
    → IsFit p
    → IsFit q
    → to_pdu none p ≡ ok bs
    → to_pdu none q ≡ ok bs
    → p ≡ q
to_pdu-injective p q bs f g e h =
    ap (λ u. pdu_of p u) (ok-injective (sym (reads_back p bs f e) ∙ reads_back q bs g h))

prefix_class : (c : PduClass) → base c ≡ with_prefix → (c ≡ ipv4_prefix) ⊎ (c ≡ ipv6_prefix)
unfolding base
prefix_class serial_notify e = cc
prefix_class serial_query e = cc
prefix_class reset_query e = cc
prefix_class cache_response e = cc
prefix_class end_of_data_v0 e = cc
prefix_class end_of_data_v1 e = cc
prefix_class cache_reset e = cc
prefix_class ipv4_prefix e = inl refl
prefix_class ipv6_prefix e = inr refl
prefix_class router_key e = cc
prefix_class error_report e = cc

class_by_size :
    (c d : PduClass)
    → base c ≡ with_prefix
    → base d ≡ with_prefix
    → address_byte_count c ≡ address_byte_count d
    → c ≡ d
unfolding address_byte_count
class_by_size c d hc hd e = elim (prefix_class c hc) [
  | inl p ↦ elim (prefix_class d hd) [
    | inl q ↦ p ∙ sym q
    | inr q ↦ absurd (omega (arith, sym (ap address_byte_count p) ∙ e ∙ ap address_byte_count q))
  ]
  | inr p ↦ elim (prefix_class d hd) [
    | inl q ↦ absurd (omega (arith, sym (ap address_byte_count p) ∙ e ∙ ap address_byte_count q))
    | inr q ↦ p ∙ sym q
  ]
]

module _ (version : ℕ) (a b : Entry) (p : IsPrefixEntry version a)
    (q : IsPrefixEntry version b) where
  same_bytes : a.bytes ≡ b.bytes → entry_row a ≡ entry_row b
  same_bytes e =
      let pdus : a.pdu ≡ b.pdu =
        to_pdu-injective a.pdu b.pdu a.bytes (subst IsFit (sym p.shape) p.fit)
          (subst IsFit (sym q.shape) q.fit) p.wired
          (q.wired ∙ ap {B = Result (List ℕ)} ok (sym e)) in
      ap {B = PrefixRow} (λ t. content_row t.class_of t.content) pdus

  same_row : entry_row a ≡ entry_row b → a.bytes ≡ b.bytes
  same_row e =
      let rows =
        sym (ap {B = PrefixRow} (λ t. content_row t.class_of t.content) p.shape)
        ∙ e
        ∙ ap {B = PrefixRow} (λ t. content_row t.class_of t.content) q.shape in
      let classes : p.class_of ≡ q.class_of =
        class_by_size p.class_of q.class_of p.fit.fits.0 q.fit.fits.0
          (ap (λ r. r.address_bytes) rows) in
      let pdus : prefix_pdu version p.class_of 1 p.prefix p.prefixlen p.max_prefixlen p.asnum
          ≡ prefix_pdu version q.class_of 1 q.prefix q.prefixlen q.max_prefixlen q.asnum =
        rw
          (
            classes,
            ap (λ r. r.prefix) rows,
            ap (λ r. r.prefixlen) rows,
            ap (λ r. r.max_prefixlen) rows,
            ap (λ r. r.asnum) rows,
          )
          refl in
      ok-injective (sym p.wired ∙ ap (to_pdu none) (p.shape ∙ pdus ∙ sym q.shape) ∙ q.wired)

  -- Entries with the same bytes make the same row, and the converse.
  pub entry_row-agrees : (a.bytes ≡ b.bytes) ↔ (entry_row a ≡ entry_row b)
  entry_row-agrees = (same_bytes, same_row)

-- The PDU that is written for an entry with a flag.
abbrev with_announce : ℕ → Content → Content
with_announce a (serial_content serial nonce) = serial_content serial nonce
with_announce a (nonce_content nonce) = nonce_content nonce
with_announce a empty_content = empty_content
with_announce a (timing_content serial nonce refresh retry expire) =
    timing_content serial nonce refresh retry expire
with_announce a (prefix_content own prefix prefixlen max_prefixlen asnum) =
    prefix_content a prefix prefixlen max_prefixlen asnum
with_announce a (key_content own ski asnum key) = key_content a ski asnum key
with_announce a (error_content errno errpdu errmsg) = error_content errno errpdu errmsg

abbrev pub flagged : ℕ × Entry → Pdu
flagged (a, e) = record (e.pdu) { content = with_announce a e.pdu.content }

abbrev pub flagged_all : List (ℕ × Entry) → List Pdu
flagged_all [] = []
flagged_all (x ∷ xs) = flagged x ∷ flagged_all xs

abbrev pub IsChange : ℕ → ℕ × Entry → Type 0
IsChange version (a, e) = ((a ≡ 0) ⊎ (a ≡ 1)) × IsPrefixEntry version e

pub changes-IsChange :
    (version : ℕ) (old new : List Entry)
    → All (IsPrefixEntry version) old
    → All (IsPrefixEntry version) new
    → All (IsChange version) (changes old new)
unfolding changes
changes-IsChange version [] [] po pn = tt
changes-IsChange version [] (n ∷ new) po pn =
    ((inr refl, pn.0), changes-IsChange version [] new tt pn.1)
changes-IsChange version (o ∷ old) [] po pn =
    ((inl refl, po.0), changes-IsChange version old [] po.1 tt)
changes-IsChange version (o ∷ old) (n ∷ new) po pn =
    elim (Order-cases (compare_bytes o.bytes n.bytes)) [
      | inl c ↦ rw (c, changes) ((inl refl, po.0), changes-IsChange version old (n ∷ new) po.1 pn)
      | inr (inl c) ↦ rw (c, changes) (changes-IsChange version old new po.1 pn.1)
      | inr (inr c) ↦
          rw (c, changes) ((inr refl, pn.0), changes-IsChange version (o ∷ old) new po pn.1)
    ]

module _ (version a : ℕ) (e : Entry) (h : IsChange version (a, e)) where
  pub flagged-shape :
      flagged (a, e)
      ≡ prefix_pdu version h.1.class_of a h.1.prefix h.1.prefixlen h.1.max_prefixlen h.1.asnum
  flagged-shape = ap {B = Pdu} (λ p. record p { content = with_announce a p.content }) h.1.shape

  pub entry_row-shape : entry_row e ≡ record {
    asnum = h.1.asnum;
    address_bytes = address_byte_count h.1.class_of;
    prefix = h.1.prefix;
    prefixlen = h.1.prefixlen;
    max_prefixlen = h.1.max_prefixlen;
  }
  entry_row-shape = ap {B = PrefixRow} (λ p. content_row p.class_of p.content) h.1.shape

  flagged-IsFit : IsFit (flagged (a, e))
  flagged-IsFit =
      let fits = h.1.fit.fits in
      subst IsFit (sym flagged-shape) (record {
        known = h.1.fit.known;
        fits = (fits.0, small h.0, fits.2, fits.3, fits.4, fits.5);
      })
    where
      small : (a ≡ 0) ⊎ (a ≡ 1) → a < 256 ^ 1
      small (inl z) = omega (arith, z)
      small (inr z) = omega (arith, z)

  to_pdu-flagged : to_pdu (some a) e.pdu ≡ to_pdu none (flagged (a, e))
  unfolding to_pdu wire
  to_pdu-flagged = ap (to_pdu (some a)) h.1.shape ∙ same h.0 ∙ sym (ap (to_pdu none) flagged-shape)
    where
      same :
          (a ≡ 0) ⊎ (a ≡ 1)
          → to_pdu (some a) (
              prefix_pdu version h.1.class_of 1 h.1.prefix h.1.prefixlen h.1.max_prefixlen
                h.1.asnum)
            ≡ to_pdu none (
                prefix_pdu version h.1.class_of a h.1.prefix h.1.prefixlen h.1.max_prefixlen
                  h.1.asnum)
      same (inl z) = rw z refl
      same (inr z) = rw z refl

-- What is written for changes are the bytes of the PDUs with their flags, which are in range.
pub write_changes-flagged :
    (version : ℕ) (cs : List (ℕ × Entry))
    → All (IsChange version) cs
    → write_changes cs ≡ write_all (flagged_all cs)
unfolding write_changes write_all
write_changes-flagged version [] hs = refl
write_changes-flagged version ((a, e) ∷ cs) hs =
    rw (to_pdu-flagged version a e hs.0, write_changes-flagged version cs hs.1) refl

pub flagged_all-FitAll :
    (version : ℕ) (cs : List (ℕ × Entry)) (rest : List Pdu)
    → All (IsChange version) cs
    → FitAll (some version) rest
    → FitAll (some version) (flagged_all cs ++ rest)
flagged_all-FitAll version [] rest hs f = f
flagged_all-FitAll version ((a, e) ∷ cs) rest hs f =
    let v = ap (λ p. p.version) (flagged-shape version a e hs.0) in
    (
      flagged-IsFit version a e hs.0,
      sym v,
      subst (λ w. FitAll (some w) (flagged_all cs ++ rest)) (sym v)
          (flagged_all-FitAll version cs rest hs.1 f),
    )

-- A full file is the incremental file from nothing.
pub write_changes-save_axfr :
    (version : ℕ) (es : List Entry)
    → All (IsPrefixEntry version) es
    → write_changes (changes [] es) ≡ ok (save_axfr es)
unfolding write_changes changes save_axfr
write_changes-save_axfr version [] ps = refl
write_changes-save_axfr version (e ∷ es) ps =
    let whole : to_pdu (some 1) e.pdu ≡ ok e.bytes =
      to_pdu-flagged version 1 e (inr refl, ps.0)
      ∙ ap (to_pdu none) (flagged-shape version 1 e (inr refl, ps.0) ∙ sym ps.0.shape)
      ∙ ps.0.wired in
    rw (whole, write_changes-save_axfr version es ps.1) refl
