-- ===== src/Rtr/Generator/Announce.antt =====
-- The check and the wire format of a PDU that announces a plausible prefix.
use rpki_net.Prelude.{
  Bool-cases, inl, inr, leb→le, ℕ, zero, suc, ◌+◌, ◌*◌, ◌/◌, ◌^◌, ◌<◌, ◌≤◌, ◌≡◌, refl, true, leb,
  ◌==◌, List, [], ◌∷◌, ◌++◌, arith, none, some, length, length-append,
}
use rpki_net.Result.{ok, err, corrupt_data}
use rpki_net.Rtr.Bytes.{encode, pack-Fields, length-encode, to_bytes, length-to_bytes}
use rpki_net.Rtr.Pdu.{
  PduClass, Content, with_prefix, prefix_content, version_map, find_class, pdu_class, pdu_type,
  base, address_byte_count, wire,
}
use rpki_net.Rtr.Wire.{IsFit, pdu_type-lt}
use rpki_net.Rtr.Check.{check_prefix}
use rpki_net.Rtr.Generator.{
  Address, ipv4_address, ipv6_address, address_class, address_bits, address_value,
}
use rpki_net.Rtr.Generator.Prefixes.{prefix_pdu}

class_bits :
    (address : Address) → address_bits address ≡ address_byte_count (address_class address) * 8
unfolding address_byte_count
class_bits (ipv4_address n) = refl
class_bits (ipv6_address n) = refl

class_known :
    (version : ℕ) (address : Address)
    → version < 2
    → pdu_class version (pdu_type (address_class address)) ≡ some (address_class address)
unfolding pdu_class version_map find_class pdu_type
class_known zero (ipv4_address n) h = refl
class_known zero (ipv6_address n) h = refl
class_known (suc zero) (ipv4_address n) h = refl
class_known (suc zero) (ipv6_address n) h = refl
class_known (suc (suc version)) address h = absurd (omega (arith, h))

class_base : (address : Address) → base (address_class address) ≡ with_prefix
unfolding base
class_base (ipv4_address n) = refl
class_base (ipv6_address n) = refl

class_fits :
    (address : Address)
    → address_value address < 2 ^ address_bits address
    → address_value address < 256 ^ address_byte_count (address_class address)
unfolding address_byte_count
class_fits (ipv4_address n) h = omega (arith, h)
class_fits (ipv6_address n) h = omega (arith, h)

bits-lt : (address : Address) → address_bits address < 256 ^ 1
bits-lt (ipv4_address n) = omega arith
bits-lt (ipv6_address n) = omega arith

module _ (version asnum : ℕ) (address : Address) (prefixlen max_prefixlen : ℕ) (hv : version < 2)
    (hn : asnum < 256 ^ 4) (ha : address_value address < 2 ^ address_bits address)
    (h : prefixlen ≤ max_prefixlen) (hm : max_prefixlen ≤ address_bits address) where
  abbrev family : PduClass
  family = address_class address

  abbrev announcement : Content
  announcement = prefix_content 1 (address_value address) prefixlen max_prefixlen asnum

  pub announcement-IsFit :
      IsFit (prefix_pdu version family 1 (address_value address) prefixlen max_prefixlen asnum)
  announcement-IsFit =
      let small = bits-lt address in
      record {
        known = class_known version address hv;
        fits = (
          class_base address,
          omega arith,
          class_fits address ha,
          omega (arith, small, h, hm),
          omega (arith, small, hm),
          hn,
        );
      }

  abbrev head_fields : List (ℕ × ℕ)
  head_fields =
      (1, version)
      ∷ (1, pdu_type family)
      ∷ (2, 0)
      ∷ (4, 12 + address_byte_count family + 4)
      ∷ (1, 1)
      ∷ (1, prefixlen)
      ∷ (1, max_prefixlen)
      ∷ (1, 0)
      ∷ []

  abbrev pub announcement_bytes : List ℕ
  announcement_bytes =
      encode head_fields
      ++ to_bytes (address_byte_count family) (address_value address)
      ++ encode ((4, asnum) ∷ [])

  pub wire-announcement : wire family version none announcement ≡ ok announcement_bytes
  unfolding wire
  wire-announcement =
      let small = bits-lt address in
      let size = class_bits address in
      rw
        (
          pack-Fields head_fields (
            omega (arith, hv),
            (
              pdu_type-lt family,
              (
                omega arith,
                (
                  omega (arith, small, size),
                  (
                    omega arith,
                    (omega (arith, small, h, hm), (omega (arith, small, hm), (omega arith, tt))),
                  ),
                ),
              ),
            ),
          ),
          pack-Fields ((4, asnum) ∷ []) (hn, tt),
        )
        refl

  length-announcement_bytes : length announcement_bytes ≡ 12 + address_bits address / 8 + 4
  length-announcement_bytes =
      let value = to_bytes (address_byte_count family) (address_value address) in
      omega (
        arith,
        length-append (encode head_fields ++ value) (encode ((4, asnum) ∷ [])),
        length-append (encode head_fields) value,
        length-encode head_fields,
        length-encode ((4, asnum) ∷ []),
        length-to_bytes (address_byte_count family) (address_value address),
        class_bits address,
      )

  pub check_prefix-announcement :
      check_prefix family version
        (address_bits address)
        1
        (address_value address)
        prefixlen
        max_prefixlen
        asnum
      ≡ ok announcement_bytes
  unfolding check_prefix
  check_prefix-announcement =
      let size : (address_bits address == address_byte_count family * 8) ≡ true =
        ground (arith, class_bits address) in
      let low : leb prefixlen (address_bits address) ≡ true = ground (arith, h, hm) in
      let middle : leb prefixlen max_prefixlen ≡ true = ground (arith, h) in
      let high : leb max_prefixlen (address_bits address) ≡ true = ground (arith, hm) in
      let long : (length announcement_bytes == 12 + address_bits address / 8 + 4) ≡ true =
        ground (arith, length-announcement_bytes) in
      rw (size, low, middle, high, wire-announcement, long, check_prefix) refl

pub check_prefix-corrupt :
    (version asnum : ℕ) (address : Address) (prefixlen max_prefixlen : ℕ)
    → ¬ ((prefixlen ≤ max_prefixlen) × (max_prefixlen ≤ address_bits address))
    → check_prefix
        (address_class address)
        version
        (address_bits address)
        1
        (address_value address)
        prefixlen
        max_prefixlen
        asnum
      ≡ err corrupt_data
unfolding check_prefix
check_prefix-corrupt version asnum address prefixlen max_prefixlen bad =
    let size : (address_bits address == address_byte_count (address_class address) * 8) ≡ true =
      ground (arith, class_bits address) in
    elim (Bool-cases (leb prefixlen (address_bits address))) [
      | inr low ↦ rw (size, low, check_prefix) refl
      | inl low ↦ elim (Bool-cases (leb prefixlen max_prefixlen)) [
        | inr middle ↦ rw (size, low, middle, check_prefix) refl
        | inl middle ↦ elim (Bool-cases (leb max_prefixlen (address_bits address))) [
          | inr high ↦ rw (size, low, middle, high, check_prefix) refl
          | inl high ↦ absurd (bad (leb→le _ _ middle, leb→le _ _ high))
        ]
      ]
    ]
