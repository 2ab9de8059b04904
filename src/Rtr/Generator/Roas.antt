-- ===== src/Rtr/Generator/Roas.antt =====
-- Entries made of the prefixes of a ROA.
use rpki_net.Prelude.{subst, ℕ, ◌^◌, ◌<◌, ◌≤◌, ◌≡◌, refl, List, ◌++◌, Option, none, some}
use rpki_net.Result.{ok, err, corrupt_data, Returns}
use rpki_net.Rtr.Reader.{new_buffer, read_pdu}
use rpki_net.Rtr.RoundTrip.{read_pdu-to_pdu, after_pdu}
use rpki_net.Rtr.Pdu.{Pdu, to_pdu}
use rpki_net.Rtr.Wire.{IsFit}
use rpki_net.Rtr.Generator.{
  Entry, Address, address_class, address_bits, address_value, or_length, from_roa,
}
use rpki_net.Rtr.Generator.Announce.{
  announcement-IsFit, wire-announcement, check_prefix-announcement, check_prefix-corrupt,
}
use rpki_net.Rtr.Generator.Prefixes.{IsPrefixEntry, prefix_pdu}

-- The entry announces just this prefix, with these lengths and this AS number, in a PDU of the class
-- of the address, its bytes are the wire format of that PDU, and a reader makes that PDU of them.
pub record Announces (version : ℕ) (address : Address) (prefixlen max_prefixlen asnum : ℕ)
    (e : Entry) : Type 0 where
  pub shape :
      e.pdu
      ≡ prefix_pdu version
          (address_class address)
          1
          (address_value address)
          prefixlen
          max_prefixlen
          asnum
  pub wired : to_pdu none e.pdu ≡ ok e.bytes
  pub entry : IsPrefixEntry version e
  pub read :
      (rest : List ℕ)
      → read_pdu (record new_buffer { buffer = e.bytes ++ rest })
        ≡ ok (after_pdu e.pdu e.bytes rest, some e.pdu)

-- What follows for the entry with these bytes.
announced :
    (version asnum : ℕ) (address : Address) (prefixlen max_prefixlen : ℕ) {bytes : List ℕ}
    → let p =
        prefix_pdu version
          (address_class address)
          1
          (address_value address)
          prefixlen
          max_prefixlen
          asnum in
      IsFit p
      → to_pdu none p ≡ ok bytes
      → Announces version address prefixlen max_prefixlen asnum (record { pdu = p; bytes = bytes })
unfolding new_buffer
announced version asnum address prefixlen max_prefixlen {bytes} f w =
    let p : Pdu =
      prefix_pdu version (address_class address) 1 (address_value address) prefixlen max_prefixlen
        asnum in
    record {
      shape = refl;
      wired = w;
      entry = record {
        class_of = address_class address;
        prefix = address_value address;
        prefixlen = prefixlen;
        max_prefixlen = max_prefixlen;
        asnum = asnum;
        shape = refl;
        fit = f;
        wired = w;
      };
      read = λ rest.
          subst
            (λ m. Returns m (λ bs.
              read_pdu (record new_buffer { buffer = bs ++ rest })
              ≡ ok (after_pdu p bs rest, some p)))
            w (read_pdu-to_pdu p new_buffer f tt rest);
    }

-- For a prefix of a ROA, with an address that its class can hold, an AS number of 32 bits and a
-- protocol version of 0 or 1, `from_roa` returns an entry if the maximum length (by default the
-- length) is at least the length and at most the bits of the address, and raises CorruptData
-- otherwise. The entry announces this address, length, maximum length and AS number, in a PDU of the
-- class of the address, with its wire format, which a reader reads back as that PDU.
pub from_roa_lem :
    (version asnum : ℕ) (address : Address) (prefixlen : ℕ) (max_length : Option ℕ)
    → version < 2
    → asnum < 256 ^ 4
    → address_value address < 2 ^ address_bits address
    → let max_prefixlen = or_length prefixlen max_length in
      ((prefixlen ≤ max_prefixlen) × (max_prefixlen ≤ address_bits address)
        → Returns
            (from_roa version asnum address prefixlen max_length)
            (Announces version address prefixlen max_prefixlen asnum))
      × (¬ ((prefixlen ≤ max_prefixlen) × (max_prefixlen ≤ address_bits address))
          → from_roa version asnum address prefixlen max_length ≡ err corrupt_data)
unfolding from_roa to_pdu
from_roa_lem version asnum address prefixlen max_length hv hn ha =
    let max_prefixlen = or_length prefixlen max_length in
    (
      λ (h, hm).
          rw (check_prefix-announcement version asnum address prefixlen max_prefixlen hv hn ha h hm)
            (announced version asnum address prefixlen max_prefixlen
              (announcement-IsFit version asnum address prefixlen max_prefixlen hv hn ha h hm)
              (wire-announcement version asnum address prefixlen max_prefixlen hv hn ha h hm)),
      λ bad. rw (check_prefix-corrupt version asnum address prefixlen max_prefixlen bad) refl,
    )
