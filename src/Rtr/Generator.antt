-- ===== src/Rtr/Generator.antt =====
-- rpki/rtr/generator.py: the sets of PDUs that are made of validated objects, and the differences
-- between two of them.
pub mod Sorted
pub mod Prefixes
pub mod Announce
pub mod Roas
use rpki_net.Prelude.{
  ℕ, zero, suc, ◌+◌, ◌-◌, ◌%◌, ◌^◌, Bool, true, false, List, [], ◌∷◌, ◌++◌, Option, none, some, ltb,
  ◌==◌, if◌then◌else◌,
}
use rpki_net.Result.{Result, ok, err, guard, ◌>>=◌, ◌>>◌}
use rpki_net.Rtr.Pdu.{
  PduClass, Pdu, ipv4_prefix, ipv6_prefix, router_key, prefix_content, key_content, to_pdu,
}
use rpki_net.Rtr.Compare.{Order, less, same, more, compare_bytes}
use rpki_net.Rtr.Check.{check_prefix, check_key}

-- A PDU with the wire format that `check` has left in it.
pub record Entry : Type 0 where
  pub pdu : Pdu
  pub bytes : List ℕ

-- An `IPAddress`: of version 4 or 6, with its value.
pub data Address : Type 0 where
  ipv4_address ipv6_address : ℕ → Address

abbrev pub address_class : Address → PduClass
address_class (ipv4_address n) = ipv4_prefix
address_class (ipv6_address n) = ipv6_prefix

abbrev pub address_bits : Address → ℕ
address_bits (ipv4_address n) = 32
address_bits (ipv6_address n) = 128

abbrev pub address_value : Address → ℕ
address_value (ipv4_address n) = n
address_value (ipv6_address n) = n

abbrev pub or_length : ℕ → Option ℕ → ℕ
or_length length none = length
or_length length (some max_length) = max_length

-- `PrefixPDU.from_roa`
unfoldable pub from_roa : ℕ → ℕ → Address → ℕ → Option ℕ → Result Entry
from_roa version asnum address length max_length = do
  let c = address_class address
  let max = or_length length max_length
  bytes ← check_prefix c version (address_bits address) 1 (address_value address) length max asnum
  ok (record {
    pdu = record {
      class_of = c;
      version = version;
      content = prefix_content 1 (address_value address) length max asnum;
    };
    bytes = bytes;
  })

-- `RouterKeyPDU.from_certificate`
unfoldable pub from_certificate : ℕ → ℕ → List ℕ → List ℕ → Result Entry
from_certificate version asnum ski key = do
  bytes ← check_key router_key version 1 ski asnum key
  ok (record {
    pdu = record {
      class_of = router_key;
      version = version;
      content = key_content 1 ski asnum key;
    };
    bytes = bytes;
  })

-- `PDU.__cmp__`
abbrev pub compare_entries : Entry → Entry → Order
compare_entries a b = compare_bytes a.bytes b.bytes

-- `self.sort()`
unfoldable pub insert_entry : Entry → List Entry → List Entry
insert_entry e [] = e ∷ []
insert_entry e (x ∷ xs) =
    let rest = x ∷ insert_entry e xs in
    elim (compare_entries e x) [ more ↦ rest | other ↦ e ∷ x ∷ xs ]

unfoldable pub sort_entries : List Entry → List Entry
sort_entries [] = []
sort_entries (e ∷ es) = insert_entry e (sort_entries es)

-- One round of the loop that drops duplicates, at `self[i]`, with `self[i+1:]`.
abbrev pub drop_same : Entry → List Entry → List Entry
drop_same e [] = e ∷ []
drop_same e (x ∷ xs) = elim (compare_entries e x) [ same ↦ e ∷ xs | other ↦ e ∷ x ∷ xs ]

-- The loop, from the end of the list to its beginning.
unfoldable pub drop_duplicates : List Entry → List Entry
drop_duplicates [] = []
drop_duplicates (e ∷ es) = drop_same e (drop_duplicates es)

-- The end of `parse_rcynic`.
unfoldable pub finish_set : List Entry → List Entry
finish_set es = drop_duplicates (sort_entries es)

-- What `save_axfr` writes, `p.to_pdu()` being what `check` has left.
unfoldable pub save_axfr : List Entry → List ℕ
save_axfr [] = []
save_axfr (e ∷ es) = e.bytes ++ save_axfr es

-- The loops of `save_ixfr`: the PDUs that are written, each with the flag that it is written with.
unfoldable pub changes : List Entry → List Entry → List (ℕ × Entry)
changes [] [] = []
changes [] (n ∷ new) = (1, n) ∷ changes [] new
changes (o ∷ old) [] = (0, o) ∷ changes old []
changes (o ∷ old) (n ∷ new) = elim (compare_entries o n) [
  | less ↦ (0, o) ∷ changes old (n ∷ new)
  | more ↦ (1, n) ∷ changes (o ∷ old) new
  | same ↦ changes old new
]

-- What is written.
unfoldable pub write_changes : List (ℕ × Entry) → Result (List ℕ)
write_changes [] = ok []
write_changes ((announce, e) ∷ es) = do
  bytes ← to_pdu (some announce) e.pdu
  rest ← write_changes es
  ok (bytes ++ rest)

-- `new.save_ixfr(old)`: the content of the file.
unfoldable pub save_ixfr : List Entry → List Entry → Result (List ℕ)
save_ixfr new old = write_changes (changes old new)

-- `PDUSet.seq_ge`, with the modulus added first, since the difference may be negative.
unfoldable pub seq_ge : ℕ → ℕ → Bool
seq_ge a b = ltb ((a + 2 ^ 32 - b % 2 ^ 32) % 2 ^ 32) (2 ^ 31)
