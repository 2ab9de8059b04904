-- ===== src/Rtr/ChannelExamples.antt =====
-- The theorems on channels at concrete inputs.
use rpki_net.Prelude.{◌≢◌, ℕ, ◌≡◌, refl, List, [], ◌∷◌, ◌++◌, arith, none, some}
use rpki_net.Result.{out_of_fuel, Result, ok, err, Returns, IfReturns, ◌>>=◌}
use rpki_net.Rtr.Bytes.{to_bytes, split_at, take_field, pack, unpack, bytes_eq}
use rpki_net.Rtr.Pdu.{
  Pdu, reset_query, empty_content, pdu_type, version_map, find_class, pdu_class, base,
  address_byte_count, to_counted_string, encode_utf8, wire, to_pdu,
}
use rpki_net.Rtr.Wire.{IsFit}
use rpki_net.Rtr.Channel.{feed}
use rpki_net.Rtr.Channel.Waits.{Waits}
use rpki_net.Rtr.Channel.Chunks.{feed-append}
use rpki_net.Rtr.Channel.Terminates.{feed-ends}
use rpki_net.Rtr.Channel.Stream.{idle, write_all, deliver_all, feed-write_all}

program : Unit {0}
unfolding to_bytes split_at take_field pack unpack bytes_eq pdu_type version_map find_class
    pdu_class base address_byte_count to_counted_string encode_utf8 wire to_pdu
program = tt

abbrev two_queries : List ℕ
two_queries = 1 ∷ 2 ∷ 0 ∷ 0 ∷ 0 ∷ 0 ∷ 0 ∷ 8 ∷ 1 ∷ 2 ∷ 0 ∷ 0 ∷ 0 ∷ 0 ∷ 0 ∷ 8 ∷ []

-- A subclass that keeps what it is given.
abbrev keep : Pdu → List Pdu → Result (List Pdu)
keep p ps = ok (ps ++ p ∷ [])

abbrev asked : Pdu
asked = record { class_of = reset_query; version = 1; content = empty_content }

abbrev front : List ℕ
front = 1 ∷ 2 ∷ 0 ∷ 0 ∷ 0 ∷ []

abbrev back : List ℕ
back = 0 ∷ 0 ∷ 8 ∷ 1 ∷ 2 ∷ 0 ∷ 0 ∷ 0 ∷ 0 ∷ 0 ∷ 8 ∷ []

feed-append_example :
    (feed keep (front ++ back) (idle none []) ≡ (feed keep front (idle none []) >>= feed keep back))
    × IfReturns Waits (feed keep front (idle none []))
feed-append_example = feed-append keep front back (idle none []) (omega arith)

asked-IsFit : IsFit asked
unfolding program
asked-IsFit = record { known = refl; fits = refl }

feed-write_all_example : Returns (write_all (asked ∷ asked ∷ [])) (λ bs.
    feed keep bs (idle none [])
    ≡ (deliver_all keep (asked ∷ asked ∷ []) [] >>= λ s'. ok (idle (some 1) s')))
feed-write_all_example =
    feed-write_all keep (asked ∷ asked ∷ []) none [] (asked-IsFit, tt, (asked-IsFit, refl, tt))

keep-ends : (p : Pdu) (ps : List Pdu) → keep p ps ≢ err out_of_fuel
keep-ends p ps e = cc

feed-ends_example : feed keep two_queries (idle none []) ≢ err out_of_fuel
feed-ends_example = feed-ends keep keep-ends two_queries (idle none []) (omega arith)
