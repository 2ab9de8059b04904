-- ===== src/Rtr/SessionExamples.antt =====
-- The theorems on router sets and whole answers at concrete inputs.
use rpki_net.Prelude.{
  ◌⊎◌, ◌<◌, ℕ, ap, ◌↔◌, ◌+◌, ◌%◌, ◌^◌, ◌≡◌, ◌≤◌, refl, true, false, List, [], ◌∷◌, arith, Option,
  none, some, inl, inr,
}
use rpki_net.Result.{ok, err, corrupt_data, Returns}
use rpki_net.Rtr.Bytes.{to_bytes, split_at, take_field, pack, unpack, bytes_eq}
use rpki_net.Rtr.Pdu.{
  ipv4_prefix, serial_query, reset_query, serial_content, empty_content, prefix_content, pdu_type,
  version_map, find_class, pdu_class, base, address_byte_count, to_counted_string, encode_utf8,
  wire, to_pdu,
}
use rpki_net.Rtr.Compare.{compare_bytes}
use rpki_net.Rtr.Check.{Timing, check_prefix, make_timing, valid_refresh, valid_retry, valid_expire}
use rpki_net.Rtr.Generator.{
  or_length, Entry, ipv4_address, from_roa, finish_set, sort_entries, insert_entry, drop_duplicates,
  changes, write_changes, save_ixfr, save_axfr, seq_ge,
}
use rpki_net.Rtr.Generator.Sorted.{IsStrict, finish_set-IsStrict, has_bytes}
use rpki_net.Rtr.Generator.Prefixes.{IsPrefixEntry}
use rpki_net.Rtr.Generator.Roas.{Announces, from_roa_lem}
use rpki_net.Rtr.Client.{PrefixRow, Database, Client, prefix_row_eq, has_prefix}
use rpki_net.Rtr.Client.Tables.{prefix_row_eq_iff}
use rpki_net.Rtr.Client.Updates.{talk}
use rpki_net.Rtr.Server.{Server, Directory, FileName, ixfr_file, axfr_file, serve}
use rpki_net.Rtr.Channel.{feed}
use rpki_net.Rtr.Channel.Stream.{idle}
use rpki_net.Rtr.Session.{IsAt}
use rpki_net.Rtr.Session.Answers.{HasRows, serve-serial_query}
use rpki_net.Rtr.Session.Stale.{Forgets, serve-stale}
use rpki_net.Rtr.Current.{mark_current, seq_ge_steps}
use rpki_net.Rtr.Session.Marked.{mark_current-Taken}
use rpki_net.Rtr.Session.Transfer.{Restarts, serve-reset_query}

program : Unit {0}
unfolding to_bytes split_at take_field pack unpack bytes_eq pdu_type version_map find_class
    pdu_class base address_byte_count to_counted_string encode_utf8 wire to_pdu compare_bytes
    check_prefix make_timing valid_refresh valid_retry valid_expire from_roa finish_set sort_entries
    insert_entry drop_duplicates changes write_changes save_ixfr save_axfr has_prefix prefix_row_eq
program = tt

-- 10.0.0.0/8-16 and 11.0.0.0/8-8 of AS 64496
abbrev first : Entry
first = record {
  pdu = record {
    class_of = ipv4_prefix;
    version = 1;
    content = prefix_content 1 167772160 8 16 64496;
  };
  bytes = 1 ∷ 4 ∷ 0 ∷ 0 ∷ 0 ∷ 0 ∷ 0 ∷ 20 ∷ 1 ∷ 8 ∷ 16 ∷ 0 ∷ 10 ∷ 0 ∷ 0 ∷ 0 ∷ 0 ∷ 0 ∷ 251 ∷ 240 ∷ [];
}

abbrev second : Entry
second = record {
  pdu = record {
    class_of = ipv4_prefix;
    version = 1;
    content = prefix_content 1 184549376 8 8 64496;
  };
  bytes = 1 ∷ 4 ∷ 0 ∷ 0 ∷ 0 ∷ 0 ∷ 0 ∷ 20 ∷ 1 ∷ 8 ∷ 8 ∷ 0 ∷ 11 ∷ 0 ∷ 0 ∷ 0 ∷ 0 ∷ 0 ∷ 251 ∷ 240 ∷ [];
}

first-IsPrefixEntry : IsPrefixEntry 1 first
unfolding program
first-IsPrefixEntry = record {
  class_of = ipv4_prefix;
  prefix = 167772160;
  prefixlen = 8;
  max_prefixlen = 16;
  asnum = 64496;
  shape = refl;
  fit = record {
    known = refl;
    fits = (refl, omega arith, omega arith, omega arith, omega arith, omega arith);
  };
  wired = refl;
}

second-IsPrefixEntry : IsPrefixEntry 1 second
unfolding program
second-IsPrefixEntry = record {
  class_of = ipv4_prefix;
  prefix = 184549376;
  prefixlen = 8;
  max_prefixlen = 8;
  asnum = 64496;
  shape = refl;
  fit = record {
    known = refl;
    fits = (refl, omega arith, omega arith, omega arith, omega arith, omega arith);
  };
  wired = refl;
}

abbrev first_row : PrefixRow
first_row = record {
  asnum = 64496;
  address_bytes = 4;
  prefix = 167772160;
  prefixlen = 8;
  max_prefixlen = 16;
}

abbrev some_timing : Timing
some_timing = record { refresh = 3600; retry = 600; expire = 7200 }

abbrev database : Database
database = record {
  cache = record {
    version = some 1;
    nonce = some 77;
    serial = some 5;
    updated = some 0;
    timing = some some_timing;
  };
  prefixes = first_row ∷ [];
  keys = [];
}

abbrev client : Client
client = record {
  version = some 1;
  serial = some 5;
  nonce = some 77;
  timing = some_timing;
  updated = 0;
  sql = some database;
}

-- first is withdrawn, second announced.
abbrev update_bytes : List ℕ
update_bytes =
    1 ∷ 4 ∷ 0 ∷ 0 ∷ 0 ∷ 0 ∷ 0 ∷ 20 ∷ 1 ∷ 8 ∷ 8 ∷ 0 ∷ 11 ∷ 0 ∷ 0 ∷ 0 ∷ 0 ∷ 0 ∷ 251 ∷ 240 ∷ 1 ∷ 4 ∷ 0
    ∷ 0 ∷ 0 ∷ 0 ∷ 0 ∷ 20 ∷ 0 ∷ 8 ∷ 16 ∷ 0 ∷ 10 ∷ 0 ∷ 0 ∷ 0 ∷ 0 ∷ 0 ∷ 251 ∷ 240 ∷ []

abbrev stored : FileName → Option (List ℕ)
stored (ixfr_file serial from_serial version) = some update_bytes
stored (axfr_file serial version) = some second.bytes

abbrev directory : Directory
directory = record { current = λ v. some (6 ∷ 77 ∷ []); file = stored }

abbrev server : Server
server = record {
  version = some 1;
  current_serial = none;
  current_nonce = none;
  refresh = none;
  retry = none;
  expire = none;
}

update_runs : save_ixfr (second ∷ []) (first ∷ []) ≡ ok update_bytes
unfolding program
update_runs = refl

timed : make_timing server.refresh server.retry server.expire ≡ ok some_timing
unfolding program
timed = refl

client-HasRows : HasRows (first ∷ []) (first_row ∷ [])
unfolding program
client-HasRows x = ground (arith, prefix_row_eq_iff first_row x, prefix_row_eq_iff x first_row)

full_runs : save_axfr (second ∷ []) ≡ second.bytes
unfolding program
full_runs = refl

-- The client is at serial number 6 with the second row.
abbrev Updated : Server × List ℕ → Type 0
Updated (s', bytes) =
    (c' : Client) × (feed (talk 1000) bytes (idle (some 1) (client, []))
      ≡ ok (idle (some 1) (c', [])))
    × IsAt 1 6 77 (HasRows (second ∷ [])) c'

serve-serial_query_example :
    Returns
      (serve directory
        (record { class_of = serial_query; version = 1; content = serial_content 5 77 })
        server)
      Updated
unfolding program
serve-serial_query_example =
    serve-serial_query 1000 1 6 77 server some_timing timed (omega arith) (omega arith)
      (omega arith) (first ∷ []) (second ∷ []) (tt, tt) (tt, tt) (first-IsPrefixEntry, tt)
      (second-IsPrefixEntry, tt) directory client database [] refl refl refl refl 5 update_bytes
      (λ e. omega (arith, e)) refl update_runs refl client-HasRows

-- The server has another nonce than the client.
abbrev restarted : Directory
restarted = record { current = λ v. some (6 ∷ 78 ∷ []); file = stored }

abbrev Transferred : Server × List ℕ → Type 0
Transferred (s', bytes) =
    (c' : Client) × (feed (talk 1000) bytes (idle (some 1) (client, []))
      ≡ ok (idle (some 1) (c', [])))
    × IsAt 1 6 78 (HasRows (second ∷ [])) c'

client-Restarts : Restarts client 78 database
client-Restarts = inl (λ e. omega (arith, ap (or_length 0) e))

serve-reset_query_example :
    Returns
      (serve restarted
        (record { class_of = reset_query; version = 1; content = empty_content })
        server)
      Transferred
unfolding program
serve-reset_query_example =
    serve-reset_query 1000 1 6 78 server some_timing timed (omega arith) (omega arith) (omega arith)
      (second ∷ []) (tt, tt) (second-IsPrefixEntry, tt) restarted client database [] refl refl refl
      refl refl client-Restarts

finish_set-IsStrict_example :
    IsStrict (finish_set (first ∷ second ∷ first ∷ []))
    × ((b : List ℕ)
        → has_bytes b (finish_set (first ∷ second ∷ first ∷ []))
          ≡ has_bytes b (first ∷ second ∷ first ∷ []))
finish_set-IsStrict_example = finish_set-IsStrict (first ∷ second ∷ first ∷ [])

finish_set_runs : finish_set (first ∷ second ∷ first ∷ []) ≡ second ∷ first ∷ []
unfolding program
finish_set_runs = refl

from_roa_lem_example :
    ((8 ≤ 16) × (16 ≤ 32)
      → Returns
          (from_roa 1 64496 (ipv4_address 167772160) 8 (some 16))
          (Announces 1 (ipv4_address 167772160) 8 16 64496))
    × (¬ ((8 ≤ 16) × (16 ≤ 32))
        → from_roa 1 64496 (ipv4_address 167772160) 8 (some 16) ≡ err corrupt_data)
from_roa_lem_example =
    from_roa_lem 1 64496 (ipv4_address 167772160) 8 (some 16) (omega arith) (omega arith)
      (omega arith)

-- There is no incremental file from serial number 3.
abbrev full_only : FileName → Option (List ℕ)
full_only (ixfr_file serial from_serial version) = none
full_only (axfr_file serial version) = some second.bytes

abbrev sparse : Directory
sparse = record { current = λ v. some (6 ∷ 77 ∷ []); file = full_only }

serve-stale_example :
    Returns
      (serve sparse
        (record { class_of = serial_query; version = 1; content = serial_content 3 77 })
        server)
      (λ (s', bytes). Forgets 1000 1 (omega arith) client database [] refl refl bytes)
serve-stale_example =
    serve-stale 1000 1 (omega arith) client database [] refl refl sparse server 6 77 3 77 refl refl
      (inr ((λ e. omega (arith, e)), refl))

abbrev before : Directory
before = record { current = λ v. some (5 ∷ 77 ∷ []); file = stored }

mark_current-Taken_example : Returns (mark_current 99 false ((5 + 1) % 2 ^ 32) 1 before) (λ dir'.
    Returns
      (serve dir'
        (record { class_of = serial_query; version = 1; content = serial_content 5 77 })
        server)
      (λ (s', bytes).
        (c' : Client) × (feed (talk 1000) bytes (idle (some 1) (client, []))
          ≡ ok (idle (some 1) (c', [])))
        × IsAt 1 ((5 + 1) % 2 ^ 32) 77 (HasRows (second ∷ [])) c'))
unfolding program
mark_current-Taken_example =
    mark_current-Taken 1000 1 5 77 1 (omega arith) (omega arith) (omega arith) 99 false before
      server client database [] refl refl refl refl some_timing timed (omega arith) (first ∷ [])
      (second ∷ []) (tt, tt) (tt, tt) (first-IsPrefixEntry, tt) (second-IsPrefixEntry, tt) 5
      update_bytes (omega arith) (omega arith) (λ e. omega (arith, e)) refl update_runs refl
      client-HasRows

seq_ge_steps_example :
    ((seq_ge ((5 + 4) % 2 ^ 32) 5 ≡ true) ↔ (4 < 2 ^ 31))
    × ((seq_ge 5 ((5 + 4) % 2 ^ 32) ≡ true) ↔ ((◌≡◌ {A = ℕ} 4 0) ⊎ (2 ^ 31 < 4)))
seq_ge_steps_example = seq_ge_steps 5 4 (omega arith) (omega arith)
