-- ===== src/Rtr/Session/Marked.antt =====
-- `mark_current` of generator.py, then a Serial Query: what the clients get from the server once
-- another set has been made current.
use rpki_net.Prelude.{
  ℕ, ◌+◌, ◌%◌, ◌^◌, ◌<◌, ◌≤◌, ◌≡◌, ◌≢◌, ◌∙◌, Bool, List, ◌∷◌, [], some, arith, All,
}
use rpki_net.Result.{ok, Returns, Returns-map}
use rpki_net.Rtr.Pdu.{Pdu, serial_query, serial_content}
use rpki_net.Rtr.Check.{Timing, make_timing}
use rpki_net.Rtr.Generator.{Entry, save_ixfr}
use rpki_net.Rtr.Generator.Sorted.{IsStrict}
use rpki_net.Rtr.Generator.Prefixes.{IsPrefixEntry}
use rpki_net.Rtr.Current.{mark_current, mark_current-IsMarked}
use rpki_net.Rtr.Client.{Database, Client}
use rpki_net.Rtr.Server.{Server, Directory, ixfr_file, serve}
use rpki_net.Rtr.Client.Updates.{talk}
use rpki_net.Rtr.Channel.{feed}
use rpki_net.Rtr.Channel.Stream.{idle}
use rpki_net.Rtr.Session.{IsAt}
use rpki_net.Rtr.Session.Answers.{HasRows, serve-serial_query}

abbrev query : ℕ → ℕ → ℕ → Pdu
query version serial nonce = record {
  class_of = serial_query;
  version = version;
  content = serial_content serial nonce;
}

module _ (now version o n d : ℕ) (hv : version < 2) (ho : o < 2 ^ 32) (hd : d < 2 ^ 32) (random : ℕ)
    (force_zero_nonce : Bool) (dir : Directory) (s : Server) (c : Client) (db : Database)
    (out : List Pdu) (hs : s.version ≡ some version)
    (current : dir.current version ≡ some (o ∷ n ∷ [])) (hc : c.version ≡ some version)
    (hq : c.sql ≡ some db) where
  -- A set of version 0 or 1 is made current where the current file has a serial number of 32 bits and a
  -- nonce of 16, and the serial number of the set is at least one and at most 2 ** 31 steps after it,
  -- modulo 2 ** 32. If the file with the differences from the set of a client to this set has
  -- been written, a Serial Query of a client with the nonce from before brings this client to the new
  -- set: it has its rows and serial number, keeps the nonce, and asks for nothing more. The sets are
  -- strictly ascending and announce prefixes.
  pub mark_current-Taken :
      (t : Timing) (timed : make_timing s.refresh s.retry s.expire ≡ ok t) (hn : n < 256 ^ 2)
      (old new : List Entry) (so : IsStrict old) (sn : IsStrict new)
      (po : All (IsPrefixEntry version) old) (pn : All (IsPrefixEntry version) new) (old_serial : ℕ)
      (content : List ℕ)
      → 0 < d
      → d ≤ 2 ^ 31
      → (o + d) % 2 ^ 32 ≢ old_serial
      → dir.file (ixfr_file ((o + d) % 2 ^ 32) old_serial version) ≡ some content
      → save_ixfr new old ≡ ok content
      → c.nonce ≡ some n
      → HasRows old db.prefixes
      → Returns (mark_current random force_zero_nonce ((o + d) % 2 ^ 32) version dir) (λ dir'.
        Returns (serve dir' (query version old_serial n) s) (λ (s', bytes).
          (c' : Client) × (feed (talk now) bytes (idle (some version) (c, out))
            ≡ ok (idle (some version) (c', out)))
          × IsAt version ((o + d) % 2 ^ 32) n (HasRows new) c'))
  mark_current-Taken t timed hn old new so sn po pn old_serial content hd0 hd1 later file saved hn'
        h =
      let serial = (o + d) % 2 ^ 32 in
      Returns-map _ _ (mark_current random force_zero_nonce serial version dir)
        (mark_current-IsMarked random force_zero_nonce version o n d dir hv ho hd current)
        (λ dir' marked.
          let (made, kept) = marked.0 hd0 hd1 in
          serve-serial_query now version serial n s t timed hv (omega arith) hn old new so sn po pn
            dir' c db out hs made hc hq old_serial content later
            (kept (ixfr_file serial old_serial version) ∙ file) saved hn' h)
