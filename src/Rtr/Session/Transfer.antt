-- ===== src/Rtr/Session/Transfer.antt =====
-- A client that asks for everything.
use rpki_net.Prelude.{
  ℕ, ◌≡◌, ◌≢◌, ◌<◌, ◌^◌, refl, false, List, [], ◌∷◌, All, arith, Option, none, some, ◌==◌, ◌⊎◌, inl,
  inr, ◌∙◌,
}
use mathlib.Core.List.{append-nil}
use rpki_net.Result.{Result, ok, err, ◌>>=◌, Returns}
use rpki_net.Rtr.Pdu.{Pdu, reset_query, empty_content}
use rpki_net.Rtr.Body.{eq_same}
use rpki_net.Rtr.Check.{Timing, make_timing}
use rpki_net.Rtr.Generator.{Entry, save_axfr}
use rpki_net.Rtr.Generator.Sorted.{IsStrict}
use rpki_net.Rtr.Generator.Prefixes.{IsPrefixEntry, write_changes-save_axfr}
use rpki_net.Rtr.Client.{Database, Client, deliver, responded, cache_reset_client, has_prefix}
use rpki_net.Rtr.Client.Updates.{talk, with_prefixes}
use rpki_net.Rtr.Server.{
  Server, Directory, axfr_file, cache_response_pdu, send_response, serve, answer_reset, send_file,
}
use rpki_net.Rtr.Session.Answers.{
  Taken, Read, get_serial-current, with_server, begun-same, answer-taken,
}

-- The client starts from nothing: its nonce is another one, or there is none, or its table is empty.
abbrev pub Restarts : Client → ℕ → Database → Type 0
Restarts c nonce db = (c.nonce ≢ some nonce) ⊎ ((c.nonce ≡ some nonce) × (db.prefixes ≡ []))

responded-other :
    (nonce : ℕ) (own : Option ℕ) (c : Client)
    → own ≢ some nonce
    → responded nonce own c ≡ cache_reset_client c
unfolding responded
responded-other nonce none c h = refl
responded-other nonce (some m) c h =
    let distinct : (nonce == m) ≡ false = ground (arith, h) in rw distinct refl

module _ (now version serial nonce : ℕ) (s : Server) (t : Timing)
    (timed : make_timing s.refresh s.retry s.expire ≡ ok t) (hv : version < 2)
    (hs : serial < 256 ^ 4) (hn : nonce < 256 ^ 2) (new : List Entry) (sn : IsStrict new)
    (pn : All (IsPrefixEntry version) new) (dir : Directory) (c : Client) (db : Database)
    (out : List Pdu) (hs' : s.version ≡ some version)
    (current : dir.current version ≡ some (serial ∷ nonce ∷ [])) (hc : c.version ≡ some version)
    (hq : c.sql ≡ some db) where
  -- Everything is taken.
  abbrev AllTaken : Server × List ℕ → Type 0
  AllTaken =
      Taken now version serial nonce s t timed hv hs hn [] new tt sn tt pn dir c db out hs' current
        hc hq

  abbrev AllRead : Type 0
  AllRead = Returns (send_response version serial nonce (save_axfr new) s) (
      Read now version serial nonce s t timed hv hs hn [] new tt sn tt pn dir c db out hs' current
        hc hq)

  restarted :
      (c1 : Client) (db1 : Database)
      → talk now (cache_response_pdu version nonce) (c, out) ≡ ok (with_prefixes c1 db1 [], out)
      → c1.version ≡ some version
      → AllRead
  unfolding has_prefix
  restarted c1 db1 began hc1 =
      answer-taken now version serial nonce s t timed hv hs hn [] new tt sn tt pn c c1 db1 out []
        (save_axfr new) began hc1 (λ x. refl) (write_changes-save_axfr version new pn)

  abbrev reset_client : Client
  reset_client = record c { serial = none }

  abbrev reset_database : Database
  reset_database = record {
    cache = record (db.cache) { version = c.version; serial = none };
    prefixes = [];
    keys = [];
  }

  begun-other :
      c.nonce ≢ some nonce
      → talk now (cache_response_pdu version nonce) (c, out)
        ≡ ok (with_prefixes reset_client reset_database [], out)
  unfolding deliver cache_reset_client
  begun-other h = rw (responded-other nonce c.nonce c h, hq, append-nil out) refl

  all_read : Restarts c nonce db → AllRead
  all_read (inl h) = restarted reset_client reset_database (begun-other h) hc
  all_read (inr (h, e)) =
      restarted c db
        (begun-same now version serial nonce s t timed hv hs hn [] new tt sn tt pn dir c db out hs'
            current hc hq h
          ∙ rw e refl)
        hc

  -- A Reset Query is answered from the full file, and a client that starts from nothing (its nonce is
  -- not the server's, or its table is empty) and waits for the answer has just the rows of the set,
  -- the current serial number and the nonce once the bytes have come in, and pushes nothing. The set
  -- is strictly ascending and announces prefixes.
  pub serve-reset_query :
      dir.file (axfr_file serial version) ≡ some (save_axfr new)
      → Restarts c nonce db
      → Returns
          (serve dir
            (record { class_of = reset_query; version = version; content = empty_content })
            s)
          AllTaken
  unfolding serve answer_reset send_file
  serve-reset_query file start =
      rw
        (
          get_serial-current now version serial nonce s t timed hv hs hn [] new tt sn tt pn dir c db
              out hs' current hc hq,
          answered,
        )
        (with_server now version serial nonce s t timed hv hs hn [] new tt sn tt pn dir c db out hs'
          current hc hq (save_axfr new) (all_read start))
    where
      q : Pdu
      q = record { class_of = reset_query; version = version; content = empty_content }

      s' : Server
      s' = record s { current_serial = some serial; current_nonce = some nonce }

      then_some :
          (m n : Result (List ℕ))
          → ((m >>= λ bytes. ok (some bytes)) >>= λ sent. elim sent [
            | none ↦ n
            | some bytes ↦ ok bytes
          ])
            ≡ m
      then_some (ok bytes) n = refl
      then_some (err e) n = refl

      answered :
          answer_reset dir q version (some serial) (some nonce) s'
          ≡ send_response version serial nonce (save_axfr new) s'
      answered =
          rw (eq_same version, file, answer_reset, send_file)
            (then_some (send_response version serial nonce (save_axfr new) s') _)
