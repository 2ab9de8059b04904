-- ===== src/Rtr/Session/Stale.antt =====
-- A client whose data the server cannot bring up to date.
use rpki_net.Prelude.{
  Bool-cases, ℕ, zero, suc, ◌≡◌, ◌≢◌, ◌<◌, refl, false, List, [], ◌∷◌, ◌++◌, arith, none, some,
  ◌==◌, ◌⊎◌, inl, inr, ap, sym, ◌∙◌,
}
use mathlib.Core.List.{append-nil}
use rpki_net.Result.{Result, ok, err, ◌>>=◌, Returns, Returns-bind}
use rpki_net.Rtr.Pdu.{
  Pdu, serial_query, reset_query, cache_reset, serial_content, empty_content, version_map,
  find_class, pdu_class, pdu_type, base, to_pdu,
}
use rpki_net.Rtr.Body.{eq_same}
use rpki_net.Rtr.Client.{Database, Client, deliver, cache_reset_client}
use rpki_net.Rtr.Client.Updates.{talk}
use rpki_net.Rtr.Server.{
  Server, Directory, ixfr_file, cache_reset_pdu, send_reset, serve, answer_serial, send_file,
}
use rpki_net.Rtr.Session.{get_serial-known}
use rpki_net.Rtr.Channel.{feed}
use rpki_net.Rtr.Channel.Stream.{idle, write_all, deliver_all, feed-write_all}

known_reset :
    (version : ℕ) → version < 2 → pdu_class version (pdu_type cache_reset) ≡ some cache_reset
unfolding pdu_class version_map find_class pdu_type
known_reset zero h = refl
known_reset (suc zero) h = refl
known_reset (suc (suc version)) h = absurd (omega (arith, h))

module _ (now version : ℕ) (hv : version < 2) (c : Client) (db : Database) (out : List Pdu)
    (hc : c.version ≡ some version) (hq : c.sql ≡ some db) where
  abbrev emptied : Client
  emptied = record c {
    serial = none;
    sql = some (record {
      cache = record (db.cache) { version = c.version; serial = none };
      prefixes = [];
      keys = [];
    });
  }

  abbrev asked : Pdu
  asked = record { class_of = reset_query; version = version; content = empty_content }

  talk-cache_reset : talk now (cache_reset_pdu version) (c, out) ≡ ok (emptied, out ++ asked ∷ [])
  unfolding deliver cache_reset_client
  talk-cache_reset = rw (hq, hc) refl

  -- The client forgets its rows and its serial number, and asks for everything.
  abbrev pub Forgets : List ℕ → Type 0
  Forgets bytes =
      (c' : Client) × (feed (talk now) bytes (idle (some version) (c, out))
        ≡ ok (idle (some version) (c', out ++ asked ∷ [])))
      × (c'.version ≡ some version)
      × (c'.serial ≡ none)
      × (c'.nonce ≡ c.nonce)
      × (db' : Database) × (c'.sql ≡ some db')
      × (db'.prefixes ≡ [])
      × (db'.keys ≡ [])
      × (db'.cache.serial ≡ none)

  send_reset-Forgets : Returns (send_reset version) Forgets
  unfolding send_reset write_all deliver_all base
  send_reset-Forgets = alone (to_pdu none (cache_reset_pdu version)) (
      feed-write_all (talk now) (cache_reset_pdu version ∷ []) (some version) (c, out)
        (record { known = known_reset version hv; fits = refl }, refl, tt))
    where
      alone :
          (m : Result (List ℕ))
          → Returns (m >>= λ a. ok (a ++ [])) (λ bs.
            feed (talk now) bs (idle (some version) (c, out)) ≡ (
              deliver_all (talk now) (cache_reset_pdu version ∷ []) (c, out) >>= λ s'.
              ok (idle (some version) s')))
          → Returns m Forgets
      alone (ok a) e = (
        emptied,
        ap (λ b. feed (talk now) b (idle (some version) (c, out))) (sym (append-nil a))
            ∙ e
            ∙ rw talk-cache_reset refl,
        hc,
        refl,
        refl,
        _,
        refl,
        refl,
        refl,
        refl,
      )
      alone (err raised) e = e

  -- A Serial Query with a nonce that is not the current one, or from whose serial number, which is not
  -- the current one, there is no incremental file, is answered such that a client that waits for the
  -- answer has forgotten its rows and its serial number once the bytes have come in, and pushes a
  -- Reset Query.
  pub serve-stale :
      (dir : Directory) (s : Server) (serial nonce old_serial old_nonce : ℕ)
      → s.version ≡ some version
      → dir.current version ≡ some (serial ∷ nonce ∷ [])
      → (nonce ≢ old_nonce)
        ⊎ ((serial ≢ old_serial) × (dir.file (ixfr_file serial old_serial version) ≡ none))
      → Returns
          (serve dir
            (record {
              class_of = serial_query;
              version = version;
              content = serial_content old_serial old_nonce;
            })
            s)
          (λ (s', bytes). Forgets bytes)
  unfolding serve answer_serial send_file
  serve-stale dir s serial nonce old_serial old_nonce hs current stale =
      rw (get_serial-known dir s version serial nonce hs current, answered stale)
        (Returns-bind Forgets (λ u. Forgets u.1) (send_reset version) (λ bytes. ok (s', bytes))
          send_reset-Forgets (λ bytes k. k))
    where
      s' : Server
      s' = record s { current_serial = some serial; current_nonce = some nonce }

      answered :
          (nonce ≢ old_nonce)
            ⊎ ((serial ≢ old_serial) × (dir.file (ixfr_file serial old_serial version) ≡ none))
          → answer_serial dir
              (record {
                class_of = serial_query;
                version = version;
                content = serial_content old_serial old_nonce;
              })
              version
              old_serial
              old_nonce
              (some serial)
              (some nonce)
              s'
            ≡ send_reset version
      answered (inl other) =
          let distinct : (nonce == old_nonce) ≡ false = ground (arith, other) in
          rw (distinct, answer_serial) refl
      answered (inr (later, missing)) =
          let distinct : (serial == old_serial) ≡ false = ground (arith, later) in
          elim (Bool-cases (nonce == old_nonce)) [
            | inl same ↦
                rw (same, distinct, eq_same version, missing, answer_serial, send_file) refl
            | inr other ↦ rw (other, answer_serial) refl
          ]
