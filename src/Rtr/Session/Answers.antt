-- ===== src/Rtr/Session/Answers.antt =====
-- A client that reads the answer to a query holds what the server has.
use rpki_net.Prelude.{
  ℕ, zero, suc, ◌≡◌, ◌≢◌, ◌<◌, ◌^◌, refl, false, List, [], ◌∷◌, ◌++◌, All, arith, Option, none,
  some, ◌==◌, ap, sym, ◌∙◌, subst,
}
use mathlib.Core.List.{append-nil}
use rpki_net.Result.{Result, ok, err, ◌>>=◌, Returns, Returns-bind, Returns-map, Returns-ok}
use rpki_net.Rtr.Pdu.{
  Pdu, serial_query, serial_content, cache_response, version_map, find_class, pdu_class, pdu_type,
  base,
}
use rpki_net.Rtr.Wire.{IsFit}
use rpki_net.Rtr.Body.{eq_same}
use rpki_net.Rtr.Check.{Timing, make_timing}
use rpki_net.Rtr.Generator.{Entry, changes, save_ixfr, write_changes}
use rpki_net.Rtr.Generator.Sorted.{IsStrict}
use rpki_net.Rtr.Generator.Prefixes.{
  IsPrefixEntry, entry_row, entry_row-agrees, flagged_all, changes-IsChange, write_changes-flagged,
  flagged_all-FitAll,
}
use rpki_net.Rtr.Client.{PrefixRow, Database, Client, deliver, responded}
use rpki_net.Rtr.Client.Tables.{Holds, apply_rows, apply_rows-changes}
use rpki_net.Rtr.Client.Updates.{Talker, talk, with_prefixes, deliver_all-flagged}
use rpki_net.Rtr.Server.{
  Server, Directory, ixfr_file, cache_response_pdu, send_response, serve, get_serial, answer_serial,
  send_file, send_reset,
}
use rpki_net.Rtr.Channel.{feed}
use rpki_net.Rtr.Channel.Stream.{write_all, deliver_all, idle, FitAll, seen_after, feed-write_all}
use rpki_net.Rtr.Session.{IsAt, ends, deliver_all-append, send_response-write_all, get_serial-known}

-- The table of prefixes holds just the rows of the entries.
abbrev pub HasRows : List Entry → List PrefixRow → Type 0
HasRows es rows = Holds entry_row rows (λ x. false) es

seen_after-same :
    (version : ℕ) (ps : List Pdu)
    → FitAll (some version) ps
    → seen_after (some version) ps ≡ some version
seen_after-same version [] f = refl
seen_after-same version (p ∷ ps) f =
    subst (λ v. FitAll (some v) ps → seen_after (some v) ps ≡ some version) f.1
      (seen_after-same version ps) f.2

no_misses : (es : List Entry) → All (λ e. (λ (x : PrefixRow). false) (entry_row e) ≡ false) es
no_misses [] = tt
no_misses (e ∷ es) = (refl, no_misses es)

known_response :
    (version : ℕ) → version < 2 → pdu_class version (pdu_type cache_response) ≡ some cache_response
unfolding pdu_class version_map find_class pdu_type
known_response zero h = refl
known_response (suc zero) h = refl
known_response (suc (suc version)) h = absurd (omega (arith, h))

responded-same :
    (nonce : ℕ) (own : Option ℕ) (c : Client) → own ≡ some nonce → responded nonce own c ≡ ok c
unfolding responded
responded-same nonce own c e = rw (e, eq_same nonce) refl

module _ (now version serial nonce : ℕ) (s : Server) (t : Timing)
    (timed : make_timing s.refresh s.retry s.expire ≡ ok t) (hv : version < 2)
    (hs : serial < 256 ^ 4) (hn : nonce < 256 ^ 2) (old new : List Entry) (so : IsStrict old)
    (sn : IsStrict new) (po : All (IsPrefixEntry version) old)
    (pn : All (IsPrefixEntry version) new) where
  -- What follows the Cache Response.
  changes-taken :
      (c : Client) (db : Database) (out : List Pdu) (rows : List PrefixRow)
      (hc : c.version ≡ some version)
      → HasRows old rows
      → (c' : Client) × (deliver_all
            (talk now)
            (flagged_all (changes old new)
              ++ (ends serial nonce s.refresh s.retry s.expire t timed hs hn now c db out version hv
                  hc).last
                ∷ [])
            (with_prefixes c db rows, out)
          ≡ ok (c', out))
        × IsAt version serial nonce (HasRows new) c'
  unfolding deliver_all
  changes-taken c db out rows hc h =
      let e =
        ends serial nonce s.refresh s.retry s.expire t timed hs hn now c db out version hv hc in
      let (rows', applied, holds) =
        Returns-ok (HasRows new) (apply_rows entry_row (changes old new) rows) (
          apply_rows-changes entry_row (IsPrefixEntry version) (entry_row-agrees version) old new so
            sn po pn (λ x. false) rows (no_misses old) (no_misses new) h) in
      let (c', took, at) = e.taken rows' in
      (
        c',
        rw
            (
              deliver_all-append (talk now) (flagged_all (changes old new)) (e.last ∷ [])
                  (with_prefixes c db rows, out),
              deliver_all-flagged now version c db out (changes old new) rows
                  (changes-IsChange version old new po pn),
              applied,
              took,
            )
            refl,
        let (v, n, o, db', sql, same, m, k) = at in
            (v, n, o, db', sql, subst (HasRows new) (sym same) holds, m, k),
      )

  -- A client that holds the old rows once it has read the Cache Response, and the new ones when it has
  -- read the whole answer.
  pub answer-taken :
      (c0 c : Client) (db : Database) (out : List Pdu) (rows : List PrefixRow) (content : List ℕ)
      → talk now (cache_response_pdu version nonce) (c0, out) ≡ ok (with_prefixes c db rows, out)
      → c.version ≡ some version
      → HasRows old rows
      → write_changes (changes old new) ≡ ok content
      → Returns (send_response version serial nonce content s) (λ bytes.
        (c' : Client) × (feed (talk now) bytes (idle (some version) (c0, out))
          ≡ ok (idle (some version) (c', out)))
        × IsAt version serial nonce (HasRows new) c')
  unfolding deliver_all pdu_class version_map find_class pdu_type base
  answer-taken c0 c db out rows content began hc h written =
      let e =
        ends serial nonce s.refresh s.retry s.expire t timed hs hn now c db out version hv hc in
      let kinds = changes-IsChange version old new po pn in
      let ps : List Pdu = flagged_all (changes old new) ++ e.last ∷ [] in
      let begin-IsFit : IsFit (cache_response_pdu version nonce) = record {
        known = known_response version hv;
        fits = (refl, hn);
      } in
      let end-FitAll : FitAll (some version) (e.last ∷ []) = (e.fit, sym e.versioned, tt) in
      let fits : FitAll (some version) (cache_response_pdu version nonce ∷ ps) = (
        begin-IsFit,
        refl,
        flagged_all-FitAll version (changes old new) (e.last ∷ []) kinds end-FitAll,
      ) in
      let (c', took, at) = changes-taken c db out rows hc h in
      rw
        (send_response-write_all version serial nonce (flagged_all (changes old new)) e.last content
          s e.made (sym (write_changes-flagged version (changes old new) kinds) ∙ written))
        (Returns-map _ _ (write_all (cache_response_pdu version nonce ∷ ps))
          (feed-write_all (talk now) (cache_response_pdu version nonce ∷ ps) (some version)
            (c0, out) fits)
          (λ bytes fed. (
            c',
            fed
                ∙ rw
                    (
                      began,
                      took,
                      seen_after-same version (cache_response_pdu version nonce ∷ ps) fits,
                    )
                    refl,
            at,
          )))

  module _ (dir : Directory) (c : Client) (db : Database) (out : List Pdu)
      (hs' : s.version ≡ some version) (current : dir.current version ≡ some (serial ∷ nonce ∷ []))
      (hc : c.version ≡ some version) (hq : c.sql ≡ some db) where
    -- The client reads the answer and holds the new rows.
    abbrev pub Taken : Server × List ℕ → Type 0
    Taken (s', bytes) =
        (c' : Client) × (feed (talk now) bytes (idle (some version) (c, out))
          ≡ ok (idle (some version) (c', out)))
        × IsAt version serial nonce (HasRows new) c'

    abbrev pub now_current : Server
    now_current = record s { current_serial = some serial; current_nonce = some nonce }

    pub get_serial-current : get_serial dir s ≡ ok now_current
    get_serial-current = get_serial-known dir s version serial nonce hs' current

    abbrev pub Read : List ℕ → Type 0
    Read bytes = Taken (now_current, bytes)

    pub with_server :
        (content : List ℕ)
        → Returns (send_response version serial nonce content s) Read
        → Returns
            (send_response version serial nonce content now_current >>= λ bytes.
              ok (now_current, bytes))
            Taken
    unfolding send_response
    with_server content h =
        Returns-bind Read Taken (send_response version serial nonce content now_current)
          (λ bytes. ok (now_current, bytes)) h (λ bytes k. k)

    same_client : c ≡ with_prefixes c db db.prefixes
    same_client = ap {B = Client} (λ q. record c { sql = q }) hq

    pub begun-same :
        c.nonce ≡ some nonce
        → talk now (cache_response_pdu version nonce) (c, out)
          ≡ ok (with_prefixes c db db.prefixes, out)
    unfolding deliver
    begun-same hn' =
        rw (responded-same nonce c.nonce c hn', append-nil out)
          (ap {B = Result Talker} (λ x. ok (x, out)) same_client)

    -- A Serial Query, whose serial number is not the current one, but which has the current nonce, is
    -- answered from the incremental file between the two; and a client with this nonce and the rows
    -- of the old set, which waits for the answer, has the rows of the new set, the current serial
    -- number and the nonce once the bytes have come in, and pushes nothing. The sets are strictly
    -- ascending and announce prefixes, and the file holds the differences.
    pub serve-serial_query :
        (old_serial : ℕ) (content : List ℕ)
        → serial ≢ old_serial
        → dir.file (ixfr_file serial old_serial version) ≡ some content
        → save_ixfr new old ≡ ok content
        → c.nonce ≡ some nonce
        → HasRows old db.prefixes
        → Returns
            (serve dir
              (record {
                class_of = serial_query;
                version = version;
                content = serial_content old_serial nonce;
              })
              s)
            Taken
    unfolding serve save_ixfr answer_serial send_file
    serve-serial_query old_serial content different file saved hn' h =
        rw (get_serial-current, answered)
          (with_server content
            (answer-taken c c db out db.prefixes content (begun-same hn') hc h saved))
      where
        distinct : (serial == old_serial) ≡ false
        distinct = ground (arith, different)

        then_some :
            (m : Result (List ℕ))
            → ((m >>= λ bytes. ok (some bytes)) >>= λ sent. elim sent [
              | none ↦ send_reset version
              | some bytes ↦ ok bytes
            ])
              ≡ m
        then_some (ok bytes) = refl
        then_some (err e) = refl

        answered :
            answer_serial dir
              (record {
                class_of = serial_query;
                version = version;
                content = serial_content old_serial nonce;
              })
              version
              old_serial
              nonce
              (some serial)
              (some nonce)
              now_current
            ≡ send_response version serial nonce content now_current
        answered =
            rw (eq_same nonce, distinct, eq_same version, file, answer_serial, send_file)
              (then_some (send_response version serial nonce content now_current))
