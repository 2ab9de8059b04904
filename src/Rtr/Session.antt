-- ===== src/Rtr/Session.antt =====
-- A server and a client together: what the client holds once it has read an answer.
pub mod Answers
pub mod Transfer
pub mod Stale
pub mod Marked
use rpki_net.Prelude.{
  ℕ, zero, suc, ◌≡◌, ◌≢◌, ◌<◌, ◌≤◌, ◌^◌, ◌&&◌, refl, Bool, true, false, not, leb, ltb, List, [],
  ◌∷◌, ◌++◌, All, arith, Option, none, some, ◌==◌, ◌⊎◌, inl, inr, ap, sym, ◌∙◌, subst,
  if◌then◌else◌, Bool-cases,
}
use mathlib.Core.List.{append-nil, append_assoc}
use rpki_net.Result.{
  IfReturns, after_call, returned, Result, ok, err, value_error, guard, ◌>>=◌, ◌>>◌, >>=-eq-ok,
  ok-injective, Returns,
}
use rpki_net.Rtr.Pdu.{
  Pdu, end_of_data_v0, end_of_data_v1, serial_content, timing_content, to_pdu, version_map,
  find_class, pdu_class, pdu_type, base,
}
use rpki_net.Rtr.Body.{eq_same}
use rpki_net.Rtr.Wire.{IsFit}
use rpki_net.Rtr.Check.{
  or_default, default_refresh, default_retry, default_expire, Timing, limited, valid_refresh,
  valid_retry, valid_expire, make_timing, make_end_of_data,
}
use rpki_net.Rtr.Client.{
  default_timing, PrefixRow, Database, Client, deliver, end_of_data, with_sql,
}
use rpki_net.Rtr.Client.Updates.{Talker, talk, with_prefixes, deliver_all-flagged}
use rpki_net.Rtr.Server.{
  Server, Directory, cache_response_pdu, send_response, get_serial, read_current,
}
use rpki_net.Rtr.Channel.Stream.{write_all, deliver_all}

limited-le : (low high n m : ℕ) → limited low high n ≡ ok m → m ≤ high
limited-le low high n m e =
    let (x, h, k) = >>=-eq-ok (guard (leb low n && leb n high) value_error) (λ x. ok n) e in
    elim (Bool-cases (leb low n && leb n high)) [
      | inl t ↦ ground (arith, t, ok-injective k)
      | inr f ↦ absurd (
          let g : guard false value_error ≡ ok x = subst (λ b. guard b value_error ≡ ok x) f h in
          cc)
    ]

abbrev TimingFits : Timing → Type 0
TimingFits t = (t.refresh < 256 ^ 4) × (t.retry < 256 ^ 4) × (t.expire < 256 ^ 4)

-- The timing parameters fit their fields.
make_timing-TimingFits :
    (refresh retry expire : Option ℕ) → IfReturns TimingFits (make_timing refresh retry expire)
unfolding make_timing valid_refresh valid_retry valid_expire
make_timing-TimingFits refresh retry expire =
    let n = or_default default_refresh refresh in
    let m = or_default default_retry retry in
    let k = or_default default_expire expire in
    after_call TimingFits (limited 120 86400 n) _ (λ a ea.
      after_call TimingFits (limited 120 7200 m) _ (λ b eb.
        after_call TimingFits (limited 600 172800 k) _ (λ c ec.
          returned TimingFits (record { refresh = a; retry = b; expire = c })
            (
              omega (arith, limited-le 120 86400 n a ea),
              omega (arith, limited-le 120 7200 m b eb),
              omega (arith, limited-le 600 172800 k c ec),
            ))))

-- The client is at a serial number and nonce, with these prefixes.
abbrev pub IsAt : ℕ → ℕ → ℕ → (List PrefixRow → Type 0) → Client → Type 0
IsAt version serial nonce Prefixes c =
    (c.version ≡ some version)
    × (c.serial ≡ some serial)
    × (c.nonce ≡ some nonce)
    × (db : Database) × (c.sql ≡ some db)
    × Prefixes db.prefixes
    × (db.cache.serial ≡ some serial)
    × (db.cache.nonce ≡ some nonce)

module _ (serial nonce : ℕ) (refresh retry expire : Option ℕ) (t : Timing)
    (timed : make_timing refresh retry expire ≡ ok t) (hs : serial < 256 ^ 4) (hn : nonce < 256 ^ 2)
    (now : ℕ) (c : Client) (db : Database) (out : List Pdu) where
  pub record Ends (version : ℕ) : Type 0 where
    pub last : Pdu
    pub made : make_end_of_data version serial nonce refresh retry expire ≡ ok last
    pub fit : IsFit last
    pub versioned : last.version ≡ version
    pub taken :
        (rows : List PrefixRow)
        → (c' : Client) × (talk now last (with_prefixes c db rows, out) ≡ ok (c', out))
          × IsAt version serial nonce (λ rows'. rows' ≡ rows) c'

  IsAt-end :
      (version : ℕ) (timing : Timing) (rows : List PrefixRow)
      → c.version ≡ some version
      → (c' : Client) × (end_of_data now version serial nonce timing (with_prefixes c db rows)
          ≡ ok c')
        × IsAt version serial nonce (λ rows'. rows' ≡ rows) c'
  unfolding end_of_data
  IsAt-end version timing rows hc = (
    record c {
      serial = some serial;
      nonce = some nonce;
      timing = timing;
      updated = now;
      sql = some (record {
        cache = record {
          version = some version;
          nonce = some nonce;
          serial = some serial;
          updated = some now;
          timing = some timing;
        };
        prefixes = rows;
        keys = db.keys;
      });
    },
    rw (hc, eq_same version) refl,
    (hc, refl, refl, _, refl, refl, refl, refl),
  )

  pub ends : (version : ℕ) → version < 2 → c.version ≡ some version → Ends version
  unfolding make_end_of_data pdu_class version_map find_class pdu_type base deliver
  ends zero v hc = record {
    last = record { class_of = end_of_data_v0; version = 0; content = serial_content serial nonce };
    made = rw timed refl;
    fit = record { known = refl; fits = (refl, hs, hn) };
    versioned = refl;
    taken = λ rows.
        let (c', e, h) = IsAt-end 0 default_timing rows hc in (c', rw (e, append-nil out) refl, h);
  }
  ends (suc zero) v hc =
      let (f0, f1, f2) = (make_timing-TimingFits refresh retry expire).result t timed in
      record {
        last = record {
          class_of = end_of_data_v1;
          version = 1;
          content = timing_content serial nonce t.refresh t.retry t.expire;
        };
        made = rw timed refl;
        fit = record { known = refl; fits = (refl, hs, hn, f0, f1, f2) };
        versioned = refl;
        taken =
            λ rows. let (c', e, h) = IsAt-end 1 t rows hc in (c', rw (e, append-nil out) refl, h);
      }
  ends (suc (suc version)) v hc = absurd (omega (arith, v))

write_all-append :
    (ps qs : List Pdu)
    → write_all (ps ++ qs) ≡ (write_all ps >>= λ a. write_all qs >>= λ b. ok (a ++ b))
unfolding write_all
write_all-append [] qs = same (write_all qs)
  where
    same : (m : Result (List ℕ)) → m ≡ (m >>= λ b. ok b)
    same (ok b) = refl
    same (err e) = refl
write_all-append (p ∷ ps) qs =
    rw (write_all-append ps qs) (same (to_pdu none p) (write_all ps) (write_all qs))
  where
    same :
        (l m n : Result (List ℕ))
        → (l >>= λ a. m >>= (λ b. n >>= λ c. ok (b ++ c)) >>= λ bc. ok (a ++ bc))
          ≡ ((l >>= λ a. m >>= λ b. ok (a ++ b)) >>= λ ab. n >>= λ c. ok (ab ++ c))
    same (err e) m n = refl
    same (ok a) (err e) n = refl
    same (ok a) (ok b) (err e) = refl
    same (ok a) (ok b) (ok c) = ap {B = Result (List ℕ)} ok (sym (append_assoc a b c))

module _ {S : Type 0} (handle : Pdu → S → Result S) where
  pub deliver_all-append :
      (ps qs : List Pdu) (s : S)
      → deliver_all handle (ps ++ qs) s ≡ (deliver_all handle ps s >>= deliver_all handle qs)
  unfolding deliver_all
  deliver_all-append [] qs s = refl
  deliver_all-append (p ∷ ps) qs s = go (handle p s) (λ s'. deliver_all-append ps qs s')
    where
      go :
          (m : Result S)
          → ((s' : S)
              → deliver_all handle (ps ++ qs) s'
                ≡ (deliver_all handle ps s' >>= deliver_all handle qs))
          → (m >>= λ s'. deliver_all handle (ps ++ qs) s')
            ≡ (m >>= (λ s'. deliver_all handle ps s') >>= deliver_all handle qs)
      go (ok s') ih = ih s'
      go (err e) ih = refl

-- An answer is the bytes of PDUs: Cache Response, changes, End of Data.
pub send_response-write_all :
    (version serial nonce : ℕ) (ps : List Pdu) (last : Pdu) (content : List ℕ) (s : Server)
    → make_end_of_data version serial nonce s.refresh s.retry s.expire ≡ ok last
    → write_all ps ≡ ok content
    → send_response version serial nonce content s
      ≡ write_all (cache_response_pdu version nonce ∷ ps ++ last ∷ [])
unfolding send_response write_all
send_response-write_all version serial nonce ps last content s e h =
    rw (e, write_all-append ps (last ∷ []), h)
      (go (to_pdu none (cache_response_pdu version nonce)) (to_pdu none last))
  where
    go :
        (l m : Result (List ℕ))
        → (l >>= λ begin. m >>= λ end. ok (begin ++ content ++ end)) ≡ (
            l >>= λ begin.
            (m >>= (λ end. ok (end ++ [])) >>= (λ end. ok (content ++ end))) >>= λ rest.
            ok (begin ++ rest))
    go (err e) m = refl
    go (ok begin) (err e) = refl
    go (ok begin) (ok end) =
        rw (append-nil end) (ap {B = Result (List ℕ)} ok (append_assoc begin content end))

pub get_serial-known :
    (dir : Directory) (s : Server) (version serial nonce : ℕ)
    → s.version ≡ some version
    → dir.current version ≡ some (serial ∷ nonce ∷ [])
    → get_serial dir s ≡ ok (record s { current_serial = some serial; current_nonce = some nonce })
unfolding get_serial read_current
get_serial-known dir s version serial nonce hs current =
    rw (hs, current, read_current, get_serial) refl
