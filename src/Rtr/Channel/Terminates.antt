-- ===== src/Rtr/Channel/Terminates.antt =====
-- The loops of the channel end within the rounds that they are given.
use rpki_net.Prelude.{
  ℕ, zero, suc, ◌<◌, ◌≤◌, ◌≡◌, ◌≢◌, refl, not, List, [], ◌∷◌, arith, Option, none, some, Bool-cases,
  inl, inr, ap, ltb, ltb→lt, leb, ◌==◌, length, subst,
}
use rpki_net.Result.{
  IfReturns, Error, Result, ok, err, out_of_fuel, guard, ◌>>=◌, assertion_error, type_error,
  corrupt_data, unsupported_pdu_type, unsupported_protocol_version,
}
use rpki_net.Rtr.Bytes.{split_at, unpack}
use rpki_net.Rtr.Pdu.{Pdu, PduClass, base, pdu_class, version_map}
use rpki_net.Rtr.Reader.{
  ReadBuffer, Callback, header, body, put, ready, available, check_version, read_body, got_pdu,
  got_header, retry, update, read_pdu,
}
use rpki_net.Rtr.Channel.{
  Channel, Ending, reading, closing, finished, raised, caught, error_report_code, version_seen,
  needed, read_all, end_read, start_new_pdu, found_terminator, receive, feed,
}
use rpki_net.Rtr.Channel.Waits.{Waits, found_terminator-Waits}
use rpki_net.Rtr.Channel.Chunks.{receive_full, receive_part, length-split_at}
use rpki_net.Rtr.Channel.Ends.{
  Settles, Any, settled, failing, bind-Settles, after_guard, unpack-Settles, read_body-Settles,
  Shorter,
}

-- A PDU that is returned has taken bytes.
abbrev Took : List ℕ → ReadBuffer × Option Pdu → Type 0
Took bs (r', none) = Unit {0}
Took bs (r', some p) = length r'.buffer < length bs

got_pdu-Settles : (c : PduClass) (v : ℕ) (r : ReadBuffer) → Settles (Took r.buffer) (got_pdu c v r)
unfolding got_pdu
got_pdu-Settles c v r = elim (Bool-cases (ready r)) [
  | inr wait ↦ rw (wait, got_pdu) (settled (Took r.buffer) (r, none) tt)
  | inl now ↦
      rw (now, got_pdu)
        (bind-Settles (Shorter r) (Took r.buffer) (read_body (base c) c v r) _
          (read_body-Settles r (base c) c v) (λ u h. settled (Took r.buffer) (u.0, some u.1) h))
]

check_version-Settles :
    (v : ℕ) (r : ReadBuffer) → Settles (λ r'. r'.buffer ≡ r.buffer) (check_version v r)
unfolding check_version
check_version-Settles v r = by_seen r.version
  where
    Kept : ReadBuffer → Type 0
    Kept r' = r'.buffer ≡ r.buffer

    known :
        (m : Option (List PduClass))
        → Settles Kept (elim m as (λ x. Result ReadBuffer) [
          | none ↦ err unsupported_protocol_version
          | some classes ↦ ok (record r { version = some v })
        ])
    known none = failing Kept unsupported_protocol_version (λ e. cc)
    known (some classes) = settled Kept (record r { version = some v }) refl

    by_seen :
        (seen : Option ℕ)
        → Settles Kept (elim seen as (λ x. Result ReadBuffer) [
          | some k ↦ guard (v == k) corrupt_data >>= λ x. ok (record r { version = some v })
          | none ↦ elim (version_map v) [
            | none ↦ err unsupported_protocol_version
            | some classes ↦ ok (record r { version = some v })
          ]
        ])
    by_seen none = known (version_map v)
    by_seen (some k) =
        after_guard Kept (v == k) corrupt_data _ (λ e. cc)
          (settled Kept (record r { version = some v }) refl)

got_header-Settles : (r : ReadBuffer) → Settles (Took r.buffer) (got_header r)
unfolding got_header
got_header-Settles r = elim (Bool-cases (ready r)) [
  | inr wait ↦ rw (wait, got_header) (settled (Took r.buffer) (r, none) tt)
  | inl now ↦
      rw (now, got_header)
        (after_guard (Took r.buffer) (leb 8 (available r)) assertion_error _ (λ e. cc)
          (bind-Settles _ (Took r.buffer) (unpack (1 ∷ 1 ∷ 2 ∷ 4 ∷ []) (split_at 8 r.buffer).0) _
            (unpack-Settles (1 ∷ 1 ∷ 2 ∷ 4 ∷ []) (split_at 8 r.buffer).0)
            (λ x h.
              bind-Settles (λ r'. r'.buffer ≡ r.buffer) (Took r.buffer) (check_version x.0 r) _
                (check_version-Settles x.0 r)
                (λ r' same. by_class x.0 x.1.1.1.0 r' same (pdu_class x.0 x.1.0)))))
]
  where
    by_class :
        (version size : ℕ) (r' : ReadBuffer)
        → r'.buffer ≡ r.buffer
        → (m : Option PduClass)
        → Settles (Took r.buffer) (elim m as (λ x. Result (ReadBuffer × Option Pdu)) [
          | none ↦ err unsupported_pdu_type
          | some c ↦ guard (leb 8 size) corrupt_data >>= λ x.
              got_pdu c version (record r' { need = size; callback = some (body c version) })
        ])
    by_class version size r' same none = failing (Took r.buffer) unsupported_pdu_type (λ e. cc)
    by_class version size r' same (some c) =
        after_guard (Took r.buffer) (leb 8 size) corrupt_data _ (λ e. cc)
          (subst
            (λ b.
              Settles (Took b)
                (got_pdu c version (record r' { need = size; callback = some (body c version) })))
            same
            (got_pdu-Settles c version
              (record r' { need = size; callback = some (body c version) })))

retry-Settles : (r : ReadBuffer) → Settles (Took r.buffer) (retry r)
unfolding retry
retry-Settles r = by_callback r.callback
  where
    by_callback :
        (m : Option Callback)
        → Settles (Took r.buffer) (elim m as (λ x. Result (ReadBuffer × Option Pdu)) [
          | none ↦ err type_error
          | some header ↦ got_header r
          | some (body c v) ↦ got_pdu c v r
        ])
    by_callback none = failing (Took r.buffer) type_error (λ e. cc)
    by_callback (some header) = got_header-Settles r
    by_callback (some (body c v)) = got_pdu-Settles c v r

read_pdu-Settles : (r : ReadBuffer) → Settles (Took r.buffer) (read_pdu r)
unfolding read_pdu update
read_pdu-Settles r = retry-Settles (record r { need = 8; callback = some header })

caught-Settles :
    {S : Type 0} (s : S) (version : Option ℕ) (e : Error)
    → e ≢ out_of_fuel
    → Settles Any (caught s version e)
caught-Settles {S} s version e h = by_code (error_report_code e)
  where
    by_code :
        (m : Option ℕ)
        → Settles Any (elim m as (λ x. Result (Ending S)) [
          | none ↦ err e
          | some code ↦ ok (raised s version code)
        ])
    by_code none = failing Any e h
    by_code (some code) = settled Any (raised s version code) tt

from_hypothesis : {A : Type 0} (m : Result A) → m ≢ err out_of_fuel → Settles Any m
from_hypothesis (ok a) h = settled Any a tt
from_hypothesis (err e) h = failing Any e (λ k. h (ap {B = Result _} err k))

abbrev error_of : {A : Type 0} → Error → Result A → Error
error_of d (ok a) = d
error_of d (err e) = e

to_conclusion : {A : Type 0} (Q : A → Type 0) (m : Result A) → Settles Q m → m ≢ err out_of_fuel
to_conclusion Q (ok a) s h = cc
to_conclusion Q (err e) s h = s.ended (ap (error_of e) h)

module _ {S : Type 0} (deliver : Pdu → S → Result S)
    (ends : (p : Pdu) (s : S) → deliver p s ≢ err out_of_fuel) where
  read_all-Settles :
      (fuel : ℕ) (s : S) (r : ReadBuffer)
      → length r.buffer < fuel
      → Settles Any (read_all deliver fuel s r)
  unfolding read_all
  read_all-Settles zero s r h = absurd (omega (arith, h))
  read_all-Settles (suc fuel) s r h =
      read (read_pdu r) (read_pdu-Settles r)
        (λ s' r' less. read_all-Settles fuel s' r' (omega (arith, less, h)))
    where
      delivered :
          (r' : ReadBuffer) (m : Result S)
          → Settles Any m
          → ((s' : S) → Settles Any (read_all deliver fuel s' r'))
          → Settles Any (elim m as (λ x. Result (Ending S)) [
            | err e ↦ caught s r'.version e
            | ok s' ↦ read_all deliver fuel s' r'
          ])
      delivered r' (err e) m ih = caught-Settles s r'.version e m.ended
      delivered r' (ok s') m ih = ih s'

      read :
          (m : Result (ReadBuffer × Option Pdu))
          → Settles (Took r.buffer) m
          → ((s' : S) (r' : ReadBuffer)
              → length r'.buffer < length r.buffer
              → Settles Any (read_all deliver fuel s' r'))
          → Settles Any (elim m as (λ x. Result (Ending S)) [
            | err e ↦ caught s (version_seen r) e
            | ok (r', none) ↦ ok (finished s r')
            | ok (r', some p) ↦ elim (deliver p s) [
              | err e ↦ caught s r'.version e
              | ok s' ↦ read_all deliver fuel s' r'
            ]
          ])
      read (err e) m ih = caught-Settles s (version_seen r) e m.ended
      read (ok (r', none)) m ih = settled Any (finished s r') tt
      read (ok (r', some p)) m ih =
          delivered r' (deliver p s) (from_hypothesis (deliver p s) (ends p s))
            (λ s'. ih s' r' m.ended)

  end_read-Settles : (ending : Ending S) → Settles Any (end_read deliver ending)
  unfolding end_read
  end_read-Settles (finished s r) =
      after_guard Any (not (ready r)) assertion_error _ (λ e. cc)
        (settled Any (reading s r (needed r)) tt)
  end_read-Settles (raised s none code) = failing Any assertion_error (λ e. cc)
  end_read-Settles (raised s (some version) code) = settled Any (closing s version code) tt

  start_new_pdu-Settles : (s : S) (r : ReadBuffer) → Settles Any (start_new_pdu deliver s r)
  unfolding start_new_pdu available
  start_new_pdu-Settles s r =
      bind-Settles Any Any (read_all deliver (suc (length r.buffer)) s r) _
        (read_all-Settles (suc (length r.buffer)) s r (omega arith))
        (λ ending x. end_read-Settles ending)

  found_terminator-Settles : (s : S) (r : ReadBuffer) → Settles Any (found_terminator deliver s r)
  unfolding found_terminator
  found_terminator-Settles s r =
      bind-Settles (Took r.buffer) Any (retry r) _ (retry-Settles r) (λ u x. next u)
    where
      next :
          (u : ReadBuffer × Option Pdu)
          → Settles Any (elim (u.1) as (λ x. Result (Channel S)) [
            | none ↦ ok (reading s u.0 (needed u.0))
            | some p ↦ deliver p s >>= λ s'. start_new_pdu deliver s' u.0
          ])
      next (r', none) = settled Any (reading s r' (needed r')) tt
      next (r', some p) =
          bind-Settles Any Any (deliver p s) _ (from_hypothesis (deliver p s) (ends p s))
            (λ s' x. start_new_pdu-Settles s' r')

  receive-Settles :
      (fuel : ℕ) (bs : List ℕ) (c : Channel S)
      → length bs < fuel
      → Waits c
      → Settles Any (receive deliver fuel bs c)
  unfolding receive
  receive-Settles zero bs c h w = absurd (omega (arith, h))
  receive-Settles (suc fuel) [] c h w = settled Any c tt
  receive-Settles (suc fuel) (b ∷ bs) (closing s version code) h w =
      settled Any (closing s version code) tt
  receive-Settles (suc fuel) (b ∷ bs) (reading s r n) h w =
      elim (Bool-cases (ltb (length (b ∷ bs)) n)) [
        | inl short ↦
            rw (receive_part deliver fuel (b ∷ bs) s r n (ltb→lt _ _ short)) (settled Any _ tt)
        | inr long ↦
            let enough : n ≤ length (b ∷ bs) = ground (arith, long) in
            let r' : ReadBuffer = put (split_at n (b ∷ bs)).0 r in
            rw (receive_full deliver fuel (b ∷ bs) s r n w enough) (
              bind-Settles Waits Any (found_terminator deliver s r') _ (waiting s r') (λ c x.
                receive-Settles fuel (split_at n (b ∷ bs)).1 c
                  (omega (arith, length-split_at n (b ∷ bs) enough, h, w)) x))
      ]
    where
      waiting : (s : S) (r : ReadBuffer) → Settles Waits (found_terminator deliver s r)
      waiting s r =
          both (found_terminator deliver s r) (found_terminator-Settles s r)
            (found_terminator-Waits deliver s r)
        where
          both : (m : Result (Channel S)) → Settles Any m → IfReturns Waits m → Settles Waits m
          both (ok c) x k = settled Waits c (k.result c refl)
          both (err e) x k = failing Waits e x.ended

  -- A channel that waits for a byte at least comes to an end with any bytes that it is fed: none of its
  -- loops is cut off by the number of rounds that it is given, where delivering a PDU comes to an end.
  pub feed-ends : (bs : List ℕ) (c : Channel S) → Waits c → feed deliver bs c ≢ err out_of_fuel
  unfolding feed
  feed-ends bs c w =
      to_conclusion Any (receive deliver (suc (length bs)) bs c)
        (receive-Settles (suc (length bs)) bs c (omega arith) w)
