-- ===== src/Rtr/Channel.antt =====
-- rpki/rtr/channels.py, `PDUChannel`: PDUs are read from the buffer and delivered, one after another.
-- `deliver` is the method `deliver_pdu` of the subclass, on its own state.
pub mod Waits
pub mod Chunks
pub mod Stream
pub mod Ends
pub mod Terminates
use rpki_net.Prelude.{
  ℕ, zero, suc, ◌-◌, Bool, true, false, not, List, [], ◌∷◌, ◌++◌, Option, none, some, ltb, length,
}
use rpki_net.Result.{
  Error, Result, ok, err, assertion_error, corrupt_data, out_of_fuel, unsupported_pdu_type,
  unsupported_protocol_version, guard, ◌>>=◌, ◌>>◌,
}
use rpki_net.Rtr.Bytes.{split_at, unpack}
use rpki_net.Rtr.Pdu.{Pdu}
use rpki_net.Rtr.Reader.{ReadBuffer, available, ready, put, check_version, read_pdu, retry}

-- `needed`; it is asked of a buffer that is not ready.
unfoldable pub needed : ReadBuffer → ℕ
unfolding available
needed r = r.need - available r

-- `error_report_code` of the exceptions that are a `PDUException`.
abbrev pub error_report_code : Error → Option ℕ
error_report_code corrupt_data = some 0
error_report_code unsupported_protocol_version = some 4
error_report_code unsupported_pdu_type = some 5
error_report_code e = none

-- `self.version`, after `read_pdu` has raised.
unfoldable pub version_seen : ReadBuffer → Option ℕ
version_seen r =
    elim (do head ← unpack (1 ∷ 1 ∷ 2 ∷ 4 ∷ []) (split_at 8 r.buffer).0; check_version head.0 r) [
      | ok r' ↦ r'.version
      | err e ↦ r.version
    ]

-- How the `try` block of `start_new_pdu` ends: no PDU is left, or a `PDUException` was raised, with
-- the version at that time.
pub data Ending (S : Type 0) : Type 0 where
  finished : S → ReadBuffer → Ending S
  raised : S → Option ℕ → ℕ → Ending S

-- The channel, the state of its subclass, and the bytes that asynchat collects before it calls
-- `found_terminator`. A channel that is closing has sent an Error Report, of which the version and
-- the code are kept.
pub data Channel (S : Type 0) : Type 0 where
  reading : (state : S) → (reader : ReadBuffer) → (terminator : ℕ) → Channel S
  closing : (state : S) → (version code : ℕ) → Channel S

abbrev pub caught : {S : Type 0} → S → Option ℕ → Error → Result (Ending S)
caught s version e = elim (error_report_code e) [
  | none ↦ err e
  | some code ↦ ok (raised s version code)
]

module _ {S : Type 0} (deliver : Pdu → S → Result S) where
  -- The loop of `start_new_pdu`.
  unfoldable pub read_all : ℕ → S → ReadBuffer → Result (Ending S)
  read_all zero s r = err out_of_fuel
  read_all (suc fuel) s r = elim (read_pdu r) [
    | err e ↦ caught s (version_seen r) e
    | ok (r', none) ↦ ok (finished s r')
    | ok (r', some p) ↦ elim (deliver p s) [
      | err e ↦ caught s r'.version e
      | ok s' ↦ read_all fuel s' r'
    ]
  ]

  -- The `except` and `else` blocks. A PDU of no version cannot be made.
  unfoldable pub end_read : Ending S → Result (Channel S)
  end_read (finished s r) = do guard (not (ready r)) assertion_error; ok (reading s r (needed r))
  end_read (raised s none code) = err assertion_error
  end_read (raised s (some version) code) = ok (closing s version code)

  -- A PDU takes bytes off the buffer, and the last round finds none.
  unfoldable pub start_new_pdu : S → ReadBuffer → Result (Channel S)
  start_new_pdu s r = do ending ← read_all (suc (available r)) s r; end_read ending

  unfoldable pub found_terminator : S → ReadBuffer → Result (Channel S)
  found_terminator s r = do
    u ← retry r
    elim (u.1) [
      | none ↦ ok (reading s u.0 (needed u.0))
      | some p ↦ do s' ← deliver p s; start_new_pdu s' u.0
    ]

  -- What asynchat does with incoming data: `collect_incoming_data`, and `found_terminator` when the
  -- bytes are complete. A round takes a byte at least.
  unfoldable pub receive : ℕ → List ℕ → Channel S → Result (Channel S)
  receive zero data_in c = err out_of_fuel
  receive (suc fuel) [] c = ok c
  receive (suc fuel) (b ∷ bs) (closing s version code) = ok (closing s version code)
  receive (suc fuel) (b ∷ bs) (reading s r n) = elim (ltb (length (b ∷ bs)) n) [
    | true ↦ ok (reading s (put (b ∷ bs) r) (n - length (b ∷ bs)))
    | false ↦ do
      c ← found_terminator s (put (split_at n (b ∷ bs)).0 r)
      receive fuel (split_at n (b ∷ bs)).1 c
  ]

  unfoldable pub feed : List ℕ → Channel S → Result (Channel S)
  feed bs c = receive (suc (length bs)) bs c
