-- ===== src/Rtr/Channel/Waits.antt =====
-- A channel that goes on reading has asked for one more byte at least.
use rpki_net.Prelude.{
  ℕ, ◌<◌, ◌≡◌, refl, false, [], ◌∷◌, arith, Option, none, some, Bool-cases, leb, ◌⊎◌, inl, inr,
}
use rpki_net.Result.{
  Result, ok, assertion_error, guard, ◌>>=◌, IfReturns, after_step, after_call, returned, raises,
}
use rpki_net.Rtr.Bytes.{unpack, split_at}
use rpki_net.Rtr.Pdu.{Pdu, PduClass, base, pdu_class}
use rpki_net.Rtr.Reader.{
  ReadBuffer, header, body, ready, available, read_body, check_version, got_pdu, got_header, retry,
}
use rpki_net.Rtr.Channel.{
  Channel, Ending, reading, closing, finished, raised, needed, end_read, start_new_pdu,
  found_terminator,
}

Option-cases {ℓ} : {A : Type ℓ} (o : Option A) → (o ≡ none) ⊎ ((a : A) × (o ≡ some a))
Option-cases none = inl refl
Option-cases (some a) = inr (a, refl)

-- A buffer from which no PDU comes is not ready.
abbrev NotReady : ReadBuffer × Option Pdu → Type 0
NotReady (r, none) = ready r ≡ false
NotReady (r, some p) = Unit {0}

got_pdu-NotReady : (c : PduClass) (v : ℕ) (r : ReadBuffer) → IfReturns NotReady (got_pdu c v r)
unfolding got_pdu
got_pdu-NotReady c v r = elim (Bool-cases (ready r)) [
  | inl now ↦
      rw (now, got_pdu)
        (after_step NotReady (read_body (base c) c v r) _
          (λ u. returned NotReady (u.0, some u.1) tt))
  | inr wait ↦ rw (wait, got_pdu) (returned NotReady (r, none) wait)
]

got_header-NotReady : (r : ReadBuffer) → IfReturns NotReady (got_header r)
unfolding got_header
got_header-NotReady r = elim (Bool-cases (ready r)) [
  | inl now ↦
      rw (now, got_header)
        (after_step NotReady (guard (leb 8 (available r)) assertion_error) _ (λ x.
          after_step NotReady (unpack (1 ∷ 1 ∷ 2 ∷ 4 ∷ []) (split_at 8 r.buffer).0) _ (λ head.
            after_step NotReady (check_version head.0 r) _ (λ r'.
              elim (Option-cases (pdu_class head.0 head.1.0)) [
                | inl e ↦ rw e (raises NotReady _)
                | inr (c, e) ↦ rw e (
                    after_step NotReady (guard (leb 8 head.1.1.1.0) _) _ (λ y.
                      got_pdu-NotReady c head.0
                        (record r' { need = head.1.1.1.0; callback = some (body c head.0) })))
              ]))))
  | inr wait ↦ rw (wait, got_header) (returned NotReady (r, none) wait)
]

retry-NotReady : (r : ReadBuffer) → IfReturns NotReady (retry r)
unfolding retry
retry-NotReady r = elim (Option-cases r.callback) [
  | inl e ↦ rw (e, retry) (raises NotReady _)
  | inr (header, e) ↦ rw (e, retry) (got_header-NotReady r)
  | inr (body c v, e) ↦ rw (e, retry) (got_pdu-NotReady c v r)
]

abbrev pub Waits : {S : Type 0} → Channel S → Type 0
Waits (reading s r n) = 0 < n
Waits (closing s version code) = Unit {0}

needed-pos : (r : ReadBuffer) → ready r ≡ false → 0 < needed r
unfolding needed ready
needed-pos r h = ground (arith, h)

module _ {S : Type 0} (deliver : Pdu → S → Result S) where
  end_read-Waits : (ending : Ending S) → IfReturns Waits (end_read deliver ending)
  unfolding end_read
  end_read-Waits (finished s r) = elim (Bool-cases (ready r)) [
    | inl now ↦ rw now (raises Waits _)
    | inr wait ↦ rw wait (returned Waits (reading s r (needed r)) (needed-pos r wait))
  ]
  end_read-Waits (raised s none code) = raises Waits _
  end_read-Waits (raised s (some version) code) = returned Waits (closing s version code) tt

  pub start_new_pdu-Waits : (s : S) (r : ReadBuffer) → IfReturns Waits (start_new_pdu deliver s r)
  unfolding start_new_pdu
  start_new_pdu-Waits s r = after_step Waits _ _ (λ ending. end_read-Waits ending)

  found_terminator_step :
      (s : S) (u : ReadBuffer × Option Pdu)
      → NotReady u
      → IfReturns Waits (elim (u.1) as (λ _. Result (Channel S)) [
        | none ↦ ok (reading s u.0 (needed u.0))
        | some p ↦ deliver p s >>= λ s'. start_new_pdu deliver s' u.0
      ])
  found_terminator_step s (r, none) h = returned Waits (reading s r (needed r)) (needed-pos r h)
  found_terminator_step s (r, some p) h =
      after_step Waits (deliver p s) _ (λ s'. start_new_pdu-Waits s' r)

  pub found_terminator-Waits :
      (s : S) (r : ReadBuffer) → IfReturns Waits (found_terminator deliver s r)
  unfolding found_terminator
  found_terminator-Waits s r =
      after_call Waits (retry r) _
        (λ u e. found_terminator_step s u ((retry-NotReady r).result u e))
