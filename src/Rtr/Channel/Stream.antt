-- ===== src/Rtr/Channel/Stream.antt =====
-- A channel that reads the bytes of several PDUs delivers them one after another.
use rpki_net.Prelude.{
  ℕ, zero, suc, ◌-◌, ◌<◌, ◌≡◌, refl, List, [], ◌∷◌, ◌++◌, arith, Option, none, some, Bool-cases,
  inl, inr, ap, sym, ◌∙◌, ltb, ltb→lt, length, length-append,
}
use mathlib.Core.List.{append-nil}
use rpki_net.Result.{Result, ok, err, ◌>>=◌, Returns}
use rpki_net.Rtr.Bytes.{split_at, split_at-append, split_at-join}
use rpki_net.Rtr.Pdu.{Pdu, to_pdu}
use rpki_net.Rtr.Reader.{ReadBuffer, header, put, ready, available, read_pdu, update, retry}
use rpki_net.Rtr.Wire.{IsFit, IsWire}
use rpki_net.Rtr.RoundTrip.{
  Accepts, after_pdu, fit-IsWire, length-bs, read_pdu-short, read_pdu-header, read_pdu-bytes,
  got_pdu-short, got_pdu-waiting, waiting,
}
use rpki_net.Rtr.Channel.{
  Channel, finished, reading, receive, feed, found_terminator, start_new_pdu, read_all, end_read,
  needed,
}
use rpki_net.Rtr.Channel.Chunks.{bind_on, length-split_at, receive_full, feed-append}

-- The buffer is empty, and a header is waited for.
abbrev pub idle_buffer : Option ℕ → ReadBuffer
idle_buffer seen = record { buffer = []; version = seen; need = 8; callback = some header }

abbrev pub idle : {S : Type 0} → Option ℕ → S → Channel S
idle seen s = reading s (idle_buffer seen) 8

module _ {S : Type 0} (deliver : Pdu → S → Result S) where
  read_all-none :
      (fuel : ℕ) (s : S) (r r' : ReadBuffer)
      → read_pdu r ≡ ok (r', none)
      → read_all deliver (suc fuel) s r ≡ ok (finished s r')
  unfolding read_all
  read_all-none fuel s r r' e = rw (e, read_all) refl

  end_read-idle :
      (s : S) (seen : Option ℕ)
      → end_read deliver (finished s (idle_buffer seen)) ≡ ok (idle seen s)
  unfolding end_read needed available ready
  end_read-idle s seen = refl

  start_new_pdu-empty :
      (s : S) (r : ReadBuffer) → r.buffer ≡ [] → start_new_pdu deliver s r ≡ ok (idle r.version s)
  unfolding start_new_pdu
  start_new_pdu-empty s r e =
      let buffer : record r { need = 8; callback = some header } ≡ idle_buffer r.version =
        ap {B = ReadBuffer}
          (λ b. record { buffer = b; version = r.version; need = 8; callback = some header }) e in
      rw
        (read_all-none (available r) s r (idle_buffer r.version) (
          read_pdu-short r (rw e (omega arith))
          ∙ ap {B = Result (ReadBuffer × Option Pdu)} (λ b. ok (b, none)) buffer))
        (end_read-idle s r.version)

  -- What is left of a round when the PDU has come.
  found_terminator-some :
      (s : S) (r r' : ReadBuffer) (p : Pdu)
      → retry r ≡ ok (r', some p)
      → found_terminator deliver s r ≡ (deliver p s >>= λ s'. start_new_pdu deliver s' r')
  unfolding found_terminator
  found_terminator-some s r r' p e = rw e refl

  found_terminator-none :
      (s : S) (r r' : ReadBuffer)
      → retry r ≡ ok (r', none)
      → found_terminator deliver s r ≡ ok (reading s r' (needed r'))
  unfolding found_terminator
  found_terminator-none s r r' e = rw e refl

  -- The bytes that were waited for.
  feed_full :
      (bs : List ℕ) (s : S) (r : ReadBuffer) (n : ℕ)
      → 0 < n
      → length bs ≡ n
      → feed deliver bs (reading s r n) ≡ found_terminator deliver s (put bs r)
  unfolding feed receive
  feed_full bs s r n w h =
      receive_full deliver (length bs) bs s r n w (omega (arith, h))
      ∙ rw (append-split bs n h)
          (none_left (length bs) (found_terminator deliver s (put bs r)) (omega (arith, h, w)))
    where
      append-split : (bs : List ℕ) (n : ℕ) → length bs ≡ n → split_at n bs ≡ (bs, [])
      append-split bs n h =
          ap {B = List ℕ × List ℕ} (split_at n) (sym (append-nil bs)) ∙ split_at-append n bs [] h

      none_left :
          (fuel : ℕ) (m : Result (Channel S)) → 0 < fuel → (m >>= receive deliver fuel []) ≡ m
      none_left zero m h = absurd (omega arith)
      none_left (suc fuel) (ok c) h = refl
      none_left (suc fuel) (err e) h = refl

  module _ (s : S) (p : Pdu) (seen : Option ℕ) (f : IsFit p) (a : Accepts seen p.version)
      (bs : List ℕ) (w : IsWire p.class_of p.version p.content bs) where
    abbrev delivered : Result (Channel S)
    delivered = deliver p s >>= λ s'. ok (idle (some p.version) s')

    -- The PDU has come.
    feed-last :
        (r : ReadBuffer) (n : ℕ) (last : List ℕ)
        → 0 < n
        → length last ≡ n
        → retry (put last r) ≡ ok (after_pdu p bs [], some p)
        → feed deliver last (reading s r n) ≡ delivered
    feed-last r n last pos h e =
        feed_full last s r n pos h
        ∙ found_terminator-some s (put last r) (after_pdu p bs []) p e
        ∙ bind_on (deliver p s) _ _ (λ s' _. start_new_pdu-empty s' (after_pdu p bs []) refl)

    feed-eight : length bs ≡ 8 → feed deliver bs (idle seen s) ≡ delivered
    unfolding put retry read_pdu update
    feed-eight h =
        feed-last (idle_buffer seen) 8 bs (omega arith) h
          (read_pdu-bytes p bs w f.known (idle_buffer seen) [] a bs (sym (append-nil bs)))

    feed-longer : 8 < length bs → feed deliver bs (idle seen s) ≡ delivered
    unfolding put retry read_pdu update needed available
    feed-longer h =
        let first : List ℕ = (split_at 8 bs).0 in
        let second : List ℕ = (split_at 8 bs).1 in
        let whole : first ++ second ≡ bs = split_at-join 8 bs in
        let left : length second ≡ length bs - 8 = length-split_at 8 bs (omega (arith, h)) in
        let head : length first ≡ 8 =
          omega (arith, left, h, ap length whole, length-append first second) in
        let e : first ++ second ≡ bs ++ [] = whole ∙ sym (append-nil bs) in
        let r : ReadBuffer =
          waiting p.class_of p.version p.content bs w f.known
            (record (idle_buffer seen) { buffer = first }) in
        let begun : feed deliver first (idle seen s) ≡ ok (reading s r (needed r)) =
          feed_full first s (idle_buffer seen) 8 (omega arith) head
          ∙ found_terminator-none s (record (idle_buffer seen) { buffer = first }) r
              (read_pdu-header p.class_of p.version p.content bs w f.known (idle_buffer seen) first
                  second [] a e (omega (arith, head))
                ∙ got_pdu-short p.class_of p.version p.content bs w f.known
                    (record (idle_buffer seen) { buffer = first }) (omega (arith, head, h))) in
        ap (λ b. feed deliver b (idle seen s)) (sym whole)
        ∙ (feed-append deliver first second (idle seen s) (omega arith)).0
        ∙ rw begun (
            feed-last r (length bs - length first) second (omega (arith, head, h))
              (omega (arith, head, left))
              (got_pdu-waiting p.class_of p.version p.content bs w f.known
                (record (idle_buffer seen) { buffer = first ++ second }) [] e))

    feed-wire : feed deliver bs (idle seen s) ≡ delivered
    feed-wire = elim (Bool-cases (ltb 8 (length bs))) [
      | inl h ↦ feed-longer (ltb→lt 8 (length bs) h)
      | inr h ↦
          feed-eight (ground (arith, h, length-bs p.class_of p.version p.content bs w f.known))
    ]

-- The bytes of PDUs, one after another.
unfoldable pub write_all : List Pdu → Result (List ℕ)
write_all [] = ok []
write_all (p ∷ ps) = do bytes ← to_pdu none p; rest ← write_all ps; ok (bytes ++ rest)

-- What the subclass does with them.
unfoldable pub deliver_all : {S : Type 0} → (Pdu → S → Result S) → List Pdu → S → Result S
deliver_all deliver [] s = ok s
deliver_all deliver (p ∷ ps) s = do s' ← deliver p s; deliver_all deliver ps s'

-- PDUs whose attributes are in range, of one version, which is that seen before, if any.
abbrev pub FitAll : Option ℕ → List Pdu → Type 0
FitAll seen [] = Unit
FitAll seen (p ∷ ps) = IsFit p × Accepts seen p.version × FitAll (some p.version) ps

abbrev pub seen_after : Option ℕ → List Pdu → Option ℕ
seen_after seen [] = seen
seen_after seen (p ∷ ps) = seen_after (some p.version) ps

module _ {S : Type 0} (deliver : Pdu → S → Result S) where
  abbrev Streams : List Pdu → Option ℕ → List ℕ → Type 0
  Streams ps seen bs =
      (s : S)
      → feed deliver bs (idle seen s)
        ≡ (deliver_all deliver ps s >>= λ s'. ok (idle (seen_after seen ps) s'))

  Streams-cons :
      (p : Pdu) (ps : List Pdu) (seen : Option ℕ) (f : IsFit p)
      → Accepts seen p.version
      → (bs : List ℕ) (w : IsWire p.class_of p.version p.content bs) (rest : List ℕ)
      → Streams ps (some p.version) rest
      → Streams (p ∷ ps) seen (bs ++ rest)
  unfolding deliver_all
  Streams-cons p ps seen f a bs w rest ih s =
      (feed-append deliver bs rest (idle seen s) (omega arith)).0
      ∙ rw (feed-wire deliver s p seen f a bs w) (go (deliver p s))
    where
      go :
          (m : Result S)
          → (m >>= (λ s'. ok (idle (some p.version) s')) >>= feed deliver rest) ≡ (
              m >>= (λ s'. deliver_all deliver ps s') >>= λ s'.
              ok (idle (seen_after (some p.version) ps) s'))
      go (ok s') = ih s'
      go (err e) = refl

  streams :
      (ps : List Pdu) (seen : Option ℕ)
      → FitAll seen ps
      → (bs : List ℕ) × (write_all ps ≡ ok bs) × Streams ps seen bs
  unfolding write_all deliver_all feed receive to_pdu
  streams [] seen fs = ([], refl, λ s. refl)
  streams (p ∷ ps) seen (f, a, fs) =
      let (bs, w) = fit-IsWire p f in
      let (rest, made, ih) = streams ps (some p.version) fs in
      (bs ++ rest, rw (w.made, made) refl, Streams-cons p ps seen f a bs w rest ih)

-- PDUs of one version whose attributes are in range can be written, and a channel that waits for a
-- header, with no or the same version, and is fed with their bytes, delivers just these PDUs, in
-- order, and waits for a header again, or lets the exception of the first delivery that raises out.
pub feed-write_all :
    {S : Type 0} (deliver : Pdu → S → Result S) (ps : List Pdu) (seen : Option ℕ) (s : S)
    → FitAll seen ps
    → Returns (write_all ps) (λ bs.
      feed deliver bs (idle seen s)
      ≡ (deliver_all deliver ps s >>= λ s'. ok (idle (seen_after seen ps) s')))
feed-write_all deliver ps seen s fs =
    let (bs, made, h) = streams deliver ps seen fs in rw made (h s)
