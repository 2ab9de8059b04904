-- ===== src/Rtr/Client/Updates.antt =====
-- What a client makes of the prefixes that a server sends it.
use rpki_net.Prelude.{
  ℕ, Bool-cases, ◌≡◌, refl, List, [], ◌∷◌, ◌++◌, All, some, ◌⊎◌, inl, inr, ap, sym, ◌∙◌,
}
use mathlib.Core.List.{append-nil}
use rpki_net.Result.{Result, ok, err, ◌>>=◌}
use rpki_net.Rtr.Pdu.{Pdu, address_byte_count}
use rpki_net.Rtr.Generator.{Entry}
use rpki_net.Rtr.Generator.Prefixes.{
  prefix_pdu, IsChange, flagged, flagged_all, flagged-shape, entry_row-shape, entry_row,
}
use rpki_net.Rtr.Client.{PrefixRow, Database, Client, deliver, consume_prefix, has_prefix}
use rpki_net.Rtr.Client.Tables.{apply_row, apply_rows}
use rpki_net.Rtr.Channel.Stream.{deliver_all}

-- A client with the PDUs that it has pushed.
abbrev pub Talker : Type 0
Talker = Client × List Pdu

abbrev pub talk : ℕ → Pdu → Talker → Result Talker
talk now p (c, out) = do (c', sent) ← deliver now p c; ok (c', out ++ sent)

abbrev pub with_prefixes : Client → Database → List PrefixRow → Client
with_prefixes c db rows = record c { sql = some (record db { prefixes = rows }) }

module _ (now version : ℕ) (c : Client) (db : Database) (out : List Pdu) where
  talk-flagged :
      (a : ℕ) (e : Entry) (rows : List PrefixRow)
      → IsChange version (a, e)
      → talk now (flagged (a, e)) (with_prefixes c db rows, out)
        ≡ (apply_row a (entry_row e) rows >>= λ rows'. ok (with_prefixes c db rows', out))
  unfolding deliver consume_prefix
  talk-flagged a e rows h =
      ap (λ p. talk now p (with_prefixes c db rows, out)) (flagged-shape version a e h)
      ∙ flag a h.0
      ∙ sym (
          ap {B = Result Talker}
            (λ r. apply_row a r rows >>= λ rows'. ok (with_prefixes c db rows', out))
            (entry_row-shape version a e h))
    where
      row : PrefixRow
      row = record {
        asnum = h.1.asnum;
        address_bytes = address_byte_count h.1.class_of;
        prefix = h.1.prefix;
        prefixlen = h.1.prefixlen;
        max_prefixlen = h.1.max_prefixlen;
      }

      flag :
          (a : ℕ)
          → (a ≡ 0) ⊎ (a ≡ 1)
          → talk now
              (prefix_pdu version h.1.class_of a h.1.prefix h.1.prefixlen h.1.max_prefixlen
                h.1.asnum)
              (with_prefixes c db rows, out)
            ≡ (apply_row a row rows >>= λ rows'. ok (with_prefixes c db rows', out))
      flag a (inl z) = rw (z, append-nil out) refl
      flag a (inr z) = elim (Bool-cases (has_prefix row rows)) [
        | inl found ↦ rw (z, found) refl
        | inr missing ↦ rw (z, missing, append-nil out) refl
      ]

  -- The rows change as the entries say, and nothing else does.
  pub deliver_all-flagged :
      (cs : List (ℕ × Entry)) (rows : List PrefixRow)
      → All (IsChange version) cs
      → deliver_all (talk now) (flagged_all cs) (with_prefixes c db rows, out)
        ≡ (apply_rows entry_row cs rows >>= λ rows'. ok (with_prefixes c db rows', out))
  unfolding deliver_all apply_rows
  deliver_all-flagged [] rows hs = refl
  deliver_all-flagged ((a, e) ∷ cs) rows hs =
      rw (talk-flagged a e rows hs.0)
        (next (apply_row a (entry_row e) rows) (λ rows'. deliver_all-flagged cs rows' hs.1))
    where
      next :
          (m : Result (List PrefixRow))
          → ((rows' : List PrefixRow)
              → deliver_all (talk now) (flagged_all cs) (with_prefixes c db rows', out)
                ≡ (apply_rows entry_row cs rows' >>= λ rows''. ok (with_prefixes c db rows'', out)))
          → (m
              >>= (λ rows'. ok (with_prefixes c db rows', out))
              >>= deliver_all (talk now) (flagged_all cs))
            ≡ (m >>= (λ rows'. apply_rows entry_row cs rows') >>= λ rows'.
                ok (with_prefixes c db rows', out))
      next (ok rows') ih = ih rows'
      next (err raised) ih = refl
