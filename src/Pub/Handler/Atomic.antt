-- ===== src/Pub/Handler/Atomic.antt =====
-- A message changes the session completely or not at all, and the reply says which.
use rpki_net.Prelude.{
  ℕ, suc, ◌+◌, ◌≡◌, refl, Bool, true, false, ◌||◌, List, [], ◌∷◌, ◌++◌, arith, Option, none, some,
  ◌==◌, if◌then◌else◌, Bool-cases, inl, inr, ap, sym, ◌∙◌,
}
use rpki_net.Result.{Result, ok, err, IfReturns, after_step, returned}
use rpki_net.Pub.Store.{
  Text, Client, PublishedObject, Element, Delta, Session, check_allowed_uri, new_delta,
  expire_deltas, publish, withdraw, activate,
}
use rpki_net.Pub.Handler.{
  Query, list_query, publish_query, withdraw_query, query_tag, Reply, list_reply, publish_reply,
  withdraw_reply, report_error, Work, Run, finished, failed, list_objects, or_new, with_delta,
  process, process_all, last_tag, finish, handle,
}
use rpki_net.Pub.Handler.Transaction.{reports, reports-last}

-- A query that asks for a change.
abbrev pub is_change : Query → Bool
is_change (list_query tag) = false
is_change (publish_query uri text hash tag) = true
is_change (withdraw_query uri hash tag) = true

abbrev pub asks : List Query → Bool
asks [] = false
asks (q ∷ qs) = is_change q || asks qs

abbrev is_some : Option Delta → Bool
is_some none = false
is_some (some delta) = true

reports-append : (rs ss : List Reply) → reports (rs ++ ss) ≡ (reports rs || reports ss)
reports-append [] ss = refl
reports-append (report_error raised tag ∷ rs) ss = refl
reports-append (list_reply uri hash tag ∷ rs) ss = reports-append rs ss
reports-append (publish_reply uri tag ∷ rs) ss = reports-append rs ss
reports-append (withdraw_reply uri tag ∷ rs) ss = reports-append rs ss

reports-list_objects :
    (c : ℕ) (tag : Option Text) (os : List PublishedObject)
    → reports (list_objects c tag os) ≡ false
unfolding list_objects
reports-list_objects c tag [] = refl
reports-list_objects c tag (o ∷ os) = elim (Bool-cases (o.client == c)) [
  | inl e ↦ rw (e, list_objects) (reports-list_objects c tag os)
  | inr e ↦ rw (e, list_objects) (reports-list_objects c tag os)
]

module _ (sha256 : List ℕ → Text) (valid : List Element → Bool) (decode : Text → Result (List ℕ))
    (track : Text → List ℕ → Result (Unit {0})) (client : Client) (session : Session)
    (now interval : ℕ) where
  abbrev begun : Delta
  begun = new_delta session (now + interval)

  abbrev Processed : Query → Work → Work × List Reply → Type 0
  Processed q w (w', more) =
      (reports more ≡ false) × (is_some w'.delta ≡ (is_some w.delta || is_change q))

  process-Processed :
      (q : Query) (w : Work)
      → IfReturns (Processed q w) (process sha256 valid decode track client begun q w)
  unfolding process
  process-Processed (list_query tag) w =
      returned (Processed (list_query tag) w) (w, list_objects client.client_id tag w.objects)
        (reports-list_objects client.client_id tag w.objects, ground arith)
  process-Processed (publish_query uri text hash tag) w =
      let Q = Processed (publish_query uri text hash tag) w in
      after_step Q (check_allowed_uri client uri) _ (λ x. after_step Q (decode text) _ (λ der.
        after_step Q (track uri der) _ (λ y.
          after_step Q (publish sha256 valid client der uri hash (w.objects, or_new begun w.delta))
            _ (λ u. returned Q (with_delta u, publish_reply uri tag ∷ []) (refl, ground arith)))))
  process-Processed (withdraw_query uri hash tag) w =
      let Q = Processed (withdraw_query uri hash tag) w in
      after_step Q (check_allowed_uri client uri) _ (λ x.
        after_step Q (withdraw sha256 valid client uri hash (w.objects, or_new begun w.delta)) _
          (λ u. returned Q (with_delta u, withdraw_reply uri tag ∷ []) (refl, ground arith)))

  abbrev RunQuiet : List Query → Work → Run → Type 0
  RunQuiet qs w (finished w' replies) =
      (reports replies ≡ false) × (is_some w'.delta ≡ (is_some w.delta || asks qs))
  RunQuiet qs w (failed raised tag replies) = Unit {0}

  process_all-RunQuiet :
      (qs : List Query) (w : Work) (replies : List Reply)
      → reports replies ≡ false
      → RunQuiet qs w (process_all sha256 valid decode track client begun qs w replies)
  unfolding process_all
  process_all-RunQuiet [] w replies h = (h, ground arith)
  process_all-RunQuiet (q ∷ qs) w replies h =
      next (process sha256 valid decode track client begun q w) refl
        (λ w' more quiet. process_all-RunQuiet qs w' (replies ++ more) quiet)
    where
      widen :
          (w' : Work) (run : Run)
          → is_some w'.delta ≡ (is_some w.delta || is_change q)
          → RunQuiet qs w' run
          → RunQuiet (q ∷ qs) w run
      widen w' (finished w2 rs) e r = (r.0, ground (arith, r.1, e))
      widen w' (failed raised tag rs) e r = tt

      next :
          (m : Result (Work × List Reply))
          → process sha256 valid decode track client begun q w ≡ m
          → ((w' : Work) (more : List Reply)
              → reports (replies ++ more) ≡ false
              → RunQuiet qs w'
                  (process_all sha256 valid decode track client begun qs w' (replies ++ more)))
          → RunQuiet (q ∷ qs) w (elim m as (λ x. Run) [
            | err raised ↦ failed raised (query_tag q) replies
            | ok (w', more) ↦
                process_all sha256 valid decode track client begun qs w' (replies ++ more)
          ])
      next (err raised) e ih = tt
      next (ok (w', more)) e ih =
          let p = (process-Processed q w).result (w', more) e in
          widen w' (process_all sha256 valid decode track client begun qs w' (replies ++ more)) p.1
            (ih w' more (ground (arith, reports-append replies more, h, p.0)))

  -- What the reply says of the session.
  abbrev pub Says : List Query → Session × List Reply → Type 0
  Says qs u =
      (reports u.1 ≡ true → u.0 ≡ session)
      × (reports u.1 ≡ false
          → u.0.serial ≡ (if asks qs then suc session.serial else session.serial))

  finish-Says :
      (qs : List Query) (w : Work) (run : Run)
      → is_some w.delta ≡ false
      → RunQuiet qs w run
      → Says qs (finish sha256 valid decode track now qs session run)
  unfolding finish activate
  finish-Says qs w (failed raised tag replies) n r = (
    (λ e. refl),
    (λ e. absurd (let f : true ≡ false = sym (reports-last replies raised tag) ∙ e in cc)),
  )
  finish-Says qs w (finished w' replies) n r = committed w'.delta (r.1 ∙ ap (λ b. b || asks qs) n)
    where
      committed :
          (m : Option Delta)
          → is_some m ≡ asks qs
          → Says qs (elim m as (λ x. Session × List Reply) [
            | none ↦ (session, replies)
            | some delta ↦ elim (activate sha256 valid delta w'.objects session) [
              | err raised ↦ (
                session,
                replies ++ report_error raised (last_tag sha256 valid decode track qs) ∷ [],
              )
              | ok session' ↦
                  (record session' { deltas = expire_deltas now session'.deltas }, replies)
            ]
          ])
      committed none e = ((λ h. refl), (λ h. rw⁻¹ e refl))
      committed (some delta) e = elim (Bool-cases (valid delta.xml)) [
        | inr bad ↦ rw bad (
          (λ h. refl),
          (λ h. absurd (let f : true ≡ false = sym (reports-last replies _ _) ∙ h in cc)),
        )
        | inl fine ↦
            rw fine ((λ h. absurd (let f : true ≡ false = sym h ∙ r.0 in cc)), (λ h. rw⁻¹ e refl))
      ]

  -- If the reply to a message reports an error the session is as it was, whatever came before the error
  -- in the message. If it reports none, the serial number has gone up by one where the message asks
  -- for a change, and is as it was where it only asks for lists.
  pub handle-Says :
      (qs : List Query) → Says qs (handle sha256 valid decode track now interval client qs session)
  unfolding handle
  handle-Says qs =
      let w : Work = record { objects = session.objects; delta = none } in
      finish-Says qs w (process_all sha256 valid decode track client begun qs w []) refl
        (process_all-RunQuiet qs w [] refl)
