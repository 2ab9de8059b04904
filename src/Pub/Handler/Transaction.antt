-- ===== src/Pub/Handler/Transaction.antt =====
-- A message of a client as a transaction: what the session is afterwards.
use rpki_net.Prelude.{
  ℕ, suc, ◌+◌, ◌≡◌, ◌≢◌, refl, Bool, true, false, List, [], ◌∷◌, ◌++◌, All, Option, none, some,
  Bool-cases, inl, inr, ap, sym, ◌∙◌, subst, ◌⊎◌,
}
use rpki_net.Result.{
  Error, Result, ok, err, IfReturns, after_call, after_step, returned, raises, forbidden_uri, ◌>>=◌,
}
use rpki_net.Pub.Store.{
  Text, Client, PublishedObject, Element, publish_element, withdraw_element, Delta, Session,
  starts_with, check_allowed_uri, new_delta, expire_deltas, get_object, publish, withdraw, activate,
}
use rpki_net.Pub.Store.Objects.{lookup}
use rpki_net.Pub.Store.Steps.{
  element_uri, apply_element, apply_elements, IsGood, IsStep, publish-IsStep, withdraw-IsStep,
}
use rpki_net.Pub.Handler.{
  Query, list_query, publish_query, withdraw_query, query_tag, Reply, list_reply, publish_reply,
  withdraw_reply, report_error, Work, Run, finished, failed, list_objects, or_new, with_delta,
  process, process_all, last_tag, finish, handle,
}

apply_elements-append :
    (es fs : List Element) (view : Text → Option (List ℕ))
    → apply_elements (es ++ fs) view ≡ apply_elements fs (apply_elements es view)
apply_elements-append [] fs view = refl
apply_elements-append (e ∷ es) fs view = apply_elements-append es fs (apply_element e view)

All-append : {A : Type 0} (P : A → Type 0) (xs ys : List A) → All P xs → All P ys → All P (xs ++ ys)
All-append P [] ys px py = py
All-append P (x ∷ xs) ys px py = (px.0, All-append P xs ys px.1 py)

apply_element-same :
    (e : Element) (f g : Text → Option (List ℕ)) (u : Text)
    → f u ≡ g u
    → apply_element e f u ≡ apply_element e g u
apply_element-same (publish_element uri der hash) f g u h = rw h refl
apply_element-same (withdraw_element uri hash) f g u h = rw h refl

module _ (sha256 : List ℕ → Text) (valid : List Element → Bool) (decode : Text → Result (List ℕ))
    (track : Text → List ℕ → Result (Unit {0})) (base : ℕ → Text) (client : Client)
    (own : client.base_uri ≡ base client.client_id) (session : Session) (expires : ℕ) where
  abbrev c : ℕ
  c = client.client_id

  abbrev begun : Delta
  begun = new_delta session expires

  abbrev Allowed : Element → Type 0
  Allowed e = starts_with (element_uri e) (base c) ≡ true

  -- What the elements of the delta say of the objects, so far.
  record IsTracked (objects : List PublishedObject) (delta : Delta) : Type 0 where
    good : IsGood sha256 valid base objects
    view :
        (u : Text) → lookup u objects ≡ apply_elements delta.xml (λ t. lookup t session.objects) u
    others : (d : ℕ) (u : Text) → d ≢ c → get_object d u objects ≡ get_object d u session.objects
    allowed : All Allowed delta.xml
    made : delta ≡ record begun { xml = delta.xml }

  IsTracked-step :
      (u v : List PublishedObject × Delta)
      → IsTracked u.0 u.1
      → IsStep sha256 valid base c u v
      → IsTracked v.0 v.1
  IsTracked-step (os, delta) (os', delta') t s =
      let xml = ap (λ d. d.xml) s.logged in
      let before : Text → Option (List ℕ) = λ t. lookup t session.objects in
      record {
        good = s.good;
        view = λ u.
            s.view u
            ∙ apply_element-same s.element _ _ u (t.view u)
            ∙ sym (
                ap (λ es. apply_elements es before u) xml
                ∙ ap (λ f. f u) (apply_elements-append delta.xml (s.element ∷ []) before));
        others = λ d u h. s.others d u h ∙ t.others d u h;
        allowed =
            subst (All Allowed) (sym xml)
              (All-append Allowed delta.xml (s.element ∷ []) t.allowed (s.allowed, tt));
        made =
            s.logged
            ∙ ap {B = Delta} (λ d. record d { xml = delta.xml ++ s.element ∷ [] }) t.made
            ∙ sym (ap {B = Delta} (λ es. record begun { xml = es }) xml);
      }

  abbrev WorkTracked : Work → Type 0
  WorkTracked w = IsTracked w.objects (or_new begun w.delta)

  abbrev ProcessTracked : Work × List Reply → Type 0
  ProcessTracked (w, replies) = WorkTracked w

  step-ProcessTracked :
      (w : Work) (m : Result (List PublishedObject × Delta)) (replies : List Reply)
      → WorkTracked w
      → IfReturns (IsStep sha256 valid base c (w.objects, or_new begun w.delta)) m
      → IfReturns ProcessTracked (m >>= λ u. ok (with_delta u, replies))
  step-ProcessTracked w m replies t step = after_call ProcessTracked m _ (λ u e.
      returned ProcessTracked (with_delta u, replies)
        (IsTracked-step (w.objects, or_new begun w.delta) u t (step.result u e)))

  process-ProcessTracked :
      (q : Query) (w : Work)
      → WorkTracked w
      → IfReturns ProcessTracked (process sha256 valid decode track client begun q w)
  unfolding process check_allowed_uri
  process-ProcessTracked (list_query tag) w t =
      returned ProcessTracked (w, list_objects c tag w.objects) t
  process-ProcessTracked (publish_query uri text hash tag) w t =
      elim (Bool-cases (starts_with uri client.base_uri)) [
        | inr refused ↦ rw refused (raises ProcessTracked forbidden_uri)
        | inl granted ↦ rw granted (
            after_step ProcessTracked (decode text) _ (λ der.
              after_step ProcessTracked (track uri der) _ (λ x.
                step-ProcessTracked w
                  (publish sha256 valid client der uri hash (w.objects, or_new begun w.delta))
                  (publish_reply uri tag ∷ []) t
                  (publish-IsStep sha256 valid base client uri hash w.objects (or_new begun w.delta)
                    own granted t.good der))))
      ]
  process-ProcessTracked (withdraw_query uri hash tag) w t =
      elim (Bool-cases (starts_with uri client.base_uri)) [
        | inr refused ↦ rw refused (raises ProcessTracked forbidden_uri)
        | inl granted ↦ rw granted (
            step-ProcessTracked w
              (withdraw sha256 valid client uri hash (w.objects, or_new begun w.delta))
              (withdraw_reply uri tag ∷ []) t
              (withdraw-IsStep sha256 valid base client uri hash w.objects (or_new begun w.delta)
                own granted t.good))
      ]

  abbrev RunTracked : Run → Type 0
  RunTracked (finished w replies) = WorkTracked w
  RunTracked (failed raised tag replies) = Unit {0}

  process_all-RunTracked :
      (qs : List Query) (w : Work) (replies : List Reply)
      → WorkTracked w
      → RunTracked (process_all sha256 valid decode track client begun qs w replies)
  unfolding process_all
  process_all-RunTracked [] w replies t = t
  process_all-RunTracked (q ∷ qs) w replies t =
      next (process sha256 valid decode track client begun q w) refl
        (λ w' more. process_all-RunTracked qs w' (replies ++ more))
    where
      next :
          (m : Result (Work × List Reply))
          → process sha256 valid decode track client begun q w ≡ m
          → ((w' : Work) (more : List Reply)
              → WorkTracked w'
              → RunTracked
                  (process_all sha256 valid decode track client begun qs w' (replies ++ more)))
          → RunTracked (elim m as (λ x. Run) [
            | err raised ↦ failed raised (query_tag q) replies
            | ok (w', more) ↦
                process_all sha256 valid decode track client begun qs w' (replies ++ more)
          ])
      next (err raised) e ih = tt
      next (ok (w', more)) e ih = ih w' more ((process-ProcessTracked q w t).result (w', more) e)

-- What a message has committed: a delta whose elements are within the space of the client, that takes
-- what was published to what is published, and has the next serial number.
pub record IsCommitted (sha256 : List ℕ → Text) (valid : List Element → Bool) (base : ℕ → Text)
    (c now expires : ℕ) (before after : Session) : Type 0 where
  pub delta : Delta
  pub numbered :
      (delta.serial ≡ suc before.serial)
      × (delta.expires ≡ expires)
      × (after.serial ≡ suc before.serial)
  pub kept : after.deltas ≡ expire_deltas now (before.deltas ++ delta ∷ [])
  pub good : IsGood sha256 valid base after.objects
  pub view :
      (u : Text)
      → lookup u after.objects ≡ apply_elements delta.xml (λ t. lookup t before.objects) u
  pub others :
      (d : ℕ) (u : Text) → d ≢ c → get_object d u after.objects ≡ get_object d u before.objects
  pub allowed : All (λ e. starts_with (element_uri e) (base c) ≡ true) delta.xml

-- A reply reports an error.
abbrev pub reports : List Reply → Bool
reports [] = false
reports (report_error raised tag ∷ rs) = true
reports (list_reply uri hash tag ∷ rs) = reports rs
reports (publish_reply uri tag ∷ rs) = reports rs
reports (withdraw_reply uri tag ∷ rs) = reports rs

pub reports-last :
    (rs : List Reply) (raised : Error) (tag : Option Text)
    → reports (rs ++ report_error raised tag ∷ []) ≡ true
reports-last [] raised tag = refl
reports-last (report_error e t ∷ rs) raised tag = refl
reports-last (list_reply uri hash t ∷ rs) raised tag = reports-last rs raised tag
reports-last (publish_reply uri t ∷ rs) raised tag = reports-last rs raised tag
reports-last (withdraw_reply uri t ∷ rs) raised tag = reports-last rs raised tag

module _ (sha256 : List ℕ → Text) (valid : List Element → Bool) (decode : Text → Result (List ℕ))
    (track : Text → List ℕ → Result (Unit {0})) (base : ℕ → Text) (client : Client)
    (own : client.base_uri ≡ base client.client_id) (session : Session) (now interval : ℕ) where
  abbrev pub Outcome : Session × List Reply → Type 0
  Outcome u =
      (u.0 ≡ session)
      ⊎ IsCommitted sha256 valid base client.client_id now (now + interval) session u.0

  finish-Outcome :
      (qs : List Query) (run : Run)
      → RunTracked sha256 valid decode track base client own session (now + interval) run
      → Outcome (finish sha256 valid decode track now qs session run)
  unfolding finish activate new_delta
  finish-Outcome qs (failed raised tag replies) t = inl refl
  finish-Outcome qs (finished w replies) t = committed w.delta refl
    where
      committed :
          (m : Option Delta)
          → w.delta ≡ m
          → Outcome (elim m as (λ x. Session × List Reply) [
            | none ↦ (session, replies)
            | some delta ↦ elim (activate sha256 valid delta w.objects session) [
              | err raised ↦ (
                session,
                replies ++ report_error raised (last_tag sha256 valid decode track qs) ∷ [],
              )
              | ok session' ↦
                  (record session' { deltas = expire_deltas now session'.deltas }, replies)
            ]
          ])
      committed none e = inl refl
      committed (some delta) e = elim (Bool-cases (valid delta.xml)) [
        | inr bad ↦ rw bad (inl refl)
        | inl fine ↦
            let tracked : IsTracked sha256 valid decode track base client own session
                (now + interval) w.objects delta =
              subst
                (λ m.
                  IsTracked sha256 valid decode track base client own session (now + interval)
                    w.objects (or_new (new_delta session (now + interval)) m))
                e t in
            rw fine (
              inr (record {
                delta = delta;
                numbered =
                    (ap (λ d. d.serial) tracked.made, ap (λ d. d.expires) tracked.made, refl);
                kept = refl;
                good = tracked.good;
                view = tracked.view;
                others = tracked.others;
                allowed = tracked.allowed;
              }))
      ]

  -- A message of a client either leaves the session as it was, or adds one delta with the next serial
  -- number, such that applying its elements to what was published before the message gives what is
  -- published after it; the elements are within the URI space of the client, the objects of other
  -- clients stay, URIs and hashes stay unique, every hash stays that of its object, and expired deltas
  -- are dropped. This is so where the objects were like that before, and the URI spaces of the clients
  -- are given by `base`.
  pub handle-Outcome :
      (qs : List Query)
      → IsGood sha256 valid base session.objects
      → Outcome (handle sha256 valid decode track now interval client qs session)
  unfolding handle new_delta
  handle-Outcome qs good = finish-Outcome qs _ (
      process_all-RunTracked sha256 valid decode track base client own session (now + interval) qs
        (record { objects = session.objects; delta = none }) []
        (record {
          good = good;
          view = λ u. refl;
          others = λ d u h. refl;
          allowed = tt;
          made = refl;
        }))
