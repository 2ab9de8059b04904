-- ===== src/Pub/Handler.antt =====
-- rpki/pubd.py: how a message of a client is processed, in one transaction.
pub mod Transaction
pub mod Atomic
use rpki_net.Prelude.{
  ℕ, ◌+◌, Bool, true, false, List, [], ◌∷◌, ◌++◌, Option, none, some, ◌==◌, if◌then◌else◌,
}
use rpki_net.Result.{Error, Result, ok, err, guard, ◌>>=◌, ◌>>◌}
use rpki_net.Pub.Store.{
  Text, Client, PublishedObject, Element, Delta, Session, check_allowed_uri, new_delta,
  expire_deltas, publish, withdraw, activate,
}

-- The PDUs of a query; `tag` is an attribute that the reply repeats.
pub data Query : Type 0 where
  list_query : (tag : Option Text) → Query
  publish_query : (uri text : Text) → (hash tag : Option Text) → Query
  withdraw_query : (uri : Text) → (hash tag : Option Text) → Query

abbrev pub query_tag : Query → Option Text
query_tag (list_query tag) = tag
query_tag (publish_query uri text hash tag) = tag
query_tag (withdraw_query uri hash tag) = tag

-- The PDUs of a reply.
pub data Reply : Type 0 where
  list_reply : (uri hash : Text) → (tag : Option Text) → Reply
  publish_reply withdraw_reply : (uri : Text) → (tag : Option Text) → Reply
  report_error : Error → (tag : Option Text) → Reply

-- What the transaction has made so far: the objects, and the delta, if there is one.
pub record Work : Type 0 where
  pub objects : List PublishedObject
  pub delta : Option Delta

-- The transaction has come to its end, or a PDU has raised.
pub data Run : Type 0 where
  finished : Work → List Reply → Run
  failed : Error → (tag : Option Text) → List Reply → Run

unfoldable pub list_objects : ℕ → Option Text → List PublishedObject → List Reply
list_objects client tag [] = []
list_objects client tag (o ∷ os) =
    let rest = list_objects client tag os in
    if o.client == client then list_reply o.uri o.hash tag ∷ rest else rest

abbrev pub or_new : Delta → Option Delta → Delta
or_new new none = new
or_new new (some delta) = delta

abbrev pub with_delta : List PublishedObject × Delta → Work
with_delta (objects, delta) = record { objects = objects; delta = some delta }

-- `decode` is the decoding of Base64, and `track` what is logged of an object, which may raise.
module _ (sha256 : List ℕ → Text) (valid : List Element → Bool) (decode : Text → Result (List ℕ))
    (track : Text → List ℕ → Result (Unit {0})) where
  -- One round of the loop; `new` is the delta that `new_delta` makes.
  unfoldable pub process : Client → Delta → Query → Work → Result (Work × List Reply)
  process client new (list_query tag) w = ok (w, list_objects client.client_id tag w.objects)
  process client new (publish_query uri text hash tag) w = do
    check_allowed_uri client uri
    der ← decode text
    track uri der
    u ← publish sha256 valid client der uri hash (w.objects, or_new new w.delta)
    ok (with_delta u, publish_reply uri tag ∷ [])
  process client new (withdraw_query uri hash tag) w = do
    check_allowed_uri client uri
    u ← withdraw sha256 valid client uri hash (w.objects, or_new new w.delta)
    ok (with_delta u, withdraw_reply uri tag ∷ [])

  unfoldable pub process_all : Client → Delta → List Query → Work → List Reply → Run
  process_all client new [] w replies = finished w replies
  process_all client new (q ∷ qs) w replies = elim (process client new q w) [
    | err raised ↦ failed raised (query_tag q) replies
    | ok (w', more) ↦ process_all client new qs w' (replies ++ more)
  ]

  -- The last PDU, whose tag the report of an error in `activate` has.
  abbrev pub last_tag : List Query → Option Text
  last_tag [] = none
  last_tag (q ∷ []) = query_tag q
  last_tag (q ∷ r ∷ qs) = last_tag (r ∷ qs)

  unfoldable pub finish : ℕ → List Query → Session → Run → Session × List Reply
  finish now qs session (failed raised tag replies) =
      (session, replies ++ report_error raised tag ∷ [])
  finish now qs session (finished w replies) = elim (w.delta) [
    | none ↦ (session, replies)
    | some delta ↦ elim (activate sha256 valid delta w.objects session) [
      | err raised ↦ (session, replies ++ report_error raised (last_tag qs) ∷ [])
      | ok session' ↦ (record session' { deltas = expire_deltas now session'.deltas }, replies)
    ]
  ]

  -- The transaction of `client_handler`, in which both calls of the clock give `now`: the session after
  -- it, and the reply.
  -- `interval` is `rrdp_expiration_interval`.
  unfoldable pub handle : ℕ → ℕ → Client → List Query → Session → Session × List Reply
  handle now interval client qs session = finish now qs session (
      process_all client (new_delta session (now + interval)) qs
        (record { objects = session.objects; delta = none }) [])
