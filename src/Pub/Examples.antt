-- ===== src/Pub/Examples.antt =====
-- The theorems on messages at a concrete session, and runs.
use rpki_net.Prelude.{ℕ, ◌≡◌, refl, Bool, true, List, [], ◌∷◌, none, some}
use rpki_net.Result.{Result, ok}
use rpki_net.Rtr.Bytes.{bytes_eq}
use rpki_net.Pub.Store.{
  Text, Client, PublishedObject, Element, publish_element, Session, starts_with, check_allowed_uri,
  get_object, delete_object, has_uri, has_hash, create_object, new_delta, expire_deltas,
  replace_object, publish, withdraw, activate,
}
use rpki_net.Pub.Store.Steps.{IsGood}
use rpki_net.Pub.Handler.{
  Query, publish_query, publish_reply, list_objects, process, process_all, finish, handle,
}
use rpki_net.Pub.Handler.Transaction.{Outcome, handle-Outcome}
use rpki_net.Pub.Handler.Atomic.{Says, handle-Says}

program : Unit {0}
unfolding bytes_eq starts_with check_allowed_uri get_object delete_object has_uri has_hash
    create_object new_delta expire_deltas replace_object publish withdraw activate list_objects
    process process_all finish handle
program = tt

-- A hash that keeps everything, and a decoding that changes nothing.
abbrev same_bytes : List ℕ → List ℕ
same_bytes bs = bs

abbrev decoded : Text → Result (List ℕ)
decoded text = ok text

abbrev tracked : Text → List ℕ → Result (Unit {0})
tracked uri der = ok tt

abbrev all_valid : List Element → Bool
all_valid xml = true

-- Client n may use the URIs that begin with n.
abbrev space : ℕ → Text
space n = n ∷ []

abbrev first_client : Client
first_client = record { client_id = 1; base_uri = 1 ∷ [] }

abbrev stored : PublishedObject
stored = record { uri = 1 ∷ 5 ∷ []; der = 9 ∷ []; hash = 9 ∷ []; client = 1 }

abbrev session : Session
session = record { serial = 3; objects = stored ∷ []; deltas = [] }

-- The object at 1/5 is replaced, one at 1/6 is added.
abbrev message : List Query
message =
    publish_query (1 ∷ 5 ∷ []) (8 ∷ []) (some (9 ∷ [])) none
    ∷ publish_query (1 ∷ 6 ∷ []) (7 ∷ []) none none
    ∷ []

session-IsGood : IsGood same_bytes all_valid space session.objects
unfolding program
session-IsGood = ((refl, refl, tt), ((refl, refl), tt))

handle-Outcome_example :
    Outcome same_bytes all_valid decoded tracked space first_client refl session 100 50
      (handle same_bytes all_valid decoded tracked 100 50 first_client message session)
handle-Outcome_example =
    handle-Outcome same_bytes all_valid decoded tracked space first_client refl session 100 50
      message session-IsGood

handle_runs : handle same_bytes all_valid decoded tracked 100 50 first_client message session ≡ (
  record {
    serial = 4;
    objects =
        record { uri = 1 ∷ 6 ∷ []; der = 7 ∷ []; hash = 7 ∷ []; client = 1 }
        ∷ record { uri = 1 ∷ 5 ∷ []; der = 8 ∷ []; hash = 8 ∷ []; client = 1 }
        ∷ [];
    deltas =
        record {
          serial = 4;
          expires = 150;
          xml =
              publish_element (1 ∷ 5 ∷ []) (8 ∷ []) (some (9 ∷ []))
              ∷ publish_element (1 ∷ 6 ∷ []) (7 ∷ []) none
              ∷ [];
        }
        ∷ [];
  },
  publish_reply (1 ∷ 5 ∷ []) none ∷ publish_reply (1 ∷ 6 ∷ []) none ∷ [],
)
unfolding program
handle_runs = refl

handle-Says_example :
    Says same_bytes all_valid decoded tracked first_client session 100 50 message
      (handle same_bytes all_valid decoded tracked 100 50 first_client message session)
handle-Says_example =
    handle-Says same_bytes all_valid decoded tracked first_client session 100 50 message

-- A hash is given for a URI at which there is nothing: it is not looked at.
unchecked_runs :
    (handle same_bytes all_valid decoded tracked 100 50 first_client
      (publish_query (1 ∷ 6 ∷ []) (7 ∷ []) (some (4 ∷ [])) none ∷ [])
      session).1
    ≡ publish_reply (1 ∷ 6 ∷ []) none ∷ []
unfolding program
unchecked_runs = refl
