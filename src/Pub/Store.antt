-- ===== src/Pub/Store.antt =====
-- rpki/pubdb/models.py: published objects, deltas, and what publishing and withdrawing make of them.
-- The server has one session, so that its objects are those of the session. Texts are lists of code
-- points.
pub mod Objects
pub mod Steps
use rpki_net.Prelude.{
  ℕ, suc, Bool, true, false, ◌&&◌, ◌||◌, not, List, [], ◌∷◌, ◌++◌, Option, none, some, ltb, ◌==◌,
  if◌then◌else◌,
}
use rpki_net.Result.{
  Result, ok, err, forbidden_uri, existing_object_at_uri, different_object_at_uri, no_object_at_uri,
  integrity_error, document_invalid, guard, ◌>>=◌, ◌>>◌,
}
use rpki_net.Rtr.Bytes.{bytes_eq}

abbrev pub Text : Type 0
Text = List ℕ

pub record Client : Type 0 where
  pub client_id : ℕ
  pub base_uri : Text

-- `client` is the key of the client.
pub record PublishedObject : Type 0 where
  pub uri : Text
  pub der : List ℕ
  pub hash : Text
  pub client : ℕ

-- The elements of the XML of a delta.
pub data Element : Type 0 where
  publish_element : (uri : Text) → (der : List ℕ) → (hash : Option Text) → Element
  withdraw_element : (uri hash : Text) → Element

pub record Delta : Type 0 where
  pub serial : ℕ
  pub expires : ℕ
  pub xml : List Element

pub record Session : Type 0 where
  pub serial : ℕ
  pub objects : List PublishedObject
  pub deltas : List Delta

-- `text.startswith(prefix)`
unfoldable pub starts_with : Text → Text → Bool
starts_with text [] = true
starts_with [] (p ∷ prefix) = false
starts_with (t ∷ text) (p ∷ prefix) = t == p && starts_with text prefix

-- `check_allowed_uri`
unfoldable pub check_allowed_uri : Client → Text → Result (Unit {0})
check_allowed_uri client uri = guard (starts_with uri client.base_uri) forbidden_uri

-- `client.publishedobject_set.get(session = self.session, uri = uri)`
abbrev pub is_object : ℕ → Text → PublishedObject → Bool
is_object client uri o = o.client == client && bytes_eq o.uri uri

unfoldable pub get_object : ℕ → Text → List PublishedObject → Option PublishedObject
get_object client uri [] = none
get_object client uri (o ∷ os) =
    let rest = get_object client uri os in if is_object client uri o then some o else rest

-- `obj.delete()` of the object that was found.
unfoldable pub delete_object : ℕ → Text → List PublishedObject → List PublishedObject
delete_object client uri [] = []
delete_object client uri (o ∷ os) =
    let rest = o ∷ delete_object client uri os in if is_object client uri o then os else rest

-- The columns of the constraints `unique_together`.
unfoldable pub has_uri : Text → List PublishedObject → Bool
has_uri uri [] = false
has_uri uri (o ∷ os) = bytes_eq o.uri uri || has_uri uri os

unfoldable pub has_hash : Text → List PublishedObject → Bool
has_hash hash [] = false
has_hash hash (o ∷ os) = bytes_eq o.hash hash || has_hash hash os

-- `PublishedObject.objects.create`
unfoldable pub create_object :
    PublishedObject → List PublishedObject → Result (List PublishedObject)
create_object o os = do
  guard (not (has_hash o.hash os)) integrity_error
  guard (not (has_uri o.uri os)) integrity_error
  ok (o ∷ os)

-- `hash == obj_hash`, which may be None.
abbrev pub is_hash : Text → Option Text → Bool
is_hash hash none = false
is_hash hash (some obj_hash) = bytes_eq hash obj_hash

-- `Session.new_delta`
unfoldable pub new_delta : Session → ℕ → Delta
new_delta session expires = record { serial = suc session.serial; expires = expires; xml = [] }

-- `Session.expire_deltas`, at the time `now`.
unfoldable pub expire_deltas : ℕ → List Delta → List Delta
expire_deltas now [] = []
expire_deltas now (d ∷ ds) =
    let rest = expire_deltas now ds in if ltb d.expires now then rest else d ∷ rest

-- `sha256` stands for the hash in hexadecimal, and `valid` for the RelaxNG schema of deltas, which
-- `assertValid` checks.
module _ (sha256 : List ℕ → Text) (valid : List Element → Bool) where
  -- What `publish` does with the object that stands at the URI, if the client has one there.
  unfoldable pub replace_object :
      Option PublishedObject
      → ℕ
      → Text
      → Option Text
      → List PublishedObject
      → Result (List PublishedObject)
  replace_object none client uri obj_hash os = ok os
  replace_object (some obj) client uri obj_hash os =
      if is_hash obj.hash obj_hash then ok (delete_object client uri os) else elim obj_hash [
        | none ↦ err existing_object_at_uri
        | some h ↦ err different_object_at_uri
      ]

  -- `Delta.publish`
  unfoldable pub publish :
      Client
      → List ℕ
      → Text
      → Option Text
      → List PublishedObject × Delta
      → Result (List PublishedObject × Delta)
  publish client der uri obj_hash (objects, delta) = do
    left ←
        replace_object (get_object client.client_id uri objects) client.client_id uri obj_hash
          objects
    objects' ←
        create_object
          (record { uri = uri; der = der; hash = sha256 der; client = client.client_id }) left
    let xml = delta.xml ++ publish_element uri der obj_hash ∷ []
    guard (valid xml) document_invalid
    ok (objects', record delta { xml = xml })

  -- `Delta.withdraw`
  unfoldable pub withdraw :
      Client
      → Text
      → Option Text
      → List PublishedObject × Delta
      → Result (List PublishedObject × Delta)
  withdraw client uri obj_hash (objects, delta) = elim (get_object client.client_id uri objects) [
    | none ↦ err no_object_at_uri
    | some obj ↦ do
      guard (is_hash obj.hash obj_hash) different_object_at_uri
      let xml = delta.xml ++ withdraw_element uri obj.hash ∷ []
      guard (valid xml) document_invalid
      ok (delete_object client.client_id uri objects, record delta { xml = xml })
  ]

  -- `Delta.activate`: the delta is kept, and the serial number of the session is its own.
  unfoldable pub activate : Delta → List PublishedObject → Session → Result Session
  activate delta objects session = do
    guard (valid delta.xml) document_invalid
    ok (record {
      serial = suc session.serial;
      objects = objects;
      deltas = session.deltas ++ delta ∷ [];
    })
