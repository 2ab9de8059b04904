-- ===== src/Pub/Store/Steps.antt =====
-- What one publication or withdrawal does to the objects and to the delta.
use rpki_net.Prelude.{
  ℕ, ◌≡◌, ◌≢◌, refl, Bool, true, false, List, [], ◌∷◌, ◌++◌, All, arith, Option, none, some,
  if◌then◌else◌, Bool-cases, inl, inr, ap, sym, ◌∙◌, subst,
}
use rpki_net.Result.{
  Result, ok, err, IfReturns, after_call, after_step, returned, raises, existing_object_at_uri,
  different_object_at_uri, no_object_at_uri, document_invalid, guard, ◌>>◌,
}
use rpki_net.Rtr.Bytes.{bytes_eq}
use rpki_net.Pub.Store.{
  Text, Client, PublishedObject, Element, publish_element, withdraw_element, Delta, is_object,
  is_hash, starts_with, get_object, delete_object, create_object, replace_object, publish, withdraw,
}
use rpki_net.Pub.Store.Objects.{
  lookup, IsUnique, get_object-skip, delete_object-IsUnique, All-delete_object,
  lookup-delete_object, get_object-delete_object, create_object-IsUnique,
}

abbrev pub element_uri : Element → Text
element_uri (publish_element uri der hash) = uri
element_uri (withdraw_element uri hash) = uri

-- What a relying party makes of an element of a delta.
abbrev pub apply_element : Element → (Text → Option (List ℕ)) → Text → Option (List ℕ)
apply_element (publish_element uri der hash) view u = if bytes_eq uri u then some der else view u
apply_element (withdraw_element uri hash) view u = if bytes_eq uri u then none else view u

abbrev pub apply_elements : List Element → (Text → Option (List ℕ)) → Text → Option (List ℕ)
apply_elements [] view = view
apply_elements (e ∷ es) view = apply_elements es (apply_element e view)

module _ (sha256 : List ℕ → Text) (valid : List Element → Bool) (base : ℕ → Text) where
  -- URIs and hashes are unique, hashes are those of the contents, and every URI is one that the client
  -- may use.
  abbrev pub Sound : PublishedObject → Type 0
  Sound o = (o.hash ≡ sha256 o.der) × (starts_with o.uri (base o.client) ≡ true)

  abbrev pub IsGood : List PublishedObject → Type 0
  IsGood os = IsUnique os × All Sound os

  -- One step of a client: an element is added to the delta, and the objects change as it says.
  pub record IsStep (c : ℕ) (before : List PublishedObject × Delta)
      (after : List PublishedObject × Delta) : Type 0 where
    pub element : Element
    pub allowed : starts_with (element_uri element) (base c) ≡ true
    pub logged : after.1 ≡ record (before.1) { xml = before.1.xml ++ element ∷ [] }
    pub good : IsGood after.0
    pub view : (u : Text) → lookup u after.0 ≡ apply_element element (λ t. lookup t before.0) u
    pub others : (d : ℕ) (u : Text) → d ≢ c → get_object d u after.0 ≡ get_object d u before.0

  module _ (client : Client) (uri : Text) (obj_hash : Option Text) (os : List PublishedObject)
      (delta : Delta) (own : client.base_uri ≡ base client.client_id)
      (allowed : starts_with uri client.base_uri ≡ true) (good : IsGood os) where
    abbrev c : ℕ
    c = client.client_id

    -- The objects without the one that is replaced.
    record IsLeft (left : List PublishedObject) : Type 0 where
      good_left : IsGood left
      view_left :
          (u : Text) (x : Option (List ℕ))
          → (if bytes_eq uri u then x else lookup u left)
            ≡ (if bytes_eq uri u then x else lookup u os)
      others_left : (d : ℕ) (u : Text) → d ≢ c → get_object d u left ≡ get_object d u os

    deleted-IsLeft :
        (obj : PublishedObject) → get_object c uri os ≡ some obj → IsLeft (delete_object c uri os)
    deleted-IsLeft obj found = record {
      good_left = (delete_object-IsUnique c uri os good.0, All-delete_object c uri _ os good.1);
      view_left = λ u x. ground (arith, lookup-delete_object c uri u os obj good.0 found);
      others_left = λ d u. get_object-delete_object c uri d u os;
    }

    replace_object-IsLeft :
        (o : Option PublishedObject)
        → get_object c uri os ≡ o
        → IfReturns IsLeft (replace_object sha256 valid o c uri obj_hash os)
    unfolding replace_object
    replace_object-IsLeft none found =
        returned IsLeft os
          (record { good_left = good; view_left = λ u x. refl; others_left = λ d u h. refl })
    replace_object-IsLeft (some obj) found = elim (Bool-cases (is_hash obj.hash obj_hash)) [
      | inl h ↦ rw h (returned IsLeft (delete_object c uri os) (deleted-IsLeft obj found))
      | inr h ↦ rw h (refused obj_hash)
    ]
      where
        refused :
            (h : Option Text)
            → IfReturns IsLeft (elim h as (λ x. Result (List PublishedObject)) [
              | none ↦ err existing_object_at_uri
              | some t ↦ err different_object_at_uri
            ])
        refused none = raises IsLeft existing_object_at_uri
        refused (some t) = raises IsLeft different_object_at_uri

    pub publish-IsStep :
        (der : List ℕ)
        → IfReturns
            (IsStep c (os, delta))
            (publish sha256 valid client der uri obj_hash (os, delta))
    unfolding publish get_object
    publish-IsStep der =
        after_call (IsStep c (os, delta))
          (replace_object sha256 valid (get_object c uri os) c uri obj_hash os) _
          (λ left e.
            let l = (replace_object-IsLeft (get_object c uri os) refl).result left e in
            let o : PublishedObject = record {
              uri = uri;
              der = der;
              hash = sha256 der;
              client = c;
            } in
            after_call (IsStep c (os, delta)) (create_object o left) _ (λ os' e'.
              let (same, unique) = (create_object-IsUnique o left l.good_left.0).result os' e' in
              after_step (IsStep c (os, delta))
                (guard (valid (delta.xml ++ publish_element uri der obj_hash ∷ []))
                  document_invalid)
                _
                (λ x.
                  returned (IsStep c (os, delta))
                    (os', record delta { xml = delta.xml ++ publish_element uri der obj_hash ∷ [] })
                    (record {
                      element = publish_element uri der obj_hash;
                      allowed = subst (λ b. starts_with uri b ≡ true) own allowed;
                      logged = refl;
                      good = (
                        unique,
                        subst (All Sound) (sym same) (
                          (refl, subst (λ b. starts_with uri b ≡ true) own allowed),
                          l.good_left.1,
                        ),
                      );
                      view = λ u. ap (lookup u) same ∙ l.view_left u (some der);
                      others = λ d u h.
                          let other : is_object d u o ≡ false = ground (arith, h) in
                          ap (get_object d u) same
                          ∙ get_object-skip d u o left other
                          ∙ l.others_left d u h;
                    }))))

    pub withdraw-IsStep :
        IfReturns (IsStep c (os, delta)) (withdraw sha256 valid client uri obj_hash (os, delta))
    unfolding withdraw
    withdraw-IsStep = found (get_object c uri os) refl
      where
        found :
            (m : Option PublishedObject)
            → get_object c uri os ≡ m
            → IfReturns
                (IsStep c (os, delta))
                (elim m as (λ x. Result (List PublishedObject × Delta)) [
                  | none ↦ err no_object_at_uri
                  | some obj ↦
                      guard (is_hash obj.hash obj_hash) different_object_at_uri
                      >> (guard
                            (valid (delta.xml ++ withdraw_element uri obj.hash ∷ []))
                            document_invalid
                          >> ok (
                            delete_object c uri os,
                            record delta { xml = delta.xml ++ withdraw_element uri obj.hash ∷ [] },
                          ))
                ])
        found none e = raises (IsStep c (os, delta)) no_object_at_uri
        found (some obj) e =
            let l = deleted-IsLeft obj e in
            after_step (IsStep c (os, delta))
              (guard (is_hash obj.hash obj_hash) different_object_at_uri) _
              (λ x.
                after_step (IsStep c (os, delta))
                  (guard (valid (delta.xml ++ withdraw_element uri obj.hash ∷ [])) document_invalid)
                  _
                  (λ y.
                    returned (IsStep c (os, delta))
                      (
                        delete_object c uri os,
                        record delta { xml = delta.xml ++ withdraw_element uri obj.hash ∷ [] },
                      )
                      (record {
                        element = withdraw_element uri obj.hash;
                        allowed = subst (λ b. starts_with uri b ≡ true) own allowed;
                        logged = refl;
                        good = l.good_left;
                        view = λ u. lookup-delete_object c uri u os obj good.0 e;
                        others = l.others_left;
                      })))
