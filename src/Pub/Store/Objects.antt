-- ===== src/Pub/Store/Objects.antt =====
-- The objects as a map from URIs to contents, and what deleting and creating make of it.
use rpki_net.Prelude.{
  ℕ, ◌≡◌, ◌≢◌, ◌↔◌, refl, true, false, List, [], ◌∷◌, All, arith, Option, none, some, if◌then◌else◌,
  Bool-cases, inl, inr, sym, ◌∙◌, subst,
}
use rpki_net.Result.{IfReturns, returned, raises}
use rpki_net.Rtr.Bytes.{bytes_eq, bytes_eq-same, bytes_eq_sound}
use rpki_net.Pub.Store.{
  Text, PublishedObject, is_object, get_object, delete_object, has_uri, has_hash, create_object,
}

bytes_eq_iff : (a b : Text) → (bytes_eq a b ≡ true) ↔ (a ≡ b)
bytes_eq_iff a b = (bytes_eq_sound a b, λ e. subst (λ t. bytes_eq a t ≡ true) e (bytes_eq-same a))

-- What is published at a URI.
abbrev pub lookup : Text → List PublishedObject → Option (List ℕ)
lookup u [] = none
lookup u (o ∷ os) = if bytes_eq o.uri u then some o.der else lookup u os

-- What the constraints of the table say.
abbrev pub IsUnique : List PublishedObject → Type 0
IsUnique [] = Unit
IsUnique (o ∷ os) = (has_uri o.uri os ≡ false) × (has_hash o.hash os ≡ false) × IsUnique os

lookup-none : (u : Text) (os : List PublishedObject) → has_uri u os ≡ false → lookup u os ≡ none
unfolding has_uri
lookup-none u [] h = refl
lookup-none u (o ∷ os) h = elim (Bool-cases (bytes_eq o.uri u)) [
  | inl e ↦ absurd (let f : true ≡ false = sym (rw e refl) ∙ h in cc)
  | inr e ↦ rw e (lookup-none u os (ground (arith, h, e)))
]

module _ (c : ℕ) (uri : Text) (o : PublishedObject) (os : List PublishedObject) where
  get_object-found : is_object c uri o ≡ true → get_object c uri (o ∷ os) ≡ some o
  unfolding get_object
  get_object-found h = rw (h, get_object) refl

  pub get_object-skip : is_object c uri o ≡ false → get_object c uri (o ∷ os) ≡ get_object c uri os
  unfolding get_object
  get_object-skip h = rw (h, get_object) refl

  delete_object-found : is_object c uri o ≡ true → delete_object c uri (o ∷ os) ≡ os
  unfolding delete_object
  delete_object-found h = rw (h, delete_object) refl

  delete_object-skip :
      is_object c uri o ≡ false → delete_object c uri (o ∷ os) ≡ o ∷ delete_object c uri os
  unfolding delete_object
  delete_object-skip h = rw (h, delete_object) refl

  is_object-uri : is_object c uri o ≡ true → o.uri ≡ uri
  is_object-uri h = bytes_eq_sound o.uri uri (ground (arith, h))

  is_object-client : is_object c uri o ≡ true → o.client ≡ c
  is_object-client h = ground (arith, h)

get_object-has_uri :
    (c : ℕ) (uri : Text) (os : List PublishedObject) (obj : PublishedObject)
    → get_object c uri os ≡ some obj
    → has_uri uri os ≡ true
unfolding has_uri get_object
get_object-has_uri c uri [] obj h = cc
get_object-has_uri c uri (o ∷ os) obj h = elim (Bool-cases (is_object c uri o)) [
  | inl e ↦ ground (arith, e)
  | inr e ↦ ground (arith, get_object-has_uri c uri os obj (sym (get_object-skip c uri o os e) ∙ h))
]

module _ (c : ℕ) (uri : Text) where
  has_uri-delete_object :
      (x : Text) (os : List PublishedObject)
      → has_uri x os ≡ false
      → has_uri x (delete_object c uri os) ≡ false
  unfolding has_uri delete_object
  has_uri-delete_object x [] h = h
  has_uri-delete_object x (o ∷ os) h = elim (Bool-cases (is_object c uri o)) [
    | inl e ↦ rw (delete_object-found c uri o os e) (ground (arith, h))
    | inr e ↦
        rw (delete_object-skip c uri o os e)
          (ground (arith, h, has_uri-delete_object x os (ground (arith, h))))
  ]

  has_hash-delete_object :
      (x : Text) (os : List PublishedObject)
      → has_hash x os ≡ false
      → has_hash x (delete_object c uri os) ≡ false
  unfolding has_hash delete_object
  has_hash-delete_object x [] h = h
  has_hash-delete_object x (o ∷ os) h = elim (Bool-cases (is_object c uri o)) [
    | inl e ↦ rw (delete_object-found c uri o os e) (ground (arith, h))
    | inr e ↦
        rw (delete_object-skip c uri o os e)
          (ground (arith, h, has_hash-delete_object x os (ground (arith, h))))
  ]

  pub delete_object-IsUnique :
      (os : List PublishedObject) → IsUnique os → IsUnique (delete_object c uri os)
  unfolding delete_object
  delete_object-IsUnique [] u = tt
  delete_object-IsUnique (o ∷ os) u = elim (Bool-cases (is_object c uri o)) [
    | inl e ↦ rw (delete_object-found c uri o os e) (u.2)
    | inr e ↦ rw (delete_object-skip c uri o os e) (
      has_uri-delete_object o.uri os u.0,
      has_hash-delete_object o.hash os u.1,
      delete_object-IsUnique os u.2,
    )
  ]

  pub All-delete_object :
      (P : PublishedObject → Type 0) (os : List PublishedObject)
      → All P os
      → All P (delete_object c uri os)
  unfolding delete_object
  All-delete_object P [] h = tt
  All-delete_object P (o ∷ os) h = elim (Bool-cases (is_object c uri o)) [
    | inl e ↦ rw (delete_object-found c uri o os e) (h.1)
    | inr e ↦ rw (delete_object-skip c uri o os e) (h.0, All-delete_object P os h.1)
  ]

  -- What is left at the other URIs.
  pub lookup-delete_object :
      (u : Text) (os : List PublishedObject) (obj : PublishedObject)
      → IsUnique os
      → get_object c uri os ≡ some obj
      → lookup u (delete_object c uri os) ≡ (if bytes_eq uri u then none else lookup u os)
  unfolding get_object
  lookup-delete_object u [] obj w h = cc
  lookup-delete_object u (o ∷ os) obj w h = elim (Bool-cases (is_object c uri o)) [
    | inl e ↦
        let same : o.uri ≡ uri = is_object-uri c uri o os e in
        let gone : has_uri uri os ≡ false = subst (λ t. has_uri t os ≡ false) same w.0 in
        elim (Bool-cases (bytes_eq uri u)) [
          | inl here ↦
              rw (delete_object-found c uri o os e, here)
                (lookup-none u os
                  (subst (λ t. has_uri t os ≡ false) (bytes_eq_sound uri u here) gone))
          | inr there ↦ rw (delete_object-found c uri o os e, same, there) refl
        ]
    | inr e ↦
        let found : get_object c uri os ≡ some obj = sym (get_object-skip c uri o os e) ∙ h in
        let known : has_uri uri os ≡ true = get_object-has_uri c uri os obj found in
        let ih = lookup-delete_object u os obj w.2 found in
        elim (Bool-cases (bytes_eq uri u)) [
          | inl here ↦ elim (Bool-cases (bytes_eq o.uri u)) [
            | inl own ↦
                let twice : o.uri ≡ uri =
                  bytes_eq_sound o.uri u own ∙ sym (bytes_eq_sound uri u here) in
                let gone : has_uri uri os ≡ false = subst (λ t. has_uri t os ≡ false) twice w.0 in
                absurd (let f : true ≡ false = sym known ∙ gone in cc)
            | inr other ↦ rw (delete_object-skip c uri o os e, other, ih, here) refl
          ]
          | inr there ↦ rw (delete_object-skip c uri o os e, ih, there) refl
        ]
  ]

  -- The objects of other clients.
  pub get_object-delete_object :
      (d : ℕ) (u : Text) (os : List PublishedObject)
      → d ≢ c
      → get_object d u (delete_object c uri os) ≡ get_object d u os
  unfolding get_object delete_object
  get_object-delete_object d u [] h = refl
  get_object-delete_object d u (o ∷ os) h = elim (Bool-cases (is_object c uri o)) [
    | inl e ↦
        let other : is_object d u o ≡ false = ground (arith, h, is_object-client c uri o os e) in
        rw (delete_object-found c uri o os e) (sym (get_object-skip d u o os other))
    | inr e ↦ rw (delete_object-skip c uri o os e) (rw (get_object-delete_object d u os h) refl)
  ]

-- What is created can be found; nothing else changes.
pub create_object-IsUnique :
    (o : PublishedObject) (os : List PublishedObject)
    → IsUnique os
    → IfReturns (λ os'. (os' ≡ o ∷ os) × IsUnique os') (create_object o os)
unfolding create_object
create_object-IsUnique o os u = elim (Bool-cases (has_hash o.hash os)) [
  | inl h ↦ rw h (raises _ _)
  | inr h ↦ elim (Bool-cases (has_uri o.uri os)) [
    | inl k ↦ rw (h, k) (raises _ _)
    | inr k ↦ rw (h, k) (returned (λ os'. (os' ≡ o ∷ os) × IsUnique os') (o ∷ os) (refl, (k, h, u)))
  ]
]
