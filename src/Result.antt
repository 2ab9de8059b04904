-- ===== src/Result.antt =====
-- The exceptions that the modelled code raises or lets through, and the chain of fallible steps.
use rpki_net.Prelude.{◌≡◌, refl, ap, subst, Bool, true, false}

-- Python's own exceptions, those of its libraries, of the POW extension, and those of
-- rpki/exceptions.py. `out_of_fuel` is no exception: a loop was cut off.
pub data Error : Type 0 where
  assertion_error overflow_error type_error value_error : Error
  resource_overlap must_be_prefix bad_ip_resource bad_roa_prefix : Error
  index_error attribute_error struct_error not_implemented integrity_error system_exit out_of_fuel :
      Error
  forbidden_uri existing_object_at_uri different_object_at_uri no_object_at_uri : Error
  document_invalid binascii_error : Error
  unicode_error pow_error corrupt_data unsupported_pdu_type unsupported_protocol_version : Error

pub data Result {ℓ} (A : Type ℓ) : Type ℓ where
  ok : A → Result A
  err : Error → Result A

-- The next step runs if the first one returned.
infixl 5 ◌>>=◌ ◌>>◌
abbrev pub ◌>>=◌ {ℓ κ} : {A : Type ℓ} {B : Type κ} → Result A → (A → Result B) → Result B
err raised >>= next = err raised
ok value >>= next = next value

abbrev pub ◌>>◌ {ℓ} : {B : Type ℓ} → Result (Unit {0}) → Result B → Result B
step >> next = step >>= λ _. next

-- `assert b` and `if not b: raise e`
abbrev pub guard : Bool → Error → Result (Unit {0})
guard false raised = err raised
guard true raised = ok tt

-- A call that returned, with a result of which `P` holds.
abbrev pub Returns {ℓ} : {A : Type ℓ} → Result A → (A → Type 0) → Type 0
Returns (ok a) P = P a
Returns (err e) P = ⊥

-- Inversion of a chain that returned.
pub >>=-eq-ok {ℓ κ} :
    {A : Type ℓ} {B : Type κ} (run : Result A) (next : A → Result B) {out : B}
    → (run >>= next) ≡ ok out
    → (value : A) × (run ≡ ok value) × (next value ≡ ok out)
>>=-eq-ok (err raised) next returned = cc
>>=-eq-ok (ok value) next returned = (value, refl, returned)

from_ok {ℓ} : {A : Type ℓ} → A → Result A → A
from_ok d (ok a) = a
from_ok d (err e) = d

pub ok-injective {ℓ} : {A : Type ℓ} {a b : A} → ok a ≡ ok b → a ≡ b
unfolding from_ok
ok-injective {a} e = ap (from_ok a) e

-- The rule for a chain: each step returns what the next one needs.
pub Returns-bind {ℓ κ} :
    {A : Type ℓ} {B : Type κ} (P : A → Type 0) (Q : B → Type 0) (m : Result A) (f : A → Result B)
    → Returns m P
    → ((a : A) → P a → Returns (f a) Q)
    → Returns (m >>= f) Q
Returns-bind P Q (ok a) f p k = k a p
Returns-bind P Q (err e) f p k = p

pub Returns-map {ℓ} :
    {A : Type ℓ} (P Q : A → Type 0) (m : Result A)
    → Returns m P
    → ((a : A) → P a → Q a)
    → Returns m Q
Returns-map P Q (ok a) p k = k a p
Returns-map P Q (err e) p k = p

pub Returns-ok {ℓ} :
    {A : Type ℓ} (P : A → Type 0) (m : Result A) → Returns m P → (a : A) × (m ≡ ok a) × P a
Returns-ok P (ok a) p = (a, refl, p)
Returns-ok P (err e) p = absurd p

-- What holds of the result, if there is one.
pub record IfReturns {ℓ} {A : Type ℓ} (P : A → Type 0) (m : Result A) : Type ℓ where
  pub result : (a : A) → m ≡ ok a → P a

-- A step of which nothing is used.
pub after_step {ℓ κ} :
    {A : Type ℓ} {B : Type κ} (Q : B → Type 0) (m : Result A) (f : A → Result B)
    → ((a : A) → IfReturns Q (f a))
    → IfReturns Q (m >>= f)
after_step Q m f k = record {
  result = λ b e. let (a, _, e1) = >>=-eq-ok m f e in (k a).result b e1;
}

-- The same, with what the step has returned.
pub after_call {ℓ κ} :
    {A : Type ℓ} {B : Type κ} (Q : B → Type 0) (m : Result A) (f : A → Result B)
    → ((a : A) → m ≡ ok a → IfReturns Q (f a))
    → IfReturns Q (m >>= f)
after_call Q m f k = record {
  result = λ b e. let (a, ea, e1) = >>=-eq-ok m f e in (k a ea).result b e1;
}

-- The last step.
pub returned {ℓ} : {A : Type ℓ} (Q : A → Type 0) (a : A) → Q a → IfReturns Q (ok a)
returned Q a q = record { result = λ b e. subst Q (ok-injective e) q }

pub raises {ℓ} : {A : Type ℓ} (Q : A → Type 0) (e : Error) → IfReturns Q (err e)
raises Q e = record { result = λ b h. cc }
