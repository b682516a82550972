-- ===== src/Prelude/Results.antt =====
-- A call that returns a value or raises: `E` is the type of what it raises.
use mathlib.Core.Path.{◌≡◌, refl}
use mathlib.Core.Logic.{◌⊎◌, inl, inr}
use mathlib.Core.Bool.{Bool, true, false}
use mathlib.Core.Option.{Option, none, some}
use native.Mathlib.Omega.{arith}

pub data Result {ℓ} (E : Type 0) (A : Type ℓ) : Type ℓ where
  err : E → Result E A
  ok : A → Result E A

infixl 5 ◌>>=◌ ◌>>◌
abbrev pub ◌>>=◌ {ℓ κ} :
    {E : Type 0} {A : Type ℓ} {B : Type κ} → Result E A → (A → Result E B) → Result E B
err raised >>= next = err raised
ok x >>= next = next x

abbrev pub ◌>>◌ {ℓ κ} :
    {E : Type 0} {A : Type ℓ} {B : Type κ} → Result E A → Result E B → Result E B
call >> after = call >>= λ _. after

-- `if not test: raise e`
abbrev pub require : {E : Type 0} → Bool → E → Result E (Unit {0})
require false raised = err raised
require true raised = ok tt

-- `if test: raise e`
abbrev pub refuse : {E : Type 0} → Bool → E → Result E (Unit {0})
refuse true e = err e
refuse false e = ok tt

abbrev pub or_raise {ℓ} : {E : Type 0} {A : Type ℓ} → Option A → E → Result E A
or_raise none e = err e
or_raise (some a) e = ok a

-- Inversion of a bind, of a check and of a lookup that did not raise.
pub >>=-eq-ok {ℓ κ} :
    {E : Type 0} {A : Type ℓ} {B : Type κ} (call : Result E A) (next : A → Result E B) {y : B}
    → (call >>= next) ≡ ok y
    → (x : A) × (call ≡ ok x) × (next x ≡ ok y)
>>=-eq-ok (err raised) next returned = cc
>>=-eq-ok (ok x) next returned = (x, refl, returned)

pub require-eq-ok {κ} :
    {E : Type 0} {B : Type κ} (t : Bool) (e : E) (k : Result E B) {b : B}
    → (require t e >> k) ≡ ok b
    → (t ≡ true) × (k ≡ ok b)
require-eq-ok true e k h = (refl, h)
require-eq-ok false e k h = cc

pub refuse-eq-ok {κ} :
    {E : Type 0} {B : Type κ} (t : Bool) (e : E) (k : Result E B) {b : B}
    → (refuse t e >> k) ≡ ok b
    → (t ≡ false) × (k ≡ ok b)
refuse-eq-ok true e k h = cc
refuse-eq-ok false e k h = (refl, h)

pub or_raise-eq-ok {ℓ} :
    {E : Type 0} {A : Type ℓ} (o : Option A) (e : E) {a : A} → or_raise o e ≡ ok a → o ≡ some a
or_raise-eq-ok none e h = cc
or_raise-eq-ok (some a) e h = ground arith

-- A call returned or raised.
pub Result-cases {ℓ} :
    {E : Type 0} {A : Type ℓ} (r : Result E A) → ((a : A) × (r ≡ ok a)) ⊎ ((e : E) × (r ≡ err e))
Result-cases (ok a) = inl (a, refl)
Result-cases (err e) = inr (e, refl)
