-- ===== src/Base/Results.antt =====
-- Operations that throw: `err e` is a thrown error.
use mathlib.Core.Path.{◌≡◌, refl}
use mathlib.Core.Bool.{Bool, true, false}
use mathlib.Core.Logic.{◌⊎◌, inl, inr}
use mathlib.Core.Option.{Option, none, some}

pub data Result {ℓ κ} (E : Type ℓ) (A : Type κ) : Type (ℓ ⊔ κ) where
  err : E → Result E A
  ok : A → Result E A

-- `if (test) throw e;`
abbrev pub throw_if {ℓ} : {E : Type ℓ} → Bool → E → Result E (Unit {0})
throw_if true thrown = err thrown
throw_if false thrown = ok tt

infixl 5 ◌>>=◌ ◌>>◌
-- The rest of a function after a call that may throw.
abbrev pub ◌>>=◌ {ℓ κ μ} :
    {E : Type ℓ} {A : Type κ} {B : Type μ} → Result E A → (A → Result E B) → Result E B
err thrown >>= rest = err thrown
ok value >>= rest = rest value

-- The same after a statement without a value.
abbrev pub ◌>>◌ {ℓ μ} : {E : Type ℓ} {B : Type μ} → Result E (Unit {0}) → Result E B → Result E B
statement >> rest = statement >>= λ _. rest

-- `if (!value) throw e;` on a value that may be undefined.
abbrev pub or_throw {ℓ κ} : {E : Type ℓ} {A : Type κ} → Option A → E → Result E A
or_throw none e = err e
or_throw (some a) e = ok a

pub ok_injective {ℓ κ} :
    {E : Type ℓ} {A : Type κ} {a b : A} → ◌≡◌ {A = Result E A} (ok a) (ok b) → a ≡ b
ok_injective h = cc

-- Inversion of a bind, a guard and a lookup that succeeded.
pub >>=-eq-ok {ℓ κ μ} :
    {E : Type ℓ} {A : Type κ} {B : Type μ} (call : Result E A) (rest : A → Result E B) {value : B}
    → (call >>= rest) ≡ ok value
    → (a : A) × (call ≡ ok a) × (rest a ≡ ok value)
>>=-eq-ok (err thrown) rest done = cc
>>=-eq-ok (ok a) rest done = (a, refl, done)

pub throw_if-eq-ok {ℓ} :
    {E : Type ℓ} (test : Bool) (e : E) {u : Unit {0}} → throw_if test e ≡ ok u → test ≡ false
throw_if-eq-ok true e h = cc
throw_if-eq-ok false e h = refl

pub or_throw-eq-ok {ℓ κ} :
    {E : Type ℓ} {A : Type κ} (o : Option A) (e : E) {a : A} → or_throw o e ≡ ok a → o ≡ some a
or_throw-eq-ok none e h = cc
or_throw-eq-ok (some x) e h = cc

pub Result-cases {ℓ κ} :
    {E : Type ℓ} {A : Type κ} (r : Result E A) → ((a : A) × (r ≡ ok a)) ⊎ ((e : E) × (r ≡ err e))
Result-cases (ok a) = inl (a, refl)
Result-cases (err e) = inr (e, refl)
