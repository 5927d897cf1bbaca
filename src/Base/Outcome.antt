-- ===== src/Base/Outcome.antt =====
-- A result or an error, for the (T, error) pairs of Go.
use mathlib.Core.Path.{◌≡◌, refl, subst}
use mathlib.Core.Logic.{◌⊎◌, inl, inr}
use mathlib.Core.Bool.{Bool, true, false}
use mathlib.Core.Option.{Option, none, some}
use dora_agent.Base.Tests.{if◌then◌else◌}

pub data Result {ℓ κ} (E : Type ℓ) (A : Type κ) : Type (ℓ ⊔ κ) where
  ok : A → Result E A
  err : E → Result E A

-- What follows an `if err != nil { return err }`.
infixl 5 ◌>>=◌
abbrev pub ◌>>=◌ :
    {Fault From To : Type 0} → Result Fault From → (From → Result Fault To) → Result Fault To
err fault >>= next = err fault
ok value >>= next = next value

abbrev pub or_fail : {E A : Type 0} → Option A → E → Result E A
or_fail none e = err e
or_fail (some a) e = ok a

-- A check whose value is not used.
infixl 5 ◌>>◌
abbrev pub ◌>>◌ : {Fault To : Type 0} → Result Fault (Unit {0}) → Result Fault To → Result Fault To
check >> next = check >>= λ done. next

-- `if !b { return e }`.
abbrev pub require : {E : Type 0} → Bool → E → Result E (Unit {0})
require false fault = err fault
require true fault = ok tt

-- A chain that succeeded: what its first part returned, and that the rest succeeded on it.
pub >>=-eq-ok :
    {Fault From To : Type 0} (first : Result Fault From) (next : From → Result Fault To)
    {result : To}
    → (first >>= next) ≡ ok result
    → (value : From) × (first ≡ ok value) × (next value ≡ ok result)
>>=-eq-ok (err fault) next h = cc
>>=-eq-ok (ok value) next h = (value, refl, h)

pub Result-cases :
    {E A : Type 0} (r : Result E A) → ((e : E) × (r ≡ err e)) ⊎ ((a : A) × (r ≡ ok a))
Result-cases (ok a) = inr (a, refl)
Result-cases (err e) = inl (e, refl)

pub or_fail-some :
    {Fault Found : Type 0} (o : Option Found) (fault : Fault) (value : Found)
    → or_fail o fault ≡ ok value
    → o ≡ some value
or_fail-some none fault value h = cc
or_fail-some (some v) fault value h = cc h

-- A check that passed.
pub required : {E : Type 0} (b : Bool) (e : E) (u : Unit {0}) → require b e ≡ ok u → b ≡ true
required true e u h = refl
required false e u h = cc

-- What holds of the value of a chain of checks, if it succeeds.
abbrev pub WhenOk : {E A : Type 0} → (A → Type 0) → Result E A → Type 0
WhenOk P (err e) = Unit {0}
WhenOk P (ok a) = P a

pub bind-WhenOk :
    {E A B : Type 0} (P : B → Type 0) (m : Result E A) (f : A → Result E B)
    → ((a : A) → m ≡ ok a → WhenOk P (f a))
    → WhenOk P (m >>= f)
bind-WhenOk P (err e) f h = tt
bind-WhenOk P (ok a) f h = h a refl

pub if-WhenOk :
    {E B : Type 0} (P : B → Type 0) (b : Bool) (x y : Result E B)
    → (b ≡ true → WhenOk P x)
    → (b ≡ false → WhenOk P y)
    → WhenOk P (if b then x else y)
if-WhenOk P true x y f g = f refl
if-WhenOk P false x y f g = g refl

pub WhenOk-value :
    {E A : Type 0} (P : A → Type 0) (m : Result E A) (a : A) → WhenOk P m → m ≡ ok a → P a
WhenOk-value P (err e) a h q = cc q
WhenOk-value P (ok b) a h q = subst P (cc q) h

pub WhenOk-of :
    {E A : Type 0} (P : A → Type 0) (m : Result E A) → ((a : A) → m ≡ ok a → P a) → WhenOk P m
WhenOk-of P (err e) h = tt
WhenOk-of P (ok a) h = h a refl
