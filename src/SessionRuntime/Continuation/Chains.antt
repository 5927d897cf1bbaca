-- ===== src/SessionRuntime/Continuation/Chains.antt =====
-- What holds of the store after a chain of checks, if it succeeds.
use dora_agent.Base.{Bool, Result, err, false, if◌then◌else◌, ok, refl, true, ◌>>=◌, ◌≡◌}
use dora_agent.SessionRuntime.Models.Status.{Error}
use dora_agent.SessionRuntime.Steps.{after_ok}
use dora_agent.SessionRuntime.Store.State.{Store}

abbrev pub AfterOk : {A : Type 0} → (Store → Type 0) → Result Error (Store × A) → Type 0
AfterOk P (err e) = Unit {0}
AfterOk P (ok p) = P p.0

pub bind-Ok :
    {A B : Type 0} (P : Store → Type 0) (m : Result Error A) (f : A → Result Error (Store × B))
    → ((a : A) → m ≡ ok a → AfterOk P (f a))
    → AfterOk P (m >>= f)
bind-Ok P (err e) f h = tt
bind-Ok P (ok a) f h = h a refl

pub if-Ok :
    {B : Type 0} (P : Store → Type 0) (b : Bool) (x y : Result Error (Store × B))
    → (b ≡ true → AfterOk P x)
    → (b ≡ false → AfterOk P y)
    → AfterOk P (if b then x else y)
if-Ok P true x y f g = f refl
if-Ok P false x y f g = g refl

-- The store after the operation, failed or not.
pub after_ok-Holds :
    {A : Type 0} (P : Store → Type 0) (s : Store) (m : Result Error (Store × A))
    → P s
    → AfterOk P m
    → P (after_ok s m)
after_ok-Holds P s (err e) p h = p
after_ok-Holds P s (ok q) p h = h
