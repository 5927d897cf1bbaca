-- ===== src/Base/Tests.antt =====
-- Boolean tests on native numbers and on texts, and the conditional.
use Prim.Native.Nat.{ℕ, compare, Ordering, ◌<◌, ◌≤◌}
use Prim.Native.String.{String}
use mathlib.Core.Path.{◌≡◌, refl, sym, ◌∙◌}
use mathlib.Core.Logic.{◌⊎◌, ◌≢◌, inl, inr}
use mathlib.Core.Bool.{Bool, true, false, not, ◌&&◌}
use mathlib.Core.Option.{Option, none, some}
use native.Mathlib.Omega.{arith}
use text.Mathlib.Text.{◌==◌ as native_eq}
use text.Mathlib.TextEquality.{eq_iff}

abbrev pub ltb : ℕ → ℕ → Bool
ltb a b = elim (compare a b) [ Ordering.lt ↦ true | _ ↦ false ]

abbrev pub leb : ℕ → ℕ → Bool
leb a b = elim (compare a b) [ Ordering.gt ↦ false | _ ↦ true ]

abbrev pub nat_eq : ℕ → ℕ → Bool
nat_eq a b = elim (compare a b) [ Ordering.eq ↦ true | _ ↦ false ]

infix 1 if◌then◌else◌
abbrev pub if◌then◌else◌ {ℓ} : {A : Type ℓ} → Bool → A → A → A
if true then x else y = x
if false then x else y = y

pub Bool-cases : (b : Bool) → (b ≡ true) ⊎ (b ≡ false)
Bool-cases true = inl refl
Bool-cases false = inr refl

pub Option-cases {ℓ} : {A : Type ℓ} (o : Option A) → (o ≡ none) ⊎ ((a : A) × (o ≡ some a))
Option-cases none = inl refl
Option-cases (some a) = inr (a, refl)

decide_eq : {s t : String} → (b : Bool) → native_eq s t ≡ b → Dec (s ≡ t)
decide_eq {s} {t} true e = yes ((eq_iff s t).0 e)
decide_eq {s} {t} false e = no (λ p. cc (sym e ∙ (eq_iff s t).1 p))

-- Texts are equal or not; a proof that splits on this gets the equation or its refutation.
unfoldable pub String_discrete : (s t : String) → Dec (s ≡ t)
unfolding decide_eq
String_discrete s t = decide_eq (native_eq s t) refl

abbrev pub str_eq : String → String → Bool
str_eq s t = elim (String_discrete s t) [ yes _ ↦ true | no _ ↦ false ]

pub str_eq_refl : (s : String) → str_eq s s ≡ true
str_eq_refl s = ground arith

pub str_eq_sound : (s t : String) → str_eq s t ≡ true → s ≡ t
str_eq_sound s t h = ground arith

pub str_eq_complete : (s t : String) → s ≡ t → str_eq s t ≡ true
str_eq_complete s t h = ground arith

pub ne_of_str_eq : (s t : String) → str_eq s t ≡ false → s ≢ t
ne_of_str_eq s t h e = ground arith

str_eq_test : (b : Bool) → b ≡ str_eq "ab" "ac" → b ≡ false
unfolding String_discrete
str_eq_test b e = e

pub and_left : (a b : Bool) → (a && b) ≡ true → a ≡ true
and_left true b h = refl
and_left false b h = cc

pub and_right : (a b : Bool) → (a && b) ≡ true → b ≡ true
and_right true b h = h
and_right false b h = cc

-- A number of a Go map, which reads as 0 where it is missing.
abbrev pub number_or_zero : Option ℕ → ℕ
number_or_zero none = 0
number_or_zero (some n) = n

pub ltb-cases : (a b : ℕ) → ((ltb a b ≡ true) × (a < b)) ⊎ ((ltb a b ≡ false) × (b ≤ a))
ltb-cases a b = ground arith

pub le_cases : (a b : ℕ) → (a ≤ b) ⊎ (b < a)
le_cases a b = omega arith

pub not-true : (b : Bool) → not b ≡ true → b ≡ false
not-true true h = cc h
not-true false h = refl
