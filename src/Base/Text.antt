-- ===== src/Base/Text.antt =====
-- Go's strings.TrimSpace over texts: the White_Space characters are cut off at both ends.
use Prim.Native.Nat.{ℕ, Ordering}
use Prim.Native.Char.{Char, code}
use Prim.Native.String.{String, compare}
use mathlib.Core.Path.{◌≡◌, refl}
use mathlib.Core.Logic.{inl, inr}
use mathlib.Core.Bool.{Bool, true, false, ◌&&◌, ◌||◌}
use dora_agent.Base.Tests.{leb, nat_eq, if◌then◌else◌, Bool-cases}

-- unicode.IsSpace.
abbrev pub is_space : ℕ → Bool
is_space c =
    (leb 9 c && leb c 13)
    || nat_eq c 32
    || nat_eq c 0x85
    || nat_eq c 0xA0
    || nat_eq c 0x1680
    || (leb 0x2000 c && leb c 0x200A)
    || nat_eq c 0x2028
    || nat_eq c 0x2029
    || nat_eq c 0x202F
    || nat_eq c 0x205F
    || nat_eq c 0x3000

space_at : Char → Bool
space_at c = is_space (code c)

abbrev pub is_empty : String → Bool
is_empty String.[] = true
is_empty (String.◌∷◌ c s) = false

trim_left : String → String
trim_left String.[] = String.[]
trim_left (String.◌∷◌ c s) = if space_at c then trim_left s else String.◌∷◌ c s

-- A character goes if it is a space and nothing is left behind it.
keep_front : Char → String → String
keep_front c String.[] = if space_at c then String.[] else String.◌∷◌ c String.[]
keep_front c (String.◌∷◌ d s) = String.◌∷◌ c (String.◌∷◌ d s)

trim_right : String → String
unfolding keep_front
trim_right String.[] = String.[]
trim_right (String.◌∷◌ c s) = keep_front c (trim_right s)

unfoldable pub trim_space : String → String
unfolding trim_left trim_right space_at
trim_space s = trim_right (trim_left s)

-- strings.TrimSpace(s) == "".
abbrev pub is_blank : String → Bool
is_blank s = is_empty (trim_space s)

trim_left-keep :
    (c : Char) (s : String) → space_at c ≡ false → trim_left (String.◌∷◌ c s) ≡ String.◌∷◌ c s
unfolding trim_left
trim_left-keep c s h = rw h

trim_right-keep_front :
    (c : Char) (r : String) → trim_right r ≡ r → trim_right (keep_front c r) ≡ keep_front c r
unfolding trim_right keep_front
trim_right-keep_front c String.[] h = elim (Bool-cases (space_at c)) [
  | inl e ↦ rw e
  | inr e ↦ simp e
]
trim_right-keep_front c (String.◌∷◌ d s) h = simp h

trim_right_idem : (s : String) → trim_right (trim_right s) ≡ trim_right s
unfolding trim_right
trim_right_idem String.[] = refl
trim_right_idem (String.◌∷◌ c s) = trim_right-keep_front c (trim_right s) (trim_right_idem s)

keep_front-trim_left :
    (c : Char) (r : String) → space_at c ≡ false → trim_left (keep_front c r) ≡ keep_front c r
unfolding keep_front
keep_front-trim_left c String.[] h = rw h (trim_left-keep c String.[] h)
keep_front-trim_left c (String.◌∷◌ d s) h = trim_left-keep c (String.◌∷◌ d s) h

trim_left-trim_right-trim_left :
    (s : String) → trim_left (trim_right (trim_left s)) ≡ trim_right (trim_left s)
unfolding trim_left trim_right
trim_left-trim_right-trim_left String.[] = refl
trim_left-trim_right-trim_left (String.◌∷◌ c s) = elim (Bool-cases (space_at c)) [
  | inl e ↦ rw e (trim_left-trim_right-trim_left s)
  | inr e ↦ rw e (keep_front-trim_left c (trim_right s) e)
]

-- Trimming twice trims once.
pub trim_space_idem : (s : String) → trim_space (trim_space s) ≡ trim_space s
unfolding trim_space
trim_space_idem s = rw (trim_left-trim_right-trim_left s) (trim_right_idem (trim_left s))

trim_test : trim_space " \t a b\n" ≡ "a b"
unfolding trim_space
trim_test = refl

-- a < b, byte by byte.
abbrev pub text_before : String → String → Bool
text_before a b = elim (compare a b) [ Ordering.lt ↦ true | _ ↦ false ]
