-- ===== src/Base/Word.antt =====
-- Go's int64 (and int, which is 64 bits wide here) as the bit pattern, a number below 2 ^ 64.
-- A pattern below 2 ^ 63 stands for itself, the others for the negative numbers.
use Prim.Native.Nat.{ℕ, ◌+◌, ◌-◌, ◌^◌, ◌%◌, ◌<◌}
use mathlib.Core.Path.{◌≡◌}
use mathlib.Core.Bool.{Bool, true}
use native.Mathlib.Omega.{arith}
use dora_agent.Base.Tests.{ltb, leb}

abbrev pub word : ℕ
word = 2 ^ 64

-- The number of values that are not negative.
abbrev pub half : ℕ
half = 2 ^ 63

-- a + b and a - b, which wrap around as Go's do.
abbrev pub add64 : ℕ → ℕ → ℕ
add64 a b = (a + b) % word

abbrev pub sub64 : ℕ → ℕ → ℕ
sub64 a b = (a + (word - b % word)) % word

abbrev pub neg64 : ℕ → ℕ
neg64 a = (word - a % word) % word

-- The signed orders a < b and a ≤ b.
abbrev pub lt64 : ℕ → ℕ → Bool
lt64 a b = ltb ((a + half) % word) ((b + half) % word)

abbrev pub le64 : ℕ → ℕ → Bool
le64 a b = leb ((a + half) % word) ((b + half) % word)

-- 0 < a, as a signed number.
abbrev pub pos64 : ℕ → Bool
pos64 a = lt64 0 a

pub pos64_bounds : (a : ℕ) → a < word → pos64 a ≡ true → (0 < a) × (a < half)
pos64_bounds a h p = ground arith

pub pos64_intro : (a : ℕ) → 0 < a → a < half → pos64 a ≡ true
pos64_intro a h p = ground arith

pub add64_small : (a b : ℕ) → a + b < word → add64 a b ≡ a + b
add64_small a b h = omega arith
