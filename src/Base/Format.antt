-- ===== src/Base/Format.antt =====
-- fmt.Sprintf's %d of an int, and joining of texts.
use Prim.Native.String.{◌++◌ as ◌<>◌}
use Prim.Native.Nat.{suc, zero, ℕ, ◌%◌, ◌-◌, ◌/◌}
use Prim.Native.String.{String}
use mathlib.Core.Path.{refl, ◌≡◌}
use dora_agent.Base.Tests.{if◌then◌else◌, ltb}
use dora_agent.Base.Word.{half, neg64, word}

infixr 65 ◌&◌
-- Go's + on strings.
abbrev pub ◌&◌ : String → String → String
s & t = s <> t

-- The digit d, of 0 to 9, as a text.
abbrev pub digit : ℕ → String
digit zero = "0"
digit (suc zero) = "1"
digit (suc (suc zero)) = "2"
digit (suc (suc (suc zero))) = "3"
digit (suc (suc (suc (suc zero)))) = "4"
digit (suc (suc (suc (suc (suc zero))))) = "5"
digit (suc (suc (suc (suc (suc (suc zero)))))) = "6"
digit (suc (suc (suc (suc (suc (suc (suc zero))))))) = "7"
digit (suc (suc (suc (suc (suc (suc (suc (suc zero)))))))) = "8"
digit (suc (suc (suc (suc (suc (suc (suc (suc (suc n))))))))) = "9"

-- A number below 2 ^ 64 has at most 20 digits, so fuel 20 is enough.
digits_from : ℕ → ℕ → String
digits_from zero n = ""
digits_from (suc f) n =
    let rest = digits_from f (n / 10) in if ltb n 10 then digit n else rest & digit (n % 10)

unfoldable pub decimal : ℕ → String
unfolding digits_from
decimal n = if ltb n half then digits_from 20 n else "-" & digits_from 20 (word - n)

decimal_test : decimal 4096 ≡ "4096"
unfolding decimal
decimal_test = refl

decimal_negative : decimal (neg64 15) ≡ "-15"
unfolding decimal
decimal_negative = refl

decimal_largest : decimal (half - 1) ≡ "9223372036854775807"
unfolding decimal
decimal_largest = refl

abbrev pub zero_byte : String
zero_byte = "\0"
