-- ===== src/Base/Text.antt =====
-- Python's formatting of texts and numbers.
use Prim.Native.Nat.{ℕ, zero, suc, ◌/◌, ◌%◌}
use Prim.Native.String.{String, ◌++◌, slice, count}
use mathlib.Core.Bool.{Bool}
use text.Mathlib.Text.{◌==◌}
use clipper_ai.Base.Tests.{if◌then◌else◌, ltb}

abbrev pub digit : ℕ → String
digit n = slice "0123456789" n (suc n)

-- `t[i]`
abbrev pub digit_of : String → ℕ → String
digit_of t i = slice t i (suc i)

unfoldable pub decimal_from : ℕ → ℕ → String
decimal_from zero n = digit n
decimal_from (suc fuel) n =
    let front = decimal_from fuel (n / 10) in if ltb n 10 then digit n else front ++ digit (n % 10)

-- `str(n)`; a number has at most as many digits as its value says, so the fuel does not run out
abbrev pub decimal : ℕ → String
decimal n = decimal_from n n

-- `f"{a}{b}"`
infixr 20 ◌⧺◌
abbrev pub ◌⧺◌ : String → String → String
a ⧺ b = a ++ b

-- `len(t)`: the characters of a text
abbrev pub characters : String → ℕ
characters t = count t

-- `t.startswith(p)` for a prefix of one ASCII character
abbrev pub starts_with : String → String → Bool
starts_with p t = slice t 0 1 == p

-- `t[:n]`
abbrev pub text_take : ℕ → String → String
text_take n t = slice t 0 n

-- `t or other`
abbrev pub text_or : String → String → String
text_or t other = if t == "" then other else t
