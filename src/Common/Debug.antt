-- ===== src/Common/Debug.antt =====
-- Rust's `Debug` form of a text.
use Prim.Native.Nat.{ℕ, zero, suc, ◌+◌, ◌/◌, ◌%◌}
use mathlib.Core.Bool.{Bool}
use mathlib.Core.List.{[], ◌∷◌, ◌++◌}
use matter_sdk.Common.Tests.{ltb, ◌==◌, if◌then◌else◌}
use matter_sdk.Common.Chars.{Text, codes}

hex_digit : ℕ → ℕ
hex_digit n = if ltb n 10 then n + b'0' else n + 87

-- The hexadecimal digits of a code point, on fuel: one round for each digit.
hex_digits : ℕ → ℕ → Text
unfolding hex_digit
hex_digits zero n = []
hex_digits (suc f) n =
    let front = hex_digits f (n / 16) in
    if ltb n 16 then hex_digit n ∷ [] else front ++ hex_digit (n % 16) ∷ []

-- Which characters are written as they are is fixed by the Unicode tables.
unfoldable pub escape_debug : (ℕ → Bool) → ℕ → Text
unfolding hex_digits
escape_debug printable c =
    if c == 0
    then codes "\\0"
    else if c == 9
    then codes "\\t"
    else if c == 10
    then codes "\\n"
    else if c == 13
    then codes "\\r"
    else if c == 34
    then 92 ∷ 34 ∷ []
    else if c == 92
    then 92 ∷ 92 ∷ []
    else if printable c
    then c ∷ []
    else codes "\\u{" ++ (hex_digits 6 c ++ codes "}")

pub escape_all : (ℕ → Bool) → Text → Text
unfolding escape_debug
escape_all printable [] = []
escape_all printable (c ∷ s) = escape_debug printable c ++ escape_all printable s

-- `{:?}` of a text.
unfoldable pub debug : (ℕ → Bool) → Text → Text
unfolding escape_all
debug printable s = 34 ∷ (escape_all printable s ++ 34 ∷ [])
