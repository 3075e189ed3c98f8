-- ===== src/Common/Utf8.antt =====
-- Rust's `str::from_utf8`: bytes to code points, refusing what is not UTF-8.
use Prim.Native.Nat.{ℕ, zero, suc, ◌+◌, ◌-◌, ◌*◌}
use mathlib.Core.Option.{Option, none, some}
use mathlib.Core.List.{List, [], ◌∷◌}
use matter_sdk.Common.Tests.{ltb, ◌==◌, if◌then◌else◌}
use matter_sdk.Common.Chars.{Text, between}

-- Inside a character: how many bytes it still needs, what is read of it, and the bounds of its next
-- byte.
pub record Utf8State : Type 0 where
  pub need : ℕ
  pub point : ℕ
  pub low : ℕ
  pub high : ℕ

abbrev pub at_start : Utf8State
at_start = record { need = 0; point = 0; low = 128; high = 191 }

inside : ℕ → ℕ → ℕ → ℕ → Option (Utf8State × Option ℕ)
inside need point low high =
    some (record { need = need; point = point; low = low; high = high }, none)

-- The first byte of a character. The bounds of the second byte exclude overlong forms, surrogates
-- and what is above 0x10ffff.
lead : ℕ → Option (Utf8State × Option ℕ)
unfolding inside
lead b =
    if ltb b 0x80
    then some (at_start, some b)
    else if between 0xc2 0xdf b
    then inside 1 (b - 0xc0) 0x80 0xbf
    else if b == 0xe0
    then inside 2 0 0xa0 0xbf
    else if b == 0xed
    then inside 2 13 0x80 0x9f
    else if between 0xe1 0xef b
    then inside 2 (b - 0xe0) 0x80 0xbf
    else if b == 0xf0
    then inside 3 0 0x90 0xbf
    else if b == 0xf4
    then inside 3 4 0x80 0x8f
    else if between 0xf1 0xf3 b
    then inside 3 (b - 0xf0) 0x80 0xbf
    else none

-- A byte within a character that needs `suc n` of them.
follow : ℕ → Utf8State → ℕ → Option (Utf8State × Option ℕ)
unfolding inside
follow zero s b =
    if between s.low s.high b then some (at_start, some (s.point * 64 + (b - 0x80))) else none
follow (suc n) s b =
    if between s.low s.high b then inside (suc n) (s.point * 64 + (b - 0x80)) 0x80 0xbf else none

utf8_step : ℕ → Utf8State → ℕ → Option (Utf8State × Option ℕ)
unfolding lead follow
utf8_step zero s b = lead b
utf8_step (suc n) s b = follow n s b

emit : Option ℕ → Option Text → Option Text
emit none rest = rest
emit (some c) none = none
emit (some c) (some s) = some (c ∷ s)

pub utf8_from : Utf8State → List ℕ → Option Text
unfolding utf8_step emit
utf8_from s [] = if s.need == 0 then some [] else none
utf8_from s (b ∷ rest) = elim (utf8_step s.need s b) [
  | none ↦ none
  | some (s', c) ↦ emit c (utf8_from s' rest)
]

unfoldable pub from_utf8 : List ℕ → Option Text
unfolding utf8_from
from_utf8 = utf8_from at_start
