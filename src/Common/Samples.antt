-- ===== src/Common/Samples.antt =====
-- Texts decoded from their bytes, and shown.
use mathlib.Core.Path.{◌≡◌, refl}
use mathlib.Core.Option.{none, some}
use mathlib.Core.List.{[], ◌∷◌}
use matter_sdk.Common.Chars.{codes, between}
use matter_sdk.Common.Debug.{debug}
use matter_sdk.Common.Utf8.{from_utf8}

-- `é€😀` in UTF-8, an overlong form, and a surrogate.
from_utf8_accepts :
    from_utf8 (0xc3 ∷ 0xa9 ∷ 0xe2 ∷ 0x82 ∷ 0xac ∷ 0xf0 ∷ 0x9f ∷ 0x98 ∷ 0x80 ∷ [])
    ≡ some (0xe9 ∷ 0x20ac ∷ 0x1f600 ∷ [])
unfolding from_utf8
from_utf8_accepts = refl

from_utf8_overlong : from_utf8 (0xc0 ∷ 0x80 ∷ []) ≡ none
unfolding from_utf8
from_utf8_overlong = refl

from_utf8_surrogate : from_utf8 (0xed ∷ 0xa0 ∷ 0x80 ∷ []) ≡ none
unfolding from_utf8
from_utf8_surrogate = refl

-- A quote, a line feed and a character that is not printable.
debug_escapes :
    debug (λ c. between 32 126 c) (b'a' ∷ 34 ∷ 10 ∷ 0x200b ∷ []) ≡ codes "\"a\\\"\\n\\u{200b}\""
unfolding debug
debug_escapes = refl
