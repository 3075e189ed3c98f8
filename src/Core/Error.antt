-- ===== src/Core/Error.antt =====
-- crates/matter-sdk-core/src/error.rs. A `'static str` is a `String`; a text put together at run
-- time is a list of code points.
use matter_sdk.Common.{ℕ, String, Text, codes, ◌++◌}
use matter_sdk.Common.Decimal.{to_decimal}

pub data CoreError : Type 0 where
  invalid_length : String → ℕ → ℕ → CoreError
  too_large : String → ℕ → ℕ → CoreError
  empty : String → CoreError
  hex : String → Text → CoreError
  decode : String → Text → CoreError
  invalid_subset : Text → CoreError
  aggregate : Text → CoreError
  aead : CoreError

-- `impl Display for CoreError`.
unfoldable pub to_string : CoreError → Text
to_string (invalid_length field expected actual) =
    codes field
    ++ (codes " must be " ++ (to_decimal expected ++ (codes " bytes, got " ++ to_decimal actual)))
to_string (too_large field max actual) =
    codes field
    ++ (codes " is " ++ (to_decimal actual ++ (codes " bytes; max is " ++ to_decimal max)))
to_string (empty field) = codes field ++ codes " must not be empty"
to_string (hex field source) = codes "hex decode of " ++ (codes field ++ (codes ": " ++ source))
to_string (decode field detail) = codes "decode of " ++ (codes field ++ (codes ": " ++ detail))
to_string (invalid_subset detail) = codes "invalid decrypt subset: " ++ detail
to_string (aggregate detail) = codes "partial-decryption aggregate rejected: " ++ detail
to_string aead = codes "AEAD authentication failed (wrong key, epoch, or aad)"
