-- ===== src/Key/Error.antt =====
-- crates/matter-sdk-key/src/error.rs. Every text in an error is a `String` of the program's own.
use matter_sdk.Common.{ℕ, Bool, String, Text, codes, ◌++◌, debug}

pub data KeyError : Type 0 where
  empty : KeyError
  unsupported_scheme : String → String → KeyError
  malformed : String → KeyError
  derivation : String → KeyError
  no_key : KeyError

-- `impl Display for KeyError`.
unfoldable pub to_string : (ℕ → Bool) → KeyError → Text
to_string printable empty = codes "api key is empty"
to_string printable (unsupported_scheme scheme supported) =
    codes "unsupported api key scheme "
    ++ (debug printable (codes scheme) ++ (codes ": this build supports " ++ codes supported))
to_string printable (malformed detail) = codes "malformed api key: " ++ codes detail
to_string printable (derivation detail) =
    codes "api key rejected during derivation: " ++ codes detail
to_string printable no_key = codes "signer holds no key material and cannot sign"
