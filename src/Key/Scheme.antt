-- ===== src/Key/Scheme.antt =====
-- crates/matter-sdk-key/src/scheme.rs: signature schemes and the account id.
use matter_sdk.Common.{
  true, false, List, [], ◌∷◌, ◌++◌, Option, none, some, String, Text, codes, strip_prefix,
  eq_ignore_case, if◌then◌else◌, Result, ok, err, map_err, ◌>>=◌, ◌>>◌, fail_if, length, ◌==◌, All,
  ◌<◌, ◌≡◌,
}
use matter_sdk.Core.Crypto.{Bytes}
use matter_sdk.Core.Wire.{HexCodec, HexLaws}
use matter_sdk.Key.Error.{KeyError, malformed}

pub data KeyScheme : Type 0 where
  sr25519 : KeyScheme

abbrev pub reserved_schemes : List String
reserved_schemes = "secp256k1" ∷ "ecdsa" ∷ "ed25519" ∷ []

abbrev pub supported_schemes : String
supported_schemes = "sr25519"

abbrev pub as_str : KeyScheme → String
as_str sr25519 = "sr25519"

abbrev pub unrecognised_scheme : KeyError
unrecognised_scheme = malformed "unrecognised api key scheme prefix; this build supports sr25519"

unfoldable pub from_token : Text → Result KeyError KeyScheme
from_token token =
    if eq_ignore_case token (codes (as_str sr25519)) then ok sr25519 else err unrecognised_scheme

pub record AccountId : Type 0 where
  pub bytes : Bytes

abbrev pub bad_account : KeyError
bad_account = malformed "account id must be 32 bytes of hex"

unfoldable pub to_hex : HexCodec → AccountId → Text
to_hex hex id = codes "0x" ++ hex.encode id.bytes

abbrev pub unwrap_or : Option Text → Text → Text
unwrap_or none text = text
unwrap_or (some body) text = body

-- The decoding fills an array of 32 bytes, and fails at another length.
unfoldable pub from_hex : HexCodec → Text → Result KeyError AccountId
from_hex hex text = do
  out ← map_err (λ _. bad_account) (hex.decode (unwrap_or (strip_prefix (codes "0x") text) text))
  fail_if (if length out == 32 then false else true) bad_account
  ok (record { bytes = out })

-- The hexadecimal form of an account id of 32 bytes is read back as that id, if the codec's
-- decoding undoes its encoding.
pub from_hex-to_hex :
    (hex : HexCodec)
    → HexLaws hex
    → (id : AccountId) → All (λ b. b < 256) id.bytes
    → length id.bytes ≡ 32
    → from_hex hex (to_hex hex id) ≡ ok id
unfolding from_hex to_hex
from_hex-to_hex hex laws id small size = rw (laws.decode-encode id.bytes small, size)
