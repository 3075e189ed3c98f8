-- ===== src/Key/ApiKey.antt =====
-- crates/matter-sdk-key/src/apikey.rs: from the text of an API key to its key pair.
pub mod Phrase
pub mod Faults
pub mod Seed
use matter_sdk.Common.{
  ℕ, ◌+◌, Bool, true, false, not, ◌&&◌, ◌||◌, List, [], ◌∷◌, Option, none, some, String, Text,
  codes, trim, is_empty, split_once, starts_with, strip_prefix, eq_ignore_case, all, find, between,
  is_digit, ltb, ◌==◌, if◌then◌else◌, Result, ok, err, ◌>>=◌, ◌>>◌, fail_if, ok_or,
}
use matter_sdk.Core.Crypto.{Bytes}
use matter_sdk.Key.Error.{KeyError, empty, unsupported_scheme, malformed, derivation}
use matter_sdk.Key.Scheme.{
  KeyScheme, sr25519, AccountId, reserved_schemes, supported_schemes, from_token,
}
use matter_sdk.Key.Suri.{UriParts, Suri, split}

-- What the crates subxt_signer and hex provide. Their errors are not read.
pub record KeyRing : Type 1 where
  pub uri : UriParts
  pub Keypair : Type 0
  pub Mnemonic : Type 0
  pub decode_to_slice : ℕ → Text → Option Bytes
  pub from_secret_key : Bytes → Option Keypair
  pub mnemonic_of : Text → Option Mnemonic
  pub from_phrase : Mnemonic → Option Text → Option Keypair
  pub derive : Keypair → List uri.Junction → Keypair
  pub public_key : Keypair → Bytes
  pub sign_with : Keypair → Bytes → Bytes

-- `str::len`: the length of a text in UTF-8.
unfoldable pub len_utf8 : Text → ℕ
len_utf8 [] = 0
len_utf8 (c ∷ s) =
    let rest = len_utf8 s in
    if ltb c 0x80
    then 1 + rest
    else if ltb c 0x800
    then 2 + rest
    else if ltb c 0x10000
    then 3 + rest
    else 4 + rest

abbrev pub is_alphanumeric : ℕ → Bool
is_alphanumeric c = between b'a' b'z' c || between b'A' b'Z' c || is_digit c

abbrev pub is_hexdigit : ℕ → Bool
is_hexdigit c = is_digit c || between b'a' b'f' c || between b'A' b'F' c

abbrev pub not_phrase : KeyError
not_phrase =
    malformed
      "api key has no phrase; this would derive from the public well-known development phrase"

abbrev pub wrong_length : KeyError
wrong_length = malformed "hex mini-secret must be exactly 32 bytes (64 hex characters)"

abbrev pub not_hex : KeyError
not_hex = malformed "hex mini-secret contains a non-hex character"

abbrev pub invalid_seed : KeyError
invalid_seed = derivation "seed is not a valid sr25519 mini-secret"

abbrev pub not_mnemonic : KeyError
not_mnemonic = malformed "not a 0x mini-secret, BIP39 mnemonic, or sr25519 SURI"

abbrev pub failed_derivation : KeyError
failed_derivation = derivation "sr25519 derivation failed (check the BIP39 checksum or word count)"

unfoldable pub is_scheme_token : Text → Bool
is_scheme_token token =
    not (is_empty token)
    && (not (starts_with (codes "0x") token)
        && all (λ b. is_alphanumeric b || (b == b'_') || (b == b'-')) token)

-- A token before the first colon, with the shape of a scheme.
unfoldable pub scheme_prefix : Option (Text × Text) → Option (Text × Text)
unfolding is_scheme_token
scheme_prefix none = none
scheme_prefix (some (token, body)) = if is_scheme_token token then some (token, body) else none

unfoldable pub find_reserved : List String → Text → Option String
find_reserved [] token = none
find_reserved (r ∷ rs) token =
    if eq_ignore_case token (codes r) then some r else find_reserved rs token

-- A token that names no reserved scheme is resolved.
unfoldable pub resolve : Option String → Text → Text → Result KeyError (KeyScheme × Text)
resolve (some reserved) token body = err (unsupported_scheme reserved supported_schemes)
resolve none token body = do scheme ← from_token token; ok (scheme, body)

unfoldable pub with_prefix : Text → Option (Text × Text) → Result KeyError (KeyScheme × Text)
unfolding find_reserved resolve
with_prefix input none = ok (sr25519, input)
with_prefix input (some (token, body)) = resolve (find_reserved reserved_schemes token) token body

unfoldable pub split_scheme : Text → Result KeyError (KeyScheme × Text)
unfolding scheme_prefix with_prefix
split_scheme input = with_prefix input (scheme_prefix (split_once b':' input))

module _ (ring : KeyRing) where
  pub data Material : Type 0 where
    sr25519_pair : ring.Keypair → Material

  pub record ApiKey : Type 0 where
    pub scheme : KeyScheme
    pub account : AccountId
    pub material : Material

  unfoldable pub from_keypair : ring.Keypair → ApiKey
  from_keypair pair = record {
    scheme = sr25519;
    account = record { bytes = ring.public_key pair };
    material = sr25519_pair pair;
  }

  unfoldable pub from_seed : Bytes → Result KeyError ApiKey
  unfolding from_keypair
  from_seed seed = do pair ← ok_or (ring.from_secret_key seed) invalid_seed; ok (from_keypair pair)

  unfoldable pub sign : ApiKey → Bytes → Result KeyError Bytes
  sign key message = elim key.material [ sr25519_pair pair ↦ ok (ring.sign_with pair message) ]

  unfoldable pub keypair_from_hex : Text → Result KeyError ring.Keypair
  unfolding len_utf8
  keypair_from_hex hex_body = do
    fail_if (if len_utf8 hex_body == 64 then false else true) wrong_length
    fail_if (if all is_hexdigit hex_body then false else true) not_hex
    seed ← ok_or (ring.decode_to_slice 32 hex_body) not_hex
    ok_or (ring.from_secret_key seed) invalid_seed

  unfoldable pub keypair_from_mnemonic : Text → Option Text → Result KeyError ring.Keypair
  keypair_from_mnemonic phrase password = do
    mnemonic ← ok_or (ring.mnemonic_of phrase) not_mnemonic
    ok_or (ring.from_phrase mnemonic password) failed_derivation

  -- The root key pair of a phrase, from its seed or from its mnemonic.
  unfoldable pub root_of : Text → Option Text → Option Text → Result KeyError ring.Keypair
  unfolding keypair_from_hex keypair_from_mnemonic
  root_of phrase password (some hex_body) = keypair_from_hex hex_body
  root_of phrase password none = keypair_from_mnemonic phrase password

  unfoldable pub parse_sr25519 : Text → Result KeyError ApiKey
  unfolding root_of from_keypair
  parse_sr25519 body = do
    uri ← split ring.uri body
    fail_if (is_empty uri.phrase) not_phrase
    root ← root_of uri.phrase uri.password (strip_prefix (codes "0x") uri.phrase)
    ok (from_keypair (ring.derive root uri.junctions))

  abbrev pub parse_scheme : KeyScheme → Text → Result KeyError ApiKey
  parse_scheme sr25519 body = parse_sr25519 body

  unfoldable pub parse : Text → Result KeyError ApiKey
  unfolding split_scheme
  parse input = do
    let trimmed = trim input
    fail_if (is_empty trimmed) empty
    found ← split_scheme trimmed
    fail_if (is_empty (trim found.1)) empty
    parse_scheme found.0 found.1
