-- ===== src/Signer.antt =====
-- crates/matter-sdk/src/signer.rs and crates/matter-sdk-key/src/signer.rs: who authorizes a
-- request to a committee node, and the framing of a key's signature.
pub mod Framing
pub mod Sr25519
mod Tests
use matter_sdk.Common.{ℕ, List, ◌∷◌, Option, none, Text, Result, ok, ◌>>=◌, map_err}
use matter_sdk.Core.Crypto.{Bytes, Crypto}
use matter_sdk.Core.Wire.{HexCodec, to_0x}
use matter_sdk.Key.Error.{KeyError}
use matter_sdk.Key.ApiKey.{KeyRing, ApiKey, sign}
use matter_sdk.Error.{SdkError, key}

-- The trait `KeySigner`: implemented by API keys, HSM and KMS adapters. A signature is randomized
-- in general, so the number of earlier calls is an argument.
pub record KeySigner : Type 0 where
  pub account_id : Bytes
  pub sign : ℕ → Bytes → Result KeyError Bytes

-- `impl KeySigner for ApiKey`.
unfoldable pub key_signer : (ring : KeyRing) → ApiKey ring → KeySigner
key_signer ring k = record {
  account_id = k.account.bytes;
  sign = λ calls message. sign ring k message;
}

pub record SigningRequest : Type 0 where
  pub secret_id : ℕ
  pub subset : List ℕ
  pub recipient_index : ℕ
  pub block_hash : Bytes
  pub valid_until : Option ℕ

module _ (k : Crypto) where
  unfoldable pub payload : SigningRequest → Bytes
  payload req = k.signing_payload req.secret_id req.subset req.block_hash req.recipient_index

pub record RequestAuth (k : Crypto) : Type 0 where
  pub auth : k.AuthScheme
  pub requester : Text
  pub signature : Text
  pub eth_address : Option Text
  pub valid_until : Option ℕ
  pub eth_signature : Option Text

-- The trait `Signer`.
pub record Signer (k : Crypto) : Type 0 where
  pub auth_scheme : k.AuthScheme
  pub authorize : ℕ → SigningRequest → Result SdkError (RequestAuth k)

-- `MULTISIGNATURE_SR25519`, the variant index in front of the signature.
abbrev pub multisignature_sr25519 : ℕ
multisignature_sr25519 = 1

-- The fields for a signature of `signer` over the payload of `req`.
unfoldable pub partial_decrypt_auth :
    (k : Crypto) → HexCodec → KeySigner → ℕ → SigningRequest → Result SdkError (RequestAuth k)
unfolding payload
partial_decrypt_auth k hex signer calls req = do
  signature ← map_err key (signer.sign calls (payload k req))
  ok (record {
    auth = k.substrate;
    requester = to_0x hex signer.account_id;
    signature = to_0x hex (multisignature_sr25519 ∷ signature);
    eth_address = none;
    valid_until = none;
    eth_signature = none;
  })

-- `KeyAuth` of crates/matter-sdk/src/chain/recover.rs and `impl Signer for ApiKey`.
unfoldable pub key_auth : (k : Crypto) → HexCodec → KeySigner → Signer k
unfolding partial_decrypt_auth
key_auth k hex signer = record {
  auth_scheme = k.substrate;
  authorize = partial_decrypt_auth k hex signer;
}
