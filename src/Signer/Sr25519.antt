-- ===== src/Signer/Sr25519.antt =====
-- `Sr25519Signer` of crates/matter-sdk/src/signer.rs, for examples and tests; its warning is not
-- modelled.
use matter_sdk.Common.{Text, Result, ok, ◌>>=◌, map_err}
use matter_sdk.Core.Crypto.{Bytes, Crypto}
use matter_sdk.Core.Wire.{HexCodec}
use matter_sdk.Error.{SdkError, key}
use matter_sdk.Key.ApiKey.{KeyRing, ApiKey, from_seed, parse}
use matter_sdk.Signer.{KeySigner, Signer, key_auth, key_signer}

module _ (ring : KeyRing) where
  pub record Sr25519Signer : Type 0 where
    pub held : ApiKey ring

  unfoldable pub from_seed_insecure_dev_only : Bytes → Result SdkError Sr25519Signer
  from_seed_insecure_dev_only seed = do
    held ← map_err key (from_seed ring seed)
    ok (record { held = held })

  unfoldable pub from_uri_insecure_dev_only : Text → Result SdkError Sr25519Signer
  from_uri_insecure_dev_only uri = do
    held ← map_err key (parse ring uri)
    ok (record { held = held })

  unfoldable pub account_id : Sr25519Signer → Bytes
  account_id self = self.held.account.bytes

  -- `impl KeySigner for Sr25519Signer`.
  unfoldable pub dev_key_signer : Sr25519Signer → KeySigner
  unfolding key_signer
  dev_key_signer self = key_signer ring self.held

  -- `impl Signer for ApiKey`, and `impl Signer for Sr25519Signer`, which frames with its key.
  unfoldable pub api_key_auth : (k : Crypto) → HexCodec → ApiKey ring → Signer k
  unfolding key_signer key_auth
  api_key_auth k hex self = key_auth k hex (key_signer ring self)

  unfoldable pub dev_auth : (k : Crypto) → HexCodec → Sr25519Signer → Signer k
  unfolding api_key_auth
  dev_auth k hex self = api_key_auth k hex self.held
