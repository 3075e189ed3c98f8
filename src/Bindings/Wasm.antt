-- ===== src/Bindings/Wasm.antt =====
-- bindings/wasm/src/lib.rs: the binding for JavaScript. An exception is its message; arrays of bytes
-- are lists.
use matter_sdk.Common.{
  ℕ, Bool, true, false, List, ◌++◌, map, Option, String, Text, codes, length, ◌==◌, if◌then◌else◌,
  Result, ok, ◌>>=◌, ◌>>◌, fail_if, map_err,
}
use matter_sdk.Core.Crypto.{Bytes, Crypto}
use matter_sdk.Core.Error.{CoreError, to_string}
use matter_sdk.Core.Limits.{max_committee_response_bytes}
use matter_sdk.Core.Wire.{HexCodec, secret_id_from_hex, from_0x}
use matter_sdk.Core.Seal.{encrypt}
use matter_sdk.Core.Open
use matter_sdk.Core.Open.{PartialInput}
use matter_sdk.Key.Error.{KeyError, to_string as key_to_string}
use matter_sdk.Key.Scheme.{as_str, to_hex}
use matter_sdk.Key.ApiKey
use matter_sdk.Key.ApiKey.{KeyRing, ApiKey}

-- `JsError`.
pub record JsError : Type 0 where
  pub message : Text

unfoldable pub js_err : CoreError → JsError
js_err e = record { message = to_string e }

pub record EncryptedSecretJs : Type 0 where
  pub binding_id : Bytes
  pub capsule : Bytes
  pub proof : Bytes
  pub ct : Bytes

pub record PartialInputJs : Type 0 where
  pub point : ℕ
  pub partial : Bytes
  pub proof : Bytes
  pub commitment : Bytes

abbrev pub to_input : PartialInputJs → PartialInput
to_input p = record {
  point = p.point;
  partial = p.partial;
  proof = p.proof;
  commitment = p.commitment;
}

-- Values of JavaScript, and `serde_wasm_bindgen::from_value` at an array of partials.
pub record Js : Type 1 where
  pub JsValue : Type 0
  pub from_value : JsValue → Result Text (List PartialInputJs)

-- 2 ^ 30 is a number of double precision.
unfoldable pub max_response_bytes : ℕ
max_response_bytes = max_committee_response_bytes

module _ (k : Crypto) (hex : HexCodec) where
  unfoldable pub encrypt_secret :
      Bytes → ℕ → Bytes → ℕ → Bytes → Bytes → Option Bytes → Result JsError EncryptedSecretJs
  unfolding js_err
  encrypt_secret fresh seed joint_pk epoch secrets aad binding_id = do
    env ← map_err js_err (encrypt k fresh seed joint_pk epoch secrets aad binding_id)
    ok (record {
      binding_id = env.binding_id;
      capsule = env.capsule;
      proof = env.proof;
      ct = env.ct;
    })

  -- A slice of another length does not convert to 32 bytes.
  unfoldable pub block_hash_of : Text → Result JsError Bytes
  unfolding js_err
  block_hash_of block_hash_hex = do
    bytes ← map_err js_err (from_0x hex "block_hash" block_hash_hex)
    fail_if (if length bytes == 32 then false else true)
        (record { message = codes "block_hash must be 32 bytes" })
    ok bytes

  unfoldable pub partial_decrypt_signing_payload : Text → List ℕ → Text → ℕ → Result JsError Bytes
  unfolding js_err block_hash_of
  partial_decrypt_signing_payload secret_id_hex subset block_hash_hex recipient_index = do
    secret_id ← map_err js_err (secret_id_from_hex hex secret_id_hex)
    block_hash ← block_hash_of block_hash_hex
    ok (k.signing_payload secret_id subset block_hash recipient_index)

  unfoldable pub lagrange_for : ℕ → List ℕ → Result JsError Bytes
  unfolding js_err
  lagrange_for point subset = map_err js_err (Open.lagrange_for k point subset)

  unfoldable pub verify_plaintext_proof : Bytes → Bytes → Bytes → Bytes → ℕ → Result JsError Bool
  unfolding js_err
  verify_plaintext_proof joint_pk capsule tagged_proof binding_id epoch =
      map_err js_err (Open.verify_plaintext_proof k joint_pk capsule tagged_proof binding_id epoch)

  unfoldable pub crypto_protocol_version : ℕ
  crypto_protocol_version = k.protocol_version

  unfoldable pub open_secret :
      (js : Js)
      → Bytes
      → Bytes
      → Text
      → ℕ
      → Bytes
      → Bytes
      → Bytes
      → js.JsValue
      → Result JsError Bytes
  unfolding js_err
  open_secret js shared_a capsule secret_id_hex epoch binding_id aad ct partials = do
    secret_id ← map_err js_err (secret_id_from_hex hex secret_id_hex)
    inputs ←
        map_err (λ e. record { message = codes "partials shape: " ++ e }) (js.from_value partials)
    map_err js_err (
        Open.open_secret k shared_a capsule secret_id epoch binding_id aad ct (map to_input inputs))

module _ (ring : KeyRing) (hex : HexCodec) (printable : ℕ → Bool) where
  unfoldable pub key_err : KeyError → JsError
  key_err e = record { message = key_to_string printable e }

  pub record ApiKeyJs : Type 0 where
    pub inner : ApiKey ring

  unfoldable pub new : Text → Result JsError ApiKeyJs
  unfolding key_err
  new key = do inner ← map_err key_err (ApiKey.parse ring key); ok (record { inner = inner })

  unfoldable pub scheme : ApiKeyJs → String
  scheme self = as_str self.inner.scheme

  unfoldable pub account_id : ApiKeyJs → Bytes
  account_id self = self.inner.account.bytes

  unfoldable pub account_id_hex : ApiKeyJs → Text
  account_id_hex self = to_hex hex self.inner.account

  unfoldable pub sign : ApiKeyJs → Bytes → Result JsError Bytes
  unfolding key_err
  sign self message = map_err key_err (ApiKey.sign ring self.inner message)

  unfoldable pub to_string_js : ApiKeyJs → Text
  unfolding scheme account_id_hex
  to_string_js self =
      codes "ApiKey("
      ++ (codes (scheme self) ++ (codes ", " ++ (account_id_hex self ++ codes ", <redacted>)")))

  unfoldable pub to_json : ApiKeyJs → Text
  unfolding to_string_js
  to_json self = to_string_js self
