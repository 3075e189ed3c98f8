-- ===== src/Bindings/Python.antt =====
-- bindings/python/src/lib.rs: the binding for Python. An exception is its class and message.
use matter_sdk.Common.{
  ℕ, Bool, true, false, List, ◌++◌, map, Option, String, Text, codes, length, ◌==◌, if◌then◌else◌,
  Result, ok, err, ◌>>=◌, ◌>>◌, fail_if, map_err,
}
use matter_sdk.Core.Crypto.{Bytes, Crypto}
use matter_sdk.Core.Error.{CoreError, to_string}
use matter_sdk.Core.Seal
use matter_sdk.Core.Open
use matter_sdk.Core.Open.{PartialInput}
use matter_sdk.Core.Wire.{HexCodec}
use matter_sdk.Key.Error.{KeyError, to_string as key_to_string}
use matter_sdk.Key.Scheme.{as_str, to_hex}
use matter_sdk.Key.ApiKey
use matter_sdk.Key.ApiKey.{KeyRing, ApiKey}

-- `PyValueError` and `PyTypeError`.
pub data PyErr : Type 0 where
  value_error type_error : Text → PyErr

-- The binding id, the capsule, the proof and the ciphertext.
abbrev pub EnvelopeBytes : Type 0
EnvelopeBytes = Bytes × Bytes × Bytes × Bytes

-- The point, the partial, the proof and the commitment.
abbrev pub PartialTuple : Type 0
PartialTuple = ℕ × Bytes × Bytes × Bytes

abbrev pub core_input : PartialTuple → PartialInput
core_input (point, partial, proof, commitment) = record {
  point = point;
  partial = partial;
  proof = proof;
  commitment = commitment;
}

unfoldable pub core_err : CoreError → PyErr
core_err e = value_error (to_string e)

module _ (k : Crypto) where
  unfoldable pub encrypt :
      Bytes → ℕ → Bytes → ℕ → Bytes → Bytes → Option Bytes → Result PyErr EnvelopeBytes
  unfolding core_err
  encrypt fresh seed joint_pk epoch plaintext aad binding_id = do
    env ← map_err core_err (Seal.encrypt k fresh seed joint_pk epoch plaintext aad binding_id)
    ok (env.binding_id, env.capsule, env.proof, env.ct)

  unfoldable pub signing_payload : ℕ → List ℕ → Bytes → ℕ → Result PyErr Bytes
  signing_payload secret_id subset block_hash recipient_index = do
    fail_if (if length block_hash == 32 then false else true)
        (value_error (codes "block_hash must be 32 bytes"))
    ok (k.signing_payload secret_id subset block_hash recipient_index)

  unfoldable pub lagrange_for : ℕ → List ℕ → Result PyErr Bytes
  unfolding core_err
  lagrange_for point subset = map_err core_err (Open.lagrange_for k point subset)

  unfoldable pub verify_plaintext_proof : Bytes → Bytes → Bytes → Bytes → ℕ → Result PyErr Bool
  unfolding core_err
  verify_plaintext_proof joint_pk capsule tagged_proof binding_id epoch =
      map_err core_err
        (Open.verify_plaintext_proof k joint_pk capsule tagged_proof binding_id epoch)

  unfoldable pub open_secret :
      Bytes → Bytes → ℕ → ℕ → Bytes → Bytes → Bytes → List PartialTuple → Result PyErr Bytes
  unfolding core_err
  open_secret shared_a capsule secret_id epoch binding_id aad ct partials = map_err core_err (
      Open.open_secret k shared_a capsule secret_id epoch binding_id aad ct
        (map core_input partials))

module _ (ring : KeyRing) (hex : HexCodec) (printable : ℕ → Bool) where
  unfoldable pub key_err : KeyError → PyErr
  key_err e = value_error (key_to_string printable e)

  pub record ApiKeyPy : Type 0 where
    pub inner : ApiKey ring

  unfoldable pub new : Text → Result PyErr ApiKeyPy
  unfolding key_err
  new key = do inner ← map_err key_err (ApiKey.parse ring key); ok (record { inner = inner })

  unfoldable pub scheme : ApiKeyPy → String
  scheme self = as_str self.inner.scheme

  unfoldable pub account_id : ApiKeyPy → Bytes
  account_id self = self.inner.account.bytes

  unfoldable pub account_id_hex : ApiKeyPy → Text
  account_id_hex self = to_hex hex self.inner.account

  unfoldable pub sign : ApiKeyPy → Bytes → Result PyErr Bytes
  unfolding key_err
  sign self message = map_err key_err (ApiKey.sign ring self.inner message)

  -- `__repr__` and `__str__`.
  unfoldable pub repr : ApiKeyPy → Text
  unfolding scheme account_id_hex
  repr self =
      codes "ApiKey("
      ++ (codes (scheme self) ++ (codes ", " ++ (account_id_hex self ++ codes ", <redacted>)")))

  unfoldable pub str : ApiKeyPy → Text
  unfolding repr
  str self = repr self

  -- `__reduce__`, `__copy__` and `__deepcopy__` refuse every key.
  unfoldable pub reduce : ApiKeyPy → Result PyErr (Unit {0})
  reduce self = err (
      type_error (
        codes
          "refusing to pickle an ApiKey; pass the key string through your secret manager instead"))

  unfoldable pub copy : ApiKeyPy → Result PyErr (Unit {0})
  copy self = err (type_error (codes "refusing to copy an ApiKey"))

  unfoldable pub deepcopy : ApiKeyPy → Result PyErr (Unit {0})
  deepcopy self = err (type_error (codes "refusing to deep-copy an ApiKey"))
