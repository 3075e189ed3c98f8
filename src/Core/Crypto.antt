-- ===== src/Core/Crypto.antt =====
-- The code outside the repository that the core calls: matter-crypto (lattice encryption, proofs,
-- aggregation), matter-kgc-config (size bounds, version tags), matter-kgc-proto (the payload that a
-- requester signs) and bincode. Errors of the decoders are rendered texts. What is random in the
-- source takes the randomness as an argument.
use matter_sdk.Common.{ℕ, Bool, List, Text, Result}

abbrev pub Bytes : Type 0
Bytes = List ℕ

-- `matter_crypto::secret::OpenError`, and `SealedSecrets`.
pub data OpenError : Type 0 where
  aggregate : Text → OpenError
  aead : OpenError

pub record SealedSecrets : Type 0 where
  pub nonce : Bytes
  pub ciphertext : Bytes

pub record Crypto : Type 1 where
  pub PublicKey : Type 0
  pub Capsule : Type 0
  pub PlaintextProof : Type 0
  pub SharedA : Type 0
  pub PartialDecryption : Type 0
  pub PartDecProof : Type 0
  pub Commitment : Type 0
  pub Lambda : Type 0
  -- `matter_kgc_proto::AuthScheme`, and its variant that the SDK uses.
  pub AuthScheme : Type 0
  pub substrate : AuthScheme
  pub protocol_version : ℕ
  -- The bounds of matter-kgc-config.
  pub max_binding_id : ℕ
  pub max_capsule : ℕ
  pub max_proof : ℕ
  pub max_ct : ℕ
  -- `bincode::deserialize`, which accepts trailing bytes; and with `reject_trailing_bytes`.
  pub deserialize_public_key : Bytes → Result Text PublicKey
  pub strict_public_key : Bytes → Result Text PublicKey
  pub strict_capsule : Bytes → Result Text Capsule
  pub strict_plaintext_proof : Bytes → Result Text PlaintextProof
  pub strict_shared_a : Bytes → Result Text SharedA
  pub strict_partial : Bytes → Result Text PartialDecryption
  pub strict_part_dec_proof : Bytes → Result Text PartDecProof
  pub strict_commitment : Bytes → Result Text Commitment
  pub serialize_capsule : Capsule → Result Text Bytes
  pub serialize_lambda : Lambda → Result Text Bytes
  pub encode_tagged : PlaintextProof → Result Text Bytes
  pub untag : Bytes → Result Text Bytes
  pub lagrange_coefficient : ℕ → List ℕ → Lambda
  pub verify_secret_proof : PublicKey → Capsule → PlaintextProof → Bytes → ℕ → Bool
  pub seal_secret :
      ℕ → PublicKey → Bytes → Bytes → ℕ → Bytes → Capsule × PlaintextProof × SealedSecrets
  pub verify_aggregate_open :
      List (PartialDecryption × PartDecProof × Commitment × Lambda)
      → Capsule
      → SharedA
      → Bytes
      → ℕ
      → Bytes
      → Bytes
      → SealedSecrets
      → Result OpenError Bytes
  pub signing_payload : ℕ → List ℕ → Bytes → ℕ → Bytes
