-- ===== src/Core/Seal.antt =====
-- `encrypt` of crates/matter-sdk-core/src/encrypt.rs.
pub mod Bounds
use matter_sdk.Common.{
  ℕ, ◌≤◌, ◌≡◌, List, ◌++◌, Option, none, some, Text, arith, length, is_empty, Result, ok, err,
  ◌>>=◌, ◌>>◌, fail_if, map_err,
}
use matter_sdk.Core.Error.{CoreError, empty, decode}
use matter_sdk.Core.Crypto.{Bytes, Crypto}
use matter_sdk.Core.Bound.{bound}

-- crates/matter-sdk-core/src/types.rs
pub record EncryptedSecret : Type 0 where
  pub binding_id : Bytes
  pub capsule : Bytes
  pub proof : Bytes
  pub ct : Bytes

abbrev pub binding_or : Option Bytes → Bytes → Bytes
binding_or none fresh = fresh
binding_or (some b) fresh = b

-- `fresh` are the 32 random bytes drawn where no binding id is given, `seed` the randomness of the
-- seal.
unfoldable pub encrypt :
    Crypto → Bytes → ℕ → Bytes → ℕ → Bytes → Bytes → Option Bytes → Result CoreError EncryptedSecret
unfolding bound
encrypt k fresh seed joint_pk epoch plaintext aad given = do
  fail_if (is_empty plaintext) (empty "plaintext")
  pk ← map_err (decode "joint_pk") (k.deserialize_public_key joint_pk)
  let binding_id = binding_or given fresh
  bound "binding_id" (length binding_id) k.max_binding_id
  let sealed = k.seal_secret seed pk binding_id aad epoch plaintext
  let ct = sealed.2.nonce ++ sealed.2.ciphertext
  capsule ← map_err (decode "capsule") (k.serialize_capsule sealed.0)
  proof ← map_err (decode "proof") (k.encode_tagged sealed.1)
  bound "capsule" (length capsule) k.max_capsule
  bound "proof" (length proof) k.max_proof
  bound "ct" (length ct) k.max_ct
  ok (record { binding_id = binding_id; capsule = capsule; proof = proof; ct = ct })
