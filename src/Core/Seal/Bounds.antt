-- ===== src/Core/Seal/Bounds.antt =====
-- Every field of a sealed envelope fits its bound on chain.
use matter_sdk.Common.{ℕ, ◌≤◌, ◌≡◌, Option, arith, length, is_empty, false, ok}
use matter_sdk.Core.Crypto.{Bytes, Crypto}
use matter_sdk.Core.Seal.{EncryptedSecret, encrypt, binding_or}

-- If `encrypt` returns an envelope, the plaintext was not empty, each of the four fields is within
-- the bound that the chain sets for it, and the binding id is the given one where one was given.
pub encrypt_bounds :
    (k : Crypto) (fresh : Bytes) (seed : ℕ) (joint_pk : Bytes) (epoch : ℕ) (plaintext aad : Bytes)
    (given : Option Bytes) {env : EncryptedSecret}
    → encrypt k fresh seed joint_pk epoch plaintext aad given ≡ ok env
    → (is_empty plaintext ≡ false)
      × (length env.binding_id ≤ k.max_binding_id)
      × (length env.capsule ≤ k.max_capsule)
      × (length env.proof ≤ k.max_proof)
      × (length env.ct ≤ k.max_ct)
      × (env.binding_id ≡ binding_or given fresh)
unfolding encrypt
encrypt_bounds k fresh seed joint_pk epoch plaintext aad given h = ground arith
