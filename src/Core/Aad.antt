-- ===== src/Core/Aad.antt =====
-- crates/matter-sdk-core/src/aad.rs: the registry of associated-data tags.
use matter_sdk.Common.{Text, codes, ◌≡◌, arith, ap, length, ℕ, [], ◌∷◌}

pub data Aad : Type 0 where
  env_v1 tls_v1 storage_creds_v1 volume_dek_v1 : Aad
  dataset_source_creds_v1 quantum_guard_policy_dek_v1 : Aad

unfoldable pub as_bytes : Aad → Text
as_bytes env_v1 = codes "matter-deployment/env/v1"
as_bytes tls_v1 = codes "matter-deployment/tls/v1"
as_bytes storage_creds_v1 = codes "matter-volume/storage-creds/v1"
as_bytes volume_dek_v1 = codes "matter-volume/dek/v1"
as_bytes dataset_source_creds_v1 = codes "matter-dataset/source-creds/v1"
as_bytes quantum_guard_policy_dek_v1 = codes "quantum-guard/policy-dek/v1"

-- A number that tells the tags apart: the length of the bytes, and one byte of them.
byte_at : ℕ → Text → ℕ
byte_at n [] = 0
byte_at ℕ.zero (c ∷ s) = c
byte_at (ℕ.suc n) (c ∷ s) = byte_at n s

-- Two different tags have different bytes, so a secret sealed under one tag is never opened under
-- the bytes of another.
pub as_bytes-injective : (a b : Aad) → as_bytes a ≡ as_bytes b → a ≡ b
unfolding as_bytes byte_at
as_bytes-injective a b h = ground (arith, ap length h, ap (byte_at 18) h, ap (byte_at 14) h)
