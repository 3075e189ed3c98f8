-- ===== src/Chain/Calls.antt =====
-- crates/matter-sdk/src/calls.rs: the typed arguments of the calls on secrets.
use matter_sdk.Common.{ℕ, String}
use matter_sdk.Core.Aad.{Aad, as_bytes}
use matter_sdk.Core.Crypto.{Bytes}
use matter_sdk.Core.Seal.{EncryptedSecret}

pub record StoreSecret : Type 0 where
  pub payload : EncryptedSecret
  pub epoch : ℕ
  pub label : Bytes
  pub aad : Bytes

-- `StoreSecret::new`.
unfoldable pub store_secret : EncryptedSecret → ℕ → Bytes → Aad → StoreSecret
store_secret payload epoch label aad = record {
  payload = payload;
  epoch = epoch;
  label = label;
  aad = as_bytes aad;
}

pub record RotateSecret : Type 0 where
  pub secret_id : ℕ
  pub payload : EncryptedSecret
  pub epoch : ℕ
  pub aad : Bytes

-- `RotateSecret::new`.
unfoldable pub rotate_secret : ℕ → EncryptedSecret → ℕ → Aad → RotateSecret
rotate_secret secret_id payload epoch aad = record {
  secret_id = secret_id;
  payload = payload;
  epoch = epoch;
  aad = as_bytes aad;
}

pub data GrantTarget : Type 0 where
  user : Bytes → GrantTarget
  deployment : ℕ → GrantTarget

unfoldable pub variant_index : GrantTarget → ℕ
variant_index (user account) = 0
variant_index (deployment id) = 1

unfoldable pub variant_name : GrantTarget → String
variant_name (user account) = "User"
variant_name (deployment id) = "Deployment"

pub record GrantAccess : Type 0 where
  pub secret_id : ℕ
  pub target : GrantTarget

unfoldable pub to_user : ℕ → Bytes → GrantAccess
to_user secret_id account = record { secret_id = secret_id; target = user account }

unfoldable pub to_deployment : ℕ → ℕ → GrantAccess
to_deployment secret_id id = record { secret_id = secret_id; target = deployment id }

pub record RevokeAccess : Type 0 where
  pub secret_id : ℕ
  pub target : GrantTarget

unfoldable pub from_user : ℕ → Bytes → RevokeAccess
from_user secret_id account = record { secret_id = secret_id; target = user account }

unfoldable pub from_deployment : ℕ → ℕ → RevokeAccess
from_deployment secret_id id = record { secret_id = secret_id; target = deployment id }

pub record DeleteSecret : Type 0 where
  pub secret_id : ℕ

unfoldable pub delete_secret : ℕ → DeleteSecret
delete_secret secret_id = record { secret_id = secret_id }
