-- ===== src/Ffi.antt =====
-- crates/matter-sdk-ffi/src/lib.rs: the C functions over the core. A buffer that a function writes is
-- its bytes here; Ffi/Memory says where they stand. Panics are not modelled.
pub mod Sound
pub mod Memory
pub mod Handles
mod Tests
use matter_sdk.Common.{
  ℕ, zero, suc, ◌+◌, Bool, true, false, List, [], ◌∷◌, ◌++◌, Option, none, some, take, length, ◌==◌,
  is_empty, if◌then◌else◌, Result, ok, err, ◌>>=◌, ◌>>◌, fail_if, ok_or, map_err,
}
use matter_sdk.Core.Error.{
  CoreError, empty, hex, decode, invalid_length, too_large, invalid_subset, aggregate, aead,
}
use matter_sdk.Core.Crypto.{Bytes, Crypto}
use matter_sdk.Core.Limits.{max_committee_response_bytes}
use matter_sdk.Core.Wire.{of_be_bytes}
use matter_sdk.Core.Seal.{EncryptedSecret, encrypt}
use matter_sdk.Core.Open.{PartialInput, open_secret, lagrange_for, verify_plaintext_proof}

-- The codes `MSDK_ERR_INVALID_ARG`, `MSDK_ERR_CRYPTO` and `MSDK_ERR_KEY`, and `MSDK_OK` beside them.
pub data Failure : Type 0 where
  invalid_arg crypto bad_key : Failure

pub data Status : Type 0 where
  success : Status
  failure : Failure → Status

-- A pointer with a length: what is readable behind the pointer, or null.
pub record Span (A : Type 0) : Type 0 where
  pub ptr : Option (List A)
  pub len : ℕ

unfoldable pub as_slice : {A : Type 0} → Option (List A) → ℕ → Option (List A)
as_slice none len = if len == 0 then some [] else none
as_slice (some readable) len = some (take len readable)

unfoldable pub slice : {A : Type 0} → Span A → Result Failure (List A)
unfolding as_slice
slice s = ok_or (as_slice s.ptr s.len) invalid_arg

-- A fixed-width field.
unfoldable pub field : ℕ → Option Bytes → Result Failure Bytes
unfolding as_slice
field width ptr = do
  bytes ← ok_or (as_slice ptr width) invalid_arg
  fail_if (if length bytes == width then false else true) invalid_arg
  ok bytes

-- The status, and what the call wrote to `*out`: nothing if it is null.
unfoldable pub answer : {A : Type 0} → A → Result Failure A → Status × Option A
answer cleared (ok a) = (success, some a)
answer cleared (err f) = (failure f, some cleared)

unfoldable pub write_out : {A : Type 0} → Bool → A → Result Failure A → Status × Option A
unfolding answer
write_out true cleared body = (failure invalid_arg, none)
write_out false cleared body = answer cleared body

-- An absent binding id is a null pointer.
unfoldable pub binding_of : Option Bytes → Bytes → Option Bytes
binding_of none bytes = none
binding_of (some readable) bytes = some bytes

pub record MsdkPartialInput : Type 0 where
  pub point : ℕ
  pub partial : Span ℕ
  pub proof : Span ℕ
  pub commitment : Span ℕ

unfoldable pub partial_inputs : List MsdkPartialInput → Result Failure (List PartialInput)
unfolding slice
partial_inputs [] = ok []
partial_inputs (p ∷ ps) = do
  partial ← slice p.partial
  proof ← slice p.proof
  commitment ← slice p.commitment
  inputs ← partial_inputs ps
  ok (
      record { point = p.point; partial = partial; proof = proof; commitment = commitment }
      ∷ inputs)

-- The arms on an error of `encrypt` and of `open_secret`.
unfoldable pub encrypt_status : CoreError → Failure
encrypt_status (empty _) = invalid_arg
encrypt_status (decode _ _) = invalid_arg
encrypt_status (hex _ _) = crypto
encrypt_status (too_large _ _ _) = crypto
encrypt_status (invalid_length _ _ _) = crypto
encrypt_status (invalid_subset _) = crypto
encrypt_status (aggregate _) = crypto
encrypt_status aead = crypto

unfoldable pub open_status : CoreError → Failure
open_status (invalid_subset _) = invalid_arg
open_status (empty _) = crypto
open_status (decode _ _) = crypto
open_status (hex _ _) = crypto
open_status (too_large _ _ _) = crypto
open_status (invalid_length _ _ _) = crypto
open_status (aggregate _) = crypto
open_status aead = crypto

pub record MsdkEnvelope : Type 0 where
  pub binding_id : Bytes
  pub capsule : Bytes
  pub proof : Bytes
  pub ct : Bytes

abbrev pub no_envelope : MsdkEnvelope
no_envelope = record { binding_id = []; capsule = []; proof = []; ct = [] }

module _ (k : Crypto) (null_out : Bool) where
  unfoldable pub msdk_signing_payload :
      Option Bytes → Span ℕ → Option Bytes → ℕ → Status × Option Bytes
  unfolding field slice write_out
  msdk_signing_payload secret_id subset block_hash recipient_index = write_out null_out [] (do
    sid ← field 16 secret_id
    bh ← field 32 block_hash
    points ← slice subset
    ok (k.signing_payload (of_be_bytes 0 sid) points bh recipient_index))

  unfoldable pub msdk_lagrange_for : ℕ → Span ℕ → Status × Option Bytes
  unfolding slice write_out
  msdk_lagrange_for point subset =
      write_out null_out []
        (do points ← slice subset; map_err (λ _. crypto) (lagrange_for k point points))

  unfoldable pub msdk_encrypt :
      Bytes → ℕ → Span ℕ → ℕ → Span ℕ → Span ℕ → Span ℕ → Status × Option MsdkEnvelope
  unfolding slice write_out binding_of encrypt_status
  msdk_encrypt fresh seed joint_pk epoch secrets aad binding_id = write_out null_out no_envelope (do
    pk ← slice joint_pk
    sec ← slice secrets
    tag ← slice aad
    binding ← slice binding_id
    env ←
        map_err encrypt_status
          (encrypt k fresh seed pk epoch sec tag (binding_of binding_id.ptr binding))
    ok (record {
      binding_id = env.binding_id;
      capsule = env.capsule;
      proof = env.proof;
      ct = env.ct;
    }))

  unfoldable pub msdk_verify_plaintext_proof :
      Span ℕ → Span ℕ → Span ℕ → Span ℕ → ℕ → Status × Option Bool
  unfolding slice write_out
  msdk_verify_plaintext_proof joint_pk capsule proof binding_id epoch = write_out null_out false (do
    pk ← slice joint_pk
    cap ← slice capsule
    pf ← slice proof
    bid ← slice binding_id
    map_err (λ _. crypto) (verify_plaintext_proof k pk cap pf bid epoch))

  unfoldable pub msdk_open_secret :
      Span ℕ
      → Span ℕ
      → Option Bytes
      → ℕ
      → Span ℕ
      → Span ℕ
      → Span ℕ
      → Span MsdkPartialInput
      → Status × Option Bytes
  unfolding field slice write_out open_status partial_inputs
  msdk_open_secret shared_a capsule secret_id epoch binding_id aad ct partials =
      write_out null_out [] (do
        sa ← slice shared_a
        cap ← slice capsule
        sid ← field 16 secret_id
        bid ← slice binding_id
        tag ← slice aad
        sealed ← slice ct
        raw ← slice partials
        inputs ← partial_inputs raw
        map_err open_status (open_secret k sa cap (of_be_bytes 0 sid) epoch bid tag sealed inputs))

module _ (null_out : Bool) where
  unfoldable pub msdk_max_committee_response_bytes : Status × Option ℕ
  unfolding write_out
  msdk_max_committee_response_bytes = write_out null_out 0 (ok max_committee_response_bytes)

unfoldable pub msdk_crypto_protocol_version : Crypto → ℕ
msdk_crypto_protocol_version k = k.protocol_version
