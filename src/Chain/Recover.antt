-- ===== src/Chain/Recover.antt =====
-- crates/matter-sdk/src/chain/recover.rs, `recover_secret` of crates/matter-sdk/src/lib.rs and
-- `Secrets::recover` of crates/matter-sdk/src/chain/facade.rs: a stored secret, from the chain
-- reads to the plaintext.
pub mod Tables
pub mod Assembly
pub mod Sound
pub mod Names
pub mod Opens
pub mod Integrity
mod Tests
use matter_sdk.Common.{
  ℕ, suc, ◌+◌, Bool, true, false, not, ◌||◌, List, [], ◌∷◌, ◌++◌, Option, none, some, String, Text,
  codes, text_eq, ◌==◌, ltb, length, is_empty, trim, trim_end, starts_with, if◌then◌else◌, Result,
  ok, err, ◌>>=◌, ◌>>◌, fail_if, ok_or, map_err, from_utf8,
}
use matter_sdk.Common.Decimal.{to_decimal}
use matter_sdk.Core.Aad.{Aad, as_bytes}
use matter_sdk.Core.Crypto.{Bytes, Crypto}
use matter_sdk.Core.Seal.{EncryptedSecret}
use matter_sdk.Core.Wire.{HexCodec}
use matter_sdk.Error.{SdkError, chain, aad_mismatch, read_only}
use matter_sdk.Signer.{KeySigner, key_auth}
use matter_sdk.Committee.{World, DecryptRequest, decrypt}
use matter_sdk.Committee.Quorum.{CommitteeNode, sort_by_index}
use Tables.{Account, lookup, parse_endpoint, assemble_nodes}

pub record ChainNodeInfo : Type 0 where
  pub endpoint : Bytes
  pub dkg_index : ℕ

pub record StoredSecret : Type 0 where
  pub envelope : EncryptedSecret
  pub epoch : ℕ
  pub aad : Bytes

pub record CommitteeInfo : Type 0 where
  pub epoch : ℕ
  pub threshold : ℕ
  pub shared_a : Bytes
  pub nodes : List CommitteeNode
  pub block_hash : Bytes

-- The node's JSON-RPC, whose answers may differ from one call to the next, the codec of the crate
-- parity_scale_codec at the types that are read and written, and `String::from_utf8_lossy`.
pub record Rpc : Type 0 where
  pub state_call : ℕ → String → Bytes → Result Text Bytes
  pub finalized_head : ℕ → Result Text Bytes
  pub encode_id : ℕ → Bytes
  pub encode_epoch : ℕ → Bytes
  pub encode_member : ℕ → Account → Bytes
  pub decode_envelope : Bytes → Result Text (Option EncryptedSecret)
  pub decode_epoch : Bytes → Result Text (Option ℕ)
  pub decode_blob : Bytes → Result Text (Option Bytes)
  pub decode_dkg_output : Bytes → Result Text (Option (Bytes × Bytes))
  pub decode_threshold : Bytes → Result Text (ℕ × ℕ)
  pub decode_committee : Bytes → Result Text (List (Account × ℕ))
  pub decode_registry : Bytes → Result Text (List (Account × ChainNodeInfo))
  pub lossy : Bytes → Text

unfoldable pub chain_err : String → Text → SdkError
chain_err target detail = chain (codes target) detail

unfoldable pub endpoints_of : List (Account × ChainNodeInfo) → List (Account × Bytes)
endpoints_of [] = []
endpoints_of ((id, info) ∷ rest) = (id, info.endpoint) ∷ endpoints_of rest

unfoldable pub or_empty : Option Bytes → Bytes
or_empty none = []
or_empty (some b) = b

unfoldable pub keep_commitment :
    Account → Option Bytes → List (Account × Bytes) → List (Account × Bytes)
keep_commitment id none rest = rest
keep_commitment id (some g) rest = (id, g) ∷ rest

unfoldable pub check_aad : Rpc → ℕ → Bytes → Aad → Result SdkError (Unit {0})
check_aad rpc secret_id sealed_under requested =
    if is_empty sealed_under || text_eq sealed_under (as_bytes requested)
    then ok tt
    else err (aad_mismatch secret_id (rpc.lossy sealed_under) (rpc.lossy (as_bytes requested)))

module _ (rpc : Rpc) where
  unfoldable pub call :
      {T : Type 0} → (Bytes → Result Text T) → ℕ → String → Bytes → Result SdkError T
  unfolding chain_err
  call decode requests method args = do
    bytes ← map_err (chain_err method) (rpc.state_call requests method args)
    map_err (chain_err method) (decode bytes)

  unfoldable pub read_secret : ℕ → Result SdkError StoredSecret
  unfolding call chain_err or_empty
  read_secret secret_id = do
    let args = rpc.encode_id secret_id
    found ← call rpc.decode_envelope 0 "SecretsApi_secret_payload" args
    envelope ← ok_or found (
        chain_err "SecretsApi_secret_payload"
          (codes "secret " ++ (to_decimal secret_id ++ codes " does not exist")))
    recorded ← call rpc.decode_epoch 1 "SecretsApi_secret_epoch" args
    epoch ← ok_or recorded (
        chain_err "SecretsApi_secret_epoch"
          (codes "secret " ++ (to_decimal secret_id ++ codes " has no record")))
    aad ← call rpc.decode_blob 2 "SecretsApi_secret_aad" args
    ok (record { envelope = envelope; epoch = epoch; aad = or_empty aad })

  -- The loop that reads a share commitment for each member of the committee.
  unfoldable pub read_commitments :
      ℕ → ℕ → List (Account × ℕ) → Result SdkError (List (Account × Bytes))
  unfolding call keep_commitment
  read_commitments requests epoch [] = ok []
  read_commitments requests epoch ((id, index) ∷ rest) = do
    g ← call rpc.decode_blob requests "KgcApi_share_commitment" (rpc.encode_member epoch id)
    others ← read_commitments (suc requests) epoch rest
    ok (keep_commitment id g others)

  unfoldable pub committee_info : ℕ → Result SdkError CommitteeInfo
  unfolding call chain_err endpoints_of read_commitments
  committee_info epoch = do
    let args = rpc.encode_epoch epoch
    output ← call rpc.decode_dkg_output 3 "KgcApi_dkg_output_at_epoch" args
    keys ← ok_or output (
        chain_err "KgcApi_dkg_output_at_epoch"
          (codes "no DKG output at epoch " ++ to_decimal epoch))
    sizes ← call rpc.decode_threshold 4 "KgcApi_threshold_params_at_epoch" args
    committee ← call rpc.decode_committee 5 "KgcApi_committee_at_epoch" args
    fail_if (is_empty committee) (
        chain_err "KgcApi_committee_at_epoch"
          (codes "no committee seated at epoch " ++ to_decimal epoch))
    registry ← call rpc.decode_registry 6 "KgcApi_kgc_nodes" []
    commitments ← read_commitments 7 epoch committee
    nodes ← assemble_nodes committee (endpoints_of registry) commitments epoch
    fail_if (ltb (length nodes) sizes.1) (
        chain_err "KgcApi_kgc_nodes" (
          codes "only "
          ++ (to_decimal (length nodes)
              ++ (codes " of epoch "
                  ++ (to_decimal epoch
                      ++ (codes "'s committee is reachable; need " ++ to_decimal sizes.1))))))
    head ← map_err (chain_err "chain_getFinalizedHead") (rpc.finalized_head (7 + length committee))
    ok (record {
      epoch = epoch;
      threshold = sizes.1;
      shared_a = keys.1;
      nodes = nodes;
      block_hash = head;
    })

unfoldable pub request_for : CommitteeInfo → ℕ → EncryptedSecret → Aad → DecryptRequest
request_for committee secret_id secret aad = record {
  secret_id = secret_id;
  epoch = committee.epoch;
  binding_id = secret.binding_id;
  aad = as_bytes aad;
  capsule = secret.capsule;
  ct = secret.ct;
  shared_a = committee.shared_a;
  block_hash = committee.block_hash;
  threshold = committee.threshold;
  nodes = committee.nodes;
}

module _ (k : Crypto) (w : World k) where
  unfoldable pub recover_secret :
      CommitteeInfo → ℕ → EncryptedSecret → Aad → Option (Result SdkError Bytes)
  unfolding request_for
  recover_secret committee secret_id secret aad =
      decrypt k w (request_for committee secret_id secret aad)

-- The world as `recover` runs it: with the client's own key as the signer.
unfoldable pub keyed_world : (k : Crypto) → World k → KeySigner → World k
keyed_world k w signer = record w { signer = key_auth k w.hex signer }

module _ (k : Crypto) (w : World k) (rpc : Rpc) where
  -- What is read before the committee is asked: the signer, the secret and its committee.
  unfoldable pub prepare_recovery :
      Option KeySigner → ℕ → Aad → Result SdkError (KeySigner × StoredSecret × CommitteeInfo)
  prepare_recovery signer secret_id aad = do
    s ← ok_or signer read_only
    stored ← read_secret rpc secret_id
    check_aad rpc secret_id stored.aad aad
    committee ← committee_info rpc stored.epoch
    ok (s, stored, committee)

  unfoldable pub ask_committee :
      ℕ
      → Aad
      → Result SdkError (KeySigner × StoredSecret × CommitteeInfo)
      → Option (Result SdkError Bytes)
  unfolding recover_secret keyed_world
  ask_committee secret_id aad (err e) = some (err e)
  ask_committee secret_id aad (ok (s, stored, committee)) =
      recover_secret k (keyed_world k w s) committee secret_id stored.envelope aad

  unfoldable pub recover : Option KeySigner → ℕ → Aad → Option (Result SdkError Bytes)
  unfolding prepare_recovery ask_committee
  recover signer secret_id aad = ask_committee secret_id aad (prepare_recovery signer secret_id aad)
