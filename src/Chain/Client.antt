-- ===== src/Chain/Client.antt =====
-- crates/matter-sdk/src/chain/mod.rs: submitting a call, as itself or for a member. The network is
-- an argument: what each request to it comes to.
pub mod Call
pub mod Failure
pub mod Payload
pub mod Refreshing
pub mod Submit
pub mod Revoked
use matter_sdk.Common.{
  ℕ, List, Option, none, some, String, Text, map, if◌then◌else◌, Result, ok, err, ◌>>=◌, ok_or,
  map_err,
}
use matter_sdk.Core.Crypto.{Bytes}
use matter_sdk.Key.Scopes.{ScopeSet}
use matter_sdk.Error.{SdkError, dispatch, read_only, finality_timeout, key}
use matter_sdk.Signer.{KeySigner}
use matter_sdk.Chain.Value.{Value, DynamicPayload}
use matter_sdk.Chain.Mode.{Mode, Grant, is_delegated}
use matter_sdk.Chain.ScopesTable.{required_scopes}
unfoldable pub use Call.*
unfoldable pub use Failure.*

module _ (x : Subxt) where
  -- A block that contains the extrinsic: its hashes, and what `wait_for_success` answers.
  pub record InBlock : Type 0 where
    pub tx_hash : Bytes
    pub block_hash : Bytes
    pub success : Result x.Failure (List Event)

  -- What submitting and waiting for finalization comes to.
  pub data Outcome : Type 0 where
    timed_out : Outcome
    rejected : x.Failure → Outcome
    unfinalized : x.Failure → Outcome
    in_block : InBlock → Outcome

  -- What the network answers in the course of a submission: to the request for the account's nonce,
  -- to the signed call, and to the lookup of the key's grant.
  pub record Answers : Type 0 where
    pub nonce : Result x.Failure (Unit {0})
    pub submit : DynamicPayload → Bytes → Outcome
    pub grant : Result SdkError Grant
    pub waited : ℕ

  unfoldable pub receipt : InBlock → List Event → TxReceipt
  receipt b events = record {
    tx_hash = b.tx_hash;
    block_hash = b.block_hash;
    events = map (λ (e : Event). (e.pallet, e.name)) events;
  }

  unfoldable pub check_inner :
      String → String → TxReceipt → Result SdkError (Option Text) → Result SdkError TxReceipt
  check_inner pallet call done (ok none) = ok done
  check_inner pallet call done (ok (some failure)) = err (dispatch pallet call failure)
  check_inner pallet call done (err e) = err e

  unfoldable pub as_error : SdkError × Mode → Result SdkError TxReceipt × Mode
  as_error (e, mode) = (err e, mode)

  unfoldable pub after_success :
      Mode
      → Answers
      → String
      → String
      → InBlock
      → Result x.Failure (List Event)
      → Result SdkError TxReceipt × Mode
  unfolding receipt check_inner inner_dispatch_error as_error outer_dispatch_error
  after_success mode answers pallet call b (err e) =
      as_error (outer_dispatch_error x mode answers.grant pallet call e)
  after_success mode answers pallet call b (ok events) = (
    if is_delegated mode
        then check_inner pallet call (receipt b events) (inner_dispatch_error x events)
        else ok (receipt b events),
    mode,
  )

  unfoldable pub after_submit :
      Mode
      → Answers
      → String
      → String
      → Option ScopeSet
      → Outcome
      → Result SdkError TxReceipt × Mode
  unfolding after_success chain_error as_error submission_error
  after_submit mode answers pallet call required timed_out =
      (err (finality_timeout pallet call answers.waited), mode)
  after_submit mode answers pallet call required (rejected e) =
      as_error (submission_error x mode answers.grant pallet call required e)
  after_submit mode answers pallet call required (unfinalized e) =
      (err (chain_error pallet call (x.show_failure e)), mode)
  after_submit mode answers pallet call required (in_block b) =
      after_success mode answers pallet call b b.success

  -- The call to submit and its signature: everything that happens before the call leaves.
  unfoldable pub signed_call :
      Mode
      → Option KeySigner
      → Answers
      → String
      → String
      → List Value
      → Result SdkError (DynamicPayload × Bytes)
  unfolding build_payload chain_error
  signed_call mode signer answers pallet call args = do
    s ← ok_or signer read_only
    payload ← build_payload x mode pallet call args
    _ ← map_err (λ e. chain_error pallet call (x.show_failure e)) answers.nonce
    signature ← map_err key (s.sign 0 (x.signer_payload payload))
    ok (payload, signature)

  unfoldable pub send :
      Mode
      → Answers
      → String
      → String
      → Option ScopeSet
      → Result SdkError (DynamicPayload × Bytes)
      → Result SdkError TxReceipt × Mode
  unfolding after_submit
  send mode answers pallet call required (err e) = (err e, mode)
  send mode answers pallet call required (ok (payload, signature)) =
      after_submit mode answers pallet call required (answers.submit payload signature)

  -- `tx`: the result, and the mode that it leaves.
  unfoldable pub tx :
      Mode
      → Option KeySigner
      → Answers
      → String
      → String
      → List Value
      → Result SdkError TxReceipt × Mode
  unfolding signed_call send
  tx mode signer answers pallet call args =
      send mode answers pallet call (required_scopes pallet call args)
        (signed_call mode signer answers pallet call args)
