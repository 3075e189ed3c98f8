-- ===== src/Chain/Client/Refreshing.antt =====
-- crates/matter-sdk/src/chain/mod.rs: what a failed submission does to the mode, and when a key is
-- reported as revoked.
use matter_sdk.Common.{
  ◌≡◌, ◌≢◌, refl, Bool, true, false, not, List, Option, none, some, String, arith, ap, ◌∙◌, Result,
  ok, err, if◌then◌else◌,
}
use matter_sdk.Core.Crypto.{Bytes}
use matter_sdk.Key.Scopes.{ScopeSet}
use matter_sdk.Error.{SdkError, key_revoked}
use matter_sdk.Chain.Value.{Value, DynamicPayload}
use matter_sdk.Signer.{KeySigner}
use matter_sdk.Chain.Mode.{
  Mode, direct, delegated, Grant, Refresh, unchanged, rescoped, gone, after_refresh, principal,
}
use matter_sdk.Chain.Mode.Laws.{text_eq_iff}
use matter_sdk.Chain.Client.{
  Subxt, Outcome, timed_out, rejected, unfinalized, in_block, InBlock, Answers, Event,
  submission_error, outer_dispatch_error, refresh_delegation, update_mode, is_pool_rejection,
  rejected_because, after_success, after_submit, as_error, send, tx, chain_error,
}

module _ (x : Subxt) where
  principal-update_mode :
      (mode : Mode) (r : Refresh) → principal (update_mode x mode r) ≡ principal mode
  unfolding update_mode principal
  principal-update_mode direct r = refl
  principal-update_mode (delegated p s) unchanged = refl
  principal-update_mode (delegated p s) (rescoped held) = refl
  principal-update_mode (delegated p s) gone = refl

  refresh_principal :
      (mode : Mode) (fresh : Result SdkError Grant)
      → principal (refresh_delegation x mode fresh).1 ≡ principal mode
  unfolding refresh_delegation
  refresh_principal mode (ok fresh) = principal-update_mode mode (after_refresh mode fresh)
  refresh_principal mode (err e) = refl

  either_mode :
      {A : Type 0} (b : Bool) (r r' : A × Mode) (mode : Mode)
      → principal r.1 ≡ principal mode
      → principal r'.1 ≡ principal mode
      → principal ((if b then r else r').1) ≡ principal mode
  either_mode true r r' mode h h' = h
  either_mode false r r' mode h h' = h'

  principal-submission_error :
      (mode : Mode) (fresh : Result SdkError Grant) (pallet call : String)
      (required : Option ScopeSet) (e : x.Failure)
      → principal (submission_error x mode fresh pallet call required e).1 ≡ principal mode
  unfolding submission_error
  principal-submission_error direct fresh pallet call required e = refl
  principal-submission_error (delegated p s) fresh pallet call required e =
      either_mode (not (is_pool_rejection x e)) _ _ (delegated p s) refl
        (refresh_principal (delegated p s) fresh)

  principal-outer_dispatch_error :
      (mode : Mode) (fresh : Result SdkError Grant) (pallet call : String) (e : x.Failure)
      → principal (outer_dispatch_error x mode fresh pallet call e).1 ≡ principal mode
  unfolding outer_dispatch_error
  principal-outer_dispatch_error mode fresh pallet call e =
      either_mode (not (x.is_not_proxy e)) _ _ mode refl (refresh_principal mode fresh)

  as_error_mode : (r : SdkError × Mode) → (as_error x r).1 ≡ r.1
  unfolding as_error
  as_error_mode (e, mode) = refl

  principal-after_success :
      (mode : Mode) (answers : Answers x) (pallet call : String) (b : InBlock x)
      (success : Result x.Failure (List Event))
      → principal (after_success x mode answers pallet call b success).1 ≡ principal mode
  unfolding after_success
  principal-after_success mode answers pallet call b (err e) =
      ap principal (as_error_mode (outer_dispatch_error x mode answers.grant pallet call e))
      ∙ principal-outer_dispatch_error mode answers.grant pallet call e
  principal-after_success mode answers pallet call b (ok events) = refl

  principal-after_submit :
      (mode : Mode) (answers : Answers x) (pallet call : String) (required : Option ScopeSet)
      (o : Outcome x)
      → principal (after_submit x mode answers pallet call required o).1 ≡ principal mode
  unfolding after_submit
  principal-after_submit mode answers pallet call required timed_out = refl
  principal-after_submit mode answers pallet call required (rejected e) =
      ap principal (as_error_mode (submission_error x mode answers.grant pallet call required e))
      ∙ principal-submission_error mode answers.grant pallet call required e
  principal-after_submit mode answers pallet call required (unfinalized e) = refl
  principal-after_submit mode answers pallet call required (in_block b) =
      principal-after_success mode answers pallet call b b.success

  principal-send :
      (mode : Mode) (answers : Answers x) (pallet call : String) (required : Option ScopeSet)
      (signed : Result SdkError (DynamicPayload × Bytes))
      → principal (send x mode answers pallet call required signed).1 ≡ principal mode
  unfolding send
  principal-send mode answers pallet call required (err e) = refl
  principal-send mode answers pallet call required (ok (payload, signature)) =
      principal-after_submit mode answers pallet call required (answers.submit payload signature)

  -- Whatever the network answers to a submission, the client goes on to act for the same member, or
  -- for itself if it did so before: a revoked key never falls back to acting for itself.
  pub principal-tx :
      (mode : Mode) (signer : Option KeySigner) (answers : Answers x) (pallet call : String)
      (args : List Value)
      → principal (tx x mode signer answers pallet call args).1 ≡ principal mode
  unfolding tx
  principal-tx mode signer answers pallet call args = principal-send mode answers pallet call _ _

  gone_sound :
      (p : Bytes) (s : ScopeSet) (fresh : Grant)
      → after_refresh (delegated p s) fresh ≡ gone
      → (s' : ScopeSet) → fresh ≢ some (p, s')
  unfolding after_refresh
  gone_sound p s none h s' same = absurd (ground arith)
  gone_sound p s (some (fresh_p, fresh_s)) h s' same = ground (arith, text_eq_iff fresh_p p)

  rejected_because_revoked :
      (p : Bytes) (pallet call : String) (required : Option ScopeSet) (e : x.Failure)
      (outcome : Result SdkError Refresh)
      → rejected_because x p pallet call required e outcome ≡ key_revoked
      → outcome ≡ ok gone
  unfolding rejected_because chain_error
  rejected_because_revoked p pallet call required e (ok gone) h = refl
  rejected_because_revoked p pallet call (some required) e (ok (rescoped held)) h =
      absurd (ground arith)
  rejected_because_revoked p pallet call none e (ok (rescoped held)) h = absurd (ground arith)
  rejected_because_revoked p pallet call (some required) e (ok unchanged) h = absurd (ground arith)
  rejected_because_revoked p pallet call none e (ok unchanged) h = absurd (ground arith)
  rejected_because_revoked p pallet call (some required) e (err e') h = absurd (ground arith)
  rejected_because_revoked p pallet call none e (err e') h = absurd (ground arith)

  pub revoked_refresh :
      (p : Bytes) (s : ScopeSet) (fresh : Result SdkError Grant)
      → (refresh_delegation x (delegated p s) fresh).0 ≡ ok gone
      → (grant : Grant) × (fresh ≡ ok grant) × ((s' : ScopeSet) → grant ≢ some (p, s'))
  unfolding refresh_delegation
  revoked_refresh p s (ok fresh) h = (fresh, refl, gone_sound p s fresh (ground arith))
  revoked_refresh p s (err e) h = absurd (ground arith)

  -- A refused submission is reported as a revoked key only if the node's refusal was one of the
  -- pool and the chain, asked again, answered with no grant to the member of the mode.
  pub submission_error_key_revoked :
      (p : Bytes) (s : ScopeSet) (fresh : Result SdkError Grant) (pallet call : String)
      (required : Option ScopeSet) (e : x.Failure)
      → (submission_error x (delegated p s) fresh pallet call required e).0 ≡ key_revoked
      → (is_pool_rejection x e ≡ true)
        × ((grant : Grant) × (fresh ≡ ok grant) × ((s' : ScopeSet) → grant ≢ some (p, s')))
  unfolding submission_error chain_error
  submission_error_key_revoked p s fresh pallet call required e h = (
    ground arith,
    revoked_refresh p s fresh (rejected_because_revoked p pallet call required e _ (ground arith)),
  )
