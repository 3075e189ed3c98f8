-- ===== src/Error.antt =====
-- crates/matter-sdk/src/error.rs: the errors of the client and the reasons why a committee node
-- was dropped.
pub mod Summary
use matter_sdk.Common.{
  ℕ, ◌+◌, Bool, true, false, String, Text, List, [], ◌∷◌, ◌++◌, codes, debug, ltb, if◌then◌else◌,
}
use matter_sdk.Common.Decimal.{to_decimal}
use matter_sdk.Core.Error.{CoreError, to_string as core_to_string}
use matter_sdk.Key.Error.{KeyError, to_string as key_to_string}
use matter_sdk.Key.Scopes.{ScopeSet}
use matter_sdk.Key.Scopes.Format.{ScopeParseError, display, scope_to_string}

pub data FaultStage : Type 0 where
  health inactive partial_decrypt epoch_mismatch protocol_version : FaultStage

pub record NodeFault : Type 0 where
  pub index : ℕ
  pub endpoint : Text
  pub stage : FaultStage
  pub detail : Text

pub data SdkError : Type 0 where
  core : CoreError → SdkError
  key : KeyError → SdkError
  scope : ScopeParseError → SdkError
  transport : Text → Text → SdkError
  quorum_unavailable : ℕ → ℕ → List NodeFault → SdkError
  epoch_rotated : ℕ → ℕ → SdkError
  signer : Text → SdkError
  bad_response : Text → Text → SdkError
  aad_mismatch : ℕ → Text → Text → SdkError
  read_only : SdkError
  config : Text → SdkError
  chain : Text → Text → SdkError
  not_permitted : String → String → ScopeSet → ScopeSet → SdkError
  never_admitted : String → String → SdkError
  dispatch : String → String → Text → SdkError
  key_revoked : SdkError
  unsponsored : Text → String → String → SdkError
  mainnet_not_confirmed : Text → String → SdkError
  wrong_network : String → Text → SdkError
  finality_timeout : String → String → ℕ → SdkError
  bad_amount : Text → SdkError

-- `FaultStage::as_str`.
unfoldable pub as_str : FaultStage → String
as_str health = "health"
as_str inactive = "inactive"
as_str partial_decrypt = "partial-decrypt"
as_str epoch_mismatch = "epoch-mismatch"
as_str protocol_version = "protocol-version"

-- One entry of `summarize_faults`.
unfoldable pub fault_text : NodeFault → Text
unfolding as_str
fault_text f =
    codes "node "
    ++ (to_decimal f.index
        ++ (codes " ("
            ++ (f.endpoint
                ++ (codes ") " ++ (codes (as_str f.stage) ++ (codes ": " ++ f.detail))))))

-- The loop, with the number of entries written.
unfoldable pub summarize_from : ℕ → Text → List NodeFault → Text
unfolding fault_text
summarize_from i out [] = out
summarize_from i out (f ∷ rest) =
    summarize_from (i + 1) ((if ltb 0 i then out ++ codes "; " else out) ++ fault_text f) rest

unfoldable pub summarize_faults : List NodeFault → Text
unfolding summarize_from
summarize_faults [] = []
summarize_faults (f ∷ rest) = summarize_from 0 (codes " — ") (f ∷ rest)

call_text : String → String → Text
call_text pallet call = codes pallet ++ (codes "." ++ codes call)

-- Which characters are shown as they are is fixed by the Unicode tables. A duration is a positive
-- number of whole seconds.
module _ (printable : ℕ → Bool) where
  -- `impl Display for SdkError`.
  unfoldable pub to_string : SdkError → Text
  unfolding summarize_faults call_text
  to_string (core e) = core_to_string e
  to_string (key e) = key_to_string printable e
  to_string (scope e) = scope_to_string printable e
  to_string (transport endpoint detail) =
      codes "committee transport error for " ++ (endpoint ++ (codes ": " ++ detail))
  to_string (quorum_unavailable needed active faults) =
      codes "quorum unavailable: need "
      ++ (to_decimal needed
          ++ (codes " healthy nodes, found " ++ (to_decimal active ++ summarize_faults faults)))
  to_string (epoch_rotated served provided) =
      codes "secret served under epoch "
      ++ (to_decimal served
          ++ (codes ", but state was supplied for "
              ++ (to_decimal provided ++ codes "; refetch the served epoch's committee state")))
  to_string (signer detail) = codes "signer error: " ++ detail
  to_string (bad_response endpoint detail) =
      codes "unusable response from " ++ (endpoint ++ (codes ": " ++ detail))
  to_string (aad_mismatch secret_id sealed_under requested) =
      codes "secret "
      ++ (to_decimal secret_id
          ++ (codes " is sealed under AAD "
              ++ (debug printable sealed_under ++ (codes ", not " ++ debug printable requested))))
  to_string read_only =
      codes "this client is read-only: build it with an api key or a signer to submit"
  to_string (config detail) = codes "configuration error: " ++ detail
  to_string (chain target detail) = codes "chain error at " ++ (target ++ (codes ": " ++ detail))
  to_string (not_permitted pallet call required held) =
      codes "key lacks "
      ++ (display required
          ++ (codes " for " ++ (call_text pallet call ++ (codes "; it holds " ++ display held))))
  to_string (never_admitted pallet call) =
      call_text pallet call
      ++ codes " is never admitted to an api key; sign it with the member's own key"
  to_string (dispatch pallet call detail) =
      call_text pallet call ++ (codes " failed under delegation: " ++ detail)
  to_string key_revoked = codes "this api key is no longer registered; it was revoked or re-scoped"
  to_string (unsponsored principal pallet call) =
      call_text pallet call
      ++ (codes " was not sponsored: neither "
          ++ (principal ++ codes " nor their billing org could cover the fee"))
  to_string (mainnet_not_confirmed chain_name detected_via) =
      codes "refusing to build a signing client against mainnet "
      ++ (debug printable chain_name
          ++ (codes " (detected via "
              ++ (codes detected_via
                  ++ codes
                      ") without explicit confirmation: set MATTER_CONFIRM=yes or MatterConfig::confirm_mainnet. This client can spend real funds")))
  to_string (wrong_network expected actual) =
      codes "expected the "
      ++ (codes expected ++ (codes " network but the endpoint serves " ++ debug printable actual))
  to_string (finality_timeout pallet call waited) =
      call_text pallet call
      ++ (codes " did not finalize within "
          ++ (to_decimal waited
              ++ codes "s; it may still land, so check the chain before resubmitting"))
  to_string (bad_amount detail) = codes "invalid amount: " ++ detail
