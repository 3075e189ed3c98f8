-- ===== src/Chain/Client/Failure.antt =====
-- How crates/matter-sdk/src/chain/mod.rs classifies the failures of a submission: of the pool, of the
-- dispatch, and of the wrapped call.
use text.Mathlib.Text.{◌==◌ as str_eq}
use matter_sdk.Common.{
  Bool, not, ◌&&◌, ◌||◌, List, [], ◌∷◌, ◌++◌, Option, none, some, String, Text, codes, starts_with,
  ◌==◌, find, if◌then◌else◌, Result, ok, err, ◌>>=◌, map_err,
}
use matter_sdk.Common.Decimal.{to_decimal}
use matter_sdk.Core.Crypto.{Bytes}
use matter_sdk.Key.Scopes.{ScopeSet, is_superset}
use matter_sdk.Error.{SdkError, chain, not_permitted, key_revoked, unsponsored}
use matter_sdk.Chain.Mode.{
  Mode, direct, delegated, Grant, Refresh, unchanged, rescoped, gone, after_refresh,
}
use matter_sdk.Chain.Client.Call.{Subxt, Event, chain_error}

-- `str::contains`.
unfoldable pub contains_text : Text → Text → Bool
contains_text part [] = starts_with part []
contains_text part (c ∷ s) = starts_with part (c ∷ s) || contains_text part s

module _ (x : Subxt) where
  unfoldable pub is_pool_rejection : x.Failure → Bool
  unfolding contains_text
  is_pool_rejection e =
      contains_text (codes "1010") (x.show_failure e)
      || contains_text (codes "Inability to pay") (x.show_failure e)
      || contains_text (codes "InvalidTransaction") (x.show_failure e)

  -- `refresh_delegation` of a client with a signer: the outcome, and the mode that it leaves.
  unfoldable pub update_mode : Mode → Refresh → Mode
  update_mode (delegated principal _) (rescoped held) = delegated principal held
  update_mode (delegated principal s) unchanged = delegated principal s
  update_mode (delegated principal s) gone = delegated principal s
  update_mode direct outcome = direct

  unfoldable pub refresh_delegation : Mode → Result SdkError Grant → Result SdkError Refresh × Mode
  unfolding update_mode
  refresh_delegation mode (ok fresh) =
      (ok (after_refresh mode fresh), update_mode mode (after_refresh mode fresh))
  refresh_delegation mode (err e) = (err e, mode)

  -- The arms on the outcome of a refresh after a pool rejection.
  unfoldable pub rejected_because :
      Bytes → String → String → Option ScopeSet → x.Failure → Result SdkError Refresh → SdkError
  unfolding chain_error
  rejected_because principal pallet call required e (ok gone) = key_revoked
  rejected_because principal pallet call (some required) e (ok (rescoped held)) =
      if not (is_superset held required)
      then not_permitted pallet call required held
      else unsponsored (x.show_account principal) pallet call
  rejected_because principal pallet call none e (ok (rescoped held)) =
      unsponsored (x.show_account principal) pallet call
  rejected_because principal pallet call required e (ok unchanged) =
      unsponsored (x.show_account principal) pallet call
  rejected_because principal pallet call required e (err _) =
      chain_error pallet call (x.show_failure e)

  unfoldable pub submission_error :
      Mode → Result SdkError Grant → String → String → Option ScopeSet → x.Failure → SdkError × Mode
  unfolding chain_error is_pool_rejection rejected_because refresh_delegation
  submission_error direct fresh pallet call required e =
      (chain_error pallet call (x.show_failure e), direct)
  submission_error (delegated principal scopes) fresh pallet call required e =
      let refreshed = refresh_delegation (delegated principal scopes) fresh in
      if not (is_pool_rejection e)
      then (chain_error pallet call (x.show_failure e), delegated principal scopes)
      else (rejected_because principal pallet call required e refreshed.0, refreshed.1)

  -- The arms on the outcome of a refresh after `Proxy.NotProxy`.
  unfoldable pub not_proxy_because :
      String → String → x.Failure → Result SdkError Refresh → SdkError
  unfolding chain_error
  not_proxy_because pallet call e (ok gone) = key_revoked
  not_proxy_because pallet call e (ok unchanged) = chain_error pallet call (x.show_failure e)
  not_proxy_because pallet call e (ok (rescoped _)) = chain_error pallet call (x.show_failure e)
  not_proxy_because pallet call e (err lookup_failed) = lookup_failed

  unfoldable pub outer_dispatch_error :
      Mode → Result SdkError Grant → String → String → x.Failure → SdkError × Mode
  unfolding chain_error not_proxy_because refresh_delegation
  outer_dispatch_error mode fresh pallet call e =
      let refreshed = refresh_delegation mode fresh in
      if not (x.is_not_proxy e)
      then (chain_error pallet call (x.show_failure e), mode)
      else (not_proxy_because pallet call e refreshed.0, refreshed.1)

  -- The discriminant of the wrapped call's result, and what follows it.
  unfoldable pub inner_result : Bytes → Result SdkError (Option Text)
  inner_result [] = ok (some (codes "Proxy.ProxyExecuted carried no result"))
  inner_result (b ∷ rest) =
      if b == 0
      then ok none
      else if b == 1
      then (do
        decoded ←
            map_err
              (λ e.
                chain (codes "Proxy.ProxyExecuted")
                  (codes "could not decode the wrapped call's error: " ++ e))
              (x.decode_dispatch_error rest)
        ok (some decoded))
      else ok (
          some
            (codes "Proxy.ProxyExecuted carried an unknown result discriminant " ++ to_decimal b))

  unfoldable pub is_proxy_executed : Event → Bool
  is_proxy_executed e = str_eq e.pallet "Proxy" && str_eq e.name "ProxyExecuted"

  unfoldable pub inner_of : Option Event → Result SdkError (Option Text)
  unfolding inner_result
  inner_of none = ok none
  inner_of (some executed) = inner_result executed.field_bytes

  unfoldable pub inner_dispatch_error : List Event → Result SdkError (Option Text)
  unfolding inner_of is_proxy_executed
  inner_dispatch_error events = inner_of (find is_proxy_executed events)
