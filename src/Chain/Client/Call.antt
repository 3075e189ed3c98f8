-- ===== src/Chain/Client/Call.antt =====
-- `build_payload` of crates/matter-sdk/src/chain/mod.rs: a call as its scopes admit it, for the key
-- itself or wrapped for a member.
use matter_sdk.Common.{
  Bool, not, List, [], ◌∷◌, ◌++◌, Option, none, some, String, Text, codes, if◌then◌else◌, Result,
  ok, err, ◌>>=◌,
}
use matter_sdk.Core.Crypto.{Bytes}
use matter_sdk.Key.Scopes.{ScopeSet, is_superset}
use matter_sdk.Error.{SdkError, chain, not_permitted, never_admitted}
use matter_sdk.Chain.Value.{Value, variant, unnamed, item, none_left, DynamicPayload}
use matter_sdk.Chain.Mode.{Mode, direct, delegated}
use matter_sdk.Chain.ScopesTable.{required_scopes, one_of}

-- Of the crate subxt: the two conversions into values, the rendering of its errors and of an
-- account, and what a signer signs.
pub record Subxt : Type 1 where
  pub Failure : Type 0
  pub show_failure : Failure → Text
  pub is_not_proxy : Failure → Bool
  pub show_account : Bytes → Text
  pub from_bytes : Bytes → Value
  pub into_value : DynamicPayload → Value
  pub signer_payload : DynamicPayload → Bytes
  pub decode_dispatch_error : Bytes → Result Text Text

-- An event: its pallet, its name and its fields as bytes.
pub record Event : Type 0 where
  pub pallet : String
  pub name : String
  pub field_bytes : Bytes

pub record TxReceipt : Type 0 where
  pub tx_hash : Bytes
  pub block_hash : Bytes
  pub events : List (String × String)

unfoldable pub dynamic_tx : String → String → List Value → DynamicPayload
dynamic_tx pallet call args = record { pallet = pallet; call = call; args = args }

unfoldable pub chain_error : String → String → Text → SdkError
chain_error pallet entry detail = chain (codes pallet ++ (codes "." ++ codes entry)) detail

module _ (x : Subxt) where
  unfoldable pub proxy_payload : Bytes → String → String → List Value → DynamicPayload
  unfolding dynamic_tx
  proxy_payload principal pallet call args = dynamic_tx "Proxy" "proxy" (
      variant "Id" (unnamed (item (x.from_bytes principal) none_left))
      ∷ variant "None" (unnamed none_left)
      ∷ x.into_value (dynamic_tx pallet call args)
      ∷ [])

  -- The check of a call against the scopes of a key.
  unfoldable pub permit : ScopeSet → String → String → Option ScopeSet → Result SdkError (Unit {0})
  permit held pallet call none = err (never_admitted pallet call)
  permit held pallet call (some required) =
      if not (is_superset held required)
      then err (not_permitted pallet call required held)
      else ok tt

  unfoldable pub build_payload :
      Mode → String → String → List Value → Result SdkError DynamicPayload
  unfolding dynamic_tx one_of permit proxy_payload
  build_payload direct pallet call args = ok (dynamic_tx pallet call args)
  build_payload (delegated principal scopes) pallet call args =
      if one_of pallet ("Proxy" ∷ "Utility" ∷ "EthSigning" ∷ [])
      then err (never_admitted pallet call)
      else do
        _ ← permit scopes pallet call (required_scopes pallet call args)
        ok (proxy_payload principal pallet call args)
