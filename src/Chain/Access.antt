-- ===== src/Chain/Access.antt =====
-- crates/matter-sdk/src/chain/mod.rs: what a client and a receipt say of themselves, amounts at the
-- chain's decimals, and reading from the chain. Storage, runtime and metadata are arguments.
use text.Mathlib.Text.{◌==◌ as str_eq}
use matter_sdk.Common.{
  ℕ, Bool, ◌&&◌, List, ◌++◌, any, Option, none, some, String, Text, codes, Result, ok, ◌>>=◌,
  map_err, ok_or,
}
use mathlib.Core.Option
use matter_sdk.Core.Crypto.{Bytes}
use matter_sdk.Core.Wire.{HexCodec}
use matter_sdk.Error.{SdkError, read_only}
use matter_sdk.Signer.{KeySigner}
use matter_sdk.Key.Scopes.{ScopeSet}
use matter_sdk.Chain.Value.{Value}
use matter_sdk.Chain.Amount
use matter_sdk.Chain.Mode
use matter_sdk.Chain.Mode.{Mode, Grant}
use matter_sdk.Chain.Mode.Lookup.{RuntimeApi, lookup}
use matter_sdk.Chain.Client.{TxReceipt, chain_error}
use matter_sdk.Chain.Connect.{MatterClient}

unfoldable pub block_hash_hex : HexCodec → TxReceipt → Text
block_hash_hex hex receipt = codes "0x" ++ hex.encode receipt.block_hash

unfoldable pub emitted : TxReceipt → String → String → Bool
emitted receipt pallet event = any (λ e. str_eq e.0 pallet && str_eq e.1 event) receipt.events

unfoldable pub account_id : MatterClient → Option Bytes
account_id self = Option.map (λ (s : KeySigner). s.account_id) self.signer

unfoldable pub principal : MatterClient → Option Bytes
principal self = Mode.principal self.mode

unfoldable pub scopes : MatterClient → Option ScopeSet
scopes self = Mode.scopes self.mode

unfoldable pub require_signer : MatterClient → Result SdkError KeySigner
require_signer self = ok_or self.signer read_only

unfoldable pub parse_amount : MatterClient → Text → Result SdkError ℕ
parse_amount self text = Amount.parse_amount text self.properties.token_decimals_effective

unfoldable pub format_amount : MatterClient → ℕ → Text
format_amount self plancks = Amount.format_amount plancks self.properties.token_decimals_effective

unfoldable pub one_token : MatterClient → ℕ
one_token self = Amount.one_token self.properties.token_decimals_effective

-- `ss58` is the address of an account, with prefix 42.
unfoldable pub principal_address : (Bytes → Text) → MatterClient → Option Text
unfolding principal
principal_address ss58 self = Option.map ss58 (principal self)

unfoldable pub address : (Bytes → Text) → MatterClient → Option Text
unfolding account_id
address ss58 self = Option.map ss58 (account_id self)

-- Of the crate subxt: the latest block, what is read there, and its decoding. Errors are rendered.
pub record Reads : Type 1 where
  pub Raw : Type 0
  pub Decoded : Type 0
  pub storage_at_latest : Result Text (String → String → List Value → Result Text (Option Raw))
  pub runtime_at_latest : Result Text (String → String → List Value → Result Text Raw)
  pub constant_at : String → String → Result Text Raw
  pub to_value : Raw → Result Text Decoded

module _ (node : Reads) where
  unfoldable pub decoded_entry :
      String → String → Option node.Raw → Result SdkError (Option node.Decoded)
  unfolding chain_error
  decoded_entry pallet entry none = ok none
  decoded_entry pallet entry (some raw) = do
    value ← map_err (chain_error pallet entry) (node.to_value raw)
    ok (some value)

  unfoldable pub query : String → String → List Value → Result SdkError (Option node.Decoded)
  unfolding decoded_entry
  query pallet entry keys = do
    storage ← map_err (chain_error pallet entry) node.storage_at_latest
    fetched ← map_err (chain_error pallet entry) (storage pallet entry keys)
    decoded_entry pallet entry fetched

  unfoldable pub runtime_api : String → String → List Value → Result SdkError node.Decoded
  unfolding chain_error
  runtime_api trait_name method args = do
    api ← map_err (chain_error trait_name method) node.runtime_at_latest
    raw ← map_err (chain_error trait_name method) (api trait_name method args)
    map_err (chain_error trait_name method) (node.to_value raw)

  unfoldable pub constant : String → String → Result SdkError node.Decoded
  unfolding chain_error
  constant pallet name = do
    raw ← map_err (chain_error pallet name) (node.constant_at pallet name)
    map_err (chain_error pallet name) (node.to_value raw)

-- Who a key acts for and what it may do.
unfoldable pub agent_key : RuntimeApi → Bytes → Result SdkError Grant
agent_key api key = lookup api key
