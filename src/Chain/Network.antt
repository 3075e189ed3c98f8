-- ===== src/Chain/Network.antt =====
-- crates/matter-sdk/src/chain/mod.rs: the configuration, the properties of the chain, and the
-- guards against spending real funds by accident.
pub mod Guards
pub mod Decimals
use matter_sdk.Common.{
  ℕ, zero, suc, ◌+◌, ◌/◌, ◌%◌, Bool, true, false, not, ◌&&◌, ◌||◌, Option, none, some, String, Text,
  codes, text_eq, ◌==◌, ltb, if◌then◌else◌, Result, ok, err, ok_or,
}
use matter_sdk.Core.Crypto.{Bytes}
use matter_sdk.Core.Wire.{HexCodec}
use matter_sdk.Error.{SdkError, config, wrong_network, mainnet_not_confirmed}

pub data Network : Type 0 where
  testnet mainnet custom : Network

abbrev pub testnet_rpc : Text
testnet_rpc = codes "wss://node2.testnet.openmatter.network"

abbrev pub mainnet_rpc : Text
mainnet_rpc = codes "wss://node2.mainnet.openmatter.network"

abbrev pub testnet_genesis : Text
testnet_genesis = codes "d87ca10ad40194ff37525c0b5fc5997d94010107a399d03bf5672c0a7b30f058"

unfoldable pub default_rpc_url : Network → Option Text
default_rpc_url testnet = some testnet_rpc
default_rpc_url mainnet = some mainnet_rpc
default_rpc_url custom = none

unfoldable pub is_testnet : Network → Bool
is_testnet testnet = true
is_testnet mainnet = false
is_testnet custom = false

-- The timeout is in seconds.
pub record MatterConfig : Type 0 where
  pub network : Network
  pub rpc_url : Option Text
  pub confirm_mainnet : Bool
  pub finality_timeout : ℕ

unfoldable pub for_network : Network → MatterConfig
for_network network = record {
  network = network;
  rpc_url = none;
  confirm_mainnet = false;
  finality_timeout = 120;
}

unfoldable pub for_url : Text → MatterConfig
unfolding for_network
for_url url = record (for_network custom) { rpc_url = some url }

unfoldable pub or_default : Network → Option Text → Result SdkError Text
or_default network (some url) = ok url
or_default network none =
    ok_or (default_rpc_url network)
      (config (codes "Network::Custom requires MatterConfig::rpc_url"))

unfoldable pub resolve_url : MatterConfig → Result SdkError Text
unfolding or_default default_rpc_url
resolve_url self = or_default self.network self.rpc_url

pub record ChainProperties : Type 0 where
  pub genesis_hash : Bytes
  pub chain_name : Text
  pub spec_version : ℕ
  pub token_symbol : Text
  pub ss58_prefix : ℕ
  pub token_decimals_declared : ℕ
  pub token_decimals_effective : ℕ
  pub existential_deposit : ℕ

unfoldable pub decimals_disagree : ChainProperties → Bool
decimals_disagree self = not (self.token_decimals_declared == self.token_decimals_effective)

unfoldable pub is_mainnet : HexCodec → ChainProperties → Bool × String
is_mainnet hex self =
    if text_eq (hex.encode self.genesis_hash) testnet_genesis
    then (false, "genesis-hash")
    else (text_eq self.token_symbol (codes "MTR"), "token-symbol")

-- The guards, of the detection, whether there is a signer, and the variable `MATTER_CONFIRM`.
unfoldable pub confirmed : MatterConfig → Option Text → Bool
confirmed settings none = settings.confirm_mainnet
confirmed settings (some v) = settings.confirm_mainnet || text_eq v (codes "yes")

unfoldable pub guards_for :
    Bool × String → MatterConfig → ChainProperties → Bool → Option Text → Result SdkError (Unit {0})
unfolding confirmed
guards_for (on_mainnet, detected_via) settings properties has_signer env =
    if is_testnet settings.network && on_mainnet
    then err (wrong_network "testnet" properties.chain_name)
    else if not on_mainnet || not has_signer
    then ok tt
    else if confirmed settings env
    then ok tt
    else err (mainnet_not_confirmed properties.chain_name detected_via)

unfoldable pub enforce_network_guards :
    HexCodec → MatterConfig → ChainProperties → Bool → Option Text → Result SdkError (Unit {0})
unfolding guards_for is_mainnet
enforce_network_guards hex settings properties has_signer env =
    guards_for (is_mainnet hex properties) settings properties has_signer env

-- The loop of `decimals_from_existential_deposit`, on fuel.
unfoldable pub strip_tens : ℕ → ℕ → ℕ → ℕ × ℕ
strip_tens zero value exponent = (value, exponent)
strip_tens (suc fuel) value exponent =
    let next = strip_tens fuel (value / 10) (exponent + 1) in
    if ltb 1 value && (value % 10 == 0) then next else (value, exponent)

-- `(exponent + ED_DECIMAL_OFFSET) as u8`.
unfoldable pub decimals_of : ℕ × ℕ → Option ℕ
decimals_of (value, exponent) = if value == 1 then some ((exponent + 3) % 256) else none

unfoldable pub decimals_from_existential_deposit : ℕ → Option ℕ
unfolding strip_tens decimals_of
decimals_from_existential_deposit ed = decimals_of (strip_tens ed ed 0)
