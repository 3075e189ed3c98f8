-- ===== src/Chain/Connect.antt =====
-- crates/matter-sdk/src/chain/mod.rs: connecting, from a configuration or from the environment.
pub mod Sound
pub mod Amounts
mod Tests
use matter_sdk.Common.{
  ℕ, ◌+◌, ◌%◌, ◌^◌, Bool, true, false, List, [], ◌∷◌, ◌++◌, Option, none, some, String, Text, codes,
  text_eq, trim, is_empty, if◌then◌else◌, Result, ok, err, ◌>>=◌, ◌>>◌, map_err, ok_or,
}
use matter_sdk.Core.Crypto.{Bytes}
use matter_sdk.Core.Wire.{HexCodec}
use matter_sdk.Error.{SdkError, chain, config, key}
use matter_sdk.Signer.{KeySigner, key_signer}
use matter_sdk.Key.ApiKey.{KeyRing, ApiKey, parse, sign}
use matter_sdk.Chain.Mode.{Mode, direct, Grant, resolve}
use matter_sdk.Chain.Network.{
  Network, testnet, mainnet, MatterConfig, for_network, resolve_url, ChainProperties,
  decimals_from_existential_deposit, enforce_network_guards,
}

-- `system_properties`, at the three entries that are read.
pub record SystemProperties : Type 0 where
  pub token_symbol : Option Text
  pub token_decimals : Option ℕ
  pub ss58_format : Option ℕ

-- What the chain library and the node answer while a client connects: an error is its text.
-- `lookup` is the grant of the key in `resolve`, `ss58` the decoding of an address.
pub record Endpoint : Type 0 where
  pub open_rpc : Text → Result Text (Unit {0})
  pub open_client : Text → Result Text (Unit {0})
  pub system_chain : Result Text Text
  pub system_properties : Result Text SystemProperties
  pub existential_deposit : Result Text (Option ℕ)
  pub genesis_hash : Bytes
  pub spec_version : ℕ
  pub lookup : Bytes → Result SdkError Grant
  pub ss58 : Text → Option Bytes

unfoldable pub rpc_error : Text → Text → SdkError
rpc_error target detail = chain target detail

unwrap_or : {A : Type 0} → Option A → A → A
unwrap_or none fallback = fallback
unwrap_or (some a) fallback = a

unfoldable pub read_existential_deposit : Endpoint → Result SdkError ℕ
read_existential_deposit node = do
  value ← map_err (chain (codes "Balances.ExistentialDeposit")) node.existential_deposit
  ok_or value
      (chain (codes "Balances.ExistentialDeposit") (codes "constant is not an unsigned integer"))

unfoldable pub read_properties : Endpoint → Result SdkError ChainProperties
unfolding rpc_error unwrap_or read_existential_deposit
read_properties node = do
  chain_name ← map_err (rpc_error (codes "system_chain")) node.system_chain
  props ← map_err (rpc_error (codes "system_properties")) node.system_properties
  let declared = unwrap_or props.token_decimals 0 % 2 ^ 8
  deposit ← read_existential_deposit node
  ok (record {
    genesis_hash = node.genesis_hash;
    chain_name = chain_name;
    spec_version = node.spec_version;
    token_symbol = unwrap_or props.token_symbol [];
    ss58_prefix = unwrap_or props.ss58_format 42 % 2 ^ 16;
    token_decimals_declared = declared;
    token_decimals_effective = unwrap_or (decimals_from_existential_deposit deposit) declared;
    existential_deposit = deposit;
  })

pub record MatterClient : Type 0 where
  pub signer : Option KeySigner
  pub properties : ChainProperties
  pub config : MatterConfig
  pub mode : Mode

unfoldable pub has_signer : Option KeySigner → Bool
has_signer none = false
has_signer (some s) = true

-- `std::env::var`, for the variables of the environment.
abbrev pub Environment : Type 0
Environment = String → Option Text

module _ (hex : HexCodec) (node : Endpoint) (env : Environment) where
  unfoldable pub resolved_mode : Option KeySigner → Result SdkError Mode
  resolved_mode none = ok direct
  resolved_mode (some s) = resolve hex node.ss58 (env "MATTER_PRINCIPAL") (node.lookup s.account_id)

  unfoldable pub build : MatterConfig → Option KeySigner → Result SdkError MatterClient
  unfolding rpc_error has_signer resolved_mode
  build settings signer = do
    url ← resolve_url settings
    map_err (rpc_error url) (node.open_rpc url)
    map_err (rpc_error url) (node.open_client url)
    properties ← read_properties node
    enforce_network_guards hex settings properties (has_signer signer) (env "MATTER_CONFIRM")
    mode ← resolved_mode signer
    ok (record { signer = signer; properties = properties; config = settings; mode = mode })

  unfoldable pub connect : MatterConfig → Result SdkError MatterClient
  unfolding build
  connect settings = build settings none

  module _ (ring : KeyRing) where
    unfoldable pub connect_with_api_key : MatterConfig → ApiKey ring → Result SdkError MatterClient
    unfolding build key_signer
    connect_with_api_key settings k = build settings (some (key_signer ring k))

    -- The arms on a variable, before what the later variables come to.
    unfoldable pub next_key :
        Option Text
        → Result SdkError (Option (ApiKey ring))
        → Result SdkError (Option (ApiKey ring))
    next_key none rest = rest
    next_key (some value) rest =
        if is_empty (trim value)
        then rest
        else (map_err key (parse ring value) >>= λ k. ok (some k))

    -- The loop over the names of the variables.
    unfoldable pub first_key : List String → Result SdkError (Option (ApiKey ring))
    unfolding next_key
    first_key [] = ok none
    first_key (var ∷ vars) = next_key (env var) (first_key vars)

    unfoldable pub env_api_key : Result SdkError (Option (ApiKey ring))
    unfolding first_key
    env_api_key = first_key ("MATTER_API_KEY" ∷ "MATTER_SIGNER_SEED" ∷ [])

    unfoldable pub env_network : Option Text → Result SdkError Network
    env_network none = ok testnet
    env_network (some name) =
        if text_eq name (codes "mainnet")
        then ok mainnet
        else if text_eq name (codes "testnet")
        then ok testnet
        else err (
            config
              (codes "MATTER_NETWORK must be `testnet` or `mainnet`, got `" ++ (name ++ codes "`")))

    unfoldable pub with_url : MatterConfig → Option Text → MatterConfig
    with_url settings none = settings
    with_url settings (some url) = record settings { rpc_url = some url }

    unfoldable pub connect_by : MatterConfig → Option (ApiKey ring) → Result SdkError MatterClient
    unfolding connect connect_with_api_key
    connect_by settings (some k) = connect_with_api_key settings k
    connect_by settings none = connect settings

    unfoldable pub from_env : Result SdkError MatterClient
    unfolding env_network with_url env_api_key connect_by
    from_env = do
      network ← env_network (env "MATTER_NETWORK")
      found ← env_api_key
      connect_by (with_url (for_network network) (env "MATTER_RPC_URL")) found
