-- ===== src/Chain/Connect/Tests.antt =====
-- A node of the testnet, and a client that connects to it with a key that acts for a member.
use matter_sdk.Common.{◌≡◌, ◌+◌, ◌^◌, arith, ◌⊎◌, refl, true, false, [], ◌∷◌, none, some, codes, ok}
use matter_sdk.Fixtures.{hex, key_signer}
use matter_sdk.Key.Scopes.{full}
use matter_sdk.Chain.Mode.{delegated, resolve}
use matter_sdk.Chain.Network.{
  mainnet, is_testnet, MatterConfig, resolve_url, enforce_network_guards, ChainProperties,
  is_mainnet, confirmed, decimals_from_existential_deposit,
}
use matter_sdk.Chain.Connect.{Endpoint, Environment, MatterClient, read_properties, build}
use matter_sdk.Chain.Connect.Sound.{build_sound}
use matter_sdk.Chain.Connect.Amounts.{connected_amounts}
use matter_sdk.Chain.Access.{parse_amount, format_amount, one_token}

abbrev node : Endpoint
node = record {
  open_rpc = λ url. ok tt;
  open_client = λ url. ok tt;
  system_chain = ok (codes "OpenMatter");
  system_properties =
      ok (record {
        token_symbol = some (codes "MTR");
        token_decimals = some 12;
        ss58_format = none;
      });
  existential_deposit = ok (some 1000);
  genesis_hash = 1 ∷ 2 ∷ [];
  spec_version = 322;
  lookup = λ account. ok (some (7 ∷ [], full));
  ss58 = λ address. none;
}

abbrev env : Environment
env name = none

abbrev settings : MatterConfig
settings = record {
  network = mainnet;
  rpc_url = none;
  confirm_mainnet = true;
  finality_timeout = 120;
}

abbrev properties : ChainProperties
properties = record {
  genesis_hash = 1 ∷ 2 ∷ [];
  chain_name = codes "OpenMatter";
  spec_version = 322;
  token_symbol = codes "MTR";
  ss58_prefix = 42;
  token_decimals_declared = 12;
  token_decimals_effective = 6;
  existential_deposit = 1000;
}

abbrev client : MatterClient
client = record {
  signer = some key_signer;
  properties = properties;
  config = settings;
  mode = delegated (7 ∷ []) full;
}

connects : build hex node env settings (some key_signer) ≡ ok client
unfolding build read_properties hex resolve_url enforce_network_guards is_testnet resolve
    decimals_from_existential_deposit
connects = refl

build_sound_example :
    (client.config ≡ settings)
    × (client.signer ≡ some key_signer)
    × (read_properties node ≡ ok client.properties)
    × (resolve hex node.ss58 (env "MATTER_PRINCIPAL") (node.lookup key_signer.account_id)
        ≡ ok client.mode)
    × (((is_mainnet hex client.properties).0 ≡ false)
        ⊎ ((is_testnet settings.network ≡ false)
            × (confirmed settings (env "MATTER_CONFIRM") ≡ true)))
build_sound_example = build_sound hex node env settings key_signer connects

connected_amounts_example :
    (parse_amount client (format_amount client 1234567) ≡ ok 1234567)
    × (one_token client ≡ 10 ^ (3 + 3))
connected_amounts_example =
    connected_amounts hex node env settings key_signer client 3 1234567 connects refl (omega arith)
      (omega arith)
