-- ===== src/Chain/Tests.antt =====
-- Examples of the chain layer: amounts, a delegated key, a mainnet endpoint.
use matter_sdk.Common.{
  Option, ℕ, ◌-◌, ◌*◌, ◌^◌, ◌≤◌, ◌≡◌, ◌≢◌, ◌↔◌, ◌⊎◌, refl, true, false, List, [], ◌∷◌, ◌++◌, none,
  some, Text, codes, length, is_empty, trim, arith, ok,
}
use matter_sdk.Common.Decimal.{AllDigits, value, max_u128, parse_u128}
use matter_sdk.Core.Crypto.{Bytes}
use matter_sdk.Key.Scopes.{
  Scope, Access, write, ScopeSet, contains, full, bit, position, is_superset, single,
}
use matter_sdk.Fixtures.{hex, key_signer}
use matter_sdk.Chain.Amount.{parse_amount, format_amount}
use matter_sdk.Chain.Amount.RoundTrip.{parse_amount-format_amount}
use matter_sdk.Chain.Amount.Body.{written}
use matter_sdk.Chain.Amount.Sound.{unsigned_body, parse_amount_sound}
use matter_sdk.Chain.Value.{variant, unnamed, none_left, number}
use matter_sdk.Chain.ScopesTable.{required_scopes, one_of}
use matter_sdk.Chain.ScopesTable.Laws.{demanding, demanding-required_scopes}
use matter_sdk.Chain.Mode.{resolve, principal_override, delegated, principal}
use matter_sdk.Chain.Mode.Lookup.{
  RuntimeApi, declares, has_runtime_api, supports_agent_keys, ask_chain, lookup,
}
use matter_sdk.Chain.Network.{
  for_network, testnet, mainnet, ChainProperties, enforce_network_guards,
  decimals_from_existential_deposit,
}
use matter_sdk.Chain.Network.Guards.{mainnet_signer_iff}
use matter_sdk.Chain.Network.Decimals.{decimals_from_existential_deposit_iff}
use matter_sdk.Chain.Client.{
  Subxt, rejected, Event, Answers, InBlock, in_block, proxy_payload, build_payload, permit, tx,
}
use matter_sdk.Chain.Client.Payload.{build_payload_sound}
use matter_sdk.Chain.Client.Refreshing.{principal-tx}

parse_amount-format_amount_example : parse_amount (format_amount 1500000000 9) 9 ≡ ok 1500000000
parse_amount-format_amount_example =
    parse_amount-format_amount 1500000000 9 (omega arith) (omega arith)

demanding-required_scopes_example : demanding (required_scopes "Secrets" "store_secret" []) ≡ true
demanding-required_scopes_example = demanding-required_scopes "Secrets" "store_secret" []

abbrev member : Bytes
member = 7 ∷ 7 ∷ []

-- A runtime whose answer to a key is its registration.
agent_keys : RuntimeApi
agent_keys = record {
  Thunk = Option (Bytes × ℕ);
  runtime_api_trait_by_name = λ t. some (λ method. true);
  from_bytes = λ key. number (length key);
  at_latest = ok (λ t method args. ok (some (member, 16)));
  as_type = λ thunk. ok thunk;
}

-- The key of that registration reads secrets for the member.
registered :
    resolve hex (λ t. none) none (lookup agent_keys (1 ∷ []))
    ≡ ok (delegated member (record { bits = 16 }))
unfolding resolve principal_override lookup supports_agent_keys has_runtime_api declares ask_chain
    agent_keys
registered = refl

properties : ChainProperties
properties = record {
  genesis_hash = 1 ∷ [];
  chain_name = codes "MatterChain";
  spec_version = 330;
  token_symbol = codes "MTR";
  ss58_prefix = 42;
  token_decimals_declared = 9;
  token_decimals_effective = 9;
  existential_deposit = 1000000;
}

mainnet_signer_iff_example :
    (enforce_network_guards hex (for_network mainnet) properties true (some (codes "yes")) ≡ ok tt)
    ↔ (((for_network mainnet).network ≢ testnet)
        × (((for_network mainnet).confirm_mainnet ≡ true)
            ⊎ (◌≡◌ {A = Option Text} (some (codes "yes")) (some (codes "yes")))))
unfolding hex properties
mainnet_signer_iff_example =
    mainnet_signer_iff hex (for_network mainnet) properties (some (codes "yes"))
      (λ same. absurd (ground (arith, same))) refl

decimals_from_existential_deposit_iff_example :
    (decimals_from_existential_deposit 1000000 ≡ some 9) ↔ ((3 ≤ 9) × (1000000 ≡ 10 ^ (9 - 3)))
decimals_from_existential_deposit_iff_example =
    decimals_from_existential_deposit_iff 1000000 9 (omega arith)

-- A chain library whose failures are texts.
unfoldable subxt : Subxt
subxt = record {
  Failure = Text;
  show_failure = λ e. e;
  is_not_proxy = λ e. false;
  show_account = λ a. a;
  from_bytes = λ b. number (length b);
  into_value = λ p. variant p.call (unnamed none_left);
  signer_payload = λ p. codes p.call;
  decode_dispatch_error = λ b. ok b;
}

volume_call :
    build_payload subxt (delegated member full) "Volumes" "create_volume" []
    ≡ ok (proxy_payload subxt member "Volumes" "create_volume" [])
unfolding build_payload one_of permit required_scopes is_superset full single bit position
volume_call = refl

build_payload_sound_example :
    (proxy_payload subxt member "Volumes" "create_volume" []
      ≡ proxy_payload subxt member "Volumes" "create_volume" [])
    × (one_of "Volumes" ("Proxy" ∷ "Utility" ∷ "EthSigning" ∷ []) ≡ false)
    × ((required : ScopeSet) × (required_scopes "Volumes" "create_volume" [] ≡ some required)
        × ((sc : Scope) (ac : Access)
            → contains required sc ac ≡ true
            → contains full sc ac ≡ true))
build_payload_sound_example =
    build_payload_sound subxt member full "Volumes" "create_volume" [] volume_call

-- A set that only reads secrets.
reads_only : (sc : Scope) → contains (record { bits = 16 }) sc write ≡ false
unfolding contains bit position
reads_only sc = ground arith

block : InBlock subxt
unfolding subxt
block = record {
  tx_hash = 1 ∷ [];
  block_hash = 2 ∷ [];
  success = ok (record { pallet = "Proxy"; name = "ProxyExecuted"; field_bytes = 0 ∷ [] } ∷ []);
}

answers : Answers subxt
unfolding subxt block
answers = record {
  nonce = ok tt;
  submit = λ payload signature. in_block block;
  grant = ok none;
  waited = 120;
}

principal-tx_example :
    principal
      (tx subxt (delegated member full) (some key_signer) answers "Volumes" "create_volume" []).1
    ≡ some member
unfolding principal
principal-tx_example =
    principal-tx subxt (delegated member full) (some key_signer) answers "Volumes" "create_volume"
      []

refusal : subxt.Failure
unfolding subxt
refusal = codes "1010"

-- The pool refuses, and the chain knows the key as another member's.
refusing : Answers subxt
unfolding subxt refusal
refusing = record {
  nonce = ok tt;
  submit = λ payload signature. rejected refusal;
  grant = lookup agent_keys (1 ∷ []);
  waited = 120;
}

events : List Event
events = record { pallet = "Proxy"; name = "ProxyExecuted"; field_bytes = 0 ∷ [] } ∷ []

parsed : parse_amount (codes "1.5") 3 ≡ ok 1500
unfolding parse_amount trim parse_u128
parsed = refl

parse_amount_sound_example :
    (w : Text) × (f : Text) × (unsigned_body (codes "1.5") ≡ written w f)
    × AllDigits w
    × AllDigits f
    × (is_empty w ≡ false)
    × (length f ≤ 3)
    × (3 ≤ 38)
    × (1500 ≡ value 0 (w ++ f) * 10 ^ (3 - length f))
    × (1500 ≤ max_u128)
parse_amount_sound_example = parse_amount_sound (codes "1.5") 3 1500 parsed
