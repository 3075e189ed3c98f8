-- ===== src/Chain/Network/Guards.antt =====
-- crates/matter-sdk/src/chain/mod.rs: what a client that passes the guards may be.
use matter_sdk.Common.{
  ◌≢◌, inl, inr, none, some, codes, text_eq, Bool-cases, ◌≡◌, ◌↔◌, ◌⊎◌, Bool, true, false, Option,
  Text, String, arith, ok,
}
use matter_sdk.Core.Wire.{HexCodec}
use matter_sdk.Chain.Mode.Laws.{text_eq_iff}
use matter_sdk.Chain.Network.{
  Network, testnet, mainnet, custom, testnet_genesis, is_testnet, MatterConfig, ChainProperties,
  is_mainnet, confirmed, guards_for, enforce_network_guards,
}

guards_for_iff :
    (detected : Bool × String) (config : MatterConfig) (properties : ChainProperties)
    (has_signer : Bool) (env : Option Text)
    → (guards_for detected config properties has_signer env ≡ ok tt) ↔ (
        (detected.0 ≡ false)
        ⊎ ((is_testnet config.network ≡ false)
            × ((has_signer ≡ false) ⊎ (confirmed config env ≡ true))))
unfolding guards_for
guards_for_iff (on_mainnet, via) config properties has_signer env = ground arith

-- A client passes the guards exactly if the endpoint is not detected as mainnet, or the network of
-- the configuration is not the testnet and either there is no signer, or spending real funds is
-- confirmed, by the configuration or the environment.
pub enforce_network_guards_iff :
    (hex : HexCodec) (config : MatterConfig) (properties : ChainProperties) (has_signer : Bool)
    (env : Option Text)
    → (enforce_network_guards hex config properties has_signer env ≡ ok tt) ↔ (
        ((is_mainnet hex properties).0 ≡ false)
        ⊎ ((is_testnet config.network ≡ false)
            × ((has_signer ≡ false) ⊎ (confirmed config env ≡ true))))
unfolding enforce_network_guards
enforce_network_guards_iff hex config properties has_signer env =
    guards_for_iff (is_mainnet hex properties) config properties has_signer env

confirmed_iff :
    (settings : MatterConfig) (env : Option Text)
    → (confirmed settings env ≡ true)
      ↔ ((settings.confirm_mainnet ≡ true) ⊎ (env ≡ some (codes "yes")))
unfolding confirmed
confirmed_iff settings none = ground arith
confirmed_iff settings (some v) = ground (arith, text_eq_iff v (codes "yes"))

is_testnet_iff : (n : Network) → (is_testnet n ≡ false) ↔ (n ≢ testnet)
unfolding is_testnet
is_testnet_iff testnet = ground arith
is_testnet_iff mainnet = ground arith
is_testnet_iff custom = ground arith

detected_mainnet :
    (hex : HexCodec) (properties : ChainProperties)
    → hex.encode properties.genesis_hash
      ≢ codes "d87ca10ad40194ff37525c0b5fc5997d94010107a399d03bf5672c0a7b30f058"
    → properties.token_symbol ≡ codes "MTR"
    → (is_mainnet hex properties).0 ≡ true
unfolding is_mainnet
detected_mainnet hex properties other symbol =
    let elsewhere : text_eq (hex.encode properties.genesis_hash) testnet_genesis ≡ false =
      elim (Bool-cases (text_eq (hex.encode properties.genesis_hash) testnet_genesis)) [
        | inl same ↦ absurd (other ((text_eq_iff _ _).0 same))
        | inr differs ↦ differs
      ] in
    rw elsewhere ((text_eq_iff properties.token_symbol (codes "MTR")).1 symbol)

-- On a chain whose genesis hash is not the testnet's and whose token is MTR, a client with a signer
-- passes the guards exactly if it is not configured for the testnet, and spending real funds is
-- confirmed: by the configuration, or by the value `yes` of `MATTER_CONFIRM`.
pub mainnet_signer_iff :
    (hex : HexCodec) (settings : MatterConfig) (properties : ChainProperties) (env : Option Text)
    → hex.encode properties.genesis_hash
      ≢ codes "d87ca10ad40194ff37525c0b5fc5997d94010107a399d03bf5672c0a7b30f058"
    → properties.token_symbol ≡ codes "MTR"
    → (enforce_network_guards hex settings properties true env ≡ ok tt) ↔ (
        (settings.network ≢ testnet)
        × ((settings.confirm_mainnet ≡ true) ⊎ (env ≡ some (codes "yes"))))
mainnet_signer_iff hex settings properties env other symbol =
    let on_mainnet = detected_mainnet hex properties other symbol in
    let (passed, passes) = enforce_network_guards_iff hex settings properties true env in
    (
      λ h. elim (passed h) [
        | inl off ↦ absurd (ground (arith, on_mainnet, off))
        | inr (away, either) ↦ elim either [
          | inl unsigned ↦ absurd (ground (arith, unsigned))
          | inr sure ↦
              ((is_testnet_iff settings.network).0 away, (confirmed_iff settings env).0 sure)
        ]
      ],
      λ (away, sure). passes (
          inr
            ((is_testnet_iff settings.network).1 away, inr ((confirmed_iff settings env).1 sure))),
    )
