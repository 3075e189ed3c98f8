-- ===== src/Chain/Connect/Sound.antt =====
-- What a connected client is: its mode, and the guards that it passed.
use matter_sdk.Common.{
  ◌≡◌, ◌⊎◌, refl, subst, ◌∙◌, Bool, true, false, Option, none, some, Text, trim, is_empty, Result,
  ok, >>=-eq-ok, map_err, arith,
}
use matter_sdk.Core.Wire.{HexCodec}
use matter_sdk.Error.{SdkError}
use matter_sdk.Signer.{KeySigner}
use matter_sdk.Key.ApiKey.{KeyRing, ApiKey}
use matter_sdk.Chain.Mode.{Mode, direct, resolve}
use matter_sdk.Chain.Network.{
  is_testnet, MatterConfig, for_network, resolve_url, enforce_network_guards, is_mainnet, confirmed,
}
use matter_sdk.Chain.Network.Guards.{enforce_network_guards_iff}
use matter_sdk.Chain.Connect.{
  Endpoint, Environment, MatterClient, rpc_error, read_properties, has_signer, resolved_mode, build,
  connect, next_key, first_key, env_api_key, env_network, with_url, connect_by, from_env,
}

module _ (hex : HexCodec) (node : Endpoint) (env : Environment) where
  -- What `build` promises of the client that it returns.
  unfoldable pub Connected : MatterConfig → Option KeySigner → MatterClient → Type 0
  Connected settings signer client =
      (client.config ≡ settings)
      × (client.signer ≡ signer)
      × (read_properties node ≡ ok client.properties)
      × (enforce_network_guards hex settings client.properties (has_signer signer)
            (env "MATTER_CONFIRM")
          ≡ ok tt)
      × (resolved_mode hex node env signer ≡ ok client.mode)

  made_of :
      (settings : MatterConfig) (signer : Option KeySigner) (made client : MatterClient)
      → Connected settings signer made
      → ◌≡◌ {A = Result SdkError MatterClient} (ok made) (ok client)
      → Connected settings signer client
  made_of settings signer made client held h =
      let same : made ≡ client = ground arith in subst (Connected settings signer) same held

  build-Connected :
      (settings : MatterConfig) (signer : Option KeySigner) (client : MatterClient)
      → build hex node env settings signer ≡ ok client
      → Connected settings signer client
  unfolding build Connected
  build-Connected settings signer client h =
      let (url, _, h₁) = >>=-eq-ok (resolve_url settings) _ h in
      let (_, _, h₂) = >>=-eq-ok (map_err (rpc_error url) (node.open_rpc url)) _ h₁ in
      let (_, _, h₃) = >>=-eq-ok (map_err (rpc_error url) (node.open_client url)) _ h₂ in
      let (properties, are_read, h₄) = >>=-eq-ok (read_properties node) _ h₃ in
      let (_, guarded, h₅) =
        >>=-eq-ok
          (enforce_network_guards hex settings properties (has_signer signer)
            (env "MATTER_CONFIRM"))
          _ h₄ in
      let (mode, resolved, made) = >>=-eq-ok (resolved_mode hex node env signer) _ h₅ in
      unfold Connected in
      made_of settings signer
        (record { signer = signer; properties = properties; config = settings; mode = mode }) client
        (refl, refl, are_read, guarded, resolved) made

  read_only_mode : {m : Mode} → resolved_mode hex node env none ≡ ok m → m ≡ direct
  unfolding resolved_mode
  read_only_mode h = ground arith

  -- A client that connects without a key acts as itself.
  connect_direct :
      (settings : MatterConfig) (client : MatterClient)
      → connect hex node env settings ≡ ok client
      → (client.signer ≡ none) × (client.mode ≡ direct)
  unfolding connect Connected
  connect_direct settings client h =
      let (_, unsigned, _, _, resolved) = build-Connected settings none client h in
      (unsigned, read_only_mode resolved)

  -- A client that connects with a signer has that signer, the configuration and the properties
  -- that the chain reports; its mode is the one that the grant of the signer's account and the
  -- variable `MATTER_PRINCIPAL` resolve to. If its chain is detected as mainnet, the configured
  -- network is not the testnet, and spending real funds is confirmed, by the configuration or by
  -- the environment.
  pub build_sound :
      (settings : MatterConfig) (s : KeySigner) {client : MatterClient}
      → build hex node env settings (some s) ≡ ok client
      → (client.config ≡ settings)
        × (client.signer ≡ some s)
        × (read_properties node ≡ ok client.properties)
        × (resolve hex node.ss58 (env "MATTER_PRINCIPAL") (node.lookup s.account_id)
            ≡ ok client.mode)
        × (((is_mainnet hex client.properties).0 ≡ false)
            ⊎ ((is_testnet settings.network ≡ false)
                × (confirmed settings (env "MATTER_CONFIRM") ≡ true)))
  unfolding Connected has_signer resolved_mode
  build_sound settings s {client} h =
      let (same_config, same_signer, are_read, guarded, resolved) =
        build-Connected settings (some s) client h in
      let allowed =
        (enforce_network_guards_iff hex settings client.properties true (env "MATTER_CONFIRM")).0
          guarded in
      (same_config, same_signer, are_read, resolved, ground (arith, allowed))

  module _ (ring : KeyRing) where
    -- A variable that is not set, or holds white space.
    unfoldable pub blank : Option Text → Bool
    blank none = true
    blank (some value) = is_empty (trim value)

    skipped :
        (value : Option Text) (rest : Result SdkError (Option (ApiKey ring)))
        → blank value ≡ true
        → next_key hex node env ring value rest ≡ rest
    unfolding next_key blank
    skipped none rest h = refl
    skipped (some value) rest h = rw h refl

    no_key :
        blank (env "MATTER_API_KEY") ≡ true
        → blank (env "MATTER_SIGNER_SEED") ≡ true
        → env_api_key hex node env ring ≡ ok none
    unfolding env_api_key first_key
    no_key first second =
        skipped (env "MATTER_API_KEY")
          (next_key hex node env ring (env "MATTER_SIGNER_SEED") (ok none)) first
        ∙ skipped (env "MATTER_SIGNER_SEED") (ok none) second

    -- With no key in the environment, the client is read-only: it has no signer, and acts as
    -- itself.
    pub from_env_read_only :
        {client : MatterClient}
        → blank (env "MATTER_API_KEY") ≡ true
        → blank (env "MATTER_SIGNER_SEED") ≡ true
        → from_env hex node env ring ≡ ok client
        → (client.signer ≡ none) × (client.mode ≡ direct)
    unfolding from_env connect_by
    from_env_read_only {client} first second h =
        let (network, _, h₁) =
          >>=-eq-ok (env_network hex node env ring (env "MATTER_NETWORK")) _ h in
        let (found, looked, h₂) = >>=-eq-ok (env_api_key hex node env ring) _ h₁ in
        let settings = with_url hex node env ring (for_network network) (env "MATTER_RPC_URL") in
        let nothing : found ≡ none = ground (arith, no_key first second) in
        connect_direct settings client
          (subst (λ f. connect_by hex node env ring settings f ≡ ok client) nothing h₂)
