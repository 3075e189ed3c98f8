-- ===== src/Chain/Facade/Needs.antt =====
-- What a delegated key has to hold for a typed call, and which typed calls it never makes.
use matter_sdk.Common.{
  ap, ◌≡◌, refl, ◌∙◌, Bool, true, false, not, List, [], ◌∷◌, Option, none, some, String, Result, ok,
  err, ◌>>=◌, if◌then◌else◌,
}
use matter_sdk.Core.Crypto.{Bytes}
use matter_sdk.Error.{SdkError, not_permitted, never_admitted}
use matter_sdk.Signer.{KeySigner}
use matter_sdk.Key.Scopes.{
  deployments, secrets, networking, resources, organization, billing, ScopeSet, is_superset,
}
use matter_sdk.Chain.Value.{Value, DynamicPayload}
use matter_sdk.Chain.Mode.{delegated}
use matter_sdk.Chain.ScopesTable.{write_of, deploy_with_secret, required_scopes, arg, one_of}
use matter_sdk.Chain.Client.{
  Subxt, Answers, proxy_payload, permit, build_payload, signed_call, send, tx,
}
use matter_sdk.Chain.Facade.{
  SecretsCall, store, rotate, grant_to_user, grant_to_deployment, grant, revoke, delete,
  DeploymentsCall, request, cancel, set_secret_ref, set_env, register_wg_peer, ResourcesCall,
  register, update_sku, report_capacity, set_privacy, allow, disallow, StakingCall, bond,
  bond_extra, unbond, withdraw_unbonded, nominate, chill, claim_pool_payout, join_pool, OrgsCall,
  create, add_member, remove_member, allot, authorize_secrets_agent, revoke_secrets_agent, KeysCall,
  authorize, revoke_key, FacadeCall, facade_call, facade_tx,
}
use matter_sdk.Chain.Facade.References.{
  write_scope, deploy_naming_secret, names_secret, references-names,
}
use matter_sdk.Chain.Facade as F

deployments_need : DeploymentsCall → Option ScopeSet
deployments_need (request r) =
    some (if names_secret r then deploy_naming_secret else write_scope deployments)
deployments_need (cancel d) = some (write_scope deployments)
deployments_need (set_secret_ref d none) = some (write_scope deployments)
deployments_need (set_secret_ref d (some secret)) = some deploy_naming_secret
deployments_need (set_env d env) = some (write_scope deployments)
deployments_need (register_wg_peer d pubkey pq) = some (write_scope networking)

resources_need : ResourcesCall → Option ScopeSet
resources_need (register r proof name) = some (write_scope resources)
resources_need (update_sku uuid sku) = none
resources_need (report_capacity capacity) = none
resources_need (set_privacy r private) = some (write_scope resources)
resources_need (allow r who) = some (write_scope resources)
resources_need (disallow r who) = some (write_scope resources)

orgs_need : OrgsCall → Option ScopeSet
orgs_need create = none
orgs_need (add_member org who role) = some (write_scope organization)
orgs_need (remove_member org who) = some (write_scope organization)
orgs_need (allot org project amount) = some (write_scope billing)
orgs_need (authorize_secrets_agent org project who) = none
orgs_need (revoke_secrets_agent org project who) = none

-- The scopes that a typed call needs; `none` is a call that no key makes for a member.
unfoldable pub needs : FacadeCall → Option ScopeSet
unfolding deployments_need resources_need orgs_need
needs (F.secrets c) = some (write_scope secrets)
needs (F.deployments c) = deployments_need c
needs (F.resources c) = resources_need c
needs (F.staking c) = none
needs (F.orgs c) = orgs_need c
needs (F.keys c) = none

module _ (x : Subxt) where
  -- What the table requires of a typed call.
  required : FacadeCall → Option ScopeSet
  required c =
      required_scopes (facade_call x c).pallet (facade_call x c).call (facade_call x c).args

  -- It requires so much, and wraps no other call.
  Needed : FacadeCall → Option ScopeSet → Type 0
  Needed c wanted =
      (required c ≡ wanted)
      × (one_of (facade_call x c).pallet ("Proxy" ∷ "Utility" ∷ "EthSigning" ∷ []) ≡ false)

  secrets_needs : (c : SecretsCall) → Needed (F.secrets c) (some (write_scope secrets))
  unfolding Needed one_of required facade_call required_scopes write_of deploy_with_secret
  secrets_needs (store args) = (refl, refl)
  secrets_needs (rotate id payload epoch aad) = (refl, refl)
  secrets_needs (grant_to_user id who) = (refl, refl)
  secrets_needs (grant_to_deployment id d) = (refl, refl)
  secrets_needs (grant id target) = (refl, refl)
  secrets_needs (revoke id target) = (refl, refl)
  secrets_needs (delete id) = (refl, refl)

  deployments_needs : (c : DeploymentsCall) → Needed (F.deployments c) (deployments_need c)
  unfolding Needed one_of required facade_call required_scopes write_of deploy_with_secret
      deployments_need arg
  deployments_needs (request r) = (
    ap (λ b. some (if b then deploy_naming_secret else write_scope deployments))
        (references-names r),
    refl,
  )
  deployments_needs (cancel d) = (refl, refl)
  deployments_needs (set_secret_ref d none) = (refl, refl)
  deployments_needs (set_secret_ref d (some secret)) = (refl, refl)
  deployments_needs (set_env d env) = (refl, refl)
  deployments_needs (register_wg_peer d pubkey pq) = (refl, refl)

  resources_needs : (c : ResourcesCall) → Needed (F.resources c) (resources_need c)
  unfolding Needed one_of required facade_call required_scopes write_of resources_need
  resources_needs (register r proof name) = (refl, refl)
  resources_needs (update_sku uuid sku) = (refl, refl)
  resources_needs (report_capacity capacity) = (refl, refl)
  resources_needs (set_privacy r private) = (refl, refl)
  resources_needs (allow r who) = (refl, refl)
  resources_needs (disallow r who) = (refl, refl)

  staking_needs : (c : StakingCall) → Needed (F.staking c) none
  unfolding Needed one_of required facade_call required_scopes write_of deploy_with_secret
  staking_needs (bond value payee) = (refl, refl)
  staking_needs (bond_extra value) = (refl, refl)
  staking_needs (unbond value) = (refl, refl)
  staking_needs (withdraw_unbonded spans) = (refl, refl)
  staking_needs (nominate targets) = (refl, refl)
  staking_needs chill = (refl, refl)
  staking_needs claim_pool_payout = (refl, refl)
  staking_needs (join_pool amount pool) = (refl, refl)

  orgs_needs : (c : OrgsCall) → Needed (F.orgs c) (orgs_need c)
  unfolding Needed one_of required facade_call required_scopes write_of orgs_need
  orgs_needs create = (refl, refl)
  orgs_needs (add_member org who role) = (refl, refl)
  orgs_needs (remove_member org who) = (refl, refl)
  orgs_needs (allot org project amount) = (refl, refl)
  orgs_needs (authorize_secrets_agent org project who) = (refl, refl)
  orgs_needs (revoke_secrets_agent org project who) = (refl, refl)

  keys_needs : (c : KeysCall) → Needed (F.keys c) none
  unfolding Needed one_of required facade_call required_scopes write_of deploy_with_secret
  keys_needs (authorize key scopes) = (refl, refl)
  keys_needs (revoke_key key) = (refl, refl)

  facade_needs : (c : FacadeCall) → Needed c (needs c)
  unfolding needs
  facade_needs (F.secrets c) = secrets_needs c
  facade_needs (F.deployments c) = deployments_needs c
  facade_needs (F.resources c) = resources_needs c
  facade_needs (F.staking c) = staking_needs c
  facade_needs (F.orgs c) = orgs_needs c
  facade_needs (F.keys c) = keys_needs c

  -- The payload that a typed call of a delegated key comes to.
  unfoldable pub verdict :
      Bytes → ScopeSet → FacadeCall → Option ScopeSet → Result SdkError DynamicPayload
  verdict principal held c none =
      err (never_admitted (facade_call x c).pallet (facade_call x c).call)
  verdict principal held c (some wanted) =
      if is_superset held wanted
      then ok (
          proxy_payload x principal (facade_call x c).pallet (facade_call x c).call
            (facade_call x c).args)
      else err (not_permitted (facade_call x c).pallet (facade_call x c).call wanted held)

  permitted :
      (b : Bool) (e : SdkError) (p : DynamicPayload)
      → ◌>>=◌ {A = Unit {0}} (if not b then err e else ok tt) (λ _. ok p)
        ≡ (if b then ok p else err e)
  permitted true e p = refl
  permitted false e p = refl

  permit-verdict :
      (principal : Bytes) (held : ScopeSet) (c : FacadeCall) (wanted : Option ScopeSet)
      → (permit x held (facade_call x c).pallet (facade_call x c).call wanted >>= λ _. ok (
          proxy_payload x principal
            (facade_call x c).pallet
            (facade_call x c).call
            (facade_call x c).args))
        ≡ verdict principal held c wanted
  unfolding permit verdict
  permit-verdict principal held c none = refl
  permit-verdict principal held c (some wanted) = permitted (is_superset held wanted) _ _

  judged :
      (principal : Bytes) (held : ScopeSet) (c : FacadeCall) (wanted : Option ScopeSet)
      → Needed c wanted
      → build_payload x
          (delegated principal held)
          (facade_call x c).pallet
          (facade_call x c).call
          (facade_call x c).args
        ≡ verdict principal held c wanted
  unfolding build_payload Needed required
  judged principal held c wanted (same, plain) =
      rw (plain, same) (permit-verdict principal held c wanted)

  -- A typed call of a key that acts for a member is submitted, wrapped in `Proxy.proxy` for that
  -- member, exactly if the key holds what the call needs: `secrets:write` for the calls on
  -- secrets; `deployments:write` for those on deployments, with `secrets:read` where the call
  -- names a secret, as a request does unless it gives both its references as `None`; `networking:write` for a peer; `resources:write`, `organization:write` and
  -- `billing:write` for those on resources, members and allotments. Staking, the minting of keys,
  -- secrets agents, a new organization, prices and reports of capacity are refused to every key.
  pub facade_verdict :
      (principal : Bytes) (held : ScopeSet) (c : FacadeCall)
      → build_payload x
          (delegated principal held)
          (facade_call x c).pallet
          (facade_call x c).call
          (facade_call x c).args
        ≡ verdict principal held c (needs c)
  facade_verdict principal held c = judged principal held c (needs c) (facade_needs c)

  refused_tx :
      (principal : Bytes) (held : ScopeSet) (signer : KeySigner) (answers : Answers x)
      (pallet call : String) (args : List Value) {e : SdkError}
      → build_payload x (delegated principal held) pallet call args ≡ err e
      → tx x (delegated principal held) (some signer) answers pallet call args
        ≡ (err e, delegated principal held)
  unfolding tx signed_call send
  refused_tx principal held signer answers pallet call args h = rw h refl

  -- A typed call that a delegated key may not make returns the error, `NeverAdmitted` or
  -- `NotPermitted`, and leaves the client as it was, whatever the network would answer.
  pub facade_refused :
      (principal : Bytes) (held : ScopeSet) (signer : KeySigner) (answers : Answers x)
      (c : FacadeCall) {e : SdkError}
      → verdict principal held c (needs c) ≡ err e
      → facade_tx x (delegated principal held) (some signer) answers c
        ≡ (err e, delegated principal held)
  unfolding facade_tx
  facade_refused principal held signer answers c h =
      refused_tx principal held signer answers (facade_call x c).pallet (facade_call x c).call
        (facade_call x c).args (facade_verdict principal held c ∙ h)
