-- ===== src/Chain/Facade.antt =====
-- crates/matter-sdk/src/chain/facade.rs: the typed calls. Each is a constructor, with its typed
-- arguments, of the data type of its facade; a text argument is given as its bytes.
pub mod References
pub mod Needs
mod Tests
use matter_sdk.Common.{ℕ, Bool, List, [], ◌∷◌, Option, none, some, String, Result}
use matter_sdk.Core.Aad.{Aad, as_bytes}
use matter_sdk.Core.Crypto.{Bytes}
use matter_sdk.Core.Seal.{EncryptedSecret}
use matter_sdk.Error.{SdkError}
use matter_sdk.Key.Scheme.{AccountId}
use matter_sdk.Key.Scopes.{ScopeSet}
use matter_sdk.Signer.{KeySigner}
use matter_sdk.Chain.Value.{
  Value, composite, variant, number, boolean, Composite, named, unnamed, end, field, Values,
  none_left, item, DynamicPayload,
}
use matter_sdk.Chain.Mode.{Mode}
use matter_sdk.Chain.Calls.{StoreSecret, GrantTarget, user, deployment}
use matter_sdk.Chain.Client.{Subxt, Answers, TxReceipt, dynamic_tx, build_payload, tx}

pub data SecretsCall : Type 0 where
  store : StoreSecret → SecretsCall
  rotate : ℕ → EncryptedSecret → ℕ → Aad → SecretsCall
  grant_to_user : ℕ → AccountId → SecretsCall
  grant_to_deployment : ℕ → ℕ → SecretsCall
  grant revoke : ℕ → GrantTarget → SecretsCall
  delete : ℕ → SecretsCall

pub data DeploymentsCall : Type 0 where
  request : Value → DeploymentsCall
  cancel : ℕ → DeploymentsCall
  set_secret_ref : ℕ → Option ℕ → DeploymentsCall
  set_env : ℕ → Option Value → DeploymentsCall
  register_wg_peer : ℕ → Bytes → Bytes → DeploymentsCall

pub data ResourcesCall : Type 0 where
  register : AccountId → Value → Bytes → ResourcesCall
  update_sku : ℕ → Value → ResourcesCall
  report_capacity : Value → ResourcesCall
  set_privacy : AccountId → Bool → ResourcesCall
  allow disallow : AccountId → AccountId → ResourcesCall

pub data StakingCall : Type 0 where
  bond : ℕ → Value → StakingCall
  bond_extra unbond withdraw_unbonded : ℕ → StakingCall
  nominate : List AccountId → StakingCall
  chill claim_pool_payout : StakingCall
  join_pool : ℕ → ℕ → StakingCall

pub data OrgsCall : Type 0 where
  create : OrgsCall
  add_member : Bytes → AccountId → Value → OrgsCall
  remove_member : Bytes → AccountId → OrgsCall
  allot : Bytes → Bytes → ℕ → OrgsCall
  authorize_secrets_agent revoke_secrets_agent : Bytes → Bytes → AccountId → OrgsCall

pub data KeysCall : Type 0 where
  authorize : AccountId → ScopeSet → KeysCall
  revoke_key : AccountId → KeysCall

pub data FacadeCall : Type 0 where
  secrets : SecretsCall → FacadeCall
  deployments : DeploymentsCall → FacadeCall
  resources : ResourcesCall → FacadeCall
  staking : StakingCall → FacadeCall
  orgs : OrgsCall → FacadeCall
  keys : KeysCall → FacadeCall

unfoldable pub unnamed_variant : String → Values → Value
unnamed_variant name values = variant name (unnamed values)

unfoldable pub option_u128 : Option ℕ → Value
unfolding unnamed_variant
option_u128 (some v) = unnamed_variant "Some" (item (number v) none_left)
option_u128 none = unnamed_variant "None" none_left

unfoldable pub option_value : Option Value → Value
unfolding unnamed_variant
option_value (some v) = unnamed_variant "Some" (item v none_left)
option_value none = unnamed_variant "None" none_left

module _ (x : Subxt) where
  unfoldable pub grant_target_value : GrantTarget → Value
  unfolding unnamed_variant
  grant_target_value (user account) = unnamed_variant "User" (item (x.from_bytes account) none_left)
  grant_target_value (deployment id) = unnamed_variant "Deployment" (item (number id) none_left)

  unfoldable pub envelope_value : EncryptedSecret → Value
  envelope_value payload = composite (
      named (
        field "binding_id" (x.from_bytes payload.binding_id) (
          field "capsule" (x.from_bytes payload.capsule) (
            field "proof" (x.from_bytes payload.proof)
              (field "ct" (x.from_bytes payload.ct) end)))))

  unfoldable pub to_values : StoreSecret → List Value
  unfolding envelope_value
  to_values args =
      envelope_value args.payload
      ∷ number args.epoch
      ∷ x.from_bytes args.label
      ∷ x.from_bytes args.aad
      ∷ []

  account : AccountId → Value
  account id = x.from_bytes id.bytes

  unfoldable pub secrets_call : SecretsCall → DynamicPayload
  unfolding dynamic_tx to_values envelope_value grant_target_value
  secrets_call (store args) = dynamic_tx "Secrets" "store_secret" (to_values args)
  secrets_call (rotate id payload epoch aad) =
      dynamic_tx "Secrets" "rotate_secret"
        (number id ∷ envelope_value payload ∷ number epoch ∷ x.from_bytes (as_bytes aad) ∷ [])
  secrets_call (grant_to_user id who) =
      dynamic_tx "Secrets" "grant_access" (number id ∷ grant_target_value (user who.bytes) ∷ [])
  secrets_call (grant_to_deployment id d) =
      dynamic_tx "Secrets" "grant_access" (number id ∷ grant_target_value (deployment d) ∷ [])
  secrets_call (grant id target) =
      dynamic_tx "Secrets" "grant_access" (number id ∷ grant_target_value target ∷ [])
  secrets_call (revoke id target) =
      dynamic_tx "Secrets" "revoke_access" (number id ∷ grant_target_value target ∷ [])
  secrets_call (delete id) = dynamic_tx "Secrets" "delete_secret" (number id ∷ [])

  unfoldable pub deployments_call : DeploymentsCall → DynamicPayload
  unfolding dynamic_tx option_u128 option_value
  deployments_call (request r) = dynamic_tx "Jobs" "request_deployment" (r ∷ [])
  deployments_call (cancel d) = dynamic_tx "Jobs" "cancel_deployment" (number d ∷ [])
  deployments_call (set_secret_ref d secret_ref) =
      dynamic_tx "Jobs" "set_deployment_secret_ref" (number d ∷ option_u128 secret_ref ∷ [])
  deployments_call (set_env d env) =
      dynamic_tx "Jobs" "set_deployment_env" (number d ∷ option_value env ∷ [])
  deployments_call (register_wg_peer d pubkey pq) =
      dynamic_tx "Jobs" "register_wg_peer" (number d ∷ x.from_bytes pubkey ∷ x.from_bytes pq ∷ [])

  unfoldable pub resources_call : ResourcesCall → DynamicPayload
  unfolding dynamic_tx account
  resources_call (register r ownership_proof name) =
      dynamic_tx "Resources" "register_resource"
        (account r ∷ ownership_proof ∷ x.from_bytes name ∷ [])
  resources_call (update_sku uuid sku) =
      dynamic_tx "Resources" "update_sku" (number uuid ∷ sku ∷ [])
  resources_call (report_capacity capacity) =
      dynamic_tx "Resources" "report_capacity" (capacity ∷ [])
  resources_call (set_privacy r is_private) =
      dynamic_tx "Resources" "set_resource_privacy" (account r ∷ boolean is_private ∷ [])
  resources_call (allow r who) =
      dynamic_tx "Resources" "add_to_whitelist" (account r ∷ account who ∷ [])
  resources_call (disallow r who) =
      dynamic_tx "Resources" "remove_from_whitelist" (account r ∷ account who ∷ [])

  targets_value : List AccountId → Values
  unfolding account unnamed_variant
  targets_value [] = none_left
  targets_value (t ∷ ts) =
      item (unnamed_variant "Id" (item (account t) none_left)) (targets_value ts)

  unfoldable pub staking_call : StakingCall → DynamicPayload
  unfolding dynamic_tx targets_value
  staking_call (bond value payee) = dynamic_tx "Staking" "bond" (number value ∷ payee ∷ [])
  staking_call (bond_extra max_additional) =
      dynamic_tx "Staking" "bond_extra" (number max_additional ∷ [])
  staking_call (unbond value) = dynamic_tx "Staking" "unbond" (number value ∷ [])
  staking_call (withdraw_unbonded spans) =
      dynamic_tx "Staking" "withdraw_unbonded" (number spans ∷ [])
  staking_call (nominate targets) =
      dynamic_tx "Staking" "nominate" (composite (unnamed (targets_value targets)) ∷ [])
  staking_call chill = dynamic_tx "Staking" "chill" []
  staking_call (join_pool amount pool_id) =
      dynamic_tx "NominationPools" "join" (number amount ∷ number pool_id ∷ [])
  staking_call claim_pool_payout = dynamic_tx "NominationPools" "claim_payout" []

  unfoldable pub orgs_call : OrgsCall → DynamicPayload
  unfolding dynamic_tx account
  orgs_call create = dynamic_tx "Organizations" "create_org" []
  orgs_call (add_member org who role) =
      dynamic_tx "Organizations" "add_member" (x.from_bytes org ∷ account who ∷ role ∷ [])
  orgs_call (remove_member org who) =
      dynamic_tx "Organizations" "remove_member" (x.from_bytes org ∷ account who ∷ [])
  orgs_call (allot org project amount) =
      dynamic_tx "Budgets" "allot" (x.from_bytes org ∷ x.from_bytes project ∷ number amount ∷ [])
  orgs_call (authorize_secrets_agent org project who) =
      dynamic_tx "Budgets" "authorize_project_secrets_agent"
        (x.from_bytes org ∷ x.from_bytes project ∷ account who ∷ [])
  orgs_call (revoke_secrets_agent org project who) =
      dynamic_tx "Budgets" "revoke_project_secrets_agent"
        (x.from_bytes org ∷ x.from_bytes project ∷ account who ∷ [])

  unfoldable pub keys_call : KeysCall → DynamicPayload
  unfolding dynamic_tx account
  keys_call (authorize key scopes) =
      dynamic_tx "Budgets" "authorize_agent_key" (account key ∷ number scopes.bits ∷ [])
  keys_call (revoke_key key) = dynamic_tx "Budgets" "revoke_agent_key" (account key ∷ [])

  -- The pallet, the name and the arguments that a typed call gives to `tx`.
  unfoldable pub facade_call : FacadeCall → DynamicPayload
  unfolding secrets_call deployments_call resources_call staking_call orgs_call keys_call
  facade_call (secrets c) = secrets_call c
  facade_call (deployments c) = deployments_call c
  facade_call (resources c) = resources_call c
  facade_call (staking c) = staking_call c
  facade_call (orgs c) = orgs_call c
  facade_call (keys c) = keys_call c

  -- `self.0.tx(pallet, call, args)`: the result, and the mode that it leaves.
  unfoldable pub facade_tx :
      Mode → Option KeySigner → Answers x → FacadeCall → Result SdkError TxReceipt × Mode
  unfolding facade_call
  facade_tx mode signer answers c =
      tx x mode signer answers (facade_call c).pallet (facade_call c).call (facade_call c).args
