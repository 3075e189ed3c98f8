-- ===== src/Chain/ScopesTable.antt =====
-- crates/matter-sdk/src/chain/scopes_table.rs: which scopes a call requires.
pub mod Laws
use text.Mathlib.Text.{◌==◌ as str_eq}
use matter_sdk.Common.{
  ℕ, zero, suc, Bool, true, false, not, ◌&&◌, ◌||◌, List, [], ◌∷◌, Option, none, some, String, any,
  if◌then◌else◌,
}
use matter_sdk.Key.Scopes.{
  Scope, deployments, collaborations, secrets, volumes, datasets, networking, resources,
  organization, billing, communities, Access, read, write, ScopeSet, single, with_grant,
}
use matter_sdk.Chain.Value.{Value, variant, composite, Composite, named, Fields, end, field}

unfoldable pub write_of : Scope → ScopeSet
write_of scope = single scope write

unfoldable pub deploy_with_secret : ScopeSet
unfolding write_of
deploy_with_secret = with_grant (write_of deployments) secrets read

abbrev pub scoped_pallets : List String
scoped_pallets =
    "Jobs" ∷ "Collaborations" ∷ "Secrets" ∷ "Volumes" ∷ "Datasets" ∷ "OverlayNetworks" ∷ "Resources"
    ∷ "Organizations" ∷ "Budgets" ∷ "Communities" ∷ []

abbrev pub never_admitted_calls : List (String × List String)
never_admitted_calls =
    ("Jobs", "update_deployment_status" ∷ "set_deployment_network" ∷ "report_tls_status" ∷ [])
    ∷ (
      "Resources",
      "report_consumption" ∷ "request_consumption_report" ∷ "report_capacity" ∷ "update_sku"
          ∷ "remove_sku" ∷ "set_provider_min_stake" ∷ [],
    )
    ∷ ("Collaborations", "set_compute_node_image" ∷ "set_compute_node_sku_id" ∷ [])
    ∷ ("OverlayNetworks", [])
    ∷ ("Volumes", [])
    ∷ ("Secrets", [])
    ∷ ("Datasets", "force_delist_dataset" ∷ "force_restore_dataset" ∷ "force_delete_dataset" ∷ [])
    ∷ ("Organizations", "create_org" ∷ "delete_org" ∷ [])
    ∷ (
      "Budgets",
      "fund_org_treasury" ∷ "withdraw_org_treasury" ∷ "authorize_project_deployer"
          ∷ "revoke_project_deployer" ∷ "claim_sponsorship" ∷ "transfer_sponsorship"
          ∷ "authorize_project_secrets_agent" ∷ "revoke_project_secrets_agent"
          ∷ "authorize_org_resource_operator" ∷ "revoke_org_resource_operator" ∷ "bond_org_stake"
          ∷ "unbond_org_stake" ∷ "withdraw_org_stake" ∷ "approve_sponsor" ∷ "authorize_agent_key"
          ∷ "revoke_agent_key" ∷ "fund_non_revolving_treasury" ∷ "withdraw_non_revolving_treasury"
          ∷ [],
    )
    ∷ (
      "Communities",
      "force_delist_community" ∷ "force_restore_community" ∷ "force_delete_community" ∷ [],
    )
    ∷ []

-- An or-pattern of names.
unfoldable pub one_of : String → List String → Bool
one_of s = any (str_eq s)

-- `args.first()` and `args.get(1)`.
unfoldable pub arg : ℕ → List Value → Option Value
arg n [] = none
arg zero (v ∷ vs) = some v
arg (suc n) (v ∷ vs) = arg n vs

unfoldable pub is_none : Option Value → Bool
is_none (some (variant name _)) = str_eq name "None"
is_none (some v) = false
is_none none = false

-- `fields.iter().find(|(field, _)| field == name)`.
unfoldable pub find_field : String → Fields → Option Value
find_field name end = none
find_field name (field f v rest) = if str_eq f name then some v else find_field name rest

unfoldable pub unset : String → Fields → Bool
unfolding is_none find_field
unset name fields = is_none (find_field name fields)

unfoldable pub request_references_secret : Option Value → Bool
unfolding unset
request_references_secret (some (composite (named fields))) =
    any (λ name. not (unset name fields)) ("secret_ref" ∷ "tls_secret_ref" ∷ [])
request_references_secret (some v) = true
request_references_secret none = true

-- The arms of `required_scopes`, by pallet.
unfoldable pub jobs : String → List Value → Option ScopeSet
unfolding write_of deploy_with_secret one_of arg is_none request_references_secret
jobs call args =
    if str_eq call "request_deployment"
    then some (
        if request_references_secret (arg 0 args) then deploy_with_secret else write_of deployments)
    else if str_eq call "set_deployment_secret_ref"
    then some (if is_none (arg 1 args) then write_of deployments else deploy_with_secret)
    else if one_of call (
        "cancel_deployment" ∷ "set_deployment_env" ∷ "set_deployment_image"
        ∷ "set_deployment_launch" ∷ "set_deployment_policy_root" ∷ "set_deployment_volumes"
        ∷ "set_deployment_restart_policy" ∷ [])
    then some (write_of deployments)
    else if one_of call ("register_wg_peer" ∷ "remove_wg_peer" ∷ [])
    then some (write_of networking)
    else none

unfoldable pub all_but : List String → Scope → String → Option ScopeSet
unfolding write_of one_of
all_but refused scope call = if one_of call refused then none else some (write_of scope)

unfoldable pub only : List String → Scope → String → Option ScopeSet
unfolding write_of one_of
only admitted scope call = if one_of call admitted then some (write_of scope) else none

-- The or-patterns of the other pallets.
abbrev pub collaborations_root_calls : List String
collaborations_root_calls = "set_compute_node_image" ∷ "set_compute_node_sku_id" ∷ []

abbrev pub datasets_forced_calls : List String
datasets_forced_calls =
    "force_delist_dataset" ∷ "force_restore_dataset" ∷ "force_delete_dataset" ∷ []

abbrev pub resources_calls : List String
resources_calls =
    "register_resource" ∷ "register_private_resource" ∷ "register_org_resource"
    ∷ "reactivate_resource" ∷ "suspend_resource" ∷ "set_resource_privacy" ∷ "add_to_whitelist"
    ∷ "remove_from_whitelist" ∷ "update_resource_name" ∷ "remove_resource" ∷ []

abbrev pub organizations_calls : List String
organizations_calls =
    "add_member" ∷ "set_member_role" ∷ "remove_member" ∷ "create_project" ∷ "assign_to_project"
    ∷ "unassign_from_project" ∷ "delete_project" ∷ "add_project_deployment_peer" ∷ []

abbrev pub budgets_calls : List String
budgets_calls =
    "allot" ∷ "defund_project" ∷ "set_plan_allotment" ∷ "add_purchased_allotment"
    ∷ "set_purchased_allotment" ∷ "set_member_billing" ∷ "clear_member_billing"
    ∷ "set_member_gas_limit" ∷ "set_project_spend_cap" ∷ []

abbrev pub communities_forced_calls : List String
communities_forced_calls =
    "force_delist_community" ∷ "force_restore_community" ∷ "force_delete_community" ∷ []

unfoldable pub required_scopes : String → String → List Value → Option ScopeSet
unfolding jobs all_but only write_of
required_scopes pallet call args =
    if str_eq pallet "Jobs"
    then jobs call args
    else if str_eq pallet "Collaborations"
    then all_but collaborations_root_calls collaborations call
    else if str_eq pallet "Secrets"
    then some (write_of secrets)
    else if str_eq pallet "Volumes"
    then some (write_of volumes)
    else if str_eq pallet "OverlayNetworks"
    then some (write_of networking)
    else if str_eq pallet "Datasets"
    then all_but datasets_forced_calls datasets call
    else if str_eq pallet "Resources"
    then only resources_calls resources call
    else if str_eq pallet "Organizations"
    then only organizations_calls organization call
    else if str_eq pallet "Budgets"
    then only budgets_calls billing call
    else if str_eq pallet "Communities"
    then all_but communities_forced_calls communities call
    else none
