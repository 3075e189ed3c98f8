-- ===== src/Chain/ScopesTable/Laws.antt =====
-- crates/matter-sdk/src/chain/scopes_table.rs: what the table promises.
use text.Mathlib.Text.{◌==◌ as str_eq}
use matter_sdk.Common.{
  ◌≡◌, ◌≢◌, refl, ap, Bool, true, false, ◌&&◌, List, ◌∷◌, Option, none, some, String, all, any, ltb,
  ◌^◌, arith, if◌then◌else◌, ◌↔◌,
}
use matter_sdk.Key.Scopes.{
  Scope, deployments, collaborations, secrets, volumes, datasets, networking, resources,
  organization, billing, communities, all_scopes, write, ScopeSet, single, with_grant, bit,
  position, contains,
}
use matter_sdk.Chain.Value.{Value, composite, named, Fields}
use matter_sdk.Chain.ScopesTable.{
  scoped_pallets, never_admitted_calls, one_of, arg, unset, request_references_secret, jobs,
  all_but, only, required_scopes, write_of, deploy_with_secret, collaborations_root_calls,
  datasets_forced_calls, resources_calls, organizations_calls, budgets_calls,
  communities_forced_calls,
}

abbrev pub refused : Option ScopeSet → Bool
refused none = true
refused (some s) = false

-- No argument makes a call of the list `NEVER_ADMITTED` reachable for a key.
pub never_admitted_refused :
    (args : List Value)
    → all
        (λ (entry : String × List String).
          all (λ call. refused (required_scopes entry.0 call args)) entry.1)
        never_admitted_calls
      ≡ true
unfolding required_scopes
never_admitted_refused args = refl

-- A call of a pallet that is not in `SCOPED_PALLETS` is refused.
pub unscoped_refused :
    (pallet call : String) (args : List Value)
    → one_of pallet scoped_pallets ≡ false
    → required_scopes pallet call args ≡ none
unfolding required_scopes one_of
unscoped_refused pallet call args h = ground arith

-- What a required set has to have: a write grant, and no bit above those of the grants.
unfoldable pub demanding : Option ScopeSet → Bool
demanding none = true
demanding (some s) = any (λ sc. contains s sc write) all_scopes && ltb s.bits (2 ^ 20)

demanding-write_of : (sc : Scope) → demanding (some (write_of sc)) ≡ true
unfolding demanding contains write_of single bit position
demanding-write_of deployments = refl
demanding-write_of collaborations = refl
demanding-write_of secrets = refl
demanding-write_of volumes = refl
demanding-write_of datasets = refl
demanding-write_of networking = refl
demanding-write_of resources = refl
demanding-write_of organization = refl
demanding-write_of billing = refl
demanding-write_of communities = refl

demanding-deploy : demanding (some deploy_with_secret) ≡ true
unfolding demanding contains deploy_with_secret with_grant single bit position
demanding-deploy = refl

demanding-none : demanding none ≡ true
unfolding demanding
demanding-none = refl

demanding-jobs : (call : String) (args : List Value) → demanding (jobs call args) ≡ true
unfolding jobs
demanding-jobs call args = ground (
  arith,
  demanding-none,
  demanding-deploy,
  demanding-write_of deployments,
  demanding-write_of networking,
)

demanding-all_but :
    (calls : List String) (sc : Scope) (call : String) → demanding (all_but calls sc call) ≡ true
unfolding all_but
demanding-all_but calls sc call = ground (arith, demanding-none, demanding-write_of sc)

demanding-only :
    (calls : List String) (sc : Scope) (call : String) → demanding (only calls sc call) ≡ true
unfolding only
demanding-only calls sc call = ground (arith, demanding-none, demanding-write_of sc)

demanding-if :
    (b : Bool) (x y : Option ScopeSet)
    → demanding x ≡ true
    → demanding y ≡ true
    → demanding (if b then x else y) ≡ true
demanding-if true x y hx hy = hx
demanding-if false x y hx hy = hy

-- Every admitted call requires a write grant: no call is open to a key that can only read. And
-- every set that the table requires has only the 20 bits that stand for a grant.
pub demanding-required_scopes :
    (pallet call : String) (args : List Value) → demanding (required_scopes pallet call args) ≡ true
unfolding required_scopes
demanding-required_scopes pallet call args =
    demanding-if (str_eq pallet "Jobs") _ _ (demanding-jobs call args) (
      demanding-if (str_eq pallet "Collaborations") _ _
        (demanding-all_but collaborations_root_calls collaborations call)
        (demanding-if (str_eq pallet "Secrets") _ _ (demanding-write_of secrets) (
          demanding-if (str_eq pallet "Volumes") _ _ (demanding-write_of volumes) (
            demanding-if (str_eq pallet "OverlayNetworks") _ _ (demanding-write_of networking) (
              demanding-if (str_eq pallet "Datasets") _ _
                (demanding-all_but datasets_forced_calls datasets call)
                (demanding-if (str_eq pallet "Resources") _ _
                  (demanding-only resources_calls resources call)
                  (demanding-if (str_eq pallet "Organizations") _ _
                    (demanding-only organizations_calls organization call)
                    (demanding-if (str_eq pallet "Budgets") _ _
                      (demanding-only budgets_calls billing call)
                      (demanding-if (str_eq pallet "Communities") _ _
                        (demanding-all_but communities_forced_calls communities call)
                        demanding-none)))))))))

wider : write_of deployments ≢ deploy_with_secret
unfolding write_of deploy_with_secret with_grant single bit position
wider same =
    let same_bits : (write_of deployments).bits ≡ deploy_with_secret.bits =
      ap (λ (s : ScopeSet). s.bits) same in
    omega (arith, same_bits)

some_wider : ◌≢◌ {A = Option ScopeSet} (some (write_of deployments)) (some deploy_with_secret)
some_wider same = wider (ground arith)

-- A request for a deployment with the named fields `fields` requires reading secrets, beside
-- writing deployments, exactly if one of its two secret references is missing or not `None`.
pub request_deployment_reads_secrets :
    (fields : Fields) (rest : List Value)
    → (required_scopes "Jobs" "request_deployment" (composite (named fields) ∷ rest)
        ≡ some deploy_with_secret)
      ↔ ((unset "secret_ref" fields && unset "tls_secret_ref" fields) ≡ false)
unfolding required_scopes jobs request_references_secret arg
request_deployment_reads_secrets fields rest = ground (arith, some_wider)
