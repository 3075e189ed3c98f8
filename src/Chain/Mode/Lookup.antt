-- ===== src/Chain/Mode/Lookup.antt =====
-- `lookup` of crates/matter-sdk/src/chain/mode.rs: for whom a key acts, as the chain knows it.
use matter_sdk.Common.{
  err, >>=-eq-err, Bool-cases, inl, inr, ℕ, ◌≡◌, Bool, false, not, List, [], ◌∷◌, ◌++◌, Option,
  none, some, String, Text, codes, arith, if◌then◌else◌, Result, ok, ◌>>=◌, map_err,
}
use matter_sdk.Core.Crypto.{Bytes}
use matter_sdk.Error.{SdkError, chain}
use matter_sdk.Chain.Value.{Value}
use matter_sdk.Chain.Mode.{Grant}

-- Of the crate subxt: the methods of the runtime by the names of its traits, the latest block with
-- the call of a method there, and the decoding of its answer. Errors are rendered.
pub record RuntimeApi : Type 1 where
  pub Thunk : Type 0
  pub runtime_api_trait_by_name : String → Option (String → Bool)
  pub from_bytes : Bytes → Value
  pub at_latest : Result Text (String → String → List Value → Result Text Thunk)
  pub as_type : Thunk → Result Text (Option (Bytes × ℕ))

abbrev agent_key_trait : String
agent_key_trait = "BudgetsApi"

abbrev agent_key_method : String
agent_key_method = "agent_key"

abbrev target : Text
target = codes "BudgetsApi_agent_key"

unfoldable pub declares : Option (String → Bool) → String → Bool
declares none method = false
declares (some has_method) method = has_method method

unfoldable pub runtime_api_error : Text → SdkError
runtime_api_error e = chain target e

undecoded : Text → SdkError
undecoded e = chain target (codes "could not decode Option<(AccountId, ScopeSet)>: " ++ e)

scoped : Option (Bytes × ℕ) → Grant
scoped none = none
scoped (some (p, bits)) = some (p, record { bits = bits })

mapped_fault :
    {A : Type 0} (f : Text → SdkError) (r : Result Text A) {e : SdkError}
    → map_err f r ≡ err e
    → (detail : Text) × (e ≡ f detail)
mapped_fault f (ok a) h = absurd (ground arith)
mapped_fault f (err d) h = (d, ground arith)

module _ (api : RuntimeApi) where
  unfoldable pub has_runtime_api : String → String → Bool
  unfolding declares
  has_runtime_api trait_name method = declares (api.runtime_api_trait_by_name trait_name) method

  unfoldable pub supports_agent_keys : Bool
  unfolding has_runtime_api
  supports_agent_keys = has_runtime_api agent_key_trait agent_key_method

  -- The call of the method, where the runtime has it.
  unfoldable pub ask_chain : Bytes → Result SdkError Grant
  unfolding runtime_api_error undecoded scoped
  ask_chain key = do
    call ← map_err runtime_api_error api.at_latest
    thunk ←
        map_err runtime_api_error (call agent_key_trait agent_key_method (api.from_bytes key ∷ []))
    resolved ← map_err undecoded (api.as_type thunk)
    ok (scoped resolved)

  unfoldable pub lookup : Bytes → Result SdkError Grant
  unfolding supports_agent_keys ask_chain
  lookup key = if not supports_agent_keys then ok none else ask_chain key

  -- A lookup that fails reports an error of the chain.
  pub lookup-chain :
      (key : Bytes) {e : SdkError}
      → lookup key ≡ err e
      → (detail : Text) × (e ≡ chain target detail)
  unfolding lookup ask_chain runtime_api_error undecoded
  lookup-chain key h = elim (Bool-cases supports_agent_keys) [
    | inr lacks ↦ absurd (ground arith)
    | inl has ↦ elim (>>=-eq-err (map_err runtime_api_error api.at_latest) _ (rw has at h)) [
      | inl unreached ↦ mapped_fault runtime_api_error api.at_latest unreached
      | inr (call, _, h₁) ↦
          elim (>>=-eq-err
            (map_err runtime_api_error
              (call agent_key_trait agent_key_method (api.from_bytes key ∷ [])))
            _ h₁) [
              | inl uncalled ↦ mapped_fault runtime_api_error _ uncalled
              | inr (thunk, _, h₂) ↦
                  elim (>>=-eq-err (map_err undecoded (api.as_type thunk)) _ h₂) [
                    | inl unread ↦
                        let (d, same) = mapped_fault undecoded (api.as_type thunk) unread in
                        (_, same)
                    | inr (resolved, _, done) ↦ absurd (ground arith)
                  ]
            ]
    ]
  ]

  -- The chain was reached, has the method, and answers the key with a registration or none.
  pub Answered : Bytes → Option (Bytes × ℕ) → Type 0
  Answered key resolved =
      (call : String → String → List Value → Result Text api.Thunk) × (thunk : api.Thunk)
      × (api.at_latest ≡ ok call)
      × (call agent_key_trait agent_key_method (api.from_bytes key ∷ []) ≡ ok thunk)
      × (api.as_type thunk ≡ ok resolved)
