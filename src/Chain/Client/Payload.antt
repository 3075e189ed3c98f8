-- ===== src/Chain/Client/Payload.antt =====
-- crates/matter-sdk/src/chain/mod.rs, `build_payload`: what a delegated key submits.
use matter_sdk.Common.{
  ◌≡◌, ◌≢◌, refl, ◌<◌, ◌^◌, Bool, true, false, List, [], ◌∷◌, Option, none, some, String, any,
  arith, Result, ok, err, ◌>>=◌, ap, sym, ◌∙◌, Bool-cases, inl, inr, if◌then◌else◌,
}
use matter_sdk.Core.Crypto.{Bytes}
use matter_sdk.Key.Scopes.{Scope, Access, write, ScopeSet, all_scopes, contains, is_superset}
use matter_sdk.Key.Scopes.Order.{is_superset_iff}
use matter_sdk.Error.{SdkError}
use matter_sdk.Chain.Value.{Value, DynamicPayload}
use matter_sdk.Chain.Mode.{delegated}
use matter_sdk.Chain.ScopesTable.{required_scopes, one_of}
use matter_sdk.Chain.ScopesTable.Laws.{demanding, demanding-required_scopes}
use matter_sdk.Chain.Client.{Subxt, proxy_payload, permit, build_payload}

required_below : (required : ScopeSet) → demanding (some required) ≡ true → required.bits < 2 ^ 20
unfolding demanding
required_below required h = ground arith

some_write :
    (required : ScopeSet) (scopes : List Scope)
    → any (λ sc. contains required sc write) scopes ≡ true
    → (sc : Scope) × (contains required sc write ≡ true)
some_write required [] h = absurd (ground arith)
some_write required (sc ∷ rest) h = elim (Bool-cases (contains required sc write)) [
  | inl held ↦ (sc, held)
  | inr not_held ↦ some_write required rest (ground arith)
]

required_write :
    (required : ScopeSet)
    → demanding (some required) ≡ true
    → (sc : Scope) × (contains required sc write ≡ true)
unfolding demanding
required_write required h = some_write required all_scopes (ground arith)

module _ (x : Subxt) (principal : Bytes) (scopes : ScopeSet) (pallet call : String)
    (args : List Value) where
  permit_sound :
      (required : Option ScopeSet)
      → permit x scopes pallet call required ≡ ok tt
      → (r : ScopeSet) × (required ≡ some r) × (is_superset scopes r ≡ true)
  unfolding permit
  permit_sound none h = absurd (ground arith)
  permit_sound (some r) h = (r, refl, ground arith)

  guarded :
      (b : Bool) (e : SdkError) (m : Result SdkError (Unit {0})) (wrapped : DynamicPayload)
      {payload : DynamicPayload}
      → (if b then err e else (m >>= λ _. ok wrapped)) ≡ ok payload
      → (b ≡ false) × (m ≡ ok tt) × (payload ≡ wrapped)
  guarded true e m wrapped h = absurd (ground arith)
  guarded false e (ok tt) wrapped h = (refl, refl, ground arith)
  guarded false e (err e') wrapped h = absurd (ground arith)

  -- A key that acts for a member submits nothing but the call wrapped in `Proxy.proxy` for that
  -- member, never a call of `Proxy`, `Utility` or `EthSigning`, and only a call that the table
  -- admits with required scopes each grant of which the key holds.
  pub build_payload_sound :
      {payload : DynamicPayload}
      → build_payload x (delegated principal scopes) pallet call args ≡ ok payload
      → (payload ≡ proxy_payload x principal pallet call args)
        × (one_of pallet ("Proxy" ∷ "Utility" ∷ "EthSigning" ∷ []) ≡ false)
        × ((required : ScopeSet) × (required_scopes pallet call args ≡ some required)
            × ((sc : Scope) (ac : Access)
                → contains required sc ac ≡ true
                → contains scopes sc ac ≡ true))
  unfolding build_payload
  build_payload_sound h =
      let (allowed, permitted, wrapped) =
        guarded (one_of pallet ("Proxy" ∷ "Utility" ∷ "EthSigning" ∷ [])) _
          (permit x scopes pallet call (required_scopes pallet call args)) _ h in
      let (required, found, covered) = permit_sound _ permitted in
      let below : required.bits < 2 ^ 20 =
        required_below required
          (ap demanding (sym found) ∙ demanding-required_scopes pallet call args) in
      (wrapped, allowed, (required, found, (is_superset_iff scopes required below).0 covered))

  -- A key that holds no write grant submits nothing.
  pub build_payload_read_only :
      ((sc : Scope) → contains scopes sc write ≡ false)
      → (payload : DynamicPayload)
      → build_payload x (delegated principal scopes) pallet call args ≢ ok payload
  build_payload_read_only readonly payload h =
      let (_, _, (required, found, covered)) = build_payload_sound h in
      let (sc, wanted) =
        required_write required
          (ap demanding (sym found) ∙ demanding-required_scopes pallet call args) in
      ground (arith, covered sc write wanted, readonly sc)
