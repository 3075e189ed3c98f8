-- ===== src/Chain/Client/Submit.antt =====
-- crates/matter-sdk/src/chain/mod.rs, `tx`: what a receipt promises.
use matter_sdk.Common.{
  ◌⊎◌, [], ◌∷◌, ◌≡◌, refl, Bool, true, false, List, Option, none, some, String, Text, arith, Result,
  ok, err, if◌then◌else◌,
}
use matter_sdk.Core.Crypto.{Bytes}
use matter_sdk.Error.{SdkError}
use matter_sdk.Chain.Value.{Value}
use matter_sdk.Chain.Mode.{Mode, is_delegated}
use matter_sdk.Chain.Client.{
  Subxt, Outcome, in_block, InBlock, Event, TxReceipt, receipt, check_inner,
}

-- The event that reports the result of a wrapped call.
unfoldable pub Executed : Event → Type 0
Executed e = (e.pallet ≡ "Proxy") × (e.name ≡ "ProxyExecuted")

-- The first such event reports success, with a byte 0 before all else; or there is none.
unfoldable pub Unfailed : List Event → Type 0
Unfailed [] = Unit
Unfailed (e ∷ es) =
    (Executed e × ((rest : Bytes) × (e.field_bytes ≡ 0 ∷ rest))) ⊎ ((Executed e → ⊥) × Unfailed es)

module _ (x : Subxt) where
  -- A submission that came to a block, where the wrapped call of a delegated key is unfailed.
  unfoldable pub Landed : Mode → Outcome x → TxReceipt → Type 0
  Landed mode o r =
      (b : InBlock x) × (events : List Event) × (o ≡ in_block b)
      × (b.success ≡ ok events)
      × (r ≡ receipt x b events)
      × (is_delegated mode ≡ true → Unfailed events)

  checked :
      (delegated_mode : Bool) (pallet call : String) (done : TxReceipt)
      (inner : Result SdkError (Option Text)) {r : TxReceipt}
      → (if delegated_mode then check_inner x pallet call done inner else ok done) ≡ ok r
      → (r ≡ done) × (delegated_mode ≡ true → inner ≡ ok none)
  unfolding check_inner
  checked true pallet call done (ok none) h = (ground arith, λ _. refl)
  checked true pallet call done (ok (some failure)) h = absurd (ground arith)
  checked true pallet call done (err e) h = absurd (ground arith)
  checked false pallet call done inner h = (ground arith, λ t. absurd (ground arith))
