-- ===== src/Chain/Client/Revoked.antt =====
-- crates/matter-sdk/src/chain/mod.rs, `tx`: when a submission reports a revoked key.
use matter_sdk.Common.{◌≡◌, ◌≢◌, some, Result, ok}
use matter_sdk.Core.Crypto.{Bytes}
use matter_sdk.Key.Scopes.{ScopeSet}
use matter_sdk.Error.{SdkError}
use matter_sdk.Chain.Value.{Value}
use matter_sdk.Chain.Mode.{Mode, Grant}

-- The chain was asked again, and grants nothing to the member.
unfoldable pub Ungranted : Bytes → Result SdkError Grant → Type 0
Ungranted p fresh =
    (grant : Grant) × (fresh ≡ ok grant) × ((held : ScopeSet) → grant ≢ some (p, held))
