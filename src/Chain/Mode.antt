-- ===== src/Chain/Mode.antt =====
-- crates/matter-sdk/src/chain/mode.rs: whether the client signs for itself or acts for a member.
pub mod Laws
pub mod Lookup
use matter_sdk.Common.{
  ℕ, Bool, true, false, not, ◌&&◌, List, [], ◌∷◌, ◌++◌, Option, none, some, Text, codes, text_eq,
  ◌==◌, length, is_empty, trim, strip_prefix, if◌then◌else◌, Result, ok, err, ◌>>=◌, map_err, ok_or,
  fail_if, ◌>>◌,
}
use matter_sdk.Core.Crypto.{Bytes}
use matter_sdk.Core.Wire.{HexCodec}
use matter_sdk.Key.Scopes.{ScopeSet, full}
use matter_sdk.Error.{SdkError, config}

pub data Mode : Type 0 where
  direct : Mode
  delegated : Bytes → ScopeSet → Mode

unfoldable pub principal : Mode → Option Bytes
principal direct = none
principal (delegated p _) = some p

unfoldable pub scopes : Mode → Option ScopeSet
scopes direct = none
scopes (delegated _ s) = some s

unfoldable pub is_delegated : Mode → Bool
is_delegated direct = false
is_delegated (delegated _ _) = true

-- What the chain answers: the principal of a key and what it may do.
abbrev pub Grant : Type 0
Grant = Option (Bytes × ScopeSet)

granted : Grant → Mode
granted none = direct
granted (some (p, s)) = delegated p s

unfoldable pub decide : Grant → Option Bytes → Mode
unfolding granted full
decide lookup (some p) = delegated p full
decide lookup none = granted lookup

pub data Refresh : Type 0 where
  unchanged : Refresh
  rescoped : ScopeSet → Refresh
  gone : Refresh

unfoldable pub after_refresh : Mode → Grant → Refresh
after_refresh direct fresh = unchanged
after_refresh (delegated p s) none = gone
after_refresh (delegated p s) (some (fresh_p, fresh_s)) =
    if text_eq fresh_p p
    then if fresh_s.bits == s.bits then unchanged else rescoped fresh_s
    else gone

-- The variable `MATTER_PRINCIPAL`, if set, and the parser of SS58 addresses, of the crate subxt.
bad : Text → SdkError
bad detail = config (codes "MATTER_PRINCIPAL " ++ detail)

from_hex_body : HexCodec → Text → Result SdkError (Option Bytes)
unfolding bad
from_hex_body hex body = do
  bytes ← map_err (λ _. bad (codes "is not valid hex")) (hex.decode body)
  fail_if (not (length bytes == 32)) (bad (codes "must be 32 bytes of hex")) >> ok (some bytes)

from_ss58 : (Text → Option Bytes) → Text → Result SdkError (Option Bytes)
unfolding bad
from_ss58 ss58 text = do
  account ← ok_or (ss58 text) (bad (codes "is neither 0x-prefixed hex nor a valid SS58 address"))
  ok (some account)

override_of : HexCodec → (Text → Option Bytes) → Text → Result SdkError (Option Bytes)
unfolding from_hex_body from_ss58
override_of hex ss58 text = elim (strip_prefix (codes "0x") text) [
  | some body ↦ from_hex_body hex body
  | none ↦ from_ss58 ss58 text
]

unfoldable pub principal_override :
    HexCodec → (Text → Option Bytes) → Option Text → Result SdkError (Option Bytes)
unfolding override_of
principal_override hex ss58 none = ok none
principal_override hex ss58 (some value) =
    if is_empty (trim value) then ok none else override_of hex ss58 (trim value)

-- The answer of the chain is asked for only without an override.
decide_by : Result SdkError Grant → Option Bytes → Result SdkError Mode
unfolding decide
decide_by lookup (some p) = ok (decide none (some p))
decide_by lookup none = do grant ← lookup; ok (decide grant none)

unfoldable pub resolve :
    HexCodec → (Text → Option Bytes) → Option Text → Result SdkError Grant → Result SdkError Mode
unfolding principal_override decide_by
resolve hex ss58 env lookup = do
  override ← principal_override hex ss58 env
  decide_by lookup override
