-- ===== src/Chain/Mode/Laws.antt =====
-- crates/matter-sdk/src/chain/mode.rs: what the modes promise.
use matter_sdk.Common.{
  ◌≡◌, ◌≢◌, ◌↔◌, true, Option, none, some, Text, [], ◌∷◌, text_eq, arith, Result, ok,
}
use matter_sdk.Core.Crypto.{Bytes}
use matter_sdk.Core.Wire.{HexCodec}
use matter_sdk.Key.Scopes.{ScopeSet}
use matter_sdk.Error.{SdkError}
use matter_sdk.Chain.Mode.{
  direct, delegated, Grant, granted, decide, unchanged, rescoped, after_refresh, principal_override,
  decide_by, resolve,
}

pub text_eq_iff : (s t : Text) → (text_eq s t ≡ true) ↔ (s ≡ t)
text_eq_iff [] [] = ground arith
text_eq_iff [] (d ∷ t) = ground arith
text_eq_iff (c ∷ s) [] = ground arith
text_eq_iff (c ∷ s) (d ∷ t) = ground (arith, text_eq_iff s t)

-- After a refresh that is not gone, the chain's grant is to the same member: with the scopes of the
-- mode if nothing changed, with those reported if they moved.
pub after_refresh_iff :
    (p : Bytes) (s : ScopeSet) (fresh : Grant)
    → ((after_refresh (delegated p s) fresh ≡ unchanged) ↔ (fresh ≡ some (p, s)))
      × ((moved : ScopeSet)
          → (after_refresh (delegated p s) fresh ≡ rescoped moved)
            ↔ ((fresh ≡ some (p, moved)) × (moved.bits ≢ s.bits)))
unfolding after_refresh
after_refresh_iff p s none = (ground arith, λ moved. ground arith)
after_refresh_iff p s (some (fresh_p, fresh_s)) = (
  ground (arith, text_eq_iff fresh_p p, text_eq_iff p p),
  λ moved. ground (arith, text_eq_iff fresh_p p, text_eq_iff p p),
)

-- Without an override, the client acts for itself exactly if the chain answered that the key has
-- no grant: an answer that failed is an error, never the direct mode.
pub resolve_direct :
    (hex : HexCodec) (ss58 : Text → Option Bytes) (env : Option Text)
    (lookup : Result SdkError Grant)
    → (resolve hex ss58 env lookup ≡ ok direct)
      ↔ ((principal_override hex ss58 env ≡ ok none) × (lookup ≡ ok none))
unfolding resolve decide_by decide granted
resolve_direct hex ss58 env lookup = ground arith
