-- ===== src/Chain/Facade/Tests.antt =====
-- Typed calls of a key that acts for a member, and holds all scopes.
use matter_sdk.Common.{◌≡◌, refl, false, [], ◌∷◌, some, Text, codes, ok, err}
use matter_sdk.Error.{never_admitted, chain}
use matter_sdk.Fixtures.{key_signer}
use matter_sdk.Key.Scopes.{full}
use matter_sdk.Chain.Value.{number}
use matter_sdk.Chain.Mode.{delegated}
use matter_sdk.Chain.Client.{Subxt, Answers, timed_out, build_payload}
use matter_sdk.Chain.Facade.{FacadeCall, chill, cancel, facade_call, facade_tx}
use matter_sdk.Chain.Facade as F
use matter_sdk.Chain.Facade.Needs.{needs, verdict, facade_verdict, facade_refused}

subxt : Subxt
subxt = record {
  Failure = Text;
  show_failure = λ e. e;
  is_not_proxy = λ e. false;
  show_account = λ bytes. bytes;
  from_bytes = λ bytes. number 0;
  into_value = λ payload. number 0;
  signer_payload = λ payload. [];
  decode_dispatch_error = λ bytes. ok bytes;
}

answers : Answers subxt
unfolding subxt
answers = record {
  nonce = ok tt;
  submit = λ payload signature. timed_out;
  grant = err (chain (codes "state_call") (codes "unreachable"));
  waited = 60;
}

abbrev cancelling : FacadeCall
cancelling = F.deployments (cancel 4)

facade_verdict_example :
    build_payload subxt
      (delegated (7 ∷ []) full)
      (facade_call subxt cancelling).pallet
      (facade_call subxt cancelling).call
      (facade_call subxt cancelling).args
    ≡ verdict subxt (7 ∷ []) full cancelling (needs cancelling)
facade_verdict_example = facade_verdict subxt (7 ∷ []) full cancelling

abbrev chilling : FacadeCall
chilling = F.staking chill

never :
    verdict subxt (7 ∷ []) full chilling (needs chilling) ≡ err (never_admitted "Staking" "chill")
unfolding verdict needs facade_call
never = refl

facade_refused_example :
    facade_tx subxt (delegated (7 ∷ []) full) (some key_signer) answers chilling
    ≡ (err (never_admitted "Staking" "chill"), delegated (7 ∷ []) full)
facade_refused_example = facade_refused subxt (7 ∷ []) full key_signer answers chilling never
