-- ===== src/Committee/Live/Tests.antt =====
-- A committee of three nodes with a threshold of two, one of which cannot be reached.
use matter_sdk.Common.{
  ℕ, ◌≡◌, refl, ap, subst, inl, inr, Bool, true, false, not, ◌==◌, List, [], ◌∷◌, some, Text, codes,
  text_eq, length, All, arith, Result, ok, err, map_err,
}
use matter_sdk.Core.Open.{PartialInput, open_secret, lagrange_for}
use matter_sdk.Core.Wire.{from_0x}
use matter_sdk.Error.{SdkError, transport, core}
use matter_sdk.Signer.{key_auth}
use matter_sdk.Fixtures.{hex, toy, key_signer}
use matter_sdk.Committee.{
  World, DecryptRequest, PartialDecryptResponse, prepare, decoded, diverges, decrypt,
  speaks_our_protocol, is_active,
}
use matter_sdk.Committee.Sample.{node, healthy, world, request, world-ChoiceLaws}
use matter_sdk.Committee.Quorum.{CommitteeNode, Listed}
use matter_sdk.Committee.Choice.{ChoiceLaws}
use matter_sdk.Committee.Headcount.{headcount}
use matter_sdk.Committee.Probe.{usable}
use matter_sdk.Committee.Sound.{Supplied}
use matter_sdk.Committee.Live.{Dependable, Decodes}
use matter_sdk.Committee.Live.Opens.{decrypt_opens}

down : Text
down = codes "https://down"

answer : PartialDecryptResponse
answer = record { partial = codes "0x0a"; proof = codes "0b"; served_epoch = 7 }

reached : Bool → Result SdkError PartialDecryptResponse
unfolding answer
reached true = ok answer
reached false = err (transport (codes "https://down") (codes "timeout"))

partly_down : World toy
unfolding reached down world
partly_down = record (world 7 (ok healthy)) {
  ask_partial = λ requests endpoint asked. reached (not (text_eq endpoint down));
}

abbrev reliable : ℕ → Bool
reliable i = not (i == 2)

two_up : DecryptRequest
unfolding node down request
two_up = record request {
  nodes = node 3 ∷ record { index = 2; endpoint = down; share_commitment = 2 ∷ [] } ∷ node 1 ∷ [];
}

partly_down-ChoiceLaws : ChoiceLaws partly_down
unfolding partly_down world
partly_down-ChoiceLaws =
    let laws = world-ChoiceLaws 7 (ok healthy) in
    record { chosen_from = laws.chosen_from; chosen_count = laws.chosen_count }

up :
    (n : CommitteeNode)
    → Listed n two_up.nodes
    → reliable n.index ≡ true
    → n.endpoint ≡ codes "https://node"
unfolding Listed two_up node
up n (inl same) h = ap (λ (c : CommitteeNode). c.endpoint) same
up n (inr (inl same)) h =
    let at_two : n.index ≡ 2 = ap (λ (c : CommitteeNode). c.index) same in
    absurd (ground (arith, at_two))
up n (inr (inr (inl same))) h = ap (λ (c : CommitteeNode). c.endpoint) same
up n (inr (inr (inr l))) h = elim l [ ]

one_answer : (b : Bool) (resp : PartialDecryptResponse) → reached b ≡ ok resp → answer ≡ resp
unfolding reached
one_answer true resp h = ground arith
one_answer false resp h = absurd (ground arith)

answer-Decodes :
    (n : CommitteeNode) (resp : PartialDecryptResponse)
    → answer ≡ resp
    → Decodes toy partly_down two_up n resp
unfolding Decodes decoded partly_down world hex from_0x answer
answer-Decodes n resp same =
    subst (Decodes toy partly_down two_up n) same (unfold Decodes in (_, refl))

dependable : Dependable toy partly_down two_up reliable
unfolding partly_down world reached prepare lagrange_for toy key_auth key_signer healthy usable
    diverges two_up request answer down speaks_our_protocol is_active
dependable = record {
  authorized = λ subset n requests l. (_, refl);
  healthy = λ n requests l h. refl;
  answered =
      λ n requests asked l h. (answer, ap (λ e. reached (not (text_eq e down))) (up n l h), refl);
  decodable = λ n requests asked resp l came same.
      answer-Decodes n resp (one_answer (not (text_eq n.endpoint down)) resp came);
}

decrypt_opens_example :
    (partials : List PartialInput) × All
      (Supplied toy partly_down (λ n. Listed n two_up.nodes))
      partials
    × (length partials ≡ two_up.threshold)
    × (decrypt toy partly_down two_up
        ≡ some (
            map_err core (
              open_secret toy two_up.shared_a two_up.capsule two_up.secret_id two_up.epoch
                two_up.binding_id two_up.aad two_up.ct partials)))
unfolding headcount two_up request
decrypt_opens_example =
    decrypt_opens toy partly_down two_up reliable dependable partly_down-ChoiceLaws (omega arith)
      (omega arith)
