-- ===== src/Committee/Sample.antt =====
-- A committee of three nodes with a threshold of two, and what its nodes answer.
use matter_sdk.Common.{
  ℕ, zero, suc, ◌≤◌, ◌≡◌, refl, ap, List, [], ◌∷◌, codes, take, length, All-take, arith, Result, ok,
}
use matter_sdk.Error.{SdkError}
use matter_sdk.Signer.{key_auth}
use matter_sdk.Fixtures.{hex, toy, key_signer}
use matter_sdk.Committee.{World, DecryptRequest, Health}
use matter_sdk.Committee.Quorum.{CommitteeNode, All-Listed}
use matter_sdk.Committee.Choice.{ChoiceLaws}

unfoldable pub node : ℕ → CommitteeNode
node i = record { index = i; endpoint = codes "https://node"; share_commitment = i ∷ [] }

unfoldable pub healthy : Health
healthy = record { status = codes "active"; epoch = 7; crypto_protocol_version = 3 }

-- A world whose nodes serve the given epoch and answer the probe as given.
unfoldable pub world : ℕ → Result SdkError Health → World toy
unfolding hex key_auth key_signer
world served health = record {
  hex = hex;
  health_of = λ requests endpoint. health;
  ask_partial = λ requests endpoint request.
      ok (record { partial = codes "0x0a"; proof = codes "0b"; served_epoch = served });
  signer = key_auth toy hex key_signer;
  choose_multiple = λ requests nodes n. take n nodes;
  render = λ e. codes "unreachable";
  debug = λ t. t;
}

unfoldable pub request : DecryptRequest
unfolding node
request = record {
  secret_id = 5;
  epoch = 7;
  binding_id = 1 ∷ [];
  aad = [];
  capsule = 2 ∷ [];
  ct = 0 ∷ 0 ∷ 0 ∷ 0 ∷ 0 ∷ 0 ∷ 0 ∷ 0 ∷ 0 ∷ 0 ∷ 0 ∷ 0 ∷ b'h' ∷ b'i' ∷ [];
  shared_a = 3 ∷ [];
  block_hash = 4 ∷ [];
  threshold = 2;
  nodes = node 3 ∷ node 1 ∷ node 2 ∷ [];
}

length-take : (n : ℕ) (ns : List CommitteeNode) → n ≤ length ns → length (take n ns) ≡ n
length-take zero ns h = refl
length-take (suc n) [] h = absurd (omega arith)
length-take (suc n) (x ∷ ns) h = ap suc (length-take n ns (omega arith))

-- Taking the first nodes is a choice.
pub world-ChoiceLaws :
    (served : ℕ) (health : Result SdkError Health) → ChoiceLaws (world served health)
unfolding world
world-ChoiceLaws served health = record {
  chosen_from = λ requests ns n. All-take _ n ns (All-Listed _ ns (λ m l. l));
  chosen_count = λ requests ns n. length-take n ns;
}
