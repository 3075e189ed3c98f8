-- ===== src/Committee.antt =====
-- crates/matter-sdk/src/committee.rs: recovering a secret from a quorum of committee nodes.
pub mod Rotation
pub mod Quorum
pub mod State
pub mod Node
pub mod Choice
pub mod Terminates
pub mod Sound
pub mod Rotated
pub mod Probe
pub mod Sample
pub mod Headcount
pub mod Live
pub mod Protocol
mod Tests
use matter_sdk.Common.{
  ℕ, zero, suc, List, [], ◌∷◌, ◌++◌, Option, none, some, ltb, length, map, if◌then◌else◌, Result,
  err, map_err,
}
use matter_sdk.Core.Crypto.{Bytes, Crypto}
use matter_sdk.Core.Open.{PartialInput, open_secret}
use matter_sdk.Error.{SdkError, NodeFault, core, quorum_unavailable, epoch_rotated}
pub use Rotation.{Votes}
unfoldable pub use Rotation.{bump, votes_for, most_voted}
pub use Quorum.{CommitteeNode}
unfoldable pub use Quorum.{sort_by_index, without}
unfoldable pub use State.*
unfoldable pub use Node.*

module _ (k : Crypto) (w : World k) (req : DecryptRequest) where
  unfoldable pub place :
      CommitteeNode
      → Option NodeFault
      → List CommitteeNode × List NodeFault
      → List CommitteeNode × List NodeFault
  place node none (active, faults) = (node ∷ active, faults)
  place node (some fault) (active, faults) = (active, fault ∷ faults)

  -- Step 1: the nodes that can be asked, and why each other node dropped.
  unfoldable pub probe : ℕ → List CommitteeNode → List CommitteeNode × List NodeFault
  unfolding place health_fault
  probe requests [] = ([], [])
  probe requests (node ∷ rest) =
      place node (health_fault k w req node (w.health_of requests node.endpoint))
        (probe (suc requests) rest)

  unfoldable pub choose_quorum : ℕ → List CommitteeNode → List CommitteeNode
  choose_quorum requests available =
      sort_by_index (w.choose_multiple requests available req.threshold)

  unfoldable pub after_answer :
      (List PartialInput → Progress → Round × Progress)
      → ℕ
      → List PartialInput
      → Answer × Progress
      → Round × Progress
  after_answer go_on index partials (partial p, s) = go_on (partials ++ p ∷ []) s
  after_answer go_on index partials (dropped, s) = (faulty index, s)
  after_answer go_on index partials (failed e, s) = (failed e, s)

  unfoldable pub ask_all :
      List ℕ → List CommitteeNode → List PartialInput → Progress → Round × Progress
  unfolding ask_node after_answer
  ask_all subset [] partials s = (complete partials, s)
  ask_all subset (node ∷ rest) partials s =
      after_answer (ask_all subset rest) node.index partials (ask_node k w req subset node s)

  -- Behind the loop: the most-voted divergent epoch, or too few nodes.
  unfoldable pub out_of_nodes : List CommitteeNode → Progress → Result SdkError Bytes
  out_of_nodes available s = elim (most_voted s.rotated_votes) [
    | some served ↦ err (epoch_rotated served req.epoch)
    | none ↦ err (quorum_unavailable req.threshold (length available) s.faults)
  ]

  unfoldable pub finish :
      (List CommitteeNode → Progress → Option (Result SdkError Bytes))
      → List CommitteeNode
      → Round × Progress
      → Option (Result SdkError Bytes)
  finish next available (complete partials, s) = some (
      map_err core (
        open_secret k req.shared_a req.capsule req.secret_id req.epoch req.binding_id req.aad req.ct
          partials))
  finish next available (faulty bad, s) = next (without bad available) s
  finish next available (failed e, s) = some (err e)

  -- Step 2: the loop, on fuel; `none` means that the fuel ran out.
  unfoldable pub rounds : ℕ → List CommitteeNode → Progress → Option (Result SdkError Bytes)
  unfolding finish ask_all choose_quorum out_of_nodes
  rounds zero available s = none
  rounds (suc fuel) available s =
      let chosen = choose_quorum s.requests available in
      let next =
        finish (rounds fuel) available
          (ask_all (map (λ (n : CommitteeNode). n.index) chosen) chosen [] s) in
      if ltb (length available) req.threshold then some (out_of_nodes available s) else next

  unfoldable pub decrypt_from : List CommitteeNode × List NodeFault → Option (Result SdkError Bytes)
  unfolding rounds
  decrypt_from (active, faults) =
      if ltb (length active) req.threshold
      then some (err (quorum_unavailable req.threshold (length active) faults))
      else rounds (suc (length active)) active
          (record { faults = faults; rotated_votes = []; requests = length req.nodes })

  unfoldable pub decrypt : Option (Result SdkError Bytes)
  unfolding decrypt_from probe
  decrypt = decrypt_from (probe 0 req.nodes)
