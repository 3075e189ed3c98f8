-- ===== src/Committee/Choice.antt =====
-- crates/matter-sdk/src/committee.rs, `choose_quorum`: a random choice of nodes, in index order.
use matter_sdk.Common.{ℕ, ◌≤◌, ◌≡◌, List, length, All, ◌∙◌}
use matter_sdk.Core.Crypto.{Crypto}
use matter_sdk.Committee.{World, DecryptRequest, choose_quorum}
use matter_sdk.Committee.Quorum.{
  CommitteeNode, Listed, All-Listed, All-at, sort_by_index-All, length-sort_by_index,
}

-- What the crate rand says of `choose_multiple`: the chosen are elements of the slice, and as many
-- as asked for when the slice has as many.
pub record ChoiceLaws {k : Crypto} (w : World k) : Type 0 where
  pub chosen_from :
      (requests : ℕ) (ns : List CommitteeNode) (n : ℕ)
      → All (λ c. Listed c ns) (w.choose_multiple requests ns n)
  pub chosen_count :
      (requests : ℕ) (ns : List CommitteeNode) (n : ℕ)
      → n ≤ length ns
      → length (w.choose_multiple requests ns n) ≡ n

module _ {k : Crypto} (w : World k) (laws : ChoiceLaws w) (req : DecryptRequest) where
  -- The quorum is listed among the available nodes.
  pub choose_quorum-Listed :
      (requests : ℕ) (ns : List CommitteeNode)
      → All (λ c. Listed c ns) (choose_quorum k w req requests ns)
  unfolding choose_quorum
  choose_quorum-Listed requests ns =
      sort_by_index-All _ _ (laws.chosen_from requests ns req.threshold)

  -- It keeps what holds of every available node.
  pub choose_quorum-All :
      (P : CommitteeNode → Type 0) (requests : ℕ) (ns : List CommitteeNode)
      → All P ns
      → All P (choose_quorum k w req requests ns)
  choose_quorum-All P requests ns h =
      All-Listed P _ (λ n l. All-at P ns h n (All-at _ _ (choose_quorum-Listed requests ns) n l))

  -- It has as many nodes as the threshold.
  pub length-choose_quorum :
      (requests : ℕ) (ns : List CommitteeNode)
      → req.threshold ≤ length ns
      → length (choose_quorum k w req requests ns) ≡ req.threshold
  unfolding choose_quorum
  length-choose_quorum requests ns h =
      length-sort_by_index _ ∙ laws.chosen_count requests ns req.threshold h
