-- ===== src/Committee/Headcount.antt =====
-- Counting the nodes whose index passes a test, and the votes of an epoch.
use matter_sdk.Common.{
  ℕ, ◌+◌, ◌≤◌, ◌<◌, ◌≡◌, refl, ap, sym, ◌∙◌, inl, inr, Bool, true, false, List, [], ◌∷◌, length,
  arith, ◌==◌, if◌then◌else◌, Bool-cases,
}
use matter_sdk.Committee.{bump, votes_for}
use matter_sdk.Committee.Rotation.{Votes}
use matter_sdk.Committee.Quorum.{CommitteeNode, Listed, without}

module _ (test : ℕ → Bool) where
  unfoldable pub headcount : List CommitteeNode → ℕ
  headcount [] = 0
  headcount (n ∷ ns) = (if test n.index then 1 else 0) + headcount ns

  pub headcount_le : (ns : List CommitteeNode) → headcount ns ≤ length ns
  unfolding headcount
  headcount_le [] = omega arith
  headcount_le (n ∷ ns) = ground (arith, headcount_le ns)

  -- Dropping an index that fails the test keeps the count.
  pub headcount-without :
      (bad : ℕ) (ns : List CommitteeNode)
      → test bad ≡ false
      → headcount (without bad ns) ≡ headcount ns
  unfolding headcount without
  headcount-without bad [] h = refl
  headcount-without bad (n ∷ ns) h = elim (Bool-cases (n.index == bad)) [
    | inl same ↦
        let at_bad : test n.index ≡ test bad = ap test (ground arith) in
        ground (arith, same, at_bad, headcount-without bad ns h)
    | inr other ↦ ground (arith, other, headcount-without bad ns h)
  ]

  pub headcount-without_le :
      (bad : ℕ) (ns : List CommitteeNode) → headcount (without bad ns) ≤ headcount ns
  unfolding headcount without
  headcount-without_le bad [] = omega arith
  headcount-without_le bad (n ∷ ns) = ground (arith, headcount-without_le bad ns)

  -- Dropping a listed index that passes it lowers the count.
  pub headcount-without_lt :
      (n : CommitteeNode) (ns : List CommitteeNode)
      → Listed n ns
      → test n.index ≡ true
      → headcount (without n.index ns) < headcount ns
  unfolding headcount without Listed
  headcount-without_lt n [] l h = elim l [ ]
  headcount-without_lt n (m ∷ ms) (inl same) h =
      let same_index : n.index ≡ m.index = ap (λ (c : CommitteeNode). c.index) same in
      let tested : test m.index ≡ true = sym (ap test same_index) ∙ h in
      ground (arith, same_index, tested, headcount-without_le n.index ms)
  headcount-without_lt n (m ∷ ms) (inr l) h = ground (arith, headcount-without_lt n ms l h)

-- A vote adds at most one to the votes of an epoch.
pub votes_for-bump :
    (e e' : ℕ) (votes : Votes) → votes_for e (bump e' votes) ≤ votes_for e votes + 1
unfolding votes_for bump
votes_for-bump e e' [] = ground arith
votes_for-bump e e' ((e'', n) ∷ rest) = ground (arith, votes_for-bump e e' rest)
