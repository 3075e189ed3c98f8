-- ===== src/Committee/Rotation.antt =====
-- The votes for another epoch, a `BTreeMap` from epochs to counts: an association list in the
-- order of its keys.
use matter_sdk.Common.{
  ℕ, ◌+◌, ◌≡◌, List, [], ◌∷◌, Option, none, some, arith, ◌==◌, ltb, leb, if◌then◌else◌, All, All-if,
  Bool, true, false, subst,
}

abbrev pub Votes : Type 0
Votes = List (ℕ × ℕ)

-- `*entry(epoch).or_insert(0) += 1`.
unfoldable pub bump : ℕ → Votes → Votes
bump e [] = (e, 1) ∷ []
bump e ((e', n) ∷ rest) =
    if e == e'
    then (e', n + 1) ∷ rest
    else if ltb e e'
    then (e, 1) ∷ (e', n) ∷ rest
    else (e', n) ∷ bump e rest

unfoldable pub votes_for : ℕ → Votes → ℕ
votes_for e [] = 0
votes_for e ((e', n) ∷ rest) = if e == e' then n else votes_for e rest

most_after : ℕ × ℕ → Votes → ℕ
most_after (best, most) [] = best
most_after (best, most) ((e, n) ∷ rest) =
    most_after (if leb most n then (e, n) else (best, most)) rest

-- `max_by_key` on the counts: the last of the greatest.
unfoldable pub most_voted : Votes → Option ℕ
unfolding most_after
most_voted [] = none
most_voted (v ∷ rest) = some (most_after v rest)

-- Counting a vote keeps what holds of every epoch voted for.
pub bump-All :
    (P : ℕ → Type 0) (e : ℕ) (votes : Votes)
    → P e
    → All (λ (v : ℕ × ℕ). P v.0) votes
    → All (λ (v : ℕ × ℕ). P v.0) (bump e votes)
unfolding bump
bump-All P e [] pe _ = (pe, tt)
bump-All P e ((e', n) ∷ rest) pe (pe', held) =
    All-if _ (e == e') _ _ (pe', held)
      (All-if _ (ltb e e') _ _ (pe, (pe', held)) (pe', bump-All P e rest pe held))

choose_most :
    (P : ℕ → Type 0) (b : Bool) (v v' : ℕ × ℕ) → P v.0 → P v'.0 → P ((if b then v else v').0)
choose_most P true v v' pv pv' = pv
choose_most P false v v' pv pv' = pv'

most_after_holds :
    (P : ℕ → Type 0) (v : ℕ × ℕ) (votes : Votes)
    → P v.0
    → All (λ (v : ℕ × ℕ). P v.0) votes
    → P (most_after v votes)
unfolding most_after
most_after_holds P (best, most) [] pv _ = pv
most_after_holds P (best, most) ((e, n) ∷ rest) pv (pe, held) =
    most_after_holds P (if leb most n then (e, n) else (best, most)) rest
      (choose_most P (leb most n) (e, n) (best, most) pe pv) held

-- The most-voted epoch is one that was voted for.
pub most_voted_holds :
    (P : ℕ → Type 0) (votes : Votes) {e : ℕ}
    → All (λ (v : ℕ × ℕ). P v.0) votes
    → most_voted votes ≡ some e
    → P e
unfolding most_voted
most_voted_holds P [] held h = absurd (ground arith)
most_voted_holds P (v ∷ rest) {e} (pv, held) h =
    let same : most_after v rest ≡ e = ground arith in
    subst P same (most_after_holds P v rest pv held)
