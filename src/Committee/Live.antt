-- ===== src/Committee/Live.antt =====
-- crates/matter-sdk/src/committee.rs: a request that enough nodes answer well.
pub mod Opens
mod Tests
use matter_sdk.Common.{
  ℕ, zero, suc, ◌+◌, ◌≤◌, ◌<◌, ◌≡◌, ◌≢◌, ◌⊎◌, inl, inr, refl, ap, sym, subst, ◌∙◌, Bool, true,
  false, not, ◌&&◌, List, [], ◌∷◌, ◌++◌, Option, some, none, Text, Result, ok, err, ◌>>=◌, map_err,
  arith, length, map, ltb, leb, All, All-weaken, Bool-cases, if◌then◌else◌, ◌==◌,
}
use matter_sdk.Core.Error.{CoreError}
use matter_sdk.Core.Crypto.{Bytes, Crypto}
use matter_sdk.Core.Open.{PartialInput, open_secret}
use matter_sdk.Error.{SdkError, NodeFault, core}
use matter_sdk.Committee.{
  World, DecryptRequest, PartialDecryptRequest, PartialDecryptResponse, Health, Progress, Answer,
  partial, dropped, failed, Round, complete, faulty, failed, bump, votes_for, health_fault, place,
  probe, prepare, send, decoded, decode_response, diverges, vote_rotation, after_response, ask_node,
  after_answer, ask_all, finish, rounds, decrypt_from, decrypt, choose_quorum,
}
use matter_sdk.Committee.Rotation.{Votes}
use matter_sdk.Committee.Quorum.{
  CommitteeNode, Listed, All-Listed, without, without-All, length-without,
}
use matter_sdk.Committee.Headcount.{
  headcount, headcount_le, headcount-without, headcount-without_lt, votes_for-bump,
}
use matter_sdk.Committee.Choice.{
  ChoiceLaws, choose_quorum-All, choose_quorum-Listed, length-choose_quorum,
}
use matter_sdk.Committee.Probe.{usable, health_fault_iff}

module _ (k : Crypto) (w : World k) (req : DecryptRequest) where
  -- An answer with a partial that decodes.
  unfoldable pub Decodes : CommitteeNode → PartialDecryptResponse → Type 0
  Decodes n resp = (p : PartialInput) × (decoded k w req n resp ≡ ok p)

  -- The signer authorizes every request, and the coefficients encode. The request's nodes whose
  -- index is reliable answer every probe as active and every request with a partial for the
  -- requested epoch. The others may answer as they like, also with an error or for another epoch,
  -- but send no partial that does not decode.
  pub record Dependable (reliable : ℕ → Bool) : Type 0 where
    pub authorized :
        (subset : List ℕ) (n : CommitteeNode) (requests : ℕ)
        → Listed n req.nodes
        → (request : PartialDecryptRequest k) × (prepare k w req subset n requests ≡ ok request)
    pub healthy :
        (n : CommitteeNode) (requests : ℕ)
        → Listed n req.nodes
        → reliable n.index ≡ true
        → usable k (w.health_of requests n.endpoint) ≡ true
    pub answered :
        (n : CommitteeNode) (requests : ℕ) (request : PartialDecryptRequest k)
        → Listed n req.nodes
        → reliable n.index ≡ true
        → (resp : PartialDecryptResponse) × (w.ask_partial requests n.endpoint request ≡ ok resp)
          × (diverges k w req resp ≡ false)
    pub decodable :
        (n : CommitteeNode) (requests : ℕ) (request : PartialDecryptRequest k)
        (resp : PartialDecryptResponse)
        → Listed n req.nodes
        → w.ask_partial requests n.endpoint request ≡ ok resp
        → diverges k w req resp ≡ false
        → Decodes n resp

  module _ (reliable : ℕ → Bool) (dependable : Dependable reliable) where
    unfoldable pub unreliable : ℕ → Bool
    unreliable i = not (reliable i)

    -- No epoch has a vote more than before.
    unfoldable pub OneMore : Votes → Votes → Type 0
    OneMore votes votes' = (e : ℕ) → votes_for e votes' ≤ votes_for e votes + 1

    -- What a node's turn may come to.
    Turn : CommitteeNode → Votes → Answer × Progress → Type 0
    Turn n votes (partial p, s) = s.rotated_votes ≡ votes
    Turn n votes (dropped, s) = (reliable n.index ≡ false) × OneMore votes s.rotated_votes
    Turn n votes (failed e, s) = ⊥

    -- Below the threshold, another vote for an epoch does not make a rotation.
    unfoldable pub Room : Votes → CommitteeNode → Type 0
    Room votes n = reliable n.index ≡ false → (e : ℕ) → votes_for e votes + 1 < req.threshold

    unsteady : (b d : Bool) → (b ≡ true → d ≡ false) → d ≡ true → b ≡ false
    unsteady true d h other = absurd (ground (arith, h refl))
    unsteady false d h other = refl

    vote-Turn :
        (n : CommitteeNode) (resp : PartialDecryptResponse) (s : Progress)
        → reliable n.index ≡ false
        → Room s.rotated_votes n
        → Turn n s.rotated_votes (vote_rotation k w req n resp s)
    unfolding vote_rotation Turn Room OneMore
    vote-Turn n resp s shaky room =
        let fewer : votes_for resp.served_epoch (bump resp.served_epoch s.rotated_votes)
            < req.threshold =
          omega (
            arith,
            votes_for-bump resp.served_epoch resp.served_epoch s.rotated_votes,
            room shaky resp.served_epoch,
          ) in
        let below : leb req.threshold
              (votes_for resp.served_epoch (bump resp.served_epoch s.rotated_votes))
            ≡ false =
          ground (arith, fewer) in
        rw below (shaky, λ e. votes_for-bump e resp.served_epoch s.rotated_votes)

    decode-Turn :
        (n : CommitteeNode) (resp : PartialDecryptResponse) (s : Progress)
        → Decodes n resp
        → Turn n s.rotated_votes (decode_response k w req (decoded k w req n resp), s)
    unfolding Decodes Turn decode_response
    decode-Turn n resp s (p, done) = rw done refl

    response-Turn :
        (n : CommitteeNode) (resp : PartialDecryptResponse) (s : Progress)
        → (reliable n.index ≡ true → diverges k w req resp ≡ false)
        → (diverges k w req resp ≡ false → Decodes n resp)
        → Room s.rotated_votes n
        → Turn n s.rotated_votes (after_response k w req n (ok resp) s)
    unfolding after_response
    response-Turn n resp s steady decodes room = elim (Bool-cases (diverges k w req resp)) [
      | inl other ↦ rw other (vote-Turn n resp s (unsteady _ _ steady other) room)
      | inr same ↦ rw same (decode-Turn n resp s (decodes same))
    ]

    -- A reliable node's answer is no error, and is for the requested epoch.
    steady_answer :
        (n : CommitteeNode) (requests : ℕ) (request : PartialDecryptRequest k)
        (resp : PartialDecryptResponse)
        → Listed n req.nodes
        → w.ask_partial requests n.endpoint request ≡ ok resp
        → reliable n.index ≡ true
        → diverges k w req resp ≡ false
    steady_answer n requests request resp l came steady =
        let (resp', answered, same_epoch) = dependable.answered n requests request l steady in
        let same : resp' ≡ resp = ground arith in
        subst (λ r. diverges k w req r ≡ false) same same_epoch

    failed_answer :
        (n : CommitteeNode) (requests : ℕ) (request : PartialDecryptRequest k) (e : SdkError)
        → Listed n req.nodes
        → w.ask_partial requests n.endpoint request ≡ err e
        → reliable n.index ≡ false
    failed_answer n requests request e l came = elim (Bool-cases (reliable n.index)) [
      | inl steady ↦
          let (resp', answered, _) = dependable.answered n requests request l steady in
          absurd (ground arith)
      | inr shaky ↦ shaky
    ]

    answer-Turn :
        (n : CommitteeNode) (answer : Result SdkError PartialDecryptResponse) (s : Progress)
        (requests : ℕ) (request : PartialDecryptRequest k)
        → Listed n req.nodes
        → w.ask_partial requests n.endpoint request ≡ answer
        → Room s.rotated_votes n
        → Turn n s.rotated_votes (after_response k w req n answer s)
    unfolding after_response Turn OneMore
    answer-Turn n (err e) s requests request l came room =
        (failed_answer n requests request e l came, λ e'. omega arith)
    answer-Turn n (ok resp) s requests request l came room =
        unfold Turn OneMore in
        response-Turn n resp s (steady_answer n requests request resp l came)
          (dependable.decodable n requests request resp l came) room

    send-Turn :
        (n : CommitteeNode) (s : Progress) (request : PartialDecryptRequest k)
        → Listed n req.nodes
        → Room s.rotated_votes n
        → Turn n s.rotated_votes (send k w req n s (ok request))
    unfolding send
    send-Turn n s request l room =
        answer-Turn n (w.ask_partial s.requests n.endpoint request)
          (record s { requests = suc s.requests }) s.requests request l refl room

    ask-Turn :
        (subset : List ℕ) (n : CommitteeNode) (s : Progress)
        → Listed n req.nodes
        → Room s.rotated_votes n
        → Turn n s.rotated_votes (ask_node k w req subset n s)
    unfolding ask_node
    ask-Turn subset n s l room =
        let (request, prepared) = dependable.authorized subset n s.requests l in
        rw prepared (send-Turn n s request l room)

    -- What a round over nodes of which `P` holds may come to.
    unfoldable pub Outcome : (CommitteeNode → Type 0) → Votes → Round × Progress → Type 0
    Outcome P votes (complete partials, s) = Unit
    Outcome P votes (faulty bad, s) =
        (n : CommitteeNode) × P n
        × (n.index ≡ bad)
        × (reliable bad ≡ false)
        × OneMore votes s.rotated_votes
    Outcome P votes (failed e, s) = ⊥

    answer-Outcome :
        (P : CommitteeNode → Type 0) (votes : Votes)
        (go_on : List PartialInput → Progress → Round × Progress) (n : CommitteeNode)
        (partials : List PartialInput) (answer : Answer × Progress)
        → P n
        → Turn n votes answer
        → ((ps : List PartialInput) (s : Progress)
            → s.rotated_votes ≡ votes
            → Outcome P votes (go_on ps s))
        → Outcome P votes (after_answer k w req go_on n.index partials answer)
    unfolding after_answer Turn Outcome
    answer-Outcome P votes go_on n partials (partial p, s) here turn next = next _ s turn
    answer-Outcome P votes go_on n partials (dropped, s) here (shaky, more) next =
        (n, here, refl, shaky, more)
    answer-Outcome P votes go_on n partials (failed e, s) here turn next = elim turn [ ]

    pub ask_all-Outcome :
        (P : CommitteeNode → Type 0) (votes : Votes) (subset : List ℕ) (nodes : List CommitteeNode)
        (partials : List PartialInput) (s : Progress)
        → All (λ n. Listed n req.nodes) nodes
        → All P nodes
        → All (Room votes) nodes
        → s.rotated_votes ≡ votes
        → Outcome P votes (ask_all k w req subset nodes partials s)
    unfolding ask_all Outcome
    ask_all-Outcome P votes subset [] partials s known held room same = tt
    ask_all-Outcome P votes subset (n ∷ ns) partials s (l, known) (here, there) (room, rooms) same =
        unfold Outcome in
        answer-Outcome P votes (ask_all k w req subset ns) n partials (ask_node k w req subset n s)
          here
          (subst (λ v. Turn n v (ask_node k w req subset n s)) same
            (ask-Turn subset n s l (subst (λ v. Room v n) (sym same) room)))
          (λ ps s' kept. ask_all-Outcome P votes subset ns ps s' known there rooms kept)
