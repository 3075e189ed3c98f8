-- ===== src/Committee/Protocol.antt =====
-- crates/matter-sdk/src/committee.rs: the flow as an abstract protocol, which forgets the requests,
-- the recorded faults and the random choice, and that `decrypt` refines it.
pub mod Refines
use matter_sdk.Common.{
  ℕ, zero, suc, ◌+◌, ◌≤◌, ◌<◌, ◌≡◌, ◌≢◌, ◌⊎◌, inl, inr, refl, ap, sym, subst, ◌∙◌, Bool, true,
  false, not, ◌&&◌, List, [], ◌∷◌, ◌++◌, Option, some, none, Result, ok, err, ◌>>=◌, >>=-eq-err,
  map_err, arith, length, map, ltb, leb, ltb→lt, All, All-weaken, Bool-cases, Option-cases,
  if◌then◌else◌, ◌==◌,
}
use matter_sdk.Core.Error.{CoreError}
use matter_sdk.Core.Crypto.{Bytes, Crypto}
use matter_sdk.Core.Open.{PartialInput, open_secret, lagrange_for}
use matter_sdk.Error.{SdkError, NodeFault, core, quorum_unavailable, epoch_rotated}
use matter_sdk.Signer.{SigningRequest}
use matter_sdk.Committee.{
  World, DecryptRequest, PartialDecryptRequest, PartialDecryptResponse, Progress, Answer, partial,
  dropped, failed, Round, complete, faulty, failed, bump, votes_for, most_voted, probe,
  signing_request, prepare, send, decoded, decode_response, diverges, vote_rotation, after_response,
  ask_node, after_answer, ask_all, out_of_nodes, finish, rounds, decrypt_from, decrypt,
  choose_quorum,
}
use matter_sdk.Committee.Rotation.{Votes}
use matter_sdk.Committee.Quorum.{CommitteeNode, Listed, without}
use matter_sdk.Committee.Choice.{
  ChoiceLaws, choose_quorum-All, choose_quorum-Listed, length-choose_quorum,
}
use matter_sdk.Committee.Terminates.{decrypt_terminates}
use matter_sdk.Committee.Sound.{Supplied, Collected, ask_all-Collected}

module _ (k : Crypto) (w : World k) (req : DecryptRequest) where
  -- An epoch that a node can report instead of the requested one.
  unfoldable pub Other : ℕ → Type 0
  Other e = (◌≢◌ {A = ℕ} e 0) × (e ≢ req.epoch)

  -- An error that ends the flow: of the codec and the cryptography, or of the signer.
  unfoldable pub Fatal : SdkError → Type 0
  Fatal cause =
      ((e : CoreError) × (cause ≡ core e))
      ⊎ ((requests : ℕ) × (request : SigningRequest) × (w.signer.authorize requests request
            ≡ err cause))

  -- The protocol, from the nodes that are available and the votes for another epoch, to a result.
  pub data Protocol : List CommitteeNode → Votes → Result SdkError Bytes → Type 0 where
    opens :
        (available : List CommitteeNode) (votes : Votes) (partials : List PartialInput)
        → All (Supplied k w (λ n. Listed n available)) partials
        → length partials ≡ req.threshold
        → Protocol available votes (
            map_err core (
              open_secret k req.shared_a req.capsule req.secret_id req.epoch req.binding_id req.aad
                req.ct partials))
    drops :
        (available : List CommitteeNode) (votes : Votes) (n : CommitteeNode)
        (r : Result SdkError Bytes)
        → req.threshold ≤ length available
        → Listed n available
        → Protocol (without n.index available) votes r
        → Protocol available votes r
    outvotes :
        (available : List CommitteeNode) (votes : Votes) (n : CommitteeNode) (e : ℕ)
        (r : Result SdkError Bytes)
        → req.threshold ≤ length available
        → Listed n available
        → Other e
        → votes_for e (bump e votes) < req.threshold
        → Protocol (without n.index available) (bump e votes) r
        → Protocol available votes r
    rotates :
        (available : List CommitteeNode) (votes : Votes) (e : ℕ)
        → req.threshold ≤ length available
        → Other e
        → req.threshold ≤ votes_for e (bump e votes)
        → Protocol available votes (err (epoch_rotated e req.epoch))
    ends :
        (available : List CommitteeNode) (votes : Votes) (cause : SdkError)
        → req.threshold ≤ length available
        → Fatal cause
        → Protocol available votes (err cause)
    exhausts :
        (available : List CommitteeNode) (faults : List NodeFault)
        → length available < req.threshold
        → Protocol available [] (err (quorum_unavailable req.threshold (length available) faults))
    settles :
        (available : List CommitteeNode) (votes : Votes) (e : ℕ)
        → length available < req.threshold
        → most_voted votes ≡ some e
        → Protocol available votes (err (epoch_rotated e req.epoch))

  -- A step over one node that drops it: without a vote or with one that decides nothing.
  unfoldable pub Lost : Votes → Votes → Type 0
  Lost votes votes' =
      (votes' ≡ votes)
      ⊎ ((e : ℕ) × Other e × (votes_for e (bump e votes) < req.threshold) × (votes' ≡ bump e votes))

  -- An error that ends the flow, or a rotation that enough votes decide.
  unfoldable pub Stop : Votes → SdkError → Type 0
  Stop votes cause =
      ((e : ℕ) × Other e
        × (req.threshold ≤ votes_for e (bump e votes))
        × (cause ≡ epoch_rotated e req.epoch))
      ⊎ Fatal cause

  Turn : Votes → Answer × Progress → Type 0
  Turn votes (partial p, s) = s.rotated_votes ≡ votes
  Turn votes (dropped, s) = Lost votes s.rotated_votes
  Turn votes (failed cause, s) = Stop votes cause

  vote-Turn :
      (n : CommitteeNode) (resp : PartialDecryptResponse) (s : Progress)
      → Other resp.served_epoch
      → Turn s.rotated_votes (vote_rotation k w req n resp s)
  unfolding vote_rotation Turn Lost Stop
  vote-Turn n resp s other =
      elim (Bool-cases (
        leb req.threshold (votes_for resp.served_epoch (bump resp.served_epoch s.rotated_votes)))) [
          | inl enough ↦ rw enough (inl (resp.served_epoch, other, ground arith, refl))
          | inr few ↦ rw few (inr (resp.served_epoch, other, ground arith, refl))
        ]

  decode-Turn :
      (answer : Result CoreError PartialInput) (s : Progress)
      → Turn s.rotated_votes (decode_response k w req answer, s)
  unfolding decode_response Turn Stop Fatal
  decode-Turn (ok p) s = refl
  decode-Turn (err e) s = inr (inl (e, refl))

  divergent :
      (resp : PartialDecryptResponse) → diverges k w req resp ≡ true → Other resp.served_epoch
  unfolding diverges Other
  divergent resp h = (ground arith, ground arith)

  response-Turn :
      (n : CommitteeNode) (answer : Result SdkError PartialDecryptResponse) (s : Progress)
      → Turn s.rotated_votes (after_response k w req n answer s)
  unfolding after_response
  response-Turn n (err e) s = unfold Turn Lost in inl refl
  response-Turn n (ok resp) s = elim (Bool-cases (diverges k w req resp)) [
    | inl other ↦ rw other (vote-Turn n resp s (divergent resp other))
    | inr same ↦ rw same (decode-Turn (decoded k w req n resp) s)
  ]

  send-Turn :
      (subset : List ℕ) (n : CommitteeNode) (s : Progress)
      (prepared : Result SdkError (PartialDecryptRequest k))
      → ((cause : SdkError) → prepared ≡ err cause → Fatal cause)
      → Turn s.rotated_votes (send k w req n s prepared)
  unfolding send
  send-Turn subset n s (ok request) fatal =
      response-Turn n (w.ask_partial s.requests n.endpoint request)
        (record s { requests = suc s.requests })
  send-Turn subset n s (err e) fatal = unfold Turn Stop in inr (fatal e refl)

  core_failed :
      {A : Type 0} (first : Result CoreError A) (cause : SdkError)
      → map_err core first ≡ err cause
      → (e : CoreError) × (cause ≡ core e)
  core_failed (ok a) cause h = absurd (ground arith)
  core_failed (err e) cause h = (e, ground arith)

  prepare-Fatal :
      (subset : List ℕ) (n : CommitteeNode) (requests : ℕ) (cause : SdkError)
      → prepare k w req subset n requests ≡ err cause
      → Fatal cause
  unfolding prepare Fatal
  prepare-Fatal subset n requests cause h =
      elim (>>=-eq-err (map_err core (lagrange_for k n.index subset)) _ h) [
        | inl bad ↦ inl (core_failed (lagrange_for k n.index subset) cause bad)
        | inr (lambda, _, h₁) ↦
            elim (>>=-eq-err (w.signer.authorize requests (signing_request k w req subset n)) _
              h₁) [
                | inl refused ↦ inr (requests, signing_request k w req subset n, refused)
                | inr (auth, _, h₂) ↦ absurd (ground arith)
              ]
      ]

  -- What a round may come to.
  unfoldable pub Outcome : List CommitteeNode → Votes → Round × Progress → Type 0
  Outcome available votes (complete partials, s) = Unit
  Outcome available votes (faulty bad, s) =
      (n : CommitteeNode) × Listed n available × (n.index ≡ bad) × Lost votes s.rotated_votes
  Outcome available votes (failed cause, s) = Stop votes cause

  answer-Outcome :
      (available : List CommitteeNode) (votes : Votes)
      (go_on : List PartialInput → Progress → Round × Progress) (n : CommitteeNode)
      (partials : List PartialInput) (answer : Answer × Progress)
      → Listed n available
      → Turn votes answer
      → ((ps : List PartialInput) (s : Progress)
          → s.rotated_votes ≡ votes
          → Outcome available votes (go_on ps s))
      → Outcome available votes (after_answer k w req go_on n.index partials answer)
  unfolding after_answer Turn Outcome
  answer-Outcome available votes go_on n partials (partial p, s) here turn next = next _ s turn
  answer-Outcome available votes go_on n partials (dropped, s) here turn next =
      (n, here, refl, turn)
  answer-Outcome available votes go_on n partials (failed e, s) here turn next = turn

  pub ask_all-Outcome :
      (available : List CommitteeNode) (votes : Votes) (subset : List ℕ)
      (nodes : List CommitteeNode) (partials : List PartialInput) (s : Progress)
      → All (λ n. Listed n available) nodes
      → s.rotated_votes ≡ votes
      → Outcome available votes (ask_all k w req subset nodes partials s)
  unfolding ask_all Outcome ask_node
  ask_all-Outcome available votes subset [] partials s held same = tt
  ask_all-Outcome available votes subset (n ∷ ns) partials s (here, there) same =
      unfold Outcome ask_node in
      answer-Outcome available votes (ask_all k w req subset ns) n partials
        (ask_node k w req subset n s) here
        (subst (λ v. Turn v (ask_node k w req subset n s)) same
          (send-Turn subset n s (prepare k w req subset n s.requests)
            (prepare-Fatal subset n s.requests)))
        (λ ps s' kept. ask_all-Outcome available votes subset ns ps s' there kept)
