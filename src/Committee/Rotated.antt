-- ===== src/Committee/Rotated.antt =====
-- crates/matter-sdk/src/committee.rs: when `decrypt` reports a rotated epoch.
use matter_sdk.Common.{
  ℕ, zero, suc, ◌≡◌, ◌≢◌, refl, ◌∷◌, List, [], Bool, true, false, Option, some, Text, Result, ok,
  err, arith, map, length, ltb, leb, All, if◌then◌else◌, subst, ap,
}
use matter_sdk.Core.Error.{CoreError}
use matter_sdk.Core.Crypto.{Bytes, Crypto}
use matter_sdk.Core.Wire.{HexCodec}
use matter_sdk.Core.Open.{PartialInput}
use matter_sdk.Error.{SdkError, NodeFault, epoch_rotated}
use matter_sdk.Signer.{KeySigner, SigningRequest, Signer, partial_decrypt_auth, key_auth}
use matter_sdk.Committee.{
  World, DecryptRequest, PartialDecryptRequest, PartialDecryptResponse, Progress, Answer, partial,
  dropped, failed, Round, complete, faulty, send, prepare, decoded, decode_response, diverges,
  vote_rotation, after_response, signing_request, ask_node, after_answer, ask_all, finish, rounds,
  decrypt_from, decrypt, probe, choose_quorum, out_of_nodes,
}
use matter_sdk.Committee.Quorum.{CommitteeNode, without}
use matter_sdk.Committee.Rotation.{bump, votes_for, most_voted, bump-All, most_voted_holds}

-- The error, if it reports a rotation, is one of which `P` holds.
unfoldable pub Reports : (ℕ → ℕ → Type 0) → SdkError → Type 0
Reports P e = (served provided : ℕ) → e ≡ epoch_rotated served provided → P served provided

module _ (k : Crypto) (w : World k) (req : DecryptRequest) where
  -- An epoch that some node answered with, other than 0 and than the epoch of the request.
  unfoldable pub Divergent : ℕ → Type 0
  Divergent served =
      (served ≢ 0)
      × (served ≢ req.epoch)
      × ((requests : ℕ) × (endpoint : Text) × (request : PartialDecryptRequest k)
          × (resp : PartialDecryptResponse) × (w.ask_partial requests endpoint request ≡ ok resp)
          × (resp.served_epoch ≡ served))

  Genuine : ℕ → ℕ → Type 0
  Genuine served provided = Divergent served × (provided ≡ req.epoch)

  Voted : Progress → Type 0
  Voted s = All (λ (v : ℕ × ℕ). Divergent v.0) s.rotated_votes

  SoundAnswer : Answer × Progress → Type 0
  SoundAnswer (partial p, s) = Voted s
  SoundAnswer (dropped, s) = Voted s
  SoundAnswer (failed e, s) = Reports Genuine e

  SoundRound : Round × Progress → Type 0
  SoundRound (complete ps, s) = Unit
  SoundRound (faulty bad, s) = Voted s
  SoundRound (failed e, s) = Reports Genuine e

  either_sound :
      (b : Bool) (x y : Answer × Progress)
      → (b ≡ true → SoundAnswer x)
      → (b ≡ false → SoundAnswer y)
      → SoundAnswer (if b then x else y)
  either_sound true x y hx hy = hx refl
  either_sound false x y hx hy = hy refl

  vote_rotation_sound :
      (n : CommitteeNode) (resp : PartialDecryptResponse) (s : Progress)
      → Divergent resp.served_epoch
      → Voted s
      → SoundAnswer (vote_rotation k w req n resp s)
  unfolding vote_rotation SoundAnswer Voted Reports Genuine
  vote_rotation_sound n resp s genuine voted =
      either_sound
        (leb req.threshold (votes_for resp.served_epoch (bump resp.served_epoch s.rotated_votes))) _
        _
        (λ _ served provided same.
          let same_served : resp.served_epoch ≡ served = ground arith in
          (subst Divergent same_served genuine, ground arith))
        (λ _. bump-All Divergent resp.served_epoch s.rotated_votes genuine voted)

  decode_response_sound :
      (r : Result CoreError PartialInput) (s : Progress)
      → Voted s
      → SoundAnswer (decode_response k w req r, s)
  unfolding decode_response SoundAnswer Reports
  decode_response_sound (ok p) s voted = voted
  decode_response_sound (err e) s voted = λ served provided same. absurd (ground arith)

  divergent :
      (n : CommitteeNode) (requests : ℕ) (request : PartialDecryptRequest k)
      (resp : PartialDecryptResponse)
      → w.ask_partial requests n.endpoint request ≡ ok resp
      → diverges k w req resp ≡ true
      → Divergent resp.served_epoch
  unfolding diverges Divergent
  divergent n requests request resp asked d =
      (ground arith, ground arith, (requests, n.endpoint, request, resp, asked, refl))

  after_response_sound :
      (n : CommitteeNode) (requests : ℕ) (request : PartialDecryptRequest k)
      (resp : Result SdkError PartialDecryptResponse) (s : Progress)
      → w.ask_partial requests n.endpoint request ≡ resp
      → Voted s
      → SoundAnswer (after_response k w req n resp s)
  unfolding after_response SoundAnswer Voted
  after_response_sound n requests request (err e) s asked voted = voted
  after_response_sound n requests request (ok resp) s asked voted =
      either_sound (diverges k w req resp) _ _
        (λ d. vote_rotation_sound n resp s (divergent n requests request resp asked d) voted)
        (λ _. decode_response_sound (decoded k w req n resp) s voted)

  module _ (hex : HexCodec) (signer : KeySigner) (keyed : w.signer ≡ key_auth k hex signer) where
    key_auth_silent :
        (calls : ℕ) (request : SigningRequest) (e : SdkError)
        → w.signer.authorize calls request ≡ err e
        → (served provided : ℕ) → e ≢ epoch_rotated served provided
    unfolding key_auth partial_decrypt_auth
    key_auth_silent calls request e h served provided same =
        let same_answer : w.signer.authorize calls request
            ≡ (key_auth k hex signer).authorize calls request =
          ap (λ (s : Signer k). s.authorize calls request) keyed in
        ground (arith, same_answer)

    prepare_sound :
        (subset : List ℕ) (n : CommitteeNode) (requests : ℕ) (e : SdkError)
        → prepare k w req subset n requests ≡ err e
        → Reports Genuine e
    unfolding prepare Reports
    prepare_sound subset n requests e h served provided same =
        let silent : w.signer.authorize requests (signing_request k w req subset n) ≡ err e → ⊥ =
          λ h'. key_auth_silent requests _ e h' served provided same in
        absurd (ground (arith, silent))

    send_sound :
        (n : CommitteeNode) (s : Progress) (r : Result SdkError (PartialDecryptRequest k))
        → Voted s
        → ((e : SdkError) → r ≡ err e → Reports Genuine e)
        → SoundAnswer (send k w req n s r)
    unfolding send SoundAnswer Voted
    send_sound n s (ok request) voted quiet =
        after_response_sound n s.requests request _ (record s { requests = suc s.requests }) refl
          voted
    send_sound n s (err e) voted quiet = quiet e refl

    after_answer_sound :
        (go_on : List PartialInput → Progress → Round × Progress) (index : ℕ)
        (partials : List PartialInput) (answer : Answer × Progress)
        → SoundAnswer answer
        → ((ps : List PartialInput) (s : Progress) → Voted s → SoundRound (go_on ps s))
        → SoundRound (after_answer k w req go_on index partials answer)
    unfolding after_answer SoundAnswer SoundRound
    after_answer_sound go_on index partials (partial p, s) sound next = next _ s sound
    after_answer_sound go_on index partials (dropped, s) sound next = sound
    after_answer_sound go_on index partials (failed e, s) sound next = sound

    ask_all_sound :
        (subset : List ℕ) (nodes : List CommitteeNode) (partials : List PartialInput) (s : Progress)
        → Voted s
        → SoundRound (ask_all k w req subset nodes partials s)
    unfolding ask_all ask_node SoundRound
    ask_all_sound subset [] partials s voted = tt
    ask_all_sound subset (n ∷ ns) partials s voted =
        after_answer_sound _ n.index partials _
          (send_sound n s (prepare k w req subset n s.requests) voted
            (prepare_sound subset n s.requests))
          (λ ps s'. ask_all_sound subset ns ps s')

    SoundResult : Option (Result SdkError Bytes) → Type 0
    SoundResult o = (e : SdkError) → o ≡ some (err e) → Reports Genuine e

    finish_sound :
        (next : List CommitteeNode → Progress → Option (Result SdkError Bytes))
        (available : List CommitteeNode) (round : Round × Progress)
        → SoundRound round
        → ((bad : ℕ) (s : Progress) → Voted s → SoundResult (next (without bad available) s))
        → SoundResult (finish k w req next available round)
    unfolding finish SoundRound SoundResult Reports
    finish_sound next available (complete ps, s) sound later e h served provided same =
        absurd (ground arith)
    finish_sound next available (faulty bad, s) sound later e h served provided same =
        later bad s sound e h served provided same
    finish_sound next available (failed e', s) sound later e h served provided same =
        sound served provided (ground arith)

    out_of_nodes_sound :
        (available : List CommitteeNode) (s : Progress)
        → Voted s
        → SoundResult (some (out_of_nodes k w req available s))
    unfolding out_of_nodes SoundResult Reports Genuine Voted
    out_of_nodes_sound available s voted e h served provided same =
        let chosen : most_voted s.rotated_votes ≡ some served = ground arith in
        (most_voted_holds Divergent s.rotated_votes voted chosen, ground arith)

    either_result :
        (b : Bool) (x y : Option (Result SdkError Bytes))
        → SoundResult x
        → SoundResult y
        → SoundResult (if b then x else y)
    either_result true x y hx hy = hx
    either_result false x y hx hy = hy

    rounds_sound :
        (fuel : ℕ) (available : List CommitteeNode) (s : Progress)
        → Voted s
        → SoundResult (rounds k w req fuel available s)
    unfolding rounds SoundResult
    rounds_sound zero available s voted e h = absurd (ground arith)
    rounds_sound (suc fuel) available s voted e h =
        let chosen = choose_quorum k w req s.requests available in
        either_result (ltb (length available) req.threshold) _ _
          (out_of_nodes_sound available s voted)
          (finish_sound (rounds k w req fuel) available _
            (ask_all_sound (map (λ (n : CommitteeNode). n.index) chosen) chosen [] s voted)
            (λ bad s'. rounds_sound fuel (without bad available) s'))
          e h

    decrypt_from_sound :
        (probed : List CommitteeNode × List NodeFault) → SoundResult (decrypt_from k w req probed)
    unfolding decrypt_from SoundResult Reports Voted
    decrypt_from_sound (active, faults) =
        either_result (ltb (length active) req.threshold) _ _
          (λ e h served provided same. absurd (ground arith))
          (rounds_sound (suc (length active)) active _ tt)

    -- With a key as the signer, an `EpochRotated` error carries the epoch of the request, and a
    -- served epoch other than 0 and than that epoch, which a node's response has reported.
    pub decrypt_epoch_rotated :
        {served provided : ℕ}
        → decrypt k w req ≡ some (err (epoch_rotated served provided))
        → (provided ≡ req.epoch)
          × (served ≢ 0)
          × (served ≢ req.epoch)
          × ((requests : ℕ) × (endpoint : Text) × (request : PartialDecryptRequest k)
              × (resp : PartialDecryptResponse) × (w.ask_partial requests endpoint request
                  ≡ ok resp)
              × (resp.served_epoch ≡ served))
    unfolding decrypt SoundResult Reports Genuine Divergent
    decrypt_epoch_rotated h =
        let ((positive, other, asked), same) =
          decrypt_from_sound (probe k w req 0 req.nodes) _ h _ _ refl in
        (same, positive, other, asked)
