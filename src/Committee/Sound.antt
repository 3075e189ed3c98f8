-- ===== src/Committee/Sound.antt =====
-- crates/matter-sdk/src/committee.rs: where a recovered plaintext comes from.
use matter_sdk.Common.{
  Bool-cases, inl, inr, >>=-eq-ok, ap, ℕ, zero, suc, ◌+◌, ◌≡◌, refl, ◌∷◌, List, [], ◌++◌, false,
  Option, some, Result, ok, err, arith, map, length, ltb, All, All-append, length-append, ◌∙◌,
}
use matter_sdk.Core.Crypto.{Bytes, Crypto}
use matter_sdk.Core.Error.{CoreError}
use matter_sdk.Core.Wire.{from_0x}
use matter_sdk.Core.Open.{PartialInput, open_secret}
use matter_sdk.Error.{SdkError, NodeFault}
use matter_sdk.Committee.{
  World, DecryptRequest, PartialDecryptRequest, PartialDecryptResponse, prepare, diverges, Progress,
  Answer, partial, dropped, failed, Round, complete, faulty, send, decoded, decode_response,
  vote_rotation, after_response, ask_node, after_answer, ask_all, finish, rounds, decrypt_from,
  decrypt, probe, choose_quorum, out_of_nodes,
}
use matter_sdk.Committee.Quorum.{CommitteeNode, Listed, All-Listed, without, without-All}
use matter_sdk.Committee.Choice.{ChoiceLaws, choose_quorum-All, length-choose_quorum}

-- The node answered a request for a partial with these bytes, in hexadecimal.
unfoldable pub Sent : (k : Crypto) → World k → CommitteeNode → PartialInput → Type 0
Sent k w n p =
    (requests : ℕ) × (asked : PartialDecryptRequest k) × (resp : PartialDecryptResponse)
    × (w.ask_partial requests n.endpoint asked ≡ ok resp)
    × (from_0x w.hex "partial" resp.partial ≡ ok p.partial)
    × (from_0x w.hex "proof" resp.proof ≡ ok p.proof)

-- A partial decryption of a node of which `P` holds: its point and its commitment are the node's,
-- and its share and its proof are those that the node sent.
unfoldable pub Supplied : (k : Crypto) → World k → (CommitteeNode → Type 0) → PartialInput → Type 0
Supplied k w P p =
    (n : CommitteeNode) × P n
    × (p.point ≡ n.index)
    × (p.commitment ≡ n.share_commitment)
    × Sent k w n p

-- What is known of a partial of a node, whatever holds of the node.
Own : (k : Crypto) → World k → CommitteeNode → PartialInput → Type 0
Own k w n p = (p.point ≡ n.index) × (p.commitment ≡ n.share_commitment) × Sent k w n p

module _ (k : Crypto) (w : World k) (req : DecryptRequest) where
  supplied :
      (P : CommitteeNode → Type 0) (p : PartialInput) (n : CommitteeNode)
      → P n
      → Own k w n p
      → Supplied k w P p
  unfolding Supplied Own
  supplied P p n pn (at_point, committed, sent) = (n, pn, at_point, committed, sent)

  decoded_own :
      (n : CommitteeNode) (resp : PartialDecryptResponse) (p : PartialInput)
      → decoded k w req n resp ≡ ok p
      → (p.point ≡ n.index)
        × (p.commitment ≡ n.share_commitment)
        × (from_0x w.hex "partial" resp.partial ≡ ok p.partial)
        × (from_0x w.hex "proof" resp.proof ≡ ok p.proof)
  unfolding decoded
  decoded_own n resp p h =
      let (share, read_share, h₁) = >>=-eq-ok (from_0x w.hex "partial" resp.partial) _ h in
      let (proof, read_proof, made) = >>=-eq-ok (from_0x w.hex "proof" resp.proof) _ h₁ in
      let same_share : share ≡ p.partial = ground arith in
      let same_proof : proof ≡ p.proof = ground arith in
      (ground arith, ground arith, read_share ∙ ap ok same_share, read_proof ∙ ap ok same_proof)

  decode_response_ok :
      (r : Result CoreError PartialInput) (s s' : Progress) (p : PartialInput)
      → ◌≡◌ {A = Answer × Progress} (decode_response k w req r, s) (partial p, s')
      → r ≡ ok p
  unfolding decode_response
  decode_response_ok (ok q) s s' p h = ground arith
  decode_response_ok (err e) s s' p h = absurd (ground arith)

  after_response-Own :
      (n : CommitteeNode) (requests : ℕ) (asked : PartialDecryptRequest k)
      (resp : Result SdkError PartialDecryptResponse) (s s' : Progress) (p : PartialInput)
      → w.ask_partial requests n.endpoint asked ≡ resp
      → after_response k w req n resp s ≡ (partial p, s')
      → Own k w n p
  unfolding after_response vote_rotation Own Sent
  after_response-Own n requests asked (err e) s s' p came h = absurd (ground arith)
  after_response-Own n requests asked (ok resp) s s' p came h =
      elim (Bool-cases (diverges k w req resp)) [
        | inl other ↦ absurd (ground arith)
        | inr same ↦
            let read : decoded k w req n resp ≡ ok p =
              decode_response_ok (decoded k w req n resp) s s' p (rw same at h) in
            let (at_point, committed, share, proof) = decoded_own n resp p read in
            (at_point, committed, (requests, asked, resp, came, share, proof))
      ]

  send-Own :
      (n : CommitteeNode) (s s' : Progress) (p : PartialInput)
      (prepared : Result SdkError (PartialDecryptRequest k))
      → send k w req n s prepared ≡ (partial p, s')
      → Own k w n p
  unfolding send
  send-Own n s s' p (ok asked) h =
      after_response-Own n s.requests asked (w.ask_partial s.requests n.endpoint asked)
        (record s { requests = suc s.requests }) s' p refl h
  send-Own n s s' p (err e) h = absurd (ground arith)

  ask_node-Own :
      (subset : List ℕ) (n : CommitteeNode) (s s' : Progress) (p : PartialInput)
      → ask_node k w req subset n s ≡ (partial p, s')
      → Own k w n p
  unfolding ask_node
  ask_node-Own subset n s s' p h = send-Own n s s' p (prepare k w req subset n s.requests) h

  unfoldable pub Collected : (CommitteeNode → Type 0) → ℕ → Round × Progress → Type 0
  Collected P count (complete ps, s) = All (Supplied k w P) ps × (length ps ≡ count)
  Collected P count (faulty bad, s) = Unit
  Collected P count (failed e, s) = Unit

  after_answer-Collected :
      (P : CommitteeNode → Type 0) (count : ℕ)
      (go_on : List PartialInput → Progress → Round × Progress) (n : CommitteeNode)
      (partials : List PartialInput) (answer : Answer × Progress)
      → P n
      → All (Supplied k w P) partials
      → ((p : PartialInput) (s : Progress) → answer ≡ (partial p, s) → Own k w n p)
      → ((ps : List PartialInput) (s : Progress)
          → All (Supplied k w P) ps
          → length ps ≡ suc (length partials)
          → Collected P count (go_on ps s))
      → Collected P count (after_answer k w req go_on n.index partials answer)
  unfolding after_answer Collected Supplied
  after_answer-Collected P count go_on n partials (partial p, s) pn held own next =
      next (partials ++ p ∷ []) s
        (All-append (Supplied k w P) partials (p ∷ []) held (supplied P p n pn (own p s refl), tt))
        (length-append partials (p ∷ []) ∙ omega arith)
  after_answer-Collected P count go_on n partials (dropped, s) pn held own next = tt
  after_answer-Collected P count go_on n partials (failed e, s) pn held own next = tt

  pub ask_all-Collected :
      (P : CommitteeNode → Type 0) (subset : List ℕ) (nodes : List CommitteeNode)
      (partials : List PartialInput) (s : Progress) (count : ℕ)
      → All P nodes
      → All (Supplied k w P) partials
      → length partials + length nodes ≡ count
      → Collected P count (ask_all k w req subset nodes partials s)
  unfolding ask_all Collected
  ask_all-Collected P subset [] partials s count h held total = (held, omega (arith, total))
  ask_all-Collected P subset (n ∷ ns) partials s count (pn, h) held total =
      after_answer-Collected P count _ n partials (ask_node k w req subset n s) pn held
        (λ p s'. ask_node-Own subset n s s' p)
        (λ ps s' held' longer.
          ask_all-Collected P subset ns ps s' count h held' (omega (arith, total, longer)))

  -- The plaintext is what `open_secret` makes of as many partials as the threshold, of nodes of
  -- which `P` holds.
  unfoldable pub Recovered : (CommitteeNode → Type 0) → Bytes → Type 0
  Recovered P plaintext =
      (partials : List PartialInput) × All (Supplied k w P) partials
      × (length partials ≡ req.threshold)
      × (open_secret k req.shared_a req.capsule req.secret_id req.epoch req.binding_id req.aad
            req.ct partials
          ≡ ok plaintext)

  finish-Recovered :
      (P : CommitteeNode → Type 0)
      (next : List CommitteeNode → Progress → Option (Result SdkError Bytes))
      (available : List CommitteeNode) (round : Round × Progress)
      → Collected P req.threshold round
      → ((bad : ℕ) (s : Progress) (plaintext : Bytes)
          → next (without bad available) s ≡ some (ok plaintext)
          → Recovered P plaintext)
      → {plaintext : Bytes} → finish k w req next available round ≡ some (ok plaintext)
      → Recovered P plaintext
  unfolding finish Collected Recovered
  finish-Recovered P next available (complete ps, s) (held, count) later h =
      (ps, held, count, ground arith)
  finish-Recovered P next available (faulty bad, s) c later h = later bad s _ h
  finish-Recovered P next available (failed e, s) c later h = absurd (ground arith)

  module _ (laws : ChoiceLaws w) where
    rounds-Recovered :
        (P : CommitteeNode → Type 0) (fuel : ℕ) (available : List CommitteeNode) (s : Progress)
        → All P available
        → {plaintext : Bytes} → rounds k w req fuel available s ≡ some (ok plaintext)
        → Recovered P plaintext
    unfolding rounds out_of_nodes
    rounds-Recovered P zero available s held h = absurd (ground arith)
    rounds-Recovered P (suc fuel) available s held h =
        let chosen = choose_quorum k w req s.requests available in
        let enough : ltb (length available) req.threshold ≡ false = ground arith in
        finish-Recovered P (rounds k w req fuel) available
          (ask_all k w req (map (λ (n : CommitteeNode). n.index) chosen) chosen [] s)
          (ask_all-Collected P _ chosen [] s req.threshold
            (choose_quorum-All w laws req P s.requests available held) tt
            (omega (arith, length-choose_quorum w laws req s.requests available (ground arith))))
          (λ bad s' _ h'.
            rounds-Recovered P fuel (without bad available) s' (without-All P bad available held)
              h')
          (ground arith)

    decrypt_from-Recovered :
        (P : CommitteeNode → Type 0) (probed : List CommitteeNode × List NodeFault)
        → All P (probed.0)
        → {plaintext : Bytes} → decrypt_from k w req probed ≡ some (ok plaintext)
        → Recovered P plaintext
    unfolding decrypt_from
    decrypt_from-Recovered P (active, faults) held h =
        rounds-Recovered P (suc (length active)) active
          (record { faults = faults; rotated_votes = []; requests = length req.nodes }) held
          (ground arith)

    -- A plaintext that `decrypt` returns is what `open_secret` makes of exactly as many partials as
    -- the threshold, each with the index and the share commitment of one of the nodes that passed
    -- the health probe, and with the share and the proof that this node sent: no node's response
    -- provides a point or a commitment. The random choice is assumed to choose elements of the
    -- slice, as many as asked for.
    pub decrypt_sound :
        {plaintext : Bytes}
        → decrypt k w req ≡ some (ok plaintext)
        → (partials : List PartialInput) × All
            (Supplied k w (λ n. Listed n ((probe k w req 0 req.nodes).0)))
            partials
          × (length partials ≡ req.threshold)
          × (open_secret k req.shared_a req.capsule req.secret_id req.epoch req.binding_id req.aad
                req.ct partials
              ≡ ok plaintext)
    unfolding decrypt Recovered
    decrypt_sound h =
        decrypt_from-Recovered _ (probe k w req 0 req.nodes) (All-Listed _ _ (λ n l. l)) h
