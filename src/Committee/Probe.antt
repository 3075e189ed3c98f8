-- ===== src/Committee/Probe.antt =====
-- crates/matter-sdk/src/committee.rs: the health probe, and a request with too few active nodes.
use matter_sdk.Common.{
  Text, codes, text_eq, ◌==◌, ◌||◌, map, ap, if◌then◌else◌, Bool-cases, subst, sym, ◌∙◌, ℕ, suc,
  ◌+◌, ◌<◌, ◌≡◌, ◌↔◌, refl, ◌∷◌, List, [], Bool, true, false, ◌&&◌, Option, some, none, Result, ok,
  err, arith, length, All, All-weaken, inl, inr,
}
use matter_sdk.Core.Crypto.{Crypto}
use matter_sdk.Signer.{Signer}
use matter_sdk.Error.{SdkError, NodeFault, quorum_unavailable}
use matter_sdk.Committee.{
  World, DecryptRequest, PartialDecryptRequest, PartialDecryptResponse, Health, is_active,
  speaks_our_protocol, health_fault, place, probe, decrypt_from, decrypt,
}
use matter_sdk.Committee.Quorum.{CommitteeNode, Listed}

-- What the probe asks of an answer: the client's protocol version, or none reported, and the status
-- `active`.
unfoldable pub usable : (k : Crypto) → Result SdkError Health → Bool
usable k (ok h) =
    ((h.crypto_protocol_version == 0) || (h.crypto_protocol_version == k.protocol_version))
    && text_eq h.status (codes "active")
usable k (err e) = false

-- The indices that faults name.
abbrev pub blamed : List NodeFault → List ℕ
blamed = map (λ (f : NodeFault). f.index)

cons_index : {a b : ℕ} {s t : List ℕ} → a ≡ b → s ≡ t → a ∷ s ≡ b ∷ t
cons_index p q = ground (arith, p, q)

module _ (k : Crypto) (w : World k) (req : DecryptRequest) where
  -- A probed node is dropped exactly when its answer is an error, speaks another protocol or is not
  -- active.
  pub health_fault_iff :
      (n : CommitteeNode) (answer : Result SdkError Health)
      → (health_fault k w req n answer ≡ none) ↔ (usable k answer ≡ true)
  unfolding health_fault usable speaks_our_protocol is_active
  health_fault_iff n (ok h) = ground arith
  health_fault_iff n (err e) = ground arith

  -- What the probe knows of an active node: it is a candidate and answered a probe well.
  unfoldable pub Probed : List CommitteeNode → CommitteeNode → Type 0
  Probed nodes n =
      Listed n nodes × ((requests : ℕ) × (usable k (w.health_of requests n.endpoint) ≡ true))

  place_sound :
      (P Q : CommitteeNode → Type 0) (n : CommitteeNode) (fault : Option NodeFault)
      (rest : List CommitteeNode × List NodeFault)
      → ((m : CommitteeNode) → P m → Q m)
      → (fault ≡ none → Q n)
      → All P rest.0
      → All Q (place k w req n fault rest).0
  unfolding place
  place_sound P Q n none (active, faults) weaken here there =
      (here refl, All-weaken P Q weaken active there)
  place_sound P Q n (some fault) (active, faults) weaken here there =
      All-weaken P Q weaken active there

  -- Every node that the probe keeps is one of the candidates, and answered a probe as active and
  -- with a protocol version that the client speaks.
  pub probe_sound :
      (requests : ℕ) (nodes : List CommitteeNode)
      → All (Probed nodes) (probe k w req requests nodes).0
  unfolding probe Probed Listed
  probe_sound requests [] = tt
  probe_sound requests (n ∷ ns) =
      place_sound (Probed ns) (Probed (n ∷ ns)) n
        (health_fault k w req n (w.health_of requests n.endpoint)) (probe k w req (suc requests) ns)
        (λ m (listed, answered). (inr listed, answered))
        (λ fine. (inl refl, (requests, (health_fault_iff n _).0 fine)))
        (probe_sound (suc requests) ns)

  length-place :
      (n : CommitteeNode) (fault : Option NodeFault) (rest : List CommitteeNode × List NodeFault)
      → length (place k w req n fault rest).0 + length (place k w req n fault rest).1
        ≡ suc (length rest.0 + length rest.1)
  unfolding place
  length-place n none (active, faults) = omega arith
  length-place n (some fault) (active, faults) = omega arith

  -- Each candidate is kept or has a fault on record.
  pub length-probe :
      (requests : ℕ) (nodes : List CommitteeNode)
      → length (probe k w req requests nodes).0 + length (probe k w req requests nodes).1
        ≡ length nodes
  unfolding probe
  length-probe requests [] = omega arith
  length-probe requests (n ∷ ns) = omega (
    arith,
    length-place n (health_fault k w req n (w.health_of requests n.endpoint))
        (probe k w req (suc requests) ns),
    length-probe (suc requests) ns,
  )

  -- The nodes whose answer to their probe is usable, and the indices of the others, in order. The
  -- probes are the first requests, one for each node.
  unfoldable pub serving : ℕ → List CommitteeNode → List CommitteeNode
  serving requests [] = []
  serving requests (n ∷ ns) =
      if usable k (w.health_of requests n.endpoint)
      then n ∷ serving (suc requests) ns
      else serving (suc requests) ns

  unfoldable pub silent : ℕ → List CommitteeNode → List ℕ
  silent requests [] = []
  silent requests (n ∷ ns) =
      if usable k (w.health_of requests n.endpoint)
      then silent (suc requests) ns
      else n.index ∷ silent (suc requests) ns

  fault_index :
      (n : CommitteeNode) (answer : Result SdkError Health) (f : NodeFault)
      → health_fault k w req n answer ≡ some f
      → f.index ≡ n.index
  unfolding health_fault
  fault_index n (ok h) f same = ground arith
  fault_index n (err e) f same = ground arith

  place_split :
      (n : CommitteeNode) (answer : Result SdkError Health) (fault : Option NodeFault)
      (rest : List CommitteeNode × List NodeFault) (nodes : List CommitteeNode) (indices : List ℕ)
      → health_fault k w req n answer ≡ fault
      → rest.0 ≡ nodes
      → blamed rest.1 ≡ indices
      → ((place k w req n fault rest).0 ≡ (if usable k answer then n ∷ nodes else nodes))
        × (blamed (place k w req n fault rest).1
            ≡ (if usable k answer then indices else n.index ∷ indices))
  unfolding place
  place_split n answer none rest nodes indices same kept dropped =
      let well : usable k answer ≡ true = (health_fault_iff n answer).0 same in
      rw well (ap (λ ns. n ∷ ns) kept, dropped)
  place_split n answer (some f) rest nodes indices same kept dropped =
      let ill : usable k answer ≡ false = elim (Bool-cases (usable k answer)) [
        | inl well ↦ absurd (ground (arith, (health_fault_iff n answer).1 well))
        | inr no_use ↦ no_use
      ] in
      rw ill (kept, cons_index (fault_index n answer f same) dropped)

  -- The probe splits the nodes so.
  probe_split :
      (requests : ℕ) (nodes : List CommitteeNode)
      → ((probe k w req requests nodes).0 ≡ serving requests nodes)
        × (blamed (probe k w req requests nodes).1 ≡ silent requests nodes)
  unfolding probe serving silent
  probe_split requests [] = (refl, refl)
  probe_split requests (n ∷ ns) =
      let (kept, dropped) = probe_split (suc requests) ns in
      place_split n (w.health_of requests n.endpoint) _ (probe k w req (suc requests) ns) _ _ refl
        kept dropped

module _ (k : Crypto) (w : World k) (req : DecryptRequest)
    (ask : ℕ → Text → PartialDecryptRequest k → Result SdkError PartialDecryptResponse)
    (signer : Signer k) (choose : ℕ → List CommitteeNode → ℕ → List CommitteeNode) where
  -- A world with the same probes.
  unfoldable other : World k
  other = record w { ask_partial = ask; signer = signer; choose_multiple = choose }

  place_same :
      (n : CommitteeNode) (fault : Option NodeFault) (rest : List CommitteeNode × List NodeFault)
      → place k other req n fault rest ≡ place k w req n fault rest
  unfolding place
  place_same n none (active, faults) = refl
  place_same n (some f) (active, faults) = refl

  fault_same :
      (n : CommitteeNode) (answer : Result SdkError Health)
      → health_fault k other req n answer ≡ health_fault k w req n answer
  unfolding health_fault other
  fault_same n (ok h) = refl
  fault_same n (err e) = refl

  probe_same :
      (requests : ℕ) (nodes : List CommitteeNode)
      → probe k other req requests nodes ≡ probe k w req requests nodes
  unfolding probe other
  probe_same requests [] = refl
  probe_same requests (n ∷ ns) =
      place_same n (health_fault k other req n (w.health_of requests n.endpoint))
        (probe k other req (suc requests) ns)
      ∙ (ap (λ f. place k w req n f (probe k other req (suc requests) ns))
            (fault_same n (w.health_of requests n.endpoint))
          ∙ ap (place k w req n (health_fault k w req n (w.health_of requests n.endpoint)))
              (probe_same (suc requests) ns))

  refused_early :
      (probed : List CommitteeNode × List NodeFault)
      → length probed.0 < req.threshold
      → decrypt_from k other req probed
        ≡ some (err (quorum_unavailable req.threshold (length probed.0) probed.1))
  unfolding decrypt_from
  refused_early (active, faults) h = ground arith

-- With fewer nodes than the threshold that answer their probe with the status `active` and a
-- protocol version of the client, `decrypt` asks no node for a partial decryption: whatever they
-- would answer, and whatever the signer and the random choice, the result is `QuorumUnavailable`,
-- with the threshold, the number of those nodes, and one fault for each of the others, in order.
pub decrypt_too_few :
    (k : Crypto) (w : World k) (req : DecryptRequest)
    → length (serving k w req 0 req.nodes) < req.threshold
    → (faults : List NodeFault) × (blamed faults ≡ silent k w req 0 req.nodes)
      × ((ask : ℕ → Text → PartialDecryptRequest k → Result SdkError PartialDecryptResponse)
            (signer : Signer k) (choose : ℕ → List CommitteeNode → ℕ → List CommitteeNode)
          → decrypt k
              (record w { ask_partial = ask; signer = signer; choose_multiple = choose })
              req
            ≡ some (
                err
                  (quorum_unavailable req.threshold (length (serving k w req 0 req.nodes)) faults)))
unfolding decrypt other
decrypt_too_few k w req few =
    let probed = probe k w req 0 req.nodes in
    let (kept, dropped) = probe_split k w req 0 req.nodes in
    let few_active : length probed.0 < req.threshold =
      subst (λ ns. length ns < req.threshold) (sym kept) few in
    (
      probed.1,
      dropped,
      λ ask signer choose.
          ap
            (decrypt_from k
              (record w { ask_partial = ask; signer = signer; choose_multiple = choose }) req)
            (probe_same k w req ask signer choose 0 req.nodes)
          ∙ (refused_early k w req ask signer choose probed few_active
              ∙ ap (λ ns. some (err (quorum_unavailable req.threshold (length ns) probed.1))) kept),
    )
