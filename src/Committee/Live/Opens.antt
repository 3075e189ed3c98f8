-- ===== src/Committee/Live/Opens.antt =====
-- crates/matter-sdk/src/committee.rs: with enough reliable nodes, `decrypt` comes to a quorum.
use matter_sdk.Common.{
  ℕ, zero, suc, ◌+◌, ◌≤◌, ◌<◌, ◌≡◌, refl, ap, subst, ◌∙◌, Bool, true, false, not, List, [], ◌∷◌,
  Option, some, none, Result, map_err, arith, length, map, ltb, All, All-weaken, if◌then◌else◌,
}
use matter_sdk.Core.Crypto.{Bytes, Crypto}
use matter_sdk.Core.Open.{PartialInput, open_secret}
use matter_sdk.Error.{SdkError, NodeFault, core}
use matter_sdk.Committee.{
  World, DecryptRequest, Progress, Round, complete, faulty, failed, votes_for, health_fault, place,
  probe, finish, rounds, decrypt_from, decrypt, choose_quorum,
}
use matter_sdk.Committee.Rotation.{Votes}
use matter_sdk.Committee.Quorum.{
  CommitteeNode, Listed, All-Listed, without, without-All, length-without,
}
use matter_sdk.Committee.Headcount.{
  headcount, headcount_le, headcount-without, headcount-without_lt,
}
use matter_sdk.Committee.Choice.{
  ChoiceLaws, choose_quorum-All, choose_quorum-Listed, length-choose_quorum,
}
use matter_sdk.Committee.Probe.{health_fault_iff, Probed, probe_sound}
use matter_sdk.Committee.Sound.{Supplied, Collected, ask_all-Collected}
use matter_sdk.Committee.Live.{Dependable, unreliable, OneMore, Room, Outcome, ask_all-Outcome}

module _ (k : Crypto) (w : World k) (req : DecryptRequest) (reliable : ℕ → Bool)
    (dependable : Dependable k w req reliable) where
  -- The result is what `open_secret` makes of partials of nodes of which `P` holds.
  Opened : (CommitteeNode → Type 0) → Option (Result SdkError Bytes) → Type 0
  Opened P result =
      (partials : List PartialInput) × All (Supplied k w P) partials
      × (length partials ≡ req.threshold)
      × (result
          ≡ some (
              map_err core (
                open_secret k req.shared_a req.capsule req.secret_id req.epoch req.binding_id
                  req.aad req.ct partials)))

  finish-Opened :
      (P Q : CommitteeNode → Type 0) (votes : Votes)
      (next : List CommitteeNode → Progress → Option (Result SdkError Bytes))
      (available : List CommitteeNode) (round : Round × Progress)
      → Collected k w req P req.threshold round
      → Outcome k w req reliable dependable Q votes round
      → ((n : CommitteeNode) (s : Progress)
          → Q n
          → reliable n.index ≡ false
          → OneMore k w req reliable dependable votes s.rotated_votes
          → Opened P (next (without n.index available) s))
      → Opened P (finish k w req next available round)
  unfolding finish Collected Outcome Opened
  finish-Opened P Q votes next available (complete partials, s) (held, count) out later =
      (partials, held, count, refl)
  finish-Opened P Q votes next available (faulty bad, s) c (n, here, same, shaky, more) later =
      unfold Opened in
      subst (λ i. Opened P (next (without i available) s)) same
        (later n s here (ap reliable same ∙ shaky) more)
  finish-Opened P Q votes next available (failed e, s) c out later = elim out [ ]

  -- No epoch can come to as many votes as the threshold.
  Bounded : List CommitteeNode → Votes → Type 0
  Bounded available votes =
      (e : ℕ)
      → votes_for e votes + headcount (unreliable k w req reliable dependable) available
        < req.threshold

  shaky_one : (i : ℕ) → reliable i ≡ false → unreliable k w req reliable dependable i ≡ true
  unfolding unreliable
  shaky_one i h = ap not h

  Bounded-Room :
      (available : List CommitteeNode) (votes : Votes)
      → Bounded available votes
      → (n : CommitteeNode) → Listed n available
      → Room k w req reliable dependable votes n
  unfolding Bounded Room
  Bounded-Room available votes bounded n l shaky e = omega (
    arith,
    bounded e,
    headcount-without_lt (unreliable k w req reliable dependable) n available l
        (shaky_one n.index shaky),
  )

  without-Bounded :
      (available : List CommitteeNode) (votes votes' : Votes) (n : CommitteeNode)
      → Bounded available votes
      → Listed n available
      → reliable n.index ≡ false
      → OneMore k w req reliable dependable votes votes'
      → Bounded (without n.index available) votes'
  unfolding Bounded OneMore
  without-Bounded available votes votes' n bounded l shaky more e = omega (
    arith,
    bounded e,
    more e,
    headcount-without_lt (unreliable k w req reliable dependable) n available l
        (shaky_one n.index shaky),
  )

  module _ (laws : ChoiceLaws w) where
    rounds-Opened :
        (P : CommitteeNode → Type 0) (fuel : ℕ) (available : List CommitteeNode) (s : Progress)
        → All (λ n. Listed n req.nodes) available
        → length available < fuel
        → req.threshold ≤ headcount reliable available
        → Bounded available s.rotated_votes
        → All P available
        → Opened P (rounds k w req fuel available s)
    unfolding rounds
    rounds-Opened P zero available s known enough count bounded held = absurd (omega arith)
    rounds-Opened P (suc fuel) available s known enough count bounded held =
        let chosen = choose_quorum k w req s.requests available in
        let plenty : req.threshold ≤ length available =
          omega (arith, count, headcount_le reliable available) in
        let go_on : ltb (length available) req.threshold ≡ false = ground (arith, plenty) in
        let here = choose_quorum-Listed w laws req s.requests available in
        rw go_on (
          finish-Opened P (λ n. Listed n available) s.rotated_votes (rounds k w req fuel) available
            _
            (ask_all-Collected k w req P _ chosen [] s req.threshold
              (choose_quorum-All w laws req P s.requests available held) tt
              (omega (arith, length-choose_quorum w laws req s.requests available plenty)))
            (ask_all-Outcome k w req reliable dependable (λ n. Listed n available) s.rotated_votes
              (map (λ (n : CommitteeNode). n.index) chosen) chosen [] s
              (choose_quorum-All w laws req (λ n. Listed n req.nodes) s.requests available known)
              here (All-weaken _ _ (Bounded-Room available s.rotated_votes bounded) chosen here)
              refl)
            (λ n s' l shaky more.
              rounds-Opened P fuel (without n.index available) s'
                (without-All (λ n. Listed n req.nodes) n.index available known)
                (omega (arith, enough, length-without n available l))
                (omega (arith, count, headcount-without reliable n.index available shaky))
                (without-Bounded available s.rotated_votes s'.rotated_votes n bounded l shaky more)
                (without-All P n.index available held)))

  place-kept :
      (n : CommitteeNode) (fault : Option NodeFault) (rest : List CommitteeNode × List NodeFault)
      (before : List CommitteeNode)
      → (reliable n.index ≡ true → fault ≡ none)
      → headcount reliable before ≤ headcount reliable rest.0
      → headcount reliable (n ∷ before) ≤ headcount reliable (place k w req n fault rest).0
  unfolding place headcount
  place-kept n none (active, faults) before fine more = ground (arith, more)
  place-kept n (some fault) (active, faults) before fine more = ground (arith, more, fine)

  place-fewer :
      (test : ℕ → Bool) (n : CommitteeNode) (fault : Option NodeFault)
      (rest : List CommitteeNode × List NodeFault) (before : List CommitteeNode)
      → headcount test rest.0 ≤ headcount test before
      → headcount test (place k w req n fault rest).0 ≤ headcount test (n ∷ before)
  unfolding place headcount
  place-fewer test n none (active, faults) before fewer = omega (arith, fewer)
  place-fewer test n (some fault) (active, faults) before fewer = omega (arith, fewer)

  probe-kept :
      (requests : ℕ) (nodes : List CommitteeNode)
      → All (λ n. Listed n req.nodes) nodes
      → headcount reliable nodes ≤ headcount reliable (probe k w req requests nodes).0
  unfolding probe
  probe-kept requests [] known = omega arith
  probe-kept requests (n ∷ ns) (l, known) =
      place-kept n (health_fault k w req n (w.health_of requests n.endpoint))
        (probe k w req (suc requests) ns) ns
        (λ steady.
          (health_fault_iff k w req n (w.health_of requests n.endpoint)).1
            (dependable.healthy n requests l steady))
        (probe-kept (suc requests) ns known)

  probe-fewer :
      (test : ℕ → Bool) (requests : ℕ) (nodes : List CommitteeNode)
      → headcount test (probe k w req requests nodes).0 ≤ headcount test nodes
  unfolding probe
  probe-fewer test requests [] = omega arith
  probe-fewer test requests (n ∷ ns) =
      place-fewer test n (health_fault k w req n (w.health_of requests n.endpoint))
        (probe k w req (suc requests) ns) ns (probe-fewer test (suc requests) ns)

  Probed-Listed : (n : CommitteeNode) → Probed k w req req.nodes n → Listed n req.nodes
  unfolding Probed
  Probed-Listed n (l, _) = l

  on_false :
      (P : CommitteeNode → Type 0) (b : Bool) (a c : Option (Result SdkError Bytes))
      → b ≡ false
      → Opened P c
      → Opened P (if b then a else c)
  on_false P true a c h opened = absurd (ground arith)
  on_false P false a c h opened = opened

  module _ (laws : ChoiceLaws w) where
    decrypt_from-Opened :
        (P : CommitteeNode → Type 0) (probed : List CommitteeNode × List NodeFault)
        → All (λ n. Listed n req.nodes) probed.0
        → req.threshold ≤ headcount reliable probed.0
        → Bounded probed.0 []
        → All P probed.0
        → Opened P (decrypt_from k w req probed)
    unfolding decrypt_from
    decrypt_from-Opened P (active, faults) known count bounded held =
        let plenty : req.threshold ≤ length active =
          omega (arith, count, headcount_le reliable active) in
        let go_on : ltb (length active) req.threshold ≡ false = ground (arith, plenty) in
        on_false P (ltb (length active) req.threshold) _ _ go_on (
          rounds-Opened laws P (suc (length active)) active
            (record { faults = faults; rotated_votes = []; requests = length req.nodes }) known
            (omega arith) count bounded held)

    -- If as many of the request's nodes as the threshold are reliable, and fewer than the
    -- threshold are not, `decrypt` comes to call `open_secret`, and its result is what that returns,
    -- a plaintext or an error, for as many partials as the threshold, each with the index and the
    -- share commitment of one of the request's nodes, and with the share and the proof that this node
    -- sent. Neither too few nodes nor a rotation is reported, whatever the other nodes answer, short of a partial that does not decode. The random choice is assumed
    -- to choose elements of the slice, as many as asked for, and the signer to authorize every
    -- request.
    pub decrypt_opens :
        req.threshold ≤ headcount reliable req.nodes
        → headcount (λ i. not (reliable i)) req.nodes < req.threshold
        → (partials : List PartialInput) × All (Supplied k w (λ n. Listed n req.nodes)) partials
          × (length partials ≡ req.threshold)
          × (decrypt k w req
              ≡ some (
                  map_err core (
                    open_secret k req.shared_a req.capsule req.secret_id req.epoch req.binding_id
                      req.aad req.ct partials)))
    unfolding decrypt Opened Bounded unreliable votes_for
    decrypt_opens count few =
        let probed = probe k w req 0 req.nodes in
        let known =
          All-weaken (Probed k w req req.nodes) (λ n. Listed n req.nodes) Probed-Listed probed.0
            (probe_sound k w req 0 req.nodes) in
        unfold Opened Bounded unreliable votes_for in
        decrypt_from-Opened (λ n. Listed n req.nodes) probed known
          (omega (arith, count, probe-kept 0 req.nodes (All-Listed _ req.nodes (λ n l. l))))
          (λ e. omega (arith, few, probe-fewer (λ i. not (reliable i)) 0 req.nodes)) known
