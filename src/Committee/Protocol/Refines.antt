-- ===== src/Committee/Protocol/Refines.antt =====
-- crates/matter-sdk/src/committee.rs: `decrypt` refines the abstract protocol.
use matter_sdk.Common.{
  ℕ, zero, suc, ◌≤◌, ◌<◌, ◌≡◌, inl, inr, refl, sym, subst, Bool, true, false, List, [], ◌∷◌, Option,
  some, none, Result, err, arith, length, map, ltb, if◌then◌else◌,
}
use matter_sdk.Core.Crypto.{Bytes, Crypto}
use matter_sdk.Error.{SdkError, NodeFault, quorum_unavailable, epoch_rotated}
use matter_sdk.Committee.{
  World, DecryptRequest, Progress, failed, Round, complete, faulty, failed, most_voted, probe,
  out_of_nodes, finish, rounds, decrypt_from, decrypt, choose_quorum,
}
use matter_sdk.Committee.Rotation.{Votes}
use matter_sdk.Committee.Quorum.{CommitteeNode, Listed, without}
use matter_sdk.Committee.Choice.{ChoiceLaws, choose_quorum-Listed, length-choose_quorum}
use matter_sdk.Committee.Terminates.{decrypt_terminates}
use matter_sdk.Committee.Sound.{Collected, ask_all-Collected}
use matter_sdk.Committee.Protocol.{
  Protocol, opens, drops, outvotes, rotates, ends, exhausts, settles, Lost, Stop, Outcome,
  ask_all-Outcome,
}

module _ (k : Crypto) (w : World k) (req : DecryptRequest) where
  stopped :
      (available : List CommitteeNode) (votes : Votes) (cause : SdkError)
      → req.threshold ≤ length available
      → Stop k w req votes cause
      → Protocol k w req available votes (err cause)
  unfolding Stop
  stopped available votes cause plenty (inl (e, other, enough, same)) =
      subst (λ c. Protocol k w req available votes (err c)) (sym same)
        (rotates available votes e plenty other enough)
  stopped available votes cause plenty (inr fatal) = ends available votes cause plenty fatal

  lost :
      (available : List CommitteeNode) (votes votes' : Votes) (n : CommitteeNode)
      (r : Result SdkError Bytes)
      → req.threshold ≤ length available
      → Listed n available
      → Lost k w req votes votes'
      → Protocol k w req (without n.index available) votes' r
      → Protocol k w req available votes r
  unfolding Lost
  lost available votes votes' n r plenty l (inl same) later =
      drops available votes n r plenty l
        (subst (λ v. Protocol k w req (without n.index available) v r) same later)
  lost available votes votes' n r plenty l (inr (e, other, few, same)) later =
      outvotes available votes n e r plenty l other few
        (subst (λ v. Protocol k w req (without n.index available) v r) same later)

  finish-Protocol :
      (votes : Votes) (next : List CommitteeNode → Progress → Option (Result SdkError Bytes))
      (available : List CommitteeNode) (round : Round × Progress) (r : Result SdkError Bytes)
      → req.threshold ≤ length available
      → Collected k w req (λ n. Listed n available) req.threshold round
      → Outcome k w req available votes round
      → ((bad : ℕ) (s : Progress)
          → next (without bad available) s ≡ some r
          → Protocol k w req (without bad available) s.rotated_votes r)
      → finish k w req next available round ≡ some r
      → Protocol k w req available votes r
  unfolding finish Collected Outcome
  finish-Protocol votes next available (complete partials, s) r plenty (held, count) out later h =
      subst (Protocol k w req available votes) (ground arith)
        (opens available votes partials held count)
  finish-Protocol votes next available (faulty bad, s) r plenty c (n, l, same, lost_here) later h =
      lost available votes s.rotated_votes n r plenty l lost_here (
        subst (λ i. Protocol k w req (without i available) s.rotated_votes r) (sym same)
          (later bad s h))
  finish-Protocol votes next available (failed e, s) r plenty c stop later h =
      subst (Protocol k w req available votes) (ground arith)
        (stopped available votes e plenty stop)

  over :
      (available : List CommitteeNode) (votes : Votes) (faults : List NodeFault) (best : Option ℕ)
      → length available < req.threshold
      → most_voted votes ≡ best
      → Protocol k w req available votes (elim best [
        | some served ↦ err (epoch_rotated served req.epoch)
        | none ↦ err (quorum_unavailable req.threshold (length available) faults)
      ])
  unfolding most_voted
  over available votes faults (some e) few best = settles available votes e few best
  over available [] faults none few best = exhausts available faults few
  over available (v ∷ votes) faults none few best = absurd (ground arith)

  either :
      (X : Type 0) (b : Bool) {a c r : Option (Result SdkError Bytes)}
      → (b ≡ true → a ≡ r → X)
      → (b ≡ false → c ≡ r → X)
      → (if b then a else c) ≡ r
      → X
  either X true left right h = left refl h
  either X false left right h = right refl h

  module _ (laws : ChoiceLaws w) where
    rounds-Protocol :
        (fuel : ℕ) (available : List CommitteeNode) (s : Progress) (r : Result SdkError Bytes)
        → rounds k w req fuel available s ≡ some r
        → Protocol k w req available s.rotated_votes r
    unfolding rounds out_of_nodes
    rounds-Protocol zero available s r h = absurd (ground arith)
    rounds-Protocol (suc fuel) available s r h =
        let chosen = choose_quorum k w req s.requests available in
        let here = choose_quorum-Listed w laws req s.requests available in
        either (Protocol k w req available s.rotated_votes r) (ltb (length available) req.threshold)
          (λ few out. subst (Protocol k w req available s.rotated_votes) (ground (arith, out)) (
            over available s.rotated_votes s.faults (most_voted s.rotated_votes)
              (ground (arith, few)) refl))
          (λ enough out.
            let plenty : req.threshold ≤ length available = ground (arith, enough) in
            finish-Protocol s.rotated_votes (rounds k w req fuel) available _ r plenty
              (ask_all-Collected k w req (λ n. Listed n available) _ chosen [] s req.threshold here
                tt (omega (arith, length-choose_quorum w laws req s.requests available plenty)))
              (ask_all-Outcome k w req available s.rotated_votes
                (map (λ (n : CommitteeNode). n.index) chosen) chosen [] s here refl)
              (λ bad s' h'. rounds-Protocol fuel (without bad available) s' r h') out)
          h

    decrypt_from-Protocol :
        (probed : List CommitteeNode × List NodeFault) (r : Result SdkError Bytes)
        → decrypt_from k w req probed ≡ some r
        → Protocol k w req probed.0 [] r
    unfolding decrypt_from
    decrypt_from-Protocol (active, faults) r h =
        either (Protocol k w req active [] r) (ltb (length active) req.threshold)
          (λ few out.
            subst (Protocol k w req active []) (ground (arith, out))
              (exhausts active faults (ground (arith, few))))
          (λ enough out.
            rounds-Protocol (suc (length active)) active
              (record { faults = faults; rotated_votes = []; requests = length req.nodes }) r out)
          h

    -- `decrypt` refines the protocol: it returns a result, and the protocol, from the nodes that
    -- passed the health probe and no votes, has that result. The random choice is assumed to choose
    -- elements of the slice, as many as asked for.
    pub decrypt_refines :
        (r : Result SdkError Bytes) × (decrypt k w req ≡ some r)
        × Protocol k w req (probe k w req 0 req.nodes).0 [] r
    unfolding decrypt
    decrypt_refines =
        let (r, returned) = decrypt_terminates k w req laws in
        (r, returned, decrypt_from-Protocol (probe k w req 0 req.nodes) r returned)
