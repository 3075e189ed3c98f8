-- ===== src/Committee/Terminates.antt =====
-- crates/matter-sdk/src/committee.rs: the loop of `decrypt` ends.
use matter_sdk.Common.{
  ℕ, zero, suc, ◌<◌, ◌≡◌, refl, ◌∷◌, List, [], Bool, true, false, Option, some, Result, arith, map,
  length, ltb, All, All-weaken, if◌then◌else◌,
}
use matter_sdk.Core.Crypto.{Bytes, Crypto}
use matter_sdk.Core.Open.{PartialInput}
use matter_sdk.Error.{SdkError, NodeFault}
use matter_sdk.Committee.{
  World, DecryptRequest, Progress, Answer, partial, dropped, failed, Round, complete, faulty,
  failed, ask_node, after_answer, ask_all, finish, rounds, decrypt_from, decrypt, probe,
  choose_quorum,
}
use matter_sdk.Committee.Quorum.{CommitteeNode, length-without, without}
use matter_sdk.Committee.Choice.{ChoiceLaws, choose_quorum-Listed}

module _ (k : Crypto) (w : World k) (req : DecryptRequest) where
  FaultIn : (ℕ → Type 0) → Round × Progress → Type 0
  FaultIn P (complete _, s) = Unit
  FaultIn P (faulty bad, s) = P bad
  FaultIn P (failed _, s) = Unit

  after_answer_fault :
      (P : ℕ → Type 0) (go_on : List PartialInput → Progress → Round × Progress) (index : ℕ)
      (partials : List PartialInput) (answer : Answer × Progress)
      → P index
      → ((ps : List PartialInput) (s : Progress) → FaultIn P (go_on ps s))
      → FaultIn P (after_answer k w req go_on index partials answer)
  unfolding after_answer FaultIn
  after_answer_fault P go_on index partials (partial p, s) here there = there _ s
  after_answer_fault P go_on index partials (dropped, s) here there = here
  after_answer_fault P go_on index partials (failed e, s) here there = tt

  ask_all_fault :
      (P : ℕ → Type 0) (subset : List ℕ) (nodes : List CommitteeNode) (partials : List PartialInput)
      (s : Progress)
      → All (λ (n : CommitteeNode). P n.index) nodes
      → FaultIn P (ask_all k w req subset nodes partials s)
  unfolding ask_all FaultIn
  ask_all_fault P subset [] partials s h = tt
  ask_all_fault P subset (n ∷ ns) partials s (here, there) =
      after_answer_fault P _ n.index partials (ask_node k w req subset n s) here
        (λ ps s'. ask_all_fault P subset ns ps s' there)

  Returns : Option (Result SdkError Bytes) → Type 0
  Returns o = (r : Result SdkError Bytes) × (o ≡ some r)

  finish-Returns :
      (next : List CommitteeNode → Progress → Option (Result SdkError Bytes))
      (available : List CommitteeNode) (round : Round × Progress)
      → FaultIn (λ bad. (s : Progress) → Returns (next (without bad available) s)) round
      → Returns (finish k w req next available round)
  unfolding finish FaultIn Returns
  finish-Returns next available (complete partials, s) h = (_, refl)
  finish-Returns next available (faulty bad, s) h = h s
  finish-Returns next available (failed e, s) h = (_, refl)

  either-Returns :
      (b : Bool) (a c : Option (Result SdkError Bytes))
      → Returns a
      → (b ≡ false → Returns c)
      → Returns (if b then a else c)
  either-Returns true a c ha hc = ha
  either-Returns false a c ha hc = hc refl

  module _ (laws : ChoiceLaws w) where
    rounds_return :
        (fuel : ℕ) (available : List CommitteeNode) (s : Progress)
        → length available < fuel
        → Returns (rounds k w req fuel available s)
    unfolding rounds Returns
    rounds_return zero available s h = absurd (omega arith)
    rounds_return (suc fuel) available s h =
        let chosen = choose_quorum k w req s.requests available in
        either-Returns (ltb (length available) req.threshold) _ _ (_, refl)
          (λ _. finish-Returns (rounds k w req fuel) available _ (
            ask_all_fault _ (map (λ (n : CommitteeNode). n.index) chosen) chosen [] s (
              All-weaken _ _
                (λ n l s'.
                  rounds_return fuel (without n.index available) s'
                    (omega (arith, h, length-without n available l)))
                chosen (choose_quorum-Listed w laws req s.requests available))))

    decrypt_from-Returns :
        (probed : List CommitteeNode × List NodeFault) → Returns (decrypt_from k w req probed)
    unfolding decrypt_from Returns
    decrypt_from-Returns (active, faults) =
        either-Returns (ltb (length active) req.threshold) _ _ (_, refl)
          (λ _. rounds_return (suc (length active)) active _ (omega arith))

    -- Whatever the nodes and the signer answer, `decrypt` returns a result: the fuel, one round
    -- more than the active nodes, is enough, as each round that does not return drops a node. The
    -- random choice is assumed to choose elements of the slice it is given, as many as asked for.
    pub decrypt_terminates : (r : Result SdkError Bytes) × (decrypt k w req ≡ some r)
    unfolding decrypt Returns
    decrypt_terminates = decrypt_from-Returns (probe k w req 0 req.nodes)
