-- ===== src/Error/Summary.antt =====
-- The faults of a failed quorum, as they are shown.
use matter_sdk.Common.{
  true, ℕ, ◌+◌, ◌≡◌, ◌≤◌, refl, sym, ◌∙◌, List, [], ◌∷◌, ◌++◌, append_assoc, append-nil, Text,
  codes, map, arith, ltb,
}
use matter_sdk.Common.Decimal.{to_decimal}
use matter_sdk.Error.{
  health, partial_decrypt, NodeFault, fault_text, summarize_from, summarize_faults,
  quorum_unavailable, to_string,
}

-- Texts behind one another, each after a separator.
each_after : Text → List Text → Text
each_after sep [] = []
each_after sep (t ∷ ts) = sep ++ (t ++ each_after sep ts)

pub join : Text → List Text → Text
unfolding each_after
join sep [] = []
join sep (t ∷ ts) = t ++ each_after sep ts

summarize_from-each :
    (i : ℕ) (out : Text) (faults : List NodeFault)
    → 1 ≤ i
    → summarize_from i out faults ≡ out ++ each_after (codes "; ") (map fault_text faults)
unfolding summarize_from each_after
summarize_from-each i out [] h = sym (append-nil out)
summarize_from-each i out (f ∷ rest) h =
    let later : ltb 0 i ≡ true = ground arith in
    rw later (
      summarize_from-each (i + 1) ((out ++ codes "; ") ++ fault_text f) rest (omega arith)
      ∙ simp append_assoc)

-- The summary shows every fault, in the order in which the nodes were dropped, separated by
-- semicolons and after a dash.
pub summarize_faults-join :
    (f : NodeFault) (rest : List NodeFault)
    → summarize_faults (f ∷ rest) ≡ codes " — " ++ join (codes "; ") (map fault_text (f ∷ rest))
unfolding summarize_faults summarize_from join
summarize_faults-join f rest =
    summarize_from-each 1 (codes " — " ++ fault_text f) rest (omega arith) ∙ simp append_assoc

-- The example of the source's tests.
abbrev faults : List NodeFault
faults =
    record {
      index = 4;
      endpoint = codes "https://kgc4.testnet.openmatter.network:443";
      stage = partial_decrypt;
      detail = codes "503 Service Unavailable";
    }
    ∷ record {
      index = 5;
      endpoint = codes "https://kgc5.testnet.openmatter.network:443";
      stage = health;
      detail = codes "connection refused";
    }
    ∷ []

renders_every_fault :
    to_string (λ c. true) (quorum_unavailable 3 2 faults)
    ≡ codes
        "quorum unavailable: need 3 healthy nodes, found 2 — node 4 (https://kgc4.testnet.openmatter.network:443) partial-decrypt: 503 Service Unavailable; node 5 (https://kgc5.testnet.openmatter.network:443) health: connection refused"
unfolding to_string fault_text to_decimal
renders_every_fault = refl

no_faults :
    to_string (λ c. true) (quorum_unavailable 3 1 [])
    ≡ codes "quorum unavailable: need 3 healthy nodes, found 1"
unfolding to_string to_decimal
no_faults = refl
