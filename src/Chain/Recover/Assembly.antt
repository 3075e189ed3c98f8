-- ===== src/Chain/Recover/Assembly.antt =====
-- What the joined tables promise.
use matter_sdk.Common.{
  ℕ, ◌≡◌, ◌⊎◌, inl, inr, refl, List, [], ◌∷◌, Option, none, some, Text, Result, ok, err, ◌>>=◌,
  >>=-eq-ok, arith, All, All-weaken, ok_or, subst, ap, sym, ◌∙◌,
}
use matter_sdk.Core.Crypto.{Bytes}
use matter_sdk.Error.{SdkError}
use matter_sdk.Committee.Quorum.{
  CommitteeNode, Listed, Ascending, sort_by_index, sort_by_index-All, sort_by_index-Ascending,
  sort_by_index-Listed,
}
use matter_sdk.Chain.Recover.Tables.{
  Account, lookup, endpoint_of, missing, join_member, join, assemble_nodes,
}

-- A member of the committee, with its index.
unfoldable pub Seated : Account → ℕ → List (Account × ℕ) → Type 0
Seated id index [] = ⊥
Seated id index ((a, i) ∷ rest) = ((id ≡ a) × (index ≡ i)) ⊎ Seated id index rest

module _ (endpoints commitments : List (Account × Bytes)) (epoch : ℕ) where
  -- A node that stands for a member: with its index, its endpoint and its commitment.
  unfoldable pub Joins : List (Account × ℕ) → CommitteeNode → Type 0
  Joins committee n =
      (id : Account) × Seated id n.index committee
      × (endpoint_of endpoints id ≡ some n.endpoint)
      × (lookup commitments id ≡ some n.share_commitment)

  later-Joins :
      (committee : List (Account × ℕ)) (member : Account × ℕ) (n : CommitteeNode)
      → Joins committee n
      → Joins (member ∷ committee) n
  unfolding Joins Seated
  later-Joins committee (a, i) n (id, seated, found, committed) = (id, inr seated, found, committed)

  node_of : ℕ → Text → Bytes → CommitteeNode
  node_of i e g = record { index = i; endpoint = e; share_commitment = g }

  -- A turn that kept its member.
  member_kept :
      (a : Account) (i : ℕ) (e : Text) (joined : Result SdkError (List CommitteeNode))
      {nodes : List CommitteeNode}
      → join_member endpoints commitments epoch a i (some e) joined ≡ ok nodes
      → (g : Bytes) × (ns : List CommitteeNode) × (lookup commitments a ≡ some g)
        × (joined ≡ ok ns)
        × (node_of i e g ∷ ns ≡ nodes)
  unfolding join_member node_of
  member_kept a i e joined h =
      let (g, kept, h₁) = >>=-eq-ok (ok_or (lookup commitments a) (missing i epoch)) _ h in
      let (ns, later, h₂) = >>=-eq-ok joined _ h₁ in (g, ns, ground arith, later, ground arith)

  member_sound :
      (a : Account) (i : ℕ) (rest : List (Account × ℕ)) (endpoint : Option Text)
      (joined : Result SdkError (List CommitteeNode)) {nodes : List CommitteeNode}
      → endpoint_of endpoints a ≡ endpoint
      → ((ns : List CommitteeNode) → joined ≡ ok ns → All (Joins rest) ns)
      → join_member endpoints commitments epoch a i endpoint joined ≡ ok nodes
      → All (Joins ((a, i) ∷ rest)) nodes
  unfolding join_member Joins Seated node_of
  member_sound a i rest none joined found ih h = All-weaken _ _ (later-Joins rest (a, i)) _ (ih _ h)
  member_sound a i rest (some e) joined found ih h =
      let (g, ns, kept, later, same) = member_kept a i e joined h in
      subst (All (Joins ((a, i) ∷ rest))) same (
        (a, inl (refl, refl), found, kept),
        All-weaken _ _ (later-Joins rest (a, i)) ns (ih ns later),
      )

  join_sound :
      (committee : List (Account × ℕ)) (nodes : List CommitteeNode)
      → join endpoints commitments epoch committee ≡ ok nodes
      → All (Joins committee) nodes
  unfolding join
  join_sound [] nodes h = let empty : [] ≡ nodes = ground arith in subst (All (Joins [])) empty tt
  join_sound ((a, i) ∷ rest) nodes h =
      member_sound a i rest (endpoint_of endpoints a) (join endpoints commitments epoch rest) refl
        (join_sound rest) h

  -- A seated member that is reachable.
  unfoldable pub Reachable : List (Account × ℕ) → Account → ℕ → Text → Type 0
  Reachable committee id index endpoint =
      Seated id index committee × (endpoint_of endpoints id ≡ some endpoint)

  -- Its node among the joined ones.
  unfoldable pub HasNode : List CommitteeNode → Account → ℕ → Text → Type 0
  HasNode nodes id index endpoint =
      (n : CommitteeNode) × Listed n nodes
      × (n.index ≡ index)
      × (n.endpoint ≡ endpoint)
      × (lookup commitments id ≡ some n.share_commitment)

  later_node :
      (nodes : List CommitteeNode) (m : CommitteeNode) (id : Account) (index : ℕ) (endpoint : Text)
      → HasNode nodes id index endpoint
      → HasNode (m ∷ nodes) id index endpoint
  unfolding HasNode Listed
  later_node nodes m id index endpoint (n, listed, at_index, at_endpoint, committed) =
      (n, inr listed, at_index, at_endpoint, committed)

  node_here :
      (ns : List CommitteeNode) (a id : Account) (i index : ℕ) (e e' : Text) (g : Bytes)
      → id ≡ a
      → index ≡ i
      → endpoint_of endpoints a ≡ some e'
      → endpoint_of endpoints id ≡ some e
      → lookup commitments a ≡ some g
      → HasNode (node_of i e' g ∷ ns) id index e
  unfolding HasNode Listed node_of
  node_here ns a id i index e e' g same same_index found reached kept =
      let same_endpoint : endpoint_of endpoints id ≡ endpoint_of endpoints a =
        ap (endpoint_of endpoints) same in
      (
        node_of i e' g,
        inl refl,
        sym same_index,
        ground (arith, same_endpoint),
        ap (lookup commitments) same ∙ kept,
      )

  member_complete :
      (a : Account) (i : ℕ) (rest : List (Account × ℕ)) (endpoint : Option Text)
      (joined : Result SdkError (List CommitteeNode)) {nodes : List CommitteeNode}
      → endpoint_of endpoints a ≡ endpoint
      → ((ns : List CommitteeNode)
          → joined ≡ ok ns
          → (id : Account) (index : ℕ) (e : Text) → Reachable rest id index e
          → HasNode ns id index e)
      → join_member endpoints commitments epoch a i endpoint joined ≡ ok nodes
      → (id : Account) (index : ℕ) (e : Text) → Reachable ((a, i) ∷ rest) id index e
      → HasNode nodes id index e
  unfolding join_member Reachable Seated
  member_complete a i rest none joined found ih h id index e (inl (same, _), reached) =
      let same_endpoint : endpoint_of endpoints id ≡ endpoint_of endpoints a =
        ap (endpoint_of endpoints) same in
      absurd (ground (arith, same_endpoint))
  member_complete a i rest none joined found ih h id index e (inr seated, reached) =
      ih _ h id index e (seated, reached)
  member_complete a i rest (some e') joined found ih h id index e
        (inl (same, same_index), reached) =
      let (g, ns, kept, _, made) = member_kept a i e' joined h in
      subst (λ nodes. HasNode nodes id index e) made
        (node_here ns a id i index e e' g same same_index found reached kept)
  member_complete a i rest (some e') joined found ih h id index e (inr there, reached) =
      let (g, ns, _, later, made) = member_kept a i e' joined h in
      subst (λ nodes. HasNode nodes id index e) made
        (later_node ns _ id index e (ih ns later id index e (there, reached)))

  join_complete :
      (committee : List (Account × ℕ)) (nodes : List CommitteeNode)
      → join endpoints commitments epoch committee ≡ ok nodes
      → (id : Account) (index : ℕ) (e : Text) → Reachable committee id index e
      → HasNode nodes id index e
  unfolding join Reachable Seated
  join_complete [] nodes h id index e (seated, _) = elim seated [ ]
  join_complete ((a, i) ∷ rest) nodes h id index e reached =
      member_complete a i rest (endpoint_of endpoints a) (join endpoints commitments epoch rest)
        refl (join_complete rest) h id index e reached

  -- A member that is reachable, and has no commitment.
  unfoldable pub Lacking : List (Account × ℕ) → Type 0
  Lacking committee =
      (id : Account) × (index : ℕ) × (e : Text) × Seated id index committee
      × (endpoint_of endpoints id ≡ some e)
      × (lookup commitments id ≡ none)

  later-Lacking :
      (committee : List (Account × ℕ)) (member : Account × ℕ)
      → Lacking committee
      → Lacking (member ∷ committee)
  unfolding Lacking Seated
  later-Lacking committee (a, i) (id, index, e, seated, reached, lost) =
      (id, index, e, inr seated, reached, lost)

  member_fails :
      (a : Account) (i : ℕ) (rest : List (Account × ℕ)) (endpoint : Option Text)
      (joined : Result SdkError (List CommitteeNode)) {fault : SdkError}
      → endpoint_of endpoints a ≡ endpoint
      → ((f : SdkError) → joined ≡ err f → Lacking rest)
      → join_member endpoints commitments epoch a i endpoint joined ≡ err fault
      → Lacking ((a, i) ∷ rest)
  unfolding join_member
  member_fails a i rest none joined found ih h = later-Lacking rest (a, i) (ih _ h)
  member_fails a i rest (some e) (err f) found ih h = later-Lacking rest (a, i) (ih f refl)
  member_fails a i rest (some e) (ok ns) found ih h =
      let lost : lookup commitments a ≡ none = ground arith in
      unfold Lacking Seated in (a, i, e, inl (refl, refl), found, lost)

  join_fails :
      (committee : List (Account × ℕ)) (fault : SdkError)
      → join endpoints commitments epoch committee ≡ err fault
      → Lacking committee
  unfolding join
  join_fails [] fault h = absurd (ground arith)
  join_fails ((a, i) ∷ rest) fault h =
      member_fails a i rest (endpoint_of endpoints a) (join endpoints commitments epoch rest) refl
        (join_fails rest) h

  sorted_node :
      (ns : List CommitteeNode) (id : Account) (index : ℕ) (e : Text)
      → HasNode ns id index e
      → HasNode (sort_by_index ns) id index e
  unfolding HasNode
  sorted_node ns id index e (n, listed, at_index, at_endpoint, committed) =
      (n, sort_by_index-Listed n ns listed, at_index, at_endpoint, committed)

  failed_join :
      (joined : Result SdkError (List CommitteeNode)) {fault : SdkError}
      → (joined >>= λ nodes. ok (sort_by_index nodes)) ≡ err fault
      → joined ≡ err fault
  failed_join (ok nodes) h = absurd (ground arith)
  failed_join (err f) h = h

  -- The assembled nodes are in the order of their indices. Each stands for a member of the
  -- committee that is reachable, with that member's index, endpoint and share commitment, and
  -- each reachable member has such a node.
  pub assemble_nodes_sound :
      (committee : List (Account × ℕ)) {nodes : List CommitteeNode}
      → assemble_nodes committee endpoints commitments epoch ≡ ok nodes
      → Ascending nodes
        × All (Joins committee) nodes
        × ((id : Account) (index : ℕ) (e : Text)
            → Reachable committee id index e
            → HasNode nodes id index e)
  unfolding assemble_nodes
  assemble_nodes_sound committee h =
      let (joined, made, h₁) = >>=-eq-ok (join endpoints commitments epoch committee) _ h in
      let same : sort_by_index joined ≡ _ = ground arith in
      subst
        (λ nodes.
          Ascending nodes
          × All (Joins committee) nodes
          × ((id : Account) (index : ℕ) (e : Text)
              → Reachable committee id index e
              → HasNode nodes id index e))
        same
        (
          sort_by_index-Ascending joined,
          sort_by_index-All (Joins committee) joined (join_sound committee joined made),
          λ id index e reached.
              sorted_node joined id index e
                (join_complete committee joined made id index e reached),
        )

  -- The assembly fails only if a reachable member of the committee has no share commitment.
  pub assemble_nodes_fails :
      (committee : List (Account × ℕ)) {fault : SdkError}
      → assemble_nodes committee endpoints commitments epoch ≡ err fault
      → (id : Account) × (index : ℕ) × (e : Text) × Seated id index committee
        × (endpoint_of endpoints id ≡ some e)
        × (lookup commitments id ≡ none)
  unfolding assemble_nodes Lacking
  assemble_nodes_fails committee h = join_fails committee _ (failed_join _ h)
