-- ===== src/Committee/Quorum.antt =====
-- Committee nodes, their order by index, and counting them.
use matter_sdk.Common.{
  ℕ, suc, ◌<◌, ◌≡◌, refl, not, List, [], ◌∷◌, Text, arith, ◌==◌, leb, length, retain, if◌then◌else◌,
  All, length-retain, All-if, All-weaken, Bool-cases, ◌≤◌, ◌⊎◌, inl, inr, subst, sym, ap,
}
use matter_sdk.Core.Crypto.{Bytes}

pub record CommitteeNode : Type 0 where
  pub index : ℕ
  pub endpoint : Text
  pub share_commitment : Bytes

insert_by_index : CommitteeNode → List CommitteeNode → List CommitteeNode
insert_by_index n [] = n ∷ []
insert_by_index n (m ∷ ms) = if leb n.index m.index then n ∷ m ∷ ms else m ∷ insert_by_index n ms

-- `sort_by_key(|n| n.index)`: stable, ascending.
unfoldable pub sort_by_index : List CommitteeNode → List CommitteeNode
unfolding insert_by_index
sort_by_index [] = []
sort_by_index (n ∷ ns) = insert_by_index n (sort_by_index ns)

-- `retain(|n| n.index != bad)`.
unfoldable pub without : ℕ → List CommitteeNode → List CommitteeNode
without bad = retain (λ (n : CommitteeNode). not (n.index == bad))

-- A node among the nodes of a list.
unfoldable pub Listed : CommitteeNode → List CommitteeNode → Type 0
Listed n [] = ⊥
Listed n (m ∷ ms) = (n ≡ m) ⊎ Listed n ms

pub All-Listed :
    (P : CommitteeNode → Type 0) (ns : List CommitteeNode)
    → ((n : CommitteeNode) → Listed n ns → P n)
    → All P ns
unfolding Listed
All-Listed P [] h = tt
All-Listed P (n ∷ ns) h = (h n (inl refl), All-Listed P ns (λ m l. h m (inr l)))

pub All-at :
    (P : CommitteeNode → Type 0) (ns : List CommitteeNode)
    → All P ns
    → (n : CommitteeNode) → Listed n ns
    → P n
unfolding Listed
All-at P [] _ n l = elim l [ ]
All-at P (m ∷ ms) (pm, _) n (inl same) = subst P (sym same) pm
All-at P (m ∷ ms) (_, rest) n (inr l) = All-at P ms rest n l

insert_by_index-All :
    (P : CommitteeNode → Type 0) (n : CommitteeNode) (ns : List CommitteeNode)
    → P n
    → All P ns
    → All P (insert_by_index n ns)
unfolding insert_by_index
insert_by_index-All P n [] pn _ = (pn, tt)
insert_by_index-All P n (m ∷ ms) pn (pm, rest) =
    All-if P (leb n.index m.index) _ _ (pn, (pm, rest)) (pm, insert_by_index-All P n ms pn rest)

-- Sorting keeps what holds of every node.
pub sort_by_index-All :
    (P : CommitteeNode → Type 0) (ns : List CommitteeNode) → All P ns → All P (sort_by_index ns)
unfolding sort_by_index
sort_by_index-All P [] h = tt
sort_by_index-All P (n ∷ ns) (pn, rest) =
    insert_by_index-All P n (sort_by_index ns) pn (sort_by_index-All P ns rest)

length-insert_by_index :
    (n : CommitteeNode) (ns : List CommitteeNode) → length (insert_by_index n ns) ≡ suc (length ns)
unfolding insert_by_index
length-insert_by_index n [] = refl
length-insert_by_index n (m ∷ ms) = ground (arith, length-insert_by_index n ms)

pub length-sort_by_index : (ns : List CommitteeNode) → length (sort_by_index ns) ≡ length ns
unfolding sort_by_index
length-sort_by_index [] = refl
length-sort_by_index (n ∷ ns) =
    ground (arith, length-sort_by_index ns, length-insert_by_index n (sort_by_index ns))

pub without-All :
    (P : CommitteeNode → Type 0) (bad : ℕ) (ns : List CommitteeNode)
    → All P ns
    → All P (without bad ns)
unfolding without
without-All P bad [] h = tt
without-All P bad (n ∷ ns) (pn, rest) =
    All-if P (not (n.index == bad)) _ _ (pn, without-All P bad ns rest) (without-All P bad ns rest)

-- Removing a listed node leaves fewer.
pub length-without :
    (n : CommitteeNode) (ns : List CommitteeNode)
    → Listed n ns
    → length (without n.index ns) < length ns
unfolding Listed without
length-without n [] l = elim l [ ]
length-without n (m ∷ ms) (inl same) =
    let same_index : n.index ≡ m.index = ap (λ (c : CommitteeNode). c.index) same in
    ground (arith, same_index, length-retain (λ (c : CommitteeNode). not (c.index == n.index)) ms)
length-without n (m ∷ ms) (inr l) = ground (arith, length-without n ms l)

-- In the order of the indices.
unfoldable pub Ascending : List CommitteeNode → Type 0
Ascending [] = Unit
Ascending (n ∷ ns) = All (λ (m : CommitteeNode). n.index ≤ m.index) ns × Ascending ns

insert_by_index-Ascending :
    (n : CommitteeNode) (ns : List CommitteeNode) → Ascending ns → Ascending (insert_by_index n ns)
unfolding insert_by_index Ascending
insert_by_index-Ascending n [] h = (tt, tt)
insert_by_index-Ascending n (m ∷ ms) (least, sorted) = elim (Bool-cases (leb n.index m.index)) [
  | inl before ↦ rw before (
    (
      ground arith,
      All-weaken _ _ (λ (k : CommitteeNode) (h : m.index ≤ k.index). ground arith) ms least,
    ),
    (least, sorted),
  )
  | inr after ↦ rw after (
    insert_by_index-All (λ (k : CommitteeNode). m.index ≤ k.index) n ms (ground arith) least,
    insert_by_index-Ascending n ms sorted,
  )
]

-- Sorting sorts.
pub sort_by_index-Ascending : (ns : List CommitteeNode) → Ascending (sort_by_index ns)
unfolding sort_by_index Ascending
sort_by_index-Ascending [] = tt
sort_by_index-Ascending (n ∷ ns) =
    insert_by_index-Ascending n (sort_by_index ns) (sort_by_index-Ascending ns)

insert_by_index-Listed :
    (n m : CommitteeNode) (ns : List CommitteeNode)
    → Listed m (n ∷ ns)
    → Listed m (insert_by_index n ns)
unfolding insert_by_index Listed
insert_by_index-Listed n m [] l = l
insert_by_index-Listed n m (k ∷ ks) l = elim (Bool-cases (leb n.index k.index)) [
  | inl before ↦ rw before l
  | inr after ↦ rw after (elim l [
    | inl first ↦ inr (insert_by_index-Listed n m ks (inl first))
    | inr (inl next) ↦ inl next
    | inr (inr later) ↦ inr (insert_by_index-Listed n m ks (inr later))
  ])
]

-- It loses no node.
pub sort_by_index-Listed :
    (m : CommitteeNode) (ns : List CommitteeNode) → Listed m ns → Listed m (sort_by_index ns)
unfolding sort_by_index Listed
sort_by_index-Listed m [] l = l
sort_by_index-Listed m (n ∷ ns) (inl first) =
    insert_by_index-Listed n m (sort_by_index ns) (inl first)
sort_by_index-Listed m (n ∷ ns) (inr later) =
    insert_by_index-Listed n m (sort_by_index ns) (inr (sort_by_index-Listed m ns later))
