-- ===== src/Key/Scopes/Order.antt =====
-- Inclusion and equality of scope sets, by the grants that they hold.
use Prim.Native.Nat.{bit_and, bit_or}
use native.Mathlib.Decide.{dec_lt}
use matter_sdk.Common.{
  ℕ, ◌≤◌, ◌<◌, ◌^◌, ◌+◌, ◌*◌, ◌⊎◌, inl, inr, true, ◌||◌, List, [], ◌∷◌, ◌≡◌, ◌↔◌, ap, arith, ◌==◌,
  ==_iff, any, if◌then◌else◌,
}
use matter_sdk.Common.Bits.{
  bit_at, bit_at-zero, bit_at-le-one, bit_at-bit_and, bit_at-bit_or, bit_at-pow, bits_ext,
  bit_at-high,
}
use matter_sdk.Key.Scopes.{
  Scope, Access, ScopeSet, position, is_superset, contains, covering, covering_bits, read, write,
  bit, discriminant,
}
use matter_sdk.Key.Scopes.Laws.{contains-bit_at, grant_at}

module _ (a b : ScopeSet)
    (held : (sc : Scope) (ac : Access) → contains b sc ac ≡ true → contains a sc ac ≡ true) where
  held_digit : (k : ℕ) → k < 20 → bit_at k b.bits ≤ bit_at k a.bits
  held_digit k h =
      let (sc, ac, e) = grant_at k h in
      ground (
        arith,
        e,
        held sc ac,
        contains-bit_at a sc ac,
        contains-bit_at b sc ac,
        bit_at-le-one k a.bits,
        bit_at-le-one k b.bits,
      )

  superset_digit : b.bits < 2 ^ 20 → (k : ℕ) → bit_at k (bit_and a.bits b.bits) ≡ bit_at k b.bits
  superset_digit v k = elim (dec_lt k 20) [
    | yes lt ↦ omega (arith, bit_at-bit_and k a.bits b.bits, held_digit k lt)
    | no ge ↦ omega (arith, bit_at-bit_and k a.bits b.bits, bit_at-high 20 k b.bits v (omega arith))
  ]

superset_held :
    (a b : ScopeSet)
    → is_superset a b ≡ true
    → (sc : Scope) (ac : Access) → contains b sc ac ≡ true
    → contains a sc ac ≡ true
unfolding is_superset
superset_held a b s sc ac = ground (
  arith,
  contains-bit_at a sc ac,
  contains-bit_at b sc ac,
  bit_at-bit_and (position sc ac) a.bits b.bits,
  ap (bit_at (position sc ac)) ((==_iff _ b.bits).0 s),
  bit_at-le-one (position sc ac) a.bits,
  bit_at-le-one (position sc ac) b.bits,
)

-- For a set `b` with defined bits only, `a.is_superset(b)` is exactly inclusion: every read or
-- write grant in `b` is also in `a`.
pub is_superset_iff :
    (a b : ScopeSet)
    → b.bits < 2 ^ 20
    → (is_superset a b ≡ true)
      ↔ ((sc : Scope) (ac : Access) → contains b sc ac ≡ true → contains a sc ac ≡ true)
is_superset_iff a b v = (
  superset_held a b,
  λ held. unfold is_superset in (==_iff _ b.bits).1 (bits_ext _ _ (superset_digit a b held v)),
)

same_digit :
    (a b : ScopeSet)
    → a.bits < 2 ^ 20
    → b.bits < 2 ^ 20
    → ((sc : Scope) (ac : Access) → contains a sc ac ≡ contains b sc ac)
    → (k : ℕ) → bit_at k a.bits ≡ bit_at k b.bits
same_digit a b va vb same k = elim (dec_lt k 20) [
  | yes lt ↦
      (let (sc, ac, e) = grant_at k lt in
        ground (
          arith,
          e,
          same sc ac,
          contains-bit_at a sc ac,
          contains-bit_at b sc ac,
          bit_at-le-one k a.bits,
          bit_at-le-one k b.bits,
        ))
  | no ge ↦
      omega
        (arith, bit_at-high 20 k a.bits va (omega arith), bit_at-high 20 k b.bits vb (omega arith))
]

-- Two sets with defined bits only that hold the same grants are the same set.
pub scope_set_ext :
    (a b : ScopeSet)
    → a.bits < 2 ^ 20
    → b.bits < 2 ^ 20
    → ((sc : Scope) (ac : Access) → contains a sc ac ≡ contains b sc ac)
    → a ≡ b
scope_set_ext a b va vb same =
    ap (λ n. record { bits = n }) (bits_ext a.bits b.bits (same_digit a b va vb same))

position_read : (s : Scope) → position s read ≡ discriminant s * 2
unfolding position
position_read s = omega arith

position_write : (s : Scope) → position s write ≡ discriminant s * 2 + 1
unfolding position
position_write s = omega arith

position_cases :
    (s : Scope) (ac : Access)
    → (position s ac ≡ discriminant s * 2) ⊎ (position s ac ≡ discriminant s * 2 + 1)
position_cases s read = inl (position_read s)
position_cases s write = inr (position_write s)

-- The two bits of a scope, seen at the position of a grant.
bit_at-both :
    (s sc : Scope) (ac : Access)
    → bit_at (position sc ac) (bit_or (bit s read) (bit s write))
      ≡ (if discriminant s == discriminant sc then 1 else 0)
unfolding bit
bit_at-both s sc ac = ground (
  arith,
  bit_at-bit_or (position sc ac) (2 ^ position s read) (2 ^ position s write),
  bit_at-pow (position sc ac) (position s read),
  bit_at-pow (position sc ac) (position s write),
  position_read s,
  position_write s,
  position_cases sc ac,
)

bit_at-covering_bits :
    (scopes : List Scope) (acc : ℕ) (sc : Scope) (ac : Access)
    → (bit_at (position sc ac) (covering_bits acc scopes) == 1)
      ≡ ((bit_at (position sc ac) acc == 1) || any (λ s. discriminant s == discriminant sc) scopes)
unfolding covering_bits
bit_at-covering_bits [] acc sc ac = ground arith
bit_at-covering_bits (s ∷ rest) acc sc ac = ground (
  arith,
  bit_at-covering_bits rest (bit_or acc (bit_or (bit s read) (bit s write))) sc ac,
  bit_at-bit_or (position sc ac) acc (bit_or (bit s read) (bit s write)),
  bit_at-both s sc ac,
  bit_at-le-one (position sc ac) acc,
)

-- `covering` grants read and write on exactly the listed scopes.
pub contains-covering :
    (scopes : List Scope) (sc : Scope) (ac : Access)
    → contains (covering scopes) sc ac ≡ any (λ s. discriminant s == discriminant sc) scopes
unfolding covering
contains-covering scopes sc ac = ground (
  arith,
  contains-bit_at (covering scopes) sc ac,
  bit_at-covering_bits scopes 0 sc ac,
  bit_at-zero (position sc ac),
)
