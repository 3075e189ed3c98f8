-- ===== src/Key/Scopes/Laws.antt =====
-- The mask operations against the set of grants that they stand for.
use Prim.Native.Nat.{bit_and}
use matter_sdk.Common.{
  ℕ, zero, suc, ◌/◌, ◌%◌, ◌^◌, leb, holds_below, holds_below_at, ◌≤◌, ◌<◌, true, ◌||◌, ◌≡◌, ◌≢◌,
  ◌↔◌, ◌⊎◌, refl, ap, arith, ◌==◌, ==_iff, if◌then◌else◌,
}
use native.Mathlib.Decide.{dec_lt}
use matter_sdk.Common.Bits.{
  bit_at, bit_at-zero, bit_at-le-one, bit_at-bit_and, bit_at-bit_or, bit_at-pow, bits_ext,
  bit_at-high, below_of_bits,
}
use matter_sdk.Key.Scopes.{
  Scope, Access, ScopeSet, deployments, collaborations, secrets, volumes, datasets, networking,
  resources, organization, billing, communities, read, write, position, discriminant, bit,
  with_grant, union, contains, is_valid, undefined_bits,
}

-- A masked single bit is nonzero exactly when the digit there is one.
bit_and-pow-zero : (a j : ℕ) → bit_at j a ≡ 0 → bit_and a (2 ^ j) ≡ 0
bit_and-pow-zero a j h = bits_ext (bit_and a (2 ^ j)) 0 λ k.
    ground (arith, bit_at-bit_and k a (2 ^ j), bit_at-pow k j, bit_at-zero k, bit_at-le-one k a)

bit_and-pow-ne : (a j : ℕ) → bit_at j a ≡ 1 → bit_and a (2 ^ j) ≢ 0
bit_and-pow-ne a j h e =
    ground (arith, bit_at-bit_and j a (2 ^ j), bit_at-pow j j, bit_at-zero j, ap (bit_at j) e)

pub contains-bit_at :
    (s : ScopeSet) (sc : Scope) (ac : Access)
    → contains s sc ac ≡ (bit_at (position sc ac) s.bits == 1)
unfolding contains bit
contains-bit_at s sc ac = ground (
  arith,
  bit_and-pow-zero s.bits (position sc ac),
  bit_and-pow-ne s.bits (position sc ac),
  bit_at-le-one (position sc ac) s.bits,
)

pub position_lt : (sc : Scope) (ac : Access) → position sc ac < 20
unfolding position
position_lt sc ac = ground arith

pub position_injective :
    (sc sc' : Scope) (ac ac' : Access) → position sc ac ≡ position sc' ac' → (sc ≡ sc') × (ac ≡ ac')
unfolding position
position_injective sc sc' ac ac' h = ground arith

-- The grant that a position below 20 stands for.
pub scope_at : ℕ → Scope
scope_at zero = deployments
scope_at (suc zero) = collaborations
scope_at (suc (suc zero)) = secrets
scope_at (suc (suc (suc zero))) = volumes
scope_at (suc (suc (suc (suc zero)))) = datasets
scope_at (suc (suc (suc (suc (suc zero))))) = networking
scope_at (suc (suc (suc (suc (suc (suc zero)))))) = resources
scope_at (suc (suc (suc (suc (suc (suc (suc zero))))))) = organization
scope_at (suc (suc (suc (suc (suc (suc (suc (suc zero)))))))) = billing
scope_at (suc (suc (suc (suc (suc (suc (suc (suc (suc k))))))))) = communities

discriminant-scope_at : (k : ℕ) → k < 10 → discriminant (scope_at k) ≡ k
unfolding discriminant scope_at
discriminant-scope_at zero h = refl
discriminant-scope_at (suc zero) h = refl
discriminant-scope_at (suc (suc zero)) h = refl
discriminant-scope_at (suc (suc (suc zero))) h = refl
discriminant-scope_at (suc (suc (suc (suc zero)))) h = refl
discriminant-scope_at (suc (suc (suc (suc (suc zero))))) h = refl
discriminant-scope_at (suc (suc (suc (suc (suc (suc zero)))))) h = refl
discriminant-scope_at (suc (suc (suc (suc (suc (suc (suc zero))))))) h = refl
discriminant-scope_at (suc (suc (suc (suc (suc (suc (suc (suc zero)))))))) h = refl
discriminant-scope_at (suc (suc (suc (suc (suc (suc (suc (suc (suc k))))))))) h = omega arith

access_at : ℕ → Access
access_at zero = read
access_at (suc k) = write

pub grant_at : (k : ℕ) → k < 20 → (sc : Scope) × (ac : Access) × (position sc ac ≡ k)
unfolding position access_at
grant_at k h = (
  scope_at (k / 2),
  access_at (k % 2),
  ground (arith, discriminant-scope_at (k / 2) (omega arith)),
)

undefined_table :
    holds_below (λ k. bit_at k undefined_bits == (if leb 20 k then 1 else 0)) 32 ≡ true
unfolding holds_below bit_at undefined_bits
undefined_table = refl

undefined_digits : (k : ℕ) → k < 32 → bit_at k undefined_bits ≡ (if leb 20 k then 1 else 0)
undefined_digits k h = (==_iff _ _).0 (holds_below_at _ 32 k undefined_table h)

undefined_lt : undefined_bits < 2 ^ 32
unfolding undefined_bits
undefined_lt = omega arith

valid_high_digit :
    (s : ScopeSet) → s.bits < 2 ^ 32 → is_valid s ≡ true → (k : ℕ) → 20 ≤ k → bit_at k s.bits ≡ 0
unfolding is_valid
valid_high_digit s h v k g =
    let e : bit_and s.bits undefined_bits ≡ 0 = (==_iff _ 0).0 v in
    elim (dec_lt k 32) [
      | yes lt ↦ ground (
        arith,
        ap (bit_at k) e,
        bit_at-zero k,
        bit_at-bit_and k s.bits undefined_bits,
        undefined_digits k lt,
        bit_at-le-one k s.bits,
      )
      | no ge ↦ bit_at-high 32 k s.bits h (omega arith)
    ]

low_digit_masked :
    (s : ScopeSet)
    → s.bits < 2 ^ 20
    → (k : ℕ) → bit_at k (bit_and s.bits undefined_bits) ≡ bit_at k 0
low_digit_masked s h k = elim (dec_lt k 20) [
  | yes lt ↦ ground (
    arith,
    bit_at-zero k,
    bit_at-bit_and k s.bits undefined_bits,
    undefined_digits k (omega arith),
    bit_at-le-one k s.bits,
  )
  | no ge ↦ ground (
    arith,
    bit_at-zero k,
    bit_at-bit_and k s.bits undefined_bits,
    bit_at-high 20 k s.bits h (omega arith),
  )
]

-- A 32-bit mask passes `is_valid` exactly when it is below 2 to the 20, that is, when it sets no
-- bit beyond those of the ten scopes.
pub is_valid_iff : (s : ScopeSet) → s.bits < 2 ^ 32 → (is_valid s ≡ true) ↔ (s.bits < 2 ^ 20)
is_valid_iff s h = (
  λ v. below_of_bits 20 s.bits (valid_high_digit s h v),
  λ lt. unfold is_valid in (==_iff _ 0).1 (bits_ext _ 0 (low_digit_masked s lt)),
)

-- Adding a grant makes that grant held, keeps every other grant, and adds none beside it.
pub contains-with_grant :
    (s : ScopeSet) (sc sc' : Scope) (ac ac' : Access)
    → (contains (with_grant s sc ac) sc' ac' ≡ true)
      ↔ (((sc ≡ sc') × (ac ≡ ac')) ⊎ (contains s sc' ac' ≡ true))
unfolding with_grant bit
contains-with_grant s sc sc' ac ac' = ground (
  arith,
  contains-bit_at (with_grant s sc ac) sc' ac',
  contains-bit_at s sc' ac',
  bit_at-bit_or (position sc' ac') s.bits (2 ^ position sc ac),
  bit_at-pow (position sc' ac') (position sc ac),
  bit_at-le-one (position sc' ac') s.bits,
  position_injective sc sc' ac ac',
)

-- The union of two sets holds a grant exactly when one of the two does.
pub contains-union :
    (a b : ScopeSet) (sc : Scope) (ac : Access)
    → contains (union a b) sc ac ≡ (contains a sc ac || contains b sc ac)
unfolding union
contains-union a b sc ac = ground (
  arith,
  contains-bit_at (union a b) sc ac,
  contains-bit_at a sc ac,
  contains-bit_at b sc ac,
  bit_at-bit_or (position sc ac) a.bits b.bits,
  bit_at-le-one (position sc ac) a.bits,
  bit_at-le-one (position sc ac) b.bits,
)
