-- ===== src/Key/Scopes.antt =====
-- crates/matter-sdk-key/src/scopes.rs: the permission sets of member-tied API keys. A `ScopeSet` is
-- a `u32` bit mask; every shift here is by 19 at most, so no bit leaves the word.
pub mod Laws
pub mod Order
pub mod Format
mod Entries
pub mod RoundTrip
pub mod Tests
use Prim.Native.Nat.{bit_and, bit_or}
use matter_sdk.Common.{
  ℕ, ◌+◌, ◌-◌, ◌*◌, ◌^◌, Bool, true, false, not, List, [], ◌∷◌, Text, codes, ◌==◌,
}

pub data Scope : Type 0 where
  deployments collaborations secrets volumes datasets : Scope
  networking resources organization billing communities : Scope

-- `scope as u32`.
unfoldable pub discriminant : Scope → ℕ
discriminant deployments = 0
discriminant collaborations = 1
discriminant secrets = 2
discriminant volumes = 3
discriminant datasets = 4
discriminant networking = 5
discriminant resources = 6
discriminant organization = 7
discriminant billing = 8
discriminant communities = 9

-- `Scope::ALL`.
abbrev pub all_scopes : List Scope
all_scopes =
    deployments ∷ collaborations ∷ secrets ∷ volumes ∷ datasets ∷ networking ∷ resources
    ∷ organization ∷ billing ∷ communities ∷ []

-- `NAMES[scope as usize].0`.
unfoldable pub name : Scope → Text
name deployments = codes "deployments"
name collaborations = codes "collaborations"
name secrets = codes "secrets"
name volumes = codes "volumes"
name datasets = codes "datasets"
name networking = codes "networking"
name resources = codes "resources"
name organization = codes "organization"
name billing = codes "billing"
name communities = codes "communities"

pub data Access : Type 0 where
  read write : Access

-- `access as u32`.
unfoldable pub access_bit : Access → ℕ
access_bit read = 0
access_bit write = 1

pub record ScopeSet : Type 0 where
  pub bits : ℕ

unfoldable pub empty : ScopeSet
empty = record { bits = 0 }

-- `(1u32 << (Scope::COUNT * 2)) - 1`.
unfoldable pub full : ScopeSet
full = record { bits = 2 ^ (10 * 2) - 1 }

-- The position of a grant in the mask.
unfoldable pub position : Scope → Access → ℕ
unfolding discriminant access_bit
position scope access = discriminant scope * 2 + access_bit access

unfoldable pub bit : Scope → Access → ℕ
bit scope access = 2 ^ position scope access

unfoldable pub single : Scope → Access → ScopeSet
single scope access = record { bits = bit scope access }

covering_bits : ℕ → List Scope → ℕ
covering_bits bits [] = bits
covering_bits bits (s ∷ rest) = covering_bits (bit_or bits (bit_or (bit s read) (bit s write))) rest

unfoldable pub covering : List Scope → ScopeSet
unfolding covering_bits
covering scopes = record { bits = covering_bits 0 scopes }

unfoldable pub with_grant : ScopeSet → Scope → Access → ScopeSet
with_grant self scope access = record { bits = bit_or self.bits (bit scope access) }

unfoldable pub union : ScopeSet → ScopeSet → ScopeSet
union self other = record { bits = bit_or self.bits other.bits }

unfoldable pub contains : ScopeSet → Scope → Access → Bool
contains self scope access = not (bit_and self.bits (bit scope access) == 0)

unfoldable pub is_superset : ScopeSet → ScopeSet → Bool
is_superset self other = bit_and self.bits other.bits == other.bits

unfoldable pub is_subset : ScopeSet → ScopeSet → Bool
unfolding is_superset
is_subset self other = is_superset other self

unfoldable pub set_is_empty : ScopeSet → Bool
set_is_empty self = self.bits == 0

-- `!Self::ALL.0`, the complement in 32 bits.
unfoldable pub undefined_bits : ℕ
unfolding full
undefined_bits = 2 ^ 32 - 1 - full.bits

unfoldable pub is_valid : ScopeSet → Bool
unfolding undefined_bits
is_valid self = bit_and self.bits undefined_bits == 0
