-- ===== src/Common/Bits.antt =====
-- The binary digits of native numbers: what `&`, `|` and `<<` do to the digit at a position, and
-- two numbers with the same digits are equal.
use Prim.Native.Nat.{
  ℕ, zero, suc, ◌+◌, ◌*◌, ◌/◌, ◌%◌, ◌^◌, ◌≤◌, ◌<◌, min, max, digits, bit_and, bit_or,
  bit_and-bitwise, bit_or-bitwise,
}
use mathlib.Core.Path.{◌≡◌, refl}
use native.Mathlib.Nat.{pow-suc}
use native.Mathlib.Omega.{arith}
use matter_sdk.Common.Tests.{◌==◌, if◌then◌else◌}

-- The binary digit of a number at a position, 0 or 1.
unfoldable pub bit_at : ℕ → ℕ → ℕ
bit_at zero a = a % 2
bit_at (suc k) a = bit_at k (a / 2)

pub bit_at-zero : (k : ℕ) → bit_at k 0 ≡ 0
unfolding bit_at
bit_at-zero zero = refl
bit_at-zero (suc k) = bit_at-zero k

pub bit_at-le-one : (k a : ℕ) → bit_at k a ≤ 1
unfolding bit_at
bit_at-le-one zero a = omega arith
bit_at-le-one (suc k) a = bit_at-le-one k (a / 2)

halve_digits : (d m : ℕ) → m ≤ 1 → (d * 2 + m) / 2 ≡ d
halve_digits d m h = omega arith

bit_at-digits_and :
    (n a b k : ℕ) → a ≤ n → bit_at k (digits (λ _. 0) min n a b) ≡ min (bit_at k a) (bit_at k b)
unfolding bit_at
bit_at-digits_and zero zero b k h = omega (arith, bit_at-zero k)
bit_at-digits_and zero (suc a) b k h = absurd (omega arith)
bit_at-digits_and (suc n) zero b k h = omega (arith, bit_at-zero k)
bit_at-digits_and (suc n) (suc a) b zero h = omega arith
bit_at-digits_and (suc n) (suc a) b (suc k) h =
    rw
      (halve_digits (digits (λ _. 0) min n (suc a / 2) (b / 2)) (min (suc a % 2) (b % 2))
        (omega arith))
      (bit_at-digits_and n (suc a / 2) (b / 2) k (omega arith))

bit_at-digits_or :
    (n a b k : ℕ) → a ≤ n → bit_at k (digits (λ y. y) max n a b) ≡ max (bit_at k a) (bit_at k b)
unfolding bit_at
bit_at-digits_or zero zero b k h = omega (arith, bit_at-zero k)
bit_at-digits_or zero (suc a) b k h = absurd (omega arith)
bit_at-digits_or (suc n) zero b k h = omega (arith, bit_at-zero k)
bit_at-digits_or (suc n) (suc a) b zero h = omega arith
bit_at-digits_or (suc n) (suc a) b (suc k) h =
    rw
      (halve_digits (digits (λ y. y) max n (suc a / 2) (b / 2)) (max (suc a % 2) (b % 2))
        (omega arith))
      (bit_at-digits_or n (suc a / 2) (b / 2) k (omega arith))

pub bit_at-bit_and : (k a b : ℕ) → bit_at k (bit_and a b) ≡ min (bit_at k a) (bit_at k b)
bit_at-bit_and k a b = rw bit_and-bitwise (bit_at-digits_and a a b k (omega arith))

pub bit_at-bit_or : (k a b : ℕ) → bit_at k (bit_or a b) ≡ max (bit_at k a) (bit_at k b)
bit_at-bit_or k a b = rw bit_or-bitwise (bit_at-digits_or a a b k (omega arith))

pub bit_at-pow : (k j : ℕ) → bit_at k (2 ^ j) ≡ (if k == j then 1 else 0)
unfolding bit_at
bit_at-pow zero zero = refl
bit_at-pow zero (suc j) = ground (arith, pow-suc 2 j)
bit_at-pow (suc k) zero = ground (arith, bit_at-zero k)
bit_at-pow (suc k) (suc j) =
    let half : 2 ^ suc j / 2 ≡ 2 ^ j = omega (arith, pow-suc 2 j) in
    rw half (ground (arith, bit_at-pow k j))

bits_ext_fuel : (n a b : ℕ) → a ≤ n → b ≤ n → ((k : ℕ) → bit_at k a ≡ bit_at k b) → a ≡ b
unfolding bit_at
bits_ext_fuel zero a b p q h = omega arith
bits_ext_fuel (suc n) a b p q h =
    omega (arith, h 0, bits_ext_fuel n (a / 2) (b / 2) (omega arith) (omega arith) (λ k. h (suc k)))

pub bits_ext : (a b : ℕ) → ((k : ℕ) → bit_at k a ≡ bit_at k b) → a ≡ b
bits_ext a b = bits_ext_fuel (a + b) a b (omega arith) (omega arith)

-- A number below `2 ^ n` has no digit from position `n` on.
pub bit_at-high : (n k a : ℕ) → a < 2 ^ n → n ≤ k → bit_at k a ≡ 0
unfolding bit_at
bit_at-high zero k a h g = let e : a ≡ 0 = omega arith in rw e (bit_at-zero k)
bit_at-high (suc n) zero a h g = absurd (omega arith)
bit_at-high (suc n) (suc k) a h g =
    bit_at-high n k (a / 2) (omega (arith, pow-suc 2 n)) (omega arith)

-- The converse: a number with no digit from position `n` on is below `2 ^ n`.
pub below_of_bits : (n a : ℕ) → ((k : ℕ) → n ≤ k → bit_at k a ≡ 0) → a < 2 ^ n
unfolding bit_at
below_of_bits zero a h =
    let e : a ≡ 0 = bits_ext a 0 (λ k. omega (arith, h k (omega arith), bit_at-zero k)) in
    omega arith
below_of_bits (suc n) a h =
    omega (arith, pow-suc 2 n, below_of_bits n (a / 2) (λ k g. h (suc k) (omega arith)))
