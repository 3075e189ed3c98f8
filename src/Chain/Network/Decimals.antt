-- ===== src/Chain/Network/Decimals.antt =====
-- crates/matter-sdk/src/chain/mod.rs: the decimals behind an existential deposit.
use native.Mathlib.Nat.{pow-suc, one-le-pow, pow-le-pow_right}
use matter_sdk.Common.{
  ℕ, zero, suc, ◌+◌, ◌-◌, ◌*◌, ◌/◌, ◌%◌, ◌^◌, ◌≤◌, ◌<◌, ◌≡◌, ◌↔◌, refl, ap, sym, ◌∙◌, some, arith,
}
use matter_sdk.Common.Decimal.{max_u128}
use matter_sdk.Chain.Network.{strip_tens, decimals_of, decimals_from_existential_deposit}

shifted : (value P : ℕ) → value % 10 ≡ 0 → (value / 10) * (P * 10) ≡ value * P
shifted value P h =
    let split : value ≡ 10 * (value / 10) = omega arith in omega (arith, ap (λ t. t * P) split)

-- The loop divides by a power of ten, and counts it.
strip_tens_product :
    (fuel value exponent : ℕ)
    → (strip_tens fuel value exponent).0 * 10 ^ (strip_tens fuel value exponent).1
      ≡ value * 10 ^ exponent
unfolding strip_tens
strip_tens_product zero value exponent = refl
strip_tens_product (suc fuel) value exponent = ground (
  arith,
  strip_tens_product fuel (value / 10) (exponent + 1),
  shifted value (10 ^ exponent),
  pow-suc 10 exponent,
)

-- It reaches 1 from a power of ten.
strip_tens_power :
    (k fuel exponent : ℕ) → 10 ^ k ≤ fuel → strip_tens fuel (10 ^ k) exponent ≡ (1, exponent + k)
unfolding strip_tens
strip_tens_power zero zero exponent h = ground arith
strip_tens_power zero (suc fuel) exponent h = ground arith
strip_tens_power (suc k) zero exponent h =
    absurd (omega (arith, one-le-pow (suc k) 10 (omega arith)))
strip_tens_power (suc k) (suc fuel) exponent h =
    let positive : 1 ≤ 10 ^ k = one-le-pow k 10 (omega arith) in
    let tenth : 10 ^ suc k / 10 ≡ 10 ^ k = omega (arith, pow-suc 10 k) in
    let multiple : 10 ^ suc k % 10 ≡ 0 = omega (arith, pow-suc 10 k) in
    ground (
      arith,
      positive,
      tenth,
      multiple,
      pow-suc 10 k,
      strip_tens_power k fuel (exponent + 1) (omega (arith, pow-suc 10 k, positive)),
    )

small_exponent : (k : ℕ) → 10 ^ k ≤ max_u128 → k < 39
small_exponent k h =
    let above : 39 ≤ k → 10 ^ 39 ≤ 10 ^ k = pow-le-pow_right (omega arith) in ground (arith, above)

counted :
    (ed d : ℕ) (r : ℕ × ℕ)
    → ed ≤ max_u128
    → r.0 * 10 ^ r.1 ≡ ed * 10 ^ 0
    → decimals_of r ≡ some d
    → (3 ≤ d) × (ed ≡ 10 ^ (d - 3))
unfolding decimals_of
counted ed d (value, exponent) h product found =
    let one : value ≡ 1 = ground arith in
    let power : ed ≡ 10 ^ exponent = omega (arith, ap (λ t. t * 10 ^ exponent) one, product) in
    let few : exponent < 39 = small_exponent exponent (omega (arith, power, h)) in
    let sum : d ≡ exponent + 3 = ground arith in
    let back : d - 3 ≡ exponent = omega (arith, sum) in
    (omega (arith, sum), power ∙ ap (λ n. 10 ^ n) (sym back))

pub decimals_of_power : (k : ℕ) → k < 39 → decimals_from_existential_deposit (10 ^ k) ≡ some (k + 3)
unfolding decimals_from_existential_deposit decimals_of
decimals_of_power k few = ground (arith, strip_tens_power k (10 ^ k) 0 (omega arith))

-- For an existential deposit of 128 bits, the runtime's decimals are `d` exactly if the deposit is
-- `10 ^ (d - 3)`: the exponent never leaves 8 bits.
pub decimals_from_existential_deposit_iff :
    (ed d : ℕ)
    → ed ≤ max_u128
    → (decimals_from_existential_deposit ed ≡ some d) ↔ ((3 ≤ d) × (ed ≡ 10 ^ (d - 3)))
unfolding decimals_from_existential_deposit
decimals_from_existential_deposit_iff ed d h = (
  counted ed d (strip_tens ed ed 0) h (strip_tens_product ed ed 0),
  λ (least, power). from_power least power,
)
  where
    from_power : 3 ≤ d → ed ≡ 10 ^ (d - 3) → decimals_from_existential_deposit ed ≡ some d
    from_power least power =
        let found : decimals_from_existential_deposit (10 ^ (d - 3)) ≡ some (d - 3 + 3) =
          decimals_of_power (d - 3) (small_exponent (d - 3) (omega (arith, power, h))) in
        let same : d - 3 + 3 ≡ d = omega arith in
        ap decimals_from_existential_deposit power ∙ (found ∙ ap some same)
