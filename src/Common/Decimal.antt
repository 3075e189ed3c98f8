-- ===== src/Common/Decimal.antt =====
-- Decimal numbers: the `Display` of an unsigned integer and `str::parse::<u128>`.
use native.Mathlib.Nat.{pow-suc}
use matter_sdk.Common.{
  ℕ, zero, suc, ◌+◌, ◌-◌, ◌*◌, ◌/◌, ◌%◌, ◌^◌, ◌≤◌, ◌<◌, ◌≡◌, refl, ap, false, not, [], ◌∷◌, ◌++◌,
  Text, codes, arith, ◌==◌, ltb, leb, All, All-append, if◌then◌else◌, is_empty, is_digit, Option,
  none, some, Result, ok, err, length, replicate, trim_start, strip_prefix, Bool-cases, inl, inr,
}

abbrev pub max_u128 : ℕ
max_u128 = 2 ^ 128 - 1

-- The digits of `n`, on fuel: one round for each digit.
pub digits_fuel : ℕ → ℕ → Text
digits_fuel zero n = []
digits_fuel (suc f) n =
    let front = digits_fuel f (n / 10) in
    if ltb n 10 then (b'0' + n) ∷ [] else front ++ (b'0' + n % 10) ∷ []

-- `n.to_string()`.
unfoldable pub to_decimal : ℕ → Text
unfolding digits_fuel
to_decimal n = digits_fuel (suc n) n

-- The number that digits spell behind `n`.
abbrev pub value : ℕ → Text → ℕ
value n [] = n
value n (c ∷ s) = value (n * 10 + (c - b'0')) s

abbrev pub AllDigits : Text → Type 0
AllDigits = All (λ c. (b'0' ≤ c) × (c ≤ b'9'))

pub data ParseIntError : Type 0 where
  empty_input invalid_digit pos_overflow : ParseIntError

-- `impl Display for ParseIntError`.
unfoldable pub parse_int_text : ParseIntError → Text
parse_int_text empty_input = codes "cannot parse integer from empty string"
parse_int_text invalid_digit = codes "invalid digit found in string"
parse_int_text pos_overflow = codes "number too large to fit in target type"

-- One digit after another, with the checked arithmetic of `from_str_radix`.
unfoldable pub scan : Text → ℕ → Result ParseIntError ℕ
scan [] n = ok n
scan (c ∷ s) n =
    let rest = scan s (n * 10 + (c - b'0')) in
    if not (is_digit c)
    then err invalid_digit
    else if ltb max_u128 (n * 10 + (c - b'0'))
    then err pos_overflow
    else rest

abbrev pub after_plus : Text → Option Text → Text
after_plus s none = s
after_plus s (some rest) = rest

-- `str::parse::<u128>`: a leading `+` is allowed.
unfoldable pub parse_u128 : Text → Result ParseIntError ℕ
unfolding scan
parse_u128 s =
    let body = after_plus s (strip_prefix (b'+' ∷ []) s) in
    if is_empty s then err empty_input else if is_empty body then err invalid_digit else scan body 0

pub value-append : (s t : Text) (n : ℕ) → value n (s ++ t) ≡ value (value n s) t
value-append [] t n = refl
value-append (c ∷ s) t n = value-append s t _

pub le-value : (digits : Text) (start : ℕ) → start ≤ value start digits
le-value [] start = omega arith
le-value (d ∷ rest) start =
    let shifted = start * 10 + (d - b'0') in omega (arith, le-value rest shifted)

pub scan-value :
    (s : Text) (n : ℕ)
    → AllDigits s
    → n ≤ max_u128
    → scan s n ≡ (if leb (value n s) max_u128 then ok (value n s) else err pos_overflow)
unfolding scan
scan-value [] n _ h = ground arith
scan-value (c ∷ s) n (hc, hs) h =
    ground (arith, scan-value s (n * 10 + (c - b'0')) hs, le-value s (n * 10 + (c - b'0')))

digits_fuel-value : (f n : ℕ) → n < f → value 0 (digits_fuel f n) ≡ n
unfolding digits_fuel
digits_fuel-value zero n h = absurd (omega arith)
digits_fuel-value (suc f) n h = ground (
  arith,
  digits_fuel-value f (n / 10),
  value-append (digits_fuel f (n / 10)) ((b'0' + n % 10) ∷ []) 0,
)

-- The printed digits spell the number.
pub value-to_decimal : (n : ℕ) → value 0 (to_decimal n) ≡ n
unfolding to_decimal
value-to_decimal n = digits_fuel-value (suc n) n (omega arith)

digits_fuel-AllDigits : (f n : ℕ) → AllDigits (digits_fuel f n)
unfolding digits_fuel
digits_fuel-AllDigits zero n = tt
digits_fuel-AllDigits (suc f) n = elim (Bool-cases (ltb n 10)) [
  | inl small ↦ rw small (ground arith)
  | inr large ↦
      rw large
        (All-append _ (digits_fuel f (n / 10)) _ (digits_fuel-AllDigits f (n / 10)) (omega arith))
]

pub to_decimal-AllDigits : (n : ℕ) → AllDigits (to_decimal n)
unfolding to_decimal
to_decimal-AllDigits n = digits_fuel-AllDigits (suc n) n

pub value-zeros : (k : ℕ) (s : Text) → value 0 (replicate k b'0' ++ s) ≡ value 0 s
value-zeros zero s = refl
value-zeros (suc k) s = value-zeros k s

-- Leading zeros do not change the value of digits.
pub value-trim_start : (s : Text) → value 0 (trim_start (λ c. c == b'0') s) ≡ value 0 s
unfolding trim_start
value-trim_start [] = refl
value-trim_start (c ∷ s) = ground (arith, value-trim_start s)

pub trim_start-AllDigits : (s : Text) → AllDigits s → AllDigits (trim_start (λ c. c == b'0') s)
unfolding trim_start
trim_start-AllDigits [] _ = tt
trim_start-AllDigits (c ∷ s) (hc, hs) = ground (arith, trim_start-AllDigits s hs)

pub value-pow : (s : Text) (n : ℕ) → value n s ≡ n * 10 ^ length s + value 0 s
value-pow [] n = omega arith
value-pow (c ∷ s) n = omega (
  arith,
  value-pow s (n * 10 + (c - b'0')),
  value-pow s (0 + (c - b'0')),
  ap (λ t. n * t) (pow-suc 10 (length s)),
)

is_empty-snoc : (s : Text) (c : ℕ) → is_empty (s ++ c ∷ []) ≡ false
is_empty-snoc [] c = refl
is_empty-snoc (d ∷ s) c = refl

pub is_empty-to_decimal : (n : ℕ) → is_empty (to_decimal n) ≡ false
unfolding to_decimal
is_empty-to_decimal n = ground (arith, is_empty-snoc (digits_fuel n (n / 10)) (b'0' + n % 10))
