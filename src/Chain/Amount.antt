-- ===== src/Chain/Amount.antt =====
-- crates/matter-sdk/src/chain/amount.rs: token amounts as `u128` plancks.
pub mod Body
pub mod Sound
pub mod RoundTrip
use matter_sdk.Common.{
  ℕ, ◌+◌, ◌-◌, ◌%◌, ◌^◌, Bool, true, false, not, ◌&&◌, ◌||◌, List, [], ◌∷◌, ◌++◌, Option, none,
  some, String, Text, codes, ◌==◌, ltb, if◌then◌else◌, is_empty, is_digit, all, any, length,
  replicate, take, drop, trim, trim_start, trim_end, strip_prefix, starts_with, split_once, Result,
  ok, err, ◌>>=◌, ◌>>◌, fail_if,
}
use matter_sdk.Common.Decimal.{ParseIntError, parse_int_text, parse_u128, to_decimal, after_plus}
use matter_sdk.Error.{SdkError, bad_amount}

abbrev pub max_decimals : ℕ
max_decimals = 38

pub bad : String → SdkError
bad detail = bad_amount (codes detail)

pub bad_amount_from : ParseIntError → SdkError
bad_amount_from e =
    bad_amount (codes "amount does not fit in u128 (" ++ (parse_int_text e ++ codes ")"))

abbrev pub parts : Text → Option (Text × Text) → Text × Text
parts body none = (body, [])
parts body (some p) = p

pub is_zero_char : ℕ → Bool
is_zero_char c = c == b'0'

-- The digits parsed as one integer, `or_else` zero where all of them are `0`.
pub finish : Text → Result ParseIntError ℕ → Result SdkError ℕ
unfolding is_zero_char bad_amount_from
finish digits (ok n) = ok n
finish digits (err e) = if all is_zero_char digits then ok 0 else err (bad_amount_from e)

-- The checks on the two parts of `body`, in the order of the source, and the conversion.
pub parse_parts : Text → ℕ → Text × Text → Result SdkError ℕ
unfolding bad finish is_zero_char
parse_parts body decimals (whole, fraction) = do
  fail_if (is_empty body) (bad "amount is empty")
  fail_if (starts_with (codes "-") body) (bad "amount must not be negative")
  fail_if (is_empty whole || (any (λ c. c == b'.') body && is_empty fraction))
      (bad "amount needs digits on both sides of the decimal point")
  fail_if (not (all is_digit whole) || not (all is_digit fraction))
      (bad "amount must be decimal digits with at most one point")
  fail_if (ltb decimals (length fraction))
      (bad "amount has more fractional digits than this chain's decimals")
  let digits = whole ++ (fraction ++ replicate (decimals - length fraction) b'0')
  finish digits (parse_u128 (trim_start is_zero_char digits))

-- The part behind the trimming and the sign.
pub parse_body : Text → ℕ → Result SdkError ℕ
unfolding parse_parts split_once
parse_body body decimals = parse_parts body decimals (parts body (split_once b'.' body))

unfoldable pub parse_amount : Text → ℕ → Result SdkError ℕ
unfolding bad parse_body
parse_amount text decimals = do
  fail_if (ltb max_decimals decimals) (bad "chain reports more decimals than a u128 can hold")
  let trimmed = trim text
  parse_body (after_plus trimmed (strip_prefix (codes "+") trimmed)) decimals

-- `{plancks:0>width$}`.
pub pad_zeros : ℕ → Text → Text
pad_zeros width s = replicate (width - length s) b'0' ++ s

unfoldable pub format_amount : ℕ → ℕ → Text
unfolding pad_zeros is_zero_char
format_amount plancks decimals =
    let digits = pad_zeros (decimals + 1) (to_decimal plancks) in
    let split = length digits - decimals in
    let whole = take split digits in
    let fraction = trim_end is_zero_char (drop split digits) in
    if decimals == 0
    then to_decimal plancks
    else if is_empty fraction
    then whole
    else whole ++ (codes "." ++ fraction)

-- `10u128.pow(decimals)`, as an optimised build computes it: modulo the word. (A build with
-- overflow checks panics instead, above 38 decimals.)
unfoldable pub one_token : ℕ → ℕ
one_token decimals = 10 ^ decimals % 2 ^ 128
