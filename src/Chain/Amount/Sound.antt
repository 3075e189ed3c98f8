-- ===== src/Chain/Amount/Sound.antt =====
-- What `parse_amount` accepts, and that nothing is rounded, truncated or wrapped around.
use native.Mathlib.Nat.{pow-suc}
use matter_sdk.Common.{
  ℕ, zero, suc, ◌+◌, ◌-◌, ◌*◌, ◌^◌, ◌≤◌, ◌<◌, ◌≡◌, refl, sym, ap, ◌∙◌, true, false, ◌&&◌, [], ◌∷◌,
  ◌++◌, append_assoc, Option, none, some, Text, codes, arith, ◌==◌, leb, is_empty, is_digit, all,
  any, length, replicate, trim, strip_prefix, split_once, trim_start, ok, err, holds_below,
  holds_below_at, leb→le, All-append,
}
use matter_sdk.Common.Decimal.{AllDigits, parse_u128, after_plus, value, value-append, max_u128}
use matter_sdk.Common.Parts.{split_once_sound}
use matter_sdk.Error.{SdkError}
use matter_sdk.Chain.Amount.{
  parse_amount, parse_parts, parse_body, finish, is_zero_char, bad, parts, one_token,
}
use matter_sdk.Chain.Amount.Body.{checked, written, finish-digits, replicate-AllDigits}
use matter_sdk.Chain.Amount.RoundTrip.{parse_amount-written}

-- The text behind the trimming and the sign.
abbrev pub unsigned_body : Text → Text
unsigned_body text = after_plus (trim text) (strip_prefix (codes "+") (trim text))

all_digits : (s : Text) → all is_digit s ≡ true → AllDigits s
all_digits [] h = tt
all_digits (c ∷ s) h = (ground arith, all_digits s (ground arith))

module _ (body w f : Text) (d v : ℕ) (accepted : parse_parts body d (w, f) ≡ ok v) where
  parts_guards :
      (is_empty w ≡ false)
      × ((any (λ c. c == b'.') body && is_empty f) ≡ false)
      × (all is_digit w ≡ true)
      × (all is_digit f ≡ true)
      × (length f ≤ d)
      × (finish
            (w ++ (f ++ replicate (d - length f) b'0'))
            (parse_u128 (trim_start is_zero_char (w ++ (f ++ replicate (d - length f) b'0'))))
          ≡ ok v)
  unfolding parse_parts
  parts_guards = ground arith

checked_sound : (n v : ℕ) → checked n ≡ ok v → (v ≡ n) × (v ≤ max_u128)
unfolding checked
checked_sound n v h = ground arith

value-zeros_behind : (k n : ℕ) → value n (replicate k b'0') ≡ n * 10 ^ k
value-zeros_behind zero n = omega arith
value-zeros_behind (suc k) n =
    omega (arith, value-zeros_behind k (n * 10 + (b'0' - b'0')), ap (λ t. n * t) (pow-suc 10 k))

-- The integer that is parsed, from the two parts of the text.
padded_value :
    (w f : Text) (k : ℕ) → value 0 (w ++ (f ++ replicate k b'0')) ≡ value 0 (w ++ f) * 10 ^ k
padded_value w f k =
    ap (value 0) (sym (append_assoc w f (replicate k b'0')))
    ∙ (value-append (w ++ f) (replicate k b'0') 0 ∙ value-zeros_behind k (value 0 (w ++ f)))

point_found : (a b : Text) → any (λ c. c == b'.') (a ++ b'.' ∷ b) ≡ true
point_found [] b = refl
point_found (c ∷ a) b = ground (arith, point_found a b)

written_cut :
    (body : Text) (w f : Text) (o : Option (Text × Text))
    → split_once b'.' body ≡ o
    → parts body o ≡ (w, f)
    → (any (λ c. c == b'.') body && is_empty f) ≡ false
    → body ≡ written w f
unfolding written
written_cut body w [] none e cut point = ap (λ (p : Text × Text). p.0) cut
written_cut body w (c ∷ f) none e cut point = cc (ap (λ (p : Text × Text). p.1) cut)
written_cut body w [] (some (a, b)) e cut point =
    ground
      (arith, split_once_sound b'.' body a b e, point_found a b, ap (λ (p : Text × Text). p.1) cut)
written_cut body w (c ∷ f) (some (a, b)) e cut point = cc (
  split_once_sound b'.' body a b e,
  ap (λ (p : Text × Text). p.0) cut,
  ap (λ (p : Text × Text). p.1) cut,
)

written_of_parts :
    (body : Text) (w f : Text)
    → parts body (split_once b'.' body) ≡ (w, f)
    → (any (λ c. c == b'.') body && is_empty f) ≡ false
    → body ≡ written w f
written_of_parts body w f cut point = written_cut body w f (split_once b'.' body) refl cut point

parse_amount_inner :
    (text : Text) (d v : ℕ)
    → parse_amount text d ≡ ok v
    → (d ≤ 38)
      × (parse_parts
            (unsigned_body text)
            d
            (parts (unsigned_body text) (split_once b'.' (unsigned_body text)))
          ≡ ok v)
unfolding parse_amount parse_body
parse_amount_inner text d v h = ground arith

-- If `parse_amount` accepts a text at `d` decimals, then `d` is at most 38 and the trimmed text,
-- without a leading `+`, is digits `w` with an optional point and fraction `f` of at most `d`
-- digits. The result is exactly the number spelled by `w` and `f` times ten to the missing
-- decimals, and it fits 128 bits.
pub parse_amount_sound :
    (text : Text) (d v : ℕ)
    → parse_amount text d ≡ ok v
    → (w : Text) × (f : Text) × (unsigned_body text ≡ written w f)
      × AllDigits w
      × AllDigits f
      × (is_empty w ≡ false)
      × (length f ≤ d)
      × (d ≤ 38)
      × (v ≡ value 0 (w ++ f) * 10 ^ (d - length f))
      × (v ≤ max_u128)
parse_amount_sound text d v h =
    let body = unsigned_body text in
    let w : Text = (parts body (split_once b'.' body)).0 in
    let f : Text = (parts body (split_once b'.' body)).1 in
    let inner : (d ≤ 38) × (parse_parts body d (w, f) ≡ ok v) = parse_amount_inner text d v h in
    let (whole, point, dw, df, short, done) = parts_guards body w f d v inner.1 in
    let digits = w ++ (f ++ replicate (d - length f) b'0') in
    let spelled : AllDigits digits =
      All-append _ w _ (all_digits w dw)
        (All-append _ f _ (all_digits f df) (replicate-AllDigits _)) in
    let (exact, fits) =
      checked_sound (value 0 digits) v (sym (finish-digits digits spelled) ∙ done) in
    (
      w,
      f,
      written_of_parts body w f refl point,
      all_digits w dw,
      all_digits f df,
      whole,
      short,
      inner.0,
      exact ∙ padded_value w f (d - length f),
      fits,
    )

-- Above 38 decimals every text is refused: also the ones that `format_amount` writes, whose
-- documentation promises a round trip for every amount.
pub parse_amount_too_many_decimals :
    (text : Text) (d : ℕ) → 38 < d → (e : SdkError) × (parse_amount text d ≡ err e)
unfolding parse_amount
parse_amount_too_many_decimals text d h =
    (bad "chain reports more decimals than a u128 can hold", ground arith)

token_table : holds_below (λ k. leb (10 ^ k) max_u128) 39 ≡ true
unfolding holds_below
token_table = refl

token_fits : (d : ℕ) → d ≤ 38 → 10 ^ d ≤ max_u128
token_fits d h =
    leb→le _ _ (holds_below_at (λ k. leb (10 ^ k) max_u128) 39 d token_table (omega arith))

checked_token : (d : ℕ) → d ≤ 38 → checked (value 0 (codes "1" ++ []) * 10 ^ d) ≡ ok (one_token d)
unfolding checked one_token
checked_token d h = ground (arith, token_fits d h)

token_at : (d : ℕ) → d ≤ 38 → checked (value 0 (codes "1" ++ []) * 10 ^ (d - 0)) ≡ ok (one_token d)
token_at d h = let same : d - 0 ≡ d = omega arith in rw same (checked_token d h)

-- One whole token is what the text `1` is parsed to, for every decimal count up to 38.
pub parse_amount-one_token : (d : ℕ) → d ≤ 38 → parse_amount (codes "1") d ≡ ok (one_token d)
unfolding written
parse_amount-one_token d small =
    parse_amount-written (codes "1") [] d (omega arith) tt refl (omega arith) small
    ∙ (ap checked (padded_value (codes "1") [] (d - 0)) ∙ token_at d small)
