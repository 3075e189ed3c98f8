-- ===== src/Chain/Amount/Body.antt =====
-- What `parse_body` makes of a text of digits with at most one point.
use matter_sdk.Common.{
  ℕ, zero, suc, ◌-◌, ◌≤◌, ◌≡◌, ◌≢◌, refl, sym, ap, ◌∙◌, true, false, ◌&&◌, [], ◌∷◌, ◌++◌, Text,
  codes, arith, ◌==◌, ltb, leb, if◌then◌else◌, is_empty, is_digit, all, any, All, All-append,
  length, replicate, trim_start, starts_with, split_once, Result, ok, err,
}
use matter_sdk.Common.Parts.{split_once-append, split_once-none}
use matter_sdk.Common.Decimal.{
  AllDigits, pos_overflow, parse_u128, value, scan, scan-value, max_u128, value-trim_start,
  trim_start-AllDigits,
}
use matter_sdk.Error.{SdkError}
use matter_sdk.Chain.Amount.{finish, is_zero_char, bad_amount_from, parse_body, parts}

-- The number, if it fits the word.
unfoldable pub checked : ℕ → Result SdkError ℕ
checked n = if leb n max_u128 then ok n else err (bad_amount_from pos_overflow)

pub replicate-AllDigits : (k : ℕ) → AllDigits (replicate k b'0')
replicate-AllDigits zero = tt
replicate-AllDigits (suc k) = (omega arith, replicate-AllDigits k)

all_zero_value : (s : Text) → all is_zero_char s ≡ true → value 0 s ≡ 0
unfolding is_zero_char
all_zero_value [] h = refl
all_zero_value (c ∷ s) h = ground (arith, all_zero_value s)

trimmed_away : (s : Text) → trim_start is_zero_char s ≡ [] → all is_zero_char s ≡ true
unfolding trim_start is_zero_char
trimmed_away [] h = refl
trimmed_away (c ∷ s) h = ground (arith, trimmed_away s)

parse_trimmed :
    (c : ℕ) (t : Text)
    → AllDigits (c ∷ t)
    → parse_u128 (c ∷ t)
      ≡ (if leb (value 0 (c ∷ t)) max_u128 then ok (value 0 (c ∷ t)) else err pos_overflow)
unfolding parse_u128 scan
parse_trimmed c t h =
    let plain : (b'+' == c) ≡ false = ground arith in
    rw plain (unfold scan in scan-value (c ∷ t) 0 h (omega arith))

-- A text of digits whose value exceeds the word is not all zeros.
finish_trimmed :
    (s t : Text)
    → trim_start is_zero_char s ≡ t
    → value 0 s ≡ value 0 t
    → AllDigits t
    → finish s (parse_u128 t) ≡ checked (value 0 t)
unfolding finish checked
finish_trimmed s [] e v h = unfold parse_u128 in rw (trimmed_away s e)
finish_trimmed s (c ∷ t) e v h = ground (arith, parse_trimmed c t h, all_zero_value s)

-- Digits are parsed to the number that they spell, if it fits the word.
pub finish-digits :
    (s : Text)
    → AllDigits s
    → finish s (parse_u128 (trim_start is_zero_char s)) ≡ checked (value 0 s)
finish-digits s h =
    finish_trimmed s (trim_start is_zero_char s) refl
      (unfold is_zero_char in sym (value-trim_start s))
      (unfold is_zero_char in trim_start-AllDigits s h)
    ∙ ap checked (unfold is_zero_char in value-trim_start s)

-- A number as it is written: digits, and behind a point the fraction, if there is one.
unfoldable pub written : Text → Text → Text
written w [] = w
written w (c ∷ f) = w ++ b'.' ∷ c ∷ f

digits_hold : (s : Text) → AllDigits s → all is_digit s ≡ true
digits_hold [] _ = refl
digits_hold (c ∷ s) (hc, hs) = ground (arith, digits_hold s hs)

no_point : (s : Text) → AllDigits s → All (λ c. c ≢ b'.') s
no_point [] _ = tt
no_point (c ∷ s) (hc, hs) = (omega arith, no_point s hs)

parts-written :
    (w f : Text) → AllDigits w → parts (written w f) (split_once b'.' (written w f)) ≡ (w, f)
unfolding written
parts-written w [] h = rw (split_once-none b'.' w (no_point w h))
parts-written w (c ∷ f) h = rw (split_once-append b'.' w (c ∷ f) (no_point w h))

no_sign :
    (w f : Text) → AllDigits w → is_empty w ≡ false → starts_with (codes "-") (written w f) ≡ false
unfolding written
no_sign [] f _ h = cc
no_sign (c ∷ w) [] (hc, _) h = ground arith
no_sign (c ∷ w) (d ∷ f) (hc, _) h = ground arith

not_blank : (w f : Text) → is_empty w ≡ false → is_empty (written w f) ≡ false
unfolding written
not_blank [] f h = cc
not_blank (c ∷ w) [] h = refl
not_blank (c ∷ w) (d ∷ f) h = refl

no_point_found : (w : Text) → AllDigits w → any (λ c. c == b'.') w ≡ false
no_point_found [] _ = refl
no_point_found (c ∷ w) (hc, hw) = ground (arith, no_point_found w hw)

point_with_fraction :
    (w f : Text) → AllDigits w → (any (λ c. c == b'.') (written w f) && is_empty f) ≡ false
unfolding written
point_with_fraction w [] h = rw (no_point_found w h)
point_with_fraction w (c ∷ f) h = ground arith

pub parse_body-written :
    (w f : Text) (d : ℕ)
    → AllDigits w
    → AllDigits f
    → is_empty w ≡ false
    → length f ≤ d
    → parse_body (written w f) d ≡ checked (value 0 (w ++ (f ++ replicate (d - length f) b'0')))
unfolding parse_body
parse_body-written w f d hw hf hne fits =
    rw
      (
        parts-written w f hw,
        not_blank w f hne,
        no_sign w f hw hne,
        hne,
        point_with_fraction w f hw,
        digits_hold w hw,
        digits_hold f hf,
        short,
      )
      (finish-digits (w ++ (f ++ replicate (d - length f) b'0'))
        (All-append _ w _ hw (All-append _ f _ hf (replicate-AllDigits _))))
  where
    short : ltb d (length f) ≡ false
    short = ground arith
