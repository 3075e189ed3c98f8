-- ===== src/Chain/Amount/RoundTrip.antt =====
-- A displayed amount is parsed back to the same plancks.
use matter_sdk.Common.{
  ℕ, zero, suc, ◌+◌, ◌-◌, ◌≤◌, ◌<◌, ◌≡◌, refl, sym, ap, ◌∙◌, false, [], ◌∷◌, ◌++◌, none, append-nil,
  Text, codes, arith, ◌==◌, ltb, if◌then◌else◌, is_empty, All-take, All-drop, All-append, length,
  replicate, take, drop, append-take-drop, length-drop, length-append, length-replicate,
  is_empty-take, trim, trim_end, keep_end, is_whitespace, strip_prefix, ok, Bool-cases, inl, inr,
  ==_iff,
}
use matter_sdk.Common.Parts.{EndsBlack, EndsBlack-append, trim_black}
use matter_sdk.Common.Decimal.{
  AllDigits, to_decimal, to_decimal-AllDigits, value-to_decimal, is_empty-to_decimal, value,
  value-zeros, max_u128,
}
use matter_sdk.Chain.Amount.{parse_amount, format_amount, is_zero_char, pad_zeros}
use matter_sdk.Chain.Amount.Body.{checked, written, parse_body-written, replicate-AllDigits}

digit_black : (c : ℕ) → b'0' ≤ c → c ≤ b'9' → is_whitespace c ≡ false
unfolding is_whitespace
digit_black c h k = ground arith

digits_end : (c : ℕ) (s : Text) → AllDigits (c ∷ s) → EndsBlack (c ∷ s)
digits_end c [] (hc, _) = record {
  front = [];
  final = c;
  spelled = refl;
  black = digit_black c hc.0 hc.1;
}
digits_end c (d ∷ s) (_, h) = EndsBlack-append (c ∷ []) (d ∷ s) (digits_end d s h)

written_end : (c : ℕ) (w f : Text) → AllDigits (c ∷ w) → AllDigits f → EndsBlack (written (c ∷ w) f)
unfolding written
written_end c w [] hw _ = digits_end c w hw
written_end c w (d ∷ f) _ hf =
    EndsBlack-append (c ∷ w) (b'.' ∷ d ∷ f)
      (EndsBlack-append (b'.' ∷ []) (d ∷ f) (digits_end d f hf))

trim-written :
    (c : ℕ) (w f : Text)
    → AllDigits (c ∷ w)
    → AllDigits f
    → trim (written (c ∷ w) f) ≡ written (c ∷ w) f
unfolding written
trim-written c w [] hw hf = trim_black c w (digit_black c hw.0.0 hw.0.1) (written_end c w [] hw hf)
trim-written c w (d ∷ f) hw hf =
    trim_black c (w ++ b'.' ∷ d ∷ f) (digit_black c hw.0.0 hw.0.1) (written_end c w (d ∷ f) hw hf)

unsigned :
    (c : ℕ) (w f : Text) → AllDigits (c ∷ w) → strip_prefix (codes "+") (written (c ∷ w) f) ≡ none
unfolding written
unsigned c w [] (hc, _) = ground arith
unsigned c w (d ∷ f) (hc, _) = ground arith

-- A written number is parsed to the integer that its digits spell, padded to the decimals.
pub parse_amount-written :
    (w f : Text) (d : ℕ)
    → AllDigits w
    → AllDigits f
    → is_empty w ≡ false
    → length f ≤ d
    → d ≤ 38
    → parse_amount (written w f) d ≡ checked (value 0 (w ++ (f ++ replicate (d - length f) b'0')))
unfolding parse_amount
parse_amount-written [] f d hw hf hne fits small = cc
parse_amount-written (c ∷ w) f d hw hf hne fits small =
    let within : ltb 38 d ≡ false = ground arith in
    rw (within, trim-written c w f hw hf, unsigned c w f hw)
      (parse_body-written (c ∷ w) f d hw hf hne fits)

keep_end-zeros :
    (c : ℕ) (t : Text) (k : ℕ)
    → (j : ℕ) × (c ∷ (t ++ replicate k b'0') ≡ keep_end is_zero_char c t ++ replicate j b'0')
unfolding is_zero_char
keep_end-zeros c [] k = elim (Bool-cases (c == b'0')) [
  | inl zero_char ↦
      (suc k, rw zero_char (ap (λ d. d ∷ replicate k b'0') ((==_iff c b'0').0 zero_char)))
  | inr other ↦ (k, rw other)
]
keep_end-zeros c (d ∷ t) k = (k, refl)

-- What was trimmed off the end of the fraction are zeros.
trimmed_zeros : (s : Text) → (k : ℕ) × (s ≡ trim_end is_zero_char s ++ replicate k b'0')
unfolding trim_end
trimmed_zeros [] = (0, refl)
trimmed_zeros (c ∷ s) =
    let (k, e) = trimmed_zeros s in
    let (j, e') = keep_end-zeros c (trim_end is_zero_char s) k in (j, ap (λ t. c ∷ t) e ∙ e')

keep_end-AllDigits :
    (c : ℕ) (t : Text) → AllDigits (c ∷ []) → AllDigits t → AllDigits (keep_end is_zero_char c t)
keep_end-AllDigits c [] hc _ = ground arith
keep_end-AllDigits c (d ∷ t) (hc, _) ht = (hc, ht)

trim_end-AllDigits : (s : Text) → AllDigits s → AllDigits (trim_end is_zero_char s)
unfolding trim_end
trim_end-AllDigits [] _ = tt
trim_end-AllDigits (c ∷ s) (hc, hs) =
    keep_end-AllDigits c (trim_end is_zero_char s) (hc, tt) (trim_end-AllDigits s hs)

-- The fraction with its zeros put back.
refilled :
    (s : Text)
    → trim_end is_zero_char s ++ replicate (length s - length (trim_end is_zero_char s)) b'0' ≡ s
refilled s =
    let (k, e) = trimmed_zeros s in
    let missing : length s - length (trim_end is_zero_char s) ≡ k = omega (
      arith,
      ap length e,
      length-append (trim_end is_zero_char s) (replicate k b'0'),
      length-replicate {A = ℕ} k b'0',
    ) in
    rw missing (sym e)

trim_end-le : (s : Text) → length (trim_end is_zero_char s) ≤ length s
trim_end-le s =
    let (k, e) = trimmed_zeros s in
    omega (arith, ap length e, length-append (trim_end is_zero_char s) (replicate k b'0'))

module _ (digits : Text) (d : ℕ) (hd : AllDigits digits) (long : d < length digits)
    (small : d ≤ 38) where
  abbrev cut : ℕ
  cut = length digits - d

  abbrev whole : Text
  whole = take cut digits

  abbrev tail_digits : Text
  tail_digits = drop cut digits

  abbrev fraction : Text
  fraction = trim_end is_zero_char tail_digits

  tail_length : length tail_digits ≡ d
  tail_length = omega (arith, length-drop cut digits)

  respelled : whole ++ (fraction ++ replicate (d - length fraction) b'0') ≡ digits
  respelled =
      ap (λ n. whole ++ (fraction ++ replicate (n - length fraction) b'0')) (sym tail_length)
      ∙ (ap (λ t. whole ++ t) (refilled tail_digits) ∙ append-take-drop cut digits)

  parse_split : parse_amount (written whole fraction) d ≡ checked (value 0 digits)
  parse_split =
      parse_amount-written whole fraction d (All-take _ cut digits hd)
        (trim_end-AllDigits tail_digits (All-drop _ cut digits hd))
        (is_empty-take cut digits (omega arith) (omega arith))
        (omega (arith, trim_end-le tail_digits, tail_length)) small
      ∙ ap (λ t. checked (value 0 t)) respelled

fraction_shown : (w f : Text) → (if is_empty f then w else w ++ (codes "." ++ f)) ≡ written w f
unfolding written
fraction_shown w [] = refl
fraction_shown w (c ∷ f) = refl

pad_zeros-AllDigits : (n : ℕ) (s : Text) → AllDigits s → AllDigits (pad_zeros n s)
unfolding pad_zeros
pad_zeros-AllDigits n s h = All-append _ _ s (replicate-AllDigits _) h

pad_zeros-long : (n : ℕ) (s : Text) → n ≤ length (pad_zeros n s)
unfolding pad_zeros
pad_zeros-long n s = omega (
  arith,
  length-append (replicate (n - length s) b'0') s,
  length-replicate {A = ℕ} (n - length s) b'0',
)

checked_fits : (n : ℕ) → n ≤ max_u128 → checked n ≡ ok n
unfolding checked
checked_fits n h = ground arith

padded_value : (n plancks : ℕ) → value 0 (pad_zeros n (to_decimal plancks)) ≡ plancks
unfolding pad_zeros
padded_value n plancks =
    value-zeros (n - length (to_decimal plancks)) (to_decimal plancks) ∙ value-to_decimal plancks

format_amount-whole : (plancks : ℕ) → format_amount plancks 0 ≡ written (to_decimal plancks) []
unfolding format_amount written
format_amount-whole plancks = refl

format_amount-split :
    (plancks d : ℕ)
    → let digits = pad_zeros (suc d + 1) (to_decimal plancks) in
      format_amount plancks (suc d)
      ≡ written
          (take (length digits - suc d) digits)
          (trim_end is_zero_char (drop (length digits - suc d) digits))
unfolding format_amount
format_amount-split plancks d =
    let positive : (suc d == 0) ≡ false = ground arith in rw positive (fraction_shown _ _)

-- For every amount that fits 128 bits and every decimal count up to 38, parsing the displayed
-- amount gives the amount back.
pub parse_amount-format_amount :
    (plancks d : ℕ)
    → plancks ≤ max_u128
    → d ≤ 38
    → parse_amount (format_amount plancks d) d ≡ ok plancks
parse_amount-format_amount plancks zero fits small =
    ap (λ t. parse_amount t 0) (format_amount-whole plancks)
    ∙ (parse_amount-written (to_decimal plancks) [] 0 (to_decimal-AllDigits plancks) tt
          (is_empty-to_decimal plancks) (omega arith) small
        ∙ (ap (λ t. checked (value 0 t)) (append-nil (to_decimal plancks))
            ∙ (ap checked (value-to_decimal plancks) ∙ checked_fits plancks fits)))
parse_amount-format_amount plancks (suc d) fits small =
    ap (λ t. parse_amount t (suc d)) (format_amount-split plancks d)
    ∙ (parse_split (pad_zeros (suc d + 1) (to_decimal plancks)) (suc d)
          (pad_zeros-AllDigits _ (to_decimal plancks) (to_decimal-AllDigits plancks))
          (omega (arith, pad_zeros-long (suc d + 1) (to_decimal plancks))) small
        ∙ (ap checked (padded_value (suc d + 1) plancks) ∙ checked_fits plancks fits))
