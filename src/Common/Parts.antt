-- ===== src/Common/Parts.antt =====
-- Laws of `trim`, `split_once` and prefixes on texts that are put together from parts.
use matter_sdk.Common.{
  ℕ, ◌≡◌, ◌≢◌, refl, sym, ap, ◌∙◌, Bool, false, [], ◌∷◌, ◌++◌, append_assoc, Option, none, some,
  Text, arith, ◌==◌, All, if◌then◌else◌, trim, trim_start, trim_end, keep_end, is_whitespace,
  split_once, cons_fst, strip_prefix, ==_self, ==_ne,
}

-- The text ends in a character that is no white space.
pub record EndsBlack (s : Text) : Type 0 where
  pub front : Text
  pub final : ℕ
  pub spelled : s ≡ front ++ final ∷ []
  pub black : is_whitespace final ≡ false

pub EndsBlack-append : (a s : Text) → EndsBlack s → EndsBlack (a ++ s)
EndsBlack-append a s e = record {
  front = a ++ e.front;
  final = e.final;
  spelled = ap (λ t. a ++ t) e.spelled ∙ sym (append_assoc a e.front (e.final ∷ []));
  black = e.black;
}

keep_end_black :
    (p : ℕ → Bool) (d : ℕ) (a : Text) (c : ℕ) → keep_end p d (a ++ c ∷ []) ≡ d ∷ (a ++ c ∷ [])
keep_end_black p d [] c = refl
keep_end_black p d (x ∷ a) c = refl

pub trim_end_black :
    (p : ℕ → Bool) (a : Text) (c : ℕ) → p c ≡ false → trim_end p (a ++ c ∷ []) ≡ a ++ c ∷ []
unfolding trim_end
trim_end_black p [] c h = rw h
trim_end_black p (d ∷ a) c h = ap (keep_end p d) (trim_end_black p a c h) ∙ keep_end_black p d a c

trim_start_black :
    (c : ℕ) (s : Text) → is_whitespace c ≡ false → trim_start is_whitespace (c ∷ s) ≡ c ∷ s
unfolding trim_start
trim_start_black c s h = rw h

EndsBlack-kept : (s : Text) → EndsBlack s → trim_end is_whitespace s ≡ s
EndsBlack-kept s e =
    ap (trim_end is_whitespace) e.spelled
    ∙ (trim_end_black is_whitespace e.front e.final e.black ∙ sym e.spelled)

-- `trim` keeps a text that starts and ends in characters that are no white space.
pub trim_black :
    (c : ℕ) (s : Text) → is_whitespace c ≡ false → EndsBlack (c ∷ s) → trim (c ∷ s) ≡ c ∷ s
unfolding trim
trim_black c s h e = ap (trim_end is_whitespace) (trim_start_black c s h) ∙ EndsBlack-kept (c ∷ s) e

-- `split_once` cuts at the first separator.
pub split_once-append :
    (sep : ℕ) (a b : Text) → All (λ c. c ≢ sep) a → split_once sep (a ++ sep ∷ b) ≡ some (a, b)
unfolding split_once
split_once-append sep [] b _ = rw (==_self sep)
split_once-append sep (c ∷ a) b (h, t) = rw (==_ne c sep h, split_once-append sep a b t)

pub split_once-none : (sep : ℕ) (a : Text) → All (λ c. c ≢ sep) a → split_once sep a ≡ none
unfolding split_once
split_once-none sep [] _ = refl
split_once-none sep (c ∷ a) (h, t) = rw (==_ne c sep h, split_once-none sep a t)

pub strip_prefix-append : (p s : Text) → strip_prefix p (p ++ s) ≡ some s
strip_prefix-append [] s = refl
strip_prefix-append (c ∷ p) s = rw (==_self c) (strip_prefix-append p s)

after_head :
    (sep c : ℕ) (s a b : Text) (o : Option (Text × Text))
    → ((a' b' : Text) → o ≡ some (a', b') → s ≡ a' ++ sep ∷ b')
    → (if c == sep then some ([], s) else cons_fst c o) ≡ some (a, b)
    → c ∷ s ≡ a ++ sep ∷ b
after_head sep c s a b none ih h = ground arith
after_head sep c s a b (some (a', b')) ih h = ground (arith, ih a' b' refl)

-- What `split_once` cut apart.
pub split_once_sound : (sep : ℕ) (s a b : Text) → split_once sep s ≡ some (a, b) → s ≡ a ++ sep ∷ b
unfolding split_once
split_once_sound sep [] a b h = cc
split_once_sound sep (c ∷ s) a b h =
    after_head sep c s a b (split_once sep s) (split_once_sound sep s) h
