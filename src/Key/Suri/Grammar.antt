-- ===== src/Key/Suri/Grammar.antt =====
-- The grammar of a secret URI, and where `split` cuts a text of it.
use matter_sdk.Common.{
  ℕ, zero, suc, ◌+◌, ◌≡◌, ◌≢◌, ◌⊎◌, refl, ap, sym, subst, ◌∙◌, Bool, true, false, List, [], ◌∷◌,
  ◌++◌, append_assoc, append-nil, Option, none, some, Text, codes, take, drop, length, starts_with,
  All, ==_ne, arith, if◌then◌else◌, append-take-drop, take-append, drop-append, drop-length-append,
}
use matter_sdk.Key.Suri.{
  UriParts, slash, next_at, find_text, password_separator, cut_password, cut_path, token,
  is_valid_phrase,
}
use matter_sdk.Key.Suri.Junctions.{Segments, done, step, cons_both, Ends, nothing, slashed, Code}

-- `(///(?P<password>.*))?`.
unfoldable pub suffix : Option Text → Text
suffix none = []
suffix (some password) = codes "///" ++ password

unfoldable pub later : ℕ → Option ℕ → Option ℕ
later zero o = o
later (suc n) o = next_at (later n o)

starts_with-plain :
    (ps : Text) (c : ℕ) (s : Text) → c ≢ slash → starts_with (slash ∷ ps) (c ∷ s) ≡ false
starts_with-plain ps c s h = rw (starts_with, ==_ne slash c (λ e. h (sym e)))

starts_with-soft :
    (c : ℕ) (s : Text) → c ≢ slash → starts_with (codes "///") (slash ∷ c ∷ s) ≡ false
starts_with-soft c s h = rw (starts_with, ==_ne slash c (λ e. h (sym e)))

starts_with-hard :
    (c : ℕ) (s : Text) → c ≢ slash → starts_with (codes "///") (slash ∷ slash ∷ c ∷ s) ≡ false
starts_with-hard c s h = rw (starts_with, ==_ne slash c (λ e. h (sym e)))

-- A pattern that starts with a slash is not found among other characters.
pub find_text-plain :
    (ps a rest : Text)
    → All (λ c. c ≢ slash) a
    → find_text (slash ∷ ps) (a ++ rest) ≡ later (length a) (find_text (slash ∷ ps) rest)
unfolding find_text later
find_text-plain ps [] rest _ = refl
find_text-plain ps (c ∷ a) rest (h, hs) =
    rw (starts_with-plain ps c (a ++ rest) h, find_text-plain ps a rest hs)

find_text-token :
    (hard : Bool) (code rest : Text)
    → Code code
    → find_text (codes "///") (slash ∷ (token hard code ++ rest))
      ≡ later (length (slash ∷ token hard code)) (find_text (codes "///") rest)
unfolding find_text later token
find_text-token hard [] rest c = absurd (ground (arith, c.filled))
find_text-token true (d ∷ code) rest c = rw (
  starts_with-hard d (code ++ rest) c.plain.0,
  starts_with-soft d (code ++ rest) c.plain.0,
  starts_with-plain (codes "//") d (code ++ rest) c.plain.0,
  find_text-plain (codes "//") code rest c.plain.1,
)
find_text-token false (d ∷ code) rest c = rw (
  starts_with-soft d (code ++ rest) c.plain.0,
  starts_with-plain (codes "//") d (code ++ rest) c.plain.0,
  find_text-plain (codes "//") code rest c.plain.1,
)

pub later-append :
    (a b : Text) (o : Option ℕ) → later (length a) (later (length b) o) ≡ later (length (a ++ b)) o
unfolding later
later-append [] b o = refl
later-append (c ∷ a) b o = ap next_at (later-append a b o)

later-some : (n : ℕ) → later n (some 0) ≡ some n
unfolding later
later-some zero = refl
later-some (suc n) = rw (later-some n)

later-none : (n : ℕ) → later n none ≡ none
unfolding later
later-none zero = refl
later-none (suc n) = rw (later-none n)

-- A path holds no password separator.
pub find_text-Segments :
    {path : Text} {tokens : List Text}
    → Segments path tokens
    → (rest : Text)
    → find_text (codes "///") (path ++ rest) ≡ later (length path) (find_text (codes "///") rest)
unfolding later
find_text-Segments done rest = refl
find_text-Segments (step hard code path tokens c p) rest =
    ap (find_text (codes "///")) (ap (λ t. slash ∷ t) (append_assoc (token hard code) path rest))
    ∙ (find_text-token hard code (path ++ rest) c
        ∙ (ap (later (length (slash ∷ token hard code))) (find_text-Segments p rest)
            ∙ later-append (slash ∷ token hard code) path (find_text (codes "///") rest)))

pairs :
    {A : Type 0} {B : Type 0} {a a' : A} {b b' : B}
    → a ≡ a'
    → b ≡ b'
    → ◌≡◌ {A = A × B} (a, b) (a', b')
pairs {a} {a'} {b} {b'} p q = ap (λ x. (x, b)) p ∙ ap (λ y. (a', y)) q

-- The password, cut from what is before it.
pub cut_password-suffix :
    (head : Text) (password : Option Text)
    → find_text (codes "///") (head ++ suffix password)
      ≡ later (length head) (find_text (codes "///") (suffix password))
    → cut_password
        (head ++ suffix password)
        (find_text password_separator (head ++ suffix password))
      ≡ (head, password)
unfolding cut_password password_separator suffix find_text
cut_password-suffix head none h =
    ap (cut_password (head ++ [])) (h ∙ later-none (length head))
    ∙ ap (λ a. (a, none)) (append-nil head)
cut_password-suffix head (some password) h =
    ap (cut_password (head ++ suffix (some password))) (h ∙ later-some (length head))
    ∙ pairs (take-append head (suffix (some password)))
        (ap some (drop-append 3 head (suffix (some password))))

-- The path, cut from the phrase.
pub cut_path-Ends :
    (phrase path : Text)
    → All (λ c. c ≢ slash) phrase
    → Ends path
    → cut_path (phrase ++ path) (find_text (slash ∷ []) (phrase ++ path)) ≡ (phrase, path)
unfolding cut_path find_text
cut_path-Ends phrase _ plain nothing =
    ap (cut_path (phrase ++ [])) (find_text-plain [] phrase [] plain ∙ later-none (length phrase))
    ∙ ap (λ a. (a, [])) (append-nil phrase)
cut_path-Ends phrase _ plain (slashed s) =
    ap (cut_path (phrase ++ slash ∷ s))
      (find_text-plain [] phrase (slash ∷ s) plain ∙ later-some (length phrase))
    ∙ pairs (take-append phrase (slash ∷ s)) (drop-length-append phrase (slash ∷ s))

pub cut_path_sound :
    (head : Text) (o : Option ℕ) → head ≡ (cut_path head o).0 ++ (cut_path head o).1
unfolding cut_path
cut_path_sound head (some at) = sym (append-take-drop at head)
cut_path_sound head none = sym (append-nil head)

-- The pattern, at the start of a text.
starts_with_sound : (p s : Text) → starts_with p s ≡ true → s ≡ p ++ drop (length p) s
starts_with_sound [] s h = refl
starts_with_sound (c ∷ p) [] h = absurd (ground arith)
starts_with_sound (c ∷ p) (d ∷ s) h =
    let same : d ≡ c = ground arith in
    let others : starts_with p s ≡ true = ground arith in
    cons_both same (starts_with_sound p s others)

-- The pattern stands at the index.
unfoldable pub StandsAt : Text → Text → ℕ → Type 0
StandsAt p s at = s ≡ take at s ++ (p ++ drop (at + length p) s)

stands_here : (p s : Text) → starts_with p s ≡ true → StandsAt p s 0
unfolding StandsAt
stands_here p s h =
    let none_before : length p ≡ 0 + length p = omega arith in
    starts_with_sound p s h ∙ ap (λ n. p ++ drop n s) none_before

stands_later :
    (p : Text) (c : ℕ) (s : Text) (at : ℕ) → StandsAt p s at → StandsAt p (c ∷ s) (suc at)
unfolding StandsAt
stands_later p c s at h =
    let one_more : suc (at + length p) ≡ suc at + length p = omega arith in
    ap (λ t. c ∷ t) h ∙ ap (λ n. c ∷ (take at s ++ (p ++ drop n (c ∷ s)))) one_more

find_here :
    (p : Text) (c : ℕ) (s : Text) (here : Bool) (found : Option ℕ) (at : ℕ)
    → starts_with p (c ∷ s) ≡ here
    → ((at' : ℕ) → found ≡ some at' → StandsAt p s at')
    → (if here then some 0 else next_at found) ≡ some at
    → StandsAt p (c ∷ s) at
find_here p c s true found at starts ih h =
    let first : 0 ≡ at = ground arith in
    subst (StandsAt p (c ∷ s)) first (stands_here p (c ∷ s) starts)
find_here p c s false none at starts ih h = absurd (ground arith)
find_here p c s false (some at') at starts ih h =
    let next : suc at' ≡ at = ground arith in
    subst (StandsAt p (c ∷ s)) next (stands_later p c s at' (ih at' refl))

pub find_text_sound :
    (q : ℕ) (p s : Text) (at : ℕ) → find_text (q ∷ p) s ≡ some at → StandsAt (q ∷ p) s at
unfolding find_text
find_text_sound q p [] at h = absurd (ground arith)
find_text_sound q p (c ∷ s) at h =
    find_here (q ∷ p) c s (starts_with (q ∷ p) (c ∷ s)) (find_text (q ∷ p) s) at refl
      (find_text_sound q p s) h

pub cut_password_sound :
    (input : Text) (o : Option ℕ)
    → ((at : ℕ) → o ≡ some at → StandsAt (codes "///") input at)
    → input ≡ (cut_password input o).0 ++ suffix (cut_password input o).1
unfolding cut_password password_separator suffix StandsAt
cut_password_sound input none h = sym (append-nil input)
cut_password_sound input (some at) h = h at refl

module _ (u : UriParts) where
  -- `[\d\w ]`, as `is_valid_phrase` reads it.
  unfoldable pub Word : ℕ → Type 0
  Word c = (u.is_alphanumeric c ≡ true) ⊎ ((c ≡ b'_') ⊎ (c ≡ b' '))

  pub valid_sound : (phrase : Text) → is_valid_phrase u phrase ≡ true → All Word phrase
  unfolding is_valid_phrase Word
  valid_sound [] h = tt
  valid_sound (c ∷ phrase) h = (ground arith, valid_sound phrase (ground arith))

  pub valid_complete : (phrase : Text) → All Word phrase → is_valid_phrase u phrase ≡ true
  unfolding is_valid_phrase Word
  valid_complete [] h = refl
  valid_complete (c ∷ phrase) (h, hs) = ground (arith, valid_complete phrase hs)

  -- `^(?P<phrase>[\d\w ]+)?(?P<path>(//?[^/]+)*)(///(?P<password>.*))?$`, where the dot stands for
  -- every character.
  pub record Uri (input phrase : Text) (tokens : List Text) (password : Option Text) : Type 0 where
    pub path : Text
    pub spelled : input ≡ (phrase ++ path) ++ suffix password
    pub worded : All Word phrase
    pub pathed : Segments path tokens
