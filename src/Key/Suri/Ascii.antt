-- ===== src/Key/Suri/Ascii.antt =====
-- `split` against the grammar as it is quoted in crates/matter-sdk-key/src/suri.rs, with the class and
-- the dot of a regular expression, on texts of ASCII without a line feed.
use matter_sdk.Common.{
  ℕ, ◌≤◌, ◌<◌, ◌≡◌, ◌≢◌, ◌↔◌, ◌⊎◌, inl, inr, subst, true, false, List, [], ◌∷◌, ◌++◌, map, Option,
  none, some, Bool-cases, Text, All, All-weaken, ok, arith,
}
use matter_sdk.Key.Suri.{UriParts, Suri, slash, split}
use matter_sdk.Key.Suri.Junctions.{Segments}
use matter_sdk.Key.Suri.Grammar.{suffix, Word}
use matter_sdk.Key.Suri.Split.{split_iff}

-- `[\d\w ]` among the characters of ASCII: a digit, a letter, an underscore or a space.
unfoldable pub PhraseChar : ℕ → Type 0
PhraseChar c =
    ((48 ≤ c) × (c ≤ 57))
    ⊎ (((65 ≤ c) × (c ≤ 90)) ⊎ (((97 ≤ c) × (c ≤ 122)) ⊎ ((c ≡ 95) ⊎ (c ≡ 32))))

-- A character of ASCII that the dot matches.
unfoldable pub Dotted : ℕ → Type 0
Dotted c = (c < 128) × (c ≢ 10)

-- `(?P<password>.*)`, if there is a password.
unfoldable pub DottedPassword : Option Text → Type 0
DottedPassword none = Unit
DottedPassword (some password) = All Dotted password

-- `^(?P<phrase>[\d\w ]+)?(?P<path>(//?[^/]+)*)(///(?P<password>.*))?$`
pub record SecretUri (input phrase : Text) (tokens : List Text) (password : Option Text)
    : Type 0 where
  pub path : Text
  pub spelled : input ≡ (phrase ++ path) ++ suffix password
  pub worded : All PhraseChar phrase
  pub pathed : Segments path tokens
  pub dotted : DottedPassword password

-- What `char::is_alphanumeric` documents of ASCII: its digits and letters, and no other character.
pub record AsciiLaws (u : UriParts) : Type 0 where
  pub alphanumeric :
      (c : ℕ)
      → c < 128
      → (u.is_alphanumeric c ≡ true)
        ↔ (((48 ≤ c) × (c ≤ 57)) ⊎ (((65 ≤ c) × (c ≤ 90)) ⊎ ((97 ≤ c) × (c ≤ 122))))

All-first : (P : ℕ → Type 0) (s t : Text) → All P (s ++ t) → All P s
All-first P [] t h = tt
All-first P (c ∷ s) t (h, hs) = (h, All-first P s t hs)

All-second : (P : ℕ → Type 0) (s t : Text) → All P (s ++ t) → All P t
All-second P [] t h = h
All-second P (c ∷ s) t (h, hs) = All-second P s t hs

All-both :
    (P Q R : ℕ → Type 0) (s : Text) → ((c : ℕ) → P c → Q c → R c) → All P s → All Q s → All R s
All-both P Q R [] f p q = tt
All-both P Q R (c ∷ s) f (p, ps) (q, qs) = (f c p q, All-both P Q R s f ps qs)

suffix-Dotted : (password : Option Text) → All Dotted (suffix password) → DottedPassword password
unfolding suffix DottedPassword
suffix-Dotted none h = tt
suffix-Dotted (some password) (a, (b, (c, h))) = h

module _ (u : UriParts) (laws : AsciiLaws u) where
  no_slash : u.is_alphanumeric slash ≡ false
  no_slash = elim (Bool-cases (u.is_alphanumeric slash)) [
    | inl letter ↦ absurd (ground (arith, (laws.alphanumeric slash (omega arith)).0 letter))
    | inr other ↦ other
  ]

  to_phrase : (c : ℕ) → Dotted c → Word u c → PhraseChar c
  unfolding Dotted Word PhraseChar
  to_phrase c (small, _) w = ground (arith, (laws.alphanumeric c small).0)

  of_phrase : (c : ℕ) → PhraseChar c → Word u c
  unfolding Word PhraseChar
  of_phrase c w =
      let small : c < 128 = ground (arith, w) in ground (arith, w, (laws.alphanumeric c small).1)

  -- Of the texts of ASCII without a line feed, `split` succeeds exactly on those that the quoted
  -- grammar matches: it returns their phrase and password, and the junctions of their tokens. Of
  -- ASCII, the letters and digits are assumed to be alphanumeric, and nothing else.
  pub split_ascii_iff :
      (input : Text) (uri : Suri u)
      → All Dotted input
      → (split u input ≡ ok uri) ↔ (
          (tokens : List Text) × SecretUri input uri.phrase tokens uri.password
          × (uri.junctions ≡ map u.junction_from tokens))
  split_ascii_iff input uri plain = (
    λ h.
        let (tokens, whole, made) = (split_iff u no_slash input uri).0 h in
        let parts : All Dotted ((uri.phrase ++ whole.path) ++ suffix uri.password) =
          subst (All Dotted) whole.spelled plain in
        let first : All Dotted uri.phrase =
          All-first Dotted uri.phrase whole.path
            (All-first Dotted (uri.phrase ++ whole.path) (suffix uri.password) parts) in
        (
          tokens,
          record {
            path = whole.path;
            spelled = whole.spelled;
            worded = All-both Dotted (Word u) PhraseChar uri.phrase to_phrase first whole.worded;
            pathed = whole.pathed;
            dotted =
                suffix-Dotted uri.password
                  (All-second Dotted (uri.phrase ++ whole.path) (suffix uri.password) parts);
          },
          made,
        ),
    λ (tokens, whole, made). (split_iff u no_slash input uri).1 (
      tokens,
      record {
        path = whole.path;
        spelled = whole.spelled;
        worded = All-weaken PhraseChar (Word u) of_phrase uri.phrase whole.worded;
        pathed = whole.pathed;
      },
      made,
    ),
  )
