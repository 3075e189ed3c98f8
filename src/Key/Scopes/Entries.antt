-- ===== src/Key/Scopes/Entries.antt =====
-- The entries of a displayed scope set: how `fmt` joins them, and how the parser takes them apart.
use matter_sdk.Common.{
  ℕ, ◌≡◌, refl, sym, ap, ◌∙◌, Bool, true, false, not, ◌&&◌, ◌||◌, List, [], ◌∷◌, ◌++◌, append_assoc,
  append-nil, Text, codes, arith, All, All-append, if◌then◌else◌, is_empty, retain, is_whitespace,
  ok, Bool-cases, inl, inr,
}
use matter_sdk.Common.Parts.{EndsBlack, EndsBlack-append}
use matter_sdk.Key.Scopes.{Scope, ScopeSet, deployments, read, write, name, contains, with_grant}
use matter_sdk.Key.Scopes.Format.{display_loop, display_entry, parse_entry, split, is_separator}

unfoldable pub access_text : Bool → Bool → Text
access_text r w = (if r then codes "r" else []) ++ (if w then codes "w" else [])

unfoldable pub entry_text : Scope → Bool → Bool → Text
unfolding access_text name
entry_text scope r w = name scope ++ (codes ":" ++ access_text r w)

-- The entries that `fmt` writes, without their separators.
unfoldable pub entries : ScopeSet → List Scope → List Text
entries self [] = []
entries self (s ∷ rest) =
    if not (contains self s read) && not (contains self s write)
    then entries self rest
    else entry_text s (contains self s read) (contains self s write) ∷ entries self rest

-- Entries, each behind a separator.
unfoldable pub behind : List Text → Text
behind [] = []
behind (e ∷ es) = codes ", " ++ (e ++ behind es)

unfoldable pub joined : Bool → List Text → Text
unfolding behind
joined true [] = []
joined true (e ∷ es) = e ++ behind es
joined false es = behind es

joined_shown :
    (first : Bool) (out e : Text) (es : List Text)
    → (out ++ ((if first then [] else codes ", ") ++ e)) ++ behind es ≡ out ++ joined first (e ∷ es)
unfolding joined behind
joined_shown true out e es = append_assoc out e (behind es)
joined_shown false out e es =
    append_assoc out (codes ", " ++ e) (behind es)
    ∙ ap (λ t. out ++ t) (append_assoc (codes ", ") e (behind es))

pub display_loop-joined :
    (self : ScopeSet) (scopes : List Scope) (out : Text) (first : Bool)
    → display_loop self scopes (out, first) ≡ out ++ joined first (entries self scopes)
unfolding display_loop display_entry entries joined entry_text access_text
display_loop-joined self [] out true = sym (append-nil out)
display_loop-joined self [] out false = sym (append-nil out)
display_loop-joined self (s ∷ rest) out first =
    elim (Bool-cases (not (contains self s read) && not (contains self s write))) [
      | inl hidden ↦ rw hidden (display_loop-joined self rest out first)
      | inr shown ↦
          rw shown
            (display_loop-joined self rest _ false ∙ joined_shown first out _ (entries self rest))
    ]

-- What the parser needs of an entry.
pub record IsEntry (e : Text) : Type 0 where
  pub ends : EndsBlack e
  pub solid : All (λ c. is_separator c ≡ false) e
  pub nonempty : is_empty e ≡ false

ends_access : (r w : Bool) → (r || w) ≡ true → EndsBlack (codes ":" ++ access_text r w)
unfolding access_text is_whitespace
ends_access true true h = record { front = codes ":r"; final = b'w'; spelled = refl; black = refl }
ends_access true false h = record { front = codes ":"; final = b'r'; spelled = refl; black = refl }
ends_access false true h = record { front = codes ":"; final = b'w'; spelled = refl; black = refl }
ends_access false false h = cc

solid_access : (r w : Bool) → All (λ c. is_separator c ≡ false) (codes ":" ++ access_text r w)
unfolding access_text is_separator
solid_access true true = assumption refl
solid_access true false = assumption refl
solid_access false true = assumption refl
solid_access false false = assumption refl

solid_name : (s : Scope) → All (λ c. is_separator c ≡ false) (name s)
unfolding name is_separator
solid_name deployments = assumption refl
solid_name _ = assumption refl

nonempty_name : (s : Scope) (rest : Text) → is_empty (name s ++ rest) ≡ false
unfolding name
nonempty_name deployments rest = refl
nonempty_name _ rest = refl

pub entry_text-IsEntry : (s : Scope) (r w : Bool) → (r || w) ≡ true → IsEntry (entry_text s r w)
unfolding entry_text
entry_text-IsEntry s r w h = record {
  ends = EndsBlack-append (name s) (codes ":" ++ access_text r w) (ends_access r w h);
  solid = All-append _ (name s) (codes ":" ++ access_text r w) (solid_name s) (solid_access r w);
  nonempty = nonempty_name s (codes ":" ++ access_text r w);
}

split-append :
    (p : ℕ → Bool) (e : Text) (c : ℕ) (rest : Text)
    → All (λ d. p d ≡ false) e
    → p c ≡ true
    → split p (e ++ c ∷ rest) ≡ e ∷ split p rest
unfolding split
split-append p [] c rest _ h = rw h
split-append p (d ∷ e) c rest (k, ks) h = rw (k, split-append p e c rest ks h)

split_solid : (p : ℕ → Bool) (e : Text) → All (λ d. p d ≡ false) e → split p e ≡ e ∷ []
unfolding split
split_solid p [] _ = refl
split_solid p (d ∷ e) (k, ks) = rw (k, split_solid p e ks)

comma_separates : is_separator b',' ≡ true
unfolding is_separator
comma_separates = refl

split_blank : (t : Text) → split is_separator (b' ' ∷ t) ≡ [] ∷ split is_separator t
unfolding split is_separator
split_blank t = refl

-- The parts of a text of entries, without the empty ones, are the entries.
pub parts_behind :
    (e : Text) (es : List Text)
    → IsEntry e
    → All IsEntry es
    → retain (λ d. not (is_empty d)) (split is_separator (e ++ behind es)) ≡ e ∷ es
unfolding behind
parts_behind e [] ie _ = rw (append-nil, split_solid is_separator e ie.solid, ie.nonempty)
parts_behind e (f ∷ es) ie (hf, hes) =
    rw
      (
        split-append is_separator e b',' (b' ' ∷ (f ++ behind es)) ie.solid comma_separates,
        split_blank,
        ie.nonempty,
      )
      (ap (λ t. e ∷ t) (parts_behind f es hf hes))

pub entries-IsEntry : (self : ScopeSet) (scopes : List Scope) → All IsEntry (entries self scopes)
unfolding entries
entries-IsEntry self [] = tt
entries-IsEntry self (s ∷ rest) =
    elim (Bool-cases (not (contains self s read) && not (contains self s write))) [
      | inl hidden ↦ rw hidden (entries-IsEntry self rest)
      | inr shown ↦ rw shown (entry_text-IsEntry s _ _ (ground arith), entries-IsEntry self rest)
    ]

pub ends_behind :
    (e : Text) (es : List Text) → IsEntry e → All IsEntry es → EndsBlack (e ++ behind es)
unfolding behind
ends_behind e [] ie _ = rw append-nil ie.ends
ends_behind e (f ∷ es) ie (hf, hes) =
    EndsBlack-append e _ (EndsBlack-append (codes ", ") _ (ends_behind f es hf hes))

-- What the parser makes of one entry.
unfoldable pub grant : ScopeSet → Scope → Bool → Bool → ScopeSet
grant set s r w =
    let with_read = if r then with_grant set s read else set in
    if w then with_grant with_read s write else with_read

pub parse_entry-entry_text :
    (s : Scope) (r w : Bool) (set : ScopeSet)
    → (r || w) ≡ true
    → parse_entry (entry_text s r w) set ≡ ok (grant set s r w)
unfolding parse_entry entry_text access_text grant
parse_entry-entry_text deployments true true set h = refl
parse_entry-entry_text _ true true set h = refl
parse_entry-entry_text deployments true false set h = refl
parse_entry-entry_text _ true false set h = refl
parse_entry-entry_text deployments false true set h = refl
parse_entry-entry_text _ false true set h = refl
parse_entry-entry_text s false false set h = cc
