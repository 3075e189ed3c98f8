-- ===== src/Key/Scopes/Format.antt =====
-- The text form of a scope set: `Display` and `FromStr`.
use matter_sdk.Common.{
  debug, ℕ, Bool, true, false, not, ◌&&◌, ◌||◌, List, [], ◌∷◌, ◌++◌, Option, none, some, Text,
  codes, ◌==◌, is_empty, find, retain, if◌then◌else◌, trim, is_whitespace, to_lower, eq_ignore_case,
  split_once, Result, ok, ◌>>=◌, ok_or, ◌>>◌, fail_if,
}
use matter_sdk.Key.Scopes.{
  Scope, ScopeSet, read, write, all_scopes, name, empty, contains, with_grant, set_is_empty,
}

-- `EMPTY_TEXT`.
abbrev pub empty_text : Text
empty_text = codes "(none)"

-- One round of the loop of `fmt`: the text so far, and whether nothing was written yet.
unfoldable pub display_entry : ScopeSet → Scope → Text × Bool → Text × Bool
display_entry self scope (out, first) =
    let r = contains self scope read in
    let w = contains self scope write in
    if not r && not w then (out, first) else (
      out
          ++ ((if first then [] else codes ", ")
              ++ (name scope
                  ++ (codes ":"
                      ++ ((if r then codes "r" else []) ++ (if w then codes "w" else []))))),
      false,
    )

unfoldable pub display_loop : ScopeSet → List Scope → Text × Bool → Text
unfolding display_entry
display_loop self [] (out, first) = out
display_loop self (s ∷ rest) state = display_loop self rest (display_entry self s state)

-- `impl Display for ScopeSet`.
unfoldable pub display : ScopeSet → Text
unfolding display_loop set_is_empty
display self = if set_is_empty self then empty_text else display_loop self all_scopes ([], true)

-- Each error echoes the text that it refuses.
pub data ScopeParseError : Type 0 where
  missing_access : Text → ScopeParseError
  unknown_scope : Text → ScopeParseError
  invalid_access : Text → Text → ScopeParseError

-- `impl Display for ScopeParseError`.
unfoldable pub scope_to_string : (ℕ → Bool) → ScopeParseError → Text
scope_to_string printable (missing_access entry) =
    codes "scope entry "
    ++ (debug printable entry ++ codes " is missing its `:r`, `:w` or `:rw` suffix")
scope_to_string printable (unknown_scope name) = codes "unknown scope " ++ debug printable name
scope_to_string printable (invalid_access name access) =
    codes "scope "
    ++ (debug printable name
        ++ (codes " has invalid access "
            ++ (debug printable access ++ codes ": expected r, w, or rw")))

unfoldable pub is_separator : ℕ → Bool
unfolding is_whitespace
is_separator c = (c == b',') || is_whitespace c

abbrev push_char : ℕ → List Text → List Text
push_char c [] = (c ∷ []) ∷ []
push_char c (e ∷ es) = (c ∷ e) ∷ es

-- `str::split` by a test on characters: always one part more than there are separators.
unfoldable pub split : (ℕ → Bool) → Text → List Text
split p [] = [] ∷ []
split p (c ∷ s) = if p c then [] ∷ split p s else push_char c (split p s)

-- The loop over the access letters; a repeated letter is refused.
unfoldable pub access_letters : Text → Bool → Bool → Option (Bool × Bool)
access_letters [] r w = some (r, w)
access_letters (c ∷ s) r w =
    let with_r = access_letters s true w in
    let with_w = access_letters s r true in
    if (to_lower c == b'r') && not r
    then with_r
    else if (to_lower c == b'w') && not w
    then with_w
    else none

-- What one entry adds to the set.
unfoldable pub parse_entry : Text → ScopeSet → Result ScopeParseError ScopeSet
unfolding split_once access_letters name with_grant
parse_entry entry set = do
  (scope_name, access) ← ok_or (split_once b':' entry) (missing_access entry)
  scope ←
      ok_or (find (λ s. eq_ignore_case (name s) scope_name) all_scopes) (unknown_scope scope_name)
  (r, w) ← ok_or (access_letters access false false) (invalid_access scope_name access)
  fail_if (not r && not w) (invalid_access scope_name access)
  let with_read = if r then with_grant set scope read else set
  ok (if w then with_grant with_read scope write else with_read)

unfoldable pub parse_entries : List Text → ScopeSet → Result ScopeParseError ScopeSet
unfolding parse_entry
parse_entries [] set = ok set
parse_entries (e ∷ es) set = do set' ← parse_entry e set; parse_entries es set'

-- `impl FromStr for ScopeSet`.
unfoldable pub parse : Text → Result ScopeParseError ScopeSet
unfolding trim parse_entries split is_separator empty
parse s =
    let trimmed = trim s in
    if is_empty trimmed || eq_ignore_case trimmed empty_text
    then ok empty
    else parse_entries (retain (λ e. not (is_empty e)) (split is_separator trimmed)) empty
