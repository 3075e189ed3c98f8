-- ===== src/Key/Suri.antt =====
-- crates/matter-sdk-key/src/suri.rs: a secret URI, cut into phrase, junctions and password.
pub mod Junctions
pub mod Grammar
pub mod Split
pub mod Ascii
use matter_sdk.Common.{
  ℕ, zero, suc, ◌+◌, Bool, true, false, ◌||◌, List, [], ◌∷◌, Option, none, some, String, Text,
  codes, starts_with, take, drop, length, is_empty, all, ◌==◌, if◌then◌else◌, Result, ok, err,
  ◌>>=◌, ◌>>◌, fail_if,
}
use matter_sdk.Key.Error.{KeyError, malformed}

-- What the parser calls: `char::is_alphanumeric` of the standard library's Unicode tables and
-- `DeriveJunction::from` of the crate subxt_signer.
pub record UriParts : Type 1 where
  pub Junction : Type 0
  pub is_alphanumeric : ℕ → Bool
  pub junction_from : Text → Junction

abbrev pub next_at : Option ℕ → Option ℕ
next_at none = none
next_at (some at) = some (suc at)

-- `str::find`.
unfoldable pub find_text : Text → Text → Option ℕ
find_text pattern [] = if is_empty pattern then some 0 else none
find_text pattern (c ∷ s) =
    if starts_with pattern (c ∷ s) then some 0 else next_at (find_text pattern s)

abbrev pub slash : ℕ
slash = b'/'

unfoldable pub password_separator : Text
password_separator = codes "///"

unfoldable pub cut_password : Text → Option ℕ → Text × Option Text
unfolding password_separator
cut_password input (some at) = (take at input, some (drop (at + length password_separator) input))
cut_password input none = (input, none)

unfoldable pub cut_path : Text → Option ℕ → Text × Text
cut_path head (some at) = (take at head, drop at head)
cut_path head none = (head, [])

abbrev pub bad_phrase : KeyError
bad_phrase = malformed "phrase may contain only letters, digits, underscores, and spaces"

abbrev pub bad_path : KeyError
bad_path = malformed "derivation path must be a sequence of `/soft` or `//hard` segments"

-- The loop over the characters of a segment: the segment and what is left of the path.
unfoldable pub segment : Text → Text × Text
segment [] = ([], [])
segment (c ∷ s) = let rest = segment s in if c == slash then ([], c ∷ s) else (c ∷ rest.0, rest.1)

-- The optional second slash, and whether it is there.
unfoldable pub hard_marker : Text → Bool × Text
hard_marker [] = (false, [])
hard_marker (c ∷ s) = if c == slash then (true, s) else (false, c ∷ s)

-- The text after the first slash, up to the end of the segment.
unfoldable pub token : Bool → Text → Text
token true code = slash ∷ code
token false code = code

-- One turn of the loop of `parse_junctions`: the token and what is left of the path.
unfoldable pub next_token : ℕ → Text → Result KeyError (Text × Text)
unfolding segment hard_marker token
next_token c s = do
  fail_if (if c == slash then false else true) bad_path
  let marker = hard_marker s
  let cut = segment marker.1
  fail_if (is_empty cut.0) bad_path
  ok (token marker.0 cut.0, cut.1)

module _ (u : UriParts) where
  pub record Suri : Type 0 where
    pub phrase : Text
    pub junctions : List u.Junction
    pub password : Option Text

  unfoldable pub is_valid_phrase : Text → Bool
  is_valid_phrase phrase = all (λ c. u.is_alphanumeric c || (c == b'_') || (c == b' ')) phrase

  -- The loop of `parse_junctions`, with one unit of fuel for each character.
  unfoldable pub junctions_loop : ℕ → Text → Result KeyError (List u.Junction)
  unfolding next_token
  junctions_loop fuel [] = ok []
  junctions_loop zero (c ∷ s) = err bad_path
  junctions_loop (suc fuel) (c ∷ s) = do
    found ← next_token c s
    others ← junctions_loop fuel found.1
    ok (u.junction_from found.0 ∷ others)

  unfoldable pub parse_junctions : Text → Result KeyError (List u.Junction)
  unfolding junctions_loop
  parse_junctions path = junctions_loop (length path) path

  -- What `split` does with the parts that it cut.
  unfoldable pub from_parts : Text × Text → Option Text → Result KeyError Suri
  unfolding is_valid_phrase parse_junctions
  from_parts (phrase, path) password = do
    fail_if (if is_valid_phrase phrase then false else true) bad_phrase
    junctions ← parse_junctions path
    ok (record { phrase = phrase; junctions = junctions; password = password })

  unfoldable pub split : Text → Result KeyError Suri
  unfolding find_text password_separator cut_password cut_path from_parts
  split input =
      let (head, password) = cut_password input (find_text password_separator input) in
      from_parts (cut_path head (find_text (slash ∷ []) head)) password
