-- ===== src/Key/ApiKey/Faults.antt =====
-- The errors of `ApiKey::parse` are texts of the program.
use matter_sdk.Common.{
  ℕ, zero, suc, ◌≡◌, inl, inr, subst, Bool, true, false, [], ◌∷◌, Option, none, some, Text, codes,
  eq_ignore_case, trim, is_empty, strip_prefix, split_once, all, ◌==◌, Result, ok, err, ◌>>=◌,
  >>=-eq-err, fail_if, ok_or, arith, if◌then◌else◌, length,
}
use matter_sdk.Key.Error.{KeyError, empty, unsupported_scheme}
use matter_sdk.Key.Scheme.{KeyScheme, sr25519, unrecognised_scheme, from_token}
use matter_sdk.Key.Suri.{
  UriParts, bad_path, bad_phrase, next_token, slash, hard_marker, segment, junctions_loop,
  cut_password, cut_path, find_text, password_separator, is_valid_phrase, parse_junctions,
  from_parts, split,
}
use matter_sdk.Key.ApiKey.{
  KeyRing, len_utf8, is_hexdigit, not_phrase, wrong_length, not_hex, invalid_seed, not_mnemonic,
  failed_derivation, find_reserved, resolve, with_prefix, scheme_prefix, split_scheme,
  keypair_from_hex, keypair_from_mnemonic, root_of, parse_sr25519, parse_scheme, parse,
}

-- The errors of the parser, none of which holds a text of the input.
pub data ParseFault : KeyError → Type 0 where
  no_text : ParseFault empty
  reserved_secp256k1 : ParseFault (unsupported_scheme "secp256k1" "sr25519")
  reserved_ecdsa : ParseFault (unsupported_scheme "ecdsa" "sr25519")
  reserved_ed25519 : ParseFault (unsupported_scheme "ed25519" "sr25519")
  unknown_scheme : ParseFault unrecognised_scheme
  at_phrase : ParseFault bad_phrase
  at_path : ParseFault bad_path
  without_phrase : ParseFault not_phrase
  seed_length : ParseFault wrong_length
  seed_digit : ParseFault not_hex
  seed_refused : ParseFault invalid_seed
  no_mnemonic : ParseFault not_mnemonic
  mnemonic_refused : ParseFault failed_derivation

-- A step fails with one of them only.
Safe : {A : Type 0} → Result KeyError A → Type 0
Safe r = (e : KeyError) → r ≡ err e → ParseFault e

>>=-Safe :
    {A : Type 0} {B : Type 0} (first : Result KeyError A) (next : A → Result KeyError B)
    → Safe first
    → ((a : A) → Safe (next a))
    → Safe (first >>= next)
unfolding Safe
>>=-Safe first next here later e h = elim (>>=-eq-err first next h) [
  | inl failed ↦ here e failed
  | inr (a, _, failed) ↦ later a e failed
]

ok-Safe : {A : Type 0} (a : A) → Safe {A = A} (ok a)
unfolding Safe
ok-Safe a e h = absurd (ground arith)

err-Safe : (A : Type 0) (e : KeyError) → ParseFault e → Safe {A = A} (err e)
unfolding Safe
err-Safe A e m f h = let same : e ≡ f = ground arith in subst (λ g. ParseFault g) same m

fail_if-Safe : (b : Bool) (e : KeyError) → ParseFault e → Safe (fail_if b e)
fail_if-Safe true e m = err-Safe _ e m
fail_if-Safe false e m = ok-Safe tt

ok_or-Safe : {A : Type 0} (o : Option A) (e : KeyError) → ParseFault e → Safe (ok_or o e)
ok_or-Safe none e m = err-Safe _ e m
ok_or-Safe (some a) e m = ok-Safe a

next_token-Safe : (c : ℕ) (s : Text) → Safe (next_token c s)
unfolding next_token
next_token-Safe c s =
    >>=-Safe (fail_if (if c == slash then false else true) bad_path) _ (fail_if-Safe _ _ at_path)
      λ _.
        >>=-Safe (fail_if (is_empty (segment (hard_marker s).1).0) bad_path) _
          (fail_if-Safe _ _ at_path) λ _. ok-Safe _

module _ (u : UriParts) where
  loop-Safe : (fuel : ℕ) (path : Text) → Safe (junctions_loop u fuel path)
  unfolding junctions_loop
  loop-Safe fuel [] = ok-Safe []
  loop-Safe zero (c ∷ s) = err-Safe _ bad_path at_path
  loop-Safe (suc fuel) (c ∷ s) = >>=-Safe (next_token c s) _ (next_token-Safe c s) λ found.
      >>=-Safe (junctions_loop u fuel found.1) _ (loop-Safe fuel found.1) λ others. ok-Safe _

  from_parts-Safe : (cut : Text × Text) (password : Option Text) → Safe (from_parts u cut password)
  unfolding from_parts parse_junctions
  from_parts-Safe (phrase, path) password =
      >>=-Safe (fail_if (if is_valid_phrase u phrase then false else true) bad_phrase) _
        (fail_if-Safe _ _ at_phrase)
        λ _.
          >>=-Safe (junctions_loop u (length path) path) _ (loop-Safe (length path) path)
            λ js. ok-Safe _

  split-Safe : (input : Text) → Safe (split u input)
  unfolding split
  split-Safe input =
      let outer = cut_password input (find_text password_separator input) in
      from_parts-Safe (cut_path outer.0 (find_text (slash ∷ []) outer.0)) outer.1

from_token-Safe : (known : Bool) → Safe (if known then ok sr25519 else err unrecognised_scheme)
from_token-Safe true = ok-Safe sr25519
from_token-Safe false = err-Safe _ _ unknown_scheme

-- A scheme that is found reserved is one of the list.
reserved-Safe :
    (a b c : Bool) (token body : Text)
    → Safe (
        resolve
          (if a
            then some "secp256k1"
            else (if b then some "ecdsa" else (if c then some "ed25519" else none)))
          token
          body)
unfolding resolve from_token
reserved-Safe true b c token body = err-Safe _ _ reserved_secp256k1
reserved-Safe false true c token body = err-Safe _ _ reserved_ecdsa
reserved-Safe false false true token body = err-Safe _ _ reserved_ed25519
reserved-Safe false false false token body =
    >>=-Safe
      (if eq_ignore_case token (codes "sr25519") then ok sr25519 else err unrecognised_scheme) _
      (from_token-Safe _) λ s. ok-Safe _

with_prefix-Safe : (input : Text) (prefix : Option (Text × Text)) → Safe (with_prefix input prefix)
unfolding with_prefix find_reserved
with_prefix-Safe input none = ok-Safe _
with_prefix-Safe input (some (token, body)) =
    reserved-Safe (eq_ignore_case token (codes "secp256k1")) (eq_ignore_case token (codes "ecdsa"))
      (eq_ignore_case token (codes "ed25519")) token body

split_scheme-Safe : (input : Text) → Safe (split_scheme input)
unfolding split_scheme
split_scheme-Safe input = with_prefix-Safe input (scheme_prefix (split_once b':' input))

module _ (ring : KeyRing) where
  keypair_from_hex-Safe : (body : Text) → Safe (keypair_from_hex ring body)
  unfolding keypair_from_hex
  keypair_from_hex-Safe body =
      >>=-Safe (fail_if (if len_utf8 body == 64 then false else true) wrong_length) _
        (fail_if-Safe _ _ seed_length)
        λ _.
          >>=-Safe (fail_if (if all is_hexdigit body then false else true) not_hex) _
            (fail_if-Safe _ _ seed_digit)
            λ _.
              >>=-Safe (ok_or (ring.decode_to_slice 32 body) not_hex) _ (ok_or-Safe _ _ seed_digit)
                λ seed. ok_or-Safe _ _ seed_refused

  root_of-Safe :
      (phrase : Text) (password hex_body : Option Text)
      → Safe (root_of ring phrase password hex_body)
  unfolding root_of keypair_from_mnemonic
  root_of-Safe phrase password (some body) = keypair_from_hex-Safe body
  root_of-Safe phrase password none =
      >>=-Safe (ok_or (ring.mnemonic_of phrase) not_mnemonic) _ (ok_or-Safe _ _ no_mnemonic)
        λ m. ok_or-Safe _ _ mnemonic_refused

  parse_scheme-Safe : (scheme : KeyScheme) (body : Text) → Safe (parse_scheme ring scheme body)
  unfolding parse_sr25519
  parse_scheme-Safe sr25519 body =
      >>=-Safe (split ring.uri body) _ (split-Safe ring.uri body) λ uri.
        >>=-Safe (fail_if (is_empty uri.phrase) not_phrase) _ (fail_if-Safe _ _ without_phrase) λ _.
          >>=-Safe (root_of ring uri.phrase uri.password (strip_prefix (codes "0x") uri.phrase)) _
            (root_of-Safe uri.phrase uri.password (strip_prefix (codes "0x") uri.phrase))
            λ root. ok-Safe _

  -- An error of `ApiKey::parse` is one of thirteen that are fixed by the program: it tells
  -- nothing of the input but which of them it is.
  pub parse_faults : (input : Text) {e : KeyError} → parse ring input ≡ err e → ParseFault e
  unfolding parse Safe
  parse_faults input {e} h =
      unfold Safe in
      >>=-Safe (fail_if (is_empty (trim input)) empty) _ (fail_if-Safe _ _ no_text)
        (λ _. >>=-Safe (split_scheme (trim input)) _ (split_scheme-Safe (trim input)) λ found.
          >>=-Safe (fail_if (is_empty (trim found.1)) empty) _ (fail_if-Safe _ _ no_text)
            λ _. parse_scheme-Safe found.0 found.1)
        e h
