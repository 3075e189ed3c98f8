-- ===== src/Key/ApiKey/Seed.antt =====
-- A key that is written as a hexadecimal mini-secret.
use matter_sdk.Common.{
  ℕ, ◌<◌, ◌≡◌, inl, refl, ap, true, false, List, [], ◌∷◌, ◌++◌, map, Option, none, some, Text,
  codes, trim, is_empty, is_whitespace, split_once, cons_fst, length, all, All, ok, arith,
}
use matter_sdk.Common.Parts.{EndsBlack, trim_black}
use matter_sdk.Core.Crypto.{Bytes}
use matter_sdk.Key.Scheme.{sr25519}
use matter_sdk.Key.Suri.{UriParts, slash}
use matter_sdk.Key.Suri.Junctions.{Segments}
use matter_sdk.Key.Suri.Grammar.{suffix, Word, Uri}
use matter_sdk.Key.Suri.Split.{split_complete}
use matter_sdk.Key.ApiKey.{
  KeyRing, len_utf8, is_hexdigit, is_scheme_token, scheme_prefix, with_prefix, split_scheme,
  from_keypair, keypair_from_hex, root_of, parse_sr25519, parse,
}

-- What the standard library documents of `char::is_alphanumeric`.
pub record AlphanumericLaws (u : UriParts) : Type 0 where
  pub no_slash : u.is_alphanumeric slash ≡ false
  pub hexdigits : (c : ℕ) → is_hexdigit c ≡ true → u.is_alphanumeric c ≡ true
  pub letter_x : u.is_alphanumeric b'x' ≡ true

hexdigit_small : (c : ℕ) → is_hexdigit c ≡ true → c < 0x80
hexdigit_small c h = ground arith

len_utf8-hex : (s : Text) → all is_hexdigit s ≡ true → len_utf8 s ≡ length s
unfolding len_utf8
len_utf8-hex [] h = refl
len_utf8-hex (c ∷ s) h =
    let small : c < 0x80 = hexdigit_small c (ground arith) in
    let others : len_utf8 s ≡ length s = len_utf8-hex s (ground arith) in
    ground (arith, small, others)

-- A token that starts in `0x` is no scheme.
no_scheme : (o : Option (Text × Text)) → scheme_prefix (cons_fst b'0' (cons_fst b'x' o)) ≡ none
unfolding scheme_prefix is_scheme_token
no_scheme none = refl
no_scheme (some (a, b)) = refl

-- A key in hexadecimal has no prefix of a scheme, whatever its password holds.
no_prefix : (s : Text) → scheme_prefix (split_once b':' (codes "0x" ++ s)) ≡ none
unfolding split_once
no_prefix s = no_scheme (split_once b':' s)

-- A key of hexadecimal digits, with a path and a password.
unfoldable pub hex_body : Text → Text → Option Text → Text
hex_body digits path password = ((codes "0x" ++ digits) ++ path) ++ suffix password

module _ (ring : KeyRing) (laws : AlphanumericLaws ring.uri) where
  hex_worded : (s : Text) → all is_hexdigit s ≡ true → All (Word ring.uri) s
  unfolding Word
  hex_worded [] h = tt
  hex_worded (c ∷ s) h = (inl (laws.hexdigits c (ground arith)), hex_worded s (ground arith))

  phrase_worded : (s : Text) → all is_hexdigit s ≡ true → All (Word ring.uri) (codes "0x" ++ s)
  unfolding Word
  phrase_worded s h = (inl (laws.hexdigits b'0' refl), (inl laws.letter_x, hex_worded s h))

  seed_root :
      (digits : Text) {seed : Bytes} {pair : ring.Keypair}
      → length digits ≡ 64
      → all is_hexdigit digits ≡ true
      → ring.decode_to_slice 32 digits ≡ some seed
      → ring.from_secret_key seed ≡ some pair
      → keypair_from_hex ring digits ≡ ok pair
  unfolding keypair_from_hex
  seed_root digits size hex decoded accepted =
      rw (len_utf8-hex digits hex, size, hex, decoded, accepted)

  parse_body :
      (digits path : Text) (tokens : List Text) (password : Option Text) {seed : Bytes}
      {pair : ring.Keypair}
      → length digits ≡ 64
      → all is_hexdigit digits ≡ true
      → Segments path tokens
      → ring.decode_to_slice 32 digits ≡ some seed
      → ring.from_secret_key seed ≡ some pair
      → parse_sr25519 ring (hex_body digits path password)
        ≡ ok (from_keypair ring (ring.derive pair (map ring.uri.junction_from tokens)))
  unfolding parse_sr25519 hex_body root_of
  parse_body digits path tokens password size hex p decoded accepted =
      let uri : Uri ring.uri (hex_body digits path password) (codes "0x" ++ digits) tokens
          password =
        record { path = path; spelled = refl; worded = phrase_worded digits hex; pathed = p } in
      rw (split_complete ring.uri laws.no_slash uri, seed_root digits size hex decoded accepted)

  body_prefix :
      (digits path : Text) (password : Option Text)
      → split_scheme (hex_body digits path password) ≡ ok (sr25519, hex_body digits path password)
  unfolding split_scheme with_prefix hex_body
  body_prefix digits path password =
      ap (with_prefix (hex_body digits path password))
        (no_prefix ((digits ++ path) ++ suffix password))

  body_kept :
      (digits path : Text) (password : Option Text)
      → EndsBlack (hex_body digits path password)
      → trim (hex_body digits path password) ≡ hex_body digits path password
  unfolding hex_body is_whitespace
  body_kept digits path password black =
      trim_black b'0' (b'x' ∷ ((digits ++ path) ++ suffix password)) refl black

  body_filled :
      (digits path : Text) (password : Option Text)
      → is_empty (hex_body digits path password) ≡ false
  unfolding hex_body
  body_filled digits path password = refl

  -- A key of `0x`, 64 hexadecimal digits, a derivation path and perhaps a password, which does
  -- not end in white space, is parsed to the key pair of the seed, derived along the path. The
  -- password is not used, and a colon in it starts no scheme. The digits are assumed to be
  -- alphanumeric, as the letter x is, and the slash is not.
  pub parse-seed :
      (digits path : Text) (tokens : List Text) (password : Option Text) {seed : Bytes}
      {pair : ring.Keypair}
      → length digits ≡ 64
      → all is_hexdigit digits ≡ true
      → Segments path tokens
      → EndsBlack (hex_body digits path password)
      → ring.decode_to_slice 32 digits ≡ some seed
      → ring.from_secret_key seed ≡ some pair
      → parse ring (hex_body digits path password)
        ≡ ok (from_keypair ring (ring.derive pair (map ring.uri.junction_from tokens)))
  unfolding parse
  parse-seed digits path tokens password size hex p black decoded accepted = rw (
    body_kept digits path password black,
    body_filled digits path password,
    body_prefix digits path password,
    body_kept digits path password black,
    body_filled digits path password,
    parse_body digits path tokens password size hex p decoded accepted,
  )
