-- ===== src/Key/ApiKey/Phrase.antt =====
-- A key is parsed from a phrase that the text holds.
use matter_sdk.Common.{
  ◌≡◌, refl, ap, false, Text, codes, trim, is_empty, strip_prefix, ok, >>=-eq-ok, fail_if,
  fail_if-passed, arith, ◌∙◌,
}
use matter_sdk.Key.Error.{empty}
use matter_sdk.Key.Scheme.{KeyScheme, sr25519}
use matter_sdk.Key.Suri.{Suri, split}
use matter_sdk.Key.ApiKey.{
  KeyRing, ApiKey, not_phrase, split_scheme, from_keypair, root_of, parse_sr25519, parse_scheme,
  parse,
}

module _ (ring : KeyRing) where
  -- What a parsed key comes from.
  unfoldable pub Derived : Text → ApiKey ring → Type 0
  Derived body key =
      (uri : Suri ring.uri) × (root : ring.Keypair) × (split ring.uri body ≡ ok uri)
      × (is_empty uri.phrase ≡ false)
      × (root_of ring uri.phrase uri.password (strip_prefix (codes "0x") uri.phrase) ≡ ok root)
      × (key ≡ from_keypair ring (ring.derive root uri.junctions))

  parse_sr25519-Derived :
      (body : Text) (key : ApiKey ring) → parse_sr25519 ring body ≡ ok key → Derived body key
  unfolding parse_sr25519 Derived
  parse_sr25519-Derived body key h =
      let (uri, cut, h₁) = >>=-eq-ok (split ring.uri body) _ h in
      let (_, filled, h₂) = >>=-eq-ok (fail_if (is_empty uri.phrase) not_phrase) _ h₁ in
      let (root, rooted, made) =
        >>=-eq-ok (root_of ring uri.phrase uri.password (strip_prefix (codes "0x") uri.phrase)) _
          h₂ in
      (uri, root, cut, fail_if-passed _ _ filled, rooted, ground arith)

  one_scheme : (s : KeyScheme) → s ≡ sr25519
  one_scheme sr25519 = refl

  schemes :
      (s : KeyScheme) (body : Text) (key : ApiKey ring)
      → parse_scheme ring s body ≡ ok key
      → parse_sr25519 ring body ≡ ok key
  schemes sr25519 body key h = h

  -- A key that is parsed is derived, along the junctions of the text's secret URI, from the seed or
  -- the mnemonic of a phrase that is not empty, after a scheme's prefix.
  pub parse_derived :
      (input : Text) {key : ApiKey ring}
      → parse ring input ≡ ok key
      → (body : Text) × (uri : Suri ring.uri) × (root : ring.Keypair) × (split_scheme (trim input)
          ≡ ok (sr25519, body))
        × (split ring.uri body ≡ ok uri)
        × (is_empty uri.phrase ≡ false)
        × (root_of ring uri.phrase uri.password (strip_prefix (codes "0x") uri.phrase) ≡ ok root)
        × (key ≡ from_keypair ring (ring.derive root uri.junctions))
  unfolding parse Derived
  parse_derived input {key} h =
      let (_, _, h₁) = >>=-eq-ok (fail_if (is_empty (trim input)) empty) _ h in
      let (found, prefixed, h₂) = >>=-eq-ok (split_scheme (trim input)) _ h₁ in
      let (_, _, h₃) = >>=-eq-ok (fail_if (is_empty (trim found.1)) empty) _ h₂ in
      let (uri, root, cut, filled, rooted, made) =
        parse_sr25519-Derived found.1 key (schemes found.0 found.1 key h₃) in
      (
        found.1,
        uri,
        root,
        prefixed ∙ ap (λ s. ok (s, found.1)) (one_scheme found.0),
        cut,
        filled,
        rooted,
        made,
      )
