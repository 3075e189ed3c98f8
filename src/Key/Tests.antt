-- ===== src/Key/Tests.antt =====
-- Keys and secret URIs, where the theorems' conditions hold.
use matter_sdk.Common.{
  All, all, ltb, ◌&&◌, not, ◌==◌, ◌≡◌, ◌↔◌, refl, true, false, List, [], ◌∷◌, ◌++◌, arith,
  is_whitespace, map, Option, none, some, Text, codes, is_empty, replicate, trim, split_once,
  strip_prefix, Result, ok, err,
}
use matter_sdk.Common.Parts.{EndsBlack}
use matter_sdk.Core.Crypto.{Bytes}
use matter_sdk.Fixtures.{hex}
use matter_sdk.Key.Scheme.{sr25519}
use matter_sdk.Key.Suri.{UriParts, Suri, token, split}
use matter_sdk.Key.Suri.Junctions.{Segments, done, step}
use matter_sdk.Key.Suri.Grammar.{suffix}
use matter_sdk.Key.Suri.Ascii.{Dotted, SecretUri, AsciiLaws, split_ascii_iff}
use matter_sdk.Key.ApiKey.{
  KeyRing, ApiKey, is_alphanumeric, not_phrase, split_scheme, from_keypair, root_of, parse_sr25519,
  parse,
}
use matter_sdk.Key.ApiKey.Phrase.{parse_derived}
use matter_sdk.Key.ApiKey.Faults.{ParseFault, parse_faults}
use matter_sdk.Key.ApiKey.Seed.{AlphanumericLaws, hex_body, parse-seed}

-- Letters and digits of ASCII, and junctions that are their tokens.
abbrev parts : UriParts
parts = record { Junction = Text; is_alphanumeric = is_alphanumeric; junction_from = λ t. t }

abbrev accept : Result Text Bytes → Option Bytes
accept (ok bytes) = some bytes
accept (err e) = none

-- Key pairs that are their seed, derived by appending the path.
abbrev ring : KeyRing
ring = record {
  uri = parts;
  Keypair = List Bytes;
  Mnemonic = Text;
  decode_to_slice = λ n s. accept (hex.decode s);
  from_secret_key = λ seed. some (seed ∷ []);
  mnemonic_of = λ s. none;
  from_phrase = λ m password. none;
  derive = λ pair path. pair ++ path;
  public_key = λ pair. [];
  sign_with = λ pair message. message;
}

ascii : AsciiLaws parts
ascii = record { alphanumeric = λ c small. ground arith }

all-Dotted : (s : Text) → all (λ c. ltb c 128 && not (c == 10)) s ≡ true → All Dotted s
unfolding Dotted
all-Dotted [] h = tt
all-Dotted (c ∷ s) h = (ground arith, all-Dotted s (ground arith))

split_ascii_iff_example :
    (split parts (codes "foo bar//hard/soft///pass")
      ≡ ok (record {
        phrase = codes "foo bar";
        junctions = codes "/hard" ∷ codes "soft" ∷ [];
        password = some (codes "pass");
      }))
    ↔ ((tokens : List Text) × SecretUri
          (codes "foo bar//hard/soft///pass")
          (codes "foo bar")
          tokens
          (some (codes "pass"))
        × (codes "/hard" ∷ codes "soft" ∷ [] ≡ map (λ t. t) tokens))
split_ascii_iff_example =
    split_ascii_iff parts ascii (codes "foo bar//hard/soft///pass")
      (record {
        phrase = codes "foo bar";
        junctions = codes "/hard" ∷ codes "soft" ∷ [];
        password = some (codes "pass");
      })
      (all-Dotted (codes "foo bar//hard/soft///pass") refl)

abbrev digits : Text
digits = replicate 64 b'a'

abbrev key : ApiKey ring
key = from_keypair ring ((replicate 32 170 ∷ []) ++ map (λ t. t) (codes "/hard" ∷ []))

alphanumeric : AlphanumericLaws parts
alphanumeric = record { no_slash = refl; hexdigits = λ c h. ground arith; letter_x = refl }

hard_path : Segments (codes "//hard") (codes "/hard" ∷ [])
unfolding token
hard_path =
    step true (codes "hard") [] []
      (record {
        filled = refl;
        plain = (
          λ e. absurd (omega arith),
          (λ e. absurd (omega arith), (λ e. absurd (omega arith), (λ e. absurd (omega arith), tt))),
        );
      })
      done

black : EndsBlack (hex_body digits (codes "//hard") (some (codes "p:w")))
unfolding hex_body suffix is_whitespace
black = record {
  front = ((codes "0x" ++ digits) ++ codes "//hard") ++ codes "///p:";
  final = b'w';
  spelled = refl;
  black = refl;
}

parsed : parse ring (hex_body digits (codes "//hard") (some (codes "p:w"))) ≡ ok key
unfolding hex
parsed =
    parse-seed ring alphanumeric digits (codes "//hard") (codes "/hard" ∷ []) (some (codes "p:w"))
      refl refl hard_path black refl refl

parse-seed_example : parse ring (hex_body digits (codes "//hard") (some (codes "p:w"))) ≡ ok key
unfolding hex
parse-seed_example =
    parse-seed ring alphanumeric digits (codes "//hard") (codes "/hard" ∷ []) (some (codes "p:w"))
      refl refl hard_path black refl refl

parse_derived_example :
    (body : Text) × (uri : Suri parts) × (root : List Bytes) × (split_scheme
        (trim (hex_body digits (codes "//hard") (some (codes "p:w"))))
      ≡ ok (sr25519, body))
    × (split parts body ≡ ok uri)
    × (is_empty uri.phrase ≡ false)
    × (root_of ring uri.phrase uri.password (strip_prefix (codes "0x") uri.phrase) ≡ ok root)
    × (key ≡ from_keypair ring (root ++ uri.junctions))
parse_derived_example =
    parse_derived ring (hex_body digits (codes "//hard") (some (codes "p:w"))) parsed

nameless : parse ring (codes "//Alice") ≡ err not_phrase
unfolding parse trim split_once parse_sr25519 split
nameless = refl

parse_faults_example : ParseFault not_phrase
parse_faults_example = parse_faults ring (codes "//Alice") nameless
