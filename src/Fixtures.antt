-- ===== src/Fixtures.antt =====
-- Concrete instances of what the models take as arguments, for the examples.
use matter_sdk.Common.{
  text_eq, take, drop, length, ℕ, ◌+◌, ◌-◌, ◌*◌, ◌/◌, ◌%◌, ◌<◌, ◌≡◌, refl, ap, Bool, true, false,
  List, [], ◌∷◌, ◌++◌, Option, none, some, Text, codes, ltb, between, if◌then◌else◌, Result, ok,
  err, All, arith, holds_below, holds_below_at, ◌==◌,
}
use matter_sdk.Core.Crypto.{Bytes, Crypto, OpenError}
use matter_sdk.Core.Wire.{HexCodec, HexLaws}
use matter_sdk.Key.ApiKey.{KeyRing, is_alphanumeric}
use matter_sdk.Signer.{KeySigner}

digit : ℕ → ℕ
digit n = if ltb n 10 then n + 48 else n + 87

nibble : ℕ → Option ℕ
nibble c =
    if between 48 57 c
    then some (c - 48)
    else if between 97 102 c
    then some (c - 87)
    else if between 65 70 c
    then some (c - 55)
    else none

byte_of : Option ℕ → Option ℕ → Result Text (List ℕ) → Result Text (List ℕ)
byte_of (some h) (some l) (ok rest) = ok ((h * 16 + l) ∷ rest)
byte_of (some h) (some l) (err e) = err e
byte_of (some h) none rest = err (codes "Invalid character")
byte_of none l rest = err (codes "Invalid character")

encode : List ℕ → Text
unfolding digit
encode [] = []
encode (b ∷ bs) = digit (b / 16) ∷ digit (b % 16) ∷ encode bs

decode : Text → Result Text (List ℕ)
unfolding nibble byte_of
decode [] = ok []
decode (c ∷ []) = err (codes "Odd number of digits")
decode (c ∷ d ∷ s) = byte_of (nibble c) (nibble d) (decode s)

-- Lowercase hexadecimal.
unfoldable pub hex : HexCodec
unfolding encode decode
hex = record { encode = encode; decode = decode }

same_nibble : Option ℕ → ℕ → Bool
same_nibble (some m) n = m == n
same_nibble none n = false

nibbles : holds_below (λ n. same_nibble (nibble (digit n)) n) 16 ≡ true
unfolding nibble digit same_nibble holds_below
nibbles = refl

same_nibble-some : (o : Option ℕ) (n : ℕ) → same_nibble o n ≡ true → o ≡ some n
unfolding same_nibble
same_nibble-some (some m) n h = ground arith
same_nibble-some none n h = ground arith

nibble-digit : (n : ℕ) → n < 16 → nibble (digit n) ≡ some n
nibble-digit n h =
    same_nibble-some _ n (holds_below_at (λ n. same_nibble (nibble (digit n)) n) 16 n nibbles h)

joined :
    (m b : ℕ) (bs : List ℕ) → m ≡ b → ◌≡◌ {A = Result Text (List ℕ)} (ok (m ∷ bs)) (ok (b ∷ bs))
joined m b bs h = ap (λ n. ok (n ∷ bs)) h

pub decode-encode :
    (bytes : List ℕ) → All (λ b. b < 256) bytes → hex.decode (hex.encode bytes) ≡ ok bytes
unfolding hex encode decode byte_of
decode-encode [] h = refl
decode-encode (b ∷ bs) (small, rest) =
    rw
      (
        nibble-digit (b / 16) (omega arith),
        nibble-digit (b % 16) (omega arith),
        decode-encode bs rest,
      )
      (joined (b / 16 * 16 + b % 16) b bs (omega arith))

unfoldable pub hex_laws : HexLaws hex
hex_laws = record { decode-encode = decode-encode }

-- A cryptography without secrecy: a capsule and a ciphertext are the bytes themselves.
unfoldable pub toy : Crypto
toy = record {
  PublicKey = Bytes;
  Capsule = Bytes;
  PlaintextProof = Bytes;
  SharedA = Bytes;
  PartialDecryption = Bytes;
  PartDecProof = Bytes;
  Commitment = Bytes;
  Lambda = ℕ;
  AuthScheme = Unit;
  substrate = tt;
  protocol_version = 3;
  max_binding_id = 32;
  max_capsule = 64;
  max_proof = 64;
  max_ct = 64;
  deserialize_public_key = ok;
  strict_public_key = ok;
  strict_capsule = ok;
  strict_plaintext_proof = ok;
  strict_shared_a = ok;
  strict_partial = ok;
  strict_part_dec_proof = ok;
  strict_commitment = ok;
  serialize_capsule = ok;
  serialize_lambda = λ n. ok (n ∷ []);
  encode_tagged = λ proof. ok (3 ∷ proof);
  untag = ok;
  lagrange_coefficient = λ point points. point;
  verify_secret_proof = λ pk capsule proof id epoch. true;
  seal_secret = λ seed pk id aad epoch plaintext. (
    id,
    aad,
    record { nonce = 0 ∷ 0 ∷ 0 ∷ 0 ∷ 0 ∷ 0 ∷ 0 ∷ 0 ∷ 0 ∷ 0 ∷ 0 ∷ 0 ∷ []; ciphertext = plaintext },
  );
  verify_aggregate_open =
      λ entries capsule shared secret_id epoch id aad sealed. ok sealed.ciphertext;
  signing_payload = λ secret_id subset block_hash index. index ∷ block_hash;
}

unfoldable pub key_signer : KeySigner
key_signer = record { account_id = 1 ∷ 2 ∷ 3 ∷ []; sign = λ calls message. ok (9 ∷ message) }

-- Key pairs that are their mnemonic.
abbrev pub mnemonic_ring : KeyRing
mnemonic_ring = record {
  uri = record { Junction = Text; is_alphanumeric = is_alphanumeric; junction_from = λ t. t };
  Keypair = Text;
  Mnemonic = Text;
  decode_to_slice = λ n s. none;
  from_secret_key = λ seed. none;
  mnemonic_of = λ s. some s;
  from_phrase = λ m password. some m;
  derive = λ pair path. pair;
  public_key = λ pair. pair;
  sign_with = λ pair message. pair ++ message;
}

-- A cryptography that authenticates: a ciphertext is the tag's length, the tag and the plaintext.
abbrev pub open_tagged : Bytes → Bytes → Result OpenError Bytes
open_tagged tag [] = err OpenError.aead
open_tagged tag (n ∷ rest) =
    if text_eq tag (take n rest) then ok (drop n rest) else err OpenError.aead

unfoldable pub authenticating : Crypto
unfolding toy
authenticating = record toy {
  seal_secret = λ seed pk id aad epoch plaintext. (
    id,
    aad,
    record {
      nonce = 0 ∷ 0 ∷ 0 ∷ 0 ∷ 0 ∷ 0 ∷ 0 ∷ 0 ∷ 0 ∷ 0 ∷ 0 ∷ 0 ∷ [];
      ciphertext = length aad ∷ (aad ++ plaintext);
    },
  );
  verify_aggregate_open =
      λ entries capsule shared secret_id epoch id tag sealed. open_tagged tag sealed.ciphertext;
}
