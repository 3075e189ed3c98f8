-- ===== src/Core/Wire.antt =====
-- crates/matter-sdk-core/src/wire.rs: the hex form of binary fields and of secret ids.
pub mod RoundTrip
use matter_sdk.Common.{
  ℕ, zero, suc, ◌+◌, ◌*◌, ◌/◌, ◌%◌, ◌^◌, ◌<◌, ◌≡◌, List, [], ◌∷◌, ◌++◌, Option, none, some, String,
  Text, codes, ◌==◌, All, if◌then◌else◌, strip_prefix, length, Result, ok, err, ◌>>=◌, map_err,
}
use matter_sdk.Core.Error.{CoreError, hex, invalid_length}

-- The crate `hex`, which is not part of the repository. Errors of `decode` are rendered.
pub record HexCodec : Type 0 where
  pub encode : List ℕ → Text
  pub decode : Text → Result Text (List ℕ)

-- What the crate documents: decoding undoes encoding.
pub record HexLaws (c : HexCodec) : Type 0 where
  pub decode-encode :
      (bytes : List ℕ) → All (λ b. b < 256) bytes → c.decode (c.encode bytes) ≡ ok bytes

abbrev pub prefix : Text
prefix = codes "0x"

abbrev pub or_whole : Text → Option Text → Text
or_whole s none = s
or_whole s (some t) = t

-- `u128::to_be_bytes`, and `from_be_bytes`; `n` is the number of bytes.
unfoldable pub be_bytes : ℕ → ℕ → List ℕ
be_bytes zero id = []
be_bytes (suc n) id = be_bytes n (id / 256) ++ (id % 256) ∷ []

unfoldable pub of_be_bytes : ℕ → List ℕ → ℕ
of_be_bytes acc [] = acc
of_be_bytes acc (b ∷ bs) = of_be_bytes (acc * 256 + b) bs

module _ (c : HexCodec) where
  unfoldable pub to_0x : List ℕ → Text
  to_0x bytes = prefix ++ c.encode bytes

  unfoldable pub from_0x : String → Text → Result CoreError (List ℕ)
  from_0x field s = map_err (hex field) (c.decode (or_whole s (strip_prefix prefix s)))

  unfoldable pub secret_id_to_hex : ℕ → Text
  unfolding to_0x be_bytes
  secret_id_to_hex secret_id = to_0x (be_bytes 16 secret_id)

  unfoldable pub secret_id_from_hex : Text → Result CoreError ℕ
  unfolding from_0x of_be_bytes
  secret_id_from_hex s = do
    bytes ← from_0x "secret_id" s
    if length bytes == 16
        then ok (of_be_bytes 0 bytes)
        else err (invalid_length "secret_id" 16 (length bytes))
