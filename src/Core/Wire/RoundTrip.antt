-- ===== src/Core/Wire/RoundTrip.antt =====
-- Bytes and secret ids are read back from their hex form.
use matter_sdk.Common.{
  ℕ, zero, suc, ◌+◌, ◌*◌, ◌/◌, ◌%◌, ◌^◌, ◌<◌, ◌≡◌, ◌≢◌, refl, ap, ◌∙◌, List, [], ◌∷◌, ◌++◌, String,
  Text, arith, All, All-append, length, length-append, ok, err, map_err,
}
use native.Mathlib.Nat.{pow-suc}
use matter_sdk.Common.Parts.{strip_prefix-append}
use matter_sdk.Core.Error.{invalid_length, hex}
use matter_sdk.Core.Wire.{
  HexCodec, HexLaws, prefix, or_whole, be_bytes, of_be_bytes, to_0x, from_0x, secret_id_to_hex,
  secret_id_from_hex,
}

be_bytes-small : (n id : ℕ) → All (λ b. b < 256) (be_bytes n id)
unfolding be_bytes
be_bytes-small zero id = tt
be_bytes-small (suc n) id =
    All-append _ (be_bytes n (id / 256)) _ (be_bytes-small n (id / 256)) (omega arith)

pub length-be_bytes : (n id : ℕ) → length (be_bytes n id) ≡ n
unfolding be_bytes
length-be_bytes zero id = refl
length-be_bytes (suc n) id =
    omega
      (arith, length-append (be_bytes n (id / 256)) ((id % 256) ∷ []), length-be_bytes n (id / 256))

of_be_bytes-append :
    (a b : List ℕ) (acc : ℕ) → of_be_bytes acc (a ++ b) ≡ of_be_bytes (of_be_bytes acc a) b
unfolding of_be_bytes
of_be_bytes-append [] b acc = refl
of_be_bytes-append (x ∷ a) b acc = of_be_bytes-append a b (acc * 256 + x)

of_be_bytes_last : (acc b : ℕ) → of_be_bytes acc (b ∷ []) ≡ acc * 256 + b
unfolding of_be_bytes
of_be_bytes_last acc b = refl

-- Big-endian bytes spell the number, as far as they reach.
pub of_be_bytes-be_bytes : (n id : ℕ) → id < 256 ^ n → of_be_bytes 0 (be_bytes n id) ≡ id
unfolding be_bytes
of_be_bytes-be_bytes zero id h = unfold of_be_bytes in omega arith
of_be_bytes-be_bytes (suc n) id h =
    of_be_bytes-append (be_bytes n (id / 256)) ((id % 256) ∷ []) 0
    ∙ omega (
      arith,
      of_be_bytes_last (of_be_bytes 0 (be_bytes n (id / 256))) (id % 256),
      of_be_bytes-be_bytes n (id / 256) (omega (arith, pow-suc 256 n)),
    )

module _ (c : HexCodec) (laws : HexLaws c) where
  -- Bytes are read back from their `0x` form: for any bytes below 256, `from_0x` undoes `to_0x`.
  pub from_0x-to_0x :
      (field : String) (bytes : List ℕ)
      → All (λ b. b < 256) bytes
      → from_0x c field (to_0x c bytes) ≡ ok bytes
  unfolding from_0x to_0x
  from_0x-to_0x field bytes h =
      ap (λ o. map_err (hex field) (c.decode (or_whole (prefix ++ c.encode bytes) o)))
        (strip_prefix-append prefix (c.encode bytes))
      ∙ ap (map_err (hex field)) (laws.decode-encode bytes h)

  -- Every 128-bit secret id is read back from its hex form.
  pub secret_id_from_hex-to_hex :
      (id : ℕ) → id < 2 ^ 128 → secret_id_from_hex c (secret_id_to_hex c id) ≡ ok id
  unfolding secret_id_from_hex secret_id_to_hex
  secret_id_from_hex-to_hex id h =
      rw (from_0x-to_0x "secret_id" (be_bytes 16 id) (be_bytes-small 16 id))
        (ground (arith, length-be_bytes 16 id, of_be_bytes-be_bytes 16 id (omega arith)))

-- Bytes of any other number than 16 are refused as a secret id, with their number.
pub secret_id_wrong_length :
    (c : HexCodec) (s : Text) (bytes : List ℕ)
    → from_0x c "secret_id" s ≡ ok bytes
    → length bytes ≢ 16
    → secret_id_from_hex c s ≡ err (invalid_length "secret_id" 16 (length bytes))
unfolding secret_id_from_hex
secret_id_wrong_length c s bytes e h = rw e (ground arith)
