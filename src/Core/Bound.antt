-- ===== src/Core/Bound.antt =====
-- `bound` of crates/matter-sdk-core/src/encrypt.rs, `de` and `de_tagged` of decrypt.rs.
use matter_sdk.Common.{
  ℕ, ◌*◌, ◌^◌, ◌≤◌, ◌≡◌, String, Text, arith, ltb, length, Result, ok, ◌>>=◌, ◌>>◌, fail_if,
  map_err,
}
use matter_sdk.Core.Error.{CoreError, too_large, decode}
use matter_sdk.Core.Crypto.{Bytes}

unfoldable pub bound : String → ℕ → ℕ → Result CoreError (Unit {0})
bound field actual max = fail_if (ltb max actual) (too_large field max actual)

-- `MAX_DECODE_BYTES`, that is `16 << 20`.
abbrev pub max_decode_bytes : ℕ
max_decode_bytes = 16 * 2 ^ 20

-- The decoder of the field's type is the argument `strict`.
unfoldable pub de : {T : Type 0} → (Bytes → Result Text T) → String → Bytes → ℕ → Result CoreError T
unfolding bound
de strict field bytes max = do bound field (length bytes) max; map_err (decode field) (strict bytes)

unfoldable pub de_tagged :
    {T : Type 0}
    → (Bytes → Result Text Bytes)
    → (Bytes → Result Text T)
    → String
    → Bytes
    → ℕ
    → Result CoreError T
unfolding de
de_tagged untag strict field bytes max = do
  bound field (length bytes) max
  body ← map_err (decode field) (untag bytes)
  de strict field body max

-- A decoded field was within its bound.
pub de-within :
    {T : Type 0} (strict : Bytes → Result Text T) (field : String) (bytes : Bytes) (max : ℕ) {v : T}
    → de strict field bytes max ≡ ok v
    → length bytes ≤ max
unfolding de
de-within strict field bytes max h = ground arith
