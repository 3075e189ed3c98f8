-- ===== src/Core/Open.antt =====
-- crates/matter-sdk-core/src/decrypt.rs: opening a secret from a collected quorum.
pub mod Subset
pub mod Guards
pub mod Decoded
use matter_sdk.Common.{
  ℕ, ◌≤◌, ◌≡◌, Bool, true, false, ◌||◌, List, [], ◌∷◌, ◌++◌, Option, none, some, String, Text,
  codes, ◌==◌, ltb, map, any, length, take, drop, is_empty, if◌then◌else◌, Result, ok, err, ◌>>=◌,
  ◌>>◌, fail_if, map_err,
}
use matter_sdk.Common.Decimal.{to_decimal}
use matter_sdk.Core.Error.{CoreError, invalid_subset, invalid_length, decode, aggregate, aead}
use matter_sdk.Core.Crypto.{Bytes, Crypto, OpenError, SealedSecrets}
use matter_sdk.Core.Bound.{bound, de, de_tagged, max_decode_bytes}
use matter_sdk.Core.Wire.{be_bytes}

-- crates/matter-sdk-core/src/types.rs
pub record PartialInput : Type 0 where
  pub point : ℕ
  pub partial : Bytes
  pub proof : Bytes
  pub commitment : Bytes

abbrev pub is_member : ℕ → List ℕ → Bool
is_member p = any (λ q. q == p)

-- The first point that is already in `seen`; the set is a `BTreeSet` in the source.
unfoldable pub find_duplicate : List ℕ → List ℕ → Option ℕ
find_duplicate seen [] = none
find_duplicate seen (p ∷ ps) = if is_member p seen then some p else find_duplicate (p ∷ seen) ps

refuse_duplicate : Option ℕ → List ℕ → Result CoreError (List ℕ)
refuse_duplicate none points = ok points
refuse_duplicate (some dup) points =
    err (invalid_subset (codes "point " ++ (to_decimal dup ++ codes " appears twice")))

unfoldable pub subset_points : List PartialInput → Result CoreError (List ℕ)
unfolding find_duplicate refuse_duplicate
subset_points partials = do
  fail_if (is_empty partials) (invalid_subset (codes "no partials supplied"))
  let points = map (λ (p : PartialInput). p.point) partials
  fail_if (is_member 0 points) (invalid_subset (codes "point 0 is not an evaluation point"))
  refuse_duplicate (find_duplicate [] points) points

-- `OpenError` to `CoreError`.
unfoldable pub open_error : OpenError → CoreError
open_error (OpenError.aggregate a) = aggregate a
open_error OpenError.aead = aead

module _ (k : Crypto) where
  -- One partial decoded, with its coefficient from the points.
  unfoldable pub decode_partial :
      List ℕ
      → PartialInput
      → Result CoreError (k.PartialDecryption × k.PartDecProof × k.Commitment × k.Lambda)
  decode_partial points p = do
    partial ← de k.strict_partial "partial" p.partial max_decode_bytes
    proof ← de k.strict_part_dec_proof "partial proof" p.proof max_decode_bytes
    commitment ← de k.strict_commitment "commitment" p.commitment max_decode_bytes
    ok (partial, proof, commitment, k.lagrange_coefficient p.point points)

  unfoldable pub decode_partials :
      List ℕ
      → List PartialInput
      → Result CoreError (List (k.PartialDecryption × k.PartDecProof × k.Commitment × k.Lambda))
  unfolding decode_partial
  decode_partials points [] = ok []
  decode_partials points (p ∷ ps) = do
    entry ← decode_partial points p
    entries ← decode_partials points ps
    ok (entry ∷ entries)

  -- `open_secret` once the points are known.
  unfoldable pub open_points :
      Bytes
      → Bytes
      → ℕ
      → ℕ
      → Bytes
      → Bytes
      → Bytes
      → List PartialInput
      → List ℕ
      → Result CoreError Bytes
  unfolding open_error bound
  open_points shared_a capsule secret_id epoch binding_id aad ct partials points = do
    bound "binding_id" (length binding_id) k.max_binding_id
    bound "ct" (length ct) k.max_ct
    shared ← de k.strict_shared_a "shared_a" shared_a max_decode_bytes
    cap ← de k.strict_capsule "capsule" capsule k.max_capsule
    fail_if (ltb (length ct) 12) (invalid_length "ct (nonce prefix)" 12 (length ct))
    entries ← decode_partials points partials
    map_err open_error (
        k.verify_aggregate_open entries cap shared (be_bytes 16 secret_id) epoch binding_id aad
          (record { nonce = take 12 ct; ciphertext = drop 12 ct }))

  unfoldable pub open_secret :
      Bytes → Bytes → ℕ → ℕ → Bytes → Bytes → Bytes → List PartialInput → Result CoreError Bytes
  open_secret shared_a capsule secret_id epoch binding_id aad ct partials = do
    points ← subset_points partials
    open_points shared_a capsule secret_id epoch binding_id aad ct partials points

  unfoldable pub lagrange_for : ℕ → List ℕ → Result CoreError Bytes
  lagrange_for point subset =
      map_err (decode "lambda") (k.serialize_lambda (k.lagrange_coefficient point subset))

  unfoldable pub verify_plaintext_proof : Bytes → Bytes → Bytes → Bytes → ℕ → Result CoreError Bool
  unfolding bound
  verify_plaintext_proof joint_pk capsule tagged_proof binding_id epoch = do
    bound "binding_id" (length binding_id) k.max_binding_id
    pk ← de k.strict_public_key "joint_pk" joint_pk max_decode_bytes
    cap ← de k.strict_capsule "capsule" capsule k.max_capsule
    proof ← de_tagged k.untag k.strict_plaintext_proof "proof" tagged_proof k.max_proof
    ok (k.verify_secret_proof pk cap proof binding_id epoch)
