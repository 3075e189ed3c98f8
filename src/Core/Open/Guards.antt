-- ===== src/Core/Open/Guards.antt =====
-- What `open_secret` has checked when it returns, and in which order it refuses.
use matter_sdk.Common.{
  ℕ, ◌≤◌, ◌≡◌, List, arith, length, take, drop, is_empty, false, Text, Result, ok, err, ltb,
  fail_if, map_err, >>=-eq-ok,
}
use matter_sdk.Core.Error.{invalid_subset, invalid_length}
use matter_sdk.Core.Crypto.{Bytes, Crypto, OpenError}
use matter_sdk.Core.Bound.{bound, de, max_decode_bytes}
use matter_sdk.Core.Wire.{be_bytes}
use matter_sdk.Core.Open.{
  PartialInput, subset_points, decode_partials, open_points, open_error, open_secret, is_member,
}
use matter_sdk.Core.Open.Decoded.{Reads, de_iff, Decoded, decode_partials_sound}
use matter_sdk.Core.Open.Subset.{Distinct, points_of, subset_points_iff, subset_guards}

opened :
    (r : Result OpenError Bytes) {plaintext : Bytes}
    → map_err open_error r ≡ ok plaintext
    → r ≡ ok plaintext
opened (ok p) h = cc
opened (err e) h = cc

module _ (k : Crypto) (shared_a capsule : Bytes) (secret_id epoch : ℕ) (binding_id aad ct : Bytes)
    (partials : List PartialInput) where
  open_points_sound :
      (points : List ℕ) {plaintext : Bytes}
      → open_points k shared_a capsule secret_id epoch binding_id aad ct partials points
        ≡ ok plaintext
      → (length binding_id ≤ k.max_binding_id)
        × (length ct ≤ k.max_ct)
        × (12 ≤ length ct)
        × ((shared : k.SharedA) × (cap : k.Capsule) × (entries : List
              (k.PartialDecryption × k.PartDecProof × k.Commitment × k.Lambda))
            × Reads k.strict_shared_a max_decode_bytes shared_a shared
            × Reads k.strict_capsule k.max_capsule capsule cap
            × Decoded k points partials entries
            × (k.verify_aggregate_open entries cap shared
                  (be_bytes 16 secret_id)
                  epoch
                  binding_id
                  aad
                  (record { nonce = take 12 ct; ciphertext = drop 12 ct })
                ≡ ok plaintext))
  unfolding open_points
  open_points_sound points h =
      let (_, id_bound, h₁) =
        >>=-eq-ok (bound "binding_id" (length binding_id) k.max_binding_id) _ h in
      let (_, ct_bound, h₂) = >>=-eq-ok (bound "ct" (length ct) k.max_ct) _ h₁ in
      let (shared, read_shared, h₃) =
        >>=-eq-ok (de k.strict_shared_a "shared_a" shared_a max_decode_bytes) _ h₂ in
      let (cap, decoded, h₄) =
        >>=-eq-ok (de k.strict_capsule "capsule" capsule k.max_capsule) _ h₃ in
      let (_, prefixed, h₅) =
        >>=-eq-ok (fail_if (ltb (length ct) 12) (invalid_length "ct (nonce prefix)" 12 (length ct)))
          _ h₄ in
      let (entries, all_decoded, h₆) = >>=-eq-ok (decode_partials k points partials) _ h₅ in
      (
        ground arith,
        ground arith,
        ground arith,
        (
          shared,
          cap,
          entries,
          (de_iff k.strict_shared_a "shared_a" shared_a max_decode_bytes shared).0 read_shared,
          (de_iff k.strict_capsule "capsule" capsule k.max_capsule cap).0 decoded,
          decode_partials_sound k points partials all_decoded,
          opened _ h₆,
        ),
      )

  -- A recovered plaintext comes only from at least one partial, with points that are distinct and
  -- not 0, and from a binding id and a ciphertext within their bounds, the ciphertext holding a
  -- nonce of 12 bytes. It is what the aggregation returns on the shared polynomial and the capsule
  -- read from their bytes, and on one entry for each partial, in order: its share, its proof and its
  -- commitment, each read from its own bytes within the bound, and the Lagrange coefficient of its
  -- own point over all the points.
  pub open_secret_sound :
      {plaintext : Bytes}
      → open_secret k shared_a capsule secret_id epoch binding_id aad ct partials ≡ ok plaintext
      → (is_empty partials ≡ false)
        × (is_member 0 (points_of partials) ≡ false)
        × Distinct (points_of partials)
        × (length binding_id ≤ k.max_binding_id)
        × (length ct ≤ k.max_ct)
        × (12 ≤ length ct)
        × ((shared : k.SharedA) × (cap : k.Capsule) × (entries : List
              (k.PartialDecryption × k.PartDecProof × k.Commitment × k.Lambda))
            × Reads k.strict_shared_a max_decode_bytes shared_a shared
            × Reads k.strict_capsule k.max_capsule capsule cap
            × Decoded k (points_of partials) partials entries
            × (k.verify_aggregate_open entries cap shared
                  (be_bytes 16 secret_id)
                  epoch
                  binding_id
                  aad
                  (record { nonce = take 12 ct; ciphertext = drop 12 ct })
                ≡ ok plaintext))
  unfolding open_secret
  open_secret_sound h =
      let (points, subset, rest) = >>=-eq-ok (subset_points partials) _ h in
      let same : points ≡ points_of partials = (subset_guards partials subset).3 in
      let admitted = (subset_points_iff partials).0 (rw same at subset) in
      let opened = open_points_sound (points_of partials) (rw same at rest) in
      (admitted.0, admitted.1, admitted.2, opened.0, opened.1, opened.2, opened.3)

  -- An inadmissible subset is refused as such whatever the other inputs are: nothing is decoded
  -- before.
  pub open_secret_invalid_subset :
      {detail : Text}
      → subset_points partials ≡ err (invalid_subset detail)
      → open_secret k shared_a capsule secret_id epoch binding_id aad ct partials
        ≡ err (invalid_subset detail)
  unfolding open_secret
  open_secret_invalid_subset h = rw h
