-- ===== src/Core/Tests.antt =====
-- Examples of the core's theorems, on three partials and a sealed text.
use matter_sdk.Common.{
  Bool, true, all, text_eq, ap, Result, arith, ℕ, ◌≤◌, ◌≡◌, refl, sym, false, List, [], ◌∷◌, some,
  codes, take, drop, length, is_empty, ok, err,
}
use matter_sdk.Common.Decimal.{to_decimal}
use matter_sdk.Core.Error.{invalid_subset}
use matter_sdk.Core.Crypto.{Bytes, Crypto, OpenError}
use matter_sdk.Core.Bound.{de, max_decode_bytes}
use matter_sdk.Core.Open.Decoded.{Reads, IsEntry, Decoded}
use matter_sdk.Core.Wire.{be_bytes, from_0x}
use matter_sdk.Core.Open.{
  PartialInput, is_member, subset_points, open_secret, open_points, decode_partials,
}
use matter_sdk.Core.Open.Subset.{Distinct, points_of}
use matter_sdk.Core.Open.Guards.{open_secret_sound}
use matter_sdk.Core.Seal.{EncryptedSecret, encrypt}
use matter_sdk.Core.Seal.Bounds.{encrypt_bounds}
use matter_sdk.Core.Sealed.{SealLaws, open_secret-encrypt}
use matter_sdk.Fixtures.{hex, toy}

abbrev hi : Bytes
hi = b'h' ∷ b'i' ∷ []

abbrev id : Bytes
id = 1 ∷ []

share : ℕ → PartialInput
share i = record { point = i; partial = i ∷ []; proof = i ∷ []; commitment = i ∷ [] }

sealed : Bytes
sealed = 0 ∷ 0 ∷ 0 ∷ 0 ∷ 0 ∷ 0 ∷ 0 ∷ 0 ∷ 0 ∷ 0 ∷ 0 ∷ 0 ∷ b'h' ∷ b'i' ∷ []

opens : open_secret toy (3 ∷ []) (2 ∷ []) 5 7 id [] sealed (share 1 ∷ share 2 ∷ []) ≡ ok hi
unfolding open_secret subset_points open_points de decode_partials share sealed toy
opens = refl

open_secret_sound_example :
    (is_empty (share 1 ∷ share 2 ∷ []) ≡ false)
    × (is_member 0 (points_of (share 1 ∷ share 2 ∷ [])) ≡ false)
    × Distinct (points_of (share 1 ∷ share 2 ∷ []))
    × (length id ≤ toy.max_binding_id)
    × (length sealed ≤ toy.max_ct)
    × (12 ≤ length sealed)
    × ((shared : toy.SharedA) × (cap : toy.Capsule) × (entries : List
          (toy.PartialDecryption × toy.PartDecProof × toy.Commitment × toy.Lambda))
        × Reads toy.strict_shared_a max_decode_bytes (3 ∷ []) shared
        × Reads toy.strict_capsule toy.max_capsule (2 ∷ []) cap
        × Decoded toy (points_of (share 1 ∷ share 2 ∷ [])) (share 1 ∷ share 2 ∷ []) entries
        × (toy.verify_aggregate_open entries cap shared
              (be_bytes 16 5)
              7
              id
              []
              (record { nonce = take 12 sealed; ciphertext = drop 12 sealed })
            ≡ ok hi))
open_secret_sound_example =
    open_secret_sound toy (3 ∷ []) (2 ∷ []) 5 7 id [] sealed (share 1 ∷ share 2 ∷ []) opens

twice :
    subset_points (share 1 ∷ share 1 ∷ []) ≡ err (invalid_subset (codes "point 1 appears twice"))
unfolding subset_points share to_decimal
twice = refl

short : from_0x hex "secret_id" (codes "0x0a0b") ≡ ok (10 ∷ 11 ∷ [])
unfolding from_0x hex
short = refl

sealing : EncryptedSecret
sealing = record { binding_id = id; capsule = 1 ∷ []; proof = 3 ∷ []; ct = sealed }

seals : encrypt toy [] 0 (8 ∷ []) 7 hi [] (some id) ≡ ok sealing
unfolding encrypt sealing sealed toy
seals = refl

encrypt_bounds_example :
    (is_empty hi ≡ false)
    × (length sealing.binding_id ≤ toy.max_binding_id)
    × (length sealing.capsule ≤ toy.max_capsule)
    × (length sealing.proof ≤ toy.max_proof)
    × (length sealing.ct ≤ toy.max_ct)
    × (sealing.binding_id ≡ id)
encrypt_bounds_example = encrypt_bounds toy [] 0 (8 ∷ []) 7 hi [] (some id) seals

-- A cryptography that opens only to entries whose commitment names their coefficient.
committed : Bytes × Bytes × Bytes × ℕ → Bool
committed (partial, proof, commitment, lambda) = text_eq commitment (lambda ∷ [])

opened_if : Bool → Bytes → Result OpenError Bytes
opened_if true plaintext = ok plaintext
opened_if false plaintext = err OpenError.aead

committing : Crypto
unfolding toy committed opened_if
committing = record toy {
  verify_aggregate_open = λ entries capsule shared secret_id epoch id aad sealed.
      opened_if (all committed entries) sealed.ciphertext;
}

seal_laws : SealLaws committing
unfolding committing toy opened_if
seal_laws = record {
  Quorum = λ pk shared capsule id epoch entries. all committed entries ≡ true;
  nonce_length = λ seed pk binding_id aad epoch plaintext. refl;
  capsule_back = λ capsule bytes h. sym h;
  opens = λ seed pk binding_id aad epoch plaintext shared id entries quorum.
      ap (λ b. opened_if b plaintext) quorum;
}

committing_seals : encrypt committing [] 0 (8 ∷ []) 7 hi [] (some id) ≡ ok sealing
unfolding encrypt sealing sealed committing toy
committing_seals = refl

open_secret-encrypt_example :
    open_secret committing
      (3 ∷ [])
      sealing.capsule
      5
      7
      sealing.binding_id
      []
      sealing.ct
      (share 1 ∷ share 2 ∷ [])
    ≡ ok hi
unfolding committing toy share sealing seal_laws committed Decoded IsEntry Reads
open_secret-encrypt_example =
    open_secret-encrypt committing seal_laws [] 0 (8 ∷ []) 7 hi [] (some id) sealing (8 ∷ [])
      (3 ∷ []) (3 ∷ []) 5 (share 1 ∷ share 2 ∷ [])
      ((1 ∷ [], 1 ∷ [], 1 ∷ [], 1) ∷ (2 ∷ [], 2 ∷ [], 2 ∷ [], 2) ∷ []) committing_seals refl
      (omega arith, refl) refl refl (refl, (refl, tt))
      (
        ((omega arith, refl), (omega arith, refl), (omega arith, refl), refl),
        (((omega arith, refl), (omega arith, refl), (omega arith, refl), refl), tt),
      )
      (λ capsule h. refl)
