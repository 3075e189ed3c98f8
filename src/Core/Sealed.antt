-- ===== src/Core/Sealed.antt =====
-- `encrypt` and `open_secret` fit together: what is sealed is opened.
use matter_sdk.Common.{
  ℕ, ◌≤◌, ◌≡◌, sym, ap, subst, ◌∙◌, false, List, ◌++◌, Option, String, arith, length, length-append,
  is_empty, ltb, take, drop, take-append, drop-length-append, ok,
}
use matter_sdk.Core.Crypto.{Bytes, Crypto, SealedSecrets}
use matter_sdk.Core.Bound.{bound, de, max_decode_bytes}
use matter_sdk.Core.Wire.{be_bytes}
use matter_sdk.Core.Seal.{EncryptedSecret, encrypt, binding_or}
use matter_sdk.Core.Seal.Bounds.{encrypt_bounds}
use matter_sdk.Core.Open.Decoded.{Reads, de_iff, Decoded, decode_partials_complete}
use matter_sdk.Core.Open.Subset.{Distinct, points_of, subset_points_iff}
use matter_sdk.Core.Open.{
  is_member, PartialInput, subset_points, decode_partials, open_points, open_secret,
}

-- What matter-crypto documents: nonces of 12 bytes, capsules that are read back, and that the partial
-- decryptions of a quorum of the committee open what was sealed under its key.
pub record SealLaws (k : Crypto) : Type 1 where
  -- The entries are a quorum's, for the capsule, the secret id and the epoch.
  pub Quorum :
      k.PublicKey
      → k.SharedA
      → k.Capsule
      → Bytes
      → ℕ
      → List (k.PartialDecryption × k.PartDecProof × k.Commitment × k.Lambda)
      → Type 0
  pub nonce_length :
      (seed : ℕ) (pk : k.PublicKey) (binding_id aad : Bytes) (epoch : ℕ) (plaintext : Bytes)
      → length (k.seal_secret seed pk binding_id aad epoch plaintext).2.nonce ≡ 12
  pub capsule_back :
      (capsule : k.Capsule) (bytes : Bytes)
      → k.serialize_capsule capsule ≡ ok bytes
      → k.strict_capsule bytes ≡ ok capsule
  pub opens :
      (seed : ℕ) (pk : k.PublicKey) (binding_id aad : Bytes) (epoch : ℕ) (plaintext : Bytes)
      (shared : k.SharedA) (secret_id : Bytes)
      (entries : List (k.PartialDecryption × k.PartDecProof × k.Commitment × k.Lambda))
      → Quorum pk shared
          (k.seal_secret seed pk binding_id aad epoch plaintext).0
          secret_id
          epoch
          entries
      → k.verify_aggregate_open entries
          (k.seal_secret seed pk binding_id aad epoch plaintext).0
          shared
          secret_id
          epoch
          binding_id
          aad
          (k.seal_secret seed pk binding_id aad epoch plaintext).2
        ≡ ok plaintext

pub take_nonce : (nonce rest : Bytes) → length nonce ≡ 12 → take 12 (nonce ++ rest) ≡ nonce
take_nonce nonce rest size = ap (λ n. take n (nonce ++ rest)) (sym size) ∙ take-append nonce rest

pub drop_nonce : (nonce rest : Bytes) → length nonce ≡ 12 → drop 12 (nonce ++ rest) ≡ rest
drop_nonce nonce rest size =
    ap (λ n. drop n (nonce ++ rest)) (sym size) ∙ drop-length-append nonce rest

module _ (k : Crypto) where
  -- How an envelope is put together from what was sealed.
  pub packed :
      (fresh : Bytes) (seed : ℕ) (joint_pk : Bytes) (epoch : ℕ) (plaintext aad : Bytes)
      (given : Option Bytes) (pk : k.PublicKey) {env : EncryptedSecret}
      → k.deserialize_public_key joint_pk ≡ ok pk
      → encrypt k fresh seed joint_pk epoch plaintext aad given ≡ ok env
      → (k.serialize_capsule (k.seal_secret seed pk (binding_or given fresh) aad epoch plaintext).0
          ≡ ok env.capsule)
        × (env.ct
            ≡ (k.seal_secret seed pk (binding_or given fresh) aad epoch plaintext).2.nonce
              ++ (k.seal_secret seed pk (binding_or given fresh) aad epoch plaintext).2.ciphertext)
  unfolding encrypt
  packed fresh seed joint_pk epoch plaintext aad given pk known h = (ground arith, ground arith)

  fits : (field : String) (actual max : ℕ) → actual ≤ max → bound field actual max ≡ ok tt
  unfolding bound
  fits field actual max h = ground arith

  capsule_read :
      (bytes : Bytes) (capsule : k.Capsule)
      → length bytes ≤ k.max_capsule
      → k.strict_capsule bytes ≡ ok capsule
      → de k.strict_capsule "capsule" bytes k.max_capsule ≡ ok capsule
  unfolding de
  capsule_read bytes capsule small back =
      rw (fits "capsule" (length bytes) k.max_capsule small, back)

  -- The opening, once every check is passed and everything is decoded.
  opened :
      (shared_a capsule_bytes : Bytes) (id epoch : ℕ) (binding_id aad ct : Bytes)
      (sealed : SealedSecrets) (partials : List PartialInput) (points : List ℕ)
      (capsule : k.Capsule) (shared : k.SharedA)
      (entries : List (k.PartialDecryption × k.PartDecProof × k.Commitment × k.Lambda))
      (plaintext : Bytes)
      → length binding_id ≤ k.max_binding_id
      → length capsule_bytes ≤ k.max_capsule
      → length ct ≤ k.max_ct
      → ct ≡ sealed.nonce ++ sealed.ciphertext
      → length sealed.nonce ≡ 12
      → de k.strict_shared_a "shared_a" shared_a max_decode_bytes ≡ ok shared
      → k.strict_capsule capsule_bytes ≡ ok capsule
      → decode_partials k points partials ≡ ok entries
      → k.verify_aggregate_open entries capsule shared (be_bytes 16 id) epoch binding_id aad sealed
        ≡ ok plaintext
      → open_points k shared_a capsule_bytes id epoch binding_id aad ct partials points
        ≡ ok plaintext
  unfolding open_points
  opened shared_a capsule_bytes id epoch binding_id aad ct sealed partials points capsule shared
        entries plaintext short small ct_small spelled size read_shared back decoded opens =
      let long : ltb (length ct) 12 ≡ false =
        ground (arith, ap length spelled, length-append sealed.nonce sealed.ciphertext, size) in
      let first : take 12 ct ≡ sealed.nonce =
        ap (take 12) spelled ∙ take_nonce sealed.nonce sealed.ciphertext size in
      let second : drop 12 ct ≡ sealed.ciphertext =
        ap (drop 12) spelled ∙ drop_nonce sealed.nonce sealed.ciphertext size in
      rw (
        fits "binding_id" (length binding_id) k.max_binding_id short,
        fits "ct" (length ct) k.max_ct ct_small,
        read_shared,
        capsule_read capsule_bytes capsule small back,
        long,
        decoded,
        first,
        second,
        opens,
      )

  -- What `encrypt` seals, `open_secret` opens: from the envelope, under the same tag and epoch, the
  -- plaintext comes back from at least one partial, with distinct points that are not 0, if the
  -- shared polynomial and the partials are read from their bytes, and the shares, proofs and
  -- commitments read, each with the Lagrange coefficient of its own point over all the points, are
  -- those of a quorum. The cryptography is assumed to open what it seals for a quorum, to read its
  -- capsules back, and to use nonces of 12 bytes.
  pub open_secret-encrypt :
      (laws : SealLaws k) (fresh : Bytes) (seed : ℕ) (joint_pk : Bytes) (epoch : ℕ)
      (plaintext aad : Bytes) (given : Option Bytes) (env : EncryptedSecret) (pk : k.PublicKey)
      (shared_a : Bytes) (shared : k.SharedA) (id : ℕ) (partials : List PartialInput)
      (entries : List (k.PartialDecryption × k.PartDecProof × k.Commitment × k.Lambda))
      → encrypt k fresh seed joint_pk epoch plaintext aad given ≡ ok env
      → k.deserialize_public_key joint_pk ≡ ok pk
      → Reads k.strict_shared_a max_decode_bytes shared_a shared
      → is_empty partials ≡ false
      → is_member 0 (points_of partials) ≡ false
      → Distinct (points_of partials)
      → Decoded k (points_of partials) partials entries
      → ((capsule : k.Capsule)
          → k.strict_capsule env.capsule ≡ ok capsule
          → laws.Quorum pk shared capsule (be_bytes 16 id) epoch entries)
      → open_secret k shared_a env.capsule id epoch env.binding_id aad env.ct partials
        ≡ ok plaintext
  unfolding open_secret
  open_secret-encrypt laws fresh seed joint_pk epoch plaintext aad given env pk shared_a shared id
        partials entries made known read_shared filled positive distinct decoded quorum =
      let admitted : subset_points partials ≡ ok (points_of partials) =
        (subset_points_iff partials).1 (filled, positive, distinct) in
      let sealed = k.seal_secret seed pk (binding_or given fresh) aad epoch plaintext in
      let (_, short, small, _, ct_small, bound_to) =
        encrypt_bounds k fresh seed joint_pk epoch plaintext aad given made in
      let (written, spelled) = packed fresh seed joint_pk epoch plaintext aad given pk known made in
      let back : k.strict_capsule env.capsule ≡ ok sealed.0 =
        laws.capsule_back sealed.0 env.capsule written in
      let verified : k.verify_aggregate_open entries sealed.0 shared (be_bytes 16 id) epoch
            (binding_or given fresh) aad sealed.2
          ≡ ok plaintext =
        laws.opens seed pk (binding_or given fresh) aad epoch plaintext shared (be_bytes 16 id)
          entries (quorum sealed.0 back) in
      rw admitted (
        opened shared_a env.capsule id epoch env.binding_id aad env.ct sealed.2 partials
          (points_of partials) sealed.0 shared entries plaintext short small ct_small spelled
          (laws.nonce_length seed pk (binding_or given fresh) aad epoch plaintext)
          ((de_iff k.strict_shared_a "shared_a" shared_a max_decode_bytes shared).1 read_shared)
          back (decode_partials_complete k (points_of partials) partials entries decoded)
          (subst
            (λ b.
              k.verify_aggregate_open entries sealed.0 shared (be_bytes 16 id) epoch b aad sealed.2
              ≡ ok plaintext)
            (sym bound_to) verified))
