-- ===== src/Core/Authentic.antt =====
-- A ciphertext that `encrypt` made opens to nothing but what was sealed.
use matter_sdk.Common.{
  ℕ, ◌≡◌, ap, subst, ◌∙◌, List, ◌++◌, Option, length, is_empty, take, drop, ok, >>=-eq-ok,
  map_err-eq-ok, fail_if, map_err, arith,
}
use matter_sdk.Core.Error.{empty, decode}
use matter_sdk.Core.Crypto.{Bytes, Crypto, SealedSecrets}
use matter_sdk.Core.Wire.{be_bytes}
use matter_sdk.Core.Seal.{EncryptedSecret, encrypt, binding_or}
use matter_sdk.Core.Open.{PartialInput, open_secret}
use matter_sdk.Core.Open.Guards.{open_secret_sound}
use matter_sdk.Core.Sealed.{packed, take_nonce, drop_nonce}

-- The two parts of a ciphertext, as `open_secret` takes them apart.
abbrev parts : Bytes → SealedSecrets
parts ct = record { nonce = take 12 ct; ciphertext = drop 12 ct }

parts_of :
    (sealed : SealedSecrets) (ct : Bytes)
    → ct ≡ sealed.nonce ++ sealed.ciphertext
    → length sealed.nonce ≡ 12
    → parts ct ≡ sealed
parts_of sealed ct spelled size =
    let first : take 12 ct ≡ sealed.nonce =
      ap (take 12) spelled ∙ take_nonce sealed.nonce sealed.ciphertext size in
    let second : drop 12 ct ≡ sealed.ciphertext =
      ap (drop 12) spelled ∙ drop_nonce sealed.nonce sealed.ciphertext size in
    ground (arith, first, second)

-- What authenticated encryption promises: a sealed payload opens to nothing but what was sealed, and
-- only under the tag that it was sealed with.
pub record AeadLaws (k : Crypto) : Type 0 where
  pub authentic :
      (seed : ℕ) (pk : k.PublicKey) (binding_id sealed_under : Bytes) (epoch : ℕ)
      (plaintext : Bytes)
      (entries : List (k.PartialDecryption × k.PartDecProof × k.Commitment × k.Lambda))
      (capsule : k.Capsule) (shared : k.SharedA) (secret_id : Bytes) (opened_epoch : ℕ)
      (opened_id tag : Bytes) {found : Bytes}
      → k.verify_aggregate_open entries capsule shared secret_id opened_epoch opened_id tag
          (k.seal_secret seed pk binding_id sealed_under epoch plaintext).2
        ≡ ok found
      → (found ≡ plaintext) × (tag ≡ sealed_under)
  pub nonces :
      (seed : ℕ) (pk : k.PublicKey) (binding_id sealed_under : Bytes) (epoch : ℕ)
      (plaintext : Bytes)
      → length (k.seal_secret seed pk binding_id sealed_under epoch plaintext).2.nonce ≡ 12

-- A ciphertext that `encrypt` made opens to the plaintext that was sealed or not at all, and only
-- under its tag, whatever the other inputs are.
pub open_secret_authentic :
    (k : Crypto)
    → AeadLaws k
    → (fresh : Bytes) (seed : ℕ) (joint_pk : Bytes) (epoch : ℕ) (plaintext sealed_under : Bytes)
      (given : Option Bytes) (env : EncryptedSecret) (shared_a capsule : Bytes)
      (id opened_epoch : ℕ) (binding_id tag : Bytes) (partials : List PartialInput) {found : Bytes}
    → encrypt k fresh seed joint_pk epoch plaintext sealed_under given ≡ ok env
    → open_secret k shared_a capsule id opened_epoch binding_id tag env.ct partials ≡ ok found
    → (found ≡ plaintext) × (tag ≡ sealed_under)
unfolding encrypt
open_secret_authentic k laws fresh seed joint_pk epoch plaintext sealed_under given env shared_a
      capsule id opened_epoch binding_id tag partials {found} made h =
    let (_, _, made₁) = >>=-eq-ok (fail_if (is_empty plaintext) (empty "plaintext")) _ made in
    let (pk, known, _) =
      >>=-eq-ok (map_err (decode "joint_pk") (k.deserialize_public_key joint_pk)) _ made₁ in
    let read : k.deserialize_public_key joint_pk ≡ ok pk =
      map_err-eq-ok (decode "joint_pk") (k.deserialize_public_key joint_pk) known in
    let (_, spelled) =
      packed k fresh seed joint_pk epoch plaintext sealed_under given pk read made in
    let sealed = (k.seal_secret seed pk (binding_or given fresh) sealed_under epoch plaintext).2 in
    let size : length sealed.nonce ≡ 12 =
      laws.nonces seed pk (binding_or given fresh) sealed_under epoch plaintext in
    let (_, _, _, _, _, _, (shared, cap, entries, _, _, _, verified)) =
      open_secret_sound k shared_a capsule id opened_epoch binding_id tag env.ct partials h in
    laws.authentic seed pk (binding_or given fresh) sealed_under epoch plaintext entries cap shared
      (be_bytes 16 id) opened_epoch binding_id tag
      (subst
        (λ both.
          k.verify_aggregate_open entries cap shared (be_bytes 16 id) opened_epoch binding_id tag
            both
          ≡ ok found)
        (parts_of sealed env.ct spelled size) verified)
