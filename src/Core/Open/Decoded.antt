-- ===== src/Core/Open/Decoded.antt =====
-- What the decoded partials of a subset are, independently of how `open_secret` decodes them.
use matter_sdk.Common.{
  ℕ, ◌≤◌, ◌≡◌, ◌↔◌, refl, ap, ◌∙◌, List, [], ◌∷◌, String, Text, length, Result, ok, >>=-eq-ok,
  map_err-eq-ok, arith, subst,
}
use matter_sdk.Core.Error.{decode}
use matter_sdk.Core.Crypto.{Bytes, Crypto}
use matter_sdk.Core.Bound.{bound, de, de-within, max_decode_bytes}
use matter_sdk.Core.Open.{PartialInput, decode_partial, decode_partials}

-- The bytes are within the bound, and the decoder reads the value from them.
unfoldable pub Reads : {T : Type 0} → (Bytes → Result Text T) → ℕ → Bytes → T → Type 0
Reads strict max bytes value = (length bytes ≤ max) × (strict bytes ≡ ok value)

pub de_iff :
    {T : Type 0} (strict : Bytes → Result Text T) (field : String) (bytes : Bytes) (max : ℕ)
    (value : T)
    → (de strict field bytes max ≡ ok value) ↔ Reads strict max bytes value
unfolding de bound Reads
de_iff strict field bytes max value = (
  λ h.
      let (_, _, read) = >>=-eq-ok (bound field (length bytes) max) _ h in
      (de-within strict field bytes max h, map_err-eq-ok (decode field) (strict bytes) read),
  λ (small, read). ground (arith, small, read),
)

module _ (k : Crypto) where
  abbrev pub Entry : Type 0
  Entry = k.PartialDecryption × k.PartDecProof × k.Commitment × k.Lambda

  -- Each of the three blobs is read as what it is, and the coefficient is that of the partial's own
  -- point over all the points.
  unfoldable pub IsEntry : List ℕ → PartialInput → Entry → Type 0
  IsEntry points p (partial, proof, commitment, lambda) =
      Reads k.strict_partial max_decode_bytes p.partial partial
      × Reads k.strict_part_dec_proof max_decode_bytes p.proof proof
      × Reads k.strict_commitment max_decode_bytes p.commitment commitment
      × (lambda ≡ k.lagrange_coefficient p.point points)

  -- One entry for each partial, in order.
  unfoldable pub Decoded : List ℕ → List PartialInput → List Entry → Type 0
  Decoded points [] [] = Unit
  Decoded points [] (e ∷ es) = ⊥
  Decoded points (p ∷ ps) [] = ⊥
  Decoded points (p ∷ ps) (e ∷ es) = IsEntry points p e × Decoded points ps es

  decode_partial_sound :
      (points : List ℕ) (p : PartialInput) (entry : Entry)
      → decode_partial k points p ≡ ok entry
      → IsEntry points p entry
  unfolding decode_partial IsEntry
  decode_partial_sound points p (partial, proof, commitment, lambda) h =
      let (a, read_a, h₁) =
        >>=-eq-ok (de k.strict_partial "partial" p.partial max_decode_bytes) _ h in
      let (b, read_b, h₂) =
        >>=-eq-ok (de k.strict_part_dec_proof "partial proof" p.proof max_decode_bytes) _ h₁ in
      let (c, read_c, h₃) =
        >>=-eq-ok (de k.strict_commitment "commitment" p.commitment max_decode_bytes) _ h₂ in
      let same_a : a ≡ partial = ground arith in
      let same_b : b ≡ proof = ground arith in
      let same_c : c ≡ commitment = ground arith in
      (
        (de_iff k.strict_partial "partial" p.partial max_decode_bytes partial).0
            (read_a ∙ ap ok same_a),
        (de_iff k.strict_part_dec_proof "partial proof" p.proof max_decode_bytes proof).0
            (read_b ∙ ap ok same_b),
        (de_iff k.strict_commitment "commitment" p.commitment max_decode_bytes commitment).0
            (read_c ∙ ap ok same_c),
        ground arith,
      )

  decode_partial_complete :
      (points : List ℕ) (p : PartialInput) (entry : Entry)
      → IsEntry points p entry
      → decode_partial k points p ≡ ok entry
  unfolding decode_partial IsEntry
  decode_partial_complete points p (partial, proof, commitment, lambda) (a, b, c, same) = rw (
    (de_iff k.strict_partial "partial" p.partial max_decode_bytes partial).1 a,
    (de_iff k.strict_part_dec_proof "partial proof" p.proof max_decode_bytes proof).1 b,
    (de_iff k.strict_commitment "commitment" p.commitment max_decode_bytes commitment).1 c,
    same,
  )

  pub decode_partials_sound :
      (points : List ℕ) (ps : List PartialInput) {entries : List Entry}
      → decode_partials k points ps ≡ ok entries
      → Decoded points ps entries
  unfolding decode_partials Decoded
  decode_partials_sound points [] {entries = []} h = tt
  decode_partials_sound points [] {entries = e ∷ es} h = absurd (ground arith)
  decode_partials_sound points (p ∷ ps) {entries} h =
      let (e, first, h₁) = >>=-eq-ok (decode_partial k points p) _ h in
      let (es, others, h₂) = >>=-eq-ok (decode_partials k points ps) _ h₁ in
      let made : e ∷ es ≡ entries = ground arith in
      subst (Decoded points (p ∷ ps)) made
        (decode_partial_sound points p e first, decode_partials_sound points ps others)

  pub decode_partials_complete :
      (points : List ℕ) (ps : List PartialInput) (entries : List Entry)
      → Decoded points ps entries
      → decode_partials k points ps ≡ ok entries
  unfolding decode_partials Decoded
  decode_partials_complete points [] [] h = refl
  decode_partials_complete points [] (e ∷ es) h = elim h [ ]
  decode_partials_complete points (p ∷ ps) [] h = elim h [ ]
  decode_partials_complete points (p ∷ ps) (e ∷ es) (first, others) =
      rw (decode_partial_complete points p e first, decode_partials_complete points ps es others)
