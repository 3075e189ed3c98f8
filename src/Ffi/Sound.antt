-- ===== src/Ffi/Sound.antt =====
-- What the C functions return: the result of the core, or a cleared buffer.
use matter_sdk.Common.{
  ◌<◌, ◌∷◌, take, length, subst, ℕ, ◌≡◌, ◌⊎◌, inl, inr, refl, Bool, true, false, List, [], Option,
  none, some, Result, ok, err, ◌>>=◌, >>=-eq-ok, map_err-eq-ok, map_err, arith,
}
use matter_sdk.Core.Crypto.{Bytes, Crypto}
use matter_sdk.Core.Wire.{of_be_bytes}
use matter_sdk.Core.Open.{PartialInput, open_secret}
use matter_sdk.Ffi.{
  Status, success, failure, Failure, invalid_arg, Span, as_slice, slice, field, answer, write_out,
  MsdkPartialInput, partial_inputs, open_status, msdk_open_secret,
}

write_out-success :
    {A : Type 0} (null_out : Bool) (cleared : A) (body : Result Failure A) (status : Status)
    (written : Option A)
    → write_out null_out cleared body ≡ (status, written)
    → ((a : A) × (null_out ≡ false) × (body ≡ ok a) × (status ≡ success) × (written ≡ some a))
      ⊎ ((f : Failure) × (status ≡ failure f) × ((written ≡ none) ⊎ (written ≡ some cleared)))
unfolding write_out answer
write_out-success true cleared body status written h =
    inr (invalid_arg, ground arith, inl (ground arith))
write_out-success false cleared (ok a) status written h =
    inl (a, refl, refl, ground arith, ground arith)
write_out-success false cleared (err f) status written h = inr (f, ground arith, inr (ground arith))

-- What stands behind a pointer with a length: as many elements as the length, and nothing behind a
-- null pointer, which has the length 0.
unfoldable pub Behind : {A : Type 0} → Span A → List A → Type 0
Behind {A} s elements =
    ((readable : List A) × (s.ptr ≡ some readable) × (elements ≡ take s.len readable))
    ⊎ ((s.ptr ≡ none) × (s.len ≡ 0) × (elements ≡ []))

-- A fixed-width field: its pointer is not null, and all its bytes are readable.
unfoldable pub HasWidth : ℕ → Option Bytes → Bytes → Type 0
HasWidth width ptr bytes =
    (readable : Bytes) × (ptr ≡ some readable)
    × (bytes ≡ take width readable)
    × (length bytes ≡ width)

-- A partial of the core has the point of the argument, and what stands behind its three pointers.
unfoldable pub IsInput : MsdkPartialInput → PartialInput → Type 0
IsInput raw p =
    (p.point ≡ raw.point)
    × Behind raw.partial p.partial
    × Behind raw.proof p.proof
    × Behind raw.commitment p.commitment

unfoldable pub AreInputs : List MsdkPartialInput → List PartialInput → Type 0
AreInputs [] [] = Unit
AreInputs [] (p ∷ ps) = ⊥
AreInputs (r ∷ rs) [] = ⊥
AreInputs (r ∷ rs) (p ∷ ps) = IsInput r p × AreInputs rs ps

slice_at :
    {A : Type 0} (ptr : Option (List A)) (len : ℕ) (elements : List A)
    → slice (record { ptr = ptr; len = len }) ≡ ok elements
    → Behind (record { ptr = ptr; len = len }) elements
unfolding slice as_slice Behind
slice_at (some readable) len elements h = inl (readable, refl, ground arith)
slice_at none len elements h = inr (refl, ground arith, ground arith)

slice-Behind :
    {A : Type 0} (s : Span A) {elements : List A} → slice s ≡ ok elements → Behind s elements
slice-Behind s h = slice_at s.ptr s.len _ h

field-HasWidth :
    (width : ℕ) (ptr : Option Bytes) {bytes : Bytes}
    → 0 < width
    → field width ptr ≡ ok bytes
    → HasWidth width ptr bytes
unfolding field as_slice HasWidth
field-HasWidth width none wide h = absurd (ground (arith, wide))
field-HasWidth width (some readable) wide h = (readable, refl, ground arith, ground arith)

partial_inputs-AreInputs :
    (raw : List MsdkPartialInput) {inputs : List PartialInput}
    → partial_inputs raw ≡ ok inputs
    → AreInputs raw inputs
unfolding partial_inputs AreInputs IsInput
partial_inputs-AreInputs [] {inputs = []} h = tt
partial_inputs-AreInputs [] {inputs = p ∷ ps} h = absurd (ground arith)
partial_inputs-AreInputs (r ∷ rs) {inputs} h =
    let (a, read_a, h₁) = >>=-eq-ok (slice r.partial) _ h in
    let (b, read_b, h₂) = >>=-eq-ok (slice r.proof) _ h₁ in
    let (c, read_c, h₃) = >>=-eq-ok (slice r.commitment) _ h₂ in
    let (others, were_read, h₄) = >>=-eq-ok (partial_inputs rs) _ h₃ in
    let made : record { point = r.point; partial = a; proof = b; commitment = c } ∷ others
        ≡ inputs =
      ground arith in
    subst (AreInputs (r ∷ rs)) made (
      (
        refl,
        slice-Behind r.partial read_a,
        slice-Behind r.proof read_b,
        slice-Behind r.commitment read_c,
      ),
      partial_inputs-AreInputs rs were_read,
    )

module _ (k : Crypto) (null_out : Bool) where
  -- The arguments that are read, and what the core makes of them.
  unfoldable pub Opens :
      Span ℕ
      → Span ℕ
      → Option Bytes
      → ℕ
      → Span ℕ
      → Span ℕ
      → Span ℕ
      → Span MsdkPartialInput
      → Bytes
      → Type 0
  Opens shared_a capsule secret_id epoch binding_id aad ct partials plaintext =
      (sa : Bytes) × (cap : Bytes) × (sid : Bytes) × (bid : Bytes) × (tag : Bytes)
      × (sealed : Bytes) × (raw : List MsdkPartialInput) × (inputs : List PartialInput) × Behind
          shared_a sa
      × Behind capsule cap
      × HasWidth 16 secret_id sid
      × Behind binding_id bid
      × Behind aad tag
      × Behind ct sealed
      × Behind partials raw
      × AreInputs raw inputs
      × (open_secret k sa cap (of_be_bytes 0 sid) epoch bid tag sealed inputs ≡ ok plaintext)

  body_sound :
      (shared_a capsule : Span ℕ) (secret_id : Option Bytes) (epoch : ℕ)
      (binding_id aad ct : Span ℕ) (partials : Span MsdkPartialInput) (plaintext : Bytes)
      → (slice shared_a >>= λ sa. slice capsule >>= λ cap. field 16 secret_id >>= λ sid.
          slice binding_id >>= λ bid. slice aad >>= λ tag. slice ct >>= λ sealed.
          slice partials >>= λ raw. partial_inputs raw >>= λ inputs.
          map_err open_status
            (open_secret k sa cap (of_be_bytes 0 sid) epoch bid tag sealed inputs))
        ≡ ok plaintext
      → Opens shared_a capsule secret_id epoch binding_id aad ct partials plaintext
  unfolding Opens
  body_sound shared_a capsule secret_id epoch binding_id aad ct partials plaintext h =
      let (sa, e₁, h₁) = >>=-eq-ok (slice shared_a) _ h in
      let (cap, e₂, h₂) = >>=-eq-ok (slice capsule) _ h₁ in
      let (sid, e₃, h₃) = >>=-eq-ok (field 16 secret_id) _ h₂ in
      let (bid, e₄, h₄) = >>=-eq-ok (slice binding_id) _ h₃ in
      let (tag, e₅, h₅) = >>=-eq-ok (slice aad) _ h₄ in
      let (sealed, e₆, h₆) = >>=-eq-ok (slice ct) _ h₅ in
      let (raw, e₇, h₇) = >>=-eq-ok (slice partials) _ h₆ in
      let (inputs, e₈, h₈) = >>=-eq-ok (partial_inputs raw) _ h₇ in
      (
        sa,
        cap,
        sid,
        bid,
        tag,
        sealed,
        raw,
        inputs,
        slice-Behind shared_a e₁,
        slice-Behind capsule e₂,
        field-HasWidth 16 secret_id (omega arith) e₃,
        slice-Behind binding_id e₄,
        slice-Behind aad e₅,
        slice-Behind ct e₆,
        slice-Behind partials e₇,
        partial_inputs-AreInputs raw e₈,
        map_err-eq-ok open_status _ h₈,
      )

  -- `msdk_open_secret` returns success only with the plaintext that the core opens from the bytes
  -- behind the pointers: as many as each length, none behind a null pointer, whose length is 0, and
  -- 16 for the secret id; each partial has its own point, share, proof and commitment. Otherwise it
  -- returns an error, and the buffer is empty, or not written.
  pub msdk_open_secret_sound :
      (shared_a capsule : Span ℕ) (secret_id : Option Bytes) (epoch : ℕ)
      (binding_id aad ct : Span ℕ) (partials : Span MsdkPartialInput) {status : Status}
      {written : Option Bytes}
      → msdk_open_secret k null_out shared_a capsule secret_id epoch binding_id aad ct partials
        ≡ (status, written)
      → ((plaintext : Bytes) × (null_out ≡ false)
          × Opens shared_a capsule secret_id epoch binding_id aad ct partials plaintext
          × (status ≡ success)
          × (written ≡ some plaintext))
        ⊎ ((f : Failure) × (status ≡ failure f) × ((written ≡ none) ⊎ (written ≡ some [])))
  unfolding msdk_open_secret
  msdk_open_secret_sound shared_a capsule secret_id epoch binding_id aad ct partials h =
      elim (write_out-success null_out [] _ _ _ h) [
        | inl (plaintext, here, made, good, put) ↦ inl (
          plaintext,
          here,
          body_sound shared_a capsule secret_id epoch binding_id aad ct partials plaintext made,
          good,
          put,
        )
        | inr failed ↦ inr failed
      ]
