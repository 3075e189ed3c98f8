-- ===== src/Bindings/Agree.antt =====
-- The bindings for JavaScript, Python and C are one interface: the same inputs, in the form of each
-- language, have the same outcome.
use matter_sdk.Common.{
  ℕ, ◌^◌, ◌<◌, ◌≡◌, ◌↔◌, refl, ap, ◌∙◌, sym, Bool, false, List, [], ◌∷◌, map, some, Text, length,
  take, take-length, All, arith, Result, ok, err, ◌>>=◌, map_err, from_utf8,
}
use matter_sdk.Core.Crypto.{Bytes, Crypto}
use matter_sdk.Core.Error.{CoreError}
use matter_sdk.Core.Wire.{HexCodec, HexLaws, be_bytes, to_0x, secret_id_to_hex}
use matter_sdk.Core.Wire.RoundTrip.{
  length-be_bytes, of_be_bytes-be_bytes, secret_id_from_hex-to_hex, from_0x-to_0x,
}
use matter_sdk.Core.Open.{open_secret}
use matter_sdk.Key.ApiKey.{KeyRing, ApiKey, parse}
use matter_sdk.Key.Error.{KeyError}
use matter_sdk.Ffi.{
  success, Failure, Span, field, answer, MsdkPartialInput, partial_inputs, open_status,
  msdk_open_secret, msdk_signing_payload, write_out, as_slice, bad_key,
}
use matter_sdk.Ffi.Handles.{key_of}
use matter_sdk.Bindings.Wasm
use matter_sdk.Bindings.Wasm.{JsError, PartialInputJs, Js, to_input, js_err}
use matter_sdk.Bindings.Python
use matter_sdk.Bindings.Python.{PyErr, value_error, type_error, PartialTuple, core_input, core_err}

-- The same message in the other language.
abbrev pub raised : PyErr → JsError
raised (value_error text) = record { message = text }
raised (type_error text) = record { message = text }

-- A pointer with the length of what it points to.
abbrev pub whole : {A : Type 0} → List A → Span A
whole list = record { ptr = some list; len = length list }

abbrev pub to_js : PartialTuple → PartialInputJs
to_js (point, partial, proof, commitment) = record {
  point = point;
  partial = partial;
  proof = proof;
  commitment = commitment;
}

abbrev pub to_c : PartialTuple → MsdkPartialInput
to_c (point, partial, proof, commitment) = record {
  point = point;
  partial = whole partial;
  proof = whole proof;
  commitment = whole commitment;
}

field-be_bytes : (id : ℕ) → field 16 (some (be_bytes 16 id)) ≡ ok (be_bytes 16 id)
unfolding field as_slice
field-be_bytes id =
    let size : length (be_bytes 16 id) ≡ 16 = length-be_bytes 16 id in
    let all_read : take 16 (be_bytes 16 id) ≡ be_bytes 16 id =
      ap (λ n. take n (be_bytes 16 id)) (sym size) ∙ take-length (be_bytes 16 id) in
    rw (all_read, size)

field-whole : (n : ℕ) (bytes : Bytes) → length bytes ≡ n → field n (some bytes) ≡ ok bytes
unfolding field as_slice
field-whole n bytes size =
    let all_read : take n bytes ≡ bytes = ap (λ m. take m bytes) (sym size) ∙ take-length bytes in
    rw all_read (ground arith)

partial_inputs-to_c :
    (tuples : List PartialTuple) → partial_inputs (map to_c tuples) ≡ ok (map core_input tuples)
unfolding partial_inputs
partial_inputs-to_c [] = refl
partial_inputs-to_c ((point, partial, proof, commitment) ∷ rest) =
    rw (take-length partial, take-length proof, take-length commitment, partial_inputs-to_c rest)

inputs-to_js :
    (tuples : List PartialTuple) → map to_input (map to_js tuples) ≡ map core_input tuples
inputs-to_js [] = refl
inputs-to_js (t ∷ rest) = ap (λ inputs. core_input t ∷ inputs) (inputs-to_js rest)

raised-core_err :
    {A : Type 0} (r : Result CoreError A) → map_err js_err r ≡ map_err raised (map_err core_err r)
unfolding js_err core_err
raised-core_err (ok a) = refl
raised-core_err (err e) = refl

-- A result of the core, seen from Python and from C.
same_answer :
    (f : CoreError → Failure) (r : Result CoreError Bytes) (value : Bytes)
    → (map_err core_err r ≡ ok value) ↔ (answer [] (map_err f r) ≡ (success, some value))
unfolding answer
same_answer f (ok a) value = (λ h. ground arith, λ h. ground arith)
same_answer f (err e) value = (λ h. absurd (ground arith), λ h. absurd (ground arith))

module _ (k : Crypto) (hex : HexCodec) (laws : HexLaws hex) where
  c_open :
      (shared_a capsule : Bytes) (id epoch : ℕ) (binding_id aad ct : Bytes)
      (tuples : List PartialTuple)
      → id < 2 ^ 128
      → msdk_open_secret k false
          (whole shared_a)
          (whole capsule)
          (some (be_bytes 16 id))
          epoch
          (whole binding_id)
          (whole aad)
          (whole ct)
          (whole (map to_c tuples))
        ≡ answer [] (
            map_err open_status
              (open_secret k shared_a capsule id epoch binding_id aad ct (map core_input tuples)))
  unfolding msdk_open_secret write_out
  c_open shared_a capsule id epoch binding_id aad ct tuples small = rw (
    take-length shared_a,
    take-length capsule,
    field-be_bytes id,
    take-length binding_id,
    take-length aad,
    take-length ct,
    take-length (map to_c tuples),
    partial_inputs-to_c tuples,
    of_be_bytes-be_bytes 16 id (omega arith),
  )

  -- The three bindings open alike: a secret id of 128 bits, in hexadecimal, as a number or as 16
  -- bytes, and the same bytes and partials have the same plaintext in JavaScript, Python and C, or
  -- an error in each, with the same message in JavaScript as in Python. Decoding hexadecimal
  -- digits is assumed to undo encoding.
  pub open_secret_agree :
      (js : Js) (shared_a capsule : Bytes) (id epoch : ℕ) (binding_id aad ct : Bytes)
      (partials : js.JsValue) (tuples : List PartialTuple)
      → id < 2 ^ 128
      → js.from_value partials ≡ ok (map to_js tuples)
      → (Wasm.open_secret k hex js shared_a capsule
            (secret_id_to_hex hex id)
            epoch
            binding_id
            aad
            ct
            partials
          ≡ map_err raised
              (Python.open_secret k shared_a capsule id epoch binding_id aad ct tuples))
        × ((plaintext : Bytes)
            → (Python.open_secret k shared_a capsule id epoch binding_id aad ct tuples
                ≡ ok plaintext)
              ↔ (msdk_open_secret k false
                    (whole shared_a)
                    (whole capsule)
                    (some (be_bytes 16 id))
                    epoch
                    (whole binding_id)
                    (whole aad)
                    (whole ct)
                    (whole (map to_c tuples))
                  ≡ (success, some plaintext)))
  unfolding Wasm.open_secret Python.open_secret
  open_secret_agree js shared_a capsule id epoch binding_id aad ct partials tuples small shape = (
    rw (secret_id_from_hex-to_hex hex laws id small, shape, inputs-to_js tuples)
        (raised-core_err
          (open_secret k shared_a capsule id epoch binding_id aad ct (map core_input tuples))),
    λ plaintext. rw (c_open shared_a capsule id epoch binding_id aad ct tuples small) (
        same_answer open_status
          (open_secret k shared_a capsule id epoch binding_id aad ct (map core_input tuples))
          plaintext),
  )

  -- The three bindings sign alike: for a secret id of 128 bits and a block hash of 32 bytes each
  -- gives the requester the same bytes to sign. Decoding hexadecimal digits is assumed to undo
  -- encoding.
  pub signing_payload_agree :
      (id : ℕ) (subset : List ℕ) (block_hash : Bytes) (recipient_index : ℕ)
      → id < 2 ^ 128
      → All (λ b. b < 256) block_hash
      → length block_hash ≡ 32
      → (Wasm.partial_decrypt_signing_payload k hex
            (secret_id_to_hex hex id)
            subset
            (to_0x hex block_hash)
            recipient_index
          ≡ ok (k.signing_payload id subset block_hash recipient_index))
        × (Python.signing_payload k id subset block_hash recipient_index
            ≡ ok (k.signing_payload id subset block_hash recipient_index))
        × (msdk_signing_payload k false
              (some (be_bytes 16 id))
              (whole subset)
              (some block_hash)
              recipient_index
            ≡ (success, some (k.signing_payload id subset block_hash recipient_index)))
  unfolding Wasm.partial_decrypt_signing_payload Python.signing_payload msdk_signing_payload
      Wasm.block_hash_of write_out answer
  signing_payload_agree id subset block_hash recipient_index small bytes size = (
    rw (
      secret_id_from_hex-to_hex hex laws id small,
      from_0x-to_0x hex laws "block_hash" block_hash bytes,
      size,
    ),
    rw size,
    rw (
      field-be_bytes id,
      field-whole 32 block_hash size,
      take-length subset,
      of_be_bytes-be_bytes 16 id (omega arith),
    ),
  )

module _ (ring : KeyRing) (hex : HexCodec) (printable : ℕ → Bool) where
  same_js :
      (r : Result KeyError (ApiKey ring)) (key : ApiKey ring)
      → ((map_err (Wasm.key_err ring hex printable) r >>= λ inner.
            ok (let held : Wasm.ApiKeyJs ring hex printable = record { inner = inner } in held))
          ≡ ok (record { inner = key }))
        ↔ (r ≡ ok key)
  same_js (ok other) key = (λ h. ground arith, λ h. ground arith)
  same_js (err e) key = (λ h. absurd (ground arith), λ h. absurd (ground arith))

  same_py :
      (r : Result KeyError (ApiKey ring)) (key : ApiKey ring)
      → ((map_err (Python.key_err ring hex printable) r >>= λ inner.
            ok (let held : Python.ApiKeyPy ring hex printable = record { inner = inner } in held))
          ≡ ok (record { inner = key }))
        ↔ (r ≡ ok key)
  same_py (ok other) key = (λ h. ground arith, λ h. ground arith)
  same_py (err e) key = (λ h. absurd (ground arith), λ h. absurd (ground arith))

  same_c :
      (r : Result KeyError (ApiKey ring)) (key : ApiKey ring)
      → (map_err (λ _. bad_key) r ≡ ok key) ↔ (r ≡ ok key)
  same_c (ok other) key = (λ h. ground arith, λ h. ground arith)
  same_c (err e) key = (λ h. absurd (ground arith), λ h. absurd (ground arith))

  -- The three bindings accept the same API keys, for the same key pair: the constructors of
  -- JavaScript and Python on a text, and `msdk_apikey_parse` on its bytes in UTF-8, yield a key
  -- exactly if `ApiKey::parse` yields it.
  pub keys_agree :
      (bytes : Bytes) (text : Text) (key : ApiKey ring)
      → from_utf8 bytes ≡ some text
      → ((Wasm.new ring hex printable text ≡ ok (record { inner = key }))
          ↔ (parse ring text ≡ ok key))
        × ((Python.new ring hex printable text ≡ ok (record { inner = key }))
            ↔ (parse ring text ≡ ok key))
        × ((key_of ring (whole bytes) ≡ ok key) ↔ (parse ring text ≡ ok key))
  unfolding Wasm.new Python.new key_of
  keys_agree bytes text key decoded = (
    same_js (parse ring text) key,
    same_py (parse ring text) key,
    rw (take-length bytes, decoded) (same_c (parse ring text) key),
  )
