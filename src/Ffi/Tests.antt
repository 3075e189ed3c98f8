-- ===== src/Ffi/Tests.antt =====
-- Two partials, opened through the C function.
use matter_sdk.Common.{ℕ, ◌≡◌, ◌⊎◌, refl, false, List, [], ◌∷◌, Option, none, some, replicate}
use matter_sdk.Core.Bound.{de}
use matter_sdk.Core.Crypto.{Bytes}
use matter_sdk.Core.Open.{open_secret, subset_points, open_points, decode_partials}
use matter_sdk.Fixtures.{toy}
use matter_sdk.Ffi.{Span, Failure, failure, success, MsdkPartialInput, msdk_open_secret}
use matter_sdk.Ffi.Sound.{Opens, msdk_open_secret_sound}

abbrev span : List ℕ → ℕ → Span ℕ
span bytes len = record { ptr = some bytes; len = len }

abbrev nothing : Span ℕ
nothing = record { ptr = none; len = 0 }

abbrev sealed : Span ℕ
sealed = span (0 ∷ 0 ∷ 0 ∷ 0 ∷ 0 ∷ 0 ∷ 0 ∷ 0 ∷ 0 ∷ 0 ∷ 0 ∷ 0 ∷ b'h' ∷ b'i' ∷ []) 14

abbrev part : ℕ → MsdkPartialInput
part i = record {
  point = i;
  partial = span (10 ∷ []) 1;
  proof = span (11 ∷ []) 1;
  commitment = span (i ∷ []) 1;
}

abbrev parts : Span MsdkPartialInput
parts = record { ptr = some (part 1 ∷ part 3 ∷ []); len = 2 }

opens :
    msdk_open_secret toy false
      (span (3 ∷ []) 1)
      (span (2 ∷ []) 1)
      (some (replicate 16 0))
      7
      (span (1 ∷ []) 1)
      nothing
      sealed
      parts
    ≡ (success, some (b'h' ∷ b'i' ∷ []))
unfolding msdk_open_secret toy open_secret subset_points open_points decode_partials de
opens = refl

msdk_open_secret_sound_example :
    ((plaintext : Bytes) × (false ≡ false)
      × Opens toy false
          (span (3 ∷ []) 1)
          (span (2 ∷ []) 1)
          (some (replicate 16 0))
          7
          (span (1 ∷ []) 1)
          nothing
          sealed
          parts
          plaintext
      × (success ≡ success)
      × (◌≡◌ {A = Option Bytes} (some (b'h' ∷ b'i' ∷ [])) (some plaintext)))
    ⊎ ((f : Failure) × (success ≡ failure f)
        × ((◌≡◌ {A = Option Bytes} (some (b'h' ∷ b'i' ∷ [])) none)
            ⊎ (◌≡◌ {A = Option Bytes} (some (b'h' ∷ b'i' ∷ [])) (some []))))
msdk_open_secret_sound_example =
    msdk_open_secret_sound toy false (span (3 ∷ []) 1) (span (2 ∷ []) 1) (some (replicate 16 0)) 7
      (span (1 ∷ []) 1) nothing sealed parts opens
