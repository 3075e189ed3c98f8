-- ===== src/Bindings/Tests.antt =====
-- One secret opened in three languages.
use matter_sdk.Common.{
  map_err, ◌≡◌, ◌↔◌, refl, false, List, [], ◌∷◌, map, some, codes, ok, arith, from_utf8,
}
use matter_sdk.Core.Crypto.{Bytes}
use matter_sdk.Core.Wire.{be_bytes, secret_id_to_hex}
use matter_sdk.Core.Bound.{de}
use matter_sdk.Core.Open.{open_secret, subset_points, open_points, decode_partials}
use matter_sdk.Key.ApiKey.{ApiKey, from_keypair}
use matter_sdk.Fixtures.{toy, hex, hex_laws, mnemonic_ring as ring}
use matter_sdk.Ffi.{success, msdk_open_secret}
use matter_sdk.Bindings.Wasm
use matter_sdk.Bindings.Wasm.{Js, PartialInputJs}
use matter_sdk.Bindings.Python
use matter_sdk.Bindings.Python.{PartialTuple}
use matter_sdk.Bindings.Agree.{raised, whole, to_js, to_c, open_secret_agree}

abbrev js : Js
js = record { JsValue = List PartialInputJs; from_value = λ v. ok v }

abbrev tuples : List PartialTuple
tuples = (1, 10 ∷ [], 11 ∷ [], 1 ∷ []) ∷ (3, 10 ∷ [], 11 ∷ [], 3 ∷ []) ∷ []

abbrev ct : Bytes
ct = 0 ∷ 0 ∷ 0 ∷ 0 ∷ 0 ∷ 0 ∷ 0 ∷ 0 ∷ 0 ∷ 0 ∷ 0 ∷ 0 ∷ b'h' ∷ b'i' ∷ []

open_secret_agree_example :
    (Wasm.open_secret toy hex js
        (3 ∷ [])
        (2 ∷ [])
        (secret_id_to_hex hex 42)
        7
        (1 ∷ [])
        []
        ct
        (map to_js tuples)
      ≡ map_err raised (Python.open_secret toy (3 ∷ []) (2 ∷ []) 42 7 (1 ∷ []) [] ct tuples))
    × ((plaintext : Bytes)
        → (Python.open_secret toy (3 ∷ []) (2 ∷ []) 42 7 (1 ∷ []) [] ct tuples ≡ ok plaintext) ↔ (
            msdk_open_secret toy false
              (whole (3 ∷ []))
              (whole (2 ∷ []))
              (some (be_bytes 16 42))
              7
              (whole (1 ∷ []))
              (whole [])
              (whole ct)
              (whole (map to_c tuples))
            ≡ (success, some plaintext)))
open_secret_agree_example =
    open_secret_agree toy hex hex_laws js (3 ∷ []) (2 ∷ []) 42 7 (1 ∷ []) [] ct (map to_js tuples)
      tuples (omega arith) refl

-- The plaintext in Python.
opened : Python.open_secret toy (3 ∷ []) (2 ∷ []) 42 7 (1 ∷ []) [] ct tuples ≡ ok (b'h' ∷ b'i' ∷ [])
unfolding Python.open_secret toy open_secret subset_points open_points decode_partials de
opened = refl

abbrev key : ApiKey ring
key = from_keypair ring (codes "ab")

decoded : from_utf8 (codes "ab") ≡ some (codes "ab")
unfolding from_utf8
decoded = refl
