-- ===== src/Ffi/Handles/Wiped.antt =====
-- No buffer goes back to the allocator with its bytes.
use matter_sdk.Common.{
  ℕ, ◌≡◌, refl, subst, List, [], ◌∷◌, ◌++◌, Option, none, some, ◌==◌, ok, >>=-eq-ok, All,
  All-append, All-replicate, arith, length, length-append, length-replicate, replicate, drop,
  Bool-cases, inl, inr,
}
use matter_sdk.Core.Crypto.{Bytes}
use matter_sdk.Key.ApiKey.{KeyRing}
use matter_sdk.Ffi.Memory.{
  Pointer, null, dangling, address, MsdkBuf, Allocator, Cell, boxed_key, boxed_bytes, Memory,
  find_cell, put_cell, allocate, zeroize, bytes_of, wipe_at, wipe, drop_at, msdk_free,
}
use matter_sdk.Ffi.Handles.{read_key, msdk_apikey_free, Call, Reply, run}
use matter_sdk.Ffi.Handles.Steps.{Keeps, run-keeps}

-- All bytes are zero.
abbrev pub Zeroed : Bytes → Type 0
Zeroed bytes = All (λ b. b ≡ 0) bytes

Zeroed-rest : (rest : Bytes) → length rest ≡ 0 → Zeroed rest
Zeroed-rest [] h = tt
Zeroed-rest (b ∷ rest) h = absurd (omega arith)

module _ (ring : KeyRing) where
  all_calls : (calls : List (Call ring)) → All (λ c. Unit {0}) calls
  all_calls [] = tt
  all_calls (c ∷ cs) = (tt, all_calls cs)

  abbrev pub Wiped : Memory ring → Type 0
  Wiped m = All Zeroed m.released

  put_cell_self :
      (a : ℕ) (new : Cell ring) (cells : List (ℕ × Cell ring)) (old : Cell ring)
      → find_cell ring a cells ≡ some old
      → find_cell ring a (put_cell ring a new cells) ≡ some new
  unfolding find_cell put_cell
  put_cell_self a new [] old e = absurd (ground arith)
  put_cell_self a new ((b, c) ∷ rest) old e = ground (arith, put_cell_self a new rest old)

  bytes_of-bytes :
      (len : ℕ) (held bytes : Bytes)
      → bytes_of ring len (some (boxed_bytes held)) ≡ ok bytes
      → (held ≡ bytes) × (length held ≡ len)
  unfolding bytes_of
  bytes_of-bytes len held bytes g = (ground arith, ground arith)

  -- What is dropped after it was zeroed is zero, as the lengths are the same.
  zeroed :
      (len : ℕ) (found : Option (Cell ring)) (c : Cell ring) (bytes : Bytes)
      → zeroize ring len found ≡ ok c
      → bytes_of ring len (some c) ≡ ok bytes
      → Zeroed bytes
  unfolding zeroize
  zeroed len none c bytes e f = absurd (ground arith)
  zeroed len (some (boxed_key k)) c bytes e f = absurd (ground arith)
  zeroed len (some (boxed_bytes old)) c bytes e f =
      let cleared : c ≡ boxed_bytes (replicate len 0 ++ drop len old) = ground arith in
      let (whole, fits) =
        bytes_of-bytes len (replicate len 0 ++ drop len old) bytes (rw cleared at f) in
      let none_left : length (drop len old) ≡ 0 = omega (
        arith,
        fits,
        length-append (replicate len 0) (drop len old),
        length-replicate {0} {A = ℕ} len 0,
      ) in
      subst Zeroed whole (
        All-append (λ b. b ≡ 0) (replicate len 0) (drop len old)
          (All-replicate (λ b. b ≡ 0) len 0 refl) (Zeroed-rest (drop len old) none_left))

  zeroize-found :
      (len : ℕ) (found : Option (Cell ring)) (c : Cell ring)
      → zeroize ring len found ≡ ok c
      → (old : Cell ring) × (found ≡ some old)
  unfolding zeroize
  zeroize-found len none c e = absurd (ground arith)
  zeroize-found len (some old) c e = (old, refl)

  msdk_free-Wiped :
      (p : Pointer) (len : ℕ) (m m₁ : Memory ring) {m₂ : Memory ring}
      → Wiped m
      → wipe_at ring p len m ≡ ok m₁
      → drop_at ring p len m₁ ≡ ok m₂
      → Wiped m₂
  unfolding wipe_at drop_at
  msdk_free-Wiped null len m m₁ {m₂} w e f =
      let same : m.released ≡ m₂.released = ground arith in subst (All Zeroed) same w
  msdk_free-Wiped dangling len m m₁ {m₂} w e f =
      let same : m.released ≡ m₂.released = ground arith in subst (All Zeroed) same w
  msdk_free-Wiped (address a) len m m₁ {m₂} w e f = elim (Bool-cases (len == 0)) [
    | inl empty ↦ let same : m.released ≡ m₂.released = ground arith in subst (All Zeroed) same w
    | inr more ↦
        let (c, cleared, put) =
          >>=-eq-ok (zeroize ring len (find_cell ring a m.cells)) _ (rw more at e) in
        let (bytes, owned, dropped) =
          >>=-eq-ok (bytes_of ring len (find_cell ring a m₁.cells)) _ (rw more at f) in
        let (old, there) = zeroize-found len (find_cell ring a m.cells) c cleared in
        let cells : put_cell ring a c m.cells ≡ m₁.cells = ground arith in
        let new : find_cell ring a m₁.cells ≡ some c =
          subst (λ s. find_cell ring a s ≡ some c) cells (put_cell_self a c m.cells old there) in
        let spelled : bytes ∷ m.released ≡ m₂.released = ground arith in
        subst (All Zeroed) spelled (
          zeroed len (find_cell ring a m.cells) c bytes cleared
              (subst (λ o. bytes_of ring len o ≡ ok bytes) new owned),
          w,
        )
  ]

  freed-Wiped :
      (buf : MsdkBuf) (m : Memory ring) {m' : Memory ring}
      → Wiped m
      → msdk_free ring buf m ≡ ok m'
      → Wiped m'
  unfolding msdk_free wipe
  freed-Wiped buf m w made =
      let (wiped, first, second) = >>=-eq-ok (wipe_at ring buf.ptr buf.len m) _ made in
      msdk_free-Wiped buf.ptr buf.len m wiped w first second

  key-Wiped :
      (p : Pointer) (m : Memory ring) {m' : Memory ring}
      → Wiped m
      → msdk_apikey_free ring p m ≡ ok m'
      → Wiped m'
  unfolding msdk_apikey_free
  key-Wiped null m {m'} w made =
      let same : m.released ≡ m'.released = ground arith in subst (All Zeroed) same w
  key-Wiped dangling m w made = absurd (ground arith)
  key-Wiped (address a) m {m'} w made =
      let (found, _, rest) = >>=-eq-ok (read_key ring (address a) m) _ made in
      let same : m.released ≡ m'.released = ground arith in subst (All Zeroed) same w

  module _ (alloc : Allocator) where
    keeps_Wiped : Keeps ring alloc Wiped (λ c. Unit {0})
    unfolding allocate
    keeps_Wiped = record {
      key = λ k m w. w;
      bytes = λ b bs m w. w;
      dropped_key = λ p m m' _ w made. key-Wiped p m w made;
      dropped = λ buf m m' w made. freed-Wiped buf m w made;
    }

    -- Whatever is called, in whatever order, every buffer that goes back to the allocator holds only
    -- zeros by then, if all that went back before did.
    pub run-Wiped :
        (calls : List (Call ring)) (before after : Memory ring) (replies : List (Reply ring))
        → Wiped before
        → run ring alloc calls before ≡ ok (replies, after)
        → Wiped after
    run-Wiped calls before after replies w done =
        run-keeps ring Wiped alloc (λ c. Unit {0}) keeps_Wiped calls before (all_calls calls) w done
