-- ===== src/Ffi/Handles/Counts.antt =====
-- How many allocations a call gives back and a reply hands out, and what freeing does to their
-- number.
use matter_sdk.Common.{
  ℕ, ◌+◌, ◌≡◌, refl, ◌∙◌, List, [], ◌∷◌, Option, none, some, ◌==◌, if◌then◌else◌, ok, >>=-eq-ok,
  arith, length, Bool-cases, inl, inr,
}
use matter_sdk.Core.Crypto.{Bytes}
use matter_sdk.Key.ApiKey.{KeyRing, ApiKey}
use matter_sdk.Ffi.Memory.{
  Pointer, null, dangling, address, MsdkBuf, EnvelopeBufs, Cell, Memory, find_cell, put_cell,
  remove_cell, zeroize, bytes_of, wipe_at, wipe, drop_at, msdk_free, msdk_envelope_free,
}
use matter_sdk.Ffi.Handles.{
  unboxed, read_key, msdk_apikey_free, Call, parse_key, free_key, account_id, scheme, sign_with,
  core_call, encrypt_call, free_buf, free_envelope, Reply, handle, buffer, envelope, no_reply,
}

-- Whether a pointer with a length owns an allocation.
abbrev pub owned : MsdkBuf → ℕ
owned buf = elim buf.ptr [ null ↦ 0 | dangling ↦ 0 | address a ↦ if buf.len == 0 then 0 else 1 ]

abbrev pub owned_envelope : EnvelopeBufs → ℕ
owned_envelope env = owned env.binding_id + owned env.capsule + owned env.proof + owned env.ct

-- How many allocations a reply gives to the caller.
abbrev pub handed : {ring : KeyRing} → Reply ring → ℕ
handed (handle status (some (address a))) = 1
handed (handle status (some null)) = 0
handed (handle status (some dangling)) = 0
handed (handle status none) = 0
handed (buffer status (some buf)) = owned buf
handed (buffer status none) = 0
handed (envelope status (some env)) = owned_envelope env
handed (envelope status none) = 0
handed no_reply = 0

-- How many a call gives back.
abbrev pub given_back : {ring : KeyRing} → Call ring → ℕ
given_back (free_key (address a)) = 1
given_back (free_key null) = 0
given_back (free_key dangling) = 0
given_back (free_buf buf) = owned buf
given_back (free_envelope env) = owned_envelope env
given_back (parse_key null_out text) = 0
given_back (account_id null_out key) = 0
given_back (scheme null_out key) = 0
given_back (sign_with null_out key message) = 0
given_back (core_call answer) = 0
given_back (encrypt_call answer) = 0

unfoldable pub all_handed : {ring : KeyRing} → List (Reply ring) → ℕ
all_handed [] = 0
all_handed (r ∷ rs) = handed r + all_handed rs

unfoldable pub all_given_back : {ring : KeyRing} → List (Call ring) → ℕ
all_given_back [] = 0
all_given_back (c ∷ cs) = given_back c + all_given_back cs

module _ (ring : KeyRing) where
  length-put_cell :
      (a : ℕ) (new : Cell ring) (cells : List (ℕ × Cell ring))
      → length (put_cell ring a new cells) ≡ length cells
  unfolding put_cell
  length-put_cell a new [] = refl
  length-put_cell a new ((b, c) ∷ rest) = ground (arith, length-put_cell a new rest)

  length-remove_cell :
      (a : ℕ) (cells : List (ℕ × Cell ring)) (c : Cell ring)
      → find_cell ring a cells ≡ some c
      → length (remove_cell ring a cells) + 1 ≡ length cells
  unfolding find_cell remove_cell
  length-remove_cell a [] c e = absurd (ground arith)
  length-remove_cell a ((b, d) ∷ rest) c e = ground (arith, length-remove_cell a rest c)

  bytes_of-found :
      (len : ℕ) (found : Option (Cell ring)) (bytes : Bytes)
      → bytes_of ring len found ≡ ok bytes
      → (c : Cell ring) × (found ≡ some c)
  unfolding bytes_of
  bytes_of-found len none bytes e = absurd (ground arith)
  bytes_of-found len (some c) bytes e = (c, refl)

  unboxed-found :
      (found : Option (Cell ring)) (k : ApiKey ring)
      → unboxed ring found ≡ ok k
      → (c : Cell ring) × (found ≡ some c)
  unfolding unboxed
  unboxed-found none k e = absurd (ground arith)
  unboxed-found (some c) k e = (c, refl)

  length-wipe_at :
      (p : Pointer) (len : ℕ) (m m' : Memory ring)
      → wipe_at ring p len m ≡ ok m'
      → length m'.cells ≡ length m.cells
  unfolding wipe_at
  length-wipe_at null len m m' made = ground arith
  length-wipe_at dangling len m m' made = ground arith
  length-wipe_at (address a) len m m' made = elim (Bool-cases (len == 0)) [
    | inl empty ↦ ground arith
    | inr more ↦
        let (c, _, put) =
          >>=-eq-ok (zeroize ring len (find_cell ring a m.cells)) _ (rw more at made) in
        ground (arith, length-put_cell a c m.cells)
  ]

  length-drop_at :
      (p : Pointer) (len : ℕ) (m m' : Memory ring)
      → drop_at ring p len m ≡ ok m'
      → length m'.cells + owned (record { ptr = p; len = len }) ≡ length m.cells
  unfolding drop_at
  length-drop_at null len m m' made = ground arith
  length-drop_at dangling len m m' made = ground arith
  length-drop_at (address a) len m m' made = elim (Bool-cases (len == 0)) [
    | inl empty ↦ ground arith
    | inr more ↦
        let (bytes, taken, dropped) =
          >>=-eq-ok (bytes_of ring len (find_cell ring a m.cells)) _ (rw more at made) in
        let (c, there) = bytes_of-found len (find_cell ring a m.cells) bytes taken in
        ground (arith, length-remove_cell a m.cells c)
  ]

  pub length-msdk_free :
      (buf : MsdkBuf) (m m' : Memory ring)
      → msdk_free ring buf m ≡ ok m'
      → length m'.cells + owned buf ≡ length m.cells
  unfolding msdk_free wipe
  length-msdk_free buf m m' made =
      let (wiped, first, second) = >>=-eq-ok (wipe_at ring buf.ptr buf.len m) _ made in
      length-drop_at buf.ptr buf.len wiped m' second ∙ length-wipe_at buf.ptr buf.len m wiped first

  pub length-msdk_envelope_free :
      (env : EnvelopeBufs) (m m' : Memory ring)
      → msdk_envelope_free ring env m ≡ ok m'
      → length m'.cells + owned_envelope env ≡ length m.cells
  unfolding msdk_envelope_free
  length-msdk_envelope_free env m m' made =
      let (m₁, e₁, h₁) = >>=-eq-ok (msdk_free ring env.binding_id m) _ made in
      let (m₂, e₂, h₂) = >>=-eq-ok (msdk_free ring env.capsule m₁) _ h₁ in
      let (m₃, e₃, h₃) = >>=-eq-ok (msdk_free ring env.proof m₂) _ h₂ in
      omega (
        arith,
        length-msdk_free env.binding_id m m₁ e₁,
        length-msdk_free env.capsule m₁ m₂ e₂,
        length-msdk_free env.proof m₂ m₃ e₃,
        length-msdk_free env.ct m₃ m' h₃,
      )

  pub length-msdk_apikey_free :
      (p : Pointer) (m m' : Memory ring)
      → msdk_apikey_free ring p m ≡ ok m'
      → length m'.cells + given_back {ring = ring} (free_key p) ≡ length m.cells
  unfolding msdk_apikey_free read_key
  length-msdk_apikey_free null m m' made = ground arith
  length-msdk_apikey_free dangling m m' made = absurd (ground arith)
  length-msdk_apikey_free (address a) m m' made =
      let (k, read, freed) = >>=-eq-ok (unboxed ring (find_cell ring a m.cells)) _ made in
      let (c, there) = unboxed-found (find_cell ring a m.cells) k read in
      ground (arith, length-remove_cell a m.cells c)
