-- ===== src/Ffi/Handles/Kept.antt =====
-- A handle stands for the key that it was parsed to until it is freed, whatever is called between.
use matter_sdk.Common.{
  take-length, length, ℕ, ◌≡◌, ◌≢◌, refl, ap, ◌∙◌, false, List, [], ◌∷◌, some, ◌==◌, Result, ok,
  err, >>=-eq-ok, map_err, All, arith, Bool-cases, inl, inr,
}
use matter_sdk.Core.Crypto.{Bytes}
use matter_sdk.Key.ApiKey.{KeyRing, ApiKey, sign}
use matter_sdk.Ffi.{success, Failure, bad_key, Span, as_slice}
use matter_sdk.Ffi.Memory.{
  Pointer, null, dangling, address, MsdkBuf, Allocator, AllocatorLaws, Cell, boxed_key, boxed_bytes,
  Memory, find_cell, put_cell, remove_cell, addresses, allocate, zeroize, bytes_of, wipe_at, wipe,
  drop_at, msdk_free,
}
use matter_sdk.Ffi.Handles.Steps.{Keeps, run-keeps}
use matter_sdk.Ffi.Handles.{
  key_of, unboxed, read_key, msdk_apikey_free, Call, free_key, Reply, handle, issue,
  msdk_apikey_parse, write_buf, with_key, msdk_apikey_account_id, msdk_apikey_sign, run,
}

-- The call does not free the handle.
abbrev pub Spares : (ring : KeyRing) → ℕ → Call ring → Type 0
Spares ring h c = c ≢ free_key (address h)

module _ (ring : KeyRing) (h : ℕ) (k : ApiKey ring) where
  -- The handle `h` is live, and holds the key `k`.
  Holds : Memory ring → Type 0
  Holds m = find_cell ring h m.cells ≡ some (boxed_key k)

  put_cell-Holds :
      (a : ℕ) (new : Cell ring) (cells : List (ℕ × Cell ring))
      → a ≢ h
      → find_cell ring h (put_cell ring a new cells) ≡ find_cell ring h cells
  unfolding find_cell put_cell
  put_cell-Holds a new [] other = refl
  put_cell-Holds a new ((b, c) ∷ rest) other = ground (arith, put_cell-Holds a new rest other)

  remove_cell-Holds :
      (a : ℕ) (cells : List (ℕ × Cell ring))
      → a ≢ h
      → find_cell ring h (remove_cell ring a cells) ≡ find_cell ring h cells
  unfolding find_cell remove_cell
  remove_cell-Holds a [] other = refl
  remove_cell-Holds a ((b, c) ∷ rest) other = ground (arith, remove_cell-Holds a rest other)

  -- A live address is not picked again.
  found-live :
      (cells : List (ℕ × Cell ring)) (c : Cell ring) (fresh : ℕ)
      → find_cell ring h cells ≡ some c
      → All (λ a. a ≢ fresh) (addresses ring cells)
      → h ≢ fresh
  unfolding find_cell
  found-live [] c fresh e apart = absurd (ground arith)
  found-live ((b, d) ∷ rest) c fresh e (first, others) = elim (Bool-cases (b == h)) [
    | inl same ↦ λ q. first (ground arith)
    | inr other ↦ found-live rest c fresh (ground arith) others
  ]

  module _ (alloc : Allocator) (laws : AllocatorLaws alloc) where
    allocate-Holds : (c : Cell ring) (m : Memory ring) → Holds m → Holds (allocate ring alloc c m).1
    unfolding Holds allocate find_cell
    allocate-Holds c m e =
        let apart : h ≢ alloc (addresses ring m.cells) =
          found-live m.cells (boxed_key k) _ e (laws.unused (addresses ring m.cells)) in
        ground arith

  -- A buffer that is wiped or freed is no key.
  zeroize-other :
      (a len : ℕ) (m : Memory ring) (c : Cell ring)
      → Holds m
      → zeroize ring len (find_cell ring a m.cells) ≡ ok c
      → a ≢ h
  unfolding Holds zeroize
  zeroize-other a len m c e made same =
      let key : find_cell ring a m.cells ≡ some (boxed_key k) =
        ap (λ b. find_cell ring b m.cells) same ∙ e in
      absurd (ground arith)

  bytes_of-other :
      (a len : ℕ) (m : Memory ring) (bytes : Bytes)
      → Holds m
      → bytes_of ring len (find_cell ring a m.cells) ≡ ok bytes
      → a ≢ h
  unfolding Holds bytes_of
  bytes_of-other a len m bytes e made same =
      let key : find_cell ring a m.cells ≡ some (boxed_key k) =
        ap (λ b. find_cell ring b m.cells) same ∙ e in
      absurd (ground arith)

  wipe_at-Holds :
      (p : Pointer) (len : ℕ) (m : Memory ring) {m' : Memory ring}
      → Holds m
      → wipe_at ring p len m ≡ ok m'
      → Holds m'
  unfolding Holds wipe_at
  wipe_at-Holds null len m e made = ground arith
  wipe_at-Holds dangling len m e made = ground arith
  wipe_at-Holds (address a) len m e made = elim (Bool-cases (len == 0)) [
    | inl zero_len ↦ ground arith
    | inr more ↦
        let (c, cleared, rest) =
          >>=-eq-ok (zeroize ring len (find_cell ring a m.cells)) _ (rw more at made) in
        let kept : find_cell ring h (put_cell ring a c m.cells) ≡ find_cell ring h m.cells =
          put_cell-Holds a c m.cells (zeroize-other a len m c e cleared) in
        ground arith
  ]

  drop_at-Holds :
      (p : Pointer) (len : ℕ) (m : Memory ring) {m' : Memory ring}
      → Holds m
      → drop_at ring p len m ≡ ok m'
      → Holds m'
  unfolding Holds drop_at
  drop_at-Holds null len m e made = ground arith
  drop_at-Holds dangling len m e made = ground arith
  drop_at-Holds (address a) len m e made = elim (Bool-cases (len == 0)) [
    | inl zero_len ↦ ground arith
    | inr more ↦
        let (bytes, owned, rest) =
          >>=-eq-ok (bytes_of ring len (find_cell ring a m.cells)) _ (rw more at made) in
        let kept : find_cell ring h (remove_cell ring a m.cells) ≡ find_cell ring h m.cells =
          remove_cell-Holds a m.cells (bytes_of-other a len m bytes e owned) in
        ground arith
  ]

  msdk_free-Holds :
      (buf : MsdkBuf) (m : Memory ring) {m' : Memory ring}
      → Holds m
      → msdk_free ring buf m ≡ ok m'
      → Holds m'
  unfolding msdk_free wipe
  msdk_free-Holds buf m e made =
      let (wiped, first, second) = >>=-eq-ok (wipe_at ring buf.ptr buf.len m) _ made in
      drop_at-Holds buf.ptr buf.len wiped (wipe_at-Holds buf.ptr buf.len m e first) second

  msdk_apikey_free-Holds :
      (p : Pointer) (m : Memory ring) {m' : Memory ring}
      → p ≢ address h
      → Holds m
      → msdk_apikey_free ring p m ≡ ok m'
      → Holds m'
  unfolding Holds msdk_apikey_free
  msdk_apikey_free-Holds null m other e made = ground arith
  msdk_apikey_free-Holds dangling m other e made = absurd (ground arith)
  msdk_apikey_free-Holds (address a) m other e made =
      let (found, _, rest) = >>=-eq-ok (read_key ring (address a) m) _ made in
      let kept : find_cell ring h (remove_cell ring a m.cells) ≡ find_cell ring h m.cells =
        remove_cell-Holds a m.cells (λ q. other (ap address q)) in
      ground arith

  keeps_key : (alloc : Allocator) → AllocatorLaws alloc → Keeps ring alloc Holds (Spares ring h)
  keeps_key alloc laws = record {
    key = λ other m e. allocate-Holds alloc laws (boxed_key other) m e;
    bytes = λ b bs m e. allocate-Holds alloc laws (boxed_bytes (b ∷ bs)) m e;
    dropped_key =
        λ p m m' spared e made. msdk_apikey_free-Holds p m (λ q. spared (ap free_key q)) e made;
    dropped = λ buf m m' e made. msdk_free-Holds buf m e made;
  }

-- A key that is issued is behind its handle.
issue-Holds_new :
    (ring : KeyRing) (alloc : Allocator) (r : Result Failure (ApiKey ring)) (m m' : Memory ring)
    (h : ℕ)
    → issue ring alloc r m ≡ (handle success (some (address h)), m')
    → (k : ApiKey ring) × (r ≡ ok k) × (find_cell ring h m'.cells ≡ some (boxed_key k))
unfolding issue allocate find_cell
issue-Holds_new ring alloc (err f) m m' h made = absurd (ground arith)
issue-Holds_new ring alloc (ok k) m m' h made = (k, refl, ground arith)

read_key-Holds :
    (ring : KeyRing) (h : ℕ) (m : Memory ring) (k : ApiKey ring)
    → find_cell ring h m.cells ≡ some (boxed_key k)
    → read_key ring (address h) m ≡ ok k
unfolding read_key unboxed
read_key-Holds ring h m k e = rw e

-- A handle that `msdk_apikey_parse` returned stands, until it is freed, for the key that the text is
-- parsed to: after any calls that do not free it, it answers with the account id of that key, and
-- signs every message with it. The allocator is assumed to pick addresses that are not in use.
pub handle_keeps_key :
    (ring : KeyRing) (alloc : Allocator)
    → AllocatorLaws alloc
    → (text : Span ℕ) (h : ℕ) (before issued after : Memory ring) (calls : List (Call ring))
      (replies : List (Reply ring))
    → msdk_apikey_parse ring alloc false text before ≡ (handle success (some (address h)), issued)
    → All (Spares ring h) calls
    → run ring alloc calls issued ≡ ok (replies, after)
    → (k : ApiKey ring) × (key_of ring text ≡ ok k)
      × (msdk_apikey_account_id ring alloc false (address h) after
          ≡ ok (write_buf ring alloc (ok k.account.bytes) after))
      × ((message : Bytes)
          → msdk_apikey_sign ring alloc false
              (address h)
              (record { ptr = some message; len = length message })
              after
            ≡ ok (write_buf ring alloc (map_err (λ _. bad_key) (sign ring k message)) after))
unfolding msdk_apikey_account_id msdk_apikey_sign msdk_apikey_parse with_key as_slice Holds
handle_keeps_key ring alloc laws text h before issued after calls replies parsed spared done =
    let (k, made, e) = issue-Holds_new ring alloc (key_of ring text) before issued h parsed in
    let kept : find_cell ring h after.cells ≡ some (boxed_key k) =
      run-keeps ring (Holds ring h k) alloc (Spares ring h) (keeps_key ring h k alloc laws) calls
        issued spared e done in
    (
      k,
      made,
      rw (read_key-Holds ring h after k kept),
      λ message. rw (take-length message, read_key-Holds ring h after k kept),
    )
