-- ===== src/Ffi/Memory.antt =====
-- crates/matter-sdk-ffi/src/lib.rs: what the library allocates for its caller, and the functions that
-- wipe and free it. A call that uses memory as it must not (a freed, foreign or resized
-- allocation) has no defined result.
use matter_sdk.Common.{
  ℕ, ◌≢◌, List, [], ◌∷◌, ◌++◌, map, Option, none, some, length, drop, replicate, ◌==◌, leb,
  if◌then◌else◌, Result, ok, err, ◌>>=◌, All,
}
use matter_sdk.Core.Crypto.{Bytes}
use matter_sdk.Key.ApiKey.{KeyRing, ApiKey}
use matter_sdk.Ffi.{Status, success, failure, MsdkEnvelope}

-- An empty boxed slice has a pointer that is neither null nor the address of an allocation.
pub data Pointer : Type 0 where
  null dangling : Pointer
  address : ℕ → Pointer

pub record MsdkBuf : Type 0 where
  pub ptr : Pointer
  pub len : ℕ

abbrev pub empty_buf : MsdkBuf
empty_buf = record { ptr = null; len = 0 }

-- The four buffers of an envelope.
pub record EnvelopeBufs : Type 0 where
  pub binding_id : MsdkBuf
  pub capsule : MsdkBuf
  pub proof : MsdkBuf
  pub ct : MsdkBuf

abbrev pub empty_envelope : EnvelopeBufs
empty_envelope = record {
  binding_id = empty_buf;
  capsule = empty_buf;
  proof = empty_buf;
  ct = empty_buf;
}

-- Undefined behaviour.
pub data Undefined : Type 0 where
  invalid_access : Undefined

-- The allocator picks an address from those in use.
abbrev pub Allocator : Type 0
Allocator = List ℕ → ℕ

-- It picks one that is not in use; a freed address may be picked again.
pub record AllocatorLaws (alloc : Allocator) : Type 0 where
  pub unused : (live : List ℕ) → All (λ a. a ≢ alloc live) live

module _ (ring : KeyRing) where
  -- What a `Box` holds.
  pub data Cell : Type 0 where
    boxed_key : ApiKey ring → Cell
    boxed_bytes : Bytes → Cell

  -- The allocations that are live, and the bytes of the buffers that were freed, as they were then.
  pub record Memory : Type 0 where
    pub cells : List (ℕ × Cell)
    pub released : List Bytes

  unfoldable pub find_cell : ℕ → List (ℕ × Cell) → Option Cell
  find_cell a [] = none
  find_cell a ((b, c) ∷ rest) = if b == a then some c else find_cell a rest

  unfoldable pub put_cell : ℕ → Cell → List (ℕ × Cell) → List (ℕ × Cell)
  put_cell a new [] = []
  put_cell a new ((b, c) ∷ rest) = if b == a then (b, new) ∷ rest else (b, c) ∷ put_cell a new rest

  unfoldable pub remove_cell : ℕ → List (ℕ × Cell) → List (ℕ × Cell)
  remove_cell a [] = []
  remove_cell a ((b, c) ∷ rest) = if b == a then rest else (b, c) ∷ remove_cell a rest

  abbrev pub addresses : List (ℕ × Cell) → List ℕ
  addresses = map (λ (cell : ℕ × Cell). cell.0)

  module _ (alloc : Allocator) where
    -- `Box::into_raw(Box::new(…))`.
    unfoldable pub allocate : Cell → Memory → Pointer × Memory
    allocate c m =
        let a = alloc (addresses m.cells) in (address a, record m { cells = (a, c) ∷ m.cells })

    unfoldable pub into_buf : Bytes → Memory → MsdkBuf × Memory
    unfolding allocate
    into_buf [] m = (record { ptr = dangling; len = 0 }, m)
    into_buf (b ∷ bs) m =
        let (p, m') = allocate (boxed_bytes (b ∷ bs)) m in
        (record { ptr = p; len = length (b ∷ bs) }, m')

    -- What a function over the core wrote to `*out`, as a buffer.
    unfoldable pub deliver : Status × Option Bytes → Memory → Option MsdkBuf × Memory
    unfolding into_buf
    deliver (status, none) m = (none, m)
    deliver (failure f, some bytes) m = (some empty_buf, m)
    deliver (success, some bytes) m = let (buf, m') = into_buf bytes m in (some buf, m')

    unfoldable pub deliver_envelope :
        Status × Option MsdkEnvelope → Memory → Option EnvelopeBufs × Memory
    unfolding into_buf
    deliver_envelope (status, none) m = (none, m)
    deliver_envelope (failure f, some env) m = (some empty_envelope, m)
    deliver_envelope (success, some env) m =
        let (b, m₁) = into_buf env.binding_id m in
        let (c, m₂) = into_buf env.capsule m₁ in
        let (p, m₃) = into_buf env.proof m₂ in
        let (t, m₄) = into_buf env.ct m₃ in
        (some (record { binding_id = b; capsule = c; proof = p; ct = t }), m₄)

  -- `slice::from_raw_parts_mut(ptr, len).zeroize()`.
  unfoldable pub zeroize : ℕ → Option Cell → Result Undefined Cell
  zeroize len none = err invalid_access
  zeroize len (some (boxed_key k)) = err invalid_access
  zeroize len (some (boxed_bytes bytes)) =
      if leb len (length bytes)
      then ok (boxed_bytes (replicate len 0 ++ drop len bytes))
      else err invalid_access

  -- `drop(Box::from_raw(…))` of a slice: the length must be that of the allocation.
  unfoldable pub bytes_of : ℕ → Option Cell → Result Undefined Bytes
  bytes_of len none = err invalid_access
  bytes_of len (some (boxed_key k)) = err invalid_access
  bytes_of len (some (boxed_bytes bytes)) =
      if length bytes == len then ok bytes else err invalid_access

  unfoldable pub wipe_at : Pointer → ℕ → Memory → Result Undefined Memory
  unfolding find_cell put_cell zeroize
  wipe_at null len m = ok m
  wipe_at dangling len m = if len == 0 then ok m else err invalid_access
  wipe_at (address a) len m = if len == 0 then ok m else (do
    c ← zeroize len (find_cell a m.cells)
    ok (record m { cells = put_cell a c m.cells }))

  unfoldable pub wipe : MsdkBuf → Memory → Result Undefined Memory
  unfolding wipe_at
  wipe buf m = wipe_at buf.ptr buf.len m

  unfoldable pub drop_at : Pointer → ℕ → Memory → Result Undefined Memory
  unfolding find_cell remove_cell bytes_of
  drop_at null len m = ok m
  drop_at dangling len m = if len == 0 then ok m else err invalid_access
  drop_at (address a) len m = if len == 0 then ok m else (do
    bytes ← bytes_of len (find_cell a m.cells)
    ok (record { cells = remove_cell a m.cells; released = bytes ∷ m.released }))

  unfoldable pub msdk_free : MsdkBuf → Memory → Result Undefined Memory
  unfolding wipe drop_at
  msdk_free buf m = do m' ← wipe buf m; drop_at buf.ptr buf.len m'

  unfoldable pub msdk_envelope_free : EnvelopeBufs → Memory → Result Undefined Memory
  unfolding msdk_free
  msdk_envelope_free env m = do
    m₁ ← msdk_free env.binding_id m
    m₂ ← msdk_free env.capsule m₁
    m₃ ← msdk_free env.proof m₂
    msdk_free env.ct m₃
