-- ===== src/Ffi/Handles.antt =====
-- crates/matter-sdk-ffi/src/apikey.rs: API keys behind opaque handles, and the calls of the C
-- interface that allocate, use or free memory, in any order.
pub mod Steps
pub mod Kept
pub mod Wiped
pub mod Counts
pub mod Balance
mod Tests
use matter_sdk.Common.{
  ℕ, ◌+◌, Bool, true, false, List, [], ◌∷◌, Option, none, some, codes, take, from_utf8, ◌==◌,
  if◌then◌else◌, Result, ok, err, ◌>>=◌, ◌>>◌, ok_or, map_err,
}
use matter_sdk.Core.Crypto.{Bytes}
use matter_sdk.Key.Scheme.{as_str}
use matter_sdk.Key.ApiKey.{KeyRing, ApiKey, parse, sign}
use matter_sdk.Ffi.{
  Status, success, failure, Failure, invalid_arg, bad_key, Span, as_slice, MsdkEnvelope,
}
use matter_sdk.Ffi.Memory.{
  Pointer, null, dangling, address, MsdkBuf, EnvelopeBufs, empty_buf, Undefined, invalid_access,
  Allocator, Cell, boxed_key, boxed_bytes, Memory, find_cell, remove_cell, allocate, into_buf,
  deliver, deliver_envelope, msdk_free, msdk_envelope_free,
}

module _ (ring : KeyRing) where
  -- The arguments of `msdk_apikey_parse`, up to the key. A null pointer is refused whatever its
  -- length.
  unfoldable pub key_text : Option Bytes → ℕ → Option Bytes
  key_text none len = none
  key_text (some readable) len = some (take len readable)

  unfoldable pub key_of : Span ℕ → Result Failure (ApiKey ring)
  unfolding key_text
  key_of text = do
    bytes ← ok_or (key_text text.ptr text.len) invalid_arg
    chars ← ok_or (from_utf8 bytes) invalid_arg
    map_err (λ _. bad_key) (parse ring chars)

  -- `&*key`.
  unfoldable pub unboxed : Option (Cell ring) → Result Undefined (ApiKey ring)
  unboxed none = err invalid_access
  unboxed (some (boxed_bytes bytes)) = err invalid_access
  unboxed (some (boxed_key k)) = ok k

  unfoldable pub read_key : Pointer → Memory ring → Result Undefined (ApiKey ring)
  unfolding unboxed
  read_key null m = err invalid_access
  read_key dangling m = err invalid_access
  read_key (address a) m = unboxed (find_cell ring a m.cells)

  unfoldable pub msdk_apikey_free : Pointer → Memory ring → Result Undefined (Memory ring)
  unfolding read_key
  msdk_apikey_free null m = ok m
  msdk_apikey_free dangling m = err invalid_access
  msdk_apikey_free (address a) m = do
    k ← read_key (address a) m
    ok (record m { cells = remove_cell ring a m.cells })

  -- The calls of the interface; a call of a function over the core is what that function answers.
  pub data Call : Type 0 where
    parse_key : Bool → Span ℕ → Call
    free_key : Pointer → Call
    account_id scheme : Bool → Pointer → Call
    sign_with : Bool → Pointer → Span ℕ → Call
    core_call : Status × Option Bytes → Call
    encrypt_call : Status × Option MsdkEnvelope → Call
    free_buf : MsdkBuf → Call
    free_envelope : EnvelopeBufs → Call

  -- The status, and what was written to `*out`.
  pub data Reply : Type 0 where
    handle : Status → Option Pointer → Reply
    buffer : Status → Option MsdkBuf → Reply
    envelope : Status → Option EnvelopeBufs → Reply
    no_reply : Reply

  abbrev pub silent : Result Undefined (Memory ring) → Result Undefined (Reply × Memory ring)
  silent r = r >>= λ m. ok (no_reply, m)

  abbrev pub as_buffer : Status → Option MsdkBuf × Memory ring → Reply × Memory ring
  as_buffer status (buf, m) = (buffer status buf, m)

  abbrev pub as_envelope : Status → Option EnvelopeBufs × Memory ring → Reply × Memory ring
  as_envelope status (env, m) = (envelope status env, m)

  module _ (alloc : Allocator) where
    unfoldable pub issue : Result Failure (ApiKey ring) → Memory ring → Reply × Memory ring
    unfolding allocate
    issue (err f) m = (handle (failure f) (some null), m)
    issue (ok k) m =
        let (p, m') = allocate ring alloc (boxed_key k) m in (handle success (some p), m')

    unfoldable pub msdk_apikey_parse : Bool → Span ℕ → Memory ring → Reply × Memory ring
    unfolding key_of issue
    msdk_apikey_parse true text m = (handle (failure invalid_arg) none, m)
    msdk_apikey_parse false text m = issue (key_of text) m

    unfoldable pub write_buf : Result Failure Bytes → Memory ring → Reply × Memory ring
    unfolding into_buf
    write_buf (err f) m = (buffer (failure f) (some empty_buf), m)
    write_buf (ok bytes) m =
        let (buf, m') = into_buf ring alloc bytes m in (buffer success (some buf), m')

    -- The shape of the three functions that read a key; `argument` is what they read beside it.
    unfoldable pub with_key :
        Bool
        → Pointer
        → Option Bytes
        → (ApiKey ring → Bytes → Result Failure Bytes)
        → Memory ring
        → Result Undefined (Reply × Memory ring)
    unfolding read_key write_buf
    with_key true key argument f m = ok (buffer (failure invalid_arg) none, m)
    with_key false null argument f m = ok (buffer (failure invalid_arg) (some empty_buf), m)
    with_key false dangling none f m = ok (buffer (failure invalid_arg) (some empty_buf), m)
    with_key false (address a) none f m = ok (buffer (failure invalid_arg) (some empty_buf), m)
    with_key false dangling (some bytes) f m = err invalid_access
    with_key false (address a) (some bytes) f m = do
      k ← read_key (address a) m
      ok (write_buf (f k bytes) m)

    unfoldable pub msdk_apikey_account_id :
        Bool → Pointer → Memory ring → Result Undefined (Reply × Memory ring)
    unfolding with_key
    msdk_apikey_account_id null_out key m =
        with_key null_out key (some []) (λ k bytes. ok k.account.bytes) m

    unfoldable pub msdk_apikey_scheme :
        Bool → Pointer → Memory ring → Result Undefined (Reply × Memory ring)
    unfolding with_key
    msdk_apikey_scheme null_out key m =
        with_key null_out key (some []) (λ k bytes. ok (codes (as_str k.scheme))) m

    unfoldable pub msdk_apikey_sign :
        Bool → Pointer → Span ℕ → Memory ring → Result Undefined (Reply × Memory ring)
    unfolding with_key as_slice
    msdk_apikey_sign null_out key message m =
        with_key null_out key (as_slice message.ptr message.len)
          (λ k bytes. map_err (λ _. bad_key) (sign ring k bytes)) m

    unfoldable pub execute : Call → Memory ring → Result Undefined (Reply × Memory ring)
    unfolding msdk_apikey_parse msdk_apikey_free msdk_apikey_account_id msdk_apikey_scheme
        msdk_apikey_sign
    execute (parse_key null_out text) m = ok (msdk_apikey_parse null_out text m)
    execute (free_key key) m = silent (msdk_apikey_free key m)
    execute (account_id null_out key) m = msdk_apikey_account_id null_out key m
    execute (scheme null_out key) m = msdk_apikey_scheme null_out key m
    execute (sign_with null_out key message) m = msdk_apikey_sign null_out key message m
    execute (core_call (status, out)) m = ok (as_buffer status (deliver ring alloc (status, out) m))
    execute (encrypt_call (status, out)) m =
        ok (as_envelope status (deliver_envelope ring alloc (status, out) m))
    execute (free_buf buf) m = silent (msdk_free ring buf m)
    execute (free_envelope env) m = silent (msdk_envelope_free ring env m)

    -- Calls one after the other, with their replies.
    unfoldable pub run : List Call → Memory ring → Result Undefined (List Reply × Memory ring)
    unfolding execute
    run [] m = ok ([], m)
    run (c ∷ cs) m = do first ← execute c m; rest ← run cs first.1; ok (first.0 ∷ rest.0, rest.1)
