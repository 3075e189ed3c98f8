-- ===== src/Ffi/Handles/Steps.antt =====
-- What allocating and freeing preserve, every call preserves, and every sequence of calls.
use matter_sdk.Common.{
  ℕ, ◌≡◌, refl, subst, Bool, true, false, List, [], ◌∷◌, Option, none, some, Result, ok, err,
  >>=-eq-ok, All, arith,
}
use matter_sdk.Core.Crypto.{Bytes}
use matter_sdk.Key.ApiKey.{KeyRing, ApiKey}
use matter_sdk.Ffi.{Status, success, failure, Failure, MsdkEnvelope}
use matter_sdk.Ffi.Memory.{
  Pointer, null, dangling, address, MsdkBuf, EnvelopeBufs, Undefined, Allocator, boxed_key,
  boxed_bytes, Memory, allocate, into_buf, deliver, deliver_envelope, msdk_free, msdk_envelope_free,
}
use matter_sdk.Ffi.Handles.{
  key_of, read_key, msdk_apikey_free, Call, parse_key, free_key, account_id, scheme, sign_with,
  core_call, encrypt_call, free_buf, free_envelope, Reply, issue, write_buf, with_key, silent,
  as_buffer, as_envelope, execute, run,
}

-- `P` is preserved where memory is allocated, and where it is freed by a call that meets `Q`.
pub record Keeps (ring : KeyRing) (alloc : Allocator) (P : Memory ring → Type 0)
    (Q : Call ring → Type 0) : Type 0 where
  pub key : (k : ApiKey ring) (m : Memory ring) → P m → P (allocate ring alloc (boxed_key k) m).1
  pub bytes :
      (b : ℕ) (bs : Bytes) (m : Memory ring)
      → P m
      → P (allocate ring alloc (boxed_bytes (b ∷ bs)) m).1
  pub dropped_key :
      (p : Pointer) (m m' : Memory ring)
      → Q (free_key p)
      → P m
      → msdk_apikey_free ring p m ≡ ok m'
      → P m'
  pub dropped : (buf : MsdkBuf) (m m' : Memory ring) → P m → msdk_free ring buf m ≡ ok m' → P m'

module _ (ring : KeyRing) (P : Memory ring → Type 0) where
  returned-keeps :
      {A : Type 0} (pair : A × Memory ring) {out : A × Memory ring}
      → P pair.1
      → ◌≡◌ {A = Result Undefined (A × Memory ring)} (ok pair) (ok out)
      → P out.1
  returned-keeps pair {out} p made = let same : pair.1 ≡ out.1 = ground arith in subst P same p

  silent-keeps :
      (r : Result Undefined (Memory ring)) {out : Reply ring × Memory ring}
      → ((m' : Memory ring) → r ≡ ok m' → P m')
      → silent ring r ≡ ok out
      → P out.1
  silent-keeps (err u) kept made = absurd (ground arith)
  silent-keeps (ok m') {out} kept made =
      let same : m' ≡ out.1 = ground arith in subst P same (kept m' refl)

  module _ (alloc : Allocator) (Q : Call ring → Type 0) (keeps : Keeps ring alloc P Q) where
    into_buf-keeps : (bytes : Bytes) (m : Memory ring) → P m → P (into_buf ring alloc bytes m).1
    unfolding into_buf
    into_buf-keeps [] m p = p
    into_buf-keeps (b ∷ bs) m p = keeps.bytes b bs m p

    deliver-keeps :
        (status : Status) (out : Option Bytes) (m : Memory ring)
        → P m
        → P (deliver ring alloc (status, out) m).1
    unfolding deliver
    deliver-keeps status none m p = p
    deliver-keeps (failure f) (some bytes) m p = p
    deliver-keeps success (some bytes) m p = into_buf-keeps bytes m p

    deliver_envelope-keeps :
        (status : Status) (out : Option MsdkEnvelope) (m : Memory ring)
        → P m
        → P (deliver_envelope ring alloc (status, out) m).1
    unfolding deliver_envelope
    deliver_envelope-keeps status none m p = p
    deliver_envelope-keeps (failure f) (some env) m p = p
    deliver_envelope-keeps success (some env) m p = into_buf-keeps env.ct _ (
        into_buf-keeps env.proof _
          (into_buf-keeps env.capsule _ (into_buf-keeps env.binding_id m p)))

    issue-keeps :
        (r : Result Failure (ApiKey ring)) (m : Memory ring) → P m → P (issue ring alloc r m).1
    unfolding issue
    issue-keeps (err f) m p = p
    issue-keeps (ok k) m p = keeps.key k m p

    write_buf-keeps :
        (r : Result Failure Bytes) (m : Memory ring) → P m → P (write_buf ring alloc r m).1
    unfolding write_buf
    write_buf-keeps (err f) m p = p
    write_buf-keeps (ok bytes) m p = into_buf-keeps bytes m p

    with_key-keeps :
        (null_out : Bool) (key : Pointer) (argument : Option Bytes)
        (f : ApiKey ring → Bytes → Result Failure Bytes) (m : Memory ring)
        {out : Reply ring × Memory ring}
        → P m
        → with_key ring alloc null_out key argument f m ≡ ok out
        → P out.1
    unfolding with_key
    with_key-keeps true key argument f m p made = returned-keeps _ p made
    with_key-keeps false null argument f m p made = returned-keeps _ p made
    with_key-keeps false dangling none f m p made = returned-keeps _ p made
    with_key-keeps false (address a) none f m p made = returned-keeps _ p made
    with_key-keeps false dangling (some bytes) f m p made = absurd (ground arith)
    with_key-keeps false (address a) (some bytes) f m p made =
        let (found, _, rest) = >>=-eq-ok (read_key ring (address a) m) _ made in
        returned-keeps _ (write_buf-keeps (f found bytes) m p) rest

    envelope-keeps :
        (env : EnvelopeBufs) (m m' : Memory ring)
        → P m
        → msdk_envelope_free ring env m ≡ ok m'
        → P m'
    unfolding msdk_envelope_free
    envelope-keeps env m m' p made =
        let (m₁, e₁, h₁) = >>=-eq-ok (msdk_free ring env.binding_id m) _ made in
        let (m₂, e₂, h₂) = >>=-eq-ok (msdk_free ring env.capsule m₁) _ h₁ in
        let (m₃, e₃, h₃) = >>=-eq-ok (msdk_free ring env.proof m₂) _ h₂ in
        let p₁ = keeps.dropped env.binding_id m m₁ p e₁ in
        let p₂ = keeps.dropped env.capsule m₁ m₂ p₁ e₂ in
        keeps.dropped env.ct m₃ m' (keeps.dropped env.proof m₂ m₃ p₂ e₃) h₃

    execute-keeps :
        (c : Call ring) (m : Memory ring) {out : Reply ring × Memory ring}
        → Q c
        → P m
        → execute ring alloc c m ≡ ok out
        → P out.1
    unfolding execute
    execute-keeps (parse_key true text) m q p made = returned-keeps _ p made
    execute-keeps (parse_key false text) m q p made =
        returned-keeps _ (issue-keeps (key_of ring text) m p) made
    execute-keeps (free_key key) m q p made =
        silent-keeps (msdk_apikey_free ring key m) (λ m' e. keeps.dropped_key key m m' q p e) made
    execute-keeps (account_id null_out key) m q p made = with_key-keeps null_out key _ _ m p made
    execute-keeps (scheme null_out key) m q p made = with_key-keeps null_out key _ _ m p made
    execute-keeps (sign_with null_out key message) m q p made =
        with_key-keeps null_out key _ _ m p made
    execute-keeps (core_call (status, out)) m q p made =
        returned-keeps (as_buffer ring status (deliver ring alloc (status, out) m))
          (deliver-keeps status out m p) made
    execute-keeps (encrypt_call (status, out)) m q p made =
        returned-keeps (as_envelope ring status (deliver_envelope ring alloc (status, out) m))
          (deliver_envelope-keeps status out m p) made
    execute-keeps (free_buf buf) m q p made =
        silent-keeps (msdk_free ring buf m) (λ m' e. keeps.dropped buf m m' p e) made
    execute-keeps (free_envelope env) m q p made =
        silent-keeps (msdk_envelope_free ring env m) (λ m' e. envelope-keeps env m m' p e) made

    pub run-keeps :
        (calls : List (Call ring)) (m : Memory ring) {out : List (Reply ring) × Memory ring}
        → All Q calls
        → P m
        → run ring alloc calls m ≡ ok out
        → P out.1
    unfolding run
    run-keeps [] m q p made = returned-keeps ([], m) p made
    run-keeps (c ∷ cs) m (here, later) p made =
        let (first, e₁, h₁) = >>=-eq-ok (execute ring alloc c m) _ made in
        let (rest, e₂, h₂) = >>=-eq-ok (run ring alloc cs first.1) _ h₁ in
        returned-keeps (first.0 ∷ rest.0, rest.1)
          (run-keeps cs first.1 later (execute-keeps c m here p e₁) e₂) h₂
