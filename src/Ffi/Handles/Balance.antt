-- ===== src/Ffi/Handles/Balance.antt =====
-- The library keeps no allocation to itself: what is live is what callers hold.
use matter_sdk.Common.{
  ℕ, ◌+◌, ◌≡◌, refl, subst, Bool, true, false, List, [], ◌∷◌, Option, none, some, Result, ok, err,
  >>=-eq-ok, arith, length,
}
use matter_sdk.Core.Crypto.{Bytes}
use matter_sdk.Key.ApiKey.{KeyRing, ApiKey}
use matter_sdk.Ffi.{Status, success, failure, Failure, invalid_arg, Span, MsdkEnvelope}
use matter_sdk.Ffi.Memory.{
  Pointer, null, dangling, address, Undefined, Allocator, Memory, allocate, into_buf, deliver,
  deliver_envelope, msdk_free, msdk_envelope_free,
}
use matter_sdk.Ffi.Handles.{
  key_of, read_key, msdk_apikey_free, Call, parse_key, free_key, account_id, scheme, sign_with,
  core_call, encrypt_call, free_buf, free_envelope, Reply, handle, buffer, envelope, no_reply,
  issue, write_buf, with_key, silent, as_buffer, as_envelope, execute, run,
}
use matter_sdk.Ffi.Handles.Counts.{
  owned, handed, given_back, all_handed, all_given_back, length-msdk_free,
  length-msdk_envelope_free, length-msdk_apikey_free,
}

module _ (ring : KeyRing) where
  module _ (alloc : Allocator) where
    length-into_buf :
        (bytes : Bytes) (m : Memory ring)
        → length (into_buf ring alloc bytes m).1.cells
          ≡ length m.cells + owned (into_buf ring alloc bytes m).0
    unfolding into_buf allocate
    length-into_buf [] m = omega arith
    length-into_buf (b ∷ bs) m = ground arith

    -- A call leaves as many live allocations more as its reply hands out and less as it gives back.
    Balanced : Call ring → Memory ring → Reply ring × Memory ring → Type 0
    Balanced c m out = length out.1.cells + given_back c ≡ length m.cells + handed out.0

    returned-Balanced :
        (c : Call ring) (m : Memory ring) (pair : Reply ring × Memory ring)
        {out : Reply ring × Memory ring}
        → Balanced c m pair
        → ◌≡◌ {A = Result Undefined (Reply ring × Memory ring)} (ok pair) (ok out)
        → Balanced c m out
    returned-Balanced c m pair {out} b made =
        let same : pair ≡ out = ground arith in subst (Balanced c m) same b

    silent-Balanced :
        (c : Call ring) (m : Memory ring) (r : Result Undefined (Memory ring))
        {out : Reply ring × Memory ring}
        → ((m' : Memory ring) → r ≡ ok m' → length m'.cells + given_back c ≡ length m.cells)
        → silent ring r ≡ ok out
        → Balanced c m out
    unfolding Balanced
    silent-Balanced c m (err u) counted made = absurd (ground arith)
    silent-Balanced c m (ok m') counted made =
        returned-Balanced c m (no_reply, m') (omega (arith, counted m' refl)) made

    length-deliver :
        (status : Status) (out : Option Bytes) (m : Memory ring)
        → length (deliver ring alloc (status, out) m).1.cells
          ≡ length m.cells
            + handed {ring = ring} (buffer status (deliver ring alloc (status, out) m).0)
    unfolding deliver
    length-deliver status none m = omega arith
    length-deliver (failure f) (some bytes) m = omega arith
    length-deliver success (some bytes) m = length-into_buf bytes m

    length-deliver_envelope :
        (status : Status) (out : Option MsdkEnvelope) (m : Memory ring)
        → length (deliver_envelope ring alloc (status, out) m).1.cells
          ≡ length m.cells
            + handed {ring = ring} (envelope status (deliver_envelope ring alloc (status, out) m).0)
    unfolding deliver_envelope
    length-deliver_envelope status none m = omega arith
    length-deliver_envelope (failure f) (some env) m = omega arith
    length-deliver_envelope success (some env) m =
        let (b, m₁) = into_buf ring alloc env.binding_id m in
        let (c, m₂) = into_buf ring alloc env.capsule m₁ in
        let (p, m₃) = into_buf ring alloc env.proof m₂ in
        omega (
          arith,
          length-into_buf env.binding_id m,
          length-into_buf env.capsule m₁,
          length-into_buf env.proof m₂,
          length-into_buf env.ct m₃,
        )

    issue-Balanced :
        (text : Span ℕ) (r : Result Failure (ApiKey ring)) (m : Memory ring)
        → Balanced (parse_key false text) m (issue ring alloc r m)
    unfolding Balanced issue allocate
    issue-Balanced text (err f) m = omega arith
    issue-Balanced text (ok k) m = omega arith

    length-write_buf :
        (r : Result Failure Bytes) (m : Memory ring)
        → length (write_buf ring alloc r m).1.cells
          ≡ length m.cells + handed (write_buf ring alloc r m).0
    unfolding write_buf
    length-write_buf (err f) m = omega arith
    length-write_buf (ok bytes) m = length-into_buf bytes m

    with_key-Balanced :
        (c : Call ring) (null_out : Bool) (key : Pointer) (argument : Option Bytes)
        (f : ApiKey ring → Bytes → Result Failure Bytes) (m : Memory ring)
        {out : Reply ring × Memory ring}
        → given_back c ≡ 0
        → with_key ring alloc null_out key argument f m ≡ ok out
        → Balanced c m out
    unfolding Balanced with_key
    with_key-Balanced c true key argument f m free made = ground arith
    with_key-Balanced c false null argument f m free made = ground arith
    with_key-Balanced c false dangling none f m free made = ground arith
    with_key-Balanced c false (address a) none f m free made = ground arith
    with_key-Balanced c false dangling (some bytes) f m free made = absurd (ground arith)
    with_key-Balanced c false (address a) (some bytes) f m free made =
        let (found, _, rest) = >>=-eq-ok (read_key ring (address a) m) _ made in
        returned-Balanced c m (write_buf ring alloc (f found bytes) m)
          (omega (arith, free, length-write_buf (f found bytes) m)) rest

    execute-Balanced :
        (c : Call ring) (m : Memory ring) {out : Reply ring × Memory ring}
        → execute ring alloc c m ≡ ok out
        → Balanced c m out
    unfolding execute
    execute-Balanced (parse_key true text) m made =
        returned-Balanced (parse_key true text) m (handle (failure invalid_arg) none, m)
          (unfold Balanced in omega arith) made
    execute-Balanced (parse_key false text) m made =
        returned-Balanced _ m _ (issue-Balanced text (key_of ring text) m) made
    execute-Balanced (free_key key) m made =
        silent-Balanced (free_key key) m (msdk_apikey_free ring key m)
          (λ m' e. length-msdk_apikey_free ring key m m' e) made
    execute-Balanced (account_id null_out key) m made =
        with_key-Balanced (account_id null_out key) null_out key _ _ m refl made
    execute-Balanced (scheme null_out key) m made =
        with_key-Balanced (scheme null_out key) null_out key _ _ m refl made
    execute-Balanced (sign_with null_out key message) m made =
        with_key-Balanced (sign_with null_out key message) null_out key _ _ m refl made
    execute-Balanced (core_call (status, out)) m made =
        returned-Balanced (core_call (status, out)) m
          (as_buffer ring status (deliver ring alloc (status, out) m))
          (unfold Balanced in omega (arith, length-deliver status out m)) made
    execute-Balanced (encrypt_call (status, out)) m made =
        returned-Balanced (encrypt_call (status, out)) m
          (as_envelope ring status (deliver_envelope ring alloc (status, out) m))
          (unfold Balanced in omega (arith, length-deliver_envelope status out m)) made
    execute-Balanced (free_buf buf) m made =
        silent-Balanced (free_buf buf) m (msdk_free ring buf m)
          (λ m' e. length-msdk_free ring buf m m' e) made
    execute-Balanced (free_envelope env) m made =
        silent-Balanced (free_envelope env) m (msdk_envelope_free ring env m)
          (λ m' e. length-msdk_envelope_free ring env m m' e) made

    -- Whatever is called, in whatever order, the allocations that are live afterwards are as many as
    -- were live before, more by those that the replies handed out and less by those that the calls
    -- gave back: no call, on no path, keeps an allocation from its caller.
    pub run-balance :
        (calls : List (Call ring)) (before after : Memory ring) (replies : List (Reply ring))
        → run ring alloc calls before ≡ ok (replies, after)
        → length after.cells + all_given_back calls ≡ length before.cells + all_handed replies
    unfolding run all_given_back all_handed
    run-balance [] before after replies made = ground arith
    run-balance (c ∷ cs) before after replies made =
        let (first, e₁, h₁) = >>=-eq-ok (execute ring alloc c before) _ made in
        let (rest, e₂, h₂) = >>=-eq-ok (run ring alloc cs first.1) _ h₁ in
        let one : length first.1.cells + given_back c ≡ length before.cells + handed first.0 =
          unfold Balanced in execute-Balanced c before e₁ in
        let more : length rest.1.cells + all_given_back cs
            ≡ length first.1.cells + all_handed rest.0 =
          run-balance cs first.1 rest.1 rest.0 e₂ in
        ground arith
