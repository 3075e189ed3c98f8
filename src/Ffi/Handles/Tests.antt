-- ===== src/Ffi/Handles/Tests.antt =====
-- A session with one handle: the key is parsed, asked for its account, and freed.
use matter_sdk.Common.{
  ℕ, ◌+◌, ◌≡◌, ◌≢◌, refl, false, List, [], ◌∷◌, some, codes, length, ok, All, All-weaken, arith,
  map_err, from_utf8, split_once, trim,
}
use matter_sdk.Fixtures.{mnemonic_ring as ring}
use matter_sdk.Core.Crypto.{Bytes}
use matter_sdk.Key.ApiKey.{ApiKey, from_keypair, sign, parse, parse_sr25519}
use matter_sdk.Key.Suri.{split}
use matter_sdk.Ffi.{success, bad_key, Span}
use matter_sdk.Ffi.Memory.{
  address, MsdkBuf, Allocator, AllocatorLaws, Memory, boxed_key, find_cell, msdk_free,
}
use matter_sdk.Ffi.Handles.{
  Call, account_id, free_buf, Reply, handle, buffer, no_reply, key_of, msdk_apikey_parse,
  msdk_apikey_account_id, msdk_apikey_sign, write_buf, run,
}
use matter_sdk.Ffi.Handles.Kept.{Spares, handle_keeps_key}
use matter_sdk.Ffi.Handles.Wiped.{Wiped, run-Wiped}
use matter_sdk.Ffi.Handles.Counts.{all_handed, all_given_back}
use matter_sdk.Ffi.Handles.Balance.{run-balance}

-- An address above all that are in use.
abbrev sum : List ℕ → ℕ
sum [] = 0
sum (a ∷ as') = a + sum as'

abbrev alloc : Allocator
alloc live = 1 + (0 + sum live)

above : (extra : ℕ) (live : List ℕ) → All (λ a. a ≢ 1 + (extra + sum live)) live
above extra [] = tt
above extra (a ∷ rest) = (
  λ e. absurd (omega arith),
  All-weaken (λ b. b ≢ 1 + (extra + a + sum rest)) _ (λ b h e. h (omega arith)) rest
      (above (extra + a) rest),
)

abbrev text : Span ℕ
text = record { ptr = some (codes "ab"); len = 2 }

abbrev nothing : Memory ring
nothing = record { cells = []; released = [] }

abbrev issued : Memory ring
issued = record { cells = (1, boxed_key (from_keypair ring (codes "ab"))) ∷ []; released = [] }

abbrev answer : MsdkBuf
answer = record { ptr = address 2; len = 2 }

abbrev session : List (Call ring)
session = account_id false (address 1) ∷ free_buf answer ∷ []

abbrev after : Memory ring
after = record {
  cells = (1, boxed_key (from_keypair ring (codes "ab"))) ∷ [];
  released = (0 ∷ 0 ∷ []) ∷ [];
}

abbrev replies : List (Reply ring)
replies = buffer success (some answer) ∷ no_reply ∷ []

parsed :
    msdk_apikey_parse ring alloc false text nothing ≡ (handle success (some (address 1)), issued)
unfolding msdk_apikey_parse from_utf8 parse trim split_once parse_sr25519 split from_keypair
parsed = refl

ran : run ring alloc session issued ≡ ok (replies, after)
unfolding run from_keypair find_cell msdk_free
ran = refl

-- No call of the session frees the handle.
spared : All (Spares ring 1) session
spared = (λ e. cc, (λ e. cc, tt))

laws : AllocatorLaws alloc
laws = record { unused = λ live. above 0 live }

handle_keeps_key_example :
    (k : ApiKey ring) × (key_of ring text ≡ ok k)
    × (msdk_apikey_account_id ring alloc false (address 1) after
        ≡ ok (write_buf ring alloc (ok k.account.bytes) after))
    × ((message : Bytes)
        → msdk_apikey_sign ring alloc false
            (address 1)
            (record { ptr = some message; len = length message })
            after
          ≡ ok (write_buf ring alloc (map_err (λ _. bad_key) (sign ring k message)) after))
handle_keeps_key_example =
    handle_keeps_key ring alloc laws text 1 nothing issued after session replies parsed spared ran

run-Wiped_example : Wiped ring after
run-Wiped_example = run-Wiped ring alloc session issued after replies tt ran

run-balance_example :
    length after.cells + all_given_back session ≡ length issued.cells + all_handed replies
run-balance_example = run-balance ring alloc session issued after replies ran
