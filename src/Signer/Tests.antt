-- ===== src/Signer/Tests.antt =====
-- A key's authorization, read back.
use matter_sdk.Common.{[], ◌∷◌, none, ok}
use matter_sdk.Core.Wire.{to_0x}
use matter_sdk.Fixtures.{toy, hex}
use matter_sdk.Signer.{KeySigner, SigningRequest, RequestAuth}

-- It signs every message with the same two bytes.
abbrev signer : KeySigner
signer = record { account_id = 1 ∷ 2 ∷ []; sign = λ calls message. ok (9 ∷ 8 ∷ []) }

abbrev req : SigningRequest
req = record {
  secret_id = 42;
  subset = 1 ∷ 3 ∷ [];
  recipient_index = 3;
  block_hash = 7 ∷ [];
  valid_until = none;
}

abbrev auth : RequestAuth toy
auth = record {
  auth = toy.substrate;
  requester = to_0x hex (1 ∷ 2 ∷ []);
  signature = to_0x hex (1 ∷ 9 ∷ 8 ∷ []);
  eth_address = none;
  valid_until = none;
  eth_signature = none;
}
