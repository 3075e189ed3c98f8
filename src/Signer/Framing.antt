-- ===== src/Signer/Framing.antt =====
-- What a committee node reads from the fields that authorize a request.
use matter_sdk.Common.{ℕ, ◌<◌, ◌≡◌, ◌∷◌, none, All, ok}
use matter_sdk.Core.Crypto.{Bytes, Crypto}
use matter_sdk.Core.Wire.{HexCodec, to_0x, from_0x}
use matter_sdk.Signer.{KeySigner, RequestAuth, multisignature_sr25519}

-- Account ids and signatures are bytes.
pub record ByteSigner (signer : KeySigner) : Type 0 where
  pub account : All (λ b. b < 256) signer.account_id
  pub signatures :
      (calls : ℕ) (message signature : Bytes)
      → signer.sign calls message ≡ ok signature
      → All (λ b. b < 256) signature

-- What the fields say: the account, and the index of the scheme before a signature.
pub record Framed (k : Crypto) (hex : HexCodec) (account signature : Bytes) (auth : RequestAuth k)
    : Type 0 where
  pub scheme : auth.auth ≡ k.substrate
  pub requester : from_0x hex "requester" auth.requester ≡ ok account
  pub multisig : from_0x hex "signature" auth.signature ≡ ok (multisignature_sr25519 ∷ signature)
  pub no_address : auth.eth_address ≡ none
  pub no_expiry : auth.valid_until ≡ none
  pub no_eth_signature : auth.eth_signature ≡ none

abbrev fields : (k : Crypto) → HexCodec → Bytes → Bytes → RequestAuth k
fields k hex account signature = record {
  auth = k.substrate;
  requester = to_0x hex account;
  signature = to_0x hex (multisignature_sr25519 ∷ signature);
  eth_address = none;
  valid_until = none;
  eth_signature = none;
}
