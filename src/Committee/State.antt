-- ===== src/Committee/State.antt =====
-- What crates/matter-sdk/src/committee.rs works on: the request, what the nodes answer, and what is
-- known between two requests.
use matter_sdk.Common.{ℕ, Bool, List, Text, codes, text_eq, Result}
use matter_sdk.Core.Crypto.{Bytes, Crypto}
use matter_sdk.Core.Open.{PartialInput}
use matter_sdk.Core.Wire.{HexCodec}
use matter_sdk.Error.{SdkError, NodeFault}
use matter_sdk.Signer.{Signer, RequestAuth}
use matter_sdk.Committee.Rotation.{Votes}
use matter_sdk.Committee.Quorum.{CommitteeNode}

-- crates/matter-sdk/src/transport.rs
pub record Health : Type 0 where
  pub status : Text
  pub epoch : ℕ
  pub crypto_protocol_version : ℕ

unfoldable pub is_active : Health → Bool
is_active h = text_eq h.status (codes "active")

pub record DecryptRequest : Type 0 where
  pub secret_id : ℕ
  pub epoch : ℕ
  pub binding_id : Bytes
  pub aad : Bytes
  pub capsule : Bytes
  pub ct : Bytes
  pub shared_a : Bytes
  pub block_hash : Bytes
  pub threshold : ℕ
  pub nodes : List CommitteeNode

-- The request and the part of the response that the client reads, of the crate matter-kgc-proto.
pub record PartialDecryptRequest (k : Crypto) : Type 0 where
  pub secret_id : Text
  pub subset : List ℕ
  pub lagrange_coeff : Text
  pub block_hash : Text
  pub auth : RequestAuth k

pub record PartialDecryptResponse : Type 0 where
  pub partial : Text
  pub proof : Text
  pub served_epoch : ℕ

-- What the flow runs against. The answers of the network and of the signer, and the random choice,
-- may differ from one call to the next: they are given the number of requests made so far.
-- `render` is the `Display` of an error, `debug` the `Debug` of a text.
pub record World (k : Crypto) : Type 0 where
  pub hex : HexCodec
  pub health_of : ℕ → Text → Result SdkError Health
  pub ask_partial : ℕ → Text → PartialDecryptRequest k → Result SdkError PartialDecryptResponse
  pub signer : Signer k
  pub choose_multiple : ℕ → List CommitteeNode → ℕ → List CommitteeNode
  pub render : SdkError → Text
  pub debug : Text → Text

-- What is known after some requests.
pub record Progress : Type 0 where
  pub faults : List NodeFault
  pub rotated_votes : Votes
  pub requests : ℕ

-- What a node's turn came to, and what a round over the chosen nodes came to.
pub data Answer : Type 0 where
  partial : PartialInput → Answer
  dropped : Answer
  failed : SdkError → Answer

pub data Round : Type 0 where
  complete : List PartialInput → Round
  faulty : ℕ → Round
  failed : SdkError → Round
