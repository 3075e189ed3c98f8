-- ===== src/Chain/Recover/Tests.antt =====
-- A chain that stores one secret, sealed to a committee of three with a threshold of two.
use matter_sdk.Common.{
  ℕ, ◌≡◌, ◌⊎◌, refl, List, [], ◌∷◌, some, Text, codes, length, All, Result, ok, err, map_err, subst,
  inr, true, arith, from_utf8, trim,
}
use matter_sdk.Core.Aad.{Aad, as_bytes}
use matter_sdk.Core.Crypto.{Bytes}
use matter_sdk.Core.Seal.{EncryptedSecret}
use matter_sdk.Core.Open.{
  PartialInput, open_secret, lagrange_for, subset_points, open_points, decode_partials,
}
use matter_sdk.Core.Bound.{de}
use matter_sdk.Core.Wire.{from_0x}
use matter_sdk.Error.{SdkError, core}
use matter_sdk.Signer.{key_auth}
use matter_sdk.Fixtures.{hex, toy, key_signer}
use matter_sdk.Committee.{
  World, PartialDecryptResponse, decoded, diverges, prepare, speaks_our_protocol, is_active,
  decrypt, sort_by_index,
}
use matter_sdk.Committee.Headcount.{headcount}
use matter_sdk.Committee.Probe.{usable}
use matter_sdk.Committee.Live.{Dependable, Decodes}
use matter_sdk.Committee.Sample.{world, healthy, world-ChoiceLaws}
use matter_sdk.Committee.Quorum.{CommitteeNode, Listed, Ascending}
use matter_sdk.Committee.Sound.{Supplied}
use matter_sdk.Chain.Recover.{
  Rpc, ChainNodeInfo, StoredSecret, CommitteeInfo, read_secret, check_aad, committee_info, recover,
  keyed_world, request_for,
}
use matter_sdk.Chain.Recover.Tables.{
  Account, lookup, endpoint_of, missing, parse_endpoint, assemble_nodes,
}
use matter_sdk.Chain.Recover.Assembly.{Joins, Reachable, HasNode, assemble_nodes_sound}
use matter_sdk.Chain.Recover.Names.{Stores, Names, recover_named}
use matter_sdk.Chain.Recover.Opens.{recover_opens}

abbrev envelope : EncryptedSecret
envelope = record {
  binding_id = 1 ∷ [];
  capsule = 2 ∷ [];
  proof = 3 ∷ [];
  ct = 0 ∷ 0 ∷ 0 ∷ 0 ∷ 0 ∷ 0 ∷ 0 ∷ 0 ∷ 0 ∷ 0 ∷ 0 ∷ 0 ∷ b'h' ∷ b'i' ∷ [];
}

abbrev committee : List (Account × ℕ)
committee = (7 ∷ [], 3) ∷ (8 ∷ [], 1) ∷ (9 ∷ [], 2) ∷ []

abbrev endpoints : List (Account × Bytes)
endpoints =
    (7 ∷ [], codes "https://c/") ∷ (8 ∷ [], codes "https://a") ∷ (9 ∷ [], codes "ftp://b") ∷ []

abbrev commitments : List (Account × Bytes)
commitments = (7 ∷ [], 3 ∷ []) ∷ (8 ∷ [], 1 ∷ []) ∷ []

abbrev assembled : List CommitteeNode
assembled =
    record { index = 1; endpoint = codes "https://a"; share_commitment = 1 ∷ [] }
    ∷ record { index = 3; endpoint = codes "https://c"; share_commitment = 3 ∷ [] }
    ∷ []

assembles : assemble_nodes committee endpoints commitments 7 ≡ ok assembled
unfolding assemble_nodes endpoint_of lookup sort_by_index parse_endpoint from_utf8 trim
assembles = refl

assemble_nodes_sound_example :
    Ascending assembled
    × All (Joins endpoints commitments 7 committee) assembled
    × ((id : Account) (index : ℕ) (e : Text)
        → Reachable endpoints commitments 7 committee id index e
        → HasNode endpoints commitments 7 assembled id index e)
assemble_nodes_sound_example = assemble_nodes_sound endpoints commitments 7 committee assembles

lacks : assemble_nodes committee endpoints ((8 ∷ [], 1 ∷ []) ∷ []) 7 ≡ err (missing 3 7)
unfolding assemble_nodes endpoint_of lookup parse_endpoint from_utf8 trim
lacks = refl

by_method : List (Account × ChainNodeInfo)
by_method =
    (7 ∷ [], record { endpoint = codes "https://c"; dkg_index = 3 })
    ∷ (8 ∷ [], record { endpoint = codes "https://a"; dkg_index = 1 })
    ∷ []

-- Each decoder returns the answer of the one call that uses it.
rpc : Rpc
unfolding by_method
rpc = record {
  state_call = λ requests method args. ok args;
  finalized_head = λ requests. ok (4 ∷ []);
  encode_id = λ id. id ∷ [];
  encode_epoch = λ epoch. epoch ∷ [];
  encode_member = λ epoch id. id;
  decode_envelope = λ bytes. ok (some envelope);
  decode_epoch = λ bytes. ok (some 7);
  decode_blob = λ bytes. ok (some (as_bytes Aad.env_v1));
  decode_dkg_output = λ bytes. ok (some (3 ∷ [], 3 ∷ []));
  decode_threshold = λ bytes. ok (3, 2);
  decode_committee = λ bytes. ok committee;
  decode_registry = λ bytes. ok by_method;
  lossy = λ bytes. bytes;
}

recovers :
    recover toy (world 7 (ok healthy)) rpc (some key_signer) 5 Aad.env_v1
    ≡ some (ok (b'h' ∷ b'i' ∷ []))
unfolding recover read_secret rpc check_aad as_bytes committee_info assemble_nodes endpoint_of
    lookup parse_endpoint from_utf8 trim sort_by_index decrypt world healthy toy key_signer
    lagrange_for from_0x open_secret subset_points open_points de decode_partials
recovers = refl

recover_named_example :
    (stored : StoredSecret) × (committee : CommitteeInfo) × (partials : List PartialInput) × Stores
      rpc 5 stored
    × ((stored.aad ≡ []) ⊎ (stored.aad ≡ as_bytes Aad.env_v1))
    × Names rpc stored.epoch committee
    × All (Supplied toy (world 7 (ok healthy)) (λ n. Listed n committee.nodes)) partials
    × (length partials ≡ committee.threshold)
    × (open_secret toy committee.shared_a stored.envelope.capsule 5 stored.epoch
          stored.envelope.binding_id
          (as_bytes Aad.env_v1)
          stored.envelope.ct
          partials
        ≡ ok (b'h' ∷ b'i' ∷ []))
recover_named_example =
    recover_named toy (world 7 (ok healthy)) rpc (world-ChoiceLaws 7 (ok healthy)) (some key_signer)
      5 Aad.env_v1 recovers

-- The committee that the chain names for the epoch of the secret. The chain's answer for a blob is
-- the tag of the secret, also where it is read as a share commitment.
abbrev info : CommitteeInfo
info = record {
  epoch = 7;
  threshold = 2;
  shared_a = 3 ∷ [];
  nodes =
      record { index = 1; endpoint = codes "https://a"; share_commitment = as_bytes Aad.env_v1 }
      ∷ record { index = 3; endpoint = codes "https://c"; share_commitment = as_bytes Aad.env_v1 }
      ∷ [];
  block_hash = 4 ∷ [];
}

abbrev stored : StoredSecret
stored = record { envelope = envelope; epoch = 7; aad = as_bytes Aad.env_v1 }

names : committee_info rpc 7 ≡ ok info
unfolding committee_info rpc assemble_nodes endpoint_of lookup parse_endpoint from_utf8 trim
    sort_by_index
names = refl

stores : read_secret rpc 5 ≡ ok stored
unfolding read_secret rpc
stores = refl

abbrev answer : PartialDecryptResponse
answer = record { partial = codes "0x0a"; proof = codes "0b"; served_epoch = 7 }

abbrev keyed : World toy
keyed = keyed_world toy (world 7 (ok healthy)) key_signer

answer-Decodes :
    (n : CommitteeNode) (resp : PartialDecryptResponse)
    → ◌≡◌ {A = Result SdkError PartialDecryptResponse} (ok answer) (ok resp)
    → Decodes toy keyed (request_for info 5 envelope Aad.env_v1) n resp
unfolding Decodes decoded world hex from_0x keyed_world
answer-Decodes n resp same =
    let alike : answer ≡ resp = ground arith in
    subst (Decodes toy keyed (request_for info 5 envelope Aad.env_v1) n) alike
      (unfold Decodes in (_, refl))

dependable :
    Dependable toy
      (keyed_world toy (world 7 (ok healthy)) key_signer)
      (request_for info 5 envelope Aad.env_v1)
      (λ i. true)
unfolding keyed_world world prepare lagrange_for toy key_auth key_signer healthy usable diverges
    speaks_our_protocol is_active request_for
dependable = record {
  authorized = λ subset n requests l. (_, refl);
  healthy = λ n requests l h. refl;
  answered = λ n requests asked l h. (answer, refl, refl);
  decodable = λ n requests asked resp l came same. answer-Decodes n resp came;
}

recover_opens_example :
    (partials : List PartialInput) × All
      (Supplied toy (world 7 (ok healthy)) (λ n. Listed n info.nodes))
      partials
    × (length partials ≡ info.threshold)
    × (recover toy (world 7 (ok healthy)) rpc (some key_signer) 5 Aad.env_v1
        ≡ some (
            map_err core (
              open_secret toy info.shared_a envelope.capsule 5 7 envelope.binding_id
                (as_bytes Aad.env_v1)
                envelope.ct
                partials)))
unfolding headcount
recover_opens_example =
    recover_opens toy (world 7 (ok healthy)) rpc (world-ChoiceLaws 7 (ok healthy)) key_signer 5
      Aad.env_v1 stored info (λ i. true) stores (inr refl) names dependable (omega arith)
      (omega arith)
