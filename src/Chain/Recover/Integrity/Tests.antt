-- ===== src/Chain/Recover/Integrity/Tests.antt =====
-- A chain that stores what `encrypt` sealed with a cryptography that authenticates.
use matter_sdk.Common.{
  ◌≡◌, refl, [], ◌∷◌, ◌++◌, some, codes, length, take, take-append, drop-length-append, ok, arith,
  from_utf8, trim,
}
use matter_sdk.Core.Aad.{Aad, as_bytes}
use matter_sdk.Core.Bound.{de}
use matter_sdk.Core.Crypto.{Bytes}
use matter_sdk.Core.Seal.{EncryptedSecret, encrypt}
use matter_sdk.Core.Open.{open_secret, lagrange_for, subset_points, open_points, decode_partials}
use matter_sdk.Core.Wire.{from_0x}
use matter_sdk.Core.Authentic.{AeadLaws}
use matter_sdk.Signer.{key_auth}
use matter_sdk.Fixtures.{hex, toy, authenticating, open_tagged, key_signer}
use matter_sdk.Committee.{World, decrypt, sort_by_index}
use matter_sdk.Committee.Choice.{ChoiceLaws}
use matter_sdk.Committee.Sample.{world, healthy, world-ChoiceLaws}
use matter_sdk.Chain.Mode.Laws.{text_eq_iff}
use matter_sdk.Chain.Recover.{Rpc, StoredSecret, read_secret, check_aad, committee_info, recover}
use matter_sdk.Chain.Recover.Tables.{lookup, endpoint_of, parse_endpoint, assemble_nodes}
use matter_sdk.Chain.Recover.Integrity.{recover-encrypt}

open_tagged-append :
    (tag sealed_under plaintext : Bytes) {found : Bytes}
    → open_tagged tag (length sealed_under ∷ (sealed_under ++ plaintext)) ≡ ok found
    → (found ≡ plaintext) × (tag ≡ sealed_under)
open_tagged-append tag sealed_under plaintext h = ground (
  arith,
  take-append sealed_under plaintext,
  drop-length-append sealed_under plaintext,
  text_eq_iff tag sealed_under,
)

aead : AeadLaws authenticating
unfolding authenticating toy
aead = record {
  authentic =
      λ seed pk binding_id sealed_under epoch plaintext entries capsule shared secret_id
          opened_epoch opened_id tag h.
        open_tagged-append tag sealed_under plaintext h;
  nonces = λ seed pk binding_id sealed_under epoch plaintext. refl;
}

committee_world : World authenticating
unfolding world
committee_world = record {
  hex = hex;
  health_of = λ requests endpoint. ok healthy;
  ask_partial = λ requests endpoint request.
      ok (record { partial = codes "0x0a"; proof = codes "0b"; served_epoch = 7 });
  signer = key_auth authenticating hex key_signer;
  choose_multiple = λ requests nodes n. take n nodes;
  render = λ e. codes "unreachable";
  debug = λ t. t;
}

choices : ChoiceLaws committee_world
unfolding committee_world
choices = record {
  chosen_from = (world-ChoiceLaws 7 (ok healthy)).chosen_from;
  chosen_count = (world-ChoiceLaws 7 (ok healthy)).chosen_count;
}

abbrev hi : Bytes
hi = b'h' ∷ b'i' ∷ []

abbrev envelope : EncryptedSecret
envelope = record {
  binding_id = 1 ∷ [];
  capsule = 1 ∷ [];
  proof = 3 ∷ as_bytes Aad.env_v1;
  ct = 0 ∷ 0 ∷ 0 ∷ 0 ∷ 0 ∷ 0 ∷ 0 ∷ 0 ∷ 0 ∷ 0 ∷ 0 ∷ 0 ∷ 24 ∷ (as_bytes Aad.env_v1 ++ hi);
}

seals :
    encrypt authenticating [] 0 (8 ∷ []) 7 hi (as_bytes Aad.env_v1) (some (1 ∷ [])) ≡ ok envelope
unfolding encrypt authenticating toy as_bytes
seals = refl

abbrev rpc : Rpc
rpc = record {
  state_call = λ requests method args. ok args;
  finalized_head = λ requests. ok (4 ∷ []);
  encode_id = λ id. id ∷ [];
  encode_epoch = λ epoch. epoch ∷ [];
  encode_member = λ epoch id. id;
  decode_envelope = λ bytes. ok (some envelope);
  decode_epoch = λ bytes. ok (some 7);
  decode_blob = λ bytes. ok (some (as_bytes Aad.env_v1));
  decode_dkg_output = λ bytes. ok (some (3 ∷ [], 3 ∷ []));
  decode_threshold = λ bytes. ok (2, 2);
  decode_committee = λ bytes. ok ((7 ∷ [], 2) ∷ (8 ∷ [], 1) ∷ []);
  decode_registry = λ bytes. ok (
      (7 ∷ [], record { endpoint = codes "https://c"; dkg_index = 2 })
      ∷ (8 ∷ [], record { endpoint = codes "https://a"; dkg_index = 1 })
      ∷ []);
  lossy = λ bytes. bytes;
}

abbrev stored : StoredSecret
stored = record { envelope = envelope; epoch = 7; aad = as_bytes Aad.env_v1 }

stores : read_secret rpc 5 ≡ ok stored
unfolding read_secret
stores = refl

recovers : recover authenticating committee_world rpc (some key_signer) 5 Aad.env_v1 ≡ some (ok hi)
unfolding recover read_secret check_aad as_bytes committee_info assemble_nodes endpoint_of lookup
    parse_endpoint from_utf8 trim sort_by_index decrypt healthy toy authenticating key_signer hex
    key_auth committee_world lagrange_for from_0x open_secret subset_points open_points de
    decode_partials
recovers = refl

recover-encrypt_example : (hi ≡ hi) × (as_bytes Aad.env_v1 ≡ as_bytes Aad.env_v1)
recover-encrypt_example =
    recover-encrypt authenticating committee_world rpc aead choices [] 0 (8 ∷ []) 7 hi
      (as_bytes Aad.env_v1) (some (1 ∷ [])) stored (some key_signer) 5 Aad.env_v1 seals stores
      recovers
