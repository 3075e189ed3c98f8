-- ===== src/Committee/Node.antt =====
-- The dealings of crates/matter-sdk/src/committee.rs with one node: the arms on its health probe, and
-- its turn in a round.
use matter_sdk.Common.{
  ℕ, suc, Bool, not, ◌&&◌, ◌||◌, List, [], ◌∷◌, ◌++◌, Option, none, some, codes, ◌==◌, leb,
  if◌then◌else◌, Result, ok, err, ◌>>=◌, map_err,
}
use matter_sdk.Common.Decimal.{to_decimal}
use matter_sdk.Core.Error.{CoreError}
use matter_sdk.Core.Crypto.{Bytes, Crypto}
use matter_sdk.Core.Open.{PartialInput, lagrange_for}
use matter_sdk.Core.Wire.{to_0x, from_0x, secret_id_to_hex}
use matter_sdk.Error.{
  SdkError, NodeFault, health, inactive, partial_decrypt, epoch_mismatch, protocol_version, core,
  epoch_rotated,
}
use matter_sdk.Signer.{SigningRequest, RequestAuth}
use matter_sdk.Committee.Rotation.{bump, votes_for}
use matter_sdk.Committee.Quorum.{CommitteeNode}
use matter_sdk.Committee.State.{
  Health, is_active, DecryptRequest, PartialDecryptRequest, PartialDecryptResponse, World, Progress,
  Answer, partial, dropped, failed,
}

module _ (k : Crypto) where
  unfoldable pub speaks_our_protocol : ℕ → Bool
  speaks_our_protocol reported = (reported == 0) || (reported == k.protocol_version)

  module _ (w : World k) (req : DecryptRequest) where
    -- The arms of the `match` on a health probe; `none` stands for an active node.
    unfoldable pub health_fault : CommitteeNode → Result SdkError Health → Option NodeFault
    unfolding speaks_our_protocol is_active
    health_fault node (ok h) =
        if not (speaks_our_protocol h.crypto_protocol_version)
        then some (record {
          index = node.index;
          endpoint = node.endpoint;
          stage = protocol_version;
          detail =
              codes "speaks crypto protocol v"
              ++ (to_decimal h.crypto_protocol_version
                  ++ (codes ", this SDK speaks v" ++ to_decimal k.protocol_version));
        })
        else if is_active h
        then none
        else some (record {
          index = node.index;
          endpoint = node.endpoint;
          stage = inactive;
          detail =
              codes "status "
              ++ (w.debug h.status
                  ++ (codes ", epoch "
                      ++ (to_decimal h.epoch
                          ++ (codes ", crypto protocol v"
                              ++ to_decimal h.crypto_protocol_version))));
        })
    health_fault node (err e) = some (record {
      index = node.index;
      endpoint = node.endpoint;
      stage = health;
      detail = w.render e;
    })

    unfoldable pub signing_request : List ℕ → CommitteeNode → SigningRequest
    signing_request subset node = record {
      secret_id = req.secret_id;
      subset = subset;
      recipient_index = node.index;
      block_hash = req.block_hash;
      valid_until = none;
    }

    unfoldable pub node_request : List ℕ → Bytes → RequestAuth k → PartialDecryptRequest k
    node_request subset lambda auth = record {
      secret_id = secret_id_to_hex w.hex req.secret_id;
      subset = subset;
      lagrange_coeff = to_0x w.hex lambda;
      block_hash = to_0x w.hex req.block_hash;
      auth = auth;
    }

    -- The partial decryption that is pushed, its two blobs decoded, each with `?`.
    unfoldable pub decoded : CommitteeNode → PartialDecryptResponse → Result CoreError PartialInput
    decoded node resp = do
      share ← from_0x w.hex "partial" resp.partial
      proof ← from_0x w.hex "proof" resp.proof
      ok (record {
        point = node.index;
        partial = share;
        proof = proof;
        commitment = node.share_commitment;
      })

    unfoldable pub decode_response : Result CoreError PartialInput → Answer
    decode_response (ok p) = partial p
    decode_response (err e) = failed (core e)

    unfoldable pub diverges : PartialDecryptResponse → Bool
    diverges resp = not (resp.served_epoch == 0) && not (resp.served_epoch == req.epoch)

    -- A vote for another epoch: `threshold` of them are a rotation, fewer one misbehaving node.
    unfoldable pub vote_rotation :
        CommitteeNode → PartialDecryptResponse → Progress → Answer × Progress
    vote_rotation node resp s =
        let votes = bump resp.served_epoch s.rotated_votes in
        if leb req.threshold (votes_for resp.served_epoch votes)
        then (
          failed (epoch_rotated resp.served_epoch req.epoch),
          record s { rotated_votes = votes },
        )
        else (
          dropped,
          record s {
            rotated_votes = votes;
            faults =
                s.faults
                ++ record {
                  index = node.index;
                  endpoint = node.endpoint;
                  stage = epoch_mismatch;
                  detail =
                      codes "served epoch "
                      ++ (to_decimal resp.served_epoch
                          ++ (codes ", state supplied for " ++ to_decimal req.epoch));
                }
                  ∷ [];
          },
        )

    unfoldable pub after_response :
        CommitteeNode → Result SdkError PartialDecryptResponse → Progress → Answer × Progress
    unfolding decode_response decoded diverges vote_rotation
    after_response node (err e) s = (
      dropped,
      record s {
        faults =
            s.faults
            ++ record {
              index = node.index;
              endpoint = node.endpoint;
              stage = partial_decrypt;
              detail = w.render e;
            }
              ∷ [];
      },
    )
    after_response node (ok resp) s =
        if diverges resp
        then vote_rotation node resp s
        else (decode_response (decoded node resp), s)

    -- The request to a node: its Lagrange coefficient and the signer's authorization, each with
    -- `?`.
    unfoldable pub prepare : List ℕ → CommitteeNode → ℕ → Result SdkError (PartialDecryptRequest k)
    unfolding signing_request node_request
    prepare subset node requests = do
      lambda ← map_err core (lagrange_for k node.index subset)
      auth ← w.signer.authorize requests (signing_request subset node)
      ok (node_request subset lambda auth)

    unfoldable pub send :
        CommitteeNode → Progress → Result SdkError (PartialDecryptRequest k) → Answer × Progress
    unfolding after_response
    send node s (ok request) =
        after_response node (w.ask_partial s.requests node.endpoint request)
          (record s { requests = suc s.requests })
    send node s (err e) = (failed e, s)

    -- The body of the loop over the chosen nodes.
    unfoldable pub ask_node : List ℕ → CommitteeNode → Progress → Answer × Progress
    unfolding prepare send
    ask_node subset node s = send node s (prepare subset node s.requests)
