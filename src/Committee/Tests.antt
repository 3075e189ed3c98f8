-- ===== src/Committee/Tests.antt =====
-- A committee of three nodes with a threshold of two, where the theorems' conditions hold.
use matter_sdk.Common.{
  ℕ, ◌<◌, ◌≡◌, ◌≢◌, refl, List, [], ◌∷◌, some, Text, codes, length, arith, Result, ok, err,
}
use matter_sdk.Core.Crypto.{Bytes}
use matter_sdk.Core.Open.{lagrange_for, open_secret, subset_points, open_points, decode_partials}
use matter_sdk.Core.Bound.{de}
use matter_sdk.Core.Wire.{from_0x}
use matter_sdk.Error.{SdkError, NodeFault, quorum_unavailable, epoch_rotated, transport}
use matter_sdk.Fixtures.{hex, toy, key_signer}
use matter_sdk.Committee.Sample.{healthy, world, request, world-ChoiceLaws}
use matter_sdk.Committee.{
  Health, PartialDecryptRequest, PartialDecryptResponse, probe, decrypt, sort_by_index, votes_for,
  bump, without,
}
use matter_sdk.Committee.Quorum.{Listed}
use matter_sdk.Committee.Protocol.{Protocol}
use matter_sdk.Committee.Protocol.Refines.{decrypt_refines}
use matter_sdk.Committee.Terminates.{decrypt_terminates}
use matter_sdk.Committee.Sound.{Recovered, decrypt_sound}
use matter_sdk.Committee.Rotated.{decrypt_epoch_rotated}
use matter_sdk.Committee.Probe.{usable, serving, silent, blamed, decrypt_too_few}
use matter_sdk.Committee.Quorum.{CommitteeNode}
use matter_sdk.Signer.{Signer}

decrypt_terminates_example :
    (r : Result SdkError Bytes) × (decrypt toy (world 7 (ok healthy)) request ≡ some r)
decrypt_terminates_example =
    decrypt_terminates toy (world 7 (ok healthy)) request (world-ChoiceLaws 7 (ok healthy))

opens : decrypt toy (world 7 (ok healthy)) request ≡ some (ok (b'h' ∷ b'i' ∷ []))
unfolding decrypt world healthy request toy sort_by_index lagrange_for from_0x open_secret
    subset_points open_points de decode_partials
opens = refl

decrypt_sound_example :
    Recovered toy
      (world 7 (ok healthy))
      request
      (λ n. Listed n (probe toy (world 7 (ok healthy)) request 0 request.nodes).0)
      (b'h' ∷ b'i' ∷ [])
unfolding Recovered
decrypt_sound_example =
    decrypt_sound toy (world 7 (ok healthy)) request (world-ChoiceLaws 7 (ok healthy)) opens

rotates : decrypt toy (world 8 (ok healthy)) request ≡ some (err (epoch_rotated 8 7))
unfolding decrypt world healthy request toy sort_by_index lagrange_for votes_for bump without
rotates = refl

decrypt_epoch_rotated_example :
    (7 ≡ request.epoch)
    × (◌≢◌ {A = ℕ} 8 0)
    × (◌≢◌ {A = ℕ} 8 request.epoch)
    × ((requests : ℕ) × (endpoint : Text) × (asked : PartialDecryptRequest toy)
        × (resp : PartialDecryptResponse) × ((world 8 (ok healthy)).ask_partial requests endpoint
              asked
            ≡ ok resp)
        × (resp.served_epoch ≡ 8))
unfolding world
decrypt_epoch_rotated_example =
    decrypt_epoch_rotated toy (world 8 (ok healthy)) request hex key_signer refl rotates

unreachable : Result SdkError Health
unreachable = err (transport (codes "https://node") (codes "timeout"))

all_dropped : length (serving toy (world 7 unreachable) request 0 request.nodes) < request.threshold
unfolding serving usable world request unreachable
all_dropped = omega arith

decrypt_too_few_example :
    (faults : List NodeFault) × (blamed faults
      ≡ silent toy (world 7 unreachable) request 0 request.nodes)
    × ((ask : ℕ → Text → PartialDecryptRequest toy → Result SdkError PartialDecryptResponse)
          (signer : Signer toy) (choose : ℕ → List CommitteeNode → ℕ → List CommitteeNode)
        → decrypt toy
            (record (world 7 unreachable) {
              ask_partial = ask;
              signer = signer;
              choose_multiple = choose;
            })
            request
          ≡ some (
              err (
                quorum_unavailable request.threshold
                  (length (serving toy (world 7 unreachable) request 0 request.nodes))
                  faults)))
decrypt_too_few_example = decrypt_too_few toy (world 7 unreachable) request all_dropped

decrypt_refines_example :
    (r : Result SdkError Bytes) × (decrypt toy (world 8 (ok healthy)) request ≡ some r)
    × Protocol toy
        (world 8 (ok healthy))
        request
        (probe toy (world 8 (ok healthy)) request 0 request.nodes).0
        []
        r
decrypt_refines_example =
    decrypt_refines toy (world 8 (ok healthy)) request (world-ChoiceLaws 8 (ok healthy))
