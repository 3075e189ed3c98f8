-- ===== src/Chain/Recover/Opens.antt =====
-- The recovery of a secret of the chain, where a reachable committee serves it, comes to a quorum.
use matter_sdk.Common.{
  All-weaken, ℕ, ◌≤◌, ◌<◌, ◌≡◌, ◌⊎◌, subst, not, List, [], Bool, some, ok, map_err, All, length,
}
use matter_sdk.Core.Aad.{Aad, as_bytes}
use matter_sdk.Core.Crypto.{Crypto}
use matter_sdk.Core.Open.{PartialInput, open_secret}
use matter_sdk.Error.{core}
use matter_sdk.Signer.{KeySigner}
use matter_sdk.Committee.{World, decrypt}
use matter_sdk.Committee.Quorum.{Listed}
use matter_sdk.Committee.Choice.{ChoiceLaws}
use matter_sdk.Committee.Headcount.{headcount}
use matter_sdk.Committee.Sound.{Supplied}
use matter_sdk.Committee.Live.{Dependable}
use matter_sdk.Committee.Live.Opens.{decrypt_opens}
use matter_sdk.Chain.Recover.{
  Rpc, StoredSecret, CommitteeInfo, read_secret, committee_info, request_for, recover_secret,
  keyed_world, prepare_recovery, ask_committee, recover,
}
use matter_sdk.Chain.Recover.Sound.{keyed-Supplied, check_aad_iff, committee_info_sound, keyed_laws}

module _ (k : Crypto) (w : World k) (rpc : Rpc) where
  prepared :
      (s : KeySigner) (id : ℕ) (tag : Aad) (stored : StoredSecret) (committee : CommitteeInfo)
      → read_secret rpc id ≡ ok stored
      → (stored.aad ≡ []) ⊎ (stored.aad ≡ as_bytes tag)
      → committee_info rpc stored.epoch ≡ ok committee
      → prepare_recovery k w rpc (some s) id tag ≡ ok (s, stored, committee)
  unfolding prepare_recovery
  prepared s id tag stored committee found sealed seated =
      rw (found, (check_aad_iff rpc id stored.aad tag).1 sealed, seated)

  -- The recovery of a secret that the chain stores under no tag or the requested one comes to call
  -- `open_secret`, if the chain names a committee for its epoch, as many of its reachable nodes as its
  -- threshold are reliable, and fewer than the threshold are not: the result is what that returns,
  -- a plaintext or an error, for the stored envelope and as many partials as the threshold, each with
  -- the index and the share commitment of one of the committee's nodes, and with the share and the
  -- proof that this node sent. The key is assumed to sign every request, and the
  -- random choice to choose elements of the slice, as many as asked for.
  pub recover_opens :
      ChoiceLaws w
      → (s : KeySigner) (id : ℕ) (tag : Aad) (stored : StoredSecret) (committee : CommitteeInfo)
        (reliable : ℕ → Bool)
      → read_secret rpc id ≡ ok stored
      → (stored.aad ≡ []) ⊎ (stored.aad ≡ as_bytes tag)
      → committee_info rpc stored.epoch ≡ ok committee
      → Dependable k (keyed_world k w s) (request_for committee id stored.envelope tag) reliable
      → committee.threshold ≤ headcount reliable committee.nodes
      → headcount (λ i. not (reliable i)) committee.nodes < committee.threshold
      → (partials : List PartialInput) × All (Supplied k w (λ n. Listed n committee.nodes)) partials
        × (length partials ≡ committee.threshold)
        × (recover k w rpc (some s) id tag
            ≡ some (
                map_err core (
                  open_secret k committee.shared_a stored.envelope.capsule id stored.epoch
                    stored.envelope.binding_id
                    (as_bytes tag)
                    stored.envelope.ct
                    partials)))
  unfolding recover ask_committee recover_secret request_for
  recover_opens laws s id tag stored committee reliable found sealed seated dependable count few =
      let (same_epoch, _, _) = committee_info_sound k w rpc stored.epoch seated in
      let (partials, held, size, opened) =
        decrypt_opens k (keyed_world k w s) (request_for committee id stored.envelope tag) reliable
          dependable (keyed_laws k w rpc laws s) count few in
      (
        partials,
        All-weaken _ _ (keyed-Supplied k w rpc laws s (λ n. Listed n committee.nodes)) partials
            held,
        size,
        rw (prepared s id tag stored committee found sealed seated) (
            subst
              (λ e.
                decrypt k (keyed_world k w s) (request_for committee id stored.envelope tag)
                ≡ some (
                    map_err core (
                      open_secret k committee.shared_a stored.envelope.capsule id e
                        stored.envelope.binding_id (as_bytes tag) stored.envelope.ct partials)))
              same_epoch opened),
      )
