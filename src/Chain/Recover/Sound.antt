-- ===== src/Chain/Recover/Sound.antt =====
-- What a recovered secret comes from: chain reads, tables and committee together.
use matter_sdk.Common.{
  ℕ, ◌≤◌, ◌≡◌, ◌⊎◌, refl, ◌↔◌, List, [], ◌∷◌, Option, none, some, false, Result, ok, err, >>=-eq-ok,
  arith, All, All-weaken, length, ltb, is_empty, ok_or, fail_if, fail_if-passed, map_err, ◌+◌,
  subst,
}
use matter_sdk.Core.Aad.{Aad, as_bytes}
use matter_sdk.Core.Crypto.{Bytes, Crypto}
use matter_sdk.Core.Seal.{EncryptedSecret}
use matter_sdk.Core.Open.{PartialInput, open_secret}
use matter_sdk.Error.{SdkError}
use matter_sdk.Signer.{KeySigner}
use matter_sdk.Committee.{World, DecryptRequest, decrypt, probe}
use matter_sdk.Committee.Quorum.{CommitteeNode, Listed, All-at}
use matter_sdk.Committee.Probe.{Probed, probe_sound}
use matter_sdk.Committee.Choice.{ChoiceLaws}
use matter_sdk.Committee.Sound.{Sent, Supplied, decrypt_sound}
use matter_sdk.Chain.Mode.Laws.{text_eq_iff}
use matter_sdk.Chain.Recover.{
  Rpc, ChainNodeInfo, endpoints_of, read_commitments, chain_err, call, StoredSecret, CommitteeInfo,
  read_secret, check_aad, committee_info, request_for, recover_secret, keyed_world,
  prepare_recovery, ask_committee, recover,
}
use matter_sdk.Chain.Recover.Tables.{Account, assemble_nodes}

-- A stored secret passes exactly if it was sealed under no recorded data or under the tag.
pub check_aad_iff :
    (rpc : Rpc) (id : ℕ) (sealed_under : Bytes) (tag : Aad)
    → (check_aad rpc id sealed_under tag ≡ ok tt)
      ↔ ((sealed_under ≡ []) ⊎ (sealed_under ≡ as_bytes tag))
unfolding check_aad
check_aad_iff rpc id [] tag = ground arith
check_aad_iff rpc id (b ∷ bs) tag = ground (arith, text_eq_iff (b ∷ bs) (as_bytes tag))

-- The conclusion of `committee_info`, from what its reads returned.
Seats : Rpc → ℕ → CommitteeInfo → Type 0
Seats rpc epoch info =
    (info.epoch ≡ epoch)
    × (info.threshold ≤ length info.nodes)
    × ((committee : List (Account × ℕ)) × (registry : List (Account × ChainNodeInfo))
        × (commitments : List (Account × Bytes)) × (is_empty committee ≡ false)
        × (read_commitments rpc 7 epoch committee ≡ ok commitments)
        × (assemble_nodes committee (endpoints_of registry) commitments epoch ≡ ok info.nodes))

made_of :
    (rpc : Rpc) (made info : CommitteeInfo) (committee : List (Account × ℕ))
    (registry : List (Account × ChainNodeInfo)) (commitments : List (Account × Bytes))
    (too_few unseated : SdkError)
    → fail_if (is_empty committee) unseated ≡ ok tt
    → read_commitments rpc 7 made.epoch committee ≡ ok commitments
    → assemble_nodes committee (endpoints_of registry) commitments made.epoch ≡ ok made.nodes
    → fail_if (ltb (length made.nodes) made.threshold) too_few ≡ ok tt
    → ◌≡◌ {A = Result SdkError CommitteeInfo} (ok made) (ok info)
    → Seats rpc made.epoch info
unfolding Seats
made_of rpc made info committee registry commitments too_few unseated seated were_read assembled
      enough same =
    let same_info : made ≡ info = ground arith in
    let enough_nodes : made.threshold ≤ length made.nodes =
      ground (arith, fail_if-passed _ _ enough) in
    subst (Seats rpc made.epoch) same_info (
      refl,
      enough_nodes,
      (committee, registry, commitments, fail_if-passed _ _ seated, were_read, assembled),
    )

module _ (k : Crypto) (w : World k) (rpc : Rpc) where
  prepare_recovery_sound :
      (signer : Option KeySigner) (id : ℕ) (tag : Aad) {s : KeySigner} {stored : StoredSecret}
      {committee : CommitteeInfo}
      → prepare_recovery k w rpc signer id tag ≡ ok (s, stored, committee)
      → (signer ≡ some s)
        × (read_secret rpc id ≡ ok stored)
        × (check_aad rpc id stored.aad tag ≡ ok tt)
        × (committee_info rpc stored.epoch ≡ ok committee)
  unfolding prepare_recovery
  prepare_recovery_sound none id tag h = absurd (ground arith)
  prepare_recovery_sound (some s) id tag h = ground arith

  -- A committee that is returned is of the epoch that was asked for, has at least as many nodes
  -- as its threshold, and its nodes are the assembly of a committee that is not empty with the
  -- registry and with the commitments that were read for its members.
  pub committee_info_sound :
      (epoch : ℕ) {info : CommitteeInfo}
      → committee_info rpc epoch ≡ ok info
      → (info.epoch ≡ epoch)
        × (info.threshold ≤ length info.nodes)
        × ((committee : List (Account × ℕ)) × (registry : List (Account × ChainNodeInfo))
            × (commitments : List (Account × Bytes)) × (is_empty committee ≡ false)
            × (read_commitments rpc 7 epoch committee ≡ ok commitments)
            × (assemble_nodes committee (endpoints_of registry) commitments epoch ≡ ok info.nodes))
  unfolding committee_info Seats
  committee_info_sound epoch {info} h =
      let args = rpc.encode_epoch epoch in
      let (output, _, h₁) =
        >>=-eq-ok (call rpc rpc.decode_dkg_output 3 "KgcApi_dkg_output_at_epoch" args) _ h in
      let (keys, _, h₂) = >>=-eq-ok (ok_or output _) _ h₁ in
      let (sizes, _, h₃) =
        >>=-eq-ok (call rpc rpc.decode_threshold 4 "KgcApi_threshold_params_at_epoch" args) _ h₂ in
      let (committee, _, h₄) =
        >>=-eq-ok (call rpc rpc.decode_committee 5 "KgcApi_committee_at_epoch" args) _ h₃ in
      let (_, seated, h₅) = >>=-eq-ok (fail_if (is_empty committee) _) _ h₄ in
      let (registry, _, h₆) =
        >>=-eq-ok (call rpc rpc.decode_registry 6 "KgcApi_kgc_nodes" []) _ h₅ in
      let (commitments, were_read, h₇) = >>=-eq-ok (read_commitments rpc 7 epoch committee) _ h₆ in
      let (nodes, assembled, h₈) =
        >>=-eq-ok (assemble_nodes committee (endpoints_of registry) commitments epoch) _ h₇ in
      let (_, enough, h₉) = >>=-eq-ok (fail_if (ltb (length nodes) sizes.1) _) _ h₈ in
      let (head, _, made) =
        >>=-eq-ok
          (map_err (chain_err "chain_getFinalizedHead") (rpc.finalized_head (7 + length committee)))
          _ h₉ in
      made_of rpc
        (record {
          epoch = epoch;
          threshold = sizes.1;
          shared_a = keys.1;
          nodes = nodes;
          block_hash = head;
        })
        info committee registry commitments _ _ seated were_read assembled enough made

  module _ (laws : ChoiceLaws w) where
    pub keyed_laws : (s : KeySigner) → ChoiceLaws (keyed_world k w s)
    unfolding keyed_world
    keyed_laws s = record { chosen_from = laws.chosen_from; chosen_count = laws.chosen_count }

    asked :
        (id : ℕ) (tag : Aad) (prepared : Result SdkError (KeySigner × StoredSecret × CommitteeInfo))
        {plaintext : Bytes}
        → ask_committee k w rpc id tag prepared ≡ some (ok plaintext)
        → (s : KeySigner) × (stored : StoredSecret) × (committee : CommitteeInfo) × (prepared
            ≡ ok (s, stored, committee))
          × (decrypt k (keyed_world k w s) (request_for committee id stored.envelope tag)
              ≡ some (ok plaintext))
    unfolding ask_committee recover_secret
    asked id tag (err e) h = absurd (ground arith)
    asked id tag (ok (s, stored, committee)) h = (s, stored, committee, refl, h)

    candidate-Listed :
        (w' : World k) (req : DecryptRequest) (n : CommitteeNode)
        → Listed n (probe k w' req 0 req.nodes).0
        → Listed n req.nodes
    unfolding Probed
    candidate-Listed w' req n l =
        let (listed, _) =
          All-at (Probed k w' req req.nodes) _ (probe_sound k w' req 0 req.nodes) n l in
        listed

    weaken-Supplied :
        (w' : World k) (req : DecryptRequest) (p : PartialInput)
        → Supplied k w' (λ n. Listed n (probe k w' req 0 req.nodes).0) p
        → Supplied k w' (λ n. Listed n req.nodes) p
    unfolding Supplied
    weaken-Supplied w' req p (n, listed, at_point, committed, sent) =
        (n, candidate-Listed w' req n listed, at_point, committed, sent)

    opened_by :
        (w' : World k) (laws' : ChoiceLaws w') (committee : CommitteeInfo) (id epoch : ℕ)
        (envelope : EncryptedSecret) (tag : Aad) {plaintext : Bytes}
        → committee.epoch ≡ epoch
        → decrypt k w' (request_for committee id envelope tag) ≡ some (ok plaintext)
        → (partials : List PartialInput) × All
            (Supplied k w' (λ n. Listed n committee.nodes))
            partials
          × (length partials ≡ committee.threshold)
          × (open_secret k committee.shared_a envelope.capsule id epoch envelope.binding_id
                (as_bytes tag)
                envelope.ct
                partials
              ≡ ok plaintext)
    unfolding request_for
    opened_by w' laws' committee id epoch envelope tag {plaintext} same h =
        let (partials, held, count, made) =
          decrypt_sound k w' (request_for committee id envelope tag) laws' h in
        (
          partials,
          All-weaken _ _ (weaken-Supplied w' (request_for committee id envelope tag)) partials held,
          count,
          subst
              (λ e.
                open_secret k committee.shared_a envelope.capsule id e envelope.binding_id
                  (as_bytes tag) envelope.ct partials
                ≡ ok plaintext)
              same made,
        )

    pub keyed-Supplied :
        (s : KeySigner) (P : CommitteeNode → Type 0) (p : PartialInput)
        → Supplied k (keyed_world k w s) P p
        → Supplied k w P p
    unfolding keyed_world Supplied Sent
    keyed-Supplied s P p held = held

    -- A recovered secret is opened under the requested tag, from the envelope that the chain
    -- stores, by the committee that the chain names for the stored epoch: from as many partials
    -- as its threshold, each with the index and the commitment of one of its nodes, at least as
    -- many of which are reachable. The stored secret records no tag or the requested one. The
    -- random choice is assumed to choose elements of the slice, as many as asked for.
    pub recover_sound :
        (signer : Option KeySigner) (id : ℕ) (tag : Aad) {plaintext : Bytes}
        → recover k w rpc signer id tag ≡ some (ok plaintext)
        → (stored : StoredSecret) × (committee : CommitteeInfo) × (partials : List PartialInput)
          × (read_secret rpc id ≡ ok stored)
          × ((stored.aad ≡ []) ⊎ (stored.aad ≡ as_bytes tag))
          × (committee_info rpc stored.epoch ≡ ok committee)
          × (committee.threshold ≤ length committee.nodes)
          × All (Supplied k w (λ n. Listed n committee.nodes)) partials
          × (length partials ≡ committee.threshold)
          × (open_secret k committee.shared_a stored.envelope.capsule id stored.epoch
                stored.envelope.binding_id
                (as_bytes tag)
                stored.envelope.ct
                partials
              ≡ ok plaintext)
    unfolding recover
    recover_sound signer id tag h =
        let (s, stored, committee, prepared, opened) = asked id tag _ h in
        let (_, stored_here, passed, seated) = prepare_recovery_sound signer id tag prepared in
        let (same_epoch, enough, _) = committee_info_sound stored.epoch seated in
        let (partials, held, count, made) =
          opened_by (keyed_world k w s) (keyed_laws s) committee id stored.epoch stored.envelope tag
            same_epoch opened in
        (
          stored,
          committee,
          partials,
          stored_here,
          (check_aad_iff rpc id stored.aad tag).0 passed,
          seated,
          enough,
          All-weaken _ _ (keyed-Supplied s (λ n. Listed n committee.nodes)) partials held,
          count,
          made,
        )
