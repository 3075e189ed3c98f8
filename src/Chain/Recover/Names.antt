-- ===== src/Chain/Recover/Names.antt =====
-- What the chain is asked for a secret and its committee, call by call, and what is recovered from its
-- answers.
use matter_sdk.Common.{
  ℕ, suc, ◌+◌, ◌≤◌, ◌≡◌, ◌⊎◌, refl, ap, subst, List, [], ◌∷◌, map, Option, none, some, String,
  Result, ok, >>=-eq-ok, map_err, map_err-eq-ok, ok_or, fail_if, fail_if-passed, is_empty, ltb, All,
  length, arith, Text,
}
use matter_sdk.Core.Aad.{Aad, as_bytes}
use matter_sdk.Core.Crypto.{Bytes, Crypto}
use matter_sdk.Core.Open.{PartialInput, open_secret}
use matter_sdk.Error.{SdkError}
use matter_sdk.Signer.{KeySigner}
use matter_sdk.Committee.{World}
use matter_sdk.Committee.Quorum.{Listed, Ascending}
use matter_sdk.Committee.Choice.{ChoiceLaws}
use matter_sdk.Committee.Sound.{Supplied}
use matter_sdk.Chain.Recover.{
  Rpc, ChainNodeInfo, endpoints_of, keep_commitment, or_empty, read_commitments, chain_err, call,
  StoredSecret, CommitteeInfo, read_secret, committee_info, recover,
}
use matter_sdk.Chain.Recover.Tables.{Account, assemble_nodes}
use matter_sdk.Chain.Recover.Assembly.{Joins, assemble_nodes_sound}
use matter_sdk.Chain.Recover.Sound.{recover_sound}

module _ (rpc : Rpc) where
  -- The node answered the call of a method, and the answer decodes to the value.
  unfoldable pub Answers : {T : Type 0} → (Bytes → Result Text T) → ℕ → String → Bytes → T → Type 0
  Answers decode requests method args value =
      (bytes : Bytes) × (rpc.state_call requests method args ≡ ok bytes) × (decode bytes ≡ ok value)

  -- A blob that may be missing, read as empty.
  unfoldable pub OrEmpty : Option Bytes → Bytes → Type 0
  OrEmpty none bytes = bytes ≡ []
  OrEmpty (some b) bytes = bytes ≡ b

  -- The envelope, the epoch and the tag that the chain stores for the id.
  unfoldable pub Stores : ℕ → StoredSecret → Type 0
  Stores id stored =
      Answers rpc.decode_envelope 0 "SecretsApi_secret_payload" (rpc.encode_id id)
        (some stored.envelope)
      × Answers rpc.decode_epoch 1 "SecretsApi_secret_epoch" (rpc.encode_id id) (some stored.epoch)
      × ((blob : Option Bytes) × Answers rpc.decode_blob 2 "SecretsApi_secret_aad"
            (rpc.encode_id id) blob
          × OrEmpty blob stored.aad)

  -- The table with the commitment of a member, if it has one.
  unfoldable pub Kept :
      Account → Option Bytes → List (Account × Bytes) → List (Account × Bytes) → Type 0
  Kept id none others table = table ≡ others
  Kept id (some g) others table = table ≡ (id, g) ∷ others

  -- The share commitments of the members at the epoch, one call for each.
  unfoldable pub Commits : ℕ → ℕ → List (Account × ℕ) → List (Account × Bytes) → Type 0
  Commits requests epoch [] table = table ≡ []
  Commits requests epoch ((id, index) ∷ members) table =
      (blob : Option Bytes) × (others : List (Account × Bytes)) × Answers rpc.decode_blob requests
        "KgcApi_share_commitment" (rpc.encode_member epoch id) blob
      × Commits (suc requests) epoch members others
      × Kept id blob others table

  -- The committee of the epoch, as the chain describes it: its shared polynomial, its threshold,
  -- its members with their endpoints and commitments, joined, and the last finalized block.
  unfoldable pub Names : ℕ → CommitteeInfo → Type 0
  Names epoch info =
      (keys : Bytes × Bytes) × (sizes : ℕ × ℕ) × (members : List (Account × ℕ)) × (registry : List
        (Account × ChainNodeInfo))
      × (commitments : List (Account × Bytes)) × Answers rpc.decode_dkg_output 3
          "KgcApi_dkg_output_at_epoch" (rpc.encode_epoch epoch) (some keys)
      × Answers rpc.decode_threshold 4 "KgcApi_threshold_params_at_epoch" (rpc.encode_epoch epoch)
          sizes
      × Answers rpc.decode_committee 5 "KgcApi_committee_at_epoch" (rpc.encode_epoch epoch) members
      × Answers rpc.decode_registry 6 "KgcApi_kgc_nodes" [] registry
      × Commits 7 epoch members commitments
      × (rpc.finalized_head (7 + length members) ≡ ok info.block_hash)
      × (info.epoch ≡ epoch)
      × (info.shared_a ≡ keys.1)
      × (info.threshold ≡ sizes.1)
      × (info.threshold ≤ length info.nodes)
      × Ascending info.nodes
      × All
          (Joins (map (λ (e : Account × ChainNodeInfo). (e.0, e.1.endpoint)) registry) commitments
            epoch members)
          info.nodes

  call-Answers :
      {T : Type 0} (decode : Bytes → Result Text T) (requests : ℕ) (method : String) (args : Bytes)
      {value : T}
      → call rpc decode requests method args ≡ ok value
      → Answers decode requests method args value
  unfolding call Answers
  call-Answers decode requests method args h =
      let (bytes, came, read) =
        >>=-eq-ok (map_err (chain_err method) (rpc.state_call requests method args)) _ h in
      (
        bytes,
        map_err-eq-ok (chain_err method) (rpc.state_call requests method args) came,
        map_err-eq-ok (chain_err method) (decode bytes) read,
      )

  some_of :
      {T : Type 0} (o : Option T) (e : SdkError) {value : T} → ok_or o e ≡ ok value → o ≡ some value
  some_of none e h = absurd (ground arith)
  some_of (some v) e h = ground arith

  or_empty-OrEmpty : (blob : Option Bytes) → OrEmpty blob (or_empty blob)
  unfolding OrEmpty or_empty
  or_empty-OrEmpty none = refl
  or_empty-OrEmpty (some b) = refl

  read_secret-Stores :
      (id : ℕ) {stored : StoredSecret} → read_secret rpc id ≡ ok stored → Stores id stored
  unfolding read_secret Stores
  read_secret-Stores id {stored} h =
      let args = rpc.encode_id id in
      let (found, asked₁, h₁) =
        >>=-eq-ok (call rpc rpc.decode_envelope 0 "SecretsApi_secret_payload" args) _ h in
      let (envelope, there, h₂) = >>=-eq-ok (ok_or found _) _ h₁ in
      let (recorded, asked₂, h₃) =
        >>=-eq-ok (call rpc rpc.decode_epoch 1 "SecretsApi_secret_epoch" args) _ h₂ in
      let (epoch, known, h₄) = >>=-eq-ok (ok_or recorded _) _ h₃ in
      let (blob, asked₃, made) =
        >>=-eq-ok (call rpc rpc.decode_blob 2 "SecretsApi_secret_aad" args) _ h₄ in
      let whole : record { envelope = envelope; epoch = epoch; aad = or_empty blob } ≡ stored =
        ground arith in
      let first : Answers rpc.decode_envelope 0 "SecretsApi_secret_payload" args (some envelope) =
        subst (Answers rpc.decode_envelope 0 "SecretsApi_secret_payload" args)
          (some_of found _ there)
          (call-Answers rpc.decode_envelope 0 "SecretsApi_secret_payload" args asked₁) in
      let second : Answers rpc.decode_epoch 1 "SecretsApi_secret_epoch" args (some epoch) =
        subst (Answers rpc.decode_epoch 1 "SecretsApi_secret_epoch" args) (some_of recorded _ known)
          (call-Answers rpc.decode_epoch 1 "SecretsApi_secret_epoch" args asked₂) in
      subst (Stores id) whole (
        first,
        second,
        (
          blob,
          call-Answers rpc.decode_blob 2 "SecretsApi_secret_aad" args asked₃,
          or_empty-OrEmpty blob,
        ),
      )

  keep-Kept :
      (id : Account) (blob : Option Bytes) (others : List (Account × Bytes))
      → Kept id blob others (keep_commitment id blob others)
  unfolding Kept keep_commitment
  keep-Kept id none others = refl
  keep-Kept id (some g) others = refl

  read_commitments-Commits :
      (requests epoch : ℕ) (members : List (Account × ℕ)) {table : List (Account × Bytes)}
      → read_commitments rpc requests epoch members ≡ ok table
      → Commits requests epoch members table
  unfolding read_commitments Commits
  read_commitments-Commits requests epoch [] h = ground arith
  read_commitments-Commits requests epoch ((id, index) ∷ members) {table} h =
      let (blob, asked, h₁) =
        >>=-eq-ok
          (call rpc rpc.decode_blob requests "KgcApi_share_commitment" (rpc.encode_member epoch id))
          _ h in
      let (others, were_read, made) =
        >>=-eq-ok (read_commitments rpc (suc requests) epoch members) _ h₁ in
      let same : keep_commitment id blob others ≡ table = ground arith in
      (
        blob,
        others,
        call-Answers rpc.decode_blob requests "KgcApi_share_commitment" (rpc.encode_member epoch id)
            asked,
        read_commitments-Commits (suc requests) epoch members were_read,
        subst (Kept id blob others) same (keep-Kept id blob others),
      )

  endpoints_of-map :
      (registry : List (Account × ChainNodeInfo))
      → endpoints_of registry ≡ map (λ (e : Account × ChainNodeInfo). (e.0, e.1.endpoint)) registry
  unfolding endpoints_of
  endpoints_of-map [] = refl
  endpoints_of-map ((id, info) ∷ rest) = ap (λ es. (id, info.endpoint) ∷ es) (endpoints_of-map rest)

  committee_info-Names :
      (epoch : ℕ) {info : CommitteeInfo} → committee_info rpc epoch ≡ ok info → Names epoch info
  unfolding committee_info Names
  committee_info-Names epoch {info} h =
      let args = rpc.encode_epoch epoch in
      let (output, asked₁, h₁) =
        >>=-eq-ok (call rpc rpc.decode_dkg_output 3 "KgcApi_dkg_output_at_epoch" args) _ h in
      let (keys, there, h₂) = >>=-eq-ok (ok_or output _) _ h₁ in
      let (sizes, asked₂, h₃) =
        >>=-eq-ok (call rpc rpc.decode_threshold 4 "KgcApi_threshold_params_at_epoch" args) _ h₂ in
      let (members, asked₃, h₄) =
        >>=-eq-ok (call rpc rpc.decode_committee 5 "KgcApi_committee_at_epoch" args) _ h₃ in
      let (_, _, h₅) = >>=-eq-ok (fail_if (is_empty members) _) _ h₄ in
      let (registry, asked₄, h₆) =
        >>=-eq-ok (call rpc rpc.decode_registry 6 "KgcApi_kgc_nodes" []) _ h₅ in
      let (commitments, were_read, h₇) = >>=-eq-ok (read_commitments rpc 7 epoch members) _ h₆ in
      let (nodes, assembled, h₈) =
        >>=-eq-ok (assemble_nodes members (endpoints_of registry) commitments epoch) _ h₇ in
      let (_, enough, h₉) = >>=-eq-ok (fail_if (ltb (length nodes) sizes.1) _) _ h₈ in
      let (head, headed, made) =
        >>=-eq-ok
          (map_err (chain_err "chain_getFinalizedHead") (rpc.finalized_head (7 + length members))) _
          h₉ in
      let whole : record {
        epoch = epoch;
        threshold = sizes.1;
        shared_a = keys.1;
        nodes = nodes;
        block_hash = head;
      }
          ≡ info =
        ground arith in
      let (ascending, joined, _) =
        assemble_nodes_sound (endpoints_of registry) commitments epoch members assembled in
      subst (Names epoch) whole (
        keys,
        sizes,
        members,
        registry,
        commitments,
        subst (Answers rpc.decode_dkg_output 3 "KgcApi_dkg_output_at_epoch" args)
            (some_of output _ there)
            (call-Answers rpc.decode_dkg_output 3 "KgcApi_dkg_output_at_epoch" args asked₁),
        call-Answers rpc.decode_threshold 4 "KgcApi_threshold_params_at_epoch" args asked₂,
        call-Answers rpc.decode_committee 5 "KgcApi_committee_at_epoch" args asked₃,
        call-Answers rpc.decode_registry 6 "KgcApi_kgc_nodes" [] asked₄,
        read_commitments-Commits 7 epoch members were_read,
        map_err-eq-ok (chain_err "chain_getFinalizedHead") (rpc.finalized_head (7 + length members))
            headed,
        refl,
        refl,
        refl,
        ground (arith, fail_if-passed _ _ enough),
        ascending,
        subst (λ es. All (Joins es commitments epoch members) nodes) (endpoints_of-map registry)
            joined,
      )

module _ (k : Crypto) (w : World k) (rpc : Rpc) (laws : ChoiceLaws w) where
  -- A recovered secret is opened under the requested tag, from the envelope that the chain stores for
  -- the id, at the epoch that it stores, with the shared polynomial that it names for that epoch. It
  -- stores no tag or the requested one. The partials are as many as the threshold of that epoch,
  -- each with the index and the commitment of a node and what that node sent, and at least as many nodes stand for members
  -- of that epoch's committee, each with its member's index, its registered endpoint and the
  -- commitment that the chain has for it at that epoch. The random choice is assumed to choose
  -- elements of the slice, as many as asked for.
  pub recover_named :
      (signer : Option KeySigner) (id : ℕ) (tag : Aad) {plaintext : Bytes}
      → recover k w rpc signer id tag ≡ some (ok plaintext)
      → (stored : StoredSecret) × (committee : CommitteeInfo) × (partials : List PartialInput)
        × Stores rpc id stored
        × ((stored.aad ≡ []) ⊎ (stored.aad ≡ as_bytes tag))
        × Names rpc stored.epoch committee
        × All (Supplied k w (λ n. Listed n committee.nodes)) partials
        × (length partials ≡ committee.threshold)
        × (open_secret k committee.shared_a stored.envelope.capsule id stored.epoch
              stored.envelope.binding_id
              (as_bytes tag)
              stored.envelope.ct
              partials
            ≡ ok plaintext)
  recover_named signer id tag h =
      let (stored, committee, partials, there, tagged, seated, _, held, count, opened) =
        recover_sound k w rpc laws signer id tag h in
      (
        stored,
        committee,
        partials,
        read_secret-Stores rpc id there,
        tagged,
        committee_info-Names rpc stored.epoch seated,
        held,
        count,
        opened,
      )
