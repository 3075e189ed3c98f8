-- ===== src/Chain/Recover/Integrity.antt =====
-- From sealing to recovery: what a client recovers is what was sealed.
mod Tests
use matter_sdk.Common.{ℕ, ◌≡◌, ap, subst, sym, ◌∙◌, ◌⊎◌, Option, some, Result, ok, arith}
use matter_sdk.Core.Aad.{Aad, as_bytes}
use matter_sdk.Core.Crypto.{Bytes, Crypto}
use matter_sdk.Core.Seal.{EncryptedSecret, encrypt}
use matter_sdk.Core.Open.{PartialInput, open_secret}
use matter_sdk.Core.Authentic.{AeadLaws, open_secret_authentic}
use matter_sdk.Error.{SdkError}
use matter_sdk.Signer.{KeySigner}
use matter_sdk.Committee.{World}
use matter_sdk.Committee.Choice.{ChoiceLaws}
use matter_sdk.Chain.Recover.{Rpc, StoredSecret, read_secret, recover}
use matter_sdk.Chain.Recover.Sound.{recover_sound}

-- If the chain stores an envelope that `encrypt` made, every successful recovery returns exactly the
-- plaintext that was sealed, and only to a request with the tag that it was sealed under: whatever
-- the nodes of the committee answer, and also where the chain records no tag. The encryption is
-- assumed to be authenticated, and the random choice to choose elements of the slice, as many as
-- asked for.
pub recover-encrypt :
    (k : Crypto) (w : World k) (rpc : Rpc)
    → AeadLaws k
    → ChoiceLaws w
    → (fresh : Bytes) (seed : ℕ) (joint_pk : Bytes) (epoch : ℕ) (plaintext sealed_under : Bytes)
      (given : Option Bytes) (stored : StoredSecret) (signer : Option KeySigner) (id : ℕ)
      (tag : Aad) {found : Bytes}
    → encrypt k fresh seed joint_pk epoch plaintext sealed_under given ≡ ok stored.envelope
    → read_secret rpc id ≡ ok stored
    → recover k w rpc signer id tag ≡ some (ok found)
    → (found ≡ plaintext) × (as_bytes tag ≡ sealed_under)
recover-encrypt k w rpc aead laws fresh seed joint_pk epoch plaintext sealed_under given stored
      signer id tag made here recovered =
    let (stored', committee, partials, there, _, _, _, _, _, opened) =
      recover_sound k w rpc laws signer id tag recovered in
    let same : stored' ≡ stored = ground arith in
    let same_envelope : stored.envelope ≡ stored'.envelope =
      ap (λ (s : StoredSecret). s.envelope) (sym same) in
    open_secret_authentic k aead fresh seed joint_pk epoch plaintext sealed_under given
      stored'.envelope committee.shared_a stored'.envelope.capsule id stored'.epoch
      stored'.envelope.binding_id (as_bytes tag) partials (made ∙ ap ok same_envelope) opened
